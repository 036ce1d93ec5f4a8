-- ===== src/Shutdown/Thread.antt =====
-- qgis_shutdown_queue.c: the shutdown thread next to the other threads, as a step relation. A step is
-- what a thread does under one lock of the database or of shutdownmutex. The flag has_list_change of
-- the queue stands here, and not in the tables, since a thread moves processes under one lock and
-- notifies under the other; `pending` counts the moves that are not notified yet.
use qgis_scheduler.Prelude.{
  ℕ, suc, ◌+◌, ◌≡◌, Bool, true, false, Option, none, some, List, [], ◌∷◌, All, String,
  if◌then◌else◌, pos,
}
use qgis_scheduler.Outcome.{ok}
use qgis_scheduler.Timer.{Timespec, timer_add, timer_is_empty}
use qgis_scheduler.Database.{
  Store, Process, ProcessList, ProcessState, proc_init, proc_idle, proc_busy, proc_exit,
  list_shutdown,
}
use qgis_scheduler.Database.Processes.{
  has_pid, in_state, is_set, add_process, process_set_state, get_process_state,
  get_list_process_by_list, move_process_to_list, move_all, remove_process_with_state_exit,
  shutdown_get_min_signaltimer, with_signaltime,
}
use qgis_scheduler.Shutdown.{Environment, check_state, leaves_loop}
use qgis_scheduler.Shutdown.Progress.{Permitted}

-- Where the thread is in its loop. Its wait has an end, or none.
pub data Location : Type 0 where
  round_begin : Location
  checking : Environment → List ℕ → Location
  reading_timer : Location
  locking : Timespec → Location
  waiting : Option Timespec → Location
  woken : Location
  deciding : (local_do_shutdown_thread : Bool) → Location
  ended : Location

pub record State : Type 0 where
  pub store : Store
  pub has_list_change : Bool
  pub do_shutdown_thread : Bool
  pub pending : ℕ
  pub at : Location

-- Behind the wait, still under the lock.
unfoldable pub reset_change : State → State
reset_change t = record t { has_list_change = false; at = deciding t.do_shutdown_thread }

-- Until when the thread waits, if its wait has an end. `now` is the reading of the clock for the wait of
-- 0.2 seconds.
unfoldable pub wait_until :
    (now : Timespec) → (term_timeout : ℕ) → Timespec → Bool → Option Timespec
wait_until now term_timeout min_timer do_shutdown_thread =
    if timer_is_empty min_timer
    then if do_shutdown_thread
      then some (timer_add now (record { tv_sec = pos 0; tv_nsec = pos 200_000_000 }))
      else none
    else some (timer_add min_timer (record { tv_sec = pos term_timeout; tv_nsec = pos 0 }))

-- The part under shutdownmutex, up to the wait.
unfoldable pub lock_queue : (now : Timespec) → (term_timeout : ℕ) → Timespec → State → State
unfolding reset_change wait_until
lock_queue now term_timeout min_timer t =
    if t.has_list_change
    then reset_change t
    else record t { at = waiting (wait_until now term_timeout min_timer t.do_shutdown_thread) }

-- The end of the loop's body.
unfoldable pub decide : Bool → State → State
decide down t = record t { at = if leaves_loop down t.store then ended else round_begin }

-- pthread_cond_signal()
abbrev pub wake : Location → Location
wake (waiting until) = woken
wake at = at

-- qgis_shutdown_notify_changes(), which is also the end of qgis_shutdown_add_process()
unfoldable pub notify_changes : State → State
notify_changes t = record t { has_list_change = true; at = wake t.at }

-- qgis_shutdown_wait_empty()
unfoldable pub wait_empty : State → State
wait_empty t = record t { do_shutdown_thread = true; at = wake t.at }

-- kill() fails only for a process that does not exist, and both parts of a reading of the clock are not
-- 0: shutdown_get_min_signaltimer() leaves a timer on a full second out.
pub record IsSteady (env : Environment) : Type 0 where
  pub permitted : Permitted env
  pub stamped : (pid : ℕ) (r : Process) → is_set (with_signaltime (env.stamp pid) r) ≡ true

-- The states that the other threads set.
pub data Given : ProcessState → Type 0 where
  is_init : Given proc_init
  is_idle : Given proc_idle
  is_busy : Given proc_busy

-- A step of the shutdown thread, or of another thread. The wait may return by its end or by itself.
pub data Step : State → State → Type 0 where
  lists :
      {t : State} (env : Environment)
      → t.at ≡ round_begin
      → Step t (record t { at = checking env (get_list_process_by_list t.store list_shutdown) })
  checks :
      {t : State} (env : Environment) (pid : ℕ) (todo : List ℕ) (s : Store)
      → t.at ≡ checking env (pid ∷ todo)
      → check_state env t.store pid (get_process_state t.store pid) ≡ ok s
      → Step t (record t { store = s; at = checking env todo })
  weeds :
      {t : State} (env : Environment)
      → t.at ≡ checking env []
      → Step t (record t { store = remove_process_with_state_exit t.store; at = reading_timer })
  reads_timer :
      {t : State}
      → t.at ≡ reading_timer
      → Step t (record t { at = locking (shutdown_get_min_signaltimer t.store) })
  locks :
      {t : State} (now : Timespec) (term_timeout : ℕ) (min_timer : Timespec)
      → t.at ≡ locking min_timer
      → Step t (lock_queue now term_timeout min_timer t)
  wakes_alone :
      {t : State} (until : Option Timespec) → t.at ≡ waiting until → Step t (reset_change t)
  wakes : {t : State} → t.at ≡ woken → Step t (reset_change t)
  decides : {t : State} (down : Bool) → t.at ≡ deciding down → Step t (decide down t)
  moves_process :
      {t : State} (pid : ℕ) (s : Store)
      → move_process_to_list t.store list_shutdown pid ≡ ok s
      → Step t (record t { store = s; pending = t.pending + 1 })
  moves_project :
      {t : State} (projname : String) (from to : ProcessList)
      → Step t (record t { store = move_all t.store projname from to; pending = t.pending + 1 })
  notifies :
      {t : State} (n : ℕ) → t.pending ≡ suc n → Step t (notify_changes (record t { pending = n }))
  waits_empty : {t : State} → Step t (wait_empty t)
  adds_process :
      {t : State} (projname : String) (pid fd : ℕ) (s : Store)
      → add_process t.store projname pid fd ≡ ok s
      → Step t (record t { store = s })
  sets_state :
      {t : State} (pid : ℕ) (state : ProcessState) (threadid : ℕ)
      → Given state
      → Step t (record t { store = process_set_state t.store pid state threadid })

-- The thread at its start, with these tables.
abbrev pub started : Store → State
started s = record {
  store = s;
  has_list_change = false;
  do_shutdown_thread = false;
  pending = 0;
  at = round_begin;
}

pub data Reach (s : Store) : State → Type 0 where
  start : Reach s (started s)
  later : {t u : State} → Reach s t → Step t u → Reach s u

-- A step with calls as above, and one that does not set the state of a process in the state exit. The code
-- does not look at that state before it makes a process idle.
abbrev pub IsQuiet : {t u : State} → Step t u → Type 0
IsQuiet (lists env place) = IsSteady env
IsQuiet {t} (sets_state pid state threadid given) =
    All (λ r. has_pid pid r ≡ true → in_state proc_exit r ≡ false) t.store.processes
IsQuiet _ = Unit

-- All steps of a run are so.
abbrev pub AllQuiet : {s : Store} {t : State} → Reach s t → Type 0
AllQuiet start = Unit
AllQuiet (later before step) = AllQuiet before × IsQuiet step
