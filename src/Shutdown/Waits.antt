-- ===== src/Shutdown/Waits.antt =====
-- qgis_shutdown_queue.c: the shutdown thread does not miss a notification.
use qgis_scheduler.Prelude.{
  ◌<◌, ltb, ℕ, ◌≡◌, refl, sym, ap, Bool, Bool-cases, true, false, ◌⊎◌, inl, inr, Option, none, some,
  List, arith, All, if◌then◌else◌, subst, length, pos,
}
use qgis_scheduler.Outcome.{ok}
use qgis_scheduler.Timer.{Timespec, timer_add, timer_is_empty}
use qgis_scheduler.Database.{Process, Store, list_shutdown, update}
use qgis_scheduler.Database.Processes.{
  has_pid, with_list, process_set_state, get_list_process_by_list, move_process_to_list, move_all,
  get_num_shutdown_processes,
}
use qgis_scheduler.Database.Rows.{DistinctPids, select-none}
use qgis_scheduler.Database.Invariant.{IsSound}
use qgis_scheduler.Shutdown.{leaves_loop}
use qgis_scheduler.Shutdown.Round.{in_shutdown}
use qgis_scheduler.Shutdown.Handled.{Timed, empty_timer-Away}
use qgis_scheduler.Shutdown.Thread.{
  Location, round_begin, checking, reading_timer, locking, waiting, woken, deciding, ended, State,
  reset_change, wait_until, lock_queue, decide, wake, notify_changes, wait_empty, Step, lists,
  checks, weeds, reads_timer, locks, wakes_alone, wakes, decides, moves_process, moves_project,
  notifies, waits_empty, adds_process, sets_state, IsQuiet, AllQuiet, Reach, start, later,
}
use qgis_scheduler.Shutdown.Kept.{
  Settled, Knows, Invariant, kept, state_Keeps, adds-Invariant, moved-Invariant, Knows-store,
}
use qgis_scheduler.Shutdown.Checks.{listed, checks-Invariant, weeds-Invariant}

-- Only the place changes.
placed :
    (t : State) (at : Location)
    → Knows t at
    → (t.pending ≡ 0 → t.has_list_change ≡ false → Settled at t.store.processes)
    → Invariant t
    → Invariant (record t { at = at })
placed t at knows settled i = record {
  pids = i.pids;
  sound = i.sound;
  timed = i.timed;
  knows = Knows-store t t.store t.pending at knows;
  settled = settled;
}

reset-Invariant : (t : State) → Invariant t → Invariant (reset_change t)
unfolding reset_change
reset-Invariant t i = record {
  pids = i.pids;
  sound = i.sound;
  timed = i.timed;
  knows = tt;
  settled = λ p f. tt;
}

wait_until-cases :
    (now : Timespec) (term_timeout : ℕ) (min_timer : Timespec) (down : Bool)
    → ((until : Timespec) × (wait_until now term_timeout min_timer down ≡ some until))
      ⊎ ((wait_until now term_timeout min_timer down ≡ none)
          × (timer_is_empty min_timer ≡ true)
          × (down ≡ false))
unfolding wait_until
wait_until-cases now term_timeout min_timer down = elim (Bool-cases (timer_is_empty min_timer)) [
  | inr timer ↦
      inl
        (timer_add min_timer (record { tv_sec = pos term_timeout; tv_nsec = pos 0 }), rw timer refl)
  | inl empty ↦ elim (Bool-cases down) [
    | inl ends ↦ inl (
      timer_add now (record { tv_sec = pos 0; tv_nsec = pos 200_000_000 }),
      rw (empty, ends) refl,
    )
    | inr up ↦ inr (rw (empty, up) refl, empty, up)
  ]
]

waits-Invariant :
    (t : State) (until : Option Timespec) (min_timer : Timespec)
    → t.at ≡ locking min_timer
    → t.has_list_change ≡ false
    → ((u : Timespec) × (until ≡ some u))
      ⊎ ((until ≡ none) × (timer_is_empty min_timer ≡ true) × (t.do_shutdown_thread ≡ false))
    → Invariant t
    → Invariant (record t { at = waiting until })
waits-Invariant t until min_timer place no_change (inl (u, e)) i =
    subst (λ w. Invariant (record t { at = waiting w })) (sym e)
      (placed t (waiting (some u)) tt (λ p f. tt) i)
waits-Invariant t until min_timer place no_change (inr (e, empty, up)) i =
    subst (λ w. Invariant (record t { at = waiting w })) (sym e)
      (placed t (waiting none) (no_change, up)
        (λ p f. (subst (λ at. Settled at t.store.processes) place (i.settled p f)).1 empty) i)

locks-Invariant :
    (t : State) (now : Timespec) (term_timeout : ℕ) (min_timer : Timespec)
    → t.at ≡ locking min_timer
    → Invariant t
    → Invariant (lock_queue now term_timeout min_timer t)
unfolding lock_queue wait_until
locks-Invariant t now term_timeout min_timer place i = elim (Bool-cases t.has_list_change) [
  | inl change ↦
      let resets : lock_queue now term_timeout min_timer t ≡ reset_change t =
        ap
          (λ (b : Bool). if b then reset_change t else record t {
            at = waiting (wait_until now term_timeout min_timer t.do_shutdown_thread);
          })
          change in
      subst Invariant (sym resets) (reset-Invariant t i)
  | inr no_change ↦
      let until = wait_until now term_timeout min_timer t.do_shutdown_thread in
      let waits : lock_queue now term_timeout min_timer t ≡ record t { at = waiting until } =
        ap (λ (b : Bool). if b then reset_change t else record t { at = waiting until })
          no_change in
      subst Invariant (sym waits) (
        waits-Invariant t until min_timer place no_change
          (wait_until-cases now term_timeout min_timer t.do_shutdown_thread) i)
]

wakes_up-Knows : (t u : State) (at : Location) → Knows t at → Knows u (wake at)
wakes_up-Knows t u (checking env todo) k = k
wakes_up-Knows t u (waiting until) k = tt
wakes_up-Knows t u round_begin k = tt
wakes_up-Knows t u reading_timer k = tt
wakes_up-Knows t u (locking min_timer) k = tt
wakes_up-Knows t u woken k = tt
wakes_up-Knows t u (deciding down) k = tt
wakes_up-Knows t u ended k = tt

wakes_up-Settled : (at : Location) (rows : List Process) → Settled at rows → Settled (wake at) rows
wakes_up-Settled (checking env todo) rows h = h
wakes_up-Settled (waiting until) rows h = tt
wakes_up-Settled round_begin rows h = tt
wakes_up-Settled reading_timer rows h = h
wakes_up-Settled (locking min_timer) rows h = h
wakes_up-Settled woken rows h = tt
wakes_up-Settled (deciding down) rows h = tt
wakes_up-Settled ended rows h = tt

decide-Invariant : (t : State) (down : Bool) → Invariant t → Invariant (decide down t)
unfolding decide
decide-Invariant t down i = elim (Bool-cases (leaves_loop down t.store)) [
  | inl ends ↦ rw ends (placed t ended tt (λ p f. tt) i)
  | inr goes ↦ rw goes (placed t round_begin tt (λ p f. tt) i)
]

moved_rows :
    (s s' : Store) (pid : ℕ)
    → move_process_to_list s list_shutdown pid ≡ ok s'
    → s'.processes ≡ update (has_pid pid) (with_list list_shutdown) s.processes
unfolding move_process_to_list
moved_rows s s' pid ran = ground (arith, ran)

Step-Invariant : {t u : State} (step : Step t u) → IsQuiet step → Invariant t → Invariant u
unfolding notify_changes wait_empty move_process_to_list move_all process_set_state
    get_list_process_by_list
Step-Invariant {t} (lists env place) steady i =
    placed t _ steady (λ p f. listed t.store.processes) i
Step-Invariant {t} (checks env pid todo s place ran) q i =
    checks-Invariant t env pid todo s place ran i
Step-Invariant {t} (weeds env place) q i = weeds-Invariant t env place i
Step-Invariant {t} (reads_timer place) q i =
    placed t _ tt
      (λ p f.
        let stamped = subst (λ at. Settled at t.store.processes) place (i.settled p f) in
        (stamped, λ e. empty_timer-Away t.store e stamped))
      i
Step-Invariant {t} (locks now term_timeout min_timer place) q i =
    locks-Invariant t now term_timeout min_timer place i
Step-Invariant {t} (wakes_alone until place) q i = reset-Invariant t i
Step-Invariant {t} (wakes place) q i = reset-Invariant t i
Step-Invariant {t} (decides down place) q i = decide-Invariant t down i
Step-Invariant {t} (moves_process pid s ran) q i =
    moved-Invariant t s (has_pid pid) list_shutdown (moved_rows t.store s pid ran) i
Step-Invariant {t} (moves_project projname from to) q i = moved-Invariant t _ _ to refl i
Step-Invariant {t} (notifies n e) q i = record {
  pids = i.pids;
  sound = i.sound;
  timed = i.timed;
  knows = wakes_up-Knows t (notify_changes (record t { pending = n })) t.at i.knows;
  settled = λ p f. absurd (ground (arith, f));
}
Step-Invariant {t} waits_empty q i = record {
  pids = i.pids;
  sound = i.sound;
  timed = i.timed;
  knows = wakes_up-Knows t (wait_empty t) t.at i.knows;
  settled = λ p f. wakes_up-Settled t.at t.store.processes (i.settled p f);
}
Step-Invariant {t} (adds_process projname pid fd s ran) q i =
    adds-Invariant t s projname pid fd ran i
Step-Invariant {t} (sets_state pid state threadid given) live i =
    kept t _ (state_Keeps t.store.processes pid state threadid given live) i

Reach-Invariant :
    {s : Store} {t : State}
    → DistinctPids s.processes
    → All IsSound s.processes
    → All Timed s.processes
    → (reach : Reach s t) → AllQuiet reach
    → Invariant t
Reach-Invariant d sound timed start quiet = record {
  pids = d;
  sound = sound;
  timed = timed;
  knows = tt;
  settled = λ p f. tt;
}
Reach-Invariant d sound timed (later before step) quiet =
    Step-Invariant step quiet.1 (Reach-Invariant d sound timed before quiet.0)

-- In every state that the shutdown thread and the other threads reach together, from tables with
-- distinct and sound rows in which each process that was signalled has its timer set, if in this run no
-- thread sets the state of a process that is in the state exit, kill() fails only for a process that is
-- gone, and no signal timer has 0 as its seconds or its nanoseconds: when the thread
-- waits without an end, no notification is left that it has not seen and the program does not shut
-- down, and if each move of processes has been notified, the shutdown list is empty.
pub waiting-Away :
    (s : Store) (t : State)
    → DistinctPids s.processes
    → All IsSound s.processes
    → All Timed s.processes
    → (reach : Reach s t) → AllQuiet reach
    → t.at ≡ waiting none
    → (t.has_list_change ≡ false)
      × (t.do_shutdown_thread ≡ false)
      × ((0 < t.pending) ⊎ (get_num_shutdown_processes t.store ≡ 0))
unfolding get_num_shutdown_processes
waiting-Away s t d sound timed reach quiet place =
    let i = Reach-Invariant d sound timed reach quiet in
    let (no_change, up) = subst (Knows t) place i.knows in
    (
      no_change,
      up,
      elim (Bool-cases (ltb 0 t.pending)) [
        | inl some_pending ↦ inl (ground (arith, some_pending))
        | inr none_pending ↦ inr (
            ap length (
              select-none in_shutdown t.store.processes (
                subst (λ at. Settled at t.store.processes) place
                  (i.settled (ground (arith, none_pending)) no_change))))
      ],
    )
