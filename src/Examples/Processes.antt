-- ===== src/Examples/Processes.antt =====
-- The theorems on the tables and on the shutdown thread, at concrete tables.
use qgis_scheduler.Prelude.{
  contains, str_eq, String, not, ◌&&◌, ◌<◌, ◌≤◌, if◌then◌else◌, ℕ, ◌+◌, ◌≡◌, ◌≢◌, ◌⊎◌, refl, true,
  false, Option, none, some, List, [], ◌∷◌, arith, All, ◌==◌, pos, select, ltb, ◌+ℤ◌, ℤ,
}
use qgis_scheduler.Outcome.{ok}
use qgis_scheduler.Timer.{Timespec, timer_add, timer_isgreaterthan}
use qgis_scheduler.Database.{
  update, list_shutdown, Limit, Process, list_active, proc_idle, proc_term, proc_kill, proc_exit,
  Store, sigterm, sigkill, delete, count, any, list_init,
}
use qgis_scheduler.Database.Claim.{
  Takes, NoneReady, AnswerLater, get_next_idle_process-answer, claim_idle_once,
}
use qgis_scheduler.Database.Invariant.{
  IsSound, WellFormed, done, step_then, adds_process, sets_state, Steps-WellFormed,
}
use qgis_scheduler.Database.Moves.{of_project, of_others}
use qgis_scheduler.Database.Processes.{
  in_state, new_process, add_process, get_process, claim_idle, timed_out,
  get_next_idle_process_for_busy_work, get_num_shutdown_processes, is_ready, process_set_state,
  get_signal_timer, reset_signal_timer,
}
use qgis_scheduler.Database.Projects.{
  new_project, get_names_project, get_startup_failures, get_num_watchd_from_watchd,
}
use qgis_scheduler.Database.Rows.{DistinctPids}
use qgis_scheduler.Shutdown.{
  Killed, no_such_process, Environment, delivered, is_due, send_signal, Checked, shutdown_round,
  leaves_loop, check_state,
}
use qgis_scheduler.Shutdown.Advance.{advance, Runnable}
use qgis_scheduler.Shutdown.Empties.{shutdown_round-empties}
use qgis_scheduler.Shutdown.Progress.{Permitted, Overdue}
use qgis_scheduler.Shutdown.Round.{in_shutdown, shutdown_round-advance}
use qgis_scheduler.Shutdown.Signals.{Signals, check_state-Signals}
use qgis_scheduler.Manager.{Started, start_new_process_wait}
use qgis_scheduler.Manager.Starts.{Exchanged, start_new_process_wait-Exchanged}
use qgis_scheduler.Projects.{Unwatched, shutdown_project}
use qgis_scheduler.Projects.Shut.{shutdown_project-Unwatches}

-- SQLite gives the first row.
abbrev pub first_row : List ℕ → Option ℕ
first_row [] = none
first_row (x ∷ xs) = some x

pub first_row-none : (xs : List ℕ) → first_row xs ≡ none → xs ≡ []
first_row-none [] h = refl
first_row-none (x ∷ xs) h = absurd (ground (arith, h))

pub first_row-some : (xs : List ℕ) (x : ℕ) → first_row xs ≡ some x → any (λ y. y == x) xs ≡ true
first_row-some [] x h = absurd (ground (arith, h))
first_row-some (y ∷ xs) x h = ground (arith, h)

abbrev pub first : Limit
first = record { pick = first_row; pick-none = first_row-none; pick-some = first_row-some }

abbrev pub seconds : ℕ → Timespec
seconds n = record { tv_sec = pos n; tv_nsec = pos 1 }

-- An idle process, and one in the shutdown list that was sent SIGTERM at second 1.
abbrev pub idle_row : Process
idle_row = record (new_process "map" 11 4) { list = list_active; state = proc_idle }

abbrev pub old_row : Process
old_row = record (new_process "map" 12 5) {
  list = list_shutdown;
  state = proc_term;
  signaltime = seconds 1;
}

abbrev pub tables : Store
tables = record {
  projects = [];
  processes = idle_row ∷ old_row ∷ [];
  has_list_change = false;
  closed = [];
  signals = [];
}

tables_pids : DistinctPids tables.processes
tables_pids = ((refl, tt), (tt, tt))

tables-IsSound : All IsSound tables.processes
tables-IsSound = ((refl, refl), ((refl, refl), tt))

get_next_idle_process-answer_example :
    ((pid : ℕ) × ((get_next_idle_process_for_busy_work first tables "map" (timed_out tables)).found
        ≡ some pid)
      × Takes tables "map" pid
          (get_next_idle_process_for_busy_work first tables "map" (timed_out tables)).store)
    ⊎ (NoneReady tables "map"
        × AnswerLater
            (timed_out tables)
            "map"
            (get_next_idle_process_for_busy_work first tables "map" (timed_out tables)))
get_next_idle_process-answer_example =
    get_next_idle_process-answer first tables "map" (timed_out tables) tables_pids tables_pids

claim_idle_once_example :
    (claim_idle first (claim_idle first tables "map").store "map").found ≢ some 11
unfolding claim_idle get_process is_ready
claim_idle_once_example = claim_idle_once first tables "map" "map" 11 tables_pids refl

pub tables-WellFormed : WellFormed tables
tables-WellFormed = record { pids = tables_pids; names = tt; sound = tables-IsSound }

abbrev pub empty_tables : Store
empty_tables = record {
  projects = [];
  processes = [];
  has_list_change = false;
  closed = [];
  signals = [];
}

abbrev one_process : Store
one_process = record empty_tables { processes = new_process "map" 11 4 ∷ [] }

one_added : add_process empty_tables "map" 11 4 ≡ ok one_process
unfolding add_process
one_added = refl

Steps-WellFormed_example : WellFormed (process_set_state one_process 11 proc_exit 0)
Steps-WellFormed_example =
    Steps-WellFormed (record { pids = tt; names = tt; sound = tt })
      (step_then (adds_process "map" 11 4 one_added)
        (step_then (sets_state 11 proc_exit 0 refl) done))

-- Round `n` starts at this second; every signal is delivered, and the timeout is ten seconds.
abbrev at_second : ℕ → Environment
at_second n = record {
  current_time = seconds n;
  stamp = λ pid. seconds n;
  kill = λ pid signal. delivered;
  term_timeout = 10;
}

permitted : (n : ℕ) → Permitted (at_second n)
permitted n pid signal h = ground (arith, h)

ready : (n pid : ℕ) → ltb 0 pid ≡ true → Runnable (at_second n) pid
ready n pid positive = record {
  positive = positive;
  term_allowed = permitted n pid sigterm;
  kill_allowed = permitted n pid sigkill;
}

shutdown_round-advance_example :
    (c : Checked) × (shutdown_round (at_second 12) tables ≡ ok c)
    × (c.store.processes
        ≡ delete
            (in_state proc_exit)
            (update in_shutdown (advance (at_second 12)) tables.processes))
shutdown_round-advance_example =
    shutdown_round-advance (at_second 12) tables tables_pids
      ((refl, ready 12 11 refl), ((refl, ready 12 12 refl), tt))

tables-Overdue : All (λ r. in_shutdown r ≡ true → Overdue (at_second 12) r) tables.processes
unfolding is_due timer_add timer_isgreaterthan ◌+ℤ◌
tables-Overdue = (λ h l. absurd (ground (arith, h)), (λ h l. refl, tt))

due_later : (pid : ℕ) → is_due (at_second 23) (seconds 12) ≡ true
unfolding is_due timer_add timer_isgreaterthan ◌+ℤ◌
due_later pid = refl

due_last : (pid : ℕ) → is_due (at_second 34) (seconds 23) ≡ true
unfolding is_due timer_add timer_isgreaterthan ◌+ℤ◌
due_last pid = refl

shutdown_round-empties_example :
    (c1 : Checked) × (c2 : Checked) × (c3 : Checked) × (shutdown_round (at_second 12) tables
      ≡ ok c1)
    × (shutdown_round (at_second 23) c1.store ≡ ok c2)
    × (shutdown_round (at_second 34) c2.store ≡ ok c3)
    × (get_num_shutdown_processes c3.store ≡ 0)
    × (leaves_loop true c3.store ≡ true)
shutdown_round-empties_example =
    shutdown_round-empties (at_second 12) (at_second 23) (at_second 34) tables (permitted 12)
      (permitted 23) (permitted 34) tables_pids tables-IsSound tables-Overdue due_later due_last

-- The old process is sent SIGKILL.
abbrev killed_row : Process
killed_row = record old_row { state = proc_kill; signaltime = seconds 12 }

abbrev killed : Store
killed = record tables {
  processes = idle_row ∷ killed_row ∷ [];
  signals = record { target = 12; signal = sigkill } ∷ [];
}

kill_sent : check_state (at_second 12) tables 12 (some proc_term) ≡ ok killed
unfolding check_state get_signal_timer send_signal reset_signal_timer process_set_state is_due
    timer_add timer_isgreaterthan ◌+ℤ◌
kill_sent = refl

check_state-Signals_example : Signals (at_second 12) tables 12 (some proc_term) killed
check_state-Signals_example =
    check_state-Signals (at_second 12) tables killed 12 (some proc_term) kill_sent

-- A project with one failure; its idle process is exchanged for a new one.
abbrev failed_once : Store
failed_once = record tables { projects = record (new_project "map") { nr_crashs = 1 } ∷ [] }

abbrev joined_tables : Store
joined_tables = record failed_once { processes = idle_row ∷ old_row ∷ new_process "map" 13 6 ∷ [] }

failures_counted : get_startup_failures failed_once "map" ≡ some 1
unfolding get_startup_failures
failures_counted = refl

start_new_process_wait-Exchanged_example :
    ((4 ≤ 1)
      × (start_new_process_wait failed_once joined_tables 1 "map" true
          ≡ ok (record { store = failed_once; num = 0 })))
    ⊎ ((1 < 4)
        × (c : Started) × (start_new_process_wait failed_once joined_tables 1 "map" true ≡ ok c)
        × (c.num ≡ 1)
        × Exchanged joined_tables c.store "map")
start_new_process_wait-Exchanged_example =
    start_new_process_wait-Exchanged failed_once joined_tables 1 1 "map" (omega arith)
      failures_counted

-- The process 11 does not exist any more.
abbrev only_12 : ℕ → Killed
only_12 pid = if pid == 11 then no_such_process else delivered

shutdown_project-Unwatches_example :
    (u : Unwatched) × (shutdown_project (λ w. true) joined_tables "map" ≡ ok u)
    × ((n : String)
        → contains n (get_names_project u.store)
          ≡ (contains n (get_names_project joined_tables) && not (str_eq "map" n)))
    × (count (of_project "map" list_init) u.store.processes ≡ 0)
    × (count (of_project "map" list_active) u.store.processes ≡ 0)
    × (count (of_project "map" list_shutdown) u.store.processes
        ≡ count (of_project "map" list_shutdown) joined_tables.processes
          + count (of_project "map" list_init) joined_tables.processes
          + count (of_project "map" list_active) joined_tables.processes)
    × (select (of_others "map") u.store.processes
        ≡ select (of_others "map") joined_tables.processes)
    × ((w : ℤ) → u.removed ≡ some w → get_num_watchd_from_watchd joined_tables w ≤ 1)
shutdown_project-Unwatches_example =
    shutdown_project-Unwatches (λ w. true) joined_tables "map" (λ w. refl)
