-- ===== src/Manager.antt =====
-- process_manager.c: which processes are started and restarted, and how they go from list to list; and
-- qgis_shutdown_add_process() of qgis_shutdown_queue.c. A start in a detached thread is an entry of the
-- list of starts; `program_shutdown` is the result of get_program_shutdown().
pub mod Starts
pub mod Died
pub mod Restarts
pub mod Child
pub mod Spawn
pub mod Names
pub mod Fills
pub mod Talks
pub mod Failures
pub mod Counts
use qgis_scheduler.Prelude.{
  ℕ, ◌+◌, Bool, true, false, not, ◌||◌, Option, none, some, List, [], ◌∷◌, ◌++◌, ltb, ◌==◌,
  if◌then◌else◌, String,
}
use qgis_scheduler.Outcome.{Outcome, ok, fault, exit_failure, ◌>>=◌, ◌>>◌, assert}
use qgis_scheduler.Database.{ProcessList, list_shutdown, Store}
use qgis_scheduler.Database.Processes.{
  get_process_list, get_project_for_this_process, get_complete_list_process, move_process_to_list,
  move_all_idle_process_from_init_to_active_list, move_all_process_from_active_to_shutdown_list,
}
use qgis_scheduler.Database.Projects.{
  get_startup_failures, reset_startup_failures, inc_startup_failures,
}
use qgis_scheduler.Shutdown.{Killed, delivered, no_such_process, not_permitted}

abbrev pub max_nr_process_crashes : ℕ
max_nr_process_crashes = 5

-- The tables, and the number of processes that were started.
pub record Started : Type 0 where
  pub store : Store
  pub num : ℕ

-- The part of process_manager_start_new_process_wait() behind the join of its threads.
unfoldable pub integrate : Store → String → Bool → Store
integrate s projname do_exchange_processes =
    move_all_idle_process_from_init_to_active_list
      (if do_exchange_processes
        then reset_startup_failures (move_all_process_from_active_to_shutdown_list s projname)
            projname
        else s)
      projname

-- `joined` is what the started threads have made of the tables when they are joined.
unfoldable pub start_new_process_wait : Store → Store → ℕ → String → Bool → Outcome Started
start_new_process_wait s joined num projname do_exchange_processes = do
  assert (ltb 0 num)
  elim (get_startup_failures s projname) [
    | none ↦ fault exit_failure
    | some failures ↦ ok (
        if ltb (failures + 1) max_nr_process_crashes
        then record { store = integrate joined projname do_exchange_processes; num = num }
        else record { store = s; num = 0 })
  ]

-- qgis_shutdown_add_process()
unfoldable pub shutdown_add_process : Bool → Bool → Store → ℕ → Outcome Store
shutdown_add_process program_shutdown do_shutdown_thread s pid = do
  assert (program_shutdown || not do_shutdown_thread)
  s' ← move_process_to_list s list_shutdown pid
  ok (record s' { has_list_change = true })

-- The tables, and the projects for which one process each is to be started.
pub record Restarted : Type 0 where
  pub store : Store
  pub starts : List String

abbrev pub in_shutdown_list : Option ProcessList → Bool
in_shutdown_list (some list_shutdown) = true
in_shutdown_list _ = false

unfoldable pub start_of : Option String → List String
start_of none = []
start_of (some projname) = projname ∷ []

unfoldable pub restart_starts : Bool → Store → ℕ → Outcome (List String)
restart_starts program_shutdown s pid = if program_shutdown then ok [] else do
  list ← get_process_list s pid
  ok (if in_shutdown_list list then [] else start_of (get_project_for_this_process s pid))

unfoldable pub restart_process : Bool → Bool → Store → ℕ → Outcome Restarted
restart_process program_shutdown do_shutdown_thread s pid = do
  starts ← restart_starts program_shutdown s pid
  s' ← shutdown_add_process program_shutdown do_shutdown_thread s pid
  ok (record { store = s'; starts = starts })

-- The loop of process_manager_process_died(); `alive` is the result of kill(pid, 0).
unfoldable pub died_loop : Bool → Bool → (ℕ → Killed) → Store → List ℕ → Outcome Restarted
died_loop program_shutdown do_shutdown_thread alive s [] = ok (record { store = s; starts = [] })
died_loop program_shutdown do_shutdown_thread alive s (pid ∷ rest) = elim (alive pid) [
  | delivered ↦ died_loop program_shutdown do_shutdown_thread alive s rest
  | no_such_process ↦ do
    r ← restart_process program_shutdown do_shutdown_thread s pid
    d ← died_loop program_shutdown do_shutdown_thread alive r.store rest
    ok (record { store = d.store; starts = r.starts ++ d.starts })
  | not_permitted ↦ fault exit_failure
]

unfoldable pub process_died : Bool → Bool → (ℕ → Killed) → Store → Outcome Restarted
process_died program_shutdown do_shutdown_thread alive s =
    died_loop program_shutdown do_shutdown_thread alive s (get_complete_list_process s)

unfoldable pub process_died_during_init : Bool → Store → String → Store
process_died_during_init program_shutdown s projname =
    if program_shutdown then s else inc_startup_failures s projname
