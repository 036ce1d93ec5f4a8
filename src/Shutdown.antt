-- ===== src/Shutdown.antt =====
-- qgis_shutdown_queue.c: the thread that ends the processes of the shutdown list, and
-- process_manager_cleanup_process() of process_manager.c.
pub mod Advance
pub mod Round
pub mod Progress
pub mod Empties
pub mod Signals
pub mod Thread
pub mod Handled
pub mod Kept
pub mod Checks
pub mod Waits
use qgis_scheduler.Prelude.{
  ℕ, ◌≡◌, Bool, true, false, Option, none, some, List, [], ◌∷◌, ltb, ◌==◌, if◌then◌else◌, ℤ, pos,
}
use qgis_scheduler.Outcome.{Outcome, ok, fault, exit_failure, ◌>>=◌, ◌>>◌, assert}
use qgis_scheduler.Timer.{Timespec, timer_add, timer_isgreaterthan}
use qgis_scheduler.Database.{
  Store, Signal, sigterm, sigkill, ProcessState, proc_start, proc_init, proc_idle, proc_open_idle,
  proc_busy, proc_term, proc_kill, proc_exit, list_shutdown,
}
use qgis_scheduler.Database.Processes.{
  get_process_socket, process_set_state, process_set_state_exit, get_process_state,
  get_list_process_by_list, reset_signal_timer, get_signal_timer, remove_process_with_state_exit,
  shutdown_get_min_signaltimer, get_num_shutdown_processes, move_process_to_list,
  move_all_process_from_init_to_shutdown_list, move_all_process_from_active_to_shutdown_list,
}

-- What kill() returns: 0, or -1 with errno ESRCH, or -1 with another errno.
pub data Killed : Type 0 where
  delivered no_such_process not_permitted : Killed

-- What a round reads from outside: the clock at its begin, the clock as each process's timer is reset,
-- the results of kill(), and the configured timeout in seconds.
pub record Environment : Type 0 where
  pub current_time : Timespec
  pub stamp : ℕ → Timespec
  pub kill : ℕ → Signal → Killed
  pub term_timeout : ℕ

unfoldable pub close_socket : Store → Option ℕ → Store
close_socket s none = s
close_socket s (some fd) = record s { closed = fd ∷ s.closed }

-- process_manager_cleanup_process()
unfoldable pub cleanup_process : Store → ℕ → Outcome Store
cleanup_process s pid = do
  assert (ltb 0 pid)
  ok (process_set_state_exit (close_socket s (get_process_socket s pid)) pid)

-- The signal is sent; a process that does not exist is cleaned up, another error ends the program.
unfoldable pub send_signal : Environment → Store → ℕ → Signal → ProcessState → Outcome Store
send_signal env s pid signal next = elim (env.kill pid signal) [
  | delivered ↦ ok (
      reset_signal_timer
        (process_set_state
          (record s { signals = record { target = pid; signal = signal } ∷ s.signals }) pid next 0)
        pid (env.stamp pid))
  | no_such_process ↦ cleanup_process s pid
  | not_permitted ↦ fault exit_failure
]

-- `current_time` is later than the signal timer with the timeout added.
unfoldable pub is_due : Environment → Timespec → Bool
is_due env t =
    timer_isgreaterthan env.current_time
      (timer_add t (record { tv_sec = pos env.term_timeout; tv_nsec = pos 0 }))

-- The switch in the loop of qgis_shutdown_thread().
unfoldable pub check_state : Environment → Store → ℕ → Option ProcessState → Outcome Store
check_state env s pid (some proc_start) = send_signal env s pid sigterm proc_term
check_state env s pid (some proc_init) = send_signal env s pid sigterm proc_term
check_state env s pid (some proc_idle) = send_signal env s pid sigterm proc_term
check_state env s pid (some proc_busy) = send_signal env s pid sigterm proc_term
check_state env s pid (some proc_term) =
    if is_due env (get_signal_timer s pid) then send_signal env s pid sigkill proc_kill else ok s
check_state env s pid (some proc_kill) =
    if is_due env (get_signal_timer s pid) then cleanup_process s pid else ok s
check_state env s pid (some proc_exit) = ok s
check_state env s pid (some proc_open_idle) = fault exit_failure
check_state env s pid none = ok s

-- The loop over the pids that were in the shutdown list at the begin of the round.
unfoldable pub check_processes : Environment → Store → List ℕ → Outcome Store
check_processes env s [] = ok s
check_processes env s (pid ∷ rest) = do
  s' ← check_state env s pid (get_process_state s pid)
  check_processes env s' rest

-- What a round leaves, with the timer that the thread waits on.
pub record Checked : Type 0 where
  pub store : Store
  pub min_timer : Timespec

-- One round of qgis_shutdown_thread(), up to its wait.
unfoldable pub shutdown_round : Environment → Store → Outcome Checked
shutdown_round env s = do
  s' ← check_processes env s (get_list_process_by_list s list_shutdown)
  let s'' = remove_process_with_state_exit s'
  ok (record { store = s''; min_timer = shutdown_get_min_signaltimer s'' })

-- The thread leaves its loop behind the wait.
unfoldable pub leaves_loop : Bool → Store → Bool
leaves_loop do_shutdown_thread s =
    if do_shutdown_thread then get_num_shutdown_processes s == 0 else false
