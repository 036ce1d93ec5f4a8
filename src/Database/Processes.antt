-- ===== src/Database/Processes.antt =====
-- database.c: the functions on the table processes. A pid of the result -1 is `none`.
use qgis_scheduler.Prelude.{
  ℕ, Bool, true, not, ◌&&◌, ◌||◌, Option, none, some, List, [], ◌∷◌, ◌++◌, map, ltb, ◌==◌,
  if◌then◌else◌, String, str_eq, pos, eqb_ℤ, select,
}
use qgis_scheduler.Outcome.{Outcome, ok, ◌>>◌, assert}
use qgis_scheduler.Timer.{Timespec, timer_isgreaterthan}
use qgis_scheduler.Database.{
  ProcessList, list_init, list_active, list_shutdown, ProcessState, proc_start, proc_init,
  proc_idle, proc_busy, proc_exit, list_code, state_code, Process, Store, update, delete, last_of,
  count, any, Limit,
}

abbrev pub no_time : Timespec
no_time = record { tv_sec = pos 0; tv_nsec = pos 0 }

-- The conditions of the statements.
abbrev pub has_pid : ℕ → Process → Bool
has_pid pid r = r.pid == pid

abbrev pub in_list : ProcessList → Process → Bool
in_list list r = list_code r.list == list_code list

abbrev pub in_state : ProcessState → Process → Bool
in_state state r = state_code r.state == state_code state

unfoldable pub is_ready : String → Process → Bool
is_ready projname r = str_eq r.projectname projname && in_list list_active r && in_state proc_idle r

abbrev pub find_process : Store → ℕ → Option Process
find_process s pid = last_of (select (has_pid pid) s.processes)

abbrev pub new_process : String → ℕ → ℕ → Process
new_process projname pid process_socket_fd = record {
  projectname = projname;
  list = list_init;
  state = proc_start;
  threadid = 0;
  pid = pid;
  process_socket_fd = process_socket_fd;
  signaltime = no_time;
}

-- db_add_process(): a pid that the table holds is refused, which is only logged.
unfoldable pub add_process : Store → String → ℕ → ℕ → Outcome Store
add_process s projname pid process_socket_fd = do
  assert (ltb 0 pid)
  ok (
      if any (has_pid pid) s.processes then s else record s {
        processes = s.processes ++ (new_process projname pid process_socket_fd ∷ []);
      })

unfoldable pub get_project_for_this_process : Store → ℕ → Option String
get_project_for_this_process s pid = elim (find_process s pid) [
  | none ↦ none
  | some r ↦ some r.projectname
]

pub has_process : Store → ℕ → Bool
has_process s pid = any (has_pid pid) s.processes

unfoldable pub get_process_socket : Store → ℕ → Option ℕ
get_process_socket s pid = elim (find_process s pid) [
  | none ↦ none
  | some r ↦ some r.process_socket_fd
]

-- `none` is PROCESS_STATE_MAX.
unfoldable pub get_process_state : Store → ℕ → Option ProcessState
get_process_state s pid = elim (find_process s pid) [ none ↦ none | some r ↦ some r.state ]

-- db_nolock__get_process()
unfoldable pub get_process : Limit → Store → String → Option ℕ
get_process limit s projname =
    limit.pick (map (λ r. r.pid) (select (is_ready projname) s.processes))

-- db_nolock__process_set_state(): no row has a negative pid.
abbrev pub with_state : ProcessState → ℕ → Process → Process
with_state state threadid r = record r { state = state; threadid = threadid }

unfoldable pub process_set_state : Store → ℕ → ProcessState → ℕ → Store
process_set_state s pid state threadid = record s {
  processes = update (has_pid pid) (with_state state threadid) s.processes;
}

unfoldable pub process_set_state_init : Store → ℕ → ℕ → Store
process_set_state_init s pid threadid = process_set_state s pid proc_init threadid

unfoldable pub process_set_state_idle : Store → ℕ → Store
process_set_state_idle s pid = process_set_state s pid proc_idle 0

unfoldable pub process_set_state_exit : Store → ℕ → Store
process_set_state_exit s pid = process_set_state s pid proc_exit 0

-- What a claim leaves, with the pid that it returns.
pub record Claimed : Type 0 where
  pub store : Store
  pub found : Option ℕ

-- The two places of db_get_next_idle_process_for_busy_work() that look for an idle process and take
-- it, under the lock of the database.
unfoldable pub claim_idle : Limit → Store → String → Claimed
claim_idle limit s projname = elim (get_process limit s projname) [
  | none ↦ record { store = s; found = none }
  | some pid ↦ record { store = process_set_state s pid proc_busy 0; found = some pid }
]

-- How pthread_cond_timedwait() returns, with the tables as the other threads have left them.
pub data Wake : Type 0 where
  signalled timed_out : Store → Wake

unfoldable pub get_next_idle_process_for_busy_work : Limit → Store → String → Wake → Claimed
get_next_idle_process_for_busy_work limit s projname wake =
    let first = claim_idle limit s projname in
    elim first.found [
      | some pid ↦ first
      | none ↦ elim wake [
        | signalled later ↦ claim_idle limit later projname
        | timed_out later ↦ record { store = later; found = none }
      ]
    ]

unfoldable pub get_num_process_by_status : Store → String → ProcessState → ℕ
get_num_process_by_status s projname state =
    count (λ r. str_eq r.projectname projname && in_state state r) s.processes

unfoldable pub get_num_active_process : Store → String → ℕ
get_num_active_process s projname = get_num_process_by_status s projname proc_busy

unfoldable pub get_num_start_init_idle_process : Store → String → ℕ
get_num_start_init_idle_process s projname =
    count
      (λ r.
        str_eq r.projectname projname
        && (in_state proc_start r || in_state proc_init r || in_state proc_idle r))
      s.processes

unfoldable pub get_complete_list_process : Store → List ℕ
get_complete_list_process s = map (λ r. r.pid) s.processes

unfoldable pub get_list_process_by_list : Store → ProcessList → List ℕ
get_list_process_by_list s list = map (λ r. r.pid) (select (in_list list) s.processes)

abbrev pub with_list : ProcessList → Process → Process
with_list list r = record r { list = list }

unfoldable pub move_process_to_list : Store → ProcessList → ℕ → Outcome Store
move_process_to_list s list pid = do
  assert (ltb 0 pid)
  ok (record s { processes = update (has_pid pid) (with_list list) s.processes })

-- `none` is LIST_SELECTOR_MAX.
unfoldable pub get_process_list : Store → ℕ → Outcome (Option ProcessList)
get_process_list s pid = do
  assert (ltb 0 pid)
  ok (elim (find_process s pid) [ none ↦ none | some r ↦ some r.list ])

-- The three functions that move the processes of a project, with their notification.
unfoldable pub move_all : Store → String → ProcessList → ProcessList → Store
move_all s projname from to = record s {
  processes =
      update (λ r. str_eq r.projectname projname && in_list from r) (with_list to) s.processes;
  has_list_change = true;
}

unfoldable pub move_all_idle_process_from_init_to_active_list : Store → String → Store
move_all_idle_process_from_init_to_active_list s projname =
    move_all s projname list_init list_active

unfoldable pub move_all_process_from_active_to_shutdown_list : Store → String → Store
move_all_process_from_active_to_shutdown_list s projname =
    move_all s projname list_active list_shutdown

unfoldable pub move_all_process_from_init_to_shutdown_list : Store → String → Store
move_all_process_from_init_to_shutdown_list s projname = move_all s projname list_init list_shutdown

unfoldable pub move_all_process_to_list : Store → ProcessList → Store
move_all_process_to_list s list = record s {
  processes = update (λ r. true) (with_list list) s.processes;
}

-- db_reset_signal_timer(), with the reading of the clock.
abbrev pub with_signaltime : Timespec → Process → Process
with_signaltime ts r = record r { signaltime = ts }

unfoldable pub reset_signal_timer : Store → ℕ → Timespec → Store
reset_signal_timer s pid ts = record s {
  processes = update (has_pid pid) (with_signaltime ts) s.processes;
}

unfoldable pub get_signal_timer : Store → ℕ → Timespec
get_signal_timer s pid = elim (find_process s pid) [ none ↦ no_time | some r ↦ r.signaltime ]

unfoldable pub is_set : Process → Bool
is_set r = not (eqb_ℤ r.signaltime.tv_sec (pos 0)) && not (eqb_ℤ r.signaltime.tv_nsec (pos 0))

-- `ORDER BY signaltime_sec ASC, signaltime_nsec ASC LIMIT 1`
unfoldable pub earliest : Timespec → List Process → Timespec
earliest t [] = t
earliest t (r ∷ rs) = earliest (if timer_isgreaterthan t r.signaltime then r.signaltime else t) rs

abbrev pub earliest_of : List Process → Timespec
earliest_of [] = no_time
earliest_of (r ∷ rs) = earliest r.signaltime rs

unfoldable pub shutdown_get_min_signaltimer : Store → Timespec
shutdown_get_min_signaltimer s = earliest_of (select is_set s.processes)

unfoldable pub get_num_shutdown_processes : Store → ℕ
get_num_shutdown_processes s = count (in_list list_shutdown) s.processes

unfoldable pub remove_process_with_state_exit : Store → Store
remove_process_with_state_exit s = record s { processes = delete (in_state proc_exit) s.processes }
