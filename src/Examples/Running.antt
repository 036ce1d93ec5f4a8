-- ===== src/Examples/Running.antt =====
-- The theorems on the loop of main(), on new child processes and on the shutdown thread next to the other
-- threads, at concrete runs.
use qgis_scheduler.Prelude.{
  ◌⊎◌, ◌<◌, ◌≤◌, All, ℕ, ◌≡◌, refl, true, false, Bool, Option, none, some, List, [], ◌∷◌, ◌++◌,
  arith, All, inl, codes, contains, ◌==◌, if◌then◌else◌, String, pos,
}
use qgis_scheduler.Outcome.{ok}
use qgis_scheduler.Timer.{timer_is_empty}
use qgis_scheduler.Config.{Dictionary, getstring, project_numbered_config_string}
use qgis_scheduler.Config.Values.{config_get_init_key, config_get_init_value, config_get_chuser}
use qgis_scheduler.Database.{Store, Process, list_shutdown, proc_idle, proc_exit}
use qgis_scheduler.Database.Processes.{
  new_process, is_set, get_num_shutdown_processes, process_set_state_idle, process_set_state_init,
  get_process_state, get_list_process_by_list, remove_process_with_state_exit, get_process_socket,
  process_set_state_exit, process_set_state, shutdown_get_min_signaltimer,
}
use qgis_scheduler.Database.Projects.{get_names_project, get_startup_failures}
use qgis_scheduler.Fcgi.Param.{length_prefix}
use qgis_scheduler.Fcgi.Message.Whole.{bytes_of}
use qgis_scheduler.Fcgi.Protocol.{stdin}
use qgis_scheduler.Fcgi.Build.RoundTrip.{header_of}
use qgis_scheduler.Fcgi.Session.Request.{request}
use qgis_scheduler.Shutdown.{
  delivered, no_such_process, Environment, cleanup_process, check_state, send_signal, close_socket,
}
use qgis_scheduler.Daemon.{
  sigterm, sighup, no_signal, SignalData, Daemon, Calls, Event, ready, main_loop,
}
use qgis_scheduler.Daemon.Steady.{CallsWork}
use qgis_scheduler.Daemon.Loop.{Works, Calm, Loops, main_loop-Loops}
use qgis_scheduler.Config.Changes.{IsSound}
use qgis_scheduler.Daemon.Startup.{
  StartCalls, Chosen, User, log_file, Running, startup, fdlimit_needed,
}
use qgis_scheduler.Daemon.Prepares.{StartsWork, IsUser}
use qgis_scheduler.Daemon.Starts.{startup-Calm}
use qgis_scheduler.Manager.Child.{
  ChildCalls, end_of_answer, timed_out, Initialised, has_timed_out, init_new_child,
}
use qgis_scheduler.Manager.Counts.{Counts, init_new_child-Counts}
use qgis_scheduler.Manager.Fills.{Gives, params_of, quiet, init_new_child-request}
use qgis_scheduler.Manager.Names.{Searched, bind_socket-Searched}
use qgis_scheduler.Manager.Spawn.{Bound, bound, in_use, bind_socket}
use qgis_scheduler.Shutdown.Thread.{
  State, IsSteady, lists, checks, weeds, reads_timer, locks, started, Reach, AllQuiet, start, later,
  waiting, lock_queue, wait_until,
}
use qgis_scheduler.Shutdown.Waits.{waiting-Away}
use qgis_scheduler.Projects.Effects.{is_known}
use qgis_scheduler.Examples.{fcgi}
use qgis_scheduler.Examples.Configuration.{
  old_config, old_config-IsSound, new_config, new_config-IsSound, files, files-Works,
  project_tables, loaded, one_value,
}
use qgis_scheduler.Examples.Processes.{empty_tables}

-- The program with two projects and no process.
abbrev running : Daemon
running = record {
  config = loaded;
  store = project_tables;
  starts = [];
  connections = [];
  program_shutdown = false;
  do_shutdown_thread = false;
  has_finished = false;
  has_restored_signal = false;
  is_readable_serversocket = false;
  is_readable_signalpipe = false;
}

running-Calm : Calm old_config running
unfolding get_names_project
running-Calm = (
  record {
    loaded = refl;
    sound = old_config-IsSound;
    tables = record { pids = tt; names = ((refl, tt), (tt, tt)); sound = tt };
    within = λ n h. h;
    all_known = λ h n. refl;
    flags = refl;
  },
  refl,
)

abbrev calls : Calls
calls = record {
  alive = λ pid. delivered;
  files = files;
  newconfig = some new_config;
  log_opens = true;
  joined = true;
  accepted = some 9;
}

calls-CallsWork : CallsWork calls
calls-CallsWork = record {
  permitted = λ pid h. absurd (ground (arith, h));
  files_work = files-Works;
  log_opens = refl;
  joins = refl;
  sound_if_any = new_config-IsSound;
}

-- A connection and SIGHUP, SIGTERM, a connection that is left, and the end of the shutdown thread.
abbrev event : Bool → Option SignalData → Event
event pipe message = record { meanwhile = λ s. s; poll = ready true pipe message; calls = calls }

abbrev run : List Event
run =
    event true (some (record { signal = sighup; pid = 0; is_shutdown = false }))
    ∷ event true (some (record { signal = sigterm; pid = 0; is_shutdown = false }))
    ∷ event false (some (record { signal = no_signal; pid = 0; is_shutdown = false }))
    ∷ event true (some (record { signal = no_signal; pid = 0; is_shutdown = true }))
    ∷ []

event-Works : (pipe : Bool) (m : SignalData) → Works (event pipe (some m))
event-Works true m = record {
  keeps = λ s w. w;
  same_names = λ s. refl;
  reads = tt;
  accepts = (9, refl);
  calls_work = calls-CallsWork;
}
event-Works false m = record {
  keeps = λ s w. w;
  same_names = λ s. refl;
  reads = tt;
  accepts = (9, refl);
  calls_work = calls-CallsWork;
}

run-Works : All Works run
run-Works =
    (event-Works true _, (event-Works true _, (event-Works false _, (event-Works true _, tt))))

main_loop-Loops_example :
    (d' : Daemon) × (main_loop running run ≡ ok d') × Loops run old_config running d'
main_loop-Loops_example = main_loop-Loops old_config running run run-Works running-Calm

-- The number 7 is in use.
abbrev not_7 : ℕ → Bound
not_7 n = if n == 7 then in_use else bound

bind_socket-Searched_example : Searched not_7 7 (bind_socket not_7 7)
bind_socket-Searched_example = bind_socket-Searched not_7 7 (omega arith)

-- A configuration with one parameter for a new process.
abbrev decimal : ℕ → String
decimal n = if n == 0 then "0" else "1"

abbrev init_config : Dictionary
init_config = record old_config {
  value = λ k. elim (one_value "map:initkey0" "REQUEST_METHOD" k) [
    | some v ↦ some v
    | none ↦ one_value "map:initvalue0" "GET" k
  ];
}

abbrev one_pair : List (String × String)
one_pair = ("REQUEST_METHOD", "GET") ∷ []

one_pair-Gives :
    Gives
      (config_get_init_key decimal init_config (some "map"))
      (config_get_init_value decimal init_config (some "map"))
      0
      one_pair
unfolding config_get_init_key config_get_init_value project_numbered_config_string getstring
one_pair-Gives = (refl, refl, inl refl)

abbrev child_calls : ChildCalls
child_calls = record {
  has_name = true;
  has_socket = true;
  connects = true;
  writes = λ i. true;
  chunks = 40 ∷ [];
  ending = end_of_answer;
  alive = delivered;
  later = λ s. s;
}

init_new_child-request_example :
    init_new_child decimal fcgi 1 init_config false false project_tables 11 3 "map" child_calls
    ≡ ok (record {
      store = process_set_state_idle (process_set_state_init project_tables 11 3) 11;
      starts = [];
      talk = quiet (request fcgi 1 1 0 (params_of one_pair) ++ bytes_of (header_of fcgi stdin 1 0));
    })
unfolding length_prefix has_timed_out codes
init_new_child-request_example =
    init_new_child-request decimal fcgi 1 init_config false false project_tables 11 3 "map"
      child_calls one_pair (omega arith) one_pair-Gives (omega arith) (omega arith) refl (λ i. refl)
      refl refl

-- A process of the shutdown list that does not exist any more.
abbrev row : Process
row = record (new_process "map" 12 5) { list = list_shutdown; state = proc_idle }

abbrev one_row : Store
one_row = record empty_tables { processes = row ∷ [] }

abbrev env : Environment
env = record {
  current_time = record { tv_sec = pos 5; tv_nsec = pos 1 };
  stamp = λ pid. record { tv_sec = pos 5; tv_nsec = pos 1 };
  kill = λ pid signal. no_such_process;
  term_timeout = 10;
}

env-IsSteady : IsSteady env
unfolding is_set
env-IsSteady = record {
  permitted = λ pid signal h. absurd (ground (arith, h));
  stamped = λ pid r. refl;
}

row_is_gone :
    check_state env one_row 12 (get_process_state one_row 12)
    ≡ ok (record one_row { processes = record row { state = proc_exit } ∷ []; closed = 5 ∷ [] })
unfolding check_state get_process_state send_signal cleanup_process close_socket get_process_socket
    process_set_state_exit process_set_state
row_is_gone = refl

-- The row is checked and removed, and the thread waits.
abbrev asleep : State
asleep = record (started (record one_row { processes = []; closed = 5 ∷ [] })) { at = waiting none }

unfoldable asleep-Reach : Reach one_row asleep
unfolding get_list_process_by_list remove_process_with_state_exit lock_queue wait_until
    shutdown_get_min_signaltimer is_set timer_is_empty
asleep-Reach =
    later
      (later
        (later (later (later start (lists env refl)) (checks env 12 [] _ refl row_is_gone))
          (weeds env refl))
        (reads_timer refl))
      (locks (record { tv_sec = pos 5; tv_nsec = pos 1 }) 10
        (record { tv_sec = pos 0; tv_nsec = pos 0 }) refl)

asleep-AllQuiet : AllQuiet asleep-Reach
unfolding asleep-Reach
asleep-AllQuiet = (((((tt, env-IsSteady), tt), tt), tt), tt)

waiting-Away_example :
    (asleep.has_list_change ≡ false)
    × (asleep.do_shutdown_thread ≡ false)
    × ((0 < asleep.pending) ⊎ (get_num_shutdown_processes asleep.store ≡ 0))
waiting-Away_example =
    waiting-Away one_row asleep (tt, tt) ((refl, refl), tt) ((λ h. absurd (ground (arith, h))), tt)
      asleep-Reach asleep-AllQuiet refl

-- The child does not answer in time; the project "map" has four failures already.
abbrev silent_calls : ChildCalls
silent_calls = record child_calls { ending = timed_out }

four_failures : get_startup_failures (process_set_state_init project_tables 11 3) "map" ≡ some 4
unfolding get_startup_failures process_set_state_init process_set_state
four_failures = refl

init_new_child-Counts_example :
    (r : Initialised) × (init_new_child decimal fcgi 1 init_config false false project_tables 11 3
        "map" silent_calls
      ≡ ok r)
    × Counts project_tables 2 false 4 "map" delivered r
unfolding length_prefix codes
init_new_child-Counts_example =
    init_new_child-Counts decimal fcgi 1 init_config project_tables 11 3 4 "map" silent_calls
      one_pair project_tables 2 false (omega arith) (omega arith) one_pair-Gives (omega arith)
      (omega arith) (λ h. absurd (ground (arith, h))) four_failures

-- A configuration with a user.
abbrev user_config : Dictionary
user_config = record old_config { value = one_value ":chuser" "qgis" }

user_config-IsSound : IsSound user_config
user_config-IsSound = record {
  names = old_config-IsSound.names;
  sections = old_config-IsSound.sections;
  different_names = old_config-IsSound.different_names;
  different_keys = old_config-IsSound.different_keys;
}

abbrev qgis_user : User
qgis_user = record { uid = 33; gid = 33 }

abbrev chosen : Chosen
chosen = record { no_daemon = false; config_path = "/etc/main.conf" }

-- The start with one address of two that can be bound, as the user qgis.
abbrev start_calls : StartCalls
start_calls = record {
  realpath = λ path. some path;
  newconfig = λ path. some user_config;
  fdlimit = some 1024;
  setrlimit = true;
  getaddrinfo = λ listen port.
      some
        (record { socket = some 5; binds = false } ∷ record { socket = some 6; binds = true } ∷ []);
  listen = true;
  chroot = λ p. true;
  getpwnam = λ name. some qgis_user;
  isatty = log_file;
  fchown = true;
  setgid = λ gid. true;
  setuid = λ uid. true;
  chdir = true;
  open_pid = λ p. true;
  daemonizes = true;
  pipes = true;
  installs = true;
  files = files;
}

start_calls-StartsWork :
    StartsWork start_calls chosen "/etc/main.conf" user_config
      (record { socket = some 5; binds = false } ∷ record { socket = some 6; binds = true } ∷ [])
      6
      1024
start_calls-StartsWork = record {
  found = refl;
  loads = refl;
  sound = user_config-IsSound;
  limits = refl;
  sets_limit = refl;
  resolves = refl;
  binds = refl;
  listens = refl;
  changes_root = λ p. refl;
  knows = λ n. (qgis_user, refl);
  looks = λ h. absurd (ground (arith, h));
  owns = refl;
  groups = λ gid. refl;
  users = λ uid. refl;
  changes_dir = refl;
  opens_pid = λ p. refl;
  daemonizes = refl;
  pipes = refl;
  installs = refl;
  files_work = files-Works;
}

startup-Calm_example :
    (r : Running) × (startup start_calls chosen ≡ ok r)
    × Calm user_config r.daemon
    × (r.daemon.has_finished ≡ false)
    × (r.daemon.program_shutdown ≡ false)
    × (r.daemon.connections ≡ [])
    × ((n : String) → is_known n r.daemon.store ≡ contains n user_config.secnames)
    × (r.serversocketfd ≡ 6)
    × (fdlimit_needed user_config ≤ r.fdlimit)
    × IsUser start_calls (config_get_chuser user_config) r.user
    × (r.in_background ≡ true)
    × ((d' : Daemon) × (main_loop r.daemon run ≡ ok d') × Loops run user_config r.daemon d')
startup-Calm_example =
    startup-Calm start_calls chosen "/etc/main.conf" user_config
      (record { socket = some 5; binds = false } ∷ record { socket = some 6; binds = true } ∷ []) 6
      1024 run start_calls-StartsWork run-Works
