-- ===== src/Daemon/Startup.antt =====
-- qgis-schedulerd.c: main() up to its loop. What the calls return is an input.
use qgis_scheduler.Prelude.{
  ℕ, ◌-◌, ◌*◌, ◌^◌, Bool, true, false, not, Option, none, some, List, [], ◌∷◌, length, ltb,
  if◌then◌else◌, String, ℤ, pos, negsuc, ◌+ℤ◌,
}
use qgis_scheduler.Outcome.{Outcome, ok, fault, exit_failure, ◌>>=◌, ◌>>◌}
use qgis_scheduler.Config.{Dictionary, Pointer, null, invalid_string, text}
use qgis_scheduler.Config.Values.{
  Config, Loaded, config_load, config_get_network_listen, config_get_network_port,
  config_get_chroot, config_get_chuser, config_get_pid_path, config_get_max_idle_processes,
}
use qgis_scheduler.Database.{Store}
use qgis_scheduler.Projects.Start.{Files, manage_project_changes}
use qgis_scheduler.Daemon.{Daemon}

-- What getopt() gives.
pub data Opt : Type 0 where
  opt_help opt_no_daemon opt_version opt_unknown : Opt
  opt_config : String → Opt

pub record Chosen : Type 0 where
  pub no_daemon : Bool
  pub config_path : String

-- The program prints something and ends, ends with a failure, or runs.
pub data Options : Type 0 where
  shows refuses : Options
  runs : Chosen → Options

unfoldable pub parse_options : Chosen → List Opt → Options
parse_options c [] = runs c
parse_options c (opt_help ∷ opts) = shows
parse_options c (opt_version ∷ opts) = shows
parse_options c (opt_unknown ∷ opts) = refuses
parse_options c (opt_no_daemon ∷ opts) = parse_options (record c { no_daemon = true }) opts
parse_options c (opt_config path ∷ opts) = parse_options (record c { config_path = path }) opts

-- The conversion of an int to unsigned long.
abbrev unsigned_long : ℤ → ℕ
unsigned_long (pos n) = n
unsigned_long (negsuc n) = 2 ^ 64 - 1 - n

abbrev processes_of : Dictionary → List String → ℤ
processes_of d [] = pos 0
processes_of d (p ∷ ps) = config_get_max_idle_processes d (some p) +ℤ processes_of d ps

unfoldable pub fdlimit_needed : Dictionary → ℕ
fdlimit_needed d =
    unsigned_long
      (pos (length d.secnames * 2 * 20) +ℤ processes_of d d.secnames +ℤ pos 7 +ℤ pos 950)

-- check_ressource_limits(): the limit on open files behind it. `fdlimit` is what getrlimit() gives, and
-- `sets` whether setrlimit() succeeds.
unfoldable pub check_ressource_limits : Option ℕ → Bool → Dictionary → Outcome ℕ
unfolding fdlimit_needed
check_ressource_limits none sets d = fault exit_failure
check_ressource_limits (some fdlimit) sets d =
    if ltb fdlimit (fdlimit_needed d)
    then (if sets then ok (fdlimit_needed d) else fault exit_failure)
    else ok fdlimit

-- An address, with what socket() and bind() give for it.
pub record Address : Type 0 where
  pub socket : Option ℕ
  pub binds : Bool

-- The socket of the server, and the sockets that were closed.
pub record Served : Type 0 where
  pub serversocketfd : ℕ
  pub closed : List ℕ

unfoldable pub bind_address : Bool → ℕ → Outcome Served → Outcome Served
bind_address true fd next = ok (record { serversocketfd = fd; closed = [] })
bind_address false fd next = do s ← next; ok (record s { closed = fd ∷ s.closed })

-- The loop over the addresses.
unfoldable pub bind_first : List Address → Outcome Served
unfolding bind_address
bind_first [] = fault exit_failure
bind_first (a ∷ rest) =
    let next = bind_first rest in
    elim a.socket [ none ↦ next | some fd ↦ bind_address a.binds fd next ]

pub record User : Type 0 where
  pub uid : ℕ
  pub gid : ℕ

-- The log is on a terminal, in a file, or isatty() fails otherwise.
pub data Tty : Type 0 where
  terminal log_file tty_failed : Tty

-- The calls of the start.
pub record StartCalls : Type 0 where
  pub realpath : String → Option String
  pub newconfig : String → Option Dictionary
  pub fdlimit : Option ℕ
  pub setrlimit : Bool
  pub getaddrinfo : Pointer → Pointer → Option (List Address)
  pub listen : Bool
  pub chroot : String → Bool
  pub getpwnam : String → Option User
  pub isatty : Tty
  pub fchown : Bool
  pub setgid : ℕ → Bool
  pub setuid : ℕ → Bool
  pub chdir : Bool
  pub open_pid : String → Bool
  pub daemonizes : Bool
  pub pipes : Bool
  pub installs : Bool
  pub files : Files

abbrev pub check : Bool → Outcome (Unit {0})
check b = if b then ok tt else fault exit_failure

unfoldable pub change_root : StartCalls → Pointer → Outcome (Option String)
change_root calls null = ok none
change_root calls invalid_string = fault exit_failure
change_root calls (text chrootpath) = do check (calls.chroot chrootpath); ok (some chrootpath)

unfoldable pub own_logfile : StartCalls → Tty → Outcome (Unit {0})
own_logfile calls terminal = ok tt
own_logfile calls log_file = check calls.fchown
own_logfile calls tty_failed = fault exit_failure

unfoldable pub become : StartCalls → Option User → Outcome (Option User)
unfolding own_logfile
become calls none = fault exit_failure
become calls (some u) = do
  own_logfile calls calls.isatty
  check (calls.setgid u.gid)
  check (calls.setuid u.uid)
  ok (some u)

-- The user that the program changes to, if one is configured.
unfoldable pub change_user : StartCalls → Pointer → Outcome (Option User)
unfolding become
change_user calls null = ok none
change_user calls invalid_string = fault exit_failure
change_user calls (text chuser) = become calls (calls.getpwnam chuser)

unfoldable pub open_pid_file : StartCalls → Pointer → Outcome (Unit {0})
open_pid_file calls (text path) = check (calls.open_pid path)
open_pid_file calls _ = ok tt

-- What the program is when its loop begins.
pub record Running : Type 0 where
  pub daemon : Daemon
  pub serversocketfd : ℕ
  pub root : Option String
  pub user : Option User
  pub in_background : Bool
  pub fdlimit : ℕ

abbrev pub no_rows : Store
no_rows = record {
  projects = [];
  processes = [];
  has_list_change = false;
  closed = [];
  signals = [];
}

-- From the socket to the handlers of the signals.
unfoldable pub prepare : StartCalls → Bool → Dictionary → Outcome (Daemon → Running)
unfolding check_ressource_limits bind_first change_root change_user open_pid_file
prepare calls no_daemon d = do
  limit ← check_ressource_limits calls.fdlimit calls.setrlimit d
  served ← elim (calls.getaddrinfo (config_get_network_listen d) (config_get_network_port d)) [
    | none ↦ fault exit_failure
    | some addresses ↦ bind_first addresses
  ]
  check calls.listen
  root ← change_root calls (config_get_chroot d)
  user ← change_user calls (config_get_chuser d)
  check calls.chdir
  open_pid_file calls (config_get_pid_path d)
  check (if no_daemon then true else calls.daemonizes)
  check calls.pipes
  check calls.installs
  ok λ daemon. record {
    daemon = daemon;
    serversocketfd = served.serversocketfd;
    root = root;
    user = user;
    in_background = not no_daemon;
    fdlimit = limit;
  }

-- The first start of the projects.
unfoldable pub start_projects :
    StartCalls → Loaded → Dictionary → (Daemon → Running) → Outcome Running
start_projects calls l d running = do
  m ← manage_project_changes calls.files d no_rows l.sectionnew l.sectionchanged l.sectiondelete
  ok (
      running (record {
        config = l.config;
        store = m.store;
        starts = m.starts;
        connections = [];
        program_shutdown = false;
        do_shutdown_thread = false;
        has_finished = false;
        has_restored_signal = false;
        is_readable_serversocket = false;
        is_readable_signalpipe = false;
      }))

unfoldable pub behind_load : StartCalls → Bool → Loaded → Option Dictionary → Outcome Running
unfolding prepare start_projects
behind_load calls no_daemon l none = fault exit_failure
behind_load calls no_daemon l (some d) = do
  running ← prepare calls no_daemon d
  start_projects calls l d running

-- What the module of the configuration holds at first.
abbrev pub no_config : Config
no_config = record { config_opts = none; debuglevel = pos 0; abort_on_error = pos 0 }

-- main(), from the parsed options to the begin of the loop.
unfoldable pub startup : StartCalls → Chosen → Outcome Running
unfolding behind_load
startup calls c = elim (calls.realpath c.config_path) [
  | none ↦ fault exit_failure
  | some configuration_path ↦ do
    l ← config_load no_config (calls.newconfig configuration_path)
    behind_load calls c.no_daemon l l.config.config_opts
]
