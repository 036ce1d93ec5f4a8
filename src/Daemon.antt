-- ===== src/Daemon.antt =====
-- qgis-schedulerd.c: the handler of the signals, and the loop of main() that waits for connections and
-- signals. What the calls of a round return is given with the return of poll().
pub mod Steady
pub mod React
pub mod Loop
pub mod Startup
pub mod Prepares
pub mod Starts
use qgis_scheduler.Prelude.{
  ℕ, Bool, true, false, not, ◌&&◌, ◌||◌, Option, none, some, List, [], ◌∷◌, ◌++◌, map,
  if◌then◌else◌, String, pos,
}
use qgis_scheduler.Outcome.{Outcome, ok, fault, exit_failure, ◌>>=◌, ◌>>◌, assert}
use qgis_scheduler.Config.{Dictionary}
use qgis_scheduler.Config.Values.{Config, Loaded, config_load}
use qgis_scheduler.Database.{Store}
use qgis_scheduler.Manager.{process_died}
use qgis_scheduler.Projects.Start.{Files, Start, shutdown, manage_project_changes}
use qgis_scheduler.Shutdown.{Killed}

-- The signals that the program tells apart; `no_signal` is 0.
pub data SignalNumber : Type 0 where
  no_signal sigchld sighup sigusr1 sigusr2 sigterm sigint sigquit sigsegv other_signal :
      SignalNumber

-- struct signal_data_s
pub record SignalData : Type 0 where
  pub signal : SignalNumber
  pub pid : ℕ
  pub is_shutdown : Bool

-- What the handler does: a message into the pipe, the signal raised again, or nothing.
pub data Handled : Type 0 where
  written : SignalData → Handled
  raised ignored : Handled

abbrev pub is_forwarded : SignalNumber → Bool
is_forwarded no_signal = false
is_forwarded sigsegv = false
is_forwarded other_signal = false
is_forwarded _ = true

abbrev pub not_forwarded : SignalNumber → Handled
not_forwarded sigsegv = raised
not_forwarded _ = ignored

-- signalaction(); `can_write` tells whether write() succeeds.
unfoldable pub signalaction : (can_write : Bool) → SignalNumber → ℕ → Outcome Handled
signalaction can_write sig pid =
    if is_forwarded sig
    then (if can_write
        then ok (written (record { signal = sig; pid = pid; is_shutdown = false }))
        else fault exit_failure)
    else ok (not_forwarded sig)

-- The message that qgis_shutdown_thread() writes at its end.
abbrev pub shutdown_done : SignalData
shutdown_done = record { signal = no_signal; pid = 0; is_shutdown = true }

-- The variables of main(), with the state of the modules that it drives: the starts of processes that
-- it has asked for and the connections that it has handed on, each in order.
pub record Daemon : Type 0 where
  pub config : Config
  pub store : Store
  pub starts : List Start
  pub connections : List ℕ
  pub program_shutdown : Bool
  pub do_shutdown_thread : Bool
  pub has_finished : Bool
  pub has_restored_signal : Bool
  pub is_readable_serversocket : Bool
  pub is_readable_signalpipe : Bool

-- The calls of one round: kill(pid, 0), the calls on files, what the parser makes of the file of the
-- configuration, whether the log file can be opened, whether pthread_join() succeeds, and accept().
pub record Calls : Type 0 where
  pub alive : ℕ → Killed
  pub files : Files
  pub newconfig : Option Dictionary
  pub log_opens : Bool
  pub joined : Bool
  pub accepted : Option ℕ

-- One process for a project, without an exchange.
abbrev pub one_start : String → Start
one_start projname = record { num = pos 1; projname = projname; do_exchange_processes = false }

abbrev pub is_termination : SignalNumber → Bool
is_termination sigterm = true
is_termination sigint = true
is_termination sigquit = true
is_termination _ = false

unfoldable pub react_child : Calls → Daemon → Outcome Daemon
react_child calls d = do
  r ← process_died d.program_shutdown d.do_shutdown_thread calls.alive d.store
  ok (record d { store = r.store; starts = d.starts ++ map one_start r.starts })

unfoldable pub react_termination : Calls → Daemon → Outcome Daemon
react_termination calls d = do
  s ← shutdown calls.files d.store
  if calls.joined
      then ok (record d { store = s; program_shutdown = true; do_shutdown_thread = true })
      else fault exit_failure

-- The part behind logger_open_logfile(), for what config_load() leaves; that leaves a configuration or ends the program.
unfoldable pub reload : Calls → Daemon → Loaded → Option Dictionary → Outcome Daemon
reload calls d l none = fault exit_failure
reload calls d l (some new) = do
  m ← manage_project_changes calls.files new d.store l.sectionnew l.sectionchanged l.sectiondelete
  ok (record d { config = l.config; store = m.store; starts = d.starts ++ m.starts })

unfoldable pub react_hangup : Calls → Daemon → Outcome Daemon
unfolding reload
react_hangup calls d = do
  l ← config_load d.config calls.newconfig
  if calls.log_opens then reload calls d l l.config.config_opts else fault exit_failure

-- `switch (sigdata.signal)`. The statistics and the dump of the tables are printed only.
unfoldable pub dispatch : Calls → Daemon → SignalNumber → (is_shutdown : Bool) → Outcome Daemon
unfolding react_child react_termination react_hangup
dispatch calls d sigchld is_shutdown = react_child calls d
dispatch calls d sighup is_shutdown = react_hangup calls d
dispatch calls d sigterm is_shutdown = react_termination calls d
dispatch calls d sigint is_shutdown = react_termination calls d
dispatch calls d sigquit is_shutdown = react_termination calls d
dispatch calls d no_signal is_shutdown =
    ok (if is_shutdown then record d { has_finished = true } else d)
dispatch calls d sigusr1 is_shutdown = ok d
dispatch calls d sigusr2 is_shutdown = ok d
dispatch calls d sigsegv is_shutdown = ok d
dispatch calls d other_signal is_shutdown = ok d

unfoldable pub react : Calls → Daemon → SignalData → Outcome Daemon
unfolding dispatch
react calls d message = dispatch calls d message.signal message.is_shutdown

-- The part for a readable pipe; `none` is a read() that fails.
unfoldable pub read_signal : Calls → Daemon → Option SignalData → Outcome Daemon
unfolding react
read_signal calls d message =
    if d.is_readable_signalpipe
    then elim message [
      | none ↦ fault exit_failure
      | some m ↦ do r ← react calls d m; ok (record r { is_readable_signalpipe = false })
    ]
    else ok d

-- The part for a readable socket; the connection manager gets the new descriptor.
unfoldable pub accept_connection : Calls → Daemon → Outcome Daemon
accept_connection calls d =
    if d.is_readable_serversocket && not d.program_shutdown
    then elim calls.accepted [
      | none ↦ fault exit_failure
      | some networkfd ↦ ok (record d {
        connections = d.connections ++ (networkfd ∷ []);
        is_readable_serversocket = false;
      })
    ]
    else ok d

-- The default handlers come back once the program shuts down.
abbrev pub restore_signals : Daemon → Daemon
restore_signals d =
    if d.program_shutdown && not d.has_restored_signal
    then record d { has_restored_signal = true }
    else d

-- A return of poll(): EINTR, another error, or what is readable.
pub data Poll : Type 0 where
  interrupted poll_failed : Poll
  ready : (server pipe : Bool) → Option SignalData → Poll

-- One round, with what the other threads have made of the tables before it.
pub record Event : Type 0 where
  pub meanwhile : Store → Store
  pub poll : Poll
  pub calls : Calls

unfoldable pub behind_poll : Calls → Daemon → Poll → Outcome Daemon
unfolding read_signal accept_connection
behind_poll calls d interrupted = ok (restore_signals d)
behind_poll calls d poll_failed = fault exit_failure
behind_poll calls d (ready server pipe message) = do
  reacted ←
      read_signal calls
        (record d {
          is_readable_serversocket = d.is_readable_serversocket || server;
          is_readable_signalpipe = d.is_readable_signalpipe || pipe;
        })
        message
  accepted ← accept_connection calls reacted
  ok (restore_signals accepted)

unfoldable pub main_round : Daemon → Event → Outcome Daemon
unfolding behind_poll
main_round d event =
    behind_poll event.calls (record d { store = event.meanwhile d.store }) event.poll

-- `while ( !has_finished )`, over the rounds up to some moment.
unfoldable pub main_loop : Daemon → List Event → Outcome Daemon
unfolding main_round
main_loop d [] = ok d
main_loop d (event ∷ rest) =
    if d.has_finished then ok d else do next ← main_round d event; main_loop next rest
