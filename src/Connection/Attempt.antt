-- ===== src/Connection/Attempt.antt =====
-- connection_manager.c: the second part of thread_handle_connection(), which looks for a process,
-- connects to it and lets the two talk, with another process if that fails.
use Prim.Native.Nat.{bit_and}
use qgis_scheduler.Prelude.{
  ℕ, zero, suc, ◌+◌, ◌-◌, Bool, true, false, none, some, List, [], ◌∷◌, ◌++◌, length, ◌==◌,
  if◌then◌else◌, String, Bytes, pos, ltb_ℤ, ◌-ℤ◌,
}
use qgis_scheduler.Outcome.{Outcome, ok, fault, assert_failed, ◌>>=◌, ◌>>◌, assert}
use qgis_scheduler.Config.{Dictionary}
use qgis_scheduler.Config.Values.{config_get_min_idle_processes}
use qgis_scheduler.Database.{Store, Limit}
use qgis_scheduler.Database.Processes.{
  get_num_start_init_idle_process, get_next_idle_process_for_busy_work, get_process_socket,
  process_set_state_idle, Wake,
}
use qgis_scheduler.Manager.{restart_process}
use qgis_scheduler.Fcgi.Protocol.{Protocol}
use qgis_scheduler.Fcgi.Message.{message_new, message_parse, write_at}
use qgis_scheduler.Fcgi.Build.{get_flag, set_flag, message_write}
use qgis_scheduler.Connection.{DataList, fcgi_data_get_iterator, Request}
use qgis_scheduler.Connection.Relay.{Poll, Round, relay_start, relay_loop}

-- The block with FCGI_KEEP_CONN, which is `keep_conn`, taken out of the begin message's flags.
unfoldable pub clear_keep_conn : Protocol → (keep_conn : ℕ) → Bytes → Outcome Bytes
clear_keep_conn p keep_conn bytes = do
  parsed ← message_parse p message_new bytes
  assert parsed.message.parse_done
  flag ← get_flag parsed.message
  if bit_and flag keep_conn == 0 then ok bytes else do
    message ← set_flag parsed.message (bit_and flag (255 - keep_conn))
    written ← message_write p (length bytes) message
    ok (write_at 0 written bytes)

unfoldable pub clear_first : Protocol → (keep_conn : ℕ) → DataList → Outcome DataList
unfolding clear_keep_conn
clear_first p keep_conn [] = fault assert_failed
clear_first p keep_conn (block ∷ rest) = do
  cleared ← clear_keep_conn p keep_conn block
  ok (cleared ∷ rest)

-- How connect() returns.
pub data Connected : Type 0 where
  connected again refused : Connected

abbrev pub max_child_socket_connection_retry : ℕ
max_child_socket_connection_retry = 5

-- The loop of connect(), with this many rounds left; true once it is connected. A sleep succeeds.
unfoldable pub connect_loop : ℕ → (ℕ → Connected) → Bool
connect_loop zero connect = false
connect_loop (suc rounds) connect =
    let later = connect_loop rounds connect in
    elim (connect rounds) [ connected ↦ true | again ↦ later | refused ↦ false ]

-- What the calls return that set up the sockets, in this order; then the returns of the relay loop.
pub record Contact : Type 0 where
  pub has_name : Bool
  pub has_socket : Bool
  pub connect : ℕ → Connected
  pub child_options : Bool
  pub net_options : Bool
  pub polls : List Poll

-- How an attempt ends: FAULTY_CHILD_RETRY, FAULTY_NET_CLIENT_STOP, or the end of the loop's body; or it
-- has not ended, since the loop between the sockets waits for its next poll().
pub data Ending : Type 0 where
  faulty_child faulty_net_client finished still_relaying : Ending

-- The tables, the projects of which one process is to be started, the aborts sent to the web server.
pub record Attempted : Type 0 where
  pub store : Store
  pub starts : List String
  pub aborts : ℕ
  pub ending : Ending

-- The program's settings, and those of the process manager.
pub record Setting : Type 0 where
  pub protocol : Protocol
  pub keep_conn : ℕ
  pub dictionary : Dictionary
  pub limit : Limit
  pub program_shutdown : Bool
  pub do_shutdown_thread : Bool

-- `process_manager_restart_process(mypid); FAULTY_CHILD_RETRY`
unfoldable pub give_up_child : Setting → Store → ℕ → Outcome Attempted
give_up_child c s mypid = do
  r ← restart_process c.program_shutdown c.do_shutdown_thread s mypid
  ok (record { store = r.store; starts = r.starts; aborts = 0; ending = faulty_child })

-- From close_child_socket__end_session on.
unfoldable pub end_session : Store → ℕ → ℕ → Attempted
end_session s mypid aborts = record {
  store = process_set_state_idle s mypid;
  starts = [];
  aborts = aborts;
  ending = finished;
}

-- The part behind the loop between the sockets, which is not reached while that still waits.
unfoldable pub behind_relay : Store → ℕ → Round → Attempted
unfolding end_session
behind_relay s mypid round =
    if round.ends
    then end_session s mypid round.relay.aborts
    else record { store = s; starts = []; aborts = round.relay.aborts; ending = still_relaying }

unfoldable pub talk : Store → DataList → ℕ → List Poll → Outcome Attempted
unfolding behind_relay
talk s datalist mypid polls = do
  round ← relay_loop (relay_start (fcgi_data_get_iterator datalist)) polls
  ok (behind_relay s mypid round)

-- The part with a process: its socket, the connection, the options of the sockets.
unfoldable pub contact_child : Setting → Store → DataList → ℕ → Contact → Outcome Attempted
unfolding give_up_child talk end_session connect_loop
contact_child c s datalist mypid contact = elim (get_process_socket s mypid) [
  | none ↦ give_up_child c s mypid
  | some fd ↦
      if contact.has_name
      then (if contact.has_socket
          then (if connect_loop max_child_socket_connection_retry contact.connect
              then (if contact.child_options
                  then (if contact.net_options
                      then talk s datalist mypid contact.polls
                      else ok (end_session s mypid 0))
                  else give_up_child c s mypid)
              else give_up_child c s mypid)
          else ok (record { store = s; starts = []; aborts = 0; ending = faulty_child }))
      else give_up_child c s mypid
]

-- One process is started if fewer wait than the configuration asks for.
unfoldable pub start_missing : Dictionary → Store → String → List String
start_missing d s projname =
    let min_free_processes = config_get_min_idle_processes d (some projname) in
    let missing_processes =
      min_free_processes -ℤ pos (get_num_start_init_idle_process s projname) in
    if ltb_ℤ (pos 0) missing_processes then projname ∷ [] else []

unfoldable pub overload : Store → List String → Attempted
overload s starts = record { store = s; starts = starts; aborts = 1; ending = faulty_net_client }

-- The part for a project that is known.
unfoldable pub serve : Setting → Store → DataList → String → Wake → Contact → Outcome Attempted
unfolding contact_child start_missing overload clear_first
serve c s datalist projname wake contact =
    let starts = start_missing c.dictionary s projname in
    let claim = get_next_idle_process_for_busy_work c.limit s projname wake in
    elim claim.found [
      | none ↦ ok (overload claim.store starts)
      | some mypid ↦ do
        sent ← clear_first c.protocol c.keep_conn datalist
        a ← contact_child c claim.store sent mypid contact
        ok (record a { starts = starts ++ a.starts })
    ]

unfoldable pub attempt : Setting → Store → Request → Wake → Contact → Outcome Attempted
unfolding serve
attempt c s request wake contact = elim request.request_project_name [
  | none ↦ ok (overload s [])
  | some projname ↦ serve c s request.datalist projname wake contact
]

-- What the calls of one attempt return, and what the other threads have made of the tables before it.
pub record Surroundings : Type 0 where
  pub meanwhile : Store → Store
  pub wake : Wake
  pub contact : Contact

abbrev pub max_child_communication_retry : ℕ
max_child_communication_retry = 3

-- The loop with this many attempts left. A faulty child in the last attempt is answered with an abort.
-- Each attempt clears the flag anew, which gives the same block each time.
unfoldable pub retry_loop : Setting → ℕ → Store → Request → (ℕ → Surroundings) → Outcome Attempted
unfolding attempt
retry_loop c zero s request around =
    ok (record { store = s; starts = []; aborts = 0; ending = faulty_child })
retry_loop c (suc left) s request around = do
  a ← attempt c ((around left).meanwhile s) request (around left).wake (around left).contact
  elim a.ending [
    | finished ↦ ok a
    | still_relaying ↦ ok a
    | faulty_net_client ↦ ok a
    | faulty_child ↦ do
      r ← retry_loop c left a.store request around
      ok (record r {
        starts = a.starts ++ r.starts;
        aborts = a.aborts + ((if left == 0 then 1 else 0) + r.aborts);
      })
  ]

unfoldable pub handle_request : Setting → Store → Request → (ℕ → Surroundings) → Outcome Attempted
handle_request c s request around = retry_loop c max_child_communication_retry s request around
