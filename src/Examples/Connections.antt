-- ===== src/Examples/Connections.antt =====
-- The theorems on the connections, at concrete requests.
use qgis_scheduler.Prelude.{
  ℕ, String, ◌≡◌, refl, subst, true, false, Option, none, some, List, [], ◌∷◌, arith, str_eq,
  if◌then◌else◌, drop,
}
use qgis_scheduler.Outcome.{ok}
use qgis_scheduler.Config.{Dictionary}
use qgis_scheduler.Fcgi.Session.Request.{request}
use qgis_scheduler.Fcgi.Param.{length_prefix}
use qgis_scheduler.Database.Processes.{timed_out}
use qgis_scheduler.Connection.{received, end_of_file, matches, Regex, Request, read_request}
use qgis_scheduler.Connection.Attempt.{connected, Setting, Surroundings, clear_keep_conn}
use qgis_scheduler.Connection.InOrder.{RelaysInOrder, relay_loop-RelaysInOrder}
use qgis_scheduler.Connection.KeepConn.{begins, clear_keep_conn-begins}
use qgis_scheduler.Connection.Relay.{
  all_bytes, wrote, Polled, Poll, polled, relay_start, relay_loop,
}
use qgis_scheduler.Connection.Selects.{
  Regular, asks, first_that, request_for, read_request-request_for,
}
use qgis_scheduler.Examples.{fcgi, pairs, pairs-IsShort}
use qgis_scheduler.Examples.Processes.{first, tables}

-- Only one expression compiles, and it matches.
abbrev any_text : Regex
any_text = record { compiles = λ r. str_eq "1" r; executes = λ r param. matches }

-- The project "map" looks at the parameter "A".
abbrev map_config : Dictionary
map_config = record {
  secnames = "map" ∷ [];
  has_entry = λ s. str_eq "map" s;
  seckeys = λ s. [];
  value = λ k.
      if str_eq "map:scan_param" k
      then some "A"
      else if str_eq "map:scan_regex" k
      then some "1"
      else none;
  int_value = λ k. none;
}

any_text-Regular : Regular any_text map_config ("map" ∷ [])
any_text-Regular = record {
  compiled = (
    λ r e.
        subst (λ (o : Option String). (elim o [ none ↦ true | some q ↦ str_eq "1" q ]) ≡ true) e
          refl,
    tt,
  );
  executed = (λ r e param. refl, tt);
}

read_request-request_for_example :
    read_request fcgi 1 any_text map_config
      (received 1 (drop 1 (request fcgi 7 1 0 pairs)) ∷ end_of_file ∷ [])
    ≡ ok (
        some (
          request_for
            (request fcgi 7 1 0 pairs ∷ [])
            1
            7
            1
            (first_that (asks any_text map_config pairs) ("map" ∷ []))))
unfolding length_prefix
read_request-request_for_example =
    read_request-request_for fcgi 1 any_text map_config 7 1 0 1 pairs
      (drop 1 (request fcgi 7 1 0 pairs)) (end_of_file ∷ []) any_text-Regular refl (omega arith)
      (omega arith) (omega arith) (omega arith) pairs-IsShort (omega arith)

clear_keep_conn-begins_example :
    clear_keep_conn fcgi 1 (begins fcgi 7 1 3 (9 ∷ [])) ≡ ok (begins fcgi 7 1 2 (9 ∷ []))
clear_keep_conn-begins_example = clear_keep_conn-begins fcgi 1 7 1 3 (9 ∷ []) (omega arith)

-- Both sockets are ready; the web server sends the byte 8, the process the byte 6.
abbrev ready : Polled
ready = record {
  net_readable = true;
  net_writable = true;
  unix_readable = true;
  unix_writable = true;
  net_read = received 8 [];
  unix_write = wrote all_bytes;
  unix_read = received 6 [];
  net_write = wrote all_bytes;
}

abbrev ready_twice : List Poll
ready_twice = polled ready ∷ polled ready ∷ []

relay_loop-RelaysInOrder_example :
    RelaysInOrder ((1 ∷ 2 ∷ []) ∷ []) (relay_loop (relay_start ((1 ∷ 2 ∷ []) ∷ [])) ready_twice)
relay_loop-RelaysInOrder_example =
    relay_loop-RelaysInOrder ((1 ∷ 2 ∷ []) ∷ []) ready_twice
      (record { unix_all = refl; net_all = refl }, (record { unix_all = refl; net_all = refl }, tt))

abbrev setting : Setting
setting = record {
  protocol = fcgi;
  keep_conn = 1;
  dictionary = map_config;
  limit = first;
  program_shutdown = false;
  do_shutdown_thread = false;
}

abbrev known_request : Request
known_request = record {
  datalist = begins fcgi 7 1 1 [] ∷ [];
  request_project_name = some "map";
  request_id = 7;
  role = 1;
}

-- No other thread changes the tables but in the wait, and no socket can be made.
abbrev no_sockets : ℕ → Surroundings
no_sockets left = record {
  meanwhile = λ s. s;
  wake = timed_out tables;
  contact = record {
    has_name = true;
    has_socket = false;
    connect = λ i. connected;
    child_options = true;
    net_options = true;
    polls = [];
  };
}
