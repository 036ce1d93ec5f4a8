-- ===== src/Connection/Relay.antt =====
-- connection_manager.c: the loop of thread_handle_connection() that copies between the web server's
-- socket and the process's socket. What poll(), read() and write() return is given round by round.
use qgis_scheduler.Prelude.{
  ℕ, ◌+◌, Bool, true, false, not, ◌&&◌, ◌||◌, none, some, List, [], ◌∷◌, ◌++◌, take, if◌then◌else◌,
  Bytes,
}
use qgis_scheduler.Outcome.{Outcome, ok, fault, exit_failure}
use qgis_scheduler.Connection.{
  DataList, fcgi_data_get_next_data, fcgi_data_iterator_has_data, Read, read_failed, end_of_file,
  received,
}

-- How a write() returns: -1, or how much it has taken.
pub data Amount : Type 0 where
  all_bytes : Amount
  first_bytes : ℕ → Amount

pub data Written : Type 0 where
  write_failed : Written
  wrote : Amount → Written

abbrev pub accepted : Amount → Bytes → Bytes
accepted all_bytes bytes = bytes
accepted (first_bytes n) bytes = take n bytes

-- One return of poll(), and of the calls that may follow it in this round.
pub record Polled : Type 0 where
  pub net_readable : Bool
  pub net_writable : Bool
  pub unix_readable : Bool
  pub unix_writable : Bool
  pub net_read : Read
  pub unix_write : Written
  pub unix_read : Read
  pub net_write : Written

pub data Poll : Type 0 where
  interrupted invalid poll_failed : Poll
  polled : Polled → Poll

-- The variables of the loop, and what went through the sockets so far.
pub record Relay : Type 0 where
  pub can_read_networksock : Bool
  pub can_write_networksock : Bool
  pub can_read_unixsock : Bool
  pub can_write_unixsock : Bool
  pub iterator : DataList
  pub from_net : Bytes
  pub to_unix : Bytes
  pub from_unix : Bytes
  pub to_net : Bytes
  pub aborts : ℕ

-- A round, and whether it left the loop.
pub record Round : Type 0 where
  pub relay : Relay
  pub ends : Bool

unfoldable pub relay_start : DataList → Relay
relay_start iterator = record {
  can_read_networksock = false;
  can_write_networksock = false;
  can_read_unixsock = false;
  can_write_unixsock = false;
  iterator = iterator;
  from_net = [];
  to_unix = [];
  from_unix = [];
  to_net = [];
  aborts = 0;
}

-- The flags after poll(); POLLIN of the network socket is not asked for while stored data is left.
unfoldable pub set_flags : Relay → Polled → Relay
set_flags r p = record r {
  can_read_networksock =
      r.can_read_networksock || (not (fcgi_data_iterator_has_data r.iterator) && p.net_readable);
  can_write_networksock = r.can_write_networksock || p.net_writable;
  can_read_unixsock = r.can_read_unixsock || p.unix_readable;
  can_write_unixsock = r.can_write_unixsock || p.unix_writable;
}

abbrev pub goes_on : Relay → Round
goes_on r = record { relay = r; ends = false }

abbrev pub ends_here : Relay → Round
ends_here r = record { relay = r; ends = true }

-- send_fcgi_abort_to_web_client() and the end of the loop.
abbrev pub aborts_here : Relay → Round
aborts_here r = record { relay = record r { aborts = r.aborts + 1 }; ends = true }

-- The write() of stored data, with the iterator behind it. How much was taken is not looked at.
unfoldable pub stored_written : Relay → DataList → Bytes → Written → Round
stored_written r iterator block write_failed = aborts_here (record r { iterator = iterator })
stored_written r iterator block (wrote n) = goes_on (record r {
  iterator = iterator;
  to_unix = r.to_unix ++ accepted n block;
  can_write_unixsock = false;
})

-- Stored data goes to the process.
unfoldable pub send_stored : Relay → Written → Round
unfolding stored_written
send_stored r written =
    let next = fcgi_data_get_next_data r.iterator in
    elim next.block [ none ↦ goes_on r | some block ↦ stored_written r next.iterator block written ]

unfoldable pub new_written : Relay → Bytes → Written → Round
new_written r bytes write_failed = aborts_here (record r { from_net = r.from_net ++ bytes })
new_written r bytes (wrote n) = goes_on (record r {
  from_net = r.from_net ++ bytes;
  to_unix = r.to_unix ++ accepted n bytes;
  can_read_networksock = false;
  can_write_unixsock = false;
})

-- New data of the web server goes to the process.
unfoldable pub send_new : Relay → Read → Written → Round
unfolding new_written
send_new r read_failed written = ends_here r
send_new r end_of_file written = ends_here r
send_new r (received b bs) written = new_written r (b ∷ bs) written

unfoldable pub to_process : Relay → Polled → Round
unfolding send_stored send_new
to_process r p =
    if r.can_write_unixsock
    then (if fcgi_data_iterator_has_data r.iterator
        then send_stored r p.unix_write
        else if r.can_read_networksock
        then send_new r p.net_read p.unix_write
        else goes_on r)
    else goes_on r

unfoldable pub answer_written : Relay → Bytes → Written → Round
answer_written r bytes write_failed = ends_here (record r { from_unix = r.from_unix ++ bytes })
answer_written r bytes (wrote n) = goes_on (record r {
  from_unix = r.from_unix ++ bytes;
  to_net = r.to_net ++ accepted n bytes;
  can_read_unixsock = false;
  can_write_networksock = false;
})

-- Data of the process goes to the web server.
unfoldable pub send_answer : Relay → Read → Written → Round
unfolding answer_written
send_answer r read_failed written = aborts_here r
send_answer r end_of_file written = ends_here r
send_answer r (received b bs) written = answer_written r (b ∷ bs) written

unfoldable pub to_server : Relay → Polled → Round
unfolding send_answer
to_server r p =
    if r.can_read_unixsock && r.can_write_networksock
    then send_answer r p.unix_read p.net_write
    else goes_on r

unfoldable pub relay_round : Relay → Polled → Round
unfolding set_flags to_process to_server
relay_round r p =
    let first = to_process (set_flags r p) p in
    if first.ends then first else to_server first.relay p

-- The loop over the returns of poll(). Where they run out it still waits.
unfoldable pub relay_loop : Relay → List Poll → Outcome Round
unfolding relay_round
relay_loop r [] = ok (goes_on r)
relay_loop r (interrupted ∷ polls) = ok (ends_here r)
relay_loop r (invalid ∷ polls) = ok (aborts_here r)
relay_loop r (poll_failed ∷ polls) = fault exit_failure
relay_loop r (polled p ∷ polls) =
    let round = relay_round r p in
    elim round.ends [ true ↦ ok round | false ↦ relay_loop round.relay polls ]
