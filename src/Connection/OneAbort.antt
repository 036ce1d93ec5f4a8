-- ===== src/Connection/OneAbort.antt =====
-- connection_manager.c: the aborts that the loop between the two sockets sends.
use qgis_scheduler.Prelude.{
  ◌≤◌, ◌≡◌, refl, Bool, true, false, ◌&&◌, inl, inr, Bool-cases, Option-cases, List, [], ◌∷◌, arith,
  if◌then◌else◌, Bytes,
}
use qgis_scheduler.Outcome.{ok}
use qgis_scheduler.Connection.{
  DataList, fcgi_data_get_next_data, fcgi_data_iterator_has_data, Read, received, read_failed,
  end_of_file,
}
use qgis_scheduler.Connection.Relay.{
  Written, wrote, write_failed, Polled, Poll, polled, interrupted, invalid, poll_failed, Relay,
  Round, set_flags, stored_written, new_written, answer_written, send_answer, send_stored, send_new,
  to_process, to_server, relay_round, relay_loop,
}

-- The web server is sent an abort only at the end of the loop.
abbrev pub OneAbort : Round → Type 0
OneAbort round = (round.relay.aborts ≤ 1) × (round.ends ≡ false → round.relay.aborts ≡ 0)

stored_written-OneAbort :
    (r : Relay) (iterator : DataList) (block : Bytes) (w : Written)
    → r.aborts ≡ 0
    → OneAbort (stored_written r iterator block w)
unfolding stored_written
stored_written-OneAbort r iterator block write_failed h =
    (omega (arith, h), λ e. absurd (ground arith))
stored_written-OneAbort r iterator block (wrote n) h = (omega (arith, h), λ e. h)

new_written-OneAbort :
    (r : Relay) (bytes : Bytes) (w : Written) → r.aborts ≡ 0 → OneAbort (new_written r bytes w)
unfolding new_written
new_written-OneAbort r bytes write_failed h = (omega (arith, h), λ e. absurd (ground arith))
new_written-OneAbort r bytes (wrote n) h = (omega (arith, h), λ e. h)

send_stored-OneAbort : (r : Relay) (w : Written) → r.aborts ≡ 0 → OneAbort (send_stored r w)
unfolding send_stored
send_stored-OneAbort r w h = elim (Option-cases (fcgi_data_get_next_data r.iterator).block) [
  | inl e ↦ simp (send_stored, e) (omega (arith, h), λ f. h)
  | inr (block, e) ↦ rw (send_stored, e) (stored_written-OneAbort r _ block w h)
]

send_new-OneAbort :
    (r : Relay) (read : Read) (w : Written) → r.aborts ≡ 0 → OneAbort (send_new r read w)
unfolding send_new
send_new-OneAbort r read_failed w h = (omega (arith, h), λ e. h)
send_new-OneAbort r end_of_file w h = (omega (arith, h), λ e. h)
send_new-OneAbort r (received b bs) w h = new_written-OneAbort r (b ∷ bs) w h

send_answer-OneAbort :
    (r : Relay) (read : Read) (w : Written) → r.aborts ≡ 0 → OneAbort (send_answer r read w)
unfolding send_answer answer_written
send_answer-OneAbort r read_failed w h = (omega (arith, h), λ e. absurd (ground arith))
send_answer-OneAbort r end_of_file w h = (omega (arith, h), λ e. h)
send_answer-OneAbort r (received b bs) write_failed h = (omega (arith, h), λ e. h)
send_answer-OneAbort r (received b bs) (wrote n) h = (omega (arith, h), λ e. h)

branch : (t : Bool) (a b : Round) → OneAbort a → OneAbort b → OneAbort (if t then a else b)
branch true a b h k = h
branch false a b h k = k

stays-OneAbort :
    (r : Relay) (ends : Bool) → r.aborts ≡ 0 → OneAbort (record { relay = r; ends = ends })
stays-OneAbort r ends h = (omega (arith, h), λ e. h)

both :
    (t : Bool) (first second : Round)
    → OneAbort first
    → first.ends ≡ t
    → (first.ends ≡ false → OneAbort second)
    → OneAbort (if t then first else second)
both true first second h e k = h
both false first second h e k = k e

relay_round-OneAbort : (r : Relay) (p : Polled) → r.aborts ≡ 0 → OneAbort (relay_round r p)
unfolding relay_round set_flags to_process to_server
relay_round-OneAbort r p h =
    let f = set_flags r p in
    let first = to_process f p in
    let begun : OneAbort first =
      branch f.can_write_unixsock _ _
        (branch (fcgi_data_iterator_has_data r.iterator) _ _ (send_stored-OneAbort f p.unix_write h)
          (branch f.can_read_networksock _ _ (send_new-OneAbort f p.net_read p.unix_write h)
            (stays-OneAbort f false h)))
        (stays-OneAbort f false h) in
    both first.ends first _ begun refl λ e.
      branch (first.relay.can_read_unixsock && first.relay.can_write_networksock) _ _
        (send_answer-OneAbort first.relay p.unix_read p.net_write (begun.1 e))
        (stays-OneAbort first.relay false (begun.1 e))

pub relay_loop-OneAbort :
    (r : Relay) (polls : List Poll)
    → r.aborts ≡ 0
    → (round : Round) → relay_loop r polls ≡ ok round
    → OneAbort round
unfolding relay_loop
relay_loop-OneAbort r [] h round e = (ground (arith, e), λ f. ground (arith, e))
relay_loop-OneAbort r (interrupted ∷ polls) h round e =
    (ground (arith, e), λ f. absurd (ground (arith, e, f)))
relay_loop-OneAbort r (invalid ∷ polls) h round e =
    (ground (arith, e), λ f. absurd (ground (arith, e, f)))
relay_loop-OneAbort r (poll_failed ∷ polls) h round e = absurd (ground (arith, e))
relay_loop-OneAbort r (polled p ∷ polls) h round e =
    let (few, goes) = relay_round-OneAbort r p h in
    elim (Bool-cases (relay_round r p).ends) [
      | inl f ↦
          let e' : ok (relay_round r p) ≡ ok round = rw (relay_loop, f) at e in
          (ground (arith, few, e'), λ g. absurd (ground (arith, e', f, g)))
      | inr f ↦
          relay_loop-OneAbort (relay_round r p).relay polls (goes f) round (rw (relay_loop, f) at e)
    ]
