-- ===== src/Connection/InOrder.antt =====
-- connection_manager.c: in which order the relayed bytes arrive.
use qgis_scheduler.Prelude.{
  ◌+◌, ◌≤◌, ◌≡◌, refl, sym, ap, ◌∙◌, ◌⊎◌, inl, inr, Bool, true, false, ◌&&◌, List, [], ◌∷◌, ◌++◌,
  append_assoc, append-nil, arith, if◌then◌else◌, Bytes, Bool-cases,
}
use qgis_scheduler.Outcome.{Outcome, ok, fault, exit_failure}
use qgis_scheduler.Connection.{
  DataList, fcgi_data_get_next_data, fcgi_data_iterator_has_data, Read, received, read_failed,
  end_of_file,
}
use qgis_scheduler.Connection.Relay.{
  all_bytes, first_bytes, Written, wrote, write_failed, Polled, Poll, polled, interrupted, invalid,
  poll_failed, Relay, Round, relay_start, set_flags, stored_written, new_written, answer_written,
  send_answer, send_stored, send_new, to_process, to_server, relay_round, relay_loop,
}

abbrev pub joined : DataList → Bytes
joined [] = []
joined (block ∷ rest) = block ++ joined rest

-- The bytes begin with these.
abbrev pub IsFront : Bytes → Bytes → Type 0
IsFront front whole = (rest : Bytes) × (whole ≡ front ++ rest)

-- What arrived is in order, and nothing is read from the web server while stored data is left.
pub record InOrder (stored : DataList) (r : Relay) : Type 0 where
  pub upwards : joined stored ++ r.from_net ≡ r.to_unix ++ joined r.iterator
  pub stored_first : fcgi_data_iterator_has_data r.iterator ≡ true → r.from_net ≡ []
  pub downwards : r.from_unix ≡ r.to_net
  pub no_abort : r.aborts ≡ 0

-- Once the loop has ended, the bytes that arrived are the first ones, in order.
pub record EndsInOrder (stored : DataList) (r : Relay) : Type 0 where
  pub upwards : IsFront r.to_unix (joined stored ++ r.from_net)
  pub downwards : IsFront r.to_net r.from_unix
  pub one_abort : r.aborts ≤ 1

-- A write() takes all bytes or fails.
abbrev is_part : Written → Bool
is_part (wrote (first_bytes n)) = true
is_part _ = false

pub record WritesAll (p : Polled) : Type 0 where
  pub unix_all : is_part p.unix_write ≡ false
  pub net_all : is_part p.net_write ≡ false

abbrev AllWritesAll : List Poll → Type 0
AllWritesAll [] = Unit
AllWritesAll (polled p ∷ polls) = WritesAll p × AllWritesAll polls
AllWritesAll (_ ∷ polls) = AllWritesAll polls

-- A round that goes on keeps the order, and one that ends has kept it so far.
abbrev Keeps : DataList → Round → Type 0
Keeps stored round =
    ((round.ends ≡ false) × InOrder stored round.relay)
    ⊎ ((round.ends ≡ true) × EndsInOrder stored round.relay)

InOrder-EndsInOrder : (stored : DataList) (r : Relay) → InOrder stored r → EndsInOrder stored r
InOrder-EndsInOrder stored r o = record {
  upwards = (joined r.iterator, o.upwards);
  downwards = ([], o.downwards ∙ sym (append-nil r.to_net));
  one_abort = omega (arith, o.no_abort);
}

set_flags-InOrder :
    (stored : DataList) (r : Relay) (p : Polled) → InOrder stored r → InOrder stored (set_flags r p)
unfolding set_flags
set_flags-InOrder stored r p o = record {
  upwards = o.upwards;
  stored_first = o.stored_first;
  downwards = o.downwards;
  no_abort = o.no_abort;
}

answer_written-Keeps :
    (stored : DataList) (r : Relay) (bytes : Bytes) (w : Written)
    → is_part w ≡ false
    → InOrder stored r
    → Keeps stored (answer_written r bytes w)
unfolding answer_written
answer_written-Keeps stored r bytes write_failed h o = inr (
  refl,
  record {
    upwards = (joined r.iterator, o.upwards);
    downwards = (bytes, ap (λ front. front ++ bytes) o.downwards);
    one_abort = omega (arith, o.no_abort);
  },
)
answer_written-Keeps stored r bytes (wrote all_bytes) h o = inl (
  refl,
  record {
    upwards = o.upwards;
    stored_first = o.stored_first;
    downwards = ap (λ front. front ++ bytes) o.downwards;
    no_abort = o.no_abort;
  },
)
answer_written-Keeps stored r bytes (wrote (first_bytes n)) h o = absurd (ground arith)

aborts-EndsInOrder :
    (stored : DataList) (r : Relay)
    → InOrder stored r
    → EndsInOrder stored (record r { aborts = r.aborts + 1 })
aborts-EndsInOrder stored r o = record {
  upwards = (joined r.iterator, o.upwards);
  downwards = ([], o.downwards ∙ sym (append-nil r.to_net));
  one_abort = omega (arith, o.no_abort);
}

send_answer-Keeps :
    (stored : DataList) (r : Relay) (read : Read) (w : Written)
    → is_part w ≡ false
    → InOrder stored r
    → Keeps stored (send_answer r read w)
unfolding send_answer
send_answer-Keeps stored r read_failed w h o = inr (refl, aborts-EndsInOrder stored r o)
send_answer-Keeps stored r end_of_file w h o = inr (refl, InOrder-EndsInOrder stored r o)
send_answer-Keeps stored r (received b bs) w h o = answer_written-Keeps stored r (b ∷ bs) w h o

to_server-Keeps :
    (stored : DataList) (r : Relay) (p : Polled)
    → WritesAll p
    → InOrder stored r
    → Keeps stored (to_server r p)
unfolding to_server
to_server-Keeps stored r p all o =
    elim (Bool-cases (r.can_read_unixsock && r.can_write_networksock)) [
      | inl e ↦ rw (to_server, e) (send_answer-Keeps stored r p.unix_read p.net_write all.net_all o)
      | inr e ↦ rw (to_server, e) (inl (refl, o))
    ]

stored_written-Keeps :
    (stored : DataList) (r : Relay) (iterator : DataList) (block : Bytes) (w : Written)
    → is_part w ≡ false
    → r.iterator ≡ block ∷ iterator
    → InOrder stored r
    → Keeps stored (stored_written r iterator block w)
unfolding stored_written fcgi_data_iterator_has_data
stored_written-Keeps stored r iterator block write_failed h e o = inr (
  refl,
  record {
    upwards = (joined r.iterator, o.upwards);
    downwards = ([], o.downwards ∙ sym (append-nil r.to_net));
    one_abort = omega (arith, o.no_abort);
  },
)
stored_written-Keeps stored r iterator block (wrote all_bytes) h e o =
    let none_read : r.from_net ≡ [] = o.stored_first (rw e refl) in
    inl (
      refl,
      record {
        upwards =
            o.upwards
            ∙ ap (λ blocks. r.to_unix ++ joined blocks) e
            ∙ sym (append_assoc r.to_unix block (joined iterator));
        stored_first = λ more. none_read;
        downwards = o.downwards;
        no_abort = o.no_abort;
      },
    )
stored_written-Keeps stored r iterator block (wrote (first_bytes n)) h e o = absurd (ground arith)

send_stored-Keeps :
    (stored : DataList) (r : Relay) (w : Written)
    → is_part w ≡ false
    → InOrder stored r
    → Keeps stored (send_stored r w)
unfolding send_stored fcgi_data_get_next_data
send_stored-Keeps stored r w h o = by_list r.iterator refl
  where
    by_list : (blocks : DataList) → r.iterator ≡ blocks → Keeps stored (send_stored r w)
    by_list [] e = rw (send_stored, e) (inl (refl, o))
    by_list (block ∷ rest) e =
        rw (send_stored, e, e) (stored_written-Keeps stored r rest block w h e o)

-- With no stored data left, all that was read has been sent.
caught_up :
    (stored : DataList) (r : Relay)
    → r.iterator ≡ []
    → InOrder stored r
    → joined stored ++ r.from_net ≡ r.to_unix
caught_up stored r e o =
    o.upwards ∙ ap (λ blocks. r.to_unix ++ joined blocks) e ∙ append-nil r.to_unix

has_data-nil : (iterator : DataList) → iterator ≡ [] → fcgi_data_iterator_has_data iterator ≡ false
unfolding fcgi_data_iterator_has_data
has_data-nil iterator e = rw e refl

new_written-Keeps :
    (stored : DataList) (r : Relay) (bytes : Bytes) (w : Written)
    → is_part w ≡ false
    → r.iterator ≡ []
    → InOrder stored r
    → Keeps stored (new_written r bytes w)
unfolding new_written
new_written-Keeps stored r bytes write_failed h e o = inr (
  refl,
  record {
    upwards = (
      bytes,
      sym (append_assoc (joined stored) r.from_net bytes)
          ∙ ap (λ front. front ++ bytes) (caught_up stored r e o),
    );
    downwards = ([], o.downwards ∙ sym (append-nil r.to_net));
    one_abort = omega (arith, o.no_abort);
  },
)
new_written-Keeps stored r bytes (wrote all_bytes) h e o = inl (
  refl,
  record {
    upwards =
        sym (append_assoc (joined stored) r.from_net bytes)
        ∙ ap (λ front. front ++ bytes) (caught_up stored r e o)
        ∙ sym (append-nil (r.to_unix ++ bytes))
        ∙ ap (λ blocks. (r.to_unix ++ bytes) ++ joined blocks) (sym e);
    stored_first = λ more. absurd (ground (arith, has_data-nil r.iterator e, more));
    downwards = o.downwards;
    no_abort = o.no_abort;
  },
)
new_written-Keeps stored r bytes (wrote (first_bytes n)) h e o = absurd (ground arith)

send_new-Keeps :
    (stored : DataList) (r : Relay) (read : Read) (w : Written)
    → is_part w ≡ false
    → r.iterator ≡ []
    → InOrder stored r
    → Keeps stored (send_new r read w)
unfolding send_new
send_new-Keeps stored r read_failed w h e o = inr (refl, InOrder-EndsInOrder stored r o)
send_new-Keeps stored r end_of_file w h e o = inr (refl, InOrder-EndsInOrder stored r o)
send_new-Keeps stored r (received b bs) w h e o = new_written-Keeps stored r (b ∷ bs) w h e o

no_data : (iterator : DataList) → fcgi_data_iterator_has_data iterator ≡ false → iterator ≡ []
unfolding fcgi_data_iterator_has_data
no_data [] h = refl
no_data (block ∷ rest) h = absurd (ground arith)

either :
    (stored : DataList) (t : Bool) (a b : Round)
    → (t ≡ true → Keeps stored a)
    → (t ≡ false → Keeps stored b)
    → Keeps stored (if t then a else b)
either stored true a b f g = f refl
either stored false a b f g = g refl

to_process-Keeps :
    (stored : DataList) (r : Relay) (p : Polled)
    → WritesAll p
    → InOrder stored r
    → Keeps stored (to_process r p)
unfolding to_process
to_process-Keeps stored r p all o =
    either stored r.can_write_unixsock _ _
      (λ e.
        either stored (fcgi_data_iterator_has_data r.iterator) _ _
          (λ f. send_stored-Keeps stored r p.unix_write all.unix_all o)
          (λ f.
            either stored r.can_read_networksock _ _
              (λ g.
                send_new-Keeps stored r p.net_read p.unix_write all.unix_all (no_data r.iterator f)
                  o)
              (λ g. inl (refl, o))))
      (λ e. inl (refl, o))

relay_round-Keeps :
    (stored : DataList) (r : Relay) (p : Polled)
    → WritesAll p
    → InOrder stored r
    → Keeps stored (relay_round r p)
unfolding relay_round
relay_round-Keeps stored r p all o =
    elim (to_process-Keeps stored (set_flags r p) p all (set_flags-InOrder stored r p o)) [
      | inl (e, kept) ↦
          rw (relay_round, e)
            (to_server-Keeps stored (to_process (set_flags r p) p).relay p all kept)
      | inr (e, ended) ↦ rw (relay_round, e) (inr (e, ended))
    ]

-- The loop still waits, or has ended, or poll() has failed and the program ends.
abbrev pub RelaysInOrder : DataList → Outcome Round → Type 0
RelaysInOrder stored (ok round) = Keeps stored round
RelaysInOrder stored (fault why) = why ≡ exit_failure

relay_loop-Keeps :
    (stored : DataList) (r : Relay) (polls : List Poll)
    → AllWritesAll polls
    → InOrder stored r
    → RelaysInOrder stored (relay_loop r polls)
unfolding relay_loop
relay_loop-Keeps stored r [] all o = inl (refl, o)
relay_loop-Keeps stored r (interrupted ∷ polls) all o = inr (refl, InOrder-EndsInOrder stored r o)
relay_loop-Keeps stored r (invalid ∷ polls) all o = inr (refl, aborts-EndsInOrder stored r o)
relay_loop-Keeps stored r (poll_failed ∷ polls) all o = refl
relay_loop-Keeps stored r (polled p ∷ polls) all o = elim (relay_round-Keeps stored r p all.0 o) [
  | inl (e, kept) ↦
      rw (relay_loop, e) (relay_loop-Keeps stored (relay_round r p).relay polls all.1 kept)
  | inr (e, ended) ↦ rw (relay_loop, e) (inr (e, ended))
]

-- The loop of `thread_handle_connection` between the two sockets, for any results of poll() and read(),
-- if every write() takes all its bytes or fails: while it still waits, the process has been sent the
-- stored blocks and then what the web server sent, less the stored blocks that are left, and the web
-- server all that the process sent, with no abort. When it has ended, both got a front of that, in
-- order, and the web server one abort at most. The program ends only if poll() fails.
pub relay_loop-RelaysInOrder :
    (stored : DataList) (polls : List Poll)
    → AllWritesAll polls
    → RelaysInOrder stored (relay_loop (relay_start stored) polls)
unfolding relay_start
relay_loop-RelaysInOrder stored polls all =
    relay_loop-Keeps stored (relay_start stored) polls all (record {
      upwards = append-nil (joined stored);
      stored_first = λ more. refl;
      downwards = refl;
      no_abort = refl;
    })
