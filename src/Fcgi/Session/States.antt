-- ===== src/Fcgi/Session/States.antt =====
-- The state of a session goes forward only, and fcgi_session_parse() consumes what it is given.
use qgis_scheduler.Prelude.{
  ℕ, zero, suc, ◌+◌, ◌-◌, ◌≤◌, ◌<◌, ◌≡◌, ◌≢◌, inl, inr, Bool-cases, true, Option, none, some, List,
  [], ◌∷◌, arith, ltb, Bytes, length, drop, take, length-drop,
}
use native.Mathlib.Nat.{le_refl}
use qgis_scheduler.Outcome.{Outcome, Outcome-cases, ok, fault, out_of_fuel}
use qgis_scheduler.Fcgi.Param.Reads.{param_list_parse_ends}
use qgis_scheduler.Fcgi.Protocol.{MessageType, params, stdin, Protocol}
use qgis_scheduler.Fcgi.Message.{
  Message, Step, message_new, message_parse, parse_header, parse_body, parse_rest, parse_in_body,
  parse_in_content, write_header, header_done, allocate, store_content, finish, min_ℕ, field,
  assemble16,
}
use qgis_scheduler.Fcgi.Build.{get_type, get_requestid, get_role}
use qgis_scheduler.Fcgi.Session.{
  SessionState, state_init, state_running, state_params_done, state_end, state_error, Session,
  Progress, evaluate_params, evaluate_begin, evaluate_type, evaluate_message_done, settle,
  parse_loop, resume, session_parse, is_end, is_init, params_so_far, Taken, take_message,
  continue_message,
}

-- The order of the states; `state_error` is never set.
unfoldable pub rank : SessionState → ℕ
rank state_error = 0
rank state_init = 1
rank state_running = 2
rank state_params_done = 3
rank state_end = 4

-- A call that succeeds does not lower the rank.
abbrev Forward : Session → Outcome Session → Type 0
Forward s (ok t) = rank s.state ≤ rank t.state
Forward s (fault e) = Unit {0}

evaluate_params-Forward : (s : Session) (m : Message) → Forward s (evaluate_params s m)
unfolding evaluate_params rank is_end
evaluate_params-Forward s m = ground arith

evaluate_type-Forward :
    (p : Protocol) (t : Option MessageType) (s : Session) (m : Message)
    → Forward s (evaluate_type p t s m)
unfolding evaluate_type evaluate_begin rank
evaluate_type-Forward p none s m = omega arith
evaluate_type-Forward p (some params) s m = evaluate_params-Forward s m
evaluate_type-Forward p (some stdin) s m = ground arith
evaluate_type-Forward p (some _) s m = ground arith

settle-Forward : (p : Protocol) (s : Session) (m : Message) → Forward s (settle p s m)
unfolding settle evaluate_message_done get_type
settle-Forward p s m = elim (Bool-cases m.parse_done) [
  | inr e ↦ simp e (le_refl (rank s.state))
  | inl e ↦ elim (Bool-cases m.parse_header_done) [
    | inr f ↦ simp (e, f) tt
    | inl f ↦ simp (e, f) (evaluate_type-Forward p (p.message_type (field 1 m.store)) s m)
  ]
]

-- The bytes that a message takes are among those that it is given.
abbrev Within : ℕ → ℕ → Outcome Step → Type 0
Within n len (ok r) = (n ≤ r.dataread) × (r.dataread ≤ n + len)
Within n len (fault e) = e ≢ out_of_fuel

parse_in_content-Within :
    (m : Message) (bytes : Bytes) (n : ℕ) → Within n (length bytes) (parse_in_content m bytes n)
unfolding parse_in_content finish store_content
parse_in_content-Within m bytes n = ground arith

parse_body-Within :
    (p : Protocol) (m : Message) (bytes : Bytes) (n : ℕ)
    → Within n (length bytes) (parse_body p m bytes n)
unfolding parse_body parse_rest parse_in_body finish
parse_body-Within p m bytes n = ground (arith, parse_in_content-Within m bytes n)

write_header_ends : (m : Message) (bytes : Bytes) → write_header m bytes ≢ fault out_of_fuel
unfolding write_header
write_header_ends m [] = λ e. cc
write_header_ends m (b ∷ bs) = ground arith

allocate_ends : (t : Option MessageType) (m : Message) → allocate t m ≢ fault out_of_fuel
unfolding allocate
allocate_ends none m = λ e. cc
allocate_ends (some t) m = ground arith

parse_header-Within :
    (p : Protocol) (m : Message) (bytes : Bytes)
    → m.bytes_read < 8
    → Within 0 (length bytes) (parse_header p m bytes)
unfolding parse_header header_done
parse_header-Within p m bytes h =
    let n = min_ℕ (length bytes) (8 - m.bytes_read) in
    elim (Outcome-cases (write_header m (take n bytes))) [
      | inr (f, e) ↦ ground (arith, e, write_header_ends m (take n bytes))
      | inl (w, e) ↦
          let m' = record w { bytes_read = w.bytes_read + n } in
          let a = record m' { content_length = assemble16 4 m'.store; parse_header_done = true } in
          elim (Outcome-cases (allocate (p.message_type (field 1 m'.store)) a)) [
            | inr (f, d) ↦ ground (arith, e, d, allocate_ends (p.message_type (field 1 m'.store)) a)
            | inl (q, d) ↦
                ground (arith, e, d, parse_body-Within p q (drop n bytes) n, length-drop n bytes)
          ]
    ]

message_parse-Within :
    (p : Protocol) (m : Message) (bytes : Bytes) → Within 0 (length bytes) (message_parse p m bytes)
unfolding message_parse
message_parse-Within p m bytes = elim (Bool-cases (ltb m.bytes_read 8)) [
  | inl e ↦ ground (arith, parse_header-Within p m bytes)
  | inr e ↦ ground (arith, parse_body-Within p m bytes 0)
]

-- What a session does with a parsed message does not run out of fuel.
settle_ends : (p : Protocol) (s : Session) (m : Message) → settle p s m ≢ fault out_of_fuel
unfolding settle evaluate_message_done get_type get_requestid get_role evaluate_type evaluate_begin
    evaluate_params
settle_ends p s m =
    ground (arith, param_list_parse_ends (params_so_far s.paramlist) m.content m.content_length)

-- A taken message: at least one byte, at most all, and the state does not go back.
abbrev IsTaken : Session → ℕ → Outcome Taken → Type 0
IsTaken s len (ok t) =
    (1 ≤ t.step.dataread) × (t.step.dataread ≤ len) × (rank s.state ≤ rank t.session.state)
IsTaken s len (fault e) = e ≢ out_of_fuel

take_message-IsTaken :
    (p : Protocol) (s : Session) (bytes : Bytes) → IsTaken s (length bytes) (take_message p s bytes)
unfolding take_message
take_message-IsTaken p s bytes = elim (Outcome-cases (message_parse p message_new bytes)) [
  | inr (f, e) ↦ ground (arith, e, message_parse-Within p message_new bytes)
  | inl (r, e) ↦
      let s' = record s { messlist = r.message ∷ s.messlist } in
      ground (
        arith,
        e,
        message_parse-Within p message_new bytes,
        settle-Forward p s' r.message,
        settle_ends p s' r.message,
      )
]

continue_message-IsTaken :
    (p : Protocol) (s : Session) (m : Message) (before : List Message) (bytes : Bytes)
    → IsTaken s (length bytes) (continue_message p s m before bytes)
unfolding continue_message
continue_message-IsTaken p s m before bytes = elim (Outcome-cases (message_parse p m bytes)) [
  | inr (f, e) ↦ ground (arith, e, message_parse-Within p m bytes)
  | inl (r, e) ↦
      let s' = record s { messlist = r.message ∷ before } in
      ground (
        arith,
        e,
        message_parse-Within p m bytes,
        settle-Forward p s' r.message,
        settle_ends p s' r.message,
      )
]

-- What holds of a call that consumes all its bytes.
abbrev pub IsConsumed : Session → ℕ → Outcome Progress → Type 0
IsConsumed s len (ok q) = (q.dataread ≡ len) × (rank s.state ≤ rank q.session.state)
IsConsumed s len (fault e) = e ≢ out_of_fuel

abbrev IsResumed : Session → ℕ → Outcome Progress → Type 0
IsResumed s len (ok q) = (q.dataread ≤ len) × (rank s.state ≤ rank q.session.state)
IsResumed s len (fault e) = e ≢ out_of_fuel

IsConsumed-step :
    (s t : Session) (n : ℕ) (rest : Bytes) (len : ℕ) (o : Outcome Progress)
    → rank s.state ≤ rank t.state
    → n + length rest ≡ len
    → IsConsumed t (n + length rest) o
    → IsConsumed s len o
IsConsumed-step s t n rest len (ok q) h e c = omega arith
IsConsumed-step s t n rest len (fault f) h e c = c

parse_loop-IsConsumed :
    (p : Protocol) (fuel : ℕ) (s : Session) (bytes : Bytes) (n : ℕ)
    → length bytes ≤ fuel
    → IsConsumed s (n + length bytes) (parse_loop p fuel s bytes n)
unfolding parse_loop
parse_loop-IsConsumed p fuel s [] n h = omega arith
parse_loop-IsConsumed p zero s (b ∷ bs) n h = absurd (omega arith)
parse_loop-IsConsumed p (suc fuel) s (b ∷ bs) n h =
    elim (Outcome-cases (take_message p s (b ∷ bs))) [
      | inr (f, e) ↦ ground (arith, e, take_message-IsTaken p s (b ∷ bs))
      | inl (t, e) ↦
          let taken = rw e at (take_message-IsTaken p s (b ∷ bs)) in
          elim (Bool-cases t.step.message.parse_done) [
            | inl d ↦
                rw (e, d)
                  (IsConsumed-step s t.session (n + t.step.dataread) (drop t.step.dataread (b ∷ bs))
                    (n + length (b ∷ bs)) _ taken.2
                    (omega (arith, length-drop t.step.dataread (b ∷ bs)))
                    (parse_loop-IsConsumed p fuel t.session (drop t.step.dataread (b ∷ bs))
                      (n + t.step.dataread) (omega (arith, length-drop t.step.dataread (b ∷ bs)))))
            | inr d ↦ rw (e, d) (ground arith)
          ]
    ]

resume-IsConsumed :
    (p : Protocol) (s : Session) (ms : List Message) (bytes : Bytes)
    → IsResumed s (length bytes) (resume p s ms bytes)
unfolding resume
resume-IsConsumed p s [] bytes = omega arith
resume-IsConsumed p s (m ∷ before) bytes =
    ground (arith, continue_message-IsTaken p s m before bytes)

-- Whatever bytes a session is given, `fcgi_session_parse` ends; if it returns, it has consumed all of
-- them, and the session's state has not gone back in the order error, init, running, params done,
-- end.
pub session_parse-IsConsumed :
    (p : Protocol) (s : Session) (bytes : Bytes)
    → IsConsumed s (length bytes) (session_parse p s bytes)
unfolding session_parse is_init rank
session_parse-IsConsumed p s bytes = elim (Outcome-cases (resume p s s.messlist bytes)) [
  | inr (f, e) ↦ ground (arith, e, resume-IsConsumed p s s.messlist bytes)
  | inl (r, e) ↦
      let rest = drop r.dataread bytes in
      ground (
        arith,
        e,
        resume-IsConsumed p s s.messlist bytes,
        length-drop r.dataread bytes,
        parse_loop-IsConsumed p (length rest) r.session rest r.dataread,
      )
]
