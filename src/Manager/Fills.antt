-- ===== src/Manager/Fills.antt =====
-- process_manager.c: the bytes that a new child process is sent are a request.
use qgis_scheduler.Prelude.{
  ℕ, zero, suc, ◌+◌, ◌-◌, ◌≤◌, ◌<◌, ◌≡◌, refl, sym, ap, ◌∙◌, Bool, true, false, ◌⊎◌, inl, inr, some,
  List, [], ◌∷◌, ◌++◌, arith, String, Bytes, length, codes, pos, ◌&&◌, not, lt→ltb, length-append,
  append_assoc, append-nil,
}
use qgis_scheduler.Outcome.{Outcome, ok, ◌>>=◌, bind_assoc}
use qgis_scheduler.Config.{Dictionary, Pointer, null, text}
use qgis_scheduler.Config.Values.{config_get_init_key, config_get_init_value}
use qgis_scheduler.Database.{Store}
use qgis_scheduler.Database.Processes.{process_set_state_init, process_set_state_idle}
use qgis_scheduler.Fcgi.Protocol.{
  Protocol, begin_request, MessageType, params, stdin, in_content, storage,
}
use qgis_scheduler.Fcgi.Param.{Param, param_list_write}
use qgis_scheduler.Fcgi.Param.RoundTrip.{encoded, encoded_all, param_list_write_cases}
use qgis_scheduler.Fcgi.Message.Whole.{bytes_of}
use qgis_scheduler.Fcgi.Build.{
  new_begin, new_content, new_parameter, new_stdin, message_write, get_size, write_type, copy_out,
}
use qgis_scheduler.Fcgi.Build.RoundTrip.{header_of, message_write-new_content}
use qgis_scheduler.Fcgi.Session.Request.{request, begin_body}
use qgis_scheduler.Manager.Child.{
  ChildCalls, Talk, unless_crashed, write_child, max_buffer_len, request_id, send_message,
  send_step, params_step, read_step, max_init_keys, with_text, behind_pair, init_params,
  send_params, has_timed_out, read_child, talk_to_child, settle_child, check_child, init_new_child,
}
use qgis_scheduler.Shutdown.{delivered}

-- The configuration gives these pairs from pair `i` on, and no further one.
abbrev pub Gives : (key value : ℕ → Pointer) → ℕ → List (String × String) → Type 0
Gives key value i [] = (key i ≡ null) ⊎ ((k : String) × (key i ≡ text k) × (value i ≡ null))
Gives key value i ((k, v) ∷ rest) =
    (key i ≡ text k) × (value i ≡ text v) × Gives key value (i + 1) rest

abbrev pub params_of : List (String × String) → List Param
params_of [] = []
params_of ((k, v) ∷ rest) = record { name = codes k; value = codes v } ∷ params_of rest

written_pair :
    (room : ℕ) (name value : Bytes)
    → length (encoded name value) < room
    → param_list_write room name value
      ≡ ok (record { retval = pos (length (encoded name value)); bytes = encoded name value })
written_pair room name value h = elim (param_list_write_cases room name value) [
  | inl (small, _) ↦ absurd (omega arith)
  | inr (inl (exact, _)) ↦ absurd (omega arith)
  | inr (inr (fits, e)) ↦ e
]

pub init_params-encoded_all :
    (key value : ℕ → Pointer) (left i room : ℕ) (pairs : List (String × String))
    → Gives key value i pairs
    → length pairs < left
    → length (encoded_all (params_of pairs)) < room
    → init_params key value left i room ≡ ok (some (encoded_all (params_of pairs)))
unfolding init_params with_text behind_pair
init_params-encoded_all key value zero i room pairs g few fits = absurd (omega arith)
init_params-encoded_all key value (suc left) i room [] (inl e) few fits = rw (init_params, e) refl
init_params-encoded_all key value (suc left) i room [] (inr (k, e, f)) few fits =
    rw (init_params, e, f) refl
init_params-encoded_all key value (suc left) i room ((k, v) ∷ pairs) (e, f, g) few fits =
    let sum = length-append (encoded (codes k) (codes v)) (encoded_all (params_of pairs)) in
    let one = written_pair room (codes k) (codes v) (omega (arith, sum)) in
    let rest =
      init_params-encoded_all key value left (i + 1) (room - length (encoded (codes k) (codes v)))
        pairs g (omega arith) (omega (arith, sum)) in
    rw (init_params, e, f, one, rest) refl

-- A talk without a crash.
abbrev pub quiet : Bytes → Talk
quiet sent = record { sent = sent; has_child_crash = false }

begin_step :
    (p : Protocol) (succeeds : Bool) (role : ℕ) (sent : Bytes)
    → succeeds ≡ true
    → send_step p succeeds (ok (new_begin p request_id role 0)) (quiet sent)
      ≡ ok
          (quiet (sent ++ (bytes_of (header_of p begin_request request_id 8) ++ begin_body role 0)))
unfolding send_step unless_crashed send_message write_child new_begin message_write get_size
    write_type copy_out storage
begin_step p succeeds role sent e = rw (e, p.message_type-code begin_request, write_type) refl

-- A message with a content, written and sent.
content_step :
    (p : Protocol) (type : MessageType) (succeeds : Bool) (content sent : Bytes)
    → storage type ≡ in_content
    → 8 + length content ≤ max_buffer_len
    → succeeds ≡ true
    → send_step p succeeds (new_content p type request_id content (length content)) (quiet sent)
      ≡ ok (quiet (sent ++ (bytes_of (header_of p type request_id (length content)) ++ content)))
unfolding send_step unless_crashed send_message write_child
content_step p type succeeds content sent kept fits e =
    sym (
      bind_assoc (new_content p type request_id content (length content))
        (message_write p max_buffer_len) (λ b. ok (write_child succeeds b (quiet sent))))
    ∙ ap (λ o. o >>= λ b. ok (write_child succeeds b (quiet sent)))
        (message_write-new_content p type request_id content max_buffer_len kept (omega arith) fits)
    ∙ rw e refl

pairs_step :
    (p : Protocol) (succeeds : Bool) (key value : ℕ → Pointer) (pairs : List (String × String))
    (sent : Bytes)
    → Gives key value 0 pairs
    → length pairs < max_init_keys
    → 8 + length (encoded_all (params_of pairs)) ≤ max_buffer_len
    → succeeds ≡ true
    → params_step p succeeds key value (quiet sent)
      ≡ ok (
          quiet (
            sent
            ++ (bytes_of (header_of p params request_id (length (encoded_all (params_of pairs))))
                ++ encoded_all (params_of pairs))))
unfolding params_step send_params unless_crashed new_parameter storage send_step
pairs_step p succeeds key value pairs sent gives few fits e =
    ap (λ o. o >>= λ parambuffer. send_params p succeeds (quiet sent) parambuffer)
      (init_params-encoded_all key value max_init_keys 0 max_buffer_len pairs gives few
        (omega arith))
    ∙ content_step p params succeeds (encoded_all (params_of pairs)) sent refl fits e

behind_ok {ℓ κ} :
    {A : Type ℓ} {B : Type κ} (o : Outcome A) (f : A → Outcome B) {a : A}
    → o ≡ ok a
    → (o >>= f) ≡ f a
behind_ok o f e = ap (λ o. o >>= f) e

module _ (p : Protocol) (responder : ℕ) (pairs : List (String × String)) where
  abbrev ps : List Param
  ps = params_of pairs

  abbrev begun : Bytes
  begun = bytes_of (header_of p begin_request request_id 8) ++ begin_body responder 0

  abbrev filled : Bytes
  filled =
      begun
      ++ (bytes_of (header_of p params request_id (length (encoded_all ps))) ++ encoded_all ps)

  abbrev closed : Bytes
  closed = filled ++ (bytes_of (header_of p params request_id 0) ++ [])

  abbrev first : Bytes
  first = closed ++ (bytes_of (header_of p stdin request_id 0) ++ [])

  abbrev second : Bytes
  second = first ++ (bytes_of (header_of p stdin request_id 0) ++ [])

  talk_to_child-sends :
      (key value : ℕ → Pointer) (calls : ChildCalls)
      → Gives key value 0 pairs
      → length pairs < max_init_keys
      → 8 + length (encoded_all ps) ≤ max_buffer_len
      → (calls.has_name && (calls.has_socket && calls.connects)) ≡ true
      → ((i : ℕ) → calls.writes i ≡ true)
      → has_timed_out calls.chunks calls.ending ≡ false
      → talk_to_child p responder key value calls ≡ ok (quiet second)
  unfolding talk_to_child read_step read_child unless_crashed new_parameter new_stdin storage
  talk_to_child-sends key value calls gives few fits opens writes answered =
      ap
        (λ (b : Bool).
          send_step p (calls.writes 0) (ok (new_begin p request_id responder 0))
            (record { sent = []; has_child_crash = not b })
          >>= λ begun. params_step p (calls.writes 1) key value begun >>= λ filled.
              send_step p (calls.writes 2) (new_parameter p request_id [] 0) filled >>= λ closed.
              send_step p (calls.writes 3) (new_stdin p request_id [] 0) closed >>= λ first.
              send_step p (calls.writes 4) (new_stdin p request_id [] 0) first >>= λ second.
              read_step calls second)
        opens
      ∙ behind_ok _ _ (begin_step p (calls.writes 0) responder [] (writes 0))
      ∙ behind_ok _ _
          (pairs_step p (calls.writes 1) key value pairs begun gives few fits (writes 1))
      ∙ behind_ok _ _
          (content_step p params (calls.writes 2) [] filled refl (omega arith) (writes 2))
      ∙ behind_ok _ _
          (content_step p stdin (calls.writes 3) [] closed refl (omega arith) (writes 3))
      ∙ behind_ok _ _ (content_step p stdin (calls.writes 4) [] first refl (omega arith) (writes 4))
      ∙ ap (λ (b : Bool). ok (record { sent = second; has_child_crash = b })) answered

  second-request :
      second ≡ request p request_id responder 0 ps ++ bytes_of (header_of p stdin request_id 0)
  second-request = simp (append_assoc, append-nil)

-- With sound calls, an answer that ends in time and a child that lives, the thread sends the child
-- exactly a FastCGI request for the responder with the pairs of the configuration as parameters, and
-- a second end of the input, and makes the process idle. The pairs are those
-- numbered from 0 up to the first missing one; they are fewer than 128 and with the header fit into the buffer of 4096 bytes.
pub init_new_child-request :
    (decimal : ℕ → String) (p : Protocol) (responder : ℕ) (d : Dictionary) (down thread : Bool)
    (s : Store) (pid thread_id : ℕ) (projname : String) (calls : ChildCalls)
    (pairs : List (String × String))
    → 0 < pid
    → Gives
        (config_get_init_key decimal d (some projname))
        (config_get_init_value decimal d (some projname))
        0
        pairs
    → length pairs < max_init_keys
    → 8 + length (encoded_all (params_of pairs)) ≤ max_buffer_len
    → (calls.has_name && (calls.has_socket && calls.connects)) ≡ true
    → ((i : ℕ) → calls.writes i ≡ true)
    → has_timed_out calls.chunks calls.ending ≡ false
    → calls.alive ≡ delivered
    → init_new_child decimal p responder d down thread s pid thread_id projname calls
      ≡ ok (record {
        store = process_set_state_idle (calls.later (process_set_state_init s pid thread_id)) pid;
        starts = [];
        talk = quiet (
            request p request_id responder 0 (params_of pairs)
            ++ bytes_of (header_of p stdin request_id 0));
      })
unfolding init_new_child settle_child check_child
init_new_child-request decimal p responder d down thread s pid thread_id projname calls pairs live
      gives few fits opens writes answered alive =
    let later = calls.later (process_set_state_init s pid thread_id) in
    rw (lt→ltb 0 pid live) (
      behind_ok _ (λ t. settle_child down thread later pid projname calls.alive t)
        (talk_to_child-sends p responder pairs (config_get_init_key decimal d (some projname))
          (config_get_init_value decimal d (some projname)) calls gives few fits opens writes
          answered)
      ∙ rw (alive, second-request p responder pairs) refl)
