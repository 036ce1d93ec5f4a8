-- ===== src/Manager/Talks.antt =====
-- process_manager.c: the talk with a new child returns, whatever the calls on the child give.
use qgis_scheduler.Prelude.{
  ℕ, ◌+◌, ◌≤◌, ◌<◌, ◌≡◌, refl, sym, ap, ◌∙◌, Bool, Bool-cases, inl, inr, List, [], ◌++◌, arith,
  String, Bytes, length, if◌then◌else◌,
}
use qgis_scheduler.Outcome.{Outcome, ok, ◌>>=◌, Returns, bind_assoc}
use qgis_scheduler.Config.{Pointer}
use qgis_scheduler.Fcgi.Protocol.{
  Protocol, begin_request, MessageType, params, stdin, in_content, storage,
}
use qgis_scheduler.Fcgi.Message.{Message}
use qgis_scheduler.Fcgi.Param.RoundTrip.{encoded_all}
use qgis_scheduler.Fcgi.Message.Whole.{bytes_of}
use qgis_scheduler.Fcgi.Build.{
  new_begin, new_content, new_parameter, new_stdin, message_write, get_size, write_type, copy_out,
}
use qgis_scheduler.Fcgi.Build.RoundTrip.{header_of, message_write-new_content}
use qgis_scheduler.Fcgi.Session.Request.{begin_body}
use qgis_scheduler.Manager.Child.{
  ChildCalls, Talk, unless_crashed, write_child, max_buffer_len, request_id, send_message,
  send_step, params_step, read_step, read_child, max_init_keys, send_params, talk_to_child,
}
use qgis_scheduler.Manager.Fills.{Gives, params_of, init_params-encoded_all}

pub bind-Returns {ℓ κ} :
    {A : Type ℓ} {B : Type κ} (o : Outcome A) (f : A → Outcome B)
    → Returns o
    → ((a : A) → Returns (f a))
    → Returns (o >>= f)
bind-Returns o f (a, e) h = let (b, g) = h a in (b, ap (λ q. q >>= f) e ∙ g)

unless-Returns : (t : Talk) (part : Outcome Talk) → Returns part → Returns (unless_crashed t part)
unfolding unless_crashed
unless-Returns t part (a, e) = elim (Bool-cases t.has_child_crash) [
  | inl crash ↦ (t, ap (λ (b : Bool). if b then ok t else part) crash)
  | inr fine ↦ (a, ap (λ (b : Bool). if b then ok t else part) fine ∙ e)
]

-- A message that can be written into the buffer.
abbrev Fits : Protocol → Outcome Message → Type 0
Fits p message = Returns (message >>= message_write p max_buffer_len)

send_message-Returns :
    (p : Protocol) (succeeds : Bool) (t : Talk) (message : Outcome Message)
    → Fits p message
    → Returns (send_message p succeeds t message)
unfolding send_message
send_message-Returns p succeeds t message (bytes, e) = (
  write_child succeeds bytes t,
  sym (bind_assoc message (message_write p max_buffer_len) (λ b. ok (write_child succeeds b t)))
      ∙ ap (λ o. o >>= λ b. ok (write_child succeeds b t)) e,
)

send_step-Returns :
    (p : Protocol) (succeeds : Bool) (message : Outcome Message) (t : Talk)
    → Fits p message
    → Returns (send_step p succeeds message t)
unfolding send_step
send_step-Returns p succeeds message t h =
    unless-Returns t (send_message p succeeds t message)
      (send_message-Returns p succeeds t message h)

begin-Fits : (p : Protocol) (role : ℕ) → Fits p (ok (new_begin p request_id role 0))
unfolding new_begin message_write get_size write_type copy_out storage
begin-Fits p role = (
  bytes_of (header_of p begin_request request_id 8) ++ begin_body role 0,
  rw (p.message_type-code begin_request, write_type) refl,
)

content-Fits :
    (p : Protocol) (type : MessageType) (content : Bytes)
    → storage type ≡ in_content
    → 8 + length content ≤ max_buffer_len
    → Fits p (new_content p type request_id content (length content))
content-Fits p type content kept fits = (
  bytes_of (header_of p type request_id (length content)) ++ content,
  message_write-new_content p type request_id content max_buffer_len kept (omega arith) fits,
)

params_step-Returns :
    (p : Protocol) (succeeds : Bool) (key value : ℕ → Pointer) (pairs : List (String × String))
    (t : Talk)
    → Gives key value 0 pairs
    → length pairs < max_init_keys
    → 8 + length (encoded_all (params_of pairs)) ≤ max_buffer_len
    → Returns (params_step p succeeds key value t)
unfolding params_step send_params new_parameter storage
params_step-Returns p succeeds key value pairs t gives few fits =
    let all = encoded_all (params_of pairs) in
    let (r, sent) =
      send_message-Returns p succeeds t (new_content p params request_id all (length all))
        (content-Fits p params all refl fits) in
    unless-Returns t _ (
      r,
      ap (λ o. o >>= λ parambuffer. send_params p succeeds t parambuffer)
            (init_params-encoded_all key value max_init_keys 0 max_buffer_len pairs gives few
              (omega arith))
          ∙ sent,
    )

pub talk_to_child-Returns :
    (p : Protocol) (responder : ℕ) (key value : ℕ → Pointer) (calls : ChildCalls)
    (pairs : List (String × String))
    → Gives key value 0 pairs
    → length pairs < max_init_keys
    → 8 + length (encoded_all (params_of pairs)) ≤ max_buffer_len
    → Returns (talk_to_child p responder key value calls)
unfolding talk_to_child read_step new_parameter new_stdin storage
talk_to_child-Returns p responder key value calls pairs gives few fits =
    bind-Returns _ _
      (send_step-Returns p (calls.writes 0) (ok (new_begin p request_id responder 0)) _
        (begin-Fits p responder))
      λ begun.
        bind-Returns _ _
          (params_step-Returns p (calls.writes 1) key value pairs begun gives few fits)
          λ filled.
            bind-Returns _ _
              (send_step-Returns p (calls.writes 2) _ filled
                (content-Fits p params [] refl (omega arith)))
              λ closed.
                bind-Returns _ _
                  (send_step-Returns p (calls.writes 3) _ closed
                    (content-Fits p stdin [] refl (omega arith)))
                  λ first.
                    bind-Returns _ _
                      (send_step-Returns p (calls.writes 4) _ first
                        (content-Fits p stdin [] refl (omega arith)))
                      λ second. unless-Returns second (ok (read_child calls second)) (_, refl)
