-- ===== src/Fcgi/Session/Request.antt =====
-- A whole request in one chunk: begin, parameters, the end of the parameters, the end of the input.
use qgis_scheduler.Prelude.{
  ℕ, zero, suc, ◌+◌, ◌/◌, ◌%◌, ◌<◌, ◌≡◌, refl, sym, ◌∙◌, inr, true, false, not, ◌&&◌, none, some,
  List, [], ◌∷◌, ◌++◌, arith, ◌==◌, if◌then◌else◌, Bytes, length, drop, All, length-append,
  append-nil, drop_add, drop-length_append, replicate,
}
use qgis_scheduler.Outcome.{ok}
use qgis_scheduler.Fcgi.Param.{Param, param_list_parse}
use qgis_scheduler.Fcgi.Param.RoundTrip.{
  encoded_all, IsShort, param_list_parse-encoded_all, encoded_all_longer,
}
use qgis_scheduler.Fcgi.Protocol.{
  MessageType, begin_request, params, stdin, Protocol, in_content, storage,
}
use qgis_scheduler.Fcgi.Message.{Message, message_new, message_parse}
use qgis_scheduler.Fcgi.Message.Whole.{
  Header, bytes_of, announced, received, message_parse-received,
}
use qgis_scheduler.Fcgi.Build.{get_type, get_requestid, get_role, complete}
use qgis_scheduler.Fcgi.Build.RoundTrip.{header_of, announced-header_of, message_parse-body}
use qgis_scheduler.Fcgi.Session.{
  state_init, state_params_done, state_end, Session, session_new, Progress, evaluate_params,
  evaluate_begin, evaluate_type, evaluate_message_done, settle, parse_loop, resume, session_parse,
  is_end, is_init, last_is_done, params_so_far, take_message,
}

abbrev pushed : Session → Message → Session
pushed s m = record s { messlist = m ∷ s.messlist }

-- One round of the loop on a complete message.
loop_message :
    (p : Protocol) (fuel n k : ℕ) (s s' : Session) (m : Message) (b : ℕ) (bs : Bytes)
    → message_parse p message_new (b ∷ bs) ≡ ok (record { dataread = suc k; message = m })
    → m.parse_done ≡ true
    → settle p (pushed s m) m ≡ ok s'
    → parse_loop p (suc fuel) s (b ∷ bs) n ≡ parse_loop p fuel s' (drop k bs) (n + suc k)
unfolding parse_loop take_message
loop_message p fuel n k s s' m b bs e d f = ground (arith, e, d, f)

-- A complete message with a content, followed by `rest`.
loop_content :
    (p : Protocol) (t : MessageType) (fuel n : ℕ) (s s' : Session) (h : Header) (c rest : Bytes)
    → p.message_type h.type ≡ some t
    → storage t ≡ in_content
    → length c ≡ announced h
    → evaluate_type p (some t) (pushed s (received h c)) (received h c) ≡ ok s'
    → parse_loop p (suc fuel) s (bytes_of h ++ (c ++ rest)) n
      ≡ parse_loop p fuel s' rest (n + (8 + length c))
unfolding settle evaluate_message_done get_type
loop_content p t fuel n s s' h c rest e st l v =
    let eight : suc (7 + length c) ≡ 8 + length c = omega arith in
    let m = received h c in
    let parsed = message_parse-received p t h c rest e st (omega arith) (inr l) in
    let cut : drop (7 + length c) (
          h.type
          ∷ h.request_id_b1
          ∷ h.request_id_b0
          ∷ h.content_length_b1
          ∷ h.content_length_b0
          ∷ h.padding_length
          ∷ h.reserved
          ∷ (c ++ rest))
        ≡ rest =
      rw (drop_add, drop-length_append) in
    loop_message p fuel n (7 + length c) s s' m h.version _ (rw eight parsed) (ground arith)
      (ground (arith, e, v))
    ∙ rw (cut, eight)

no_content : (found : List Param) (len : ℕ) → param_list_parse found none len ≡ ok found
unfolding param_list_parse
no_content found len = refl

evaluate_params-encoded_all :
    (s : Session) (h : Header) (ps : List Param)
    → All IsShort ps
    → announced h ≡ length (encoded_all ps)
    → evaluate_params s (received h (encoded_all ps))
      ≡ ok (record s {
        paramlist = some (params_so_far s.paramlist ++ ps);
        state =
            if not (is_end s.state) && length (encoded_all ps) == 0
            then state_params_done
            else s.state;
      })
unfolding evaluate_params
evaluate_params-encoded_all s h [] short e = ground (
  arith,
  append-nil (params_so_far s.paramlist),
  no_content (params_so_far s.paramlist) (announced h),
)
evaluate_params-encoded_all s h (q ∷ ps) short e = ground (
  arith,
  encoded_all_longer q ps,
  append-nil (encoded_all (q ∷ ps)),
  param_list_parse-encoded_all (q ∷ ps) (params_so_far s.paramlist) short,
)

-- The begin-request message at the front of a chunk.
abbrev pub begin_body : ℕ → ℕ → Bytes
begin_body role flags = (role / 256 % 256) ∷ (role % 256) ∷ (flags % 256) ∷ replicate 5 0

abbrev pub begin_message : Protocol → ℕ → ℕ → ℕ → Message
begin_message p id role flags =
    record (complete (bytes_of (header_of p begin_request id 8) ++ begin_body role flags) 8 none) {
      bytes_read = 16;
    }

loop_begin :
    (p : Protocol) (fuel n id role flags : ℕ) (s : Session) (rest : Bytes)
    → id < 65536
    → role < 65536
    → parse_loop p
        (suc fuel)
        s
        (bytes_of (header_of p begin_request id 8) ++ (begin_body role flags ++ rest))
        n
      ≡ parse_loop p fuel
          (record (pushed s (begin_message p id role flags)) { request_id = id; role = role })
          rest
          (n + 16)
unfolding settle evaluate_message_done get_type evaluate_type evaluate_begin get_requestid get_role
    storage
loop_begin p fuel n id role flags s rest i r =
    let code = p.message_type-code begin_request in
    loop_message p fuel n 15 s
      (record (pushed s (begin_message p id role flags)) { request_id = id; role = role })
      (begin_message p id role flags) p.version_1 _
      (message_parse-body p begin_request (header_of p begin_request id 8) (begin_body role flags)
        rest code refl refl refl)
      refl (ground (arith, code))

-- The bytes of a request: begin, the pairs, an empty parameter message, an empty input message.
abbrev pub request : Protocol → ℕ → ℕ → ℕ → List Param → Bytes
request p id role flags ps =
    bytes_of (header_of p begin_request id 8)
    ++ (begin_body role flags
        ++ (bytes_of (header_of p params id (length (encoded_all ps)))
            ++ (encoded_all ps
                ++ (bytes_of (header_of p params id 0) ++ bytes_of (header_of p stdin id 0)))))

-- The session behind a request.
abbrev pub answered : Protocol → ℕ → ℕ → ℕ → ℕ → List Param → List Message → Session
answered p keep id role flags ps messages = record {
  state = state_end;
  request_id = id;
  role = role;
  keep_messages = keep;
  messlist = messages;
  paramlist = some ps;
}

abbrev pub messages_of : Protocol → ℕ → ℕ → ℕ → List Param → List Message
messages_of p id role flags ps =
    received (header_of p stdin id 0) []
    ∷ received (header_of p params id 0) []
    ∷ received (header_of p params id (length (encoded_all ps))) (encoded_all ps)
    ∷ begin_message p id role flags
    ∷ []

-- The empty parameter message ends the list of a session that is not yet at its end.
ended :
    (s : Session) (h : Header) (ps : List Param)
    → s.paramlist ≡ some ps
    → is_end s.state ≡ false
    → announced h ≡ 0
    → evaluate_params (pushed s (received h [])) (received h [])
      ≡ ok (record (pushed s (received h [])) { state = state_params_done; paramlist = some ps })
unfolding evaluate_params
ended s h ps e live none_left =
    ground (arith, e, live, none_left, append-nil ps, no_content ps (announced h))

loop_stop :
    (p : Protocol) (f : ℕ) (s : Session) (n : ℕ)
    → parse_loop p f s [] n ≡ ok (record { dataread = n; session = s })
unfolding parse_loop
loop_stop p zero s n = refl
loop_stop p (suc f) s n = refl

loop_request :
    (p : Protocol) (f keep id role flags : ℕ) (ps : List Param)
    → id < 65536
    → role < 65536
    → All IsShort ps
    → length (encoded_all ps) < 65536
    → parse_loop p (suc (suc (suc (suc f)))) (session_new keep) (request p id role flags ps) 0
      ≡ ok (record {
        dataread = 0 + 16 + (8 + length (encoded_all ps)) + (8 + 0) + (8 + 0);
        session = answered p keep id role flags ps (messages_of p id role flags ps);
      })
unfolding session_new storage evaluate_type is_end
loop_request p f keep id role flags ps i r short len =
    let h1 = header_of p params id (length (encoded_all ps)) in
    let h2 = header_of p params id 0 in
    let h3 = header_of p stdin id 0 in
    let s1 = record (pushed (session_new keep) (begin_message p id role flags)) {
      request_id = id;
      role = role;
    } in
    let s2 = record (pushed s1 (received h1 (encoded_all ps))) {
      paramlist = some ps;
      state = if length (encoded_all ps) == 0 then state_params_done else state_init;
    } in
    let s3 = record (pushed s2 (received h2 [])) { state = state_params_done } in
    let s4 = record (pushed s3 (received h3 [])) { state = state_end } in
    let a1 = announced-header_of p params id (length (encoded_all ps)) len in
    loop_begin p (suc (suc (suc f))) 0 id role flags (session_new keep) _ i r
    ∙ loop_content p params (suc (suc f)) 16 s1 s2 h1 (encoded_all ps) _
        (p.message_type-code params) refl (sym a1)
        (evaluate_params-encoded_all (pushed s1 (received h1 (encoded_all ps))) h1 ps short a1)
    ∙ loop_content p params (suc f) _ s2 s3 h2 [] _ (p.message_type-code params) refl refl
        (ended s2 h2 ps refl (ground arith) refl)
    ∙ loop_content p stdin f _ s3 s4 h3 [] [] (p.message_type-code stdin) refl refl refl
    ∙ loop_stop p f s4 _

session_parse-fresh :
    (p : Protocol) (keep b : ℕ) (bs : Bytes) (fuel : ℕ) (q : Progress)
    → fuel ≡ suc (length bs)
    → parse_loop p fuel (session_new keep) (b ∷ bs) 0 ≡ ok q
    → is_init q.session.state ≡ false
    → session_parse p (session_new keep) (b ∷ bs) ≡ ok q
unfolding session_parse resume session_new last_is_done
session_parse-fresh p keep b bs fuel q whole e live = ground (arith, e, live, whole)

-- A request that comes in one chunk is taken as a whole: the session ends in the state end, with the
-- request's number and role, and with the name-value pairs that were sent, in order.
pub session_parse-request :
    (p : Protocol) (keep id role flags : ℕ) (ps : List Param)
    → id < 65536
    → role < 65536
    → All IsShort ps
    → length (encoded_all ps) < 65536
    → session_parse p (session_new keep) (request p id role flags ps)
      ≡ ok (record {
        dataread = length (request p id role flags ps);
        session = answered p keep id role flags ps (messages_of p id role flags ps);
      })
unfolding is_init
session_parse-request p keep id role flags ps i r short len =
    let n = length (encoded_all ps) in
    let tail = bytes_of (header_of p params id 0) ++ bytes_of (header_of p stdin id 0) in
    let body : length (encoded_all ps ++ tail) ≡ n + 16 = length-append (encoded_all ps) tail in
    let all : length (request p id role flags ps) ≡ 0 + 16 + (8 + n) + (8 + 0) + (8 + 0) =
      omega (arith, body) in
    session_parse-fresh p keep _ _ (suc (suc (suc (suc (36 + n))))) _ (omega (arith, body))
      (rw all (loop_request p (36 + n) keep id role flags ps i r short len)) refl
