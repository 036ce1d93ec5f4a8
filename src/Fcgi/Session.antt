-- ===== src/Fcgi/Session.antt =====
-- fcgi_state.c: a session puts the messages of a request together and follows the request's state.
pub mod States
pub mod Request
use qgis_scheduler.Prelude.{
  ℕ, zero, suc, ◌+◌, ◌-◌, Bool, true, false, not, ◌&&◌, ◌||◌, Option, none, some, List, [], ◌∷◌,
  ltb, ◌==◌, if◌then◌else◌, Bytes, length, drop,
}
use qgis_scheduler.Outcome.{Outcome, ok, fault, out_of_fuel, ◌>>=◌, ◌>>◌, assert}
use qgis_scheduler.Fcgi.Param.{Param, param_list_parse, param_list_find}
use qgis_scheduler.Fcgi.Protocol.{MessageType, begin_request, params, stdin, Protocol}
use qgis_scheduler.Fcgi.Message.{Message, Step, message_new, message_parse}
use qgis_scheduler.Fcgi.Build.{get_type, get_requestid, get_role}

-- enum fcgi_session_state_e
pub data SessionState : Type 0 where
  state_init state_running state_params_done state_end state_error : SessionState

-- struct fcgi_session_s. The head of `messlist` is the last message of the queue.
pub record Session : Type 0 where
  pub state : SessionState
  pub request_id : ℕ
  pub role : ℕ
  pub keep_messages : ℕ
  pub messlist : List Message
  pub paramlist : Option (List Param)

pub session_new : ℕ → Session
session_new keep_messages = record {
  state = state_init;
  request_id = 0;
  role = 0;
  keep_messages = keep_messages;
  messlist = [];
  paramlist = none;
}

unfoldable pub is_end : SessionState → Bool
is_end state_end = true
is_end _ = false

unfoldable pub is_init : SessionState → Bool
is_init state_init = true
is_init _ = false

-- fcgi_param_list_new() for a session without a list.
abbrev pub params_so_far : Option (List Param) → List Param
params_so_far none = []
params_so_far (some ps) = ps

-- The case FCGI_PARAMS of fcgi_session_evaluate_message_done().
unfoldable pub evaluate_params : Session → Message → Outcome Session
evaluate_params s m = do
  ps ← param_list_parse (params_so_far s.paramlist) m.content m.content_length
  ok (record s {
    paramlist = some ps;
    state = if not (is_end s.state) && m.content_length == 0 then state_params_done else s.state;
  })

unfoldable pub evaluate_begin : Protocol → Session → Message → Outcome Session
evaluate_begin p s m = do
  id ← get_requestid m
  role ← get_role p m
  ok (record s { request_id = id; role = role })

unfoldable pub evaluate_type : Protocol → Option MessageType → Session → Message → Outcome Session
evaluate_type p (some params) s m = evaluate_params s m
evaluate_type p (some stdin) s m =
    ok (if m.content_length == 0 then record s { state = state_end } else s)
evaluate_type p (some begin_request) s m = evaluate_begin p s m
evaluate_type p _ s m = ok s

-- fcgi_session_evaluate_message_done()
unfoldable pub evaluate_message_done : Protocol → Session → Message → Outcome Session
evaluate_message_done p s m = do type ← get_type m; evaluate_type p (p.message_type type) s m

-- A session with the bytes that a call has consumed.
pub record Progress : Type 0 where
  pub dataread : ℕ
  pub session : Session

-- A parsed message at the end of the list: the session evaluates it once it is done.
unfoldable pub settle : Protocol → Session → Message → Outcome Session
settle p s m = if m.parse_done then evaluate_message_done p s m else ok s

-- A message parsed, and the session with it.
pub record Taken : Type 0 where
  pub step : Step
  pub session : Session

-- A new message at the end of the list.
unfoldable pub take_message : Protocol → Session → Bytes → Outcome Taken
take_message p s bytes = do
  r ← message_parse p message_new bytes
  assert (not (r.dataread == 0))
  s' ← settle p (record s { messlist = r.message ∷ s.messlist }) r.message
  ok (record { step = r; session = s' })

-- The last message goes on, in the place of `m`.
unfoldable pub continue_message :
    Protocol → Session → Message → List Message → Bytes → Outcome Taken
continue_message p s m before bytes = do
  r ← message_parse p m bytes
  assert (not (r.dataread == 0))
  s' ← settle p (record s { messlist = r.message ∷ before }) r.message
  ok (record { step = r; session = s' })

-- `while ( len > 0 )`: each round reads a byte at least, so `length bytes` rounds are enough.
-- The assertion behind the loop is made where the loop is left.
unfoldable pub parse_loop : Protocol → ℕ → Session → Bytes → ℕ → Outcome Progress
parse_loop p fuel s [] dataread = ok (record { dataread = dataread; session = s })
parse_loop p zero s (b ∷ bs) dataread = fault out_of_fuel
parse_loop p (suc fuel) s (b ∷ bs) dataread = do
  t ← take_message p s (b ∷ bs)
  elim t.step.message.parse_done [
    | true ↦
        parse_loop p fuel t.session (drop t.step.dataread (b ∷ bs)) (dataread + t.step.dataread)
    | false ↦ do
      assert (length (b ∷ bs) - t.step.dataread == 0)
      ok (record { dataread = dataread + t.step.dataread; session = t.session })
  ]

-- The first part of fcgi_session_parse(): a last message that is not done goes on.
unfoldable pub resume : Protocol → Session → List Message → Bytes → Outcome Progress
resume p s [] bytes = ok (record { dataread = 0; session = s })
resume p s (m ∷ before) bytes =
    if m.parse_done then ok (record { dataread = 0; session = s }) else do
      t ← continue_message p s m before bytes
      ok (record { dataread = t.step.dataread; session = t.session })

-- `if (message) assert(fcgi_message_get_parse_done(message))`, when bytes are left.
unfoldable pub last_is_done : List Message → Bool
last_is_done [] = true
last_is_done (m ∷ ms) = m.parse_done

unfoldable pub session_parse : Protocol → Session → Bytes → Outcome Progress
session_parse p s bytes = do
  r ← resume p s s.messlist bytes
  let rest = drop r.dataread bytes
  assert (length rest == 0 || last_is_done r.session.messlist)
  q ← parse_loop p (length rest) r.session rest r.dataread
  ok (record q {
    session =
        if is_init q.session.state && ltb 0 q.dataread
        then record (q.session) { state = state_running }
        else q.session;
  })

-- fcgi_session_need_more_data(): 1 if the last message is not done.
unfoldable pub need_more_data : Session → ℕ
need_more_data s = if last_is_done s.messlist then 0 else 1

unfoldable pub session_get_param : Session → Bytes → Option Bytes
session_get_param s name = elim s.paramlist [ none ↦ none | some ps ↦ param_list_find ps name ]

unfoldable pub session_get_requestid : Session → Outcome ℕ
session_get_requestid s = do assert (not (s.request_id == 0)); ok s.request_id

unfoldable pub session_get_role : Session → Outcome ℕ
session_get_role s = do assert (not (s.role == 0)); ok s.role
