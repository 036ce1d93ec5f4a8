-- ===== src/Manager/Child.antt =====
-- process_manager.c: the request that fills the cache of a new child process, and what becomes of the
-- child.
use qgis_scheduler.Prelude.{
  ℕ, zero, suc, ◌+◌, ◌-◌, Bool, true, false, not, ◌&&◌, Option, none, some, List, [], ◌∷◌, ◌++◌,
  ltb, if◌then◌else◌, String, Bytes, length, codes, ℤ, pos, negsuc,
}
use qgis_scheduler.Outcome.{Outcome, ok, fault, exit_failure, over_read, ◌>>=◌, ◌>>◌, assert}
use qgis_scheduler.Config.{Dictionary, Pointer, null, invalid_string, text}
use qgis_scheduler.Config.Values.{config_get_init_key, config_get_init_value}
use qgis_scheduler.Database.{Store}
use qgis_scheduler.Database.Processes.{process_set_state_init, process_set_state_idle}
use qgis_scheduler.Fcgi.Protocol.{Protocol}
use qgis_scheduler.Fcgi.Message.{Message}
use qgis_scheduler.Fcgi.Param.{param_list_write}
use qgis_scheduler.Fcgi.Build.{new_begin, new_parameter, new_stdin, message_write}
use qgis_scheduler.Manager.{restart_process, process_died_during_init}
use qgis_scheduler.Shutdown.{Killed, delivered, no_such_process, not_permitted}

-- How the reading of the child's answer ends: at its end, by the timeout, or by an error.
pub data AnswerEnd : Type 0 where
  end_of_answer timed_out read_failed : AnswerEnd

-- What the calls on the child return: getsockname(), socket(), connect(), the write()s in order (the
-- socket blocks, so that a write() takes all or fails), the read()s that bring something and the
-- one that ends them, and kill(pid, 0). `later` is what other threads have made of the tables.
pub record ChildCalls : Type 0 where
  pub has_name : Bool
  pub has_socket : Bool
  pub connects : Bool
  pub writes : ℕ → Bool
  pub chunks : List ℕ
  pub ending : AnswerEnd
  pub alive : Killed
  pub later : Store → Store

-- What was sent to the child, and has_child_crash.
pub record Talk : Type 0 where
  pub sent : Bytes
  pub has_child_crash : Bool

-- A part that is left out after a crash.
unfoldable pub unless_crashed : Talk → Outcome Talk → Outcome Talk
unless_crashed t part = if t.has_child_crash then ok t else part

unfoldable pub write_child : Bool → Bytes → Talk → Talk
write_child succeeds bytes t =
    if succeeds then record t { sent = t.sent ++ bytes } else record t { has_child_crash = true }

abbrev pub max_buffer_len : ℕ
max_buffer_len = 4096

abbrev pub request_id : ℕ
request_id = 1

-- A message is written into the buffer, and from there to the child.
unfoldable pub send_message : Protocol → Bool → Talk → Outcome Message → Outcome Talk
unfolding write_child
send_message p succeeds t message = do
  m ← message
  buffer ← message_write p max_buffer_len m
  ok (write_child succeeds buffer t)

abbrev pub max_init_keys : ℕ
max_init_keys = 128

-- The value of a key that is there; the getters never give INVALID_STRING.
unfoldable pub with_text : Pointer → (String → Outcome (Option Bytes)) → Outcome (Option Bytes)
with_text null use_text = ok (some [])
with_text invalid_string use_text = fault over_read
with_text (text t) use_text = use_text t

-- A pair in the buffer, and what comes behind it.
unfoldable pub behind_pair : ℤ → Bytes → (ℕ → Outcome (Option Bytes)) → Outcome (Option Bytes)
behind_pair (negsuc k) bytes rest = fault exit_failure
behind_pair (pos n) bytes rest = do
  more ← rest n
  ok (elim more [ none ↦ none | some b ↦ some (bytes ++ b) ])

-- The loop over the pairs, with this many rounds left, at pair `i` with `remain_len` bytes left in the
-- buffer: the bytes that it stores, or `none` for too many pairs.
unfoldable pub init_params : (key value : ℕ → Pointer) → ℕ → ℕ → ℕ → Outcome (Option Bytes)
unfolding with_text behind_pair
init_params key value zero i remain_len = ok none
init_params key value (suc left) i remain_len = with_text (key i) λ k. with_text (value i) λ v. do
  w ← param_list_write remain_len (codes k) (codes v)
  behind_pair w.retval w.bytes λ n. init_params key value left (i + 1) (remain_len - n)

-- The parameters in one message; too many pairs count as a crash.
unfoldable pub send_params : Protocol → Bool → Talk → Option Bytes → Outcome Talk
unfolding send_message
send_params p succeeds t none = ok (record t { has_child_crash = true })
send_params p succeeds t (some parambuffer) =
    send_message p succeeds t (new_parameter p request_id parambuffer (length parambuffer))

-- The loop that reads the child's answer into void.
unfoldable pub has_timed_out : List ℕ → AnswerEnd → Bool
has_timed_out (n ∷ chunks) ending = has_timed_out chunks ending
has_timed_out [] timed_out = true
has_timed_out [] _ = false

unfoldable pub read_child : ChildCalls → Talk → Talk
unfolding has_timed_out
read_child calls t = record t { has_child_crash = has_timed_out calls.chunks calls.ending }

-- The steps of the talk, each left out after a crash.
unfoldable pub send_step : Protocol → Bool → Outcome Message → Talk → Outcome Talk
unfolding unless_crashed send_message
send_step p succeeds message t = unless_crashed t (send_message p succeeds t message)

unfoldable pub params_step : Protocol → Bool → (key value : ℕ → Pointer) → Talk → Outcome Talk
unfolding unless_crashed init_params send_params
params_step p succeeds key value t = unless_crashed t (
    init_params key value max_init_keys 0 max_buffer_len >>= λ parambuffer.
    send_params p succeeds t parambuffer)

unfoldable pub read_step : ChildCalls → Talk → Outcome Talk
unfolding unless_crashed read_child
read_step calls t = unless_crashed t (ok (read_child calls t))

-- From the connection to the child up to the end of its answer.
unfoldable pub talk_to_child :
    Protocol → (responder : ℕ) → (key value : ℕ → Pointer) → ChildCalls → Outcome Talk
unfolding send_step params_step read_step
talk_to_child p responder key value calls = do
  let opened : Talk = record {
    sent = [];
    has_child_crash = not (calls.has_name && (calls.has_socket && calls.connects));
  }
  begun ← send_step p (calls.writes 0) (ok (new_begin p request_id responder 0)) opened
  filled ← params_step p (calls.writes 1) key value begun
  closed ← send_step p (calls.writes 2) (new_parameter p request_id [] 0) filled
  first ← send_step p (calls.writes 3) (new_stdin p request_id [] 0) closed
  second ← send_step p (calls.writes 4) (new_stdin p request_id [] 0) first
  read_step calls second

-- What the thread leaves: the tables, the projects of which one process is to be started, and what was
-- sent.
pub record Initialised : Type 0 where
  pub store : Store
  pub starts : List String
  pub talk : Talk

-- The part behind a crash.
unfoldable pub restart_child : Bool → Bool → Store → ℕ → String → Talk → Outcome Initialised
restart_child down thread s pid projname t = do
  r ← restart_process down thread s pid
  ok (record {
    store = process_died_during_init down r.store projname;
    starts = r.starts;
    talk = t;
  })

unfoldable pub check_child : Bool → Store → ℕ → String → Killed → Talk → Outcome Initialised
check_child down s pid projname delivered t =
    ok (record { store = process_set_state_idle s pid; starts = []; talk = t })
check_child down s pid projname no_such_process t =
    ok (record { store = process_died_during_init down s projname; starts = []; talk = t })
check_child down s pid projname not_permitted t = fault exit_failure

unfoldable pub settle_child : Bool → Bool → Store → ℕ → String → Killed → Talk → Outcome Initialised
unfolding restart_child check_child
settle_child down thread s pid projname alive t =
    if t.has_child_crash
    then restart_child down thread s pid projname t
    else check_child down s pid projname alive t

-- process_manager_thread_function_init_new_child()
unfoldable pub init_new_child :
    (decimal : ℕ → String)
    → Protocol
    → (responder : ℕ) → Dictionary
    → (down thread : Bool) → Store
    → (pid thread_id : ℕ) → String
    → ChildCalls
    → Outcome Initialised
unfolding talk_to_child settle_child
init_new_child decimal p responder d down thread s pid thread_id projname calls = do
  assert (ltb 0 pid)
  let begun = process_set_state_init s pid thread_id
  t ←
      talk_to_child p responder (config_get_init_key decimal d (some projname))
        (config_get_init_value decimal d (some projname)) calls
  settle_child down thread (calls.later begun) pid projname calls.alive t
