-- ===== src/Connection.antt =====
-- connection_manager.c: the first part of thread_handle_connection(), which reads from the web server
-- until it knows the project of the request; and fcgi_data.c: the list that keeps what was read.
pub mod Selects
pub mod Relay
pub mod InOrder
pub mod Attempt
pub mod OneAbort
pub mod Retries
pub mod Returns
pub mod Runs
pub mod KeepConn
use qgis_scheduler.Prelude.{
  ℕ, Bool, true, false, Option, none, some, List, [], ◌∷◌, ◌++◌, ◌==◌, if◌then◌else◌, String, Bytes,
  codes,
}
use qgis_scheduler.Outcome.{Outcome, ok, fault, exit_failure, ◌>>=◌}
use qgis_scheduler.Config.{Dictionary, Pointer, text}
use qgis_scheduler.Config.Values.{config_get_scan_parameter_key, config_get_scan_parameter_regex}
use qgis_scheduler.Fcgi.Protocol.{Protocol}
use qgis_scheduler.Fcgi.Session.{
  SessionState, state_params_done, state_end, Session, session_new, session_parse,
  session_get_param, session_get_requestid, session_get_role,
}

-- fcgi_data.c: blocks of bytes in the order of their arrival. An iterator is the list from its entry on.
abbrev pub DataList : Type 0
DataList = List Bytes

pub fcgi_data_list_new : DataList
fcgi_data_list_new = []

unfoldable pub fcgi_data_add_data : DataList → Bytes → DataList
fcgi_data_add_data datalist bytes = datalist ++ (bytes ∷ [])

unfoldable pub fcgi_data_get_iterator : DataList → DataList
fcgi_data_get_iterator list = list

-- The block at the iterator, and the iterator behind it.
pub record Next : Type 0 where
  pub block : Option Bytes
  pub iterator : DataList

unfoldable pub fcgi_data_get_next_data : DataList → Next
fcgi_data_get_next_data [] = record { block = none; iterator = [] }
fcgi_data_get_next_data (block ∷ rest) = record { block = some block; iterator = rest }

unfoldable pub fcgi_data_iterator_has_data : DataList → Bool
fcgi_data_iterator_has_data [] = false
fcgi_data_iterator_has_data (block ∷ rest) = true

-- How a read() of the network socket returns: the first byte and the others, or none.
pub data Read : Type 0 where
  read_failed : Read
  end_of_file : Read
  received : ℕ → Bytes → Read

-- The regular expressions of the C library: regcomp() and regexec().
pub data Matched : Type 0 where
  matches no_match match_failed : Matched

pub record Regex : Type 0 where
  pub compiles : String → Bool
  pub executes : String → Bytes → Matched

-- The part for a key and a regular expression that are given.
unfoldable pub try_regex : Regex → Session → String → String → Outcome Bool
try_regex regex session key scanregex =
    if regex.compiles scanregex
    then elim (session_get_param session (codes key)) [
      | none ↦ ok false
      | some param ↦ elim (regex.executes scanregex param) [
        | matches ↦ ok true
        | no_match ↦ ok false
        | match_failed ↦ fault exit_failure
      ]
    ]
    else fault exit_failure

-- One round of the loop over the projects. The default of both values is NULL, so they are a text or NULL.
unfoldable pub try_project : Regex → Dictionary → Session → String → Outcome Bool
unfolding try_regex
try_project regex d session proj_name = elim (config_get_scan_parameter_key d (some proj_name)) [
  | text key ↦ elim (config_get_scan_parameter_regex d (some proj_name)) [
    | text scanregex ↦ try_regex regex session key scanregex
    | _ ↦ ok false
  ]
  | _ ↦ ok false
]

unfoldable pub select_project : Regex → Dictionary → Session → List String → Outcome (Option String)
unfolding try_project
select_project regex d session [] = ok none
select_project regex d session (proj_name ∷ rest) = do
  found ← try_project regex d session proj_name
  if found then ok (some proj_name) else select_project regex d session rest

-- The states in which the parameters of the request are complete.
abbrev pub is_complete : SessionState → Bool
is_complete state_params_done = true
is_complete state_end = true
is_complete _ = false

-- What the loop has gathered.
pub record Gathered : Type 0 where
  pub datalist : DataList
  pub session : Session
  pub request_project_name : Option String

-- The loop over the reads; `none` where it still waits for data.
unfoldable pub request_loop :
    Protocol → Regex → Dictionary → List Read → Gathered → Outcome (Option Gathered)
unfolding select_project fcgi_data_add_data
request_loop p regex d [] g = ok none
request_loop p regex d (read_failed ∷ reads) g = ok (some g)
request_loop p regex d (end_of_file ∷ reads) g = ok (some g)
request_loop p regex d (received b bs ∷ reads) g = do
  parsed ← session_parse p g.session (b ∷ bs)
  let g1 : Gathered = record {
    datalist = fcgi_data_add_data g.datalist (b ∷ bs);
    session = parsed.session;
    request_project_name = none;
  }
  if is_complete parsed.session.state
      then (do
        project ← select_project regex d parsed.session d.secnames
        ok (some (record g1 { request_project_name = project })))
      else request_loop p regex d reads g1

-- What the first part knows of the request.
pub record Request : Type 0 where
  pub datalist : DataList
  pub request_project_name : Option String
  pub request_id : ℕ
  pub role : ℕ

-- The part behind the loop; `responder` is FCGI_RESPONDER.
unfoldable pub identify : (responder : ℕ) → Gathered → Outcome Request
identify responder g = elim g.request_project_name [
  | none ↦
      ok (record { datalist = g.datalist; request_project_name = none; request_id = 0; role = 0 })
  | some project ↦ do
    id ← session_get_requestid g.session
    role ← session_get_role g.session
    ok (record {
      datalist = g.datalist;
      request_project_name = if role == responder then some project else none;
      request_id = id;
      role = role;
    })
]

unfoldable pub identify_if : (responder : ℕ) → Option Gathered → Outcome (Option Request)
unfolding identify
identify_if responder none = ok none
identify_if responder (some g) = do request ← identify responder g; ok (some request)

unfoldable pub read_request :
    Protocol → (responder : ℕ) → Regex → Dictionary → List Read → Outcome (Option Request)
unfolding request_loop identify_if
read_request p responder regex d reads = do
  gathered ← request_loop p regex d reads (record {
    datalist = fcgi_data_list_new;
    session = session_new 1;
    request_project_name = none;
  })
  identify_if responder gathered
