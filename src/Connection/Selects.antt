-- ===== src/Connection/Selects.antt =====
-- connection_manager.c: which project a request is for.
use Prim.Native.String.{◌++◌ as join}
use qgis_scheduler.Prelude.{
  codes, ℕ, ◌<◌, ◌≡◌, refl, ap, Bool, Bool-cases, inl, inr, true, false, Option, Option-cases, none,
  some, List, [], ◌∷◌, ◌==◌, if◌then◌else◌, String, Bytes, All, arith, length,
}
use qgis_scheduler.Outcome.{ok, fault, exit_failure, ◌>>=◌}
use qgis_scheduler.Config.{Dictionary, null, text, project_only_config_string, getstring}
use qgis_scheduler.Config.Values.{config_get_scan_parameter_key, config_get_scan_parameter_regex}
use qgis_scheduler.Fcgi.Param.{Param, param_list_find}
use qgis_scheduler.Fcgi.Param.RoundTrip.{IsShort, encoded_all}
use qgis_scheduler.Fcgi.Protocol.{Protocol}
use qgis_scheduler.Fcgi.Session.{
  Session, session_new, session_parse, session_get_param, session_get_requestid, session_get_role,
}
use qgis_scheduler.Fcgi.Session.Request.{request, answered, messages_of, session_parse-request}
use qgis_scheduler.Connection.{
  DataList, Gathered, Read, received, Matched, matches, no_match, match_failed, Regex, try_regex,
  try_project, select_project, Request, identify, identify_if, request_loop, read_request,
  fcgi_data_add_data, fcgi_data_list_new,
}

abbrev is_failure : Matched → Bool
is_failure match_failed = true
is_failure _ = false

-- The expressions that the sections with these names have compile, and their execution does not fail.
pub record Regular (regex : Regex) (d : Dictionary) (names : List String) : Type 0 where
  pub compiled :
      All
        (λ name.
          (r : String) → d.value (join name ":scan_regex") ≡ some r → regex.compiles r ≡ true)
        names
  pub executed :
      All
        (λ name.
          (r : String)
          → d.value (join name ":scan_regex") ≡ some r
          → (param : Bytes) → is_failure (regex.executes r param) ≡ false)
        names

abbrev is_match : Matched → Bool
is_match matches = true
is_match _ = false

-- The project's section names a parameter and an expression, and the request's parameter matches it.
abbrev pub asks : Regex → Dictionary → List Param → String → Bool
asks regex d ps name = elim (d.value (join name ":scan_param")) [
  | none ↦ false
  | some key ↦ elim (d.value (join name ":scan_regex")) [
    | none ↦ false
    | some r ↦ elim (param_list_find ps (codes key)) [
      | none ↦ false
      | some param ↦ is_match (regex.executes r param)
    ]
  ]
]

abbrev pub first_that : (String → Bool) → List String → Option String
first_that p [] = none
first_that p (name ∷ names) = if p name then some name else first_that p names

try_regex-match :
    (regex : Regex) (session : Session) (ps : List Param) (key r : String)
    → regex.compiles r ≡ true
    → ((param : Bytes) → is_failure (regex.executes r param) ≡ false)
    → session.paramlist ≡ some ps
    → try_regex regex session key r
      ≡ ok (elim (param_list_find ps (codes key)) [
        | none ↦ false
        | some param ↦ is_match (regex.executes r param)
      ])
unfolding try_regex session_get_param
try_regex-match regex session ps key r compiled executed has =
    elim (Option-cases (param_list_find ps (codes key))) [
      | inl e ↦ rw (compiled, has, e) refl
      | inr (param, e) ↦
          rw (compiled, has, e) (by_result param (regex.executes r param) (executed param))
    ]
  where
    by_result :
        (param : Bytes) (m : Matched)
        → is_failure m ≡ false
        → (elim m [ matches ↦ ok true | no_match ↦ ok false | match_failed ↦ fault exit_failure ])
          ≡ ok (is_match m)
    by_result param matches e = refl
    by_result param no_match e = refl
    by_result param match_failed e = absurd (ground arith)

key_value :
    (d : Dictionary) (name : String)
    → config_get_scan_parameter_key d (some name)
      ≡ (elim (d.value (join name ":scan_param")) [ none ↦ null | some v ↦ text v ])
unfolding config_get_scan_parameter_key project_only_config_string getstring
key_value d name = refl

regex_value :
    (d : Dictionary) (name : String)
    → config_get_scan_parameter_regex d (some name)
      ≡ (elim (d.value (join name ":scan_regex")) [ none ↦ null | some v ↦ text v ])
unfolding config_get_scan_parameter_regex project_only_config_string getstring
regex_value d name = refl

try_project-asks :
    (regex : Regex) (d : Dictionary) (session : Session) (ps : List Param) (name : String)
    (names : List String)
    → Regular regex d (name ∷ names)
    → session.paramlist ≡ some ps
    → try_project regex d session name ≡ ok (asks regex d ps name)
unfolding try_project
try_project-asks regex d session ps name names regular has =
    elim (Option-cases (d.value (join name ":scan_param"))) [
      | inl e ↦ rw (try_project, asks, key_value d name, e) refl
      | inr (key, e) ↦ elim (Option-cases (d.value (join name ":scan_regex"))) [
        | inl f ↦ rw (try_project, asks, key_value d name, e, regex_value d name, f) refl
        | inr (r, f) ↦
            rw (try_project, asks, key_value d name, e, regex_value d name, f)
              (try_regex-match regex session ps key r (regular.compiled.0 r f)
                (regular.executed.0 r f) has)
      ]
    ]

select_project-first_that :
    (regex : Regex) (d : Dictionary) (session : Session) (ps : List Param) (names : List String)
    → Regular regex d names
    → session.paramlist ≡ some ps
    → select_project regex d session names ≡ ok (first_that (asks regex d ps) names)
unfolding select_project
select_project-first_that regex d session ps [] regular has = refl
select_project-first_that regex d session ps (name ∷ names) regular has =
    let others : Regular regex d names = record {
      compiled = regular.compiled.1;
      executed = regular.executed.1;
    } in
    let rest = select_project-first_that regex d session ps names others has in
    elim (Bool-cases (asks regex d ps name)) [
      | inl e ↦
          rw (select_project, try_project-asks regex d session ps name names regular has, e) refl
      | inr e ↦
          rw (select_project, try_project-asks regex d session ps name names regular has, e, rest)
            refl
    ]

-- What the scheduler knows of a request for this project, or for none.
abbrev pub request_for : DataList → (responder id role : ℕ) → Option String → Request
request_for datalist responder id role none = record {
  datalist = datalist;
  request_project_name = none;
  request_id = 0;
  role = 0;
}
request_for datalist responder id role (some project) = record {
  datalist = datalist;
  request_project_name = if role == responder then some project else none;
  request_id = id;
  role = role;
}

identify_lem :
    (responder id role : ℕ) (g : Gathered)
    → (g.session.request_id ≡ id)
    → g.session.role ≡ role
    → 0 < id
    → 0 < role
    → identify responder g ≡ ok (request_for g.datalist responder id role g.request_project_name)
unfolding identify session_get_requestid session_get_role
identify_lem responder id role g e f h k = elim (Option-cases g.request_project_name) [
  | inl none_found ↦ rw none_found refl
  | inr (project, found) ↦
      let id_set : (id == 0) ≡ false = ground arith in
      let role_set : (role == 0) ≡ false = ground arith in rw (found, e, f, id_set, role_set) refl
]

-- A request that comes in one read() (begin, written pairs with short names and values, the two empty
-- messages, a number and a role between 1 and 65535) is read to its end: the request has its bytes,
-- number and role, and the first project whose section names a parameter and an
-- expression that the request's value of that parameter matches, if the role is that of a responder. Without a selected project the request has number and role 0. Only a project's own
-- section is asked for the parameter and the expression. The expressions of these sections compile, and
-- their execution does not fail.
pub read_request-request_for :
    (p : Protocol) (responder : ℕ) (regex : Regex) (d : Dictionary) (id role flags b : ℕ)
    (ps : List Param) (bs : Bytes) (reads : List Read)
    → Regular regex d d.secnames
    → (b ∷ bs) ≡ request p id role flags ps
    → 0 < id
    → id < 65536
    → 0 < role
    → role < 65536
    → All IsShort ps
    → length (encoded_all ps) < 65536
    → read_request p responder regex d (received b bs ∷ reads)
      ≡ ok (
          some (
            request_for
              ((b ∷ bs) ∷ [])
              responder
              id
              role
              (first_that (asks regex d ps) d.secnames)))
unfolding read_request request_loop identify_if fcgi_data_add_data fcgi_data_list_new
read_request-request_for p responder regex d id role flags b ps bs reads regular whole i i' r r'
      short len =
    let session = answered p 1 id role flags ps (messages_of p id role flags ps) in
    let parsed = session_parse-request p 1 id role flags ps i' r' short len in
    let parsed' : session_parse p (session_new 1) (b ∷ bs)
        ≡ ok (record { dataread = length (request p id role flags ps); session = session }) =
      rw whole parsed in
    let chosen = select_project-first_that regex d session ps d.secnames regular refl in
    rw (request_loop, parsed', chosen)
      (ap (λ m. m >>= λ request. ok (some request))
        (identify_lem responder id role _ refl refl i r))
