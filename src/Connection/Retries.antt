-- ===== src/Connection/Retries.antt =====
-- connection_manager.c: how often the web server is answered with an abort.
use qgis_scheduler.Prelude.{
  ℕ, zero, suc, ◌+◌, ◌≤◌, ◌≡◌, refl, sym, subst, Bool, true, false, inl, inr, Bool-cases,
  Option-cases, List, ◌++◌, arith, ◌==◌, if◌then◌else◌, String,
}
use qgis_scheduler.Outcome.{Outcome, ok, fault, Outcome-cases}
use qgis_scheduler.Database.{Store}
use qgis_scheduler.Database.Invariant.{WellFormed}
use qgis_scheduler.Database.Processes.{
  Wake, get_process_socket, get_next_idle_process_for_busy_work,
}
use qgis_scheduler.Manager.{restart_process}
use qgis_scheduler.Connection.{DataList, Request, fcgi_data_get_iterator}
use qgis_scheduler.Connection.Relay.{Poll, Round, relay_start, relay_loop}
use qgis_scheduler.Connection.Attempt.{
  Contact, Ending, faulty_child, faulty_net_client, finished, still_relaying, behind_relay,
  Attempted, Setting, give_up_child, end_session, talk, contact_child, overload, serve, attempt,
  Surroundings, retry_loop, max_child_socket_connection_retry, connect_loop, clear_first,
}
use qgis_scheduler.Connection.OneAbort.{OneAbort, relay_loop-OneAbort}

-- The loop between the sockets goes on behind these returns of poll(), for some stored blocks.
abbrev pub StillWaits : List Poll → Type 0
StillWaits polls =
    (datalist : DataList) × (round : Round) × (relay_loop
        (relay_start (fcgi_data_get_iterator datalist)) polls
      ≡ ok round)
    × (round.ends ≡ false)

-- An attempt that ends the connection has sent an abort at most once, the answer of an overload is one
-- abort, and a faulty child and a loop that still waits have not sent any yet.
abbrev AnswersSoFar : List Poll → ℕ → Ending → Type 0
AnswersSoFar polls aborts finished = aborts ≤ 1
AnswersSoFar polls aborts faulty_net_client = aborts ≡ 1
AnswersSoFar polls aborts faulty_child = aborts ≡ 0
AnswersSoFar polls aborts still_relaying = (aborts ≡ 0) × StillWaits polls

abbrev Answers : List Poll → Attempted → Type 0
Answers polls a = AnswersSoFar polls a.aborts a.ending

AnswersIf : List Poll → Outcome Attempted → Type 0
AnswersIf polls (ok a) = Answers polls a
AnswersIf polls (fault why) = Unit

give_up_child-Answers :
    (polls : List Poll) (c : Setting) (s : Store) (mypid : ℕ)
    → AnswersIf polls (give_up_child c s mypid)
unfolding AnswersIf give_up_child
give_up_child-Answers polls c s mypid =
    elim (Outcome-cases (restart_process c.program_shutdown c.do_shutdown_thread s mypid)) [
      | inl (r, e) ↦ rw (give_up_child, e) refl
      | inr (why, e) ↦ rw (give_up_child, e) tt
    ]

behind_relay-Answers :
    (s : Store) (datalist : DataList) (mypid : ℕ) (polls : List Poll) (round : Round)
    → relay_loop (relay_start (fcgi_data_get_iterator datalist)) polls ≡ ok round
    → OneAbort round
    → Answers polls (behind_relay s mypid round)
unfolding behind_relay end_session
behind_relay-Answers s datalist mypid polls round ran (few, goes) = elim (Bool-cases round.ends) [
  | inl e ↦ rw (behind_relay, e) few
  | inr e ↦ rw (behind_relay, e) (goes e, (datalist, round, ran, e))
]

talk-Answers :
    (s : Store) (datalist : DataList) (mypid : ℕ) (polls : List Poll)
    → AnswersIf polls (talk s datalist mypid polls)
unfolding AnswersIf talk end_session relay_start
talk-Answers s datalist mypid polls =
    let start = relay_start (fcgi_data_get_iterator datalist) in
    elim (Outcome-cases (relay_loop start polls)) [
      | inl (round, e) ↦
          rw (talk, e)
            (behind_relay-Answers s datalist mypid polls round e
              (relay_loop-OneAbort start polls refl round e))
      | inr (why, e) ↦ rw (talk, e) tt
    ]

choose :
    (polls : List Poll) (t : Bool) (a b : Outcome Attempted)
    → AnswersIf polls a
    → AnswersIf polls b
    → AnswersIf polls (if t then a else b)
choose polls true a b h k = h
choose polls false a b h k = k

contact_child-Answers :
    (c : Setting) (s : Store) (datalist : DataList) (mypid : ℕ) (contact : Contact)
    → AnswersIf contact.polls (contact_child c s datalist mypid contact)
unfolding AnswersIf contact_child end_session
contact_child-Answers c s datalist mypid contact =
    elim (Option-cases (get_process_socket s mypid)) [
      | inl e ↦ rw (contact_child, e) given_up
      | inr (fd, e) ↦
          rw (contact_child, e)
            (choose contact.polls contact.has_name _ _
              (choose contact.polls contact.has_socket _ _
                (choose contact.polls
                  (connect_loop max_child_socket_connection_retry contact.connect) _ _
                  (choose contact.polls contact.child_options _ _
                    (choose contact.polls contact.net_options _ _
                      (talk-Answers s datalist mypid contact.polls) (omega arith))
                    given_up)
                  given_up)
                refl)
              given_up)
    ]
  where
    given_up : AnswersIf contact.polls (give_up_child c s mypid)
    given_up = give_up_child-Answers contact.polls c s mypid

serve-Answers :
    (c : Setting) (s : Store) (datalist : DataList) (projname : String) (wake : Wake)
    (contact : Contact)
    → AnswersIf contact.polls (serve c s datalist projname wake contact)
unfolding AnswersIf serve overload
serve-Answers c s datalist projname wake contact =
    let claim = get_next_idle_process_for_busy_work c.limit s projname wake in
    elim (Option-cases claim.found) [
      | inl e ↦ rw (serve, e) refl
      | inr (mypid, e) ↦ elim (Outcome-cases (clear_first c.protocol c.keep_conn datalist)) [
        | inr (why, f) ↦ rw (serve, e, f) tt
        | inl (sent, f) ↦
            let answered = contact_child-Answers c claim.store sent mypid contact in
            elim (Outcome-cases (contact_child c claim.store sent mypid contact)) [
              | inr (why, g) ↦ rw (serve, e, f, g) tt
              | inl (a, g) ↦ rw (serve, e, f, g) (rw g at answered)
            ]
      ]
    ]

attempt-Answers :
    (c : Setting) (s : Store) (request : Request) (wake : Wake) (contact : Contact)
    → AnswersIf contact.polls (attempt c s request wake contact)
unfolding AnswersIf attempt overload
attempt-Answers c s request wake contact = elim (Option-cases request.request_project_name) [
  | inl e ↦ rw (attempt, e) refl
  | inr (projname, e) ↦ rw (attempt, e) (serve-Answers c s request.datalist projname wake contact)
]

-- A request is answered with one abort exactly, unless a process has been reached: then with one at most
-- at its end, and with none while the loop between the sockets of an attempt still waits.
abbrev pub IsAnswered : (ℕ → Surroundings) → ℕ → Ending → Type 0
IsAnswered around aborts finished = aborts ≤ 1
IsAnswered around aborts faulty_net_client = aborts ≡ 1
IsAnswered around aborts faulty_child = aborts ≡ 1
IsAnswered around aborts still_relaying =
    (aborts ≡ 0) × ((left : ℕ) × StillWaits (around left).contact.polls)

abbrev pub AnswersOnce : (ℕ → Surroundings) → Attempted → Type 0
AnswersOnce around a = IsAnswered around a.aborts a.ending

-- Every attempt on well-formed tables runs to its end, and leaves them well-formed.
abbrev pub Runs : Setting → Request → (ℕ → Surroundings) → Type 0
Runs c request around =
    (left : ℕ) (s : Store)
    → WellFormed s
    → (a : Attempted) × (attempt c ((around left).meanwhile s) request (around left).wake
          (around left).contact
        ≡ ok a)
      × WellFormed a.store

Answers-of :
    (c : Setting) (s : Store) (request : Request) (wake : Wake) (contact : Contact) (a : Attempted)
    → attempt c s request wake contact ≡ ok a
    → Answers contact.polls a
unfolding AnswersIf
Answers-of c s request wake contact a ran =
    subst (AnswersIf contact.polls) ran (attempt-Answers c s request wake contact)

-- What is still to come behind a faulty child, with the abort for the last one.
abbrev After : (ℕ → Surroundings) → ℕ → Attempted → Type 0
After around left r =
    AnswersOnce around (record r { aborts = (if left == 0 then 1 else 0) + r.aborts })

same_aborts :
    (around : ℕ → Surroundings) (r : Attempted) (starts : List String) (n : ℕ)
    → n ≡ r.aborts
    → AnswersOnce around r
    → AnswersOnce around (record r { starts = starts; aborts = n })
same_aborts around r starts n e h = subst (λ k. IsAnswered around k r.ending) (sym e) h

attempt_then :
    (c : Setting) (left : ℕ) (s : Store) (request : Request) (around : ℕ → Surroundings)
    (a r : Attempted) (ending : Ending)
    → attempt c ((around left).meanwhile s) request (around left).wake (around left).contact ≡ ok a
    → a.ending ≡ ending
    → retry_loop c left a.store request around ≡ ok r
    → After around left r
    → WellFormed a.store
    → WellFormed r.store
    → (b : Attempted) × (retry_loop c (suc left) s request around ≡ ok b)
      × AnswersOnce around b
      × WellFormed b.store
unfolding retry_loop
attempt_then c left s request around a r finished ran e later after w v =
    let answered =
      Answers-of c ((around left).meanwhile s) request (around left).wake (around left).contact a
        ran in
    (
      a,
      simp (retry_loop, ran, e),
      subst (IsAnswered around a.aborts) (sym e)
          (subst (AnswersSoFar (around left).contact.polls a.aborts) e answered),
      w,
    )
attempt_then c left s request around a r faulty_net_client ran e later after w v =
    let answered =
      Answers-of c ((around left).meanwhile s) request (around left).wake (around left).contact a
        ran in
    (
      a,
      simp (retry_loop, ran, e),
      subst (IsAnswered around a.aborts) (sym e)
          (subst (AnswersSoFar (around left).contact.polls a.aborts) e answered),
      w,
    )
attempt_then c left s request around a r still_relaying ran e later after w v =
    let answered =
      Answers-of c ((around left).meanwhile s) request (around left).wake (around left).contact a
        ran in
    let waits = subst (AnswersSoFar (around left).contact.polls a.aborts) e answered in
    (
      a,
      simp (retry_loop, ran, e),
      subst (IsAnswered around a.aborts) (sym e) (waits.0, (left, waits.1)),
      w,
    )
attempt_then c left s request around a r faulty_child ran e later after w v =
    let answered =
      Answers-of c ((around left).meanwhile s) request (around left).wake (around left).contact a
        ran in
    let none_yet : a.aborts ≡ 0 =
      subst (AnswersSoFar (around left).contact.polls a.aborts) e answered in
    let total = a.aborts + ((if left == 0 then 1 else 0) + r.aborts) in
    (
      record r { starts = a.starts ++ r.starts; aborts = total },
      simp (retry_loop, ran, e, later),
      same_aborts around (record r { aborts = (if left == 0 then 1 else 0) + r.aborts })
          (a.starts ++ r.starts) total (omega (arith, none_yet)) after,
      v,
    )

-- If each attempt runs to its end, so does the loop with at least one attempt, and the request is
-- answered as its ending says.
pub retry_loop-AnswersOnce :
    (c : Setting) (left : ℕ) (s : Store) (request : Request) (around : ℕ → Surroundings)
    → Runs c request around
    → WellFormed s
    → (a : Attempted) × (retry_loop c (suc left) s request around ≡ ok a)
      × AnswersOnce around a
      × WellFormed a.store
unfolding retry_loop
retry_loop-AnswersOnce c zero s request around runs w =
    let (a, ran, v) = runs 0 s w in
    attempt_then c 0 s request around a _ a.ending ran refl refl refl v v
retry_loop-AnswersOnce c (suc left) s request around runs w =
    let (a, ran, v) = runs (suc left) s w in
    let (r, later, answered, kept) = retry_loop-AnswersOnce c left a.store request around runs v in
    let more : (suc left == 0) ≡ false = ground arith in
    attempt_then c (suc left) s request around a r a.ending ran refl later
      (same_aborts around r r.starts _ (ground (arith, more)) answered) v kept
