-- ===== src/Database/Claim.antt =====
-- db_get_next_idle_process_for_busy_work(): how a connection gets a process of its own.
use qgis_scheduler.Prelude.{
  ℕ, ◌≡◌, ◌≢◌, refl, sym, ap, ◌∙◌, subst, Bool, Bool-cases, true, false, ◌⊎◌, inl, inr,
  Option-cases, none, some, List, [], ◌∷◌, ◌++◌, map, arith, ◌==◌, String, select,
}
use qgis_scheduler.Database.{Process, Store, any, update, last_of, Limit, proc_busy, ProcessState}
use qgis_scheduler.Database.Processes.{
  has_pid, is_ready, with_state, process_set_state, get_process, Claimed, claim_idle, Wake,
  signalled, timed_out, get_next_idle_process_for_busy_work,
}
use qgis_scheduler.Database.Rows.{
  AbsentPid, DistinctPids, Distinct-update, Located, pid_of, update-one, find-one,
}

abbrev pub pids : List Process → List ℕ
pids rows = map (λ r. r.pid) rows

absent_any :
    (p : Process → Bool) (pid : ℕ) (rows : List Process)
    → AbsentPid pid rows
    → any (λ y. y == pid) (pids (select p rows)) ≡ false
absent_any p pid [] h = refl
absent_any p pid (r ∷ rs) h = elim (Bool-cases (p r)) [
  | inl e ↦ rw (e, h.0, absent_any p pid rs h.1)
  | inr e ↦ rw (e, absent_any p pid rs h.1)
]

here :
    (r : Process) (rs : List Process) (pid : ℕ)
    → DistinctPids (r ∷ rs)
    → r.pid ≡ pid
    → Located (r ∷ rs) pid
here r rs pid d e = record {
  front = [];
  row = r;
  back = rs;
  whole = refl;
  same = e;
  before = tt;
  behind = subst (λ n. AbsentPid n rs) e d.0;
}

there :
    (r : Process) (rs : List Process) (pid : ℕ)
    → has_pid pid r ≡ false
    → Located rs pid
    → Located (r ∷ rs) pid
there r rs pid e l = record {
  front = r ∷ l.front;
  row = l.row;
  back = l.back;
  whole = ap (◌∷◌ r) l.whole;
  same = l.same;
  before = (e, l.before);
  behind = l.behind;
}

-- A pid that a selection gives belongs to a row that passes the selection's test.
pub locate_select :
    (p : Process → Bool) (rows : List Process) (pid : ℕ)
    → DistinctPids rows
    → any (λ y. y == pid) (pids (select p rows)) ≡ true
    → (l : Located rows pid) × (p l.row ≡ true)
unfolding here there
locate_select p [] pid d h = absurd (ground (arith, h))
locate_select p (r ∷ rs) pid d h = elim (Bool-cases (has_pid pid r)) [
  | inl e ↦ elim (Bool-cases (p r)) [
    | inl ready ↦ (here r rs pid d (pid_of r pid e), ready)
    | inr not_ready ↦ absurd (
        ground (
          arith,
          h,
          not_ready,
          absent_any p pid rs (subst (λ n. AbsentPid n rs) (pid_of r pid e) d.0),
        ))
  ]
  | inr e ↦
      let (l, ready) = locate_select p rs pid d.1 (elim (Bool-cases (p r)) [
        | inl f ↦ ground (arith, h, e, f)
        | inr f ↦ ground (arith, h, e, f)
      ]) in
      (there r rs pid e l, ready)
]

-- `s'` is `s` with one process of the project taken: active and idle before, busy afterwards, with
-- nothing else changed.
pub record Takes (s : Store) (projname : String) (pid : ℕ) (s' : Store) : Type 0 where
  pub place : Located s.processes pid
  pub ready : is_ready projname place.row ≡ true
  pub taken :
      s' ≡ record s { processes = place.front ++ (with_state proc_busy 0 place.row ∷ place.back) }

abbrev pub NoneReady : Store → String → Type 0
NoneReady s projname = select (is_ready projname) s.processes ≡ []

set_state-Located :
    (s : Store) (pid : ℕ) (l : Located s.processes pid)
    → process_set_state s pid proc_busy 0
      ≡ record s { processes = l.front ++ (with_state proc_busy 0 l.row ∷ l.back) }
unfolding process_set_state
set_state-Located s pid l =
    let one =
      update-one (with_state proc_busy 0) pid l.front l.row l.back l.before l.same l.behind in
    ap (λ rows. record s { processes = rows })
      (ap (update (has_pid pid) (with_state proc_busy 0)) l.whole ∙ one)

map-nil : (rows : List Process) → pids rows ≡ [] → rows ≡ []
map-nil [] h = refl
map-nil (r ∷ rs) h = absurd (cc)

claim_none :
    (limit : Limit) (s : Store) (projname : String)
    → get_process limit s projname ≡ none
    → claim_idle limit s projname ≡ record { store = s; found = none }
unfolding claim_idle
claim_none limit s projname e = rw (claim_idle, e)

claim_some :
    (limit : Limit) (s : Store) (projname : String) (pid : ℕ)
    → get_process limit s projname ≡ some pid
    → claim_idle limit s projname
      ≡ record { store = process_set_state s pid proc_busy 0; found = some pid }
unfolding claim_idle
claim_some limit s projname pid e = rw (claim_idle, e)

get_process-none :
    (limit : Limit) (s : Store) (projname : String)
    → get_process limit s projname ≡ none
    → NoneReady s projname
unfolding get_process
get_process-none limit s projname e = map-nil _ (limit.pick-none _ e)

get_process-some :
    (limit : Limit) (s : Store) (projname : String) (pid : ℕ)
    → DistinctPids s.processes
    → get_process limit s projname ≡ some pid
    → Takes s projname pid (process_set_state s pid proc_busy 0)
unfolding get_process
get_process-some limit s projname pid d e =
    let (l, ready) =
      locate_select (is_ready projname) s.processes pid d (limit.pick-some _ pid e) in
    record { place = l; ready = ready; taken = set_state-Located s pid l }

-- The result of a claim: a process taken, or nothing changed as there was none to take.
abbrev pub Answer : Store → String → Claimed → Type 0
Answer s projname c =
    ((pid : ℕ) × (c.found ≡ some pid) × Takes s projname pid c.store)
    ⊎ ((c.found ≡ none) × NoneReady s projname × (c.store ≡ s))

claim_idle-Answer :
    (limit : Limit) (s : Store) (projname : String)
    → DistinctPids s.processes
    → Answer s projname (claim_idle limit s projname)
claim_idle-Answer limit s projname d = elim (Option-cases (get_process limit s projname)) [
  | inl e ↦
      subst (Answer s projname) (sym (claim_none limit s projname e))
        (inr (refl, get_process-none limit s projname e, refl))
  | inr found ↦
      let (pid, e) = found in
      subst (Answer s projname) (sym (claim_some limit s projname pid e))
        (inl (pid, refl, get_process-some limit s projname pid d e))
]

next_found :
    (limit : Limit) (s : Store) (projname : String) (wake : Wake) (pid : ℕ)
    → (claim_idle limit s projname).found ≡ some pid
    → get_next_idle_process_for_busy_work limit s projname wake ≡ claim_idle limit s projname
unfolding get_next_idle_process_for_busy_work
next_found limit s projname wake pid e = simp (get_next_idle_process_for_busy_work, e)

next_signalled :
    (limit : Limit) (s later : Store) (projname : String)
    → (claim_idle limit s projname).found ≡ none
    → get_next_idle_process_for_busy_work limit s projname (signalled later)
      ≡ claim_idle limit later projname
unfolding get_next_idle_process_for_busy_work
next_signalled limit s later projname e = rw (get_next_idle_process_for_busy_work, e)

next_timed_out :
    (limit : Limit) (s later : Store) (projname : String)
    → (claim_idle limit s projname).found ≡ none
    → get_next_idle_process_for_busy_work limit s projname (timed_out later)
      ≡ record { store = later; found = none }
unfolding get_next_idle_process_for_busy_work
next_timed_out limit s later projname e = rw (get_next_idle_process_for_busy_work, e)

abbrev pub wake_store : Wake → Store
wake_store (signalled later) = later
wake_store (timed_out later) = later

-- The result after the wait: the answer of a second claim if the condition was signalled, else none.
abbrev pub AnswerLater : Wake → String → Claimed → Type 0
AnswerLater (signalled later) projname c = Answer later projname c
AnswerLater (timed_out later) projname c = (c.found ≡ none) × (c.store ≡ later)

answered_later :
    (limit : Limit) (s : Store) (projname : String) (wake : Wake)
    → (claim_idle limit s projname).found ≡ none
    → DistinctPids (wake_store wake).processes
    → AnswerLater wake projname (get_next_idle_process_for_busy_work limit s projname wake)
answered_later limit s projname (signalled later) none_now d =
    rw (next_signalled limit s later projname none_now) (claim_idle-Answer limit later projname d)
answered_later limit s projname (timed_out later) none_now d =
    rw (next_timed_out limit s later projname none_now) (refl, refl)

-- When pids are distinct, `db_get_next_idle_process_for_busy_work` returns a pid at once exactly by
-- taking one active idle process of the project, which becomes busy while no other row changes. Else
-- the project had no such process, and after the wait the same holds of the tables as they are then
-- if the condition was signalled; on a timeout nothing is returned and nothing changed.
pub get_next_idle_process-answer :
    (limit : Limit) (s : Store) (projname : String) (wake : Wake)
    → DistinctPids s.processes
    → DistinctPids (wake_store wake).processes
    → ((pid : ℕ) × ((get_next_idle_process_for_busy_work limit s projname wake).found ≡ some pid)
        × Takes s projname pid (get_next_idle_process_for_busy_work limit s projname wake).store)
      ⊎ (NoneReady s projname
          × AnswerLater wake projname (get_next_idle_process_for_busy_work limit s projname wake))
get_next_idle_process-answer limit s projname wake d e =
    elim (claim_idle-Answer limit s projname d) [
      | inl a ↦
          let (pid, found, takes) = a in
          rw (next_found limit s projname wake pid found) (inl (pid, found, takes))
      | inr b ↦
          let (found, none_now, same) = b in
          inr (none_now, answered_later limit s projname wake found e)
    ]

pub process_set_state-Distinct :
    (s : Store) (pid : ℕ) (state : ProcessState) (threadid : ℕ)
    → DistinctPids s.processes
    → DistinctPids (process_set_state s pid state threadid).processes
unfolding process_set_state
process_set_state-Distinct s pid state threadid d =
    Distinct-update has_pid (λ r. r.pid) (with_state state threadid) (λ k x. refl) (λ x. refl)
      (has_pid pid) s.processes d

claim_idle-Distinct :
    (limit : Limit) (s : Store) (projname : String)
    → DistinctPids s.processes
    → DistinctPids (claim_idle limit s projname).store.processes
claim_idle-Distinct limit s projname d = elim (Option-cases (get_process limit s projname)) [
  | inl e ↦ rw (claim_none limit s projname e) d
  | inr found ↦
      rw (claim_some limit s projname found.0 found.1)
        (process_set_state-Distinct s found.0 proc_busy 0 d)
]

claim-Takes :
    (limit : Limit) (s : Store) (projname : String) (pid : ℕ)
    → DistinctPids s.processes
    → (claim_idle limit s projname).found ≡ some pid
    → Takes s projname pid (claim_idle limit s projname).store
claim-Takes limit s projname pid d e = elim (claim_idle-Answer limit s projname d) [
  | inl a ↦
      let (q, found, takes) = a in
      let same : q ≡ pid = ground (arith, found, e) in
      subst (λ n. Takes s projname n (claim_idle limit s projname).store) same takes
  | inr b ↦ absurd (ground (arith, b.0, e))
]

taken_once :
    (s s1 s2 : Store) (projname other : String) (pid : ℕ)
    → Takes s projname pid s1
    → Takes s1 other pid s2
    → ⊥
unfolding is_ready
taken_once s s1 s2 projname other pid t u =
    let l = t.place in
    let k = u.place in
    let busy = with_state proc_busy 0 l.row in
    let first = find-one pid l.front busy l.back l.before l.same l.behind in
    let second = find-one pid k.front k.row k.back k.before k.same k.behind in
    let rows : l.front ++ (busy ∷ l.back) ≡ k.front ++ (k.row ∷ k.back) =
      sym (ap (λ s. s.processes) t.taken) ∙ k.whole in
    let same : some busy ≡ some k.row =
      sym first ∙ ap (λ rows. last_of (select (has_pid pid) rows)) rows ∙ second in
    let ready = u.ready in ground (arith, same, ready)

-- A process that a claim has taken is not taken by a second claim, for whatever project, unless it
-- became idle in between.
pub claim_idle_once :
    (limit : Limit) (s : Store) (projname other : String) (pid : ℕ)
    → DistinctPids s.processes
    → (claim_idle limit s projname).found ≡ some pid
    → (claim_idle limit (claim_idle limit s projname).store other).found ≢ some pid
claim_idle_once limit s projname other pid d e again =
    let s1 = (claim_idle limit s projname).store in
    let first = claim-Takes limit s projname pid d e in
    let second = claim-Takes limit s1 other pid (claim_idle-Distinct limit s projname d) again in
    taken_once s s1 _ projname other pid first second
