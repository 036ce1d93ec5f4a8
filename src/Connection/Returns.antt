-- ===== src/Connection/Returns.antt =====
-- connection_manager.c: the parts of an attempt that end, and the tables that they leave.
use qgis_scheduler.Prelude.{
  ℕ, ◌<◌, ◌≡◌, refl, subst, Bool, true, false, inl, inr, Bool-cases, Option-cases, some, List, [],
  ◌∷◌, All, select, arith, ◌==◌, String,
}
use qgis_scheduler.Outcome.{Returns}
use qgis_scheduler.Database.{Store, Limit, Process, any, proc_busy}
use qgis_scheduler.Database.Claim.{wake_store, pids}
use qgis_scheduler.Database.Invariant.{IsSound, WellFormed, Step-WellFormed, sets_state}
use qgis_scheduler.Database.Processes.{
  Wake, signalled, timed_out, is_ready, get_process, claim_idle,
  get_next_idle_process_for_busy_work,
}
use qgis_scheduler.Connection.Relay.{
  Poll, polled, interrupted, invalid, poll_failed, Relay, relay_round, relay_loop,
}

abbrev pub is_failed : Poll → Bool
is_failed poll_failed = true
is_failed _ = false

pub relay_loop-Returns :
    (r : Relay) (polls : List Poll)
    → All (λ p. is_failed p ≡ false) polls
    → Returns (relay_loop r polls)
unfolding relay_loop
relay_loop-Returns r [] h = (_, refl)
relay_loop-Returns r (interrupted ∷ polls) h = (_, refl)
relay_loop-Returns r (invalid ∷ polls) h = (_, refl)
relay_loop-Returns r (poll_failed ∷ polls) h = absurd (ground (arith, h.0))
relay_loop-Returns r (polled p ∷ polls) h = elim (Bool-cases (relay_round r p).ends) [
  | inl e ↦ (relay_round r p, rw (relay_loop, e) refl)
  | inr e ↦
      let (round, ran) = relay_loop-Returns (relay_round r p).relay polls h.1 in
      (round, rw (relay_loop, e) ran)
]

picked_positive :
    (p : Process → Bool) (rows : List Process) (pid : ℕ)
    → All IsSound rows
    → any (λ y. y == pid) (pids (select p rows)) ≡ true
    → 0 < pid
picked_positive p [] pid h e = absurd (ground (arith, e))
picked_positive p (r ∷ rs) pid h e = elim (Bool-cases (p r)) [
  | inr f ↦ picked_positive p rs pid h.1 (rw f at e)
  | inl f ↦ elim (Bool-cases (r.pid == pid)) [
    | inl same ↦ ground (arith, h.0.0, same)
    | inr differs ↦ picked_positive p rs pid h.1 (rw (f, differs) at e)
  ]
]

claim_idle-positive :
    (limit : Limit) (s : Store) (projname : String) (pid : ℕ)
    → All IsSound s.processes
    → (claim_idle limit s projname).found ≡ some pid
    → 0 < pid
unfolding claim_idle get_process
claim_idle-positive limit s projname pid sound e =
    let ready = pids (select (is_ready projname) s.processes) in
    elim (Option-cases (limit.pick ready)) [
      | inl f ↦ absurd (ground (arith, rw (claim_idle, f) at e))
      | inr (q, f) ↦
          let same : some q ≡ some pid = rw (claim_idle, f) at e in
          let same_pid : q ≡ pid = ground (arith, same) in
          subst (λ n. 0 < n) same_pid
            (picked_positive (is_ready projname) s.processes q sound (limit.pick-some ready q f))
    ]

pub claimed_positive :
    (limit : Limit) (s : Store) (projname : String) (wake : Wake) (pid : ℕ)
    → All IsSound s.processes
    → All IsSound (wake_store wake).processes
    → (get_next_idle_process_for_busy_work limit s projname wake).found ≡ some pid
    → 0 < pid
unfolding get_next_idle_process_for_busy_work
claimed_positive limit s projname (signalled after) pid sound later e =
    elim (Option-cases (claim_idle limit s projname).found) [
      | inr (q, f) ↦
          claim_idle-positive limit s projname pid sound
            (rw (get_next_idle_process_for_busy_work, f) at e)
      | inl f ↦
          claim_idle-positive limit after projname pid later
            (rw (get_next_idle_process_for_busy_work, f) at e)
    ]
claimed_positive limit s projname (timed_out after) pid sound later e =
    elim (Option-cases (claim_idle limit s projname).found) [
      | inr (q, f) ↦
          claim_idle-positive limit s projname pid sound
            (rw (get_next_idle_process_for_busy_work, f) at e)
      | inl f ↦ absurd (ground (arith, rw (get_next_idle_process_for_busy_work, f) at e))
    ]

-- The tables behind a claim, or behind the wait for one.
claim_idle-WellFormed :
    (limit : Limit) (s : Store) (projname : String)
    → WellFormed s
    → WellFormed (claim_idle limit s projname).store
unfolding claim_idle
claim_idle-WellFormed limit s projname w = elim (Option-cases (get_process limit s projname)) [
  | inl e ↦ rw (claim_idle, e) w
  | inr (pid, e) ↦ rw (claim_idle, e) (Step-WellFormed (sets_state pid proc_busy 0 refl) w)
]

pub claimed-WellFormed :
    (limit : Limit) (s : Store) (projname : String) (wake : Wake)
    → WellFormed s
    → WellFormed (wake_store wake)
    → WellFormed (get_next_idle_process_for_busy_work limit s projname wake).store
unfolding get_next_idle_process_for_busy_work
claimed-WellFormed limit s projname (signalled after) w later =
    elim (Option-cases (claim_idle limit s projname).found) [
      | inr (q, f) ↦
          rw (get_next_idle_process_for_busy_work, f) (claim_idle-WellFormed limit s projname w)
      | inl f ↦
          rw (get_next_idle_process_for_busy_work, f)
            (claim_idle-WellFormed limit after projname later)
    ]
claimed-WellFormed limit s projname (timed_out after) w later =
    elim (Option-cases (claim_idle limit s projname).found) [
      | inr (q, f) ↦
          rw (get_next_idle_process_for_busy_work, f) (claim_idle-WellFormed limit s projname w)
      | inl f ↦ rw (get_next_idle_process_for_busy_work, f) later
    ]
