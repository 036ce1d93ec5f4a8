-- ===== src/Shutdown/Checks.antt =====
-- The steps of a round of the shutdown thread keep its invariant.
use qgis_scheduler.Prelude.{
  ℕ, ◌≡◌, refl, sym, ap, ◌∙◌, Bool-cases, false, inl, inr, List, [], ◌∷◌, arith, ◌==◌, All, select,
  map, subst,
}
use qgis_scheduler.Outcome.{ok}
use qgis_scheduler.Database.{Process, Store, proc_exit, list_shutdown}
use qgis_scheduler.Database.Processes.{
  has_pid, in_list, in_state, get_process_state, remove_process_with_state_exit,
}
use qgis_scheduler.Database.Rows.{
  DistinctPids, Distinct-update, Distinct-select, All-select, All-update, All-updated, All-deleted,
}
use qgis_scheduler.Database.Invariant.{IsSound, ==-swap}
use qgis_scheduler.Shutdown.{Environment, check_state}
use qgis_scheduler.Shutdown.Advance.{advance, advance-pid}
use qgis_scheduler.Shutdown.Round.{in_shutdown}
use qgis_scheduler.Shutdown.Progress.{advance-IsSound}
use qgis_scheduler.Shutdown.Handled.{Timed, Done-Timed, checked-Done, check_state-rows, Stamped}
use qgis_scheduler.Shutdown.Thread.{checking, reading_timer, State, IsSteady}
use qgis_scheduler.Shutdown.Kept.{Awaited, Settled, Knows, Invariant, All-both}

-- Each row of the shutdown list is in the list that the thread reads.
one_more :
    (r : Process) (pids : List ℕ) (rows : List Process)
    → All (Awaited pids) rows
    → All (Awaited (r.pid ∷ pids)) rows
one_more r pids [] h = tt
one_more r pids (q ∷ rows) h = (
  λ sh. elim (h.0 sh) [ inl done ↦ inl done | inr found ↦ inr (ground (arith, found)) ],
  one_more r pids rows h.1,
)

pub listed :
    (rows : List Process)
    → All (Awaited (map (λ r. r.pid) (select (in_list list_shutdown) rows))) rows
listed [] = tt
listed (r ∷ rows) =
    let goal : List Process → Type 0 =
      λ chosen. All (Awaited (map (λ q. q.pid) chosen)) (r ∷ rows) in
    let rest = select in_shutdown rows in
    elim (Bool-cases (in_shutdown r)) [
      | inl sh ↦
          let taken : select in_shutdown (r ∷ rows) ≡ r ∷ rest = rw sh refl in
          subst goal (sym taken)
            ((λ e. inr (ground arith)), one_more r (map (λ q. q.pid) rest) rows (listed rows))
      | inr away ↦
          let left : select in_shutdown (r ∷ rows) ≡ rest = rw away refl in
          subst goal (sym left) ((λ sh. absurd (ground (arith, sh, away))), listed rows)
    ]

pub checks-Invariant :
    (t : State) (env : Environment) (pid : ℕ) (todo : List ℕ) (s : Store)
    → t.at ≡ checking env (pid ∷ todo)
    → check_state env t.store pid (get_process_state t.store pid) ≡ ok s
    → Invariant t
    → Invariant (record t { store = s; at = checking env todo })
checks-Invariant t env pid todo s place ran i =
    let rows = t.store.processes in
    let f = advance env in
    let p = has_pid pid in
    let steady : IsSteady env = subst (Knows t) place i.knows in
    let e = check_state-rows env t.store s pid steady i.pids i.sound ran in
    let ready = All-both IsSound Timed rows i.sound i.timed in
    let kept_pid : (r : Process) → (f r).pid ≡ r.pid = λ r. advance-pid env r r.state in
    record {
      pids = subst DistinctPids (sym e) (
          Distinct-update has_pid (λ r. r.pid) f (λ k r. ap (λ n. n == k) (kept_pid r)) kept_pid p
            rows i.pids);
      sound =
          subst (All IsSound) (sym e) (All-update IsSound p f rows (advance-IsSound env) i.sound);
      timed = subst (All Timed) (sym e) (
          All-updated (λ r. IsSound r × Timed r) Timed p f rows
            (λ r hit b. Done-Timed (f r) (checked-Done env r steady b.0 b.1)) (λ r miss b. b.1)
            ready);
      knows = steady;
      settled = λ none_pending no_change. subst (All (Awaited todo)) (sym e) (
          All-updated (λ r. (IsSound r × Timed r) × Awaited (pid ∷ todo) r) (Awaited todo) p f rows
            (λ r hit b sh. inl (checked-Done env r steady b.0.0 b.0.1))
            (λ r miss b sh. elim (b.1 sh) [
              | inl done ↦ inl done
              | inr found ↦ inr (
                  let other : (pid == r.pid) ≡ false = ==-swap pid r.pid ∙ miss in
                  ground (arith, found, other))
            ])
            (All-both _ (Awaited (pid ∷ todo)) rows ready
              (subst (λ at. Settled at rows) place (i.settled none_pending no_change))));
    }

pub weeds-Invariant :
    (t : State) (env : Environment)
    → t.at ≡ checking env []
    → Invariant t
    → Invariant (record t { store = remove_process_with_state_exit t.store; at = reading_timer })
unfolding remove_process_with_state_exit
weeds-Invariant t env place i =
    let rows = t.store.processes in
    record {
      pids = Distinct-select has_pid (λ r. r.pid) _ rows i.pids;
      sound = All-select IsSound _ rows i.sound;
      timed = All-select Timed _ rows i.timed;
      knows = tt;
      settled = λ none_pending no_change.
          All-deleted (Awaited []) Stamped (in_state proc_exit) rows
            (λ r stays b sh. elim (b sh) [
              | inl (inl set) ↦ set
              | inl (inr exit) ↦ absurd (ground (arith, exit, stays))
              | inr found ↦ absurd (ground (arith, found))
            ])
            (subst (λ at. Settled at rows) place (i.settled none_pending no_change));
    }
