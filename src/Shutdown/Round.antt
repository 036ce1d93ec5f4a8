-- ===== src/Shutdown/Round.antt =====
-- A round of the shutdown thread: the statements on single pids, one after another, amount to one pass
-- over the rows.
use qgis_scheduler.Prelude.{
  ℕ, ◌≡◌, refl, sym, ap, ◌∙◌, Bool, Bool-cases, false, inl, inr, List, [], ◌∷◌, ◌++◌, map, arith,
  select, All, All-append, append_assoc, ◌==◌,
}
use qgis_scheduler.Outcome.{ok}
use qgis_scheduler.Database.{Process, Store, proc_exit, list_shutdown, update, delete}
use qgis_scheduler.Database.Processes.{
  has_pid, in_list, in_state, get_list_process_by_list, remove_process_with_state_exit,
  shutdown_get_min_signaltimer,
}
use qgis_scheduler.Database.Rows.{AbsentPid, DistinctPids}
use qgis_scheduler.Database.Invariant.{is_open_idle}
use qgis_scheduler.Shutdown.{Environment, check_processes, Checked, shutdown_round}
use qgis_scheduler.Shutdown.Advance.{At, At-check, Runnable, advance, advance-pid}

abbrev pub in_shutdown : Process → Bool
in_shutdown r = in_list list_shutdown r

-- A row that the thread can deal with.
abbrev pub Ready : Environment → Process → Type 0
Ready env r = (is_open_idle r.state ≡ false) × Runnable env r.pid

-- The rows in front are done; those behind wait.
abbrev pub Apart : List Process → List Process → Type 0
Apart front rest = All (λ r. AbsentPid r.pid front) rest

Absent-swap : (n : ℕ) (q : Process) → has_pid n q ≡ false → (n == q.pid) ≡ false
Absent-swap n q h = ground (arith, h)

-- The front grows by a row with the pid of `r`.
pub Apart-next :
    (front rs : List Process) (r q : Process)
    → q.pid ≡ r.pid
    → AbsentPid r.pid rs
    → Apart front rs
    → Apart (front ++ (q ∷ [])) rs
Apart-next front [] r q same absent apart = tt
Apart-next front (x ∷ rs) r q same absent apart = (
  All-append (λ y. has_pid x.pid y ≡ false) front (q ∷ []) apart.0
      (rw same (Absent-swap r.pid x absent.0), tt),
  Apart-next front rs r q same absent.1 apart.1,
)

pub Apart-nil : (rows : List Process) → Apart [] rows
Apart-nil [] = tt
Apart-nil (r ∷ rows) = (tt, Apart-nil rows)

checked_rows :
    (env : Environment) (s : Store) (front rest : List Process)
    → s.processes ≡ front ++ rest
    → DistinctPids rest
    → Apart front rest
    → All (Ready env) rest
    → (s' : Store) × (check_processes env s (map (λ r. r.pid) (select in_shutdown rest)) ≡ ok s')
      × (s'.processes ≡ front ++ update in_shutdown (advance env) rest)
unfolding check_processes
checked_rows env s front [] e d apart ready = (s, refl, e)
checked_rows env s front (r ∷ rs) e d apart ready = elim (Bool-cases (in_shutdown r)) [
  | inl sh ↦
      let around : At s front r rs = record { rows = e; before = apart.0; behind = d.0 } in
      let (s1, ran, after) = At-check front rs env s r ready.0.0 ready.0.1 around in
      let q = advance env r in
      let (s2, rest_ran, rows) =
        checked_rows env s1 (front ++ (q ∷ [])) rs
          (after.rows ∙ sym (append_assoc front (q ∷ []) rs)) d.1
          (Apart-next front rs r q (advance-pid env r r.state) d.0 apart.1) ready.1 in
      (s2, simp (sh, ran, rest_ran), simp sh (rows ∙ append_assoc front (q ∷ []) _))
  | inr stays ↦
      let (s2, rest_ran, rows) =
        checked_rows env s (front ++ (r ∷ [])) rs (e ∙ sym (append_assoc front (r ∷ []) rs)) d.1
          (Apart-next front rs r r refl d.0 apart.1) ready.1 in
      (s2, simp (stays, rest_ran), simp stays (rows ∙ append_assoc front (r ∷ []) _))
]

-- When kill() fails only for a process that is gone, the pids are distinct and positive, and no row is in
-- the deprecated state open_idle, a round of the thread succeeds. It advances each row of the shutdown list
-- once, as `advance` says, a busy one like an idle one; it changes no row of the other lists, and removes
-- the rows that are then in the state exit.
pub shutdown_round-advance :
    (env : Environment) (s : Store)
    → DistinctPids s.processes
    → All (Ready env) s.processes
    → (c : Checked) × (shutdown_round env s ≡ ok c)
      × (c.store.processes
          ≡ delete (in_state proc_exit) (update in_shutdown (advance env) s.processes))
unfolding shutdown_round get_list_process_by_list remove_process_with_state_exit
shutdown_round-advance env s d ready =
    let (s', ran, rows) = checked_rows env s [] s.processes refl d (Apart-nil s.processes) ready in
    let last = record s' { processes = delete (in_state proc_exit) s'.processes } in
    (
      record { store = last; min_timer = shutdown_get_min_signaltimer last },
      rw ran,
      ap (delete (in_state proc_exit)) rows,
    )
