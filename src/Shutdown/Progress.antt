-- ===== src/Shutdown/Progress.antt =====
-- The shutdown list runs empty: SIGTERM, then SIGKILL, then the entry is given up.
use qgis_scheduler.Prelude.{
  ℕ, suc, ◌≤◌, ◌≡◌, ◌≢◌, refl, sym, ap, subst, Bool-cases, true, false, not, ◌⊎◌, inl, inr, List,
  [], ◌∷◌, arith, ◌==◌, All,
}
use qgis_scheduler.Outcome.{ok}
use qgis_scheduler.Database.{
  Process, Store, Signal, sigterm, sigkill, ProcessState, proc_start, proc_init, proc_idle,
  proc_open_idle, proc_busy, proc_term, proc_kill, proc_exit, state_code, update, delete,
}
use qgis_scheduler.Database.Processes.{has_pid, in_state}
use qgis_scheduler.Database.Rows.{
  DistinctPids, Distinct-update, Distinct-select, All-deleted, All-updated,
}
use qgis_scheduler.Database.Invariant.{is_open_idle, IsSound}
use qgis_scheduler.Shutdown.{
  Killed, delivered, no_such_process, not_permitted, Environment, is_due, Checked, shutdown_round,
}
use qgis_scheduler.Shutdown.Advance.{signalled_row, advance, advance_from, advance-pid}
use qgis_scheduler.Shutdown.Round.{in_shutdown, Ready, shutdown_round-advance}

-- The rounds that a process still needs, each behind the timeout of the one before.
abbrev pub rounds_left : ProcessState → ℕ
rounds_left proc_exit = 0
rounds_left proc_kill = 1
rounds_left proc_term = 2
rounds_left _ = 3

-- kill() fails only with ESRCH.
abbrev pub Permitted : Environment → Type 0
Permitted env = (pid : ℕ) (signal : Signal) → env.kill pid signal ≢ not_permitted

-- A process that was signalled has had its time.
abbrev pub Overdue : Environment → Process → Type 0
Overdue env r = rounds_left r.state ≤ 2 → is_due env r.signaltime ≡ true

-- A process of the shutdown list needs at most `n` rounds, and was signalled or given up in this one.
abbrev Settled : Environment → ℕ → Process → Type 0
Settled env n r =
    (in_state proc_exit r ≡ true) ⊎ ((rounds_left r.state ≤ n) × (r.signaltime ≡ env.stamp r.pid))

signalled-Settled :
    (env : Environment) (n : ℕ) (signal : Signal) (next : ProcessState) (r : Process) (k : Killed)
    → k ≢ not_permitted
    → rounds_left next ≤ n
    → Settled env n (signalled_row env signal next r k)
unfolding signalled_row
signalled-Settled env n signal next r delivered h l = inr (l, refl)
signalled-Settled env n signal next r no_such_process h l = inl refl
signalled-Settled env n signal next r not_permitted h l = absurd (h refl)

-- `st` is the state of the row.
advance-Settled :
    (env : Environment) (n : ℕ) (r : Process) (st : ProcessState)
    → Permitted env
    → is_open_idle st ≡ false
    → rounds_left st ≤ suc n
    → (rounds_left st ≤ 2 → is_due env r.signaltime ≡ true)
    → (in_state proc_exit r ≡ (state_code st == 7))
    → Settled env n (advance_from env r st)
unfolding advance_from
advance-Settled env n r proc_term h k l due x =
    rw (due (omega arith))
      (signalled-Settled env n sigkill proc_kill r _ (h r.pid sigkill) (omega (arith, l)))
advance-Settled env n r proc_kill h k l due x = rw (due (omega arith)) (inl refl)
advance-Settled env n r proc_exit h k l due x = inl x
advance-Settled env n r proc_open_idle h k l due x = absurd (ground (arith, k))
advance-Settled env n r proc_start h k l due x =
    signalled-Settled env n sigterm proc_term r _ (h r.pid sigterm) (omega (arith, l))
advance-Settled env n r proc_init h k l due x =
    signalled-Settled env n sigterm proc_term r _ (h r.pid sigterm) (omega (arith, l))
advance-Settled env n r proc_idle h k l due x =
    signalled-Settled env n sigterm proc_term r _ (h r.pid sigterm) (omega (arith, l))
advance-Settled env n r proc_busy h k l due x =
    signalled-Settled env n sigterm proc_term r _ (h r.pid sigterm) (omega (arith, l))

pub rounds_left-le : (st : ProcessState) → rounds_left st ≤ 3
rounds_left-le proc_start = omega arith
rounds_left-le proc_init = omega arith
rounds_left-le proc_idle = omega arith
rounds_left-le proc_open_idle = omega arith
rounds_left-le proc_busy = omega arith
rounds_left-le proc_term = omega arith
rounds_left-le proc_kill = omega arith
rounds_left-le proc_exit = omega arith

signalled_row-state :
    (env : Environment) (signal : Signal) (next : ProcessState) (r : Process) (k : Killed)
    → is_open_idle next ≡ false
    → is_open_idle r.state ≡ false
    → is_open_idle (signalled_row env signal next r k).state ≡ false
unfolding signalled_row
signalled_row-state env signal next r delivered h l = h
signalled_row-state env signal next r no_such_process h l = refl
signalled_row-state env signal next r not_permitted h l = l

advance-state :
    (env : Environment) (r : Process) (st : ProcessState)
    → is_open_idle r.state ≡ false
    → is_open_idle (advance_from env r st).state ≡ false
unfolding advance_from
advance-state env r proc_term l = elim (Bool-cases (is_due env r.signaltime)) [
  | inl e ↦ rw e (signalled_row-state env sigkill proc_kill r _ refl l)
  | inr e ↦ rw e l
]
advance-state env r proc_kill l = elim (Bool-cases (is_due env r.signaltime)) [
  | inl e ↦ rw e refl
  | inr e ↦ rw e l
]
advance-state env r proc_exit l = l
advance-state env r proc_open_idle l = l
advance-state env r proc_start l = signalled_row-state env sigterm proc_term r _ refl l
advance-state env r proc_init l = signalled_row-state env sigterm proc_term r _ refl l
advance-state env r proc_idle l = signalled_row-state env sigterm proc_term r _ refl l
advance-state env r proc_busy l = signalled_row-state env sigterm proc_term r _ refl l

pub advance-IsSound : (env : Environment) (r : Process) → IsSound r → IsSound (advance env r)
advance-IsSound env r h = (rw (advance-pid env r r.state) h.0, advance-state env r r.state h.1)

-- A row of a table before a round and behind it.
abbrev pub Before : Environment → ℕ → Process → Type 0
Before env n r = IsSound r × (in_shutdown r ≡ true → (rounds_left r.state ≤ suc n) × Overdue env r)

abbrev pub Behind : Environment → ℕ → Process → Type 0
Behind env n r =
    IsSound r
    × (in_shutdown r ≡ true
        → (in_state proc_exit r ≡ false)
          × (rounds_left r.state ≤ n)
          × (r.signaltime ≡ env.stamp r.pid))

-- The same, while the rows in the state exit are still there.
abbrev Between : Environment → ℕ → Process → Type 0
Between env n r = IsSound r × (in_shutdown r ≡ true → Settled env n r)

settled_only :
    (env : Environment) (n : ℕ) (r : Process)
    → in_state proc_exit r ≡ false
    → Between env n r
    → Behind env n r
settled_only env n r h b =
    (b.0, λ sh. elim (b.1 sh) [ inl e ↦ absurd (ground (arith, e, h)) | inr k ↦ (h, k.0, k.1) ])

rows_settle :
    (env : Environment) (n : ℕ) (rows : List Process)
    → Permitted env
    → All (Before env n) rows
    → All (Behind env n) (delete (in_state proc_exit) (update in_shutdown (advance env) rows))
rows_settle env n rows allowed h =
    All-deleted (Between env n) (Behind env n) (in_state proc_exit)
      (update in_shutdown (advance env) rows) (settled_only env n)
      (All-updated (Before env n) (Between env n) in_shutdown (advance env) rows
        (λ r sh b. (
          advance-IsSound env r b.0,
          λ moved. advance-Settled env n r r.state allowed b.0.1 (b.1 sh).0 (b.1 sh).1 refl,
        ))
        (λ r no_sh b. (b.0, λ sh. absurd (ground (arith, sh, no_sh)))) h)

Runnable-All :
    (env : Environment) (rows : List Process)
    → Permitted env
    → All IsSound rows
    → All (Ready env) rows
Runnable-All env [] allowed h = tt
Runnable-All env (r ∷ rows) allowed h = (
  (
    h.0.1,
    record {
      positive = h.0.0;
      term_allowed = allowed r.pid sigterm;
      kill_allowed = allowed r.pid sigkill;
    },
  ),
  Runnable-All env rows allowed h.1,
)

pub All-map :
    {P Q : Process → Type 0} (rows : List Process)
    → ((r : Process) → P r → Q r)
    → All P rows
    → All Q rows
All-map [] f h = tt
All-map (r ∷ rows) f h = (f r h.0, All-map rows f h.1)

-- One round: every process of the shutdown list needs one round less.
pub round_settles :
    (env : Environment) (n : ℕ) (s : Store)
    → Permitted env
    → DistinctPids s.processes
    → All (Before env n) s.processes
    → (c : Checked) × (shutdown_round env s ≡ ok c)
      × DistinctPids c.store.processes
      × All (Behind env n) c.store.processes
round_settles env n s allowed d h =
    let sound = All-map s.processes (λ r b. b.0) h in
    let (c, ran, rows) =
      shutdown_round-advance env s d (Runnable-All env s.processes allowed sound) in
    let distinct =
      Distinct-select has_pid (λ r. r.pid) (λ r. not (in_state proc_exit r)) _
        (Distinct-update has_pid (λ r. r.pid) (advance env)
          (λ k r. ap (λ n. n == k) (advance-pid env r r.state)) (λ r. advance-pid env r r.state)
          in_shutdown s.processes d) in
    (
      c,
      ran,
      subst DistinctPids (sym rows) distinct,
      subst (All (Behind env n)) (sym rows) (rows_settle env n s.processes allowed h),
    )
