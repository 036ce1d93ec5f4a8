-- ===== src/Shutdown/Empties.antt =====
-- The shutdown thread ends: three rounds, each behind the timeout of the one before, empty its list.
use qgis_scheduler.Prelude.{
  ℕ, suc, ◌≤◌, ◌≡◌, ap, inl, inr, Bool-cases, true, false, List, [], ◌∷◌, arith, ◌==◌, select, All,
  length,
}
use qgis_scheduler.Outcome.{ok}
use qgis_scheduler.Database.{
  Process, Store, ProcessState, proc_exit, proc_start, proc_init, proc_idle, proc_open_idle,
  proc_busy, proc_term, proc_kill, state_code,
}
use qgis_scheduler.Database.Processes.{get_num_shutdown_processes}
use qgis_scheduler.Database.Rows.{DistinctPids, select-none}
use qgis_scheduler.Database.Invariant.{IsSound}
use qgis_scheduler.Shutdown.{Environment, is_due, Checked, shutdown_round, leaves_loop}
use qgis_scheduler.Shutdown.Round.{in_shutdown}
use qgis_scheduler.Shutdown.Progress.{
  rounds_left, Permitted, Overdue, Before, Behind, round_settles, rounds_left-le, All-map,
}

last_state : (st : ProcessState) → (state_code st == 7) ≡ false → rounds_left st ≤ 0 → ⊥
last_state proc_exit h l = ground (arith, h)
last_state proc_start h l = omega (arith, l)
last_state proc_init h l = omega (arith, l)
last_state proc_idle h l = omega (arith, l)
last_state proc_open_idle h l = omega (arith, l)
last_state proc_busy h l = omega (arith, l)
last_state proc_term h l = omega (arith, l)
last_state proc_kill h l = omega (arith, l)

-- The rows behind one round are rows before a round at the end of their timeout.
next_round :
    (env later : Environment) (n : ℕ) (rows : List Process)
    → ((pid : ℕ) → is_due later (env.stamp pid) ≡ true)
    → All (Behind env (suc n)) rows
    → All (Before later n) rows
next_round env later n rows due h =
    All-map {P = Behind env (suc n)} {Q = Before later n} rows
      (λ r b. (b.0, λ sh. ((b.1 sh).1, λ l. rw ((b.1 sh).2) (due r.pid)))) h

emptied : (env : Environment) (r : Process) → Behind env 0 r → in_shutdown r ≡ false
emptied env r b = elim (Bool-cases (in_shutdown r)) [
  | inl sh ↦ absurd (last_state r.state (b.1 sh).0 (b.1 sh).1)
  | inr no_sh ↦ no_sh
]

at_start :
    (env : Environment) (rows : List Process)
    → All IsSound rows
    → All (λ r. in_shutdown r ≡ true → Overdue env r) rows
    → All (Before env 2) rows
at_start env [] sound overdue = tt
at_start env (r ∷ rows) sound overdue =
    ((sound.0, λ sh. (rounds_left-le r.state, overdue.0 sh)), at_start env rows sound.1 overdue.1)

-- When kill() fails only for a process that is gone, the pids are distinct and positive, no row is in the
-- deprecated state open_idle, and each round starts after the timeout of the signals that were sent before
-- it, three rounds of the thread succeed and leave the shutdown list empty, so that the thread leaves its
-- loop once it was told to. No process has to obey a signal, and none is left to finish its work.
pub shutdown_round-empties :
    (first second third : Environment) (s : Store)
    → Permitted first
    → Permitted second
    → Permitted third
    → DistinctPids s.processes
    → All IsSound s.processes
    → All (λ r. in_shutdown r ≡ true → Overdue first r) s.processes
    → ((pid : ℕ) → is_due second (first.stamp pid) ≡ true)
    → ((pid : ℕ) → is_due third (second.stamp pid) ≡ true)
    → (c1 : Checked) × (c2 : Checked) × (c3 : Checked) × (shutdown_round first s ≡ ok c1)
      × (shutdown_round second c1.store ≡ ok c2)
      × (shutdown_round third c2.store ≡ ok c3)
      × (get_num_shutdown_processes c3.store ≡ 0)
      × (leaves_loop true c3.store ≡ true)
unfolding leaves_loop get_num_shutdown_processes
shutdown_round-empties first second third s p1 p2 p3 d sound overdue due2 due3 =
    let (c1, ran1, d1, h1) =
      round_settles first 2 s p1 d (at_start first s.processes sound overdue) in
    let (c2, ran2, d2, h2) =
      round_settles second 1 c1.store p2 d1 (next_round first second 1 _ due2 h1) in
    let (c3, ran3, d3, h3) =
      round_settles third 0 c2.store p3 d2 (next_round second third 0 _ due3 h2) in
    let none_in_list : select in_shutdown c3.store.processes ≡ [] =
      select-none in_shutdown c3.store.processes
        (All-map {P = Behind third 0} c3.store.processes (emptied third) h3) in
    (c1, c2, c3, ran1, ran2, ran3, ap length none_in_list, rw none_in_list)
