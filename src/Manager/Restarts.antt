-- ===== src/Manager/Restarts.antt =====
-- process_manager.c: the restart of a process, and of those that died, returns and keeps the tables
-- well-formed.
use qgis_scheduler.Prelude.{
  ℕ, ◌<◌, ◌≡◌, refl, ◌∙◌, Bool, true, false, not, ◌||◌, inl, inr, Option, none, some, List, [], ◌∷◌,
  ◌++◌, map, All, arith, ltb, ltb→lt, if◌then◌else◌, ◌≢◌,
}
use qgis_scheduler.Outcome.{ok, Returns}
use qgis_scheduler.Database.{Store, Process, ProcessList, list_shutdown, update}
use qgis_scheduler.Database.Invariant.{IsSound, WellFormed, Step-WellFormed, moves_process}
use qgis_scheduler.Database.Processes.{
  has_pid, with_list, find_process, get_process_list, get_project_for_this_process,
  move_process_to_list, get_complete_list_process,
}
use qgis_scheduler.Manager.{
  restart_process, restart_starts, Restarted, in_shutdown_list, start_of, shutdown_add_process,
  died_loop, process_died,
}
use qgis_scheduler.Manager.Died.{Killed-cases}
use qgis_scheduler.Shutdown.{Killed, not_permitted}

pub restart_starts-Returns :
    (down : Bool) (s : Store) (pid : ℕ) → 0 < pid → Returns (restart_starts down s pid)
unfolding restart_starts get_process_list
restart_starts-Returns true s pid h = (_, refl)
restart_starts-Returns false s pid h =
    let positive : ltb 0 pid ≡ true = ground arith in
    let list : Option ProcessList = elim (find_process s pid) [
      | none ↦ none
      | some r ↦ some r.list
    ] in
    (
      if in_shutdown_list list then [] else start_of (get_project_for_this_process s pid),
      rw (restart_starts, positive) refl,
    )

listed-WellFormed :
    (s : Store) (list : ProcessList) (pid : ℕ)
    → 0 < pid
    → WellFormed s
    → WellFormed (record s {
      processes = update (has_pid pid) (with_list list) s.processes;
      has_list_change = true;
    })
unfolding move_process_to_list
listed-WellFormed s list pid h w =
    let positive : ltb 0 pid ≡ true = ground arith in
    let ran : move_process_to_list s list pid
        ≡ ok (record s { processes = update (has_pid pid) (with_list list) s.processes }) =
      rw positive refl in
    let moved = Step-WellFormed (moves_process list pid ran) w in
    record { pids = moved.pids; names = moved.names; sound = moved.sound }

pub restart_process-Returns :
    (down thread : Bool) (s : Store) (pid : ℕ)
    → (down || not thread) ≡ true
    → 0 < pid
    → WellFormed s
    → (r : Restarted) × (restart_process down thread s pid ≡ ok r)
      × WellFormed r.store
      × (r.store.projects ≡ s.projects)
unfolding restart_process shutdown_add_process move_process_to_list
restart_process-Returns down thread s pid allowed h w =
    let positive : ltb 0 pid ≡ true = ground arith in
    let (starts, ran) = restart_starts-Returns down s pid h in
    (
      record {
        store = record s {
          processes = update (has_pid pid) (with_list list_shutdown) s.processes;
          has_list_change = true;
        };
        starts = starts;
      },
      rw (restart_process, ran, allowed, positive) refl,
      listed-WellFormed s list_shutdown pid h w,
      refl,
    )

died_loop-Returns :
    (down thread : Bool) (alive : ℕ → Killed) (s : Store) (ps : List ℕ)
    → (down || not thread) ≡ true
    → ((pid : ℕ) → alive pid ≢ not_permitted)
    → All (λ pid. 0 < pid) ps
    → WellFormed s
    → (r : Restarted) × (died_loop down thread alive s ps ≡ ok r)
      × WellFormed r.store
      × (r.store.projects ≡ s.projects)
unfolding died_loop
died_loop-Returns down thread alive s [] allowed permitted positive w =
    (record { store = s; starts = [] }, refl, w, refl)
died_loop-Returns down thread alive s (pid ∷ ps) allowed permitted positive w =
    elim (Killed-cases (alive pid)) [
      | inl lives ↦
          let (r, ran, v, same) =
            died_loop-Returns down thread alive s ps allowed permitted positive.1 w in
          (r, rw (died_loop, lives) ran, v, same)
      | inr (inl dead) ↦
          let (q, restarted, v, kept) =
            restart_process-Returns down thread s pid allowed positive.0 w in
          let (r, ran, v', same) =
            died_loop-Returns down thread alive q.store ps allowed permitted positive.1 v in
          (
            record { store = r.store; starts = q.starts ++ r.starts },
            rw (died_loop, dead, restarted, ran) refl,
            v',
            same ∙ kept,
          )
      | inr (inr refused) ↦ absurd (permitted pid refused)
    ]

pids-positive :
    (rows : List Process) → All IsSound rows → All (λ pid. 0 < pid) (map (λ r. r.pid) rows)
pids-positive [] h = tt
pids-positive (r ∷ rows) h = (ltb→lt 0 r.pid h.0.0, pids-positive rows h.1)

-- If kill(pid, 0) fails only for a process that does not exist, the signal handler's search for processes
-- that died returns, also while the program shuts down; it leaves the projects alone and the tables
-- well-formed.
pub process_died-Returns :
    (down thread : Bool) (alive : ℕ → Killed) (s : Store)
    → (down || not thread) ≡ true
    → ((pid : ℕ) → alive pid ≢ not_permitted)
    → WellFormed s
    → (r : Restarted) × (process_died down thread alive s ≡ ok r)
      × WellFormed r.store
      × (r.store.projects ≡ s.projects)
unfolding process_died get_complete_list_process
process_died-Returns down thread alive s allowed permitted w =
    died_loop-Returns down thread alive s (map (λ r. r.pid) s.processes) allowed permitted
      (pids-positive s.processes w.sound) w
