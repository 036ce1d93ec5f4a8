-- ===== src/Manager/Starts.antt =====
-- process_manager_start_new_process_wait(): the limit on startup failures, and the exchange of processes.
use qgis_scheduler.Prelude.{
  ℕ, ◌+◌, ◌≤◌, ◌<◌, ◌≡◌, refl, ◌∙◌, Bool, true, false, ◌⊎◌, inl, inr, some, arith, String, str_eq,
  if◌then◌else◌, ap, map, List, [], ◌∷◌,
}
use qgis_scheduler.Outcome.{ok}
use qgis_scheduler.Database.{
  list_init, list_active, list_shutdown, Store, count, update, Process, ProcessList,
}
use qgis_scheduler.Database.Processes.{
  with_list, move_all, move_all_idle_process_from_init_to_active_list,
  move_all_process_from_active_to_shutdown_list,
}
use qgis_scheduler.Database.Projects.{get_startup_failures, reset_startup_failures}
use qgis_scheduler.Database.Moves.{of_project, move_all-count, move_all-third}
use qgis_scheduler.Manager.{Started, integrate, start_new_process_wait}

limit_cases : (n : ℕ) → (4 ≤ n) ⊎ (n < 4)
limit_cases n = grind arith

-- The list that a process of the project comes to.
abbrev pub next_list : ProcessList → ProcessList
next_list list_init = list_active
next_list list_active = list_shutdown
next_list list_shutdown = list_shutdown

abbrev pub exchanged : String → Process → Process
exchanged projname r = if str_eq r.projectname projname then with_list (next_list r.list) r else r

-- Both moves of one row.
abbrev moved_twice : String → Process → Process
moved_twice projname r =
    let once = if of_project projname list_active r then with_list list_shutdown r else r in
    if of_project projname list_init once then with_list list_active once else once

exchanged_row :
    (projname : String) (r : Process) (l : ProcessList) (mine : Bool)
    → r.list ≡ l
    → str_eq r.projectname projname ≡ mine
    → moved_twice projname r ≡ exchanged projname r
exchanged_row projname r l false e f = rw (f, f) refl
exchanged_row projname r list_init true e f = rw (f, e, f) refl
exchanged_row projname r list_active true e f = rw (f, e, f) refl
exchanged_row projname r list_shutdown true e f = rw (f, e, f) refl

exchanged_rows :
    (projname : String) (rows : List Process)
    → update
        (of_project projname list_init)
        (with_list list_active)
        (update (of_project projname list_active) (with_list list_shutdown) rows)
      ≡ map (exchanged projname) rows
exchanged_rows projname [] = refl
exchanged_rows projname (r ∷ rows) =
    ap (◌∷◌ (moved_twice projname r)) (exchanged_rows projname rows)
    ∙ ap (λ q. q ∷ map (exchanged projname) rows)
        (exchanged_row projname r r.list (str_eq r.projectname projname) refl refl)

-- Behind a start with the exchange of processes: the new row of each process, and with them the numbers
-- in the lists.
abbrev pub Exchanged : Store → Store → String → Type 0
Exchanged s after projname =
    (after.processes ≡ map (exchanged projname) s.processes)
    × (count (of_project projname list_init) after.processes ≡ 0)
    × (count (of_project projname list_active) after.processes
        ≡ count (of_project projname list_init) s.processes)
    × (count (of_project projname list_shutdown) after.processes
        ≡ count (of_project projname list_shutdown) s.processes
          + count (of_project projname list_active) s.processes)

integrate-rows :
    (s : Store) (projname : String)
    → (integrate s projname true).processes ≡ map (exchanged projname) s.processes
unfolding integrate move_all_idle_process_from_init_to_active_list
    move_all_process_from_active_to_shutdown_list reset_startup_failures move_all
integrate-rows s projname = exchanged_rows projname s.processes

integrate-Exchanged :
    (s : Store) (projname : String) → Exchanged s (integrate s projname true) projname
unfolding integrate move_all_idle_process_from_init_to_active_list
    move_all_process_from_active_to_shutdown_list reset_startup_failures
integrate-Exchanged s projname =
    let s1 = move_all s projname list_active list_shutdown in
    let s2 = reset_startup_failures s1 projname in
    let out = move_all-count s projname list_active list_shutdown refl in
    let init_kept = move_all-third s projname list_active list_shutdown list_init refl refl in
    let up = move_all-count s2 projname list_init list_active refl in
    let shut_kept = move_all-third s2 projname list_init list_active list_shutdown refl refl in
    (integrate-rows s projname, up.0, omega (arith, up.1, out.0, init_kept), shut_kept ∙ out.1)

-- `process_manager_start_new_process_wait` with the exchange of processes, for a project with a known
-- number of startup failures. From the fourth failure on it starts nothing and leaves the tables as
-- they are. With fewer it starts all that it was asked for, and what the started processes have made of
-- the tables is changed so: each of the project's processes in the init list comes to the active list,
-- each that was active comes to the shutdown list, and all other rows stay. So the init list has none of
-- the project's processes, the active list as many as were in the init list, and the shutdown list has as
-- many as it had and were active.
pub start_new_process_wait-Exchanged :
    (s joined : Store) (num failures : ℕ) (projname : String)
    → 1 ≤ num
    → get_startup_failures s projname ≡ some failures
    → ((4 ≤ failures)
        × (start_new_process_wait s joined num projname true ≡ ok (record { store = s; num = 0 })))
      ⊎ ((failures < 4)
          × (c : Started) × (start_new_process_wait s joined num projname true ≡ ok c)
          × (c.num ≡ num)
          × Exchanged joined c.store projname)
unfolding start_new_process_wait
start_new_process_wait-Exchanged s joined num failures projname h e = elim (limit_cases failures) [
  | inl many ↦ inl (many, ground (arith, e))
  | inr few ↦ inr (
    few,
    record { store = integrate joined projname true; num = num },
    ground (arith, e),
    refl,
    integrate-Exchanged joined projname,
  )
]
