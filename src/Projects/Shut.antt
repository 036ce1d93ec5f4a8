-- ===== src/Projects/Shut.antt =====
-- project_manager_shutdown_project(): what is left of a project.
use qgis_scheduler.Prelude.{
  map, ◌+◌, ◌≤◌, ◌≡◌, refl, ap, ◌∙◌, Bool, Bool-cases, true, inl, inr, Option-cases, none, some,
  arith, leb, String, str_eq, eq_iff, contains, not, ◌&&◌, ℤ, pos, ltb_ℤ, select, List, [], ◌∷◌,
}
use qgis_scheduler.Outcome.{ok}
use qgis_scheduler.Database.{
  Process, Project, list_init, list_active, list_shutdown, Store, count, delete, update,
}
use qgis_scheduler.Database.Processes.{
  in_list, move_all, move_all_process_from_init_to_shutdown_list,
  move_all_process_from_active_to_shutdown_list,
}
use qgis_scheduler.Database.Projects.{
  is_named, with_config, add_new_inotify_path, get_names_project, get_watchd_from_project,
  get_num_watchd_from_watchd, remove_inotify_path, remove_project,
}
use qgis_scheduler.Database.Moves.{of_project, of_others, move_all-count, move_all-third}
use qgis_scheduler.Projects.{Unwatched, remove_watch, delete_watch, shutdown_project}

names_with_config :
    (projname path basename : String) (watchd : ℤ) (rows : List Project)
    → map (λ r. r.name) (update (is_named projname) (with_config path basename watchd) rows)
      ≡ map (λ r. r.name) rows
names_with_config projname path basename watchd [] = refl
names_with_config projname path basename watchd (r ∷ rows) =
    elim (Bool-cases (is_named projname r)) [
      | inl e ↦ rw e (ap (◌∷◌ r.name) (names_with_config projname path basename watchd rows))
      | inr e ↦ rw e (ap (◌∷◌ r.name) (names_with_config projname path basename watchd rows))
    ]

pub names-add_new_inotify_path :
    (basename : String → String) (s : Store) (projname path : String) (watchd : ℤ)
    → get_names_project (add_new_inotify_path basename s projname path watchd) ≡ get_names_project s
unfolding add_new_inotify_path get_names_project
names-add_new_inotify_path basename s projname path watchd =
    names_with_config projname path (basename path) watchd s.projects

-- A watch is removed only if no second project has its descriptor; names and processes stay.
abbrev pub Unwatches : Store → Unwatched → Type 0
Unwatches s u =
    (get_names_project u.store ≡ get_names_project s)
    × (u.store.processes ≡ s.processes)
    × ((watchd : ℤ) → u.removed ≡ some watchd → get_num_watchd_from_watchd s watchd ≤ 1)

remove_watch-Unwatches :
    (rm_watch : ℤ → Bool) (s : Store) (projname : String) (watchd : ℤ)
    → ((w : ℤ) → rm_watch w ≡ true)
    → (u : Unwatched) × (remove_watch rm_watch s projname watchd ≡ ok u) × Unwatches s u
unfolding remove_watch remove_inotify_path get_names_project
remove_watch-Unwatches rm_watch s projname watchd succeeds =
    elim (Bool-cases (leb (get_num_watchd_from_watchd s watchd) 1)) [
      | inl few ↦ (
        record { store = remove_inotify_path s projname; removed = some watchd },
        rw (few, succeeds watchd),
        (names_with_config projname "" "" (pos 0) s.projects, refl, λ w e. ground (arith, few, e)),
      )
      | inr more ↦ (
        record { store = remove_inotify_path s projname; removed = none },
        rw more,
        (
          names_with_config projname "" "" (pos 0) s.projects,
          refl,
          λ w e. absurd (ground (arith, e)),
        ),
      )
    ]

delete_watch-Unwatches :
    (rm_watch : ℤ → Bool) (s : Store) (projname : String)
    → ((w : ℤ) → rm_watch w ≡ true)
    → (u : Unwatched) × (delete_watch rm_watch s projname ≡ ok u) × Unwatches s u
unfolding delete_watch
delete_watch-Unwatches rm_watch s projname succeeds =
    elim (Option-cases (get_watchd_from_project s projname)) [
      | inl e ↦ (
        record { store = s; removed = none },
        rw (delete_watch, e),
        (refl, refl, λ w f. absurd (ground (arith, f))),
      )
      | inr found ↦ elim (Bool-cases (ltb_ℤ (pos 0) found.0)) [
        | inl positive ↦
            let (u, ran, good) = remove_watch-Unwatches rm_watch s projname found.0 succeeds in
            (u, rw (delete_watch, found.1, positive) ran, good)
        | inr other ↦ (
          record { store = s; removed = none },
          rw (delete_watch, found.1, other),
          (refl, refl, λ w f. absurd (ground (arith, f))),
        )
      ]
    ]

contains-delete :
    (projname n : String) (rows : List Project)
    → contains n (map (λ r. r.name) (delete (is_named projname) rows))
      ≡ (contains n (map (λ r. r.name) rows) && not (str_eq projname n))
contains-delete projname n [] = refl
contains-delete projname n (r ∷ rows) =
    let rest = contains-delete projname n rows in
    ground (arith, rest, eq_iff r.name projname, eq_iff r.name n, eq_iff projname n)

-- The rows of one project, and that none of them is in the init list or the active list.
abbrev pub rows_of : String → Store → List Process
rows_of projname s = select (λ r. str_eq r.projectname projname) s.processes

abbrev pub IsCleared : String → Store → Type 0
IsCleared projname s =
    (count (in_list list_init) (rows_of projname s) ≡ 0)
    × (count (in_list list_active) (rows_of projname s) ≡ 0)

-- If inotify_rm_watch() succeeds, `project_manager_shutdown_project` takes the project out of the table
-- of the
-- projects' names and puts all of its processes that are in the init list or the active list into the
-- shutdown list. The rows of other projects' processes stay as they are, and the project's watch is
-- removed only if no second project has it.
pub shutdown_project-Unwatches :
    (rm_watch : ℤ → Bool) (s : Store) (projname : String)
    → ((w : ℤ) → rm_watch w ≡ true)
    → (u : Unwatched) × (shutdown_project rm_watch s projname ≡ ok u)
      × ((n : String)
          → contains n (get_names_project u.store)
            ≡ (contains n (get_names_project s) && not (str_eq projname n)))
      × (count (of_project projname list_init) u.store.processes ≡ 0)
      × (count (of_project projname list_active) u.store.processes ≡ 0)
      × (count (of_project projname list_shutdown) u.store.processes
          ≡ count (of_project projname list_shutdown) s.processes
            + count (of_project projname list_init) s.processes
            + count (of_project projname list_active) s.processes)
      × (select (of_others projname) u.store.processes ≡ select (of_others projname) s.processes)
      × ((w : ℤ) → u.removed ≡ some w → get_num_watchd_from_watchd s w ≤ 1)
unfolding shutdown_project remove_project get_names_project move_all
    move_all_process_from_init_to_shutdown_list move_all_process_from_active_to_shutdown_list
shutdown_project-Unwatches rm_watch s projname succeeds =
    let (v, ran, good) = delete_watch-Unwatches rm_watch s projname succeeds in
    let (names, same, few) = good in
    let s1 = move_all v.store projname list_init list_shutdown in
    let s2 = move_all s1 projname list_active list_shutdown in
    let (i0, sh1, o1) = move_all-count v.store projname list_init list_shutdown refl in
    let a1 = move_all-third v.store projname list_init list_shutdown list_active refl refl in
    let (a0, sh2, o2) = move_all-count s1 projname list_active list_shutdown refl in
    let i2 = move_all-third s1 projname list_active list_shutdown list_init refl refl in
    (
      record { store = remove_project s2 projname; removed = v.removed },
      rw ran,
      λ n.
          contains-delete projname n s2.projects
          ∙ ap (λ ns. contains n ns && not (str_eq projname n)) names,
      i2 ∙ i0,
      a0,
      omega (
        arith,
        sh2,
        sh1,
        a1,
        ap (λ rows. count (of_project projname list_shutdown) rows) same,
        ap (λ rows. count (of_project projname list_init) rows) same,
        ap (λ rows. count (of_project projname list_active) rows) same,
      ),
      o2 ∙ o1 ∙ ap (select (of_others projname)) same,
      few,
    )
