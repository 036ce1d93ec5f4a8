-- ===== src/Projects/Keeps.antt =====
-- project_manager.c: what it does with projects keeps the tables well-formed.
use qgis_scheduler.Prelude.{
  ◌≡◌, refl, Bool, inl, inr, Option-cases, Option, none, some, List, [], ◌∷◌, leb, String, ℤ, pos,
  ltb_ℤ,
}
use qgis_scheduler.Outcome.{Outcome, Ensures, if-Ensures, bind-Ensures, Outcome-cases}
use qgis_scheduler.Config.{Dictionary, Pointer, null, invalid_string, text}
use qgis_scheduler.Config.Values.{config_get_project_config_path}
use qgis_scheduler.Database.{Store, list_init, list_active, list_shutdown}
use qgis_scheduler.Database.Invariant.{
  WellFormed, Step-WellFormed, moves_project, adds_project, removes_project, adds_path,
  removes_path,
}
use qgis_scheduler.Database.Processes.{
  move_all_process_from_init_to_shutdown_list, move_all_process_from_active_to_shutdown_list,
}
use qgis_scheduler.Database.Projects.{
  get_watchd_from_project, get_num_watchd_from_watchd, add_project,
}
use qgis_scheduler.Projects.{Unwatched, remove_watch, delete_watch, shutdown_project}
use qgis_scheduler.Projects.Start.{
  Files, Managed, Stat, stat_failed, regular_file, other_file, not_accessible, watch_file,
  watch_config, start_project, restart_project, shutdown_projects, each_project, names_of,
  manage_project_changes,
}

abbrev KeepsUnwatched : Outcome Unwatched → Type 0
KeepsUnwatched = Ensures (λ u. WellFormed u.store)

abbrev KeepsStore : Outcome Store → Type 0
KeepsStore = Ensures WellFormed

abbrev KeepsManaged : Outcome Managed → Type 0
KeepsManaged = Ensures (λ m. WellFormed m.store)

delete_watch-Keeps :
    (rm_watch : ℤ → Bool) (s : Store) (projname : String)
    → WellFormed s
    → KeepsUnwatched (delete_watch rm_watch s projname)
unfolding delete_watch remove_watch
delete_watch-Keeps rm_watch s projname w =
    elim (Option-cases (get_watchd_from_project s projname)) [
      | inl e ↦ rw (delete_watch, e) w
      | inr (watchd, e) ↦
          let gone = Step-WellFormed (removes_path projname) w in
          rw (delete_watch, e)
            (if-Ensures (λ u. WellFormed u.store) (ltb_ℤ (pos 0) watchd) _ _
              (if-Ensures (λ u. WellFormed u.store) (leb (get_num_watchd_from_watchd s watchd) 1) _
                _ (if-Ensures (λ u. WellFormed u.store) (rm_watch watchd) _ _ gone tt) gone)
              w)
    ]

shutdown_project-Keeps :
    (rm_watch : ℤ → Bool) (s : Store) (projname : String)
    → WellFormed s
    → KeepsUnwatched (shutdown_project rm_watch s projname)
unfolding shutdown_project move_all_process_from_init_to_shutdown_list
    move_all_process_from_active_to_shutdown_list
shutdown_project-Keeps rm_watch s projname w =
    bind-Ensures (λ u. WellFormed u.store) (λ u. WellFormed u.store)
      (delete_watch rm_watch s projname) _ (delete_watch-Keeps rm_watch s projname w)
      λ u v. Step-WellFormed (removes_project projname) (
        Step-WellFormed (moves_project projname list_active list_shutdown)
          (Step-WellFormed (moves_project projname list_init list_shutdown) v))

pub shutdown_projects-Keeps :
    (files : Files) (s : Store) (ps : List String)
    → WellFormed s
    → KeepsStore (shutdown_projects files s ps)
unfolding shutdown_projects
shutdown_projects-Keeps files s [] w = w
shutdown_projects-Keeps files s (p ∷ ps) w =
    bind-Ensures (λ u. WellFormed u.store) WellFormed (shutdown_project files.rm_watch s p) _
      (shutdown_project-Keeps files.rm_watch s p w)
      λ u v. shutdown_projects-Keeps files u.store ps v

add_project-Keeps :
    (s : Store) (projname : String) → WellFormed s → KeepsStore (add_project s projname)
add_project-Keeps s projname w = elim (Outcome-cases (add_project s projname)) [
  | inl (s', e) ↦ rw e (Step-WellFormed (adds_project projname e) w)
  | inr (why, e) ↦ rw e tt
]

watch_file-Keeps :
    (files : Files) (s : Store) (projname path : String) (stat : Stat) (watch : Option ℤ)
    → files.stat path ≡ stat
    → files.add_watch (files.dirname path) ≡ watch
    → WellFormed s
    → KeepsStore (watch_file files s projname path)
unfolding watch_file
watch_file-Keeps files s projname path not_accessible watch e f w = rw (watch_file, e) w
watch_file-Keeps files s projname path stat_failed watch e f w = rw (watch_file, e) tt
watch_file-Keeps files s projname path other_file watch e f w = rw (watch_file, e) w
watch_file-Keeps files s projname path regular_file none e f w = rw (watch_file, e, f) tt
watch_file-Keeps files s projname path regular_file (some watchd) e f w =
    rw (watch_file, e, f) (Step-WellFormed (adds_path files.basename projname path watchd) w)

watch_config-Keeps :
    (files : Files) (s : Store) (projname : String) (path : Pointer)
    → WellFormed s
    → KeepsStore (watch_config files s projname path)
unfolding watch_config
watch_config-Keeps files s projname null w = w
watch_config-Keeps files s projname invalid_string w = w
watch_config-Keeps files s projname (text path) w =
    watch_file-Keeps files s projname path (files.stat path) (files.add_watch (files.dirname path))
      refl refl w

start_project-Keeps :
    (files : Files) (d : Dictionary) (s : Store) (projname : String)
    → WellFormed s
    → KeepsManaged (start_project files d s projname)
unfolding start_project
start_project-Keeps files d s projname w =
    bind-Ensures WellFormed (λ m. WellFormed m.store) (add_project s projname) _
      (add_project-Keeps s projname w)
      λ added v.
        bind-Ensures WellFormed (λ m. WellFormed m.store)
          (watch_config files added projname (config_get_project_config_path d (some projname))) _
          (watch_config-Keeps files added projname _ v) λ watched v'. v'

restart_project-Keeps :
    (files : Files) (d : Dictionary) (s : Store) (projname : String)
    → WellFormed s
    → KeepsManaged (restart_project files d s projname)
unfolding restart_project
restart_project-Keeps files d s projname w =
    bind-Ensures (λ u. WellFormed u.store) (λ m. WellFormed m.store)
      (shutdown_project files.rm_watch s projname) _
      (shutdown_project-Keeps files.rm_watch s projname w)
      λ u v. start_project-Keeps files d u.store projname v

each_project-Keeps :
    (action : Store → String → Outcome Managed) (s : Store) (ps : List String)
    → ((s : Store) (p : String) → WellFormed s → KeepsManaged (action s p))
    → WellFormed s
    → KeepsManaged (each_project action s ps)
unfolding each_project
each_project-Keeps action s [] keeps w = w
each_project-Keeps action s (p ∷ ps) keeps w =
    bind-Ensures (λ m. WellFormed m.store) (λ m. WellFormed m.store) (action s p) _ (keeps s p w)
      λ m v.
        bind-Ensures (λ m. WellFormed m.store) (λ m. WellFormed m.store)
          (each_project action m.store ps) _ (each_project-Keeps action m.store ps keeps v)
          λ r v'. v'

-- Whatever the lists of sections and the calls on files, the reaction to a changed configuration keeps the
-- tables well-formed, if it returns.
pub manage_project_changes-Keeps :
    (files : Files) (d : Dictionary) (s : Store)
    (newproj changedproj deletedproj : Option (List String))
    → WellFormed s
    → KeepsManaged (manage_project_changes files d s newproj changedproj deletedproj)
unfolding manage_project_changes
manage_project_changes-Keeps files d s newproj changedproj deletedproj w =
    bind-Ensures WellFormed (λ m. WellFormed m.store)
      (shutdown_projects files s (names_of deletedproj)) _
      (shutdown_projects-Keeps files s (names_of deletedproj) w)
      λ s1 w1.
        bind-Ensures (λ m. WellFormed m.store) (λ m. WellFormed m.store)
          (each_project (restart_project files d) s1 (names_of changedproj)) _
          (each_project-Keeps (restart_project files d) s1 (names_of changedproj)
            (restart_project-Keeps files d) w1)
          λ m2 w2.
            bind-Ensures (λ m. WellFormed m.store) (λ m. WellFormed m.store)
              (each_project (start_project files d) m2.store (names_of newproj)) _
              (each_project-Keeps (start_project files d) m2.store (names_of newproj)
                (start_project-Keeps files d) w2)
              λ m3 w3. w3
