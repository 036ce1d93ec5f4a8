-- ===== src/Projects.antt =====
-- project_manager.c: the shutdown of a project, with qgis_inotify_delete_watch() of qgis_inotify.c.
pub mod Shut
pub mod Start
pub mod Effects
pub mod Keeps
pub mod Missing
pub mod Reload
pub mod Restarts
pub mod Resets
pub mod Watch
use qgis_scheduler.Prelude.{ℕ, Bool, Option, none, some, leb, if◌then◌else◌, String, ℤ, pos, ltb_ℤ}
use qgis_scheduler.Outcome.{Outcome, ok, fault, exit_failure, ◌>>=◌}
use qgis_scheduler.Database.{Store}
use qgis_scheduler.Database.Processes.{
  move_all_process_from_init_to_shutdown_list, move_all_process_from_active_to_shutdown_list,
}
use qgis_scheduler.Database.Projects.{
  get_watchd_from_project, get_num_watchd_from_watchd, remove_inotify_path, remove_project,
}

-- The tables, and the watch that inotify_rm_watch() was called for.
pub record Unwatched : Type 0 where
  pub store : Store
  pub removed : Option ℤ

-- The part for a watch descriptor above 0; `rm_watch` tells whether inotify_rm_watch() succeeds.
unfoldable pub remove_watch : (ℤ → Bool) → Store → String → ℤ → Outcome Unwatched
remove_watch rm_watch s projname watchd =
    if leb (get_num_watchd_from_watchd s watchd) 1
    then (if rm_watch watchd
        then ok (record { store = remove_inotify_path s projname; removed = some watchd })
        else fault exit_failure)
    else ok (record { store = remove_inotify_path s projname; removed = none })

-- qgis_inotify_delete_watch()
unfoldable pub delete_watch : (ℤ → Bool) → Store → String → Outcome Unwatched
delete_watch rm_watch s projname = elim (get_watchd_from_project s projname) [
  | none ↦ ok (record { store = s; removed = none })
  | some watchd ↦
      if ltb_ℤ (pos 0) watchd
      then remove_watch rm_watch s projname watchd
      else ok (record { store = s; removed = none })
]

-- project_manager_shutdown_project()
unfoldable pub shutdown_project : (ℤ → Bool) → Store → String → Outcome Unwatched
shutdown_project rm_watch s projname = do
  u ← delete_watch rm_watch s projname
  let s1 = move_all_process_from_init_to_shutdown_list u.store projname
  let s2 = move_all_process_from_active_to_shutdown_list s1 projname
  ok (record { store = remove_project s2 projname; removed = u.removed })
