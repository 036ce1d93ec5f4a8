-- ===== src/Projects/Start.antt =====
-- project_manager.c: the start and restart of projects, and what a new configuration does to them; and
-- qgis_inotify.c: the watch of a project's configuration file. A start in a thread of its own is an
-- entry of the list of starts.
use qgis_scheduler.Prelude.{
  Bool, true, false, ◌||◌, Option, none, some, List, [], ◌∷◌, ◌++◌, if◌then◌else◌, String, ℤ, pos,
  ◌-ℤ◌, ltb_ℤ, contains,
}
use qgis_scheduler.Outcome.{Outcome, ok, fault, exit_failure, ◌>>=◌}
use qgis_scheduler.Config.{Dictionary, Pointer, null, invalid_string, text}
use qgis_scheduler.Config.Values.{config_get_min_idle_processes, config_get_project_config_path}
use qgis_scheduler.Database.{Store}
use qgis_scheduler.Database.Processes.{get_num_active_process, get_num_start_init_idle_process}
use qgis_scheduler.Database.Projects.{
  add_project, add_new_inotify_path, reset_startup_failures, get_names_project,
  get_projects_for_watchd_and_config,
}
use qgis_scheduler.Projects.{shutdown_project}

-- The result of stat(): a regular file, another file, an errno for which the file is not watched, or
-- an errno that ends the program.
pub data Stat : Type 0 where
  regular_file other_file not_accessible stat_failed : Stat

-- The C library and the kernel. `add_watch` is `none` where inotify_add_watch() fails, and `rm_watch`
-- tells whether inotify_rm_watch() succeeds.
pub record Files : Type 0 where
  pub stat : String → Stat
  pub dirname : String → String
  pub basename : String → String
  pub add_watch : String → Option ℤ
  pub rm_watch : ℤ → Bool

-- One call of a function that starts `num` processes, with or without an exchange of the old ones.
pub record Start : Type 0 where
  pub num : ℤ
  pub projname : String
  pub do_exchange_processes : Bool

-- The tables, and the starts in order.
pub record Managed : Type 0 where
  pub store : Store
  pub starts : List Start

-- qgis_inotify_watch_file()
unfoldable pub watch_file : Files → Store → String → String → Outcome Store
watch_file files s projectname path = elim (files.stat path) [
  | not_accessible ↦ ok s
  | stat_failed ↦ fault exit_failure
  | other_file ↦ ok s
  | regular_file ↦ elim (files.add_watch (files.dirname path)) [
    | none ↦ fault exit_failure
    | some watchd ↦ ok (add_new_inotify_path files.basename s projectname path watchd)
  ]
]

-- The part for a path that is given; stat() refuses INVALID_STRING with EFAULT.
unfoldable pub watch_config : Files → Store → String → Pointer → Outcome Store
unfolding watch_file
watch_config files s projname null = ok s
watch_config files s projname invalid_string = ok s
watch_config files s projname (text configpath) = watch_file files s projname configpath

-- project_manager_start_project()
unfoldable pub start_project : Files → Dictionary → Store → String → Outcome Managed
unfolding watch_config
start_project files d s projname = do
  added ← add_project s projname
  watched ← watch_config files added projname (config_get_project_config_path d (some projname))
  let start : Start = record {
    num = config_get_min_idle_processes d (some projname);
    projname = projname;
    do_exchange_processes = false;
  }
  ok (record { store = watched; starts = start ∷ [] })

-- project_manager_restart_project()
unfoldable pub restart_project : Files → Dictionary → Store → String → Outcome Managed
unfolding start_project
restart_project files d s proj = do
  u ← shutdown_project files.rm_watch s proj
  start_project files d u.store proj

-- project_manager_restart_processes()
unfoldable pub restart_processes : Dictionary → Store → String → Start
restart_processes d s proj_name =
    let minproc = config_get_min_idle_processes d (some proj_name) in
    let activeproc = pos (get_num_active_process s proj_name) in
    record {
      num = if ltb_ℤ activeproc minproc then minproc else activeproc;
      projname = proj_name;
      do_exchange_processes = true;
    }

-- project_manager_projectname_configfile_changed()
unfoldable pub configfile_changed : Dictionary → Store → String → Managed
unfolding restart_processes
configfile_changed d s projname =
    let reset = reset_startup_failures s projname in
    record { store = reset; starts = restart_processes d reset projname ∷ [] }

-- The loop of project_manager_shutdown(), and that for the deleted projects.
unfoldable pub shutdown_projects : Files → Store → List String → Outcome Store
shutdown_projects files s [] = ok s
shutdown_projects files s (proj ∷ rest) = do
  u ← shutdown_project files.rm_watch s proj
  shutdown_projects files u.store rest

-- project_manager_shutdown()
unfoldable pub shutdown : Files → Store → Outcome Store
unfolding shutdown_projects
shutdown files s = shutdown_projects files s (get_names_project s)

-- The loops that restart or start one project after the other.
unfoldable pub each_project :
    (Store → String → Outcome Managed) → Store → List String → Outcome Managed
each_project action s [] = ok (record { store = s; starts = [] })
each_project action s (proj ∷ rest) = do
  m ← action s proj
  r ← each_project action m.store rest
  ok (record { store = r.store; starts = m.starts ++ r.starts })

-- An array of names that is NULL or ends with NULL, as a loop reads it.
abbrev pub names_of : Option (List String) → List String
names_of none = []
names_of (some names) = names

abbrev pub is_handled :
    Option (List String) → Option (List String) → Option (List String) → String → Bool
is_handled newproj changedproj deletedproj projname =
    contains projname (names_of deletedproj)
    || (contains projname (names_of changedproj) || contains projname (names_of newproj))

-- What is started for a project whose section has not changed.
unfoldable pub missing_start : Dictionary → Store → String → List Start
missing_start d s projname =
    let projprocnum = config_get_min_idle_processes d (some projname) in
    let aktprocnum = pos (get_num_start_init_idle_process s projname) in
    if ltb_ℤ aktprocnum projprocnum
    then record {
      num = projprocnum -ℤ aktprocnum;
      projname = projname;
      do_exchange_processes = false;
    }
      ∷ []
    else []

-- The loop over the projects of the configuration.
unfoldable pub missing_starts : Dictionary → Store → (String → Bool) → List String → List Start
unfolding missing_start
missing_starts d s handled [] = []
missing_starts d s handled (projname ∷ rest) =
    let later = missing_starts d s handled rest in
    if handled projname then later else missing_start d s projname ++ later

-- project_manager_manage_project_changes()
unfoldable pub manage_project_changes :
    Files
    → Dictionary
    → Store
    → Option (List String)
    → Option (List String)
    → Option (List String)
    → Outcome Managed
unfolding shutdown_projects each_project missing_starts
manage_project_changes files d s newproj changedproj deletedproj = do
  s1 ← shutdown_projects files s (names_of deletedproj)
  m2 ← each_project (restart_project files d) s1 (names_of changedproj)
  m3 ← each_project (start_project files d) m2.store (names_of newproj)
  let missing = missing_starts d m3.store (is_handled newproj changedproj deletedproj) d.secnames
  ok (record { store = m3.store; starts = m2.starts ++ (m3.starts ++ missing) })

-- The masks of struct inotify_event that inotify_thread_watch() tells apart.
pub data Mask : Type 0 where
  in_close_write in_delete in_moved_to in_ignored other_mask : Mask

pub record InotifyEvent : Type 0 where
  pub wd : ℤ
  pub mask : Mask
  pub name : String

-- The loop of inotify_check_watchlist_for_watch().
unfoldable pub changed_projects : Dictionary → Store → List String → Managed
unfolding configfile_changed
changed_projects d s [] = record { store = s; starts = [] }
changed_projects d s (projname ∷ rest) =
    let m = configfile_changed d s projname in
    let r = changed_projects d m.store rest in
    record { store = r.store; starts = m.starts ++ r.starts }

unfoldable pub check_watchlist_for_watch : Dictionary → Store → InotifyEvent → Managed
unfolding changed_projects
check_watchlist_for_watch d s event =
    changed_projects d s (get_projects_for_watchd_and_config s event.wd event.name)

abbrev pub is_change : Mask → Bool
is_change in_close_write = true
is_change in_moved_to = true
is_change _ = false

-- The events of one read() of inotify_thread_watch(); the flag tells whether the thread ends.
pub record Watched : Type 0 where
  pub managed : Managed
  pub ends : Bool

abbrev pub is_ignored : Mask → Bool
is_ignored in_ignored = true
is_ignored _ = false

unfoldable pub inotify_events :
    (program_shutdown : Bool) → Dictionary → Store → List InotifyEvent → Watched
unfolding check_watchlist_for_watch
inotify_events program_shutdown d s [] = record {
  managed = record { store = s; starts = [] };
  ends = false;
}
inotify_events program_shutdown d s (event ∷ rest) =
    let m =
      if is_change event.mask
      then check_watchlist_for_watch d s event
      else record { store = s; starts = [] } in
    let r = inotify_events program_shutdown d m.store rest in
    if is_ignored event.mask
    then (if program_shutdown then record { managed = m; ends = true } else r)
    else record {
      managed = record { store = r.managed.store; starts = m.starts ++ r.managed.starts };
      ends = r.ends;
    }
