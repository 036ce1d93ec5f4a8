-- ===== src/Database/Projects.antt =====
-- database.c: the functions on the table projects. A count or a descriptor of the result -1 is `none`.
use qgis_scheduler.Prelude.{
  ℕ, suc, Bool, ◌&&◌, Option, none, some, List, [], ◌∷◌, ◌++◌, map, if◌then◌else◌, String, str_eq,
  ℤ, pos, eqb_ℤ, select,
}
use qgis_scheduler.Outcome.{Outcome, ok, fault, exit_failure}
use qgis_scheduler.Database.{Project, Store, update, delete, last_of, count, any}

abbrev pub is_named : String → Project → Bool
is_named projname r = str_eq r.name projname

abbrev pub new_project : String → Project
new_project projname = record {
  name = projname;
  configpath = "";
  configbasename = "";
  watchd = pos 0;
  nr_crashs = 0;
}

-- db_add_project(): a name that the table holds ends the program.
unfoldable pub add_project : Store → String → Outcome Store
add_project s projname =
    if any (is_named projname) s.projects
    then fault exit_failure
    else ok (record s { projects = s.projects ++ (new_project projname ∷ []) })

unfoldable pub get_names_project : Store → List String
get_names_project s = map (λ r. r.name) s.projects

unfoldable pub remove_project : Store → String → Store
remove_project s projname = record s { projects = delete (is_named projname) s.projects }

abbrev pub find_project : Store → String → Option Project
find_project s projname = last_of (select (is_named projname) s.projects)

pub get_configpath_from_project : Store → String → Option String
get_configpath_from_project s projname = elim (find_project s projname) [
  | none ↦ none
  | some r ↦ some r.configpath
]

abbrev pub with_crashs : (ℕ → ℕ) → Project → Project
with_crashs f r = record r { nr_crashs = f r.nr_crashs }

unfoldable pub inc_startup_failures : Store → String → Store
inc_startup_failures s projname = record s {
  projects = update (is_named projname) (with_crashs suc) s.projects;
}

unfoldable pub get_startup_failures : Store → String → Option ℕ
get_startup_failures s projname = elim (find_project s projname) [
  | none ↦ none
  | some r ↦ some r.nr_crashs
]

unfoldable pub reset_startup_failures : Store → String → Store
reset_startup_failures s projname = record s {
  projects = update (is_named projname) (with_crashs (λ n. 0)) s.projects;
}

abbrev pub with_config : String → String → ℤ → Project → Project
with_config path basename watchd r = record r {
  configpath = path;
  configbasename = basename;
  watchd = watchd;
}

-- db_add_new_inotify_path(); basename() is the C library's.
unfoldable pub add_new_inotify_path : (String → String) → Store → String → String → ℤ → Store
add_new_inotify_path basename s projname path watchd = record s {
  projects = update (is_named projname) (with_config path (basename path) watchd) s.projects;
}

unfoldable pub get_projects_for_watchd_and_config : Store → ℤ → String → List String
get_projects_for_watchd_and_config s watchd filename =
    map (λ r. r.name)
      (select (λ r. eqb_ℤ r.watchd watchd && str_eq r.configbasename filename) s.projects)

pub get_watchd_from_config : Store → String → Option ℤ
get_watchd_from_config s path = elim (last_of (select (λ r. str_eq r.configpath path) s.projects)) [
  | none ↦ none
  | some r ↦ some r.watchd
]

pub get_watchd_from_project : Store → String → Option ℤ
get_watchd_from_project s projname = elim (find_project s projname) [
  | none ↦ none
  | some r ↦ some r.watchd
]

pub get_num_watchd_from_watchd : Store → ℤ → ℕ
get_num_watchd_from_watchd s watchd = count (λ r. eqb_ℤ r.watchd watchd) s.projects

-- The projects that share a descriptor with one of the projects of this path.
pub get_num_watchd_from_config : Store → String → ℕ
get_num_watchd_from_config s path =
    count
      (λ r. any (λ q. eqb_ℤ q.watchd r.watchd) (select (λ q. str_eq q.configpath path) s.projects))
      s.projects

unfoldable pub remove_inotify_path : Store → String → Store
remove_inotify_path s projname = record s {
  projects = update (is_named projname) (with_config "" "" (pos 0)) s.projects;
}
