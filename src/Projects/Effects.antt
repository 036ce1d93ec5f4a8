-- ===== src/Projects/Effects.antt =====
-- project_manager.c: what the shutdown, restart and start of projects, one after the other, leave of the tables.
use qgis_scheduler.Prelude.{
  ◌≡◌, refl, sym, ap, ◌∙◌, subst, Bool, true, false, not, ◌&&◌, ◌||◌, some, List, [], ◌∷◌, ◌++◌,
  map, arith, select, String, str_eq, eq_iff, eq_refl, ℤ, contains, AllDifferent, Bool-cases, inl,
  inr,
}
use qgis_scheduler.Outcome.{ok}
use qgis_scheduler.Config.{Dictionary, Pointer, text, null, invalid_string}
use qgis_scheduler.Config.Values.{config_get_min_idle_processes, config_get_project_config_path}
use qgis_scheduler.Database.{
  Process, ProcessList, Project, Store, list_init, list_active, count, any,
}
use qgis_scheduler.Database.Moves.{of_project, of_others}
use qgis_scheduler.Database.Processes.{in_list}
use qgis_scheduler.Database.Projects.{
  is_named, get_names_project, add_project, new_project, add_new_inotify_path,
}
use qgis_scheduler.Projects.{Unwatched, shutdown_project}
use qgis_scheduler.Projects.Shut.{
  rows_of, IsCleared, shutdown_project-Unwatches, names-add_new_inotify_path,
}
use qgis_scheduler.Projects.Start.{
  Files, Start, Managed, Stat, stat_failed, regular_file, other_file, not_accessible, watch_file,
  watch_config, start_project, restart_project, shutdown_projects, each_project,
}

abbrev pub is_known : String → Store → Bool
is_known projname s = contains projname (get_names_project s)

any-named :
    (projname : String) (rows : List Project)
    → any (is_named projname) rows ≡ contains projname (map (λ r. r.name) rows)
any-named projname [] = refl
any-named projname (r ∷ rows) = ground (arith, any-named projname rows)

count-of_project :
    (projname : String) (list : ProcessList) (rows : List Process)
    → count (in_list list) (select (λ r. str_eq r.projectname projname) rows)
      ≡ count (of_project projname list) rows
count-of_project projname list [] = refl
count-of_project projname list (r ∷ rows) = ground (arith, count-of_project projname list rows)

rows_of-others :
    (projname n : String) (rows : List Process)
    → str_eq projname n ≡ false
    → select (λ r. str_eq r.projectname n) (select (of_others projname) rows)
      ≡ select (λ r. str_eq r.projectname n) rows
rows_of-others projname n [] h = refl
rows_of-others projname n (r ∷ rows) h = ground (
  arith,
  rows_of-others projname n rows h,
  eq_iff r.projectname projname,
  eq_iff r.projectname n,
  eq_iff projname n,
)

-- What the shutdown of these projects does to the tables.
pub record Removes (ps : List String) (s s' : Store) : Type 0 where
  pub names : (n : String) → is_known n s' ≡ (is_known n s && not (contains n ps))
  pub others : (n : String) → contains n ps ≡ false → rows_of n s' ≡ rows_of n s
  pub cleared : (n : String) → contains n ps ≡ true → IsCleared n s'

pub shutdown_project-Removes :
    (rm_watch : ℤ → Bool) (s : Store) (projname : String)
    → ((w : ℤ) → rm_watch w ≡ true)
    → (u : Unwatched) × (shutdown_project rm_watch s projname ≡ ok u)
      × Removes (projname ∷ []) s u.store
unfolding shutdown_project
shutdown_project-Removes rm_watch s projname succeeds =
    let (u, ran, gone, no_init, no_active, _, apart, _) =
      shutdown_project-Unwatches rm_watch s projname succeeds in
    (
      u,
      ran,
      record {
        names = λ n. ground (arith, gone n);
        others = λ n e.
            sym (rows_of-others projname n u.store.processes (ground arith))
            ∙ ap (select (λ r. str_eq r.projectname n)) apart
            ∙ rows_of-others projname n s.processes (ground arith);
        cleared = λ n e.
            let same : projname ≡ n = (eq_iff projname n).0 (ground arith) in
            subst (λ m. IsCleared m u.store) same
              (
                count-of_project projname list_init u.store.processes ∙ no_init,
                count-of_project projname list_active u.store.processes ∙ no_active,
              );
      },
    )

pub shutdown_projects-Removes :
    (files : Files) (s : Store) (ps : List String)
    → ((w : ℤ) → files.rm_watch w ≡ true)
    → (s' : Store) × (shutdown_projects files s ps ≡ ok s') × Removes ps s s'
unfolding shutdown_projects
shutdown_projects-Removes files s [] succeeds = (
  s,
  refl,
  record {
    names = λ n. ground arith;
    others = λ n e. refl;
    cleared = λ n e. absurd (ground arith);
  },
)
shutdown_projects-Removes files s (p ∷ ps) succeeds =
    let (u, ran, first) = shutdown_project-Removes files.rm_watch s p succeeds in
    let (s', ran', later) = shutdown_projects-Removes files u.store ps succeeds in
    (
      s',
      rw (shutdown_projects, ran) ran',
      record {
        names = λ n. ground (arith, first.names n, later.names n);
        others = λ n e. later.others n (ground arith) ∙ first.others n (ground arith);
        cleared = λ n e. elim (Bool-cases (contains n ps)) [
          | inl again ↦ later.cleared n again
          | inr last ↦ rw (later.others n last) (first.cleared n (ground arith))
        ];
      },
    )

-- stat() and the watches of inotify do not end the program.
abbrev is_failed : Stat → Bool
is_failed stat_failed = true
is_failed _ = false

pub record Works (files : Files) : Type 0 where
  pub stats : (path : String) → is_failed (files.stat path) ≡ false
  pub adds : (directory : String) → (w : ℤ) × (files.add_watch directory ≡ some w)
  pub removes : (w : ℤ) → files.rm_watch w ≡ true

-- The start of a project with all its processes, without an exchange.
abbrev pub whole_start : Dictionary → String → Start
whole_start d projname = record {
  num = config_get_min_idle_processes d (some projname);
  projname = projname;
  do_exchange_processes = false;
}

-- Watching a file changes neither the names nor the processes.
abbrev IsWatch : Store → Store → Type 0
IsWatch s s' = (get_names_project s' ≡ get_names_project s) × (s'.processes ≡ s.processes)

watch_file-IsWatch :
    (files : Files) (s : Store) (projname path : String)
    → Works files
    → (s' : Store) × (watch_file files s projname path ≡ ok s') × IsWatch s s'
unfolding watch_file add_new_inotify_path
watch_file-IsWatch files s projname path works = by_cases (files.stat path) refl
  where
    by_cases :
        (st : Stat)
        → files.stat path ≡ st
        → (s' : Store) × (watch_file files s projname path ≡ ok s') × IsWatch s s'
    by_cases not_accessible e = (s, rw (watch_file, e) refl, (refl, refl))
    by_cases other_file e = (s, rw (watch_file, e) refl, (refl, refl))
    by_cases stat_failed e = absurd (ground (arith, works.stats path, e))
    by_cases regular_file e =
        let (w, added) = works.adds (files.dirname path) in
        (
          add_new_inotify_path files.basename s projname path w,
          rw (watch_file, e, added) refl,
          (names-add_new_inotify_path files.basename s projname path w, refl),
        )

watch_config-IsWatch :
    (files : Files) (s : Store) (projname : String) (path : Pointer)
    → Works files
    → (s' : Store) × (watch_config files s projname path ≡ ok s') × IsWatch s s'
unfolding watch_config
watch_config-IsWatch files s projname null works = (s, refl, (refl, refl))
watch_config-IsWatch files s projname invalid_string works = (s, refl, (refl, refl))
watch_config-IsWatch files s projname (text path) works =
    watch_file-IsWatch files s projname path works

-- What the start of these projects does to the tables, and what is started.
pub record Adds (d : Dictionary) (ps : List String) (s : Store) (m : Managed) : Type 0 where
  pub names : (n : String) → is_known n m.store ≡ (is_known n s || contains n ps)
  pub processes : m.store.processes ≡ s.processes
  pub starts : m.starts ≡ map (whole_start d) ps

names-snoc :
    (n projname : String) (rows : List Project)
    → contains n (map (λ r. r.name) (rows ++ (new_project projname ∷ [])))
      ≡ (contains n (map (λ r. r.name) rows) || (str_eq projname n || false))
names-snoc n projname [] = refl
names-snoc n projname (r ∷ rows) = ground (arith, names-snoc n projname rows)

pub start_project-Adds :
    (files : Files) (d : Dictionary) (s : Store) (projname : String)
    → Works files
    → is_known projname s ≡ false
    → (m : Managed) × (start_project files d s projname ≡ ok m) × Adds d (projname ∷ []) s m
unfolding start_project add_project get_names_project
start_project-Adds files d s projname works fresh =
    let absent : any (is_named projname) s.projects ≡ false =
      any-named projname s.projects ∙ fresh in
    let added = record s { projects = s.projects ++ (new_project projname ∷ []) } in
    let (s', ran, (names, same)) =
      watch_config-IsWatch files added projname (config_get_project_config_path d (some projname))
        works in
    (
      record { store = s'; starts = whole_start d projname ∷ [] },
      rw (start_project, add_project, absent, ran) refl,
      record {
        names = λ n. ap (contains n) names ∙ names-snoc n projname s.projects;
        processes = same;
        starts = refl;
      },
    )

-- What the restart of these projects does.
pub record Restarts (d : Dictionary) (ps : List String) (s : Store) (m : Managed) : Type 0 where
  pub names : (n : String) → is_known n m.store ≡ (is_known n s || contains n ps)
  pub others : (n : String) → contains n ps ≡ false → rows_of n m.store ≡ rows_of n s
  pub cleared : (n : String) → contains n ps ≡ true → IsCleared n m.store
  pub starts : m.starts ≡ map (whole_start d) ps

pub restart_project-Restarts :
    (files : Files) (d : Dictionary) (s : Store) (projname : String)
    → Works files
    → (m : Managed) × (restart_project files d s projname ≡ ok m) × Restarts d (projname ∷ []) s m
unfolding restart_project
restart_project-Restarts files d s projname works =
    let (u, ran, gone) = shutdown_project-Removes files.rm_watch s projname works.removes in
    let (m, ran', back) =
      start_project-Adds files d u.store projname works
        (ground (arith, gone.names projname, eq_refl projname)) in
    let same_rows : (n : String) → rows_of n m.store ≡ rows_of n u.store =
      λ n. ap (select (λ r. str_eq r.projectname n)) back.processes in
    (
      m,
      rw (restart_project, ran) ran',
      record {
        names = λ n. ground (arith, gone.names n, back.names n);
        others = λ n e. same_rows n ∙ gone.others n e;
        cleared = λ n e. rw (same_rows n) (gone.cleared n e);
        starts = back.starts;
      },
    )

pub restart_each-Restarts :
    (files : Files) (d : Dictionary) (s : Store) (ps : List String)
    → Works files
    → (m : Managed) × (each_project (restart_project files d) s ps ≡ ok m) × Restarts d ps s m
unfolding each_project
restart_each-Restarts files d s [] works = (
  record { store = s; starts = [] },
  refl,
  record {
    names = λ n. ground arith;
    others = λ n e. refl;
    cleared = λ n e. absurd (ground arith);
    starts = refl;
  },
)
restart_each-Restarts files d s (p ∷ ps) works =
    let (m, ran, first) = restart_project-Restarts files d s p works in
    let (r, ran', later) = restart_each-Restarts files d m.store ps works in
    (
      record { store = r.store; starts = m.starts ++ r.starts },
      rw (each_project, ran, ran') refl,
      record {
        names = λ n. ground (arith, first.names n, later.names n);
        others = λ n e. later.others n (ground arith) ∙ first.others n (ground arith);
        cleared = λ n e. elim (Bool-cases (contains n ps)) [
          | inl again ↦ later.cleared n again
          | inr last ↦ rw (later.others n last) (first.cleared n (ground arith))
        ];
        starts = rw (first.starts, later.starts) refl;
      },
    )

pub starts-Adds :
    (files : Files) (d : Dictionary) (s : Store) (ps : List String)
    → Works files
    → AllDifferent ps
    → ((n : String) → contains n ps ≡ true → is_known n s ≡ false)
    → (m : Managed) × (each_project (start_project files d) s ps ≡ ok m) × Adds d ps s m
unfolding each_project
starts-Adds files d s [] works different fresh = (
  record { store = s; starts = [] },
  refl,
  record { names = λ n. ground arith; processes = refl; starts = refl },
)
starts-Adds files d s (p ∷ ps) works different fresh =
    let (m, ran, first) =
      start_project-Adds files d s p works (fresh p (ground (arith, eq_refl p))) in
    let still_fresh : (n : String) → contains n ps ≡ true → is_known n m.store ≡ false = λ n c.
      elim (Bool-cases (str_eq p n)) [
        | inl e ↦
            let same : p ≡ n = (eq_iff p n).0 e in
            absurd (ground (arith, ap (λ q. contains q ps) same, different.0, c))
        | inr e ↦ ground (arith, first.names n, fresh n, c, e)
      ] in
    let (r, ran', later) = starts-Adds files d m.store ps works different.1 still_fresh in
    (
      record { store = r.store; starts = m.starts ++ r.starts },
      rw (each_project, ran, ran') refl,
      record {
        names = λ n. ground (arith, first.names n, later.names n);
        processes = later.processes ∙ first.processes;
        starts = rw (first.starts, later.starts) refl;
      },
    )
