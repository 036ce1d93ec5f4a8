-- ===== src/Projects/Reload.antt =====
-- project_manager_manage_project_changes() on what config_has_changed() reports.
use qgis_scheduler.Prelude.{
  ◌≡◌, refl, ap, ◌∙◌, true, false, not, ◌&&◌, ◌||◌, some, ◌++◌, map, arith, select, String, str_eq,
  contains, Bool-cases, inl, inr,
}
use qgis_scheduler.Outcome.{ok}
use qgis_scheduler.Config.{Dictionary}
use qgis_scheduler.Config.Changes.{
  Changes, config_has_changed, IsSound, Classifies, config_has_changed-Classifies,
}
use qgis_scheduler.Database.{Store}
use qgis_scheduler.Projects.Missing.{shortfalls, missing_starts-rows}
use qgis_scheduler.Projects.Shut.{rows_of, IsCleared}
use qgis_scheduler.Projects.Start.{
  Files, Managed, is_handled, missing_starts, manage_project_changes,
}
use qgis_scheduler.Projects.Effects.{
  is_known, Works, whole_start, shutdown_projects-Removes, restart_each-Restarts, starts-Adds,
}

-- The projects of the table are the sections of the new configuration, with the processes that their
-- sections ask for.
pub record Reloads (new : Dictionary) (s : Store) (c : Changes) (m : Managed) : Type 0 where
  pub names : (n : String) → is_known n m.store ≡ contains n new.secnames
  pub others :
      (n : String)
      → (contains n c.sectiondelete || contains n c.sectionchanged) ≡ false
      → rows_of n m.store ≡ rows_of n s
  pub cleared :
      (n : String)
      → (contains n c.sectiondelete || contains n c.sectionchanged) ≡ true
      → IsCleared n m.store
  pub starts :
      m.starts
      ≡ map (whole_start new) c.sectionchanged
        ++ (map (whole_start new) c.sectionnew
            ++ shortfalls new s (
                select
                  (λ n. not (
                    contains n c.sectiondelete
                    || (contains n c.sectionchanged || contains n c.sectionnew)))
                  new.secnames))

-- The projects of the table may be fewer than those of the old configuration.
pub manage_changes :
    (files : Files) (old new : Dictionary) (s : Store) (c : Changes)
    → Works files
    → Classifies old new c
    → ((n : String) → is_known n s ≡ true → contains n old.secnames ≡ true)
    → (m : Managed) × (manage_project_changes files new s
          (some c.sectionnew)
          (some c.sectionchanged)
          (some c.sectiondelete)
        ≡ ok m)
      × ((n : String)
          → is_known n m.store ≡ (
              contains n new.secnames
              && (is_known n s || (contains n c.sectionnew || contains n c.sectionchanged))))
      × (((n : String) → is_known n s ≡ contains n old.secnames) → Reloads new s c m)
unfolding manage_project_changes
manage_changes files old new s c works cl known =
    let (s1, ran1, gone) = shutdown_projects-Removes files s c.sectiondelete works.removes in
    let (m2, ran2, again) = restart_each-Restarts files new s1 c.sectionchanged works in
    let (m3, ran3, added) = starts-Adds files new m2.store c.sectionnew works cl.new_once (λ n e.
      ground
        (arith, known n, gone.names n, again.names n, cl.news n, cl.deletes n, cl.changes n)) in
    let names : (n : String)
        → is_known n m3.store ≡ (
            contains n new.secnames
            && (is_known n s || (contains n c.sectionnew || contains n c.sectionchanged))) =
      λ n. ground (
        arith,
        known n,
        gone.names n,
        again.names n,
        added.names n,
        cl.news n,
        cl.deletes n,
        cl.changes n,
      ) in
    let same : (n : String)
        → (contains n c.sectiondelete || contains n c.sectionchanged) ≡ false
        → rows_of n m3.store ≡ rows_of n s =
      λ n e.
        ap (select (λ r. str_eq r.projectname n)) added.processes
        ∙ again.others n (ground arith)
        ∙ gone.others n (ground arith) in
    let missing =
      missing_starts-rows new s m3.store
        (is_handled (some c.sectionnew) (some c.sectionchanged) (some c.sectiondelete)) new.secnames
        (λ n e. same n (ground arith)) in
    (
      record {
        store = m3.store;
        starts =
            m2.starts
            ++ (m3.starts
                ++ missing_starts new m3.store
                    (is_handled (some c.sectionnew) (some c.sectionchanged) (some c.sectiondelete))
                    new.secnames);
      },
      rw (manage_project_changes, ran1, ran2, ran3) refl,
      names,
      λ equal. record {
        names = λ n. ground (arith, equal n, names n, cl.news n);
        others = same;
        cleared = λ n e.
            rw (ap (select (λ r. str_eq r.projectname n)) added.processes)
              (elim (Bool-cases (contains n c.sectionchanged)) [
                | inl changed ↦ again.cleared n changed
                | inr kept ↦ rw (again.others n kept) (gone.cleared n (ground arith))
              ]);
        starts = rw (again.starts, added.starts, missing) refl;
      },
    )

-- `project_manager_manage_project_changes` with the lists that `config_has_changed` gives for two
-- configurations that agree with themselves, if the table has the projects of the old one and the calls
-- on the files succeed: afterwards the table has exactly the projects of the new configuration. Processes
-- of other projects than the deleted and changed ones keep their rows; no process of a deleted or changed
-- project is left in the init list or the active list. Started are the changed projects, then the new
-- ones, each with the number of processes that its configuration asks for; and then, for each other
-- section whose project has fewer processes that start, initialise or are idle than that, the difference.
pub manage_project_changes-Reloads :
    (files : Files) (old new : Dictionary) (s : Store)
    → Works files
    → IsSound old
    → IsSound new
    → ((n : String) → is_known n s ≡ contains n old.secnames)
    → let c = config_has_changed old new in
      (m : Managed) × (manage_project_changes files new s
          (some c.sectionnew)
          (some c.sectionchanged)
          (some c.sectiondelete)
        ≡ ok m)
      × Reloads new s c m
manage_project_changes-Reloads files old new s works sound_old sound_new known =
    let (m, ran, _, reloads) =
      manage_changes files old new s (config_has_changed old new) works
        (config_has_changed-Classifies old new sound_old sound_new)
        (λ n e. ground (arith, known n)) in
    (m, ran, reloads known)
