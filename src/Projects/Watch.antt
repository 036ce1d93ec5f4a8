-- ===== src/Projects/Watch.antt =====
-- qgis_inotify.c: which projects are restarted_by_table when configuration files change.
use qgis_scheduler.Prelude.{
  ◌≡◌, refl, sym, ap, subst, ◌∙◌, true, false, List, [], ◌∷◌, ◌++◌, map, arith, String, str_eq,
  contains, Bool-cases, inl, inr, if◌then◌else◌, ◌&&◌, eqb_ℤ, select, ℤ,
}
use mathlib.Core.Path.{fun_ext}
use mathlib.Core.List.{map-append}
use qgis_scheduler.Config.{Dictionary}
use qgis_scheduler.Database.{Project, Store, update}
use qgis_scheduler.Database.Processes.{get_num_active_process, get_num_process_by_status}
use qgis_scheduler.Database.Projects.{with_crashs, get_projects_for_watchd_and_config}
use qgis_scheduler.Projects.Resets.{
  with_reset, update-nil, with_reset-append, reset_startup_failures_lem,
}
use qgis_scheduler.Projects.Restarts.{Restarts, map-Restarts}
use qgis_scheduler.Projects.Start.{
  Start, Managed, restart_processes, configfile_changed, changed_projects,
  check_watchlist_for_watch, InotifyEvent, Mask, in_close_write, in_delete, in_moved_to, in_ignored,
  other_mask, is_change, is_ignored, inotify_events,
}

abbrev restarted_by_table : Store → List InotifyEvent → List String
restarted_by_table s [] = []
restarted_by_table s (event ∷ rest) =
    (if is_change event.mask then get_projects_for_watchd_and_config s event.wd event.name else [])
    ++ restarted_by_table s rest

-- The projects whose configuration file has this name, and lies where this watch is.
abbrev watching : Store → ℤ → String → List String
watching s wd name =
    map (λ r. r.name) (select (λ r. eqb_ℤ r.watchd wd && str_eq r.configbasename name) s.projects)

-- The projects whose configuration file was written, or a new one moved to its place.
abbrev named_by : Store → ℤ → String → Mask → List String
named_by s wd name in_close_write = watching s wd name
named_by s wd name in_moved_to = watching s wd name
named_by s wd name in_delete = []
named_by s wd name in_ignored = []
named_by s wd name other_mask = []

-- Event by event.
abbrev pub restarted : Store → List InotifyEvent → List String
restarted s [] = []
restarted s (event ∷ rest) = named_by s event.wd event.name event.mask ++ restarted s rest

named_by_table :
    (s : Store) (wd : ℤ) (name : String) (m : Mask)
    → (if is_change m then get_projects_for_watchd_and_config s wd name else [])
      ≡ named_by s wd name m
unfolding get_projects_for_watchd_and_config
named_by_table s wd name in_close_write = refl
named_by_table s wd name in_moved_to = refl
named_by_table s wd name in_delete = refl
named_by_table s wd name in_ignored = refl
named_by_table s wd name other_mask = refl

restarted-by_table :
    (s : Store) (events : List InotifyEvent) → restarted_by_table s events ≡ restarted s events
restarted-by_table s [] = refl
restarted-by_table s (event ∷ events) =
    rw (named_by_table s event.wd event.name event.mask, restarted-by_table s events) refl

watching-update :
    (s : Store) (ps : List String) (watchd : ℤ) (filename : String)
    → get_projects_for_watchd_and_config (with_reset ps s) watchd filename
      ≡ get_projects_for_watchd_and_config s watchd filename
unfolding get_projects_for_watchd_and_config
watching-update s ps watchd filename = by_rows s.projects
  where
    by_rows :
        (rows : List Project)
        → map
            (λ r. r.name)
            (select
              (λ r. eqb_ℤ r.watchd watchd && str_eq r.configbasename filename)
              (update (λ r. contains r.name ps) (with_crashs (λ n. 0)) rows))
          ≡ map
              (λ r. r.name)
              (select (λ r. eqb_ℤ r.watchd watchd && str_eq r.configbasename filename) rows)
    by_rows [] = refl
    by_rows (r ∷ rows) = ground (arith, by_rows rows)

restart_processes-reset :
    (d : Dictionary) (ps : List String) (s : Store) (n : String)
    → restart_processes d (with_reset ps s) n ≡ restart_processes d s n
unfolding restart_processes get_num_active_process get_num_process_by_status
restart_processes-reset d ps s n = refl

abbrev after : Dictionary → Store → List String → Managed
after d s ps = record { store = with_reset ps s; starts = map (restart_processes d s) ps }

after-append :
    (d : Dictionary) (s : Store) (ps qs : List String)
    → record {
      store = (after d (with_reset ps s) qs).store;
      starts = (after d s ps).starts ++ (after d (with_reset ps s) qs).starts;
    }
      ≡ after d s (ps ++ qs)
after-append d s ps qs =
    rw
      (
        with_reset-append ps qs s,
        fun_ext (restart_processes-reset d ps s),
        map-append (restart_processes d s) ps qs,
      )
      refl

changed_projects_lem :
    (d : Dictionary) (s : Store) (ps : List String) → changed_projects d s ps ≡ after d s ps
unfolding changed_projects configfile_changed
changed_projects_lem d s [] =
    ap (λ rows. record { store = record s { projects = rows }; starts = [] })
      (sym (update-nil s.projects))
changed_projects_lem d s (p ∷ ps) =
    rw
      (
        changed_projects,
        configfile_changed,
        reset_startup_failures_lem s p,
        changed_projects_lem d (with_reset (p ∷ []) s) ps,
        restart_processes-reset d (p ∷ []) s p,
      )
      (after-append d s (p ∷ []) ps)

restarted_by_table-reset :
    (s : Store) (ps : List String) (events : List InotifyEvent)
    → restarted_by_table (with_reset ps s) events ≡ restarted_by_table s events
restarted_by_table-reset s ps [] = refl
restarted_by_table-reset s ps (event ∷ events) =
    rw (watching-update s ps event.wd event.name, restarted_by_table-reset s ps events) refl

inotify_events_other :
    (d : Dictionary) (s : Store) (event : InotifyEvent) (events : List InotifyEvent)
    → is_change event.mask ≡ false
    → inotify_events false d s (event ∷ events) ≡ inotify_events false d s events
unfolding inotify_events
inotify_events_other d s event events e = elim (Bool-cases (is_ignored event.mask)) [
  | inl f ↦ rw (inotify_events, e, f) refl
  | inr f ↦ rw (inotify_events, e, f) refl
]

change_not_ignored : (m : Mask) → is_change m ≡ true → is_ignored m ≡ false
change_not_ignored m e = ground (arith, e)

inotify_events_lem :
    (d : Dictionary) (s : Store) (events : List InotifyEvent)
    → inotify_events false d s events ≡ record {
      managed = record {
        store = with_reset (restarted_by_table s events) s;
        starts = map (restart_processes d s) (restarted_by_table s events);
      };
      ends = false;
    }
unfolding inotify_events check_watchlist_for_watch
inotify_events_lem d s [] =
    ap
      (λ rows. record {
        managed = record { store = record s { projects = rows }; starts = [] };
        ends = false;
      })
      (sym (update-nil s.projects))
inotify_events_lem d s (event ∷ events) = elim (Bool-cases (is_change event.mask)) [
  | inr e ↦
      let none_now : restarted_by_table s (event ∷ events) ≡ restarted_by_table s events =
        rw e refl in
      inotify_events_other d s event events e
      ∙ inotify_events_lem d s events
      ∙ ap (λ ps. record { managed = after d s ps; ends = false }) (sym none_now)
  | inl e ↦
      let now = get_projects_for_watchd_and_config s event.wd event.name in
      rw
        (
          inotify_events,
          e,
          change_not_ignored event.mask e,
          changed_projects_lem d s now,
          inotify_events_lem d (with_reset now s) events,
          restarted_by_table-reset s now events,
        )
        (ap (λ m. record { managed = m; ends = false })
          (after-append d s now (restarted_by_table s events)))
]

-- The events of one read() of the inotify thread: the loop does not end the thread if its flag to end
-- is not set. For each event of a written file or of one that was moved there, in order, the
-- processes of the projects that watch this file are restarted, and their startup failures reset; other events change nothing. A restart starts as many
-- processes as the larger of the number of idle ones in the configuration and the number of busy ones,
-- and exchanges the old ones.
pub inotify_events-restarted :
    (d : Dictionary) (s : Store) (events : List InotifyEvent)
    → (starts : List Start) × (inotify_events false d s events ≡ record {
      managed = record { store = with_reset (restarted s events) s; starts = starts };
      ends = false;
    })
      × Restarts d s (restarted s events) starts
inotify_events-restarted d s events =
    subst
      (λ (ps : List String).
        (starts : List Start) × (inotify_events false d s events
          ≡ record { managed = record { store = with_reset ps s; starts = starts }; ends = false })
        × Restarts d s ps starts)
      (restarted-by_table s events)
      (
        map (restart_processes d s) (restarted_by_table s events),
        inotify_events_lem d s events,
        map-Restarts d s (restarted_by_table s events),
      )
