-- ===== src/Daemon/Starts.antt =====
-- qgis-schedulerd.c: the start of main() leads into its loop.
use qgis_scheduler.Prelude.{
  ℕ, ◌≤◌, ◌≡◌, refl, sym, ap, ◌∙◌, subst, false, not, Option, none, some, List, [], All, arith,
  String, contains,
}
use qgis_scheduler.Outcome.{ok, fault, exit_failure, ◌>>=◌, Ensures-ok}
use qgis_scheduler.Config.{Dictionary}
use qgis_scheduler.Config.Changes.{Changes, Classifies, IsSound}
use qgis_scheduler.Config.Lookup.{config_load-Reports}
use qgis_scheduler.Config.Values.{Loaded, config_load, config_get_chuser}
use qgis_scheduler.Database.Invariant.{WellFormed}
use qgis_scheduler.Database.Projects.{get_names_project}
use qgis_scheduler.Projects.Effects.{Works, is_known}
use qgis_scheduler.Projects.Keeps.{manage_project_changes-Keeps}
use qgis_scheduler.Projects.Reload.{manage_changes}
use qgis_scheduler.Projects.Start.{Files, Managed, manage_project_changes}
use qgis_scheduler.Daemon.{Daemon, Event, main_loop}
use qgis_scheduler.Daemon.Loop.{Calm, Loops, main_loop-Loops}
use qgis_scheduler.Daemon.Loop.{Works as RoundWorks}
use qgis_scheduler.Daemon.Startup.{
  Chosen, fdlimit_needed, Address, StartCalls, Running, no_rows, prepare, start_projects,
  behind_load, no_config, startup,
}
use qgis_scheduler.Daemon.Prepares.{StartsWork, IsUser, prepared}

-- The configuration before the first one.
abbrev no_sections : Dictionary
no_sections = record {
  secnames = [];
  has_entry = λ s. false;
  seckeys = λ s. [];
  value = λ k. none;
  int_value = λ k. none;
}

abbrev all_new : Dictionary → Changes
all_new d = record { sectionnew = d.secnames; sectionchanged = []; sectiondelete = [] }

all_new-Classifies : (d : Dictionary) → IsSound d → Classifies no_sections d (all_new d)
all_new-Classifies d sound = record {
  news = λ n. ground arith;
  deletes = λ n. refl;
  changes = λ n. refl;
  new_once = sound.different_names;
  delete_once = tt;
  change_once = tt;
}

-- The tables after the first start of the projects.
projects_started :
    (files : Files) (d : Dictionary)
    → Works files
    → IsSound d
    → (m : Managed) × (manage_project_changes files d no_rows (some d.secnames) none none ≡ ok m)
      × WellFormed m.store
      × ((n : String) → is_known n m.store ≡ contains n d.secnames)
unfolding manage_project_changes get_names_project
projects_started files d works sound =
    let (m, managed, names, _) =
      manage_changes files no_sections d no_rows (all_new d) works (all_new-Classifies d sound)
        (λ n e. e) in
    (
      m,
      managed,
      Ensures-ok (λ m. WellFormed m.store) _ managed
          (manage_project_changes-Keeps files d no_rows (some d.secnames) (some []) (some [])
            (record { pids = tt; names = tt; sound = tt })),
      λ n. ground (arith, names n),
    )

first_load :
    (newconfig : Option Dictionary) (d : Dictionary)
    → newconfig ≡ some d
    → IsSound d
    → (l : Loaded) × (config_load no_config newconfig ≡ ok l)
      × (l.config.config_opts ≡ some d)
      × (l.sectionnew ≡ some d.secnames)
      × (l.sectionchanged ≡ none)
      × (l.sectiondelete ≡ none)
first_load newconfig d e sound =
    let (l, ran, (opts, _, _), new, changed, deleted) =
      config_load-Reports no_config (some d) tt sound in
    (l, ap (config_load no_config) e ∙ ran, opts, new, changed, deleted)

started :
    (calls : StartCalls) (c : Chosen) (path : String) (d : Dictionary) (l : Loaded)
    (running : Daemon → Running) (m : Managed)
    → calls.realpath c.config_path ≡ some path
    → config_load no_config (calls.newconfig path) ≡ ok l
    → l.config.config_opts ≡ some d
    → l.sectionnew ≡ some d.secnames
    → l.sectionchanged ≡ none
    → l.sectiondelete ≡ none
    → prepare calls c.no_daemon d ≡ ok running
    → manage_project_changes calls.files d no_rows (some d.secnames) none none ≡ ok m
    → startup calls c
      ≡ ok (
          running (record {
            config = l.config;
            store = m.store;
            starts = m.starts;
            connections = [];
            program_shutdown = false;
            do_shutdown_thread = false;
            has_finished = false;
            has_restored_signal = false;
            is_readable_serversocket = false;
            is_readable_signalpipe = false;
          }))
unfolding startup behind_load start_projects
started calls c path d l running m found loaded opts new changed deleted prepares managed =
    ap
      (λ (o : Option String). elim o [
        | none ↦ fault exit_failure
        | some q ↦ config_load no_config (calls.newconfig q) >>= λ l.
            behind_load calls c.no_daemon l l.config.config_opts
      ])
      found
    ∙ ap (λ o. o >>= λ l. behind_load calls c.no_daemon l l.config.config_opts) loaded
    ∙ ap (behind_load calls c.no_daemon l) opts
    ∙ ap (λ o. o >>= λ running. start_projects calls l d running) prepares
    ∙ rw (new, changed, deleted, managed) refl

-- If the calls of its start work, the program comes to its loop, which has not finished, with no
-- connection and without a shutdown: it listens on the first address that
-- can be bound, is the user that is configured, and is allowed as many files as it needs. The state is
-- one from which no round of its loop ends the program: the configuration that the parser made of the
-- file is loaded, the tables are well-formed, and the projects of the table are its sections. So the loop runs on
-- through any rounds in which the calls work and other threads keep the tables.
pub startup-Calm :
    (calls : StartCalls) (c : Chosen) (path : String) (d : Dictionary) (addresses : List Address)
    (fd limit : ℕ) (events : List Event)
    → StartsWork calls c path d addresses fd limit
    → All RoundWorks events
    → (r : Running) × (startup calls c ≡ ok r)
      × Calm d r.daemon
      × (r.daemon.has_finished ≡ false)
      × (r.daemon.program_shutdown ≡ false)
      × (r.daemon.connections ≡ [])
      × ((n : String) → is_known n r.daemon.store ≡ contains n d.secnames)
      × (r.serversocketfd ≡ fd)
      × (fdlimit_needed d ≤ r.fdlimit)
      × IsUser calls (config_get_chuser d) r.user
      × (r.in_background ≡ not c.no_daemon)
      × ((d' : Daemon) × (main_loop r.daemon events ≡ ok d') × Loops events d r.daemon d')
unfolding startup behind_load start_projects
startup-Calm calls c path d addresses fd limit events w works =
    let (l, loaded, opts, new, changed, deleted) =
      first_load (calls.newconfig path) d w.loads w.sound in
    let (running, prepares, settled) = prepared calls c path d addresses fd limit w in
    let (m, managed, tables, names) = projects_started calls.files d w.files_work w.sound in
    let daemon : Daemon = record {
      config = l.config;
      store = m.store;
      starts = m.starts;
      connections = [];
      program_shutdown = false;
      do_shutdown_thread = false;
      has_finished = false;
      has_restored_signal = false;
      is_readable_serversocket = false;
      is_readable_signalpipe = false;
    } in
    let calm : Calm d daemon = (
      record {
        loaded = opts;
        sound = w.sound;
        tables = tables;
        within = λ n e. sym (names n) ∙ e;
        all_known = λ h n. names n;
        flags = refl;
      },
      refl,
    ) in
    let (same, serves, enough, is_user, background) = settled daemon in
    let there : Calm d (running daemon).daemon = subst (Calm d) (sym same) calm in
    (
      running daemon,
      started calls c path d l running m w.found loaded opts new changed deleted prepares managed,
      there,
      ap (λ (d : Daemon). d.has_finished) same,
      ap (λ (d : Daemon). d.program_shutdown) same,
      ap (λ (d : Daemon). d.connections) same,
      λ n. ap (λ (d : Daemon). is_known n d.store) same ∙ names n,
      serves,
      enough,
      is_user,
      background,
      main_loop-Loops d (running daemon).daemon events works there,
    )
