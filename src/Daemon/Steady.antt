-- ===== src/Daemon/Steady.antt =====
-- main(): the state that its reactions keep, and the reactions to SIGCHLD and to a termination.
use qgis_scheduler.Prelude.{
  ℕ, ◌≡◌, ◌≢◌, refl, sym, ap, ◌∙◌, Bool, true, false, not, ◌&&◌, ◌||◌, some, List, ◌++◌, map, arith,
  String, contains, Option,
}
use qgis_scheduler.Outcome.{ok, Ensures-ok}
use qgis_scheduler.Config.{Dictionary}
use qgis_scheduler.Config.Changes.{IsSound}
use qgis_scheduler.Config.Lookup.{SoundIfAny}
use qgis_scheduler.Database.{Store, Project}
use qgis_scheduler.Database.Invariant.{WellFormed}
use qgis_scheduler.Database.Projects.{get_names_project}
use qgis_scheduler.Manager.Restarts.{process_died-Returns}
use qgis_scheduler.Projects.Effects.{is_known, Works, shutdown_projects-Removes}
use qgis_scheduler.Projects.Keeps.{shutdown_projects-Keeps}
use qgis_scheduler.Projects.Start.{shutdown}
use qgis_scheduler.Shutdown.{not_permitted}
use qgis_scheduler.Daemon.{
  SignalNumber, no_signal, sighup, SignalData, Daemon, Calls, one_start, is_termination,
  react_child, react_termination, react_hangup,
}

-- The program has this configuration, the tables are well-formed, and the projects of the table have
-- sections in the configuration: all of these, unless the program shuts down.
pub record Steady (c : Dictionary) (d : Daemon) : Type 0 where
  pub loaded : d.config.config_opts ≡ some c
  pub sound : IsSound c
  pub tables : WellFormed d.store
  pub within : (n : String) → is_known n d.store ≡ true → contains n c.secnames ≡ true
  pub all_known :
      d.program_shutdown ≡ false → (n : String) → is_known n d.store ≡ contains n c.secnames
  pub flags : d.do_shutdown_thread ≡ d.program_shutdown

-- kill(pid, 0) fails only for a process that does not exist, the calls on files, of pthread_join() and
-- for the log file succeed, and a configuration that the parser returns agrees with itself.
pub record CallsWork (calls : Calls) : Type 0 where
  pub permitted : (pid : ℕ) → calls.alive pid ≢ not_permitted
  pub files_work : Works calls.files
  pub log_opens : calls.log_opens ≡ true
  pub joins : calls.joined ≡ true
  pub sound_if_any : SoundIfAny calls.newconfig

abbrev pub is_none : SignalNumber → Bool
is_none no_signal = true
is_none _ = false

-- The message of the shutdown thread at its end.
abbrev pub is_done : SignalData → Bool
is_done m = is_none m.signal && m.is_shutdown

-- The configuration behind a message: SIGHUP replaces it by what the parser makes of the file, if that
-- can be parsed.
abbrev pub followed : SignalNumber → Option Dictionary → Dictionary → Dictionary
followed sighup (some new) c = new
followed _ _ c = c

-- What a reaction leaves alone, and what it decides, for the configuration before it.
pub record Reacts (c : Dictionary) (newconfig : Option Dictionary) (n : SignalNumber)
    (is_shutdown : Bool) (d d' : Daemon) : Type 0 where
  pub steady : Steady (followed n newconfig c) d'
  pub connections : d'.connections ≡ d.connections
  pub shuts_down : d'.program_shutdown ≡ (d.program_shutdown || is_termination n)
  pub finishes : d'.has_finished ≡ (d.has_finished || (is_none n && is_shutdown))

allowed_flags : (down thread : Bool) → thread ≡ down → (down || not thread) ≡ true
allowed_flags down thread e = ground (arith, e)

known_same : (n : String) (s s' : Store) → s'.projects ≡ s.projects → is_known n s' ≡ is_known n s
unfolding get_names_project
known_same n s s' e = ap (λ (rows : List Project). contains n (map (λ r. r.name) rows)) e

pub react_child-Steady :
    (c : Dictionary) (calls : Calls) (d : Daemon)
    → CallsWork calls
    → Steady c d
    → (d' : Daemon) × (react_child calls d ≡ ok d')
      × Steady c d'
      × (d'.connections ≡ d.connections)
      × (d'.program_shutdown ≡ d.program_shutdown)
      × (d'.has_finished ≡ d.has_finished)
unfolding react_child
react_child-Steady c calls d work st =
    let (r, ran, w, same) =
      process_died-Returns d.program_shutdown d.do_shutdown_thread calls.alive d.store
        (allowed_flags d.program_shutdown d.do_shutdown_thread st.flags) work.permitted st.tables in
    (
      record d { store = r.store; starts = d.starts ++ map one_start r.starts },
      rw (react_child, ran) refl,
      record {
        loaded = st.loaded;
        sound = st.sound;
        tables = w;
        within = λ n e. st.within n (sym (known_same n d.store r.store same) ∙ e);
        all_known = λ e n. known_same n d.store r.store same ∙ st.all_known e n;
        flags = st.flags;
      },
      refl,
      refl,
      refl,
    )

pub react_termination-Steady :
    (c : Dictionary) (calls : Calls) (d : Daemon)
    → CallsWork calls
    → Steady c d
    → (d' : Daemon) × (react_termination calls d ≡ ok d')
      × Steady c d'
      × (d'.connections ≡ d.connections)
      × (d'.program_shutdown ≡ true)
      × (d'.has_finished ≡ d.has_finished)
unfolding react_termination shutdown
react_termination-Steady c calls d work st =
    let names = get_names_project d.store in
    let (s, ran, gone) =
      shutdown_projects-Removes calls.files d.store names work.files_work.removes in
    (
      record d { store = s; program_shutdown = true; do_shutdown_thread = true },
      rw (react_termination, ran, work.joins) refl,
      record {
        loaded = st.loaded;
        sound = st.sound;
        tables =
            Ensures-ok WellFormed _ ran
              (shutdown_projects-Keeps calls.files d.store names st.tables);
        within = λ n e. st.within n (ground (arith, gone.names n));
        all_known = λ e n. absurd (ground (arith, e));
        flags = refl;
      },
      refl,
      refl,
      refl,
    )

abbrev pub HangsUp : Dictionary → Option Dictionary → Calls → Daemon → Type 0
HangsUp c newconfig calls d =
    (d' : Daemon) × (react_hangup calls d ≡ ok d')
    × Steady (followed sighup newconfig c) d'
    × (d'.connections ≡ d.connections)
    × (d'.program_shutdown ≡ d.program_shutdown)
    × (d'.has_finished ≡ d.has_finished)
