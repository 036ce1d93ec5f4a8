-- ===== src/Daemon/React.antt =====
-- main(): the reload on SIGHUP, and all reactions to signals together.
use qgis_scheduler.Prelude.{
  ◌≡◌, refl, sym, ap, ◌∙◌, subst, Bool, true, false, ◌&&◌, Option, none, some, List, ◌++◌, arith,
  String,
}
use qgis_scheduler.Outcome.{Outcome, ok, Ensures-ok}
use qgis_scheduler.Config.{Dictionary}
use qgis_scheduler.Config.Lookup.{SoundIfAny, config_load-Reports, Reports}
use qgis_scheduler.Config.Values.{Loaded, config_load}
use qgis_scheduler.Database.Invariant.{WellFormed}
use qgis_scheduler.Projects.Keeps.{manage_project_changes-Keeps}
use qgis_scheduler.Projects.Reload.{manage_changes}
use qgis_scheduler.Projects.Start.{Managed, manage_project_changes, missing_starts, is_handled}
use qgis_scheduler.Daemon.{
  SignalNumber, no_signal, sigchld, sighup, sigusr1, sigusr2, sigterm, sigint, sigquit, sigsegv,
  other_signal, Daemon, Calls, is_termination, react_termination, reload, react_hangup, dispatch,
}
use qgis_scheduler.Daemon.Steady.{
  Steady, followed, CallsWork, is_none, Reacts, react_child-Steady, react_termination-Steady,
  HangsUp,
}

loads :
    (c : Dictionary) (calls : Calls) (d : Daemon) (newconfig : Option Dictionary)
    → calls.newconfig ≡ newconfig
    → CallsWork calls
    → Steady c d
    → Reports (some c) newconfig (config_load d.config calls.newconfig)
loads c calls d newconfig e work st =
    subst (λ (o : Option Dictionary). Reports o newconfig (config_load d.config calls.newconfig))
      st.loaded
      (subst
        (λ (n : Option Dictionary).
          Reports d.config.config_opts n (config_load d.config calls.newconfig))
        e
        (config_load-Reports d.config calls.newconfig (subst SoundIfAny (sym st.loaded) st.sound)
          work.sound_if_any))

reload_lem :
    (calls : Calls) (d : Daemon) (l : Loaded) (c : Dictionary)
    (news changed deleted : Option (List String)) (m : Managed)
    → l.config.config_opts ≡ some c
    → l.sectionnew ≡ news
    → l.sectionchanged ≡ changed
    → l.sectiondelete ≡ deleted
    → manage_project_changes calls.files c d.store news changed deleted ≡ ok m
    → reload calls d l l.config.config_opts
      ≡ ok (record d { config = l.config; store = m.store; starts = d.starts ++ m.starts })
unfolding reload
reload_lem calls d l c news changed deleted m opts e f g managed =
    ap (reload calls d l) opts ∙ rw (e, f, g, managed) refl

-- The old configuration stays.
react_hangup_none :
    (c : Dictionary) (calls : Calls) (d : Daemon)
    → calls.newconfig ≡ none
    → CallsWork calls
    → Steady c d
    → HangsUp c none calls d
unfolding react_hangup manage_project_changes
react_hangup_none c calls d e work st =
    let starts = missing_starts c d.store (is_handled none none none) c.secnames in
    let (l, ran, (opts, _, _), new, changed, deleted) = loads c calls d none e work st in
    (
      record d { config = l.config; starts = d.starts ++ starts },
      rw (react_hangup, ran, work.log_opens)
          (reload_lem calls d l c none none none (record { store = d.store; starts = starts }) opts
            new changed deleted refl),
      record {
        loaded = opts;
        sound = st.sound;
        tables = st.tables;
        within = st.within;
        all_known = st.all_known;
        flags = st.flags;
      },
      refl,
      refl,
      refl,
    )

react_hangup_some :
    (c new : Dictionary) (calls : Calls) (d : Daemon)
    → calls.newconfig ≡ some new
    → CallsWork calls
    → Steady c d
    → HangsUp c (some new) calls d
unfolding react_hangup
react_hangup_some c new calls d e work st =
    let (l, ch, ran, (opts, _, _), news, changed, deleted, cl) =
      loads c calls d (some new) e work st in
    let (m, managed, names, equal) =
      manage_changes calls.files c new d.store ch work.files_work cl st.within in
    (
      record d { config = l.config; store = m.store; starts = d.starts ++ m.starts },
      rw (react_hangup, ran, work.log_opens)
          (reload_lem calls d l new (some ch.sectionnew) (some ch.sectionchanged)
            (some ch.sectiondelete) m opts news changed deleted managed),
      record {
        loaded = opts;
        sound = subst SoundIfAny e work.sound_if_any;
        tables =
            Ensures-ok (λ m. WellFormed m.store) _ managed
              (manage_project_changes-Keeps calls.files new d.store (some ch.sectionnew)
                (some ch.sectionchanged) (some ch.sectiondelete) st.tables);
        within = λ n f. ground (arith, names n);
        all_known = λ f n. ground (arith, names n, st.all_known f n, cl.news n);
        flags = st.flags;
      },
      refl,
      refl,
      refl,
    )

Reacts-same :
    (c : Dictionary) (newconfig : Option Dictionary) (n : SignalNumber) (is_shutdown : Bool)
    (d : Daemon)
    → Steady (followed n newconfig c) d
    → is_termination n ≡ false
    → (is_none n && is_shutdown) ≡ false
    → Reacts c newconfig n is_shutdown d d
Reacts-same c newconfig n is_shutdown d st e f = record {
  steady = st;
  connections = refl;
  shuts_down = ground (arith, e);
  finishes = ground (arith, f);
}

Reacts-termination :
    (c : Dictionary) (newconfig : Option Dictionary) (n : SignalNumber) (is_shutdown : Bool)
    (calls : Calls) (d : Daemon)
    → CallsWork calls
    → Steady c d
    → followed n newconfig c ≡ c
    → is_termination n ≡ true
    → is_none n ≡ false
    → (d' : Daemon) × (react_termination calls d ≡ ok d') × Reacts c newconfig n is_shutdown d d'
Reacts-termination c newconfig n is_shutdown calls d work st g e f =
    let (d', ran, st', same, down, finished) = react_termination-Steady c calls d work st in
    (
      d',
      ran,
      record {
        steady = subst (λ k. Steady k d') (sym g) st';
        connections = same;
        shuts_down = ground (arith, down, e);
        finishes = ground (arith, finished, f);
      },
    )

Reacts-other :
    (c : Dictionary) (newconfig : Option Dictionary) (n : SignalNumber) (is_shutdown : Bool)
    (d : Daemon) (o : Outcome Daemon)
    → is_termination n ≡ false
    → is_none n ≡ false
    → (d' : Daemon) × (o ≡ ok d')
      × Steady (followed n newconfig c) d'
      × (d'.connections ≡ d.connections)
      × (d'.program_shutdown ≡ d.program_shutdown)
      × (d'.has_finished ≡ d.has_finished)
    → (d' : Daemon) × (o ≡ ok d') × Reacts c newconfig n is_shutdown d d'
Reacts-other c newconfig n is_shutdown d o e f (d', ran, st, same, down, finished) = (
  d',
  ran,
  record {
    steady = st;
    connections = same;
    shuts_down = ground (arith, down, e);
    finishes = ground (arith, finished, f);
  },
)

react_hangup-Steady :
    (c : Dictionary) (calls : Calls) (d : Daemon) (newconfig : Option Dictionary)
    → calls.newconfig ≡ newconfig
    → CallsWork calls
    → Steady c d
    → HangsUp c newconfig calls d
react_hangup-Steady c calls d none e work st = react_hangup_none c calls d e work st
react_hangup-Steady c calls d (some new) e work st = react_hangup_some c new calls d e work st

-- Every reaction to a message returns, and keeps the program steady, if the calls work.
pub dispatch-Reacts :
    (c : Dictionary) (calls : Calls) (d : Daemon) (n : SignalNumber) (is_shutdown : Bool)
    → CallsWork calls
    → Steady c d
    → (d' : Daemon) × (dispatch calls d n is_shutdown ≡ ok d')
      × Reacts c calls.newconfig n is_shutdown d d'
unfolding dispatch
dispatch-Reacts c calls d sigchld b work st =
    let (d', ran, st', same, down, finished) = react_child-Steady c calls d work st in
    Reacts-other c calls.newconfig sigchld b d _ refl refl (d', ran, st', same, down, finished)
dispatch-Reacts c calls d sighup b work st =
    Reacts-other c calls.newconfig sighup b d _ refl refl
      (react_hangup-Steady c calls d calls.newconfig refl work st)
dispatch-Reacts c calls d sigterm b work st =
    Reacts-termination c calls.newconfig sigterm b calls d work st refl refl refl
dispatch-Reacts c calls d sigint b work st =
    Reacts-termination c calls.newconfig sigint b calls d work st refl refl refl
dispatch-Reacts c calls d sigquit b work st =
    Reacts-termination c calls.newconfig sigquit b calls d work st refl refl refl
dispatch-Reacts c calls d no_signal true work st = (
  record d { has_finished = true },
  refl,
  record {
    steady = record {
      loaded = st.loaded;
      sound = st.sound;
      tables = st.tables;
      within = st.within;
      all_known = st.all_known;
      flags = st.flags;
    };
    connections = refl;
    shuts_down = ground arith;
    finishes = ground arith;
  },
)
dispatch-Reacts c calls d no_signal false work st =
    (d, refl, Reacts-same c calls.newconfig no_signal false d st refl refl)
dispatch-Reacts c calls d sigusr1 b work st =
    (d, refl, Reacts-same c calls.newconfig sigusr1 b d st refl refl)
dispatch-Reacts c calls d sigusr2 b work st =
    (d, refl, Reacts-same c calls.newconfig sigusr2 b d st refl refl)
dispatch-Reacts c calls d sigsegv b work st =
    (d, refl, Reacts-same c calls.newconfig sigsegv b d st refl refl)
dispatch-Reacts c calls d other_signal b work st =
    (d, refl, Reacts-same c calls.newconfig other_signal b d st refl refl)
