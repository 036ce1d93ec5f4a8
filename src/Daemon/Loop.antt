-- ===== src/Daemon/Loop.antt =====
-- main(): its loop, round by round.
use qgis_scheduler.Prelude.{
  ℕ, ◌≡◌, refl, sym, ap, ◌∙◌, subst, Option, Bool, true, false, not, ◌&&◌, ◌||◌, inl, inr,
  Bool-cases, none, some, List, [], ◌∷◌, ◌++◌, All, arith, if◌then◌else◌, String, contains,
}
use qgis_scheduler.Outcome.{Outcome, ok, ◌>>=◌}
use qgis_scheduler.Config.{Dictionary}
use qgis_scheduler.Database.{Store, any}
use qgis_scheduler.Database.Invariant.{WellFormed}
use qgis_scheduler.Database.Projects.{get_names_project}
use qgis_scheduler.Projects.Effects.{is_known}
use qgis_scheduler.Daemon.{
  SignalData, Daemon, Calls, Poll, interrupted, poll_failed, ready, Event, read_signal,
  accept_connection, restore_signals, react, behind_poll, main_round, main_loop, is_termination,
}
use qgis_scheduler.Daemon.React.{dispatch-Reacts}
use qgis_scheduler.Daemon.Steady.{Steady, followed, CallsWork, is_done}

if_true {ℓ} : {A : Type ℓ} (b : Bool) (x y : A) → b ≡ true → (if b then x else y) ≡ x
if_true true x y e = refl
if_true false x y e = absurd (ground (arith, e))

if_false {ℓ} : {A : Type ℓ} (b : Bool) (x y : A) → b ≡ false → (if b then x else y) ≡ y
if_false true x y e = absurd (ground (arith, e))
if_false false x y e = refl

-- Other threads keep the tables well-formed and do not change which projects there are, poll() does not
-- fail, a readable pipe gives a message, accept() gives a descriptor, and the other calls work.
abbrev pub Reads : Poll → Type 0
Reads interrupted = Unit
Reads poll_failed = ⊥
Reads (ready server true none) = ⊥
Reads (ready server pipe message) = Unit

pub record Works (e : Event) : Type 0 where
  pub keeps : (s : Store) → WellFormed s → WellFormed (e.meanwhile s)
  pub same_names : (s : Store) → get_names_project (e.meanwhile s) ≡ get_names_project s
  pub reads : Reads e.poll
  pub accepts : (fd : ℕ) × (e.calls.accepted ≡ some fd)
  pub calls_work : CallsWork e.calls

-- A return of poll() lets the loop read such a message.
abbrev pub tells : (SignalData → Bool) → Poll → Bool
tells p (ready server true (some m)) = p m
tells p _ = false

abbrev pub terminates : Event → Bool
terminates e = tells (λ m. is_termination m.signal) e.poll

abbrev pub finishes : Event → Bool
finishes e = tells is_done e.poll

-- The configuration behind a return of poll().
abbrev pub configured : Dictionary → Poll → Option Dictionary → Dictionary
configured c (ready server true (some m)) newconfig = followed m.signal newconfig c
configured c _ newconfig = c

-- The configuration behind these rounds.
abbrev pub configuration : Dictionary → List Event → Dictionary
configuration c [] = c
configuration c (e ∷ events) = configuration (configured c e.poll e.calls.newconfig) events

-- The rounds that are played: none once the loop has finished, and none behind the one that reads the
-- message of the shutdown thread.
abbrev pub played : (has_finished : Bool) → List Event → List Event
played true events = []
played false [] = []
played false (e ∷ events) = e ∷ played (finishes e) events

played-none : (b : Bool) (events : List Event) → b ≡ true → played b events ≡ []
played-none true events e = refl
played-none false events e = absurd (ground (arith, e))

played-next :
    (b b' : Bool) (e : Event) (events : List Event)
    → b ≡ false
    → b' ≡ (b || finishes e)
    → played b (e ∷ events) ≡ e ∷ played b' events
played-next true b' e events f g = absurd (ground (arith, f))
played-next false b' e events f g = ap (λ b. e ∷ played b events) (sym g)

abbrev pub Calm : Dictionary → Daemon → Type 0
Calm c d = Steady c d × (d.is_readable_signalpipe ≡ false)

meanwhile-Steady :
    (c : Dictionary) (d : Daemon) (e : Event) (server pipe : Bool)
    → Works e
    → Steady c d
    → Steady c (record d {
      store = e.meanwhile d.store;
      is_readable_serversocket = server;
      is_readable_signalpipe = pipe;
    })
meanwhile-Steady c d e server pipe w st =
    let same : (n : String) → is_known n (e.meanwhile d.store) ≡ is_known n d.store =
      λ n. ap (contains n) (w.same_names d.store) in
    record {
      loaded = st.loaded;
      sound = st.sound;
      tables = w.keeps d.store st.tables;
      within = λ n h. st.within n (sym (same n) ∙ h);
      all_known = λ h n. same n ∙ st.all_known h n;
      flags = st.flags;
    }

Steady-same :
    (c : Dictionary) (d : Daemon) (connections : List ℕ) (restored server pipe : Bool)
    → Steady c d
    → Steady c (record d {
      connections = connections;
      has_restored_signal = restored;
      is_readable_serversocket = server;
      is_readable_signalpipe = pipe;
    })
Steady-same c d connections restored server pipe st = record {
  loaded = st.loaded;
  sound = st.sound;
  tables = st.tables;
  within = st.within;
  all_known = st.all_known;
  flags = st.flags;
}

-- One round, from the state before it; `c` is the configuration behind it.
pub record Rounds (poll : Poll) (c : Dictionary) (d d' : Daemon) : Type 0 where
  pub calm : Calm c d'
  pub refuses : d'.program_shutdown ≡ true → d'.connections ≡ d.connections
  pub shuts_down :
      d'.program_shutdown ≡ (d.program_shutdown || tells (λ m. is_termination m.signal) poll)
  pub ends : d'.has_finished ≡ (d.has_finished || tells is_done poll)

-- The end of a round: a new connection, and the default handlers.
abbrev Ends : Dictionary → Daemon → Daemon → Type 0
Ends c d d' =
    Calm c d'
    × (d'.program_shutdown ≡ true → d'.connections ≡ d.connections)
    × (d'.program_shutdown ≡ d.program_shutdown)
    × (d'.has_finished ≡ d.has_finished)

restore_signals-Ends : (c : Dictionary) (d : Daemon) → Calm c d → Ends c d (restore_signals d)
restore_signals-Ends c d (st, quiet) =
    elim (Bool-cases (d.program_shutdown && not d.has_restored_signal)) [
      | inl e ↦ rw e (
        (
          Steady-same c d d.connections true d.is_readable_serversocket d.is_readable_signalpipe st,
          quiet,
        ),
        λ h. refl,
        refl,
        refl,
      )
      | inr e ↦ rw e ((st, quiet), λ h. refl, refl, refl)
    ]

accept_connection-Ends :
    (c : Dictionary) (calls : Calls) (d : Daemon) (fd : ℕ)
    → calls.accepted ≡ some fd
    → Calm c d
    → (d' : Daemon) × (accept_connection calls d ≡ ok d') × Ends c d d'
unfolding accept_connection
accept_connection-Ends c calls d fd e (st, quiet) =
    elim (Bool-cases (d.is_readable_serversocket && not d.program_shutdown)) [
      | inl f ↦
          let kept =
            Steady-same c d (d.connections ++ (fd ∷ [])) d.has_restored_signal false
              d.is_readable_signalpipe st in
          (
            record d { connections = d.connections ++ (fd ∷ []); is_readable_serversocket = false },
            rw (accept_connection, f, e) refl,
            ((kept, quiet), λ h. absurd (ground (arith, f, h)), refl, refl),
          )
      | inr f ↦ (d, rw (accept_connection, f) refl, ((st, quiet), λ h. refl, refl, refl))
    ]

-- A round behind its reaction, from the state `d` that it began with.
ends_round :
    (c : Dictionary) (calls : Calls) (poll : Poll) (d r : Daemon)
    → ((fd : ℕ) × (calls.accepted ≡ some fd))
    → Calm c r
    → r.connections ≡ d.connections
    → r.program_shutdown ≡ (d.program_shutdown || tells (λ m. is_termination m.signal) poll)
    → r.has_finished ≡ (d.has_finished || tells is_done poll)
    → (a : Daemon) × (accept_connection calls r ≡ ok a) × Rounds poll c d (restore_signals a)
ends_round c calls poll d r (fd, e) calm same down finished =
    let (a, ran, (calm', apart, down', finished')) = accept_connection-Ends c calls r fd e calm in
    let (calm'', apart', down'', finished'') = restore_signals-Ends c a calm' in
    (
      a,
      ran,
      record {
        calm = calm'';
        refuses = λ h. apart' h ∙ apart (sym down'' ∙ h) ∙ same;
        shuts_down = down'' ∙ down' ∙ down;
        ends = finished'' ∙ finished' ∙ finished;
      },
    )

abbrev unpiped : Daemon → Daemon
unpiped q = record q { is_readable_signalpipe = false }

behind_poll-Rounds :
    (c : Dictionary) (calls : Calls) (d : Daemon) (poll : Poll)
    → CallsWork calls
    → ((fd : ℕ) × (calls.accepted ≡ some fd))
    → Reads poll
    → Calm c d
    → (d' : Daemon) × (behind_poll calls d poll ≡ ok d')
      × Rounds poll (configured c poll calls.newconfig) d d'
unfolding behind_poll read_signal react
behind_poll-Rounds c calls d interrupted work fd reads calm =
    let (calm', apart, down, finished) = restore_signals-Ends c d calm in
    (
      restore_signals d,
      refl,
      record {
        calm = calm';
        refuses = apart;
        shuts_down = ground (arith, down);
        ends = ground (arith, finished);
      },
    )
behind_poll-Rounds c calls d poll_failed work fd reads calm = absurd reads
behind_poll-Rounds c calls d (ready server true none) work fd reads calm = absurd reads
behind_poll-Rounds c calls d (ready server false message) work fd reads (st, quiet) =
    let r = record d {
      is_readable_serversocket = d.is_readable_serversocket || server;
      is_readable_signalpipe = d.is_readable_signalpipe || false;
    } in
    let still : (d.is_readable_signalpipe || false) ≡ false = ground (arith, quiet) in
    let kept =
      Steady-same c d d.connections d.has_restored_signal (d.is_readable_serversocket || server)
        (d.is_readable_signalpipe || false) st in
    let (a, ran, rounds) =
      ends_round c calls (ready server false message) d r fd (kept, still) refl (ground arith)
        (ground arith) in
    (
      restore_signals a,
      ap (λ o. o >>= λ r. accept_connection calls r >>= λ a. ok (restore_signals a))
            (if_false r.is_readable_signalpipe _ (ok r) still)
          ∙ ap (λ o. o >>= λ a. ok (restore_signals a)) ran,
      rounds,
    )
behind_poll-Rounds c calls d (ready server true (some m)) work fd reads (st, quiet) =
    let r = record d {
      is_readable_serversocket = d.is_readable_serversocket || server;
      is_readable_signalpipe = d.is_readable_signalpipe || true;
    } in
    let opened : (d.is_readable_signalpipe || true) ≡ true = ground (arith, quiet) in
    let kept =
      Steady-same c d d.connections d.has_restored_signal (d.is_readable_serversocket || server)
        (d.is_readable_signalpipe || true) st in
    let (q, reacted, did) = dispatch-Reacts c calls r m.signal m.is_shutdown work kept in
    let c' = followed m.signal calls.newconfig c in
    let after =
      Steady-same c' q q.connections q.has_restored_signal q.is_readable_serversocket false
        did.steady in
    let (a, ran, rounds) =
      ends_round c' calls (ready server true (some m)) d
        (record q { is_readable_signalpipe = false }) fd (after, refl) did.connections
        did.shuts_down did.finishes in
    (
      restore_signals a,
      ap (λ o. o >>= λ r. accept_connection calls r >>= λ a. ok (restore_signals a))
            (if_true r.is_readable_signalpipe _ (ok r) opened
              ∙ ap (λ (o : Outcome Daemon). o >>= λ (q : Daemon). ok (unpiped q)) reacted)
          ∙ ap (λ o. o >>= λ a. ok (restore_signals a)) ran,
      rounds,
    )

main_round-Rounds :
    (c : Dictionary) (d : Daemon) (e : Event)
    → Works e
    → Calm c d
    → (d' : Daemon) × (main_round d e ≡ ok d')
      × Rounds e.poll (configured c e.poll e.calls.newconfig) d d'
unfolding main_round
main_round-Rounds c d e works (st, quiet) =
    let kept =
      meanwhile-Steady c d e d.is_readable_serversocket d.is_readable_signalpipe works st in
    let (d', ran, rounds) =
      behind_poll-Rounds c e.calls (record d { store = e.meanwhile d.store }) e.poll
        works.calls_work works.accepts works.reads (kept, quiet) in
    (
      d',
      ran,
      record {
        calm = rounds.calm;
        refuses = rounds.refuses;
        shuts_down = rounds.shuts_down;
        ends = rounds.ends;
      },
    )

-- The loop, from the state before it with this configuration. In each round that is played, SIGHUP
-- replaces the configuration and a signal to terminate sets the flag of the shutdown.
pub record Loops (events : List Event) (c : Dictionary) (d d' : Daemon) : Type 0 where
  pub calm : Calm (configuration c (played d.has_finished events)) d'
  pub refuses : d.program_shutdown ≡ true → d'.connections ≡ d.connections
  pub shuts_down :
      d'.program_shutdown ≡ (d.program_shutdown || any terminates (played d.has_finished events))
  pub ends : d'.has_finished ≡ (d.has_finished || any finishes events)

Loops-none :
    (c : Dictionary) (d : Daemon) (events : List Event)
    → played d.has_finished events ≡ []
    → (d.has_finished || any finishes events) ≡ d.has_finished
    → Calm c d
    → Loops events c d d
Loops-none c d events e f calm = record {
  calm = subst (λ l. Calm (configuration c l) d) (sym e) calm;
  refuses = λ h. refl;
  shuts_down = rw e (ground arith);
  ends = sym f;
}

Loops-next :
    (c : Dictionary) (d next d' : Daemon) (e : Event) (events : List Event)
    → d.has_finished ≡ false
    → Rounds e.poll (configured c e.poll e.calls.newconfig) d next
    → Loops events (configured c e.poll e.calls.newconfig) next d'
    → Loops (e ∷ events) c d d'
Loops-next c d next d' e events more round loops =
    let step = played-next d.has_finished next.has_finished e events more round.ends in
    record {
      calm = subst (λ l. Calm (configuration c l) d') (sym step) loops.calm;
      refuses = λ h.
          let down : next.program_shutdown ≡ true = ground (arith, round.shuts_down, h) in
          loops.refuses down ∙ round.refuses down;
      shuts_down = rw step (ground (arith, loops.shuts_down, round.shuts_down));
      ends = ground (arith, loops.ends, round.ends, more);
    }

-- Over any rounds in which the calls work and other threads keep the tables, from a state with a loaded
-- configuration, the loop of main() does not end the program, and plays the rounds up to the one that
-- reads the message of the shutdown thread. The tables stay well-formed. The configuration is the one
-- before, replaced by each SIGHUP of these rounds for which the parser makes one of the file. The program
-- shuts down exactly if it did so before or one of these rounds reads a signal to terminate. The projects
-- of the table are those of the configuration while the program does not shut down, and some of those
-- then. A loop that begins during the shutdown accepts no connection. It ends exactly if it read the
-- message of the shutdown thread or had ended before.
pub main_loop-Loops :
    (c : Dictionary) (d : Daemon) (events : List Event)
    → All Works events
    → Calm c d
    → (d' : Daemon) × (main_loop d events ≡ ok d') × Loops events c d d'
unfolding main_loop
main_loop-Loops c d [] works calm = (
  d,
  refl,
  Loops-none c d [] (elim (Bool-cases d.has_finished) [ inl e ↦ rw e refl | inr e ↦ rw e refl ])
      (ground arith) calm,
)
main_loop-Loops c d (e ∷ events) works calm = elim (Bool-cases d.has_finished) [
  | inl done ↦ (
    d,
    if_true d.has_finished (ok d) _ done,
    Loops-none c d (e ∷ events) (played-none d.has_finished (e ∷ events) done)
        (ground (arith, done)) calm,
  )
  | inr more ↦
      let (next, ran, round) = main_round-Rounds c d e works.0 calm in
      let (d', later, loops) =
        main_loop-Loops (configured c e.poll e.calls.newconfig) next events works.1 round.calm in
      (
        d',
        if_false d.has_finished (ok d) _ more
            ∙ ap (λ o. o >>= λ next. main_loop next events) ran
            ∙ later,
        Loops-next c d next d' e events more round loops,
      )
]
