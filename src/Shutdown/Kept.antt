-- ===== src/Shutdown/Kept.antt =====
-- The invariant of the shutdown thread, and the steps of the other threads that keep it.
use qgis_scheduler.Prelude.{
  ℕ, ◌+◌, ◌≡◌, refl, sym, Bool, Bool-cases, true, false, ◌⊎◌, inl, inr, none, some, List, [], ◌∷◌,
  ◌++◌, arith, ◌==◌, All, All-append, ltb, subst, String,
}
use qgis_scheduler.Outcome.{ok}
use qgis_scheduler.Timer.{timer_is_empty}
use qgis_scheduler.Database.{Process, Store, ProcessList, ProcessState, proc_exit, update, any}
use qgis_scheduler.Database.Processes.{
  has_pid, in_state, is_set, with_state, with_list, add_process, new_process,
}
use qgis_scheduler.Database.Rows.{
  DistinctPids, Distinct-update, Distinct-snoc, any-none, All-update, All-updated,
}
use qgis_scheduler.Database.Invariant.{IsSound, is_open_idle, ==-swap}
use qgis_scheduler.Shutdown.Round.{in_shutdown}
use qgis_scheduler.Shutdown.Handled.{is_signalled, Timed, Done, Stamped, Away}
use qgis_scheduler.Shutdown.Thread.{
  Location, round_begin, checking, reading_timer, locking, waiting, woken, deciding, ended, State,
  IsSteady, Given, is_init, is_idle, is_busy,
}

-- A row of the shutdown list is done, or still to be checked in this round.
abbrev pub Awaited : List ℕ → Process → Type 0
Awaited todo r = in_shutdown r ≡ true → Done r ⊎ (any (λ n. n == r.pid) todo ≡ true)

-- What the rows fulfil at a place of the loop, when each move is notified and no notification came since
-- the thread read the list.
abbrev pub Settled : Location → List Process → Type 0
Settled (checking env todo) rows = All (Awaited todo) rows
Settled reading_timer rows = All Stamped rows
Settled (locking min_timer) rows =
    All Stamped rows × (timer_is_empty min_timer ≡ true → All Away rows)
Settled (waiting none) rows = All Away rows
Settled _ rows = Unit

-- What the thread knows at a place: its environment, and why it waits.
abbrev pub Knows : State → Location → Type 0
Knows t (checking env todo) = IsSteady env
Knows t (waiting none) = (t.has_list_change ≡ false) × (t.do_shutdown_thread ≡ false)
Knows t _ = Unit

pub record Invariant (t : State) : Type 0 where
  pub pids : DistinctPids t.store.processes
  pub sound : All IsSound t.store.processes
  pub timed : All Timed t.store.processes
  pub knows : Knows t t.at
  pub settled : t.pending ≡ 0 → t.has_list_change ≡ false → Settled t.at t.store.processes

-- A change of the rows that keeps every claim on single rows keeps the claim of a place.
pub record Keeps (rows after : List Process) : Type 0 where
  pub pids : DistinctPids rows → DistinctPids after
  pub sound : All IsSound rows → All IsSound after
  pub timed : All Timed rows → All Timed after
  pub awaited : (todo : List ℕ) → All (Awaited todo) rows → All (Awaited todo) after
  pub stamped : All Stamped rows → All Stamped after
  pub away : All Away rows → All Away after

Settled-Keeps :
    (at : Location) (rows after : List Process)
    → Keeps rows after
    → Settled at rows
    → Settled at after
Settled-Keeps (checking env todo) rows after k h = k.awaited todo h
Settled-Keeps reading_timer rows after k h = k.stamped h
Settled-Keeps (locking min_timer) rows after k h = (k.stamped h.0, λ e. k.away (h.1 e))
Settled-Keeps (waiting none) rows after k h = k.away h
Settled-Keeps (waiting (some until)) rows after k h = tt
Settled-Keeps round_begin rows after k h = tt
Settled-Keeps woken rows after k h = tt
Settled-Keeps (deciding down) rows after k h = tt
Settled-Keeps ended rows after k h = tt

pub Knows-store :
    (t : State) (s : Store) (n : ℕ) (at : Location)
    → Knows t at
    → Knows (record t { store = s; pending = n }) at
Knows-store t s n (checking env todo) k = k
Knows-store t s n (waiting none) k = k
Knows-store t s n (waiting (some until)) k = tt
Knows-store t s n round_begin k = tt
Knows-store t s n reading_timer k = tt
Knows-store t s n (locking min_timer) k = tt
Knows-store t s n woken k = tt
Knows-store t s n (deciding down) k = tt
Knows-store t s n ended k = tt

pub kept :
    (t : State) (s : Store)
    → Keeps t.store.processes s.processes
    → Invariant t
    → Invariant (record t { store = s })
kept t s k i = record {
  pids = k.pids i.pids;
  sound = k.sound i.sound;
  timed = k.timed i.timed;
  knows = Knows-store t s t.pending t.at i.knows;
  settled = λ p f. Settled-Keeps t.at t.store.processes s.processes k (i.settled p f);
}

given_open : (state : ProcessState) → Given state → is_open_idle state ≡ false
given_open _ is_init = refl
given_open _ is_idle = refl
given_open _ is_busy = refl

given_quiet : (state : ProcessState) → Given state → is_signalled state ≡ false
given_quiet _ is_init = refl
given_quiet _ is_idle = refl
given_quiet _ is_busy = refl

pub All-both :
    (P Q : Process → Type 0) (rows : List Process)
    → All P rows
    → All Q rows
    → All (λ r. P r × Q r) rows
All-both P Q [] p q = tt
All-both P Q (r ∷ rows) p q = ((p.0, q.0), All-both P Q rows p.1 q.1)

-- A process is given a state by another thread.
pub state_Keeps :
    (rows : List Process) (pid : ℕ) (state : ProcessState) (threadid : ℕ)
    → Given state
    → All (λ r. has_pid pid r ≡ true → in_state proc_exit r ≡ false) rows
    → Keeps rows (update (has_pid pid) (with_state state threadid) rows)
unfolding is_set
state_Keeps rows pid state threadid given live =
    let f = with_state state threadid in
    let p = has_pid pid in
    record {
      pids = Distinct-update has_pid (λ r. r.pid) f (λ k r. refl) (λ r. refl) p rows;
      sound = All-update IsSound p f rows (λ r g. (g.0, given_open state given));
      timed =
          All-update Timed p f rows (λ r g h. absurd (ground (arith, h, given_quiet state given)));
      awaited = λ todo h.
          All-updated (λ r. Awaited todo r × (has_pid pid r ≡ true → in_state proc_exit r ≡ false))
            (Awaited todo) p f rows
            (λ r hit b sh. elim (b.0 sh) [
              | inl (inl set) ↦ inl (inl set)
              | inl (inr exit) ↦ absurd (ground (arith, exit, b.1 hit))
              | inr found ↦ inr found
            ])
            (λ r miss b. b.0) (All-both (Awaited todo) _ rows h live);
      stamped = All-update Stamped p f rows (λ r g. g);
      away = All-update Away p f rows (λ r g. g);
    }

-- A new process is not in the shutdown list.
added_Keeps :
    (rows : List Process) (projname : String) (pid fd : ℕ)
    → ltb 0 pid ≡ true
    → any (has_pid pid) rows ≡ false
    → Keeps rows (rows ++ (new_process projname pid fd ∷ []))
added_Keeps rows projname pid fd positive absent =
    let r = new_process projname pid fd in
    record {
      pids = λ d.
          Distinct-snoc has_pid (λ q. q.pid) rows r (λ x. ==-swap pid x.pid) d
            (any-none (has_pid pid) rows absent);
      sound = λ h. All-append IsSound rows (r ∷ []) h ((positive, refl), tt);
      timed = λ h. All-append Timed rows (r ∷ []) h ((λ e. absurd (ground (arith, e))), tt);
      awaited = λ todo h.
          All-append (Awaited todo) rows (r ∷ []) h ((λ e. absurd (ground (arith, e))), tt);
      stamped = λ h. All-append Stamped rows (r ∷ []) h ((λ e. absurd (ground (arith, e))), tt);
      away = λ h. All-append Away rows (r ∷ []) h (refl, tt);
    }

pub adds-Invariant :
    (t : State) (s : Store) (projname : String) (pid fd : ℕ)
    → add_process t.store projname pid fd ≡ ok s
    → Invariant t
    → Invariant (record t { store = s })
unfolding add_process
adds-Invariant t s projname pid fd e i = elim (Bool-cases (ltb 0 pid)) [
  | inr zero_pid ↦ absurd (ground (arith, e, zero_pid))
  | inl positive ↦ elim (Bool-cases (any (has_pid pid) t.store.processes)) [
    | inl there ↦
        let same : t.store ≡ s = ground (arith, e, positive, there) in
        subst (λ u. Invariant (record t { store = u })) same i
    | inr absent ↦
        let same : record t.store {
          processes = t.store.processes ++ (new_process projname pid fd ∷ []);
        }
            ≡ s =
          ground (arith, e, positive, absent) in
        subst (λ u. Invariant (record t { store = u })) same
          (kept t _ (added_Keeps t.store.processes projname pid fd positive absent) i)
  ]
]

-- Processes are moved, without a notification yet.
pub moved-Invariant :
    (t : State) (s : Store) (p : Process → Bool) (list : ProcessList)
    → s.processes ≡ update p (with_list list) t.store.processes
    → Invariant t
    → Invariant (record t { store = s; pending = t.pending + 1 })
unfolding is_set
moved-Invariant t s p list e i =
    let f = with_list list in
    let rows = t.store.processes in
    record {
      pids =
          subst DistinctPids (sym e)
            (Distinct-update has_pid (λ r. r.pid) f (λ k r. refl) (λ r. refl) p rows i.pids);
      sound = subst (All IsSound) (sym e) (All-update IsSound p f rows (λ r g. g) i.sound);
      timed = subst (All Timed) (sym e) (All-update Timed p f rows (λ r g. g) i.timed);
      knows = Knows-store t s (t.pending + 1) t.at i.knows;
      settled = λ none_pending. absurd (omega (arith, none_pending));
    }
