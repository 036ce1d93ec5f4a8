-- ===== src/Shutdown/Handled.antt =====
-- Rows of the shutdown list: what the check of a process leaves of its row.
use qgis_scheduler.Prelude.{
  ℕ, ◌≡◌, ◌≢◌, refl, sym, ap, ◌∙◌, Bool, Bool-cases, true, false, ◌⊎◌, inl, inr, none, List, [],
  ◌∷◌, ◌++◌, arith, ◌==◌, All, select, subst,
}
use qgis_scheduler.Outcome.{ok}
use qgis_scheduler.Timer.{Timespec, timer_is_empty, timer_isgreaterthan}
use qgis_scheduler.Database.{
  Process, Store, Signal, sigterm, sigkill, ProcessState, proc_start, proc_init, proc_idle,
  proc_open_idle, proc_busy, proc_term, proc_kill, proc_exit, state_code, update, any, last_of,
}
use qgis_scheduler.Database.Processes.{
  has_pid, in_state, is_set, with_state, find_process, get_process_state, earliest, earliest_of,
  shutdown_get_min_signaltimer,
}
use qgis_scheduler.Database.Rows.{
  AbsentPid, DistinctPids, locate, any-none, select-none, update-none, update-one,
}
use qgis_scheduler.Database.Invariant.{is_open_idle, IsSound}
use qgis_scheduler.Shutdown.{
  Killed, delivered, no_such_process, not_permitted, Environment, is_due, check_state,
}
use qgis_scheduler.Shutdown.Advance.{At, At-check, Runnable, signalled_row, advance, advance_from}
use qgis_scheduler.Shutdown.Round.{in_shutdown}
use qgis_scheduler.Shutdown.Thread.{IsSteady}

abbrev pub is_signalled : ProcessState → Bool
is_signalled proc_term = true
is_signalled proc_kill = true
is_signalled _ = false

-- A process that was signalled has its timer set.
abbrev pub Timed : Process → Type 0
Timed r = is_signalled r.state ≡ true → is_set r ≡ true

-- The thread has nothing to do at once for this row.
abbrev pub Done : Process → Type 0
Done r = (is_set r ≡ true) ⊎ (in_state proc_exit r ≡ true)

exit_only : (st : ProcessState) → (state_code st == 7) ≡ true → is_signalled st ≡ false
exit_only proc_exit e = refl
exit_only proc_start e = refl
exit_only proc_init e = refl
exit_only proc_idle e = refl
exit_only proc_open_idle e = refl
exit_only proc_busy e = refl
exit_only proc_term e = absurd (ground (arith, e))
exit_only proc_kill e = absurd (ground (arith, e))

pub Done-Timed : (r : Process) → Done r → Timed r
Done-Timed r (inl e) h = e
Done-Timed r (inr e) h = absurd (ground (arith, h, exit_only r.state e))

signalled-Done :
    (env : Environment) (signal : Signal) (next : ProcessState) (r : Process) (k : Killed)
    → IsSteady env
    → k ≢ not_permitted
    → Done (signalled_row env signal next r k)
unfolding signalled_row
signalled-Done env signal next r delivered steady h =
    inl (steady.stamped r.pid (with_state next 0 r))
signalled-Done env signal next r no_such_process steady h = inr refl
signalled-Done env signal next r not_permitted steady h = absurd (h refl)

-- `st` is the state of the row.
advance-Done :
    (env : Environment) (r : Process) (st : ProcessState)
    → IsSteady env
    → is_open_idle st ≡ false
    → (is_signalled st ≡ true → is_set r ≡ true)
    → (in_state proc_exit r ≡ (state_code st == 7))
    → Done (advance_from env r st)
unfolding advance_from
advance-Done env r proc_term steady sound timed same = elim (Bool-cases (is_due env r.signaltime)) [
  | inl e ↦ rw e (signalled-Done env sigkill proc_kill r _ steady (steady.permitted r.pid sigkill))
  | inr e ↦ rw e (inl (timed refl))
]
advance-Done env r proc_kill steady sound timed same = elim (Bool-cases (is_due env r.signaltime)) [
  | inl e ↦ rw e (inr refl)
  | inr e ↦ rw e (inl (timed refl))
]
advance-Done env r proc_exit steady sound timed same = inr same
advance-Done env r proc_open_idle steady sound timed same = absurd (ground (arith, sound))
advance-Done env r proc_start steady sound timed same =
    signalled-Done env sigterm proc_term r _ steady (steady.permitted r.pid sigterm)
advance-Done env r proc_init steady sound timed same =
    signalled-Done env sigterm proc_term r _ steady (steady.permitted r.pid sigterm)
advance-Done env r proc_idle steady sound timed same =
    signalled-Done env sigterm proc_term r _ steady (steady.permitted r.pid sigterm)
advance-Done env r proc_busy steady sound timed same =
    signalled-Done env sigterm proc_term r _ steady (steady.permitted r.pid sigterm)

pub checked-Done :
    (env : Environment) (r : Process) → IsSteady env → IsSound r → Timed r → Done (advance env r)
checked-Done env r steady sound timed = advance-Done env r r.state steady sound.1 timed refl

All-at :
    (P : Process → Type 0) (front : List Process) (r : Process) (back : List Process)
    → All P (front ++ (r ∷ back))
    → P r
All-at P [] r back h = h.0
All-at P (x ∷ front) r back h = All-at P front r back h.1

unchanged :
    (env : Environment) (s s' : Store) (pid : ℕ)
    → find_process s pid ≡ none
    → check_state env s pid (get_process_state s pid) ≡ ok s'
    → s ≡ s'
unfolding check_state get_process_state
unchanged env s s' pid e ran = ground (arith, e, ran)

-- The check changes the one row with its pid, if there is one.
pub check_state-rows :
    (env : Environment) (s s' : Store) (pid : ℕ)
    → IsSteady env
    → DistinctPids s.processes
    → All IsSound s.processes
    → check_state env s pid (get_process_state s pid) ≡ ok s'
    → s'.processes ≡ update (has_pid pid) (advance env) s.processes
unfolding get_process_state
check_state-rows env s s' pid steady d sound ran =
    elim (Bool-cases (any (has_pid pid) s.processes)) [
      | inl found ↦
          let l = locate s.processes pid d found in
          let r = l.row in
          let fine : IsSound r =
            All-at IsSound l.front r l.back (subst (All IsSound) l.whole sound) in
          let around : At s l.front r l.back = record {
            rows = l.whole;
            before = subst (λ n. AbsentPid n l.front) (sym l.same) l.before;
            behind = subst (λ n. AbsentPid n l.back) (sym l.same) l.behind;
          } in
          let able : Runnable env r.pid = record {
            positive = fine.0;
            term_allowed = steady.permitted r.pid sigterm;
            kill_allowed = steady.permitted r.pid sigkill;
          } in
          let (s1, ran1, after) = At-check l.front l.back env s r fine.1 able around in
          let both : ok s1 ≡ ok s' =
            sym ran1 ∙ ap (λ n. check_state env s n (get_process_state s n)) l.same ∙ ran in
          let same : s1 ≡ s' = cc both in
          ap (λ u. u.processes) (sym same)
          ∙ after.rows
          ∙ sym (
              ap (update (has_pid pid) (advance env)) l.whole
              ∙ update-one (advance env) pid l.front r l.back l.before l.same l.behind)
      | inr missing ↦
          let absent = any-none (has_pid pid) s.processes missing in
          let none_found : find_process s pid ≡ none =
            ap last_of (select-none (has_pid pid) s.processes absent) in
          let same : s ≡ s' = unchanged env s s' pid none_found ran in
          ap (λ u. u.processes) (sym same)
          ∙ sym (update-none (has_pid pid) (advance env) s.processes absent)
    ]

set_timer : (r : Process) → is_set r ≡ true → timer_is_empty r.signaltime ≡ false
unfolding is_set timer_is_empty
set_timer r e = ground (arith, e)

-- The minimum of timers that are set is not empty.
earliest-set :
    (t : Timespec) (rs : List Process)
    → timer_is_empty t ≡ false
    → All (λ r. is_set r ≡ true) rs
    → timer_is_empty (earliest t rs) ≡ false
unfolding earliest
earliest-set t [] h all = h
earliest-set t (r ∷ rs) h all = elim (Bool-cases (timer_isgreaterthan t r.signaltime)) [
  | inl e ↦ rw e (earliest-set r.signaltime rs (set_timer r all.0) all.1)
  | inr e ↦ rw e (earliest-set t rs h all.1)
]

-- If the timer that the thread reads is empty and every row of the shutdown list has its timer set,
-- the shutdown list is empty.
abbrev pub Stamped : Process → Type 0
Stamped r = in_shutdown r ≡ true → is_set r ≡ true

abbrev pub Away : Process → Type 0
Away r = in_shutdown r ≡ false

select-holds : (p : Process → Bool) (rows : List Process) → All (λ r. p r ≡ true) (select p rows)
select-holds p [] = tt
select-holds p (r ∷ rows) = elim (Bool-cases (p r)) [
  | inl e ↦ rw e (e, select-holds p rows)
  | inr e ↦ rw e (select-holds p rows)
]

none-Away : (rows : List Process) → select is_set rows ≡ [] → All Stamped rows → All Away rows
none-Away [] e h = tt
none-Away (r ∷ rows) e h = elim (Bool-cases (is_set r)) [
  | inl set ↦ absurd (ground (arith, e, set))
  | inr unset ↦
      let here : in_shutdown r ≡ false = elim (Bool-cases (in_shutdown r)) [
        | inl sh ↦ absurd (ground (arith, h.0 sh, unset))
        | inr away ↦ away
      ] in
      (here, none-Away rows (ground (arith, e, unset)) h.1)
]

empty-Away :
    (rows chosen : List Process)
    → select is_set rows ≡ chosen
    → timer_is_empty (earliest_of chosen) ≡ true
    → All Stamped rows
    → All Away rows
empty-Away rows [] e h stamped = none-Away rows e stamped
empty-Away rows (r ∷ rs) e h stamped =
    let all = subst (All (λ q. is_set q ≡ true)) e (select-holds is_set rows) in
    absurd (ground (arith, h, earliest-set r.signaltime rs (set_timer r all.0) all.1))

pub empty_timer-Away :
    (s : Store)
    → timer_is_empty (shutdown_get_min_signaltimer s) ≡ true
    → All Stamped s.processes
    → All Away s.processes
unfolding shutdown_get_min_signaltimer
empty_timer-Away s h stamped = empty-Away s.processes _ refl h stamped
