-- ===== src/Shutdown/Advance.antt =====
-- The shutdown thread's check of one process changes the row of that process alone.
use qgis_scheduler.Prelude.{
  ℕ, ◌≡◌, ◌≢◌, refl, sym, ap, ◌∙◌, subst, Bool-cases, true, false, inl, inr, some, List, ◌∷◌, ◌++◌,
  arith, ltb, if◌then◌else◌, select,
}
use qgis_scheduler.Outcome.{ok}
use qgis_scheduler.Database.{
  Process, Store, Signal, sigterm, sigkill, ProcessState, proc_start, proc_init, proc_idle,
  proc_open_idle, proc_busy, proc_term, proc_kill, proc_exit, update, last_of,
}
use qgis_scheduler.Database.Processes.{
  has_pid, find_process, with_state, with_signaltime, get_process_socket, process_set_state,
  process_set_state_exit, get_process_state, reset_signal_timer, get_signal_timer,
}
use qgis_scheduler.Database.Rows.{AbsentPid, update-one, find-one}
use qgis_scheduler.Database.Invariant.{is_open_idle}
use qgis_scheduler.Shutdown.{
  Killed, delivered, no_such_process, not_permitted, Environment, close_socket, cleanup_process,
  send_signal, is_due, check_state,
}

-- What becomes of a process, written on its row.
abbrev pub gone : Process → Process
gone r = with_state proc_exit 0 r

unfoldable pub signalled_row : Environment → Signal → ProcessState → Process → Killed → Process
signalled_row env signal next r delivered = with_signaltime (env.stamp r.pid) (with_state next 0 r)
signalled_row env signal next r no_such_process = gone r
signalled_row env signal next r not_permitted = r

abbrev sent_row : Environment → Signal → ProcessState → Process → Process
sent_row env signal next r = signalled_row env signal next r (env.kill r.pid signal)

unfoldable pub advance_from : Environment → Process → ProcessState → Process
advance_from env r proc_term =
    if is_due env r.signaltime then sent_row env sigkill proc_kill r else r
advance_from env r proc_kill = if is_due env r.signaltime then gone r else r
advance_from env r proc_exit = r
advance_from env r proc_open_idle = r
advance_from env r _ = sent_row env sigterm proc_term r

abbrev pub advance : Environment → Process → Process
advance env r = advance_from env r r.state

signalled_row-pid :
    (env : Environment) (signal : Signal) (next : ProcessState) (r : Process) (k : Killed)
    → (signalled_row env signal next r k).pid ≡ r.pid
unfolding signalled_row
signalled_row-pid env signal next r delivered = refl
signalled_row-pid env signal next r no_such_process = refl
signalled_row-pid env signal next r not_permitted = refl

pub advance-pid :
    (env : Environment) (r : Process) (st : ProcessState) → (advance_from env r st).pid ≡ r.pid
unfolding advance_from
advance-pid env r proc_term = elim (Bool-cases (is_due env r.signaltime)) [
  | inl e ↦ rw e (signalled_row-pid env sigkill proc_kill r _)
  | inr e ↦ rw e
]
advance-pid env r proc_kill = elim (Bool-cases (is_due env r.signaltime)) [
  | inl e ↦ rw e
  | inr e ↦ rw e
]
advance-pid env r proc_exit = refl
advance-pid env r proc_open_idle = refl
advance-pid env r proc_start = signalled_row-pid env sigterm proc_term r _
advance-pid env r proc_init = signalled_row-pid env sigterm proc_term r _
advance-pid env r proc_idle = signalled_row-pid env sigterm proc_term r _
advance-pid env r proc_busy = signalled_row-pid env sigterm proc_term r _

signalled_row-list :
    (env : Environment) (signal : Signal) (next : ProcessState) (r : Process) (k : Killed)
    → (signalled_row env signal next r k).list ≡ r.list
unfolding signalled_row
signalled_row-list env signal next r delivered = refl
signalled_row-list env signal next r no_such_process = refl
signalled_row-list env signal next r not_permitted = refl

pub advance-list :
    (env : Environment) (r : Process) (st : ProcessState) → (advance_from env r st).list ≡ r.list
unfolding advance_from
advance-list env r proc_term = elim (Bool-cases (is_due env r.signaltime)) [
  | inl e ↦ rw e (signalled_row-list env sigkill proc_kill r _)
  | inr e ↦ rw e
]
advance-list env r proc_kill = elim (Bool-cases (is_due env r.signaltime)) [
  | inl e ↦ rw e
  | inr e ↦ rw e
]
advance-list env r proc_exit = refl
advance-list env r proc_open_idle = refl
advance-list env r proc_start = signalled_row-list env sigterm proc_term r _
advance-list env r proc_init = signalled_row-list env sigterm proc_term r _
advance-list env r proc_idle = signalled_row-list env sigterm proc_term r _
advance-list env r proc_busy = signalled_row-list env sigterm proc_term r _

-- A table around the one row with the pid of `r`.
pub record At (s : Store) (front : List Process) (r : Process) (back : List Process) : Type 0 where
  pub rows : s.processes ≡ front ++ (r ∷ back)
  pub before : AbsentPid r.pid front
  pub behind : AbsentPid r.pid back

-- A pid that the thread can signal: kill() fails only as the process does not exist.
pub record Runnable (env : Environment) (pid : ℕ) : Type 0 where
  pub positive : ltb 0 pid ≡ true
  pub term_allowed : env.kill pid sigterm ≢ not_permitted
  pub kill_allowed : env.kill pid sigkill ≢ not_permitted

module _ (front back : List Process) where
  pub At-update :
      (s : Store) (r : Process) (f : Process → Process)
      → ((q : Process) → (f q).pid ≡ q.pid)
      → At s front r back
      → At (record s { processes = update (has_pid r.pid) f s.processes }) front (f r) back
  At-update s r f kept a = record {
    rows =
        ap (update (has_pid r.pid) f) a.rows
        ∙ update-one f r.pid front r back a.before refl a.behind;
    before = subst (λ n. AbsentPid n front) (sym (kept r)) a.before;
    behind = subst (λ n. AbsentPid n back) (sym (kept r)) a.behind;
  }

  pub At-find : (s : Store) (r : Process) → At s front r back → find_process s r.pid ≡ some r
  At-find s r a =
      ap (λ rows. last_of (select (has_pid r.pid) rows)) a.rows
      ∙ find-one r.pid front r back a.before refl a.behind

  At-cleanup :
      (s : Store) (r : Process)
      → ltb 0 r.pid ≡ true
      → At s front r back
      → (s' : Store) × (cleanup_process s r.pid ≡ ok s') × At s' front (gone r) back
  unfolding cleanup_process process_set_state_exit process_set_state get_process_socket close_socket
  At-cleanup s r positive a =
      let closed = record s { closed = r.process_socket_fd ∷ s.closed } in
      let same : At closed front r back = record {
        rows = a.rows;
        before = a.before;
        behind = a.behind;
      } in
      (
        record closed { processes = update (has_pid r.pid) (with_state proc_exit 0) s.processes },
        ground (arith, positive, At-find s r a),
        At-update closed r (with_state proc_exit 0) (λ q. refl) same,
      )

  At-delivered :
      (env : Environment) (s : Store) (r : Process) (signal : Signal) (next : ProcessState)
      → At s front r back
      → At
          (reset_signal_timer
            (process_set_state
              (record s { signals = record { target = r.pid; signal = signal } ∷ s.signals })
              r.pid
              next
              0)
            r.pid
            (env.stamp r.pid))
          front
          (with_signaltime (env.stamp r.pid) (with_state next 0 r))
          back
  unfolding process_set_state reset_signal_timer
  At-delivered env s r signal next a =
      let sent = record s { signals = record { target = r.pid; signal = signal } ∷ s.signals } in
      let same : At sent front r back = record {
        rows = a.rows;
        before = a.before;
        behind = a.behind;
      } in
      At-update _ (with_state next 0 r) (with_signaltime (env.stamp r.pid)) (λ q. refl)
        (At-update sent r (with_state next 0) (λ q. refl) same)

  -- `k` is the result of kill().
  At-send :
      (env : Environment) (s : Store) (r : Process) (signal : Signal) (next : ProcessState)
      (k : Killed)
      → env.kill r.pid signal ≡ k
      → k ≢ not_permitted
      → ltb 0 r.pid ≡ true
      → At s front r back
      → (s' : Store) × (send_signal env s r.pid signal next ≡ ok s')
        × At s' front (signalled_row env signal next r k) back
  unfolding signalled_row send_signal reset_signal_timer
  At-send env s r signal next delivered e permitted positive a =
      (_, rw (send_signal, e), At-delivered env s r signal next a)
  At-send env s r signal next no_such_process e permitted positive a =
      let (s', cleaned, after) = At-cleanup s r positive a in
      (s', rw (send_signal, e) cleaned, after)
  At-send env s r signal next not_permitted e permitted positive a = absurd (permitted refl)

  At-sent :
      (env : Environment) (s : Store) (r : Process) (signal : Signal) (next : ProcessState)
      → env.kill r.pid signal ≢ not_permitted
      → Runnable env r.pid
      → At s front r back
      → (s' : Store) × (send_signal env s r.pid signal next ≡ ok s')
        × At s' front (sent_row env signal next r) back
  At-sent env s r signal next allowed w a =
      At-send env s r signal next (env.kill r.pid signal) refl allowed w.positive a

  At-state :
      (s : Store) (r : Process) → At s front r back → get_process_state s r.pid ≡ some r.state
  unfolding get_process_state
  At-state s r a = rw (get_process_state, At-find s r a)

  At-timer : (s : Store) (r : Process) → At s front r back → get_signal_timer s r.pid ≡ r.signaltime
  unfolding get_signal_timer
  At-timer s r a = rw (get_signal_timer, At-find s r a)

  -- `st` is the state of the row.
  At-check_state :
      (env : Environment) (s : Store) (r : Process) (st : ProcessState)
      → is_open_idle st ≡ false
      → Runnable env r.pid
      → At s front r back
      → (s' : Store) × (check_state env s r.pid (some st) ≡ ok s')
        × At s' front (advance_from env r st) back
  unfolding check_state advance_from
  At-check_state env s r proc_start k w a = At-sent env s r sigterm proc_term w.term_allowed w a
  At-check_state env s r proc_init k w a = At-sent env s r sigterm proc_term w.term_allowed w a
  At-check_state env s r proc_idle k w a = At-sent env s r sigterm proc_term w.term_allowed w a
  At-check_state env s r proc_busy k w a = At-sent env s r sigterm proc_term w.term_allowed w a
  At-check_state env s r proc_term k w a = elim (Bool-cases (is_due env r.signaltime)) [
    | inl e ↦
        let (s', sent, after) = At-sent env s r sigkill proc_kill w.kill_allowed w a in
        (s', rw (At-timer s r a, e) sent, rw e after)
    | inr e ↦ (s, rw (At-timer s r a, e), rw e a)
  ]
  At-check_state env s r proc_kill k w a = elim (Bool-cases (is_due env r.signaltime)) [
    | inl e ↦
        let (s', cleaned, after) = At-cleanup s r w.positive a in
        (s', rw (At-timer s r a, e) cleaned, rw e after)
    | inr e ↦ (s, rw (At-timer s r a, e), rw e a)
  ]
  At-check_state env s r proc_exit k w a = (s, refl, a)
  At-check_state env s r proc_open_idle k w a = absurd (ground (arith, k))

  pub At-check :
      (env : Environment) (s : Store) (r : Process)
      → is_open_idle r.state ≡ false
      → Runnable env r.pid
      → At s front r back
      → (s' : Store) × (check_state env s r.pid (get_process_state s r.pid) ≡ ok s')
        × At s' front (advance env r) back
  At-check env s r k w a = rw (At-state s r a) (At-check_state env s r r.state k w a)
