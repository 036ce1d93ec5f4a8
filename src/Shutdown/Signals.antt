-- ===== src/Shutdown/Signals.antt =====
-- Which signals the shutdown thread sends, and to whom.
use qgis_scheduler.Prelude.{
  ℕ, ◌≡◌, refl, Bool, Bool-cases, true, false, ◌⊎◌, inl, inr, Option, none, some, ◌∷◌, arith, ltb,
}
use qgis_scheduler.Outcome.{ok}
use qgis_scheduler.Database.{
  Store, Signal, sigterm, sigkill, ProcessState, proc_start, proc_init, proc_idle, proc_open_idle,
  proc_busy, proc_term, proc_kill, proc_exit,
}
use qgis_scheduler.Database.Processes.{
  get_process_socket, process_set_state, process_set_state_exit, reset_signal_timer,
  get_signal_timer,
}
use qgis_scheduler.Shutdown.{
  Killed, delivered, no_such_process, not_permitted, Environment, close_socket, cleanup_process,
  send_signal, is_due, check_state,
}

-- A process that was not signalled yet.
abbrev pub is_running : Option ProcessState → Bool
is_running (some proc_start) = true
is_running (some proc_init) = true
is_running (some proc_idle) = true
is_running (some proc_busy) = true
is_running _ = false

close_socket-signals : (s : Store) (fd : Option ℕ) → (close_socket s fd).signals ≡ s.signals
unfolding close_socket
close_socket-signals s none = refl
close_socket-signals s (some fd) = refl

cleanup_process-signals :
    (s s' : Store) (pid : ℕ) → cleanup_process s pid ≡ ok s' → s'.signals ≡ s.signals
unfolding cleanup_process process_set_state_exit process_set_state
cleanup_process-signals s s' pid e = elim (Bool-cases (ltb 0 pid)) [
  | inl g ↦ ground (arith, e, g, close_socket-signals s (get_process_socket s pid))
  | inr g ↦ absurd (ground (arith, e, g))
]

send_signal-signals :
    (env : Environment) (s s' : Store) (pid : ℕ) (signal : Signal) (next : ProcessState)
    (k : Killed)
    → env.kill pid signal ≡ k
    → send_signal env s pid signal next ≡ ok s'
    → (s'.signals ≡ s.signals) ⊎ (s'.signals ≡ record { target = pid; signal = signal } ∷ s.signals)
unfolding send_signal process_set_state reset_signal_timer
send_signal-signals env s s' pid signal next delivered k e = inr (ground (arith, k, e))
send_signal-signals env s s' pid signal next no_such_process k e =
    inl (cleanup_process-signals s s' pid (ground (arith, k, e)))
send_signal-signals env s s' pid signal next not_permitted k e = absurd (ground (arith, k, e))

-- What a check may have sent, by the state that it found.
abbrev pub Signals : Environment → Store → ℕ → Option ProcessState → Store → Type 0
Signals env s pid st s' =
    (s'.signals ≡ s.signals)
    ⊎ (((s'.signals ≡ record { target = pid; signal = sigterm } ∷ s.signals)
          × (is_running st ≡ true))
        ⊎ ((s'.signals ≡ record { target = pid; signal = sigkill } ∷ s.signals)
            × (st ≡ some proc_term)
            × (is_due env (get_signal_timer s pid) ≡ true)))

term_sent :
    (env : Environment) (s s' : Store) (pid : ℕ) (st : ProcessState)
    → is_running (some st) ≡ true
    → send_signal env s pid sigterm proc_term ≡ ok s'
    → Signals env s pid (some st) s'
term_sent env s s' pid st run e =
    elim (send_signal-signals env s s' pid sigterm proc_term _ refl e) [
      | inl same ↦ inl same
      | inr more ↦ inr (inl (more, run))
    ]

-- A check of the shutdown thread that succeeds sends at most one signal, to the process that it checks:
-- SIGTERM only if the process has not been signalled yet, SIGKILL only if it was sent SIGTERM and the
-- timeout has passed since.
pub check_state-Signals :
    (env : Environment) (s s' : Store) (pid : ℕ) (st : Option ProcessState)
    → check_state env s pid st ≡ ok s'
    → Signals env s pid st s'
unfolding check_state
check_state-Signals env s s' pid (some proc_start) e = term_sent env s s' pid proc_start refl e
check_state-Signals env s s' pid (some proc_init) e = term_sent env s s' pid proc_init refl e
check_state-Signals env s s' pid (some proc_idle) e = term_sent env s s' pid proc_idle refl e
check_state-Signals env s s' pid (some proc_busy) e = term_sent env s s' pid proc_busy refl e
check_state-Signals env s s' pid (some proc_term) e =
    elim (Bool-cases (is_due env (get_signal_timer s pid))) [
      | inl due ↦
          elim (send_signal-signals env s s' pid sigkill proc_kill _ refl
            (ground (arith, e, due))) [
              | inl same ↦ inl same
              | inr more ↦ inr (inr (more, refl, due))
            ]
      | inr early ↦ inl (ground (arith, e, early))
    ]
check_state-Signals env s s' pid (some proc_kill) e =
    elim (Bool-cases (is_due env (get_signal_timer s pid))) [
      | inl due ↦ inl (cleanup_process-signals s s' pid (ground (arith, e, due)))
      | inr early ↦ inl (ground (arith, e, early))
    ]
check_state-Signals env s s' pid (some proc_exit) e = inl (ground (arith, e))
check_state-Signals env s s' pid (some proc_open_idle) e = absurd (ground (arith, e))
check_state-Signals env s s' pid none e = inl (ground (arith, e))
