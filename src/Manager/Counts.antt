-- ===== src/Manager/Counts.antt =====
-- process_manager.c: the startup failures of a project.
use qgis_scheduler.Prelude.{
  ℕ, suc, ◌+◌, ◌≤◌, ◌<◌, ◌≡◌, refl, sym, ap, ◌∙◌, Bool, Bool-cases, true, false, ◌⊎◌, inl, inr,
  some, List, [], arith, ltb, if◌then◌else◌, String, subst, ◌≢◌, lt→ltb, length,
}
use qgis_scheduler.Outcome.{Outcome, ok, ◌>>=◌, Returns, Ensures, Ensures-ok, bind-Ensures}
use qgis_scheduler.Config.{Dictionary}
use qgis_scheduler.Config.Values.{config_get_init_key, config_get_init_value}
use qgis_scheduler.Database.{Store, list_shutdown, update}
use qgis_scheduler.Database.Processes.{
  has_pid, with_list, process_set_state, process_set_state_idle, process_set_state_init,
  move_process_to_list,
}
use qgis_scheduler.Database.Projects.{inc_startup_failures, get_startup_failures}
use qgis_scheduler.Fcgi.Protocol.{Protocol}
use qgis_scheduler.Fcgi.Param.RoundTrip.{encoded_all}
use qgis_scheduler.Manager.Fills.{Gives, params_of}
use qgis_scheduler.Manager.Restarts.{restart_starts-Returns}
use qgis_scheduler.Manager.Talks.{bind-Returns, talk_to_child-Returns}
use qgis_scheduler.Manager.{
  start_new_process_wait, restart_process, shutdown_add_process, process_died_during_init,
}
use qgis_scheduler.Manager.Child.{
  ChildCalls, Talk, Initialised, settle_child, restart_child, check_child, init_new_child,
  max_init_keys, max_buffer_len,
}
use qgis_scheduler.Shutdown.{Killed, delivered, no_such_process, not_permitted}
use qgis_scheduler.Manager.Failures.{
  SameProjects, restart_process-SameProjects, counted, same_failures,
}

-- A further start of `num` processes, and how an initialisation ends for the count of failures: the child
-- is idle, or there is one more failure, and from the fourth on no process is started.
module _ (joined : Store) (num : ℕ) (exchange : Bool) where
  abbrev pub Counts : ℕ → String → Killed → Initialised → Type 0
  Counts n projname alive r =
      ((r.talk.has_child_crash ≡ false)
        × (alive ≡ delivered)
        × (get_startup_failures r.store projname ≡ some n)
        × (r.starts ≡ []))
      ⊎ (((r.talk.has_child_crash ≡ true) ⊎ (alive ≡ no_such_process))
          × (get_startup_failures r.store projname ≡ some (suc n))
          × ((suc n < 4)
              ⊎ (start_new_process_wait r.store joined num projname exchange
                  ≡ ok (record { store = r.store; num = 0 }))))

refused :
    (s joined : Store) (num n : ℕ) (projname : String) (exchange : Bool)
    → get_startup_failures s projname ≡ some n
    → 4 ≤ n
    → 0 < num
    → start_new_process_wait s joined num projname exchange ≡ ok (record { store = s; num = 0 })
unfolding start_new_process_wait
refused s joined num n projname exchange e many some_wanted = ground (arith, e)

module _ (joined : Store) (num : ℕ) (exchange : Bool) (wanted : 0 < num) where
  failed :
      (s : Store) (n : ℕ) (projname : String) (alive : Killed) (r : Initialised)
      → r.store ≡ inc_startup_failures s projname
      → (r.talk.has_child_crash ≡ true) ⊎ (alive ≡ no_such_process)
      → get_startup_failures s projname ≡ some n
      → Counts joined num exchange n projname alive r
  failed s n projname alive r same why e =
      let more : get_startup_failures r.store projname ≡ some (suc n) =
        ap (λ u. get_startup_failures u projname) same ∙ counted s projname n e in
      inr (
        why,
        more,
        elim (Bool-cases (ltb (suc n) 4)) [
          | inl few ↦ inl (ground (arith, few))
          | inr many ↦ inr (
              refused r.store joined num (suc n) projname exchange more (ground (arith, many))
                wanted)
        ],
      )

  restart_child-Counts :
      (thread : Bool) (s : Store) (pid n : ℕ) (projname : String) (alive : Killed) (t : Talk)
      → t.has_child_crash ≡ true
      → get_startup_failures s projname ≡ some n
      → Ensures
          (Counts joined num exchange n projname alive)
          (restart_child false thread s pid projname t)
  unfolding restart_child process_died_during_init
  restart_child-Counts thread s pid n projname alive t crash e =
      bind-Ensures (λ q. SameProjects s q.store) (Counts joined num exchange n projname alive)
        (restart_process false thread s pid) _ (restart_process-SameProjects false thread s pid)
        λ q same.
          failed q.store n projname alive
            (record { store = inc_startup_failures q.store projname; starts = q.starts; talk = t })
            refl (inl crash) (same_failures s q.store projname same ∙ e)

  check_child-Counts :
      (s : Store) (pid n : ℕ) (projname : String) (alive : Killed) (t : Talk)
      → t.has_child_crash ≡ false
      → get_startup_failures s projname ≡ some n
      → Ensures
          (Counts joined num exchange n projname alive)
          (check_child false s pid projname alive t)
  unfolding check_child process_died_during_init process_set_state_idle process_set_state
      get_startup_failures
  check_child-Counts s pid n projname delivered t fine e = inl (fine, refl, e, refl)
  check_child-Counts s pid n projname no_such_process t fine e =
      failed s n projname no_such_process
        (record { store = inc_startup_failures s projname; starts = []; talk = t }) refl (inr refl)
        e
  check_child-Counts s pid n projname not_permitted t fine e = tt

  settle_child-Counts :
      (thread : Bool) (s : Store) (pid n : ℕ) (projname : String) (alive : Killed) (t : Talk)
      → get_startup_failures s projname ≡ some n
      → Ensures
          (Counts joined num exchange n projname alive)
          (settle_child false thread s pid projname alive t)
  unfolding settle_child
  settle_child-Counts thread s pid n projname alive t e =
      let settle : Bool → Outcome Initialised = λ b.
        if b
        then restart_child false thread s pid projname t
        else check_child false s pid projname alive t in
      elim (Bool-cases t.has_child_crash) [
        | inl crash ↦
            subst (Ensures (Counts joined num exchange n projname alive)) (sym (ap settle crash))
              (restart_child-Counts thread s pid n projname alive t crash e)
        | inr fine ↦
            subst (Ensures (Counts joined num exchange n projname alive)) (sym (ap settle fine))
              (check_child-Counts s pid n projname alive t fine e)
      ]

check_child-Returns :
    (s : Store) (pid : ℕ) (projname : String) (alive : Killed) (t : Talk)
    → alive ≢ not_permitted
    → Returns (check_child false s pid projname alive t)
unfolding check_child
check_child-Returns s pid projname delivered t h = (_, refl)
check_child-Returns s pid projname no_such_process t h = (_, refl)
check_child-Returns s pid projname not_permitted t h = absurd (h refl)

settle_child-Returns :
    (s : Store) (pid : ℕ) (projname : String) (alive : Killed) (t : Talk)
    → 0 < pid
    → alive ≢ not_permitted
    → Returns (settle_child false false s pid projname alive t)
unfolding settle_child restart_child restart_process shutdown_add_process move_process_to_list
settle_child-Returns s pid projname alive t live allowed =
    let positive = lt→ltb 0 pid live in
    let settle : Bool → Outcome Initialised = λ b.
      if b
      then restart_child false false s pid projname t
      else check_child false s pid projname alive t in
    elim (Bool-cases t.has_child_crash) [
      | inl crash ↦
          let moved : Returns (shutdown_add_process false false s pid) = (
            record s {
              processes = update (has_pid pid) (with_list list_shutdown) s.processes;
              has_list_change = true;
            },
            rw (shutdown_add_process, positive) refl,
          ) in
          let restarts : Returns (restart_child false false s pid projname t) =
            bind-Returns _ _
              (bind-Returns _ _ (restart_starts-Returns false s pid live)
                λ starts. bind-Returns _ _ moved λ s'. (_, refl))
              λ r. (_, refl) in
          (restarts.0, ap settle crash ∙ restarts.1)
      | inr fine ↦
          let (r, checked) = check_child-Returns s pid projname alive t allowed in
          (r, ap settle fine ∙ checked)
    ]

-- The thread that initialises a child, while the program does not shut down, for a project with a known
-- number of startup failures and with parameters that fit the buffer: unless kill(pid, 0) is refused,
-- it returns, whatever the calls on the child give. Either the talk with the child went well, the child
-- lives, the number is as it was and nothing is started; or the talk was broken off or the child is
-- gone, and the number is one more. With the fourth failure every further start of processes for the
-- project, of one at least, starts none.
pub init_new_child-Counts :
    (decimal : ℕ → String) (p : Protocol) (responder : ℕ) (d : Dictionary) (s : Store)
    (pid thread_id n : ℕ) (projname : String) (calls : ChildCalls) (pairs : List (String × String))
    (joined : Store) (num : ℕ) (exchange : Bool)
    → 0 < pid
    → 0 < num
    → Gives
        (config_get_init_key decimal d (some projname))
        (config_get_init_value decimal d (some projname))
        0
        pairs
    → length pairs < max_init_keys
    → 8 + length (encoded_all (params_of pairs)) ≤ max_buffer_len
    → calls.alive ≢ not_permitted
    → get_startup_failures (calls.later (process_set_state_init s pid thread_id)) projname ≡ some n
    → (r : Initialised) × (init_new_child decimal p responder d false false s pid thread_id projname
          calls
        ≡ ok r)
      × Counts joined num exchange n projname calls.alive r
unfolding init_new_child
init_new_child-Counts decimal p responder d s pid thread_id n projname calls pairs joined num
      exchange live wanted gives few fits allowed e =
    let later = calls.later (process_set_state_init s pid thread_id) in
    let (t, talked) =
      talk_to_child-Returns p responder (config_get_init_key decimal d (some projname))
        (config_get_init_value decimal d (some projname)) calls pairs gives few fits in
    let (r, settled) = settle_child-Returns later pid projname calls.alive t live allowed in
    (
      r,
      rw (lt→ltb 0 pid live) (
          ap (λ o. o >>= λ t. settle_child false false later pid projname calls.alive t) talked
          ∙ settled),
      Ensures-ok (Counts joined num exchange n projname calls.alive) _ settled (
          settle_child-Counts joined num exchange wanted false later pid n projname calls.alive t
            e),
    )
