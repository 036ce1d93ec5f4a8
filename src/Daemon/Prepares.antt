-- ===== src/Daemon/Prepares.antt =====
-- qgis-schedulerd.c: what the calls of main() before its loop settle.
use qgis_scheduler.Prelude.{
  ℕ, ◌≤◌, ◌≡◌, ◌≢◌, refl, sym, ap, subst, Bool, Bool-cases, true, false, not, ◌⊎◌, inl, inr, Option,
  none, some, List, [], ◌∷◌, arith, ltb, Option-cases, if◌then◌else◌, String,
}
use qgis_scheduler.Outcome.{Outcome, ok, ◌>>=◌}
use qgis_scheduler.Config.{
  Dictionary, Pointer, null, invalid_string, text, global_config_string, getstring,
}
use qgis_scheduler.Config.Changes.{IsSound}
use qgis_scheduler.Config.Values.{
  config_get_network_listen, config_get_network_port, config_get_chroot, config_get_chuser,
  config_get_pid_path,
}
use qgis_scheduler.Projects.Effects.{Works}
use qgis_scheduler.Daemon.{Daemon}
use qgis_scheduler.Daemon.Startup.{
  Chosen, fdlimit_needed, check_ressource_limits, Address, Served, bind_address, bind_first, User,
  Tty, terminal, log_file, tty_failed, StartCalls, change_root, own_logfile, become, change_user,
  open_pid_file, Running, prepare,
}

-- The descriptor of the first address that a socket can be bound to.
abbrev pub bound_fd : Address → Option ℕ
bound_fd a = if a.binds then a.socket else none

abbrev pub first_fd : List Address → Option ℕ
first_fd [] = none
first_fd (a ∷ rest) = elim (bound_fd a) [ none ↦ first_fd rest | some fd ↦ some fd ]

-- The calls work: the configuration is there and agrees with itself, some address can be bound, the
-- user that may be configured exists.
pub record StartsWork (calls : StartCalls) (c : Chosen) (path : String) (d : Dictionary)
    (addresses : List Address) (fd limit : ℕ) : Type 0 where
  pub found : calls.realpath c.config_path ≡ some path
  pub loads : calls.newconfig path ≡ some d
  pub sound : IsSound d
  pub limits : calls.fdlimit ≡ some limit
  pub sets_limit : calls.setrlimit ≡ true
  pub resolves :
      calls.getaddrinfo (config_get_network_listen d) (config_get_network_port d) ≡ some addresses
  pub binds : first_fd addresses ≡ some fd
  pub listens : calls.listen ≡ true
  pub changes_root : (p : String) → calls.chroot p ≡ true
  pub knows : (n : String) → (u : User) × (calls.getpwnam n ≡ some u)
  pub looks : calls.isatty ≢ tty_failed
  pub owns : calls.fchown ≡ true
  pub groups : (gid : ℕ) → calls.setgid gid ≡ true
  pub users : (uid : ℕ) → calls.setuid uid ≡ true
  pub changes_dir : calls.chdir ≡ true
  pub opens_pid : (p : String) → calls.open_pid p ≡ true
  pub daemonizes : calls.daemonizes ≡ true
  pub pipes : calls.pipes ≡ true
  pub installs : calls.installs ≡ true
  pub files_work : Works calls.files

limited :
    (calls : StartCalls) (d : Dictionary) (limit : ℕ)
    → calls.fdlimit ≡ some limit
    → calls.setrlimit ≡ true
    → (l : ℕ) × (check_ressource_limits calls.fdlimit calls.setrlimit d ≡ ok l)
      × (fdlimit_needed d ≤ l)
unfolding check_ressource_limits
limited calls d limit e f = elim (Bool-cases (ltb limit (fdlimit_needed d))) [
  | inl low ↦ (fdlimit_needed d, rw (check_ressource_limits, e, low, f) refl, omega arith)
  | inr enough ↦ (limit, rw (check_ressource_limits, e, enough) refl, ground (arith, enough))
]

abbrev Serves : ℕ → Outcome Served → Type 0
Serves fd o = (s : Served) × (o ≡ ok s) × (s.serversocketfd ≡ fd)

bound_at :
    (socket : Option ℕ) (binds : Bool) (later : Option ℕ) (next : Outcome Served) (fd : ℕ)
    → (later ≡ some fd → Serves fd next)
    → (elim (if binds then socket else none) [ none ↦ later | some f ↦ some f ]) ≡ some fd
    → Serves fd (elim socket [ none ↦ next | some f ↦ bind_address binds f next ])
unfolding bind_address
bound_at none true later next fd h e = h e
bound_at none false later next fd h e = h e
bound_at (some f) true later next fd h e =
    (record { serversocketfd = f; closed = [] }, refl, ground (arith, e))
bound_at (some f) false later next fd h e =
    let (s, ran, same) = h e in
    (
      record s { closed = f ∷ s.closed },
      ap (λ o. o >>= λ (s : Served). ok (record s { closed = f ∷ s.closed })) ran,
      same,
    )

bound_first :
    (addresses : List Address) (fd : ℕ)
    → first_fd addresses ≡ some fd
    → (s : Served) × (bind_first addresses ≡ ok s) × (s.serversocketfd ≡ fd)
unfolding bind_first bind_address
bound_first [] fd e = absurd (ground (arith, e))
bound_first (a ∷ rest) fd e =
    bound_at a.socket a.binds (first_fd rest) (bind_first rest) fd (bound_first rest fd) e

pointer_cases :
    (d : Dictionary) (key : String)
    → (global_config_string d key null ≡ null)
      ⊎ ((t : String) × (global_config_string d key null ≡ text t))
unfolding global_config_string getstring
pointer_cases d key = elim (Option-cases (d.value key)) [
  | inl e ↦ inl (ap (λ (o : Option String). elim o [ none ↦ null | some v ↦ text v ]) e)
  | inr (t, e) ↦ inr (t, ap (λ (o : Option String). elim o [ none ↦ null | some v ↦ text v ]) e)
]

rooted :
    (calls : StartCalls) (p : Pointer)
    → (p ≡ null) ⊎ ((t : String) × (p ≡ text t))
    → ((q : String) → calls.chroot q ≡ true)
    → (root : Option String) × (change_root calls p ≡ ok root)
unfolding change_root
rooted calls p (inl e) works = (none, rw (change_root, e) refl)
rooted calls p (inr (t, e)) works = (some t, rw (change_root, e, works t) refl)

owned :
    (calls : StartCalls) (tty : Tty)
    → tty ≢ tty_failed
    → calls.fchown ≡ true
    → own_logfile calls tty ≡ ok tt
unfolding own_logfile
owned calls terminal h e = refl
owned calls log_file h e = rw (own_logfile, e) refl
owned calls tty_failed h e = absurd (h refl)

-- The user that the program has become is the one that is configured.
abbrev pub IsUser : StartCalls → Pointer → Option User → Type 0
IsUser calls null user = user ≡ none
IsUser calls invalid_string user = ⊥
IsUser calls (text name) user = user ≡ calls.getpwnam name

pid_opened :
    (calls : StartCalls) (p : Pointer)
    → ((q : String) → calls.open_pid q ≡ true)
    → open_pid_file calls p ≡ ok tt
unfolding open_pid_file
pid_opened calls null h = refl
pid_opened calls invalid_string h = refl
pid_opened calls (text path) h = rw (open_pid_file, h path) refl

became :
    (calls : StartCalls) (p : Pointer)
    → (p ≡ null) ⊎ ((t : String) × (p ≡ text t))
    → ((n : String) → (u : User) × (calls.getpwnam n ≡ some u))
    → own_logfile calls calls.isatty ≡ ok tt
    → ((gid : ℕ) → calls.setgid gid ≡ true)
    → ((uid : ℕ) → calls.setuid uid ≡ true)
    → (user : Option User) × (change_user calls p ≡ ok user) × IsUser calls p user
unfolding change_user become
became calls p (inl e) knows owned groups users =
    (none, rw (change_user, e) refl, subst (λ q. IsUser calls q none) (sym e) refl)
became calls p (inr (t, e)) knows owned groups users =
    let (u, known) = knows t in
    (
      some u,
      rw (change_user, e, known, owned, groups u.gid, users u.uid) refl,
      subst (λ q. IsUser calls q (some u)) (sym e) (sym known),
    )

-- What the part up to the handlers settles.
abbrev pub Prepares : StartCalls → Bool → Dictionary → ℕ → (Daemon → Running) → Type 0
Prepares calls no_daemon d fd running =
    (daemon : Daemon)
    → ((running daemon).daemon ≡ daemon)
      × ((running daemon).serversocketfd ≡ fd)
      × (fdlimit_needed d ≤ (running daemon).fdlimit)
      × IsUser calls (config_get_chuser d) (running daemon).user
      × ((running daemon).in_background ≡ not no_daemon)

prepare_lem :
    (calls : StartCalls) (no_daemon : Bool) (d : Dictionary) (addresses : List Address) (l : ℕ)
    (s : Served) (root : Option String) (user : Option User)
    → check_ressource_limits calls.fdlimit calls.setrlimit d ≡ ok l
    → calls.getaddrinfo (config_get_network_listen d) (config_get_network_port d) ≡ some addresses
    → bind_first addresses ≡ ok s
    → calls.listen ≡ true
    → change_root calls (config_get_chroot d) ≡ ok root
    → change_user calls (config_get_chuser d) ≡ ok user
    → calls.chdir ≡ true
    → open_pid_file calls (config_get_pid_path d) ≡ ok tt
    → (if no_daemon then true else calls.daemonizes) ≡ true
    → calls.pipes ≡ true
    → calls.installs ≡ true
    → prepare calls no_daemon d
      ≡ ok (λ daemon. record {
        daemon = daemon;
        serversocketfd = s.serversocketfd;
        root = root;
        user = user;
        in_background = not no_daemon;
        fdlimit = l;
      })
unfolding prepare
prepare_lem calls no_daemon d addresses l s root user limits resolves serves listens roots becomes
      changes pid daemonized pipes installs =
    rw
      (
        prepare, limits, resolves, serves, listens, roots, becomes, changes, pid, daemonized, pipes,
        installs,
      )
      refl

pub prepared :
    (calls : StartCalls) (c : Chosen) (path : String) (d : Dictionary) (addresses : List Address)
    (fd limit : ℕ)
    → StartsWork calls c path d addresses fd limit
    → (running : Daemon → Running) × (prepare calls c.no_daemon d ≡ ok running)
      × Prepares calls c.no_daemon d fd running
unfolding prepare config_get_chroot config_get_chuser
prepared calls c path d addresses fd limit w =
    let (l, limits, enough) = limited calls d limit w.limits w.sets_limit in
    let (s, serves, same) = bound_first addresses fd w.binds in
    let (root, roots) =
      rooted calls (config_get_chroot d) (pointer_cases d ":chroot") w.changes_root in
    let (user, becomes, is_user) =
      became calls (config_get_chuser d) (pointer_cases d ":chuser") w.knows
        (owned calls calls.isatty w.looks w.owns) w.groups w.users in
    let pid = pid_opened calls (config_get_pid_path d) w.opens_pid in
    let daemonized : (if c.no_daemon then true else calls.daemonizes) ≡ true =
      ground (arith, w.daemonizes) in
    (
      _,
      prepare_lem calls c.no_daemon d addresses l s root user limits w.resolves serves w.listens
          roots becomes w.changes_dir pid daemonized w.pipes w.installs,
      λ daemon. (refl, same, enough, is_user, refl),
    )
