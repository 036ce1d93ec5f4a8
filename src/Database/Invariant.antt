-- ===== src/Database/Invariant.antt =====
-- What every sequence of the database's operations keeps of the two tables.
use qgis_scheduler.Prelude.{
  ℕ, ◌≡◌, refl, sym, ap, ◌∙◌, subst, Bool, Bool-cases, true, false, inl, inr, List, [], ◌∷◌, ◌++◌,
  arith, ltb, ◌==◌, String, str_eq, eq_iff, ℤ, All, suc, All-append,
}
use qgis_scheduler.Outcome.{ok}
use qgis_scheduler.Timer.{Timespec}
use qgis_scheduler.Database.{
  Process, ProcessState, ProcessList, proc_open_idle, Project, Store, update, any,
}
use qgis_scheduler.Database.Processes.{
  has_pid, new_process, add_process, process_set_state, with_state, with_list, with_signaltime,
  move_process_to_list, move_all, move_all_process_to_list, reset_signal_timer,
  remove_process_with_state_exit,
}
use qgis_scheduler.Database.Projects.{
  is_named, new_project, add_project, remove_project, inc_startup_failures, reset_startup_failures,
  add_new_inotify_path, remove_inotify_path, with_crashs, with_config,
}
use qgis_scheduler.Database.Rows.{
  Distinct, DistinctPids, Distinct-select, Distinct-snoc, Distinct-update, any-none, All-select,
  All-update,
}

abbrev pub is_open_idle : ProcessState → Bool
is_open_idle proc_open_idle = true
is_open_idle _ = false

-- A pid is positive, and the deprecated state is not used.
abbrev pub IsSound : Process → Type 0
IsSound r = (ltb 0 r.pid ≡ true) × (is_open_idle r.state ≡ false)

abbrev pub DistinctNames : List Project → Type 0
DistinctNames rows = Distinct is_named (λ r. r.name) rows

pub record WellFormed (s : Store) : Type 0 where
  pub pids : DistinctPids s.processes
  pub names : DistinctNames s.projects
  pub sound : All IsSound s.processes

-- One operation that changes a table. A process is given any state but the deprecated one, which no
-- caller names.
pub data Step : Store → Store → Type 0 where
  adds_process :
      {s s' : Store} (projname : String) (pid fd : ℕ)
      → add_process s projname pid fd ≡ ok s'
      → Step s s'
  sets_state :
      {s : Store} (pid : ℕ) (state : ProcessState) (threadid : ℕ)
      → is_open_idle state ≡ false
      → Step s (process_set_state s pid state threadid)
  moves_process :
      {s s' : Store} (list : ProcessList) (pid : ℕ)
      → move_process_to_list s list pid ≡ ok s'
      → Step s s'
  moves_project :
      {s : Store} (projname : String) (from to : ProcessList) → Step s (move_all s projname from to)
  moves_all : {s : Store} (list : ProcessList) → Step s (move_all_process_to_list s list)
  resets_timer : {s : Store} (pid : ℕ) (ts : Timespec) → Step s (reset_signal_timer s pid ts)
  removes_exit : {s : Store} → Step s (remove_process_with_state_exit s)
  adds_project : {s s' : Store} (projname : String) → add_project s projname ≡ ok s' → Step s s'
  removes_project : {s : Store} (projname : String) → Step s (remove_project s projname)
  counts_failure : {s : Store} (projname : String) → Step s (inc_startup_failures s projname)
  resets_failures : {s : Store} (projname : String) → Step s (reset_startup_failures s projname)
  adds_path :
      {s : Store} (basename : String → String) (projname path : String) (watchd : ℤ)
      → Step s (add_new_inotify_path basename s projname path watchd)
  removes_path : {s : Store} (projname : String) → Step s (remove_inotify_path s projname)

pub data Steps : Store → Store → Type 0 where
  done : {s : Store} → Steps s s
  step_then : {s s' s'' : Store} → Step s s' → Steps s' s'' → Steps s s''

-- An update of the processes that keeps the pids and sound rows.
update-WellFormed :
    (s : Store) (p : Process → Bool) (f : Process → Process) (change : Bool)
    → ((r : Process) → (f r).pid ≡ r.pid)
    → ((r : Process) → IsSound r → IsSound (f r))
    → WellFormed s
    → WellFormed (record s { processes = update p f s.processes; has_list_change = change })
update-WellFormed s p f change kept sound w = record {
  pids =
      Distinct-update has_pid (λ r. r.pid) f (λ k r. ap (λ n. n == k) (kept r)) kept p s.processes
        w.pids;
  names = w.names;
  sound = All-update IsSound p f s.processes sound w.sound;
}

-- An update of the projects that keeps the names.
projects-WellFormed :
    (s : Store) (p : Project → Bool) (f : Project → Project)
    → ((r : Project) → (f r).name ≡ r.name)
    → WellFormed s
    → WellFormed (record s { projects = update p f s.projects })
projects-WellFormed s p f kept w = record {
  pids = w.pids;
  names =
      Distinct-update is_named (λ r. r.name) f (λ k r. ap (λ n. str_eq n k) (kept r)) kept p
        s.projects w.names;
  sound = w.sound;
}

pub ==-swap : (a b : ℕ) → (a == b) ≡ (b == a)
==-swap a b = ground arith

str_eq-swap : (a b : String) → str_eq a b ≡ str_eq b a
str_eq-swap a b = elim (Bool-cases (str_eq a b)) [
  | inl e ↦ e ∙ sym ((eq_iff b a).1 (sym ((eq_iff a b).0 e)))
  | inr e ↦ elim (Bool-cases (str_eq b a)) [
    | inl f ↦ absurd (cc (e, (eq_iff a b).1 (sym ((eq_iff b a).0 f))))
    | inr f ↦ e ∙ sym f
  ]
]

add_process-WellFormed :
    (s s' : Store) (projname : String) (pid fd : ℕ)
    → add_process s projname pid fd ≡ ok s'
    → WellFormed s
    → WellFormed s'
unfolding add_process
add_process-WellFormed s s' projname pid fd e w = elim (Bool-cases (ltb 0 pid)) [
  | inr g ↦ absurd (ground (arith, e, g))
  | inl g ↦ elim (Bool-cases (any (has_pid pid) s.processes)) [
    | inl h ↦ let same : s ≡ s' = ground (arith, e, g, h) in subst WellFormed same w
    | inr h ↦
        let same : record s { processes = s.processes ++ (new_process projname pid fd ∷ []) } ≡ s' =
          ground (arith, e, g, h) in
        subst WellFormed same (record {
          pids =
              Distinct-snoc has_pid (λ r. r.pid) s.processes (new_process projname pid fd)
                (λ x. ==-swap pid x.pid) w.pids (any-none (has_pid pid) s.processes h);
          names = w.names;
          sound =
              All-append IsSound s.processes (new_process projname pid fd ∷ []) w.sound
                ((g, refl), tt);
        })
  ]
]

add_project-WellFormed :
    (s s' : Store) (projname : String)
    → add_project s projname ≡ ok s'
    → WellFormed s
    → WellFormed s'
unfolding add_project
add_project-WellFormed s s' projname e w = elim (Bool-cases (any (is_named projname) s.projects)) [
  | inl h ↦ absurd (ground (arith, e, h))
  | inr h ↦
      let same : record s { projects = s.projects ++ (new_project projname ∷ []) } ≡ s' =
        ground (arith, e, h) in
      subst WellFormed same (record {
        pids = w.pids;
        names =
            Distinct-snoc is_named (λ r. r.name) s.projects (new_project projname)
              (λ x. str_eq-swap projname x.name) w.names
              (any-none (is_named projname) s.projects h);
        sound = w.sound;
      })
]

move_process_to_list-WellFormed :
    (s s' : Store) (list : ProcessList) (pid : ℕ)
    → move_process_to_list s list pid ≡ ok s'
    → WellFormed s
    → WellFormed s'
unfolding move_process_to_list
move_process_to_list-WellFormed s s' list pid e w =
    let same : record s { processes = update (has_pid pid) (with_list list) s.processes } ≡ s' =
      ground (arith, e) in
    subst WellFormed same (
      update-WellFormed s (has_pid pid) (with_list list) s.has_list_change (λ r. refl) (λ r g. g) w)

-- Every operation keeps the tables well-formed.
pub Step-WellFormed : {s s' : Store} → Step s s' → WellFormed s → WellFormed s'
unfolding process_set_state move_all move_all_process_to_list reset_signal_timer
    remove_process_with_state_exit remove_project inc_startup_failures reset_startup_failures
    add_new_inotify_path remove_inotify_path
Step-WellFormed (adds_process projname pid fd e) w = add_process-WellFormed _ _ projname pid fd e w
Step-WellFormed {s} (sets_state pid state threadid h) w =
    update-WellFormed s (has_pid pid) (with_state state threadid) s.has_list_change (λ r. refl)
      (λ r g. (g.0, h)) w
Step-WellFormed (moves_process list pid e) w = move_process_to_list-WellFormed _ _ list pid e w
Step-WellFormed {s} (moves_project projname from to) w =
    update-WellFormed s _ (with_list to) true (λ r. refl) (λ r g. g) w
Step-WellFormed {s} (moves_all list) w =
    update-WellFormed s (λ r. true) (with_list list) s.has_list_change (λ r. refl) (λ r g. g) w
Step-WellFormed {s} (resets_timer pid ts) w =
    update-WellFormed s _ (with_signaltime ts) s.has_list_change (λ r. refl) (λ r g. g) w
Step-WellFormed {s} removes_exit w = record {
  pids = Distinct-select has_pid (λ r. r.pid) _ s.processes w.pids;
  names = w.names;
  sound = All-select IsSound _ s.processes w.sound;
}
Step-WellFormed (adds_project projname e) w = add_project-WellFormed _ _ projname e w
Step-WellFormed {s} (removes_project projname) w = record {
  pids = w.pids;
  names = Distinct-select is_named (λ r. r.name) _ s.projects w.names;
  sound = w.sound;
}
Step-WellFormed {s} (counts_failure projname) w =
    projects-WellFormed s _ (with_crashs suc) (λ r. refl) w
Step-WellFormed {s} (resets_failures projname) w =
    projects-WellFormed s _ (with_crashs (λ n. 0)) (λ r. refl) w
Step-WellFormed {s} (adds_path basename projname path watchd) w =
    projects-WellFormed s _ (with_config path (basename path) watchd) (λ r. refl) w
Step-WellFormed {s} (removes_path projname) w =
    projects-WellFormed s _ (with_config "" "" _) (λ r. refl) w

-- From the empty tables of db_init() every sequence of operations keeps pids distinct and positive,
-- project names distinct, and the deprecated state unused.
pub Steps-WellFormed : {s s' : Store} → WellFormed s → Steps s s' → WellFormed s'
Steps-WellFormed w done = w
Steps-WellFormed w (step_then h rest) = Steps-WellFormed (Step-WellFormed h w) rest
