-- ===== src/Manager/Failures.antt =====
-- process_manager.c: what counts a startup failure, and what keeps the count.
use qgis_scheduler.Prelude.{
  ℕ, suc, ◌≡◌, refl, ap, ◌∙◌, Bool, Bool-cases, true, false, not, ◌||◌, inl, inr, Option, none,
  some, List, [], ◌∷◌, map, arith, ltb, String, select,
}
use qgis_scheduler.Outcome.{Outcome, ok, fault, ◌>>=◌, ◌>>◌, assert, Ensures, bind-Ensures}
use qgis_scheduler.Database.{Store, Project, list_shutdown, update, last_of}
use qgis_scheduler.Database.Processes.{move_process_to_list}
use qgis_scheduler.Database.Projects.{
  is_named, with_crashs, inc_startup_failures, get_startup_failures, find_project,
}
use qgis_scheduler.Manager.{restart_process, restart_starts, shutdown_add_process}

module _ {ℓ} {A : Type ℓ} (p : A → Bool) (f : A → A) (kept : (x : A) → p (f x) ≡ p x) where
  select-update : (xs : List A) → select p (update p f xs) ≡ map f (select p xs)
  select-update [] = refl
  select-update (x ∷ xs) = elim (Bool-cases (p x)) [
    | inl e ↦ rw (e, kept x, e, select-update xs) refl
    | inr e ↦ rw (e, e, select-update xs) refl
  ]

  last_of-map : (xs : List A) (x : A) → last_of xs ≡ some x → last_of (map f xs) ≡ some (f x)
  last_of-map [] x e = absurd (ground (arith, e))
  last_of-map (y ∷ []) x e = ap (λ (o : Option A). elim o [ none ↦ none | some z ↦ some (f z) ]) e
  last_of-map (y ∷ z ∷ zs) x e = last_of-map (z ∷ zs) x e

behind-Ensures {ℓ κ μ} :
    {A : Type ℓ} {B : Type κ} (Q : B → Type μ) (o : Outcome A) (f : A → Outcome B)
    → ((a : A) → Ensures Q (f a))
    → Ensures Q (o >>= f)
behind-Ensures Q (ok a) f k = k a
behind-Ensures Q (fault why) f k = tt

behind_test {ℓ μ} :
    {B : Type ℓ} (Q : B → Type μ) (b : Bool) (next : Outcome B)
    → Ensures Q next
    → Ensures Q (assert b >> next)
behind_test Q true next h = h
behind_test Q false next h = tt

-- A call keeps the table of the projects.
pub SameProjects : Store → Store → Type 0
SameProjects s s' = s'.projects ≡ s.projects

moved-SameProjects :
    (down thread : Bool) (s : Store) (pid : ℕ)
    → Ensures (SameProjects s) (shutdown_add_process down thread s pid)
unfolding shutdown_add_process move_process_to_list SameProjects
moved-SameProjects down thread s pid = behind_test (SameProjects s) (down || not thread) _ (
    bind-Ensures (SameProjects s) (SameProjects s) (move_process_to_list s list_shutdown pid) _
      (behind_test (SameProjects s) (ltb 0 pid) _ refl) λ s' same. same)

pub restart_process-SameProjects :
    (down thread : Bool) (s : Store) (pid : ℕ)
    → Ensures (λ r. SameProjects s r.store) (restart_process down thread s pid)
unfolding restart_process
restart_process-SameProjects down thread s pid =
    behind-Ensures (λ r. SameProjects s r.store) (restart_starts down s pid) _
      λ starts.
        bind-Ensures (SameProjects s) (λ r. SameProjects s r.store)
          (shutdown_add_process down thread s pid) _ (moved-SameProjects down thread s pid)
          λ s' same. same

crashes_of :
    (o : Option Project) (n : ℕ)
    → (elim o [ none ↦ none | some r ↦ some r.nr_crashs ]) ≡ some n
    → (r : Project) × (o ≡ some r) × (r.nr_crashs ≡ n)
crashes_of none n e = absurd (ground (arith, e))
crashes_of (some r) n e = (r, refl, ground (arith, e))

pub counted :
    (s : Store) (projname : String) (n : ℕ)
    → get_startup_failures s projname ≡ some n
    → get_startup_failures (inc_startup_failures s projname) projname ≡ some (suc n)
unfolding get_startup_failures inc_startup_failures
counted s projname n e =
    let (r, found, count) = crashes_of (find_project s projname) n e in
    let p = is_named projname in
    let f : Project → Project = with_crashs suc in
    let rows = ap last_of (select-update p f (λ x. refl) s.projects) in
    let last = last_of-map p f (λ x. refl) (select p s.projects) r found in
    ap (λ (o : Option Project). elim o [ none ↦ none | some r ↦ some r.nr_crashs ]) (rows ∙ last)
    ∙ ap (λ m. some (suc m)) count

pub same_failures :
    (s s' : Store) (projname : String)
    → SameProjects s s'
    → get_startup_failures s' projname ≡ get_startup_failures s projname
unfolding get_startup_failures SameProjects
same_failures s s' projname e =
    ap
      (λ rows. elim (last_of (select (is_named projname) rows)) [
        | none ↦ none
        | some r ↦ some r.nr_crashs
      ])
      e
