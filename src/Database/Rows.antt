-- ===== src/Database/Rows.antt =====
-- Tables whose rows have distinct keys: a statement on one key changes one row.
use qgis_scheduler.Prelude.{
  ℕ, ◌≡◌, refl, ap, ◌∙◌, subst, Bool, Bool-cases, true, false, inl, inr, some, List, [], ◌∷◌, ◌++◌,
  arith, select, All,
}
use qgis_scheduler.Database.{Process, update, delete, last_of, any}
use qgis_scheduler.Database.Processes.{has_pid}

module _ {ℓ} {A : Type ℓ} where
  pub update-none :
      (p : A → Bool) (f : A → A) (xs : List A) → All (λ x. p x ≡ false) xs → update p f xs ≡ xs
  update-none p f [] h = refl
  update-none p f (x ∷ xs) h = rw (h.0, update-none p f xs h.1)

  pub select-none : (p : A → Bool) (xs : List A) → All (λ x. p x ≡ false) xs → select p xs ≡ []
  select-none p [] h = refl
  select-none p (x ∷ xs) h = rw (h.0, select-none p xs h.1)

  pub update-append :
      (p : A → Bool) (f : A → A) (xs ys : List A)
      → update p f (xs ++ ys) ≡ update p f xs ++ update p f ys
  update-append p f [] ys = refl
  update-append p f (x ∷ xs) ys = rw (update-append p f xs ys)

  pub select-append :
      (p : A → Bool) (xs ys : List A) → select p (xs ++ ys) ≡ select p xs ++ select p ys
  select-append p [] ys = refl
  select-append p (x ∷ xs) ys = elim (Bool-cases (p x)) [
    | inl e ↦ rw (e, select-append p xs ys)
    | inr e ↦ rw (e, select-append p xs ys)
  ]

  pub any-none : (p : A → Bool) (xs : List A) → any p xs ≡ false → All (λ x. p x ≡ false) xs
  any-none p [] h = tt
  any-none p (x ∷ xs) h = elim (Bool-cases (p x)) [
    | inl e ↦ absurd (ground (arith, e, h))
    | inr e ↦ (e, any-none p xs (ground (arith, e, h)))
  ]

  pub All-select {κ} :
      (P : A → Type κ) (p : A → Bool) (xs : List A) → All P xs → All P (select p xs)
  All-select P p [] h = tt
  All-select P p (x ∷ xs) h = elim (Bool-cases (p x)) [
    | inl e ↦ rw e (h.0, All-select P p xs h.1)
    | inr e ↦ rw e (All-select P p xs h.1)
  ]

  pub All-update {κ} :
      (P : A → Type κ) (p : A → Bool) (f : A → A) (xs : List A)
      → ((x : A) → P x → P (f x))
      → All P xs
      → All P (update p f xs)
  All-update P p f [] keeps h = tt
  All-update P p f (x ∷ xs) keeps h = elim (Bool-cases (p x)) [
    | inl e ↦ rw e (keeps x h.0, All-update P p f xs keeps h.1)
    | inr e ↦ rw e (h.0, All-update P p f xs keeps h.1)
  ]

module _ {ℓ κ μ} {A : Type ℓ} (P : A → Type κ) (Q : A → Type μ) where
  -- An update, by what it does to the rows that it takes and to the others.
  pub All-updated :
      (p : A → Bool) (f : A → A) (xs : List A)
      → ((x : A) → p x ≡ true → P x → Q (f x))
      → ((x : A) → p x ≡ false → P x → Q x)
      → All P xs
      → All Q (update p f xs)
  All-updated p f [] changed same h = tt
  All-updated p f (x ∷ xs) changed same h = elim (Bool-cases (p x)) [
    | inl e ↦ rw e (changed x e h.0, All-updated p f xs changed same h.1)
    | inr e ↦ rw e (same x e h.0, All-updated p f xs changed same h.1)
  ]

  -- What is left by a deletion did not pass its test.
  pub All-deleted :
      (p : A → Bool) (xs : List A)
      → ((x : A) → p x ≡ false → P x → Q x)
      → All P xs
      → All Q (delete p xs)
  All-deleted p [] kept h = tt
  All-deleted p (x ∷ xs) kept h = elim (Bool-cases (p x)) [
    | inl e ↦ rw e (All-deleted p xs kept h.1)
    | inr e ↦ rw e (kept x e h.0, All-deleted p xs kept h.1)
  ]

-- Rows with a key, and the test that a statement makes for it.
module _ {ℓ κ} {A : Type ℓ} {K : Type κ} (hit : K → A → Bool) (key : A → K) where
  abbrev pub Absent : K → List A → Type 0
  Absent k xs = All (λ x. hit k x ≡ false) xs

  abbrev pub Distinct : List A → Type 0
  Distinct [] = Unit
  Distinct (x ∷ xs) = Absent (key x) xs × Distinct xs

  pub Distinct-select : (p : A → Bool) (xs : List A) → Distinct xs → Distinct (select p xs)
  Distinct-select p [] d = tt
  Distinct-select p (x ∷ xs) d = elim (Bool-cases (p x)) [
    | inl e ↦ rw e (All-select (λ y. hit (key x) y ≡ false) p xs d.0, Distinct-select p xs d.1)
    | inr e ↦ rw e (Distinct-select p xs d.1)
  ]

  -- A row at the end with a key of its own.
  Absent-snoc :
      (k : K) (xs : List A) (y : A) → Absent k xs → hit k y ≡ false → Absent k (xs ++ (y ∷ []))
  Absent-snoc k [] y h e = (e, tt)
  Absent-snoc k (x ∷ xs) y h e = (h.0, Absent-snoc k xs y h.1 e)

  pub Distinct-snoc :
      (xs : List A) (y : A)
      → ((x : A) → hit (key x) y ≡ hit (key y) x)
      → Distinct xs
      → Absent (key y) xs
      → Distinct (xs ++ (y ∷ []))
  Distinct-snoc [] y swap d h = (tt, tt)
  Distinct-snoc (x ∷ xs) y swap d h =
      (Absent-snoc (key x) xs y d.0 (swap x ∙ h.0), Distinct-snoc xs y swap d.1 h.1)

  -- An update that keeps the keys.
  module _ (f : A → A) (keeps : (k : K) (x : A) → hit k (f x) ≡ hit k x)
      (kept : (x : A) → key (f x) ≡ key x) where
    Absent-update : (k : K) (p : A → Bool) (xs : List A) → Absent k xs → Absent k (update p f xs)
    Absent-update k p xs h = All-update (λ x. hit k x ≡ false) p f xs (λ x e. keeps k x ∙ e) h

    pub Distinct-update : (p : A → Bool) (xs : List A) → Distinct xs → Distinct (update p f xs)
    Distinct-update p [] d = tt
    Distinct-update p (x ∷ xs) d = elim (Bool-cases (p x)) [
      | inl e ↦ rw (e, kept x) (Absent-update (key x) p xs d.0, Distinct-update p xs d.1)
      | inr e ↦ rw e (Absent-update (key x) p xs d.0, Distinct-update p xs d.1)
    ]

abbrev pub AbsentPid : ℕ → List Process → Type 0
AbsentPid pid rows = Absent has_pid (λ r. r.pid) pid rows

abbrev pub DistinctPids : List Process → Type 0
DistinctPids rows = Distinct has_pid (λ r. r.pid) rows

-- A table around its one row with this pid.
pub record Located (rows : List Process) (pid : ℕ) : Type 0 where
  pub front : List Process
  pub row : Process
  pub back : List Process
  pub whole : rows ≡ front ++ (row ∷ back)
  pub same : row.pid ≡ pid
  pub before : AbsentPid pid front
  pub behind : AbsentPid pid back

pub pid_of : (r : Process) (pid : ℕ) → has_pid pid r ≡ true → r.pid ≡ pid
pid_of r pid e = ground (arith, e)

pub locate :
    (rows : List Process) (pid : ℕ)
    → DistinctPids rows
    → any (has_pid pid) rows ≡ true
    → Located rows pid
locate [] pid d h = absurd (ground (arith, h))
locate (r ∷ rs) pid d h = elim (Bool-cases (has_pid pid r)) [
  | inl e ↦ record {
    front = [];
    row = r;
    back = rs;
    whole = refl;
    same = pid_of r pid e;
    before = tt;
    behind = subst (λ n. AbsentPid n rs) (pid_of r pid e) d.0;
  }
  | inr e ↦
      (let l = locate rs pid d.1 (ground (arith, e, h)) in
        record {
          front = r ∷ l.front;
          row = l.row;
          back = l.back;
          whole = ap (◌∷◌ r) l.whole;
          same = l.same;
          before = (e, l.before);
          behind = l.behind;
        })
]

-- A statement on the pid of one row, and the row that it finds.
pub update-one :
    (f : Process → Process) (pid : ℕ) (front : List Process) (r : Process) (back : List Process)
    → AbsentPid pid front
    → r.pid ≡ pid
    → AbsentPid pid back
    → update (has_pid pid) f (front ++ (r ∷ back)) ≡ front ++ (f r ∷ back)
update-one f pid front r back a e b =
    let hit : has_pid pid r ≡ true = ground (arith, e) in
    update-append (has_pid pid) f front (r ∷ back)
    ∙ rw (update-none (has_pid pid) f front a, hit, update-none (has_pid pid) f back b)

pub find-one :
    (pid : ℕ) (front : List Process) (r : Process) (back : List Process)
    → AbsentPid pid front
    → r.pid ≡ pid
    → AbsentPid pid back
    → last_of (select (has_pid pid) (front ++ (r ∷ back))) ≡ some r
find-one pid front r back a e b =
    let hit : has_pid pid r ≡ true = ground (arith, e) in
    rw (
      select-append (has_pid pid) front (r ∷ back),
      select-none (has_pid pid) front a,
      hit,
      select-none (has_pid pid) back b,
    )
