-- ===== src/Outcome.antt =====
-- The ways in which a C function of the program ends. A fault ends the whole program (assert, qexit),
-- or is undefined behaviour of C, after which nothing is claimed.
use qgis_scheduler.Prelude.{
  ℕ, ◌+◌, ◌≡◌, ◌⊎◌, inl, inr, refl, subst, true, false, Bool, ltb, if◌then◌else◌,
}

pub data Fault : Type 0 where
  over_read : Fault
  over_write : Fault
  int_overflow : Fault
  assert_failed : Fault
  exit_failure : Fault
  -- No behaviour of C: a loop of the model ran out of fuel.
  out_of_fuel : Fault

pub data Outcome {ℓ} (A : Type ℓ) : Type ℓ where
  ok : A → Outcome A
  fault : Fault → Outcome A

-- `assert(b)`: the build sets no NDEBUG.
abbrev pub assert : Bool → Outcome (Unit {0})
assert b = if b then ok tt else fault assert_failed

-- One part of a function behind the other; a fault ends both.
infixl 5 ◌>>◌ ◌>>=◌
abbrev pub ◌>>◌ {κ} : {B : Type κ} → Outcome (Unit {0}) → Outcome B → Outcome B
ok done >> next = next
fault why >> next = fault why

abbrev pub ◌>>=◌ {κ μ} : {A : Type κ} {B : Type μ} → Outcome A → (A → Outcome B) → Outcome B
fault why >>= next = fault why
ok result >>= next = next result

-- `a + b` on non-negative values of type int.
abbrev pub int_max : ℕ
int_max = 2_147_483_647

abbrev pub int_add : ℕ → ℕ → Outcome ℕ
int_add a b = if ltb int_max (a + b) then fault int_overflow else ok (a + b)

pub Outcome-cases {ℓ} :
    {A : Type ℓ} (m : Outcome A) → ((a : A) × (m ≡ ok a)) ⊎ ((e : Fault) × (m ≡ fault e))
Outcome-cases (ok a) = inl (a, refl)
Outcome-cases (fault e) = inr (e, refl)

-- A call that returns a result.
abbrev pub Returns {ℓ} : {A : Type ℓ} → Outcome A → Type ℓ
Returns {A} o = (a : A) × (o ≡ ok a)

-- A result, if there is one, has the property.
abbrev pub Ensures {ℓ κ} : {A : Type ℓ} → (A → Type κ) → Outcome A → Type κ
Ensures P (ok a) = P a
Ensures P (fault why) = Unit

pub if-Ensures {ℓ κ} :
    {A : Type ℓ} (P : A → Type κ) (b : Bool) (x y : Outcome A)
    → Ensures P x
    → Ensures P y
    → Ensures P (if b then x else y)
if-Ensures P true x y h k = h
if-Ensures P false x y h k = k

pub bind-Ensures {ℓ κ μ ν} :
    {A : Type ℓ} {B : Type κ} (P : A → Type μ) (Q : B → Type ν) (o : Outcome A) (f : A → Outcome B)
    → Ensures P o
    → ((a : A) → P a → Ensures Q (f a))
    → Ensures Q (o >>= f)
bind-Ensures P Q (ok a) f h k = k a h
bind-Ensures P Q (fault why) f h k = tt

pub Ensures-ok {ℓ κ} :
    {A : Type ℓ} (P : A → Type κ) (o : Outcome A) {a : A} → o ≡ ok a → Ensures P o → P a
Ensures-ok P o e h = subst (Ensures P) e h

pub bind_assoc {ℓ κ μ} :
    {A : Type ℓ} {B : Type κ} {C : Type μ} (o : Outcome A) (f : A → Outcome B) (g : B → Outcome C)
    → (o >>= f >>= g) ≡ (o >>= λ a. f a >>= g)
bind_assoc (ok a) f g = refl
bind_assoc (fault why) f g = refl
