-- ===== src/Prelude/Names.antt =====
-- Lists of names: membership as a Boolean test, and names that are all different.
use Prim.Native.Nat.{suc, ◌≤◌}
use mathlib.Core.Path.{◌≡◌, refl, ap, subst}
use mathlib.Core.Logic.{inl, inr}
use mathlib.Core.Bool.{Bool, true, false, ◌&&◌, ◌||◌}
use mathlib.Core.List.{List, [], ◌∷◌, ◌++◌}
use Prim.Native.String.{String}
use native.Mathlib.Omega.{arith}
use qgis_scheduler.Prelude.Tests.{if◌then◌else◌, Bool-cases}
use qgis_scheduler.Prelude.Lists.{length, select, All}
use qgis_scheduler.Prelude.Texts.{str_eq, eq_iff, eq_refl}

abbrev pub contains : String → List String → Bool
contains s [] = false
contains s (x ∷ xs) = str_eq x s || contains s xs

abbrev pub AllDifferent : List String → Type 0
AllDifferent [] = Unit
AllDifferent (x ∷ xs) = (contains x xs ≡ false) × AllDifferent xs

pub contains-append :
    (s : String) (xs ys : List String) → contains s (xs ++ ys) ≡ (contains s xs || contains s ys)
contains-append s [] ys = refl
contains-append s (x ∷ xs) ys = ground (arith, contains-append s xs ys)

pub contains-select :
    (s : String) (p : String → Bool) (xs : List String)
    → contains s (select p xs) ≡ (contains s xs && p s)
contains-select s p [] = refl
contains-select s p (x ∷ xs) = elim (Bool-cases (str_eq x s)) [
  | inl e ↦ let same : x ≡ s = (eq_iff x s).0 e in ground (arith, contains-select s p xs, ap p same)
  | inr e ↦ ground (arith, contains-select s p xs)
]

pub AllDifferent-select :
    (p : String → Bool) (xs : List String) → AllDifferent xs → AllDifferent (select p xs)
AllDifferent-select p [] d = tt
AllDifferent-select p (x ∷ xs) d =
    ground (arith, contains-select x p xs, AllDifferent-select p xs d.1)

pub All-contains {κ} :
    (P : String → Type κ) (xs : List String) (s : String) → All P xs → contains s xs ≡ true → P s
All-contains P [] s h c = absurd (ground arith)
All-contains P (x ∷ xs) s h c = elim (Bool-cases (str_eq x s)) [
  | inl e ↦ subst P ((eq_iff x s).0 e) h.0
  | inr e ↦ All-contains P xs s h.1 (ground arith)
]

-- The list without the first entry of that name.
abbrev without : String → List String → List String
without s [] = []
without s (x ∷ xs) = if str_eq x s then xs else x ∷ without s xs

length-without :
    (s : String) (xs : List String) → contains s xs ≡ true → length xs ≡ suc (length (without s xs))
length-without s [] c = absurd (ground arith)
length-without s (x ∷ xs) c = ground (arith, length-without s xs)

contains-without :
    (s t : String) (xs : List String)
    → str_eq s t ≡ false
    → contains t xs ≡ true
    → contains t (without s xs) ≡ true
contains-without s t [] h c = c
contains-without s t (x ∷ xs) h c =
    ground (arith, eq_iff x s, eq_iff x t, eq_iff s t, contains-without s t xs h)

abbrev pub IsSubset : List String → List String → Type 0
IsSubset xs ys = (t : String) → contains t xs ≡ true → contains t ys ≡ true

pub subset-length : (xs ys : List String) → AllDifferent xs → IsSubset xs ys → length xs ≤ length ys
subset-length [] ys d h = omega arith
subset-length (x ∷ xs) ys d h =
    let x_in : contains x ys ≡ true = h x (ground (arith, eq_refl x)) in
    let rest : IsSubset xs (without x ys) = λ t c. elim (Bool-cases (str_eq x t)) [
      | inl e ↦
          let same : x ≡ t = (eq_iff x t).0 e in
          absurd (ground (arith, ap (λ n. contains n xs) same))
      | inr e ↦ contains-without x t ys e (h t (ground arith))
    ] in
    omega (arith, length-without x ys x_in, subset-length xs (without x ys) d.1 rest)

-- Names that are all different fill a list of the same length that has them all.
pub subset-IsSubset :
    (xs ys : List String)
    → AllDifferent xs
    → IsSubset xs ys
    → length xs ≡ length ys
    → IsSubset ys xs
subset-IsSubset xs ys d h e t c = elim (Bool-cases (contains t xs)) [
  | inl found ↦ found
  | inr missing ↦
      let wider : IsSubset (t ∷ xs) ys = λ u k. elim (Bool-cases (str_eq t u)) [
        | inl same ↦ subst (λ n. contains n ys ≡ true) ((eq_iff t u).0 same) c
        | inr differs ↦ h u (ground arith)
      ] in
      absurd (omega (arith, subset-length (t ∷ xs) ys (missing, d) wider))
]
