-- ===== src/Buffers/Bits.antt =====
-- stringext.c: what `v |= v >> n` does to a number, for next_power.
use Prim.Native.Nat.{zero, suc, max, digits, bit_or, bit_or-bitwise}
use qgis_scheduler.Prelude.{
  ℕ, ◌+◌, ◌-◌, ◌*◌, ◌/◌, ◌%◌, ◌^◌, ◌≤◌, ◌<◌, ◌≡◌, refl, sym, ap, subst, ◌∙◌, arith, leb, ltb,
  ltb→lt, Bool-cases, inl, inr,
}
use native.Mathlib.Nat.{
  le-div_iff_mul-le, div-lt_iff_lt-mul, one-le-pow, pow-le-pow_right, div-eq_of_lt,
}
use qgis_scheduler.Buffers.{smear, next_power}

-- The digits of `or` with this many steps allowed.
abbrev or_digits : ℕ → ℕ → ℕ → ℕ
or_digits steps a b = digits (λ rest. rest) max steps a b

or_digits_enough : (few many a b : ℕ) → a ≤ few → a ≤ many → or_digits few a b ≡ or_digits many a b
or_digits_enough zero zero a b h k = refl
or_digits_enough (suc few) zero zero b h k = refl
or_digits_enough (suc few) zero (suc a) b h k = absurd (omega arith)
or_digits_enough zero (suc many) zero b h k = refl
or_digits_enough zero (suc many) (suc a) b h k = absurd (omega arith)
or_digits_enough (suc few) (suc many) zero b h k = refl
or_digits_enough (suc few) (suc many) (suc a) b h k =
    let halved = or_digits_enough few many (suc a / 2) (b / 2) (omega arith) (omega arith) in
    omega (arith, halved)

or-zero : (b : ℕ) → bit_or 0 b ≡ b
or-zero b = bit_or-bitwise 0 b

-- The law for the lowest digit.
or_low : (a b : ℕ) → bit_or a b ≡ bit_or (a / 2) (b / 2) * 2 + max (a % 2) (b % 2)
or_low zero b = omega (arith, or-zero b, or-zero (b / 2))
or_low (suc a) b =
    let enough = or_digits_enough a (suc a / 2) (suc a / 2) (b / 2) (omega arith) (omega arith) in
    omega (arith, bit_or-bitwise (suc a) b, bit_or-bitwise (suc a / 2) (b / 2), enough)

-- The result is not below its second number, and not longer than the longer one.
or-bounds : (j a b : ℕ) → a < 2 ^ j → b < 2 ^ j → (b ≤ bit_or a b) × (bit_or a b < 2 ^ j)
or-bounds zero a b h k =
    let no_a : a ≡ 0 = omega arith in
    let no_b : b ≡ 0 = omega arith in rw (no_a, no_b) (omega (arith, or-zero 0))
or-bounds (suc j) a b h k =
    let (low, high) = or-bounds j (a / 2) (b / 2) (grind arith) (grind arith) in
    (omega (arith, or_low a b, low), grind (arith, or_low a b, high))

or_zero : (steps a : ℕ) → a ≤ steps → bit_or a 0 ≡ a
or_zero steps zero h = or-zero 0
or_zero zero (suc a) h = absurd (omega arith)
or_zero (suc steps) (suc a) h =
    omega (arith, or_low (suc a) 0, or_zero steps (suc a / 2) (omega arith))

-- A number above the second one's digits is only added.
or_above :
    (j top a b : ℕ) → a < 2 ^ j → b < 2 ^ j → bit_or (top * 2 ^ j + a) b ≡ top * 2 ^ j + bit_or a b
or_above zero top a b h k =
    let no_a : a ≡ 0 = omega arith in
    let no_b : b ≡ 0 = omega arith in
    rw (no_a, no_b) (omega (arith, or_zero (top * 1 + 0) (top * 1 + 0), or-zero 0))
or_above (suc j) top a b h k =
    let two : 2 ^ suc j ≡ 2 ^ j * 2 = omega arith in
    let doubled : top * 2 ^ suc j ≡ 2 * (top * 2 ^ j) = rw two (grind arith) in
    let halved : (top * 2 ^ suc j + a) / 2 ≡ top * 2 ^ j + a / 2 = omega (arith, doubled) in
    let half = or_above j top (a / 2) (b / 2) (grind arith) (grind arith) in
    let low = or_low (top * 2 ^ suc j + a) b in
    let split : bit_or ((top * 2 ^ suc j + a) / 2) (b / 2) ≡ top * 2 ^ j + bit_or (a / 2) (b / 2) =
      rw halved half in
    omega (arith, doubled, low, split, or_low a b)

-- A number of n digits of which the first m are ones; 2 ^ (n - m) is 1 from m = n on.
abbrev pub HasOnes : ℕ → ℕ → ℕ → Type 0
HasOnes n m v = (2 ^ n ≤ v + 2 ^ (n - m)) × (v < 2 ^ n)

pow_add : (m j : ℕ) → 2 ^ (m + j) ≡ 2 ^ m * 2 ^ j
pow_add zero j = let same : 0 + j ≡ j = omega arith in rw same (omega arith)
pow_add (suc m) j =
    let shifted : suc m + j ≡ suc (m + j) = omega arith in
    let one_more : 2 ^ (suc m + j) ≡ 2 ^ (m + j) * 2 = rw shifted (omega arith) in
    let two : 2 ^ suc m ≡ 2 ^ m * 2 = omega arith in rw (one_more, two, pow_add m j) (grind arith)

-- A product's bounds on the number that is shifted in, with 2 ^ m, 2 ^ j and the size of the gap.
shifted-bounds :
    (v power part gap : ℕ)
    → 0 < power
    → gap ≤ part
    → part ≤ power * gap
    → power * part ≤ v + part
    → v < power * part
    → (part ≤ v / power + gap) × (v / power < part)
shifted-bounds v power part gap h less reach ones short =
    let rest = part - gap in
    let split : part ≡ rest + gap = omega arith in
    let spread : power * part ≡ rest * power + power * gap = rw split (grind arith) in
    let low : rest ≤ v / power = (le-div_iff_mul-le h).1 (omega arith) in
    (omega arith, (div-lt_iff_lt-mul h).1 (grind arith))

smear_split :
    (m j gap v : ℕ)
    → gap ≤ 2 ^ j
    → 2 ^ j ≤ 2 ^ m * gap
    → 2 ^ m * 2 ^ j ≤ v + 2 ^ j
    → v < 2 ^ m * 2 ^ j
    → (2 ^ m * 2 ^ j ≤ smear m v + gap) × (smear m v < 2 ^ m * 2 ^ j)
unfolding smear
smear_split m j gap v less reach ones short =
    let power : 0 < 2 ^ m = one-le-pow m 2 (omega arith) in
    let top = 2 ^ m - 1 in
    let one_less : top * 2 ^ j + 2 ^ j ≡ 2 ^ m * 2 ^ j =
      let e : 2 ^ m ≡ top + 1 = omega arith in rw e (grind arith) in
    let r = v - top * 2 ^ j in
    let parts : top * 2 ^ j + r ≡ v = omega arith in
    let (low, high) = shifted-bounds v (2 ^ m) (2 ^ j) gap power less reach ones short in
    let r_short : r < 2 ^ j = omega arith in
    let (kept, fits) = or-bounds j r (v / 2 ^ m) r_short high in
    let above : bit_or v (v / 2 ^ m) ≡ top * 2 ^ j + bit_or r (v / 2 ^ m) =
      subst (λ x. bit_or x (v / 2 ^ m) ≡ top * 2 ^ j + bit_or r (v / 2 ^ m)) parts
        (or_above j top r (v / 2 ^ m) r_short high) in
    (omega arith, omega arith)

-- `v |= v >> m` doubles the number of ones at the front.
pub smear-HasOnes : (n m v : ℕ) → HasOnes n m v → HasOnes n (m + m) (smear m v)
unfolding smear
smear-HasOnes n m v (ones, short) = elim (Bool-cases (leb n m)) [
  | inl e ↦
      let reach : 2 ^ n ≤ 2 ^ m = pow-le-pow_right (omega arith) (ground arith) in
      let gone : v / 2 ^ m ≡ 0 = div-eq_of_lt (omega arith) in
      let none_left : n - m ≡ 0 = ground arith in
      let none_after : n - (m + m) ≡ 0 = ground arith in
      rw (gone, or_zero v v (omega arith), none_after) (rw none_left at ones, short)
  | inr e ↦
      let whole : m + (n - m) ≡ n = ground arith in
      let pow : 2 ^ n ≡ 2 ^ m * 2 ^ (n - m) = ap (λ k. 2 ^ k) (sym whole) ∙ pow_add m (n - m) in
      let reach : 2 ^ (n - m) ≤ 2 ^ (m + (n - (m + m))) =
        pow-le-pow_right (omega arith) (omega arith) in
      let less : 2 ^ (n - (m + m)) ≤ 2 ^ (n - m) = pow-le-pow_right (omega arith) (omega arith) in
      let (low, high) =
        smear_split m (n - m) (2 ^ (n - (m + m))) v less
          (omega (arith, pow_add m (n - (m + m)), reach)) (omega (arith, pow, ones))
          (omega (arith, pow, short)) in
      (omega (arith, pow, low), omega (arith, pow, high))
]

-- The number of digits of v.
digits_of : (k v : ℕ) → v < 2 ^ k → (n : ℕ) × (n ≤ k) × HasOnes n 1 v
digits_of zero v h = (0, omega arith, (omega arith, omega arith))
digits_of (suc k) v h = elim (Bool-cases (ltb v (2 ^ k))) [
  | inl e ↦ let (n, less, ones) = digits_of k v (ltb→lt _ _ e) in (n, omega (arith, less), ones)
  | inr e ↦
      let same : suc k - 1 ≡ k = omega arith in (suc k, omega arith, (rw same (ground arith), h))
]

-- The smallest power of two that is not below the length.
abbrev pub IsNextPower : ℕ → ℕ → Type 0
IsNextPower x size = (n : ℕ) × (size ≡ 2 ^ n) × (x ≤ size) × (size < 2 * x)

next_power_of : (x n : ℕ) → 0 < x → x < 2 ^ 31 → n ≤ 31 → HasOnes n 1 (x - 1) → next_power x ≡ 2 ^ n
unfolding next_power
next_power_of x n positive fits less ones =
    let start : (x + 2 ^ 32 - 1) % 2 ^ 32 ≡ x - 1 = omega arith in
    let (full, short) = smear-HasOnes n 16 _ (
      smear-HasOnes n 8 _ (smear-HasOnes n 4 _ (smear-HasOnes n 2 _ (smear-HasOnes n 1 _ ones)))) in
    let none_left : n - 32 ≡ 0 = omega arith in
    let last : 2 ^ n ≤ 2 ^ 31 = pow-le-pow_right (omega arith) less in
    let full' = rw none_left at full in rw (next_power, start) (omega arith)

pub next_power-IsNextPower : (x : ℕ) → 0 < x → x < 2 ^ 31 → IsNextPower x (next_power x)
next_power-IsNextPower x positive fits =
    let (n, less, ones) = digits_of 31 (x - 1) (omega arith) in
    let is_power = next_power_of x n positive fits less ones in
    (n, is_power, omega (arith, is_power), below n is_power ones)
  where
    below : (n : ℕ) → next_power x ≡ 2 ^ n → HasOnes n 1 (x - 1) → next_power x < 2 * x
    below zero e h = omega (arith, e)
    below (suc n) e h =
        let same : suc n - 1 ≡ n = omega arith in
        let ones = rw same at h.0 in omega (arith, e, ones)
