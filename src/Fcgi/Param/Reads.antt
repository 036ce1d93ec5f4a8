-- ===== src/Fcgi/Param/Reads.antt =====
-- What fcgi_param_parse() and the loop around it read, on any bytes that a client may send.
use qgis_scheduler.Prelude.{
  ℕ, zero, suc, ◌+◌, ◌-◌, ◌≤◌, ◌<◌, ◌≡◌, ◌≢◌, ◌⊎◌, refl, some, none, Option, Option-cases, List, [],
  ◌∷◌, ◌++◌, arith, Bytes, length, drop, inl, inr, length-drop,
}
use qgis_scheduler.Outcome.{Outcome, Outcome-cases, ok, fault, over_read, out_of_fuel, int_overflow}
use qgis_scheduler.Fcgi.Param.{
  Param, Parsed, ReadLength, long_length, read_length, read_bytes, param_copy, param_parse,
  param_loop, param_list_parse,
}

-- A content of two to four bytes whose first byte announces a long length is read behind its end.
pub param_parse_over_read :
    (b : ℕ) (rest : Bytes)
    → 128 ≤ b
    → 1 ≤ length rest
    → length rest ≤ 3
    → param_parse (b ∷ rest) (length (b ∷ rest)) ≡ fault over_read
unfolding param_parse read_length long_length
param_parse_over_read b [] h k m = absurd (omega arith)
param_parse_over_read b (c ∷ []) h k m = ground arith
param_parse_over_read b (c ∷ d ∷ []) h k m = ground arith
param_parse_over_read b (c ∷ d ∷ e ∷ []) h k m = ground arith
param_parse_over_read b (c ∷ d ∷ e ∷ f ∷ rest) h k m = absurd (omega arith)

-- What one call returns: the bytes taken are within `len`, and are 0 exactly if no pair is found.
abbrev pub IsSound : ℕ → Outcome Parsed → Type 0
IsSound len (ok r) =
    (r.dataread ≤ len)
    × (((r.dataread ≡ 0) × (r.param ≡ none)) ⊎ ((2 ≤ r.dataread) × (r.param ≢ none)))
IsSound len (fault e) = (e ≡ over_read) ⊎ (e ≡ int_overflow)

-- A length takes one to four bytes, or stands at the end of less than four.
abbrev IsRead : Bytes → Outcome ReadLength → Type 0
IsRead mem (ok r) = (1 ≤ r.taken) × (r.taken ≤ 4) × (length mem ≡ r.taken + length r.rest)
IsRead mem (fault e) = (e ≡ over_read) × (length mem < 4)

read_length-IsRead : (mem : Bytes) → IsRead mem (read_length mem)
unfolding read_length long_length
read_length-IsRead [] = (refl, omega arith)
read_length-IsRead (b ∷ []) = ground arith
read_length-IsRead (b ∷ c ∷ []) = ground arith
read_length-IsRead (b ∷ c ∷ d ∷ []) = ground arith
read_length-IsRead (b ∷ c ∷ d ∷ f ∷ rest) = ground arith

param_copy-IsSound :
    (mem : Bytes) (len taken n v : ℕ)
    → 2 ≤ taken
    → IsSound (taken + len) (param_copy mem len taken n v)
unfolding param_copy read_bytes
param_copy-IsSound mem len taken n v h = ground arith

-- On any memory and any length, one call takes at most `len` bytes, and none exactly if it finds
-- no pair; the only faults are a read behind the end and an overflow of the two lengths' sum.
pub param_parse-IsSound : (mem : Bytes) (len : ℕ) → IsSound len (param_parse mem len)
unfolding param_parse
param_parse-IsSound mem len = elim (Outcome-cases (read_length mem)) [
  | inr (f, e) ↦ ground (arith, rw e at (read_length-IsRead mem))
  | inl (n, e) ↦ elim (Outcome-cases (read_length n.rest)) [
    | inr (g, d) ↦
        ground (arith, rw e at (read_length-IsRead mem), rw d at (read_length-IsRead n.rest))
    | inl (v, d) ↦ ground (
      arith,
      rw e at (read_length-IsRead mem),
      rw d at (read_length-IsRead n.rest),
      param_copy-IsSound v.rest (len - (n.taken + v.taken)) (n.taken + v.taken) n.value v.value,
    )
  ]
]

param_copy_no_over_read :
    (mem : Bytes) (len taken n v : ℕ)
    → len ≤ length mem
    → param_copy mem len taken n v ≢ fault over_read
unfolding param_copy read_bytes
param_copy_no_over_read mem len taken n v h = ground (arith, length-drop n mem)

-- With eight bytes or more of content, all of them allocated, no read goes behind the end.
pub param_parse_no_over_read :
    (mem : Bytes) → 8 ≤ length mem → param_parse mem (length mem) ≢ fault over_read
unfolding param_parse
param_parse_no_over_read mem h = elim (Outcome-cases (read_length mem)) [
  | inr (f, e) ↦ ground (arith, rw e at (read_length-IsRead mem))
  | inl (n, e) ↦ elim (Outcome-cases (read_length n.rest)) [
    | inr (g, d) ↦
        ground (arith, rw e at (read_length-IsRead mem), rw d at (read_length-IsRead n.rest))
    | inl (v, d) ↦ ground (
      arith,
      rw e at (read_length-IsRead mem),
      rw d at (read_length-IsRead n.rest),
      param_copy_no_over_read v.rest (length mem - (n.taken + v.taken)) (n.taken + v.taken) n.value
          v.value,
    )
  ]
]

param_loop_ends :
    (fuel : ℕ) (mem : Bytes) (len : ℕ) (found : List Param)
    → len ≤ fuel
    → param_loop fuel mem len found ≢ fault out_of_fuel
unfolding param_loop
param_loop_ends zero mem len found h = ground arith
param_loop_ends (suc fuel) mem len found h = elim (Outcome-cases (param_parse mem len)) [
  | inr (f, e) ↦ ground (arith, e, rw e at (param_parse-IsSound mem len))
  | inl (r, e) ↦ elim (Option-cases r.param) [
    | inl p ↦ ground (arith, e, p, rw e at (param_parse-IsSound mem len))
    | inr (q, p) ↦ ground (
      arith,
      e,
      p,
      rw e at (param_parse-IsSound mem len),
      param_loop_ends fuel (drop r.dataread mem) (len - r.dataread) (found ++ q ∷ []),
    )
  ]
]

-- `fcgi_param_list_parse` ends on every content: its loop never runs out of the rounds given.
pub param_list_parse_ends :
    (found : List Param) (content : Option Bytes) (len : ℕ)
    → param_list_parse found content len ≢ fault out_of_fuel
unfolding param_list_parse
param_list_parse_ends found none len = λ e. cc
param_list_parse_ends found (some content) len = param_loop_ends len content len found (omega arith)
