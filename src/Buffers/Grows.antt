-- ===== src/Buffers/Grows.antt =====
-- stringext.c: what arraycat() and membcat() keep and add.
use qgis_scheduler.Prelude.{
  ℕ, ◌+◌, ◌*◌, ◌%◌, ◌^◌, ◌≤◌, ◌<◌, ◌≡◌, refl, sym, subst, replicate, ◌∙◌, ◌⊎◌, true, false, Option,
  none, some, List, [], ◌∷◌, ◌++◌, length, length-append, arith, ltb, leb, leb→le, ==_iff, ◌==◌,
  if◌then◌else◌, Bool-cases, inl, inr, pos, negsuc, Bytes,
}
use native.Mathlib.Nat.{pow-le-pow_right}
use qgis_scheduler.Outcome.{Outcome, ok, int_max}
use qgis_scheduler.Buffers.{
  realloc, Array, cells_of, reset_if_null, grown, put, arraycat, MemBuffer, Catted, is_null,
  next_power, wanted_size, copy_bytes, membcat,
}
use qgis_scheduler.Buffers.Bits.{IsNextPower, next_power-IsNextPower}
use qgis_scheduler.Buffers.Cells.{Holds, realloc-Holds, write_cells-Holds}

module _ {ℓ} {A : Type ℓ} where
  -- The array is NULL and stands for no values, or its first cells hold the values.
  pub data IsArray (xs : List A) : Array A → Type ℓ where
    at_null :
        (nelem nlen : ℕ)
        → xs ≡ []
        → IsArray xs (record { cells = none; nelem = nelem; nlen = nlen })
    allocated :
        (cells : List (Option A)) (nelem nlen : ℕ)
        → Holds xs cells
        → length cells ≡ nelem
        → length xs ≡ nlen
        → nlen ≤ nelem
        → IsArray xs (record { cells = some cells; nelem = nelem; nlen = nlen })

  -- One value behind the others, in an array that has grown only if it was full.
  abbrev pub Appends : List A → A → ℕ → Outcome (Array A) → Type ℓ
  Appends xs value room result =
      (a : Array A) × (result ≡ ok a)
      × IsArray (xs ++ (value ∷ [])) a
      × (a.nelem ≡ (if leb room (length xs) then (if room == 0 then 16 else 2 * room) else room))

  put-Appends :
      (xs : List A) (value : A) (cells : List (Option A)) (nelem : ℕ)
      → Holds xs cells
      → length cells ≡ nelem
      → length xs < nelem
      → (a : Array A) × (put cells nelem (length xs) value ≡ ok a)
        × IsArray (xs ++ (value ∷ [])) a
        × (a.nelem ≡ nelem)
  put-Appends xs value cells nelem h size room =
      let (written, ran, holds, same) =
        write_cells-Holds xs (value ∷ []) cells (omega (arith, size)) h in
      (
        record { cells = some written; nelem = nelem; nlen = length xs + 1 },
        rw ran refl,
        allocated written nelem (length xs + 1) holds (same ∙ size) (length-append xs (value ∷ []))
            (omega arith),
        refl,
      )

  -- A block that has grown, and then the value.
  grow-Appends :
      (xs : List A) (value : A) (cells : List (Option A)) (more : ℕ)
      → Holds xs cells
      → length xs < more
      → (a : Array A) × (put (realloc more cells) more (length xs) value ≡ ok a)
        × IsArray (xs ++ (value ∷ [])) a
        × (a.nelem ≡ more)
  grow-Appends xs value cells more h room =
      let (holds, size) = realloc-Holds more xs cells (omega arith) h in
      put-Appends xs value (realloc more cells) more holds size room

  arraycat_allocated :
      (xs : List A) (value : A) (cells : List (Option A)) (nelem : ℕ)
      → Holds xs cells
      → length cells ≡ nelem
      → length xs ≤ nelem
      → 2 * nelem ≤ int_max
      → Appends xs value nelem
          (arraycat (record { cells = some cells; nelem = nelem; nlen = length xs }) value)
  unfolding arraycat grown
  arraycat_allocated xs value cells nelem h size less fits =
      elim (Bool-cases (leb nelem (length xs))) [
        | inr room ↦
            let (a, ran, is_array, same) = put-Appends xs value cells nelem h size (ground arith) in
            (a, rw (arraycat, room) ran, is_array, rw room same)
        | inl full ↦ elim (Bool-cases (nelem == 0)) [
          | inl empty ↦
              let no_values : length xs ≡ 0 = ground arith in
              let (a, ran, is_array, same) = grow-Appends xs value cells 16 h (ground arith) in
              (
                a,
                rw (arraycat, full, grown, empty) (rw no_values at ran),
                is_array,
                rw (full, empty) same,
              )
          | inr some_cells ↦
              let (a, ran, is_array, same) =
                grow-Appends xs value cells (nelem + nelem) h (ground arith) in
              let no_overflow : ltb int_max (nelem + nelem) ≡ false = ground arith in
              (
                a,
                rw (arraycat, full, grown, some_cells, no_overflow) ran,
                is_array,
                rw (full, some_cells) (omega (arith, same)),
              )
        ]
      ]

  -- `arraycat` on an array of some values, allocated or NULL, puts one value behind them. A full array
  -- grows from none to sixteen cells, and else to twice its size, if that is within int.
  pub arraycat-Appends :
      (xs : List A) (a : Array A) (value : A)
      → IsArray xs a
      → 2 * a.nelem ≤ int_max
      → Appends xs value (reset_if_null a.cells a.nelem) (arraycat a value)
  unfolding arraycat grown
  arraycat-Appends xs a value (at_null nelem nlen none_yet) fits =
      rw none_yet (
        _,
        refl,
        allocated (some value ∷ replicate 15 none) 16 1 refl refl refl (omega arith),
        refl,
      )
  arraycat-Appends xs a value (allocated cells nelem nlen h size count less) fits =
      subst
        (λ n.
          Appends xs value nelem
            (arraycat (record { cells = some cells; nelem = nelem; nlen = n }) value))
        count (arraycat_allocated xs value cells nelem h size (omega arith) fits)

-- The first cells of the buffer hold the bytes; at NULL there are none.
pub record IsBuffer (xs : Bytes) (b : MemBuffer) : Type 0 where
  pub holds : Holds xs (cells_of b.buffer)
  pub size : length (cells_of b.buffer) ≡ b.buffersize
  pub len : length xs ≡ b.bufferlen
  pub room : length xs ≤ b.buffersize
  pub small : b.buffersize < 2 ^ 31

-- The size of the buffer stays if the bytes have room, else it is the next power of two.
abbrev pub IsSize : ℕ → ℕ → ℕ → Type 0
IsSize old len new =
    ((len ≤ old) × (new ≡ old)) ⊎ ((old < len) × (len ≤ 2 ^ 30) × IsNextPower len new)

-- The size for the new length is found, or there is none below 2 ^ 31.
power_below : (n : ℕ) → 2 ^ n < 2 ^ 31 → 2 ^ n ≤ 2 ^ 30
power_below n h = elim (Bool-cases (leb n 30)) [
  | inl e ↦ pow-le-pow_right (omega arith) (leb→le n 30 e)
  | inr e ↦
      let reach : 2 ^ 31 ≤ 2 ^ n = pow-le-pow_right (omega arith) {i = 31} (ground arith) in
      absurd (omega (arith, reach, h))
]

wanted_size_cases :
    (old len : ℕ)
    → len < 2 ^ 32
    → ((new : ℕ) × (wanted_size old len ≡ some new) × IsSize old len new)
      ⊎ ((wanted_size old len ≡ none) × (old < len) × (2 ^ 30 < len))
unfolding wanted_size
wanted_size_cases old len h = elim (Bool-cases (ltb old len)) [
  | inr e ↦ inl (old, rw e refl, inl (ground arith, refl))
  | inl e ↦ elim (Bool-cases (leb (2 ^ 31) len)) [
    | inl f ↦ inr (rw (e, f) refl, ground arith, ground arith)
    | inr f ↦
        let (n, power, above, below) = next_power-IsNextPower len (ground arith) (ground arith) in
        elim (Bool-cases (leb (2 ^ 31) (next_power len))) [
          | inl g ↦ inr (rw (e, f, g) refl, ground arith, ground (arith, below))
          | inr g ↦ inl (
            next_power len,
            rw (e, f, g) refl,
            inr (
              ground arith,
              omega (arith, power, above, power_below n (ground (arith, power))),
              (n, power, above, below),
            ),
          )
        ]
  ]
]

abbrev pub CatsTo : Bytes → MemBuffer → Bytes → Outcome Catted → Type 0
CatsTo xs b src result =
    ((c : Catted) × (result ≡ ok c)
      × (c.retval ≡ pos 0)
      × IsBuffer (xs ++ src) c.mem
      × IsSize b.buffersize (length xs + length src) c.mem.buffersize)
    ⊎ ((result ≡ ok (record { mem = b; retval = negsuc 0 }))
        × (b.buffersize < length xs + length src)
        × (2 ^ 30 < length xs + length src))

copy_bytes-IsBuffer :
    (xs : Bytes) (b : MemBuffer) (src : Bytes) (new : ℕ)
    → IsBuffer xs b
    → length xs + length src ≤ new
    → new < 2 ^ 31
    → (c : Catted) × (copy_bytes b new (length xs + length src) src ≡ ok c)
      × (c.retval ≡ pos 0)
      × IsBuffer (xs ++ src) c.mem
      × (c.mem.buffersize ≡ new)
unfolding copy_bytes
copy_bytes-IsBuffer xs b src new is fits small =
    let cells =
      if new == b.buffersize then cells_of b.buffer else realloc new (cells_of b.buffer) in
    let (holds, size) = ready in
    let (written, ran, held, same) = write_cells-Holds xs src cells (omega (arith, size)) holds in
    (
      record {
        mem = record {
          buffer = some written;
          buffersize = new;
          bufferlen = length xs + length src;
        };
        retval = pos 0;
      },
      rw (copy_bytes, sym is.len, ran) refl,
      refl,
      record {
        holds = held;
        size = same ∙ size;
        len = length-append xs src;
        room = omega (arith, length-append xs src);
        small = small;
      },
      refl,
    )
  where
    ready :
        let cells =
          if new == b.buffersize then cells_of b.buffer else realloc new (cells_of b.buffer) in
        Holds xs cells × (length cells ≡ new)
    ready = elim (Bool-cases (new == b.buffersize)) [
      | inl e ↦ rw e (is.holds, is.size ∙ sym ((==_iff new b.buffersize).0 e))
      | inr e ↦ rw e (realloc-Holds new xs (cells_of b.buffer) (omega arith) is.holds)
    ]

null_size :
    (buffer : Option (List (Option ℕ))) (size : ℕ)
    → length (cells_of buffer) ≡ size
    → (if is_null buffer then size == 0 else true) ≡ true
null_size none size e = ground arith
null_size (some cells) size e = refl

-- What is copied to a buffer once its size is known.
copied :
    (xs : Bytes) (b : MemBuffer) (src : Bytes) (new : ℕ)
    → IsBuffer xs b
    → IsSize b.buffersize (length xs + length src) new
    → CatsTo xs b src (copy_bytes b new (length xs + length src) src)
copied xs b src new is size =
    let (c, ran, retval, is_buffer, same) =
      copy_bytes-IsBuffer xs b src new is (fits size) (small size) in
    inl (c, ran, retval, is_buffer, rw same size)
  where
    fits : IsSize b.buffersize (length xs + length src) new → length xs + length src ≤ new
    fits (inl (room, same)) = omega (arith, same)
    fits (inr (more, limit, (n, power, above, below))) = above

    small : IsSize b.buffersize (length xs + length src) new → new < 2 ^ 31
    small (inl (room, same)) = omega (arith, same, is.small)
    small (inr (more, limit, (n, power, above, below))) = omega (arith, below, limit)

-- `membcat` puts fewer than 2^31 bytes behind those of a buffer, whose size stays if they fit, and else
-- becomes a power of two that holds them and is less than twice as large as needed; or it returns -1
-- and leaves the buffer as it is, and then more than 2^30 bytes are needed.
pub membcat-CatsTo :
    (xs : Bytes) (b : MemBuffer) (src : Bytes)
    → IsBuffer xs b
    → length src < 2 ^ 31
    → CatsTo xs b src (membcat b src)
unfolding membcat
membcat-CatsTo xs b src is short =
    let no_wrap : (b.bufferlen + length src) % 2 ^ 32 ≡ length xs + length src =
      omega (arith, is.len, is.room, is.small) in
    let within : leb b.bufferlen b.buffersize ≡ true = ground (arith, is.len, is.room) in
    elim (wanted_size_cases b.buffersize (length xs + length src)
      (omega (arith, is.room, is.small))) [
        | inl (new, found, size) ↦
            rw (membcat, within, null_size b.buffer b.buffersize is.size, no_wrap, found, no_wrap)
              (copied xs b src new is size)
        | inr (none_found, more, large) ↦
            rw (membcat, within, null_size b.buffer b.buffersize is.size, no_wrap, none_found)
              (inr (refl, more, large))
      ]
