-- ===== src/Buffers/Cells.antt =====
-- stringext.c: memory that begins with the values that were put into it.
use qgis_scheduler.Prelude.{
  ℕ, zero, suc, ◌+◌, ◌≤◌, ◌≡◌, refl, sym, ap, Option, none, some, List, [], ◌∷◌, ◌++◌, map, length,
  take, drop, replicate, arith, append_assoc, length-append, length-take, length-drop,
  length-replicate, take-length_append,
}
use mathlib.Core.List.{map-append}
use qgis_scheduler.Outcome.{ok}
use qgis_scheduler.Buffers.{realloc, write_cells}

module _ {ℓ} {A : Type ℓ} where
  -- The cells begin with these values.
  abbrev pub Holds : List A → List (Option A) → Type ℓ
  Holds xs cells = take (length xs) cells ≡ map some xs

  length-map-some : (xs : List A) → length (map some xs) ≡ length xs
  length-map-some [] = refl
  length-map-some (x ∷ xs) = ap suc (length-map-some xs)

  pub length-Holds :
      (xs : List A) (cells : List (Option A)) → Holds xs cells → length xs ≤ length cells
  length-Holds xs cells h =
      omega (arith, ap length h, length-take (length xs) cells, length-map-some xs)

  pub all-Holds : (xs : List A) (rest : List (Option A)) → Holds xs (map some xs ++ rest)
  all-Holds xs rest = rw (sym (length-map-some xs)) (take-length_append (map some xs) rest)

  Holds-more :
      (xs : List A) (cells more : List (Option A)) → Holds xs cells → Holds xs (cells ++ more)
  Holds-more [] cells more h = refl
  Holds-more (x ∷ xs) [] more h = absurd (ground arith)
  Holds-more (x ∷ xs) (c ∷ cells) more h = ground (arith, Holds-more xs cells more)

  Holds-take :
      (n : ℕ) (xs : List A) (cells : List (Option A))
      → length xs ≤ n
      → Holds xs cells
      → Holds xs (take n cells)
  Holds-take n [] cells less h = refl
  Holds-take zero (x ∷ xs) cells less h = absurd (omega arith)
  Holds-take (suc n) (x ∷ xs) [] less h = absurd (ground arith)
  Holds-take (suc n) (x ∷ xs) (c ∷ cells) less h = ground (arith, Holds-take n xs cells)

  -- A larger block keeps what it holds.
  pub realloc-Holds :
      (n : ℕ) (xs : List A) (cells : List (Option A))
      → length xs ≤ n
      → Holds xs cells
      → Holds xs (realloc n cells) × (length (realloc n cells) ≡ n)
  realloc-Holds n xs cells less h = (
    Holds-take n xs (cells ++ replicate n none) less (Holds-more xs cells (replicate n none) h),
    omega (
      arith,
      length-take n (cells ++ replicate n none),
      length-append cells (replicate n none),
      length-replicate {A = Option A} n none,
    ),
  )

  pub write_cells-Holds :
      (xs value : List A) (cells : List (Option A))
      → length xs + length value ≤ length cells
      → Holds xs cells
      → (written : List (Option A)) × (write_cells cells (length xs) value ≡ ok written)
        × Holds (xs ++ value) written
        × (length written ≡ length cells)
  write_cells-Holds xs value cells room h =
      let rest = drop (length xs + length value) cells in
      let written = take (length xs) cells ++ (map some value ++ rest) in
      let joined : written ≡ map some (xs ++ value) ++ rest =
        rw (h, map-append some xs value, append_assoc) refl in
      (
        written,
        ground (arith, room),
        rw joined (all-Holds (xs ++ value) rest),
        omega (
          arith,
          ap length h,
          length-map-some xs,
          length-append (take (length xs) cells) (map some value ++ rest),
          length-append (map some value) rest,
          length-map-some value,
          length-drop (length xs + length value) cells,
        ),
      )
