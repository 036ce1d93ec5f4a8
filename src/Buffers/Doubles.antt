-- ===== src/Buffers/Doubles.antt =====
-- stringext.c: what strnbcat() and anstrcat() append.
use qgis_scheduler.Prelude.{
  ℕ, zero, suc, ◌+◌, ◌*◌, ◌^◌, ◌≤◌, ◌<◌, ◌≡◌, refl, ap, ◌⊎◌, Option, none, some, List, [], ◌∷◌,
  ◌++◌, length, length-append, append_assoc, append-nil, true, false, leb→le, arith, ltb, leb,
  Bool-cases, inl, inr, Bytes,
}
use native.Mathlib.Nat.{one-le-pow}
use qgis_scheduler.Outcome.{Outcome, ok, fault, exit_failure, int_max}
use qgis_scheduler.Buffers.{total_length, join_all, anstrcat, TextBuffer, resize_loop, strnbcat}

-- The joined text of the arguments.
abbrev pub joined : List Bytes → Bytes
joined [] = []
joined (s ∷ args) = s ++ joined args

total_length_lem :
    (args : List Bytes)
    → length (joined args) ≤ int_max
    → total_length args ≡ ok (length (joined args))
unfolding total_length
total_length_lem [] h = refl
total_length_lem (s ∷ args) h =
    let all = length-append s (joined args) in
    rw (total_length, total_length_lem args (omega (arith, all))) (ground (arith, all))

join_all_lem :
    (size : ℕ) (astr : Bytes) (args : List Bytes)
    → length astr + length (joined args) < size
    → join_all size astr args ≡ ok (astr ++ joined args)
unfolding join_all
join_all_lem size astr [] h = rw append-nil refl
join_all_lem size astr (s ∷ args) h =
    let all = length-append s (joined args) in
    let longer = length-append astr s in
    let room : ltb (length (astr ++ s)) size ≡ true = ground (arith, all, longer) in
    rw (join_all, room, join_all_lem size (astr ++ s) args (omega (arith, all, longer)))
      (ap ok (append_assoc astr s (joined args)))

pub anstrcat-joined :
    (s : Bytes) (args : List Bytes)
    → length (joined (s ∷ args)) < int_max
    → anstrcat (s ∷ args) ≡ ok (some (joined (s ∷ args)))
unfolding anstrcat
anstrcat-joined s args h =
    let len = total_length_lem (s ∷ args) (omega arith) in
    let no_overflow : ltb int_max (length (joined (s ∷ args)) + 1) ≡ false = ground arith in
    rw
      (
        anstrcat,
        len,
        no_overflow,
        join_all_lem (length (joined (s ∷ args)) + 1) [] (s ∷ args) (omega arith),
      )
      refl

twice : (n rounds : ℕ) → n * 2 ^ suc rounds ≡ (n + n) * 2 ^ rounds
twice n rounds = let two : 2 ^ suc rounds ≡ 2 ^ rounds * 2 = omega arith in rw two (grind arith)

-- A size is found exactly if one doubling less than there are rounds is enough.
abbrev Resizes : ℕ → ℕ → ℕ → Outcome (Option ℕ) → Type 0
Resizes rounds needed newlen result =
    ((needed < newlen * 2 ^ rounds)
      × ((size : ℕ) × (result ≡ ok (some size))
          × (needed < size)
          × ((size ≡ newlen) ⊎ (size ≤ 2 * needed))))
    ⊎ ((newlen * 2 ^ rounds ≤ needed) × (result ≡ ok none))

doubled-Resizes :
    (rounds needed newlen : ℕ) (result : Outcome (Option ℕ))
    → newlen ≤ needed
    → Resizes rounds needed (newlen + newlen) result
    → Resizes (suc rounds) needed newlen result
doubled-Resizes rounds needed newlen result less (inr (small, gives_up)) =
    let same : newlen * 2 ^ suc rounds ≡ (newlen + newlen) * 2 ^ rounds = twice newlen rounds in
    inr (omega (arith, same), gives_up)
doubled-Resizes rounds needed newlen result less (inl (enough, (size, found, fits, bound))) =
    let same : newlen * 2 ^ suc rounds ≡ (newlen + newlen) * 2 ^ rounds = twice newlen rounds in
    inl (omega (arith, same), (size, found, fits, inr (ground (arith, bound))))

no_overflow :
    (newlen rounds : ℕ) → newlen * 2 ^ suc rounds ≤ int_max → ltb int_max (newlen + newlen) ≡ false
no_overflow newlen rounds fits =
    let one = one-le-pow rounds 2 (omega arith) in
    let two = twice newlen rounds in
    let grows : newlen + newlen ≤ (newlen + newlen) * 2 ^ rounds = grind arith in ground arith

-- The buffer is large enough at once.
stays :
    (rounds needed newlen : ℕ)
    → leb newlen needed ≡ false
    → Resizes rounds needed newlen (resize_loop (suc rounds) needed newlen)
unfolding resize_loop
stays rounds needed newlen e =
    let one = one-le-pow rounds 2 (omega arith) in
    let grows : newlen ≤ newlen * 2 ^ rounds = grind arith in
    inl (ground (arith, grows), (newlen, rw (resize_loop, e) refl, ground arith, inl refl))

resize_loop-Resizes :
    (rounds needed newlen : ℕ)
    → newlen * 2 ^ suc rounds ≤ int_max
    → Resizes rounds needed newlen (resize_loop (suc rounds) needed newlen)
unfolding resize_loop
resize_loop-Resizes zero needed newlen fits = elim (Bool-cases (leb newlen needed)) [
  | inr e ↦ stays zero needed newlen e
  | inl e ↦ inr (ground arith, rw (resize_loop, e, no_overflow newlen zero fits) refl)
]
resize_loop-Resizes (suc rounds) needed newlen fits = elim (Bool-cases (leb newlen needed)) [
  | inr e ↦ stays (suc rounds) needed newlen e
  | inl e ↦
      let fits' : (newlen + newlen) * 2 ^ suc rounds ≤ int_max =
        omega (arith, twice newlen (suc rounds)) in
      let opened : resize_loop (suc (suc rounds)) needed newlen
          ≡ resize_loop (suc rounds) needed (newlen + newlen) =
        rw (resize_loop, e, no_overflow newlen (suc rounds) fits) refl in
      rw opened (
        doubled-Resizes rounds needed newlen _ (leb→le _ _ e)
          (resize_loop-Resizes rounds needed (newlen + newlen) fits'))
]

-- The text is appended if nine doublings of the buffer are enough, and the buffer is at most doubled
-- beyond what is needed; else the program ends.
abbrev pub Appended : TextBuffer → Bytes → Outcome TextBuffer → Type 0
Appended b str result =
    ((length (b.buffer ++ str) < b.len * 2 ^ 9)
      × ((c : TextBuffer) × (result ≡ ok c)
          × (c.buffer ≡ b.buffer ++ str)
          × (length c.buffer < c.len)
          × ((c.len ≡ b.len) ⊎ (c.len ≤ 2 * length c.buffer))))
    ⊎ ((b.len * 2 ^ 9 ≤ length (b.buffer ++ str)) × (result ≡ fault exit_failure))

-- If the joined length and ten doublings of the buffer's size are within int, `strnbcat` appends the text
-- if nine doublings are enough, into a buffer of the same size or at most twice the joined length;
-- else it ends the program.
pub strnbcat-Appended :
    (b : TextBuffer) (str : Bytes)
    → length (b.buffer ++ str) ≤ int_max
    → b.len * 2 ^ 10 ≤ int_max
    → Appended b str (strnbcat b str)
unfolding strnbcat
strnbcat-Appended b str short fits =
    let needed : length str + length b.buffer ≡ length (b.buffer ++ str) =
      omega (arith, length-append b.buffer str) in
    let sum_fits : ltb int_max (length (b.buffer ++ str)) ≡ false = ground arith in
    elim (resize_loop-Resizes 9 (length (b.buffer ++ str)) b.len fits) [
      | inr (small, gives_up) ↦ inr (small, rw (strnbcat, needed, sum_fits, gives_up) refl)
      | inl (enough, (size, found, room, bound)) ↦
          let has_room : ltb (length (b.buffer ++ str)) size ≡ true = ground arith in
          inl (
            enough,
            (
              record { buffer = b.buffer ++ str; len = size },
              rw (strnbcat, needed, sum_fits, found, has_room) refl,
              refl,
              room,
              bound,
            ),
          )
    ]
