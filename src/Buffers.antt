-- ===== src/Buffers.antt =====
-- stringext.c: text that is joined, and the buffers that grow. Memory is a list of cells, `none` where
-- nothing has been written. malloc() and realloc() give memory.
pub mod Cells
pub mod Bits
pub mod Grows
pub mod Doubles
use Prim.Native.Nat.{bit_or}
use qgis_scheduler.Prelude.{
  ℕ, zero, suc, ◌+◌, ◌-◌, ◌*◌, ◌/◌, ◌%◌, ◌^◌, Bool, true, false, ◌||◌, Option, none, some, List, [],
  ◌∷◌, ◌++◌, map, length, take, drop, replicate, ltb, leb, ◌==◌, if◌then◌else◌, Bytes, ℤ, pos,
  negsuc,
}
use qgis_scheduler.Outcome.{
  Outcome, ok, fault, exit_failure, over_write, ◌>>=◌, ◌>>◌, assert, int_add,
}

module _ {ℓ} {A : Type ℓ} where
  -- realloc(cells, n)
  abbrev pub realloc : ℕ → List (Option A) → List (Option A)
  realloc n cells = take n (cells ++ replicate n none)

  -- memcpy() to the cells from this place on
  abbrev pub write_cells : List (Option A) → ℕ → List A → Outcome (List (Option A))
  write_cells cells at value =
      if ltb (length cells) (at + length value)
      then fault over_write
      else ok (take at cells ++ (map some value ++ drop (at + length value) cells))

-- The loop over the arguments that adds up their lengths.
unfoldable pub total_length : List Bytes → Outcome ℕ
total_length [] = ok 0
total_length (s ∷ args) = do rest ← total_length args; int_add (length s) rest

-- The loop that copies them one behind the other, into memory for `size` bytes that ends with '\0'.
unfoldable pub join_all : ℕ → Bytes → List Bytes → Outcome Bytes
join_all size astr [] = ok astr
join_all size astr (s ∷ args) =
    let longer = astr ++ s in
    if ltb (length longer) size then join_all size longer args else fault over_write

-- anstrcat(); NULL without an argument.
unfoldable pub anstrcat : List Bytes → Outcome (Option Bytes)
unfolding total_length join_all
anstrcat [] = ok none
anstrcat (s ∷ args) = do
  len ← total_length (s ∷ args)
  size ← int_add len 1
  astr ← join_all size [] (s ∷ args)
  ok (some astr)

-- A text in a buffer of `len` bytes.
pub record TextBuffer : Type 0 where
  pub buffer : Bytes
  pub len : ℕ

abbrev pub max_resize_iteration : ℕ
max_resize_iteration = 10

-- The loop of strnbcat() with this many rounds left; `none` where it gives up.
unfoldable pub resize_loop : ℕ → ℕ → ℕ → Outcome (Option ℕ)
resize_loop zero needed newlen = ok none
resize_loop (suc rounds) needed newlen =
    if leb newlen needed
    then (do doubled ← int_add newlen newlen; resize_loop rounds needed doubled)
    else ok (some newlen)

-- The final strcat(), with the '\0' behind the text.
abbrev pub append_text : ℕ → Bytes → Bytes → Outcome TextBuffer
append_text newlen buffer str =
    if ltb (length (buffer ++ str)) newlen
    then ok (record { buffer = buffer ++ str; len = newlen })
    else fault over_write

unfoldable pub strnbcat : TextBuffer → Bytes → Outcome TextBuffer
unfolding resize_loop
strnbcat b str = do
  needed ← int_add (length str) (length b.buffer)
  newlen ← resize_loop max_resize_iteration needed b.len
  elim newlen [ none ↦ fault exit_failure | some n ↦ append_text n b.buffer str ]

-- An array with `nelem` elements allocated and `nlen` used; NULL is `none`.
pub record Array {ℓ} (A : Type ℓ) : Type ℓ where
  pub cells : Option (List (Option A))
  pub nelem : ℕ
  pub nlen : ℕ

-- The new number of elements of a full array.
unfoldable pub grown : ℕ → Outcome ℕ
grown myelem = if myelem == 0 then ok 16 else int_add myelem myelem

module _ {ℓ} {A : Type ℓ} where
  abbrev pub cells_of : Option (List (Option A)) → List (Option A)
  cells_of none = []
  cells_of (some cells) = cells

  -- The values of an array at NULL are reset.
  abbrev pub reset_if_null : Option (List (Option A)) → ℕ → ℕ
  reset_if_null none n = 0
  reset_if_null (some cells) n = n

  abbrev pub put : List (Option A) → ℕ → ℕ → A → Outcome (Array A)
  put cells nelem mylen value = do
    written ← write_cells cells mylen (value ∷ [])
    ok (record { cells = some written; nelem = nelem; nlen = mylen + 1 })

  unfoldable pub arraycat : Array A → A → Outcome (Array A)
  unfolding grown
  arraycat a value =
      let myelem = reset_if_null a.cells a.nelem in
      let mylen = reset_if_null a.cells a.nlen in
      if leb myelem mylen
      then (do
        more ← grown myelem
        put (realloc more (cells_of a.cells)) more (if myelem == 0 then 0 else mylen) value)
      else put (cells_of a.cells) a.nelem mylen value

-- A buffer of bytes; NULL is `none`.
pub record MemBuffer : Type 0 where
  pub buffer : Option (List (Option ℕ))
  pub buffersize : ℕ
  pub bufferlen : ℕ

-- The result of a call, and what it makes of the buffer.
pub record Catted : Type 0 where
  pub mem : MemBuffer
  pub retval : ℤ

-- One line `v |= v >> n`.
unfoldable pub smear : ℕ → ℕ → ℕ
smear n v = bit_or v (v / 2 ^ n)

-- The computation of the next power of two, on 32-bit numbers.
unfoldable pub next_power : ℕ → ℕ
unfolding smear
next_power newbufferlen =
    (smear 16 (smear 8 (smear 4 (smear 2 (smear 1 ((newbufferlen + 2 ^ 32 - 1) % 2 ^ 32))))) + 1)
    % 2 ^ 32

-- The size for a new length, or `none` where the result is -1.
unfoldable pub wanted_size : ℕ → ℕ → Option ℕ
unfolding next_power
wanted_size mybuffersize newbufferlen =
    if ltb mybuffersize newbufferlen
    then (if leb (2 ^ 31) newbufferlen
        then none
        else (let v = next_power newbufferlen in if leb (2 ^ 31) v then none else some v))
    else some mybuffersize

abbrev pub is_null : Option (List (Option ℕ)) → Bool
is_null none = true
is_null (some cells) = false

-- The copy, behind the realloc() for another size.
unfoldable pub copy_bytes : MemBuffer → ℕ → ℕ → Bytes → Outcome Catted
copy_bytes b mybuffersize newbufferlen src = do
  let mybuffer =
      if mybuffersize == b.buffersize
      then cells_of b.buffer
      else realloc mybuffersize (cells_of b.buffer)
  written ← write_cells mybuffer b.bufferlen src
  ok (record {
    mem = record { buffer = some written; buffersize = mybuffersize; bufferlen = newbufferlen };
    retval = pos 0;
  })

unfoldable pub membcat : MemBuffer → Bytes → Outcome Catted
unfolding wanted_size copy_bytes
membcat b src = do
  assert (leb b.bufferlen b.buffersize)
  assert (if is_null b.buffer then b.buffersize == 0 else true)
  let newbufferlen = (b.bufferlen + length src) % 2 ^ 32
  elim (wanted_size b.buffersize newbufferlen) [
    | none ↦ ok (record { mem = b; retval = negsuc 0 })
    | some size ↦ copy_bytes b size newbufferlen src
  ]
