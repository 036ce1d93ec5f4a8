-- ===== src/Fcgi/Param.antt =====
-- fcgi_state.c, the name-value pairs of a FCGI_PARAMS message. Memory behind a pointer is the list
-- of the bytes up to the end of its allocation, so a read behind the end is a fault.
-- `x & 0xff` is `x % 256`, `x & 0x7f` is `x % 128`, and `x >> 8` is `x / 256`.
pub mod RoundTrip
pub mod Reads
use qgis_scheduler.Prelude.{
  ℕ, zero, suc, ◌+◌, ◌-◌, ◌*◌, ◌/◌, ◌%◌, Bool, ◌&&◌, true, false, not, Option, none, some, List, [],
  ◌∷◌, ◌++◌, ltb, ◌==◌, if◌then◌else◌, Bytes, length, take, drop, ℤ, pos, negsuc,
}
use qgis_scheduler.Outcome.{
  Outcome, ok, fault, over_read, out_of_fuel, ◌>>=◌, ◌>>◌, assert, int_add,
}

-- struct fcgi_param_s
pub record Param : Type 0 where
  pub name : Bytes
  pub value : Bytes

-- A length as fcgi_param_parse() reads it: its value, the memory behind it, the bytes taken.
pub record ReadLength : Type 0 where
  pub value : ℕ
  pub rest : Bytes
  pub taken : ℕ

unfoldable pub long_length : ℕ → Bytes → Outcome ReadLength
long_length b3 (b2 ∷ b1 ∷ b0 ∷ rest) =
    ok (record { value = ((b3 % 128 * 256 + b2) * 256 + b1) * 256 + b0; rest = rest; taken = 4 })
long_length b3 _ = fault over_read

unfoldable pub read_length : Bytes → Outcome ReadLength
read_length [] = fault over_read
read_length (b ∷ rest) =
    if b / 128 == 0 then ok (record { value = b; rest = rest; taken = 1 }) else long_length b rest

-- memcpy() of `n` bytes out of the memory.
unfoldable pub read_bytes : ℕ → Bytes → Outcome Bytes
read_bytes n mem = if ltb (length mem) n then fault over_read else ok (take n mem)

-- What fcgi_param_parse() returns, and the pair that it fills in.
pub record Parsed : Type 0 where
  pub dataread : ℕ
  pub param : Option Param

abbrev pub rejected : Parsed
rejected = record { dataread = 0; param = none }

-- The part behind the two lengths: `len` bytes are left, and `taken` are read.
unfoldable pub param_copy : Bytes → ℕ → ℕ → ℕ → ℕ → Outcome Parsed
param_copy mem len taken name_len value_len = do
  total ← int_add name_len value_len
  if ltb len total then ok rejected else do
    name ← read_bytes name_len mem
    value ← read_bytes value_len (drop name_len mem)
    ok (record { dataread = taken + total; param = some (record { name = name; value = value }) })

-- The variable `len` of the source is here `len` less the bytes taken so far.
unfoldable pub param_parse : Bytes → ℕ → Outcome Parsed
param_parse buffer len = if ltb len 2 then ok rejected else do
  n ← read_length buffer
  if ltb len n.taken then ok rejected else do
    v ← read_length n.rest
    if ltb len (n.taken + v.taken)
        then ok rejected
        else param_copy v.rest (len - (n.taken + v.taken)) (n.taken + v.taken) n.value v.value

-- The loop of fcgi_param_list_parse(); the list is that of fcgi_param_list_add_param(), oldest first.
-- Each round takes two bytes at least, so `len` rounds are enough.
unfoldable pub param_loop : ℕ → Bytes → ℕ → List Param → Outcome (List Param)
param_loop zero content len found = if len == 0 then ok found else fault out_of_fuel
param_loop (suc fuel) content len found = elim (len == 0) [
  | true ↦ ok found
  | false ↦ do
    p ← param_parse content len
    elim (if ltb 0 p.dataread then p.param else none) [
      | none ↦ ok found
      | some q ↦ param_loop fuel (drop p.dataread content) (len - p.dataread) (found ++ q ∷ [])
    ]
]

-- The content is a null pointer for a message without content.
unfoldable pub param_list_parse : List Param → Option Bytes → ℕ → Outcome (List Param)
param_list_parse found none len = ok found
param_list_parse found (some content) len = param_loop len content len found

-- A buffer as strcmp() sees it: up to the first null byte.
unfoldable pub c_str : Bytes → Bytes
c_str [] = []
c_str (b ∷ bs) = let rest = c_str bs in if b == 0 then [] else b ∷ rest

unfoldable pub bytes_eq : Bytes → Bytes → Bool
bytes_eq [] [] = true
bytes_eq (a ∷ as') (b ∷ bs) = a == b && bytes_eq as' bs
bytes_eq _ _ = false

-- `name` is a text without null bytes.
unfoldable pub param_list_find : List Param → Bytes → Option Bytes
param_list_find [] name = none
param_list_find (p ∷ ps) name =
    if bytes_eq name (c_str p.name) then some p.value else param_list_find ps name

-- What fcgi_param_list_write() returns, and the bytes that it stores from `buffer` on.
pub record Written : Type 0 where
  pub retval : ℤ
  pub bytes : Bytes

-- The length in one byte, or in four with the leading bit set; INT8_MAX is 127.
unfoldable pub length_prefix : ℕ → Bytes
length_prefix n =
    if ltb 127 n
    then (n / 256 / 256 / 256 % 128 + 128)
      ∷ (n / 256 / 256 % 256)
      ∷ (n / 256 % 256)
      ∷ (n % 256)
      ∷ []
    else (n % 128) ∷ []

-- The checks behind the name's length; `len` bytes of the buffer are left.
unfoldable pub write_value : ℕ → Bytes → Bytes → Bytes → Outcome Written
write_value len front name value =
    let prefix = length_prefix (length value) in
    let left = len - length prefix in
    if ltb len (length name + length value + length prefix)
    then ok (record { retval = negsuc 0; bytes = front })
    else do
      assert (ltb (length name) left)
      assert (ltb (length value) (left - length name))
      ok (record {
        retval = pos (length front + length prefix + length name + length value);
        bytes = front ++ (prefix ++ (name ++ value));
      })

unfoldable pub param_list_write : ℕ → Bytes → Bytes → Outcome Written
param_list_write len name value =
    let prefix = length_prefix (length name) in
    if ltb len (length name + length prefix)
    then ok (record { retval = negsuc 0; bytes = [] })
    else write_value (len - length prefix) prefix name value
