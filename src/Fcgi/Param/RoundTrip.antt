-- ===== src/Fcgi/Param/RoundTrip.antt =====
-- fcgi_param_parse() reads back what fcgi_param_list_write() wrote.
use qgis_scheduler.Prelude.{
  ℕ, zero, suc, ◌+◌, ◌-◌, ◌≤◌, ◌<◌, ◌≡◌, ◌⊎◌, some, List, [], ◌∷◌, ◌++◌, arith, Bytes, length, All,
  pos, negsuc, inl, inr, length-append, append-nil, append_assoc, take-length_append,
  drop-length_append,
}
use qgis_scheduler.Outcome.{Outcome, ok, fault, assert_failed, int_max}
use qgis_scheduler.Fcgi.Param.{
  Param, Written, long_length, read_length, read_bytes, param_copy, param_parse, length_prefix,
  write_value, param_list_write, param_loop, param_list_parse,
}

length-length_prefix : (n : ℕ) → (length (length_prefix n) ≡ 1) ⊎ (length (length_prefix n) ≡ 4)
unfolding length_prefix
length-length_prefix n = ground arith

-- A length below 2^31 is read back from the form that it is written in.
read_length-length_prefix :
    (n : ℕ) (rest : Bytes)
    → n ≤ int_max
    → read_length (length_prefix n ++ rest)
      ≡ ok (record { value = n; rest = rest; taken = length (length_prefix n) })
unfolding read_length long_length length_prefix
read_length-length_prefix n rest h = ground arith

read_bytes-append : (xs ys : Bytes) → read_bytes (length xs) (xs ++ ys) ≡ ok xs
unfolding read_bytes
read_bytes-append xs ys = ground (arith, length-append xs ys, take-length_append xs ys)

param_copy-append :
    (name value rest : Bytes) (len taken : ℕ)
    → length name + length value ≤ int_max
    → length name + length value ≤ len
    → param_copy (name ++ (value ++ rest)) len taken (length name) (length value)
      ≡ ok (record {
        dataread = taken + (length name + length value);
        param = some (record { name = name; value = value });
      })
unfolding param_copy
param_copy-append name value rest len taken h k = ground (
  arith,
  read_bytes-append name (value ++ rest),
  drop-length_append name (value ++ rest),
  read_bytes-append value rest,
)

abbrev pub encoded : Bytes → Bytes → Bytes
encoded name value =
    length_prefix (length name) ++ (length_prefix (length value) ++ (name ++ value))

length-encoded :
    (name value : Bytes)
    → length (encoded name value)
      ≡ length (length_prefix (length name))
        + length (length_prefix (length value))
        + (length name + length value)
length-encoded name value = omega (
  arith,
  length-append (length_prefix (length name)) (length_prefix (length value) ++ (name ++ value)),
  length-append (length_prefix (length value)) (name ++ value),
  length-append name value,
)

-- The pair in its written form, with any bytes behind it, parses to the pair.
pub param_parse-encoded :
    (name value rest : Bytes) (len : ℕ)
    → length name + length value ≤ int_max
    → length (encoded name value) ≤ len
    → param_parse (encoded name value ++ rest) len
      ≡ ok (record {
        dataread = length (encoded name value);
        param = some (record { name = name; value = value });
      })
unfolding param_parse
param_parse-encoded name value rest len h k =
    let n = length_prefix (length name) in
    let v = length_prefix (length value) in
    ground (
      arith,
      length-encoded name value,
      length-length_prefix (length name),
      length-length_prefix (length value),
      append_assoc n (v ++ (name ++ value)) rest,
      append_assoc v (name ++ value) rest,
      append_assoc name value rest,
      read_length-length_prefix (length name) (v ++ (name ++ (value ++ rest))),
      read_length-length_prefix (length value) (name ++ (value ++ rest)),
      param_copy-append name value rest (len - (length n + length v)) (length n + length v),
    )

-- A return of -1.
abbrev pub IsRefused : Outcome Written → Type 0
IsRefused (ok w) = w.retval ≡ negsuc 0
IsRefused (fault e) = ⊥

compare_cases : (a b : ℕ) → (a < b) ⊎ ((a ≡ b) ⊎ (b < a))
compare_cases a b = grind arith

-- `fcgi_param_list_write` by the size of its buffer. It returns -1 if the written form is longer
-- than the buffer, stops at a failed assertion if it fits exactly, and otherwise stores it.
pub param_list_write_cases :
    (len : ℕ) (name value : Bytes)
    → ((len < length (encoded name value)) × IsRefused (param_list_write len name value))
      ⊎ (((len ≡ length (encoded name value))
            × (param_list_write len name value ≡ fault assert_failed))
          ⊎ ((length (encoded name value) < len)
              × (param_list_write len name value
                  ≡ ok (record {
                    retval = pos (length (encoded name value));
                    bytes = encoded name value;
                  }))))
unfolding param_list_write write_value
param_list_write_cases len name value =
    let n = length_prefix (length name) in
    let v = length_prefix (length value) in
    let shape = length-encoded name value in
    let n_shape = length-length_prefix (length name) in
    let v_shape = length-length_prefix (length value) in
    elim (compare_cases len (length (encoded name value))) [
      | inl h ↦ inl (h, ground (arith, shape, n_shape, v_shape))
      | inr (inl h) ↦ inr (inl (h, ground (arith, shape, n_shape, v_shape)))
      | inr (inr h) ↦ inr (inr (h, ground (arith, shape, n_shape, v_shape)))
    ]

-- What `fcgi_param_list_write` stored, with any bytes behind it, `fcgi_param_parse` reads back as
-- the same pair, taking as many bytes as were written. The texts are together below 2^31 bytes.
pub param_parse-param_list_write :
    (len n : ℕ) (name value rest : Bytes) (w : Written)
    → length name + length value ≤ int_max
    → param_list_write len name value ≡ ok w
    → w.retval ≡ pos n
    → param_parse (w.bytes ++ rest) (n + length rest)
      ≡ ok (record { dataread = n; param = some (record { name = name; value = value }) })
param_parse-param_list_write len n name value rest w h e r = ground (
  arith,
  param_list_write_cases len name value,
  param_parse-encoded name value rest (n + length rest) h,
)

abbrev pub encoded_all : List Param → Bytes
encoded_all [] = []
encoded_all (p ∷ ps) = encoded p.name p.value ++ encoded_all ps

abbrev pub IsShort : Param → Type 0
IsShort p = length p.name + length p.value ≤ int_max

pub encoded_all_longer :
    (p : Param) (ps : List Param)
    → (length (encoded_all (p ∷ ps)) ≡ length (encoded p.name p.value) + length (encoded_all ps))
      × (2 ≤ length (encoded p.name p.value))
encoded_all_longer p ps = (
  length-append (encoded p.name p.value) (encoded_all ps),
  omega (
    arith,
    length-encoded p.name p.value,
    length-length_prefix (length p.name),
    length-length_prefix (length p.value),
  ),
)

param_loop-encoded_all :
    (ps found : List Param) (fuel : ℕ)
    → All IsShort ps
    → length (encoded_all ps) ≤ fuel
    → param_loop fuel (encoded_all ps) (length (encoded_all ps)) found ≡ ok (found ++ ps)
unfolding param_loop
param_loop-encoded_all [] found zero h k = rw append-nil
param_loop-encoded_all [] found (suc fuel) h k = rw append-nil
param_loop-encoded_all (p ∷ ps) found zero h k = absurd (omega (arith, encoded_all_longer p ps))
param_loop-encoded_all (p ∷ ps) found (suc fuel) h k = ground (
  arith,
  encoded_all_longer p ps,
  param_parse-encoded p.name p.value (encoded_all ps) (length (encoded_all (p ∷ ps))) h.0,
  drop-length_append (encoded p.name p.value) (encoded_all ps),
  append_assoc found (p ∷ []) ps,
  param_loop-encoded_all ps (found ++ p ∷ []) fuel h.1,
)

-- A FCGI_PARAMS content made of written pairs parses to those pairs, in order, behind those found
-- before.
pub param_list_parse-encoded_all :
    (ps found : List Param)
    → All IsShort ps
    → param_list_parse found (some (encoded_all ps)) (length (encoded_all ps)) ≡ ok (found ++ ps)
unfolding param_list_parse
param_list_parse-encoded_all ps found h =
    param_loop-encoded_all ps found (length (encoded_all ps)) h (omega arith)
