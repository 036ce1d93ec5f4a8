-- ===== src/Manager/Names.antt =====
-- process_manager.c: the search for a free name of a child's socket.
use qgis_scheduler.Prelude.{
  ℕ, zero, suc, ◌+◌, ◌-◌, ◌%◌, ◌<◌, ◌≡◌, refl, sym, ◌⊎◌, inl, inr, arith, ◌==◌, true, false,
  Bool-cases, ltb, ◌↔◌, subst,
}
use qgis_scheduler.Outcome.{Outcome, ok, fault, exit_failure}
use qgis_scheduler.Manager.Spawn.{
  Bound, bound, in_use, bind_failed, uint_mod, Numbered, bind_loop, bind_socket,
}

-- The number that is tried at the k-th attempt.
abbrev pub name_number : ℕ → ℕ → ℕ
name_number socket_id k = (socket_id + k) % uint_mod

-- How many numbers are tried at most.
abbrev pub names_tried : ℕ
names_tried = uint_mod - 1

-- Which of the three ends the search takes: the first number in the order that is not in use is free,
-- it cannot be bound for another reason, or all that are tried are in use.
abbrev pub Searched : (ℕ → Bound) → ℕ → Outcome Numbered → Type 0
Searched bind socket_id result =
    ((k : ℕ) × (k < names_tried)
      × ((j : ℕ) → j < k → bind (name_number socket_id j) ≡ in_use)
      × (bind (name_number socket_id k) ≡ bound)
      × (result
          ≡ ok (record {
            socket_suffix = name_number socket_id k;
            socket_id = name_number socket_id (k + 1);
          })))
    ⊎ ((k : ℕ) × (k < names_tried)
        × ((j : ℕ) → j < k → bind (name_number socket_id j) ≡ in_use)
        × (bind (name_number socket_id k) ≡ bind_failed)
        × (result ≡ fault exit_failure))
    ⊎ (((j : ℕ) → j < names_tried → bind (name_number socket_id j) ≡ in_use)
        × (result ≡ fault exit_failure))

one_more :
    (bind : ℕ → Bound) (id k : ℕ)
    → ((j : ℕ) → j < k → bind (name_number id j) ≡ in_use)
    → bind (name_number id k) ≡ in_use
    → (j : ℕ) → j < k + 1
    → bind (name_number id j) ≡ in_use
one_more bind id k before e j h = elim (Bool-cases (ltb j k)) [
  | inl earlier ↦ before j (ground arith)
  | inr last ↦ subst (λ i. bind (name_number id i) ≡ in_use) (ground arith) e
]

Bound-cases : (b : Bound) → (b ≡ bound) ⊎ (b ≡ in_use) ⊎ (b ≡ bind_failed)
Bound-cases bound = inl refl
Bound-cases in_use = inr (inl refl)
Bound-cases bind_failed = inr (inr refl)

last_name :
    (id k : ℕ)
    → id < uint_mod
    → k < uint_mod
    → ((name_number id k == name_number id names_tried) ≡ true) ↔ (k ≡ names_tried)
last_name id k i h = ground arith

earlier_name :
    (id k : ℕ)
    → k < uint_mod
    → (name_number id k == name_number id names_tried) ≡ false
    → k < names_tried
earlier_name id k h e = ground arith

next_name : (id k : ℕ) → (name_number id k + 1) % uint_mod ≡ name_number id (k + 1)
next_name id k = omega arith

bind_loop-Searched :
    (bind : ℕ → Bound) (id k left : ℕ)
    → id < uint_mod
    → left + k ≡ uint_mod
    → 0 < left
    → ((j : ℕ) → j < k → bind (name_number id j) ≡ in_use)
    → Searched bind id (bind_loop bind left (name_number id names_tried) (name_number id k))
unfolding bind_loop
bind_loop-Searched bind id k zero i n h before = absurd (omega arith)
bind_loop-Searched bind id k (suc left) i n h before =
    elim (Bool-cases (name_number id k == name_number id names_tried)) [
      | inl last ↦
          let e : k ≡ names_tried = (last_name id k i (omega arith)).0 last in
          rw (bind_loop, last) (inr (inr (λ j earlier. before j (omega (arith, e)), refl)))
      | inr more ↦ elim (Bound-cases (bind (name_number id k))) [
        | inl free ↦
            rw (bind_loop, more, free)
              (inl
                (k, earlier_name id k (omega arith) more, before, free, rw (next_name id k) refl))
        | inr (inl used) ↦
            rw (bind_loop, more, used)
              (rw (next_name id k) (
                bind_loop-Searched bind id (k + 1) left i (omega arith)
                  (let early = earlier_name id k (omega arith) more in omega (arith, early))
                  (one_more bind id k before used)))
        | inr (inr failed) ↦
            rw (bind_loop, more, failed)
              (inr (inl (k, earlier_name id k (omega arith) more, before, failed, refl)))
      ]
    ]

-- The search for a name tries socket_id and the numbers behind it, modulo 2^32, and ends after at most
-- 2^32 - 1 attempts: with the first number that is not in use, when that can be bound, and the
-- counter stands behind it; or the program ends, since that number cannot be bound for another
-- reason or since all the numbers tried are in use.
pub bind_socket-Searched :
    (bind : ℕ → Bound) (socket_id : ℕ)
    → socket_id < uint_mod
    → Searched bind socket_id (bind_socket bind socket_id)
unfolding bind_socket
bind_socket-Searched bind socket_id i =
    let first : name_number socket_id 0 ≡ socket_id = omega arith in
    let start : (socket_id + uint_mod - 1) % uint_mod ≡ name_number socket_id names_tried =
      omega arith in
    subst (λ i. Searched bind socket_id (bind_loop bind uint_mod i socket_id)) (sym start)
      (subst
        (λ i.
          Searched bind socket_id (bind_loop bind uint_mod (name_number socket_id names_tried) i))
        first
        (bind_loop-Searched bind socket_id 0 uint_mod i refl (omega arith)
          (λ j h. absurd (omega arith))))
