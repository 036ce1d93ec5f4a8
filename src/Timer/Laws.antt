-- ===== src/Timer/Laws.antt =====
-- timer.c computes with the number of nanoseconds that a timespec stands for.
use qgis_scheduler.Prelude.{
  ℕ, ◌+◌, ◌-◌, ◌*◌, ◌/◌, ◌<◌, ◌≡◌, ◌↔◌, ◌⊎◌, true, some, arith, ℤ, pos, negsuc, pos_part, neg_part,
  ◌+ℤ◌, ◌-ℤ◌, ◌<ℤ◌, int_laws, +ℤ_parts, -ℤ_parts, eq_of_parts,
}
use qgis_scheduler.Timer.{Timespec, nsec_one_second, timer_add, timer_stop, timer_isgreaterthan}

-- 0 <= tv_nsec < 1e9
pub record IsNormal (t : Timespec) : Type 0 where
  pub nonneg : neg_part t.tv_nsec ≡ 0
  pub below : pos_part t.tv_nsec < nsec_one_second

abbrev times_billion : ℤ → ℤ
times_billion (pos n) = pos (n * nsec_one_second)
times_billion (negsuc n) = negsuc (n * nsec_one_second + (nsec_one_second - 1))

unfoldable pub nanos : Timespec → ℤ
nanos t = times_billion t.tv_sec +ℤ t.tv_nsec

times_billion_parts :
    (a : ℤ)
    → (pos_part (times_billion a) ≡ pos_part a * nsec_one_second)
      × (neg_part (times_billion a) ≡ neg_part a * nsec_one_second)
times_billion_parts (pos n) = omega arith
times_billion_parts (negsuc n) = omega arith

pub nanos_parts :
    (t : Timespec)
    → pos_part (nanos t) + neg_part t.tv_sec * nsec_one_second + neg_part t.tv_nsec
      ≡ neg_part (nanos t) + pos_part t.tv_sec * nsec_one_second + pos_part t.tv_nsec
unfolding nanos
nanos_parts t =
    omega (arith, times_billion_parts t.tv_sec, +ℤ_parts (times_billion t.tv_sec) t.tv_nsec)

-- Normal timers are ordered by their nanoseconds.
nanos_order :
    (t u : Timespec)
    → IsNormal t
    → IsNormal u
    → (nanos t <ℤ nanos u) ↔ (
        (t.tv_sec <ℤ u.tv_sec)
        ⊎ ((pos_part t.tv_sec + neg_part u.tv_sec ≡ pos_part u.tv_sec + neg_part t.tv_sec)
            × (t.tv_nsec <ℤ u.tv_nsec)))
nanos_order t u n m = (
  λ h. grind (arith, nanos_parts t, nanos_parts u),
  λ h. omega (arith, nanos_parts t, nanos_parts u),
)

-- `qgis_timer_isgreaterthan` decides, for normal timers, whether the first stands for more
-- nanoseconds than the second.
pub timer_isgreaterthan_iff :
    (t u : Timespec)
    → IsNormal t
    → IsNormal u
    → (timer_isgreaterthan t u ≡ true) ↔ (nanos u <ℤ nanos t)
unfolding timer_isgreaterthan
timer_isgreaterthan_iff t u n m =
    let (f, g) = nanos_order u t m n in (λ h. g (ground arith), λ h. ground (arith, f h))

+ℤ_normal : (a b : ℤ) → neg_part a ≡ 0 → neg_part b ≡ 0 → neg_part (a +ℤ b) ≡ 0
unfolding ◌+ℤ◌
+ℤ_normal a b p q = ground arith

-- The total of the fields, in nanoseconds, with both sides of an equation kept positive.
abbrev plus_of : Timespec → ℕ
plus_of t = pos_part t.tv_sec * nsec_one_second + pos_part t.tv_nsec

abbrev minus_of : Timespec → ℕ
minus_of t = neg_part t.tv_sec * nsec_one_second + neg_part t.tv_nsec

timer_add-IsNormal : (t a : Timespec) → IsNormal t → IsNormal a → IsNormal (timer_add t a)
unfolding timer_add
timer_add-IsNormal t a n m =
    ground (arith, +ℤ_parts t.tv_nsec a.tv_nsec, +ℤ_normal t.tv_nsec a.tv_nsec)

timer_add_parts :
    (t a : Timespec)
    → IsNormal t
    → IsNormal a
    → plus_of (timer_add t a) + minus_of t + minus_of a
      ≡ minus_of (timer_add t a) + plus_of t + plus_of a
unfolding timer_add
timer_add_parts t a n m = ground (
  arith,
  +ℤ_parts t.tv_nsec a.tv_nsec,
  +ℤ_normal t.tv_nsec a.tv_nsec,
  +ℤ_parts t.tv_sec a.tv_sec,
  +ℤ_parts (t.tv_sec +ℤ a.tv_sec) (pos (pos_part (t.tv_nsec +ℤ a.tv_nsec) / nsec_one_second)),
)

timer_stop-IsNormal :
    (s now : Timespec) → IsNormal s → IsNormal now → IsNormal (timer_stop s (some now)).timer
unfolding timer_stop ◌+ℤ◌ ◌-ℤ◌
timer_stop-IsNormal s now n m = ground arith

timer_stop_parts :
    (s now : Timespec)
    → IsNormal s
    → IsNormal now
    → plus_of (timer_stop s (some now)).timer + plus_of s + minus_of now
      ≡ minus_of (timer_stop s (some now)).timer + minus_of s + plus_of now
unfolding timer_stop
timer_stop_parts s now n m = ground (
  arith,
  -ℤ_parts now.tv_nsec s.tv_nsec,
  -ℤ_parts now.tv_sec s.tv_sec,
  -ℤ_parts (now.tv_sec -ℤ s.tv_sec) (pos 1),
  +ℤ_parts (now.tv_nsec -ℤ s.tv_nsec) (pos nsec_one_second),
)

Timespec_eq :
    (t u : Timespec)
    → IsNormal t
    → IsNormal u
    → plus_of t + minus_of u ≡ plus_of u + minus_of t
    → t ≡ u
Timespec_eq t u n m e =
    ground (arith, eq_of_parts t.tv_sec u.tv_sec, eq_of_parts t.tv_nsec u.tv_nsec)

-- `qgis_timer_add` adds the nanoseconds of two normal timers, and its result is normal.
pub timer_add-nanos :
    (t a : Timespec)
    → IsNormal t
    → IsNormal a
    → IsNormal (timer_add t a) × (nanos (timer_add t a) ≡ nanos t +ℤ nanos a)
timer_add-nanos t a n m =
    let normal = timer_add-IsNormal t a n m in
    (
      normal,
      omega (
        int_laws,
        timer_add_parts t a n m,
        nanos_parts t,
        nanos_parts a,
        nanos_parts (timer_add t a),
        +ℤ_parts (nanos t) (nanos a),
      ),
    )

-- The interval that `qgis_timer_stop` writes between two normal readings of the clock is normal,
-- and adding it to the first reading gives the second.
pub timer_add-timer_stop :
    (start now : Timespec)
    → IsNormal start
    → IsNormal now
    → IsNormal (timer_stop start (some now)).timer
      × (timer_add start (timer_stop start (some now)).timer ≡ now)
timer_add-timer_stop s now n m =
    let i = (timer_stop s (some now)).timer in
    let ni = timer_stop-IsNormal s now n m in
    (
      ni,
      Timespec_eq (timer_add s i) now (timer_add-IsNormal s i n ni) m
          (omega (arith, timer_add_parts s i n ni, timer_stop_parts s now n m, nanos_parts s)),
    )
