-- ===== src/Statistic/Averages.antt =====
-- statistic.c: how exact the printed times are.
use qgis_scheduler.Prelude.{ℕ, ◌+◌, ◌*◌, ◌/◌, ◌%◌, ◌≤◌, ◌<◌, ◌≡◌, Bool-cases, inl, inr, leb, arith}
use native.Mathlib.Nat.{div-add-mod, mul-div-le, lt-mul-div-succ}
use qgis_scheduler.Statistic.{split_uptime, Average, average_time}

pub split_uptime-exact :
    (sec nsec : ℕ)
    → nsec < 1_000_000_000
    → let u = split_uptime sec nsec in
      (u.days * 86400 + u.hours * 3600 + u.minutes * 60 + u.seconds ≡ sec)
      × (u.hours < 24)
      × (u.minutes < 60)
      × (u.seconds < 60)
      × (u.milliseconds < 1000)
unfolding split_uptime
split_uptime-exact sec nsec h = (omega arith, omega arith, omega arith, omega arith, omega arith)

-- The printed average in milliseconds, and its seconds and milliseconds.
abbrev pub milliseconds_of : Average → ℕ
milliseconds_of a = a.avg_conn_sec * 1000 + a.avg_conn_msec

average-parts :
    (sec nsec n : ℕ)
    → (milliseconds_of (average_time sec nsec n)
        ≡ sec / n * 1000 + (sec % n * 1000 / n + nsec / (1000 * 1000 * n)))
      × ((average_time sec nsec n).avg_conn_msec < 1000)
unfolding average_time
average-parts sec nsec n =
    elim (Bool-cases (leb 1000 (sec % n * 1000 / n + nsec / (1000 * 1000 * n)))) [
      | inl e ↦ rw e (omega arith, omega arith)
      | inr e ↦ rw e (omega arith, ground arith)
    ]

-- Bounds on the three quotients, with the products as numbers of their own.
average-bounds :
    (sec nsec n q r a b : ℕ)
    → n * q + r ≡ sec
    → n * a ≤ r * 1000
    → r * 1000 < n * (a + 1)
    → 1000 * 1000 * n * b ≤ nsec
    → nsec < 1000 * 1000 * n * (b + 1)
    → ((q * 1000 + (a + b)) * n * 1_000_000 ≤ sec * 1_000_000_000 + nsec)
      × (sec * 1_000_000_000 + nsec < (q * 1000 + (a + b) + 2) * n * 1_000_000)
average-bounds sec nsec n q r a b e h k l m = (grind arith, grind arith)

-- The average of a positive number of times, as seconds and milliseconds, has less than 1000
-- milliseconds, is not above the exact average, and less than two milliseconds below it.
pub average_time-close :
    (sec nsec n : ℕ)
    → 0 < n
    → let a = average_time sec nsec n in
      (a.avg_conn_msec < 1000)
      × (milliseconds_of a * n * 1_000_000 ≤ sec * 1_000_000_000 + nsec)
      × (sec * 1_000_000_000 + nsec < (milliseconds_of a + 2) * n * 1_000_000)
average_time-close sec nsec n h =
    let (total, small) = average-parts sec nsec n in
    let (low, high) =
      average-bounds sec nsec n (sec / n) (sec % n) (sec % n * 1000 / n) (nsec / (1000 * 1000 * n))
        (div-add-mod sec n) (mul-div-le _ _) (lt-mul-div-succ _ h) (mul-div-le _ _)
        (lt-mul-div-succ _ (omega arith)) in
    (small, rw total low, rw total high)
