-- ===== src/Timer.antt =====
-- timer.c: intervals on struct timespec. Both fields are signed; the range of time_t is not
-- modelled. A reading of the clock is an argument: `none` when clock_gettime() returns -1.
pub mod Laws
use qgis_scheduler.Prelude.{
  ℕ, ◌/◌, ◌%◌, Bool, ◌&&◌, ◌||◌, not, Option, none, some, ℤ, pos, negsuc, pos_part, ◌+ℤ◌, ◌-ℤ◌,
  ltb_ℤ, leb_ℤ, eqb_ℤ, if◌then◌else◌,
}
use qgis_scheduler.Outcome.{Outcome, ok, ◌>>◌, assert}

pub record Timespec : Type 0 where
  pub tv_sec : ℤ
  pub tv_nsec : ℤ

-- TIMESPEC_NSEC_ONE_SECOND
abbrev pub nsec_one_second : ℕ
nsec_one_second = 1_000_000_000

-- A call that returns a status and writes through its timer argument.
pub record Timed : Type 0 where
  pub timer : Timespec
  pub retval : ℤ

pub timer_start : Timespec → Option Timespec → Timed
timer_start old none = record { timer = old; retval = negsuc 0 }
timer_start old (some now) = record { timer = now; retval = pos 0 }

-- The borrow that qgis_timer_stop() and qgis_timer_sub() share.
borrow : Timespec → Timespec
borrow t =
    if ltb_ℤ t.tv_nsec (pos 0)
    then record { tv_sec = t.tv_sec -ℤ pos 1; tv_nsec = t.tv_nsec +ℤ pos nsec_one_second }
    else t

pub timer_stop : Timespec → Option Timespec → Timed
unfolding borrow
timer_stop old none = record { timer = old; retval = negsuc 0 }
timer_stop old (some now) = record {
  timer =
      borrow (record { tv_sec = now.tv_sec -ℤ old.tv_sec; tv_nsec = now.tv_nsec -ℤ old.tv_nsec });
  retval = pos 0;
}

unfoldable pub timer_add : Timespec → Timespec → Timespec
timer_add t a =
    let sec = t.tv_sec +ℤ a.tv_sec in
    let nsec = t.tv_nsec +ℤ a.tv_nsec in
    if leb_ℤ (pos nsec_one_second) nsec
    then record {
      tv_sec = sec +ℤ pos (pos_part nsec / nsec_one_second);
      tv_nsec = pos (pos_part nsec % nsec_one_second);
    }
    else record { tv_sec = sec; tv_nsec = nsec }

unfoldable pub timer_isgreaterthan : Timespec → Timespec → Bool
timer_isgreaterthan t u =
    ltb_ℤ u.tv_sec t.tv_sec || (eqb_ℤ t.tv_sec u.tv_sec && ltb_ℤ u.tv_nsec t.tv_nsec)

unfoldable pub timer_is_empty : Timespec → Bool
timer_is_empty t = not (not (eqb_ℤ t.tv_sec (pos 0)) || not (eqb_ℤ t.tv_nsec (pos 0)))

-- qgis_timer_sub(): the time from `t` to now, into another timer; the assertion is on `t`.
unfoldable pub timer_sub : Timespec → Timespec → Option Timespec → Outcome Timed
unfolding borrow
timer_sub t timersub none = ok (record { timer = timersub; retval = negsuc 0 })
timer_sub t timersub (some now) = do
  assert (ltb_ℤ t.tv_nsec (pos nsec_one_second))
  ok (record {
    timer = borrow (record { tv_sec = now.tv_sec -ℤ t.tv_sec; tv_nsec = now.tv_nsec -ℤ t.tv_nsec });
    retval = pos 0;
  })
