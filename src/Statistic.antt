-- ===== src/Statistic.antt =====
-- statistic.c: the counters and what is printed of them. Each function runs under the module's lock.
-- The times are not negative, so that the C division is the one of the natural numbers.
pub mod Averages
use qgis_scheduler.Prelude.{
  ℕ, ◌+◌, ◌*◌, ◌/◌, ◌%◌, Bool, Option, none, some, leb, ltb, if◌then◌else◌, ℤ, pos, pos_part, ◌+ℤ◌,
}
use qgis_scheduler.Outcome.{Outcome, ok, ◌>>◌, ◌>>=◌, assert}
use qgis_scheduler.Timer.{Timespec, timer_start, timer_add, timer_sub, timer_is_empty}

pub record Statistic : Type 0 where
  pub uptime : Timespec
  pub connectiontime : Timespec
  pub connections : ℕ
  pub process_started : ℤ
  pub process_shutdown : ℤ

pub statistic_init : Statistic → Option Timespec → Outcome Statistic
statistic_init s now = do
  assert (timer_is_empty s.uptime)
  ok (record s { uptime = (timer_start s.uptime now).timer })

pub statistic_add_connection : Statistic → Timespec → Statistic
statistic_add_connection s timeradd = record s {
  connectiontime = timer_add s.connectiontime timeradd;
  connections = s.connections + 1;
}

pub statistic_add_process_shutdown : Statistic → ℤ → Statistic
statistic_add_process_shutdown s num = record s { process_shutdown = s.process_shutdown +ℤ num }

pub statistic_add_process_start : Statistic → ℤ → Statistic
statistic_add_process_start s num = record s { process_started = s.process_started +ℤ num }

-- The parts of the uptime that are printed.
pub record Uptime : Type 0 where
  pub days : ℕ
  pub hours : ℕ
  pub minutes : ℕ
  pub seconds : ℕ
  pub milliseconds : ℕ

unfoldable pub split_uptime : ℕ → ℕ → Uptime
split_uptime tv_sec tv_nsec = record {
  days = tv_sec / 60 / 60 / 24;
  hours = tv_sec / 60 / 60 % 24;
  minutes = tv_sec / 60 % 60;
  seconds = tv_sec % 60;
  milliseconds = tv_nsec / (1000 * 1000);
}

pub record Average : Type 0 where
  pub avg_conn_sec : ℕ
  pub avg_conn_msec : ℕ

unfoldable pub average_time : ℕ → ℕ → ℕ → Average
average_time tv_sec tv_nsec myconnections =
    let sec = tv_sec / myconnections in
    let msec =
      (tv_sec % myconnections) * 1000 / myconnections + tv_nsec / (1000 * 1000 * myconnections) in
    if leb 1000 msec
    then record { avg_conn_sec = sec + msec / 1000; avg_conn_msec = msec % 1000 }
    else record { avg_conn_sec = sec; avg_conn_msec = msec }

-- What is printed; the average only behind the first connection.
pub record Report : Type 0 where
  pub since : Uptime
  pub process_started : ℤ
  pub process_shutdown : ℤ
  pub connections : ℕ
  pub average : Option Average

-- `indeterminate` is what `myuptime` holds before the call, and keeps if the clock cannot be read.
pub statistic_printlog : Statistic → (indeterminate : Timespec) → Option Timespec → Outcome Report
unfolding split_uptime average_time
statistic_printlog s indeterminate now = do
  myuptime ← timer_sub s.uptime indeterminate now
  ok (record {
    since = split_uptime (pos_part myuptime.timer.tv_sec) (pos_part myuptime.timer.tv_nsec);
    process_started = s.process_started;
    process_shutdown = s.process_shutdown;
    connections = s.connections;
    average =
        if ltb 0 s.connections
        then some (
            average_time (pos_part s.connectiontime.tv_sec) (pos_part s.connectiontime.tv_nsec)
              s.connections)
        else none;
  })
