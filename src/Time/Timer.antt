-- ===== src/Time/Timer.antt =====
-- srt-protocol/src/protocol/time/timer.rs: a periodic timer.
pub mod Laws
use srt_rs.Prelude.{
  ℕ, ◌*◌, ◌/◌, ◌%◌, ◌^◌, max, Bool, Option, none, some, ◌==◌, if◌then◌else◌, ◌+ℤ◌, ◌-ℤ◌,
}
use srt_rs.Packet.Instant.{Instant, Duration, from_micros, plus, since, not_after}

pub record Timer : Type 0 where
  pub period : Duration
  pub last : Instant

abbrev pub min_period : Duration
min_period = from_micros 1

unfoldable pub new : Instant → Duration → Timer
new now period = record { period = max period min_period; last = now }

abbrev pub next_instant : Timer → Instant
next_instant t = plus t.last t.period

unfoldable pub reset : Timer → Instant → Timer
reset t now = record t { last = now }

unfoldable pub set_period : Timer → Duration → Timer
set_period t period = record t { period = period }

-- `as u32` keeps the low 32 bits of the number of periods.
abbrev pub elapsed_periods : Timer → Instant → ℕ
elapsed_periods t now = since now t.last / t.period % 2 ^ 32

unfoldable pub check_expired : Timer → Instant → Timer × Option ℕ
check_expired t now =
    if t.period == 0
    then (t, some 1)
    else if not_after (next_instant t) now
    then (
      record t { last = plus t.last (t.period * elapsed_periods t now) },
      some (elapsed_periods t now),
    )
    else (t, none)
