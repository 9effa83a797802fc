-- ===== src/Time/Rtt.antt =====
-- srt-protocol/src/protocol/time/rtt.rs: the smoothed round trip time.
pub mod Bounds
use srt_rs.Prelude.{
  ℕ, ◌*◌, ◌<◌, ℤ, pos, negsuc, pos_part, Option, none, some, ◌+ℤ◌, ◌-ℤ◌, ◌*ℤ◌, div_ℤ, abs, wrap_i32,
}
use srt_rs.Packet.Instant.{Duration, from_micros}
use srt_rs.Packet.TimeSpan.{TimeSpan}

pub record Rtt : Type 0 where
  pub mean : TimeSpan
  pub variance : TimeSpan

abbrev pub default : Rtt
default = record { mean = pos 10000; variance = pos 1000 }

-- The sums are taken in `i64`, where they fit; the casts to `i32` wrap.
unfoldable pub update : Rtt → TimeSpan → Rtt
unfolding ◌+ℤ◌ ◌-ℤ◌ ◌*ℤ◌ wrap_i32
update r rtt =
    let mean = wrap_i32 (div_ℤ (r.mean *ℤ pos 7 +ℤ rtt) 8) in
    record {
      mean = mean;
      variance = wrap_i32 (div_ℤ (r.variance *ℤ pos 3 +ℤ pos (abs (mean -ℤ rtt))) 4);
    }

-- `try_into().unwrap()`: `none` is the panic on a negative span.
abbrev pub as_duration : TimeSpan → Option Duration
as_duration (pos us) = some (from_micros us)
as_duration (negsuc n) = none

unfoldable pub mean_as_duration : Rtt → Option Duration
mean_as_duration r = as_duration r.mean

unfoldable pub variance_as_duration : Rtt → Option Duration
variance_as_duration r = as_duration r.variance
