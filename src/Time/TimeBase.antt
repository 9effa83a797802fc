-- ===== src/Time/TimeBase.antt =====
-- srt-protocol/src/protocol/time/base.rs: the map between instants and the wrapping timestamps.
pub mod Laws
use srt_rs.Prelude.{ℕ, if◌then◌else◌}
use srt_rs.Packet.Instant.{Instant, since, before, plus}
use srt_rs.Packet.TimeSpan
use srt_rs.Packet.TimeSpan.{TimeSpan}
use srt_rs.Packet.TimeStamp
use srt_rs.Packet.TimeStamp.{TimeStamp}

pub record TimeBase : Type 0 where
  pub origin_time : Instant
  pub reference_time : Instant
  pub reference_ts : TimeStamp

unfoldable pub new : Instant → TimeBase
new start_time = record { origin_time = start_time; reference_time = start_time; reference_ts = 0 }

unfoldable pub timestamp_from : TimeBase → Instant → TimeStamp
unfolding TimeStamp.sub_duration TimeStamp.add_duration
timestamp_from b instant =
    if before instant b.reference_time
    then TimeStamp.sub_duration b.reference_ts (since b.reference_time instant)
    else TimeStamp.add_duration b.reference_ts (since instant b.reference_time)

unfoldable pub instant_from : TimeBase → TimeStamp → Instant
unfolding TimeSpan.instant_add TimeStamp.diff
instant_from b timestamp =
    TimeSpan.instant_add b.reference_time (TimeStamp.diff timestamp b.reference_ts)

-- The part under `if now > self.reference_time`.
unfoldable pub advance : Instant → TimeBase → TimeBase
unfolding TimeStamp.add_duration
advance now b =
    if before b.reference_time now
    then record b {
      reference_time = plus b.reference_time (since now b.reference_time);
      reference_ts = TimeStamp.add_duration b.reference_ts (since now b.reference_time);
    }
    else b

unfoldable pub adjust : TimeBase → Instant → TimeSpan → TimeBase
unfolding advance TimeSpan.instant_sub
adjust b now drift = advance now (record b {
  origin_time = TimeSpan.instant_sub b.origin_time drift;
  reference_time = TimeSpan.instant_sub b.reference_time drift;
})
