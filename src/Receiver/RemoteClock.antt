-- ===== src/Receiver/RemoteClock.antt =====
-- srt-protocol/src/protocol/receiver/time.rs: the sender's clock as the receiver sees it.
pub mod Monotonic
use srt_rs.Prelude.{ℕ, ◌+◌, ℤ, pos, Option, none, some, ltb, ltb_ℤ, leb_ℤ, if◌then◌else◌, Bool}
use srt_rs.Packet.Instant.{Instant, not_after}
use srt_rs.Packet.TimeSpan.{TimeSpan}
use srt_rs.Packet.TimeStamp
use srt_rs.Packet.TimeStamp.{TimeStamp}
use srt_rs.Time.TimeBase
use srt_rs.Time.TimeBase.{TimeBase}

-- `OnlineStats` of the package `stats`: samples, with their mean and standard deviation cut to
-- whole microseconds.
pub record OnlineStats : Type 1 where
  pub Samples : Type 0
  pub empty : Samples
  pub add : Samples → ℤ → Samples
  pub len : Samples → ℕ
  pub mean : Samples → TimeSpan
  pub stddev : Samples → TimeSpan

pub record RemoteClock (S : Type 0) : Type 0 where
  pub drift_deviation_tolerance : TimeSpan
  pub time_base : TimeBase
  pub last_monotonic_instant : Option Instant
  pub stats : Option S

pub record ClockAdjustment : Type 0 where
  pub mean : TimeSpan
  pub stddev : TimeSpan

abbrev pub max_samples : ℕ
max_samples = 1000

abbrev pub default_tolerance : TimeSpan
default_tolerance = pos 5000

module _ {S : Type 0} where
  unfoldable pub new : Instant → RemoteClock S
  unfolding TimeBase.new
  new now = record {
    drift_deviation_tolerance = default_tolerance;
    time_base = TimeBase.new now;
    last_monotonic_instant = none;
    stats = none;
  }

  unfoldable pub instant_from : RemoteClock S → TimeStamp → Instant
  unfolding TimeBase.instant_from
  instant_from c ts = TimeBase.instant_from c.time_base ts

  -- The match of `monotonic_instant_from`, at the instant of the timestamp.
  unfoldable pub keep_monotonic : RemoteClock S → Option Instant → Instant → RemoteClock S × Instant
  keep_monotonic c none instant = (record c { last_monotonic_instant = some instant }, instant)
  keep_monotonic c (some last) instant =
      if not_after instant last
      then (c, last)
      else (record c { last_monotonic_instant = some instant }, instant)

  unfoldable pub monotonic_instant_from : RemoteClock S → TimeStamp → RemoteClock S × Instant
  unfolding keep_monotonic instant_from
  monotonic_instant_from c ts = keep_monotonic c c.last_monotonic_instant (instant_from c ts)

module _ (o : OnlineStats) where
  open o use {Samples}

  -- The samples are complete: they are dropped, and the clock adjusted if they vary little.
  unfoldable pub finish_samples :
      RemoteClock Samples → Instant → Samples → RemoteClock Samples × Option ClockAdjustment
  unfolding TimeBase.adjust
  finish_samples c now samples =
      if ltb_ℤ c.drift_deviation_tolerance (o.stddev samples)
      then (record c { stats = some o.empty }, none)
      else (
        record c {
          stats = some o.empty;
          time_base = TimeBase.adjust c.time_base now (o.mean samples);
        },
        some (record { mean = o.mean samples; stddev = o.stddev samples }),
      )

  unfoldable pub add_sample :
      RemoteClock Samples
      → Instant
      → TimeSpan
      → Option Samples
      → RemoteClock Samples × Option ClockAdjustment
  unfolding finish_samples
  add_sample c now drift none =
      (record c { time_base = TimeBase.adjust c.time_base now drift; stats = some o.empty }, none)
  add_sample c now drift (some samples) =
      let samples' = o.add samples drift in
      if ltb (o.len samples') max_samples
      then (record c { stats = some samples' }, none)
      else finish_samples c now samples'

  unfoldable pub synchronize :
      RemoteClock Samples → Instant → TimeStamp → RemoteClock Samples × Option ClockAdjustment
  unfolding add_sample TimeBase.timestamp_from TimeStamp.diff
  synchronize c now ts =
      add_sample c now (TimeStamp.diff (TimeBase.timestamp_from c.time_base now) ts) c.stats
