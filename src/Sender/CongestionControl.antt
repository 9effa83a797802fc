-- ===== src/Sender/CongestionControl.antt =====
-- srt-protocol/src/protocol/sender/congestion_control.rs, with the units of
-- srt-protocol/src/options/units.rs that it uses. The 128-bit counters are natural numbers: `last`
-- is a former value of `total`, so that the difference is never negative, and sums of 64-bit counts
-- do not reach 128 bits. What is a u64 in the source wraps at 2 ^ 64.
pub mod Rate
pub mod Pacing
pub mod KeepsUp
mod Tests
use srt_rs.Prelude.{
  ℕ, ◌+◌, ◌-◌, ◌*◌, ◌/◌, ◌%◌, ◌^◌, Bool, Option, none, some, ◌&&◌, ◌==◌, ltb, max, min,
  if◌then◌else◌, or_else,
}
use srt_rs.Packet.Instant.{
  Instant, Duration, from_micros, from_millis, as_micros, plus, since, before,
}

abbrev pub u64 : ℕ → ℕ
u64 n = n % 2 ^ 64

pub record RateEstimate : Type 0 where
  pub mean : ℕ
  pub variance : ℕ

pub record RateEstimation : Type 0 where
  pub total : ℕ
  pub last : ℕ
  pub mean : ℕ
  pub variance : ℕ

unfoldable pub increment : RateEstimation → ℕ → RateEstimation
increment e count = record e { total = e.total + count }

-- Faster is taken up with half the difference, slower with an eighth.
abbrev pub next_mean : ℕ → ℕ → ℕ
next_mean mean rate = if ltb mean rate then (mean + rate) / 2 else (mean * 7 + rate) / 8

abbrev pub next_variance : ℕ → ℕ → ℕ → ℕ
next_variance variance mean rate = (variance * 3 + (max mean rate - min mean rate)) / 4

unfoldable pub estimate : RateEstimation → ℕ → RateEstimation
estimate e rate =
    if (e.mean == 0) && (e.variance == 0)
    then record e { mean = rate; last = e.total }
    else record e {
      mean = next_mean e.mean rate;
      variance = next_variance e.variance (next_mean e.mean rate) rate;
      last = e.total;
    }

-- The rate per second over a time in microseconds.
abbrev pub rate_over : RateEstimation → ℕ → ℕ
rate_over e micros = (e.total - e.last) * 1000000 / micros

unfoldable pub calculate : RateEstimation → Duration → RateEstimation × RateEstimate
unfolding estimate
calculate e time =
    let e' = if ltb 0 (as_micros time) then estimate e (rate_over e (as_micros time)) else e in
    (e', record { mean = u64 e'.mean; variance = u64 e'.variance })

pub record InputRateEstimation : Type 0 where
  pub messages : RateEstimation
  pub packets : RateEstimation
  pub bytes : RateEstimation

unfoldable pub add : InputRateEstimation → ℕ → ℕ → InputRateEstimation
unfolding increment
add e packets bytes = record {
  messages = increment e.messages 1;
  packets = increment e.packets packets;
  bytes = increment e.bytes bytes;
}

unfoldable pub calculate_all : InputRateEstimation → Duration → InputRateEstimation
unfolding calculate
calculate_all e elapsed = record {
  messages = (calculate e.messages elapsed).0;
  packets = (calculate e.packets elapsed).0;
  bytes = (calculate e.bytes elapsed).0;
}

-- A rate is in bytes per second, an overhead in percent.
pub data LiveBandwidthMode : Type 0 where
  max_rate : ℕ → LiveBandwidthMode
  input : ℕ → ℕ → LiveBandwidthMode
  estimated : ℕ → ℕ → LiveBandwidthMode
  unlimited : LiveBandwidthMode

pub record SenderCongestionControl : Type 0 where
  pub next : Option Instant
  pub estimation : InputRateEstimation
  pub bandwidth_mode : LiveBandwidthMode

abbrev pub no_rate : RateEstimation
no_rate = record { total = 0; last = 0; mean = 0; variance = 0 }

abbrev pub new : LiveBandwidthMode → SenderCongestionControl
new mode = record {
  next = none;
  estimation = record { messages = no_rate; packets = no_rate; bytes = no_rate };
  bandwidth_mode = mode;
}

abbrev pub gigabit : ℕ
gigabit = 1000000000 / 8

-- A rate times a percentage.
unfoldable pub percent_of : ℕ → ℕ → ℕ
percent_of rate percent = u64 (percent * rate) / 100

unfoldable pub calculate_max_data_rate : LiveBandwidthMode → ℕ → ℕ
unfolding percent_of
calculate_max_data_rate (max_rate rate) actual = rate
calculate_max_data_rate (input rate overhead) actual = percent_of rate (u64 (overhead + 100))
calculate_max_data_rate (estimated overhead expected) actual =
    percent_of (max expected actual) (u64 (overhead + 100))
calculate_max_data_rate unlimited actual = gigabit

-- `PacketPeriod::try_from`, at a rate that is not zero.
unfoldable pub packet_period : ℕ → ℕ → Option Duration
packet_period data_rate packet_size =
    let period = u64 (packet_size * 1000000) / data_rate in
    if ltb 0 packet_size && ltb 0 period then some (from_micros period) else none

unfoldable pub calculate_snd_period : LiveBandwidthMode → ℕ → ℕ → Duration
unfolding calculate_max_data_rate packet_period
calculate_snd_period mode packet_rate data_rate =
    let max_data_rate = calculate_max_data_rate mode data_rate in
    if ltb 0 packet_rate && ltb 0 max_data_rate
    then or_else (packet_period max_data_rate (data_rate / packet_rate)) (from_micros 1)
    else from_micros 1

abbrev pub period : Duration
period = from_millis 100

-- `as u32` keeps the low 32 bits of the number of periods, and its increment wraps.
abbrev pub elapsed_since : Instant → Instant → Duration
elapsed_since next now = (1 + since now next / 1000000 / 100 % 2 ^ 32) % 2 ^ 32 * period

-- The update of `on_input` at the end of a period.
unfoldable pub update :
    SenderCongestionControl → Instant → Instant → SenderCongestionControl × Option Duration
unfolding calculate_all calculate calculate_snd_period
update c next now =
    let elapsed = elapsed_since next now in
    let packet_rate = (calculate c.estimation.packets elapsed).1.mean in
    let data_rate = (calculate c.estimation.bytes elapsed).1.mean in
    (
      record c { next = some (plus next elapsed); estimation = calculate_all c.estimation elapsed },
      some (calculate_snd_period c.bandwidth_mode packet_rate data_rate),
    )

unfoldable pub due :
    SenderCongestionControl → Instant → Option Instant → SenderCongestionControl × Option Duration
unfolding update
due c now none = (record c { next = some (plus now period) }, none)
due c now (some next) = if before now next then (c, none) else update c next now

unfoldable pub on_input :
    SenderCongestionControl → Instant → ℕ → ℕ → SenderCongestionControl × Option Duration
unfolding due add
on_input c now packets bytes =
    let (c', result) = due c now c.next in
    (record c' { estimation = add c'.estimation packets bytes }, result)
