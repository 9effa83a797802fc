-- ===== src/Sender/CongestionControl/Pacing.antt =====
-- srt-protocol/src/protocol/sender/congestion_control.rs: what is counted, and when the sending
-- period is calculated.
use srt_rs.Prelude.{
  ℕ, ◌+◌, ◌/◌, ◌^◌, ◌≤◌, ◌<◌, ◌≡◌, ◌∙◌, ap, ◌≤ℤ◌, Option, none, some, refl, arith, true, lt→ltb,
  or_else,
}
use srt_rs.Packet.Instant.{Instant, Duration, plus, since, before, as_micros}
use srt_rs.Packet.Instant.Laws.{plus_parts, since_parts}
use srt_rs.Sender.CongestionControl.{
  SenderCongestionControl, RateEstimation, LiveBandwidthMode, InputRateEstimation, estimate,
  calculate, rate_over, calculate_max_data_rate, calculate_all, period, elapsed_since, update, due,
  on_input, calculate_snd_period, packet_period, add, increment,
}

estimate-total : (e : RateEstimation) (rate : ℕ) → (estimate e rate).total ≡ e.total
unfolding estimate
estimate-total e rate = ground arith

calculate-total : (e : RateEstimation) (time : Duration) → (calculate e time).0.total ≡ e.total
unfolding calculate
calculate-total e time = ground (arith, estimate-total e (rate_over e (as_micros time)))

-- What is counted in all.
abbrev pub totals : InputRateEstimation → ℕ × ℕ × ℕ
totals e = (e.messages.total, e.packets.total, e.bytes.total)

calculate_all-totals :
    (e : InputRateEstimation) (time : Duration) → totals (calculate_all e time) ≡ totals e
unfolding calculate_all
calculate_all-totals e time =
    rw
      (
        calculate-total e.messages time,
        calculate-total e.packets time,
        calculate-total e.bytes time,
      )
      refl

due-totals :
    (c : SenderCongestionControl) (now : Instant) (next : Option Instant)
    → totals (due c now next).0.estimation ≡ totals c.estimation
unfolding due update
due-totals c now none = refl
due-totals c now (some next) =
    ground (arith, calculate_all-totals c.estimation (elapsed_since next now))

-- Whether a period ends or not, one message with its packets and bytes is counted, and nothing that
-- was counted before is lost.
pub on_input-totals :
    (c : SenderCongestionControl) (now : Instant) (packets bytes : ℕ)
    → totals (on_input c now packets bytes).0.estimation ≡ (
      c.estimation.messages.total + 1,
      c.estimation.packets.total + packets,
      c.estimation.bytes.total + bytes,
    )
unfolding on_input add increment
on_input-totals c now packets bytes = let e = due-totals c now c.next in ground arith

packet_period-ge : (rate size : ℕ) → 1000 ≤ or_else (packet_period rate size) 1000
unfolding packet_period
packet_period-ge rate size = ground arith

snd_period-ge :
    (mode : LiveBandwidthMode) (packets bytes : ℕ) → 1000 ≤ calculate_snd_period mode packets bytes
unfolding calculate_snd_period
snd_period-ge mode packets bytes =
    ground (arith, packet_period-ge (calculate_max_data_rate mode bytes) (bytes / packets))

module _ (next now : Instant) (h : next ≤ℤ now) (b : since now next / period + 1 < 2 ^ 32) where
  elapsed-after : since now next < elapsed_since next now
  elapsed-after = omega arith

  elapsed-within : elapsed_since next now ≤ since now next + period
  elapsed-within = omega arith

  next-after : before now (plus next (elapsed_since next now)) ≡ true
  next-after =
      lt→ltb _ _ (
        omega
          (arith, since_parts now next, elapsed-after, plus_parts next (elapsed_since next now)))

  next-within : plus next (elapsed_since next now) ≤ℤ plus now period
  next-within = omega (
    arith,
    since_parts now next,
    elapsed-within,
    plus_parts next (elapsed_since next now),
    plus_parts now period,
  )

  due-update : (c : SenderCongestionControl) → due c now (some next) ≡ update c next now
  unfolding due
  due-update c = ground arith

  -- When an input arrives at the end of a period or after it, and not 2 ^ 32 periods late, a sending
  -- period of at least a microsecond is given, and the next period ends after this input and at
  -- most 100 ms after it.
  pub on_input-due :
      (c : SenderCongestionControl) (packets bytes : ℕ)
      → c.next ≡ some next
      → (t : Duration) × (next' : Instant) × ((on_input c now packets bytes).1 ≡ some t)
        × ((on_input c now packets bytes).0.next ≡ some next')
        × (1000 ≤ t)
        × (before now next' ≡ true)
        × (next' ≤ℤ plus now period)
  unfolding on_input update
  on_input-due c packets bytes e =
      let step : due c now c.next ≡ update c next now = ap (due c now) e ∙ due-update c in
      rw step (
        calculate_snd_period c.bandwidth_mode
            (calculate c.estimation.packets (elapsed_since next now)).1.mean
            (calculate c.estimation.bytes (elapsed_since next now)).1.mean,
        plus next (elapsed_since next now),
        refl,
        refl,
        snd_period-ge c.bandwidth_mode
            (calculate c.estimation.packets (elapsed_since next now)).1.mean
            (calculate c.estimation.bytes (elapsed_since next now)).1.mean,
        next-after,
        next-within,
      )
