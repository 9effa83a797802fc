-- ===== src/Sender/CongestionControl/KeepsUp.antt =====
-- srt-protocol/src/protocol/sender/congestion_control.rs: the sending period that is calculated from
-- the measured input lets out what comes in.
use srt_rs.Prelude.{ℕ, ◌+◌, ◌*◌, ◌/◌, ◌^◌, ◌≤◌, ◌<◌, ◌≡◌, max, arith, or_else, if_elim, ltb, ◌&&◌}
use native.Mathlib.Nat.{le_of_mul-le-mul_right, mul-le-mul_right}
use srt_rs.Sender.CongestionControl.{
  estimated, calculate_snd_period, calculate_max_data_rate, packet_period, u64, percent_of,
}

div_le : (n d : ℕ) → 0 < d → n / d * d ≤ n
div_le n d h = omega arith

-- As many periods as packets come in a second fit into a second.
per_second :
    (packets bytes rate : ℕ)
    → 0 < packets
    → 0 < rate
    → bytes ≤ rate
    → bytes / packets * 1000000 / rate * packets ≤ 1000000
per_second packets bytes rate hp hr h =
    let size = div_le bytes packets hp in
    let p = div_le (bytes / packets * 1000000) rate hr in
    le_of_mul-le-mul_right {k = rate} (omega (arith, mul-le-mul_right packets p, size)) hr

size-le : (packets bytes : ℕ) → 0 < packets → bytes / packets ≤ bytes
size-le packets bytes h = omega (arith, div_le bytes packets h)

small : (n : ℕ) → n < 2 ^ 64 → u64 n ≡ n
small n h = omega (arith, h)

module _ (packets bytes overhead expected : ℕ) (hp : packets ≤ 1000000)
    (hb : bytes * 1000000 < 2 ^ 64) (ho : overhead + 100 < 2 ^ 64)
    (hm : (overhead + 100) * max expected bytes < 2 ^ 64) where
  max_data_rate-ge : bytes ≤ calculate_max_data_rate (estimated overhead expected) bytes
  unfolding calculate_max_data_rate percent_of
  max_data_rate-ge =
      rw (small (overhead + 100) ho, small ((overhead + 100) * max expected bytes) hm) (omega arith)

  packet_period-le :
      (rate : ℕ)
      → 0 < packets
      → 0 < rate
      → bytes ≤ rate
      → or_else (packet_period rate (bytes / packets)) 1000 * packets ≤ 1000000000
  unfolding packet_period
  packet_period-le rate h r le =
      rw (small (bytes / packets * 1000000) (omega (arith, size-le packets bytes h, hb))) (
        if_elim (λ out. or_else out 1000 * packets ≤ 1000000000)
          (ltb 0 (bytes / packets) && ltb 0 (bytes / packets * 1000000 / rate))
          (λ t. omega (arith, per_second packets bytes rate h r le)) (λ f. omega (arith, hp)))

  -- For an estimated input of at most a million packets a second, and rates that do not overflow
  -- 64 bits, the sending periods of the packets of a second fit into a second: the sender keeps up
  -- with its input.
  pub calculate_snd_period-le :
      calculate_snd_period (estimated overhead expected) packets bytes * packets ≤ 1000000000
  unfolding calculate_snd_period
  calculate_snd_period-le =
      let rate = calculate_max_data_rate (estimated overhead expected) bytes in
      if_elim (λ out. out * packets ≤ 1000000000) (ltb 0 packets && ltb 0 rate)
        (λ t. packet_period-le rate (ground (arith, t)) (ground (arith, t)) max_data_rate-ge)
        (λ f. omega (arith, hp))
