-- ===== src/Sender/CongestionControl/Tests.antt =====
-- The congestion control of the sender at concrete values.
use srt_rs.Prelude.{◌*◌, ◌-ℤ◌, ◌≡◌, ◌≤◌, ◌≤ℤ◌, refl, some, true, pos, arith}
use srt_rs.Packet.Instant.{Instant, Duration, before, plus, from_millis}
use srt_rs.Sender.CongestionControl.{
  RateEstimation, SenderCongestionControl, estimated, new, calculate, rate_over, on_input, period,
  calculate_snd_period,
}
use srt_rs.Sender.CongestionControl.Rate.{Follows, calculate-Follows}
use srt_rs.Sender.CongestionControl.KeepsUp.{calculate_snd_period-le}
use srt_rs.Sender.CongestionControl.Pacing.{on_input-due}

abbrev estimation : RateEstimation
estimation = record { total = 900; last = 400; mean = 8000; variance = 10 }

calculate_test : (calculate estimation (from_millis 100)).0.mean ≡ 7625
unfolding calculate
calculate_test = refl

calculate-Follows_example :
    Follows estimation (rate_over estimation 100000) (calculate estimation (from_millis 100)).0
calculate-Follows_example = calculate-Follows estimation (from_millis 100) (omega arith)

calculate_snd_period-le_example :
    calculate_snd_period (estimated 25 1000) 10 13160 * 10 ≤ 1000000000
calculate_snd_period-le_example =
    calculate_snd_period-le 10 13160 25 1000 (omega arith) (omega arith) (omega arith) (omega arith)

abbrev control : SenderCongestionControl
control = record (new (estimated 25 1000)) { next = some (pos 100000000) }

on_input-due_example :
    (t : Duration) × (next' : Instant) × ((on_input control (pos 250000000) 3 4000).1 ≡ some t)
    × ((on_input control (pos 250000000) 3 4000).0.next ≡ some next')
    × (1000 ≤ t)
    × (before (pos 250000000) next' ≡ true)
    × (next' ≤ℤ plus (pos 250000000) period)
unfolding ◌-ℤ◌
on_input-due_example =
    on_input-due (pos 100000000) (pos 250000000) (ground arith) (omega arith) control 3 4000 refl
