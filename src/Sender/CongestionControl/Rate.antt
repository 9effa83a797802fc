-- ===== src/Sender/CongestionControl/Rate.antt =====
-- srt-protocol/src/protocol/sender/congestion_control.rs: the estimate follows what is measured.
use srt_rs.Prelude.{ℕ, ◌-◌, ◌≤◌, ◌<◌, ◌≡◌, max, min, arith}
use srt_rs.Packet.Instant.{Duration, as_micros}
use srt_rs.Sender.CongestionControl.{RateEstimation, estimate, calculate, rate_over}

-- A new mean lies between the old one and the rate, and the variance is bounded by the distance.
pub Follows : RateEstimation → ℕ → RateEstimation → Type 0
Follows e rate e' =
    (e'.last ≡ e.total)
    × (e'.total ≡ e.total)
    × (min e.mean rate ≤ e'.mean)
    × (e'.mean ≤ max e.mean rate)
    × (e'.variance ≤ max e.variance (max e.mean rate - min e.mean rate))

estimate-Follows : (e : RateEstimation) (rate : ℕ) → Follows e rate (estimate e rate)
unfolding Follows estimate
estimate-Follows e rate = ground arith

-- From a time of a microsecond or more the calculation takes the count up to the total, and moves
-- the mean towards the rate that was measured over the time and not past it; the variance is at
-- most the larger of the old one and the distance from the old mean to the rate.
pub calculate-Follows :
    (e : RateEstimation) (time : Duration)
    → 0 < as_micros time
    → Follows e (rate_over e (as_micros time)) (calculate e time).0
unfolding calculate
calculate-Follows e time h = ground (arith, estimate-Follows e (rate_over e (as_micros time)))
