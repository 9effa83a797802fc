-- ===== src/Time/Rtt/Bounds.antt =====
-- The smoothed round trip time stays a time: neither negative nor past what it is made of.
use srt_rs.Prelude.{ℕ, ◌+◌, ◌*◌, ◌-◌, ◌/◌, ◌^◌, ◌≤◌, ◌<◌, pos, ◌≡◌, arith, max, min}
use srt_rs.Time.Rtt.{Rtt, update}

abbrev pub rtt_of : ℕ → ℕ → Rtt
rtt_of mean variance = record { mean = pos mean; variance = pos variance }

-- The weighted means of the source, without sign or wrap.
abbrev pub next_mean : ℕ → ℕ → ℕ
next_mean mean rtt = (mean * 7 + rtt) / 8

abbrev pub next_variance : ℕ → ℕ → ℕ → ℕ
next_variance variance mean rtt = (variance * 3 + (max mean rtt - min mean rtt)) / 4

module _ (mean variance rtt : ℕ) (hm : mean < 2 ^ 31) (hv : variance < 2 ^ 31)
    (hr : rtt < 2 ^ 31) where
  update-rtt_of :
      update (rtt_of mean variance) (pos rtt)
      ≡ rtt_of (next_mean mean rtt) (next_variance variance (next_mean mean rtt) rtt)
  unfolding update
  update-rtt_of = ground arith

  -- From times that are not negative an update gives such times, without a wrap; the new mean lies
  -- between the old mean and the sample, and the new variance is at most the larger of the old one
  -- and the distance from the old mean to the sample.
  pub update_bounds :
      (m v : ℕ) × (update (rtt_of mean variance) (pos rtt) ≡ rtt_of m v)
      × (min mean rtt ≤ m)
      × (m ≤ max mean rtt)
      × (v ≤ max variance (max mean rtt - min mean rtt))
  update_bounds = (
    next_mean mean rtt,
    next_variance variance (next_mean mean rtt) rtt,
    update-rtt_of,
    omega arith,
    omega arith,
    omega arith,
  )
