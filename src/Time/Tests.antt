-- ===== src/Time/Tests.antt =====
-- The clocks and timers at concrete values.
use srt_rs.Prelude.{
  ℕ, ◌-◌, ◌*◌, ◌^◌, ◌≤◌, ◌≡◌, true, some, none, pos, negsuc, min, max, [], ◌∷◌, All, arith, ltb,
  ◌≤ℤ◌, ◌+ℤ◌, ◌-ℤ◌, refl,
}
use srt_rs.Packet.Instant.{from_millis, later}
use srt_rs.Packet.TimeSpan
use srt_rs.Packet.TimeStamp
use srt_rs.Time.TimeBase.{TimeBase, timestamp_from, adjust}
use srt_rs.Time.TimeBase.Laws.{timestamp_from-adjust}
use srt_rs.Time.Rtt.{update}
use srt_rs.Time.Rtt.Bounds.{rtt_of, update_bounds}
use srt_rs.Time.Timer.{Timer, check_expired}
use srt_rs.Time.Timer.Laws.{check_expired-none}
use srt_rs.Time.Timers.{Timers, next_timer, update_rtt, check_peer_idle_timeout, reset_exp}
use srt_rs.Time.Timers.Schedule.{IsLaterOf, due, next_timer_bounds, update_rtt_total}
use srt_rs.Time.Timers.PeerIdle.{check_all, no_timeout_after_reset}

abbrev base : TimeBase
base = record { origin_time = pos 0; reference_time = pos 7000; reference_ts = 2 ^ 32 - 3 }

timestamp_from-adjust_example :
    timestamp_from (adjust base (pos 90000) (negsuc 4)) (pos 90000)
    ≡ TimeStamp.sub (timestamp_from base (pos 90000)) (negsuc 4)
unfolding TimeSpan.instant_add ◌+ℤ◌ ◌-ℤ◌
timestamp_from-adjust_example =
    timestamp_from-adjust base (omega arith) (pos 90000) (omega arith) (negsuc 4) (omega arith)
      (omega arith)

update_bounds_example :
    (m v : ℕ) × (update (rtt_of 10000 1000) (pos 26000) ≡ rtt_of m v)
    × (min 10000 26000 ≤ m)
    × (m ≤ max 10000 26000)
    × (v ≤ max 1000 (max 10000 26000 - min 10000 26000))
update_bounds_example = update_bounds 10000 1000 26000 (omega arith) (omega arith) (omega arith)

abbrev ticker : Timer
ticker = record { period = 10; last = pos 100 }

check_expired-none_example : check_expired ticker (pos 109) ≡ (ticker, none)
unfolding ◌+ℤ◌
check_expired-none_example = check_expired-none ticker (pos 109) (omega arith) refl

abbrev timers : Timers
timers = record {
  snd = ticker;
  full_ack = ticker;
  nak = ticker;
  exp = ticker;
  exp_count = 3;
  peer_idle = ticker;
  statistics = ticker;
}

next_timer_bounds_example :
    (pos 50 ≤ℤ next_timer timers (pos 50) true (some (pos 70)) 2)
    × All
        (λ i. next_timer timers (pos 50) true (some (pos 70)) 2 ≤ℤ later (pos 50) i)
        (due timers true (some (pos 70)) (ltb 0 2))
    × IsLaterOf
        (pos 50)
        (next_timer timers (pos 50) true (some (pos 70)) 2)
        (due timers true (some (pos 70)) (ltb 0 2))
next_timer_bounds_example = next_timer_bounds timers (pos 50) true (some (pos 70)) 2

update_rtt_total_example :
    (t' : Timers) × (update_rtt timers (record { mean = pos 50000; variance = pos 2000 }) ≡ some t')
    × (t'.full_ack.period ≡ from_millis 10)
    × (from_millis 20 ≤ t'.nak.period)
    × (3 * from_millis 300 ≤ t'.exp.period)
    × (t'.exp_count ≡ 3)
update_rtt_total_example = update_rtt_total timers 50000 2000

no_timeout_after_reset_example :
    (check_peer_idle_timeout
      (check_all (reset_exp timers (pos 0)) (pos 1 ∷ pos 900 ∷ []))
      (pos 5000)).1
    ≡ none
no_timeout_after_reset_example =
    no_timeout_after_reset timers (pos 0) (pos 5000) (pos 1 ∷ pos 900 ∷ []) (omega arith)
