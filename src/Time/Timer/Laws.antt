-- ===== src/Time/Timer/Laws.antt =====
-- A timer fires once for the periods that have passed, and keeps its phase.
use srt_rs.Prelude.{
  lt→ltb, refl, pos_part, neg_part, ℕ, ◌+◌, ◌*◌, ◌/◌, ◌^◌, ◌≤◌, ◌<◌, ◌≡◌, none, some, arith, ◌≤ℤ◌,
  true,
}
use srt_rs.Packet.Instant.Laws.{plus_parts, since_parts}
use srt_rs.Packet.Instant.{Instant, since, before, plus}
use srt_rs.Time.Timer.{Timer, elapsed_periods, check_expired, next_instant}

-- A timer with a period fires exactly from its next instant on.
pub check_expired-none :
    (t : Timer) (now : Instant)
    → 0 < t.period
    → before now (next_instant t) ≡ true
    → check_expired t now ≡ (t, none)
unfolding check_expired
check_expired-none t now p h = ground arith

div_bounds : (d p : ℕ) → 0 < p → (p * (d / p) ≤ d) × (d < p * (d / p) + p)
div_bounds d p h = (omega arith, omega arith)

module _ (t : Timer) (now : Instant) (p : 0 < t.period) (h : next_instant t ≤ℤ now) where
  since-last : pos_part t.last + neg_part now + since now t.last ≡ pos_part now + neg_part t.last
  since-last = omega (arith, plus_parts t.last t.period, since_parts now t.last)

  period-le-since : t.period ≤ since now t.last
  period-le-since = omega (arith, plus_parts t.last t.period, since_parts now t.last)

  check_expired-fired : check_expired t now ≡ (
    record t { last = plus t.last (t.period * elapsed_periods t now) },
    some (elapsed_periods t now),
  )
  unfolding check_expired
  check_expired-fired = ground arith

  module _ (b : since now t.last / t.period < 2 ^ 32) where
    periods_lem :
        (t.period * elapsed_periods t now ≤ since now t.last)
        × (since now t.last < t.period * elapsed_periods t now + t.period)
    periods_lem =
        let e : elapsed_periods t now ≡ since now t.last / t.period = omega arith in
        rw e (div_bounds (since now t.last) t.period p)

    last_le : plus t.last (t.period * elapsed_periods t now) ≤ℤ now
    last_le =
        omega (arith, since-last, periods_lem, plus_parts t.last (t.period * elapsed_periods t now))

    now_lt : before now (plus (plus t.last (t.period * elapsed_periods t now)) t.period) ≡ true
    now_lt = lt→ltb _ _ (
        omega (
          arith,
          since-last,
          periods_lem,
          plus_parts t.last (t.period * elapsed_periods t now),
          plus_parts (plus t.last (t.period * elapsed_periods t now)) t.period,
        ))

  -- When it fires, at least one period has passed, the period is kept, and `now` lies inside the
  -- period that begins at the new last instant.
  pub check_expired-some :
      since now t.last / t.period < 2 ^ 32
      → (k : ℕ) × ((check_expired t now).1 ≡ some k)
        × (1 ≤ k)
        × ((check_expired t now).0.period ≡ t.period)
        × ((check_expired t now).0.last ≤ℤ now)
        × (before now (next_instant (check_expired t now).0) ≡ true)
  check_expired-some b =
      rw check_expired-fired
        (elapsed_periods t now, refl, grind (arith, period-le-since), refl, last_le b, now_lt b)
