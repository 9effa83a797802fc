-- ===== src/Time/TimeBase/Laws.antt =====
-- The two maps of a time base fit together, and a clock adjustment corrects by the drift.
use srt_rs.Prelude.{
  ℕ, zero, suc, ◌^◌, ◌<◌, ◌≤◌, ◌≡◌, abs, arith, pos, negsuc, ◌≤ℤ◌, ◌+ℤ◌, ◌-ℤ◌, ◌∙◌,
}
use srt_rs.Packet.Instant.{Instant, since, plus, minus, from_micros}
use srt_rs.Packet.Instant.Laws.{since_parts, plus_parts, minus_parts}
use srt_rs.Packet.TimeSpan
use srt_rs.Packet.TimeSpan.Laws.{instant_sub-eq-instant_add}
use srt_rs.Packet.TimeSpan.{TimeSpan}
use srt_rs.Packet.TimeStamp
use srt_rs.Packet.TimeStamp.{TimeStamp, IsTimeStamp}
use srt_rs.Packet.TimeStamp.Laws.{abs-diff, add-diff}
use srt_rs.Time.TimeBase.{TimeBase, timestamp_from, instant_from, advance, adjust}

-- A reference time moved to `now` is `now`.
since-plus-since : (r now : Instant) → since now (plus r (since now r)) ≡ 0
since-plus-since r now =
    omega
      (arith, since_parts now r, since_parts now (plus r (since now r)), plus_parts r (since now r))

module _ (b : TimeBase) (hb : IsTimeStamp b.reference_ts) where
  timestamp_from-pos :
      (n : ℕ)
      → n ≤ 2 ^ 31
      → timestamp_from b (TimeSpan.instant_add b.reference_time (pos n))
        ≡ TimeStamp.add b.reference_ts (pos n)
  unfolding timestamp_from TimeSpan.instant_add TimeStamp.add ◌+ℤ◌ ◌-ℤ◌
  timestamp_from-pos n h = ground arith

  timestamp_from-negsuc :
      (n : ℕ)
      → n < 2 ^ 31
      → timestamp_from b (TimeSpan.instant_add b.reference_time (negsuc n))
        ≡ TimeStamp.add b.reference_ts (negsuc n)
  unfolding timestamp_from TimeSpan.instant_add TimeStamp.add ◌+ℤ◌ ◌-ℤ◌
  timestamp_from-negsuc n h = ground arith

  timestamp_from-instant_add :
      (s : TimeSpan)
      → abs s ≤ 2 ^ 31
      → timestamp_from b (TimeSpan.instant_add b.reference_time s) ≡ TimeStamp.add b.reference_ts s
  timestamp_from-instant_add (pos n) h = timestamp_from-pos n (omega arith)
  timestamp_from-instant_add (negsuc n) h = timestamp_from-negsuc n (omega arith)

  -- The timestamp of the instant of a timestamp is that timestamp.
  pub timestamp_from-instant_from :
      (ts : TimeStamp) → IsTimeStamp ts → timestamp_from b (instant_from b ts) ≡ ts
  unfolding instant_from
  timestamp_from-instant_from ts h =
      timestamp_from-instant_add (TimeStamp.diff ts b.reference_ts)
        (abs-diff ts b.reference_ts h hb)
      ∙ add-diff ts b.reference_ts h hb

  timestamp_from-later :
      (now : Instant)
      → b.reference_time ≤ℤ now
      → timestamp_from b now ≡ TimeStamp.add_duration b.reference_ts (since now b.reference_time)
  unfolding timestamp_from
  timestamp_from-later now h = ground arith

  -- Moving the reference time up to `now` does not change the timestamp of `now`.
  timestamp_from-advance :
      (now : Instant)
      → b.reference_time ≤ℤ now
      → timestamp_from (advance now b) now ≡ timestamp_from b now
  unfolding timestamp_from advance TimeStamp.add_duration
  timestamp_from-advance now h = ground (
    arith,
    since-plus-since b.reference_time now,
    since_parts now b.reference_time,
    plus_parts b.reference_time (since now b.reference_time),
  )

-- The base that `adjust` hands on, before it moves the reference time up.
abbrev drifted : TimeBase → TimeSpan → TimeBase
drifted b drift = record b {
  origin_time = TimeSpan.instant_sub b.origin_time drift;
  reference_time = TimeSpan.instant_sub b.reference_time drift;
}

module _ (b : TimeBase) (hb : IsTimeStamp b.reference_ts) (now : Instant)
    (h0 : b.reference_time ≤ℤ now) where
  drifted-pos :
      (n : ℕ)
      → n < 2 ^ 31
      → TimeSpan.instant_add b.reference_time (pos n) ≤ℤ now
      → timestamp_from (drifted b (pos n)) now ≡ TimeStamp.sub (timestamp_from b now) (pos n)
  unfolding timestamp_from TimeSpan.instant_add TimeSpan.instant_sub TimeStamp.sub
  drifted-pos zero h h1 = ground (
    arith,
    since_parts now b.reference_time,
    since_parts now (minus b.reference_time 0),
    minus_parts b.reference_time 0,
  )
  drifted-pos (suc n) h h1 = ground (
    arith,
    since_parts now b.reference_time,
    since_parts now (plus b.reference_time (from_micros (suc n))),
    plus_parts b.reference_time (from_micros (suc n)),
  )

  drifted-negsuc :
      (n : ℕ)
      → suc n < 2 ^ 31
      → timestamp_from (drifted b (negsuc n)) now ≡ TimeStamp.sub (timestamp_from b now) (negsuc n)
  unfolding timestamp_from TimeSpan.instant_sub TimeStamp.sub
  drifted-negsuc n h = ground (
    arith,
    since_parts now b.reference_time,
    since_parts now (minus b.reference_time (from_micros (suc n))),
    minus_parts b.reference_time (from_micros (suc n)),
  )

  drifted_lem :
      (drift : TimeSpan)
      → abs drift < 2 ^ 31
      → TimeSpan.instant_add b.reference_time drift ≤ℤ now
      → timestamp_from (drifted b drift) now ≡ TimeStamp.sub (timestamp_from b now) drift
  drifted_lem (pos n) h h1 = drifted-pos n (omega arith) h1
  drifted_lem (negsuc n) h h1 = drifted-negsuc n (omega arith)

  -- After an adjustment at `now` by a drift, the timestamp of `now` is the old one less the drift,
  -- if `now` is not before the reference time, neither the old one nor the moved one.
  pub timestamp_from-adjust :
      (drift : TimeSpan)
      → abs drift < 2 ^ 31
      → TimeSpan.instant_add b.reference_time drift ≤ℤ now
      → timestamp_from (adjust b now drift) now ≡ TimeStamp.sub (timestamp_from b now) drift
  unfolding adjust
  timestamp_from-adjust drift h h1 =
      timestamp_from-advance (drifted b drift) hb now h1' ∙ drifted_lem drift h h1
    where
      h1' : (drifted b drift).reference_time ≤ℤ now
      h1' = rw (instant_sub-eq-instant_add b.reference_time drift) h1
