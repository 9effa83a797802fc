-- ===== src/Packet/TimeStamp.antt =====
-- srt-protocol/src/packet/time.rs, `TimeStamp`: microseconds in a wrapping `u32`.
pub mod Laws
use srt_rs.Prelude.{
  ℕ, ◌+◌, ◌-◌, ◌%◌, ◌^◌, ◌<◌, Bool, true, false, ℤ, pos, pos_part, neg_part, from_u32, to_u32, neg,
  ltb_ℤ, leb_ℤ, ltb, if◌then◌else◌, Ordering,
}
use srt_rs.Packet.Instant.{Duration, as_micros}
use srt_rs.Packet.TimeSpan
use srt_rs.Packet.TimeSpan.{TimeSpan, zero_span}

abbrev pub TimeStamp : Type 0
TimeStamp = ℕ

abbrev pub IsTimeStamp : TimeStamp → Type 0
IsTimeStamp t = t < 2 ^ 32

-- `Wrapping<u32>` addition and subtraction
abbrev pub wrapping_add : ℕ → ℕ → ℕ
wrapping_add a b = (a + b) % 2 ^ 32

abbrev pub wrapping_sub : ℕ → ℕ → ℕ
wrapping_sub a b = (a + 2 ^ 32 - b) % 2 ^ 32

-- `rhs.0.unsigned_abs()` below zero, `rhs.0 as u32` otherwise
unfoldable pub add : TimeStamp → TimeSpan → TimeStamp
add t s = if ltb_ℤ s zero_span then wrapping_sub t (neg_part s) else wrapping_add t (pos_part s)

unfoldable pub sub : TimeStamp → TimeSpan → TimeStamp
sub t s = if ltb_ℤ s zero_span then wrapping_add t (neg_part s) else wrapping_sub t (pos_part s)

unfoldable pub add_duration : TimeStamp → Duration → TimeStamp
add_duration t d = wrapping_add t (as_micros d % 2 ^ 32)

unfoldable pub sub_duration : TimeStamp → Duration → TimeStamp
sub_duration t d = wrapping_sub t (as_micros d % 2 ^ 32)

-- The nearer way round the clock. Exactly half way round the negation of `i32::MIN` wraps.
unfoldable pub diff : TimeStamp → TimeStamp → TimeSpan
unfolding from_u32 TimeSpan.neg
diff a b =
    let pos_sub = wrapping_sub a b in
    let neg_sub = wrapping_sub b a in
    if ltb pos_sub neg_sub then from_u32 pos_sub else TimeSpan.neg (from_u32 neg_sub)

unfoldable pub cmp : TimeStamp → TimeStamp → Ordering
unfolding diff
cmp a b =
    let d = diff a b in
    if ltb_ℤ d zero_span
    then Ordering.lt
    else if ltb_ℤ zero_span d
    then Ordering.gt
    else Ordering.eq

unfoldable pub lt : TimeStamp → TimeStamp → Bool
unfolding cmp
lt a b = elim (cmp a b) [ Ordering.lt ↦ true | _ ↦ false ]
