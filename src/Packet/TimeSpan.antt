-- ===== src/Packet/TimeSpan.antt =====
-- srt-protocol/src/packet/time.rs, `TimeSpan`: signed microseconds in an `i32`. A span is the
-- integer that the word stands for, and arithmetic wraps as in a release build.
pub mod Laws
use srt_rs.Prelude.{
  ℕ, ◌+◌, ◌-◌, ◌*◌, Option, none, some, ◌%◌, ◌^◌, Bool, ℤ, pos, negsuc, pos_part, neg_part, ◌+ℤ◌,
  ◌-ℤ◌, ◌*ℤ◌, neg as neg_ℤ, div_ℤ, from_u32, wrap_i32, ltb_ℤ, leb_ℤ, ltb, if◌then◌else◌,
}
use srt_rs.Packet.Instant.{Instant, Duration, as_micros, from_micros, since, plus, minus, not_after}

abbrev pub TimeSpan : Type 0
TimeSpan = ℤ

abbrev pub zero_span : TimeSpan
zero_span = pos 0

-- `rhs.as_micros() as i32`
abbrev pub micros_i32 : Duration → ℤ
micros_i32 d = from_u32 (as_micros d % 2 ^ 32)

unfoldable pub add_duration : TimeSpan → Duration → TimeSpan
unfolding wrap_i32 ◌+ℤ◌ from_u32
add_duration s d = wrap_i32 (s +ℤ micros_i32 d)

unfoldable pub sub_duration : TimeSpan → Duration → TimeSpan
unfolding wrap_i32 ◌-ℤ◌ from_u32
sub_duration s d = wrap_i32 (s -ℤ micros_i32 d)

unfoldable pub from_interval : Instant → Instant → TimeSpan
unfolding add_duration sub_duration
from_interval begin end =
    if not_after begin end
    then add_duration zero_span (since end begin)
    else sub_duration zero_span (since begin end)

unfoldable pub neg : TimeSpan → TimeSpan
unfolding wrap_i32 neg_ℤ
neg s = wrap_i32 (neg_ℤ s)

unfoldable pub mul : TimeSpan → ℤ → TimeSpan
unfolding wrap_i32 ◌*ℤ◌
mul s k = wrap_i32 (s *ℤ k)

unfoldable pub div : TimeSpan → ℕ → TimeSpan
unfolding wrap_i32
div s d = wrap_i32 (div_ℤ s d)

unfoldable pub add : TimeSpan → TimeSpan → TimeSpan
unfolding wrap_i32 ◌+ℤ◌
add a b = wrap_i32 (a +ℤ b)

unfoldable pub sub : TimeSpan → TimeSpan → TimeSpan
unfolding wrap_i32 ◌-ℤ◌
sub a b = wrap_i32 (a -ℤ b)

-- `Duration + TimeSpan`: a duration is not negative, and a sum below zero panics, which is `none`.
unfoldable pub duration_add : Duration → TimeSpan → Option Duration
duration_add d s =
    if ltb_ℤ zero_span s
    then some (d + from_micros (pos_part s))
    else if ltb d (from_micros (neg_part s))
    then none
    else some (d - from_micros (neg_part s))

unfoldable pub duration_sub : Duration → TimeSpan → Option Duration
unfolding duration_add neg
duration_sub d s = duration_add d (neg s)

-- `Instant + TimeSpan` and `Instant - TimeSpan`: the bodies are the same in the source.
unfoldable pub instant_add : Instant → TimeSpan → Instant
instant_add t s =
    if ltb 0 (pos_part s)
    then plus t (from_micros (pos_part s))
    else minus t (from_micros (neg_part s))

unfoldable pub instant_sub : Instant → TimeSpan → Instant
instant_sub t s =
    if ltb 0 (pos_part s)
    then plus t (from_micros (pos_part s))
    else minus t (from_micros (neg_part s))
