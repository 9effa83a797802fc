-- ===== src/Packet/ModularNum.antt =====
-- srt-protocol/src/packet/modular_num.rs: the number type that `modular_num!` declares over `u32`
-- with `num` bits. A value is its raw `u32`; `IsSeqNumber` and the like state the range.
use srt_rs.Prelude.{
  ℕ, ◌+◌, ◌-◌, ◌%◌, ◌^◌, Ordering, Option, none, some, ltb, leb, ◌==◌, if◌then◌else◌,
}

module _ (num : ℕ) where
  -- `MAX` and `MAX_DIFF`
  abbrev pub max_value : ℕ
  max_value = 2 ^ num

  abbrev pub max_diff : ℕ
  max_diff = 2 ^ (num - 1)

  unfoldable pub new_truncate : ℕ → ℕ
  new_truncate from = from % max_value

  -- `none` is the `OutOfRangeError`.
  unfoldable pub new : ℕ → Option ℕ
  new from = if ltb max_value from then none else some from

  -- `wrapping_add`, then the remainder
  unfoldable pub add : ℕ → ℕ → ℕ
  add a other = (a + other) % 2 ^ 32 % max_value

  -- the subtraction of an offset; `u32` arithmetic wraps
  unfoldable pub sub : ℕ → ℕ → ℕ
  sub a other = if ltb a other then (2 ^ 32 + max_value - (other - a)) % 2 ^ 32 else a - other

  -- the subtraction of two numbers: the distance from `other` up to `a`
  unfoldable pub distance : ℕ → ℕ → ℕ
  distance a other = if leb other a then a - other else (2 ^ 32 + max_value - (other - a)) % 2 ^ 32

  unfoldable pub cmp : ℕ → ℕ → Ordering
  unfolding distance
  cmp a other =
      let diff = distance a other in
      if diff == 0 then Ordering.eq else if ltb diff max_diff then Ordering.gt else Ordering.lt

  unfoldable pub rem : ℕ → ℕ → ℕ
  rem a other = a % other
