-- ===== src/Packet/SeqNumber.antt =====
-- srt-protocol/src/packet/seq_number.rs: `modular_num!(SeqNumber(u32, 31))`. A sequence number
-- is its raw value, and `IsSeqNumber` the range that a 31-bit field can hold.
pub mod Order
mod Tests
use srt_rs.Prelude.{ℕ, ◌+◌, ◌-◌, ◌^◌, ◌<◌, Ordering, Bool, true, false, Option, not, if◌then◌else◌}
use srt_rs.Packet.ModularNum

abbrev pub SeqNumber : Type 0
SeqNumber = ℕ

abbrev pub max_value : ℕ
max_value = 2 ^ 31

abbrev pub max_diff : ℕ
max_diff = 2 ^ 30

abbrev pub IsSeqNumber : SeqNumber → Type 0
IsSeqNumber a = a < max_value

unfoldable pub new_truncate : ℕ → SeqNumber
unfolding ModularNum.new_truncate
new_truncate from = ModularNum.new_truncate 31 from

unfoldable pub new : ℕ → Option SeqNumber
unfolding ModularNum.new
new from = ModularNum.new 31 from

unfoldable pub add : SeqNumber → ℕ → SeqNumber
unfolding ModularNum.add
add a other = ModularNum.add 31 a other

unfoldable pub sub : SeqNumber → ℕ → SeqNumber
unfolding ModularNum.sub
sub a other = ModularNum.sub 31 a other

unfoldable pub distance : SeqNumber → SeqNumber → ℕ
unfolding ModularNum.distance
distance a other = ModularNum.distance 31 a other

unfoldable pub cmp : SeqNumber → SeqNumber → Ordering
unfolding ModularNum.cmp
cmp a other = ModularNum.cmp 31 a other

-- `a < b`, `a <= b` and `std::cmp::max`, as the standard library derives them from `cmp`
unfoldable pub lt : SeqNumber → SeqNumber → Bool
unfolding cmp
lt a b = elim (cmp a b) [ Ordering.lt ↦ true | _ ↦ false ]

unfoldable pub le : SeqNumber → SeqNumber → Bool
unfolding cmp
le a b = elim (cmp a b) [ Ordering.gt ↦ false | _ ↦ true ]

unfoldable pub later : SeqNumber → SeqNumber → SeqNumber
unfolding cmp
later a b = elim (cmp a b) [ Ordering.gt ↦ a | _ ↦ b ]

-- `increment`: the old value is returned, beside the new one.
unfoldable pub increment : SeqNumber → SeqNumber × SeqNumber
unfolding add
increment a = (a, add a 1)

-- A subtraction of the raw values that stops at 0.
unfoldable pub saturating_sub : SeqNumber → SeqNumber → ℕ
saturating_sub a other = a - other
