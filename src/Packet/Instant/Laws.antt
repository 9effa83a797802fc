-- ===== src/Packet/Instant/Laws.antt =====
-- Instants in the form that linear arithmetic reads.
use srt_rs.Prelude.{◌+◌, ◌-◌, ◌≡◌, ◌≤ℤ◌, pos_part, neg_part, ◌+ℤ◌, ◌-ℤ◌, arith}
use srt_rs.Packet.Instant.{Instant, Duration, since, plus, minus, earlier, later}

pub since_parts : (a b : Instant) → since a b ≡ pos_part a + neg_part b - (neg_part a + pos_part b)
unfolding ◌-ℤ◌
since_parts a b = ground arith

pub plus_parts :
    (t : Instant) (d : Duration)
    → pos_part (plus t d) + neg_part t ≡ neg_part (plus t d) + pos_part t + d
unfolding ◌+ℤ◌
plus_parts t d = ground arith

pub minus_parts :
    (t : Instant) (d : Duration)
    → pos_part (minus t d) + neg_part t + d ≡ neg_part (minus t d) + pos_part t
unfolding ◌-ℤ◌
minus_parts t d = ground arith

pub earlier-le : (a b : Instant) → (earlier a b ≤ℤ a) × (earlier a b ≤ℤ b)
unfolding earlier
earlier-le a b = ground arith

pub later-ge : (a b : Instant) → (a ≤ℤ later a b) × (b ≤ℤ later a b)
unfolding later
later-ge a b = ground arith

pub later_mono : (now a b : Instant) → a ≤ℤ b → later now a ≤ℤ later now b
unfolding later
later_mono now a b h = ground arith
