-- ===== src/Packet/Instant.antt =====
-- The standard library's `Instant` and `Duration`, as the protocol uses them: nanoseconds, an
-- instant from any epoch and so of either sign. The range of the 64-bit seconds below them is not
-- modelled: instants of one process lie far inside it.
pub mod Laws
use srt_rs.Prelude.{ℕ, ◌*◌, ◌/◌, Bool, ℤ, pos, pos_part, ◌+ℤ◌, ◌-ℤ◌, ltb_ℤ, leb_ℤ, if◌then◌else◌}

abbrev pub Duration : Type 0
Duration = ℕ

abbrev pub Instant : Type 0
Instant = ℤ

abbrev pub from_micros : ℕ → Duration
from_micros us = us * 1000

abbrev pub from_millis : ℕ → Duration
from_millis ms = ms * 1000000

abbrev pub from_secs : ℕ → Duration
from_secs s = s * 1000000000

abbrev pub as_micros : Duration → ℕ
as_micros d = d / 1000

abbrev pub plus : Instant → Duration → Instant
plus t d = t +ℤ pos d

abbrev pub minus : Instant → Duration → Instant
minus t d = t -ℤ pos d

-- `a - b` on instants, which gives zero if `b` is the later
abbrev pub since : Instant → Instant → Duration
since a b = pos_part (a -ℤ b)

abbrev pub before : Instant → Instant → Bool
before = ltb_ℤ

abbrev pub not_after : Instant → Instant → Bool
not_after = leb_ℤ

unfoldable pub earlier : Instant → Instant → Instant
earlier a b = if leb_ℤ a b then a else b

unfoldable pub later : Instant → Instant → Instant
later a b = if leb_ℤ a b then b else a
