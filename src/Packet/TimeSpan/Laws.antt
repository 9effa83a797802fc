-- ===== src/Packet/TimeSpan/Laws.antt =====
-- What the arithmetic of spans does.
use srt_rs.Prelude.{◌+ℤ◌, ◌-ℤ◌, ◌^◌, ◌<◌, ◌≡◌, refl, arith, abs}
use srt_rs.Packet.Instant.{Instant}
use srt_rs.Packet.TimeSpan.{TimeSpan, from_interval, instant_add, instant_sub}

-- Subtracting a span from an instant adds it.
pub instant_sub-eq-instant_add : (t : Instant) (s : TimeSpan) → instant_sub t s ≡ instant_add t s
unfolding instant_sub instant_add
instant_sub-eq-instant_add t s = refl

-- The interval from one instant to another that is a whole number of microseconds later, or
-- earlier, is that number, if it fits an `i32`.
pub from_interval-instant_add :
    (t : Instant) (s : TimeSpan) → abs s < 2 ^ 31 → from_interval t (instant_add t s) ≡ s
unfolding from_interval instant_add ◌+ℤ◌ ◌-ℤ◌
from_interval-instant_add t s h = ground arith
