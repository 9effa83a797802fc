-- ===== src/Packet/TimeStamp/Laws.antt =====
-- Timestamps wrap every 2 ^ 32 microseconds; differences and the order go the nearer way round.
use srt_rs.Prelude.{ℕ, ◌^◌, ◌≤◌, ◌<◌, ◌≡◌, true, pos, arith, abs}
use srt_rs.Packet.TimeSpan.{TimeSpan}
use srt_rs.Packet.TimeStamp.{TimeStamp, IsTimeStamp, add, sub, diff, lt}

-- A span of less than half the clock is the difference that adding it makes, across the wrap too.
pub diff-add :
    (t : TimeStamp) (s : TimeSpan) → IsTimeStamp t → abs s < 2 ^ 31 → diff (add t s) t ≡ s
unfolding diff add
diff-add t s h b = ground arith

-- Adding back the difference of two timestamps gives the first.
pub add-diff : (a b : TimeStamp) → IsTimeStamp a → IsTimeStamp b → add b (diff a b) ≡ a
unfolding diff add
add-diff a b ha hb = ground arith

pub sub-add : (t : TimeStamp) (s : TimeSpan) → IsTimeStamp t → abs s < 2 ^ 31 → sub (add t s) s ≡ t
unfolding sub add
sub-add t s h b = ground arith

-- A timestamp is before the one that a positive span of less than half the clock leads to.
pub lt-add : (t n : ℕ) → IsTimeStamp t → 0 < n → n < 2 ^ 31 → lt t (add t (pos n)) ≡ true
unfolding lt add
lt-add t n h p b = ground arith

pub abs-diff : (a b : TimeStamp) → IsTimeStamp a → IsTimeStamp b → abs (diff a b) ≤ 2 ^ 31
unfolding diff
abs-diff a b ha hb = ground arith
