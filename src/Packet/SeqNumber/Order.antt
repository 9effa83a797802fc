-- ===== src/Packet/SeqNumber/Order.antt =====
-- The order of sequence numbers: a total order inside a window of half the number space.
use srt_rs.Prelude.{
  ◌≤◌, Ordering, ◌==◌, ◌&&◌, ◌-◌, if◌then◌else◌, ℕ, ◌+◌, ◌<◌, ◌≡◌, ◌↔◌, true, false, not, ltb, leb,
  arith,
}
use srt_rs.Packet.SeqNumber.{
  IsSeqNumber, max_value, max_diff, new_truncate, add, sub, distance, cmp, lt, le,
}

pub add-IsSeqNumber : (a d : ℕ) → IsSeqNumber (add a d)
unfolding add
add-IsSeqNumber a d = omega arith

pub new_truncate-IsSeqNumber : (a : ℕ) → IsSeqNumber (new_truncate a)
unfolding new_truncate
new_truncate-IsSeqNumber a = omega arith

pub new_truncate_self : (a : ℕ) → IsSeqNumber a → new_truncate a ≡ a
unfolding new_truncate
new_truncate_self a h = omega arith

pub add-zero : (a : ℕ) → IsSeqNumber a → add a 0 ≡ a
unfolding add
add-zero a h = omega arith

pub add-add :
    (a d e : ℕ)
    → a < max_value
    → d < max_value
    → d + e < max_value
    → add (add a d) e ≡ add a (d + e)
unfolding add
add-add a d e ha hd he = omega arith

pub add-eq : (a d : ℕ) → a + d < max_value → add a d ≡ a + d
unfolding add
add-eq a d h = omega arith

-- The distance back from `a + d` to `a` is `d`, across the wrap too.
pub distance-add : (a d : ℕ) → IsSeqNumber a → d < max_value → distance (add a d) a ≡ d
unfolding distance add
distance-add a d ha hd = ground arith

-- Going back by `d` undoes going forward by `d`, across the wrap too.
pub sub-add : (a d : ℕ) → IsSeqNumber a → d < max_value → sub (add a d) d ≡ a
unfolding sub add
sub-add a d ha hd = ground arith

pub add-distance : (a b : ℕ) → IsSeqNumber a → IsSeqNumber b → add b (distance a b) ≡ a
unfolding distance add
add-distance a b ha hb = ground arith

pub distance-lt : (a b : ℕ) → IsSeqNumber a → IsSeqNumber b → distance a b < max_value
unfolding distance
distance-lt a b ha hb = ground arith

-- Inside a window of half the number space the order is that of the offsets.
pub lt-add_add :
    (a i j : ℕ) → IsSeqNumber a → i < max_diff → j < max_diff → lt (add a i) (add a j) ≡ ltb i j
unfolding lt add
lt-add_add a i j ha hi hj = ground arith

pub le-add_add :
    (a i j : ℕ) → IsSeqNumber a → i < max_diff → j < max_diff → le (add a i) (add a j) ≡ leb i j
unfolding le add
le-add_add a i j ha hi hj = ground arith

-- Of two different numbers just one is less than the other, unless they lie exactly half the space
-- apart: then, and only then, each is less than the other.
pub lt_asymm :
    (a b : ℕ)
    → IsSeqNumber a
    → IsSeqNumber b
    → (((lt a b ≡ true) × (lt b a ≡ true)) ↔ (distance a b ≡ max_diff))
      × (lt a b
          ≡ (if a == b then false else if distance a b == max_diff then true else not (lt b a)))
unfolding lt distance
lt_asymm a b ha hb = (ground arith, ground arith)

-- The order of any number at an offset against one in the window.
pub cmp-add_add :
    (a i j : ℕ)
    → IsSeqNumber a
    → i < max_value
    → j < max_diff
    → cmp (add a i) (add a j) ≡ (
        if i == j
        then Ordering.eq
        else if ltb j i && ltb i (j + max_diff)
        then Ordering.gt
        else Ordering.lt)
unfolding cmp add
cmp-add_add a i j ha hi hj = ground arith

pub distance-add_add :
    (a i j : ℕ) → IsSeqNumber a → i < max_value → j ≤ i → distance (add a i) (add a j) ≡ i - j
unfolding distance add
distance-add_add a i j ha hi hj = ground arith

pub add_injective :
    (a i j : ℕ) → IsSeqNumber a → i < max_value → j < max_value → add a i ≡ add a j → i ≡ j
unfolding add
add_injective a i j ha hi hj h = omega arith
