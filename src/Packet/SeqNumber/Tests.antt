-- ===== src/Packet/SeqNumber/Tests.antt =====
-- Sequence numbers on either side of the wrap.
use srt_rs.Prelude.{
  ◌+◌, ◌-◌, ◌^◌, ◌≡◌, ◌↔◌, refl, true, false, not, ltb, Ordering, ◌==◌, ◌&&◌, if◌then◌else◌, arith,
}
use srt_rs.Packet.SeqNumber.{max_diff, add, distance, cmp, lt}
use srt_rs.Packet.SeqNumber.Order.{add-distance, lt_asymm, cmp-add_add, lt-add_add}

add_wraps : add (2 ^ 31 - 1) 1 ≡ 0
unfolding add
add_wraps = refl

add-distance_example : add (2 ^ 31 - 2) (distance 1 (2 ^ 31 - 2)) ≡ 1
add-distance_example = add-distance 1 (2 ^ 31 - 2) (omega arith) (omega arith)

lt_asymm_example :
    (((lt 7 (7 + 2 ^ 30) ≡ true) × (lt (7 + 2 ^ 30) 7 ≡ true))
      ↔ (distance 7 (7 + 2 ^ 30) ≡ max_diff))
    × (lt 7 (7 + 2 ^ 30) ≡ (
        if 7 == 7 + 2 ^ 30
        then false
        else if distance 7 (7 + 2 ^ 30) == max_diff
        then true
        else not (lt (7 + 2 ^ 30) 7)))
lt_asymm_example = lt_asymm 7 (7 + 2 ^ 30) (omega arith) (omega arith)

lt-add_add_example : lt (add (2 ^ 31 - 1) 0) (add (2 ^ 31 - 1) 4) ≡ ltb 0 4
lt-add_add_example = lt-add_add (2 ^ 31 - 1) 0 4 (omega arith) (omega arith) (omega arith)

cmp-add_add_example : cmp (add (2 ^ 31 - 1) 3) (add (2 ^ 31 - 1) 1) ≡ (
    if 3 == 1
    then Ordering.eq
    else if ltb 1 3 && ltb 3 (1 + max_diff)
    then Ordering.gt
    else Ordering.lt)
cmp-add_add_example = cmp-add_add (2 ^ 31 - 1) 3 1 (omega arith) (omega arith) (omega arith)
