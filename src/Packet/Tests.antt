-- ===== src/Packet/Tests.antt =====
-- Timestamps and spans at concrete values, across the wrap of the clock.
use srt_rs.Prelude.{negsuc, ◌-◌, ◌^◌, ◌≡◌, arith}
use srt_rs.Packet.TimeStamp.{add, sub, diff}
use srt_rs.Packet.TimeStamp.Laws.{add-diff, sub-add}

add-diff_example : add (2 ^ 32 - 10) (diff 15 (2 ^ 32 - 10)) ≡ 15
add-diff_example = add-diff 15 (2 ^ 32 - 10) (omega arith) (omega arith)

timestamp_sub-add_example : sub (add 5 (negsuc 19)) (negsuc 19) ≡ 5
timestamp_sub-add_example = sub-add 5 (negsuc 19) (omega arith) (omega arith)
