-- ===== src/Packet/LossList.antt =====
-- srt-protocol/src/packet/control/loss_compression.rs: the two iterators that compress a loss list
-- into ranges and back, with the state that each keeps.
pub mod RoundTrip
pub mod Wrap
mod Tests
use srt_rs.Prelude.{
  ℕ, zero, suc, ◌+◌, ◌%◌, ◌^◌, Bool, true, false, Option, none, some, List, [], ◌∷◌, not, ltb, leb,
  ◌==◌, if◌then◌else◌, length,
}
use srt_rs.Packet.SeqNumber.{SeqNumber, new_truncate, add, sub, lt}

-- What one call of an iterator's `next` does, and what collecting all its items gives.
pub data Next (S : Type 0) : Type 0 where
  finished : Next S
  yields : ℕ → S → Next S
  panics : Next S

pub data Run : Type 0 where
  done : List ℕ → Run
  panicked : Run
  out_of_fuel : Run

abbrev pub prepend : ℕ → Run → Run
prepend w (done ws) = done (w ∷ ws)
prepend w panicked = panicked
prepend w out_of_fuel = out_of_fuel

-- `collect` on an iterator, with fuel.
abbrev pub collect_step : {S : Type 0} → (S → Run) → Next S → Run
collect_step rest finished = done []
collect_step rest (yields w s) = prepend w (rest s)
collect_step rest panics = panicked

unfoldable pub collect : {S : Type 0} → (S → Next S) → ℕ → S → Run
collect next zero s = out_of_fuel
collect next (suc fuel) s = collect_step (collect next fuel) (next s)

pub record Compress : Type 0 where
  pub iterator : List SeqNumber
  pub next : Option SeqNumber
  pub last_in_loop : Option SeqNumber

-- `w | 1 << 31` on a 32-bit word
unfoldable pub set_top : ℕ → ℕ
set_top w = if ltb w (2 ^ 31) then w + 2 ^ 31 else w

-- The `loop` of `CompressLossList::next`, at `this`, with the items that the iterator has left.
unfoldable pub compress_loop : List SeqNumber → SeqNumber → Option SeqNumber → Next Compress
unfolding lt add set_top
compress_loop [] this last =
    yields this (record { iterator = []; next = none; last_in_loop = last })
compress_loop (i ∷ rest) this (some last) =
    if lt this i
    then if add last 2 == i
      then compress_loop rest i (some (add last 1))
      else yields this (record { iterator = rest; next = some i; last_in_loop = none })
    else panics
compress_loop (i ∷ rest) this none =
    if lt this i
    then if add this 1 == i
      then yields (set_top this)
          (record { iterator = rest; next = some i; last_in_loop = some this })
      else yields this (record { iterator = rest; next = some i; last_in_loop = none })
    else panics

-- At the start `next` is assigned from the iterator, and an empty one ends the call.
compress_start : List SeqNumber → Option SeqNumber → Next Compress
unfolding compress_loop
compress_start [] last = finished
compress_start (x ∷ rest) last = compress_loop rest x last

unfoldable pub compress_next : Compress → Next Compress
unfolding compress_loop compress_start
compress_next c = elim c.next [
  | none ↦ compress_start c.iterator c.last_in_loop
  | some this ↦ compress_loop c.iterator this c.last_in_loop
]

-- `compress_loss_list`, collected: each call of `next` but the last takes an item.
unfoldable pub compress_loss_list : List SeqNumber → Run
unfolding collect compress_next
compress_loss_list loss_list =
    collect compress_next (suc (length loss_list))
      (record { iterator = loss_list; next = none; last_in_loop = none })

pub record Decompress : Type 0 where
  pub iterator : List ℕ
  pub loop_next_end : Option (ℕ × ℕ)

-- The arm with no current loop. The top bit marks the start of a loop; its end is the next word.
decompress_word : List ℕ → Next Decompress
unfolding new_truncate
decompress_word [] = finished
decompress_word (next ∷ []) =
    if leb (2 ^ 31) next
    then panics
    else yields (new_truncate next) (record { iterator = []; loop_next_end = none })
decompress_word (next ∷ i ∷ rest) =
    if leb (2 ^ 31) next
    then yields (new_truncate (next % 2 ^ 31))
        (record { iterator = rest; loop_next_end = some ((next % 2 ^ 31 + 1), i) })
    else yields (new_truncate next) (record { iterator = i ∷ rest; loop_next_end = none })

-- `next + 1` is `u32` arithmetic, and wraps.
unfoldable pub decompress_next : Decompress → Next Decompress
unfolding decompress_word new_truncate
decompress_next d = elim d.loop_next_end [
  | none ↦ decompress_word d.iterator
  | some (next, end) ↦
      if next == end
      then yields (new_truncate next) (record d { loop_next_end = none })
      else yields (new_truncate next) (record d { loop_next_end = some ((next + 1) % 2 ^ 32, end) })
]

-- `decompress_loss_list`, collected with fuel: two words can stand for any number of items.
unfoldable pub decompress_loss_list : ℕ → List ℕ → Run
unfolding collect decompress_next
decompress_loss_list fuel loss_list =
    collect decompress_next fuel (record { iterator = loss_list; loop_next_end = none })

-- srt-protocol/src/packet/control/mod.rs: a `CompressedLossList` of an iterator or a range. A
-- range is empty if its start is not before its end.
unfoldable pub try_from_range : SeqNumber → SeqNumber → Option (List ℕ)
unfolding lt add sub set_top
try_from_range start end =
    if not (lt start end)
    then none
    else if add start 1 == end
    then some (start ∷ [])
    else some (set_top start ∷ sub end 1 ∷ [])
