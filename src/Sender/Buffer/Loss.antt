-- ===== src/Sender/Buffer/Loss.antt =====
-- srt-protocol/src/protocol/sender/buffer.rs: `LossIterator`, which takes a report of losses into
-- the lost list and gives the ranges of it by what became of them.
pub mod Covers
pub mod Keeps
use srt_rs.Prelude.{
  Bool, true, false, Option, none, some, List, [], ◌∷◌, ◌&&◌, not, ◌==◌, if◌then◌else◌,
}
use srt_rs.Packet.SeqNumber
use srt_rs.Packet.SeqNumber.{SeqNumber}
use srt_rs.Sender.Buffer.{SendBuffer, front_packet, insert}

pub data Loss : Type 0 where
  added ignored : Loss
  dropped : Loss

unfoldable pub same_loss : Loss → Loss → Bool
same_loss added added = true
same_loss ignored ignored = true
same_loss dropped dropped = true
same_loss _ _ = false

-- A range of the report, from its first number to the one after its last.
pub record LossRange : Type 0 where
  pub loss : Loss
  pub start : SeqNumber
  pub end : SeqNumber

unfoldable pub range_of : Loss → SeqNumber → LossRange
unfolding SeqNumber.add
range_of loss next = record { loss = loss; start = next; end = SeqNumber.add next 1 }

-- A number that goes on a range of its kind makes it longer, any other ends it and begins one.
unfoldable pub goes_on : LossRange → Loss → SeqNumber → Bool
unfolding same_loss
goes_on current loss next = same_loss loss current.loss && (next == current.end)

unfoldable pub next_range : Bool → LossRange → Loss → SeqNumber → LossRange
unfolding range_of SeqNumber.add
next_range true current loss next = record current { end = SeqNumber.add next 1 }
next_range false current loss next = range_of loss next

unfoldable pub end_range : Bool → LossRange → List LossRange → List LossRange
end_range true current ranges = ranges
end_range false current ranges = current ∷ ranges

module _ {Q : Type 0} where
  -- What becomes of a reported number. One that was not sent is ignored, one that has left the
  -- buffer is dropped.
  unfoldable pub classify : SendBuffer Q → Option SeqNumber → SeqNumber → Loss
  unfolding SeqNumber.lt
  classify s front next = if not (SeqNumber.lt next s.next_send) then ignored else elim front [
    | none ↦ dropped
    | some first ↦ if SeqNumber.lt next first then dropped else added
  ]

  unfoldable pub take_loss : SendBuffer Q → SeqNumber → SendBuffer Q × Loss
  unfolding classify front_packet insert
  take_loss s next = elim (classify s (front_packet s) next) [
    | added ↦ (record s { lost_list = insert next s.lost_list }, added)
    | ignored ↦ (s, ignored)
    | dropped ↦ (s, dropped)
  ]

  -- The iterator with a range under way, over the numbers that the report has left, collected.
  unfoldable pub ranges_from :
      SendBuffer Q → LossRange → List SeqNumber → SendBuffer Q × List LossRange
  unfolding take_loss goes_on next_range end_range
  ranges_from s current [] = (s, current ∷ [])
  ranges_from s current (next ∷ rest) =
      let (s', loss) = take_loss s next in
      let grows = goes_on current loss next in
      let (s'', ranges) = ranges_from s' (next_range grows current loss next) rest in
      (s'', end_range grows current ranges)

  unfoldable pub add_to_loss_list : SendBuffer Q → List SeqNumber → SendBuffer Q × List LossRange
  unfolding take_loss ranges_from range_of
  add_to_loss_list s [] = (s, [])
  add_to_loss_list s (first ∷ rest) =
      let (s', loss) = take_loss s first in ranges_from s' (range_of loss first) rest
