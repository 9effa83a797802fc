-- ===== src/Receiver/Buffer/Losses.antt =====
-- srt-protocol/src/protocol/receiver/buffer.rs: `prepare_loss_list` and `drop_packets`, with the
-- packet operations they call.
pub mod Drop
pub mod Feedback
pub mod Range
use srt_rs.Prelude.{
  ℕ, zero, suc, ◌+◌, ◌-◌, Bool, true, false, Option, none, some, List, [], ◌∷◌, ◌+ℤ◌, pos, ltb,
  if◌then◌else◌,
}
use srt_rs.Packet.Instant.{Instant, before}
use srt_rs.Packet.SeqNumber.{SeqNumber}
use srt_rs.Packet.TimeSpan
use srt_rs.Packet.TimeSpan.{TimeSpan}
use srt_rs.Packet.LossList
use srt_rs.Packet.LossList.{Run}
use srt_rs.Receiver.Buffer.{
  LostPacket, BufferPacket, lost, received, dropped, data_sequence_number, ReceiveBuffer,
  lost_list_index, clamped_index_for_seqno,
}

-- The guard of `lost_ready_for_feedback_mut` on a lost packet.
unfoldable pub ready_for_feedback : Instant → TimeSpan → LostPacket → Bool
unfolding TimeSpan.mul TimeSpan.instant_add
ready_for_feedback now rtt_mean l =
    before (TimeSpan.instant_add l.feedback_time (TimeSpan.mul rtt_mean l.k)) now

-- `k += 1` is `i32` arithmetic on a count of reports, which stays far from its limit.
unfoldable pub fed_back : Instant → LostPacket → LostPacket
fed_back now l = record l { k = l.k +ℤ pos 1; feedback_time = now }

-- The packets of the range, with those ready marked as fed back, and the numbers of these.
unfoldable pub feed_back :
    Instant → TimeSpan → List BufferPacket → List BufferPacket × List SeqNumber
unfolding ready_for_feedback fed_back
feed_back now rtt_mean [] = ([], [])
feed_back now rtt_mean (lost l ∷ rest) =
    let (ps, loss_list) = feed_back now rtt_mean rest in
    if ready_for_feedback now rtt_mean l
    then (lost (fed_back now l) ∷ ps, l.data_sequence_number ∷ loss_list)
    else (lost l ∷ ps, loss_list)
feed_back now rtt_mean (received d ∷ rest) =
    let (ps, loss_list) = feed_back now rtt_mean rest in (received d ∷ ps, loss_list)
feed_back now rtt_mean (dropped seq_number ∷ rest) =
    let (ps, loss_list) = feed_back now rtt_mean rest in (dropped seq_number ∷ ps, loss_list)

-- `range_mut(start..)`: the packets before the index stay.
unfoldable pub feed_back_from :
    ℕ → Instant → TimeSpan → List BufferPacket → List BufferPacket × List SeqNumber
unfolding feed_back
feed_back_from zero now rtt_mean ps = feed_back now rtt_mean ps
feed_back_from (suc start) now rtt_mean [] = ([], [])
feed_back_from (suc start) now rtt_mean (p ∷ rest) =
    let (ps, loss_list) = feed_back_from start now rtt_mean rest in (p ∷ ps, loss_list)

-- The packet after `drop_unreceived`, and how many were dropped.
unfoldable pub drop_unreceived : BufferPacket → BufferPacket × ℕ
unfolding data_sequence_number
drop_unreceived (lost l) = (dropped (data_sequence_number (lost l)), 1)
drop_unreceived (received d) = (received d, 0)
drop_unreceived (dropped seq_number) = (dropped seq_number, 0)

-- `drop_unreceived` on `count` packets from an index on, and the number dropped.
unfoldable pub drop_range : ℕ → ℕ → List BufferPacket → List BufferPacket × ℕ
unfolding drop_unreceived
drop_range start count [] = ([], 0)
drop_range zero zero (p ∷ rest) = (p ∷ rest, 0)
drop_range zero (suc count) (p ∷ rest) =
    let (ps, n) = drop_range zero count rest in let (p', m) = drop_unreceived p in (p' ∷ ps, m + n)
drop_range (suc start) count (p ∷ rest) = let (ps, n) = drop_range start count rest in (p ∷ ps, n)

module _ {S : Type 0} where
  -- The words are those of `CompressedLossList::try_from_iter`, which has no list for no words.
  unfoldable pub prepare_loss_list : ReceiveBuffer S → Instant → TimeSpan → ReceiveBuffer S × Run
  unfolding feed_back_from lost_list_index LossList.compress_loss_list
  prepare_loss_list r now rtt_mean =
      let (ps, loss_list) = feed_back_from (lost_list_index r.buffer) now rtt_mean r.buffer in
      (record r { buffer = ps }, LossList.compress_loss_list loss_list)

  -- The outer `none` is the panic of a range that ends before it starts.
  unfoldable pub drop_packets :
      ReceiveBuffer S → SeqNumber → SeqNumber → Option (ReceiveBuffer S × ℕ)
  unfolding clamped_index_for_seqno drop_range
  drop_packets r start end =
      let first_idx = clamped_index_for_seqno r start in
      let last_idx = clamped_index_for_seqno r end in
      if ltb last_idx first_idx
      then none
      else let (ps, n) = drop_range first_idx (last_idx - first_idx) r.buffer in
        some (record r { buffer = ps }, n)
