-- ===== src/Receiver/Buffer/Push.antt =====
-- srt-protocol/src/protocol/receiver/buffer.rs: `push_packet` and what it calls. An outer `none`
-- is a panic: an index out of range, or the empty range of lost packets.
pub mod Keeps
pub mod Total
use srt_rs.Prelude.{
  or_else, ℕ, zero, suc, ◌+◌, Bool, true, false, Option, none, some, List, [], ◌∷◌, ◌++◌, Ordering,
  length, get_elem?, set, drop, ltb, ◌==◌, if◌then◌else◌,
}
use srt_rs.Packet.Instant.{Instant}
use srt_rs.Packet.SeqNumber
use srt_rs.Packet.SeqNumber.{SeqNumber}
use srt_rs.Packet.LossList
use srt_rs.Packet.Data.{DataPacket}
use srt_rs.Receiver.Buffer.{
  BufferPacket, lost, received, dropped, new_lost, ReceiveBuffer, buffer_available, next_packet_dsn,
  index_for_seqno, first_lost_or_dropped,
}

pub data DataPacketAction : Type 0 where
  received_data : SeqNumber → Bool → DataPacketAction
  received_with_loss : List ℕ → DataPacketAction
  received_with_light_ack : SeqNumber → Bool → DataPacketAction

pub data DataPacketError : Type 0 where
  buffer_full : SeqNumber → ℕ → DataPacketError
  packet_too_early : SeqNumber → ℕ → ℕ → DataPacketError
  packet_too_late : SeqNumber → SeqNumber → DataPacketError
  discarded_duplicate : SeqNumber → DataPacketError
  decryption_error : DataPacketError

pub data DataResult : Type 0 where
  ok : DataPacketAction → DataResult
  err : DataPacketError → DataResult

-- `update_data` writes a lost packet only: `none` is the duplicate.
unfoldable pub update_data : BufferPacket → DataPacket → Option BufferPacket
update_data (lost l) d = some (received d)
update_data (received d') d = none
update_data (dropped seq_number) d = none

-- The packets that `append_lost_packets` adds, from the `i`-th on.
unfoldable pub lost_packets : Instant → SeqNumber → ℕ → ℕ → List BufferPacket
unfolding new_lost SeqNumber.add
lost_packets now start i zero = []
lost_packets now start i (suc n) =
    lost (new_lost (SeqNumber.add start i) now) ∷ lost_packets now start (i + 1) n

abbrev pub Push : Type 0 → Type 0
Push S = Option (ReceiveBuffer S × DataResult)

module _ {S : Type 0} where
  unfoldable pub append_data : ReceiveBuffer S → DataPacket → ReceiveBuffer S
  unfolding SeqNumber.add
  append_data r d = record r {
    lrsn = if r.lrsn == d.seq_number then SeqNumber.add d.seq_number 1 else r.lrsn;
    buffer = r.buffer ++ received d ∷ [];
  }

  unfoldable pub append_next : ReceiveBuffer S → DataPacket → ReceiveBuffer S × DataResult
  unfolding append_data
  append_next r d =
      if buffer_available r == 0
      then (r, err (buffer_full d.seq_number (length r.buffer)))
      else let r' = append_data r d in (r', ok (received_data r'.lrsn false))

  unfoldable pub append_lost_packets : ReceiveBuffer S → Instant → SeqNumber → ℕ → ReceiveBuffer S
  unfolding lost_packets
  append_lost_packets r now start lost_count = record r {
    buffer = r.buffer ++ lost_packets now start 0 lost_count;
  }

  -- `ReceivedWithLoss(lost.into())`, which unwraps.
  unfoldable pub report_loss : ReceiveBuffer S → Option (List ℕ) → Push S
  report_loss r none = none
  report_loss r (some words) = some (r, ok (received_with_loss words))

  unfoldable pub append_with_loss : ReceiveBuffer S → Instant → DataPacket → Push S
  unfolding append_data append_lost_packets report_loss
  append_with_loss r now d =
      let start = next_packet_dsn r in
      let lost_count = SeqNumber.distance d.seq_number start in
      let buffer_required = lost_count + 1 in
      if ltb (buffer_available r) buffer_required
      then some (r, err (packet_too_early d.seq_number (buffer_available r) buffer_required))
      else report_loss (append_data (append_lost_packets r now start lost_count) d)
          (LossList.try_from_range start d.seq_number)

  unfoldable pub recalculate_lrsn : ReceiveBuffer S → ℕ → ReceiveBuffer S
  recalculate_lrsn r start_idx = record r {
    lrsn = or_else (first_lost_or_dropped (drop start_idx r.buffer)) (next_packet_dsn r);
  }

  -- `recover_data` from the entry on, at its index.
  unfoldable pub recover_entry :
      ReceiveBuffer S → DataPacket → ℕ → BufferPacket → ReceiveBuffer S × DataResult
  unfolding update_data recalculate_lrsn
  recover_entry r d index p = elim (update_data p d) [
    | none ↦ (r, err (discarded_duplicate d.seq_number))
    | some p' ↦
        let r' = record r { buffer = set r.buffer index p' } in
        let r'' = if r.lrsn == d.seq_number then recalculate_lrsn r' index else r' in
        (r'', ok (received_data r''.lrsn true))
  ]

  -- `self.buffer.get_mut(index).unwrap()`
  unfoldable pub recover_at : ReceiveBuffer S → DataPacket → ℕ → Option BufferPacket → Push S
  unfolding recover_entry
  recover_at r d index none = none
  recover_at r d index (some p) = some (recover_entry r d index p)

  unfoldable pub recover_index : ReceiveBuffer S → DataPacket → Option ℕ → Push S
  unfolding recover_at
  recover_index r d none = some (r, err (packet_too_late d.seq_number r.seqno0))
  recover_index r d (some index) = recover_at r d index (get_elem? r.buffer index)

  unfoldable pub recover_data : ReceiveBuffer S → DataPacket → Push S
  unfolding recover_index
  recover_data r d = recover_index r d (index_for_seqno r d.seq_number)

  unfoldable pub push_ordered : ReceiveBuffer S → Instant → DataPacket → Ordering → Push S
  unfolding append_next append_with_loss recover_data
  push_ordered r now d Ordering.eq = some (append_next r d)
  push_ordered r now d Ordering.gt = append_with_loss r now d
  push_ordered r now d Ordering.lt = recover_data r d

  unfoldable pub push_packet : ReceiveBuffer S → Instant → DataPacket → Push S
  unfolding push_ordered
  push_packet r now d = push_ordered r now d (SeqNumber.cmp d.seq_number (next_packet_dsn r))
