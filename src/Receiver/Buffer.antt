-- ===== src/Receiver/Buffer.antt =====
-- srt-protocol/src/protocol/receiver/buffer.rs: the packets of the receive buffer, its state and
-- its queries. Its children hold the operations, and what they keep.
pub mod Losses
pub mod Pop
pub mod Push
pub mod Window
use srt_rs.Prelude.{
  ℕ, suc, ◌-◌, min, Bool, false, Option, none, some, List, [], ◌∷◌, ℤ, pos, pos_part, length,
  get_elem?, ◌==◌, if◌then◌else◌,
}
use srt_rs.Packet.Instant.{Instant, Duration, from_millis, from_micros, plus}
use srt_rs.Packet.SeqNumber
use srt_rs.Packet.SeqNumber.{SeqNumber}
use srt_rs.Packet.TimeStamp
use srt_rs.Packet.TimeStamp.{TimeStamp}
use srt_rs.Packet.Data.{DataPacket}
use srt_rs.Receiver.RemoteClock
use srt_rs.Receiver.RemoteClock.{RemoteClock}

pub record LostPacket : Type 0 where
  pub data_sequence_number : SeqNumber
  pub feedback_time : Instant
  pub k : ℤ

unfoldable pub new_lost : SeqNumber → Instant → LostPacket
new_lost seq_number now = record {
  data_sequence_number = seq_number;
  feedback_time = now;
  k = pos 2;
}

pub data BufferPacket : Type 0 where
  lost : LostPacket → BufferPacket
  received : DataPacket → BufferPacket
  dropped : SeqNumber → BufferPacket

unfoldable pub data_sequence_number : BufferPacket → SeqNumber
data_sequence_number (lost l) = l.data_sequence_number
data_sequence_number (received d) = d.seq_number
data_sequence_number (dropped seq_number) = seq_number

-- `data_packet` and `into_data_packet`
unfoldable pub data_packet : BufferPacket → Option DataPacket
data_packet (received d) = some d
data_packet (lost l) = none
data_packet (dropped seq_number) = none

unfoldable pub in_message : ℕ → BufferPacket → Bool
in_message message (received d) = d.message_number == message
in_message message (lost l) = false
in_message message (dropped seq_number) = false

unfoldable pub is_first : BufferPacket → Bool
is_first (received d) = d.message_loc.first
is_first (lost l) = false
is_first (dropped seq_number) = false

unfoldable pub lost_or_dropped : BufferPacket → Option SeqNumber
lost_or_dropped (lost l) = some l.data_sequence_number
lost_or_dropped (dropped seq_number) = some seq_number
lost_or_dropped (received d) = none

pub record ReceiveBuffer (S : Type 0) : Type 0 where
  pub tsbpd_latency : Duration
  pub tsbpd_tolerance : Duration
  pub lrsn : SeqNumber
  pub seqno0 : SeqNumber
  pub too_late_packet_drop : Bool
  pub remote_clock : RemoteClock S
  pub buffer : List BufferPacket
  pub max_buffer_size : ℕ

module _ {S : Type 0} where
  unfoldable pub new : Instant → Duration → Bool → SeqNumber → ℕ → ReceiveBuffer S
  unfolding RemoteClock.new
  new socket_start_time tsbpd_latency too_late_packet_drop init_seq_num max_buffer_size = record {
    tsbpd_latency = tsbpd_latency;
    tsbpd_tolerance = from_millis 5;
    lrsn = init_seq_num;
    seqno0 = init_seq_num;
    too_late_packet_drop = too_late_packet_drop;
    remote_clock = RemoteClock.new socket_start_time;
    buffer = [];
    max_buffer_size = max_buffer_size;
  }

  unfoldable pub is_empty : ReceiveBuffer S → Bool
  is_empty r = length r.buffer == 0

  unfoldable pub next_ack_dsn : ReceiveBuffer S → SeqNumber
  next_ack_dsn r = r.lrsn

  unfoldable pub clear : ReceiveBuffer S → ReceiveBuffer S
  clear r = record r { buffer = [] }

  -- The buffer never outgrows its limit, so the subtraction does not wrap (`IsValid`).
  unfoldable pub buffer_available : ReceiveBuffer S → ℕ
  buffer_available r = r.max_buffer_size - length r.buffer

  unfoldable pub next_packet_dsn : ReceiveBuffer S → SeqNumber
  unfolding SeqNumber.add
  next_packet_dsn r = SeqNumber.add r.seqno0 (length r.buffer)

  unfoldable pub index_for_seqno : ReceiveBuffer S → SeqNumber → Option ℕ
  unfolding SeqNumber.lt SeqNumber.distance
  index_for_seqno r seq_number =
      if SeqNumber.lt seq_number r.seqno0
      then none
      else some (SeqNumber.distance seq_number r.seqno0)

  unfoldable pub clamped_index_for_seqno : ReceiveBuffer S → SeqNumber → ℕ
  unfolding SeqNumber.saturating_sub
  clamped_index_for_seqno r seq_number =
      min (SeqNumber.saturating_sub seq_number r.seqno0) (length r.buffer)

-- The number of packets at the front that have been received, which is `lost_list_index`.
unfoldable pub lost_list_index : List BufferPacket → ℕ
lost_list_index [] = 0
lost_list_index (received d ∷ rest) = suc (lost_list_index rest)
lost_list_index (lost l ∷ rest) = 0
lost_list_index (dropped seq_number ∷ rest) = 0

-- The first packet that is lost or dropped, if any.
unfoldable pub first_lost_or_dropped : List BufferPacket → Option SeqNumber
unfolding lost_or_dropped
first_lost_or_dropped [] = none
first_lost_or_dropped (p ∷ rest) = elim (lost_or_dropped p) [
  | some seq_number ↦ some seq_number
  | none ↦ first_lost_or_dropped rest
]

-- The time between two received packets; a negative one is `unwrap_or(0)`.
unfoldable pub received_time : Option BufferPacket → Option BufferPacket → Duration
unfolding TimeStamp.diff
received_time (some (received s)) (some (received e)) =
    from_micros (pos_part (TimeStamp.diff e.timestamp s.timestamp))
received_time _ _ = 0

module _ {S : Type 0} where
  -- The first packet that is ready to be released at a time, and its time.
  unfoldable pub next_message_release_time : ReceiveBuffer S → Option Instant
  unfolding RemoteClock.instant_from is_first
  next_message_release_time r = elim r.buffer [
    | [] ↦ none
    | received d ∷ rest ↦
        if d.message_loc.first
        then some (plus (RemoteClock.instant_from r.remote_clock d.timestamp) r.tsbpd_latency)
        else none
    | _ ↦ none
  ]

  unfoldable pub rx_acknowledged_time : ReceiveBuffer S → Duration
  unfolding received_time clamped_index_for_seqno SeqNumber.sub
  rx_acknowledged_time r =
      received_time (get_elem? r.buffer 0)
        (get_elem? r.buffer (clamped_index_for_seqno r (SeqNumber.sub r.lrsn 1)))
