-- ===== src/Sender/Buffer/Send.antt =====
-- srt-protocol/src/protocol/sender/buffer.rs: sending packets, dropping those that are too late,
-- and the iterator of the sender's actions. An outer `none` is the panic of a lost packet that
-- is not in the buffer, or of a drain past its end.
use srt_rs.Prelude.{
  ℕ, ◌+◌, ◌-◌, ◌*◌, ◌%◌, Bool, true, Option, none, some, List, [], ◌∷◌, ◌&&◌, ◌||◌, ◌==◌,
  if◌then◌else◌, get_elem?, set, drop, pos, length, ltb,
}
use srt_rs.Packet.Instant.{Duration}
use srt_rs.Packet.SeqNumber
use srt_rs.Packet.SeqNumber.{SeqNumber}
use srt_rs.Packet.TimeSpan
use srt_rs.Packet.TimeSpan.{TimeSpan}
use srt_rs.Packet.TimeStamp
use srt_rs.Packet.TimeStamp.{TimeStamp}
use srt_rs.Packet.Data.{DataPacket, wire_size}
use srt_rs.Time.Rtt.{Rtt}
use srt_rs.Time.Timers.{syn}
use srt_rs.Sender.Buffer.{RtoQueue, SendBufferEntry, SendBuffer, front_packet}

-- RTT + 4 * RTTVar + 2 * SYN, and what it is for a packet sent some times before.
unfoldable pub rto_constant : Rtt → TimeSpan
unfolding TimeSpan.add TimeSpan.mul TimeSpan.add_duration
rto_constant rtt =
    TimeSpan.add_duration (TimeSpan.add rtt.mean (TimeSpan.mul rtt.variance (pos 4))) (2 * syn)

unfoldable pub rto_of : Rtt → ℕ → TimeSpan
unfolding rto_constant TimeSpan.mul TimeSpan.add_duration
rto_of rtt transmit_count =
    if transmit_count == 0
    then rto_constant rtt
    else TimeSpan.add_duration (TimeSpan.mul (rto_constant rtt) (pos transmit_count)) syn

unfoldable pub sent_once_more : SendBufferEntry → SendBufferEntry
sent_once_more e = record {
  packet = record e.packet { retransmitted = true };
  transmit_count = e.transmit_count + 1;
}

-- Whether the time of a packet is past.
unfoldable pub is_too_late : TimeStamp → Duration → SendBufferEntry → Bool
unfolding TimeStamp.lt TimeStamp.add_duration
is_too_late ts_now latency_window e =
    TimeStamp.lt (TimeStamp.add_duration e.packet.timestamp latency_window) ts_now

-- The loop of `drop_too_late_packets`: the last number to drop.
unfoldable pub last_too_late :
    TimeStamp → Duration → ℕ → SeqNumber → List SendBufferEntry → SeqNumber
unfolding is_too_late
last_too_late ts_now latency_window message last [] = last
last_too_late ts_now latency_window message last (e ∷ rest) =
    let late = is_too_late ts_now latency_window e in
    let message' = if late then e.packet.message_number else message in
    let further = last_too_late ts_now latency_window message' e.packet.seq_number rest in
    if late || (e.packet.message_number == message) then further else last

-- `drop_range.contains`, on a range of sequence numbers
unfoldable pub in_range : SeqNumber → SeqNumber → SeqNumber → Bool
unfolding SeqNumber.lt SeqNumber.le
in_range first end seq = SeqNumber.le first seq && SeqNumber.lt seq end

unfoldable pub without_range : SeqNumber → SeqNumber → List SeqNumber → List SeqNumber
unfolding in_range
without_range first end [] = []
without_range first end (x ∷ xs) =
    let rest = without_range first end xs in if in_range first end x then rest else x ∷ xs

pub data SenderAction : Type 0 where
  send : DataPacket → SenderAction
  retransmit_rto : DataPacket → SenderAction
  retransmit_nak : DataPacket → SenderAction
  drop_range : SeqNumber → SeqNumber → SenderAction
  wait_for_input : SenderAction
  wait_for_ack : ℕ → ℕ → SenderAction

module _ {Q : Type 0} where
  -- The outer `none` is the panic of a `drain` past the end.
  unfoldable pub drop_from :
      SendBuffer Q
      → TimeStamp
      → SendBufferEntry
      → Option (SendBuffer Q × Option (SeqNumber × SeqNumber))
  unfolding last_too_late without_range SeqNumber.later SeqNumber.add SeqNumber.distance is_too_late
  drop_from s ts_now front =
      let first = front.packet.seq_number in
      let last = last_too_late ts_now s.latency_window front.packet.message_number first s.buffer in
      let end = SeqNumber.add last 1 in
      let count = SeqNumber.distance last first + 1 in
      if is_too_late ts_now s.latency_window front
      then if ltb (length s.buffer) count
        then none
        else some (
          record s {
            buffer = drop count s.buffer;
            lost_list = without_range first end s.lost_list;
            next_send = SeqNumber.later s.next_send end;
          },
          some (first, end),
        )
      else some (s, none)

  unfoldable pub drop_entries :
      SendBuffer Q
      → TimeStamp
      → List SendBufferEntry
      → Option (SendBuffer Q × Option (SeqNumber × SeqNumber))
  unfolding drop_from
  drop_entries s ts_now [] = some (s, none)
  drop_entries s ts_now (front ∷ rest) = drop_from s ts_now front

  unfoldable pub drop_too_late_packets :
      SendBuffer Q → TimeStamp → Option (SendBuffer Q × Option (SeqNumber × SeqNumber))
  unfolding drop_entries
  drop_too_late_packets s ts_now = drop_entries s ts_now s.buffer

module _ (o : RtoQueue) where
  open o use {Queue}

  -- `send_packet` from the entry on, at its index.
  unfoldable pub send_entry :
      SendBuffer Queue
      → TimeStamp
      → SeqNumber
      → ℕ
      → Option SendBufferEntry
      → SendBuffer Queue × Option DataPacket
  unfolding rto_of sent_once_more TimeStamp.add
  send_entry s ts_now seq_number index none = (s, none)
  send_entry s ts_now seq_number index (some e) = (
    record s {
      rto_queue =
          o.push s.rto_queue seq_number (TimeStamp.add ts_now (rto_of s.rtt e.transmit_count));
      buffer = set s.buffer index (sent_once_more e);
    },
    some e.packet,
  )

  unfoldable pub send_after :
      SendBuffer Queue
      → TimeStamp
      → SeqNumber
      → Option SeqNumber
      → SendBuffer Queue × Option DataPacket
  unfolding send_entry SeqNumber.distance
  send_after s ts_now seq_number none = (s, none)
  send_after s ts_now seq_number (some front) =
      let index = SeqNumber.distance seq_number front in
      send_entry s ts_now seq_number index (get_elem? s.buffer index)

  unfoldable pub send_packet :
      SendBuffer Queue → TimeStamp → SeqNumber → SendBuffer Queue × Option DataPacket
  unfolding send_after front_packet
  send_packet s ts_now seq_number = send_after s ts_now seq_number (front_packet s)

  -- The number to send next is incremented if a packet was sent.
  unfoldable pub advance :
      SendBuffer Queue × Option DataPacket → SendBuffer Queue × Option DataPacket
  unfolding SeqNumber.add
  advance (s, none) = (s, none)
  advance (s, some p) = (record s { next_send = SeqNumber.add s.next_send 1 }, some p)

  unfoldable pub send_next_packet :
      SendBuffer Queue → TimeStamp → SendBuffer Queue × Option DataPacket
  unfolding send_packet advance
  send_next_packet s ts_now = advance (send_packet s ts_now s.next_send)

  unfoldable pub send_next_16n_packet :
      SendBuffer Queue → TimeStamp → SendBuffer Queue × Option DataPacket
  unfolding send_next_packet
  send_next_16n_packet s ts_now =
      if s.next_send % 16 == 0 then send_next_packet s ts_now else (s, none)

  -- The outer `none` is the panic.
  unfoldable pub send_lost :
      SendBuffer Queue → TimeStamp → List SeqNumber → Option (SendBuffer Queue × Option DataPacket)
  unfolding send_packet
  send_lost s ts_now [] = some (s, none)
  send_lost s ts_now (seq ∷ rest) =
      let (s', packet) = send_packet (record s { lost_list = rest }) ts_now seq in
      elim packet [ none ↦ none | some p ↦ some (s', some p) ]

  unfoldable pub send_next_lost_packet :
      SendBuffer Queue → TimeStamp → Option (SendBuffer Queue × Option DataPacket)
  unfolding send_lost
  send_next_lost_packet s ts_now = send_lost s ts_now s.lost_list

  unfoldable pub send_next_rto_packet :
      SendBuffer Queue → TimeStamp → SendBuffer Queue × Option DataPacket
  unfolding send_packet TimeStamp.lt
  send_next_rto_packet s ts_now = elim (o.peek s.rto_queue) [
    | none ↦ (s, none)
    | some (seq, rto) ↦ if TimeStamp.lt rto ts_now then send_packet s ts_now seq else (s, none)
  ]

  unfoldable pub flush_entries :
      SendBuffer Queue → List SendBufferEntry → SendBuffer Queue × Option DataPacket
  unfolding wire_size
  flush_entries s (e ∷ []) = (
    record s {
      buffer = [];
      rto_queue = o.remove s.rto_queue e.packet.seq_number;
      buffer_len_bytes = s.buffer_len_bytes - wire_size e.packet;
    },
    some e.packet,
  )
  flush_entries s _ = (s, none)

  unfoldable pub flush_on_close : SendBuffer Queue → Bool → SendBuffer Queue × Option DataPacket
  unfolding flush_entries
  flush_on_close s should_drain = if should_drain then flush_entries s s.buffer else (s, none)
