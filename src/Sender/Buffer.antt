-- ===== src/Sender/Buffer.antt =====
-- srt-protocol/src/protocol/sender/buffer.rs: the send buffer, its queries, and how it takes data
-- and acknowledgements. The package `keyed_priority_queue` is the parameter `RtoQueue`, and the
-- ordered set of lost numbers is a list in increasing order.
pub mod Send
pub mod Algorithm
pub mod Loss
pub mod Bytes
pub mod Stall
use srt_rs.Prelude.{
  ℕ, zero, suc, ◌+◌, ◌-◌, ◌*◌, ◌/◌, ◌%◌, ◌^◌, max, Bool, true, false, Option, none, some, or_else,
  List, [], ◌∷◌, ◌++◌, Ordering, ◌||◌, ◌&&◌, not, ltb, ◌==◌, if◌then◌else◌, length, get_elem?,
  pos_part,
}
use srt_rs.Packet.Instant.{Duration, from_micros, from_secs}
use srt_rs.Packet.SeqNumber
use srt_rs.Packet.SeqNumber.{SeqNumber}
use srt_rs.Packet.TimeStamp
use srt_rs.Packet.TimeStamp.{TimeStamp}
use srt_rs.Packet.Data.{DataPacket, wire_size}
use srt_rs.Time.Rtt
use srt_rs.Time.Rtt.{Rtt}

-- What the buffer asks of its queue of retransmission timeouts: a number has one priority, its
-- deadline and then itself, and the least priority is in front.
pub record RtoQueue : Type 1 where
  pub Queue : Type 0
  pub empty : Queue
  pub push : Queue → SeqNumber → TimeStamp → Queue
  pub remove : Queue → SeqNumber → Queue
  pub peek : Queue → Option (SeqNumber × TimeStamp)

pub record SendBufferEntry : Type 0 where
  pub packet : DataPacket
  pub transmit_count : ℕ

-- A full acknowledgement has a `u32` from 1 on.
abbrev pub FullAckSeqNumber : Type 0
FullAckSeqNumber = ℕ

pub record SendBuffer (Q : Type 0) : Type 0 where
  pub latency_window : Duration
  pub flow_window_size : ℕ
  pub buffer : List SendBufferEntry
  pub max_buffer_size : ℕ
  pub buffer_len_bytes : ℕ
  pub next_send : SeqNumber
  pub next_full_ack : FullAckSeqNumber
  pub lost_list : List SeqNumber
  pub rtt : Rtt
  pub rto_queue : Q

pub data AckError : Type 0 where
  invalid_full_ack : FullAckSeqNumber → FullAckSeqNumber → AckError
  invalid_ack : SeqNumber → SeqNumber → SeqNumber → AckError
  send_buffer_empty : AckError

pub record AckAction : Type 0 where
  pub received : ℕ
  pub recovered : ℕ
  pub send_ack2 : Option FullAckSeqNumber

pub data AckResult : Type 0 where
  ok : AckAction → AckResult
  err : AckError → AckResult

-- `BTreeSet::insert`
unfoldable pub insert : SeqNumber → List SeqNumber → List SeqNumber
unfolding SeqNumber.cmp
insert x [] = x ∷ []
insert x (y ∷ ys) =
    let rest = insert x ys in
    elim (SeqNumber.cmp x y) [
      | Ordering.lt ↦ x ∷ y ∷ ys
      | Ordering.eq ↦ y ∷ ys
      | Ordering.gt ↦ y ∷ rest
    ]

-- Without the first: `pop_lost_list` of the source, on the list.
unfoldable pub without_first : List SeqNumber → List SeqNumber
without_first [] = []
without_first (x ∷ xs) = xs

unfoldable pub front_of : List SendBufferEntry → Option SeqNumber
front_of [] = none
front_of (e ∷ rest) = some e.packet.seq_number

unfoldable pub last_of : List SendBufferEntry → Option SendBufferEntry
last_of [] = none
last_of (e ∷ rest) = some (or_else (last_of rest) e)

unfoldable pub is_first_lost : SeqNumber → List SeqNumber → Bool
is_first_lost seq_number [] = false
is_first_lost seq_number (x ∷ xs) = x == seq_number

-- The loop over `peek_next_lost` and `pop_lost_list`: the numbers left, and how many were popped.
unfoldable pub pop_recovered : SeqNumber → List SeqNumber → List SeqNumber × ℕ
unfolding SeqNumber.lt
pop_recovered ack_number [] = ([], 0)
pop_recovered ack_number (x ∷ xs) =
    let (rest, n) = pop_recovered ack_number xs in
    if SeqNumber.lt x ack_number then (rest, suc n) else (x ∷ xs, 0)

-- A new entry has not been sent.
abbrev pub new_entry : DataPacket → SendBufferEntry
new_entry packet = record { packet = packet; transmit_count = 0 }

-- A negative difference is `unwrap_or(0)`.
unfoldable pub duration_between : Option SendBufferEntry → Option SendBufferEntry → Duration
unfolding TimeStamp.diff
duration_between (some f) (some l) =
    from_micros (pos_part (TimeStamp.diff l.packet.timestamp f.packet.timestamp))
duration_between _ _ = 0

module _ {Q : Type 0} where
  unfoldable pub append : SendBuffer Q → DataPacket → SendBuffer Q
  unfolding wire_size
  append s packet = record s {
    buffer_len_bytes = s.buffer_len_bytes + wire_size packet;
    buffer = s.buffer ++ new_entry packet ∷ [];
  }

  -- The packet in front makes room; it leaves the lost list if it is its first.
  unfoldable pub drop_front : SendBuffer Q → SendBufferEntry → List SendBufferEntry → SendBuffer Q
  unfolding wire_size is_first_lost without_first
  drop_front s entry rest = record s {
    buffer = rest;
    buffer_len_bytes = s.buffer_len_bytes - wire_size entry.packet;
    lost_list =
        if is_first_lost entry.packet.seq_number s.lost_list
        then without_first s.lost_list
        else s.lost_list;
  }

  -- The full buffer, by its packets. The result is the packets and bytes dropped, if any.
  unfoldable pub push_full :
      SendBuffer Q → DataPacket → List SendBufferEntry → SendBuffer Q × Option (ℕ × ℕ)
  unfolding append drop_front
  push_full s packet [] = (append s packet, none)
  push_full s packet (entry ∷ rest) =
      (append (drop_front s entry rest) packet, some (1, wire_size entry.packet))

  unfoldable pub push_data : SendBuffer Q → DataPacket → SendBuffer Q × Option (ℕ × ℕ)
  unfolding push_full
  push_data s packet =
      if ltb (length s.buffer) s.max_buffer_size
      then (append s packet, none)
      else push_full s packet s.buffer

  unfoldable pub front_packet : SendBuffer Q → Option SeqNumber
  unfolding front_of
  front_packet s = front_of s.buffer

  unfoldable pub get_from : SendBuffer Q → SeqNumber → Option SeqNumber → Option SendBufferEntry
  unfolding SeqNumber.distance
  get_from s seq none = none
  get_from s seq (some front) = get_elem? s.buffer (SeqNumber.distance seq front)

  unfoldable pub get : SendBuffer Q → SeqNumber → Option SendBufferEntry
  unfolding get_from front_packet
  get s seq = get_from s seq (front_packet s)

  unfoldable pub is_flushed : SendBuffer Q → Bool
  is_flushed s = (length s.lost_list == 0) && (length s.buffer == 0)

  unfoldable pub has_packets_to_send : SendBuffer Q → Bool
  unfolding get
  has_packets_to_send s =
      (elim (get s s.next_send) [ none ↦ false | some e ↦ true ]) || not (length s.lost_list == 0)

  unfoldable pub duration : SendBuffer Q → Duration
  unfolding duration_between last_of
  duration s = duration_between (get_elem? s.buffer 0) (last_of s.buffer)

  unfoldable pub number_of_unacked_packets : SendBuffer Q → ℕ
  unfolding front_of SeqNumber.distance
  number_of_unacked_packets s = elim (front_of s.buffer) [
    | none ↦ 0
    | some front ↦ SeqNumber.distance s.next_send front
  ]

  unfoldable pub flow_window_exceeded : SendBuffer Q → Bool
  unfolding number_of_unacked_packets
  flow_window_exceeded s = ltb s.flow_window_size (number_of_unacked_packets s)

module _ (o : RtoQueue) where
  open o use {Queue}

  -- The loop that pops the packets before the number acknowledged: the packets left, the queue
  -- and the bytes, and how many were popped.
  unfoldable pub pop_received :
      SeqNumber → List SendBufferEntry → Queue → ℕ → List SendBufferEntry × Queue × ℕ × ℕ
  unfolding SeqNumber.lt wire_size
  pop_received ack_number [] queue bytes = ([], queue, bytes, 0)
  pop_received ack_number (e ∷ rest) queue bytes =
      let (rest', queue', bytes', n) =
        pop_received ack_number rest (o.remove queue e.packet.seq_number)
          (bytes - wire_size e.packet) in
      if SeqNumber.lt e.packet.seq_number ack_number
      then (rest', queue', bytes', suc n)
      else (e ∷ rest, queue, bytes, 0)

  -- The end of an acknowledgement that is accepted.
  unfoldable pub acknowledge :
      SendBuffer Queue → SeqNumber → Option FullAckSeqNumber → SendBuffer Queue × AckResult
  unfolding pop_recovered pop_received
  acknowledge s ack_number full_ack =
      let (lost_list, recovered) = pop_recovered ack_number s.lost_list in
      let (buffer, queue, bytes, received) =
        pop_received ack_number s.buffer s.rto_queue s.buffer_len_bytes in
      (
        record s {
          lost_list = lost_list;
          buffer = buffer;
          rto_queue = queue;
          buffer_len_bytes = bytes;
        },
        ok (record { received = received; recovered = recovered; send_ack2 = full_ack }),
      )

  unfoldable pub check_full_ack :
      SendBuffer Queue → SeqNumber → Option FullAckSeqNumber → SendBuffer Queue × AckResult
  unfolding acknowledge
  check_full_ack s ack_number none = acknowledge s ack_number none
  check_full_ack s ack_number (some received_full_ack) =
      if ltb received_full_ack s.next_full_ack
      then (s, err (invalid_full_ack received_full_ack s.next_full_ack))
      else acknowledge (record s { next_full_ack = (received_full_ack + 1) % 2 ^ 32 }) ack_number
          (some received_full_ack)

  unfoldable pub update_from :
      SendBuffer Queue
      → SeqNumber
      → Option FullAckSeqNumber
      → Option Rtt
      → Option SeqNumber
      → SendBuffer Queue × AckResult
  unfolding check_full_ack SeqNumber.lt SeqNumber.le
  update_from s ack_number full_ack rtt none = (s, err send_buffer_empty)
  update_from s ack_number full_ack rtt (some first) =
      if SeqNumber.lt ack_number first || not (SeqNumber.le ack_number s.next_send)
      then (s, err (invalid_ack ack_number first s.next_send))
      else check_full_ack (record s { rtt = or_else rtt s.rtt }) ack_number full_ack

  unfoldable pub update_largest_acked_seq_number :
      SendBuffer Queue
      → SeqNumber
      → Option FullAckSeqNumber
      → Option Rtt
      → SendBuffer Queue × AckResult
  unfolding update_from front_packet
  update_largest_acked_seq_number s ack_number full_ack rtt =
      update_from s ack_number full_ack rtt (front_packet s)
