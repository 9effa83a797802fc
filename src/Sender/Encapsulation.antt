-- ===== src/Sender/Encapsulation.antt =====
-- srt-protocol/src/protocol/sender/encapsulate.rs: a message is split into packets. The iterator
-- borrows the next sequence number; here it hands the number back.
pub mod Whole
pub mod Received
use srt_rs.Prelude.{
  ℕ, zero, suc, ◌+◌, Bool, true, false, Option, none, some, List, [], ◌∷◌, ltb, if◌then◌else◌,
  length, take, drop,
}
use srt_rs.Packet.ModularNum
use srt_rs.Packet.SeqNumber
use srt_rs.Packet.SeqNumber.{SeqNumber}
use srt_rs.Packet.TimeStamp.{TimeStamp}
use srt_rs.Packet.Data.{
  DataPacket, PacketLocation, DataEncryption, middle, first_packet, last_packet, union,
}

-- `modular_num!(MsgNumber(u32, 26))`
abbrev pub MsgNumber : Type 0
MsgNumber = ℕ

unfoldable pub next_message_number : MsgNumber → MsgNumber
unfolding ModularNum.add
next_message_number n = ModularNum.add 26 n 1

pub record Encapsulation : Type 0 where
  pub remote_socket_id : ℕ
  pub max_packet_size : ℕ
  pub next_message_number : MsgNumber
  pub next_sequence_number : SeqNumber

pub record MessageIterator : Type 0 where
  pub next_sequence_number : SeqNumber
  pub remote_socket_id : ℕ
  pub max_packet_size : ℕ
  pub remaining : List ℕ
  pub packet_location : PacketLocation
  pub message_number : MsgNumber
  pub timestamp : TimeStamp

unfoldable pub new : ℕ → ℕ → SeqNumber → Encapsulation
new remote_sockid max_packet_size init_seq_num = record {
  remote_socket_id = remote_sockid;
  max_packet_size = max_packet_size;
  next_message_number = 0;
  next_sequence_number = init_seq_num;
}

-- The packet of `next` with a payload and a location.
unfoldable pub packet_of : MessageIterator → List ℕ → PacketLocation → DataPacket
packet_of it payload message_loc = record {
  dest_sockid = it.remote_socket_id;
  in_order_delivery = false;
  encryption = DataEncryption.none;
  retransmitted = false;
  message_number = it.message_number;
  seq_number = it.next_sequence_number;
  timestamp = it.timestamp;
  message_loc = message_loc;
  payload = payload;
}

unfoldable pub next_packet : MessageIterator → DataPacket × MessageIterator
unfolding packet_of SeqNumber.add
next_packet it =
    if ltb it.max_packet_size (length it.remaining)
    then (
      packet_of it (take it.max_packet_size it.remaining) it.packet_location,
      record it {
        next_sequence_number = SeqNumber.add it.next_sequence_number 1;
        remaining = drop it.max_packet_size it.remaining;
        packet_location = middle;
      },
    )
    else let location = union it.packet_location last_packet in
      (
        packet_of it it.remaining location,
        record it {
          next_sequence_number = SeqNumber.add it.next_sequence_number 1;
          remaining = [];
          packet_location = location;
        },
      )

unfoldable pub next : MessageIterator → Option (DataPacket × MessageIterator)
unfolding next_packet
next it = if it.packet_location.last then none else some (next_packet it)

-- The packets that a consumer takes from the iterator, with fuel; `none` is out of fuel.
unfoldable pub packets : ℕ → MessageIterator → Option (List DataPacket × MessageIterator)
unfolding next
packets zero it = none
packets (suc fuel) it = elim (next it) [
  | none ↦ some ([], it)
  | some (p, it') ↦ elim (packets fuel it') [ none ↦ none | some (ps, it'') ↦ some (p ∷ ps, it'') ]
]

unfoldable pub message_iterator : Encapsulation → TimeStamp → List ℕ → MessageIterator
message_iterator e timestamp bytes = record {
  next_sequence_number = e.next_sequence_number;
  remote_socket_id = e.remote_socket_id;
  max_packet_size = e.max_packet_size;
  remaining = bytes;
  packet_location = first_packet;
  message_number = e.next_message_number;
  timestamp = timestamp;
}

-- `encapsulate`, with all its packets taken.
unfoldable pub encapsulate :
    ℕ → Encapsulation → TimeStamp → List ℕ → Option (List DataPacket × Encapsulation)
unfolding message_iterator packets next_message_number
encapsulate fuel e timestamp bytes = elim (packets fuel (message_iterator e timestamp bytes)) [
  | none ↦ none
  | some (ps, it) ↦ some (
    ps,
    record e {
      next_message_number = next_message_number e.next_message_number;
      next_sequence_number = it.next_sequence_number;
    },
  )
]
