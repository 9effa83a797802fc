-- ===== src/Packet/Data.antt =====
-- srt-protocol/src/packet/data.rs: a data packet. Bytes are numbers below 256.
pub mod Codec
pub mod RoundTrip
pub mod Total
use srt_rs.Prelude.{ℕ, ◌+◌, Bool, true, false, List, length, ◌||◌}
use srt_rs.Packet.SeqNumber.{SeqNumber}
use srt_rs.Packet.TimeStamp.{TimeStamp}

-- The two flags of `PacketLocation`: neither is the middle of a message, both its only packet.
pub record PacketLocation : Type 0 where
  pub first : Bool
  pub last : Bool

abbrev pub middle : PacketLocation
middle = record { first = false; last = false }

abbrev pub first_packet : PacketLocation
first_packet = record { first = true; last = false }

abbrev pub last_packet : PacketLocation
last_packet = record { first = false; last = true }

abbrev pub only_packet : PacketLocation
only_packet = record { first = true; last = true }

-- `|` on the flags
abbrev pub union : PacketLocation → PacketLocation → PacketLocation
union a b = record { first = a.first || b.first; last = a.last || b.last }

pub data DataEncryption : Type 0 where
  none even odd : DataEncryption

pub record DataPacket : Type 0 where
  pub seq_number : SeqNumber
  pub message_loc : PacketLocation
  pub in_order_delivery : Bool
  pub encryption : DataEncryption
  pub retransmitted : Bool
  pub message_number : ℕ
  pub timestamp : TimeStamp
  pub dest_sockid : ℕ
  pub payload : List ℕ

-- 20 bytes of IPv4, 8 of UDP and 16 of SRT header
abbrev pub header_size : ℕ
header_size = 44

unfoldable pub wire_size : DataPacket → ℕ
wire_size p = header_size + length p.payload
