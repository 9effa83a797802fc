-- ===== src/Packet/Codec.antt =====
-- srt-protocol/src/packet/mod.rs: a packet, which is data or control, as a datagram.
pub mod RoundTrip
pub mod Ends
mod Tests
use srt_rs.Prelude.{
  ℕ, ◌/◌, ◌%◌, Bool, true, false, Option, some, none, List, [], ◌∷◌, ◌==◌, ltb, if◌then◌else◌,
}
use srt_rs.Packet.TimeStamp.{TimeStamp}
use srt_rs.Packet.Data.{DataPacket}
use srt_rs.Packet.Data as Data
use srt_rs.Packet.Data.Codec as DataCodec
use srt_rs.Packet.Control.{ControlPacket, ControlTypes, handshake}
use srt_rs.Packet.Control.Codec as ControlCodec
use srt_rs.Packet.Wire.{Wire, Parser, ◌>>=◌, give, fail, remaining, not_enough_data}

pub data Packet : Type 0 where
  data_packet : DataPacket → Packet
  control_packet : ControlPacket → Packet

unfoldable pub timestamp : Packet → TimeStamp
timestamp (data_packet d) = d.timestamp
timestamp (control_packet c) = c.timestamp

unfoldable pub dest_sockid : Packet → ℕ
dest_sockid (data_packet d) = d.dest_sockid
dest_sockid (control_packet c) = c.dest_sockid

abbrev is_handshake_type : ControlTypes → Bool
is_handshake_type (handshake h) = true
is_handshake_type _ = false

unfoldable pub is_handshake : Packet → Bool
is_handshake (data_packet d) = false
is_handshake (control_packet c) = is_handshake_type c.control_type

-- `none` is the panic on the size of a rejection.
unfoldable pub wire_size : Packet → Option ℕ
unfolding Data.wire_size ControlCodec.wire_size
wire_size (data_packet d) = some (Data.wire_size d)
wire_size (control_packet c) = ControlCodec.wire_size c

-- `chunk()[0]` of a buffer that is not empty
abbrev pub first : List ℕ → ℕ
first [] = 0
first (b ∷ rest) = b

module _ (wire : Wire) where
  unfoldable pub parse : Bool → Parser Packet
  parse is_ipv6 =
      let kind : Parser Packet = λ buf.
        (if first buf / 128 % 2 == 0
            then DataCodec.parse wire >>= (λ d. give (data_packet d))
            else ControlCodec.parse wire is_ipv6 >>= (λ c. give (control_packet c)))
          buf in
      remaining >>= λ left. if ltb left 16 then fail not_enough_data else kind

  -- `none` is a panic.
  unfoldable pub serialize : Packet → Option (List ℕ)
  serialize (control_packet c) = ControlCodec.serialize wire c
  serialize (data_packet d) = DataCodec.serialize wire d
