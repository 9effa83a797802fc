-- ===== src/Packet/Codec/RoundTrip.antt =====
-- Every packet survives the wire.
use srt_rs.Prelude.{
  ℕ, ◌+◌, ◌*◌, ◌/◌, ◌%◌, ◌^◌, ◌<◌, ◌≤◌, ◌≡◌, refl, ap, ◌∙◌, Bool, true, false, Option, none, some,
  List, [], ◌++◌, length, arith, ◌==◌,
}
use srt_rs.Packet.Data.{DataPacket}
use srt_rs.Packet.Data.Codec as DataCodec
use srt_rs.Packet.Data.RoundTrip as DataRoundTrip
use srt_rs.Packet.Control.{ControlPacket}
use srt_rs.Packet.Control.Codec as ControlCodec
use srt_rs.Packet.Control.Content.{IsContent}
use srt_rs.Packet.Control.RoundTrip.{parse-serialize_control, id_small}
use srt_rs.Packet.Codec.{Packet, data_packet, control_packet, first, parse, serialize}
use srt_rs.Packet.Wire.{Wire, ok, u16, u32, to_bytes, fail, not_enough_data}
use srt_rs.Packet.Wire.Laws.{bind_ok, enough, length-put_front}

-- The fields of a packet fit their places.
unfoldable pub IsPacket : Wire → Bool → Packet → Type 0
IsPacket wire is_ipv6 (data_packet d) = DataRoundTrip.IsWire d
IsPacket wire is_ipv6 (control_packet c) =
    (c.timestamp < 2 ^ 32) × (c.dest_sockid < 2 ^ 32) × IsContent wire is_ipv6 c.control_type

module _ (wire : Wire) where
  first-u32 : (n : ℕ) (rest : List ℕ) → first (wire.put u32 n ++ rest) ≡ n / 2 ^ 24 % 256
  unfolding to_bytes
  first-u32 n rest = rw (wire.put_lem u32 n) refl

  first-u16 : (n : ℕ) (rest : List ℕ) → first (wire.put u16 n ++ rest) ≡ n / 256 % 256
  unfolding to_bytes
  first-u16 n rest = rw (wire.put_lem u16 n) refl

  -- A datagram is parsed by its first bit.
  module _ (is_ipv6 : Bool) (bytes : List ℕ) where
    parse_data :
        (d : DataPacket)
        → 16 ≤ length bytes
        → (first bytes / 128 % 2 == 0) ≡ true
        → DataCodec.parse wire bytes ≡ ok d []
        → parse wire is_ipv6 bytes ≡ ok (data_packet d) []
    unfolding parse
    parse_data d l t e =
        enough 16 (fail not_enough_data) _ bytes l ∙ rw t (bind_ok (DataCodec.parse wire) _ e)

    parse_control :
        (c : ControlPacket)
        → 16 ≤ length bytes
        → (first bytes / 128 % 2 == 0) ≡ false
        → ControlCodec.parse wire is_ipv6 bytes ≡ ok c []
        → parse wire is_ipv6 bytes ≡ ok (control_packet c) []
    unfolding parse
    parse_control c l t e =
        enough 16 (fail not_enough_data) _ bytes l
        ∙ rw t (bind_ok (ControlCodec.parse wire is_ipv6) _ e)

    -- The header of a data packet has a clear first bit, that of a control packet a set one.
    data_header :
        (d : DataPacket)
        → DataCodec.serialize wire d ≡ some bytes
        → (16 ≤ length bytes) × ((first bytes / 128 % 2 == 0) ≡ true)
    unfolding DataCodec.serialize
    data_header d e =
        let dest = wire.put u32 d.dest_sockid ++ d.payload in
        let stamp = wire.put u32 d.timestamp ++ dest in
        let word = d.message_number + DataCodec.flags d * 2 ^ 24 in
        let second = wire.put u32 word ++ stamp in
        let (low, same) : (d.seq_number < 2 ^ 31) × (wire.put u32 d.seq_number ++ second ≡ bytes) =
          ground (arith, e) in
        let top : (first (wire.put u32 d.seq_number ++ second) / 128 % 2 == 0) ≡ true =
          ground (arith, first-u32 d.seq_number second, low) in
        (
          omega (
            arith,
            ap length same,
            length-put_front wire u32 d.seq_number second,
            length-put_front wire u32 word stamp,
            length-put_front wire u32 d.timestamp dest,
            length-put_front wire u32 d.dest_sockid d.payload,
          ),
          rw same at top,
        )

    control_header :
        (c : ControlPacket) (content : Option (List ℕ))
        → ControlCodec.with_header wire c content ≡ some bytes
        → (16 ≤ length bytes) × ((first bytes / 128 % 2 == 0) ≡ false)
    control_header c none e = absurd (ground (arith, e))
    control_header c (some content) e =
        let id = ControlCodec.id_byte c.control_type in
        let dest = wire.put u32 c.dest_sockid ++ content in
        let stamp = wire.put u32 c.timestamp ++ dest in
        let info = wire.put u32 (ControlCodec.additional_info c.control_type) ++ stamp in
        let bits = wire.put u16 (ControlCodec.reserved c.control_type) ++ info in
        let same : wire.put u16 (id + 2 ^ 15) ++ bits ≡ bytes = cc in
        let top : (first (wire.put u16 (id + 2 ^ 15) ++ bits) / 128 % 2 == 0) ≡ false =
          ground (arith, first-u16 (id + 2 ^ 15) bits, id_small wire is_ipv6 c.control_type) in
        (
          omega (
            arith,
            ap length same,
            length-put_front wire u16 (id + 2 ^ 15) bits,
            length-put_front wire u16 (ControlCodec.reserved c.control_type) info,
            length-put_front wire u32 (ControlCodec.additional_info c.control_type) stamp,
            length-put_front wire u32 c.timestamp dest,
            length-put_front wire u32 c.dest_sockid content,
          ),
          rw same at top,
        )

  -- A packet whose fields fit their places is serialized without a panic, and parsing the datagram
  -- gives it back and leaves no bytes over.
  pub parse-serialize_packet :
      (is_ipv6 : Bool) (p : Packet)
      → IsPacket wire is_ipv6 p
      → (bytes : List ℕ) × (serialize wire p ≡ some bytes) × (parse wire is_ipv6 bytes ≡ ok p [])
  unfolding serialize IsPacket ControlCodec.serialize
  parse-serialize_packet is_ipv6 (data_packet d) h =
      let (bytes, put, back) = DataRoundTrip.parse-serialize wire d h in
      let (long, top) = data_header is_ipv6 bytes d put in
      (bytes, put, parse_data is_ipv6 bytes d long top back)
  parse-serialize_packet is_ipv6 (control_packet c) h =
      let (bytes, put, back) = parse-serialize_control wire is_ipv6 c h.0 h.1 h.2 in
      let (long, top) =
        control_header is_ipv6 bytes c (ControlCodec.put_content wire c.control_type) put in
      (bytes, put, parse_control is_ipv6 bytes c long top back)
