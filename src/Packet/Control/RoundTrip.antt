-- ===== src/Packet/Control/RoundTrip.antt =====
-- The control packets survive the wire.
use srt_rs.Prelude.{
  ℕ, ◌+◌, ◌%◌, ◌^◌, ◌<◌, ◌≡◌, refl, ap, ap₂, ◌∙◌, Bool, some, List, [], ◌++◌, arith,
}
use srt_rs.Packet.Srt.{type_id}
use srt_rs.Packet.Control.{
  ControlTypes, ControlPacket, handshake, keep_alive, ack, nak, congestion_warning, shutdown, ack2,
  drop_request, peer_error, srt, lite, small, full,
}
use srt_rs.Packet.Control.Ack.RoundTrip.{IsAck}
use srt_rs.Packet.Control.Codec.{parse, serialize, deserialize, id_byte, reserved, additional_info}
use srt_rs.Packet.Control.Content.{IsContent, content}
use srt_rs.Packet.Wire.{Wire, ok, u16, u32}
use srt_rs.Packet.Wire.Laws.{bind_ok, bind-put}

module _ (wire : Wire) (is_ipv6 : Bool) where
  pub id_small : (c : ControlTypes) → id_byte c < 2 ^ 15
  unfolding id_byte
  id_small c = ground arith

  reserved_small : (c : ControlTypes) → reserved c < 2 ^ 16
  unfolding reserved type_id
  reserved_small c = ground arith

  info_small : (c : ControlTypes) → IsContent wire is_ipv6 c → additional_info c < 2 ^ 32
  unfolding additional_info IsContent IsAck
  info_small (ack (full n stats fasn)) i = omega (arith, i.2)
  info_small (ack (lite n)) i = omega arith
  info_small (ack (small n stats)) i = omega arith
  info_small (drop_request m start end) i = omega (arith, i.0)
  info_small (ack2 n) i = i.1
  info_small (peer_error e) i = i
  info_small (handshake h) i = omega arith
  info_small keep_alive i = omega arith
  info_small (nak l) i = omega arith
  info_small congestion_warning i = omega arith
  info_small shutdown i = omega arith
  info_small (srt p) i = omega arith

  -- The header is read as it was put.
  header_lem :
      (c : ControlTypes) (i : IsContent wire is_ipv6 c)
      → deserialize wire
          ((id_byte c + 2 ^ 15) % 2 ^ 16 % 2 ^ 15)
          (reserved c % 2 ^ 16)
          (additional_info c % 2 ^ 32)
          is_ipv6
          (content wire is_ipv6 c i).bytes
        ≡ ok c []
  header_lem c i =
      let id : (id_byte c + 2 ^ 15) % 2 ^ 16 % 2 ^ 15 ≡ id_byte c = omega (arith, id_small c) in
      let bits : reserved c % 2 ^ 16 ≡ reserved c = omega (arith, reserved_small c) in
      let info : additional_info c % 2 ^ 32 ≡ additional_info c = omega (arith, info_small c i) in
      ap₂
        (λ t r.
          deserialize wire t r (additional_info c % 2 ^ 32) is_ipv6
            (content wire is_ipv6 c i).bytes)
        id bits
      ∙ (ap
            (λ n.
              deserialize wire (id_byte c) (reserved c) n is_ipv6 (content wire is_ipv6 c i).bytes)
            info
          ∙ (content wire is_ipv6 c i).back)

  -- A control packet with its fields in range is serialized without a panic, and parsing the bytes
  -- gives it back and leaves none over.
  pub parse-serialize_control :
      (p : ControlPacket)
      → p.timestamp < 2 ^ 32
      → p.dest_sockid < 2 ^ 32
      → IsContent wire is_ipv6 p.control_type
      → (bytes : List ℕ) × (serialize wire p ≡ some bytes) × (parse wire is_ipv6 bytes ≡ ok p [])
  unfolding serialize parse
  parse-serialize_control p ht hd i =
      let c = content wire is_ipv6 p.control_type i in
      let id = id_byte p.control_type in
      (
        wire.put u16 (id + 2 ^ 15)
            ++ (wire.put u16 (reserved p.control_type)
                ++ (wire.put u32 (additional_info p.control_type)
                    ++ (wire.put u32 p.timestamp ++ (wire.put u32 p.dest_sockid ++ c.bytes)))),
        rw c.put refl,
        bind-put wire u16 (id + 2 ^ 15) _ _
            ∙ (bind-put wire u16 (reserved p.control_type) _ _
                ∙ (bind-put wire u32 (additional_info p.control_type) _ _
                    ∙ (bind-put wire u32 p.timestamp _ _
                        ∙ (bind-put wire u32 p.dest_sockid _ _
                            ∙ (bind_ok
                                  (deserialize wire ((id + 2 ^ 15) % 2 ^ 16 % 2 ^ 15)
                                    (reserved p.control_type % 2 ^ 16)
                                    (additional_info p.control_type % 2 ^ 32) is_ipv6)
                                  _ (header_lem p.control_type i)
                                ∙ ground (arith, ht, hd)))))),
      )
