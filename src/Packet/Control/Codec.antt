-- ===== src/Packet/Control/Codec.antt =====
-- srt-protocol/src/packet/control/mod.rs: control packets are parsed and serialized.
use srt_rs.Prelude.{
  ℕ, zero, suc, ◌+◌, ◌*◌, ◌%◌, ◌^◌, Bool, Option, none, some, List, [], ◌∷◌, ◌++◌, length, ◌==◌,
  ltb, if◌then◌else◌,
}
use srt_rs.Packet.ModularNum
use srt_rs.Packet.SeqNumber
use srt_rs.Packet.Srt.{type_id}
use srt_rs.Packet.Srt.Codec as Srt
use srt_rs.Packet.Control.Ack as Ack
use srt_rs.Packet.Control.Handshake as Handshake
use srt_rs.Packet.Control.Handshake.Parse as HandshakeParse
use srt_rs.Packet.Control.{
  ControlTypes, ControlPacket, handshake, keep_alive, ack, nak, congestion_warning, shutdown, ack2,
  drop_request, peer_error, srt, full,
}
use srt_rs.Packet.Wire.{
  Wire, Parser, ◌>>=◌, give, fail, remaining, read, u16, u32, not_enough_data,
  zero_ack_sequence_number, bad_control_type,
}

unfoldable pub id_byte : ControlTypes → ℕ
id_byte (handshake h) = 0
id_byte keep_alive = 1
id_byte (ack a) = 2
id_byte (nak l) = 3
id_byte congestion_warning = 4
id_byte shutdown = 5
id_byte (ack2 n) = 6
id_byte (drop_request m start end) = 7
id_byte (peer_error e) = 8
id_byte (srt p) = 0x7fff

unfoldable pub additional_info : ControlTypes → ℕ
additional_info (drop_request m start end) = m
additional_info (ack2 n) = n
additional_info (ack (full n stats fasn)) = fasn
additional_info (peer_error e) = e
additional_info _ = 0

unfoldable pub reserved : ControlTypes → ℕ
unfolding type_id
reserved (srt p) = type_id p
reserved _ = 0

module _ (wire : Wire) where
  -- The unused word of a packet without content is dropped, if it is there.
  unfoldable pub discard_word : Parser (Unit {0})
  discard_word =
      let word = read wire u32 >>= (λ n. give tt) in
      remaining >>= λ left. if ltb left 4 then give tt else word

  -- Words while there are four bytes left, with fuel for the rounds.
  unfoldable pub words_left : ℕ → Parser (List ℕ)
  words_left zero = give []
  words_left (suc fuel) =
      let round = read wire u32 >>= λ word. words_left fuel >>= λ rest. give (word ∷ rest) in
      remaining >>= λ left. if ltb left 4 then give [] else round

  abbrev pub nonzero_ack2 : Option ℕ → Parser ControlTypes
  nonzero_ack2 none = fail zero_ack_sequence_number
  nonzero_ack2 (some n) = give (ack2 n)

  unfoldable pub read_drop : ℕ → Parser ControlTypes
  unfolding SeqNumber.new_truncate ModularNum.new_truncate
  read_drop extra_info =
      let message = ModularNum.new_truncate 26 extra_info in
      let words : Parser ControlTypes = read wire u32 >>= λ start. read wire u32 >>= λ end.
      give (drop_request message (SeqNumber.new_truncate start) (SeqNumber.new_truncate end)) in
      remaining >>= λ left. if ltb left 8 then fail not_enough_data else words

  -- The arms of `deserialize`, in its order.
  unfoldable pub deserialize : ℕ → ℕ → ℕ → Bool → Parser ControlTypes
  deserialize packet_type reserved_bits extra_info is_ipv6 =
      if packet_type == 0
      then HandshakeParse.parse wire is_ipv6 >>= (λ h. give (handshake h))
      else if packet_type == 1
      then discard_word >>= (λ _. give keep_alive)
      else if packet_type == 2
      then Ack.parse wire extra_info >>= (λ a. give (ack a))
      else if packet_type == 3
      then remaining >>= (λ left. words_left left >>= λ l. give (nak l))
      else if packet_type == 4
      then discard_word >>= (λ _. give congestion_warning)
      else if packet_type == 5
      then discard_word >>= (λ _. give shutdown)
      else if packet_type == 6
      then discard_word >>= (λ _. nonzero_ack2 (Ack.full_ack_of extra_info))
      else if packet_type == 7
      then read_drop extra_info
      else if packet_type == 8
      then discard_word >>= (λ _. give (peer_error extra_info))
      else if packet_type == 0x7fff
      then Srt.parse wire reserved_bits >>= (λ p. give (srt p))
      else fail (bad_control_type packet_type)

  -- The first bit of the type is cleared.
  unfoldable pub parse : Bool → Parser ControlPacket
  parse is_ipv6 = do
    control_type ← read wire u16
    reserved_bits ← read wire u16
    add_info ← read wire u32
    timestamp ← read wire u32
    dest_sockid ← read wire u32
    content ← deserialize (control_type % 2 ^ 15) reserved_bits add_info is_ipv6
    give (record { timestamp = timestamp; dest_sockid = dest_sockid; control_type = content })

  unfoldable pub put_words : List ℕ → List ℕ
  put_words [] = []
  put_words (w ∷ ws) = wire.put u32 w ++ put_words ws

  -- `none` is a panic in a handshake or the keys.
  unfoldable pub put_content : ControlTypes → Option (List ℕ)
  put_content (handshake h) = Handshake.serialize wire h
  put_content (ack a) = some (Ack.serialize wire a)
  put_content (nak l) = some (put_words l)
  put_content (drop_request m start end) = some (wire.put u32 start ++ wire.put u32 end)
  put_content (srt p) = Srt.serialize wire p
  put_content _ = some (wire.put u32 0)

  abbrev pub with_header : ControlPacket → Option (List ℕ) → Option (List ℕ)
  with_header p none = none
  with_header p (some content) = some (
      wire.put u16 (id_byte p.control_type + 2 ^ 15)
      ++ (wire.put u16 (reserved p.control_type)
          ++ (wire.put u32 (additional_info p.control_type)
              ++ (wire.put u32 p.timestamp ++ (wire.put u32 p.dest_sockid ++ content)))))

  unfoldable pub serialize : ControlPacket → Option (List ℕ)
  serialize p = with_header p (put_content p.control_type)

-- `header_size` counts the headers of IP and UDP too; `none` is the panic on a rejection.
abbrev pub header_size : ℕ
header_size = 44

abbrev pub words_size : Option ℕ → Option ℕ
words_size none = none
words_size (some n) = some (n * 4)

unfoldable pub content_size : ControlTypes → Option ℕ
unfolding Handshake.serialized_size Ack.serialized_size Srt.size_words
content_size (handshake h) = Handshake.serialized_size h
content_size (ack a) = some (Ack.serialized_size a)
content_size (nak l) = some (length l * 4)
content_size (drop_request m start end) = some 8
content_size (srt p) = words_size (Srt.size_words p)
content_size _ = some 4

abbrev pub plus_header : Option ℕ → Option ℕ
plus_header none = none
plus_header (some n) = some (header_size + n)

unfoldable pub wire_size : ControlPacket → Option ℕ
unfolding content_size
wire_size p = plus_header (content_size p.control_type)
