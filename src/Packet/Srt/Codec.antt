-- ===== src/Packet/Srt/Codec.antt =====
-- srt-protocol/src/packet/control/srt.rs: the SRT control packets are parsed and serialized.
use srt_rs.Prelude.{
  ℕ, ◌+◌, ◌*◌, ◌/◌, ◌%◌, ◌^◌, Option, none, some, List, [], ◌++◌, length, ◌==◌, ltb, if◌then◌else◌,
}
use srt_rs.Packet.Instant.{Duration, from_millis}
use srt_rs.Packet.Srt.{
  SrtHandshake, SrtControlPacket, KeyingMaterialMessage, group_code, group_of, version_of, to_u32,
  reject, handshake_request, handshake_response, key_refresh_request, key_refresh_response,
  stream_id, congestion, filter, group,
}
use srt_rs.Packet.Srt.Keys as Keys
use srt_rs.Packet.Srt.Text.{le_bytes_to_string, string_to_le_bytes, filter_of, show_filter}
use srt_rs.Packet.Wire.{
  Wire, Parser, ◌>>=◌, give, fail, remaining, read, u8, u16, u16_le, u32, not_enough_data,
  unsupported_srt_extension_type,
}

abbrev pub as_millis : Duration → ℕ
as_millis d = d / 1000000

module _ (wire : Wire) where
  unfoldable pub handshake_words : Parser SrtHandshake
  unfolding version_of
  handshake_words = do
    version ← read wire u32
    flags ← read wire u32
    peer_latency ← read wire u16
    latency ← read wire u16
    give (record {
      version = version_of version;
      flags = flags % 2 ^ 8;
      send_latency = from_millis peer_latency;
      recv_latency = from_millis latency;
    })

  -- The known flags are the low eight bits; others are cut off with a warning.
  unfoldable pub parse_handshake : Parser SrtHandshake
  parse_handshake = do
    left ← remaining
    if ltb left 12 then fail not_enough_data else handshake_words

  -- A latency is cut to 16 bits of milliseconds.
  unfoldable pub serialize_handshake : SrtHandshake → List ℕ
  unfolding to_u32
  serialize_handshake h =
      wire.put u32 (to_u32 h.version)
      ++ (wire.put u32 h.flags
          ++ (wire.put u16 (as_millis h.send_latency) ++ wire.put u16 (as_millis h.recv_latency)))

  -- The one known flag of a group is bit 6.
  unfoldable pub parse_group : Parser SrtControlPacket
  unfolding group_of
  parse_group = do
    ty ← read wire u8
    flags ← read wire u8
    weight ← read wire u16_le
    give (group (group_of ty) (flags / 64 % 2 * 64) weight)

  unfoldable pub parse : ℕ → Parser SrtControlPacket
  parse packet_type =
      if packet_type == 0
      then give reject
      else if packet_type == 1
      then parse_handshake >>= (λ h. give (handshake_request h))
      else if packet_type == 2
      then parse_handshake >>= (λ h. give (handshake_response h))
      else if packet_type == 3
      then Keys.parse wire >>= (λ k. give (key_refresh_request k))
      else if packet_type == 4
      then Keys.parse wire >>= (λ k. give (key_refresh_response k))
      else if packet_type == 5
      then le_bytes_to_string wire >>= (λ s. give (stream_id s))
      else if packet_type == 6
      then le_bytes_to_string wire >>= (λ s. give (congestion s))
      else if packet_type == 7
      then le_bytes_to_string wire >>= (λ s. filter_of s >>= λ f. give (filter f))
      else if packet_type == 8
      then parse_group
      else fail (unsupported_srt_extension_type packet_type)

  -- `none` is a panic in the keying material.
  unfoldable pub serialize : SrtControlPacket → Option (List ℕ)
  serialize reject = some []
  serialize (handshake_request h) = some (serialize_handshake h)
  serialize (handshake_response h) = some (serialize_handshake h)
  serialize (key_refresh_request k) = Keys.serialize wire k
  serialize (key_refresh_response k) = Keys.serialize wire k
  serialize (stream_id s) = some (string_to_le_bytes s)
  serialize (congestion s) = some (string_to_le_bytes s)
  serialize (filter f) = some (string_to_le_bytes (show_filter f))
  serialize (group ty flags weight) =
      some (wire.put u8 (group_code ty) ++ (wire.put u8 flags ++ wire.put u16_le weight))

-- The size of a text or of the keys in words, in `u16`.
abbrev pub text_words : List ℕ → ℕ
text_words s = (length s + 3) / 4 % 2 ^ 16

abbrev pub key_words : KeyingMaterialMessage → ℕ
key_words k = (4 + length k.salt % 2 ^ 16 / 4 + length k.wrapped_keys % 2 ^ 16 / 4) % 2 ^ 16

-- `none` is the panic `unimplemented!` on a rejection.
unfoldable pub size_words : SrtControlPacket → Option ℕ
unfolding show_filter
size_words reject = none
size_words (handshake_request h) = some 3
size_words (handshake_response h) = some 3
size_words (key_refresh_request k) = some (key_words k)
size_words (key_refresh_response k) = some (key_words k)
size_words (stream_id s) = some (text_words s)
size_words (congestion s) = some (text_words s)
size_words (filter f) = some (text_words (show_filter f))
size_words (group ty flags weight) = some 1
