-- ===== src/Packet/Srt/RoundTrip.antt =====
-- The SRT control packets survive the wire.
use srt_rs.Prelude.{ℕ, ◌%◌, ◌^◌, ◌<◌, ◌≡◌, ◌⊎◌, refl, ◌∙◌, true, some, List, [], ◌++◌, arith}
use srt_rs.Packet.Instant.{from_millis}
use srt_rs.Packet.Srt.{
  SrtVersion, SrtHandshake, SrtControlPacket, GroupType, unrecognized, version_of, to_u32,
  group_code, group_of, type_id, reject, handshake_request, handshake_response, key_refresh_request,
  key_refresh_response, stream_id, congestion, filter, group,
}
use srt_rs.Packet.Srt.Codec.{
  parse, serialize, parse_handshake, handshake_words, serialize_handshake, parse_group, as_millis,
}
use srt_rs.Packet.Srt.Keys as Keys
use srt_rs.Packet.Srt.Keys.RoundTrip.{AreKeys, parse-serialize_keys}
use srt_rs.Packet.Srt.Text.{le_bytes_to_string, string_to_le_bytes}
use srt_rs.Packet.Srt.Text.RoundTrip.{IsText, le_bytes_to_string-string_to_le_bytes}
use srt_rs.Packet.Wire.{Wire, ok, read, u8, u16, u16_le, u32, fail, not_enough_data}
use srt_rs.Packet.Wire.Laws.{bind_ok, bind-last, bind-put, enough, length-put_front, length-put}

-- Versions of three bytes, known flags, and latencies of whole milliseconds in 16 bits.
pub record IsHandshake (h : SrtHandshake) : Type 0 where
  pub major : h.version.major < 256
  pub minor : h.version.minor < 256
  pub patch : h.version.patch < 256
  pub flags : h.flags < 2 ^ 8
  pub send_ms : ℕ
  pub recv_ms : ℕ
  pub send : h.send_latency ≡ from_millis send_ms
  pub recv : h.recv_latency ≡ from_millis recv_ms
  pub send_short : send_ms < 2 ^ 16
  pub recv_short : recv_ms < 2 ^ 16

unfoldable pub IsGroup : GroupType → Type 0
IsGroup (unrecognized u) = (4 < u) × (u < 256)
IsGroup ty = Unit

group_of-group_code : (ty : GroupType) → IsGroup ty → group_of (group_code ty % 2 ^ 8) ≡ ty
unfolding group_of group_code IsGroup
group_of-group_code ty h = ground arith

version_lem :
    (v : SrtVersion)
    → v.major < 256
    → v.minor < 256
    → v.patch < 256
    → version_of (to_u32 v % 2 ^ 32) ≡ v
unfolding version_of to_u32
version_lem v a b c = ground arith

millis : (d ms : ℕ) → d ≡ from_millis ms → ms < 2 ^ 16 → from_millis (as_millis d % 2 ^ 16) ≡ d
millis d ms e l = omega (arith, e, l)

-- What a packet has to be for its bytes to hold it: a filter is left out.
unfoldable pub IsSrt : Wire → SrtControlPacket → Type 0
IsSrt wire reject = Unit
IsSrt wire (handshake_request h) = IsHandshake h
IsSrt wire (handshake_response h) = IsHandshake h
IsSrt wire (key_refresh_request k) = AreKeys k
IsSrt wire (key_refresh_response k) = AreKeys k
IsSrt wire (stream_id s) = IsText s × (wire.is_utf8 s ≡ true)
IsSrt wire (congestion s) = IsText s × (wire.is_utf8 s ≡ true)
IsSrt wire (filter f) = ⊥
IsSrt wire (group ty flags weight) = IsGroup ty × ((flags ≡ 0) ⊎ (flags ≡ 64)) × (weight < 2 ^ 16)

module _ (wire : Wire) where
  module _ (h : SrtHandshake) (v : IsHandshake h) where
    abbrev send : ℕ
    send = as_millis h.send_latency

    abbrev recv : ℕ
    recv = as_millis h.recv_latency

    fields :
        ok
          (record {
            version = version_of (to_u32 h.version % 2 ^ 32);
            flags = h.flags % 2 ^ 32 % 2 ^ 8;
            send_latency = from_millis (send % 2 ^ 16);
            recv_latency = from_millis (recv % 2 ^ 16);
          })
          []
        ≡ ok h []
    fields = ground (
      arith,
      version_lem h.version v.major v.minor v.patch,
      v.flags,
      millis h.send_latency v.send_ms v.send v.send_short,
      millis h.recv_latency v.recv_ms v.recv v.recv_short,
    )

    parse-serialize_handshake : parse_handshake wire (serialize_handshake wire h) ≡ ok h []
    unfolding parse_handshake handshake_words serialize_handshake
    parse-serialize_handshake =
        enough 12 (fail not_enough_data) (handshake_words wire) (serialize_handshake wire h)
          (omega (arith, length-put_front wire, length-put wire))
        ∙ (bind-put wire u32 (to_u32 h.version) _ _
            ∙ (bind-put wire u32 h.flags _ _
                ∙ (bind-put wire u16 send _ _ ∙ (bind-last wire u16 recv _ ∙ fields))))

  module _ (ty : GroupType) (flags weight : ℕ) (v : IsSrt wire (group ty flags weight)) where
    group_lem :
        parse_group wire
          (wire.put u8 (group_code ty) ++ (wire.put u8 flags ++ wire.put u16_le weight))
        ≡ ok (group ty flags weight) []
    unfolding parse_group IsSrt
    group_lem =
        bind-put wire u8 (group_code ty) _ _
        ∙ (bind-put wire u8 flags _ _
            ∙ (bind-last wire u16_le weight _
                ∙ ground (arith, group_of-group_code ty v.0, v.1, v.2)))

  -- Every packet but a filter, with its fields in range, its texts UTF-8, not empty and not ended by
  -- a zero byte, is serialized without a panic, and parsing the bytes by its type gives it back.
  pub parse-serialize_srt :
      (p : SrtControlPacket)
      → IsSrt wire p
      → (bytes : List ℕ) × (serialize wire p ≡ some bytes)
        × (parse wire (type_id p) bytes ≡ ok p [])
  unfolding parse serialize IsSrt type_id
  parse-serialize_srt reject h = ([], refl, refl)
  parse-serialize_srt (handshake_request s) h = (
    serialize_handshake wire s,
    refl,
    bind_ok (parse_handshake wire) _ (parse-serialize_handshake s h),
  )
  parse-serialize_srt (handshake_response s) h = (
    serialize_handshake wire s,
    refl,
    bind_ok (parse_handshake wire) _ (parse-serialize_handshake s h),
  )
  parse-serialize_srt (key_refresh_request k) h =
      let (bytes, put, read) = parse-serialize_keys wire k h in
      (bytes, put, bind_ok (Keys.parse wire) _ read)
  parse-serialize_srt (key_refresh_response k) h =
      let (bytes, put, read) = parse-serialize_keys wire k h in
      (bytes, put, bind_ok (Keys.parse wire) _ read)
  parse-serialize_srt (stream_id s) h = (
    string_to_le_bytes s,
    refl,
    bind_ok (le_bytes_to_string wire) _ (le_bytes_to_string-string_to_le_bytes wire s h.0 h.1),
  )
  parse-serialize_srt (congestion s) h = (
    string_to_le_bytes s,
    refl,
    bind_ok (le_bytes_to_string wire) _ (le_bytes_to_string-string_to_le_bytes wire s h.0 h.1),
  )
  parse-serialize_srt (filter f) h = absurd h
  parse-serialize_srt (group ty flags weight) h = (
    wire.put u8 (group_code ty) ++ (wire.put u8 flags ++ wire.put u16_le weight),
    refl,
    group_lem ty flags weight h,
  )
