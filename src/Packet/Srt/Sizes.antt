-- ===== src/Packet/Srt/Sizes.antt =====
-- The size of an extension that is announced in words is that of its bytes.
use srt_rs.Prelude.{ℕ, ◌*◌, ◌^◌, ◌<◌, ◌≡◌, refl, ap, sym, ◌∙◌, some, List, [], arith, length}
use srt_rs.Packet.Srt.{
  SrtControlPacket, type_id, reject, handshake_request, handshake_response, key_refresh_request,
  key_refresh_response, stream_id, congestion, filter, group, KeyingMaterialMessage, SrtHandshake,
}
use srt_rs.Packet.Srt.Codec.{
  parse, serialize, size_words, text_words, key_words, serialize_handshake,
}
use srt_rs.Packet.Srt.Keys as Keys
use srt_rs.Packet.Srt.Keys.RoundTrip.{AreKeys, serialize_lem, length-header}
use srt_rs.Packet.Srt.Text.{string_to_le_bytes}
use srt_rs.Packet.Srt.Text.RoundTrip.{length-string_to_le_bytes, nonempty}
use srt_rs.Packet.Srt.RoundTrip.{IsSrt, parse-serialize_srt}
use srt_rs.Packet.Wire.{Wire, ok}
use srt_rs.Packet.Wire.Laws.{length-put_front, length-put}

-- The kinds of extension that a handshake has, with a text that is short enough for its length.
unfoldable pub IsExt : Wire → SrtControlPacket → Type 0
IsExt wire (stream_id s) = IsSrt wire (stream_id s) × (length s < 2 ^ 16)
IsExt wire (handshake_request h) = IsSrt wire (handshake_request h)
IsExt wire (handshake_response h) = IsSrt wire (handshake_response h)
IsExt wire (key_refresh_request k) = IsSrt wire (key_refresh_request k)
IsExt wire (key_refresh_response k) = IsSrt wire (key_refresh_response k)
IsExt wire _ = ⊥

-- The bytes of a packet, and the number of its words.
pub record Sized (wire : Wire) (p : SrtControlPacket) : Type 0 where
  pub bytes : List ℕ
  pub words : ℕ
  pub put : serialize wire p ≡ some bytes
  pub size : size_words p ≡ some words
  pub whole : length bytes ≡ words * 4
  pub some_word : 0 < words
  pub short : words < 2 ^ 16
  pub back : parse wire (type_id p) bytes ≡ ok p []

option_inj : {A : Type 0} {a b : A} → some a ≡ some b → a ≡ b
option_inj e = cc

module _ (wire : Wire) where
  keys_words :
      (k : KeyingMaterialMessage) (bytes : List ℕ)
      → AreKeys k
      → Keys.serialize wire k ≡ some bytes
      → (length bytes ≡ key_words k * 4) × (0 < key_words k) × (key_words k < 2 ^ 16)
  keys_words k bytes h e =
      let same : bytes ≡ Keys.header wire k h.key_len k.wrapped_keys =
        option_inj (sym e ∙ serialize_lem wire k h) in
      omega (arith, ap length same, length-header wire k h, h.salt_short)

  handshake_words :
      (h : SrtHandshake) (bytes : List ℕ)
      → serialize_handshake wire h ≡ bytes
      → length bytes ≡ 3 * 4
  unfolding serialize_handshake
  handshake_words h bytes e = omega (arith, ap length e, length-put_front wire, length-put wire)

  pub sized : (p : SrtControlPacket) → IsExt wire p → Sized wire p
  unfolding IsExt IsSrt serialize size_words
  sized (handshake_request h) v =
      let (bytes, put, back) = parse-serialize_srt wire (handshake_request h) v in
      record {
        bytes = bytes;
        words = 3;
        put = put;
        size = refl;
        whole = handshake_words h bytes (option_inj put);
        some_word = omega arith;
        short = omega arith;
        back = back;
      }
  sized (handshake_response h) v =
      let (bytes, put, back) = parse-serialize_srt wire (handshake_response h) v in
      record {
        bytes = bytes;
        words = 3;
        put = put;
        size = refl;
        whole = handshake_words h bytes (option_inj put);
        some_word = omega arith;
        short = omega arith;
        back = back;
      }
  sized (key_refresh_request k) v =
      let (bytes, put, back) = parse-serialize_srt wire (key_refresh_request k) v in
      let words = keys_words k bytes v put in
      record {
        bytes = bytes;
        words = key_words k;
        put = put;
        size = refl;
        whole = words.0;
        some_word = words.1;
        short = words.2;
        back = back;
      }
  sized (key_refresh_response k) v =
      let (bytes, put, back) = parse-serialize_srt wire (key_refresh_response k) v in
      let words = keys_words k bytes v put in
      record {
        bytes = bytes;
        words = key_words k;
        put = put;
        size = refl;
        whole = words.0;
        some_word = words.1;
        short = words.2;
        back = back;
      }
  sized (stream_id s) v =
      let (bytes, put, back) = parse-serialize_srt wire (stream_id s) v.0 in
      let l = length-string_to_le_bytes s in
      let same : string_to_le_bytes s ≡ bytes = option_inj put in
      record {
        bytes = bytes;
        words = text_words s;
        put = put;
        size = refl;
        whole = omega (arith, ap length same, l, v.1);
        some_word = omega (arith, v.1, nonempty s v.0.0);
        short = omega arith;
        back = back;
      }
  sized reject v = absurd v
  sized (congestion s) v = absurd v
  sized (filter f) v = absurd v
  sized (group ty flags weight) v = absurd v
