-- ===== src/Packet/Codec/Tests.antt =====
-- Packets and datagrams on which the theorems hold.
use srt_rs.Prelude.{
  ℕ, ◌≡◌, refl, inl, inr, true, false, none, some, List, [], ◌∷◌, ◌++◌, drop, pos, arith,
}
use srt_rs.Packet.Instant.{from_millis}
use srt_rs.Packet.Reject.{conclusion, rejection, core, bad_secret, shake_code, shake_of}
use srt_rs.Packet.Reject.Codes.{IsShake, shake_code-shake_of}
use srt_rs.Packet.Srt.{SrtControlPacket, handshake_request, type_id}
use srt_rs.Packet.Control.{HandshakeControlInfo, aes128, v4, v5, handshake}
use srt_rs.Packet.Codec.{Packet, control_packet, parse, serialize}
use srt_rs.Packet.Codec.RoundTrip.{IsPacket, parse-serialize_packet}
use srt_rs.Packet.Codec.Ends.{IsPlain, IsPlainError, parse-Ends_packet, parse-empty_text}
use srt_rs.Packet.Control.Ends.{Any}
use srt_rs.Packet.Control.Content.{IsContent}
use srt_rs.Packet.Control.Panic.{IsTextType, read_ext-reject}
use srt_rs.Packet.Control.Handshake.Parse.{nothing, read_ext}
use srt_rs.Packet.Control.Handshake.Info.{IsAddress, IsVsInfo}
use srt_rs.Packet.Control.Handshake.RoundTrip.{IsHandshake}
use srt_rs.Packet.Control.Handshake.Kinds.{IsKind, IsSid}
use srt_rs.Packet.Srt.RoundTrip.{IsSrt}
use srt_rs.Packet.Srt.Sizes.{IsExt}
use srt_rs.Packet.Srt.Text.RoundTrip.{IsText}
use srt_rs.Packet.Wire.{Wire, ok, panicked, u16, u32, to_bytes, from_bytes, read}
use srt_rs.Packet.Wire.Ends.{Ends}
use srt_rs.Packet.Wire.BigEndian.{big_endian}

abbrev network : Wire
network = big_endian (λ _. true)

-- A conclusion with a handshake extension and the stream "cam".
abbrev request : SrtControlPacket
request = handshake_request (record {
  version = record { major = 1; minor = 3; patch = 0 };
  flags = 191;
  send_latency = from_millis 120;
  recv_latency = from_millis 80;
})

abbrev caller : HandshakeControlInfo
caller = record {
  init_seq_num = 1827042734;
  max_packet_size = 1500;
  max_flow_size = 8192;
  shake_type = conclusion;
  socket_id = 1231;
  syn_cookie = pos 77;
  peer_addr = v4 2130706433;
  info = v5 (record {
    key_size = aes128;
    ext_hs = some request;
    ext_km = none;
    ext_group = none;
    sid = some (99 ∷ 97 ∷ 109 ∷ []);
  });
}

abbrev hello : Packet
hello =
    control_packet (record { timestamp = 5000; dest_sockid = 0; control_type = handshake caller })

request-IsExt : IsExt network request
unfolding IsExt IsSrt
request-IsExt = record {
  major = omega arith;
  minor = omega arith;
  patch = omega arith;
  flags = omega arith;
  send_ms = 120;
  recv_ms = 80;
  send = refl;
  recv = refl;
  send_short = omega arith;
  recv_short = omega arith;
}

caller-IsHandshake : IsHandshake network false caller
unfolding IsAddress IsVsInfo IsKind IsSid IsExt IsSrt IsText IsShake shake_code type_id
caller-IsHandshake = record {
  init_seq_num = omega arith;
  max_packet_size = omega arith;
  max_flow_size = omega arith;
  step = tt;
  code = (omega arith, omega arith);
  socket_id = omega arith;
  cookie = (omega arith, omega arith);
  addr = omega arith;
  info = inr (
    refl,
    record {
      hs_kind = (request-IsExt, inl refl);
      km_kind = tt;
      sid_kind = (((omega arith, (omega arith, (omega arith, omega arith))), refl), omega arith);
      group_none = refl;
    },
  );
}

hello-IsPacket : IsPacket network false hello
unfolding IsPacket IsContent
hello-IsPacket = (omega arith, omega arith, caller-IsHandshake)

parse-serialize_packet_example :
    (bytes : List ℕ) × (serialize network hello ≡ some bytes)
    × (parse network false bytes ≡ ok hello [])
parse-serialize_packet_example = parse-serialize_packet network false hello hello-IsPacket

-- A keep-alive packet, the word of which is missing.
abbrev alive : List ℕ
alive = 128 ∷ 1 ∷ 0 ∷ 0 ∷ 0 ∷ 0 ∷ 0 ∷ 0 ∷ 0 ∷ 0 ∷ 0 ∷ 9 ∷ 0 ∷ 0 ∷ 0 ∷ 7 ∷ []

alive-IsPlain : IsPlain network alive
unfolding IsPlain read from_bytes
alive-IsPlain = inr (inr (32769, drop 2 alive, refl, omega arith, refl))

parse-Ends_packet_example : Ends Any IsPlainError (parse network false alive)
parse-Ends_packet_example = parse-Ends_packet network false alive alive-IsPlain

stream_id-IsTextType : IsTextType 5
unfolding IsTextType
stream_id-IsTextType = inl refl

parse-empty_text_example :
    parse network false (
      to_bytes u16 0xffff
      ++ (to_bytes u16 5 ++ (to_bytes u32 0 ++ (to_bytes u32 1 ++ to_bytes u32 2))))
    ≡ panicked
parse-empty_text_example = parse-empty_text network false 5 0 1 2 stream_id-IsTextType

-- An extension of type 0 with one word.
read_ext-reject_example :
    read_ext network nothing (to_bytes u16 0 ++ (to_bytes u16 1 ++ (7 ∷ 7 ∷ 7 ∷ 7 ∷ []))) ≡ panicked
read_ext-reject_example = read_ext-reject network nothing 1 (7 ∷ 7 ∷ 7 ∷ 7 ∷ []) (omega arith)

bad_secret_read : shake_of (pos 1010) ≡ some (rejection (core bad_secret))
unfolding shake_of
bad_secret_read = refl

shake_code-shake_of_example : shake_code (rejection (core bad_secret)) ≡ pos 1010
shake_code-shake_of_example =
    shake_code-shake_of (pos 1010) (rejection (core bad_secret)) bad_secret_read
