-- ===== src/Packet/Control/Handshake.antt =====
-- srt-protocol/src/packet/control/mod.rs: handshakes on the wire. Warnings are left out.
pub mod Parse
pub mod Extensions
pub mod Kinds
pub mod Info
pub mod RoundTrip
use srt_rs.Prelude.{
  ℕ, ◌+◌, ◌*◌, ◌/◌, ◌%◌, ◌^◌, Bool, true, false, ◌||◌, ◌&&◌, Option, none, some, List, [], ◌∷◌,
  ◌++◌, length, ◌==◌, ltb, if◌then◌else◌,
}
use srt_rs.Packet.Reject.{ShakeType, induction, shake_code}
use srt_rs.Packet.Srt.{SrtControlPacket, stream_id, type_id}
use srt_rs.Packet.Srt.Codec as Srt
use srt_rs.Packet.Control.{
  SocketType, stream, datagram, KeySize, unspecified, aes128, aes192, aes256, IpAddr, v4, v6,
  HsV5Info, HandshakeVsInfo, udt, v5, HandshakeControlInfo,
}
use srt_rs.Packet.Wire.{Wire, u16, u32, u32_le, put_i32}

unfoldable pub key_raw : KeySize → ℕ
key_raw unspecified = 0
key_raw aes128 = 16
key_raw aes192 = 24
key_raw aes256 = 32

-- A size that is not known is taken for an unspecified one, with a warning.
unfoldable pub key_of : ℕ → KeySize
key_of value =
    if value == 16
    then aes128
    else if value == 24
    then aes192
    else if value == 32
    then aes256
    else unspecified

unfoldable pub socket_code : SocketType → ℕ
socket_code stream = 1
socket_code datagram = 2

unfoldable pub socket_of : ℕ → Option SocketType
socket_of num = if num == 1 then some stream else if num == 2 then some datagram else none

abbrev pub srt_magic_code : ℕ
srt_magic_code = 0x4a17

abbrev pub is_some {ℓ} : {A : Type ℓ} → Option A → Bool
is_some none = false
is_some (some a) = true

abbrev pub is_induction : ShakeType → Bool
is_induction induction = true
is_induction _ = false

abbrev pub flag : Bool → ℕ → ℕ
flag set value = if set then value else 0

-- The bits of the extensions that are there: handshake, keys, configuration.
abbrev pub ext_flags : HsV5Info → ℕ
ext_flags hs = flag (is_some hs.ext_hs) 1 + flag (is_some hs.ext_km) 2 + flag (is_some hs.sid) 4

-- `none` is the panic on an induction with extensions. The operands of `|` have no bit in common.
unfoldable pub type_flags : HandshakeVsInfo → ShakeType → Option ℕ
unfolding socket_code key_raw
type_flags (udt ty) shake_type = some (socket_code ty)
type_flags (v5 hs) shake_type =
    if is_induction shake_type && (is_some hs.ext_hs || (is_some hs.ext_km || is_some hs.sid))
    then none
    else some (
        key_raw hs.key_size / 8 * 2 ^ 16
        + (if is_induction shake_type then srt_magic_code else ext_flags hs))

unfoldable pub version : HandshakeVsInfo → ℕ
version (udt ty) = 4
version (v5 hs) = 5

abbrev pub or_empty : Option SrtControlPacket → List SrtControlPacket
or_empty none = []
or_empty (some p) = p ∷ []

abbrev pub sid_packet : Option (List ℕ) → Option SrtControlPacket
sid_packet none = none
sid_packet (some sid) = some (stream_id sid)

-- The extensions in the order in which they are written.
unfoldable pub extensions : HandshakeVsInfo → List SrtControlPacket
extensions (udt ty) = []
extensions (v5 hs) = or_empty hs.ext_hs ++ (or_empty hs.ext_km ++ or_empty (sid_packet hs.sid))

module _ (wire : Wire) where
  -- An address of version 4 is followed by 12 bytes of zeros; `put_u128` writes the
  -- bytes of one of version 6 in their order.
  unfoldable pub put_address : IpAddr → List ℕ
  put_address (v4 ip) = wire.put u32_le ip ++ (0 ∷ 0 ∷ 0 ∷ 0 ∷ 0 ∷ 0 ∷ 0 ∷ 0 ∷ 0 ∷ 0 ∷ 0 ∷ 0 ∷ [])
  put_address (v6 octets) = octets

  abbrev pub put_one : ℕ → Option ℕ → Option (List ℕ) → Option (List ℕ) → Option (List ℕ)
  put_one id (some words) (some bytes) (some rest) =
      some (wire.put u16 id ++ (wire.put u16 words ++ (bytes ++ rest)))
  put_one id _ _ _ = none

  -- `none` is a panic in one of the extensions.
  unfoldable pub put_extensions : List SrtControlPacket → Option (List ℕ)
  put_extensions [] = some []
  put_extensions (ext ∷ rest) =
      put_one (type_id ext) (Srt.size_words ext) (Srt.serialize wire ext) (put_extensions rest)

  abbrev pub put_handshake : HandshakeControlInfo → Option ℕ → Option (List ℕ) → Option (List ℕ)
  put_handshake h (some flags) (some exts) = some (
      wire.put u32 (version h.info)
      ++ (wire.put u32 flags
          ++ (wire.put u32 h.init_seq_num
              ++ (wire.put u32 h.max_packet_size
                  ++ (wire.put u32 h.max_flow_size
                      ++ (put_i32 wire (shake_code h.shake_type)
                          ++ (wire.put u32 h.socket_id
                              ++ (put_i32 wire h.syn_cookie
                                  ++ (put_address h.peer_addr ++ exts)))))))))
  put_handshake h _ _ = none

  unfoldable pub serialize : HandshakeControlInfo → Option (List ℕ)
  serialize h =
      put_handshake h (type_flags h.info h.shake_type) (put_extensions (extensions h.info))

-- The size of an extension with its header; `none` is the panic on a rejection.
abbrev pub ext_size : Option ℕ → Option ℕ → Option ℕ
ext_size (some words) (some rest) = some (4 + words * 4 + rest)
ext_size _ _ = none

-- The identifier of a stream is counted from its length in bytes, not in 16-bit words.
unfoldable pub ext_hs_size : Option SrtControlPacket → Option ℕ → Option ℕ
ext_hs_size none rest = rest
ext_hs_size (some p) rest = ext_size (Srt.size_words p) rest

unfoldable pub sid_size : Option (List ℕ) → ℕ
sid_size none = 0
sid_size (some sid) = 4 + (length sid + 3) / 4 * 4

abbrev pub plus_header : Option ℕ → Option ℕ
plus_header none = none
plus_header (some n) = some (48 + n)

unfoldable pub serialized_size : HandshakeControlInfo → Option ℕ
serialized_size h = elim h.info [
  | udt ty ↦ some 48
  | v5 hs ↦ plus_header (ext_hs_size hs.ext_hs (ext_hs_size hs.ext_km (some (sid_size hs.sid))))
]
