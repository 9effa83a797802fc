-- ===== src/Packet/Control/Handshake/Info.antt =====
-- The address and the extensions of a handshake survive the wire.
use srt_rs.Prelude.{
  ℕ, ◌+◌, ◌*◌, ◌/◌, ◌%◌, ◌^◌, ◌<◌, ◌≡◌, ◌⊎◌, refl, ap, ap₂, ◌∙◌, Bool, true, false, none, some,
  List, [], ◌∷◌, ◌++◌, append_assoc, arith, length, length-append, take-append, drop-append, inl,
  inr, ◌==◌,
}
use srt_rs.Packet.Reject.{ShakeType}
use srt_rs.Packet.Control.{
  SocketType, KeySize, unspecified, IpAddr, v4, v6, HsV5Info, HandshakeVsInfo, udt, v5,
}
use srt_rs.Packet.Control.Handshake.{
  put_extensions, put_address, type_flags, extensions, version, key_raw, key_of, socket_of,
  socket_code, is_induction, ext_flags, srt_magic_code,
}
use srt_rs.Packet.Control.Handshake.Parse.{nothing, read_address, read_info, read_v5, read_exts}
use srt_rs.Packet.Control.Handshake.Extensions.{read_exts_lem}
use srt_rs.Packet.Control.Handshake.Kinds.{AreExts, found_of, exts_ok, absorb_exts}
use srt_rs.Packet.Wire.{Wire, ok, u32, u32_le, panic}
use srt_rs.Packet.Wire.Laws.{bind_ok, bind-put, bind-front, enough, length-put_front}

-- The family of the address is that of the connection.
unfoldable pub IsAddress : Bool → IpAddr → Type 0
IsAddress false (v4 ip) = ip < 2 ^ 32
IsAddress true (v6 octets) = length octets ≡ 16
IsAddress _ _ = ⊥

pub address_lem :
    (wire : Wire) (is_ipv6 : Bool) (addr : IpAddr) (rest : List ℕ)
    → IsAddress is_ipv6 addr
    → read_address wire is_ipv6 (put_address wire addr ++ rest) ≡ ok addr rest
unfolding read_address put_address IsAddress
address_lem wire false (v4 ip) rest h =
    ap (read_address wire false)
      (append_assoc (wire.put u32_le ip) (0 ∷ 0 ∷ 0 ∷ 0 ∷ 0 ∷ 0 ∷ 0 ∷ 0 ∷ 0 ∷ 0 ∷ 0 ∷ 0 ∷ []) rest)
    ∙ (bind-put wire u32_le ip _ _
        ∙ (bind-front wire u32 (0 ∷ 0 ∷ 0 ∷ 0 ∷ []) (0 ∷ 0 ∷ 0 ∷ 0 ∷ 0 ∷ 0 ∷ 0 ∷ 0 ∷ rest) _ refl
            ∙ (bind-front wire u32 (0 ∷ 0 ∷ 0 ∷ 0 ∷ []) (0 ∷ 0 ∷ 0 ∷ 0 ∷ rest) _ refl
                ∙ (bind-front wire u32 (0 ∷ 0 ∷ 0 ∷ 0 ∷ []) rest _ refl
                    ∙ ap (λ n. ok (v4 n) rest) (omega (arith, h))))))
address_lem wire true (v6 octets) rest h =
    enough 16 panic _ (octets ++ rest) (omega (arith, length-append octets rest, h))
    ∙ ap₂ (λ front left. ok (v6 front) left) (take-append 16 octets rest h)
        (drop-append 16 octets rest h)
address_lem wire false (v6 octets) rest h = absurd h
address_lem wire true (v4 ip) rest h = absurd h

pub length-put_address :
    (wire : Wire) (is_ipv6 : Bool) (addr : IpAddr)
    → IsAddress is_ipv6 addr
    → length (put_address wire addr) ≡ 16
unfolding put_address IsAddress
length-put_address wire false (v4 ip) h = omega (arith, length-put_front wire)
length-put_address wire true (v6 octets) h = h
length-put_address wire false (v6 octets) h = absurd h
length-put_address wire true (v4 ip) h = absurd h

-- What is after the first word: the flags, the extensions, and reading both back.
pub record Info (wire : Wire) (shake_type : ShakeType) (info : HandshakeVsInfo) : Type 0 where
  pub flags : ℕ
  pub put : type_flags info shake_type ≡ some flags
  pub exts : List ℕ
  pub put_exts : put_extensions wire (extensions info) ≡ some exts
  pub back :
      read_info wire
        (version info == 4)
        (flags / 2 ^ 16 % 2 ^ 16 * 8 % 2 ^ 16)
        (flags % 2 ^ 16)
        shake_type
        exts
      ≡ ok info []

abbrev pub no_exts : HsV5Info
no_exts = record {
  key_size = unspecified;
  ext_hs = none;
  ext_km = none;
  ext_group = none;
  sid = none;
}

-- An induction has no extensions and no key size; else each extension is of its kind.
unfoldable pub IsVsInfo : Wire → ShakeType → HandshakeVsInfo → Type 0
IsVsInfo wire shake_type (udt ty) = Unit
IsVsInfo wire shake_type (v5 hs) =
    ((is_induction shake_type ≡ true) × (hs ≡ no_exts))
    ⊎ ((is_induction shake_type ≡ false) × AreExts wire hs)

socket_lem : (ty : SocketType) → socket_of (socket_code ty % 2 ^ 16) ≡ some ty
unfolding socket_of socket_code
socket_lem ty = ground arith

Info-udt : (wire : Wire) (shake_type : ShakeType) (ty : SocketType) → Info wire shake_type (udt ty)
unfolding type_flags put_extensions extensions version read_info
Info-udt wire shake_type ty = record {
  flags = socket_code ty;
  put = refl;
  exts = [];
  put_exts = refl;
  back = rw (socket_lem ty) refl;
}

Info-induction :
    (wire : Wire) (shake_type : ShakeType)
    → is_induction shake_type ≡ true
    → Info wire shake_type (v5 no_exts)
unfolding type_flags put_extensions extensions version read_info read_v5
Info-induction wire shake_type i = record {
  flags = srt_magic_code;
  put = rw i refl;
  exts = [];
  put_exts = refl;
  back = rw i refl;
}

key_lem :
    (key : KeySize) (flags : ℕ)
    → flags < 8
    → key_of ((key_raw key / 8 * 2 ^ 16 + flags) / 2 ^ 16 % 2 ^ 16 * 8 % 2 ^ 16) ≡ key
unfolding key_of key_raw
key_lem key flags h = ground arith

ext_flags-lt : (hs : HsV5Info) → ext_flags hs < 8
ext_flags-lt hs = ground arith

Info-exts :
    (wire : Wire) (shake_type : ShakeType) (hs : HsV5Info)
    → is_induction shake_type ≡ false
    → AreExts wire hs
    → Info wire shake_type (v5 hs)
unfolding type_flags version read_info read_v5 found_of
Info-exts wire shake_type hs i h =
    let found =
      read_exts_lem wire nothing (found_of hs) (extensions (v5 hs)) (exts_ok wire hs h)
        (absorb_exts wire hs h) in
    record {
      flags = key_raw hs.key_size / 8 * 2 ^ 16 + ext_flags hs;
      put = rw i refl;
      exts = found.bytes;
      put_exts = found.put;
      back =
          rw (i, key_lem hs.key_size (ext_flags hs) (ext_flags-lt hs))
            (bind_ok (read_exts wire (length found.bytes) nothing) _
                (found.back (length found.bytes) found.count)
              ∙ ground (arith, h.group_none));
    }

pub info_lem :
    (wire : Wire) (shake_type : ShakeType) (info : HandshakeVsInfo)
    → IsVsInfo wire shake_type info
    → Info wire shake_type info
unfolding IsVsInfo
info_lem wire shake_type (udt ty) h = Info-udt wire shake_type ty
info_lem wire shake_type (v5 hs) (inl (i, e)) = rw e (Info-induction wire shake_type i)
info_lem wire shake_type (v5 hs) (inr (i, h)) = Info-exts wire shake_type hs i h
