-- ===== src/Packet/Control/Handshake/Parse.antt =====
-- srt-protocol/src/packet/control/mod.rs: the parser of handshakes.
use srt_rs.Prelude.{
  ℕ, zero, suc, ◌*◌, ◌%◌, ◌^◌, Bool, ◌||◌, Option, none, some, List, ◌++◌, ℤ, pos, negsuc, take,
  drop, ◌==◌, ltb, leb, if◌then◌else◌,
}
use srt_rs.Packet.ModularNum
use srt_rs.Packet.SeqNumber
use srt_rs.Packet.Reject.{ShakeType, shake_of}
use srt_rs.Packet.Srt.{SrtControlPacket, stream_id}
use srt_rs.Packet.Srt.Codec as Srt
use srt_rs.Packet.Control.{
  SocketType, IpAddr, v4, v6, KeySize, HsV5Info, HandshakeVsInfo, udt, v5, HandshakeControlInfo,
}
use srt_rs.Packet.Control.Handshake.{key_of, socket_of, is_induction}
use srt_rs.Packet.Wire.{
  Wire, Parser, Parsed, ok, err, panicked, ◌>>=◌, ◌>>◌, give, fail, panic, remaining, read,
  read_i32, u16, u32, u32_le, not_enough_data, bad_udt_version, bad_connection_type,
  bad_socket_type,
}

-- The extensions that were found: of the handshake, of the keys, and the identifier of the stream.
pub record Found : Type 0 where
  pub ext_hs : Option SrtControlPacket
  pub ext_km : Option SrtControlPacket
  pub sid : Option (List ℕ)

abbrev pub nothing : Found
nothing = record { ext_hs = none; ext_km = none; sid = none }

-- The match on the type of an extension: the last of a kind counts. Another kind that is parsed is
-- the panic `unimplemented!`.
unfoldable pub add_ext : Found → ℕ → SrtControlPacket → Option Found
add_ext found pack_type ext =
    if (pack_type == 1) || (pack_type == 2)
    then some (record found { ext_hs = some ext })
    else if (pack_type == 3) || (pack_type == 4)
    then some (record found { ext_km = some ext })
    else elim ext [ stream_id sid ↦ some (record found { sid = some sid }) | _ ↦ none ]

-- `buf.take(size)` is parsed, and what is left of it comes before the rest of the buffer.
abbrev pub put_back {ℓ} : {A : Type ℓ} → List ℕ → Parsed A → Parsed A
put_back rest (ok a left) = ok a (left ++ rest)
put_back rest (err e) = err e
put_back rest panicked = panicked

unfoldable pub within {ℓ} : {A : Type ℓ} → ℕ → Parser A → Parser A
within size m buf = put_back (drop size buf) (m (take size buf))

abbrev pub or_panic {ℓ} : {A : Type ℓ} → Option A → Parser A
or_panic none = panic
or_panic (some a) = give a

module _ (wire : Wire) where
  unfoldable pub read_address : Bool → Parser IpAddr
  read_address is_ipv6 =
      if is_ipv6
      then remaining
        >>= (λ left. if ltb left 16 then panic else (λ buf. ok (v6 (take 16 buf)) (drop 16 buf)))
      else do ip ← read wire u32_le; read wire u32; read wire u32; read wire u32; give (v4 ip)

  -- One round of the loop over the extensions.
  unfoldable pub read_ext : Found → Parser Found
  read_ext found = do
    pack_type ← read wire u16
    pack_size_words ← read wire u16
    left ← remaining
    ext ←
        if ltb left (pack_size_words * 4)
        then fail not_enough_data
        else within (pack_size_words * 4) (Srt.parse wire pack_type)
    or_panic (add_ext found pack_type ext)

  -- Each round takes four bytes at least, so that the length of the buffer is enough fuel.
  unfoldable pub read_exts : ℕ → Found → Parser Found
  read_exts zero found = give found
  read_exts (suc fuel) found =
      let round = read_ext found >>= (λ found'. read_exts fuel found') in
      remaining >>= λ left. if leb left 4 then give found else round

  unfoldable pub read_v5 : KeySize → ShakeType → Parser HandshakeVsInfo
  read_v5 key_size shake_type =
      let no_exts : HsV5Info = record {
        key_size = KeySize.unspecified;
        ext_hs = none;
        ext_km = none;
        ext_group = none;
        sid = none;
      } in
      let with_exts : Parser HandshakeVsInfo = remaining >>= λ left.
      read_exts left nothing >>= λ found. give (
        v5 (record {
          key_size = key_size;
          ext_hs = found.ext_hs;
          ext_km = found.ext_km;
          ext_group = none;
          sid = found.sid;
        })) in
      if is_induction shake_type then give (v5 no_exts) else with_exts

  abbrev pub or_bad_socket : ℕ → Option SocketType → Parser HandshakeVsInfo
  or_bad_socket num none = fail (bad_socket_type num)
  or_bad_socket num (some t) = give (udt t)

  unfoldable pub read_info : Bool → ℕ → ℕ → ShakeType → Parser HandshakeVsInfo
  read_info is_v4 crypto_size ty shake_type =
      if is_v4 then or_bad_socket ty (socket_of ty) else read_v5 (key_of crypto_size) shake_type

  abbrev pub or_bad_type : ℤ → Option ShakeType → Parser ShakeType
  or_bad_type code none = fail (bad_connection_type code)
  or_bad_type code (some s) = give s

  -- From the second word on.
  unfoldable pub read_words : Bool → Bool → Parser HandshakeControlInfo
  unfolding SeqNumber.new_truncate ModularNum.new_truncate
  read_words is_ipv6 is_v4 = do
    crypto ← read wire u16
    ty ← read wire u16
    init_seq_num ← read wire u32
    max_packet_size ← read wire u32
    max_flow_size ← read wire u32
    code ← read_i32 wire
    shake_type ← or_bad_type code (shake_of code)
    socket_id ← read wire u32
    syn_cookie ← read_i32 wire
    peer_addr ← read_address is_ipv6
    info ← read_info is_v4 (crypto * 8 % 2 ^ 16) ty shake_type
    give (record {
      init_seq_num = SeqNumber.new_truncate init_seq_num;
      max_packet_size = max_packet_size;
      max_flow_size = max_flow_size;
      shake_type = shake_type;
      socket_id = socket_id;
      syn_cookie = syn_cookie;
      peer_addr = peer_addr;
      info = info;
    })

  abbrev pub is_version : ℤ → ℕ → Bool
  is_version (pos n) m = n == m
  is_version (negsuc n) m = Bool.false

  -- The arm of a handshake in `deserialize`.
  unfoldable pub parse : Bool → Parser HandshakeControlInfo
  parse is_ipv6 =
      let words = read_i32 wire >>= λ udt_version.
      if is_version udt_version 4 || is_version udt_version 5
      then read_words is_ipv6 (is_version udt_version 4)
      else fail (bad_udt_version udt_version) in
      remaining >>= λ left. if ltb left 48 then fail not_enough_data else words
