-- ===== src/Packet/Control/Handshake/RoundTrip.antt =====
-- A handshake survives the wire.
use srt_rs.Prelude.{
  ℕ, ◌*◌, ◌/◌, ◌%◌, ◌^◌, ◌<◌, ◌≤◌, ◌≡◌, refl, ap, ◌∙◌, Bool, some, List, [], ◌++◌, append_assoc,
  arith, length, length-append, ◌||◌, ◌==◌, ℤ, pos, from_u32, if◌then◌else◌,
}
use srt_rs.Packet.ModularNum
use srt_rs.Packet.SeqNumber
use srt_rs.Packet.Reject.{shake_code, shake_of}
use srt_rs.Packet.Reject.Codes.{IsShake, shake_of-shake_code}
use srt_rs.Packet.Control.{HandshakeVsInfo, udt, v5, HandshakeControlInfo}
use srt_rs.Packet.Control.Handshake.{serialize, put_address, version}
use srt_rs.Packet.Control.Handshake.Parse.{
  parse, read_words, read_address, read_info, or_bad_type, is_version,
}
use srt_rs.Packet.Control.Handshake.Info.{
  IsAddress, IsVsInfo, Info, info_lem, address_lem, length-put_address,
}
use srt_rs.Packet.Wire.{
  Wire, Parser, ok, read_i32, put_i32, u16, u32, to_bytes, fail, not_enough_data, bad_udt_version,
}
use srt_rs.Packet.Wire.Laws.{
  bind_ok, bind-put, bind-put_i32, enough, length-put_front, length-put_i32, IsI32,
}

-- Numbers that fit their words, a known step, and an address of the connection's family.
pub record IsHandshake (wire : Wire) (is_ipv6 : Bool) (h : HandshakeControlInfo) : Type 0 where
  pub init_seq_num : h.init_seq_num < 2 ^ 31
  pub max_packet_size : h.max_packet_size < 2 ^ 32
  pub max_flow_size : h.max_flow_size < 2 ^ 32
  pub step : IsShake h.shake_type
  pub code : IsI32 (shake_code h.shake_type)
  pub socket_id : h.socket_id < 2 ^ 32
  pub cookie : IsI32 h.syn_cookie
  pub addr : IsAddress is_ipv6 h.peer_addr
  pub info : IsVsInfo wire h.shake_type h.info

-- One word is the two halves of it.
put_halves : (wire : Wire) (n : ℕ) → wire.put u32 n ≡ wire.put u16 (n / 2 ^ 16) ++ wire.put u16 n
unfolding to_bytes
put_halves wire n =
    rw (wire.put_lem u32 n, wire.put_lem u16 (n / 2 ^ 16), wire.put_lem u16 n) (ground arith)

module _ (wire : Wire) (is_ipv6 : Bool) (h : HandshakeControlInfo) (i : IsHandshake wire is_ipv6 h)
    (info : Info wire h.shake_type h.info) where
  abbrev after_flags : List ℕ
  after_flags =
      wire.put u32 h.init_seq_num
      ++ (wire.put u32 h.max_packet_size
          ++ (wire.put u32 h.max_flow_size
              ++ (put_i32 wire (shake_code h.shake_type)
                  ++ (wire.put u32 h.socket_id
                      ++ (put_i32 wire h.syn_cookie
                          ++ (put_address wire h.peer_addr ++ info.exts))))))

  halves :
      wire.put u32 info.flags ++ after_flags
      ≡ wire.put u16 (info.flags / 2 ^ 16) ++ (wire.put u16 info.flags ++ after_flags)
  halves =
      ap (λ t. t ++ after_flags) (put_halves wire info.flags)
      ∙ append_assoc (wire.put u16 (info.flags / 2 ^ 16)) (wire.put u16 info.flags) after_flags

  words_lem :
      read_words wire is_ipv6 (version h.info == 4) (wire.put u32 info.flags ++ after_flags)
      ≡ ok h []
  unfolding read_words SeqNumber.new_truncate ModularNum.new_truncate
  words_lem =
      ap (read_words wire is_ipv6 (version h.info == 4)) halves
      ∙ (bind-put wire u16 (info.flags / 2 ^ 16) _ _
          ∙ (bind-put wire u16 info.flags _ _
              ∙ (bind-put wire u32 h.init_seq_num _ _
                  ∙ (bind-put wire u32 h.max_packet_size _ _
                      ∙ (bind-put wire u32 h.max_flow_size _ _
                          ∙ (bind-put_i32 wire (shake_code h.shake_type) _ _ i.code
                              ∙ (bind_ok
                                    (or_bad_type wire (shake_code h.shake_type)
                                      (shake_of (shake_code h.shake_type)))
                                    _ (step _)
                                  ∙ (bind-put wire u32 h.socket_id _ _
                                      ∙ (bind-put_i32 wire h.syn_cookie _ _ i.cookie
                                          ∙ (bind_ok (read_address wire is_ipv6) _ (
                                                address_lem wire is_ipv6 h.peer_addr info.exts
                                                  i.addr)
                                              ∙ (bind_ok
                                                    (read_info wire (version h.info == 4)
                                                      (info.flags / 2 ^ 16 % 2 ^ 16 * 8 % 2 ^ 16)
                                                      (info.flags % 2 ^ 16) h.shake_type)
                                                    _ info.back
                                                  ∙ whole)))))))))))
    where
      step :
          (buf : List ℕ)
          → or_bad_type wire (shake_code h.shake_type) (shake_of (shake_code h.shake_type)) buf
            ≡ ok h.shake_type buf
      step buf =
          ap (λ o. or_bad_type wire (shake_code h.shake_type) o buf)
            (shake_of-shake_code h.shake_type i.step)

      whole :
          ok
            (record h {
              init_seq_num = SeqNumber.new_truncate (h.init_seq_num % 2 ^ 32);
              max_packet_size = h.max_packet_size % 2 ^ 32;
              max_flow_size = h.max_flow_size % 2 ^ 32;
              socket_id = h.socket_id % 2 ^ 32;
            })
            []
          ≡ ok h []
      whole = ground (arith, i.init_seq_num, i.max_packet_size, i.max_flow_size, i.socket_id)

  long : 48 ≤ length (wire.put u32 (version h.info) ++ (wire.put u32 info.flags ++ after_flags))
  long =
      let after_cookie = put_address wire h.peer_addr ++ info.exts in
      let after_code = wire.put u32 h.socket_id ++ (put_i32 wire h.syn_cookie ++ after_cookie) in
      omega (
        arith,
        length-put_front wire,
        length-append (put_i32 wire (shake_code h.shake_type)) after_code,
        length-append (put_i32 wire h.syn_cookie) after_cookie,
        length-append (put_address wire h.peer_addr) info.exts,
        length-put_address wire is_ipv6 h.peer_addr i.addr,
        length-put_i32 wire (shake_code h.shake_type),
        length-put_i32 wire h.syn_cookie,
      )

-- The version is that of the information, 4 or 5.
version_lem {ℓ} :
    {B : Type ℓ} (wire : Wire) (info : HandshakeVsInfo) (f : Bool → Parser B) (g : ℤ → Parser B)
    → (if is_version wire (pos (version info)) 4 || is_version wire (pos (version info)) 5
        then f (is_version wire (pos (version info)) 4)
        else g (pos (version info)))
      ≡ f (version info == 4)
unfolding version
version_lem wire (udt ty) f g = refl
version_lem wire (v5 hs) f g = refl

version_read :
    (wire : Wire) (info : HandshakeVsInfo) (rest : List ℕ)
    → read_i32 wire (wire.put u32 (version info) ++ rest) ≡ ok (pos (version info)) rest
unfolding read_i32 version from_u32
version_read wire (udt ty) rest = bind-put wire u32 4 rest _
version_read wire (v5 hs) rest = bind-put wire u32 5 rest _

module _ (wire : Wire) (is_ipv6 : Bool) (h : HandshakeControlInfo) where
  -- A handshake with numbers that fit their words, with an address of the connection's family and
  -- extensions each of its kind (none for an induction of version 5), is serialized without a
  -- panic, and parsing the bytes gives it back and leaves none over.
  pub parse-serialize_handshake :
      IsHandshake wire is_ipv6 h
      → (bytes : List ℕ) × (serialize wire h ≡ some bytes) × (parse wire is_ipv6 bytes ≡ ok h [])
  unfolding serialize parse
  parse-serialize_handshake i =
      let info = info_lem wire h.shake_type h.info i.info in
      let words = wire.put u32 info.flags ++ after_flags wire is_ipv6 h i info in
      (
        wire.put u32 (version h.info) ++ words,
        rw (info.put, info.put_exts) refl,
        enough 48 (fail not_enough_data) _ (wire.put u32 (version h.info) ++ words)
              (long wire is_ipv6 h i info)
            ∙ (bind_ok (read_i32 wire) _ (version_read wire h.info words)
                ∙ (ap (λ m. m words)
                      (version_lem wire h.info (read_words wire is_ipv6)
                        (λ v. fail (bad_udt_version v)))
                    ∙ words_lem wire is_ipv6 h i info)),
      )
