-- ===== src/Packet/Srt/Keys.antt =====
-- srt-protocol/src/packet/control/srt.rs: the keying material message.
pub mod RoundTrip
use srt_rs.Prelude.{
  ℕ, zero, suc, ◌+◌, ◌-◌, ◌*◌, ◌/◌, ◌%◌, ◌^◌, Bool, Option, none, some, List, [], ◌∷◌, ◌++◌, length,
  ◌==◌, ltb, ◌||◌, not, if◌then◌else◌,
}
use srt_rs.Packet.Srt.{
  KeyingMaterialMessage, PacketType, CipherType, Auth, StreamEncapsulation, media_stream,
  keying_material, ecb, ctr, cbc, udp, srt,
}
use srt_rs.Packet.Wire.{
  Wire, Parser, PacketParseError, ◌>>=◌, ◌>>◌, give, fail, remaining, read, u8, u16, u32, to_bytes,
  from_bytes, not_enough_data, bad_srt_extension_message, bad_crypto_length, bad_cipher_kind,
  bad_key_packet_type, bad_key_sign, bad_auth, bad_stream_encapsulation,
  stream_encapsulation_not_srt,
}

unfoldable pub packet_type_of : ℕ → Parser PacketType
packet_type_of value =
    if value == 1
    then give media_stream
    else if value == 2
    then give keying_material
    else fail (bad_key_packet_type value)

unfoldable pub packet_type_code : PacketType → ℕ
packet_type_code media_stream = 1
packet_type_code keying_material = 2

unfoldable pub cipher_of : ℕ → Parser CipherType
cipher_of value =
    if value == 0
    then give CipherType.none
    else if value == 1
    then give ecb
    else if value == 2
    then give ctr
    else if value == 3
    then give cbc
    else fail (bad_cipher_kind value)

unfoldable pub cipher_code : CipherType → ℕ
cipher_code CipherType.none = 0
cipher_code ecb = 1
cipher_code ctr = 2
cipher_code cbc = 3

unfoldable pub auth_of : ℕ → Parser Auth
auth_of value = if value == 0 then give Auth.none else fail (bad_auth value)

unfoldable pub encapsulation_of : ℕ → Parser StreamEncapsulation
encapsulation_of value =
    if value == 1
    then give udp
    else if value == 2
    then give srt
    else fail (bad_stream_encapsulation value)

-- `if se != Srt { return Err(..) }`
unfoldable pub only_srt : StreamEncapsulation → Parser (Unit {0})
only_srt udp = fail stream_encapsulation_not_srt
only_srt srt = give tt

unfoldable pub ensure : Bool → PacketParseError → Parser (Unit {0})
ensure test error = if test then give tt else fail error

-- "HAI", five bits a letter from `@` on
abbrev pub sign : ℕ
sign = (b'H' - b'@') * 2 ^ 10 + (b'A' - b'@') * 2 ^ 5 + (b'I' - b'@')

-- `count_ones` of the two flags
abbrev pub count_ones : ℕ → ℕ
count_ones flags = flags % 2 + flags / 2 % 2

module _ (wire : Wire) where
  -- Words are read as numbers and kept as their big-endian bytes.
  unfoldable pub read_words : ℕ → Parser (List ℕ)
  read_words zero = give []
  read_words (suc n) = do
    word ← read wire u32
    rest ← read_words n
    give (to_bytes u32 word ++ rest)

  -- From the lengths on.
  unfoldable pub parse_keys :
      PacketType → ℕ → ℕ → CipherType → Auth → ℕ → ℕ → Parser KeyingMaterialMessage
  parse_keys pt key_flags keki cipher auth salt_len key_len = do
    ensure ((key_len == 16) || ((key_len == 24) || (key_len == 32))) (bad_crypto_length key_len)
    left ← remaining
    ensure (not (ltb left (salt_len + key_len * count_ones key_flags + 8))) not_enough_data
    salt ← read_words (salt_len / 4)
    wrapped_keys ← read_words ((key_len * count_ones key_flags + 8) / 4)
    give (record {
      pt = pt;
      key_flags = key_flags;
      keki = keki;
      cipher = cipher;
      auth = auth;
      salt = salt;
      wrapped_keys = wrapped_keys;
    })

  unfoldable pub parse_long : Parser KeyingMaterialMessage
  parse_long = do
    vers_pt ← read wire u8
    ensure (vers_pt / 128 % 2 == 0) bad_srt_extension_message
    ensure (vers_pt / 16 == 1) bad_srt_extension_message
    pt ← packet_type_of (vers_pt % 16)
    key_sign ← read wire u16
    ensure (key_sign == sign) (bad_key_sign key_sign)
    key_flags ← read wire u8
    keki ← read wire u32
    cipher_byte ← read wire u8
    cipher ← cipher_of cipher_byte
    auth_byte ← read wire u8
    auth ← auth_of auth_byte
    se_byte ← read wire u8
    se ← encapsulation_of se_byte
    only_srt se
    read wire u8
    read wire u16
    salt_words ← read wire u8
    key_words ← read wire u8
    parse_keys pt (key_flags % 4) keki cipher auth (salt_words * 4) (key_words * 4)

  unfoldable pub parse : Parser KeyingMaterialMessage
  unfolding parse_long
  parse = do left ← remaining; if ltb left 16 then fail not_enough_data else parse_long

  -- The words of the wrapped keys: `none` is the panic on a last chunk of less than 4 bytes.
  unfoldable pub put_words : List ℕ → Option (List ℕ)
  put_words [] = some []
  put_words (a ∷ b ∷ c ∷ d ∷ rest) = elim (put_words rest) [
    | none ↦ none
    | some bytes ↦ some (wire.put u32 (from_bytes u32 (a ∷ b ∷ c ∷ d ∷ [])) ++ bytes)
  ]
  put_words _ = none

  abbrev pub header : KeyingMaterialMessage → ℕ → List ℕ → List ℕ
  header k key_len keys =
      wire.put u8 (16 + packet_type_code k.pt)
      ++ (wire.put u16 sign
          ++ (wire.put u8 k.key_flags
              ++ (wire.put u32 k.keki
                  ++ (wire.put u8 (cipher_code k.cipher)
                      ++ (wire.put u8 0
                          ++ (wire.put u8 2
                              ++ (wire.put u8 0
                                  ++ (wire.put u16 0
                                      ++ (wire.put u8 (length k.salt / 4)
                                          ++ (wire.put u8 (key_len / 4)
                                              ++ (k.salt ++ keys)))))))))))

  -- `none` is a panic: a division by no keys, or a broken word. The length wraps below 8.
  unfoldable pub serialize : KeyingMaterialMessage → Option (List ℕ)
  unfolding put_words packet_type_code cipher_code
  serialize k =
      let key_len = (length k.wrapped_keys + 2 ^ 64 - 8) % 2 ^ 64 / count_ones k.key_flags in
      let bytes : Option (List ℕ) = elim (put_words k.wrapped_keys) [
        | none ↦ none
        | some keys ↦ some (header k key_len keys)
      ] in
      if count_ones k.key_flags == 0 then none else bytes
