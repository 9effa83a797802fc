-- ===== src/Packet/Srt/Keys/RoundTrip.antt =====
-- The keying material survives the wire.
use srt_rs.Prelude.{
  ℕ, zero, suc, ◌+◌, ◌-◌, ◌*◌, ◌/◌, ◌%◌, ◌^◌, ◌<◌, ◌≤◌, ◌≡◌, ◌⊎◌, inl, inr, refl, ap, ap₂, sym, ◌∙◌,
  Bool, true, false, not, some, List, [], ◌∷◌, ◌++◌, append-nil, arith, length, length-append, ltb,
  ◌==◌, ◌||◌,
}
use srt_rs.Packet.Srt.{KeyingMaterialMessage, PacketType, CipherType, Auth, srt}
use srt_rs.Packet.Srt.Keys.{
  read_words, put_words, header, serialize, parse, parse_long, parse_keys, ensure, count_ones,
  packet_type_of, packet_type_code, cipher_of, cipher_code, auth_of, encapsulation_of, only_srt,
  sign,
}
use srt_rs.Packet.Wire.{
  Wire, ok, read, u8, u16, u32, to_bytes, from_bytes, Parser, PacketParseError, ◌>>=◌, ◌>>◌,
  not_enough_data, fail,
}
use srt_rs.Packet.Wire.Laws.{bind_ok, bind-front, bind-put, enough, length-put_front}

-- `n` words of bytes.
unfoldable pub AreWords : ℕ → List ℕ → Type 0
AreWords zero [] = Unit
AreWords (suc n) (a ∷ b ∷ c ∷ d ∷ rest) =
    (a < 256) × (b < 256) × (c < 256) × (d < 256) × AreWords n rest
AreWords _ _ = ⊥

whole_word :
    (a b c d : ℕ)
    → a < 256
    → b < 256
    → c < 256
    → d < 256
    → to_bytes u32 (from_bytes u32 (a ∷ b ∷ c ∷ d ∷ [])) ≡ a ∷ b ∷ c ∷ d ∷ []
unfolding to_bytes from_bytes
whole_word a b c d ha hb hc hd = ground arith

length_of_AreWords : (n : ℕ) (bytes : List ℕ) → AreWords n bytes → length bytes ≡ 4 * n
unfolding AreWords
length_of_AreWords zero [] h = refl
length_of_AreWords zero (a ∷ rest) h = absurd h
length_of_AreWords (suc n) [] h = absurd h
length_of_AreWords (suc n) (a ∷ []) h = absurd h
length_of_AreWords (suc n) (a ∷ b ∷ []) h = absurd h
length_of_AreWords (suc n) (a ∷ b ∷ c ∷ []) h = absurd h
length_of_AreWords (suc n) (a ∷ b ∷ c ∷ d ∷ rest) h = omega (arith, length_of_AreWords n rest h.4)

module _ (wire : Wire) where
  read_words-front :
      (n : ℕ) (bytes rest : List ℕ)
      → AreWords n bytes
      → read_words wire n (bytes ++ rest) ≡ ok bytes rest
  unfolding read_words AreWords
  read_words-front zero [] rest h = refl
  read_words-front zero (a ∷ bytes) rest h = absurd h
  read_words-front (suc n) [] rest h = absurd h
  read_words-front (suc n) (a ∷ []) rest h = absurd h
  read_words-front (suc n) (a ∷ b ∷ []) rest h = absurd h
  read_words-front (suc n) (a ∷ b ∷ c ∷ []) rest h = absurd h
  read_words-front (suc n) (a ∷ b ∷ c ∷ d ∷ bytes) rest h =
      bind-front wire u32 (a ∷ b ∷ c ∷ d ∷ []) (bytes ++ rest) _ refl
      ∙ (bind_ok (read_words wire n) _ (read_words-front n bytes rest h.4)
          ∙ ap (λ t. ok (t ++ bytes) rest) (whole_word a b c d h.0 h.1 h.2 h.3))

  put_words_lem : (n : ℕ) (bytes : List ℕ) → AreWords n bytes → put_words wire bytes ≡ some bytes
  unfolding put_words AreWords
  put_words_lem zero [] h = refl
  put_words_lem zero (a ∷ bytes) h = absurd h
  put_words_lem (suc n) [] h = absurd h
  put_words_lem (suc n) (a ∷ []) h = absurd h
  put_words_lem (suc n) (a ∷ b ∷ []) h = absurd h
  put_words_lem (suc n) (a ∷ b ∷ c ∷ []) h = absurd h
  put_words_lem (suc n) (a ∷ b ∷ c ∷ d ∷ bytes) h =
      rw
        (
          put_words_lem n bytes h.4,
          wire.put_lem u32 (from_bytes u32 (a ∷ b ∷ c ∷ d ∷ [])),
          whole_word a b c d h.0 h.1 h.2 h.3,
        )
        refl

-- Keys of one of the sizes, one for each flag, and a salt of whole words.
pub record AreKeys (k : KeyingMaterialMessage) : Type 0 where
  pub salt_words : ℕ
  pub key_len : ℕ
  pub flags : k.key_flags < 4
  pub some_flag : 0 < k.key_flags
  pub keki : k.keki < 2 ^ 32
  pub salt_short : salt_words < 256
  pub salt : AreWords salt_words k.salt
  pub size : ((key_len == 16) || ((key_len == 24) || (key_len == 32))) ≡ true
  pub keys : AreWords ((key_len * count_ones k.key_flags + 8) / 4) k.wrapped_keys

bind-ensure {ℓ} :
    {B : Type ℓ} (test : Bool) (e : PacketParseError) (f : Unit {0} → Parser B) (buf : List ℕ)
    → test ≡ true
    → (ensure test e >>= f) buf ≡ f tt buf
unfolding ensure
bind-ensure test e f buf h = rw h refl

type_lem : (pt : PacketType) (buf : List ℕ) → packet_type_of (packet_type_code pt) buf ≡ ok pt buf
unfolding packet_type_of packet_type_code
type_lem pt buf = ground arith

cipher_lem : (c : CipherType) (buf : List ℕ) → cipher_of (cipher_code c) buf ≡ ok c buf
unfolding cipher_of cipher_code
cipher_lem c buf = ground arith

type_bounds : (pt : PacketType) → (0 < packet_type_code pt) × (packet_type_code pt < 3)
unfolding packet_type_code
type_bounds pt = ground arith

cipher_bounds : (c : CipherType) → cipher_code c < 4
unfolding cipher_code
cipher_bounds c = ground arith

auth_read : (buf : List ℕ) {a : Auth} → auth_of 0 buf ≡ ok a buf
unfolding auth_of
auth_read buf {a} = ground arith

srt_read : (buf : List ℕ) → encapsulation_of 2 buf ≡ ok srt buf
unfolding encapsulation_of
srt_read buf = refl

only_srt_read : (buf : List ℕ) → only_srt srt buf ≡ ok tt buf
unfolding only_srt
only_srt_read buf = refl

-- The lengths, with one or two keys of 16, 24 or 32 bytes.
length_lem :
    (key_len count len : ℕ)
    → (count ≡ 1) ⊎ (count ≡ 2)
    → (key_len ≡ 16) ⊎ ((key_len ≡ 24) ⊎ (key_len ≡ 32))
    → len ≡ 4 * ((key_len * count + 8) / 4)
    → (len ≡ key_len * count + 8) × ((len + 2 ^ 64 - 8) % 2 ^ 64 / count ≡ key_len)
length_lem key_len count len (inl e) s l =
    let l' : len ≡ 4 * ((key_len * 1 + 8) / 4) = rw e at l in
    rw e (omega (arith, l', s), omega (arith, l', s))
length_lem key_len count len (inr e) s l =
    let l' : len ≡ 4 * ((key_len * 2 + 8) / 4) = rw e at l in
    rw e (omega (arith, l', s), omega (arith, l', s))

module _ (wire : Wire) (k : KeyingMaterialMessage) (h : AreKeys k) where
  one_or_two : (count_ones k.key_flags ≡ 1) ⊎ (count_ones k.key_flags ≡ 2)
  one_or_two = ground (arith, h.flags, h.some_flag)

  sizes : (h.key_len ≡ 16) ⊎ ((h.key_len ≡ 24) ⊎ (h.key_len ≡ 32))
  sizes = ground (arith, h.size)

  lengths :
      (length k.wrapped_keys ≡ h.key_len * count_ones k.key_flags + 8)
      × ((length k.wrapped_keys + 2 ^ 64 - 8) % 2 ^ 64 / count_ones k.key_flags ≡ h.key_len)
  lengths =
      let n = (h.key_len * count_ones k.key_flags + 8) / 4 in
      length_lem h.key_len (count_ones k.key_flags) (length k.wrapped_keys) one_or_two sizes
        (length_of_AreWords n k.wrapped_keys h.keys)

  pub serialize_lem : serialize wire k ≡ some (header wire k h.key_len k.wrapped_keys)
  unfolding serialize
  serialize_lem =
      let n = (h.key_len * count_ones k.key_flags + 8) / 4 in
      let some_key : (count_ones k.key_flags == 0) ≡ false = ground (arith, one_or_two) in
      let put = put_words_lem wire n k.wrapped_keys h.keys in rw (some_key, put, lengths.1) refl

  abbrev keys : List ℕ
  keys = k.salt ++ k.wrapped_keys

  long : not (ltb (length keys) (h.salt_words * 4 + h.key_len * count_ones k.key_flags + 8)) ≡ true
  long =
      let salt = length_of_AreWords h.salt_words k.salt h.salt in
      ground (arith, salt, length-append k.salt k.wrapped_keys, lengths.0)

  salt_lem : read_words wire (h.salt_words * 4 / 4) keys ≡ ok k.salt k.wrapped_keys
  salt_lem =
      let n : h.salt_words * 4 / 4 ≡ h.salt_words = omega arith in
      rw n (read_words-front wire h.salt_words k.salt k.wrapped_keys h.salt)

  abbrev n : ℕ
  n = (h.key_len * count_ones k.key_flags + 8) / 4

  keys_lem : read_words wire n k.wrapped_keys ≡ ok k.wrapped_keys []
  keys_lem =
      ap (read_words wire n) (sym (append-nil k.wrapped_keys))
      ∙ read_words-front wire n k.wrapped_keys [] h.keys

  parse_keys_lem :
      (salt_len key_len : ℕ)
      → salt_len ≡ h.salt_words * 4
      → key_len ≡ h.key_len
      → parse_keys wire k.pt k.key_flags k.keki k.cipher k.auth salt_len key_len keys ≡ ok k []
  unfolding parse_keys
  parse_keys_lem salt_len key_len es ek =
      rw (es, ek)
        (bind-ensure _ _ _ keys h.size
          ∙ (bind-ensure _ _ _ keys long
              ∙ (bind_ok (read_words wire (h.salt_words * 4 / 4)) _ salt_lem
                  ∙ bind_ok (read_words wire n) _ keys_lem)))

  -- The header, part by part from the end.
  abbrev after_se : List ℕ
  after_se =
      wire.put u8 0
      ++ (wire.put u16 0
          ++ (wire.put u8 (length k.salt / 4) ++ (wire.put u8 (h.key_len / 4) ++ keys)))

  abbrev after_flags : List ℕ
  after_flags =
      wire.put u32 k.keki
      ++ (wire.put u8 (cipher_code k.cipher) ++ (wire.put u8 0 ++ (wire.put u8 2 ++ after_se)))

  after_se_lem :
      (flags keki : ℕ)
      → flags ≡ k.key_flags
      → keki ≡ k.keki
      → (read wire u8
            >> (read wire u16
                >> (read wire u8 >>= λ salt_words. read wire u8 >>= λ key_words.
                    parse_keys wire k.pt flags keki k.cipher k.auth
                      (salt_words * 4)
                      (key_words * 4))))
          after_se
        ≡ ok k []
  after_se_lem flags keki ef ek =
      let salt = length_of_AreWords h.salt_words k.salt h.salt in
      bind-put wire u8 0 _ _
      ∙ (bind-put wire u16 0 _ _
          ∙ (bind-put wire u8 (length k.salt / 4) _ _
              ∙ (bind-put wire u8 (h.key_len / 4) keys _
                  ∙ (ap₂
                        (λ f q.
                          parse_keys wire k.pt f q k.cipher k.auth (length k.salt / 4 % 2 ^ 8 * 4)
                            (h.key_len / 4 % 2 ^ 8 * 4) keys)
                        ef ek
                      ∙ parse_keys_lem (length k.salt / 4 % 2 ^ 8 * 4) (h.key_len / 4 % 2 ^ 8 * 4)
                          (omega (arith, salt, h.salt_short)) (omega (arith, sizes))))))

  pt_read :
      (buf : List ℕ) → packet_type_of ((16 + packet_type_code k.pt) % 2 ^ 8 % 16) buf ≡ ok k.pt buf
  pt_read buf = ap (λ v. packet_type_of v buf) (omega (arith, type_bounds k.pt)) ∙ type_lem k.pt buf

  cipher_read : (buf : List ℕ) → cipher_of (cipher_code k.cipher % 2 ^ 8) buf ≡ ok k.cipher buf
  cipher_read buf =
      ap (λ v. cipher_of v buf) (omega (arith, cipher_bounds k.cipher)) ∙ cipher_lem k.cipher buf

  after_sign_lem :
      (read wire u8 >>= λ key_flags. read wire u32 >>= λ keki. read wire u8 >>= λ cipher_byte.
      cipher_of cipher_byte >>= λ cipher. read wire u8 >>= λ auth_byte.
      auth_of auth_byte >>= λ auth. read wire u8 >>= λ se_byte. encapsulation_of se_byte >>= λ se.
      only_srt se
      >> (read wire u8
          >> (read wire u16
              >> (read wire u8 >>= λ salt_words. read wire u8 >>= λ key_words.
                  parse_keys wire k.pt
                    (key_flags % 4)
                    keki
                    cipher
                    auth
                    (salt_words * 4)
                    (key_words * 4)))))
        (wire.put u8 k.key_flags ++ after_flags)
      ≡ ok k []
  after_sign_lem =
      bind-put wire u8 k.key_flags after_flags _
      ∙ (bind-put wire u32 k.keki _ _
          ∙ (bind-put wire u8 (cipher_code k.cipher) _ _
              ∙ (bind_ok (cipher_of (cipher_code k.cipher % 2 ^ 8)) _ (cipher_read _)
                  ∙ (bind-put wire u8 0 _ _
                      ∙ (bind_ok (auth_of 0) _ (auth_read _)
                          ∙ (bind-put wire u8 2 _ _
                              ∙ (bind_ok (encapsulation_of 2) _ (srt_read _)
                                  ∙ (bind_ok (only_srt srt) _ (only_srt_read _)
                                      ∙ after_se_lem _ _ (omega (arith, h.flags))
                                          (omega (arith, h.keki))))))))))

  -- The size of the message on the wire.
  pub length-header :
      (length (header wire k h.key_len k.wrapped_keys) ≡ 16 + length k.salt + length k.wrapped_keys)
      × (length k.salt ≡ 4 * h.salt_words)
      × (length k.wrapped_keys % 4 ≡ 0)
      × (length k.wrapped_keys ≤ 72)
  length-header =
      let salt = length_of_AreWords h.salt_words k.salt h.salt in
      let l = length_of_AreWords n k.wrapped_keys h.keys in
      (
        omega (arith, length-put_front wire, length-append k.salt k.wrapped_keys),
        salt,
        omega (arith, l),
        elim one_or_two [
          | inl e ↦ omega (arith, lengths.0, sizes, ap (λ (t : ℕ). h.key_len * t) e)
          | inr e ↦ omega (arith, lengths.0, sizes, ap (λ (t : ℕ). h.key_len * t) e)
        ],
      )

  -- Keying material of whole words, with one key of 16, 24 or 32 bytes for each flag, is serialized
  -- without a panic, and parsing the bytes gives it back and leaves none over.
  pub parse-serialize_keys :
      (bytes : List ℕ) × (serialize wire k ≡ some bytes) × (parse wire bytes ≡ ok k [])
  unfolding parse parse_long
  parse-serialize_keys = (
    header wire k h.key_len k.wrapped_keys,
    serialize_lem,
    enough 16 (fail not_enough_data) (parse_long wire) (header wire k h.key_len k.wrapped_keys)
          (omega (arith, length-put_front wire))
        ∙ (bind-put wire u8 (16 + packet_type_code k.pt) _ _
            ∙ (bind-ensure _ _ _ _ top_bit
                ∙ (bind-ensure _ _ _ _ version
                    ∙ (bind_ok (packet_type_of ((16 + packet_type_code k.pt) % 2 ^ 8 % 16)) _
                          (pt_read _)
                        ∙ (bind-put wire u16 sign _ _
                            ∙ (bind-ensure _ _ _ _ refl ∙ after_sign_lem)))))),
  )
    where
      top_bit : ((16 + packet_type_code k.pt) % 2 ^ 8 / 128 % 2 == 0) ≡ true
      top_bit = ground (arith, type_bounds k.pt)

      version : ((16 + packet_type_code k.pt) % 2 ^ 8 / 16 == 1) ≡ true
      version = ground (arith, type_bounds k.pt)
