-- ===== src/Packet/Data/Total.antt =====
-- srt-protocol/src/packet/data.rs: parsing a data packet needs no more than the 16 bytes of a
-- header.
use srt_rs.Prelude.{
  ℕ, ◌+◌, ◌/◌, ◌%◌, ◌^◌, ◌≤◌, ◌≡◌, refl, ap, List, [], arith, length, if_elim, ◌==◌,
}
use srt_rs.Packet.Data.{DataEncryption}
use srt_rs.Packet.Data.Codec.{parse, from_words, try_encryption, key_bits}
use srt_rs.Packet.Wire.{Wire, Parser, PacketParseError, u32, bad_data_encryption}
use srt_rs.Packet.Wire.Ends.{Ends, gives, fails, Ends_read, Ends_bind}

-- Both bits of the key are set.
abbrev pub BothKeys : PacketParseError → Type 0
BothKeys e = e ≡ bad_data_encryption 24

encryption-Ends :
    (value : ℕ) (buf : List ℕ)
    → Ends (λ (e : DataEncryption) rest. rest ≡ buf) BothKeys (try_encryption value buf)
unfolding try_encryption
encryption-Ends value buf =
    if_elim Outcome (key_bits value == 0) (λ _. gives refl)
      λ a.
        if_elim Outcome (key_bits value == 8) (λ _. gives refl)
          λ b. if_elim Outcome (key_bits value == 16) (λ _. gives refl) (λ c. fails (ground arith))
  where
    Outcome : Parser DataEncryption → Type 0
    Outcome m = Ends (λ e rest. rest ≡ buf) BothKeys (m buf)

-- A buffer of at least 16 bytes is parsed without a panic: to a packet whose payload is as long as
-- the bytes after these, with none left over, or to the error that both bits of the key are set.
pub parse-Ends :
    (wire : Wire) (buf : List ℕ)
    → 16 ≤ length buf
    → Ends (λ p rest. (rest ≡ []) × (length buf ≡ 16 + length p.payload)) BothKeys (parse wire buf)
unfolding parse from_words
parse-Ends wire buf h = Ends_read wire u32 buf _ (omega arith) λ seq buf1 l1.
    Ends_read wire u32 buf1 _ (omega arith) λ word buf2 l2.
      Ends_bind (try_encryption (word / 2 ^ 24 % 256)) _ buf2
        (encryption-Ends (word / 2 ^ 24 % 256) buf2)
        λ e buf2' same. Ends_read wire u32 buf2' _ (omega (arith, ap length same)) λ stamp buf3 l3.
          Ends_read wire u32 buf3 _ (omega (arith, ap length same))
            λ dest buf4 l4. gives (refl, omega (arith, ap length same))
