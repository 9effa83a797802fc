-- ===== src/Packet/Wire.antt =====
-- The wire format of the packets: what srt-protocol/src/packet uses of the package `bytes`, as the
-- parameter `Wire`, the errors of srt-protocol/src/packet/error.rs, and the monad of the parsers. A
-- buffer is the list of the bytes that are left in it.
pub mod Laws
pub mod Ends
pub mod BigEndian
use srt_rs.Prelude.{
  ℕ, ◌+◌, ◌*◌, ◌/◌, ◌%◌, ◌^◌, ◌<◌, ◌≡◌, Bool, true, Option, none, some, List, [], ◌∷◌, ◌++◌, length,
  ℤ, from_u32, to_u32,
}

-- The words that packets are made of, big-endian unless marked.
pub data Word : Type 0 where
  u8 u16 u16_le u32 u32_le : Word

abbrev pub size : Word → ℕ
size u8 = 1
size u16 = 2
size u16_le = 2
size u32 = 4
size u32_le = 4

abbrev pub range : Word → ℕ
range u8 = 2 ^ 8
range u16 = 2 ^ 16
range u16_le = 2 ^ 16
range u32 = 2 ^ 32
range u32_le = 2 ^ 32

-- `to_be_bytes` and `to_le_bytes` of the standard library
unfoldable pub to_bytes : Word → ℕ → List ℕ
to_bytes u8 n = n % 256 ∷ []
to_bytes u16 n = n / 256 % 256 ∷ n % 256 ∷ []
to_bytes u16_le n = n % 256 ∷ n / 256 % 256 ∷ []
to_bytes u32 n = n / 2 ^ 24 % 256 ∷ n / 2 ^ 16 % 256 ∷ n / 2 ^ 8 % 256 ∷ n % 256 ∷ []
to_bytes u32_le n = n % 256 ∷ n / 2 ^ 8 % 256 ∷ n / 2 ^ 16 % 256 ∷ n / 2 ^ 24 % 256 ∷ []

-- `from_be_bytes` and `from_le_bytes`, on the bytes of a word
unfoldable pub from_bytes : Word → List ℕ → ℕ
from_bytes u8 (a ∷ []) = a
from_bytes u16 (a ∷ b ∷ []) = a * 2 ^ 8 + b
from_bytes u16_le (a ∷ b ∷ []) = b * 2 ^ 8 + a
from_bytes u32 (a ∷ b ∷ c ∷ d ∷ []) = a * 2 ^ 24 + b * 2 ^ 16 + c * 2 ^ 8 + d
from_bytes u32_le (a ∷ b ∷ c ∷ d ∷ []) = d * 2 ^ 24 + c * 2 ^ 16 + b * 2 ^ 8 + a
from_bytes _ _ = 0

-- `Buf::get_u8` and so on take a word off the front, and panic (`none`) if there are not enough
-- bytes; `BufMut::put_u8` and so on append the bytes of a word. `is_utf8` is the test of
-- `String::from_utf8`.
pub record Wire : Type 0 where
  pub get : Word → List ℕ → Option (ℕ × List ℕ)
  pub put : Word → ℕ → List ℕ
  pub is_utf8 : List ℕ → Bool
  pub get_short : (w : Word) (buf : List ℕ) → length buf < size w → get w buf ≡ none
  pub get_front :
      (w : Word) (bytes rest : List ℕ)
      → length bytes ≡ size w
      → get w (bytes ++ rest) ≡ some (from_bytes w bytes, rest)
  pub put_lem : (w : Word) (n : ℕ) → put w n ≡ to_bytes w n

pub data PacketParseError : Type 0 where
  not_enough_data : PacketParseError
  bad_udt_version : ℤ → PacketParseError
  bad_connection_type : ℤ → PacketParseError
  bad_socket_type : ℕ → PacketParseError
  bad_control_type : ℕ → PacketParseError
  unsupported_srt_extension_type : ℕ → PacketParseError
  bad_srt_extension_message : PacketParseError
  bad_crypto_length : ℕ → PacketParseError
  bad_cipher_kind : ℕ → PacketParseError
  bad_key_packet_type : ℕ → PacketParseError
  bad_key_sign : ℕ → PacketParseError
  bad_auth : ℕ → PacketParseError
  bad_stream_encapsulation : ℕ → PacketParseError
  stream_encapsulation_not_srt : PacketParseError
  bad_data_encryption : ℕ → PacketParseError
  stream_type_not_utf8 : PacketParseError
  zero_ack_sequence_number : PacketParseError
  bad_filter : List ℕ → PacketParseError

-- The outcome of a parser: a value and the bytes that are left, an error, or a panic.
pub data Parsed {ℓ} (A : Type ℓ) : Type ℓ where
  ok : A → List ℕ → Parsed A
  err : PacketParseError → Parsed A
  panicked : Parsed A

abbrev pub Parser {ℓ} : Type ℓ → Type ℓ
Parser A = List ℕ → Parsed A

infixl 5 ◌>>=◌ ◌>>◌
abbrev pub ◌>>=◌ {ℓ κ} : {A : Type ℓ} {B : Type κ} → Parser A → (A → Parser B) → Parser B
◌>>=◌ m f buf = elim (m buf) [ ok a rest ↦ f a rest | err e ↦ err e | panicked ↦ panicked ]

abbrev pub ◌>>◌ {ℓ κ} : {A : Type ℓ} {B : Type κ} → Parser A → Parser B → Parser B
m >> k = m >>= λ _. k

abbrev pub give {ℓ} : {A : Type ℓ} → A → Parser A
give a buf = ok a buf

abbrev pub fail {ℓ} : {A : Type ℓ} → PacketParseError → Parser A
fail e buf = err e

abbrev pub panic {ℓ} : {A : Type ℓ} → Parser A
panic buf = panicked

-- `buf.remaining()`
abbrev pub remaining : Parser ℕ
remaining buf = ok (length buf) buf

-- `copy_to_bytes(remaining())`
abbrev pub take_all : Parser (List ℕ)
take_all buf = ok buf []

abbrev pub read_option : Option (ℕ × List ℕ) → Parsed ℕ
read_option none = panicked
read_option (some (n, rest)) = ok n rest

module _ (wire : Wire) where
  unfoldable pub read : Word → Parser ℕ
  read w buf = read_option (wire.get w buf)

  -- `get_i32` and `put_i32` read a word as a signed number.
  unfoldable pub read_i32 : Parser ℤ
  unfolding read from_u32
  read_i32 = read u32 >>= λ n. give (from_u32 n)

  unfoldable pub put_i32 : ℤ → List ℕ
  unfolding to_u32
  put_i32 n = wire.put u32 (to_u32 n)
