-- ===== src/Packet/Wire/Laws.antt =====
-- Reading what was put, and reading from a buffer that is long enough.
use srt_rs.Prelude.{
  ℕ, ◌+◌, ◌%◌, ◌≤◌, ◌≡◌, refl, sym, ap, ◌∙◌, List, ◌++◌, length, take, drop, length-take,
  length-drop, length-append, take-append-drop, arith, append-nil, [], ℤ, from_u32, to_u32, pos,
  negsuc, pos_part, neg_part, ltb, if◌then◌else◌, true, false, ◌^◌, ◌<◌,
}
use srt_rs.Packet.Wire.{
  Word, size, range, to_bytes, from_bytes, Wire, Parser, PacketParseError, ◌>>=◌, ok, err, panicked,
  read, read_option, read_i32, put_i32, u8, u16, u16_le, u32, u32_le,
}

length-to_bytes : (w : Word) (n : ℕ) → length (to_bytes w n) ≡ size w
unfolding to_bytes
length-to_bytes u8 n = refl
length-to_bytes u16 n = refl
length-to_bytes u16_le n = refl
length-to_bytes u32 n = refl
length-to_bytes u32_le n = refl

from_bytes-to_bytes : (w : Word) (n : ℕ) → from_bytes w (to_bytes w n) ≡ n % range w
unfolding from_bytes to_bytes
from_bytes-to_bytes u8 n = omega arith
from_bytes-to_bytes u16 n = omega arith
from_bytes-to_bytes u16_le n = omega arith
from_bytes-to_bytes u32 n = omega arith
from_bytes-to_bytes u32_le n = omega arith

pub bind_ok {ℓ κ} :
    {A : Type ℓ} {B : Type κ} (m : Parser A) (f : A → Parser B) {buf rest : List ℕ} {a : A}
    → m buf ≡ ok a rest
    → (m >>= f) buf ≡ f a rest
bind_ok m f e = rw (e, ◌>>=◌)

pub bind_err {ℓ κ} :
    {A : Type ℓ} {B : Type κ} (m : Parser A) (f : A → Parser B) {buf : List ℕ}
    {e : PacketParseError}
    → m buf ≡ err e
    → (m >>= f) buf ≡ err e
bind_err m f h = rw (h, ◌>>=◌)

pub bind_panic {ℓ κ} :
    {A : Type ℓ} {B : Type κ} (m : Parser A) (f : A → Parser B) {buf : List ℕ}
    → m buf ≡ panicked
    → (m >>= f) buf ≡ panicked
bind_panic m f h = rw (h, ◌>>=◌)

module _ (wire : Wire) where
  pub length-put : (w : Word) (n : ℕ) → length (wire.put w n) ≡ size w
  length-put w n = rw (wire.put_lem w n) (length-to_bytes w n)

  pub length-put_front :
      (w : Word) (n : ℕ) (rest : List ℕ) → length (wire.put w n ++ rest) ≡ size w + length rest
  length-put_front w n rest = omega (arith, length-append (wire.put w n) rest, length-put w n)

  pub read-put :
      (w : Word) (n : ℕ) (rest : List ℕ)
      → read wire w (wire.put w n ++ rest) ≡ ok (n % range w) rest
  unfolding read
  read-put w n rest =
      rw (wire.put_lem w n, wire.get_front w (to_bytes w n) rest (length-to_bytes w n))
        (ap (λ k. ok k rest) (from_bytes-to_bytes w n))

  -- A buffer that is long enough is read without a panic, and a word's bytes leave it.
  pub read_long :
      (w : Word) (buf : List ℕ)
      → size w ≤ length buf
      → (n : ℕ) × (rest : List ℕ) × (read wire w buf ≡ ok n rest)
        × (length buf ≡ size w + length rest)
  unfolding read
  read_long w buf h =
      let front = take (size w) buf in
      let rest = drop (size w) buf in
      let whole : front ++ rest ≡ buf = take-append-drop (size w) buf in
      let short : length front ≡ size w = omega (arith, length-take (size w) buf) in
      (
        from_bytes w front,
        rest,
        ap read_option (ap (wire.get w) (sym whole) ∙ wire.get_front w front rest short),
        omega (arith, length-drop (size w) buf),
      )

-- A parser goes on with what was put, and with what another gives.
pub bind-put {ℓ} :
    {B : Type ℓ} (wire : Wire) (w : Word) (n : ℕ) (rest : List ℕ) (f : ℕ → Parser B)
    → (read wire w >>= f) (wire.put w n ++ rest) ≡ f (n % range w) rest
bind-put wire w n rest f = bind_ok (read wire w) f (read-put wire w n rest)

-- The range of an `i32`.
abbrev pub IsI32 : ℤ → Type 0
IsI32 z = (pos_part z < 2 ^ 31) × (neg_part z ≤ 2 ^ 31)

from_u32-to_u32 : (z : ℤ) → IsI32 z → from_u32 (to_u32 z % 2 ^ 32) ≡ z
unfolding from_u32 to_u32
from_u32-to_u32 (pos n) h = ground arith
from_u32-to_u32 (negsuc n) h = ground arith

read_i32-put_i32 :
    (wire : Wire) (z : ℤ) (rest : List ℕ)
    → IsI32 z
    → read_i32 wire (put_i32 wire z ++ rest) ≡ ok z rest
unfolding read_i32 put_i32
read_i32-put_i32 wire z rest h =
    bind-put wire u32 (to_u32 z) rest _ ∙ ap (λ k. ok k rest) (from_u32-to_u32 z h)

pub bind-put_i32 {ℓ} :
    {B : Type ℓ} (wire : Wire) (z : ℤ) (rest : List ℕ) (f : ℤ → Parser B)
    → IsI32 z
    → (read_i32 wire >>= f) (put_i32 wire z ++ rest) ≡ f z rest
bind-put_i32 wire z rest f h = bind_ok (read_i32 wire) f (read_i32-put_i32 wire z rest h)

pub length-put_i32 : (wire : Wire) (z : ℤ) → length (put_i32 wire z) ≡ 4
unfolding put_i32
length-put_i32 wire z = length-put wire u32 (to_u32 z)

-- The test on the bytes that are left.
module _ {ℓ} {B : Type ℓ} (n : ℕ) (short long : Parser B) (buf : List ℕ) where
  pub enough : n ≤ length buf → (if ltb (length buf) n then short else long) buf ≡ long buf
  enough h = let t : ltb (length buf) n ≡ false = ground arith in rw t refl

  pub lacking : length buf < n → (if ltb (length buf) n then short else long) buf ≡ short buf
  lacking h = let t : ltb (length buf) n ≡ true = ground arith in rw t refl

-- A word is read off bytes that stand in front.
pub bind-front {ℓ} :
    {B : Type ℓ} (wire : Wire) (w : Word) (bytes rest : List ℕ) (f : ℕ → Parser B)
    → length bytes ≡ size w
    → (read wire w >>= f) (bytes ++ rest) ≡ f (from_bytes w bytes) rest
unfolding read
bind-front wire w bytes rest f h =
    bind_ok (read wire w) f (ap read_option (wire.get_front w bytes rest h))

-- The last word of a buffer.
pub bind-last {ℓ} :
    {B : Type ℓ} (wire : Wire) (w : Word) (n : ℕ) (f : ℕ → Parser B)
    → (read wire w >>= f) (wire.put w n) ≡ f (n % range w) []
bind-last wire w n f =
    ap (read wire w >>= f) (sym (append-nil (wire.put w n))) ∙ bind-put wire w n [] f
