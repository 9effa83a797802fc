-- ===== src/Packet/Wire/Ends.antt =====
-- What a parser ends with: a panic is none of it.
use srt_rs.Prelude.{ℕ, ◌+◌, ◌≤◌, ◌≡◌, List, length}
use srt_rs.Packet.Wire.{
  Word, Wire, size, Parser, Parsed, PacketParseError, ok, err, panicked, ◌>>=◌, read,
}
use srt_rs.Packet.Wire.Laws.{bind_ok, read_long}

-- The parser does not panic; `P` holds of its value and the bytes left, or `Q` of its error.
pub data Ends {ℓ} {A : Type ℓ} (P : A → List ℕ → Type 0) (Q : PacketParseError → Type 0)
    : Parsed A → Type ℓ where
  gives : {a : A} {rest : List ℕ} → P a rest → Ends P Q (ok a rest)
  fails : {e : PacketParseError} → Q e → Ends P Q (err e)

module _ {ℓ} {B : Type ℓ} {P : B → List ℕ → Type 0} {Q : PacketParseError → Type 0} where
  -- A word is read from a buffer that is long enough, and the parser goes on.
  pub Ends_read :
      (wire : Wire) (w : Word) (buf : List ℕ) (f : ℕ → Parser B)
      → size w ≤ length buf
      → ((n : ℕ) (rest : List ℕ) → length buf ≡ size w + length rest → Ends P Q (f n rest))
      → Ends P Q ((read wire w >>= f) buf)
  Ends_read wire w buf f h go =
      let (n, rest, e, l) = read_long wire w buf h in rw (bind_ok (read wire w) f e) (go n rest l)

module _ {ℓ κ} {A : Type κ} {B : Type ℓ} {P : B → List ℕ → Type 0} {Q : PacketParseError → Type 0}
    {R : A → List ℕ → Type 0} where
  goes_on :
      (o : Parsed A) (f : A → Parser B)
      → Ends R Q o
      → ((a : A) (rest : List ℕ) → R a rest → Ends P Q (f a rest))
      → Ends P Q (elim o [ ok a rest ↦ f a rest | err e ↦ err e | panicked ↦ panicked ])
  goes_on (ok a rest) f (gives h) go = go a rest h
  goes_on (err e) f (fails h) go = fails h
  goes_on panicked f h go = elim h [ ]

  -- A part that ends well is followed by the rest of the parser.
  pub Ends_bind :
      (m : Parser A) (f : A → Parser B) (buf : List ℕ)
      → Ends R Q (m buf)
      → ((a : A) (rest : List ℕ) → R a rest → Ends P Q (f a rest))
      → Ends P Q ((m >>= f) buf)
  Ends_bind m f buf h go = goes_on (m buf) f h go

-- An end is one of a kind that says less.
pub Ends_weaken {ℓ} :
    {A : Type ℓ} {P P' : A → List ℕ → Type 0} {Q Q' : PacketParseError → Type 0} {o : Parsed A}
    → ((a : A) (rest : List ℕ) → P a rest → P' a rest)
    → ((e : PacketParseError) → Q e → Q' e)
    → Ends P Q o
    → Ends P' Q' o
Ends_weaken f g (gives {a} {rest} h) = gives (f a rest h)
Ends_weaken f g (fails {e} h) = fails (g e h)
