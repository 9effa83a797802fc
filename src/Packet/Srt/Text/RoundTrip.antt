-- ===== src/Packet/Srt/Text/RoundTrip.antt =====
-- A text survives the wire, if it is not empty and does not end in a zero byte.
use srt_rs.Prelude.{
  ℕ, zero, suc, ◌+◌, ◌-◌, ◌*◌, ◌/◌, ◌%◌, ◌<◌, ◌≤◌, ◌≡◌, refl, ap, sym, ◌∙◌, true, List, [], ◌∷◌,
  ◌++◌, append-nil, arith, length, if◌then◌else◌,
}
use srt_rs.Packet.Srt.Text.{string_to_le_bytes, le_bytes_to_string, le_words, le_string, unpad}
use srt_rs.Packet.Wire.{
  Wire, ok, read, u32, u32_le, to_bytes, from_bytes, ◌>>=◌, fail, give, stream_type_not_utf8,
}
use srt_rs.Packet.Wire.Laws.{bind_ok, bind-front}

-- Bytes, of which the last is not zero.
unfoldable pub IsText : List ℕ → Type 0
IsText [] = ⊥
IsText (a ∷ []) = (0 < a) × (a < 256)
IsText (a ∷ b ∷ rest) = (a < 256) × IsText (b ∷ rest)

-- The size on the wire, a whole number of words.
pub length-string_to_le_bytes :
    (s : List ℕ) → length (string_to_le_bytes s) ≡ (length s + 3) / 4 * 4
unfolding string_to_le_bytes
length-string_to_le_bytes [] = omega arith
length-string_to_le_bytes (a ∷ []) = omega arith
length-string_to_le_bytes (a ∷ b ∷ []) = omega arith
length-string_to_le_bytes (a ∷ b ∷ c ∷ []) = omega arith
length-string_to_le_bytes (a ∷ b ∷ c ∷ d ∷ rest) = omega (arith, length-string_to_le_bytes rest)

-- A word in the order of the wire, read as little-endian and taken apart as big-endian.
swapped :
    (a b c d : ℕ)
    → a < 256
    → b < 256
    → c < 256
    → d < 256
    → to_bytes u32 (from_bytes u32_le (d ∷ c ∷ b ∷ a ∷ [])) ≡ a ∷ b ∷ c ∷ d ∷ []
unfolding to_bytes from_bytes
swapped a b c d ha hb hc hd = ground arith

-- The last word, of one to four bytes.
unpad_lem :
    (s : List ℕ)
    → IsText s
    → length s ≤ 4
    → unpad (to_bytes u32 (from_bytes u32_le (string_to_le_bytes s))) ≡ s
unfolding unpad IsText string_to_le_bytes
unpad_lem [] h l = absurd h
unpad_lem (a ∷ []) h l = rw (swapped a 0 0 0 h.1 (omega arith) (omega arith) (omega arith)) refl
unpad_lem (a ∷ b ∷ []) h l =
    rw (swapped a b 0 0 h.0 h.1.1 (omega arith) (omega arith)) (ground arith)
unpad_lem (a ∷ b ∷ c ∷ []) h l = rw (swapped a b c 0 h.0 h.1.0 h.1.1.1 (omega arith)) (ground arith)
unpad_lem (a ∷ b ∷ c ∷ d ∷ []) h l = rw (swapped a b c d h.0 h.1.0 h.1.1.0 h.1.1.1.1) (ground arith)
unpad_lem (a ∷ b ∷ c ∷ d ∷ e ∷ s) h l = absurd (omega arith)

pub nonempty : (s : List ℕ) → IsText s → 0 < length s
unfolding IsText
nonempty [] h = absurd h
nonempty (a ∷ s) h = omega arith

-- The words before the last, and the last.
record Split (wire : Wire) (s : List ℕ) : Type 0 where
  front : List ℕ
  last : List ℕ
  whole : front ++ last ≡ s
  text : IsText last
  short : length last ≤ 4
  words :
      le_words wire ((length (string_to_le_bytes s) - 1) / 4) (string_to_le_bytes s)
      ≡ ok front (string_to_le_bytes last)

module _ (wire : Wire) where
  one_word : (s : List ℕ) → IsText s → length s ≤ 4 → Split wire s
  unfolding le_words
  one_word s h l = record {
    front = [];
    last = s;
    whole = refl;
    text = h;
    short = l;
    words =
        let none_before : (length (string_to_le_bytes s) - 1) / 4 ≡ zero =
          omega (arith, length-string_to_le_bytes s) in
        rw none_before refl;
  }

  next_word :
      (a b c d : ℕ) (s : List ℕ)
      → a < 256
      → b < 256
      → c < 256
      → d < 256
      → 0 < length s
      → Split wire s
      → Split wire (a ∷ b ∷ c ∷ d ∷ s)
  unfolding le_words string_to_le_bytes
  next_word a b c d s ha hb hc hd l split = record {
    front = a ∷ b ∷ c ∷ d ∷ split.front;
    last = split.last;
    whole = ap (λ t. a ∷ b ∷ c ∷ d ∷ t) split.whole;
    text = split.text;
    short = split.short;
    words =
        let count = (length (string_to_le_bytes s) - 1) / 4 in
        let all = string_to_le_bytes (a ∷ b ∷ c ∷ d ∷ s) in
        let more : (length all - 1) / 4 ≡ suc count = omega (arith, length-string_to_le_bytes s) in
        ap (λ k. le_words wire k all) more
        ∙ (bind-front wire u32_le (d ∷ c ∷ b ∷ a ∷ []) (string_to_le_bytes s) _ refl
            ∙ (bind_ok (le_words wire count) _ split.words
                ∙ ap (λ t. ok (t ++ split.front) (string_to_le_bytes split.last))
                    (swapped a b c d ha hb hc hd)));
  }

  split : (s : List ℕ) → IsText s → Split wire s
  unfolding IsText
  split [] h = absurd h
  split (a ∷ []) h = one_word (a ∷ []) h (omega arith)
  split (a ∷ b ∷ []) h = one_word (a ∷ b ∷ []) h (omega arith)
  split (a ∷ b ∷ c ∷ []) h = one_word (a ∷ b ∷ c ∷ []) h (omega arith)
  split (a ∷ b ∷ c ∷ d ∷ []) h = one_word (a ∷ b ∷ c ∷ d ∷ []) h (omega arith)
  split (a ∷ b ∷ c ∷ d ∷ e ∷ s) h =
      next_word a b c d (e ∷ s) h.0 h.1.0 h.1.1.0 h.1.1.1.0 (omega arith) (split (e ∷ s) h.1.1.1.1)

  last_word :
      (front last : List ℕ)
      → IsText last
      → length last ≤ 4
      → wire.is_utf8 (front ++ last) ≡ true
      → (read wire u32_le >>= λ word.
            if wire.is_utf8 (front ++ unpad (to_bytes u32 word))
            then give (front ++ unpad (to_bytes u32 word))
            else fail stream_type_not_utf8)
          (string_to_le_bytes last)
        ≡ ok (front ++ last) []
  last_word front last h l utf8 =
      let one : length (string_to_le_bytes last) ≡ 4 =
        omega (arith, length-string_to_le_bytes last, nonempty last h) in
      let read_it =
        bind-front wire u32_le (string_to_le_bytes last) []
          (λ word.
            if wire.is_utf8 (front ++ unpad (to_bytes u32 word))
            then give (front ++ unpad (to_bytes u32 word))
            else fail stream_type_not_utf8)
          one in
      ap
        (read wire u32_le >>= λ word.
          if wire.is_utf8 (front ++ unpad (to_bytes u32 word))
          then give (front ++ unpad (to_bytes u32 word))
          else fail stream_type_not_utf8)
        (sym (append-nil (string_to_le_bytes last)))
      ∙ (read_it ∙ rw (unpad_lem last h l, utf8) refl)

  -- A text that is UTF-8, not empty, and does not end in a zero byte, is read back as it was put.
  pub le_bytes_to_string-string_to_le_bytes :
      (s : List ℕ)
      → IsText s
      → wire.is_utf8 s ≡ true
      → le_bytes_to_string wire (string_to_le_bytes s) ≡ ok s []
  unfolding le_bytes_to_string le_string
  le_bytes_to_string-string_to_le_bytes s h utf8 =
      let p = split s h in
      let whole : length (string_to_le_bytes s) % 4 ≡ 0 =
        omega (arith, length-string_to_le_bytes s) in
      let utf8' : wire.is_utf8 (p.front ++ p.last) ≡ true = ap wire.is_utf8 p.whole ∙ utf8 in
      rw whole (
        bind_ok (le_words wire ((length (string_to_le_bytes s) - 1) / 4)) _ p.words
        ∙ (last_word p.front p.last p.text p.short utf8' ∙ ap (λ t. ok t []) p.whole))
