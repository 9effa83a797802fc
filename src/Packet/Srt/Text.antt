-- ===== src/Packet/Srt/Text.antt =====
-- srt-protocol/src/packet/control/srt.rs: strings as little-endian words, and the filter's list of
-- pairs.
pub mod RoundTrip
use srt_rs.Prelude.{
  ℕ, zero, suc, ◌+◌, ◌-◌, ◌/◌, ◌%◌, Bool, true, false, Option, none, some, List, [], ◌∷◌, ◌++◌,
  length, ◌==◌, ltb, ◌&&◌, if◌then◌else◌,
}
use srt_rs.Packet.Wire.{
  Wire, Parser, ◌>>=◌, ◌>>◌, give, fail, panic, remaining, read, u32, u32_le, to_bytes,
  not_enough_data, stream_type_not_utf8, bad_filter,
}

-- The bytes of the last word, without its padding.
unfoldable pub unpad : List ℕ → List ℕ
unpad (a ∷ b ∷ c ∷ d ∷ []) =
    if (b == 0) && ((c == 0) && (d == 0))
    then a ∷ []
    else if (c == 0) && (d == 0)
    then a ∷ b ∷ []
    else if d == 0
    then a ∷ b ∷ c ∷ []
    else a ∷ b ∷ c ∷ d ∷ []
unpad bytes = bytes

unfoldable pub string_to_le_bytes : List ℕ → List ℕ
string_to_le_bytes [] = []
string_to_le_bytes (a ∷ []) = 0 ∷ 0 ∷ 0 ∷ a ∷ []
string_to_le_bytes (a ∷ b ∷ []) = 0 ∷ 0 ∷ b ∷ a ∷ []
string_to_le_bytes (a ∷ b ∷ c ∷ []) = 0 ∷ c ∷ b ∷ a ∷ []
string_to_le_bytes (a ∷ b ∷ c ∷ d ∷ rest) = d ∷ c ∷ b ∷ a ∷ string_to_le_bytes rest

module _ (wire : Wire) where
  -- The loop while there are more than 4 bytes, over the words before the last.
  unfoldable pub le_words : ℕ → Parser (List ℕ)
  le_words zero = give []
  le_words (suc n) = do word ← read wire u32_le; rest ← le_words n; give (to_bytes u32 word ++ rest)

  unfoldable pub le_string : ℕ → Parser (List ℕ)
  unfolding le_words unpad
  le_string count = do
    front ← le_words ((count - 1) / 4)
    last ← read wire u32_le
    let bytes = front ++ unpad (to_bytes u32 last)
    if wire.is_utf8 bytes then give bytes else fail stream_type_not_utf8

  unfoldable pub le_bytes_to_string : Parser (List ℕ)
  unfolding le_string
  le_bytes_to_string = do
    count ← remaining
    if count % 4 == 0 then le_string count else fail not_enough_data

-- `split` at a byte: the parts between, of which there is one at least.
unfoldable pub split : ℕ → List ℕ → List ℕ × List (List ℕ)
split at [] = ([], [])
split at (x ∷ xs) =
    let (part, parts) = split at xs in if x == at then ([], part ∷ parts) else (x ∷ part, parts)

unfoldable pub lexicographic : List ℕ → List ℕ → Bool
lexicographic [] [] = false
lexicographic [] (y ∷ ys) = true
lexicographic (x ∷ xs) [] = false
lexicographic (x ∷ xs) (y ∷ ys) =
    let rest = lexicographic xs ys in if ltb x y then true else if x == y then rest else false

abbrev pub same : List ℕ → List ℕ → Bool
same [] [] = true
same [] (y ∷ ys) = false
same (x ∷ xs) [] = false
same (x ∷ xs) (y ∷ ys) = (x == y) && same xs ys

-- `BTreeMap::insert`
unfoldable pub insert : List ℕ → List ℕ → List (List ℕ × List ℕ) → List (List ℕ × List ℕ)
unfolding lexicographic
insert k v [] = (k, v) ∷ []
insert k v ((j, w) ∷ m) =
    if same k j
    then (k, v) ∷ m
    else if lexicographic k j
    then (k, v) ∷ (j, w) ∷ m
    else (j, w) ∷ insert k v m

-- A pair has just one colon.
abbrev one_colon : List ℕ → List (List ℕ) → Option (List ℕ × List ℕ)
one_colon k (v ∷ []) = some (k, v)
one_colon k _ = none

unfoldable pub pair_of : List ℕ → Option (List ℕ × List ℕ)
unfolding split
pair_of kv = let (k, parts) = split b':' kv in one_colon k parts

-- The pairs are inserted from the first on.
unfoldable pub pairs_of : List (List ℕ) → List (List ℕ × List ℕ) → Option (List (List ℕ × List ℕ))
unfolding pair_of insert
pairs_of [] m = some m
pairs_of (kv ∷ rest) m = elim (pair_of kv) [
  | none ↦ none
  | some (k, v) ↦ pairs_of rest (insert k v m)
]

unfoldable pub filter_of : List ℕ → Parser (List (List ℕ × List ℕ))
unfolding split pairs_of
filter_of text =
    let (part, parts) = split b',' text in
    elim (pairs_of (part ∷ parts) []) [ none ↦ fail (bad_filter text) | some m ↦ give m ]

-- `Display` of a filter
unfoldable pub show_filter : List (List ℕ × List ℕ) → List ℕ
show_filter [] = []
show_filter ((k, v) ∷ []) = k ++ b':' ∷ v
show_filter ((k, v) ∷ next ∷ rest) = k ++ b':' ∷ (v ++ b',' ∷ show_filter (next ∷ rest))
