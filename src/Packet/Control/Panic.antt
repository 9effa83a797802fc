-- ===== src/Packet/Control/Panic.antt =====
-- Bytes from the network on which the parsers panic.
use srt_rs.Prelude.{
  ℕ, ◌*◌, ◌%◌, ◌^◌, ◌≤◌, ◌≡◌, ◌⊎◌, inl, inr, ap, ◌∙◌, Bool, List, [], ◌++◌, length, arith, ltb,
  if◌then◌else◌,
}
use srt_rs.Packet.Srt.Codec as Srt
use srt_rs.Packet.Srt.Text.{le_bytes_to_string, le_string, le_words}
use srt_rs.Packet.Control.Codec.{deserialize}
use srt_rs.Packet.Control.Handshake.Parse.{Found, add_ext, read_ext, within}
use srt_rs.Packet.Wire.{Wire, panicked, u16, u32_le, read, fail, read_option, not_enough_data}
use srt_rs.Packet.Wire.Laws.{bind_ok, bind_panic, bind-put, enough}

-- The type of an SRT packet with a text: a stream's identifier, a congestion control, a filter.
unfoldable pub IsTextType : ℕ → Type 0
IsTextType ty = (ty ≡ 5) ⊎ ((ty ≡ 6) ⊎ (ty ≡ 7))

module _ (wire : Wire) where
  empty_text : le_bytes_to_string wire [] ≡ panicked
  unfolding le_bytes_to_string le_string le_words read
  empty_text =
      bind_panic (read wire u32_le) _ (ap read_option (wire.get_short u32_le [] (omega arith)))

  -- The parser of a text reads its last word also when there is none.
  pub deserialize-empty_text :
      (ty info : ℕ) (is_ipv6 : Bool)
      → IsTextType ty
      → deserialize wire 0x7fff ty info is_ipv6 [] ≡ panicked
  unfolding deserialize Srt.parse IsTextType
  deserialize-empty_text ty info is_ipv6 h = bind_panic (Srt.parse wire ty) _ (text h)
    where
      text : IsTextType ty → Srt.parse wire ty [] ≡ panicked
      text (inl e) = rw e (bind_panic (le_bytes_to_string wire) _ empty_text)
      text (inr (inl e)) = rw e (bind_panic (le_bytes_to_string wire) _ empty_text)
      text (inr (inr e)) = rw e (bind_panic (le_bytes_to_string wire) _ empty_text)

  -- An extension of a handshake that is a rejection is parsed, whatever its content, and the match
  -- on it then panics.
  pub read_ext-reject :
      (found : Found) (words : ℕ) (content : List ℕ)
      → words % 2 ^ 16 * 4 ≤ length content
      → read_ext wire found (wire.put u16 0 ++ (wire.put u16 words ++ content)) ≡ panicked
  unfolding read_ext add_ext within Srt.parse
  read_ext-reject found words content h =
      let size = words % 2 ^ 16 * 4 in
      bind-put wire u16 0 _ _
      ∙ (bind-put wire u16 words content _
          ∙ bind_ok
              (if ltb (length content) size
                then fail not_enough_data
                else within size (Srt.parse wire 0))
              _ (enough size (fail not_enough_data) (within size (Srt.parse wire 0)) content h))
