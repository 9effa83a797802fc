-- ===== src/Packet/Codec/Ends.antt =====
-- Which datagrams are parsed without a panic, and one that is not.
use srt_rs.Prelude.{
  ℕ, ◌/◌, ◌%◌, ◌^◌, ◌<◌, ◌≤◌, ◌≡◌, ◌⊎◌, inl, inr, refl, ◌∙◌, Bool, true, false, List, ◌++◌, length,
  arith, ◌==◌, ltb, if_elim, if◌then◌else◌,
}
use srt_rs.Packet.Data.Codec as DataCodec
use srt_rs.Packet.Data.Total.{BothKeys}
use srt_rs.Packet.Data.Total as DataTotal
use srt_rs.Packet.Control.Codec as ControlCodec
use srt_rs.Packet.Control.Ends.{Any, IsControlError, short, parse-Ends_control}
use srt_rs.Packet.Control.Panic.{IsTextType, deserialize-empty_text}
use srt_rs.Packet.Codec.{Packet, data_packet, control_packet, first, parse}
use srt_rs.Packet.Wire.{
  Wire, Parser, PacketParseError, ok, panicked, u16, u32, read, to_bytes, ◌>>=◌, give, fail,
  not_enough_data,
}
use srt_rs.Packet.Wire.Laws.{bind-put, bind-last, bind_panic, enough, length-put_front, length-put}
use srt_rs.Packet.Wire.Ends.{Ends, gives, fails, Ends_bind, Ends_weaken}

-- A datagram that is too short, of data, or of a control packet that is neither a handshake nor an
-- SRT packet by its first two bytes.
unfoldable pub IsPlain : Wire → List ℕ → Type 0
IsPlain wire buf =
    (length buf < 16)
    ⊎ (((first buf / 128 % 2 == 0) ≡ true)
        ⊎ ((word : ℕ) × (rest : List ℕ) × (read wire u16 buf ≡ ok word rest)
            × (0 < word % 2 ^ 15)
            × ((word % 2 ^ 15 == 0x7fff) ≡ false)))

-- Both bits of the key are set, or an error of a control packet.
unfoldable pub IsPlainError : PacketParseError → Type 0
IsPlainError e = BothKeys e ⊎ IsControlError e

module _ (wire : Wire) (is_ipv6 : Bool) (buf : List ℕ) where
  data_Ends :
      16 ≤ length buf
      → Ends Any IsPlainError ((DataCodec.parse wire >>= (λ d. give (data_packet d))) buf)
  unfolding Any IsPlainError
  data_Ends h =
      Ends_bind (DataCodec.parse wire) _ buf
        (Ends_weaken (λ _ _ h. h) (λ _ h. inl h) (DataTotal.parse-Ends wire buf h))
        (λ d rest _. gives tt)

  control_Ends :
      (word : ℕ) (rest : List ℕ)
      → 16 ≤ length buf
      → read wire u16 buf ≡ ok word rest
      → 0 < word % 2 ^ 15
      → (word % 2 ^ 15 == 0x7fff) ≡ false
      → Ends Any IsPlainError
          ((ControlCodec.parse wire is_ipv6 >>= (λ c. give (control_packet c))) buf)
  unfolding Any IsPlainError
  control_Ends word rest h e t s =
      Ends_bind (ControlCodec.parse wire is_ipv6) _ buf
        (Ends_weaken (λ _ _ h. h) (λ _ h. inr h)
          (parse-Ends_control wire is_ipv6 word buf rest h e t s))
        (λ c left _. gives tt)

  -- No bytes whatever make the parser panic, if they are fewer than 16, or of a data packet, or of a
  -- control packet that is neither a handshake nor an SRT packet: they give a packet, or one of the
  -- errors of these packets.
  pub parse-Ends_packet : IsPlain wire buf → Ends Any IsPlainError (parse wire is_ipv6 buf)
  unfolding IsPlain IsPlainError Any parse
  parse-Ends_packet h =
      if_elim (λ (m : Parser Packet). Ends Any IsPlainError (m buf)) (ltb (length buf) 16)
        (λ _. fails (inr short)) λ l. kinds (ground (arith, l))
    where
      kinds :
          16 ≤ length buf
          → Ends Any IsPlainError (
              (if first buf / 128 % 2 == 0
                  then DataCodec.parse wire >>= (λ d. give (data_packet d))
                  else ControlCodec.parse wire is_ipv6 >>= (λ c. give (control_packet c)))
                buf)
      kinds l = elim h [
        | inl few ↦ absurd (omega (arith, few, l))
        | inr (inl top) ↦ rw top (data_Ends l)
        | inr (inr (word, rest, e, t, s)) ↦
            if_elim (λ (m : Parser Packet). Ends Any IsPlainError (m buf))
              (first buf / 128 % 2 == 0) (λ _. data_Ends l) (λ _. control_Ends word rest l e t s)
      ]

-- A datagram of 16 bytes, the header of an SRT packet with a text that is missing, makes the parser
-- panic, whatever its numbers are.
pub parse-empty_text :
    (wire : Wire) (is_ipv6 : Bool) (ty info stamp dest : ℕ)
    → IsTextType ty
    → parse wire is_ipv6 (
        wire.put u16 0xffff
        ++ (wire.put u16 ty ++ (wire.put u32 info ++ (wire.put u32 stamp ++ wire.put u32 dest))))
      ≡ panicked
unfolding parse ControlCodec.parse IsTextType to_bytes
parse-empty_text wire is_ipv6 ty info stamp dest h =
    let bytes =
      wire.put u16 ty ++ (wire.put u32 info ++ (wire.put u32 stamp ++ wire.put u32 dest)) in
    let top : (first (wire.put u16 0xffff ++ bytes) / 128 % 2 == 0) ≡ false =
      rw (wire.put_lem u16 0xffff) refl in
    enough 16 (fail not_enough_data) _ (wire.put u16 0xffff ++ bytes)
      (omega (arith, length-put_front wire, length-put wire))
    ∙ rw top (
        bind_panic (ControlCodec.parse wire is_ipv6) _ (
          bind-put wire u16 0xffff bytes _
          ∙ (bind-put wire u16 ty _ _
              ∙ (bind-put wire u32 info _ _
                  ∙ (bind-put wire u32 stamp _ _
                      ∙ (bind-last wire u32 dest _
                          ∙ bind_panic
                              (ControlCodec.deserialize wire 0x7fff (ty % 2 ^ 16) (info % 2 ^ 32)
                                is_ipv6)
                              _
                              (deserialize-empty_text wire (ty % 2 ^ 16) (info % 2 ^ 32) is_ipv6
                                small)))))))
  where
    small : IsTextType (ty % 2 ^ 16)
    small = ground (arith, h)
