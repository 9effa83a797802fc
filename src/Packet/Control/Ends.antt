-- ===== src/Packet/Control/Ends.antt =====
-- The control packets other than handshakes and SRT packets are parsed without a panic, whatever
-- their bytes are.
use srt_rs.Prelude.{
  ℕ, zero, suc, ◌+◌, ◌%◌, ◌^◌, ◌<◌, ◌≤◌, ◌≡◌, ap, Bool, false, Option, none, some, List, length,
  arith, ◌==◌, ltb, if_elim, ℤ, from_u32,
}
use srt_rs.Packet.Control.{
  ControlTypes, Acknowledgement, keep_alive, congestion_warning, shutdown, peer_error,
}
use srt_rs.Packet.Control.Ack as Ack
use srt_rs.Packet.Control.Codec.{
  parse, deserialize, discard_word, words_left, nonzero_ack2, read_drop, id_byte,
}
use srt_rs.Packet.Wire.{
  Wire, Parser, PacketParseError, u16, u32, ◌>>=◌, give, ok, read, read_i32, not_enough_data,
  zero_ack_sequence_number, bad_control_type,
}
use srt_rs.Packet.Wire.Laws.{bind_ok, read_long}
use srt_rs.Packet.Wire.Ends.{Ends, gives, fails, Ends_read, Ends_bind}

-- The errors of a control packet with these contents.
pub data IsControlError : PacketParseError → Type 0 where
  short : IsControlError not_enough_data
  zero_ack : IsControlError zero_ack_sequence_number
  unknown : {packet_type : ℕ} → IsControlError (bad_control_type packet_type)

unfoldable pub Any : {A : Type 0} → A → List ℕ → Type 0
Any a rest = Unit

module _ (wire : Wire) where
  word_Ends : (buf : List ℕ) → Ends Any IsControlError (discard_word wire buf)
  unfolding discard_word Any
  word_Ends buf =
      if_elim (λ (m : Parser (Unit {0})). Ends Any IsControlError (m buf)) (ltb (length buf) 4)
        (λ _. gives tt) λ l. Ends_read wire u32 buf _ (ground (arith, l)) (λ n rest _. gives tt)

  words_Ends : (fuel : ℕ) (buf : List ℕ) → Ends Any IsControlError (words_left wire fuel buf)
  unfolding words_left Any
  words_Ends zero buf = gives tt
  words_Ends (suc fuel) buf =
      if_elim (λ (m : Parser (List ℕ)). Ends Any IsControlError (m buf)) (ltb (length buf) 4)
        (λ _. gives tt)
        λ l. Ends_read wire u32 buf _ (ground (arith, l)) λ n rest _.
          Ends_bind (words_left wire fuel) _ rest (words_Ends fuel rest) (λ ws left _. gives tt)

  i32_Ends {ℓ} :
      {B : Type ℓ} {P : B → List ℕ → Type 0} (buf : List ℕ) (f : ℤ → Parser B)
      → 4 ≤ length buf
      → ((n : ℤ) (rest : List ℕ) → length buf ≡ 4 + length rest → Ends P IsControlError (f n rest))
      → Ends P IsControlError ((read_i32 wire >>= f) buf)
  unfolding read_i32
  i32_Ends buf f h go =
      Ends_bind (read wire u32 >>= (λ n. give (from_u32 n))) f buf
        (Ends_read wire u32 buf _ h (λ n rest l. gives l)) go

  if_left_Ends : (buf : List ℕ) → Ends Any IsControlError (Ack.read_if_left wire buf)
  unfolding Ack.read_if_left Any
  if_left_Ends buf =
      if_elim (λ (m : Parser (Option ℕ)). Ends Any IsControlError (m buf)) (ltb (length buf) 4)
        (λ _. gives tt) λ l. Ends_read wire u32 buf _ (ground (arith, l)) (λ n rest _. gives tt)

  statistics_Ends :
      (buf : List ℕ) → 12 ≤ length buf → Ends Any IsControlError (Ack.parse_statistics wire buf)
  unfolding Ack.parse_statistics Any
  statistics_Ends buf h = i32_Ends buf _ (omega arith) λ mean buf1 l1.
      i32_Ends buf1 _ (omega arith) λ variance buf2 l2.
        Ends_read wire u32 buf2 _ (omega arith) λ available buf3 l3.
          Ends_bind (Ack.read_if_left wire) _ buf3 (if_left_Ends buf3) λ prr buf4 _.
            Ends_bind (Ack.read_if_left wire) _ buf4 (if_left_Ends buf4) λ elc buf5 _.
              Ends_bind (Ack.read_if_left wire) _ buf5 (if_left_Ends buf5) (λ drr rest _. gives tt)

  ack_Ends : (info : ℕ) (buf : List ℕ) → Ends Any IsControlError (Ack.parse wire info buf)
  unfolding Ack.parse Ack.parse_rest Any
  ack_Ends info buf =
      if_elim (λ (m : Parser Acknowledgement). Ends Any IsControlError (m buf)) (ltb (length buf) 4)
        (λ _. fails short)
        λ l. Ends_read wire u32 buf _ (ground (arith, l)) λ n rest _.
          if_elim (λ (m : Parser Acknowledgement). Ends Any IsControlError (m rest))
            (ltb (length rest) 12) (λ _. gives tt)
            λ k.
              Ends_bind (Ack.parse_statistics wire) _ rest
                (statistics_Ends rest (ground (arith, k))) (λ stats left _. gives tt)

  drop_Ends :
      (packet_type info : ℕ) (buf : List ℕ)
      → 7 ≡ packet_type
      → Ends (λ c rest. id_byte c ≡ packet_type) IsControlError (read_drop wire info buf)
  unfolding read_drop id_byte
  drop_Ends packet_type info buf e =
      if_elim
        (λ (m : Parser ControlTypes).
          Ends (λ c rest. id_byte c ≡ packet_type) IsControlError (m buf))
        (ltb (length buf) 8) (λ _. fails short)
        λ l.
          Ends_read wire u32 buf _ (ground (arith, l))
            λ start rest k. Ends_read wire u32 rest _ (ground (arith, l, k)) (λ end left _. gives e)

  nonzero_Ends :
      (packet_type : ℕ) (n : Option ℕ) (buf : List ℕ)
      → 6 ≡ packet_type
      → Ends (λ c rest. id_byte c ≡ packet_type) IsControlError (nonzero_ack2 wire n buf)
  unfolding id_byte
  nonzero_Ends packet_type none buf e = fails zero_ack
  nonzero_Ends packet_type (some n) buf e = gives e

  module _ (packet_type bits info : ℕ) (is_ipv6 : Bool) (buf : List ℕ) where
    abbrev Arm : Parser ControlTypes → Type 0
    Arm m = Ends (λ c rest. id_byte c ≡ packet_type) IsControlError (m buf)

    -- A word that is not used is followed by the packet of the type.
    empty-Arm :
        (c : ControlTypes) → id_byte c ≡ packet_type → Arm (discard_word wire >>= (λ _. give c))
    empty-Arm c e = Ends_bind (discard_word wire) _ buf (word_Ends buf) (λ _ rest _. gives e)

    -- A control packet that is neither a handshake nor an SRT packet is parsed without a panic,
    -- whatever its bytes: to a packet of its type, or to the error that it is too short, that the
    -- number of a full acknowledgement is zero, or that its type is not known.
    pub deserialize-Ends :
        0 < packet_type
        → (packet_type == 0x7fff) ≡ false
        → Arm (deserialize wire packet_type bits info is_ipv6)
    unfolding deserialize id_byte
    deserialize-Ends h s =
        if_elim Arm (packet_type == 0) (λ e. absurd (ground (arith, e)))
          λ _.
            if_elim Arm (packet_type == 1) (λ e. empty-Arm keep_alive (ground (arith, e)))
              λ _.
                if_elim Arm (packet_type == 2)
                  (λ e.
                    Ends_bind (Ack.parse wire info) _ buf (ack_Ends info buf)
                      (λ a rest _. gives (ground (arith, e))))
                  λ _.
                    if_elim Arm (packet_type == 3)
                      (λ e.
                        Ends_bind (words_left wire (length buf)) _ buf (words_Ends (length buf) buf)
                          (λ l rest _. gives (ground (arith, e))))
                      λ _.
                        if_elim Arm (packet_type == 4)
                          (λ e. empty-Arm congestion_warning (ground (arith, e)))
                          λ _.
                            if_elim Arm (packet_type == 5)
                              (λ e. empty-Arm shutdown (ground (arith, e)))
                              λ _.
                                if_elim Arm (packet_type == 6)
                                  (λ e.
                                    Ends_bind (discard_word wire) _ buf (word_Ends buf) (λ _ rest _.
                                      nonzero_Ends packet_type (Ack.full_ack_of info) rest
                                        (ground (arith, e))))
                                  λ _.
                                    if_elim Arm (packet_type == 7)
                                      (λ e. drop_Ends packet_type info buf (ground (arith, e)))
                                      λ _.
                                        if_elim Arm (packet_type == 8)
                                          (λ e. empty-Arm (peer_error info) (ground (arith, e)))
                                          λ _.
                                            if_elim Arm (packet_type == 0x7fff)
                                              (λ e. absurd (ground (arith, e, s)))
                                              (λ _. fails unknown)

  read_rest :
      (buf rest : List ℕ) (word : ℕ)
      → 2 ≤ length buf
      → read wire u16 buf ≡ ok word rest
      → length buf ≡ 2 + length rest
  read_rest buf rest word h e =
      let (word', rest', e', l) = read_long wire u16 buf h in
      let same : rest' ≡ rest = cc in omega (arith, l, ap length same)

  pub parse-Ends_control :
      (is_ipv6 : Bool) (word : ℕ) (buf rest : List ℕ)
      → 16 ≤ length buf
      → read wire u16 buf ≡ ok word rest
      → 0 < word % 2 ^ 15
      → (word % 2 ^ 15 == 0x7fff) ≡ false
      → Ends Any IsControlError (parse wire is_ipv6 buf)
  unfolding Any parse
  parse-Ends_control is_ipv6 word buf rest h e t s = rw (bind_ok (read wire u16) _ e) (
      Ends_read wire u16 rest _ (omega (arith, read_rest buf rest word (omega arith) e))
        λ bits buf1 l1.
          Ends_read wire u32 buf1 _ (omega (arith, read_rest buf rest word (omega arith) e))
            λ info buf2 l2.
              Ends_read wire u32 buf2 _ (omega (arith, read_rest buf rest word (omega arith) e))
                λ stamp buf3 l3.
                  Ends_read wire u32 buf3 _ (omega (arith, read_rest buf rest word (omega arith) e))
                    λ dest buf4 l4.
                      Ends_bind (deserialize wire (word % 2 ^ 15) bits info is_ipv6) _ buf4
                        (deserialize-Ends (word % 2 ^ 15) bits info is_ipv6 buf4 t s)
                        (λ c left _. gives tt))
