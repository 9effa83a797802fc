-- ===== src/Packet/Control/Content.antt =====
-- The contents of the control packets survive the wire.
use srt_rs.Prelude.{
  ℕ, zero, suc, ◌*◌, ◌^◌, ◌<◌, ◌≤◌, ◌≡◌, refl, ap, ◌∙◌, Bool, false, some, List, [], ◌∷◌, ◌++◌,
  arith, length, All, ◌==◌,
}
use srt_rs.Packet.ModularNum
use srt_rs.Packet.SeqNumber
use srt_rs.Packet.Srt.{type_id}
use srt_rs.Packet.Srt.Codec as Srt
use srt_rs.Packet.Srt.RoundTrip.{IsSrt, parse-serialize_srt}
use srt_rs.Packet.Control.{
  ControlTypes, Acknowledgement, handshake, keep_alive, ack, nak, congestion_warning, shutdown,
  ack2, drop_request, peer_error, srt, lite, small, full,
}
use srt_rs.Packet.Control.Ack as Ack
use srt_rs.Packet.Control.Ack.RoundTrip.{IsAck, parse-serialize_ack, full_number}
use srt_rs.Packet.Control.Codec.{
  deserialize, put_content, put_words, words_left, discard_word, read_drop, id_byte, reserved,
  additional_info,
}
use srt_rs.Packet.Control.Handshake.Parse as HandshakeParse
use srt_rs.Packet.Control.Handshake.RoundTrip.{IsHandshake, parse-serialize_handshake}
use srt_rs.Packet.Wire.{Wire, ok, u32, ◌>>=◌, give, fail, not_enough_data}
use srt_rs.Packet.Wire.Laws.{bind_ok, bind-put, bind-last, enough, length-put_front, length-put}

module _ (wire : Wire) where
  length-put_words : (ws : List ℕ) → length (put_words wire ws) ≡ 4 * length ws
  unfolding put_words
  length-put_words [] = refl
  length-put_words (w ∷ ws) =
      omega (arith, length-put_front wire u32 w (put_words wire ws), length-put_words ws)

  words_lem :
      (ws : List ℕ) (fuel : ℕ)
      → length ws ≤ fuel
      → All (λ w. w < 2 ^ 32) ws
      → words_left wire fuel (put_words wire ws) ≡ ok ws []
  unfolding words_left put_words
  words_lem [] zero l h = refl
  words_lem [] (suc fuel) l h = refl
  words_lem (w ∷ ws) zero l h = absurd (omega arith)
  words_lem (w ∷ ws) (suc fuel) l h =
      enough 4 (give []) _ (wire.put u32 w ++ put_words wire ws)
        (omega (arith, length-put_front wire u32 w (put_words wire ws)))
      ∙ (bind-put wire u32 w (put_words wire ws) _
          ∙ (bind_ok (words_left wire fuel) _ (words_lem ws fuel (omega arith) h.1)
              ∙ ap (λ v. ok (v ∷ ws) []) (omega (arith, h.0))))

  discard_lem : discard_word wire (wire.put u32 0) ≡ ok tt []
  unfolding discard_word
  discard_lem =
      enough 4 (give tt) _ (wire.put u32 0) (omega (arith, length-put wire u32 0))
      ∙ bind-last wire u32 0 _

  drop_lem :
      (m start end : ℕ)
      → m < 2 ^ 26
      → start < 2 ^ 31
      → end < 2 ^ 31
      → read_drop wire m (wire.put u32 start ++ wire.put u32 end) ≡ ok (drop_request m start end) []
  unfolding read_drop SeqNumber.new_truncate ModularNum.new_truncate
  drop_lem m start end hm hs he =
      enough 8 (fail not_enough_data) _ (wire.put u32 start ++ wire.put u32 end)
        (omega (arith, length-put_front wire u32 start (wire.put u32 end), length-put wire u32 end))
      ∙ (bind-put wire u32 start _ _ ∙ (bind-last wire u32 end _ ∙ ground (arith, hm, hs, he)))

  -- What the fields of a control packet must fit.
  unfoldable pub IsContent : Bool → ControlTypes → Type 0
  IsContent is_ipv6 (handshake h) = IsHandshake wire is_ipv6 h
  IsContent is_ipv6 (ack a) = IsAck a
  IsContent is_ipv6 (nak l) = All (λ w. w < 2 ^ 32) l
  IsContent is_ipv6 (ack2 n) = (0 < n) × (n < 2 ^ 32)
  IsContent is_ipv6 (drop_request m start end) = (m < 2 ^ 26) × (start < 2 ^ 31) × (end < 2 ^ 31)
  IsContent is_ipv6 (peer_error e) = e < 2 ^ 32
  IsContent is_ipv6 (srt p) = IsSrt wire p
  IsContent is_ipv6 _ = Unit

  -- The content of a packet, and parsing it.
  pub record Content (is_ipv6 : Bool) (c : ControlTypes) : Type 0 where
    pub bytes : List ℕ
    pub put : put_content wire c ≡ some bytes
    pub back : deserialize wire (id_byte c) (reserved c) (additional_info c) is_ipv6 bytes ≡ ok c []

  module _ (is_ipv6 : Bool) where
    empty_content :
        (c : ControlTypes)
        → put_content wire c ≡ some (wire.put u32 0)
        → deserialize wire (id_byte c) (reserved c) (additional_info c) is_ipv6 (wire.put u32 0)
          ≡ (discard_word wire >>= (λ _. give c)) (wire.put u32 0)
        → Content is_ipv6 c
    empty_content c p b = record {
      bytes = wire.put u32 0;
      put = p;
      back = b ∙ bind_ok (discard_word wire) _ discard_lem;
    }

    ack2_lem :
        (n : ℕ)
        → 0 < n
        → deserialize wire 6 0 n is_ipv6 (wire.put u32 0)
          ≡ (discard_word wire >>= (λ _. give (ack2 n))) (wire.put u32 0)
    unfolding deserialize Ack.full_ack_of
    ack2_lem n h = let nonzero : (n == 0) ≡ false = ground arith in rw nonzero refl

    ack_info : (a : Acknowledgement) → additional_info (ack a) ≡ full_number wire a
    unfolding additional_info
    ack_info (lite n) = refl
    ack_info (small n stats) = refl
    ack_info (full n stats fasn) = refl

    pub content : (c : ControlTypes) → IsContent is_ipv6 c → Content is_ipv6 c
    unfolding IsContent put_content deserialize id_byte reserved additional_info
    content (handshake h) i =
        let (bytes, put, back) = parse-serialize_handshake wire is_ipv6 h i in
        record {
          bytes = bytes;
          put = put;
          back = bind_ok (HandshakeParse.parse wire is_ipv6) _ back;
        }
    content keep_alive i = empty_content keep_alive refl refl
    content (ack a) i = record {
      bytes = Ack.serialize wire a;
      put = refl;
      back = bind_ok (Ack.parse wire (additional_info (ack a))) _ (
          ap (λ n. Ack.parse wire n (Ack.serialize wire a)) (ack_info a)
          ∙ parse-serialize_ack wire a i);
    }
    content (nak l) i = record {
      bytes = put_words wire l;
      put = refl;
      back =
          bind_ok (words_left wire (length (put_words wire l))) _
            (words_lem l (length (put_words wire l)) (omega (arith, length-put_words l)) i);
    }
    content congestion_warning i = empty_content congestion_warning refl refl
    content shutdown i = empty_content shutdown refl refl
    content (ack2 n) i = empty_content (ack2 n) refl (ack2_lem n i.0)
    content (drop_request m start end) i = record {
      bytes = wire.put u32 start ++ wire.put u32 end;
      put = refl;
      back = drop_lem m start end i.0 i.1 i.2;
    }
    content (peer_error e) i = empty_content (peer_error e) refl refl
    content (srt p) i =
        let (bytes, put, back) = parse-serialize_srt wire p i in
        record { bytes = bytes; put = put; back = bind_ok (Srt.parse wire (type_id p)) _ back }
