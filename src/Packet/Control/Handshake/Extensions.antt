-- ===== src/Packet/Control/Handshake/Extensions.antt =====
-- The extensions of a handshake survive the wire.
use srt_rs.Prelude.{
  ℕ, zero, suc, ◌*◌, ◌%◌, ◌^◌, ◌<◌, ◌≤◌, ◌≡◌, refl, ap, ap₂, ◌∙◌, Option, none, some, List, [], ◌∷◌,
  ◌++◌, arith, length, length-append, All, take-append, drop-append, leb, ltb, false, Option-cases,
  inl, inr, if◌then◌else◌,
}
use srt_rs.Packet.Srt.{SrtControlPacket, type_id}
use srt_rs.Packet.Srt.Codec as Srt
use srt_rs.Packet.Srt.Sizes.{IsExt, Sized, sized}
use srt_rs.Packet.Control.Handshake.{put_extensions}
use srt_rs.Packet.Control.Handshake.Parse.{
  Found, add_ext, within, read_ext, read_exts, or_panic, put_back,
}
use srt_rs.Packet.Wire.{Wire, Parser, ok, u16, fail, not_enough_data}
use srt_rs.Packet.Wire.Laws.{bind_ok, bind-put, enough, length-put_front}

-- What a list of extensions makes of what was found before.
abbrev pub absorb : Found → List SrtControlPacket → Option Found
absorb found [] = some found
absorb found (ext ∷ rest) = elim (add_ext found (type_id ext) ext) [
  | none ↦ none
  | some found' ↦ absorb found' rest
]

within-append {ℓ} :
    {A : Type ℓ} (n : ℕ) (m : Parser A) (bytes rest : List ℕ) {a : A}
    → length bytes ≡ n
    → m bytes ≡ ok a []
    → within n m (bytes ++ rest) ≡ ok a rest
unfolding within
within-append n m bytes rest l e =
    ap₂ (λ left buf. put_back left (m buf)) (drop-append n bytes rest l)
      (take-append n bytes rest l)
    ∙ ap (put_back rest) e

module _ (wire : Wire) (ext : SrtControlPacket) (s : Sized wire ext) (rest : List ℕ) where
  abbrev body : List ℕ
  body = s.bytes ++ rest

  abbrev entry : List ℕ
  entry = wire.put u16 (type_id ext) ++ (wire.put u16 s.words ++ body)

  read_ext-entry :
      (found found' : Found)
      → type_id ext < 2 ^ 16
      → add_ext found (type_id ext) ext ≡ some found'
      → read_ext wire found entry ≡ ok found' rest
  unfolding read_ext
  read_ext-entry found found' ht e =
      bind-put wire u16 (type_id ext) (wire.put u16 s.words ++ body) _
      ∙ (bind-put wire u16 s.words body _
          ∙ (bind_ok
                (if ltb (length body) (s.words % 2 ^ 16 * 4)
                  then fail not_enough_data
                  else within (s.words % 2 ^ 16 * 4) (Srt.parse wire (type_id ext % 2 ^ 16)))
                _ content
              ∙ (ap (λ t. or_panic (add_ext found t ext) rest) id ∙ ap (λ o. or_panic o rest) e)))
    where
      id : type_id ext % 2 ^ 16 ≡ type_id ext
      id = omega (arith, ht)

      back : Srt.parse wire (type_id ext % 2 ^ 16) s.bytes ≡ ok ext []
      back = ap (λ t. Srt.parse wire t s.bytes) id ∙ s.back

      content :
          (if ltb (length body) (s.words % 2 ^ 16 * 4)
              then fail not_enough_data
              else within (s.words % 2 ^ 16 * 4) (Srt.parse wire (type_id ext % 2 ^ 16)))
            body
          ≡ ok ext rest
      content =
          enough (s.words % 2 ^ 16 * 4) (fail not_enough_data) _ body
            (omega (arith, length-append s.bytes rest, s.whole, s.short))
          ∙ within-append (s.words % 2 ^ 16 * 4) _ s.bytes rest (omega (arith, s.whole, s.short))
              back

  -- One round of the loop.
  read_exts-entry :
      (fuel : ℕ) (found found' : Found)
      → type_id ext < 2 ^ 16
      → add_ext found (type_id ext) ext ≡ some found'
      → read_exts wire (suc fuel) found entry ≡ read_exts wire fuel found' rest
  unfolding read_exts
  read_exts-entry fuel found found' ht e =
      let more : leb (length entry) 4 ≡ false = ground (
        arith,
        length-put_front wire u16 (type_id ext) (wire.put u16 s.words ++ body),
        length-put_front wire u16 s.words body,
        length-append s.bytes rest,
        s.whole,
        s.some_word,
      ) in
      rw more (bind_ok (read_ext wire found) _ (read_ext-entry found found' ht e))

type_id_small : (p : SrtControlPacket) → type_id p < 2 ^ 16
unfolding type_id
type_id_small p = ground arith

-- The bytes of a list of extensions: reading them with a round for each gives what they make.
pub record Read (wire : Wire) (found found' : Found) (exts : List SrtControlPacket) : Type 0 where
  pub bytes : List ℕ
  pub put : put_extensions wire exts ≡ some bytes
  pub count : length exts ≤ length bytes
  pub back : (fuel : ℕ) → length exts ≤ fuel → read_exts wire fuel found bytes ≡ ok found' []

read_exts-nil :
    (wire : Wire) (fuel : ℕ) (found : Found) → read_exts wire fuel found [] ≡ ok found []
unfolding read_exts
read_exts-nil wire zero found = refl
read_exts-nil wire (suc fuel) found = refl

Read-more :
    (wire : Wire) (found found1 found' : Found) (ext : SrtControlPacket)
    (rest : List SrtControlPacket)
    → Sized wire ext
    → add_ext found (type_id ext) ext ≡ some found1
    → Read wire found1 found' rest
    → Read wire found found' (ext ∷ rest)
unfolding put_extensions
Read-more wire found found1 found' ext rest s a tail = record {
  bytes = entry wire ext s tail.bytes;
  put = rw (s.size, s.put, tail.put) refl;
  count = omega (
    arith,
    tail.count,
    length-put_front wire u16 (type_id ext) (wire.put u16 s.words ++ (s.bytes ++ tail.bytes)),
    length-put_front wire u16 s.words (s.bytes ++ tail.bytes),
    length-append s.bytes tail.bytes,
  );
  back = rounds;
}
  where
    rounds :
        (fuel : ℕ)
        → suc (length rest) ≤ fuel
        → read_exts wire fuel found (entry wire ext s tail.bytes) ≡ ok found' []
    rounds zero l = absurd (omega arith)
    rounds (suc fuel) l =
        read_exts-entry wire ext s tail.bytes fuel found found1 (type_id_small ext) a
        ∙ tail.back fuel (omega arith)

pub read_exts_lem :
    (wire : Wire) (found found' : Found) (exts : List SrtControlPacket)
    → All (IsExt wire) exts
    → absorb found exts ≡ some found'
    → Read wire found found' exts
unfolding put_extensions
read_exts_lem wire found found' [] h e = record {
  bytes = [];
  put = refl;
  count = omega arith;
  back = λ fuel l. read_exts-nil wire fuel found ∙ ap (λ f. ok f []) (cc);
}
read_exts_lem wire found found' (ext ∷ rest) h e =
    elim (Option-cases (add_ext found (type_id ext) ext)) [
      | inl a ↦ absurd (ground (arith, a, e))
      | inr (found1, a) ↦
          Read-more wire found found1 found' ext rest (sized wire ext h.0) a
            (read_exts_lem wire found1 found' rest h.1 (rw (a, absorb) at e))
    ]
