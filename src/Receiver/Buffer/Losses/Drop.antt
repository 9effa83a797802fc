-- ===== src/Receiver/Buffer/Losses/Drop.antt =====
-- Dropping a range of packets: what it does at each place, and what it keeps.
use srt_rs.Prelude.{
  ℕ, zero, suc, ◌+◌, ◌-◌, ◌≤◌, ◌≡◌, refl, ◌∙◌, ap, sym, some, List, [], ◌∷◌, arith, length,
  get_elem?, leb, ltb, ◌&&◌, if◌then◌else◌, if_either, Option-cases, inl, inr, lt_of_get_elem?,
}
use mathlib.Core.Option
use srt_rs.Packet.SeqNumber.{SeqNumber, saturating_sub, add}
use srt_rs.Receiver.Buffer.{
  BufferPacket, lost, received, dropped, data_sequence_number, ReceiveBuffer, lost_list_index,
  clamped_index_for_seqno,
}
use srt_rs.Receiver.Buffer.Window.{Numbered, IsValid}
use srt_rs.Receiver.Buffer.Losses.{drop_unreceived, drop_range, drop_packets}

-- A lost packet is dropped; any other stays.
abbrev pub without_lost : BufferPacket → BufferPacket
without_lost (lost l) = dropped l.data_sequence_number
without_lost (received d) = received d
without_lost (dropped seq_number) = dropped seq_number

abbrev pub is_lost : BufferPacket → ℕ
is_lost (lost l) = 1
is_lost (received d) = 0
is_lost (dropped seq_number) = 0

abbrev pub lost_count : List BufferPacket → ℕ
lost_count [] = 0
lost_count (p ∷ ps) = is_lost p + lost_count ps

length-drop_range :
    (start count : ℕ) (ps : List BufferPacket) → length (drop_range start count ps).0 ≡ length ps
unfolding drop_range
length-drop_range start count [] = refl
length-drop_range zero zero (p ∷ ps) = refl
length-drop_range zero (suc count) (p ∷ ps) = ap suc (length-drop_range zero count ps)
length-drop_range (suc start) count (p ∷ ps) = ap suc (length-drop_range start count ps)

Numbered-drop_range :
    (s : SeqNumber) (start count : ℕ) (ps : List BufferPacket)
    → Numbered s ps
    → Numbered s (drop_range start count ps).0
unfolding drop_range drop_unreceived data_sequence_number
Numbered-drop_range s start count [] h = tt
Numbered-drop_range s zero zero (p ∷ ps) h = h
Numbered-drop_range s zero (suc count) (lost l ∷ ps) h =
    (h.0, Numbered-drop_range (add s 1) zero count ps h.1)
Numbered-drop_range s zero (suc count) (received l ∷ ps) h =
    (h.0, Numbered-drop_range (add s 1) zero count ps h.1)
Numbered-drop_range s zero (suc count) (dropped l ∷ ps) h =
    (h.0, Numbered-drop_range (add s 1) zero count ps h.1)
Numbered-drop_range s (suc start) count (p ∷ ps) h =
    (h.0, Numbered-drop_range (add s 1) start count ps h.1)

front-drop_range :
    (start count : ℕ) (ps : List BufferPacket)
    → lost_list_index (drop_range start count ps).0 ≡ lost_list_index ps
unfolding drop_range drop_unreceived lost_list_index
front-drop_range start count [] = refl
front-drop_range zero zero (p ∷ ps) = refl
front-drop_range zero (suc count) (lost l ∷ ps) = refl
front-drop_range zero (suc count) (received d ∷ ps) = ap suc (front-drop_range zero count ps)
front-drop_range zero (suc count) (dropped l ∷ ps) = refl
front-drop_range (suc start) count (lost l ∷ ps) = refl
front-drop_range (suc start) count (received d ∷ ps) = ap suc (front-drop_range start count ps)
front-drop_range (suc start) count (dropped l ∷ ps) = refl

-- Every place of the range has its packet without the loss; every other place is unchanged.
pub get-drop_range :
    (start count : ℕ) (ps : List BufferPacket) (i : ℕ)
    → get_elem? (drop_range start count ps).0 i ≡ (
        if leb start i && ltb i (start + count)
        then Option.map without_lost (get_elem? ps i)
        else get_elem? ps i)
unfolding drop_range drop_unreceived data_sequence_number
get-drop_range start count [] i = grind arith
get-drop_range zero zero (p ∷ ps) i = ground arith
get-drop_range zero (suc count) (lost l ∷ ps) zero = ground arith
get-drop_range zero (suc count) (received l ∷ ps) zero = ground arith
get-drop_range zero (suc count) (dropped l ∷ ps) zero = ground arith
get-drop_range zero (suc count) (lost p ∷ ps) (suc i) =
    grind (arith, get-drop_range zero count ps i)
get-drop_range zero (suc count) (received p ∷ ps) (suc i) =
    grind (arith, get-drop_range zero count ps i)
get-drop_range zero (suc count) (dropped p ∷ ps) (suc i) =
    grind (arith, get-drop_range zero count ps i)
get-drop_range (suc start) count (p ∷ ps) zero = ground arith
get-drop_range (suc start) count (p ∷ ps) (suc i) = grind (arith, get-drop_range start count ps i)

-- The number of packets dropped is the fall in the number of those lost.
count-drop_range :
    (start count : ℕ) (ps : List BufferPacket)
    → (drop_range start count ps).1 + lost_count (drop_range start count ps).0 ≡ lost_count ps
unfolding drop_range drop_unreceived
count-drop_range start count [] = refl
count-drop_range zero zero (p ∷ ps) = omega arith
count-drop_range zero (suc count) (lost l ∷ ps) = omega (arith, count-drop_range zero count ps)
count-drop_range zero (suc count) (received l ∷ ps) = omega (arith, count-drop_range zero count ps)
count-drop_range zero (suc count) (dropped l ∷ ps) = omega (arith, count-drop_range zero count ps)
count-drop_range (suc start) count (p ∷ ps) = omega (arith, count-drop_range start count ps)

module _ {S : Type 0} (r : ReceiveBuffer S) (v : IsValid r) (start end : SeqNumber) where
  -- What dropping the packets of a range leaves behind.
  pub record Dropped (r' : ReceiveBuffer S) (count : ℕ) : Type 0 where
    pub valid : IsValid r'
    pub counted : count + lost_count r'.buffer ≡ lost_count r.buffer
    pub at_place :
        (i : ℕ)
        → get_elem? r'.buffer i ≡ (
            if leb (start - r.seqno0) i && ltb i (end - r.seqno0)
            then Option.map without_lost (get_elem? r.buffer i)
            else get_elem? r.buffer i)

  -- The clamped places of the range are its places, inside the buffer.
  unclamped :
      start ≤ end
      → (i : ℕ)
      → (if leb (clamped_index_for_seqno r start) i
            && ltb i (
                clamped_index_for_seqno r start
                + (clamped_index_for_seqno r end - clamped_index_for_seqno r start))
          then Option.map without_lost (get_elem? r.buffer i)
          else get_elem? r.buffer i)
        ≡ (if leb (start - r.seqno0) i && ltb i (end - r.seqno0)
            then Option.map without_lost (get_elem? r.buffer i)
            else get_elem? r.buffer i)
  unfolding clamped_index_for_seqno saturating_sub
  unclamped h i = elim (Option-cases (get_elem? r.buffer i)) [
    | inl e ↦
        if_either
          (leb (clamped_index_for_seqno r start) i
            && ltb i (
                clamped_index_for_seqno r start
                + (clamped_index_for_seqno r end - clamped_index_for_seqno r start)))
          (leb (start - r.seqno0) i && ltb i (end - r.seqno0)) _ _ (rw e refl)
    | inr (p, e) ↦ ground (arith, lt_of_get_elem? r.buffer i e)
  ]

  -- A request to drop a range of numbers that does not end before it starts does not panic; it
  -- keeps the buffer valid, turns exactly the lost packets at the places of the range into dropped
  -- ones, and returns how many these are.
  pub drop_packets-Dropped :
      start ≤ end
      → (r' : ReceiveBuffer S) × (count : ℕ) × (drop_packets r start end ≡ some (r', count))
        × Dropped r' count
  unfolding drop_packets clamped_index_for_seqno saturating_sub
  drop_packets-Dropped h =
      let first = clamped_index_for_seqno r start in
      let count = clamped_index_for_seqno r end - first in
      let out = drop_range first count r.buffer in
      (
        record r { buffer = out.0 },
        out.1,
        ground arith,
        record {
          valid = record {
            is_seqno0 = v.is_seqno0;
            small = v.small;
            bounded = rw (length-drop_range first count r.buffer) v.bounded;
            numbered = Numbered-drop_range r.seqno0 first count r.buffer v.numbered;
            is_lrsn = v.is_lrsn ∙ ap (add r.seqno0) (sym (front-drop_range first count r.buffer));
          };
          counted = count-drop_range first count r.buffer;
          at_place = λ i. get-drop_range first count r.buffer i ∙ unclamped h i;
        },
      )
