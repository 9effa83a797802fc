-- ===== src/Receiver/Buffer/Losses/Range.antt =====
-- Dropping a range of packets, by their numbers.
use srt_rs.Prelude.{
  ℕ, zero, suc, ◌+◌, ◌-◌, ◌≤◌, ◌<◌, ◌≡◌, refl, sym, ap₂, ◌∙◌, some, List, [], ◌∷◌, map, min, arith,
  length, leb, ltb, ◌&&◌, if◌then◌else◌,
}
use mathlib.Core.Path.{subst}
use srt_rs.Packet.SeqNumber.{SeqNumber, saturating_sub, max_value}
use srt_rs.Packet.SeqNumber.Order.{add-eq}
use srt_rs.Receiver.Buffer.{
  BufferPacket, lost, received, dropped, data_sequence_number, ReceiveBuffer,
  clamped_index_for_seqno,
}
use srt_rs.Receiver.Buffer.Window.{Numbered, IsValid}
use srt_rs.Receiver.Buffer.Losses.{drop_unreceived, drop_range, drop_packets}
use srt_rs.Receiver.Buffer.Losses.Drop.{without_lost, lost_count, drop_packets-Dropped}

-- A lost packet with a number of the range is dropped; any other packet stays.
unfoldable pub without_lost_in : SeqNumber → SeqNumber → BufferPacket → BufferPacket
without_lost_in start end p =
    if leb start (data_sequence_number p) && ltb (data_sequence_number p) end
    then without_lost p
    else p

drop_unreceived_lem : (p : BufferPacket) → (drop_unreceived p).0 ≡ without_lost p
unfolding drop_unreceived data_sequence_number
drop_unreceived_lem (lost l) = refl
drop_unreceived_lem (received d) = refl
drop_unreceived_lem (dropped q) = refl

drop_range_none : (ps : List BufferPacket) → (drop_range 0 0 ps).0 ≡ ps
unfolding drop_range
drop_range_none [] = refl
drop_range_none (p ∷ ps) = refl

module _ (start end : SeqNumber) (l : start ≤ end) where
  inside :
      (n : ℕ) (p : BufferPacket)
      → data_sequence_number p ≡ n
      → start ≤ n
      → n < end
      → without_lost p ≡ without_lost_in start end p
  unfolding without_lost_in
  inside n p e a b = ground (arith, e)

  before_range :
      (n : ℕ) (p : BufferPacket)
      → data_sequence_number p ≡ n
      → n < start
      → p ≡ without_lost_in start end p
  unfolding without_lost_in
  before_range n p e a = ground (arith, e)

  after_range :
      (n : ℕ) (p : BufferPacket)
      → data_sequence_number p ≡ n
      → end ≤ n
      → p ≡ without_lost_in start end p
  unfolding without_lost_in
  after_range n p e a = ground (arith, e)

  -- The places of the range, clamped to the buffer, are those of its numbers.
  drop_range-map :
      (n first count : ℕ) (ps : List BufferPacket)
      → Numbered n ps
      → n + length ps < max_value
      → first ≡ min (start - n) (length ps)
      → first + count ≡ min (end - n) (length ps)
      → (drop_range first count ps).0 ≡ map (without_lost_in start end) ps
  unfolding drop_range
  drop_range-map n first count [] v b f c = refl
  drop_range-map n zero zero (p ∷ ps) v b f c =
      ap₂ ◌∷◌ (after_range n p v.0 (omega (arith, f, c))) (
        sym (drop_range_none ps)
        ∙ drop_range-map (suc n) zero zero ps
            (subst (λ m. Numbered m ps) (add-eq n 1 (omega arith) ∙ omega arith) v.1) (omega arith)
            (omega (arith, f)) (omega (arith, c, f)))
  drop_range-map n zero (suc count) (p ∷ ps) v b f c =
      ap₂ ◌∷◌ (drop_unreceived_lem p ∙ inside n p v.0 (omega (arith, f)) (omega (arith, c))) (
        drop_range-map (suc n) zero count ps
          (subst (λ m. Numbered m ps) (add-eq n 1 (omega arith) ∙ omega arith) v.1) (omega arith)
          (omega (arith, f)) (omega (arith, c)))
  drop_range-map n (suc first) count (p ∷ ps) v b f c =
      ap₂ ◌∷◌ (before_range n p v.0 (omega (arith, f))) (
        drop_range-map (suc n) first count ps
          (subst (λ m. Numbered m ps) (add-eq n 1 (omega arith) ∙ omega arith) v.1) (omega arith)
          (omega (arith, f)) (omega (arith, c)))

-- While the numbers of a valid buffer do not wrap, a request to drop a range of numbers that does
-- not end before it starts does not panic and keeps the buffer valid: just the lost packets with a
-- number of the range become dropped ones, every other packet stays, and the number returned is by
-- how many the lost packets are fewer.
pub drop_packets_lem :
    {S : Type 0} (r : ReceiveBuffer S) (start end : SeqNumber)
    → IsValid r
    → r.seqno0 + length r.buffer < max_value
    → start ≤ end
    → (r' : ReceiveBuffer S) × (count : ℕ) × (drop_packets r start end ≡ some (r', count))
      × IsValid r'
      × (count + lost_count r'.buffer ≡ lost_count r.buffer)
      × (r'.buffer ≡ map (without_lost_in start end) r.buffer)
unfolding drop_packets clamped_index_for_seqno saturating_sub
drop_packets_lem r start end v b l =
    let (r', count, e, d) = drop_packets-Dropped r v start end l in
    let first = min (start - r.seqno0) (length r.buffer) in
    let last = min (end - r.seqno0) (length r.buffer) in
    let dropped_list =
      drop_range-map start end l r.seqno0 first (last - first) r.buffer v.numbered b refl
        (omega (arith, l)) in
    (r', count, e, d.valid, d.counted, ground (arith, e, dropped_list))
