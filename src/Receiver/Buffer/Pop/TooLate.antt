-- ===== src/Receiver/Buffer/Pop/TooLate.antt =====
-- Dropping the packets that are too late: it never drops past the end of the buffer.
use srt_rs.Prelude.{
  ℕ, zero, suc, ◌+◌, ◌-◌, ◌≤◌, ◌<◌, ◌≡◌, refl, ◌∙◌, ap, sym, Option, none, some, List, [], ◌∷◌, not,
  arith, length, take, drop, ltb, if◌then◌else◌, if_elim, length-take, length-drop,
  take-append-drop,
}
use mathlib.Core.Path.{subst}
use srt_rs.Packet.Instant.{Instant, plus}
use srt_rs.Packet.SeqNumber.{SeqNumber, IsSeqNumber, max_value, add, saturating_sub}
use srt_rs.Packet.SeqNumber.Order.{add-zero, add-IsSeqNumber, add-eq}
use srt_rs.Packet.TimeSpan
use srt_rs.Packet.TimeSpan.{TimeSpan}
use srt_rs.Packet.Data.{DataPacket}
use srt_rs.Receiver.RemoteClock.{RemoteClock}
use srt_rs.Receiver.Buffer.{
  BufferPacket, lost, received, dropped, data_packet, data_sequence_number, ReceiveBuffer,
  next_packet_dsn,
}
use srt_rs.Receiver.Buffer.Window.{Numbered, IsValid, add_suc, first_lost_lem}
use srt_rs.Receiver.Buffer.Push.{recalculate_lrsn}
use srt_rs.Receiver.Buffer.Pop.{
  nothing, too_late, Pop, take_too_late, last_too_late, is_too_late, drop_to, drop_too_late_packets,
}
use srt_rs.Receiver.Buffer.Pop.Outcome.{Total}

pub Numbered-drop :
    (s k : ℕ) (ps : List BufferPacket)
    → IsSeqNumber s
    → length ps < max_value
    → k ≤ length ps
    → Numbered s ps
    → Numbered (add s k) (drop k ps)
Numbered-drop s zero ps h b l v = rw (add-zero s h) v
Numbered-drop s (suc k) [] h b l v = tt
Numbered-drop s (suc k) (p ∷ ps) h b l v =
    subst (λ n. Numbered n (drop k ps)) (add_suc s k h (omega arith))
      (Numbered-drop (add s 1) k ps (add-IsSeqNumber s 1) (omega arith) (omega arith) v.1)

-- The number of the last packet found, if any, lies in the window.
abbrev InWindow : ℕ → ℕ → Option (SeqNumber × Instant) → Type 0
InWindow low high none = Unit {0}
InWindow low high (some (n, _)) = (low ≤ n) × (n < high)

module _ {S : Type 0} (clock : RemoteClock S) where
  last_too_late-received :
      (low high : ℕ) (last : Option (SeqNumber × Instant)) (d : DataPacket) (ps : List BufferPacket)
      → low ≤ d.seq_number
      → d.seq_number < high
      → ((last' : Option (SeqNumber × Instant))
          → InWindow low high last'
          → InWindow low high (last_too_late clock last' ps))
      → InWindow low high (last_too_late clock last (received d ∷ ps))
  unfolding last_too_late
  last_too_late-received low high none d ps l h f = f (some (d.seq_number, _)) (l, h)
  last_too_late-received low high (some (n, t)) d ps l h f = f (some (d.seq_number, t)) (l, h)

  last_too_late-lost :
      (last : Option (SeqNumber × Instant)) (p : BufferPacket) (ps : List BufferPacket)
      → data_packet p ≡ none
      → last_too_late clock last (p ∷ ps) ≡ last_too_late clock last ps
  unfolding last_too_late data_packet
  last_too_late-lost last (received d) ps e = cc
  last_too_late-lost none (lost d) ps e = refl
  last_too_late-lost (some x) (lost d) ps e = refl
  last_too_late-lost none (dropped d) ps e = refl
  last_too_late-lost (some x) (dropped d) ps e = refl

  last_too_late-nil :
      (low high : ℕ) (last : Option (SeqNumber × Instant))
      → InWindow low high last
      → InWindow low high (last_too_late clock last [])
  unfolding last_too_late
  last_too_late-nil low high none w = w
  last_too_late-nil low high (some x) w = w

  last_too_late-cons :
      (low high : ℕ) (p : BufferPacket) (ps : List BufferPacket)
      (last : Option (SeqNumber × Instant))
      → low ≤ data_sequence_number p
      → data_sequence_number p < high
      → InWindow low high last
      → ((last' : Option (SeqNumber × Instant))
          → InWindow low high last'
          → InWindow low high (last_too_late clock last' ps))
      → InWindow low high (last_too_late clock last (p ∷ ps))
  unfolding data_sequence_number data_packet
  last_too_late-cons low high (received d) ps last l h w f =
      last_too_late-received low high last d ps l h f
  last_too_late-cons low high (lost d) ps last l h w f =
      rw (last_too_late-lost last (lost d) ps refl) (f last w)
  last_too_late-cons low high (dropped d) ps last l h w f =
      rw (last_too_late-lost last (dropped d) ps refl) (f last w)

  last_too_late-InWindow :
      (threshold : Instant) (low high s : ℕ) (ps : List BufferPacket)
      (last : Option (SeqNumber × Instant))
      → low ≤ s
      → s + length ps ≤ high
      → high < max_value
      → Numbered s ps
      → InWindow low high last
      → InWindow low high (last_too_late clock last (take_too_late clock threshold ps))
  unfolding take_too_late
  last_too_late-InWindow threshold low high s [] last l h m v w = last_too_late-nil low high last w
  last_too_late-InWindow threshold low high s (p ∷ ps) last l h m v w =
      if_elim (λ x. InWindow low high (last_too_late clock last x)) (is_too_late clock threshold p)
        (λ late.
          last_too_late-cons low high p _ last (omega (arith, v.0)) (omega (arith, v.0)) w
            λ last' w'.
              last_too_late-InWindow threshold low high (suc s) ps last' (omega arith) (omega arith)
                m (subst (λ n. Numbered n ps) (add-eq s 1 (omega arith) ∙ omega arith) v.1) w')
        (λ stay. last_too_late-nil low high last w)

module _ {S : Type 0} (r : ReceiveBuffer S) (v : IsValid r) (now : Instant) where
  pub unchanged : Total r now (some (r, nothing))
  unchanged = (r, nothing, refl, v, refl)

  -- The window without its first packets, with its number recomputed.
  shifted-IsValid :
      (k : ℕ)
      → k ≤ length r.buffer
      → IsValid
          (recalculate_lrsn (record r { seqno0 = add r.seqno0 k; buffer = drop k r.buffer }) 0)
  unfolding recalculate_lrsn next_packet_dsn
  shifted-IsValid k h =
      let n =
        Numbered-drop r.seqno0 k r.buffer v.is_seqno0 (omega (arith, v.bounded, v.small)) h
          v.numbered in
      let l = length-drop k r.buffer in
      record {
        is_seqno0 = add-IsSeqNumber r.seqno0 k;
        small = v.small;
        bounded = omega (arith, l, v.bounded);
        numbered = n;
        is_lrsn =
            first_lost_lem (add r.seqno0 k) (drop k r.buffer) 0 _ (add-IsSeqNumber r.seqno0 k)
              (omega (arith, l, v.bounded, v.small)) n (omega arith) refl;
      }

  -- What `drop_to` gives for the number after the last and the count to drop.
  dropped_at : SeqNumber → ℕ → TimeSpan → Pop S
  dropped_at end count delay =
      if ltb (length r.buffer) count
      then none
      else some (
        recalculate_lrsn (record r { seqno0 = end; buffer = drop count r.buffer }) 0,
        too_late (record { first = r.seqno0; end = end; delay = delay }),
      )

  dropped_at-Total :
      (k : ℕ) (delay : TimeSpan)
      → k ≤ length r.buffer
      → Total r now (dropped_at (add r.seqno0 k) k delay)
  unfolding dropped_at recalculate_lrsn
  dropped_at-Total k delay h =
      if_elim (Total r now) (ltb (length r.buffer) k) (λ over. absurd (ground arith))
        λ fits. (
          _,
          _,
          refl,
          shifted-IsValid k h,
          (
            take k r.buffer,
            sym (take-append-drop k r.buffer),
            ap (add r.seqno0) (omega (arith, length-take k r.buffer)),
            refl,
            refl,
          ),
        )

  drop_to-Total :
      r.seqno0 + length r.buffer < max_value
      → (last : Option (SeqNumber × Instant)) → InWindow r.seqno0 (r.seqno0 + length r.buffer) last
      → Total r now (drop_to r now last)
  unfolding drop_to dropped_at saturating_sub
  drop_to-Total b none w = unchanged
  drop_to-Total b (some (n, t)) w =
      let k = suc n - r.seqno0 in
      let end : add r.seqno0 k ≡ add n 1 =
        add-eq r.seqno0 k (omega (arith, w))
        ∙ omega (arith, w.0)
        ∙ sym (add-eq n 1 (omega (arith, w.1))) in
      let count : k ≡ saturating_sub (add n 1) r.seqno0 =
        omega (arith, end, add-eq r.seqno0 k (omega (arith, w)), w.0) in
      let delay = TimeSpan.from_interval (plus t r.tsbpd_latency) now in
      subst (λ c. Total r now (dropped_at (add n 1) c delay)) count
        (subst (λ x. Total r now (dropped_at x k delay)) end
          (dropped_at-Total k delay (omega (arith, w))))

  pub drop_too_late_packets-Total :
      r.seqno0 + length r.buffer < max_value → Total r now (drop_too_late_packets r now)
  unfolding drop_too_late_packets
  drop_too_late_packets-Total b =
      if_elim (Total r now) (not r.too_late_packet_drop) (λ off. unchanged)
        λ on. drop_to-Total b _ (
          last_too_late-InWindow r.remote_clock _ r.seqno0 _ r.seqno0 r.buffer none (omega arith)
            (omega arith) b v.numbered tt)
