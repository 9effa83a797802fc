-- ===== src/Receiver/Buffer/Losses/Feedback.antt =====
-- The loss list of a receive buffer: which numbers are reported, and how they are written.
use srt_rs.Prelude.{
  ℕ, suc, ◌+◌, ◌≤◌, ◌<◌, ◌≡◌, refl, ◌∙◌, ap, sym, List, [], ◌∷◌, arith, length, if◌then◌else◌,
  if_elim,
}
use mathlib.Core.Path.{subst}
use srt_rs.Packet.Instant.{Instant}
use srt_rs.Packet.SeqNumber.{SeqNumber, max_value, max_diff, add}
use srt_rs.Packet.SeqNumber.Order.{add-eq}
use srt_rs.Packet.TimeSpan.{TimeSpan}
use srt_rs.Packet.LossList.{done, compress_loss_list, decompress_loss_list}
use srt_rs.Packet.LossList.RoundTrip.{Rising, IsLossList, decompress-compress}
use srt_rs.Receiver.Buffer.{
  BufferPacket, lost, received, dropped, data_sequence_number, ReceiveBuffer, lost_list_index,
}
use srt_rs.Receiver.Buffer.Window.{Numbered, IsValid}
use srt_rs.Receiver.Buffer.Losses.{
  ready_for_feedback, fed_back, feed_back, feed_back_from, prepare_loss_list,
}

module _ (now : Instant) (rtt_mean : TimeSpan) where
  -- The numbers of the packets that are lost and due for a report.
  abbrev pub due_losses : List BufferPacket → List SeqNumber
  due_losses [] = []
  due_losses (lost l ∷ rest) =
      let loss_list = due_losses rest in
      if ready_for_feedback now rtt_mean l then l.data_sequence_number ∷ loss_list else loss_list
  due_losses (received d ∷ rest) = due_losses rest
  due_losses (dropped n ∷ rest) = due_losses rest

  feed_back-due : (ps : List BufferPacket) → (feed_back now rtt_mean ps).1 ≡ due_losses ps
  unfolding feed_back
  feed_back-due [] = refl
  feed_back-due (lost l ∷ ps) = grind (arith, feed_back-due ps)
  feed_back-due (received l ∷ ps) = feed_back-due ps
  feed_back-due (dropped l ∷ ps) = feed_back-due ps

  feed_back_from-due :
      (ps : List BufferPacket)
      → (feed_back_from (lost_list_index ps) now rtt_mean ps).1 ≡ due_losses ps
  unfolding feed_back_from lost_list_index
  feed_back_from-due [] = refl
  feed_back_from-due (received l ∷ ps) = feed_back_from-due ps
  feed_back_from-due (lost l ∷ ps) = feed_back-due (lost l ∷ ps)
  feed_back_from-due (dropped l ∷ ps) = feed_back-due (dropped l ∷ ps)

  -- Numbers that rise from one bound on and stay below another.
  abbrev Within : ℕ → ℕ → List ℕ → Type 0
  Within n b [] = Unit {0}
  Within n b (i ∷ rest) = (n ≤ i) × (i < b) × Within (suc i) b rest

  Within-weaken : (n m b : ℕ) (l : List ℕ) → n ≤ m → Within m b l → Within n b l
  Within-weaken n m b [] h f = tt
  Within-weaken n m b (i ∷ l) h f = (omega (arith, f.0), f.1, f.2)

  Rising-Within :
      (s n b : ℕ) (l : List ℕ)
      → s ≤ n
      → n < b
      → b < max_value
      → b < s + max_diff
      → Within (suc n) b l
      → Rising n l
  Rising-Within s n b [] h l m d w = omega arith
  Rising-Within s n b (i ∷ rest) h l m d w =
      (w.0, omega (arith, w.1), Rising-Within s i b rest (omega (arith, w.0)) w.1 m d w.2)

  due_cons :
      (s b : ℕ) (p : BufferPacket) (ps : List BufferPacket)
      → data_sequence_number p ≡ s
      → s < b
      → Within (suc s) b (due_losses ps)
      → Within s b (due_losses (p ∷ ps))
  unfolding data_sequence_number
  due_cons s b (received d) ps e l w = Within-weaken s (suc s) b _ (omega arith) w
  due_cons s b (dropped d) ps e l w = Within-weaken s (suc s) b _ (omega arith) w
  due_cons s b (lost x) ps e l w =
      if_elim (Within s b) (ready_for_feedback now rtt_mean x)
        (λ due. (
          omega (arith, e),
          omega (arith, e),
          subst (λ n. Within (suc n) b (due_losses ps)) (sym e) w,
        ))
        (λ wait. Within-weaken s (suc s) b _ (omega arith) w)

  due-Within :
      (s b : ℕ) (ps : List BufferPacket)
      → s + length ps ≤ b
      → b < max_value
      → Numbered s ps
      → Within s b (due_losses ps)
  due-Within s b [] h m v = tt
  due-Within s b (p ∷ ps) h m v =
      let rest =
        due-Within (suc s) b ps (omega arith) m
          (subst (λ n. Numbered n ps) (add-eq s 1 (omega arith) ∙ omega arith) v.1) in
      due_cons s b p ps v.0 (omega arith) rest

  due-IsLossList :
      (s b : ℕ) (l : List ℕ) → b < max_value → b < s + max_diff → Within s b l → IsLossList l
  due-IsLossList s b [] m d w = tt
  due-IsLossList s b (n ∷ rest) m d w = Rising-Within s n b rest w.0 w.1 m d w.2

length-feed_back :
    (now : Instant) (rtt_mean : TimeSpan) (ps : List BufferPacket)
    → length (feed_back now rtt_mean ps).0 ≡ length ps
unfolding feed_back
length-feed_back now rtt_mean [] = refl
length-feed_back now rtt_mean (received d ∷ ps) = ap suc (length-feed_back now rtt_mean ps)
length-feed_back now rtt_mean (dropped d ∷ ps) = ap suc (length-feed_back now rtt_mean ps)
length-feed_back now rtt_mean (lost x ∷ ps) =
    if_elim {A = List BufferPacket × List SeqNumber} (λ out. length out.0 ≡ suc (length ps))
      (ready_for_feedback now rtt_mean x) (λ due. ap suc (length-feed_back now rtt_mean ps))
      λ wait. ap suc (length-feed_back now rtt_mean ps)

Numbered-feed_back :
    (now : Instant) (rtt_mean : TimeSpan) (s : SeqNumber) (ps : List BufferPacket)
    → Numbered s ps
    → Numbered s (feed_back now rtt_mean ps).0
unfolding feed_back fed_back data_sequence_number
Numbered-feed_back now rtt_mean s [] v = tt
Numbered-feed_back now rtt_mean s (received d ∷ ps) v =
    (v.0, Numbered-feed_back now rtt_mean (add s 1) ps v.1)
Numbered-feed_back now rtt_mean s (dropped d ∷ ps) v =
    (v.0, Numbered-feed_back now rtt_mean (add s 1) ps v.1)
Numbered-feed_back now rtt_mean s (lost x ∷ ps) v =
    if_elim {A = List BufferPacket × List SeqNumber} (λ out. Numbered s out.0)
      (ready_for_feedback now rtt_mean x)
      (λ due. (v.0, Numbered-feed_back now rtt_mean (add s 1) ps v.1))
      λ wait. (v.0, Numbered-feed_back now rtt_mean (add s 1) ps v.1)

-- What `feed_back_from` at the received front keeps.
record Kept (s : SeqNumber) (ps qs : List BufferPacket) : Type 0 where
  same_length : length qs ≡ length ps
  same_numbers : Numbered s ps → Numbered s qs
  same_front : lost_list_index qs ≡ lost_list_index ps

Kept-feed_back :
    (now : Instant) (rtt_mean : TimeSpan) (s : SeqNumber) (ps : List BufferPacket)
    → Kept s ps (feed_back_from (lost_list_index ps) now rtt_mean ps).0
unfolding feed_back_from lost_list_index feed_back
Kept-feed_back now rtt_mean s [] = record {
  same_length = refl;
  same_numbers = λ v. v;
  same_front = refl;
}
Kept-feed_back now rtt_mean s (received d ∷ ps) =
    let k = Kept-feed_back now rtt_mean (add s 1) ps in
    record {
      same_length = ap suc k.same_length;
      same_numbers = λ v. (v.0, k.same_numbers v.1);
      same_front = ap suc k.same_front;
    }
Kept-feed_back now rtt_mean s (dropped d ∷ ps) = record {
  same_length = length-feed_back now rtt_mean (dropped d ∷ ps);
  same_numbers = Numbered-feed_back now rtt_mean s (dropped d ∷ ps);
  same_front = refl;
}
Kept-feed_back now rtt_mean s (lost x ∷ ps) = record {
  same_length = length-feed_back now rtt_mean (lost x ∷ ps);
  same_numbers = Numbered-feed_back now rtt_mean s (lost x ∷ ps);
  same_front =
      if_elim {A = List BufferPacket × List SeqNumber} (λ out. lost_list_index out.0 ≡ 0)
        (ready_for_feedback now rtt_mean x) (λ due. refl) λ wait. refl;
}

module _ {S : Type 0} (r : ReceiveBuffer S) (v : IsValid r) (now : Instant)
    (rtt_mean : TimeSpan) where
  -- While the numbers of a valid buffer do not wrap, its loss list is written without a panic, and
  -- the words decompress to the numbers of the packets that are lost and due for a report.
  pub prepare_loss_list-reports :
      r.seqno0 + length r.buffer < max_value
      → (words : List ℕ) × ((prepare_loss_list r now rtt_mean).1 ≡ done words)
        × (decompress_loss_list (suc (length (due_losses now rtt_mean r.buffer))) words
            ≡ done (due_losses now rtt_mean r.buffer))
  unfolding prepare_loss_list
  prepare_loss_list-reports h =
      let due = due_losses now rtt_mean r.buffer in
      let b = r.seqno0 + length r.buffer in
      let w = due-Within now rtt_mean r.seqno0 b r.buffer (omega arith) h v.numbered in
      let (words, p, q) =
        decompress-compress due
          (due-IsLossList now rtt_mean r.seqno0 b due h (omega (arith, v.small, v.bounded)) w) in
      (words, ap compress_loss_list (feed_back_from-due now rtt_mean r.buffer) ∙ p, q)

  -- Preparing a loss list keeps a buffer valid.
  pub prepare_loss_list-IsValid : IsValid (prepare_loss_list r now rtt_mean).0
  unfolding prepare_loss_list
  prepare_loss_list-IsValid =
      let k = Kept-feed_back now rtt_mean r.seqno0 r.buffer in
      record {
        is_seqno0 = v.is_seqno0;
        small = v.small;
        bounded = rw (k.same_length) v.bounded;
        numbered = k.same_numbers v.numbered;
        is_lrsn = v.is_lrsn ∙ ap (add r.seqno0) (sym k.same_front);
      }
