-- ===== src/Sender/Buffer/Loss/Keeps.antt =====
-- A report of losses keeps the lost numbers among those of the buffer.
use srt_rs.Prelude.{
  ℕ, ◌≤◌, ◌<◌, ◌≡◌, refl, ◌∙◌, ap, sym, none, some, List, [], ◌∷◌, All, arith, length, Ordering,
}
use mathlib.Core.Path.{subst}
use srt_rs.Packet.SeqNumber
use srt_rs.Packet.SeqNumber.{SeqNumber, IsSeqNumber, max_value, max_diff, add, distance}
use srt_rs.Packet.SeqNumber.Order.{cmp-add_add, add-distance, distance-lt, add-zero}
use srt_rs.Sender.Buffer.{SendBuffer, SendBufferEntry, insert, front_packet, front_of}
use srt_rs.Sender.Buffer.Bytes.{Numbered}
use srt_rs.Sender.Buffer.Algorithm.NoPanic.{InBuffer}
use srt_rs.Sender.Buffer.Loss.{
  Loss, added, ignored, dropped, LossRange, classify, take_loss, ranges_from, add_to_loss_list,
}

module _ (P : SeqNumber → Type 0) where
  All-insert : (x : SeqNumber) (l : List SeqNumber) → P x → All P l → All P (insert x l)
  unfolding insert
  All-insert x [] p a = (p, tt)
  All-insert x (y ∷ ys) p a = by_order (SeqNumber.cmp x y) (All-insert x ys p a.1)
    where
      by_order :
          (c : Ordering)
          → All P (insert x ys)
          → All P (elim c [
            | Ordering.lt ↦ x ∷ y ∷ ys
            | Ordering.eq ↦ y ∷ ys
            | Ordering.gt ↦ y ∷ insert x ys
          ])
      by_order Ordering.lt rest = (p, a)
      by_order Ordering.eq rest = a
      by_order Ordering.gt rest = (a.0, rest)

-- A number that is added lies between the first of the buffer and the next to be sent.
added_in_window :
    {Q : Type 0} (s : SendBuffer Q) (first sent q : SeqNumber)
    → IsSeqNumber first
    → IsSeqNumber q
    → sent < max_diff
    → s.next_send ≡ add first sent
    → classify s (some first) q ≡ added
    → (i : ℕ) × (i < sent) × (q ≡ add first i)
unfolding classify SeqNumber.lt
added_in_window s first sent q h hq b n e =
    let i = distance q first in
    let p : q ≡ add first i = sym (add-distance q first hq h) in
    let l = distance-lt q first hq h in
    let front =
      ap (λ x. SeqNumber.cmp x first) p
      ∙ ap (SeqNumber.cmp (add first i)) (sym (add-zero first h))
      ∙ cmp-add_add first i 0 h l (omega arith) in
    let back =
      ap (λ x. SeqNumber.cmp x s.next_send) p
      ∙ ap (SeqNumber.cmp (add first i)) n
      ∙ cmp-add_add first i sent h l b in
    (i, ground (arith, front, back), p)

none_added : {Q : Type 0} (s : SendBuffer Q) (q : SeqNumber) → classify s none q ≡ added → ⊥
unfolding classify
none_added s q e = ground arith

module _ {Q : Type 0} (first sent : SeqNumber) (es : List SendBufferEntry) (h : IsSeqNumber first)
    (v : Numbered first es) (b : length es < max_diff) (l : sent ≤ length es) where
  -- A buffer with these packets, of which `sent` were sent, whose lost numbers are among them.
  pub record InWindow (s : SendBuffer Q) : Type 0 where
    pub buffer : s.buffer ≡ es
    pub next : s.next_send ≡ add first sent
    pub lost : All (InBuffer first es) s.lost_list

  front_added :
      (s : SendBuffer Q) (q : SeqNumber) (xs : List SendBufferEntry)
      → Numbered first xs
      → IsSeqNumber q
      → InWindow s
      → classify s (front_of xs) q ≡ added
      → InBuffer first es q
  unfolding front_of
  front_added s q [] n hq w e = absurd (none_added s q e)
  front_added s q (x ∷ xs) n hq w e =
      let (i, il, p) =
        added_in_window s first sent q h hq (omega arith) w.next
          (subst (λ f. classify s (some f) q ≡ added) n.0 e) in
      (i, omega arith, p)

  take_loss-InWindow :
      (s : SendBuffer Q) (q : SeqNumber) → IsSeqNumber q → InWindow s → InWindow (take_loss s q).0
  unfolding take_loss front_packet
  take_loss-InWindow s q hq w =
      by_class (classify s (front_of s.buffer) q)
        λ e. front_added s q s.buffer (subst (Numbered first) (sym w.buffer) v) hq w e
    where
      by_class :
          (c : Loss)
          → (c ≡ added → InBuffer first es q)
          → InWindow
              (elim c as (λ x. SendBuffer Q × Loss) [
                | added ↦ (record s { lost_list = insert q s.lost_list }, added)
                | ignored ↦ (s, ignored)
                | dropped ↦ (s, dropped)
              ]).0
      by_class added f = record {
        buffer = w.buffer;
        next = w.next;
        lost = All-insert (InBuffer first es) q s.lost_list (f refl) w.lost;
      }
      by_class ignored f = w
      by_class dropped f = w

  ranges_from-InWindow :
      (report : List SeqNumber) (s : SendBuffer Q) (r : LossRange)
      → All IsSeqNumber report
      → InWindow s
      → InWindow (ranges_from s r report).0
  unfolding ranges_from
  ranges_from-InWindow [] s r a w = w
  ranges_from-InWindow (q ∷ report) s r a w =
      ranges_from-InWindow report (take_loss s q).0 _ a.1 (take_loss-InWindow s q a.0 w)

  -- In a buffer of fewer packets than half the number space, numbered one after the other, whose
  -- next number to be sent is that of a packet or the one after the last, and whose lost numbers are
  -- among those of the packets, taking in a report of losses changes neither the packets nor the
  -- number to be sent next, and the lost numbers stay among those of the packets, whatever numbers
  -- the report has.
  pub add_to_loss_list-InWindow :
      (s : SendBuffer Q) (report : List SeqNumber)
      → All IsSeqNumber report
      → InWindow s
      → InWindow (add_to_loss_list s report).0
  unfolding add_to_loss_list
  add_to_loss_list-InWindow s [] a w = w
  add_to_loss_list-InWindow s (q ∷ report) a w =
      ranges_from-InWindow report (take_loss s q).0 _ a.1 (take_loss-InWindow s q a.0 w)
