-- ===== src/Sender/Buffer/Loss/Covers.antt =====
-- The ranges that a report of losses gives are the numbers of the report, in its order.
use srt_rs.Prelude.{
  ℕ, zero, suc, ◌+◌, ◌<◌, ◌≡◌, refl, ◌∙◌, ap, ap₂, sym, Bool, true, false, List, [], ◌∷◌, ◌++◌,
  append_assoc, arith, length, All,
}
use srt_rs.Packet.SeqNumber.{SeqNumber, IsSeqNumber, max_value, add, distance}
use srt_rs.Packet.SeqNumber.Order.{add-add, add-zero, add-IsSeqNumber, distance-add}
use srt_rs.Sender.Buffer.{SendBuffer}
use srt_rs.Sender.Buffer.Loss.{
  Loss, LossRange, take_loss, range_of, goes_on, next_range, end_range, ranges_from,
  add_to_loss_list,
}

-- The numbers of a range.
abbrev pub numbers_from : SeqNumber → ℕ → List SeqNumber
numbers_from s zero = []
numbers_from s (suc n) = s ∷ numbers_from (add s 1) n

abbrev pub numbers_of : LossRange → List SeqNumber
numbers_of r = numbers_from r.start (distance r.end r.start)

abbrev pub numbers : List LossRange → List SeqNumber
numbers [] = []
numbers (r ∷ rs) = numbers_of r ++ numbers rs

numbers_snoc :
    (s n : ℕ)
    → IsSeqNumber s
    → suc n < max_value
    → numbers_from s (suc n) ≡ numbers_from s n ++ add s n ∷ []
numbers_snoc s zero h b = ap (λ x. x ∷ []) (sym (add-zero s h))
numbers_snoc s (suc n) h b = ap (s ∷◌) (
    numbers_snoc (add s 1) n (add-IsSeqNumber s 1) (omega arith)
    ∙ ap (λ x. numbers_from (add s 1) n ++ x ∷ [])
        (add-add s 1 n h (omega arith) (omega arith) ∙ ap (add s) (omega arith)))

-- A range holds some numbers from its start on.
abbrev Holds : LossRange → ℕ → Type 0
Holds r n = IsSeqNumber r.start × (n < max_value) × (r.end ≡ add r.start n)

numbers_of_lem : (r : LossRange) (n : ℕ) → Holds r n → numbers_of r ≡ numbers_from r.start n
numbers_of_lem r n h =
    ap (numbers_from r.start) (ap (λ e. distance e r.start) h.2 ∙ distance-add r.start n h.0 h.1)

-- The statement for the rest of a report.
abbrev Rest : Type 0 → List SeqNumber → Type 0
Rest Q rest =
    (s : SendBuffer Q) (r : LossRange) (m : ℕ)
    → Holds r m
    → m + length rest < max_value
    → numbers (ranges_from s r rest).1 ≡ numbers_of r ++ rest

range_of-Holds : (loss : Loss) (next : SeqNumber) → IsSeqNumber next → Holds (range_of loss next) 1
unfolding range_of
range_of-Holds loss next a = (a, omega arith, refl)

numbers_of-range_of :
    (loss : Loss) (next : SeqNumber)
    → IsSeqNumber next
    → numbers_of (range_of loss next) ≡ next ∷ []
unfolding range_of
numbers_of-range_of loss next a = numbers_of_lem (range_of loss next) 1 (range_of-Holds loss next a)

goes_on-end :
    (current : LossRange) (loss : Loss) (next : SeqNumber)
    → goes_on current loss next ≡ true
    → next ≡ current.end
unfolding goes_on
goes_on-end current loss next e = ground arith

module _ {Q : Type 0} where
  step_numbers :
      (s : SendBuffer Q) (current : LossRange) (loss : Loss) (n : ℕ) (next : SeqNumber)
      (rest : List SeqNumber) (g : Bool)
      → (g ≡ true → next ≡ current.end)
      → Holds current n
      → n + suc (length rest) < max_value
      → IsSeqNumber next
      → Rest Q rest
      → numbers (end_range g current (ranges_from s (next_range g current loss next) rest).1)
        ≡ numbers_of current ++ next ∷ rest
  unfolding end_range next_range
  step_numbers s current loss n next rest true e h b a f =
      let at : add current.start n ≡ next = sym h.2 ∙ sym (e refl) in
      let longer : LossRange = record current { end = add next 1 } in
      let held : Holds longer (suc n) = (
        h.0,
        omega arith,
        ap (λ x. add x 1) (sym at)
            ∙ add-add current.start n 1 h.0 (omega arith) (omega arith)
            ∙ ap (add current.start) (omega arith),
      ) in
      f s longer (suc n) held (omega arith)
      ∙ ap (λ x. x ++ rest)
          (numbers_of_lem longer (suc n) held ∙ numbers_snoc current.start n h.0 (omega arith))
      ∙ append_assoc (numbers_from current.start n) (add current.start n ∷ []) rest
      ∙ ap₂ (λ x y. x ++ y ∷ rest) (sym (numbers_of_lem current n h)) at
  step_numbers s current loss n next rest false e h b a f = ap (numbers_of current ++◌) (
      f s (range_of loss next) 1 (range_of-Holds loss next a) (omega (arith, h.1))
      ∙ ap (λ x. x ++ rest) (numbers_of-range_of loss next a))

  ranges_from-numbers : (report : List SeqNumber) → All IsSeqNumber report → Rest Q report
  unfolding ranges_from
  ranges_from-numbers [] a s r m h b = refl
  ranges_from-numbers (next ∷ rest) a s r m h b =
      step_numbers (take_loss s next).0 r (take_loss s next).1 m next rest
        (goes_on r (take_loss s next).1 next) (goes_on-end r (take_loss s next).1 next) h b a.0
        (ranges_from-numbers rest a.1)

  -- The ranges that a report gives, written out, are the report: none is lost, repeated or moved.
  pub add_to_loss_list-numbers :
      (s : SendBuffer Q) (report : List SeqNumber)
      → length report < max_value
      → All IsSeqNumber report
      → numbers (add_to_loss_list s report).1 ≡ report
  unfolding add_to_loss_list
  add_to_loss_list-numbers s [] b a = refl
  add_to_loss_list-numbers s (first ∷ rest) b a =
      ranges_from-numbers rest a.1 (take_loss s first).0 (range_of (take_loss s first).1 first) 1
        (range_of-Holds (take_loss s first).1 first a.0) (omega arith)
      ∙ ap (λ x. x ++ rest) (numbers_of-range_of (take_loss s first).1 first a.0)
