-- ===== src/Receiver/Buffer/Window.antt =====
-- The receive buffer is a window of consecutive sequence numbers: the invariant, and its lemmas.
use srt_rs.Prelude.{
  ℕ, zero, suc, ◌+◌, ◌≤◌, ◌<◌, ◌≡◌, refl, ◌∙◌, ap, sym, some, List, [], ◌∷◌, ◌++◌, arith,
  lt_of_get_elem?, or_else, length, get_elem?, set, drop,
}
use mathlib.Core.Path.{subst}
use srt_rs.Packet.Data.{DataPacket}
use srt_rs.Packet.SeqNumber.{SeqNumber, IsSeqNumber, max_value, max_diff, add}
use srt_rs.Packet.SeqNumber.Order.{add-add, add-zero, add-IsSeqNumber}
use srt_rs.Receiver.Buffer.{
  LostPacket, BufferPacket, lost, received, dropped, data_sequence_number, ReceiveBuffer,
  lost_list_index, first_lost_or_dropped,
}

-- The packets have the sequence numbers from `s` on, one after the other.
abbrev pub Numbered : SeqNumber → List BufferPacket → Type 0
Numbered s [] = Unit {0}
Numbered s (p ∷ rest) = (data_sequence_number p ≡ s) × Numbered (add s 1) rest

-- The buffer holds at most its limit, which is less than half the number space; its packets are
-- numbered from `seqno0`; and `lrsn` is the number of the first packet that is not received.
pub record IsValid {S : Type 0} (r : ReceiveBuffer S) : Type 0 where
  pub is_seqno0 : IsSeqNumber r.seqno0
  pub small : r.max_buffer_size < max_diff
  pub bounded : length r.buffer ≤ r.max_buffer_size
  pub numbered : Numbered r.seqno0 r.buffer
  pub is_lrsn : r.lrsn ≡ add r.seqno0 (lost_list_index r.buffer)

pub lost_list_index-le : (ps : List BufferPacket) → lost_list_index ps ≤ length ps
unfolding lost_list_index
lost_list_index-le [] = omega arith
lost_list_index-le (received d ∷ ps) = omega (arith, lost_list_index-le ps)
lost_list_index-le (lost l ∷ ps) = omega arith
lost_list_index-le (dropped q ∷ ps) = omega arith

pub add_suc : (s n : ℕ) → IsSeqNumber s → suc n < max_value → add (add s 1) n ≡ add s (suc n)
add_suc s n h b = add-add s 1 n h (omega arith) (omega arith) ∙ ap (add s) (omega arith)

pub Numbered-append :
    (s : ℕ) (xs ys : List BufferPacket)
    → IsSeqNumber s
    → length xs < max_value
    → Numbered s xs
    → Numbered (add s (length xs)) ys
    → Numbered s (xs ++ ys)
Numbered-append s [] ys hs b hx hy = subst (λ n. Numbered n ys) (add-zero s hs) hy
Numbered-append s (x ∷ xs) ys hs b hx hy = (
  hx.0,
  Numbered-append (add s 1) xs ys (add-IsSeqNumber s 1) (omega arith) hx.1
      (rw (add_suc s (length xs) hs b) hy),
)

pub Numbered-get :
    (s : ℕ) (ps : List BufferPacket) (i : ℕ) (p : BufferPacket)
    → IsSeqNumber s
    → length ps < max_value
    → Numbered s ps
    → get_elem? ps i ≡ some p
    → data_sequence_number p ≡ add s i
Numbered-get s [] i p hs b h e = cc
Numbered-get s (q ∷ ps) zero p hs b h e = let e' : q ≡ p = cc in rw (← e', add-zero s hs) h.0
Numbered-get s (q ∷ ps) (suc i) p hs b h e =
    Numbered-get (add s 1) ps i p (add-IsSeqNumber s 1) (omega arith) h.1 e
    ∙ add_suc s i hs (omega (arith, lt_of_get_elem? ps i e))

pub Numbered-set :
    (s : ℕ) (ps : List BufferPacket) (i : ℕ) (p : BufferPacket)
    → IsSeqNumber s
    → i < length ps
    → length ps < max_value
    → Numbered s ps
    → data_sequence_number p ≡ add s i
    → Numbered s (set ps i p)
Numbered-set s [] i p hs l b h e = h
Numbered-set s (q ∷ ps) zero p hs l b h e = (e ∙ add-zero s hs, h.1)
Numbered-set s (q ∷ ps) (suc i) p hs l b h e = (
  h.0,
  Numbered-set (add s 1) ps i p (add-IsSeqNumber s 1) (omega arith) (omega arith) h.1
      (e ∙ sym (add_suc s i hs (omega arith))),
)

-- Looking for the first packet that is not received from any received place on finds the same.
pub first_lost_lem :
    (s : ℕ) (ps : List BufferPacket) (i : ℕ) (end : ℕ)
    → IsSeqNumber s
    → length ps < max_value
    → Numbered s ps
    → i ≤ lost_list_index ps
    → end ≡ add s (length ps)
    → or_else (first_lost_or_dropped (drop i ps)) end ≡ add s (lost_list_index ps)
unfolding first_lost_or_dropped lost_list_index data_sequence_number
first_lost_lem s [] zero end hs b h l e = e
first_lost_lem s [] (suc i) end hs b h l e = e
first_lost_lem s (lost x ∷ ps) zero end hs b h l e = h.0 ∙ sym (add-zero s hs)
first_lost_lem s (dropped x ∷ ps) zero end hs b h l e = h.0 ∙ sym (add-zero s hs)
first_lost_lem s (received d ∷ ps) zero end hs b h l e =
    first_lost_lem (add s 1) ps zero end (add-IsSeqNumber s 1) (omega arith) h.1 (omega arith)
      (e ∙ sym (add_suc s (length ps) hs b))
    ∙ add_suc s (lost_list_index ps) hs (omega (arith, lost_list_index-le ps))
first_lost_lem s (lost x ∷ ps) (suc i) end hs b h l e = absurd (omega arith)
first_lost_lem s (dropped x ∷ ps) (suc i) end hs b h l e = absurd (omega arith)
first_lost_lem s (received d ∷ ps) (suc i) end hs b h l e =
    first_lost_lem (add s 1) ps i end (add-IsSeqNumber s 1) (omega arith) h.1 (omega arith)
      (e ∙ sym (add_suc s (length ps) hs b))
    ∙ add_suc s (lost_list_index ps) hs (omega (arith, lost_list_index-le ps))

-- How the received front changes when packets are added, or one past it is written.
pub lost_list_index-append_short :
    (ps qs : List BufferPacket)
    → lost_list_index ps < length ps
    → lost_list_index (ps ++ qs) ≡ lost_list_index ps
unfolding lost_list_index
lost_list_index-append_short [] qs h = absurd (omega arith)
lost_list_index-append_short (received x ∷ ps) qs h =
    ap suc (lost_list_index-append_short ps qs (omega arith))
lost_list_index-append_short (lost x ∷ ps) qs h = refl
lost_list_index-append_short (dropped x ∷ ps) qs h = refl

pub lost_list_index-append_all :
    (ps qs : List BufferPacket)
    → lost_list_index ps ≡ length ps
    → lost_list_index (ps ++ qs) ≡ length ps + lost_list_index qs
unfolding lost_list_index
lost_list_index-append_all [] qs h = omega arith
lost_list_index-append_all (received x ∷ ps) qs h =
    omega (arith, lost_list_index-append_all ps qs (omega arith))
lost_list_index-append_all (lost x ∷ ps) qs h = absurd (omega arith)
lost_list_index-append_all (dropped x ∷ ps) qs h = absurd (omega arith)

pub lost_list_index-set :
    (ps : List BufferPacket) (i : ℕ) (d : DataPacket)
    → lost_list_index ps < i
    → lost_list_index (set ps i (received d)) ≡ lost_list_index ps
unfolding lost_list_index
lost_list_index-set [] i d h = refl
lost_list_index-set (received x ∷ ps) zero d h = absurd (omega arith)
lost_list_index-set (lost x ∷ ps) zero d h = absurd (omega arith)
lost_list_index-set (dropped x ∷ ps) zero d h = absurd (omega arith)
lost_list_index-set (received x ∷ ps) (suc i) d h =
    ap suc (lost_list_index-set ps i d (omega arith))
lost_list_index-set (lost x ∷ ps) (suc i) d h = refl
lost_list_index-set (dropped x ∷ ps) (suc i) d h = refl

pub lost_list_index-set_ge :
    (ps : List BufferPacket) (i : ℕ) (d : DataPacket)
    → i ≤ lost_list_index ps
    → i ≤ lost_list_index (set ps i (received d))
unfolding lost_list_index
lost_list_index-set_ge [] i d h = h
lost_list_index-set_ge (received x ∷ ps) zero d h = omega arith
lost_list_index-set_ge (lost x ∷ ps) zero d h = omega arith
lost_list_index-set_ge (dropped x ∷ ps) zero d h = omega arith
lost_list_index-set_ge (received x ∷ ps) (suc i) d h =
    omega (arith, lost_list_index-set_ge ps i d (omega arith))
lost_list_index-set_ge (lost x ∷ ps) (suc i) d h = absurd (omega arith)
lost_list_index-set_ge (dropped x ∷ ps) (suc i) d h = absurd (omega arith)

-- The packets before the first lost one are received.
pub received_before :
    (ps : List BufferPacket) (i : ℕ)
    → i < lost_list_index ps
    → (d : DataPacket) × (get_elem? ps i ≡ some (received d))
unfolding lost_list_index
received_before [] i h = absurd (omega arith)
received_before (received x ∷ ps) zero h = (x, refl)
received_before (received x ∷ ps) (suc i) h = received_before ps i (omega arith)
received_before (lost x ∷ ps) i h = absurd (omega arith)
received_before (dropped x ∷ ps) i h = absurd (omega arith)

-- A lost packet is not one of the received front.
pub lost_list_index-le_lost :
    (ps : List BufferPacket) (i : ℕ) (x : LostPacket)
    → get_elem? ps i ≡ some (lost x)
    → lost_list_index ps ≤ i
unfolding lost_list_index
lost_list_index-le_lost [] i x e = omega arith
lost_list_index-le_lost (received d ∷ ps) zero x e = cc
lost_list_index-le_lost (received d ∷ ps) (suc i) x e =
    omega (arith, lost_list_index-le_lost ps i x e)
lost_list_index-le_lost (lost l ∷ ps) i x e = omega arith
lost_list_index-le_lost (dropped n ∷ ps) i x e = omega arith
