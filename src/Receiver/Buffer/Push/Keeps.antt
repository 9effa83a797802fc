-- ===== src/Receiver/Buffer/Push/Keeps.antt =====
-- `push_packet` never panics, and keeps the receive buffer valid.
use srt_rs.Prelude.{
  ℕ, zero, suc, ◌+◌, ◌≤◌, ◌<◌, ◌⊎◌, ◌≡◌, refl, ◌∙◌, ap, sym, List, [], ◌∷◌, ◌++◌, arith, length,
  length-append, length-set, set, inl, inr,
}
use mathlib.Core.Path.{subst}
use native.Mathlib.Decide.{ℕ_discrete}
use srt_rs.Packet.Instant.{Instant}
use srt_rs.Packet.SeqNumber.{IsSeqNumber, max_value, add}
use srt_rs.Packet.SeqNumber.Order.{add-add, add-zero, add-IsSeqNumber, add_injective}
use srt_rs.Packet.Data.{DataPacket}
use srt_rs.Receiver.Buffer.{
  BufferPacket, received, data_sequence_number, ReceiveBuffer, lost_list_index, next_packet_dsn,
}
use srt_rs.Receiver.Buffer.Window.{
  Numbered, IsValid, lost_list_index-le, Numbered-append, Numbered-set, first_lost_lem,
  lost_list_index-append_short, lost_list_index-append_all, lost_list_index-set,
  lost_list_index-set_ge,
}
use srt_rs.Receiver.Buffer.Push.{append_data, append_lost_packets, lost_packets, recalculate_lrsn}

Numbered-lost_packets :
    (now : Instant) (start i n : ℕ)
    → IsSeqNumber start
    → i + n < max_value
    → Numbered (add start i) (lost_packets now start i n)
unfolding lost_packets data_sequence_number
Numbered-lost_packets now start i zero h b = tt
Numbered-lost_packets now start i (suc n) h b = (
  refl,
  rw (add-add start i 1 h (omega arith) (omega arith))
      (Numbered-lost_packets now start (i + 1) n h (omega arith)),
)

length-lost_packets : (now : Instant) (start i n : ℕ) → length (lost_packets now start i n) ≡ n
unfolding lost_packets
length-lost_packets now start i zero = refl
length-lost_packets now start i (suc n) = ap suc (length-lost_packets now start (i + 1) n)

lost_list_index-lost_packets :
    (now : Instant) (start i n : ℕ) → lost_list_index (lost_packets now start i n) ≡ 0
unfolding lost_packets lost_list_index
lost_list_index-lost_packets now start i zero = refl
lost_list_index-lost_packets now start i (suc n) = refl

module _ {S : Type 0} (r : ReceiveBuffer S) (v : IsValid r) where
  -- The received front of a buffer with more packets behind it.
  front_cases :
      (qs : List BufferPacket)
      → ((lost_list_index r.buffer < length r.buffer)
          × (lost_list_index (r.buffer ++ qs) ≡ lost_list_index r.buffer))
        ⊎ ((lost_list_index r.buffer ≡ length r.buffer)
            × (lost_list_index (r.buffer ++ qs) ≡ length r.buffer + lost_list_index qs))
  front_cases qs = elim (ℕ_discrete (lost_list_index r.buffer) (length r.buffer)) [
    | yes e ↦ inr (e, lost_list_index-append_all r.buffer qs e)
    | no e ↦
        let h : lost_list_index r.buffer < length r.buffer =
          omega (arith, lost_list_index-le r.buffer) in
        inl (h, lost_list_index-append_short r.buffer qs h)
  ]

  -- `lrsn` is the number at a place of the window only if that place ends the received front.
  pub lrsn_iff :
      (j : ℕ) → j ≤ r.max_buffer_size → r.lrsn ≡ add r.seqno0 j → lost_list_index r.buffer ≡ j
  lrsn_iff j h e =
      add_injective r.seqno0 (lost_list_index r.buffer) j v.is_seqno0
        (omega (arith, lost_list_index-le r.buffer)) (omega arith) (sym v.is_lrsn ∙ e)

  append_data-lrsn :
      (d : DataPacket)
      → d.seq_number ≡ next_packet_dsn r
      → (append_data r d).lrsn ≡ add r.seqno0 (lost_list_index (r.buffer ++ received d ∷ []))
  unfolding append_data next_packet_dsn lost_list_index
  append_data-lrsn d e = elim (front_cases (received d ∷ [])) [
    | inl (h, e') ↦ ground (arith, e', v.is_lrsn, lrsn_iff (length r.buffer))
    | inr (h, e') ↦ ground (
      arith,
      e',
      v.is_lrsn,
      ap (add r.seqno0) h,
      add-add r.seqno0 (length r.buffer) 1 v.is_seqno0,
    )
  ]

  pub append_data-IsValid :
      (d : DataPacket)
      → d.seq_number ≡ next_packet_dsn r
      → length r.buffer < r.max_buffer_size
      → IsValid (append_data r d)
  unfolding append_data next_packet_dsn data_sequence_number
  append_data-IsValid d e h = record {
    is_seqno0 = v.is_seqno0;
    small = v.small;
    bounded = omega (arith, length-append r.buffer (received d ∷ []));
    numbered =
        Numbered-append r.seqno0 r.buffer (received d ∷ []) v.is_seqno0 (omega arith) v.numbered
          (e, tt);
    is_lrsn = append_data-lrsn d e;
  }

  pub append_lost_packets-IsValid :
      (now : Instant) (count : ℕ)
      → length r.buffer + count ≤ r.max_buffer_size
      → IsValid (append_lost_packets r now (next_packet_dsn r) count)
  unfolding append_lost_packets next_packet_dsn
  append_lost_packets-IsValid now count h =
      let start = add r.seqno0 (length r.buffer) in
      let ps = lost_packets now start 0 count in
      record {
        is_seqno0 = v.is_seqno0;
        small = v.small;
        bounded = omega (arith, length-append r.buffer ps, length-lost_packets now start 0 count);
        numbered = Numbered-append r.seqno0 r.buffer ps v.is_seqno0 (omega arith) v.numbered (
            subst (λ n. Numbered n ps) (add-zero start (add-IsSeqNumber _ _))
              (Numbered-lost_packets now start 0 count (add-IsSeqNumber _ _) (omega arith)));
        is_lrsn = elim (front_cases ps) [
          | inl (_, e) ↦ v.is_lrsn ∙ ap (add r.seqno0) (sym e)
          | inr (full, e) ↦
              v.is_lrsn
              ∙ ap (add r.seqno0)
                  (omega (arith, full, e, lost_list_index-lost_packets now start 0 count))
        ];
      }

  pub length-append_lost_packets :
      (now : Instant) (count : ℕ)
      → length (append_lost_packets r now (next_packet_dsn r) count).buffer
        ≡ length r.buffer + count
  unfolding append_lost_packets
  length-append_lost_packets now count = omega (
    arith,
    length-append r.buffer (lost_packets now (next_packet_dsn r) 0 count),
    length-lost_packets now (next_packet_dsn r) 0 count,
  )

  -- Writing the packet of a place of the window there.
  module _ (d : DataPacket) (i : ℕ) (e : d.seq_number ≡ add r.seqno0 i)
      (h : i < length r.buffer) where
    abbrev pub written : ReceiveBuffer S
    written = record r { buffer = set r.buffer i (received d) }

    written-Numbered : Numbered r.seqno0 written.buffer
    unfolding data_sequence_number
    written-Numbered =
        Numbered-set r.seqno0 r.buffer i (received d) v.is_seqno0 h (omega arith) v.numbered e

    pub written-IsValid : lost_list_index r.buffer < i → IsValid written
    written-IsValid l = record {
      is_seqno0 = v.is_seqno0;
      small = v.small;
      bounded = omega (arith, length-set r.buffer i (received d));
      numbered = written-Numbered;
      is_lrsn = v.is_lrsn ∙ ap (add r.seqno0) (sym (lost_list_index-set r.buffer i d l));
    }

    pub recalculated-IsValid : lost_list_index r.buffer ≡ i → IsValid (recalculate_lrsn written i)
    unfolding recalculate_lrsn next_packet_dsn
    recalculated-IsValid l = record {
      is_seqno0 = v.is_seqno0;
      small = v.small;
      bounded = omega (arith, length-set r.buffer i (received d));
      numbered = written-Numbered;
      is_lrsn =
          first_lost_lem r.seqno0 written.buffer i _ v.is_seqno0
            (omega (arith, length-set r.buffer i (received d))) written-Numbered
            (lost_list_index-set_ge r.buffer i d (omega (arith, l))) refl;
    }
