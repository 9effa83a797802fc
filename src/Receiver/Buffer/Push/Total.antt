-- ===== src/Receiver/Buffer/Push/Total.antt =====
-- `push_packet` never panics, keeps the receive buffer valid, and stores a packet or changes nothing.
use mathlib.Core.Path.{subst}
use srt_rs.Prelude.{
  ℕ, ◌+◌, ◌-◌, ◌<◌, ◌≡◌, ◌≢◌, refl, ◌∙◌, ap, sym, true, false, Option, none, some, List, arith,
  ◌&&◌, lt_of_get_elem?, length, get_elem?, get_elem?-length, get_elem?-append_length,
  get_elem?-set_self, ==_iff, if_elim, if◌then◌else◌, ◌==◌, ltb, Ordering,
}
use native.Mathlib.Decide.{ℕ_discrete}
use srt_rs.Packet.Instant.{Instant}
use srt_rs.Packet.SeqNumber
use srt_rs.Packet.SeqNumber.{SeqNumber, IsSeqNumber, max_value, max_diff, add, distance}
use srt_rs.Packet.SeqNumber.Order.{
  cmp-add_add, distance-add_add, add-distance, distance-lt, lt-add_add, add-zero,
}
use srt_rs.Packet.LossList
use srt_rs.Packet.Data.{DataPacket}
use srt_rs.Receiver.Buffer.{
  LostPacket, BufferPacket, lost, received, dropped, ReceiveBuffer, buffer_available,
  lost_list_index, next_packet_dsn, index_for_seqno,
}
use srt_rs.Receiver.Buffer.Window.{IsValid, lost_list_index-le_lost}
use srt_rs.Receiver.Buffer.Push.{
  append_data, append_next, append_lost_packets, append_with_loss, report_loss, recover_entry,
  recover_at, recover_index, push_ordered, recalculate_lrsn, push_packet, DataPacketError,
  DataResult, ok, err, Push, DataPacketAction, received_data,
}
use srt_rs.Receiver.Buffer.Push.Keeps.{
  append_data-IsValid, append_lost_packets-IsValid, length-append_lost_packets, written-IsValid,
  recalculated-IsValid, lrsn_iff,
}

module _ {S : Type 0} where
  -- A packet that is accepted stands at the place of its number; one that is refused changes
  -- nothing.
  abbrev pub Stored : ReceiveBuffer S → DataPacket → ReceiveBuffer S → DataResult → Type 0
  Stored r d r' (ok action) =
      get_elem? r'.buffer (distance d.seq_number r.seqno0) ≡ some (received d)
  Stored r d r' (err e) = r' ≡ r

  -- What a push that does not panic leaves behind.
  pub record Pushed (r : ReceiveBuffer S) (d : DataPacket) (out : ReceiveBuffer S × DataResult)
      : Type 0 where
    pub valid : IsValid out.0
    pub window : out.0.seqno0 ≡ r.seqno0
    pub stored : Stored r d out.0 out.1

module _ {S : Type 0} (r : ReceiveBuffer S) (v : IsValid r) (d : DataPacket)
    (hd : IsSeqNumber d.seq_number) where
  -- The place of the packet, counted from the front of the buffer.
  abbrev place : ℕ
  place = distance d.seq_number r.seqno0

  place_lem : d.seq_number ≡ add r.seqno0 place
  place_lem = sym (add-distance d.seq_number r.seqno0 hd v.is_seqno0)

  place-lt : place < max_value
  place-lt = distance-lt d.seq_number r.seqno0 hd v.is_seqno0

  abbrev Total : Push S → Type 0
  Total m = (out : ReceiveBuffer S × DataResult) × (m ≡ some out) × Pushed r d out

  refused : (e : DataPacketError) → Pushed r d (r, err e)
  refused e = record { valid = v; window = refl; stored = refl }

  -- The order of the packet and of the next number of the buffer is that of their places.
  cmp-next : SeqNumber.cmp d.seq_number (next_packet_dsn r) ≡ (
      if place == length r.buffer
      then Ordering.eq
      else if ltb (length r.buffer) place && ltb place (length r.buffer + max_diff)
      then Ordering.gt
      else Ordering.lt)
  unfolding next_packet_dsn
  cmp-next =
      ap (λ n. SeqNumber.cmp n (next_packet_dsn r)) place_lem
      ∙ cmp-add_add r.seqno0 place (length r.buffer) v.is_seqno0 place-lt
          (omega (arith, v.bounded, v.small))

  append_next-Pushed : place ≡ length r.buffer → Pushed r d (append_next r d)
  unfolding append_next append_data next_packet_dsn buffer_available
  append_next-Pushed e =
      if_elim (Pushed r d) (buffer_available r == 0) (λ full. refused _)
        λ room. record {
          valid =
              append_data-IsValid r v d (place_lem ∙ ap (add r.seqno0) e)
                (ground (arith, v.bounded));
          window = refl;
          stored = get_elem?-append_length r.buffer (received d) place e;
        }

  -- The buffer after a loss, before the report.
  abbrev with_lost : Instant → ReceiveBuffer S
  with_lost now =
      append_lost_packets r now (next_packet_dsn r) (distance d.seq_number (next_packet_dsn r))

  lost_count :
      length r.buffer < place → distance d.seq_number (next_packet_dsn r) ≡ place - length r.buffer
  unfolding next_packet_dsn
  lost_count h =
      ap (λ n. distance n (next_packet_dsn r)) place_lem
      ∙ distance-add_add r.seqno0 place (length r.buffer) v.is_seqno0 place-lt (omega arith)

  with_loss-Pushed :
      (now : Instant) (action : DataPacketAction)
      → length r.buffer < place
      → place < r.max_buffer_size
      → Pushed r d (append_data (with_lost now) d, ok action)
  unfolding append_data append_lost_packets next_packet_dsn
  with_loss-Pushed now action h b =
      let n = lost_count h in
      let l = length-append_lost_packets r v now (distance d.seq_number (next_packet_dsn r)) in
      record {
        valid =
            append_data-IsValid (with_lost now)
              (append_lost_packets-IsValid r v now _ (omega (arith, n))) d
              (place_lem ∙ ap (add r.seqno0) (omega (arith, n, l))) (omega (arith, n, l));
        window = refl;
        stored =
            get_elem?-append_length (with_lost now).buffer (received d) place (omega (arith, n, l));
      }

  report_loss-Total :
      (now : Instant) (words : Option (List ℕ))
      → words ≢ none
      → length r.buffer < place
      → place < r.max_buffer_size
      → Total (report_loss (append_data (with_lost now) d) words)
  unfolding report_loss
  report_loss-Total now none e h b = absurd (e refl)
  report_loss-Total now (some words) e h b = (_, refl, with_loss-Pushed now _ h b)

  some_range :
      length r.buffer < place
      → place < max_diff
      → LossList.try_from_range (next_packet_dsn r) d.seq_number ≢ none
  unfolding LossList.try_from_range next_packet_dsn
  some_range h b =
      let l = lt-add_add r.seqno0 (length r.buffer) place v.is_seqno0 (omega arith) b in
      ground (arith, l, place_lem)

  append_with_loss-Total :
      (now : Instant) → length r.buffer < place → Total (append_with_loss r now d)
  unfolding append_with_loss buffer_available
  append_with_loss-Total now h =
      if_elim Total (ltb (buffer_available r) _) (λ early. (_, refl, refused _))
        λ room.
          let b : place < r.max_buffer_size = ground (arith, lost_count h, v.bounded) in
          report_loss-Total now _ (some_range h (omega (arith, v.small))) h b

  past :
      (x : LostPacket)
      → get_elem? r.buffer place ≡ some (lost x)
      → (r.lrsn == d.seq_number) ≡ false
      → lost_list_index r.buffer < place
  past x e h = elim (ℕ_discrete (lost_list_index r.buffer) place) [
    | yes l ↦ absurd (ground (arith, v.is_lrsn ∙ ap (add r.seqno0) l, place_lem))
    | no n ↦ omega (arith, lost_list_index-le_lost r.buffer place x e)
  ]

  recover_entry-Pushed :
      (p : BufferPacket)
      → get_elem? r.buffer place ≡ some p
      → Pushed r d (recover_entry r d place p)
  unfolding recover_entry recalculate_lrsn
  recover_entry-Pushed (received x) e = refused _
  recover_entry-Pushed (dropped x) e = refused _
  recover_entry-Pushed (lost x) e =
      let b = lt_of_get_elem? r.buffer place e in
      let s = get_elem?-set_self r.buffer place (received d) b in
      if_elim (λ r'. Pushed r d (r', ok (received_data r'.lrsn true))) (r.lrsn == d.seq_number)
        (λ front. record {
          valid =
              recalculated-IsValid r v d place place_lem b
                (lrsn_iff r v place (omega (arith, v.bounded)) ((==_iff _ _).0 front ∙ place_lem));
          window = refl;
          stored = s;
        })
        (λ behind. record {
          valid = written-IsValid r v d place place_lem b (past x e behind);
          window = refl;
          stored = s;
        })

  recover_at-Total :
      (o : Option BufferPacket)
      → get_elem? r.buffer place ≡ o
      → place < length r.buffer
      → Total (recover_at r d place o)
  unfolding recover_at
  recover_at-Total none e h = absurd (grind (arith, get_elem?-length r.buffer place h))
  recover_at-Total (some p) e h = (_, refl, recover_entry-Pushed p e)

  -- A number that has an index has its place as its index.
  index-place :
      (index : ℕ)
      → index_for_seqno r d.seq_number ≡ some index
      → (place < max_diff) × (place ≡ index)
  unfolding index_for_seqno SeqNumber.lt
  index-place index e =
      let c =
        ap (λ n. SeqNumber.cmp n r.seqno0) place_lem
        ∙ ap (SeqNumber.cmp (add r.seqno0 place)) (sym (add-zero r.seqno0 v.is_seqno0))
        ∙ cmp-add_add r.seqno0 place 0 v.is_seqno0 place-lt (omega arith) in
      ground (arith, c)

  recover_index-Total :
      (o : Option ℕ)
      → index_for_seqno r d.seq_number ≡ o
      → (place < max_diff → place < length r.buffer)
      → Total (recover_index r d o)
  unfolding recover_index
  recover_index-Total none e h = (_, refl, refused _)
  recover_index-Total (some index) e h =
      let (b, p) = index-place index e in
      subst (λ n. Total (recover_at r d n (get_elem? r.buffer n))) p (recover_at-Total _ refl (h b))

  push_ordered-Total :
      (now : Instant) (o : Ordering)
      → SeqNumber.cmp d.seq_number (next_packet_dsn r) ≡ o
      → Total (push_ordered r now d o)
  unfolding push_ordered
  push_ordered-Total now Ordering.eq e = (_, refl, append_next-Pushed (ground (arith, cmp-next)))
  push_ordered-Total now Ordering.gt e = append_with_loss-Total now (ground (arith, cmp-next))
  push_ordered-Total now Ordering.lt e = recover_index-Total _ refl λ b. ground (arith, cmp-next)

  -- A push of a data packet onto a valid receive buffer does not panic; it leaves a valid buffer
  -- with the same first number, in which the packet stands at the place of its number if it was
  -- accepted, and which is the old buffer if it was refused.
  pub push_packet-Total :
      (now : Instant)
      → (out : ReceiveBuffer S × DataResult) × (push_packet r now d ≡ some out) × Pushed r d out
  unfolding push_packet
  push_packet-Total now = push_ordered-Total now _ refl
