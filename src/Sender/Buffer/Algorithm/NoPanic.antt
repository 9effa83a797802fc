-- ===== src/Sender/Buffer/Algorithm/NoPanic.antt =====
-- The sender does not panic: the lost numbers and the packets to drop are in the buffer.
use srt_rs.Prelude.{
  ℕ, ◌+◌, ◌<◌, ◌≡◌, refl, ◌∙◌, ap, ap₂, sym, ltb, false, Option, none, some, List, [], ◌∷◌, All,
  arith, length, get_elem?, get_elem?-length, if_elim, if◌then◌else◌, ◌||◌, ◌==◌, ◌%◌,
}
use mathlib.Core.Path.{subst}
use srt_rs.Packet.Instant.{Duration}
use srt_rs.Packet.SeqNumber.{SeqNumber, IsSeqNumber, max_value, add, distance}
use srt_rs.Packet.SeqNumber.Order.{distance-add, add-zero, add-add}
use srt_rs.Packet.TimeStamp.{TimeStamp}
use srt_rs.Packet.Data.{DataPacket}
use srt_rs.Sender.Buffer.{
  RtoQueue, SendBufferEntry, SendBuffer, front_packet, front_of, flow_window_exceeded,
}
use srt_rs.Sender.Buffer.Bytes.{Numbered}
use srt_rs.Sender.Buffer.Send.{
  SenderAction, drop_too_late_packets, drop_entries, drop_from, is_too_late, last_too_late,
  send_packet, send_after, send_entry, send_next_packet, advance, send_next_16n_packet,
  send_next_lost_packet, send_lost, send_next_rto_packet, flush_on_close,
}
use srt_rs.Sender.Buffer.Algorithm.{
  SenderAlgorithmIterator, next, next_paced, after_16n, drop_or, send_lost_or, send_rto,
  send_in_window, send_new, flush_or_wait, spend, stop, Step,
}

-- The number of a place of the buffer.
abbrev pub InBuffer : SeqNumber → List SendBufferEntry → SeqNumber → Type 0
InBuffer first es q = (i : ℕ) × (i < length es) × (q ≡ add first i)

-- The last number to drop is that of a place of the buffer.
last-InBuffer :
    (ts_now : TimeStamp) (w : Duration) (message first last n k : ℕ) (es : List SendBufferEntry)
    → IsSeqNumber first
    → n < max_value
    → k + length es ≡ n
    → Numbered (add first k) es
    → (i : ℕ) × (i < n) × (last ≡ add first i)
    → (i : ℕ) × (i < n) × (last_too_late ts_now w message last es ≡ add first i)
unfolding last_too_late
last-InBuffer ts_now w message first last n k [] h b l v at = at
last-InBuffer ts_now w message first last n k (e ∷ es) h b l v at =
    let numbers : Numbered (add first (k + 1)) es =
      subst (λ m. Numbered m es) (add-add first k 1 (omega arith) (omega arith) (omega arith))
        v.1 in
    if_elim (λ x. (i : ℕ) × (i < n) × (x ≡ add first i))
      (is_too_late ts_now w e || (e.packet.message_number == message))
      (λ further.
        last-InBuffer ts_now w (if is_too_late ts_now w e then e.packet.message_number else message)
          first e.packet.seq_number n (k + 1) es h b (omega arith) numbers (k, omega arith, v.0))
      (λ stop. at)

module _ (o : RtoQueue) where
  open o use {Queue}

  -- A packet of the buffer can be sent.
  send-InBuffer :
      (s : SendBuffer Queue) (ts_now : TimeStamp) (first q : SeqNumber)
      → IsSeqNumber first
      → length s.buffer < max_value
      → front_of s.buffer ≡ some first
      → InBuffer first s.buffer q
      → (p : DataPacket) × ((send_packet o s ts_now q).1 ≡ some p)
  unfolding send_packet front_packet send_after send_entry
  send-InBuffer s ts_now first q h b f (i, l, e) =
      let (x, g) = get_elem?-length s.buffer i l in
      let index : distance q first ≡ i =
        ap (λ n. distance n first) e ∙ distance-add first i h (omega arith) in
      (x.packet, ap (λ fr. (send_after o s ts_now q fr).1) f ∙ sent x i index g)
    where
      sent :
          (x : SendBufferEntry) (i : ℕ)
          → distance q first ≡ i
          → get_elem? s.buffer i ≡ some x
          → (send_after o s ts_now q (some first)).1 ≡ some x.packet
      sent x i index g = rw (index, g) refl

  front_lem :
      (first i : ℕ) (es : List SendBufferEntry)
      → Numbered first es
      → i < length es
      → front_of es ≡ some first
  unfolding front_of
  front_lem first i [] v l = absurd (omega arith)
  front_lem first i (e ∷ es) v l = ap some v.0

  send_lost-Some :
      (s : SendBuffer Queue) (ts_now : TimeStamp) (first : SeqNumber) (lost : List SeqNumber)
      → IsSeqNumber first
      → length s.buffer < max_value
      → Numbered first s.buffer
      → All (InBuffer first s.buffer) lost
      → (out : SendBuffer Queue × Option DataPacket) × (send_lost o s ts_now lost ≡ some out)
  unfolding send_lost
  send_lost-Some s ts_now first [] h b v a = (_, refl)
  send_lost-Some s ts_now first (q ∷ rest) h b v a =
      let (p, e) =
        send-InBuffer (record s { lost_list = rest }) ts_now first q h b
          (front_lem first a.0.0 s.buffer v a.0.1) a.0 in
      (((send_packet o (record s { lost_list = rest }) ts_now q).0, some p), rw (send_lost, e) refl)

  -- A call that does not panic.
  abbrev Returns : Step Queue → Type 0
  Returns m = (out : SenderAlgorithmIterator Queue × Option SenderAction) × (m ≡ some out)

  flush_or_wait-Returns :
      (it : SenderAlgorithmIterator Queue) (x : SendBuffer Queue × Option DataPacket)
      → Returns (flush_or_wait o it x)
  unfolding flush_or_wait spend stop
  flush_or_wait-Returns it (b, some p) = (_, refl)
  flush_or_wait-Returns it (b, none) = (_, refl)

  send_new-Returns :
      (it : SenderAlgorithmIterator Queue) (x : SendBuffer Queue × Option DataPacket)
      → Returns (send_new o it x)
  unfolding send_new spend
  send_new-Returns it (b, some p) = (_, refl)
  send_new-Returns it (b, none) = flush_or_wait-Returns it (flush_on_close o b it.should_drain)

  send_rto-Returns :
      (it : SenderAlgorithmIterator Queue) (x : SendBuffer Queue × Option DataPacket)
      → Returns (send_rto o it x)
  unfolding send_rto spend send_in_window stop
  send_rto-Returns it (b, some p) = (_, refl)
  send_rto-Returns it (b, none) =
      if_elim Returns (flow_window_exceeded b) (λ full. (_, refl))
        λ room. send_new-Returns it (send_next_packet o b it.ts_now)

  send_lost_or-Returns :
      (it : SenderAlgorithmIterator Queue) (x : SendBuffer Queue × Option DataPacket)
      → Returns (send_lost_or o it (some x))
  unfolding send_lost_or spend
  send_lost_or-Returns it (b, some p) = (_, refl)
  send_lost_or-Returns it (b, none) = send_rto-Returns it (send_next_rto_packet o b it.ts_now)

  module _ (first : SeqNumber) (h : IsSeqNumber first) where
    -- The packets are numbered from `first` on, and the lost numbers are among them.
    abbrev pub IsSendable : SendBuffer Queue → Type 0
    IsSendable s =
        (length s.buffer < max_value)
        × Numbered first s.buffer
        × All (InBuffer first s.buffer) s.lost_list

    drop_or-Returns :
        (it : SenderAlgorithmIterator Queue) (x : SendBuffer Queue × Option (SeqNumber × SeqNumber))
        → (x.1 ≡ none → IsSendable x.0)
        → Returns (drop_or o it (some x))
    unfolding drop_or send_next_lost_packet
    drop_or-Returns it (b, some range) f = (_, refl)
    drop_or-Returns it (b, none) f =
        let (l, v, a) = f refl in
        let (out, e) = send_lost-Some b it.ts_now first b.lost_list h l v a in
        subst (λ m. Returns (send_lost_or o it m)) (sym e) (send_lost_or-Returns it out)

    -- Dropping does not go past the end of the buffer, and if it drops nothing, nothing changes.
    abbrev Drops : Option (SendBuffer Queue × Option (SeqNumber × SeqNumber)) → Type 0
    Drops m =
        (out : SendBuffer Queue × Option (SeqNumber × SeqNumber)) × (m ≡ some out)
        × (out.1 ≡ none → IsSendable out.0)

    drop_entries-Drops :
        (s : SendBuffer Queue) (ts_now : TimeStamp) (es : List SendBufferEntry)
        → s.buffer ≡ es
        → IsSendable s
        → Drops (drop_entries s ts_now es)
    unfolding drop_entries drop_from
    drop_entries-Drops s ts_now [] e g = (_, refl, λ q. g)
    drop_entries-Drops s ts_now (x ∷ es) e g =
        let (l, v, a) = g in
        let front : x.packet.seq_number ≡ first = (subst (Numbered first) e v).0 in
        let zeroth : x.packet.seq_number ≡ add first 0 = front ∙ sym (add-zero first h) in
        let some_left : 0 < length s.buffer = omega (arith, ap length e) in
        let (i, il, last) =
          last-InBuffer ts_now s.latency_window x.packet.message_number first x.packet.seq_number
            (length s.buffer) 0 s.buffer h l (omega arith)
            (subst (λ n. Numbered n s.buffer) (sym (add-zero first h)) v) (0, some_left, zeroth) in
        let index : distance
              (last_too_late ts_now s.latency_window x.packet.message_number x.packet.seq_number
                s.buffer)
              x.packet.seq_number
            ≡ i =
          ap₂ distance last front ∙ distance-add first i h (omega arith) in
        if_elim Drops (is_too_late ts_now s.latency_window x)
          (λ late.
            if_elim Drops
              (ltb (length s.buffer) (
                distance
                  (last_too_late ts_now s.latency_window x.packet.message_number x.packet.seq_number
                    s.buffer)
                  x.packet.seq_number
                + 1))
              (λ past. absurd (ground (arith, index))) (λ inside. (_, refl, λ q. cc)))
          (λ early. (_, refl, λ q. g))

    next_paced-Returns :
        (it : SenderAlgorithmIterator Queue) → IsSendable it.buffer → Returns (next_paced o it)
    unfolding next_paced drop_too_late_packets
    next_paced-Returns it g =
        if_elim Returns (it.packets_to_send == 0) (λ done. (_, refl))
          λ more.
            let (out, e, f) = drop_entries-Drops it.buffer it.ts_now it.buffer.buffer refl g in
            subst (λ m. Returns (drop_or o it m)) (sym e) (drop_or-Returns it out f)

    unsent :
        (s : SendBuffer Queue) (ts_now : TimeStamp) (q : SeqNumber) (front : Option SeqNumber)
        → IsSendable s
        → (send_after o s ts_now q front).1 ≡ none
        → IsSendable (send_after o s ts_now q front).0
    unfolding send_after
    unsent s ts_now q none g e = g
    unsent s ts_now q (some f) g e = entry (get_elem? s.buffer (distance q f)) e
      where
        entry :
            (x : Option SendBufferEntry)
            → (send_entry o s ts_now q (distance q f) x).1 ≡ none
            → IsSendable (send_entry o s ts_now q (distance q f) x).0
        entry none e = g
        entry (some x) e = cc

    unadvanced :
        (x : SendBuffer Queue × Option DataPacket)
        → (x.1 ≡ none → IsSendable x.0)
        → (advance o x).1 ≡ none
        → IsSendable (advance o x).0
    unfolding advance
    unadvanced (b, none) f e = f e
    unadvanced (b, some p) f e = cc

    unsent_16n :
        (s : SendBuffer Queue) (ts_now : TimeStamp)
        → IsSendable s
        → (send_next_16n_packet o s ts_now).1 ≡ none
        → IsSendable (send_next_16n_packet o s ts_now).0
    unfolding send_next_16n_packet send_next_packet send_packet
    unsent_16n s ts_now g e =
        if_elim {A = SendBuffer Queue × Option DataPacket} (λ out. out.1 ≡ none → IsSendable out.0)
          (s.next_send % 16 == 0)
          (λ now.
            unadvanced (send_packet o s ts_now s.next_send)
              (unsent s ts_now s.next_send (front_packet s) g))
          (λ other q. g) e

    after_16n-Returns :
        (it : SenderAlgorithmIterator Queue) (x : SendBuffer Queue × Option DataPacket)
        → (x.1 ≡ none → IsSendable x.0)
        → Returns (after_16n o it x)
    unfolding after_16n spend
    after_16n-Returns it (b, some p) f = (_, refl)
    after_16n-Returns it (b, none) f = next_paced-Returns (record it { buffer = b }) (f refl)

    -- While the packets of a send buffer are numbered one after the other, fewer than the whole
    -- number space, and the lost numbers are among them, the next action of the sender is found
    -- without a panic.
    pub next-Returns :
        (it : SenderAlgorithmIterator Queue)
        → IsSendable it.buffer
        → (out : SenderAlgorithmIterator Queue × Option SenderAction) × (next o it ≡ some out)
    unfolding next
    next-Returns it g =
        if_elim Returns it.attempt_16n_packet
          (λ attempt.
            after_16n-Returns (record it { attempt_16n_packet = false })
              (send_next_16n_packet o it.buffer it.ts_now) (unsent_16n it.buffer it.ts_now g))
          λ paced. next_paced-Returns it g
