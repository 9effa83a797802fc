-- ===== src/Sender/Buffer/Bytes.antt =====
-- The bytes that the send buffer counts, and what an acknowledgement takes from it.
use srt_rs.Prelude.{
  ℕ, zero, suc, ◌+◌, ◌-◌, ◌≤◌, ◌<◌, ◌%◌, ◌^◌, ◌≡◌, refl, ◌∙◌, ap, sym, true, false, All, Option,
  none, some, or_else, List, [], ◌∷◌, ◌++◌, arith, length, drop, if_elim, ltb, leb, length-append,
  ◌||◌, not,
}
use mathlib.Core.Path.{subst}
use srt_rs.Packet.SeqNumber
use srt_rs.Packet.SeqNumber.{SeqNumber, IsSeqNumber, max_value, max_diff, add}
use srt_rs.Packet.SeqNumber.Order.{add-zero, add-IsSeqNumber, lt-add_add, le-add_add}
use srt_rs.Packet.Data.{DataPacket, wire_size}
use srt_rs.Time.Rtt.{Rtt}
use srt_rs.Receiver.Buffer.Window.{add_suc}
use srt_rs.Sender.Buffer.{
  RtoQueue, SendBufferEntry, SendBuffer, new_entry, append, drop_front, push_full, push_data,
  pop_received, pop_recovered, acknowledge, check_full_ack, update_from,
  update_largest_acked_seq_number, front_packet, AckResult, FullAckSeqNumber, ok,
}

-- The sum of the wire sizes of the packets.
abbrev pub total : List SendBufferEntry → ℕ
total [] = 0
total (e ∷ es) = wire_size e.packet + total es

total_snoc :
    (es : List SendBufferEntry) (e : SendBufferEntry)
    → total (es ++ e ∷ []) ≡ total es + wire_size e.packet
total_snoc [] e = omega arith
total_snoc (x ∷ es) e = omega (arith, total_snoc es e)

-- The buffer is within its limit, and its bytes are those of its packets.
pub record IsCounted {Q : Type 0} (s : SendBuffer Q) : Type 0 where
  pub within : length s.buffer ≤ s.max_buffer_size
  pub bytes : s.buffer_len_bytes ≡ total s.buffer

module _ {Q : Type 0} (s : SendBuffer Q) (c : IsCounted s) (packet : DataPacket) where
  append-IsCounted : length s.buffer < s.max_buffer_size → IsCounted (append s packet)
  unfolding append
  append-IsCounted h = record {
    within = omega (arith, length-append s.buffer (new_entry packet ∷ []));
    bytes = omega (arith, c.bytes, total_snoc s.buffer (new_entry packet));
  }

  push_full-IsCounted :
      (es : List SendBufferEntry)
      → s.buffer ≡ es
      → 0 < s.max_buffer_size
      → s.max_buffer_size ≤ length s.buffer
      → IsCounted (push_full s packet es).0
  unfolding push_full append drop_front
  push_full-IsCounted [] e h f = absurd (omega (arith, ap length e))
  push_full-IsCounted (x ∷ es) e h f = record {
    within = omega (arith, c.within, ap length e, length-append es (new_entry packet ∷ []));
    bytes = omega (arith, c.bytes, ap total e, total_snoc es (new_entry packet));
  }

  -- Taking a packet into a send buffer with room for at least one keeps the buffer within its limit
  -- and its bytes those of its packets, also when the oldest packet has to leave for it.
  pub push_data-IsCounted : 0 < s.max_buffer_size → IsCounted (push_data s packet).0
  unfolding push_data
  push_data-IsCounted h =
      if_elim {A = SendBuffer Q × Option (ℕ × ℕ)} (λ x. IsCounted x.0)
        (ltb (length s.buffer) s.max_buffer_size) (λ room. append-IsCounted (ground arith))
        λ full. push_full-IsCounted s.buffer refl h (ground arith)

-- The packets have the numbers from `s` on.
abbrev pub Numbered : SeqNumber → List SendBufferEntry → Type 0
Numbered s [] = Unit {0}
Numbered s (e ∷ es) = (e.packet.seq_number ≡ s) × Numbered (add s 1) es

-- What an acknowledgement of the first `k` packets leaves.
record Popped {Q : Type 0} (k : ℕ) (es : List SendBufferEntry)
    (out : List SendBufferEntry × Q × ℕ × ℕ) : Type 0 where
  entries : out.0 ≡ drop k es
  bytes : out.2 ≡ total (drop k es)
  count : out.3 ≡ k

-- The first of the lost numbers is not acknowledged.
abbrev pub Stays : SeqNumber → List SeqNumber → Type 0
Stays ack_number [] = Unit {0}
Stays ack_number (q ∷ qs) = SeqNumber.lt q ack_number ≡ false

-- The lost numbers in front that are acknowledged leave, and no other.
pub record Purged (ack_number : SeqNumber) (lost rest : List SeqNumber) (recovered : ℕ)
    : Type 0 where
  pub gone : List SeqNumber
  pub split : lost ≡ gone ++ rest
  pub count : recovered ≡ length gone
  pub acked : All (λ q. SeqNumber.lt q ack_number ≡ true) gone
  pub stays : Stays ack_number rest

pop_recovered-Purged :
    (ack_number : SeqNumber) (lost : List SeqNumber)
    → Purged ack_number lost (pop_recovered ack_number lost).0 (pop_recovered ack_number lost).1
unfolding pop_recovered
pop_recovered-Purged a [] = record { gone = []; split = refl; count = refl; acked = tt; stays = tt }
pop_recovered-Purged a (q ∷ qs) =
    let p = pop_recovered-Purged a qs in
    if_elim {A = List SeqNumber × ℕ} (λ out. Purged a (q ∷ qs) out.0 out.1) (SeqNumber.lt q a)
      (λ before. record {
        gone = q ∷ p.gone;
        split = ap (◌∷◌ q) p.split;
        count = ap suc p.count;
        acked = (before, p.acked);
        stays = p.stays;
      })
      (λ after. record { gone = []; split = refl; count = refl; acked = tt; stays = after })

-- The number that the next full acknowledgement has at least.
abbrev pub expected_after : FullAckSeqNumber → Option FullAckSeqNumber → FullAckSeqNumber
expected_after next none = next
expected_after next (some n) = (n + 1) % 2 ^ 32

-- What an accepted acknowledgement of the first `k` packets does.
pub record AckOutcome {Q : Type 0} (s : SendBuffer Q) (ack_number : SeqNumber) (k : ℕ)
    (full_ack : Option FullAckSeqNumber) (rtt : Rtt) (out : SendBuffer Q × AckResult) : Type 0 where
  pub buffer : out.0.buffer ≡ drop k s.buffer
  pub counted : out.0.buffer_len_bytes ≡ total out.0.buffer
  pub next_full_ack : out.0.next_full_ack ≡ expected_after s.next_full_ack full_ack
  pub next_send : out.0.next_send ≡ s.next_send
  pub new_rtt : out.0.rtt ≡ rtt
  pub recovered : ℕ
  pub purged : Purged ack_number s.lost_list out.0.lost_list recovered
  pub result : out.1 ≡ ok (record { received = k; recovered = recovered; send_ack2 = full_ack })

lt_front : (s k q : ℕ) → IsSeqNumber s → k < max_diff → q ≡ s → SeqNumber.lt q (add s k) ≡ ltb 0 k
lt_front s k q h b e =
    ap (λ n. SeqNumber.lt n (add s k)) (e ∙ sym (add-zero s h)) ∙ lt-add_add s 0 k h (omega arith) b

module _ (o : RtoQueue) where
  open o use {Queue}

  -- An acknowledgement up to a place of the buffer pops just the packets before it.
  pop_received-Popped :
      (s k : ℕ) (es : List SendBufferEntry) (queue : Queue) (bytes : ℕ)
      → IsSeqNumber s
      → k ≤ length es
      → length es < max_diff
      → Numbered s es
      → bytes ≡ total es
      → Popped k es (pop_received o (add s k) es queue bytes)
  unfolding pop_received
  pop_received-Popped s zero [] queue bytes h l b v e = record {
    entries = refl;
    bytes = e;
    count = refl;
  }
  pop_received-Popped s (suc k) [] queue bytes h l b v e = absurd (omega arith)
  pop_received-Popped s zero (x ∷ es) queue bytes h l b v e =
      if_elim {A = List SendBufferEntry × Queue × ℕ × ℕ} (Popped 0 (x ∷ es))
        (SeqNumber.lt x.packet.seq_number (add s 0))
        (λ before. absurd (ground (arith, lt_front s 0 x.packet.seq_number h (omega arith) v.0)))
        λ stay. record { entries = refl; bytes = e; count = refl }
  pop_received-Popped s (suc k) (x ∷ es) queue bytes h l b v e =
      if_elim {A = List SendBufferEntry × Queue × ℕ × ℕ} (Popped (suc k) (x ∷ es))
        (SeqNumber.lt x.packet.seq_number (add s (suc k)))
        (λ before.
          let r =
            subst
              (λ n. Popped k es (
                pop_received o n es (o.remove queue x.packet.seq_number)
                  (bytes - wire_size x.packet)))
              (add_suc s k h (omega arith))
              (pop_received-Popped (add s 1) k es _ _ (add-IsSeqNumber s 1) (omega arith)
                (omega arith) v.1 (omega (arith, e))) in
          record { entries = r.entries; bytes = r.bytes; count = ap suc r.count })
        λ stay. absurd (ground (arith, lt_front s (suc k) x.packet.seq_number h (omega arith) v.0))

  module _ (s : SendBuffer Queue) (first k : ℕ) (hf : IsSeqNumber first)
      (front : front_packet s ≡ some first) (v : Numbered first s.buffer)
      (b : length s.buffer < max_diff) (bytes : s.buffer_len_bytes ≡ total s.buffer) (sent : ℕ)
      (hs : sent ≤ length s.buffer) (next : s.next_send ≡ add first sent) where
    acknowledge-AckOutcome :
        (rtt : Rtt) (next_full_ack : FullAckSeqNumber) (full_ack : Option FullAckSeqNumber)
        → k ≤ sent
        → next_full_ack ≡ expected_after s.next_full_ack full_ack
        → AckOutcome s (add first k) k full_ack rtt (
            acknowledge o
              (record s { rtt = rtt; next_full_ack = next_full_ack })
              (add first k)
              full_ack)
    unfolding acknowledge
    acknowledge-AckOutcome rtt next_full_ack full_ack h expected =
        let p =
          pop_received-Popped first k s.buffer s.rto_queue s.buffer_len_bytes hf (omega arith) b v
            bytes in
        record {
          buffer = p.entries;
          counted = p.bytes ∙ ap total (sym p.entries);
          next_full_ack = expected;
          next_send = refl;
          new_rtt = refl;
          recovered = (pop_recovered (add first k) s.lost_list).1;
          purged = pop_recovered-Purged (add first k) s.lost_list;
          result =
              ap
                (λ n. ok (record {
                  received = n;
                  recovered = (pop_recovered (add first k) s.lost_list).1;
                  send_ack2 = full_ack;
                }))
                p.count;
        }

    check_full_ack-AckOutcome :
        (rtt : Rtt) (full_ack : Option FullAckSeqNumber)
        → k ≤ sent
        → s.next_full_ack ≤ or_else full_ack s.next_full_ack
        → AckOutcome s
            (add first k)
            k
            full_ack
            rtt
            (check_full_ack o (record s { rtt = rtt }) (add first k) full_ack)
    unfolding check_full_ack
    check_full_ack-AckOutcome rtt none h f = acknowledge-AckOutcome rtt s.next_full_ack none h refl
    check_full_ack-AckOutcome rtt (some n) h f =
        if_elim {A = SendBuffer Queue × AckResult} (AckOutcome s (add first k) k (some n) rtt)
          (ltb n s.next_full_ack) (λ old. absurd (ground arith))
          λ new. acknowledge-AckOutcome rtt ((n + 1) % 2 ^ 32) (some n) h refl

    in_order :
        k ≤ sent
        → (SeqNumber.lt (add first k) first || not (SeqNumber.le (add first k) s.next_send)) ≡ false
    in_order h =
        let l : SeqNumber.lt (add first k) first ≡ ltb k 0 =
          ap (SeqNumber.lt (add first k)) (sym (add-zero first hf))
          ∙ lt-add_add first k 0 hf (omega arith) (omega arith) in
        let g : SeqNumber.le (add first k) s.next_send ≡ leb k sent =
          ap (SeqNumber.le (add first k)) next
          ∙ le-add_add first k sent hf (omega arith) (omega arith) in
        ground (arith, l, g)

    -- An acknowledgement of a number from the first in the buffer up to the next to be sent, with no
    -- full acknowledgement number or one that is not old, takes just the packets before it out of
    -- the buffer and returns how many these are; the bytes stay those of the packets, the lost
    -- numbers in front that are acknowledged leave and are counted, and the next full
    -- acknowledgement is to have a number after the one received.
    pub update_largest_acked_seq_number-AckOutcome :
        (full_ack : Option FullAckSeqNumber) (rtt : Option Rtt)
        → k ≤ sent
        → s.next_full_ack ≤ or_else full_ack s.next_full_ack
        → AckOutcome s
            (add first k)
            k
            full_ack
            (or_else rtt s.rtt)
            (update_largest_acked_seq_number o s (add first k) full_ack rtt)
    unfolding update_largest_acked_seq_number update_from check_full_ack acknowledge front_packet
    update_largest_acked_seq_number-AckOutcome full_ack rtt h f =
        subst
          (λ x.
            AckOutcome s (add first k) k full_ack (or_else rtt s.rtt)
              (update_from o s (add first k) full_ack rtt x))
          (sym front)
          (if_elim {A = SendBuffer Queue × AckResult}
            (AckOutcome s (add first k) k full_ack (or_else rtt s.rtt))
            (SeqNumber.lt (add first k) first || not (SeqNumber.le (add first k) s.next_send))
            (λ wrong. absurd (ground (arith, in_order h)))
            λ right. check_full_ack-AckOutcome (or_else rtt s.rtt) full_ack h f)
