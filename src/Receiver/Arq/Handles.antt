-- ===== src/Receiver/Arq/Handles.antt =====
-- Each event of a receiver keeps its buffer valid, and what is acknowledged was received.
use srt_rs.Prelude.{
  ℕ, ◌≡◌, ◌⊎◌, inl, inr, refl, Bool, true, false, Option, none, some, List, [], ◌∷◌, arith, All,
  All-append, length, ltb, ◌==◌, if_elim, ℤ, wrap_i32, from_u32, to_u32, take, get_elem?,
}
use mathlib.Core.Path.{subst}
use srt_rs.Packet.Instant.{Instant, Duration, not_after}
use srt_rs.Packet.SeqNumber.{SeqNumber, IsSeqNumber, add}
use srt_rs.Packet.TimeSpan
use srt_rs.Packet.TimeSpan.{TimeSpan}
use srt_rs.Packet.Data.{DataPacket}
use srt_rs.Packet.Control.{Acknowledgement, lite, small, full}
use srt_rs.Receiver.History
use srt_rs.Receiver.History.{
  FullAckSeqNumber, AckHistoryWindow, next_full_ack, give_next, give_within, latency_window, back,
  last_ack_too_recent,
}
use srt_rs.Receiver.Buffer.{
  ReceiveBuffer, BufferPacket, received, lost, dropped, lost_list_index, next_ack_dsn,
  buffer_available,
}
use srt_rs.Receiver.Buffer.Window.{IsValid}
use srt_rs.Receiver.Buffer.Push.{
  DataResult, ok, err, received_data, received_with_loss, received_with_light_ack, push_packet,
}
use srt_rs.Receiver.Buffer.Push.Total.{Pushed, push_packet-Total}
use srt_rs.Receiver.Arq.{
  Arq, action_of, on_full_ack_event, handle_data_packet, after_push, update_link_estimates,
  next_light_ack, pushed, with_speed, with_next, acknowledge,
}
use srt_rs.Receiver.Arq.Estimates.{
  ArrivalSpeed, record_arrival, push_back, drop_front, window_size, calculate_speed,
}
use srt_rs.Receiver.Arq.Rates.{IsSpan, AreSpans, Speed, calculate_speed-Speed}

-- The word of an `i32` is in its range.
wrap_i32-IsSpan : (a : ℤ) → IsSpan (wrap_i32 a)
unfolding wrap_i32 from_u32 to_u32
wrap_i32-IsSpan a = ground arith

from_interval-IsSpan : (begin end : Instant) → IsSpan (TimeSpan.from_interval begin end)
unfolding TimeSpan.from_interval TimeSpan.add_duration TimeSpan.sub_duration
from_interval-IsSpan begin end =
    if_elim IsSpan (not_after begin end) (λ _. wrap_i32-IsSpan _) (λ _. wrap_i32-IsSpan _)

push_back-AreSpans :
    (window : List (TimeSpan × ℕ)) (x : TimeSpan × ℕ)
    → AreSpans window
    → IsSpan x.0
    → AreSpans (push_back window x)
unfolding push_back
push_back-AreSpans window x h hx =
    All-append (λ (y : TimeSpan × ℕ). IsSpan y.0) _ (x ∷ [])
      (if_elim AreSpans (ltb (length window) window_size) (λ _. h) (λ _. rest window h)) (hx, tt)
  where
    rest : (w : List (TimeSpan × ℕ)) → AreSpans w → AreSpans (drop_front w)
    rest [] h = tt
    rest (y ∷ ys) h = h.1

record_arrival-AreSpans :
    (a : ArrivalSpeed) (now : Instant) (size : ℕ)
    → AreSpans a.packet_history_window
    → AreSpans (record_arrival a now size).packet_history_window
unfolding record_arrival
record_arrival-AreSpans a now size h = recorded a.last_arrival_time
  where
    recorded :
        (o : Option Instant)
        → AreSpans (elim o as (λ _. List (TimeSpan × ℕ)) [
          | none ↦ a.packet_history_window
          | some last ↦ push_back a.packet_history_window (TimeSpan.from_interval last now, size)
        ])
    recorded none = h
    recorded (some last) =
        push_back-AreSpans a.packet_history_window _ h (from_interval-IsSpan last now)

-- The buffer is a window of consecutive numbers, and the intervals are spans.
pub record IsArq {S : Type 0} (a : Arq S) : Type 0 where
  pub valid : IsValid a.receive_buffer
  pub spans : AreSpans a.arrival_speed.packet_history_window

-- The results of a handled packet and of its push are the same, but for a light acknowledgement
-- that may go with a packet that was received without a loss.
pub data Answers : DataResult → DataResult → Type 0 where
  same : {result : DataResult} → Answers result result
  light :
      {lrsn light_ack : SeqNumber} {recovered : Bool}
      → Answers
          (ok (received_data lrsn recovered))
          (ok (received_with_light_ack light_ack recovered))

action_of-Answers :
    (lrsn : SeqNumber) (recovered : Bool) (o : Option SeqNumber)
    → Answers (ok (received_data lrsn recovered)) (ok (action_of lrsn recovered o))
action_of-Answers lrsn recovered none = same
action_of-Answers lrsn recovered (some n) = light

module _ {S : Type 0} (now : Instant) where
  -- The estimates and the acknowledgements do not touch the buffer.
  record Unmoved (a b : Arq S) : Type 0 where
    same : b.receive_buffer ≡ a.receive_buffer
    spans :
        AreSpans a.arrival_speed.packet_history_window
        → AreSpans b.arrival_speed.packet_history_window

  after_push-Unmoved :
      (a : Arq S) (q size : ℕ) (result : DataResult) → Unmoved a (after_push a now q size result).0
  unfolding after_push update_link_estimates next_light_ack
  after_push-Unmoved a q size (err e) = record { same = refl; spans = λ h. h }
  after_push-Unmoved a q size (ok (received_data lrsn true)) = record {
    same = refl;
    spans = λ h. h;
  }
  after_push-Unmoved a q size (ok (received_data lrsn false)) = record {
    same = refl;
    spans = record_arrival-AreSpans a.arrival_speed now size;
  }
  after_push-Unmoved a q size (ok (received_with_loss words)) = record {
    same = refl;
    spans = λ h. h;
  }
  after_push-Unmoved a q size (ok (received_with_light_ack light_ack recovered)) = record {
    same = refl;
    spans = λ h. h;
  }

  Unmoved-IsArq : (a b : Arq S) → Unmoved a b → IsArq a → IsArq b
  Unmoved-IsArq a b u h = record { valid = rw (u.same) h.valid; spans = u.spans h.spans }

  after_push-Answers :
      (a : Arq S) (q size : ℕ) (result : DataResult)
      → Answers result (after_push a now q size result).1
  unfolding after_push next_light_ack
  after_push-Answers a q size (err e) = same
  after_push-Answers a q size (ok (received_data lrsn true)) =
      action_of-Answers lrsn true (History.next_light_ack a.ack_history_window lrsn).1
  after_push-Answers a q size (ok (received_data lrsn false)) =
      action_of-Answers lrsn false
        (History.next_light_ack (update_link_estimates a now q size).ack_history_window lrsn).1
  after_push-Answers a q size (ok (received_with_loss words)) = same
  after_push-Answers a q size (ok (received_with_light_ack light_ack recovered)) = same

  -- A data packet is handled without a panic: the buffer becomes that of its push, which takes the
  -- packet at the place of its number or refuses it without a change, the result is that of the push
  -- but for a light acknowledgement.
  pub handle_data_packet-Total :
      (a : Arq S) (d : DataPacket)
      → IsArq a
      → IsSeqNumber d.seq_number
      → (out : Arq S × DataResult) × (handle_data_packet a now d ≡ some out)
        × IsArq out.0
        × (p : ReceiveBuffer S × DataResult) × Pushed a.receive_buffer d p
        × (push_packet a.receive_buffer now d ≡ some p)
        × (out.0.receive_buffer ≡ p.0)
        × Answers p.1 out.1
  unfolding handle_data_packet
  handle_data_packet-Total a d h q =
      let (p, e, pushed) = push_packet-Total a.receive_buffer h.valid d q now in
      let a' = record a { receive_buffer = p.0 } in
      let u = after_push-Unmoved a' d.seq_number (length d.payload) p.1 in
      (
        after_push a' now d.seq_number (length d.payload) p.1,
        rw e refl,
        Unmoved-IsArq a' _ u (record { valid = pushed.valid; spans = h.spans }),
        p,
        pushed,
        e,
        u.same,
        after_push-Answers a' d.seq_number (length d.payload) p.1,
      )

abbrev pub IsReceived : BufferPacket → Type 0
IsReceived (received d) = Unit
IsReceived (lost l) = ⊥
IsReceived (dropped q) = ⊥

front_received : (ps : List BufferPacket) → All IsReceived (take (lost_list_index ps) ps)
unfolding lost_list_index
front_received [] = tt
front_received (received d ∷ ps) = (tt, front_received ps)
front_received (lost l ∷ ps) = tt
front_received (dropped q ∷ ps) = tt

front_missing :
    (ps : List BufferPacket) (p : BufferPacket)
    → get_elem? ps (lost_list_index ps) ≡ some p
    → IsReceived p
    → ⊥
unfolding lost_list_index
front_missing [] p e h = absurd (ground (arith, e))
front_missing (received d ∷ ps) p e h = front_missing ps p e h
front_missing (lost l ∷ ps) (received d) e h = absurd (ground (arith, e))
front_missing (lost l ∷ ps) (lost k) e h = h
front_missing (lost l ∷ ps) (dropped q) e h = h
front_missing (dropped q ∷ ps) (received d) e h = absurd (ground (arith, e))
front_missing (dropped q ∷ ps) (lost k) e h = h
front_missing (dropped q ∷ ps) (dropped q') e h = h

-- Every packet of the buffer before the number is received, and the packet at the number is not.
pub record Confirms {S : Type 0} (r : ReceiveBuffer S) (dsn : SeqNumber) : Type 0 where
  pub count : ℕ
  pub number : dsn ≡ add r.seqno0 count
  pub before : All IsReceived (take count r.buffer)
  pub missing : (p : BufferPacket) → get_elem? r.buffer count ≡ some p → IsReceived p → ⊥

lrsn-Confirms : {S : Type 0} (r : ReceiveBuffer S) → IsValid r → Confirms r r.lrsn
lrsn-Confirms r v = record {
  count = lost_list_index r.buffer;
  number = v.is_lrsn;
  before = front_received r.buffer;
  missing = front_missing r.buffer;
}

-- An acknowledgement, if any, confirms what the buffer has.
unfoldable pub Acked : {S : Type 0} → ReceiveBuffer S → Option Acknowledgement → Type 0
Acked r none = Unit
Acked r (some (lite dsn)) = ⊥
Acked r (some (small dsn stats)) = ⊥
Acked r (some (full dsn stats fasn)) = Confirms r dsn

-- The number that is given to the history is the one that is acknowledged.
Gives : SeqNumber → AckHistoryWindow × Option (FullAckSeqNumber × SeqNumber) → Type 0
Gives n out = (out.1 ≡ none) ⊎ ((fasn : FullAckSeqNumber) × (out.1 ≡ some (fasn, n)))

-- A panic is that of a duration below zero.
abbrev GivesUnless :
    AckHistoryWindow
    → TimeSpan
    → SeqNumber
    → Option (AckHistoryWindow × Option (FullAckSeqNumber × SeqNumber))
    → Type 0
GivesUnless w rtt_mean n m =
    ((m ≡ none) × (latency_window w rtt_mean ≡ none))
    ⊎ ((out : AckHistoryWindow × Option (FullAckSeqNumber × SeqNumber)) × (m ≡ some out)
        × Gives n out)

next_full_ack-Gives :
    (w : AckHistoryWindow) (now : Instant) (rtt_mean : TimeSpan) (n : SeqNumber)
    → GivesUnless w rtt_mean n (next_full_ack w now rtt_mean n)
unfolding next_full_ack give_next Gives
next_full_ack-Gives w now rtt_mean n =
    if_elim (GivesUnless w rtt_mean n) (w.largest_ack2_dsn == n) (λ _. inr (_, refl, inl refl))
      λ _.
        if_elim (GivesUnless w rtt_mean n) (last_ack_too_recent now rtt_mean n (back w.buffer))
          (λ _. inr (_, refl, inl refl)) (λ _. within (latency_window w rtt_mean) refl)
  where
    within :
        (d : Option Duration)
        → latency_window w rtt_mean ≡ d
        → GivesUnless w rtt_mean n (give_within w now n d)
    within none e = inl (refl, e)
    within (some d) e = inr (_, refl, inr (_, refl))

module _ {S : Type 0} (per_second : TimeSpan → ℕ) (now : Instant) (a : Arq S) (h : IsArq a) where
  abbrev Sent : Option (Arq S × Option Acknowledgement) → Type 0
  Sent m =
      (out : Arq S × Option Acknowledgement) × (m ≡ some out)
      × IsArq out.0
      × Acked a.receive_buffer out.1

  sent_lem :
      (w : AckHistoryWindow) (next : Option (FullAckSeqNumber × SeqNumber))
      → Gives a.receive_buffer.lrsn (w, next)
      → Sent (
          with_speed per_second
            (record a { ack_history_window = w })
            next
            (calculate_speed a.arrival_speed))
  unfolding acknowledge Acked Gives
  sent_lem w none g = ((_, none), refl, record { valid = h.valid; spans = h.spans }, tt)
  sent_lem w (some (fasn, dsn)) g =
      speeds (calculate_speed a.arrival_speed) (calculate_speed-Speed a.arrival_speed h.spans)
    where
      same : a.receive_buffer.lrsn ≡ dsn
      same = elim g [ inl e ↦ absurd (ground (arith, e)) | inr (fasn', e) ↦ ground (arith, e) ]

      confirms : Confirms a.receive_buffer dsn
      confirms = subst (Confirms a.receive_buffer) same (lrsn-Confirms a.receive_buffer h.valid)

      kept : IsArq (record a { ack_history_window = w })
      kept = record { valid = h.valid; spans = h.spans }

      speeds :
          (m : Option (Option (ℕ × ℕ)))
          → Speed m
          → Sent (with_speed per_second (record a { ack_history_window = w }) (some (fasn, dsn)) m)
      speeds m (inl e) = rw e (_, refl, kept, confirms)
      speeds m (inr (packets, bytes, e, l)) = rw e (_, refl, kept, confirms)

  -- A panic is that of a latency and two round trip times that sum up to less than zero.
  abbrev pub SentUnless : Option (Arq S × Option Acknowledgement) → Type 0
  SentUnless m = ((m ≡ none) × (latency_window a.ack_history_window a.rtt.mean ≡ none)) ⊎ Sent m

  next_sent :
      (m : Option (AckHistoryWindow × Option (FullAckSeqNumber × SeqNumber)))
      → GivesUnless a.ack_history_window a.rtt.mean a.receive_buffer.lrsn m
      → SentUnless (with_next per_second a m)
  next_sent m (inl (e, w)) = rw e (inl (refl, w))
  next_sent m (inr ((w, next), e, g)) = rw e (inr (sent_lem w next g))

  -- The event of a full acknowledgement panics for no other reason; an acknowledgement that is sent
  -- confirms the packets up to the first that is not received.
  pub on_full_ack_event-Total : SentUnless (on_full_ack_event per_second a now)
  unfolding on_full_ack_event next_ack_dsn Acked
  on_full_ack_event-Total =
      if_elim SentUnless (buffer_available a.receive_buffer == 0)
        (λ _. inr ((a, none), refl, h, tt))
        (λ _.
          next_sent _
            (next_full_ack-Gives a.ack_history_window now a.rtt.mean a.receive_buffer.lrsn))
