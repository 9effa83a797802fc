-- ===== src/Receiver/History.antt =====
-- srt-protocol/src/protocol/receiver/history.rs: the acknowledgements that the receiver has sent
-- and that are not expired.
pub mod Numbers
mod Tests
use srt_rs.Prelude.{
  ℕ, zero, suc, ◌+◌, ◌-◌, ◌%◌, ◌^◌, Bool, true, false, Option, none, some, or_else, List, [], ◌∷◌,
  ◌++◌, ◌||◌, ◌&&◌, not, ltb, ltb_ℤ, ◌==◌, if◌then◌else◌, length, get_elem?, pos,
}
use srt_rs.Packet.Instant.{Instant, Duration, before, plus}
use srt_rs.Packet.SeqNumber
use srt_rs.Packet.SeqNumber.{SeqNumber}
use srt_rs.Packet.TimeSpan
use srt_rs.Packet.TimeSpan.{TimeSpan}

-- A full acknowledgement has a `u32` from 1 on.
abbrev pub FullAckSeqNumber : Type 0
FullAckSeqNumber = ℕ

abbrev pub initial : FullAckSeqNumber
initial = 1

unfoldable pub add_full_ack : FullAckSeqNumber → ℕ → FullAckSeqNumber
add_full_ack a n = (a + n) % 2 ^ 32

pub record AckHistoryEntry : Type 0 where
  pub data_sequence_number : SeqNumber
  pub ack_sequence_number : FullAckSeqNumber
  pub departure_time : Instant

pub record AckHistoryWindow : Type 0 where
  pub tsbpd_latency : Duration
  pub last_ack_dsn : SeqNumber
  pub largest_ack2_dsn : SeqNumber
  pub buffer : List AckHistoryEntry

abbrev pub light_ack_packet_interval : ℕ
light_ack_packet_interval = 64

unfoldable pub new : Duration → SeqNumber → AckHistoryWindow
new tsbpd_latency initial_dsn = record {
  tsbpd_latency = tsbpd_latency;
  last_ack_dsn = initial_dsn;
  largest_ack2_dsn = initial_dsn;
  buffer = [];
}

unfoldable pub unacked_packet_count : AckHistoryWindow → SeqNumber → ℕ
unfolding SeqNumber.lt SeqNumber.distance
unacked_packet_count h lrsn =
    if SeqNumber.lt lrsn h.largest_ack2_dsn then 0 else SeqNumber.distance lrsn h.largest_ack2_dsn

unfoldable pub is_finished : AckHistoryWindow → SeqNumber → Bool
unfolding SeqNumber.lt
is_finished h lrsn = (length h.buffer == 0) || not (SeqNumber.lt lrsn h.largest_ack2_dsn)

unfoldable pub reset : AckHistoryWindow → SeqNumber → AckHistoryWindow
reset h lrsn = record h { buffer = []; largest_ack2_dsn = lrsn }

unfoldable pub back : List AckHistoryEntry → Option AckHistoryEntry
back [] = none
back (e ∷ rest) = some (or_else (back rest) e)

-- The entry of an acknowledgement, at its index.
unfoldable pub answer :
    AckHistoryWindow → Instant → Option AckHistoryEntry → AckHistoryWindow × Option TimeSpan
unfolding TimeSpan.from_interval
answer h now none = (h, none)
answer h now (some ack) = (
  record h { largest_ack2_dsn = ack.data_sequence_number },
  some (TimeSpan.from_interval ack.departure_time now),
)

-- An acknowledgement that is after the last, or before the first of the window, has no answer.
unfoldable pub answer_in :
    AckHistoryWindow
    → Instant
    → FullAckSeqNumber
    → List AckHistoryEntry
    → AckHistoryWindow × Option TimeSpan
unfolding answer back
answer_in h now ack_seq_num [] = (h, none)
answer_in h now ack_seq_num (front ∷ rest) =
    if ltb (or_else (back rest) front).ack_sequence_number ack_seq_num
    then (h, none)
    else if ltb ack_seq_num front.ack_sequence_number
    then (h, none)
    else answer h now (get_elem? (front ∷ rest) (ack_seq_num - front.ack_sequence_number))

unfoldable pub calculate_ack2_rtt :
    AckHistoryWindow → Instant → FullAckSeqNumber → AckHistoryWindow × Option TimeSpan
unfolding answer_in
calculate_ack2_rtt h now ack_seq_num = answer_in h now ack_seq_num h.buffer

unfoldable pub last_ack_too_recent : Instant → TimeSpan → SeqNumber → Option AckHistoryEntry → Bool
unfolding SeqNumber.lt TimeSpan.from_interval TimeSpan.mul
last_ack_too_recent now rtt_mean next_dsn none = false
last_ack_too_recent now rtt_mean next_dsn (some last) =
    SeqNumber.lt next_dsn last.data_sequence_number
    || ((next_dsn == last.data_sequence_number)
        && ltb_ℤ (TimeSpan.from_interval last.departure_time now) (TimeSpan.mul rtt_mean (pos 2)))

-- The expired entries in front leave, but not the last entry.
unfoldable pub drain_expired : Instant → Duration → List AckHistoryEntry → List AckHistoryEntry
drain_expired now latency_window [] = []
drain_expired now latency_window (e ∷ []) = e ∷ []
drain_expired now latency_window (e ∷ f ∷ rest) =
    let rest' = drain_expired now latency_window (f ∷ rest) in
    if before (plus e.departure_time latency_window) now then rest' else e ∷ f ∷ rest

unfoldable pub next_fasn : List AckHistoryEntry → FullAckSeqNumber
unfolding back add_full_ack
next_fasn buffer = elim (back buffer) [
  | none ↦ initial
  | some n ↦ add_full_ack n.ack_sequence_number 1
]

-- `next_full_ack` from the draining on.
unfoldable pub give_next :
    AckHistoryWindow
    → Instant
    → Duration
    → SeqNumber
    → AckHistoryWindow × Option (FullAckSeqNumber × SeqNumber)
unfolding drain_expired next_fasn
give_next h now latency_window next_dsn =
    let kept = drain_expired now latency_window h.buffer in
    let fasn = next_fasn kept in
    let entry : AckHistoryEntry = record {
      data_sequence_number = next_dsn;
      ack_sequence_number = fasn;
      departure_time = now;
    } in
    (record h { last_ack_dsn = next_dsn; buffer = kept ++ entry ∷ [] }, some (fasn, next_dsn))

-- The duration of the window, `tsbpd_latency + rtt_mean * 2`: below zero it panics.
unfoldable pub latency_window : AckHistoryWindow → TimeSpan → Option Duration
unfolding TimeSpan.duration_add TimeSpan.mul
latency_window h rtt_mean = TimeSpan.duration_add h.tsbpd_latency (TimeSpan.mul rtt_mean (pos 2))

abbrev pub give_within :
    AckHistoryWindow
    → Instant
    → SeqNumber
    → Option Duration
    → Option (AckHistoryWindow × Option (FullAckSeqNumber × SeqNumber))
give_within h now next_dsn none = none
give_within h now next_dsn (some w) = some (give_next h now w next_dsn)

-- The outer `none` is the panic.
unfoldable pub next_full_ack :
    AckHistoryWindow
    → Instant
    → TimeSpan
    → SeqNumber
    → Option (AckHistoryWindow × Option (FullAckSeqNumber × SeqNumber))
unfolding back last_ack_too_recent give_next latency_window
next_full_ack h now rtt_mean next_dsn =
    if h.largest_ack2_dsn == next_dsn
    then some (h, none)
    else if last_ack_too_recent now rtt_mean next_dsn (back h.buffer)
    then some (h, none)
    else give_within h now next_dsn (latency_window h rtt_mean)

unfoldable pub next_light_ack : AckHistoryWindow → SeqNumber → AckHistoryWindow × Option SeqNumber
unfolding SeqNumber.lt SeqNumber.add
next_light_ack h next_dsn =
    if SeqNumber.lt next_dsn (SeqNumber.add h.last_ack_dsn light_ack_packet_interval)
    then (h, none)
    else (record h { last_ack_dsn = next_dsn }, some next_dsn)
