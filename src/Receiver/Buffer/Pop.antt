-- ===== src/Receiver/Buffer/Pop.antt =====
-- srt-protocol/src/protocol/receiver/buffer.rs: `pop_next_message` and what it calls, with the
-- count of the packets of a message. An outer `none` is a panic: a `drain` past the end of the
-- buffer, or an `unwrap` of a packet that is not received.
pub mod Message
pub mod Keeps
pub mod Outcome
pub mod TooLate
use srt_rs.Prelude.{
  ℕ, zero, suc, ◌+◌, Bool, true, false, Option, none, some, List, [], ◌∷◌, ◌++◌, ◌>>=◌, not, ◌&&◌,
  ◌||◌, ltb, ◌==◌, if◌then◌else◌, length, take, drop,
}
use srt_rs.Packet.Instant.{Instant, before, not_after, plus, minus}
use srt_rs.Packet.SeqNumber
use srt_rs.Packet.SeqNumber.{SeqNumber, saturating_sub}
use srt_rs.Packet.TimeSpan
use srt_rs.Packet.TimeSpan.{TimeSpan}
use srt_rs.Packet.TimeStamp.{TimeStamp}
use srt_rs.Packet.Data.{DataPacket, PacketLocation}
use srt_rs.Receiver.RemoteClock
use srt_rs.Receiver.RemoteClock.{RemoteClock}
use srt_rs.Receiver.Buffer.{
  BufferPacket, lost, received, dropped, data_packet, in_message, ReceiveBuffer,
}
use srt_rs.Receiver.Buffer.Push.{recalculate_lrsn}

pub record MessagePacketCount : Type 0 where
  pub count : ℕ
  pub done : Bool

unfoldable pub new_count : MessagePacketCount
new_count = record { count = 0; done = false }

-- `accumulate` from the location of the packet on.
unfoldable pub accumulate_location : MessagePacketCount → PacketLocation → Option MessagePacketCount
accumulate_location a location =
    if a.done
    then some a
    else if (a.count == 0) && not location.first
    then none
    else some (record { count = a.count + 1; done = location.last || a.done })

unfoldable pub accumulate : MessagePacketCount → BufferPacket → Option MessagePacketCount
unfolding data_packet accumulate_location
accumulate a packet = elim (data_packet packet) [
  | none ↦ none
  | some d ↦ accumulate_location a d.message_loc
]

unfoldable pub calculate : MessagePacketCount → Option ℕ
calculate a = if a.done then some a.count else none

-- The packets of one message at the front, folded.
unfoldable pub count_packets :
    ℕ → MessagePacketCount → List BufferPacket → Option MessagePacketCount
unfolding accumulate in_message
count_packets message a [] = some a
count_packets message a (p ∷ rest) = elim (in_message message p) [
  | false ↦ some a
  | true ↦ elim (accumulate a p) [ none ↦ none | some a' ↦ count_packets message a' rest ]
]

unfoldable pub front_packet : List BufferPacket → Option DataPacket
unfolding data_packet
front_packet [] = none
front_packet (p ∷ rest) = data_packet p

unfoldable pub next_message_packet_count : List BufferPacket → Option ℕ
unfolding front_packet count_packets calculate new_count
next_message_packet_count ps = elim (front_packet ps) [
  | none ↦ none
  | some first ↦ count_packets first.message_number new_count ps >>= calculate
]

-- The fold of `release_full_message`: the payloads of packets, all of which must be received.
unfoldable pub payloads : List BufferPacket → Option (List ℕ)
unfolding data_packet
payloads [] = some []
payloads (p ∷ rest) =
    let bytes = payloads rest in
    elim (data_packet p) [
      | none ↦ none
      | some d ↦ elim bytes [ none ↦ none | some bytes' ↦ some (d.payload ++ bytes') ]
    ]

pub record MessageError : Type 0 where
  pub first : SeqNumber
  pub end : SeqNumber
  pub delay : TimeSpan

pub data Popped : Type 0 where
  message : Instant → List ℕ → Popped
  nothing : Popped
  too_late : MessageError → Popped

unfoldable pub release_single_packet_message : Instant → List BufferPacket → Popped
unfolding front_packet
release_single_packet_message release_time ps = elim (front_packet ps) [
  | none ↦ nothing
  | some d ↦ message release_time d.payload
]

unfoldable pub release_full_message : Instant → ℕ → List BufferPacket → Option Popped
unfolding payloads
release_full_message release_time packet_count ps =
    if ltb (length ps) packet_count then none else elim (payloads (take packet_count ps)) [
      | none ↦ none
      | some bytes ↦ some (message release_time bytes)
    ]

abbrev pub Pop : Type 0 → Type 0
Pop S = Option (ReceiveBuffer S × Popped)

module _ {S : Type 0} where
  -- Whether a packet is one of those that may be too late.
  unfoldable pub is_too_late : RemoteClock S → Instant → BufferPacket → Bool
  unfolding RemoteClock.instant_from
  is_too_late clock threshold (received d) =
      not_after (RemoteClock.instant_from clock d.timestamp) threshold || not d.message_loc.first
  is_too_late clock threshold (lost l) = true
  is_too_late clock threshold (dropped n) = true

  unfoldable pub take_too_late : RemoteClock S → Instant → List BufferPacket → List BufferPacket
  unfolding is_too_late
  take_too_late clock threshold [] = []
  take_too_late clock threshold (p ∷ rest) =
      let ps = take_too_late clock threshold rest in
      if is_too_late clock threshold p then p ∷ ps else []

  -- The fold: the number of the last packet received, and the time of the first.
  unfoldable pub last_too_late :
      RemoteClock S
      → Option (SeqNumber × Instant)
      → List BufferPacket
      → Option (SeqNumber × Instant)
  unfolding RemoteClock.instant_from
  last_too_late clock last [] = last
  last_too_late clock none (received d ∷ rest) =
      last_too_late clock (some (d.seq_number, RemoteClock.instant_from clock d.timestamp)) rest
  last_too_late clock (some (_, first_packet_time)) (received d ∷ rest) =
      last_too_late clock (some (d.seq_number, first_packet_time)) rest
  last_too_late clock last (lost l ∷ rest) = last_too_late clock last rest
  last_too_late clock last (dropped n ∷ rest) = last_too_late clock last rest

  -- `drop_too_late_packets` from the packets to drop on.
  unfoldable pub drop_to : ReceiveBuffer S → Instant → Option (SeqNumber × Instant) → Pop S
  unfolding SeqNumber.add saturating_sub recalculate_lrsn TimeSpan.from_interval
  drop_to r now none = some (r, nothing)
  drop_to r now (some (last_seq_number, first_packet_time)) =
      let begin_packet = r.seqno0 in
      let end_packet = SeqNumber.add last_seq_number 1 in
      let drop_count = saturating_sub end_packet begin_packet in
      if ltb (length r.buffer) drop_count
      then none
      else some (
        recalculate_lrsn (record r { seqno0 = end_packet; buffer = drop drop_count r.buffer }) 0,
        too_late (record {
          first = begin_packet;
          end = end_packet;
          delay = TimeSpan.from_interval (plus first_packet_time r.tsbpd_latency) now;
        }),
      )

  unfoldable pub drop_too_late_packets : ReceiveBuffer S → Instant → Pop S
  unfolding take_too_late last_too_late drop_to
  drop_too_late_packets r now =
      if not r.too_late_packet_drop
      then some (r, nothing)
      else let threshold = minus (minus now r.tsbpd_latency) r.tsbpd_tolerance in
        drop_to r now
          (last_too_late r.remote_clock none (take_too_late r.remote_clock threshold r.buffer))

  -- The packets of the message leave the buffer.
  unfoldable pub release : ReceiveBuffer S → TimeStamp → ℕ → Pop S
  unfolding SeqNumber.add RemoteClock.monotonic_instant_from release_single_packet_message
      release_full_message
  release r timestamp packet_count =
      let (clock, release_time) = RemoteClock.monotonic_instant_from r.remote_clock timestamp in
      let r' = record r {
        seqno0 = SeqNumber.add r.seqno0 packet_count;
        remote_clock = clock;
        buffer = drop packet_count r.buffer;
      } in
      if packet_count == 1
      then some (r', release_single_packet_message release_time r.buffer)
      else elim (release_full_message release_time packet_count r.buffer) [
        | none ↦ none
        | some popped ↦ some (r', popped)
      ]

  unfoldable pub release_next : ReceiveBuffer S → Instant → TimeStamp → Option ℕ → Pop S
  unfolding drop_too_late_packets release
  release_next r now timestamp none = drop_too_late_packets r now
  release_next r now timestamp (some packet_count) = release r timestamp packet_count

  unfoldable pub pop_front : ReceiveBuffer S → Instant → Option DataPacket → Pop S
  unfolding RemoteClock.instant_from drop_too_late_packets release_next next_message_packet_count
  pop_front r now none = drop_too_late_packets r now
  pop_front r now (some d) =
      let sent_time = RemoteClock.instant_from r.remote_clock d.timestamp in
      if before now (plus sent_time r.tsbpd_latency)
      then some (r, nothing)
      else release_next r now d.timestamp (next_message_packet_count r.buffer)

  unfoldable pub pop_next_message : ReceiveBuffer S → Instant → Pop S
  unfolding pop_front front_packet
  pop_next_message r now = pop_front r now (front_packet r.buffer)
