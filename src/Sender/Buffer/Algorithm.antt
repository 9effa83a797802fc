-- ===== src/Sender/Buffer/Algorithm.antt =====
-- srt-protocol/src/protocol/sender/buffer.rs: `SenderAlgorithmIterator`, which gives the actions of
-- one run of the sender. The arms of `next` are tried in the order of the source.
pub mod NoPanic
use srt_rs.Prelude.{ℕ, ◌-◌, ◌%◌, ◌^◌, Bool, true, false, Option, none, some, ◌==◌, if◌then◌else◌}
use srt_rs.Packet.TimeStamp.{TimeStamp}
use srt_rs.Packet.SeqNumber.{SeqNumber}
use srt_rs.Packet.Data.{DataPacket}
use srt_rs.Sender.Buffer.{RtoQueue, SendBuffer, flow_window_exceeded, number_of_unacked_packets}
use srt_rs.Sender.Buffer.Send.{
  SenderAction, send, retransmit_rto, retransmit_nak, drop_range, wait_for_input, wait_for_ack,
  drop_too_late_packets, send_next_packet, send_next_16n_packet, send_next_lost_packet,
  send_next_rto_packet, flush_on_close,
}

pub record SenderAlgorithmIterator (Q : Type 0) : Type 0 where
  pub buffer : SendBuffer Q
  pub ts_now : TimeStamp
  pub should_drain : Bool
  pub packets_to_send : ℕ
  pub attempt_16n_packet : Bool

unfoldable pub new : {Q : Type 0} → SendBuffer Q → TimeStamp → ℕ → Bool → SenderAlgorithmIterator Q
new buffer ts_now packets_to_send should_drain = record {
  buffer = buffer;
  ts_now = ts_now;
  should_drain = should_drain;
  packets_to_send = packets_to_send;
  attempt_16n_packet = false;
}

-- A call of `next`: `none` is a panic, and `(it, none)` its end.
abbrev pub Step : Type 0 → Type 0
Step Q = Option (SenderAlgorithmIterator Q × Option SenderAction)

module _ {Q : Type 0} where
  -- `send`, `retransmit_nak` and `retransmit_rto`, on the buffer after the packet was sent.
  unfoldable pub spend : SenderAlgorithmIterator Q → SendBuffer Q → SenderAction → Step Q
  spend it buffer action =
      some (record it { buffer = buffer; packets_to_send = it.packets_to_send - 1 }, some action)

  unfoldable pub stop : SenderAlgorithmIterator Q → SendBuffer Q → SenderAction → Step Q
  stop it buffer action = some (record it { buffer = buffer; packets_to_send = 0 }, some action)

module _ (o : RtoQueue) where
  open o use {Queue}

  unfoldable pub flush_or_wait :
      SenderAlgorithmIterator Queue → SendBuffer Queue × Option DataPacket → Step Queue
  unfolding spend stop
  flush_or_wait it (buffer, some p) = spend it buffer (send p)
  flush_or_wait it (buffer, none) = stop it buffer wait_for_input

  unfoldable pub send_new :
      SenderAlgorithmIterator Queue → SendBuffer Queue × Option DataPacket → Step Queue
  unfolding spend flush_or_wait flush_on_close
  send_new it (buffer, some p) = spend (record it { attempt_16n_packet = true }) buffer (send p)
  send_new it (buffer, none) = flush_or_wait it (flush_on_close o buffer it.should_drain)

  unfoldable pub send_in_window : SenderAlgorithmIterator Queue → SendBuffer Queue → Step Queue
  unfolding stop flow_window_exceeded number_of_unacked_packets send_new send_next_packet
  send_in_window it buffer =
      if flow_window_exceeded buffer
      then stop it buffer (wait_for_ack 10000 (number_of_unacked_packets buffer % 2 ^ 32))
      else send_new it (send_next_packet o buffer it.ts_now)

  unfoldable pub send_rto :
      SenderAlgorithmIterator Queue → SendBuffer Queue × Option DataPacket → Step Queue
  unfolding spend send_in_window
  send_rto it (buffer, some p) = spend it buffer (retransmit_rto p)
  send_rto it (buffer, none) = send_in_window it buffer

  unfoldable pub send_lost_or :
      SenderAlgorithmIterator Queue → Option (SendBuffer Queue × Option DataPacket) → Step Queue
  unfolding spend send_rto send_next_rto_packet
  send_lost_or it none = none
  send_lost_or it (some (buffer, some p)) = spend it buffer (retransmit_nak p)
  send_lost_or it (some (buffer, none)) = send_rto it (send_next_rto_packet o buffer it.ts_now)

  unfoldable pub drop_or :
      SenderAlgorithmIterator Queue
      → Option (SendBuffer Queue × Option (SeqNumber × SeqNumber))
      → Step Queue
  unfolding send_lost_or send_next_lost_packet
  drop_or it none = none
  drop_or it (some (buffer, some (first, end))) =
      some (record it { buffer = buffer }, some (drop_range first end))
  drop_or it (some (buffer, none)) = send_lost_or it (send_next_lost_packet o buffer it.ts_now)

  -- The part of `next` that respects congestion control.
  unfoldable pub next_paced : SenderAlgorithmIterator Queue → Step Queue
  unfolding drop_or drop_too_late_packets
  next_paced it =
      if it.packets_to_send == 0
      then some (it, none)
      else drop_or it (drop_too_late_packets it.buffer it.ts_now)

  unfoldable pub after_16n :
      SenderAlgorithmIterator Queue → SendBuffer Queue × Option DataPacket → Step Queue
  unfolding spend next_paced
  after_16n it (buffer, some p) = spend it buffer (send p)
  after_16n it (buffer, none) = next_paced (record it { buffer = buffer })

  unfoldable pub next : SenderAlgorithmIterator Queue → Step Queue
  unfolding after_16n next_paced send_next_16n_packet
  next it =
      if it.attempt_16n_packet
      then after_16n (record it { attempt_16n_packet = false })
          (send_next_16n_packet o it.buffer it.ts_now)
      else next_paced it
