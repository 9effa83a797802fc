-- ===== src/Receiver/Arq.antt =====
-- srt-protocol/src/protocol/receiver/arq.rs: the acknowledgements and loss reports of a receiver. An
-- outer `none` is a panic.
pub mod Estimates
pub mod Handles
pub mod Rates
pub mod Steps
mod Tests
use srt_rs.Prelude.{
  ℕ, ◌%◌, ◌^◌, Bool, Option, none, some, List, [], ◌∷◌, length, ◌==◌, ◌&&◌, not, if◌then◌else◌,
}
use srt_rs.Packet.Instant.{Instant, Duration}
use srt_rs.Packet.SeqNumber.{SeqNumber}
use srt_rs.Packet.TimeSpan.{TimeSpan}
use srt_rs.Packet.TimeStamp.{TimeStamp}
use srt_rs.Packet.Data.{DataPacket}
use srt_rs.Packet.LossList.{Run, done, panicked, out_of_fuel}
use srt_rs.Packet.Control.{Acknowledgement, AckStatistics, full}
use srt_rs.Time.Rtt
use srt_rs.Time.Rtt.{Rtt}
use srt_rs.Receiver.RemoteClock
use srt_rs.Receiver.RemoteClock.{OnlineStats, RemoteClock, ClockAdjustment}
use srt_rs.Receiver.Buffer
use srt_rs.Receiver.Buffer.{ReceiveBuffer}
use srt_rs.Receiver.Buffer.Push.{
  push_packet, DataPacketAction, received_data, received_with_loss, received_with_light_ack,
  DataResult, ok, err,
}
use srt_rs.Receiver.Buffer.Losses as Losses
use srt_rs.Receiver.Buffer.Pop as Pop
use srt_rs.Receiver.Buffer.Pop.{Popped}
use srt_rs.Receiver.History
use srt_rs.Receiver.History.{AckHistoryWindow, FullAckSeqNumber}
use srt_rs.Receiver.Arq.Estimates.{
  ArrivalSpeed, LinkCapacityEstimate, new_arrival_speed, new_link_capacity, record_arrival,
  record_pair, calculate_speed, calculate_capacity,
}

pub record Arq (S : Type 0) : Type 0 where
  pub link_capacity_estimate : LinkCapacityEstimate
  pub arrival_speed : ArrivalSpeed
  pub receive_buffer : ReceiveBuffer S
  pub ack_history_window : AckHistoryWindow
  pub rtt : Rtt

abbrev pub packets_of : Option (ℕ × ℕ) → Option ℕ
packets_of none = none
packets_of (some (packets, bytes)) = some packets

abbrev pub bytes_of : Option (ℕ × ℕ) → Option ℕ
bytes_of none = none
bytes_of (some (packets, bytes)) = some bytes

-- `CompressedLossList::try_from_iter`: no list for no words. The run always ends: it has the fuel.
abbrev pub loss_list_of : Run → Option (Option (List ℕ))
loss_list_of (done []) = some none
loss_list_of (done (w ∷ ws)) = some (some (w ∷ ws))
loss_list_of panicked = none
loss_list_of out_of_fuel = none

abbrev pub action_of : SeqNumber → Bool → Option SeqNumber → DataPacketAction
action_of lrsn recovered none = received_data lrsn recovered
action_of lrsn recovered (some light_ack) = received_with_light_ack light_ack recovered

module _ {S : Type 0} where
  unfoldable pub new : Instant → Duration → Bool → SeqNumber → ℕ → Arq S
  unfolding Buffer.new History.new
  new socket_start_time tsbpd_latency too_late_packet_drop init_seq_num buffer_size_packets =
      record {
        link_capacity_estimate = new_link_capacity;
        arrival_speed = new_arrival_speed;
        receive_buffer =
            Buffer.new socket_start_time tsbpd_latency too_late_packet_drop init_seq_num
              buffer_size_packets;
        ack_history_window = History.new tsbpd_latency init_seq_num;
        rtt = Rtt.default;
      }

  unfoldable pub is_flushed : Arq S → Bool
  is_flushed a =
      Buffer.is_empty a.receive_buffer
      && History.is_finished a.ack_history_window (Buffer.next_ack_dsn a.receive_buffer)

  unfoldable pub unacked_packet_count : Arq S → ℕ
  unacked_packet_count a =
      History.unacked_packet_count a.ack_history_window (Buffer.next_ack_dsn a.receive_buffer)

  unfoldable pub clear : Arq S → Arq S
  unfolding Buffer.clear History.reset
  clear a =
      let receive_buffer = Buffer.clear a.receive_buffer in
      record a {
        receive_buffer = receive_buffer;
        ack_history_window =
            History.reset a.ack_history_window (Buffer.next_ack_dsn receive_buffer);
      }

  -- The acknowledgement from its number and the estimates on.
  unfoldable pub acknowledge :
      (TimeSpan → ℕ) → Arq S → FullAckSeqNumber → SeqNumber → Option (ℕ × ℕ) → Acknowledgement
  acknowledge per_second a fasn dsn arrival_speed =
      full dsn
        (record {
          rtt = a.rtt;
          buffer_available = Buffer.buffer_available a.receive_buffer % 2 ^ 32;
          packet_receive_rate = packets_of arrival_speed;
          estimated_link_capacity = bytes_of arrival_speed;
          data_receive_rate = calculate_capacity per_second a.link_capacity_estimate;
        })
        fasn

  abbrev pub with_speed :
      (TimeSpan → ℕ)
      → Arq S
      → Option (FullAckSeqNumber × SeqNumber)
      → Option (Option (ℕ × ℕ))
      → Option (Arq S × Option Acknowledgement)
  with_speed per_second a none speed = some (a, none)
  with_speed per_second a (some (fasn, dsn)) none = none
  with_speed per_second a (some (fasn, dsn)) (some speed) =
      some (a, some (acknowledge per_second a fasn dsn speed))

  abbrev pub with_next :
      (TimeSpan → ℕ)
      → Arq S
      → Option (AckHistoryWindow × Option (FullAckSeqNumber × SeqNumber))
      → Option (Arq S × Option Acknowledgement)
  with_next per_second a none = none
  with_next per_second a (some (window, next)) =
      with_speed per_second (record a { ack_history_window = window }) next
        (calculate_speed a.arrival_speed)

  unfoldable pub on_full_ack_event :
      (TimeSpan → ℕ) → Arq S → Instant → Option (Arq S × Option Acknowledgement)
  on_full_ack_event per_second a now =
      if Buffer.buffer_available a.receive_buffer == 0
      then some (a, none)
      else with_next per_second a (
          History.next_full_ack a.ack_history_window now a.rtt.mean
            (Buffer.next_ack_dsn a.receive_buffer))

  abbrev pub with_list : Arq S → ReceiveBuffer S × Run → Option (Arq S × Option (List ℕ))
  with_list a (r, run) = elim (loss_list_of run) [
    | none ↦ none
    | some list ↦ some (record a { receive_buffer = r }, list)
  ]

  unfoldable pub on_nak_event : Arq S → Instant → Option (Arq S × Option (List ℕ))
  on_nak_event a now = with_list a (Losses.prepare_loss_list a.receive_buffer now a.rtt.mean)

  unfoldable pub update_link_estimates : Arq S → Instant → SeqNumber → ℕ → Arq S
  update_link_estimates a now seq_number size = record a {
    link_capacity_estimate = record_pair a.link_capacity_estimate now seq_number;
    arrival_speed = record_arrival a.arrival_speed now size;
  }

  unfoldable pub next_light_ack : Arq S → SeqNumber → Bool → Arq S × DataPacketAction
  next_light_ack a lrsn recovered =
      let (window, light_ack) = History.next_light_ack a.ack_history_window lrsn in
      (record a { ack_history_window = window }, action_of lrsn recovered light_ack)

  -- The match on the outcome of the push.
  unfoldable pub after_push : Arq S → Instant → SeqNumber → ℕ → DataResult → Arq S × DataResult
  unfolding update_link_estimates next_light_ack
  after_push a now seq_number size (err e) = (a, err e)
  after_push a now seq_number size (ok (received_data lrsn recovered)) =
      let a' = if recovered then a else update_link_estimates a now seq_number size in
      let (a'', action) = next_light_ack a' lrsn recovered in (a'', ok action)
  after_push a now seq_number size (ok action) = (a, ok action)

  abbrev pub pushed :
      Arq S
      → Instant
      → DataPacket
      → Option (ReceiveBuffer S × DataResult)
      → Option (Arq S × DataResult)
  pushed a now packet none = none
  pushed a now packet (some (r, result)) = some (
      after_push (record a { receive_buffer = r }) now packet.seq_number (length packet.payload)
        result)

  unfoldable pub handle_data_packet : Arq S → Instant → DataPacket → Option (Arq S × DataResult)
  unfolding after_push
  handle_data_packet a now packet = pushed a now packet (push_packet a.receive_buffer now packet)

  abbrev pub answered : Arq S → AckHistoryWindow × Option TimeSpan → Arq S × Option Rtt
  answered a (window, none) = (record a { ack_history_window = window }, none)
  answered a (window, some rtt) =
      let rtt' = Rtt.update a.rtt rtt in
      (record a { ack_history_window = window; rtt = rtt' }, some rtt')

  unfoldable pub handle_ack2_packet : Arq S → Instant → FullAckSeqNumber → Arq S × Option Rtt
  handle_ack2_packet a now ack_seq_num =
      answered a (History.calculate_ack2_rtt a.ack_history_window now ack_seq_num)

  abbrev pub with_buffer : {B : Type 0} → Arq S → Option (ReceiveBuffer S × B) → Option (Arq S × B)
  with_buffer a none = none
  with_buffer a (some (r, b)) = some (record a { receive_buffer = r }, b)

  unfoldable pub handle_drop_request : Arq S → SeqNumber → SeqNumber → Option (Arq S × ℕ)
  handle_drop_request a start end = with_buffer a (Losses.drop_packets a.receive_buffer start end)

  unfoldable pub pop_next_message : Arq S → Instant → Option (Arq S × Popped)
  pop_next_message a now = with_buffer a (Pop.pop_next_message a.receive_buffer now)

  unfoldable pub next_message_release_time : Arq S → Option Instant
  next_message_release_time a = Buffer.next_message_release_time a.receive_buffer

  unfoldable pub rx_acknowledged_time : Arq S → Duration
  rx_acknowledged_time a = Buffer.rx_acknowledged_time a.receive_buffer

module _ (o : OnlineStats) where
  open o use {Samples}

  abbrev pub with_clock :
      Arq Samples
      → RemoteClock Samples × Option ClockAdjustment
      → Arq Samples × Option ClockAdjustment
  with_clock a (clock, adjustment) =
      (record a { receive_buffer = record a.receive_buffer { remote_clock = clock } }, adjustment)

  unfoldable pub synchronize_clock :
      Arq Samples → Instant → TimeStamp → Arq Samples × Option ClockAdjustment
  synchronize_clock a now now_ts =
      with_clock a (RemoteClock.synchronize o a.receive_buffer.remote_clock now now_ts)
