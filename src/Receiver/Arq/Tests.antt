-- ===== src/Receiver/Arq/Tests.antt =====
-- A receiver that got its first packet.
use srt_rs.Prelude.{
  ℕ, ◌/◌, ◌≡◌, refl, true, false, none, some, [], ◌∷◌, pos, negsuc, pos_part, arith,
}
use srt_rs.Packet.Instant.{Instant, from_millis}
use srt_rs.Packet.TimeSpan
use srt_rs.Packet.TimeSpan.{TimeSpan}
use srt_rs.Packet.Data.{DataPacket, only_packet, DataEncryption}
use srt_rs.Time.Rtt
use srt_rs.Receiver.RemoteClock
use srt_rs.Receiver.History
use srt_rs.Receiver.Buffer
use srt_rs.Receiver.Buffer.{ReceiveBuffer, received}
use srt_rs.Receiver.Buffer.Push.{DataResult, push_packet}
use srt_rs.Receiver.Buffer.Push.Total.{Pushed}
use srt_rs.Receiver.Arq.{Arq, new, handle_data_packet}
use srt_rs.Receiver.Arq.Estimates.{
  ArrivalSpeed, calculate_speed, filtered, is_typical, nth, sort, insert, speed_of, rates,
  sum_intervals, sum_sizes, new_link_capacity,
}
use srt_rs.Receiver.Arq.Rates.{AreSpans, Speed, calculate_speed-Speed}
use srt_rs.Receiver.Arq.Handles.{IsArq, Answers, handle_data_packet-Total}
use srt_rs.Receiver.Arq.Steps.{new-IsArq}

abbrev per_second : TimeSpan → ℕ
per_second span = 1000000 / pos_part span

abbrev packet : DataPacket
packet = record {
  seq_number = 10;
  message_loc = only_packet;
  in_order_delivery = false;
  encryption = DataEncryption.none;
  retransmitted = false;
  message_number = 0;
  timestamp = 1000;
  dest_sockid = 1;
  payload = 7 ∷ 8 ∷ [];
}

abbrev now : Instant
now = pos 3000000

abbrev first : Arq ℕ
first = record {
  link_capacity_estimate = new_link_capacity;
  arrival_speed = record { packet_history_window = []; last_arrival_time = some now };
  receive_buffer = record {
    tsbpd_latency = from_millis 2;
    tsbpd_tolerance = from_millis 5;
    lrsn = 11;
    seqno0 = 10;
    too_late_packet_drop = true;
    remote_clock = RemoteClock.new (pos 0);
    buffer = received packet ∷ [];
    max_buffer_size = 8;
  };
  ack_history_window = History.new (from_millis 2) 10;
  rtt = Rtt.default;
}

abbrev fresh : Arq ℕ
fresh = new (pos 0) (from_millis 2) true 10 8

handle_data_packet-Total_example :
    (out : Arq ℕ × DataResult) × (handle_data_packet fresh now packet ≡ some out)
    × IsArq out.0
    × (p : ReceiveBuffer ℕ × DataResult) × Pushed fresh.receive_buffer packet p
    × (push_packet fresh.receive_buffer now packet ≡ some p)
    × (out.0.receive_buffer ≡ p.0)
    × Answers p.1 out.1
handle_data_packet-Total_example =
    handle_data_packet-Total now fresh packet
      (new-IsArq per_second (pos 0) (from_millis 2) true 10 8 (omega arith) (omega arith))
      (omega arith)

-- Nine intervals of a millisecond, and seven that are not typical.
abbrev speed : ArrivalSpeed
speed = record {
  packet_history_window =
      (pos 1000, 100)
      ∷ (pos 0, 100)
      ∷ (pos 1000, 100)
      ∷ (pos 0, 100)
      ∷ (pos 1000, 100)
      ∷ (negsuc 5, 100)
      ∷ (pos 1000, 100)
      ∷ (pos 90000, 100)
      ∷ (pos 1000, 100)
      ∷ (pos 0, 100)
      ∷ (pos 1000, 100)
      ∷ (pos 0, 100)
      ∷ (pos 1000, 100)
      ∷ (pos 1000, 100)
      ∷ (pos 3, 100)
      ∷ (pos 1000, 100)
      ∷ [];
  last_arrival_time = some now;
}

speed-AreSpans : AreSpans speed.packet_history_window
speed-AreSpans = ground arith

speed_test : calculate_speed speed ≡ some (some (1000, 100000))
unfolding calculate_speed filtered is_typical nth sort insert speed_of rates sum_intervals sum_sizes
    TimeSpan.div
speed_test = refl

calculate_speed-Speed_example : Speed (calculate_speed speed)
calculate_speed-Speed_example = calculate_speed-Speed speed speed-AreSpans
