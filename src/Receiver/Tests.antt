-- ===== src/Receiver/Tests.antt =====
-- A receive buffer with a message of two packets, a lost packet and a packet behind it.
use srt_rs.Prelude.{
  ℕ, suc, ◌+◌, ◌≡◌, refl, true, false, none, some, List, [], ◌∷◌, map, arith, length, pos,
}
use srt_rs.Packet.Instant.{from_millis}
use srt_rs.Packet.SeqNumber.{SeqNumber, add}
use srt_rs.Packet.TimeSpan.{TimeSpan}
use srt_rs.Packet.Data.{
  DataPacket, PacketLocation, first_packet, last_packet, only_packet, DataEncryption,
}
use srt_rs.Packet.LossList.{done, decompress_loss_list}
use srt_rs.Receiver.RemoteClock
use srt_rs.Receiver.RemoteClock.{OnlineStats, RemoteClock}
use srt_rs.Receiver.RemoteClock.Monotonic.{release, sync, releases, RisesFrom, releases-RisesFrom}
use srt_rs.Receiver.Buffer.{
  lost, received, new_lost, ReceiveBuffer, data_sequence_number, lost_list_index,
}
use srt_rs.Receiver.Buffer.Window.{IsValid}
use srt_rs.Receiver.Buffer.Push.{push_packet, DataResult}
use srt_rs.Receiver.Buffer.Push.Total.{Pushed, push_packet-Total}
use srt_rs.Receiver.Buffer.Pop.{pop_next_message, Popped}
use srt_rs.Receiver.Buffer.Pop.Outcome.{Outcome}
use srt_rs.Receiver.Buffer.Pop.Keeps.{pop_next_message-Total}
use srt_rs.Receiver.Buffer.Losses.{prepare_loss_list, drop_packets}
use srt_rs.Receiver.Buffer.Losses.Drop.{lost_count}
use srt_rs.Receiver.Buffer.Losses.Range.{without_lost_in, drop_packets_lem}
use srt_rs.Receiver.Buffer.Losses.Feedback.{due_losses, prepare_loss_list-reports}

abbrev packet : SeqNumber → ℕ → PacketLocation → List ℕ → DataPacket
packet seq_number message_number message_loc payload = record {
  seq_number = seq_number;
  message_loc = message_loc;
  in_order_delivery = false;
  encryption = DataEncryption.none;
  retransmitted = false;
  message_number = message_number;
  timestamp = 1000;
  dest_sockid = 1;
  payload = payload;
}

abbrev buffer : ReceiveBuffer ℕ
buffer = record {
  tsbpd_latency = from_millis 2;
  tsbpd_tolerance = from_millis 5;
  lrsn = 12;
  seqno0 = 10;
  too_late_packet_drop = true;
  remote_clock = RemoteClock.new (pos 0);
  buffer =
      received (packet 10 0 first_packet (1 ∷ 2 ∷ []))
      ∷ received (packet 11 0 last_packet (3 ∷ []))
      ∷ lost (new_lost 12 (pos 0))
      ∷ received (packet 13 2 only_packet [])
      ∷ [];
  max_buffer_size = 8;
}

buffer-IsValid : IsValid buffer
unfolding data_sequence_number lost_list_index new_lost add
buffer-IsValid = record {
  is_seqno0 = omega arith;
  small = omega arith;
  bounded = omega arith;
  numbered = (refl, (refl, (refl, (refl, tt))));
  is_lrsn = refl;
}

push_packet-Total_example :
    (out : ReceiveBuffer ℕ × DataResult) × (push_packet buffer
        (pos 5)
        (packet 12 1 only_packet (7 ∷ []))
      ≡ some out)
    × Pushed buffer (packet 12 1 only_packet (7 ∷ [])) out
push_packet-Total_example =
    push_packet-Total buffer buffer-IsValid (packet 12 1 only_packet (7 ∷ [])) (omega arith) (pos 5)

pop_next_message-Total_example :
    (r' : ReceiveBuffer ℕ) × (popped : Popped) × (pop_next_message buffer (pos 9000000)
      ≡ some (r', popped))
    × IsValid r'
    × Outcome buffer (pos 9000000) r' popped
pop_next_message-Total_example =
    pop_next_message-Total buffer buffer-IsValid (pos 9000000) (omega arith)

prepare_loss_list-reports_example :
    (words : List ℕ) × ((prepare_loss_list buffer (pos 900000000) (pos 1000)).1 ≡ done words)
    × (decompress_loss_list
          (suc (length (due_losses (pos 900000000) (pos 1000) buffer.buffer)))
          words
        ≡ done (due_losses (pos 900000000) (pos 1000) buffer.buffer))
prepare_loss_list-reports_example =
    prepare_loss_list-reports buffer buffer-IsValid (pos 900000000) (pos 1000) (omega arith)

drop_packets_lem_example :
    (r' : ReceiveBuffer ℕ) × (count : ℕ) × (drop_packets buffer 11 13 ≡ some (r', count))
    × IsValid r'
    × (count + lost_count r'.buffer ≡ lost_count buffer.buffer)
    × (r'.buffer ≡ map (without_lost_in 11 13) buffer.buffer)
drop_packets_lem_example = drop_packets_lem buffer 11 13 buffer-IsValid (omega arith) (omega arith)

-- A stand-in for the statistics package: the last sample and the number of samples.
abbrev last_sample : OnlineStats
last_sample = record {
  Samples = ℕ × TimeSpan;
  empty = (0, pos 0);
  add = λ s x. (s.0 + 1, x);
  len = λ s. s.0;
  mean = λ s. s.1;
  stddev = λ s. pos 0;
}

releases-RisesFrom_example : RisesFrom last_sample none (
    releases last_sample
      (RemoteClock.new (pos 0))
      (release 50 ∷ sync (pos 100000) 20 ∷ release 30 ∷ release 70 ∷ []))
unfolding RemoteClock.new
releases-RisesFrom_example =
    releases-RisesFrom last_sample (RemoteClock.new (pos 0))
      (release 50 ∷ sync (pos 100000) 20 ∷ release 30 ∷ release 70 ∷ [])
