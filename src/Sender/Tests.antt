-- ===== src/Sender/Tests.antt =====
-- The sender's parts at concrete values.
use srt_rs.Prelude.{
  Option, ℕ, ◌-◌, ◌^◌, ◌≡◌, refl, sym, false, none, some, List, [], ◌∷◌, ◌++◌, map, arith, length,
  take,
}
use srt_rs.Packet.SeqNumber.{SeqNumber, add}
use srt_rs.Packet.Data.{wire_size, DataPacket, DataEncryption, only_packet}
use srt_rs.Time.Rtt.{default}
use srt_rs.Receiver.Buffer.{received}
use srt_rs.Receiver.Buffer.Pop.{next_message_packet_count, payloads}
use srt_rs.Receiver.Buffer.Pop.Message.{IsMessage, concat}
use srt_rs.Sender.Encapsulation.{Encapsulation, encapsulate, next_message_number}
use srt_rs.Sender.Encapsulation.Whole.{Sized, encapsulate-IsMessage}
use srt_rs.Sender.Encapsulation.Received.{encapsulate-received}
use srt_rs.Sender.Buffer.{
  RtoQueue, SendBuffer, push_data, get, front_packet, front_of, update_largest_acked_seq_number,
  new_entry,
}
use srt_rs.Sender.Buffer.Bytes.{
  total, IsCounted, push_data-IsCounted, AckOutcome, update_largest_acked_seq_number-AckOutcome,
}
use srt_rs.Sender.Buffer.Send.{SenderAction}
use srt_rs.Sender.Buffer.Algorithm.{SenderAlgorithmIterator, new, next}
use srt_rs.Sender.Buffer.Algorithm.NoPanic.{next-Returns}
use srt_rs.Sender.Buffer.Loss.Keeps.{InWindow, add_to_loss_list-InWindow}
use srt_rs.Sender.Buffer.Stall.{push_data_stalls}
use srt_rs.Sender.Buffer.Loss.{add_to_loss_list}
use srt_rs.Sender.Buffer.Loss.Covers.{numbers, add_to_loss_list-numbers}

abbrev encapsulation : Encapsulation
encapsulation = record {
  remote_socket_id = 7;
  max_packet_size = 2;
  next_message_number = 4;
  next_sequence_number = 2 ^ 31 - 1;
}

abbrev bytes : List ℕ
bytes = 1 ∷ 2 ∷ 3 ∷ 4 ∷ 5 ∷ []

encapsulate-IsMessage_example :
    (ds : List DataPacket) × (e' : Encapsulation) × (encapsulate 7 encapsulation 99 bytes
      ≡ some (ds, e'))
    × IsMessage 4 ds
    × (concat ds ≡ bytes)
    × Sized (2 ^ 31 - 1) 2 ds
    × (e'.next_sequence_number ≡ add (2 ^ 31 - 1) (length ds))
    × (e'.next_message_number ≡ next_message_number 4)
encapsulate-IsMessage_example =
    encapsulate-IsMessage encapsulation 99 bytes (omega arith) (omega arith) (omega arith)

encapsulate-received_example :
    (ds : List DataPacket) × (e' : Encapsulation) × (encapsulate 7 encapsulation 99 bytes
      ≡ some (ds, e'))
    × (next_message_packet_count (map received ds ++ []) ≡ some (length ds))
    × (payloads (take (length ds) (map received ds ++ [])) ≡ some bytes)
encapsulate-received_example =
    encapsulate-received encapsulation 99 bytes [] (omega arith) (omega arith) (omega arith)

abbrev packet : SeqNumber → DataPacket
packet seq_number = record {
  seq_number = seq_number;
  message_loc = only_packet;
  in_order_delivery = false;
  encryption = DataEncryption.none;
  retransmitted = false;
  message_number = 0;
  timestamp = 1000;
  dest_sockid = 1;
  payload = 1 ∷ 2 ∷ [];
}

-- A stand-in for the queue package: it keeps nothing.
abbrev no_queue : RtoQueue
no_queue = record { Queue = ℕ; empty = 0; push = λ q n t. q; remove = λ q n. q; peek = λ q. none }

-- Two packets, of which the numbers from `next_send` on are not sent yet.
abbrev buffer : SeqNumber → SendBuffer ℕ
buffer next_send = record {
  latency_window = 1000000000;
  flow_window_size = 8192;
  buffer = new_entry (packet 30) ∷ new_entry (packet 31) ∷ [];
  max_buffer_size = 2;
  buffer_len_bytes = 92;
  next_send = next_send;
  next_full_ack = 1;
  lost_list = 30 ∷ [];
  rtt = default;
  rto_queue = 0;
}

after_30 : add 30 1 ≡ 31
unfolding add
after_30 = refl

after_30_zero : add 30 0 ≡ 30
unfolding add
after_30_zero = refl

buffer-bytes : 92 ≡ total (buffer 31).buffer
unfolding wire_size
buffer-bytes = refl

buffer-front : front_packet (buffer 31) ≡ some 30
unfolding front_packet front_of
buffer-front = refl

push_data-IsCounted_example : IsCounted (push_data (buffer 31) (packet 32)).0
push_data-IsCounted_example =
    push_data-IsCounted (buffer 31) (record { within = omega arith; bytes = buffer-bytes })
      (packet 32) (omega arith)

push_data_stalls_example : get (push_data (buffer 30) (packet 32)).0 30 ≡ none
push_data_stalls_example =
    push_data_stalls (buffer 30) (new_entry (packet 30)) (new_entry (packet 31)) [] (omega arith)
      (sym after_30) (omega arith) (packet 32) refl refl (omega arith)

update_largest_acked_seq_number-AckOutcome_example :
    AckOutcome
      (buffer 31)
      (add 30 1)
      1
      (some 3)
      (buffer 31).rtt
      (update_largest_acked_seq_number no_queue (buffer 31) (add 30 1) (some 3) none)
update_largest_acked_seq_number-AckOutcome_example =
    update_largest_acked_seq_number-AckOutcome no_queue (buffer 31) 30 1 (omega arith) buffer-front
      (refl, (sym after_30, tt)) (omega arith) buffer-bytes 1 (omega arith) (sym after_30) (some 3)
      none (omega arith) (omega arith)

add_to_loss_list-numbers_example :
    numbers (add_to_loss_list (buffer 31) (29 ∷ 30 ∷ 31 ∷ 32 ∷ [])).1 ≡ 29 ∷ 30 ∷ 31 ∷ 32 ∷ []
add_to_loss_list-numbers_example =
    add_to_loss_list-numbers (buffer 31) (29 ∷ 30 ∷ 31 ∷ 32 ∷ []) (omega arith) (omega arith)

next-Returns_example :
    (out : SenderAlgorithmIterator ℕ × Option SenderAction) × (next no_queue
        (new (buffer 31) 2000 3 false)
      ≡ some out)
unfolding new
next-Returns_example =
    next-Returns no_queue 30 (omega arith) (new (buffer 31) 2000 3 false)
      (omega arith, (refl, (sym after_30, tt)), ((0, omega arith, sym after_30_zero), tt))

add_to_loss_list-InWindow_example :
    InWindow 30 1
      (buffer 31).buffer
      (omega arith)
      (refl, (sym after_30, tt))
      (omega arith)
      (omega arith)
      (add_to_loss_list (buffer 31) (29 ∷ 30 ∷ 31 ∷ [])).0
add_to_loss_list-InWindow_example =
    add_to_loss_list-InWindow 30 1 (buffer 31).buffer (omega arith) (refl, (sym after_30, tt))
      (omega arith) (omega arith) (buffer 31) (29 ∷ 30 ∷ 31 ∷ []) (omega arith)
      (record {
        buffer = refl;
        next = sym after_30;
        lost = ((0, omega arith, sym after_30_zero), tt);
      })
