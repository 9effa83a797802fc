-- ===== src/Sender/Encapsulation/Received.antt =====
-- The packets of a message that the sender makes are what the receiver counts as one.
use srt_rs.Prelude.{
  ℕ, suc, ◌+◌, ◌<◌, ◌≡◌, ◌∙◌, ap, sym, true, false, some, List, [], ◌∷◌, ◌++◌, ◌>>=◌, map, arith,
  length, take,
}
use mathlib.Core.Path.{subst}
use srt_rs.Packet.SeqNumber.{IsSeqNumber, max_value}
use srt_rs.Packet.TimeStamp.{TimeStamp}
use srt_rs.Packet.Data.{DataPacket}
use srt_rs.Receiver.Buffer.{BufferPacket, received, in_message, data_packet}
use srt_rs.Receiver.Buffer.Pop.{
  accumulate, accumulate_location, calculate, count_packets, new_count, front_packet,
  next_message_packet_count, payloads,
}
use srt_rs.Receiver.Buffer.Pop.Message.{Ends, IsMessage, count_done, payloads_lem, take-map}
use srt_rs.Sender.Encapsulation.{Encapsulation, encapsulate}
use srt_rs.Sender.Encapsulation.Whole.{encapsulate-IsMessage}

-- A count that is past the first packet goes on to the last.
count_on :
    (m n : ℕ) (ds : List DataPacket) (rest : List BufferPacket)
    → 0 < n
    → Ends m ds
    → count_packets m (record { count = n; done = false }) (map received ds ++ rest)
      ≡ some (record { count = n + length ds; done = true })
unfolding count_packets accumulate accumulate_location in_message data_packet
count_on m n [] rest h e = absurd e
count_on m n (d ∷ []) rest h e = ground (arith, count_done m (n + 1) rest)
count_on m n (d ∷ x ∷ ds) rest h e = ground (arith, count_on m (n + 1) (x ∷ ds) rest)

count_whole :
    (m : ℕ) (d : DataPacket) (ds : List DataPacket) (rest : List BufferPacket)
    → d.message_loc.first ≡ true
    → Ends m (d ∷ ds)
    → count_packets m new_count (map received (d ∷ ds) ++ rest)
      ≡ some (record { count = suc (length ds); done = true })
unfolding count_packets accumulate accumulate_location in_message data_packet new_count
count_whole m d [] rest f e = ground (arith, count_done m 1 rest)
count_whole m d (x ∷ ds) rest f e = ground (arith, count_on m 1 (x ∷ ds) rest)

Ends-number :
    (m : ℕ) (d : DataPacket) (ds : List DataPacket) → Ends m (d ∷ ds) → d.message_number ≡ m
Ends-number m d [] e = e.0
Ends-number m d (x ∷ ds) e = e.0

-- The count of a whole message at the front of the receive buffer.
count_message :
    (m : ℕ) (ds : List DataPacket) (rest : List BufferPacket)
    → IsMessage m ds
    → next_message_packet_count (map received ds ++ rest) ≡ some (length ds)
unfolding next_message_packet_count front_packet data_packet calculate
count_message m [] rest w = absurd w.ends
count_message m (d ∷ ds) rest w =
    subst
      (λ n.
        (count_packets n new_count (map received (d ∷ ds) ++ rest) >>= calculate)
        ≡ some (length (d ∷ ds)))
      (sym number) (ap (λ c. c >>= calculate) (count_whole m d ds rest first w.ends))
  where
    same : d ≡ w.begins.0
    same = let e = w.begins.2 in cc

    first : d.message_loc.first ≡ true
    first = rw same w.begins.3

    number : d.message_number ≡ m
    number = Ends-number m d ds w.ends

-- What the sender makes of a message, once it is received at the front of a receive buffer, is
-- counted as one message of just these packets, whose payloads are the bytes of the message.
pub encapsulate-received :
    (e : Encapsulation) (timestamp : TimeStamp) (bytes : List ℕ) (rest : List BufferPacket)
    → 0 < e.max_packet_size
    → IsSeqNumber e.next_sequence_number
    → length bytes + 2 < max_value
    → (ds : List DataPacket) × (e' : Encapsulation) × (encapsulate
          (length bytes + 2)
          e
          timestamp
          bytes
        ≡ some (ds, e'))
      × (next_message_packet_count (map received ds ++ rest) ≡ some (length ds))
      × (payloads (take (length ds) (map received ds ++ rest)) ≡ some bytes)
encapsulate-received e timestamp bytes rest m s b =
    let (ds, e', p, w, c, _, _, _) = encapsulate-IsMessage e timestamp bytes m s b in
    (
      ds,
      e',
      p,
      count_message e.next_message_number ds rest w,
      ap payloads (take-map ds rest) ∙ payloads_lem ds ∙ ap some c,
    )
