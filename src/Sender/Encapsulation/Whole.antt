-- ===== src/Sender/Encapsulation/Whole.antt =====
-- The packets of a message: whole, numbered one after the other, and with its bytes.
use srt_rs.Prelude.{
  ℕ, zero, suc, ◌+◌, ◌≤◌, ◌<◌, ◌≡◌, refl, ◌∙◌, ap, false, Option, some, List, [], ◌∷◌, ◌++◌, arith,
  length, take, drop, take-append-drop, length-take, length-drop, ltb, append-nil, Bool-cases, inl,
  inr, ltb→lt,
}
use srt_rs.Packet.SeqNumber.{SeqNumber, IsSeqNumber, max_value, add}
use srt_rs.Packet.SeqNumber.Order.{add-IsSeqNumber}
use srt_rs.Packet.TimeStamp.{TimeStamp}
use srt_rs.Packet.Data.{DataPacket, middle, union, last_packet}
use srt_rs.Receiver.Buffer.Window.{add_suc}
use srt_rs.Receiver.Buffer.Pop.Message.{Ends, IsMessage, concat, Ends-cons}
use srt_rs.Sender.Encapsulation.{
  next_message_number, Encapsulation, MessageIterator, packet_of, next_packet, next, packets,
  message_iterator, encapsulate,
}

-- The packets have the numbers from `s` on, and payloads of at most `size` bytes.
abbrev pub Sized : SeqNumber → ℕ → List DataPacket → Type 0
Sized s size [] = Unit {0}
Sized s size (d ∷ ds) = (d.seq_number ≡ s) × (length d.payload ≤ size) × Sized (add s 1) size ds

-- What the iterator gives from a state that is not at its end.
pub record Split (fuel : ℕ) (it : MessageIterator)
    (out : Option (List DataPacket × MessageIterator)) : Type 0 where
  pub ds : List DataPacket
  pub end : MessageIterator
  pub yields : out ≡ some (ds, end)
  pub ends : Ends it.message_number ds
  pub starts :
      (d : DataPacket) × (rest : List DataPacket) × (ds ≡ d ∷ rest)
      × (d.message_loc.first ≡ it.packet_location.first)
  pub bytes : concat ds ≡ it.remaining
  pub sized : Sized it.next_sequence_number it.max_packet_size ds
  pub next_number : end.next_sequence_number ≡ add it.next_sequence_number (length ds)
  pub few : length ds < fuel

-- The two ways on: the last packet, and one with more behind it.
abbrev last_of : MessageIterator → DataPacket
last_of it = packet_of it it.remaining (union it.packet_location last_packet)

abbrev after_last : MessageIterator → MessageIterator
after_last it = record it {
  next_sequence_number = add it.next_sequence_number 1;
  remaining = [];
  packet_location = union it.packet_location last_packet;
}

abbrev piece_of : MessageIterator → DataPacket
piece_of it = packet_of it (take it.max_packet_size it.remaining) it.packet_location

abbrev after_piece : MessageIterator → MessageIterator
after_piece it = record it {
  next_sequence_number = add it.next_sequence_number 1;
  remaining = drop it.max_packet_size it.remaining;
  packet_location = middle;
}

packets_last :
    (fuel : ℕ) (it : MessageIterator)
    → it.packet_location.last ≡ false
    → length it.remaining ≤ it.max_packet_size
    → packets (suc (suc fuel)) it ≡ some (last_of it ∷ [], after_last it)
unfolding packets next next_packet
packets_last fuel it l h = ground arith

packets_piece :
    (fuel : ℕ) (it : MessageIterator) (ds : List DataPacket) (end : MessageIterator)
    → it.packet_location.last ≡ false
    → it.max_packet_size < length it.remaining
    → packets fuel (after_piece it) ≡ some (ds, end)
    → packets (suc fuel) it ≡ some (piece_of it ∷ ds, end)
unfolding packets next next_packet
packets_piece fuel it ds end l h e = ground arith

split :
    (fuel : ℕ) (it : MessageIterator)
    → it.packet_location.last ≡ false
    → 0 < it.max_packet_size
    → IsSeqNumber it.next_sequence_number
    → length it.remaining + 1 < fuel
    → fuel < max_value
    → Split fuel it (packets fuel it)
unfolding packet_of
split zero it l m s f b = absurd (omega arith)
split (suc zero) it l m s f b = absurd (omega arith)
split (suc (suc fuel)) it l m s f b =
    elim (Bool-cases (ltb it.max_packet_size (length it.remaining))) [
      | inl more ↦
          let h = ltb→lt it.max_packet_size (length it.remaining) more in
          let r =
            split (suc fuel) (after_piece it) refl m (add-IsSeqNumber it.next_sequence_number 1)
              (omega (arith, length-drop it.max_packet_size it.remaining)) (omega arith) in
          record {
            ds = piece_of it ∷ r.ds;
            end = r.end;
            yields = packets_piece (suc fuel) it r.ds r.end l h r.yields;
            ends = Ends-cons it.message_number (piece_of it) r.ds refl l r.ends;
            starts = (piece_of it, r.ds, refl, refl);
            bytes =
                ap (take it.max_packet_size it.remaining ++◌) r.bytes
                ∙ take-append-drop it.max_packet_size it.remaining;
            sized = (refl, omega (arith, length-take it.max_packet_size it.remaining), r.sized);
            next_number =
                r.next_number
                ∙ add_suc it.next_sequence_number (length r.ds) s (omega (arith, r.few));
            few = omega (arith, r.few);
          }
      | inr fits ↦
          let h : length it.remaining ≤ it.max_packet_size = ground arith in
          record {
            ds = last_of it ∷ [];
            end = after_last it;
            yields = packets_last fuel it l h;
            ends = (refl, ground arith);
            starts = (last_of it, [], refl, ground arith);
            bytes = append-nil it.remaining;
            sized = (refl, h, tt);
            next_number = refl;
            few = omega arith;
          }
    ]

-- Taking all the packets of a message ends, with fuel for two more steps than the message has
-- bytes, if a packet can hold a byte. The packets are a whole message of the next number, hold the
-- bytes in order, at most a packet's size each, and have consecutive numbers; the next message
-- goes on after them.
pub encapsulate-IsMessage :
    (e : Encapsulation) (timestamp : TimeStamp) (bytes : List ℕ)
    → 0 < e.max_packet_size
    → IsSeqNumber e.next_sequence_number
    → length bytes + 2 < max_value
    → (ds : List DataPacket) × (e' : Encapsulation) × (encapsulate
          (length bytes + 2)
          e
          timestamp
          bytes
        ≡ some (ds, e'))
      × IsMessage e.next_message_number ds
      × (concat ds ≡ bytes)
      × Sized e.next_sequence_number e.max_packet_size ds
      × (e'.next_sequence_number ≡ add e.next_sequence_number (length ds))
      × (e'.next_message_number ≡ next_message_number e.next_message_number)
unfolding encapsulate message_iterator
encapsulate-IsMessage e timestamp bytes m s b =
    let it = message_iterator e timestamp bytes in
    let r = split (length bytes + 2) it refl m s (omega arith) b in
    (
      r.ds,
      record e {
        next_message_number = next_message_number e.next_message_number;
        next_sequence_number = r.end.next_sequence_number;
      },
      rw (encapsulate, r.yields) refl,
      record { begins = r.starts; ends = r.ends },
      r.bytes,
      r.sized,
      r.next_number,
      refl,
    )
