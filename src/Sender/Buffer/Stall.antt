-- ===== src/Sender/Buffer/Stall.antt =====
-- A send buffer that overflows before its first packet is sent.
use srt_rs.Prelude.{
  ℕ, ◌+◌, ◌≤◌, ◌<◌, ◌≡◌, ap, sym, none, Option, List, [], ◌∷◌, ◌++◌, arith, length, length-append,
  get_elem?-past_end, if_elim, ltb,
}
use mathlib.Core.Path.{subst}
use srt_rs.Packet.SeqNumber.{IsSeqNumber, max_diff, add, distance}
use srt_rs.Packet.Data.{DataPacket}
use srt_rs.Sender.Buffer.{
  SendBufferEntry, SendBuffer, new_entry, push_data, push_full, append, drop_front, get, get_from,
  front_packet, front_of,
}

distance_back : (s : ℕ) → IsSeqNumber s → max_diff ≤ distance s (add s 1)
unfolding distance add
distance_back s h = ground arith

module _ {Q : Type 0} (s : SendBuffer Q) (x y : SendBufferEntry) (es : List SendBufferEntry)
    (hn : IsSeqNumber s.next_send) (second : y.packet.seq_number ≡ add s.next_send 1)
    (b : length es + 2 < max_diff) (packet : DataPacket) where
  -- The number to send next is behind the new front.
  get_behind : get (append (drop_front s x (y ∷ es)) packet) s.next_send ≡ none
  unfolding get get_from front_packet front_of append drop_front
  get_behind =
      get_elem?-past_end (y ∷ es ++ new_entry packet ∷ [])
        (distance s.next_send y.packet.seq_number)
        (omega (
          arith,
          length-append es (new_entry packet ∷ []),
          distance_back s.next_send hn,
          ap (distance s.next_send) second,
        ))

  push_full_stalls :
      (buffer : List SendBufferEntry)
      → buffer ≡ x ∷ y ∷ es
      → get (push_full s packet buffer).0 s.next_send ≡ none
  unfolding push_full
  push_full_stalls buffer e =
      subst (λ l. get (push_full s packet l).0 s.next_send ≡ none) (sym e) get_behind

  -- If a full buffer of two packets or more, none of which was sent yet, takes a new packet, then
  -- the number to be sent next is no longer in the buffer: no new packet can be sent from it.
  pub push_data_stalls :
      s.buffer ≡ x ∷ y ∷ es
      → x.packet.seq_number ≡ s.next_send
      → s.max_buffer_size ≤ length s.buffer
      → get (push_data s packet).0 s.next_send ≡ none
  unfolding push_data
  push_data_stalls e first full =
      if_elim {A = SendBuffer Q × Option (ℕ × ℕ)} (λ out. get out.0 s.next_send ≡ none)
        (ltb (length s.buffer) s.max_buffer_size) (λ room. absurd (ground arith))
        λ no_room. push_full_stalls s.buffer e
