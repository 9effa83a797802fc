-- ===== src/Receiver/Arq/Steps.antt =====
-- Whatever happens to a receiver, in any order, it acknowledges only what it received.
use srt_rs.Prelude.{ℕ, ◌+◌, ◌<◌, ◌≤◌, ◌≡◌, sym, Bool, Option, some, List, length, arith}
use srt_rs.Packet.Instant.{Instant, Duration}
use srt_rs.Packet.SeqNumber.{SeqNumber, IsSeqNumber, max_value, max_diff}
use srt_rs.Packet.SeqNumber.Order.{add-zero}
use srt_rs.Packet.TimeSpan.{TimeSpan}
use srt_rs.Packet.Data.{DataPacket}
use srt_rs.Packet.Control.{Acknowledgement}
use srt_rs.Receiver.RemoteClock.{RemoteClock}
use srt_rs.Receiver.History
use srt_rs.Receiver.History.{FullAckSeqNumber}
use srt_rs.Receiver.Buffer
use srt_rs.Receiver.Buffer.{lost_list_index}
use srt_rs.Receiver.Buffer.Push.{DataResult}
use srt_rs.Receiver.Buffer.Pop.{Popped}
use srt_rs.Receiver.Arq.{
  Arq, new, on_full_ack_event, on_nak_event, handle_data_packet, handle_ack2_packet,
  handle_drop_request, pop_next_message,
}
use srt_rs.Receiver.Arq.Handles.{IsArq}

module _ {S : Type 0} (per_second : TimeSpan → ℕ) where
  -- One event of a receiver. A data packet has a number of 31 bits, as the parser gives it; a request
  -- to drop does not end before it starts; a message is taken while the numbers do not wrap; and the
  -- remote clock may become any other.
  pub data Step : Arq S → Arq S → Type 0 where
    data_packet :
        {a b : Arq S} (now : Instant) (d : DataPacket) (result : DataResult)
        → IsSeqNumber d.seq_number
        → handle_data_packet a now d ≡ some (b, result)
        → Step a b
    full_ack :
        {a b : Arq S} (now : Instant) (sent : Option Acknowledgement)
        → on_full_ack_event per_second a now ≡ some (b, sent)
        → Step a b
    nak :
        {a b : Arq S} (now : Instant) (list : Option (List ℕ))
        → on_nak_event a now ≡ some (b, list)
        → Step a b
    ack2 :
        {a : Arq S} (now : Instant) (n : FullAckSeqNumber) → Step a (handle_ack2_packet a now n).0
    drop_request :
        {a b : Arq S} (start end : SeqNumber) (count : ℕ)
        → start ≤ end
        → handle_drop_request a start end ≡ some (b, count)
        → Step a b
    message :
        {a b : Arq S} (now : Instant) (popped : Popped)
        → a.receive_buffer.seqno0 + length a.receive_buffer.buffer < max_value
        → pop_next_message a now ≡ some (b, popped)
        → Step a b
    clock :
        {a : Arq S} (c : RemoteClock S)
        → Step a (record a { receive_buffer = record a.receive_buffer { remote_clock = c } })

  pub data Reaches (start : Arq S) : Arq S → Type 0 where
    here : Reaches start start
    step : {a b : Arq S} → Reaches start a → Step a b → Reaches start b

  module _ (t0 : Instant) (latency : Duration) (tlpktdrop : Bool) (init : SeqNumber) (size : ℕ)
      (is_init : IsSeqNumber init) (small : size < max_diff) where
    pub new-IsArq : IsArq {S = S} (new t0 latency tlpktdrop init size)
    unfolding new Buffer.new lost_list_index
    new-IsArq = record {
      valid = record {
        is_seqno0 = is_init;
        small = small;
        bounded = omega arith;
        numbered = tt;
        is_lrsn = sym (add-zero init is_init);
      };
      spans = tt;
    }
