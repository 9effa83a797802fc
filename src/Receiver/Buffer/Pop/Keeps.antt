-- ===== src/Receiver/Buffer/Pop/Keeps.antt =====
-- `pop_next_message` never panics, keeps the buffer valid, and releases whole messages in order.
use srt_rs.Prelude.{
  ℕ, ◌+◌, ◌≤◌, ◌<◌, ◌≡◌, refl, ◌∙◌, ap, ap₂, sym, false, Option, none, some, List, [], ◌∷◌, ◌++◌,
  map, append-nil, arith, length, take, drop, ◌==◌, if_elim, ==_iff, length-take, length-drop,
}
use mathlib.Core.Path.{subst}
use srt_rs.Packet.Instant.{Instant, before, plus}
use srt_rs.Packet.SeqNumber.{max_value, add}
use srt_rs.Packet.SeqNumber.Order.{add-add, add-IsSeqNumber}
use srt_rs.Packet.Data.{DataPacket}
use srt_rs.Receiver.RemoteClock
use srt_rs.Receiver.RemoteClock.{RemoteClock}
use srt_rs.Receiver.Buffer.{BufferPacket, received, data_packet, ReceiveBuffer, lost_list_index}
use srt_rs.Receiver.Buffer.Window.{IsValid, lost_list_index-le}
use srt_rs.Receiver.Buffer.Pop.{
  next_message_packet_count, front_packet, Popped, message, Pop, release, release_full_message,
  release_single_packet_message, pop_next_message, pop_front, release_next,
}
use srt_rs.Receiver.Buffer.Pop.Message.{
  Front, concat, next_message_packet_count-Front, payloads_lem, take-map, drop-map, length-map,
}
use srt_rs.Receiver.Buffer.Pop.Outcome.{Outcome, Total}
use srt_rs.Receiver.Buffer.Pop.TooLate.{Numbered-drop, unchanged, drop_too_late_packets-Total}

front-drop :
    (ds : List DataPacket) (rest : List BufferPacket)
    → lost_list_index (map received ds ++ rest) ≡ length ds + lost_list_index rest
unfolding lost_list_index
front-drop [] rest = omega arith
front-drop (d ∷ ds) rest = omega (arith, front-drop ds rest)

single_lem :
    (time : Instant) (ps : List BufferPacket) (ds : List DataPacket) (rest : List BufferPacket)
    → ps ≡ map received ds ++ rest
    → length ds ≡ 1
    → release_single_packet_message time ps ≡ message time (concat ds)
unfolding release_single_packet_message front_packet data_packet
single_lem time ps [] rest e one = absurd (omega arith)
single_lem time ps (d ∷ []) rest e one = rw (e, append-nil d.payload) refl
single_lem time ps (d ∷ x ∷ ds) rest e one = absurd (omega arith)

module _ {S : Type 0} (r : ReceiveBuffer S) (v : IsValid r) (now : Instant) where
  module _ (k : ℕ) (f : Front k r.buffer) where
    rest_lem : drop k r.buffer ≡ f.rest
    rest_lem = rw (f.splits, f.counts) (drop-map f.packets f.rest)

    take_lem : take k r.buffer ≡ map received f.packets
    take_lem = rw (f.splits, f.counts) (take-map f.packets f.rest)

    fits : k ≤ length r.buffer
    fits = omega (arith, length-take k r.buffer, ap length take_lem, length-map f.packets, f.counts)

    -- The buffer after the release.
    abbrev after : RemoteClock S → ReceiveBuffer S
    after clock = record r {
      seqno0 = add r.seqno0 k;
      remote_clock = clock;
      buffer = drop k r.buffer;
    }

    after-IsValid : (clock : RemoteClock S) → IsValid (after clock)
    after-IsValid clock =
        let fr : lost_list_index r.buffer ≡ k + lost_list_index (drop k r.buffer) =
          ap lost_list_index f.splits
          ∙ front-drop f.packets f.rest
          ∙ ap₂ ◌+◌ (sym f.counts) (ap lost_list_index (sym rest_lem)) in
        record {
          is_seqno0 = add-IsSeqNumber r.seqno0 k;
          small = v.small;
          bounded = omega (arith, length-drop k r.buffer, v.bounded);
          numbered =
              Numbered-drop r.seqno0 k r.buffer v.is_seqno0 (omega (arith, v.bounded, v.small)) fits
                v.numbered;
          is_lrsn =
              v.is_lrsn
              ∙ ap (add r.seqno0) fr
              ∙ sym (
                  add-add r.seqno0 k (lost_list_index (drop k r.buffer)) v.is_seqno0
                    (omega (arith, fits, v.bounded, v.small))
                    (omega (arith, fr, lost_list_index-le r.buffer, v.bounded, v.small)));
        }

    full_lem :
        (time : Instant)
        → release_full_message time k r.buffer ≡ some (message time (concat f.packets))
    unfolding release_full_message
    full_lem time = rw (take_lem, payloads_lem f.packets) (ground (arith, fits))

    module _ (d : DataPacket) (e : front_packet r.buffer ≡ some d)
        (due : before now
            (plus (RemoteClock.instant_from r.remote_clock d.timestamp) r.tsbpd_latency)
          ≡ false) where
      released :
          (clock : RemoteClock S) (time : Instant) (p : Popped)
          → p ≡ message time (concat f.packets)
          → Total r now (some (after clock, p))
      released clock time p q = (
        after clock,
        message time (concat f.packets),
        ap (λ x. some (after clock, x)) q,
        after-IsValid clock,
        (
          f.number,
          f.packets,
          f.whole,
          rw rest_lem f.splits,
          ap (add r.seqno0) f.counts,
          refl,
          d,
          e,
          due,
        ),
      )

      -- A counted message is released.
      release-Total : Total r now (release r d.timestamp k)
      unfolding release
      release-Total =
          if_elim (Total r now) (k == 1)
            (λ one. released _ _ _ (
              single_lem _ r.buffer f.packets f.rest f.splits
                (omega (arith, f.counts, (==_iff k 1).0 one))))
            λ many.
              subst
                (λ o. Total r now (elim o as (λ x. Pop S) [
                  | none ↦ none
                  | some popped ↦ some (
                    after (RemoteClock.monotonic_instant_from r.remote_clock d.timestamp).0,
                    popped,
                  )
                ]))
                (sym (full_lem _)) (released _ _ _ refl)

  release_next-Total :
      r.seqno0 + length r.buffer < max_value
      → (d : DataPacket) (o : Option ℕ) → next_message_packet_count r.buffer ≡ o
      → front_packet r.buffer ≡ some d
      → before now (plus (RemoteClock.instant_from r.remote_clock d.timestamp) r.tsbpd_latency)
        ≡ false
      → Total r now (release_next r now d.timestamp o)
  unfolding release_next
  release_next-Total b d none c e due = drop_too_late_packets-Total r v now b
  release_next-Total b d (some k) c e due =
      release-Total k (next_message_packet_count-Front k r.buffer c) d e due

  pop_front-Total :
      r.seqno0 + length r.buffer < max_value
      → (o : Option DataPacket) → front_packet r.buffer ≡ o
      → Total r now (pop_front r now o)
  unfolding pop_front
  pop_front-Total b none e = drop_too_late_packets-Total r v now b
  pop_front-Total b (some d) e =
      if_elim (Total r now)
        (before now (plus (RemoteClock.instant_from r.remote_clock d.timestamp) r.tsbpd_latency))
        (λ early. unchanged r v now) λ due. release_next-Total b d _ refl e due

  -- While the numbers of a valid buffer do not wrap, taking the next message does not panic and
  -- keeps the buffer valid. What it gives is a whole message from the front of the buffer whose
  -- release time has come, or the report of the packets that were dropped from the front, or
  -- nothing, with the buffer unchanged.
  pub pop_next_message-Total :
      r.seqno0 + length r.buffer < max_value
      → (r' : ReceiveBuffer S) × (popped : Popped) × (pop_next_message r now ≡ some (r', popped))
        × IsValid r'
        × Outcome r now r' popped
  unfolding pop_next_message
  pop_next_message-Total b = pop_front-Total b _ refl
