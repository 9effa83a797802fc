-- ===== src/Receiver/Buffer/Pop/Outcome.antt =====
-- What one call of `pop_next_message` may leave behind.
use srt_rs.Prelude.{ℕ, ◌≡◌, false, some, List, ◌++◌, map, length}
use srt_rs.Packet.Instant.{Instant, before, plus}
use srt_rs.Packet.SeqNumber.{add}
use srt_rs.Packet.Data.{DataPacket}
use srt_rs.Receiver.RemoteClock
use srt_rs.Receiver.RemoteClock.{RemoteClock}
use srt_rs.Receiver.Buffer.{BufferPacket, received, ReceiveBuffer}
use srt_rs.Receiver.Buffer.Window.{IsValid}
use srt_rs.Receiver.Buffer.Pop.{front_packet, Popped, message, nothing, too_late, Pop}
use srt_rs.Receiver.Buffer.Pop.Message.{IsMessage, concat}

-- What one pop leaves behind. A message is the payloads of the packets of a whole message, in
-- order, which stood at the front and whose time has come; packets that are too late are dropped
-- from the front and their range reported; otherwise nothing changes.
module _ {S : Type 0} (r : ReceiveBuffer S) (now : Instant) where
  abbrev pub Outcome : ReceiveBuffer S → Popped → Type 0
  Outcome r' (message time bytes) =
      (m : ℕ) × (ds : List DataPacket) × IsMessage m ds
      × (r.buffer ≡ map received ds ++ r'.buffer)
      × (r'.seqno0 ≡ add r.seqno0 (length ds))
      × (bytes ≡ concat ds)
      × (d : DataPacket) × (front_packet r.buffer ≡ some d)
      × (before now (plus (RemoteClock.instant_from r.remote_clock d.timestamp) r.tsbpd_latency)
          ≡ false)
  Outcome r' nothing = r' ≡ r
  Outcome r' (too_late e) =
      (gone : List BufferPacket) × (r.buffer ≡ gone ++ r'.buffer)
      × (r'.seqno0 ≡ add r.seqno0 (length gone))
      × (e.first ≡ r.seqno0)
      × (e.end ≡ r'.seqno0)

  abbrev pub Total : Pop S → Type 0
  Total p =
      (r' : ReceiveBuffer S) × (popped : Popped) × (p ≡ some (r', popped))
      × IsValid r'
      × Outcome r' popped
