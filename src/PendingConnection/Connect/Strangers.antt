-- ===== src/PendingConnection/Connect/Strangers.antt =====
-- What a packet of another host does to a caller.
use srt_rs.Prelude.{◌≡◌, refl, true, false, inr, if◌then◌else◌, ◌==◌}
use srt_rs.Packet.Instant.{Instant}
use srt_rs.Packet.TimeStamp.{TimeStamp}
use srt_rs.Packet.Reject.{ShakeType, induction, waveahand, conclusion, agreement, rejection}
use srt_rs.Packet.Control.{HandshakeControlInfo, HandshakeVsInfo, udt, v5, ControlTypes, handshake}
use srt_rs.Packet.Control.Handshake.{version}
use srt_rs.Packet.Codec.{Packet, data_packet, control_packet}
use srt_rs.PendingConnection.Settings.{SocketAddr, StreamKeys}
use srt_rs.PendingConnection.Results.{
  ConnectError, ConnectionResult, not_handled, no_action, unexpected_host,
  unsupported_protocol_version, same_addr,
}
use srt_rs.PendingConnection.Hsv5.{StartedInitiator, finish_hsv5_initiation}
use srt_rs.PendingConnection.Connect.{
  Connect, configured, induction_response_wait, conclusion_response_wait, ConnectState,
  handle_packet, on_control, wait_for_induction, wait_for_conclusion, finished,
}

-- A result that sends nothing, connects nothing and fails nothing.
pub data Quiet {K : Type 0} : ConnectionResult K → Type 0 where
  ignored : (e : ConnectError) → Quiet (not_handled e)
  nothing : Quiet no_action

module _ (o : StreamKeys) where
  open o use {Keys}

  abbrev Unmoved : Connect o → Connect o × ConnectionResult Keys → Type 0
  Unmoved c (c', r) = (c' ≡ c) × Quiet r

  module _ (c : Connect o) (from : SocketAddr) (other : same_addr from c.remote ≡ false) where
    at_induction :
        (timestamp : TimeStamp) (shake : HandshakeControlInfo) (now : Instant) (t : ShakeType)
        (info : HandshakeVsInfo)
        → Unmoved c (
            wait_for_induction o c from timestamp
              (record shake { shake_type = t; info = info })
              now)
    unfolding wait_for_induction
    at_induction timestamp shake now induction (v5 hs) = rw other (refl, ignored _)
    at_induction timestamp shake now induction (udt ty) = (refl, ignored _)
    at_induction timestamp shake now waveahand info = (refl, ignored _)
    at_induction timestamp shake now conclusion info = (refl, ignored _)
    at_induction timestamp shake now agreement info = (refl, ignored _)
    at_induction timestamp shake now (rejection r) info = (refl, ignored _)

    at_conclusion :
        (shake : HandshakeControlInfo) (now : Instant) (cm : StartedInitiator o) (t : ShakeType)
        → Quiet (wait_for_conclusion o c from now (record shake { shake_type = t }) cm)
    unfolding wait_for_conclusion
    at_conclusion shake now cm induction = nothing
    at_conclusion shake now cm waveahand = ignored _
    at_conclusion shake now cm conclusion =
        elim (version shake.info == 5)
          as (λ b. Quiet (
            if b
            then if same_addr from c.remote
              then finished o
                  (finish_hsv5_initiation o cm (record shake { shake_type = conclusion }) from now)
              else not_handled (unexpected_host c.remote from)
            else not_handled (unsupported_protocol_version (version shake.info)))) [
              | true ↦ rw other (ignored _)
              | false ↦ ignored _
            ]
    at_conclusion shake now cm agreement = ignored _
    at_conclusion shake now cm (rejection r) = rw other (ignored _)

    controlled :
        (timestamp : TimeStamp) (t : ControlTypes) (now : Instant) (s : ConnectState o)
        → Unmoved c (on_control o c from timestamp t now s)
    controlled timestamp t now configured = (refl, nothing)
    controlled timestamp (handshake shake) now (induction_response_wait p) =
        at_induction timestamp shake now shake.shake_type shake.info
    controlled timestamp (handshake shake) now (conclusion_response_wait p cm) =
        (refl, at_conclusion shake now cm shake.shake_type)
    controlled timestamp t now (induction_response_wait p) = (refl, ignored _)
    controlled timestamp t now (conclusion_response_wait p cm) = (refl, ignored _)

    -- A packet from another host than the one that is called leaves the caller as it was, whatever it
    -- holds: it does not connect, reject or end it, and nothing is sent.
    pub handle_packet-Quiet :
        (p : Packet) (now : Instant)
        → ((handle_packet o c (inr (p, from)) now).0 ≡ c)
          × Quiet (handle_packet o c (inr (p, from)) now).1
    unfolding handle_packet
    handle_packet-Quiet (data_packet d) now = (refl, ignored _)
    handle_packet-Quiet (control_packet p) now = controlled p.timestamp p.control_type now c.state
