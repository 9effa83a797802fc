-- ===== src/PendingConnection/Connect.antt =====
-- srt-protocol/src/protocol/pending_connection/connect.rs: the side that calls. The packet that waits
-- for its answer is kept, to be sent again at each tick.
pub mod Exchange
pub mod Strangers
mod Tests
use srt_rs.Prelude.{
  ℕ, Bool, true, false, Option, none, some, List, pos, ◌==◌, ◌⊎◌, inl, inr, if◌then◌else◌,
}
use srt_rs.Packet.Instant.{Instant}
use srt_rs.Packet.SeqNumber.{SeqNumber}
use srt_rs.Packet.TimeStamp.{TimeStamp}
use srt_rs.Packet.Reject.{ShakeType, induction, waveahand, conclusion, agreement, rejection}
use srt_rs.Packet.Control.{
  ControlPacket, ControlTypes, handshake, HandshakeControlInfo, HandshakeVsInfo, udt, v5, datagram,
  IpAddr,
}
use srt_rs.Packet.Control.Handshake.{version}
use srt_rs.Packet.Codec.{Packet, data_packet, control_packet}
use srt_rs.Packet.Wire.{bad_connection_type}
use srt_rs.PendingConnection.Settings.{SocketAddr, StreamKeys, ConnInitSettings, ConnectionSettings}
use srt_rs.PendingConnection.Results.{
  ConnectError, control_expected, handshake_expected, induction_expected, unexpected_host,
  conclusion_expected, unsupported_protocol_version, parse_failed, ConnectionReject, rejected,
  connection_reset, other, io, parse, ReceivePacketError, ReceivePacketResult, ConnectionResult,
  not_handled, reject, send_packet, connected, connector, no_action, failure, same_addr,
}
use srt_rs.PendingConnection.Hsv5.{
  StartedInitiator, start_hsv5_initiation, finish_hsv5_initiation, Finished,
}

module _ (o : StreamKeys) where
  open o use {Keys}

  pub data ConnectState : Type 0 where
    configured : ConnectState
    induction_response_wait : Packet → ConnectState
    conclusion_response_wait : Packet → StartedInitiator o → ConnectState

  pub record Connect : Type 0 where
    pub remote : SocketAddr
    pub local_addr : IpAddr
    pub init_settings : ConnInitSettings
    pub state : ConnectState
    pub streamid : Option (List ℕ)
    pub starting_send_seqnum : SeqNumber

  unfoldable pub new :
      SocketAddr → IpAddr → ConnInitSettings → Option (List ℕ) → SeqNumber → Connect
  new remote local_addr init_settings streamid starting_send_seqnum = record {
    remote = remote;
    local_addr = local_addr;
    init_settings = init_settings;
    state = configured;
    streamid = streamid;
    starting_send_seqnum = starting_send_seqnum;
  }

  abbrev pub shake_packet : TimeStamp → HandshakeControlInfo → Packet
  shake_packet timestamp info =
      control_packet
        (record { timestamp = timestamp; dest_sockid = 0; control_type = handshake info })

  unfoldable pub on_start : Connect → Connect × ConnectionResult Keys
  on_start c =
      let packet = shake_packet 0 (record {
        init_seq_num = c.starting_send_seqnum;
        max_packet_size = c.init_settings.max_packet_size;
        max_flow_size = c.init_settings.max_flow_size;
        socket_id = c.init_settings.local_sockid;
        shake_type = induction;
        peer_addr = c.local_addr;
        syn_cookie = pos 0;
        info = udt datagram;
      }) in
      (record c { state = induction_response_wait packet }, send_packet (packet, c.remote))

  -- The conclusion goes back with the cookie of the induction.
  unfoldable pub conclude :
      Connect
      → SocketAddr
      → TimeStamp
      → HandshakeControlInfo
      → Instant
      → Connect × ConnectionResult Keys
  unfolding start_hsv5_initiation
  conclude c from timestamp info now =
      let (hsv5, cm) = start_hsv5_initiation o c.init_settings c.streamid now in
      let packet = shake_packet timestamp (record info {
        shake_type = conclusion;
        socket_id = c.init_settings.local_sockid;
        info = hsv5;
        init_seq_num = c.starting_send_seqnum;
      }) in
      (record c { state = conclusion_response_wait packet cm }, send_packet (packet, from))

  abbrev pub on_induction :
      Connect
      → SocketAddr
      → TimeStamp
      → HandshakeControlInfo
      → Instant
      → HandshakeVsInfo
      → Connect × ConnectionResult Keys
  on_induction c from timestamp info now (v5 hs) =
      if same_addr from c.remote
      then conclude c from timestamp info now
      else (c, not_handled (unexpected_host c.remote from))
  on_induction c from timestamp info now (udt ty) =
      (c, not_handled (unsupported_protocol_version (version (udt ty))))

  unfoldable pub wait_for_induction :
      Connect
      → SocketAddr
      → TimeStamp
      → HandshakeControlInfo
      → Instant
      → Connect × ConnectionResult Keys
  wait_for_induction c from timestamp info now = elim info.shake_type [
    | induction ↦ on_induction c from timestamp info now info.info
    | _ ↦ (c, not_handled (induction_expected info))
  ]

  abbrev pub finished : Finished o → ConnectionResult Keys
  finished (inl e) = not_handled e
  finished (inr settings) = connected none settings connector

  unfoldable pub wait_for_conclusion :
      Connect
      → SocketAddr
      → Instant
      → HandshakeControlInfo
      → StartedInitiator o
      → ConnectionResult Keys
  wait_for_conclusion c from now info initiator = elim info.shake_type [
    | conclusion ↦
        if version info.info == 5
        then if same_addr from c.remote
          then finished (finish_hsv5_initiation o initiator info from now)
          else not_handled (unexpected_host c.remote from)
        else not_handled (unsupported_protocol_version (version info.info))
    | rejection rej ↦
        if same_addr from c.remote
        then reject none (rejected rej)
        else not_handled (unexpected_host c.remote from)
    | induction ↦ no_action
    | _ ↦ not_handled (conclusion_expected info)
  ]

  abbrev pub on_control :
      Connect
      → SocketAddr
      → TimeStamp
      → ControlTypes
      → Instant
      → ConnectState
      → Connect × ConnectionResult Keys
  on_control c from timestamp control_type now configured = (c, no_action)
  on_control c from timestamp (handshake shake) now (induction_response_wait packet) =
      wait_for_induction c from timestamp shake now
  on_control c from timestamp (handshake shake) now (conclusion_response_wait packet cm) =
      (c, wait_for_conclusion c from now shake cm)
  on_control c from timestamp control_type now _ =
      (c, not_handled (handshake_expected control_type))

  abbrev pub on_packet : Connect → Packet → SocketAddr → Instant → Connect × ConnectionResult Keys
  on_packet c (data_packet d) from now = (c, not_handled (control_expected d))
  on_packet c (control_packet p) from now = on_control c from p.timestamp p.control_type now c.state

  abbrev pub on_error : ReceivePacketError → ConnectionResult Keys
  on_error (io connection_reset) = no_action
  on_error (io (other code)) = failure (other code)
  on_error (parse (bad_connection_type code)) = failure connection_reset
  on_error (parse e) = not_handled (parse_failed e)

  unfoldable pub handle_packet :
      Connect → ReceivePacketResult → Instant → Connect × ConnectionResult Keys
  handle_packet c (inr (packet, from)) now = on_packet c packet from now
  handle_packet c (inl e) now = (c, on_error e)

  abbrev pub on_tick : Connect → ConnectState → Connect × ConnectionResult Keys
  on_tick c configured = on_start c
  on_tick c (induction_response_wait packet) = (c, send_packet (packet, c.remote))
  on_tick c (conclusion_response_wait packet cm) = (c, send_packet (packet, c.remote))

  unfoldable pub handle_tick : Connect → Instant → Connect × ConnectionResult Keys
  unfolding on_start
  handle_tick c now = on_tick c c.state
