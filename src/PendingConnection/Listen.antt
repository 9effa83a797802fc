-- ===== src/PendingConnection/Listen.antt =====
-- srt-protocol/src/protocol/pending_connection/listen.rs: the side that is called. The cookie that
-- `gen_cookie` makes of the address and the time is an argument of the handlers.
pub mod Cookies
mod Tests
use srt_rs.Prelude.{
  ℕ, Bool, true, false, Option, none, some, List, ℤ, pos, negsuc, length, ltb, ◌==◌, ◌⊎◌, inl, inr,
  if◌then◌else◌,
}
use srt_rs.Packet.Instant.{Instant}
use srt_rs.Packet.TimeStamp.{TimeStamp}
use srt_rs.Packet.Reject.{
  ShakeType, induction, waveahand, conclusion, agreement, rejection, core, server, CoreRejectReason,
  ServerRejectReason,
}
use srt_rs.Packet.Control.{
  ControlPacket, ControlTypes, handshake, HandshakeControlInfo, HandshakeVsInfo, udt, v5, HsV5Info,
  unspecified,
}
use srt_rs.Packet.Control.Handshake.{version}
use srt_rs.Packet.Codec.{Packet, data_packet, control_packet}
use srt_rs.PendingConnection.Settings.{SocketAddr, StreamKeys, KeySettings, ConnInitSettings}
use srt_rs.PendingConnection.Results.{
  ConnectError, control_expected, handshake_expected, induction_expected, conclusion_expected,
  unsupported_protocol_version, invalid_handshake_cookie, expected_hs_req,
  expected_access_control_response, parse_failed, ConnectionReject, rejecting, reason, io, parse,
  ReceivePacketError, ReceivePacketResult, ConnectionResult, not_handled, reject, send_packet,
  connected, no_action, failure, request_access, AccessControlResponse, accepted, access_rejected,
  dropped, listener,
}
use srt_rs.PendingConnection.Hsv5.{
  GenHsv5Result, accept, unimplemented, gen_access_control_response,
}
use srt_rs.PendingConnection.Hsv5

pub record ConclusionWaitState : Type 0 where
  pub from : SocketAddr
  pub cookie : ℤ
  pub induction_response : Packet
  pub induction_time : Instant

pub data ListenState : Type 0 where
  induction_wait : ListenState
  conclusion_wait : ConclusionWaitState → ListenState
  access_control_requested :
      ConclusionWaitState → TimeStamp → HandshakeControlInfo → HsV5Info → ListenState

pub record Listen : Type 0 where
  pub init_settings : ConnInitSettings
  pub state : ListenState
  pub enable_access_control : Bool

unfoldable pub new_listen : ConnInitSettings → Bool → Listen
new_listen init_settings enable_access_control = record {
  init_settings = init_settings;
  state = induction_wait;
  enable_access_control = enable_access_control;
}

abbrev pub same_cookie : ℤ → ℤ → Bool
same_cookie (pos a) (pos b) = a == b
same_cookie (negsuc a) (negsuc b) = a == b
same_cookie _ _ = false

abbrev pub default_info : HsV5Info
default_info = record {
  key_size = unspecified;
  ext_hs = none;
  ext_km = none;
  ext_group = none;
  sid = none;
}

-- A stream identifier of more than 512 bytes is left out.
abbrev pub stream_id_of : Option (List ℕ) → Option (List ℕ)
stream_id_of none = none
stream_id_of (some s) = if ltb 512 (length s) then none else some s

abbrev pub reply : TimeStamp → ℕ → HandshakeControlInfo → Packet
reply timestamp dest_sockid info =
    control_packet
      (record { timestamp = timestamp; dest_sockid = dest_sockid; control_type = handshake info })

module _ (o : StreamKeys) where
  open o use {Keys}

  -- `unimplemented!` is `none`.
  abbrev pub Handled : Type 0
  Handled = Option (Listen × ConnectionResult Keys)

  unfoldable pub wait_for_induction :
      Listen → SocketAddr → TimeStamp → HandshakeControlInfo → Instant → ℤ → Handled
  wait_for_induction l from timestamp shake now cookie =
      let response = reply timestamp shake.socket_id (record shake {
        syn_cookie = cookie;
        socket_id = l.init_settings.local_sockid;
        info = v5 default_info;
      }) in
      elim shake.shake_type [
        | induction ↦ some (
          record l {
            state = conclusion_wait (record {
              from = from;
              cookie = cookie;
              induction_response = response;
              induction_time = now;
            });
          },
          send_packet (response, from),
        )
        | _ ↦ some (l, not_handled (induction_expected shake))
      ]

  unfoldable pub make_rejection :
      Listen → HandshakeControlInfo → SocketAddr → TimeStamp → ConnectionReject → Handled
  unfolding reason
  make_rejection l response_to from timestamp r = some (
    record l { state = induction_wait },
    reject
        (some (
          reply timestamp response_to.socket_id (record response_to {
            shake_type = rejection (reason r);
            socket_id = l.init_settings.local_sockid;
          }),
          from,
        ))
        r,
  )

  abbrev pub answered :
      Listen → ConclusionWaitState → TimeStamp → HandshakeControlInfo → GenHsv5Result Keys → Handled
  answered l state timestamp shake (accept hsv5 settings) =
      let control = handshake (record shake {
        syn_cookie = state.cookie;
        socket_id = l.init_settings.local_sockid;
        info = hsv5;
        shake_type = conclusion;
      }) in
      some (
        l,
        connected
            (some (
              control_packet (record {
                timestamp = timestamp;
                dest_sockid = shake.socket_id;
                control_type = control;
              }),
              state.from,
            ))
            settings (listener control),
      )
  answered l state timestamp shake (Hsv5.not_handled e) = some (l, not_handled e)
  answered l state timestamp shake (Hsv5.reject r) = make_rejection l shake state.from timestamp r
  answered l state timestamp shake unimplemented = none

  unfoldable pub accept_connection :
      Listen
      → Instant
      → ConclusionWaitState
      → TimeStamp
      → HandshakeControlInfo
      → HsV5Info
      → Option KeySettings
      → Handled
  unfolding gen_access_control_response make_rejection
  accept_connection l now state timestamp shake info key_settings =
      let (settings, response) =
        gen_access_control_response o now l.init_settings state.from state.induction_time shake info
          key_settings in
      answered (record l { init_settings = settings }) state timestamp shake response

  unfoldable pub ask :
      Listen
      → SocketAddr
      → ℕ
      → TimeStamp
      → ConclusionWaitState
      → HandshakeControlInfo
      → HsV5Info
      → Handled
  ask l remote local_socket_id timestamp state shake incoming = some (
    record l { state = access_control_requested state timestamp shake incoming },
    request_access (record {
      local_socket_id = local_socket_id;
      remote = remote;
      remote_socket_id = shake.socket_id;
      stream_id = stream_id_of incoming.sid;
      key_size = incoming.key_size;
    }),
  )

  abbrev pub with_cookie :
      Listen
      → Instant
      → SocketAddr
      → ℕ
      → TimeStamp
      → ConclusionWaitState
      → HandshakeControlInfo
      → HandshakeVsInfo
      → Handled
  with_cookie l now from local_socket_id timestamp state shake (v5 incoming) =
      if l.enable_access_control
      then ask l from local_socket_id timestamp state shake incoming
      else accept_connection l now state timestamp shake incoming l.init_settings.key_settings
  with_cookie l now from local_socket_id timestamp state shake (udt ty) =
      make_rejection l shake from timestamp (rejecting (server ServerRejectReason.version))

  unfoldable pub wait_for_conclusion :
      Listen
      → Instant
      → SocketAddr
      → ℕ
      → TimeStamp
      → ConclusionWaitState
      → HandshakeControlInfo
      → Handled
  unfolding accept_connection ask make_rejection
  wait_for_conclusion l now from local_socket_id timestamp state shake = elim shake.shake_type [
    | induction ↦ some (l, send_packet (state.induction_response, from))
    | conclusion ↦
        if version shake.info == 5
        then if same_cookie shake.syn_cookie state.cookie
          then with_cookie l now from local_socket_id timestamp state shake shake.info
          else some (l, not_handled (invalid_handshake_cookie state.cookie shake.syn_cookie))
        else some (l, not_handled (unsupported_protocol_version (version shake.info)))
    | _ ↦ some (l, not_handled (conclusion_expected shake))
  ]

  abbrev pub handle_control_packets :
      Listen → Instant → SocketAddr → ControlPacket → ℤ → ListenState → ControlTypes → Handled
  handle_control_packets l now from control cookie induction_wait (handshake shake) =
      wait_for_induction l from control.timestamp shake now cookie
  handle_control_packets l now from control cookie (conclusion_wait state) (handshake shake) =
      wait_for_conclusion l now from control.dest_sockid control.timestamp state shake
  handle_control_packets l now from control cookie (access_control_requested s t h i) control_type =
      some (l, not_handled expected_access_control_response)
  handle_control_packets l now from control cookie _ control_type =
      some (l, not_handled (handshake_expected control_type))

  abbrev pub on_packet : Listen → Instant → SocketAddr → ℤ → Packet → Handled
  on_packet l now from cookie (control_packet control) =
      handle_control_packets l now from control cookie l.state control.control_type
  on_packet l now from cookie (data_packet d) = some (l, not_handled (control_expected d))

  unfoldable pub handle_packet : Listen → Instant → ℤ → ReceivePacketResult → Handled
  handle_packet l now cookie (inr (packet, from)) = on_packet l now from cookie packet
  handle_packet l now cookie (inl (io error)) = some (l, failure error)
  handle_packet l now cookie (inl (parse e)) = some (l, not_handled (parse_failed e))

  abbrev pub on_response :
      Listen
      → Instant
      → ConclusionWaitState
      → TimeStamp
      → HandshakeControlInfo
      → HsV5Info
      → AccessControlResponse
      → Handled
  on_response l now state timestamp shake info (accepted key_settings) =
      accept_connection l now state timestamp shake info key_settings
  on_response l now state timestamp shake info (access_rejected rr) =
      make_rejection l shake state.from timestamp (rejecting rr)
  on_response l now state timestamp shake info dropped =
      make_rejection l shake state.from timestamp (rejecting (core CoreRejectReason.peer))

  unfoldable pub handle_access_control_response : Listen → Instant → AccessControlResponse → Handled
  unfolding accept_connection make_rejection
  handle_access_control_response l now response = elim l.state [
    | access_control_requested state timestamp shake info ↦
        on_response l now state timestamp shake info response
    | _ ↦ some (l, not_handled expected_hs_req)
  ]

  unfoldable pub handle_timer : Listen → Instant → ConnectionResult Keys
  handle_timer l now = no_action
