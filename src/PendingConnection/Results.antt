-- ===== src/PendingConnection/Results.antt =====
-- srt-protocol/src/protocol/pending_connection/mod.rs and srt-protocol/src/packet/mod.rs: what becomes
-- of an event while a connection is not yet made. An error of the socket is its kind.
use srt_rs.Prelude.{ℕ, Bool, false, Option, none, some, List, ℤ, ◌==◌, ◌&&◌, ◌⊎◌}
use srt_rs.Packet.Reject.{RejectReason, ShakeType, conclusion}
use srt_rs.Packet.Data.{DataPacket}
use srt_rs.Packet.Control.{KeySize, ControlTypes, HandshakeControlInfo, IpAddr, v4, v6}
use srt_rs.Packet.Codec.{Packet}
use srt_rs.Packet.Srt.Text.{same}
use srt_rs.Packet.Wire.{PacketParseError}
use srt_rs.PendingConnection.Settings.{SocketAddr, KeySettings, ConnectionSettings}

pub data ConnectError : Type 0 where
  control_expected : DataPacket → ConnectError
  handshake_expected : ControlTypes → ConnectError
  induction_expected wavehand_expected agreement_expected : HandshakeControlInfo → ConnectError
  unexpected_host : SocketAddr → SocketAddr → ConnectError
  conclusion_expected : HandshakeControlInfo → ConnectError
  unsupported_protocol_version : ℕ → ConnectError
  invalid_handshake_cookie : ℤ → ℤ → ConnectError
  rendezvous_expected : HandshakeControlInfo → ConnectError
  cookies_matched : ℤ → ConnectError
  expected_hs_req expected_hs_resp expected_ext_flags expected_no_ext_flags : ConnectError
  expected_access_control_response : ConnectError
  parse_failed : PacketParseError → ConnectError

-- The two kinds of rejection: of the remote by this side, and of this side by the remote.
pub data ConnectionReject : Type 0 where
  rejecting rejected : RejectReason → ConnectionReject

pub data ErrorKind : Type 0 where
  connection_reset : ErrorKind
  other : ℕ → ErrorKind

pub data ReceivePacketError : Type 0 where
  io : ErrorKind → ReceivePacketError
  parse : PacketParseError → ReceivePacketError

abbrev pub ReceivePacketResult : Type 0
ReceivePacketResult = ReceivePacketError ⊎ (Packet × SocketAddr)

pub record AccessControlRequest : Type 0 where
  pub local_socket_id : ℕ
  pub remote : SocketAddr
  pub remote_socket_id : ℕ
  pub stream_id : Option (List ℕ)
  pub key_size : KeySize

pub data AccessControlResponse : Type 0 where
  accepted : Option KeySettings → AccessControlResponse
  access_rejected : RejectReason → AccessControlResponse
  dropped : AccessControlResponse

-- How a connection answers the handshakes that still come.
pub data Handshake : Type 0 where
  connector : Handshake
  listener : ControlTypes → Handshake
  rendezvous : Option ControlTypes → Handshake

-- The constructor `connected` has the two fields of a connection.
pub data ConnectionResult (K : Type 0) : Type 0 where
  not_handled : ConnectError → ConnectionResult K
  reject : Option (Packet × SocketAddr) → ConnectionReject → ConnectionResult K
  send_packet : Packet × SocketAddr → ConnectionResult K
  connected : Option (Packet × SocketAddr) → ConnectionSettings K → Handshake → ConnectionResult K
  no_action : ConnectionResult K
  request_access : AccessControlRequest → ConnectionResult K
  failure : ErrorKind → ConnectionResult K

-- `==` on addresses
abbrev pub same_ip : IpAddr → IpAddr → Bool
same_ip (v4 a) (v4 b) = a == b
same_ip (v6 a) (v6 b) = same a b
same_ip _ _ = false

unfoldable pub reason : ConnectionReject → RejectReason
reason (rejecting r) = r
reason (rejected r) = r

-- The answer to a handshake that comes when the connection is made
unfoldable pub handle_handshake : Handshake → ShakeType → Option ControlTypes
handle_handshake (rendezvous control) conclusion = control
handle_handshake (rendezvous control) _ = none
handle_handshake (listener control) shake_type = some control
handle_handshake connector shake_type = none

unfoldable pub same_addr : SocketAddr → SocketAddr → Bool
same_addr (a, p) (b, q) = same_ip a b && (p == q)
