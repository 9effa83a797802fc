-- ===== src/PendingConnection/Hsv5.antt =====
-- srt-protocol/src/protocol/pending_connection/hsv5.rs: the request for a connection, the response to
-- it, and what each side makes of the other's.
pub mod Agree
mod Tests
use srt_rs.Prelude.{
  ℕ, ◌/◌, max, min, Bool, true, false, Option, none, some, List, ◌==◌, ◌⊎◌, inl, inr, if◌then◌else◌,
}
use srt_rs.Packet.Instant.{Instant, since, minus}
use srt_rs.Packet.Reject.{RejectReason, core, server, CoreRejectReason, ServerRejectReason}
use srt_rs.Packet.Srt.{
  SrtVersion, SrtHandshake, SrtControlPacket, handshake_request, handshake_response,
  key_refresh_request, key_refresh_response, KeyingMaterialMessage,
}
use srt_rs.Packet.Control.{
  KeySize, unspecified, HsV5Info, HandshakeVsInfo, udt, v5, HandshakeControlInfo,
}
use srt_rs.Packet.Control.Handshake.{key_raw, version}
use srt_rs.PendingConnection.Results.{
  ConnectError, ConnectionReject, rejecting, unsupported_protocol_version, expected_hs_req,
  expected_hs_resp, expected_ext_flags,
}
use srt_rs.PendingConnection.Settings.{
  SocketAddr, StreamKeys, KeySettings, CipherSettings, ConnInitSettings, ConnectionSettings,
  new_cipher, new_random_cipher, wrap_keying_material,
}

pub data GenHsv5Result (K : Type 0) : Type 0 where
  accept : HandshakeVsInfo → ConnectionSettings K → GenHsv5Result K
  not_handled : ConnectError → GenHsv5Result K
  reject : ConnectionReject → GenHsv5Result K
  unimplemented : GenHsv5Result K

-- What the keys of both sides come to.
pub data CipherResult (K : Type 0) : Type 0 where
  cipher : Option (CipherSettings K) → CipherResult K
  refused : RejectReason → CipherResult K
  mismatched : CipherResult K

abbrev pub current_version : SrtVersion
current_version = record { major = 1; minor = 3; patch = 1 }

-- The bits of `SrtShakeFlags::SUPPORTED`
abbrev pub supported : ℕ
supported = 0x27

abbrev pub own_handshake : ConnInitSettings → SrtHandshake
own_handshake settings = record {
  version = current_version;
  flags = supported;
  send_latency = settings.send_latency;
  recv_latency = settings.recv_latency;
}

abbrev pub key_size_of : {K : Type 0} → Option (CipherSettings K) → KeySize
key_size_of none = unspecified
key_size_of (some c) = c.key_settings.key_size

module _ (o : StreamKeys) where
  open o use {Keys}

  abbrev pub or_bad_secret : Option (CipherSettings Keys) → CipherResult Keys
  or_bad_secret none = refused (core CoreRejectReason.bad_secret)
  or_bad_secret (some c) = cipher (some c)

  -- The match on the keys of both sides. Sizes that differ, and keys that are not expected, are
  -- `unimplemented!`.
  unfoldable pub cipher_of :
      ConnInitSettings → Option KeySettings → KeySize → Option SrtControlPacket → CipherResult Keys
  cipher_of settings (some ks) key_size (some (key_refresh_request km)) =
      if key_raw ks.key_size == key_raw key_size
      then or_bad_secret (new_cipher o ks settings.key_refresh km)
      else mismatched
  cipher_of settings none key_size none = cipher none
  cipher_of settings (some ks) key_size none = refused (core CoreRejectReason.unsecure)
  cipher_of settings _ key_size (some p) = mismatched

  abbrev pub key_response : Option (CipherSettings Keys) → Option SrtControlPacket
  key_response none = none
  key_response (some c) = elim (wrap_keying_material o c) [
    | none ↦ none
    | some km ↦ some (key_refresh_response km)
  ]

  unfoldable pub responder_info :
      ConnInitSettings → Option (List ℕ) → Option (CipherSettings Keys) → HandshakeVsInfo
  responder_info settings sid c = v5 (record {
    key_size = key_size_of c;
    ext_hs = some (handshake_response (own_handshake settings));
    ext_km = key_response c;
    ext_group = none;
    sid = sid;
  })

  -- The settings of the responder: the initiator began half a round trip before.
  unfoldable pub responder_settings :
      ConnInitSettings
      → HandshakeControlInfo
      → HsV5Info
      → SrtHandshake
      → SocketAddr
      → Instant
      → Instant
      → Option (CipherSettings Keys)
      → ConnectionSettings Keys
  responder_settings settings with_hsv5 incoming hs from induction_time now c =
      let rtt = since now induction_time in
      record {
        remote = from;
        rtt = rtt;
        socket_start_time = minus now (rtt / 2);
        remote_sockid = with_hsv5.socket_id;
        init_seq_num = with_hsv5.init_seq_num;
        cipher = c;
        stream_id = incoming.sid;
        max_flow_size = max settings.max_flow_size with_hsv5.max_flow_size;
        max_packet_size = min settings.max_packet_size with_hsv5.max_packet_size;
        send_tsbpd_latency = max settings.send_latency hs.recv_latency;
        recv_tsbpd_latency = max settings.recv_latency hs.send_latency;
        bandwidth = settings.bandwidth;
        local_sockid = settings.local_sockid;
        recv_buffer_size = settings.recv_buffer_size;
        send_buffer_size = settings.send_buffer_size;
        statistics_interval = settings.statistics_interval;
        peer_idle_timeout = settings.peer_idle_timeout;
        too_late_packet_drop = settings.too_late_packet_drop;
      }

  abbrev pub sid_of : HandshakeVsInfo → Option (List ℕ)
  sid_of (v5 info) = info.sid
  sid_of (udt ty) = none

  unfoldable pub respond :
      ConnInitSettings
      → HandshakeControlInfo
      → HsV5Info
      → SrtHandshake
      → SocketAddr
      → Instant
      → Instant
      → CipherResult Keys
      → GenHsv5Result Keys
  unfolding responder_info responder_settings
  respond settings with_hsv5 incoming hs from induction_time now (cipher c) =
      accept (responder_info settings (sid_of with_hsv5.info) c)
        (responder_settings settings with_hsv5 incoming hs from induction_time now c)
  respond settings with_hsv5 incoming hs from induction_time now (refused r) = reject (rejecting r)
  respond settings with_hsv5 incoming hs from induction_time now mismatched = unimplemented

  abbrev pub with_keys : ConnInitSettings → Option KeySettings → ConnInitSettings
  with_keys settings none = settings
  with_keys settings (some ks) = record settings { key_settings = some ks }

  -- The response to the extension of the handshake.
  unfoldable pub respond_to :
      ConnInitSettings
      → HandshakeControlInfo
      → HsV5Info
      → Option SrtControlPacket
      → SocketAddr
      → Instant
      → Instant
      → GenHsv5Result Keys
  unfolding respond cipher_of
  respond_to settings with_hsv5 incoming (some (handshake_request hs)) from induction_time now =
      respond settings with_hsv5 incoming hs from induction_time now
        (cipher_of settings settings.key_settings incoming.key_size incoming.ext_km)
  respond_to settings with_hsv5 incoming none from induction_time now =
      not_handled expected_ext_flags
  respond_to settings with_hsv5 incoming (some p) from induction_time now =
      not_handled expected_hs_req

  -- The settings are kept with the keys of the acceptor.
  unfoldable pub gen_access_control_response :
      Instant
      → ConnInitSettings
      → SocketAddr
      → Instant
      → HandshakeControlInfo
      → HsV5Info
      → Option KeySettings
      → ConnInitSettings × GenHsv5Result Keys
  unfolding respond_to
  gen_access_control_response now settings from induction_time with_hsv5 incoming key_settings =
      let settings' = with_keys settings key_settings in
      (settings', respond_to settings' with_hsv5 incoming incoming.ext_hs from induction_time now)

  unfoldable pub gen_hsv5_response :
      ConnInitSettings
      → HandshakeControlInfo
      → SocketAddr
      → Instant
      → Instant
      → ConnInitSettings × GenHsv5Result Keys
  unfolding gen_access_control_response
  gen_hsv5_response settings with_hsv5 from induction_time now = elim with_hsv5.info [
    | v5 incoming ↦
        gen_access_control_response now settings from induction_time with_hsv5 incoming none
    | udt ty ↦ (settings, reject (rejecting (server ServerRejectReason.version)))
  ]

  pub record StartedInitiator : Type 0 where
    pub started_cipher : Option (CipherSettings Keys)
    pub settings : ConnInitSettings
    pub streamid : Option (List ℕ)
    pub initiate_time : Instant

  abbrev pub random_cipher : Option KeySettings → ConnInitSettings → Option (CipherSettings Keys)
  random_cipher none settings = none
  random_cipher (some ks) settings = some (new_random_cipher o ks settings.key_refresh)

  abbrev pub key_request : Option (CipherSettings Keys) → Option SrtControlPacket
  key_request none = none
  key_request (some c) = elim (wrap_keying_material o c) [
    | none ↦ none
    | some km ↦ some (key_refresh_request km)
  ]

  abbrev pub own_key_size : Option KeySettings → KeySize
  own_key_size none = unspecified
  own_key_size (some ks) = ks.key_size

  unfoldable pub start_hsv5_initiation :
      ConnInitSettings → Option (List ℕ) → Instant → HandshakeVsInfo × StartedInitiator
  start_hsv5_initiation settings streamid now =
      let c = random_cipher settings.key_settings settings in
      (
        v5 (record {
          key_size = own_key_size settings.key_settings;
          ext_hs = some (handshake_request (own_handshake settings));
          ext_km = key_request c;
          ext_group = none;
          sid = streamid;
        }),
        record {
          started_cipher = c;
          settings = settings;
          streamid = streamid;
          initiate_time = now;
        },
      )

  unfoldable pub initiator_settings :
      StartedInitiator
      → HandshakeControlInfo
      → SrtHandshake
      → SocketAddr
      → Instant
      → ConnectionSettings Keys
  initiator_settings s response hs from now = record {
    remote = from;
    rtt = since now s.initiate_time;
    socket_start_time = s.initiate_time;
    init_seq_num = response.init_seq_num;
    remote_sockid = response.socket_id;
    cipher = s.started_cipher;
    stream_id = s.streamid;
    max_flow_size = max s.settings.max_flow_size response.max_flow_size;
    max_packet_size = min s.settings.max_packet_size response.max_packet_size;
    send_tsbpd_latency = max s.settings.send_latency hs.recv_latency;
    recv_tsbpd_latency = max s.settings.recv_latency hs.send_latency;
    bandwidth = s.settings.bandwidth;
    local_sockid = s.settings.local_sockid;
    recv_buffer_size = s.settings.recv_buffer_size;
    send_buffer_size = s.settings.send_buffer_size;
    statistics_interval = s.settings.statistics_interval;
    peer_idle_timeout = s.settings.peer_idle_timeout;
    too_late_packet_drop = s.settings.too_late_packet_drop;
  }

  abbrev pub Finished : Type 0
  Finished = ConnectError ⊎ ConnectionSettings Keys

  unfoldable pub finish_with :
      StartedInitiator
      → HandshakeControlInfo
      → Option SrtControlPacket
      → SocketAddr
      → Instant
      → Finished
  unfolding initiator_settings
  finish_with s response (some (handshake_response hs)) from now =
      inr (initiator_settings s response hs from now)
  finish_with s response none from now = inl expected_ext_flags
  finish_with s response (some p) from now = inl expected_hs_resp

  unfoldable pub finish_hsv5_initiation :
      StartedInitiator → HandshakeControlInfo → SocketAddr → Instant → Finished
  unfolding finish_with version
  finish_hsv5_initiation s response from now = elim response.info [
    | v5 incoming ↦ finish_with s response incoming.ext_hs from now
    | udt ty ↦ inl (unsupported_protocol_version (version (udt ty)))
  ]
