-- ===== src/PendingConnection/Hsv5/Tests.antt =====
-- A caller and a listener with a passphrase.
use srt_rs.Prelude.{ℕ, ◌^◌, ◌≡◌, refl, true, none, some, List, [], ◌∷◌, pos}
use srt_rs.Packet.Instant.{from_millis}
use srt_rs.Packet.Reject.{conclusion}
use srt_rs.Packet.Srt.{KeyingMaterialMessage, PacketType, CipherType, Auth}
use srt_rs.Packet.Control.{aes128, v4, HandshakeVsInfo, HandshakeControlInfo}
use srt_rs.Packet.Control.Handshake.{key_raw}
use srt_rs.Sender.CongestionControl.{unlimited}
use srt_rs.PendingConnection.Settings.{
  SocketAddr, StreamKeys, CipherSettings, ConnInitSettings, ConnectionSettings, new_cipher,
  new_random_cipher, wrap_keying_material,
}
use srt_rs.PendingConnection.Hsv5.{
  accept, start_hsv5_initiation, gen_hsv5_response, responder_info, responder_settings,
  own_handshake, gen_access_control_response, respond_to, respond, cipher_of,
}
use srt_rs.PendingConnection.Hsv5.Agree.{wanted}

abbrev message : KeyingMaterialMessage
message = record {
  pt = PacketType.keying_material;
  key_flags = 1;
  keki = 0;
  cipher = CipherType.ctr;
  auth = Auth.none;
  salt = 1 ∷ 2 ∷ 3 ∷ 4 ∷ [];
  wrapped_keys = [];
}

abbrev keys : StreamKeys
keys = record {
  Keys = List ℕ;
  new_random = λ size. key_raw size ∷ [];
  unwrap_from = λ settings km. some km.salt;
  wrap_with = λ k settings. some message;
}

abbrev caller : ConnInitSettings
caller = record {
  local_sockid = 7;
  key_settings = some (record { key_size = aes128; passphrase = 1 ∷ 2 ∷ [] });
  key_refresh = record { period = 2 ^ 25; pre_announcement_period = 4000 };
  send_latency = from_millis 120;
  recv_latency = from_millis 50;
  peer_idle_timeout = from_millis 5000;
  bandwidth = unlimited;
  statistics_interval = from_millis 1000;
  too_late_packet_drop = true;
  recv_buffer_size = 8192;
  send_buffer_size = 8192;
  max_packet_size = 1500;
  max_flow_size = 8192;
}

abbrev listener : ConnInitSettings
listener = record caller {
  local_sockid = 9;
  recv_latency = from_millis 300;
  max_packet_size = 1316;
}

abbrev request : HandshakeControlInfo
request = record {
  init_seq_num = 5;
  max_packet_size = 1500;
  max_flow_size = 8192;
  shake_type = conclusion;
  socket_id = 7;
  syn_cookie = pos 77;
  peer_addr = v4 1;
  info = (start_hsv5_initiation keys caller none (pos 0)).0;
}

abbrev addr : SocketAddr
addr = (v4 1, 5000)

abbrev agreed : CipherSettings (List ℕ)
agreed = record {
  key_settings = record { key_size = aes128; passphrase = 1 ∷ 2 ∷ [] };
  key_refresh = caller.key_refresh;
  stream_keys = message.salt;
}

abbrev info : HandshakeVsInfo
info = responder_info keys listener none (some agreed)

abbrev response : HandshakeControlInfo
response = record request { max_packet_size = 1316; socket_id = 9; info = info }

abbrev responder : ConnectionSettings (List ℕ)
responder =
    responder_settings keys listener request (wanted keys caller none) (own_handshake caller) addr
      (pos 10) (pos 20) (some agreed)

accepts :
    gen_hsv5_response keys listener request addr (pos 10) (pos 20)
    ≡ (listener, accept info responder)
unfolding gen_hsv5_response gen_access_control_response respond_to respond cipher_of new_cipher
    start_hsv5_initiation new_random_cipher wrap_keying_material key_raw
accepts = refl
