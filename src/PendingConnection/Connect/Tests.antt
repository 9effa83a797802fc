-- ===== src/PendingConnection/Connect/Tests.antt =====
-- A caller without a passphrase, and the listener that it calls.
use srt_rs.Prelude.{ℕ, ◌^◌, ◌≡◌, refl, true, false, none, some, List, [], ◌∷◌, pos, inr}
use srt_rs.Packet.Instant.{from_millis}
use srt_rs.Packet.Reject.{induction, conclusion}
use srt_rs.Packet.Control.{v4, v5, unspecified, HsV5Info, HandshakeVsInfo, HandshakeControlInfo}
use srt_rs.Packet.Control.Handshake.{key_raw}
use srt_rs.Sender.CongestionControl.{unlimited}
use srt_rs.PendingConnection.Settings.{SocketAddr, StreamKeys, ConnInitSettings, ConnectionSettings}
use srt_rs.PendingConnection.Results.{connected, connector, send_packet, same_addr}
use srt_rs.PendingConnection.Hsv5.{
  accept, start_hsv5_initiation, gen_hsv5_response, responder_info, responder_settings,
  own_handshake, gen_access_control_response, respond_to, respond, cipher_of,
}
use srt_rs.PendingConnection.Hsv5.Agree.{Agree, wanted}
use srt_rs.PendingConnection.Connect.{handle_packet, handle_tick, on_start, new, shake_packet}
use srt_rs.PendingConnection.Connect.Strangers.{Quiet, handle_packet-Quiet}
use srt_rs.PendingConnection.Connect.Exchange.{called, waiting, concluded, exchange-Agree}

abbrev no_keys : StreamKeys
no_keys = record {
  Keys = List ℕ;
  new_random = λ size. key_raw size ∷ [];
  unwrap_from = λ settings km. some km.salt;
  wrap_with = λ k settings. none;
}

abbrev plain_caller : ConnInitSettings
plain_caller = record {
  local_sockid = 7;
  key_settings = none;
  key_refresh = record { period = 2 ^ 25; pre_announcement_period = 4000 };
  send_latency = from_millis 120;
  recv_latency = from_millis 50;
  peer_idle_timeout = from_millis 5000;
  bandwidth = unlimited;
  statistics_interval = from_millis 1000;
  too_late_packet_drop = true;
  recv_buffer_size = 8192;
  send_buffer_size = 8192;
  max_packet_size = 1500;
  max_flow_size = 8192;
}

abbrev plain_listener : ConnInitSettings
plain_listener = record plain_caller { local_sockid = 9; recv_latency = from_millis 300 }

abbrev host : SocketAddr
host = (v4 1, 5000)

abbrev empty_info : HsV5Info
empty_info = record {
  key_size = unspecified;
  ext_hs = none;
  ext_km = none;
  ext_group = none;
  sid = none;
}

abbrev induction_response : HandshakeControlInfo
induction_response = record {
  init_seq_num = 5;
  max_packet_size = 1500;
  max_flow_size = 8192;
  shake_type = induction;
  socket_id = 9;
  syn_cookie = pos 77;
  peer_addr = v4 1;
  info = v5 empty_info;
}

abbrev info_back : HandshakeVsInfo
info_back = responder_info no_keys plain_listener none none

abbrev answer : HandshakeControlInfo
answer = record induction_response { shake_type = conclusion }

abbrev conclusion_sent : HandshakeControlInfo
conclusion_sent = concluded no_keys plain_caller none 5 (pos 0) induction_response

abbrev settings_back : ConnectionSettings (List ℕ)
settings_back =
    responder_settings no_keys plain_listener conclusion_sent (wanted no_keys plain_caller none)
      (own_handshake plain_caller) host (pos 10) (pos 20) none

same_host : same_addr host host ≡ true
unfolding same_addr
same_host = refl

accepts_plain :
    gen_hsv5_response no_keys plain_listener conclusion_sent host (pos 10) (pos 20)
    ≡ (plain_listener, accept info_back settings_back)
unfolding gen_hsv5_response gen_access_control_response respond_to respond cipher_of
    start_hsv5_initiation
accepts_plain = refl

exchange-Agree_example :
    (handle_packet no_keys
        (called no_keys host (v4 2) plain_caller none 5 (pos 0))
        (inr (shake_packet no_keys 0 induction_response, host))
        (pos 0)
      ≡ (
        waiting no_keys
            (called no_keys host (v4 2) plain_caller none 5 (pos 0))
            0
            (pos 0)
            induction_response,
        send_packet (shake_packet no_keys 0 conclusion_sent, host),
      ))
    × (initiator : ConnectionSettings (List ℕ)) × (handle_packet no_keys
          (waiting no_keys
            (called no_keys host (v4 2) plain_caller none 5 (pos 0))
            0
            (pos 0)
            induction_response)
          (inr (shake_packet no_keys 1 (record answer { info = info_back }), host))
          (pos 30)
        ≡ (
          waiting no_keys
              (called no_keys host (v4 2) plain_caller none 5 (pos 0))
              0
              (pos 0)
              induction_response,
          connected none initiator connector,
        ))
    × Agree no_keys initiator settings_back
exchange-Agree_example =
    exchange-Agree no_keys host host (v4 2) plain_caller plain_listener plain_listener none 5
      (pos 0) (pos 0) (pos 10) (pos 20) (pos 30) 0 1 induction_response answer empty_info same_host
      info_back settings_back accepts_plain

abbrev stranger : SocketAddr
stranger = (v4 3, 5000)

another_host : same_addr stranger host ≡ false
unfolding same_addr
another_host = refl

handle_packet-Quiet_example :
    ((handle_packet no_keys
        (called no_keys host (v4 2) plain_caller none 5 (pos 0))
        (inr (shake_packet no_keys 0 induction_response, stranger))
        (pos 0)).0
      ≡ called no_keys host (v4 2) plain_caller none 5 (pos 0))
    × Quiet
        (handle_packet no_keys
          (called no_keys host (v4 2) plain_caller none 5 (pos 0))
          (inr (shake_packet no_keys 0 induction_response, stranger))
          (pos 0)).1
unfolding new handle_tick on_start
handle_packet-Quiet_example =
    handle_packet-Quiet no_keys (called no_keys host (v4 2) plain_caller none 5 (pos 0)) stranger
      another_host (shake_packet no_keys 0 induction_response) (pos 0)
