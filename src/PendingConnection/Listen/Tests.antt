-- ===== src/PendingConnection/Listen/Tests.antt =====
-- A listener that waits for a conclusion with the cookie 77.
use srt_rs.Prelude.{ℕ, ◌^◌, refl, true, false, none, some, List, [], ◌∷◌, pos, inr}
use srt_rs.Packet.Instant.{from_millis}
use srt_rs.Packet.Reject.{induction, conclusion}
use srt_rs.Packet.Control.{v4, v5, HandshakeControlInfo}
use srt_rs.Packet.Control.Handshake.{key_raw}
use srt_rs.Sender.CongestionControl.{unlimited}
use srt_rs.PendingConnection.Settings.{SocketAddr, StreamKeys, ConnInitSettings}
use srt_rs.PendingConnection.Listen.{
  Listen, ConclusionWaitState, conclusion_wait, default_info, reply, handle_packet,
}
use srt_rs.PendingConnection.Listen.Cookies.{Unmoved, wrong_cookie-Unmoved}

abbrev bare_keys : StreamKeys
bare_keys = record {
  Keys = List ℕ;
  new_random = λ size. key_raw size ∷ [];
  unwrap_from = λ settings km. some km.salt;
  wrap_with = λ k settings. none;
}

abbrev own_settings : ConnInitSettings
own_settings = record {
  local_sockid = 9;
  key_settings = none;
  key_refresh = record { period = 2 ^ 25; pre_announcement_period = 4000 };
  send_latency = from_millis 120;
  recv_latency = from_millis 50;
  peer_idle_timeout = from_millis 5000;
  bandwidth = unlimited;
  statistics_interval = from_millis 1000;
  too_late_packet_drop = true;
  recv_buffer_size = 8192;
  send_buffer_size = 8192;
  max_packet_size = 1500;
  max_flow_size = 8192;
}

abbrev guest : SocketAddr
guest = (v4 1, 5000)

abbrev forged : HandshakeControlInfo
forged = record {
  init_seq_num = 5;
  max_packet_size = 1500;
  max_flow_size = 8192;
  shake_type = induction;
  socket_id = 7;
  syn_cookie = pos 78;
  peer_addr = v4 1;
  info = v5 default_info;
}

abbrev induced : ConclusionWaitState
induced = record {
  from = guest;
  cookie = pos 77;
  induction_response = reply 0 7 forged;
  induction_time = pos 0;
}

abbrev waiting_listener : Listen
waiting_listener = record {
  init_settings = own_settings;
  state = conclusion_wait induced;
  enable_access_control = false;
}

wrong_cookie-Unmoved_example : Unmoved bare_keys waiting_listener (
    handle_packet bare_keys waiting_listener
      (pos 10)
      (pos 3)
      (inr (reply 1 9 (record forged { shake_type = conclusion }), guest)))
wrong_cookie-Unmoved_example =
    wrong_cookie-Unmoved bare_keys own_settings false induced (pos 10) (pos 3) guest 1 9 forged refl
