-- ===== src/PendingConnection/Settings.antt =====
-- srt-protocol/src/settings and srt-protocol/src/connection/mod.rs: the settings of a side before the
-- handshake and after it. What encrypts the stream is the parameter `StreamKeys`.
use srt_rs.Prelude.{ℕ, Bool, Option, none, some, List}
use srt_rs.Packet.Instant.{Instant, Duration}
use srt_rs.Packet.SeqNumber.{SeqNumber}
use srt_rs.Packet.Srt.{KeyingMaterialMessage}
use srt_rs.Packet.Control.{KeySize, IpAddr}
use srt_rs.Sender.CongestionControl.{LiveBandwidthMode}

-- An address and a port.
abbrev pub SocketAddr : Type 0
SocketAddr = IpAddr × ℕ

pub record KeySettings : Type 0 where
  pub key_size : KeySize
  pub passphrase : List ℕ

pub record KeyMaterialRefreshSettings : Type 0 where
  pub period : ℕ
  pub pre_announcement_period : ℕ

-- The keys of a stream: random ones, those of a message, and the message of them.
pub record StreamKeys : Type 1 where
  pub Keys : Type 0
  pub new_random : KeySize → Keys
  pub unwrap_from : KeySettings → KeyingMaterialMessage → Option Keys
  pub wrap_with : Keys → KeySettings → Option KeyingMaterialMessage

pub record CipherSettings (K : Type 0) : Type 0 where
  pub key_settings : KeySettings
  pub key_refresh : KeyMaterialRefreshSettings
  pub stream_keys : K

pub record ConnInitSettings : Type 0 where
  pub local_sockid : ℕ
  pub key_settings : Option KeySettings
  pub key_refresh : KeyMaterialRefreshSettings
  pub send_latency : Duration
  pub recv_latency : Duration
  pub peer_idle_timeout : Duration
  pub bandwidth : LiveBandwidthMode
  pub statistics_interval : Duration
  pub too_late_packet_drop : Bool
  pub recv_buffer_size : ℕ
  pub send_buffer_size : ℕ
  pub max_packet_size : ℕ
  pub max_flow_size : ℕ

pub record ConnectionSettings (K : Type 0) : Type 0 where
  pub remote : SocketAddr
  pub remote_sockid : ℕ
  pub local_sockid : ℕ
  pub socket_start_time : Instant
  pub rtt : Duration
  pub init_seq_num : SeqNumber
  pub max_packet_size : ℕ
  pub max_flow_size : ℕ
  pub send_tsbpd_latency : Duration
  pub recv_tsbpd_latency : Duration
  pub too_late_packet_drop : Bool
  pub peer_idle_timeout : Duration
  pub recv_buffer_size : ℕ
  pub send_buffer_size : ℕ
  pub cipher : Option (CipherSettings K)
  pub stream_id : Option (List ℕ)
  pub bandwidth : LiveBandwidthMode
  pub statistics_interval : Duration

module _ (o : StreamKeys) where
  open o use {Keys}

  unfoldable pub new_random_cipher : KeySettings → KeyMaterialRefreshSettings → CipherSettings Keys
  new_random_cipher key_settings km_refresh = record {
    key_settings = key_settings;
    key_refresh = km_refresh;
    stream_keys = o.new_random key_settings.key_size;
  }

  unfoldable pub new_cipher :
      KeySettings
      → KeyMaterialRefreshSettings
      → KeyingMaterialMessage
      → Option (CipherSettings Keys)
  new_cipher key_settings km_refresh key_material = elim (o.unwrap_from key_settings key_material) [
    | none ↦ none
    | some keys ↦
        some (record { key_settings = key_settings; key_refresh = km_refresh; stream_keys = keys })
  ]

  unfoldable pub wrap_keying_material : CipherSettings Keys → Option KeyingMaterialMessage
  wrap_keying_material c = o.wrap_with c.stream_keys c.key_settings
