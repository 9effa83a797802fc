-- ===== src/Packet/Control.antt =====
-- srt-protocol/src/packet/control/mod.rs: the control packets as data. A compressed loss list is its
-- words, and an address of version 6 its 16 bytes.
pub mod Ack
pub mod Handshake
pub mod Codec
pub mod Content
pub mod RoundTrip
pub mod Ends
pub mod Panic
use srt_rs.Prelude.{ℕ, Option, List, ℤ}
use srt_rs.Packet.SeqNumber.{SeqNumber}
use srt_rs.Packet.TimeStamp.{TimeStamp}
use srt_rs.Packet.Reject.{ShakeType}
use srt_rs.Packet.Srt.{SrtControlPacket}
use srt_rs.Time.Rtt.{Rtt}

pub data SocketType : Type 0 where
  stream datagram : SocketType

pub data KeySize : Type 0 where
  unspecified aes128 aes192 aes256 : KeySize

pub data IpAddr : Type 0 where
  v4 : ℕ → IpAddr
  v6 : List ℕ → IpAddr

pub record HsV5Info : Type 0 where
  pub key_size : KeySize
  pub ext_hs : Option SrtControlPacket
  pub ext_km : Option SrtControlPacket
  pub ext_group : Option SrtControlPacket
  pub sid : Option (List ℕ)

pub data HandshakeVsInfo : Type 0 where
  udt : SocketType → HandshakeVsInfo
  v5 : HsV5Info → HandshakeVsInfo

pub record HandshakeControlInfo : Type 0 where
  pub init_seq_num : SeqNumber
  pub max_packet_size : ℕ
  pub max_flow_size : ℕ
  pub shake_type : ShakeType
  pub socket_id : ℕ
  pub syn_cookie : ℤ
  pub peer_addr : IpAddr
  pub info : HandshakeVsInfo

pub record AckStatistics : Type 0 where
  pub rtt : Rtt
  pub buffer_available : ℕ
  pub packet_receive_rate : Option ℕ
  pub estimated_link_capacity : Option ℕ
  pub data_receive_rate : Option ℕ

pub data Acknowledgement : Type 0 where
  lite : SeqNumber → Acknowledgement
  small : SeqNumber → AckStatistics → Acknowledgement
  full : SeqNumber → AckStatistics → ℕ → Acknowledgement

pub data ControlTypes : Type 0 where
  handshake : HandshakeControlInfo → ControlTypes
  keep_alive : ControlTypes
  ack : Acknowledgement → ControlTypes
  nak : List ℕ → ControlTypes
  congestion_warning : ControlTypes
  shutdown : ControlTypes
  ack2 : ℕ → ControlTypes
  drop_request : ℕ → SeqNumber → SeqNumber → ControlTypes
  peer_error : ℕ → ControlTypes
  srt : SrtControlPacket → ControlTypes

pub record ControlPacket : Type 0 where
  pub timestamp : TimeStamp
  pub dest_sockid : ℕ
  pub control_type : ControlTypes
