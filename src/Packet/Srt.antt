-- ===== src/Packet/Srt.antt =====
-- srt-protocol/src/packet/control/srt.rs and options/srt_version.rs: the SRT control packets. A
-- string is the list of its bytes, a `BTreeMap` the list of its entries in the order of the keys.
pub mod Text
pub mod Keys
pub mod Codec
pub mod RoundTrip
pub mod Sizes
use srt_rs.Prelude.{ℕ, ◌+◌, ◌*◌, ◌/◌, ◌%◌, ◌^◌, List, ◌==◌, if◌then◌else◌}
use srt_rs.Packet.Instant.{Duration}

pub record SrtVersion : Type 0 where
  pub major : ℕ
  pub minor : ℕ
  pub patch : ℕ

-- `parse` and `to_u32`
unfoldable pub version_of : ℕ → SrtVersion
version_of from = record {
  major = from / 2 ^ 16 % 256;
  minor = from / 2 ^ 8 % 256;
  patch = from % 256;
}

unfoldable pub to_u32 : SrtVersion → ℕ
to_u32 v = v.major * 0x10000 + v.minor * 0x100 + v.patch

-- Flags are the bits of a byte, and latencies durations.
pub record SrtHandshake : Type 0 where
  pub version : SrtVersion
  pub flags : ℕ
  pub send_latency : Duration
  pub recv_latency : Duration

pub data Auth : Type 0 where
  none : Auth

pub data StreamEncapsulation : Type 0 where
  udp srt : StreamEncapsulation

pub data PacketType : Type 0 where
  media_stream keying_material : PacketType

pub data CipherType : Type 0 where
  none ecb ctr cbc : CipherType

pub record KeyingMaterialMessage : Type 0 where
  pub pt : PacketType
  pub key_flags : ℕ
  pub keki : ℕ
  pub cipher : CipherType
  pub auth : Auth
  pub salt : List ℕ
  pub wrapped_keys : List ℕ

pub data GroupType : Type 0 where
  undefined broadcast main_backup balancing multicast : GroupType
  unrecognized : ℕ → GroupType

unfoldable pub group_code : GroupType → ℕ
group_code undefined = 0
group_code broadcast = 1
group_code main_backup = 2
group_code balancing = 3
group_code multicast = 4
group_code (unrecognized u) = u

unfoldable pub group_of : ℕ → GroupType
group_of from =
    if from == 0
    then undefined
    else if from == 1
    then broadcast
    else if from == 2
    then main_backup
    else if from == 3
    then balancing
    else if from == 4
    then multicast
    else unrecognized from

abbrev pub FilterSpec : Type 0
FilterSpec = List (List ℕ × List ℕ)

pub data SrtControlPacket : Type 0 where
  reject : SrtControlPacket
  handshake_request : SrtHandshake → SrtControlPacket
  handshake_response : SrtHandshake → SrtControlPacket
  key_refresh_request : KeyingMaterialMessage → SrtControlPacket
  key_refresh_response : KeyingMaterialMessage → SrtControlPacket
  stream_id : List ℕ → SrtControlPacket
  congestion : List ℕ → SrtControlPacket
  filter : FilterSpec → SrtControlPacket
  group : GroupType → ℕ → ℕ → SrtControlPacket

unfoldable pub type_id : SrtControlPacket → ℕ
type_id reject = 0
type_id (handshake_request h) = 1
type_id (handshake_response h) = 2
type_id (key_refresh_request k) = 3
type_id (key_refresh_response k) = 4
type_id (stream_id s) = 5
type_id (congestion s) = 6
type_id (filter f) = 7
type_id (group ty flags weight) = 8
