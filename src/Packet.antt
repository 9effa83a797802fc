-- ===== src/Packet.antt =====
-- srt-protocol/src/packet: sequence numbers, loss lists, times, and the packets with their wire format.
mod Tests
pub mod ModularNum
pub mod SeqNumber
pub mod LossList
pub mod Instant
pub mod TimeSpan
pub mod TimeStamp
pub mod Data
pub mod Wire
pub mod Reject
pub mod Srt
pub mod Control
pub mod Codec
