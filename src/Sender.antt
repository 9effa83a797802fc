-- ===== src/Sender.antt =====
-- srt-protocol/src/protocol/sender: the sending side of a connection.
pub mod Buffer
pub mod Encapsulation
pub mod CongestionControl
mod Tests
