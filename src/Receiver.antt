-- ===== src/Receiver.antt =====
-- srt-protocol/src/protocol/receiver: the receiving half of a connection.
mod Tests
pub mod RemoteClock
pub mod Buffer
pub mod History
pub mod Arq
