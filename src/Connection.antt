-- ===== src/Connection.antt =====
-- srt-protocol/src/connection: the life of a connection.
pub mod Status
mod Tests
