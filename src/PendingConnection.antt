-- ===== src/PendingConnection.antt =====
-- srt-protocol/src/protocol/pending_connection: how two sides agree on a connection.
pub mod Settings
pub mod Results
pub mod Hsv5
pub mod Connect
pub mod Listen
