-- ===== src/Time.antt =====
-- srt-protocol/src/protocol/time: clocks, round trip times and timers.
mod Tests
pub mod TimeBase
pub mod Rtt
pub mod Timer
pub mod Timers
