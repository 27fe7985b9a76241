-- ===== src/Realtime.antt =====
-- The realtime port, 30003: src/ur_realtime_communication.cpp.
pub mod Defs
pub mod Thread
pub mod Commands
pub mod Speeds
pub mod Listening
pub mod Watchdog
pub mod Safety
