-- ===== src/Examples.antt =====
-- Runs on a platform that computes, at concrete values.
mod RealtimePort
mod SecondaryPort
mod Control
mod Startup
mod Goals
mod Node
