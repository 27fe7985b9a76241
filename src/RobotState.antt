-- ===== src/RobotState.antt =====
-- The state that the secondary port reports: src/robot_state.cpp.
pub mod Defs
pub mod Packages
pub mod Unpack
pub mod Framing
pub mod Messages
pub mod VersionInvariant
pub mod Invariant
