-- ===== src/RobotStateRt.antt =====
-- The state that the realtime port reports: src/robot_state_RT.cpp.
pub mod Defs
pub mod Getters
pub mod DigitalBits
pub mod Unpack
pub mod Layout
pub mod Fields
pub mod Contract
pub mod Shape
pub mod Overread
