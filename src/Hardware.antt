-- ===== src/Hardware.antt =====
-- `UrHardwareInterface`: the robot as ros_control sees it.
pub mod Defs
pub mod Switching
pub mod Limit
pub mod Reading
