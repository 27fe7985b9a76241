-- ===== src/Driver.antt =====
-- `UrDriver`: what the ROS node uses of both ports.
pub mod Defs
pub mod Settings
pub mod Scripts
pub mod Outputs
pub mod Servo
pub mod Trajectory
pub mod Steps
pub mod Following
pub mod Program
pub mod Life
