-- ===== src/Ros.antt =====
-- The ROS node of src/ur_ros_wrapper.cpp.
pub mod Defs
pub mod Joints
pub mod Checks
pub mod Actions
pub mod OpenGoals
pub mod Goals
pub mod Matching
pub mod Mapping
pub mod Reordering
pub mod Accepted
pub mod Handover
pub mod Services
pub mod Setup
pub mod Node
pub mod Board
pub mod Motion
pub mod Reports
pub mod Answering
