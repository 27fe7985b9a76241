-- ===== src/Ros/Defs.antt =====
-- The state of `RosWrapper`, and the messages that it takes. A call on the handle of a goal is an
-- entry in a log: what the action server makes of it is not code of this repository.
use ur_modern_driver.Common.{ℕ, Bool, true, false, ◌&&◌, List, [], ◌∷◌, Option, ◌==◌}
use ur_modern_driver.Common.Int.{ℤ, pos, negsuc}
use ur_modern_driver.Driver.Defs.{UrDriver}

-- `trajectory_msgs::JointTrajectoryPoint`; the time in seconds.
pub record Point (D : Type 0) : Type 0 where
  pub positions : List D
  pub velocities : List D
  pub accelerations : List D
  pub time_from_start : D

-- `trajectory_msgs::JointTrajectory`.
pub record JointTrajectory (D : Type 0) : Type 0 where
  pub joint_names : List (List ℕ)
  pub points : List (Point D)

-- A handle of a goal: which goal it is, and the trajectory that `getGoal` gives.
pub record GoalHandle (D : Type 0) : Type 0 where
  pub id : ℕ
  pub trajectory : JointTrajectory D

-- `control_msgs::FollowJointTrajectoryResult`.
pub record Result : Type 0 where
  pub error_code : ℤ
  pub error_string : List ℕ

abbrev pub successful : ℤ
successful = pos 0

abbrev pub invalid_goal : ℤ
invalid_goal = negsuc 0

abbrev pub invalid_joints : ℤ
invalid_joints = negsuc 1

-- "Nothing is defined for this": -100.
abbrev pub undefined_error : ℤ
undefined_error = negsuc 99

-- The calls on a handle.
pub data Call : Type 0 where
  accept : Call
  reject abort succeed cancel : Result → Call

-- What a `trajThread` was started with.
pub record Task (D : Type 0) : Type 0 where
  pub timestamps : List D
  pub positions : List (List D)
  pub velocities : List (List D)

pub record RosWrapper (D : Type 0) : Type 0 where
  pub robot : UrDriver D
  -- Before the first goal the handle names none.
  pub goal_handle : Option (GoalHandle D)
  pub has_goal : Bool
  pub result : Result
  pub io_flag_delay : D
  pub max_velocity : D
  pub joint_offsets : List D
  pub base_frame : List ℕ
  pub tool_frame : List ℕ
  pub use_ros_control : Bool
  -- The detached threads that run `trajThread`, the last started first.
  pub tasks : List (Task D)
  -- The calls on handles, each with the goal, the last one first.
  pub calls : List (ℕ × Call)

-- Equality of `std::string`.
unfoldable pub equal_text : List ℕ → List ℕ → Bool
equal_text [] [] = true
equal_text (x ∷ xs) (y ∷ ys) = x == y && equal_text xs ys
equal_text [] (y ∷ ys) = false
equal_text (x ∷ xs) [] = false
