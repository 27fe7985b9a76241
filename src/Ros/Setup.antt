-- ===== src/Ros/Setup.antt =====
-- The parameters and the constructor of `RosWrapper` in src/ur_ros_wrapper.cpp, up to the start of the
-- robot. A parameter that is not on the parameter server is `none`.
use ur_modern_driver.Common.{
  ℕ, ◌==◌, if◌then◌else◌, Bool, false, List, [], ◌∷◌, ◌++◌, Option, none, some, length, replicate,
  text,
}
use ur_modern_driver.Double.{Platform}
use ur_modern_driver.RobotState.Defs.{RobotState}
use ur_modern_driver.Driver.Defs.{UrDriver, set_joint_names}
use ur_modern_driver.Driver.Settings.{
  min_payload, max_payload, servoj_time, set_min_payload, set_max_payload, set_servoj_time,
  set_servoj_lookahead, set_servoj_gain,
}
use ur_modern_driver.Driver.Life.{new as new_driver}
use ur_modern_driver.Hardware.Defs.{UrHardwareInterface, set_max_vel_change, new as new_hardware}
use ur_modern_driver.Ros.Defs.{RosWrapper, successful}

-- `ros::param::get`: the value on the server, or the one that the variable has.
abbrev get_or {ℓ} : {A : Type ℓ} → A → Option A → A
get_or default none = default
get_or default (some a) = a

pub record Params (D : Type 0) : Type 0 where
  pub prefix : Option (List ℕ)
  pub use_ros_control : Option Bool
  pub max_acceleration : Option D
  pub max_velocity : Option D
  pub min_payload : Option D
  pub max_payload : Option D
  pub servoj_time : Option D
  pub servoj_lookahead_time : Option D
  pub servoj_gain : Option D
  pub base_frame : Option (List ℕ)
  pub tool_frame : Option (List ℕ)
  pub hardware_joints : List (List ℕ)

unfoldable pub joint_names_of : List ℕ → List (List ℕ)
joint_names_of prefix =
    (prefix ++ text "shoulder_pan_joint")
    ∷ (prefix ++ text "shoulder_lift_joint")
    ∷ (prefix ++ text "elbow_joint")
    ∷ (prefix ++ text "wrist_1_joint")
    ∷ (prefix ++ text "wrist_2_joint")
    ∷ (prefix ++ text "wrist_3_joint")
    ∷ []

module _ {D : Type 0} ⦃d : Platform D⦄ where
  open d use {lit, div}

  -- The robot that the node makes: a servo time of 0.03 and a watchdog of 300 messages, which the
  -- parameters then overwrite.
  unfoldable pub make_robot : ℕ → Params D → RobotState D → UrDriver D
  make_robot reverse_port ps memory =
      let drv =
        new_driver reverse_port (lit 3 2) 300 (lit 8 2) (lit 0 0) (lit 1 0) (lit 3 2) (lit 300 0)
          memory in
      let drv = set_joint_names (joint_names_of (get_or [] ps.prefix)) drv in
      let drv = set_min_payload (get_or (lit 0 0) ps.min_payload) drv in
      let drv = set_max_payload (get_or (lit 1 0) ps.max_payload) drv in
      let drv = set_servoj_time (get_or (lit 8 3) ps.servoj_time) drv in
      let drv = set_servoj_lookahead (get_or (lit 3 2) ps.servoj_lookahead_time) drv in
      set_servoj_gain (get_or (lit 300 0) ps.servoj_gain) drv

  -- The interface for `ros_control` on this robot, with the joints that the parameter
  -- `hardware_interface/joints` names; without one the program ends. The limit is that of an acceleration, at 125
  -- messages a second.
  unfoldable make_hardware : Params D → UrDriver D → Option (UrHardwareInterface D)
  make_hardware ps drv =
      let change : D = elim ps.max_acceleration [ none ↦ lit 12 2 | some a ↦ div a (lit 125 0) ] in
      let num_joints = length ps.hardware_joints in
      if num_joints == 0
      then none
      else some (set_max_vel_change change (new_hardware num_joints drv))

  -- The constructor up to the start of the robot. `has_goal_` is what the memory held.
  unfoldable configure : ℕ → Params D → RobotState D → Bool → RosWrapper D
  configure reverse_port ps memory garbage =
      let prefix = get_or [] ps.prefix in
      record {
        robot = make_robot reverse_port ps memory;
        goal_handle = none;
        has_goal = garbage;
        result = record { error_code = successful; error_string = [] };
        io_flag_delay = lit 5 2;
        max_velocity = get_or (lit 10 0) ps.max_velocity;
        joint_offsets = replicate 6 (lit 0 0);
        base_frame = get_or (prefix ++ text "base_link") ps.base_frame;
        tool_frame = get_or (prefix ++ text "tool0_controller") ps.tool_frame;
        use_ros_control = get_or false ps.use_ros_control;
        tasks = [];
        calls = [];
      }
