-- ===== src/Ros/Motion.antt =====
-- `publishRTMsg` and `rosControlLoop` of src/ur_ros_wrapper.cpp, one round of each. A round starts when
-- the realtime state has new data.
use ur_modern_driver.Common.{
  ℕ, ◌+◌, Bool, List, [], ◌∷◌, Option, none, some, Outcome, ok, fault, ◌>>=◌, if◌then◌else◌,
}
use ur_modern_driver.Double.{Platform}
use ur_modern_driver.RobotStateRt.Defs.{RobotStateRt, set_data_published, set_controller_updated}
use ur_modern_driver.RobotStateRt.Getters.{
  get_q_actual, get_qd_actual, get_i_actual, get_tcp_force, get_tool_vector_actual,
  get_tcp_speed_actual,
}
use ur_modern_driver.Driver.Defs.{get_joint_names}
use ur_modern_driver.Driver.Trajectory.{at}
use ur_modern_driver.Hardware.Defs.{UrHardwareInterface, read, write}
use ur_modern_driver.Ros.Defs.{RosWrapper}

-- A vector of three.
pub record Vector3 (D : Type 0) : Type 0 where
  pub x : D
  pub y : D
  pub z : D

-- The rotation of the tool, as it is given to tf: none, or an angle about an axis.
pub data Rotation (D : Type 0) : Type 0 where
  identity : Rotation D
  about : Vector3 D → D → Rotation D

-- What a round of `publishRTMsg` publishes.
pub record RtMessages (D : Type 0) : Type 0 where
  pub names : List (List ℕ)
  pub positions : List D
  pub velocities : List D
  pub effort : List D
  pub force : Vector3 D
  pub torque : Vector3 D
  pub origin : Vector3 D
  pub rotation : Rotation D
  pub base_frame : List ℕ
  pub tool_frame : List ℕ
  pub linear : Vector3 D
  pub angular : Vector3 D

-- What the code takes of <cmath> for the tool's orientation.
pub record Geometry (D : Type 0) : Type 0 where
  pub sqrt : D → D
  pub sin : D → D
  pub cos : D → D

module _ {D : Type 0} where
  -- Three elements from `i` on.
  unfoldable pub three : List D → ℕ → Outcome (Vector3 D)
  three xs i = do
    x ← at xs i
    y ← at xs (i + 1)
    z ← at xs (i + 2)
    ok (record { x = x; y = y; z = z })

module _ {D : Type 0} ⦃d : Platform D⦄ where
  open d use {add}

  -- The loop that adds the offsets to the positions.
  unfoldable pub add_offsets : List D → List D → Outcome (List D)
  add_offsets [] offsets = ok []
  add_offsets (x ∷ xs) [] = fault
  add_offsets (x ∷ xs) (o ∷ offsets) = do rest ← add_offsets xs offsets; ok (add x o ∷ rest)

module _ {D : Type 0} ⦃d : Platform D⦄ (geometry : Geometry D) where
  open d use {lit, lt, add, mul, div, pow}
  open geometry use {sqrt, sin, cos}

  unfoldable pub angle_of : Vector3 D → D
  angle_of r = sqrt (add (add (pow r.x 2) (pow r.y 2)) (pow r.z 2))

  unfoldable pub rotation_of : Vector3 D → Rotation D
  rotation_of r =
      let angle = angle_of r in
      if lt angle (lit 1 16)
      then identity
      else about (record { x = div r.x angle; y = div r.y angle; z = div r.z angle }) angle

  unfoldable pub rt_messages :
      RosWrapper D → RobotStateRt D → Outcome (RtMessages D × RobotStateRt D)
  rt_messages ros state = do
    (q, state) ← get_q_actual state
    positions ← add_offsets q ros.joint_offsets
    (velocities, state) ← get_qd_actual state
    (effort, state) ← get_i_actual state
    (tcp_force, state) ← get_tcp_force state
    force ← three tcp_force 0
    torque ← three tcp_force 3
    (tool, state) ← get_tool_vector_actual state
    r ← three tool 3
    origin ← three tool 0
    (tcp_speed, state) ← get_tcp_speed_actual state
    linear ← three tcp_speed 0
    angular ← three tcp_speed 3
    let msg : RtMessages D = record {
      names = get_joint_names ros.robot;
      positions = positions;
      velocities = velocities;
      effort = effort;
      force = force;
      torque = torque;
      origin = origin;
      rotation = rotation_of r;
      base_frame = ros.base_frame;
      tool_frame = ros.tool_frame;
      linear = linear;
      angular = angular;
    }
    ok (msg, state)

  -- A round of `publishRTMsg`.
  unfoldable pub publish_rt : RosWrapper D → Outcome (RtMessages D × RosWrapper D)
  publish_rt ros = do
    let rt = ros.robot.rt_interface
    (msg, state) ← rt_messages ros rt.robot_state
    let rt = record rt { robot_state = set_data_published state }
    ok (msg, record ros { robot = record (ros.robot) { rt_interface = rt } })

  -- The quaternion that `rosControlLoop` computes, with its real part last.
  unfoldable pub quaternion_of : Vector3 D → Vector3 D × D
  quaternion_of r =
      let angle = angle_of r in
      if lt angle (lit 1 16) then (record { x = lit 0 0; y = lit 0 0; z = lit 0 0 }, lit 1 0) else (
        record {
          x = mul (div r.x angle) (sin (mul angle (lit 5 1)));
          y = mul (div r.y angle) (sin (mul angle (lit 5 1)));
          z = mul (div r.z angle) (sin (mul angle (lit 5 1)));
        },
        cos (mul angle (lit 5 1)),
      )

-- What a round of `rosControlLoop` publishes, where the publisher is free.
pub record ToolMessages (D : Type 0) : Type 0 where
  pub rotation : Option (Vector3 D × D)
  pub translation : Option (Vector3 D)
  pub linear : Option (Vector3 D)
  pub angular : Option (Vector3 D)

module _ {D : Type 0} ⦃d : Platform D⦄ (geometry : Geometry D) where
  unfoldable pub tool_messages :
      Bool → Bool → RobotStateRt D → Outcome (ToolMessages D × RobotStateRt D)
  tool_messages tf_free vel_free state = do
    (tool, state) ← get_tool_vector_actual state
    r ← three tool 3
    origin ← three tool 0
    (tcp_speed, state) ← get_tcp_speed_actual state
    linear ← three tcp_speed 0
    angular ← three tcp_speed 3
    let msg : ToolMessages D = record {
      rotation = if tf_free then some (quaternion_of geometry r) else none;
      translation = if tf_free then some origin else none;
      linear = if vel_free then some linear else none;
      angular = if vel_free then some angular else none;
    }
    ok (msg, state)

  abbrev pub put_state : RobotStateRt D → UrHardwareInterface D → UrHardwareInterface D
  put_state state hw =
      let rt = record (hw.robot.rt_interface) { robot_state = state } in
      record hw { robot = record (hw.robot) { rt_interface = rt } }

  -- A round of `rosControlLoop`. What the controllers make of the interface is an argument, and so is
  -- whether `trylock` gets the two publishers.
  unfoldable pub control_round :
      (UrHardwareInterface D → UrHardwareInterface D)
      → Bool
      → Bool
      → UrHardwareInterface D
      → Outcome (ToolMessages D × UrHardwareInterface D)
  control_round update tf_free vel_free hw = do
    hw ← read hw
    let hw = put_state (set_controller_updated hw.robot.rt_interface.robot_state) hw
    hw ← write (update hw)
    (msg, state) ← tool_messages tf_free vel_free hw.robot.rt_interface.robot_state
    ok (msg, put_state state hw)
