-- ===== src/Hardware/Defs.antt =====
-- The state of include/ur_modern_driver/ur_hardware_interface.h and the methods of
-- src/ur_hardware_interface.cpp. The interfaces that `init` registers share the vectors.
use ur_modern_driver.Common.{
  ℕ, zero, suc, ◌+◌, Bool, true, false, List, [], ◌∷◌, ◌++◌, Outcome, ok, fault, ◌>>=◌,
  if◌then◌else◌, length, drop, replicate,
}
use ur_modern_driver.Common.Int.{ℤ}
use ur_modern_driver.Double.{Platform}
use ur_modern_driver.RobotStateRt.Getters.{get_q_actual, get_qd_actual, get_i_actual, get_tcp_force}
use ur_modern_driver.Driver.Defs.{UrDriver, set_speed}
use ur_modern_driver.Driver.Servo.{servoj, close_servo}
use ur_modern_driver.Driver.Trajectory.{at}
use ur_modern_driver.Driver.Program.{upload_prog}

pub record UrHardwareInterface (D : Type 0) : Type 0 where
  pub velocity_interface_running : Bool
  pub position_interface_running : Bool
  pub num_joints : ℕ
  pub joint_position : List D
  pub joint_velocity : List D
  pub joint_effort : List D
  pub joint_position_command : List D
  pub joint_velocity_command : List D
  pub prev_joint_velocity_command : List D
  pub robot_force : List D
  pub robot_torque : List D
  pub max_vel_change : D
  pub robot : UrDriver D

-- The type that a controller names: one of the two that the code compares it to, or another.
pub data Kind : Type 0 where
  velocity_joint_interface position_joint_interface other_interface : Kind

abbrev pub is_velocity : Kind → Bool
is_velocity velocity_joint_interface = true
is_velocity _ = false

abbrev pub is_position : Kind → Bool
is_position position_joint_interface = true
is_position _ = false

module _ {D : Type 0} ⦃d : Platform D⦄ where
  open d use {lit, lt, add, sub, mul}

  -- The constructor and `init`, for a number of joints that is not 0.
  unfoldable pub new : ℕ → UrDriver D → UrHardwareInterface D
  new num_joints robot = record {
    velocity_interface_running = false;
    position_interface_running = false;
    num_joints = num_joints;
    joint_position = replicate num_joints (lit 0 0);
    joint_velocity = replicate num_joints (lit 0 0);
    joint_effort = replicate num_joints (lit 0 0);
    joint_position_command = replicate num_joints (lit 0 0);
    joint_velocity_command = replicate num_joints (lit 0 0);
    prev_joint_velocity_command = replicate num_joints (lit 0 0);
    robot_force = replicate 3 (lit 0 0);
    robot_torque = replicate 3 (lit 0 0);
    max_vel_change = lit 12 2;
    robot = robot;
  }

  -- `n` elements from `i` on.
  unfoldable pub copy_from : ℕ → ℕ → List D → Outcome (List D)
  copy_from zero i values = ok []
  copy_from (suc n) i values = do x ← at values i; rest ← copy_from n (i + 1) values; ok (x ∷ rest)

  unfoldable pub read : UrHardwareInterface D → Outcome (UrHardwareInterface D)
  read hw = do
    (pos, state) ← get_q_actual hw.robot.rt_interface.robot_state
    (vel, state) ← get_qd_actual state
    (current, state) ← get_i_actual state
    (tcp, state) ← get_tcp_force state
    joint_position ← copy_from hw.num_joints 0 pos
    joint_velocity ← copy_from hw.num_joints 0 vel
    joint_effort ← copy_from hw.num_joints 0 current
    robot_force ← copy_from 3 0 tcp
    robot_torque ← copy_from 3 3 tcp
    let rt = record (hw.robot.rt_interface) { robot_state = state }
    ok (record hw {
      joint_position = joint_position;
      joint_velocity = joint_velocity;
      joint_effort = joint_effort;
      robot_force = robot_force;
      robot_torque = robot_torque;
      robot = record (hw.robot) { rt_interface = rt };
    })

  unfoldable pub set_max_vel_change : D → UrHardwareInterface D → UrHardwareInterface D
  set_max_vel_change inp hw = record hw { max_vel_change = inp }

  -- One command after the rate limit.
  unfoldable pub limit : D → D → D → D
  limit change prev command =
      if lt (add prev change) command
      then add prev change
      else if lt command (sub prev change)
      then sub prev change
      else command

  -- The loop of `write`: the commands, one for each of `joint_velocity_command_`.
  unfoldable pub limit_all : D → List D → List D → Outcome (List D)
  limit_all change prevs [] = ok []
  limit_all change [] (c ∷ cs) = fault
  limit_all change (p ∷ prevs) (c ∷ cs) = do
    rest ← limit_all change prevs cs
    ok (limit change p c ∷ rest)

  unfoldable pub write : UrHardwareInterface D → Outcome (UrHardwareInterface D)
  write hw =
      if hw.velocity_interface_running
      then (do
        let change = hw.max_vel_change
        let prevs = hw.prev_joint_velocity_command
        cmd ← limit_all change prevs hw.joint_velocity_command
        c0 ← at cmd 0
        c1 ← at cmd 1
        c2 ← at cmd 2
        c3 ← at cmd 3
        c4 ← at cmd 4
        c5 ← at cmd 5
        robot ← set_speed c0 c1 c2 c3 c4 c5 (mul change (lit 125 0)) hw.robot
        ok (record hw {
          prev_joint_velocity_command = cmd ++ drop (length cmd) prevs;
          robot = robot;
        }))
      else if hw.position_interface_running
      then (do
        robot ← servoj hw.joint_position_command 1 hw.robot
        ok (record hw { robot = robot }))
      else ok hw

-- Whether a list has a controller of the type.
unfoldable pub names : (Kind → Bool) → List Kind → Bool
names wanted [] = false
names wanted (k ∷ ks) = if wanted k then true else names wanted ks

module _ {D : Type 0} where
  -- Whether one controller of the start list may run.
  unfoldable pub may_start : Kind → List Kind → UrHardwareInterface D → Bool
  may_start velocity_joint_interface stop_list hw =
      if hw.velocity_interface_running
      then false
      else if hw.position_interface_running
      then names is_position stop_list
      else true
  may_start position_joint_interface stop_list hw =
      if hw.position_interface_running
      then false
      else if hw.velocity_interface_running
      then names is_velocity stop_list
      else true
  may_start other_interface stop_list hw = true

  unfoldable pub can_switch : List Kind → List Kind → UrHardwareInterface D → Bool
  can_switch [] stop_list hw = true
  can_switch (k ∷ ks) stop_list hw =
      if may_start k stop_list hw then can_switch ks stop_list hw else false

module _ {D : Type 0} ⦃d : Platform D⦄ where
  unfoldable pub stop_one : Kind → UrHardwareInterface D → Outcome (UrHardwareInterface D)
  stop_one velocity_joint_interface hw = ok (record hw { velocity_interface_running = false })
  stop_one position_joint_interface hw = do
    robot ← close_servo [] hw.robot
    ok (record hw { position_interface_running = false; robot = robot })
  stop_one other_interface hw = ok hw

  unfoldable pub stop_all : List Kind → UrHardwareInterface D → Outcome (UrHardwareInterface D)
  stop_all [] hw = ok hw
  stop_all (k ∷ ks) hw = do hw ← stop_one k hw; stop_all ks hw

  -- The descriptor is what `accept` gives to `uploadProg`, whose result is not looked at.
  unfoldable pub start_one : Kind → ℤ → UrHardwareInterface D → Outcome (UrHardwareInterface D)
  start_one velocity_joint_interface fd hw = ok (record hw { velocity_interface_running = true })
  start_one position_joint_interface fd hw = do
    (opened, robot) ← upload_prog fd hw.robot
    ok (record hw { position_interface_running = true; robot = robot })
  start_one other_interface fd hw = ok hw

  -- One descriptor for each controller that is started.
  unfoldable pub start_all :
      List Kind → (ℕ → ℤ) → UrHardwareInterface D → Outcome (UrHardwareInterface D)
  start_all [] fds hw = ok hw
  start_all (k ∷ ks) fds hw = do hw ← start_one k (fds 0) hw; start_all ks (λ i. fds (suc i)) hw

  unfoldable pub do_switch :
      List Kind → List Kind → (ℕ → ℤ) → UrHardwareInterface D → Outcome (UrHardwareInterface D)
  do_switch start_list stop_list fds hw = do hw ← stop_all stop_list hw; start_all start_list fds hw
