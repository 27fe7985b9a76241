-- ===== src/RobotStateRt/Defs.antt =====
-- The state of the robot that the realtime port reports: include/ur_modern_driver/robot_state_RT.h
-- and the constructor, destructor and flag methods of src/robot_state_RT.cpp.
use ur_modern_driver.Common.{
  ℕ, ◌+◌, Bool, true, false, List, Outcome, ok, stuck, ◌>>=◌, replicate, if◌then◌else◌,
}
use ur_modern_driver.Double.{Platform}

pub record RobotStateRt (D : Type 0) : Type 0 where
  pub version : D
  pub time : D
  pub q_target : List D
  pub qd_target : List D
  pub qdd_target : List D
  pub i_target : List D
  pub m_target : List D
  pub q_actual : List D
  pub qd_actual : List D
  pub i_actual : List D
  pub i_control : List D
  pub tool_vector_actual : List D
  pub tcp_speed_actual : List D
  pub tcp_force : List D
  pub tool_vector_target : List D
  pub tcp_speed_target : List D
  pub digital_input_bits : List Bool
  pub motor_temperatures : List D
  pub controller_timer : D
  pub robot_mode : D
  pub joint_modes : List D
  pub safety_mode : D
  pub tool_accelerometer_values : List D
  pub speed_scaling : D
  pub linear_momentum_norm : D
  pub v_main : D
  pub v_robot : D
  pub i_robot : D
  pub v_actual : List D
  pub data_published : Bool
  pub controller_updated : Bool
  -- Whether `val_lock_`, a plain mutex, is held.
  pub val_lock : Bool
  -- How often `pMsg_cond_` was notified.
  pub notified : ℕ

module _ {D : Type 0} ⦃d : Platform D⦄ where
  open d use {lit}

  unfoldable pub new : RobotStateRt D
  new = record {
    version = lit 0 0;
    time = lit 0 0;
    q_target = replicate 6 (lit 0 0);
    qd_target = replicate 6 (lit 0 0);
    qdd_target = replicate 6 (lit 0 0);
    i_target = replicate 6 (lit 0 0);
    m_target = replicate 6 (lit 0 0);
    q_actual = replicate 6 (lit 0 0);
    qd_actual = replicate 6 (lit 0 0);
    i_actual = replicate 6 (lit 0 0);
    i_control = replicate 6 (lit 0 0);
    tool_vector_actual = replicate 6 (lit 0 0);
    tcp_speed_actual = replicate 6 (lit 0 0);
    tcp_force = replicate 6 (lit 0 0);
    tool_vector_target = replicate 6 (lit 0 0);
    tcp_speed_target = replicate 6 (lit 0 0);
    digital_input_bits = replicate 64 false;
    motor_temperatures = replicate 6 (lit 0 0);
    controller_timer = lit 0 0;
    robot_mode = lit 0 0;
    joint_modes = replicate 6 (lit 0 0);
    safety_mode = lit 0 0;
    tool_accelerometer_values = replicate 3 (lit 0 0);
    speed_scaling = lit 0 0;
    linear_momentum_norm = lit 0 0;
    v_main = lit 0 0;
    v_robot = lit 0 0;
    i_robot = lit 0 0;
    v_actual = replicate 6 (lit 0 0);
    data_published = false;
    controller_updated = false;
    val_lock = false;
    notified = 0;
  }

module _ {D : Type 0} where
  -- The destructor: nobody is left waiting.
  pub destroy : RobotStateRt D → RobotStateRt D
  destroy s = record s {
    data_published = true;
    controller_updated = true;
    notified = s.notified + 1;
  }

  pub set_data_published : RobotStateRt D → RobotStateRt D
  set_data_published s = record s { data_published = false }

  pub get_data_published : RobotStateRt D → Bool
  get_data_published s = s.data_published

  pub set_controller_updated : RobotStateRt D → RobotStateRt D
  set_controller_updated s = record s { controller_updated = false }

  pub get_controller_updated : RobotStateRt D → Bool
  get_controller_updated s = s.controller_updated

  -- Taking a plain mutex that is held never ends.
  unfoldable pub lock : RobotStateRt D → Outcome (RobotStateRt D)
  lock s = if s.val_lock then stuck else ok (record s { val_lock = true })

  unfoldable pub unlock : RobotStateRt D → RobotStateRt D
  unlock s = record s { val_lock = false }

  unfoldable pub set_version : D → RobotStateRt D → Outcome (RobotStateRt D)
  unfolding lock unlock
  set_version ver s = do held ← lock s; ok (unlock (record held { version = ver }))
