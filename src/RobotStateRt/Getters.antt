-- ===== src/RobotStateRt/Getters.antt =====
-- The getters of src/robot_state_RT.cpp: each takes the lock, copies a field and gives the lock
-- back.
use ur_modern_driver.Common.{Bool, true, false, List, Outcome, ok, ◌>>=◌, ◌≡◌}
use ur_modern_driver.RobotStateRt.Defs.{RobotStateRt, lock, unlock}

module _ {D : Type 0} where
  -- `val_lock_.lock(); ret = f(...); val_lock_.unlock(); return ret;`
  unfoldable pub locked :
      {A : Type 0} → (RobotStateRt D → A) → RobotStateRt D → Outcome (A × RobotStateRt D)
  unfolding lock unlock
  locked f s = do held ← lock s; ok (f held, unlock held)

  -- Where the lock is free a getter gives the field, and leaves the state as it was.
  pub locked-eq-ok :
      {A : Type 0} (f : RobotStateRt D → A) (s : RobotStateRt D)
      → s.val_lock ≡ false
      → locked f s ≡ ok (f (record s { val_lock = true }), s)
  unfolding locked lock unlock
  locked-eq-ok f s free = rw free

  unfoldable pub get_version : RobotStateRt D → Outcome (D × RobotStateRt D)
  get_version = locked (λ s. s.version)

  unfoldable pub get_time : RobotStateRt D → Outcome (D × RobotStateRt D)
  get_time = locked (λ s. s.time)

  unfoldable pub get_q_target : RobotStateRt D → Outcome (List D × RobotStateRt D)
  get_q_target = locked (λ s. s.q_target)

  unfoldable pub get_qd_target : RobotStateRt D → Outcome (List D × RobotStateRt D)
  get_qd_target = locked (λ s. s.qd_target)

  unfoldable pub get_qdd_target : RobotStateRt D → Outcome (List D × RobotStateRt D)
  get_qdd_target = locked (λ s. s.qdd_target)

  unfoldable pub get_i_target : RobotStateRt D → Outcome (List D × RobotStateRt D)
  get_i_target = locked (λ s. s.i_target)

  unfoldable pub get_m_target : RobotStateRt D → Outcome (List D × RobotStateRt D)
  get_m_target = locked (λ s. s.m_target)

  unfoldable pub get_q_actual : RobotStateRt D → Outcome (List D × RobotStateRt D)
  get_q_actual = locked (λ s. s.q_actual)

  unfoldable pub get_qd_actual : RobotStateRt D → Outcome (List D × RobotStateRt D)
  get_qd_actual = locked (λ s. s.qd_actual)

  unfoldable pub get_i_actual : RobotStateRt D → Outcome (List D × RobotStateRt D)
  get_i_actual = locked (λ s. s.i_actual)

  unfoldable pub get_i_control : RobotStateRt D → Outcome (List D × RobotStateRt D)
  get_i_control = locked (λ s. s.i_control)

  unfoldable pub get_tool_vector_actual : RobotStateRt D → Outcome (List D × RobotStateRt D)
  get_tool_vector_actual = locked (λ s. s.tool_vector_actual)

  unfoldable pub get_tcp_speed_actual : RobotStateRt D → Outcome (List D × RobotStateRt D)
  get_tcp_speed_actual = locked (λ s. s.tcp_speed_actual)

  unfoldable pub get_tcp_force : RobotStateRt D → Outcome (List D × RobotStateRt D)
  get_tcp_force = locked (λ s. s.tcp_force)

  unfoldable pub get_tool_vector_target : RobotStateRt D → Outcome (List D × RobotStateRt D)
  get_tool_vector_target = locked (λ s. s.tool_vector_target)

  unfoldable pub get_tcp_speed_target : RobotStateRt D → Outcome (List D × RobotStateRt D)
  get_tcp_speed_target = locked (λ s. s.tcp_speed_target)

  unfoldable pub get_digital_input_bits : RobotStateRt D → Outcome (List Bool × RobotStateRt D)
  get_digital_input_bits = locked (λ s. s.digital_input_bits)

  unfoldable pub get_motor_temperatures : RobotStateRt D → Outcome (List D × RobotStateRt D)
  get_motor_temperatures = locked (λ s. s.motor_temperatures)

  unfoldable pub get_controller_timer : RobotStateRt D → Outcome (D × RobotStateRt D)
  get_controller_timer = locked (λ s. s.controller_timer)

  unfoldable pub get_robot_mode : RobotStateRt D → Outcome (D × RobotStateRt D)
  get_robot_mode = locked (λ s. s.robot_mode)

  unfoldable pub get_joint_modes : RobotStateRt D → Outcome (List D × RobotStateRt D)
  get_joint_modes = locked (λ s. s.joint_modes)

  unfoldable pub get_safety_mode : RobotStateRt D → Outcome (D × RobotStateRt D)
  get_safety_mode = locked (λ s. s.safety_mode)

  unfoldable pub get_tool_accelerometer_values : RobotStateRt D → Outcome (List D × RobotStateRt D)
  get_tool_accelerometer_values = locked (λ s. s.tool_accelerometer_values)

  unfoldable pub get_speed_scaling : RobotStateRt D → Outcome (D × RobotStateRt D)
  get_speed_scaling = locked (λ s. s.speed_scaling)

  unfoldable pub get_linear_momentum_norm : RobotStateRt D → Outcome (D × RobotStateRt D)
  get_linear_momentum_norm = locked (λ s. s.linear_momentum_norm)

  unfoldable pub get_v_main : RobotStateRt D → Outcome (D × RobotStateRt D)
  get_v_main = locked (λ s. s.v_main)

  unfoldable pub get_v_robot : RobotStateRt D → Outcome (D × RobotStateRt D)
  get_v_robot = locked (λ s. s.v_robot)

  unfoldable pub get_i_robot : RobotStateRt D → Outcome (D × RobotStateRt D)
  get_i_robot = locked (λ s. s.i_robot)

  unfoldable pub get_v_actual : RobotStateRt D → Outcome (List D × RobotStateRt D)
  get_v_actual = locked (λ s. s.v_actual)
