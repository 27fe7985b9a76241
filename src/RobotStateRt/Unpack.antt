-- ===== src/RobotStateRt/Unpack.antt =====
-- `unpackVector`, `unpackDigitalInputBits` and `unpack` of src/robot_state_RT.cpp. A buffer is the
-- list of its bytes, and reading past its end is a fault.
use ur_modern_driver.Common.{
  ℕ, zero, suc, ◌+◌, ◌*◌, Bool, true, ◌&&◌, List, [], ◌∷◌, Outcome, ok, ◌>>=◌, ◌==◌, if◌then◌else◌,
  u16, load, swap_bytes,
}
use ur_modern_driver.Double.{Platform}
use ur_modern_driver.RobotStateRt.DigitalBits.{unpack_digital_input_bits}
use ur_modern_driver.RobotStateRt.Defs.{RobotStateRt, lock, unlock}

module _ {D : Type 0} ⦃d : Platform D⦄ where
  open d use {lit, lt, le, of_bits, wide_shift}

  unfoldable pub ntohd : ℕ → D
  ntohd nf = of_bits (swap_bytes 8 nf)

  unfoldable pub unpack_vector : List ℕ → ℕ → ℕ → Outcome (List D)
  unpack_vector buf start zero = ok []
  unpack_vector buf start (suc n) = do
    q ← load 8 buf start
    ret ← unpack_vector buf (start + 8) n
    ok (ntohd q ∷ ret)

  -- `memcpy(&unpack_to, &buf[offset], 8)` and `ntohd`.
  unfoldable pub unpack_double : List ℕ → ℕ → Outcome D
  unpack_double buf offset = do unpack_to ← load 8 buf offset; ok (ntohd unpack_to)

  -- Whether a version with a known message length has got it.
  unfoldable pub length_good : D → ℕ → Bool
  length_good version len =
      if le (lit 16 1) version && lt version (lit 17 1)
      then len == 756
      else if le (lit 17 1) version && lt version (lit 18 1)
      then len == 764
      else if le (lit 18 1) version && lt version (lit 19 1)
      then len == 812
      else if le (lit 30 1) version && lt version (lit 32 1)
      then len == 1044
      else if le (lit 32 1) version && lt version (lit 33 1)
      then len == 1060
      else true

  -- From `time_` to `i_actual_`.
  unfoldable pub unpack_joints : List ℕ → ℕ → RobotStateRt D → Outcome (RobotStateRt D × ℕ)
  unpack_joints buf offset s = do
    time ← unpack_double buf offset
    let offset = u16 (offset + 8)
    q_target ← unpack_vector buf offset 6
    let offset = u16 (offset + 48)
    qd_target ← unpack_vector buf offset 6
    let offset = u16 (offset + 48)
    qdd_target ← unpack_vector buf offset 6
    let offset = u16 (offset + 48)
    i_target ← unpack_vector buf offset 6
    let offset = u16 (offset + 48)
    m_target ← unpack_vector buf offset 6
    let offset = u16 (offset + 48)
    q_actual ← unpack_vector buf offset 6
    let offset = u16 (offset + 48)
    qd_actual ← unpack_vector buf offset 6
    let offset = u16 (offset + 48)
    i_actual ← unpack_vector buf offset 6
    let s = record s {
      time = time;
      q_target = q_target;
      qd_target = qd_target;
      qdd_target = qdd_target;
      i_target = i_target;
      m_target = m_target;
      q_actual = q_actual;
      qd_actual = qd_actual;
      i_actual = i_actual;
    }
    ok (s, u16 (offset + 48))

  -- From the tool values, whose order depends on the version, to `controller_timer_`.
  unfoldable pub unpack_tool_v1 : List ℕ → ℕ → RobotStateRt D → Outcome (RobotStateRt D × ℕ)
  unpack_tool_v1 buf offset s = do
    s ←
        (if lt (lit 16 1) s.version
          then (do
            tool_accelerometer_values ← unpack_vector buf offset 3
            ok (record s { tool_accelerometer_values = tool_accelerometer_values }))
          else ok s)
    let offset = u16 (offset + 8 * (3 + 15))
    tcp_force ← unpack_vector buf offset 6
    let offset = u16 (offset + 48)
    tool_vector_actual ← unpack_vector buf offset 6
    let offset = u16 (offset + 48)
    tcp_speed_actual ← unpack_vector buf offset 6
    let s = record s {
      tcp_force = tcp_force;
      tool_vector_actual = tool_vector_actual;
      tcp_speed_actual = tcp_speed_actual;
    }
    ok (s, offset)

  unfoldable pub unpack_tool_v3 : List ℕ → ℕ → RobotStateRt D → Outcome (RobotStateRt D × ℕ)
  unpack_tool_v3 buf offset s = do
    i_control ← unpack_vector buf offset 6
    let offset = u16 (offset + 48)
    tool_vector_actual ← unpack_vector buf offset 6
    let offset = u16 (offset + 48)
    tcp_speed_actual ← unpack_vector buf offset 6
    let offset = u16 (offset + 48)
    tcp_force ← unpack_vector buf offset 6
    let offset = u16 (offset + 48)
    tool_vector_target ← unpack_vector buf offset 6
    let offset = u16 (offset + 48)
    tcp_speed_target ← unpack_vector buf offset 6
    let s = record s {
      i_control = i_control;
      tool_vector_actual = tool_vector_actual;
      tcp_speed_actual = tcp_speed_actual;
      tcp_force = tcp_force;
      tool_vector_target = tool_vector_target;
      tcp_speed_target = tcp_speed_target;
    }
    ok (s, offset)

  unfoldable pub unpack_tool : List ℕ → ℕ → RobotStateRt D → Outcome (RobotStateRt D × ℕ)
  unpack_tool buf offset s = do
    (s, offset) ←
        if le s.version (lit 19 1) then unpack_tool_v1 buf offset s else unpack_tool_v3 buf offset s
    ok (s, u16 (offset + 48))

  unfoldable pub unpack_inputs : List ℕ → ℕ → RobotStateRt D → Outcome (RobotStateRt D × ℕ)
  unpack_inputs buf offset s = do
    digital_input_bits ← load 8 buf offset
    let bits = unpack_digital_input_bits wide_shift (swap_bytes 8 digital_input_bits)
    let offset = u16 (offset + 8)
    motor_temperatures ← unpack_vector buf offset 6
    let offset = u16 (offset + 48)
    controller_timer ← unpack_double buf offset
    let s = record s {
      digital_input_bits = bits;
      motor_temperatures = motor_temperatures;
      controller_timer = controller_timer;
    }
    ok (s, offset)

  unfoldable pub unpack_joint_modes : List ℕ → ℕ → RobotStateRt D → Outcome (RobotStateRt D × ℕ)
  unpack_joint_modes buf offset s =
      if lt (lit 17 1) s.version
      then (do
        let offset = u16 (offset + 8)
        joint_modes ← unpack_vector buf offset 6
        ok (record s { joint_modes = joint_modes }, offset))
      else ok (s, offset)

  unfoldable pub unpack_modes : List ℕ → ℕ → RobotStateRt D → Outcome (RobotStateRt D × ℕ)
  unpack_modes buf offset s =
      if lt (lit 16 1) s.version
      then (do
        let offset = u16 (offset + 16)
        robot_mode ← unpack_double buf offset
        unpack_joint_modes buf offset (record s { robot_mode = robot_mode }))
      else ok (s, offset)

  unfoldable pub unpack_power : List ℕ → ℕ → RobotStateRt D → Outcome (RobotStateRt D)
  unpack_power buf offset s =
      if lt (lit 18 1) s.version
      then (do
        let offset = u16 (offset + 48)
        safety_mode ← unpack_double buf offset
        let offset = u16 (offset + 8)
        tool_accelerometer_values ← unpack_vector buf offset 3
        let offset = u16 (offset + 24)
        speed_scaling ← unpack_double buf offset
        let offset = u16 (offset + 8)
        linear_momentum_norm ← unpack_double buf offset
        let offset = u16 (offset + 8)
        v_main ← unpack_double buf offset
        let offset = u16 (offset + 8)
        v_robot ← unpack_double buf offset
        let offset = u16 (offset + 8)
        i_robot ← unpack_double buf offset
        let offset = u16 (offset + 8)
        v_actual ← unpack_vector buf offset 6
        ok (record s {
          safety_mode = safety_mode;
          tool_accelerometer_values = tool_accelerometer_values;
          speed_scaling = speed_scaling;
          linear_momentum_norm = linear_momentum_norm;
          v_main = v_main;
          v_robot = v_robot;
          i_robot = i_robot;
          v_actual = v_actual;
        }))
      else ok s

  -- The body of a message of the right length, under the lock.
  unfoldable pub unpack_body : List ℕ → ℕ → RobotStateRt D → Outcome (RobotStateRt D)
  unpack_body buf offset s = do
    (s, offset) ← unpack_joints buf offset s
    (s, offset) ← unpack_tool buf offset s
    (s, offset) ← unpack_inputs buf offset s
    (s, offset) ← unpack_modes buf offset s
    unpack_power buf offset s

  -- After the length is read: parse and publish, or leave all as it is.
  unfoldable pub unpack_checked : List ℕ → ℕ → ℕ → RobotStateRt D → Outcome (RobotStateRt D)
  unpack_checked buf offset len s =
      if length_good s.version len
      then (do
        s ← unpack_body buf offset s
        let s = unlock s
        ok (record s {
          controller_updated = true;
          data_published = true;
          notified = s.notified + 1;
        }))
      else ok (unlock s)

  unfoldable pub unpack : List ℕ → RobotStateRt D → Outcome (RobotStateRt D)
  unpack buf s = do
    s ← lock s
    len ← load 4 buf 0
    unpack_checked buf (u16 (0 + 4)) (swap_bytes 4 len) s
