-- ===== src/RobotStateRt/Layout.antt =====
-- What a realtime message says, by the offset of each field: the reference for `unpack`.
use ur_modern_driver.Common.{
  ℕ, zero, suc, ◌+◌, true, List, [], ◌∷◌, if◌then◌else◌, take, drop, le_value, swap_bytes,
}
use ur_modern_driver.Double.{Platform}
use ur_modern_driver.RobotStateRt.Defs.{RobotStateRt}
use ur_modern_driver.RobotStateRt.DigitalBits.{unpack_digital_input_bits}
use ur_modern_driver.RobotStateRt.Unpack.{ntohd}

-- The eight bytes at an offset, as a number.
unfoldable pub word_at : List ℕ → ℕ → ℕ
word_at buf offset = le_value (take 8 (drop offset buf))

module _ {D : Type 0} ⦃d : Platform D⦄ where
  open d use {lit, lt, le, wide_shift}

  unfoldable pub double_at : List ℕ → ℕ → D
  double_at buf offset = ntohd (word_at buf offset)

  unfoldable pub doubles_at : List ℕ → ℕ → ℕ → List D
  doubles_at buf offset zero = []
  doubles_at buf offset (suc n) = double_at buf offset ∷ doubles_at buf (offset + 8) n

  unfoldable pub read_joints : List ℕ → RobotStateRt D → RobotStateRt D
  read_joints buf s = record s {
    time = double_at buf 4;
    q_target = doubles_at buf 12 6;
    qd_target = doubles_at buf 60 6;
    qdd_target = doubles_at buf 108 6;
    i_target = doubles_at buf 156 6;
    m_target = doubles_at buf 204 6;
    q_actual = doubles_at buf 252 6;
    qd_actual = doubles_at buf 300 6;
    i_actual = doubles_at buf 348 6;
  }

  unfoldable pub read_tool_v1 : List ℕ → RobotStateRt D → RobotStateRt D
  read_tool_v1 buf s = record s {
    tool_accelerometer_values =
        if lt (lit 16 1) s.version then doubles_at buf 396 3 else s.tool_accelerometer_values;
    tcp_force = doubles_at buf 540 6;
    tool_vector_actual = doubles_at buf 588 6;
    tcp_speed_actual = doubles_at buf 636 6;
  }

  unfoldable pub read_tool_v3 : List ℕ → RobotStateRt D → RobotStateRt D
  read_tool_v3 buf s = record s {
    i_control = doubles_at buf 396 6;
    tool_vector_actual = doubles_at buf 444 6;
    tcp_speed_actual = doubles_at buf 492 6;
    tcp_force = doubles_at buf 540 6;
    tool_vector_target = doubles_at buf 588 6;
    tcp_speed_target = doubles_at buf 636 6;
  }

  unfoldable pub read_tool : List ℕ → RobotStateRt D → RobotStateRt D
  read_tool buf s = if le s.version (lit 19 1) then read_tool_v1 buf s else read_tool_v3 buf s

  unfoldable pub read_inputs : List ℕ → RobotStateRt D → RobotStateRt D
  read_inputs buf s = record s {
    digital_input_bits = unpack_digital_input_bits wide_shift (swap_bytes 8 (word_at buf 684));
    motor_temperatures = doubles_at buf 692 6;
    controller_timer = double_at buf 740;
  }

  unfoldable pub read_modes : List ℕ → RobotStateRt D → RobotStateRt D
  read_modes buf s =
      if lt (lit 16 1) s.version
      then record s {
        robot_mode = double_at buf 756;
        joint_modes = if lt (lit 17 1) s.version then doubles_at buf 764 6 else s.joint_modes;
      }
      else s

  -- Where the last field that was looked at begins.
  unfoldable pub modes_end : D → ℕ
  modes_end version =
      if lt (lit 16 1) version then (if lt (lit 17 1) version then 764 else 756) else 740

  -- `from` is where the modes end.
  unfoldable pub read_power : List ℕ → ℕ → RobotStateRt D → RobotStateRt D
  read_power buf from s =
      if lt (lit 18 1) s.version
      then record s {
        safety_mode = double_at buf (from + 48);
        tool_accelerometer_values = doubles_at buf (from + 56) 3;
        speed_scaling = double_at buf (from + 80);
        linear_momentum_norm = double_at buf (from + 88);
        v_main = double_at buf (from + 96);
        v_robot = double_at buf (from + 104);
        i_robot = double_at buf (from + 112);
        v_actual = doubles_at buf (from + 120) 6;
      }
      else s

  -- The fields of a message by their offsets.
  unfoldable pub read_body : List ℕ → RobotStateRt D → RobotStateRt D
  read_body buf s =
      let inputs = read_inputs buf (read_tool buf (read_joints buf s)) in
      read_power buf (modes_end inputs.version) (read_modes buf inputs)

  -- What the threads that wait for data see of a message that was read.
  unfoldable pub publish : RobotStateRt D → RobotStateRt D
  publish s = record s {
    controller_updated = true;
    data_published = true;
    notified = s.notified + 1;
  }
