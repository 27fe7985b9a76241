-- ===== src/RobotState/Packages.antt =====
-- `unpackRobotMode` and `unpackRobotStateMasterboard` of src/robot_state.cpp.
use ur_modern_driver.Common.{
  ℕ, ◌+◌, Bool, true, false, List, Outcome, ok, ◌>>=◌, ltb, ◌==◌, if◌then◌else◌, load, swap_bytes,
}
use ur_modern_driver.Double.{Platform}
use ur_modern_driver.RobotState.Defs.{RobotState, RobotModeData, MasterboardData, get_version}

-- `memcpy(&tmp, &buf[offset], 1); flag = tmp > 0`.
unfoldable pub load_flag : List ℕ → ℕ → Outcome Bool
load_flag buf offset = do tmp ← load 1 buf offset; ok (ltb 0 tmp)

-- `memcpy` and then `ntohl` or `ntohs`.
unfoldable pub load_swapped : ℕ → List ℕ → ℕ → Outcome ℕ
load_swapped n buf offset = do x ← load n buf offset; ok (swap_bytes n x)

module _ {D : Type 0} ⦃d : Platform D⦄ where
  open d use {lit, lt, of_bits, of_float_bits, to_u32, of_u32, of_int}

  unfoldable pub ntohd : ℕ → D
  ntohd nf = of_bits (swap_bytes 8 nf)

  unfoldable pub load_double : List ℕ → ℕ → Outcome D
  load_double buf offset = do temp ← load 8 buf offset; ok (ntohd temp)

  -- `x = ntohl(x)` of a `float`: the value goes through `uint32_t`, where the bytes change order.
  unfoldable pub load_float : List ℕ → ℕ → Outcome D
  load_float buf offset = do
    x ← load 4 buf offset
    ok (of_u32 (swap_bytes 4 (to_u32 (of_float_bits x))))

  -- The seven flags and the mode.
  unfoldable pub unpack_mode_flags : List ℕ → ℕ → RobotModeData D → Outcome (RobotModeData D)
  unpack_mode_flags buf offset m = do
    timestamp ← load 8 buf offset
    is_robot_connected ← load_flag buf (offset + 8)
    is_real_robot_enabled ← load_flag buf (offset + 9)
    is_power_on_robot ← load_flag buf (offset + 10)
    is_emergency_stopped ← load_flag buf (offset + 11)
    is_protective_stopped ← load_flag buf (offset + 12)
    is_program_running ← load_flag buf (offset + 13)
    is_program_paused ← load_flag buf (offset + 14)
    robot_mode ← load 1 buf (offset + 15)
    ok (record m {
      timestamp = timestamp;
      is_robot_connected = is_robot_connected;
      is_real_robot_enabled = is_real_robot_enabled;
      is_power_on_robot = is_power_on_robot;
      is_emergency_stopped = is_emergency_stopped;
      is_protective_stopped = is_protective_stopped;
      is_program_running = is_program_running;
      is_program_paused = is_program_paused;
      robot_mode = robot_mode;
    })

  -- What follows the mode; the control mode and the target speed come after version 2 only.
  unfoldable pub unpack_mode_speeds :
      Bool → List ℕ → ℕ → RobotModeData D → Outcome (RobotModeData D)
  unpack_mode_speeds true buf offset m = do
    control_mode ← load 1 buf offset
    target_speed_fraction ← load_double buf (offset + 1)
    speed_scaling ← load_double buf (offset + 9)
    ok (record m {
      control_mode = control_mode;
      target_speed_fraction = target_speed_fraction;
      speed_scaling = speed_scaling;
    })
  unpack_mode_speeds false buf offset m = do
    speed_scaling ← load_double buf offset
    ok (record m { speed_scaling = speed_scaling })

  unfoldable pub unpack_robot_mode : List ℕ → ℕ → RobotState D → Outcome (RobotState D)
  unpack_robot_mode buf offset s = do
    mode ← unpack_mode_flags buf offset s.robot_mode
    mode ← unpack_mode_speeds (lt (lit 2 0) (get_version s)) buf (offset + 16) mode
    ok (record s { robot_mode = mode })

  -- The digital bits: 16 of them each before version 3, and 32 from then on. The offset behind
  -- them comes with the data.
  unfoldable pub unpack_digital :
      Bool → List ℕ → ℕ → MasterboardData D → Outcome (MasterboardData D × ℕ)
  unpack_digital true buf offset m = do
    digital_input_bits ← load_swapped 2 buf offset
    digital_output_bits ← load_swapped 2 buf (offset + 2)
    ok (
      record m {
        digital_input_bits = digital_input_bits;
        digital_output_bits = digital_output_bits;
      },
      offset + 4,
    )
  unpack_digital false buf offset m = do
    digital_input_bits ← load_swapped 4 buf offset
    digital_output_bits ← load_swapped 4 buf (offset + 4)
    ok (
      record m {
        digital_input_bits = digital_input_bits;
        digital_output_bits = digital_output_bits;
      },
      offset + 8,
    )

  unfoldable pub unpack_analog : List ℕ → ℕ → MasterboardData D → Outcome (MasterboardData D)
  unpack_analog buf offset m = do
    analog_input_range0 ← load 1 buf offset
    analog_input_range1 ← load 1 buf (offset + 1)
    analog_input0 ← load_double buf (offset + 2)
    analog_input1 ← load_double buf (offset + 10)
    analog_output_domain0 ← load 1 buf (offset + 18)
    analog_output_domain1 ← load 1 buf (offset + 19)
    analog_output0 ← load_double buf (offset + 20)
    analog_output1 ← load_double buf (offset + 28)
    ok (record m {
      analog_input_range0 = analog_input_range0;
      analog_input_range1 = analog_input_range1;
      analog_input0 = analog_input0;
      analog_input1 = analog_input1;
      analog_output_domain0 = analog_output_domain0;
      analog_output_domain1 = analog_output_domain1;
      analog_output0 = analog_output0;
      analog_output1 = analog_output1;
    })

  unfoldable pub unpack_board : List ℕ → ℕ → MasterboardData D → Outcome (MasterboardData D)
  unpack_board buf offset m = do
    master_board_temperature ← load_float buf offset
    robot_voltage48_v ← load_float buf (offset + 4)
    robot_current ← load_float buf (offset + 8)
    master_io_current ← load_float buf (offset + 12)
    safety_mode ← load 1 buf (offset + 16)
    master_on_off_state ← load 1 buf (offset + 17)
    euromap67_interface_installed ← load 1 buf (offset + 18)
    ok (record m {
      master_board_temperature = master_board_temperature;
      robot_voltage48_v = robot_voltage48_v;
      robot_current = robot_current;
      master_io_current = master_io_current;
      safety_mode = safety_mode;
      master_on_off_state = master_on_off_state;
      euromap67_interface_installed = euromap67_interface_installed;
    })

  unfoldable pub euromap_value : Bool → List ℕ → ℕ → Outcome D
  euromap_value true buf offset = do x ← load_swapped 2 buf offset; ok (of_u32 x)
  euromap_value false buf offset = load_float buf offset

  -- The Euromap values, of 16 bits before version 3.
  unfoldable pub unpack_euromap :
      Bool → List ℕ → ℕ → MasterboardData D → Outcome (MasterboardData D)
  unpack_euromap old buf offset m = do
    euromap_input_bits ← load_swapped 4 buf offset
    euromap_output_bits ← load_swapped 4 buf (offset + 4)
    euromap_voltage ← euromap_value old buf (offset + 8)
    euromap_current ← euromap_value old buf (if old then offset + 10 else offset + 12)
    ok (record m {
      euromap_input_bits = euromap_input_bits;
      euromap_output_bits = euromap_output_bits;
      euromap_voltage = euromap_voltage;
      euromap_current = euromap_current;
    })

  unfoldable pub unpack_robot_state_masterboard : List ℕ → ℕ → RobotState D → Outcome (RobotState D)
  unpack_robot_state_masterboard buf offset s = do
    let old = lt (get_version s) (lit 30 1)
    (m, offset) ← unpack_digital old buf offset s.mb_data
    m ← unpack_analog buf offset m
    m ← unpack_board buf (offset + 36) m
    m ←
        if m.euromap67_interface_installed == 0
        then ok m
        else unpack_euromap old buf (offset + 55) m
    ok (record s { mb_data = m })
