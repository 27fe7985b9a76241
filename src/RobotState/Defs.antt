-- ===== src/RobotState/Defs.antt =====
-- The state of the robot that the secondary port reports: include/ur_modern_driver/robot_state.h,
-- and the constructor and getters of src/robot_state.cpp.
use ur_modern_driver.Common.{ℕ, ◌+◌, ◌-◌, Bool, false, List, ◌==◌}
use ur_modern_driver.Double.{Platform}

-- `message_type`: the values that `unpack` looks for.
abbrev pub robot_state_message : ℕ
robot_state_message = 16

abbrev pub robot_message : ℕ
robot_message = 20

-- `package_type`.
abbrev pub robot_mode_package : ℕ
robot_mode_package = 0

abbrev pub masterboard_package : ℕ
masterboard_package = 3

-- `robot_message_type`.
abbrev pub robot_message_version : ℕ
robot_message_version = 3

-- The running mode of version 1.8 and of version 3.0.
abbrev pub running_mode_v18 : ℕ
running_mode_v18 = 0

abbrev pub running_mode_v30 : ℕ
running_mode_v30 = 7

-- Integers are the patterns of their bits; the arrays hold 15 and 25 bytes.
pub record VersionMessage : Type 0 where
  pub timestamp : ℕ
  pub source : ℕ
  pub robot_message_type : ℕ
  pub project_name_size : ℕ  -- int8_t
  pub project_name : List ℕ
  pub major_version : ℕ  -- uint8_t
  pub minor_version : ℕ  -- uint8_t
  pub svn_revision : ℕ  -- int
  pub build_date : List ℕ

pub record MasterboardData (D : Type 0) : Type 0 where
  pub digital_input_bits : ℕ  -- int
  pub digital_output_bits : ℕ  -- int
  pub analog_input_range0 : ℕ
  pub analog_input_range1 : ℕ
  pub analog_input0 : D
  pub analog_input1 : D
  pub analog_output_domain0 : ℕ
  pub analog_output_domain1 : ℕ
  pub analog_output0 : D
  pub analog_output1 : D
  pub master_board_temperature : D  -- float
  pub robot_voltage48_v : D  -- float
  pub robot_current : D  -- float
  pub master_io_current : D  -- float
  pub safety_mode : ℕ
  pub master_on_off_state : ℕ
  pub euromap67_interface_installed : ℕ
  pub euromap_input_bits : ℕ  -- int
  pub euromap_output_bits : ℕ  -- int
  pub euromap_voltage : D  -- float
  pub euromap_current : D  -- float

pub record RobotModeData (D : Type 0) : Type 0 where
  pub timestamp : ℕ
  pub is_robot_connected : Bool
  pub is_real_robot_enabled : Bool
  pub is_power_on_robot : Bool
  pub is_emergency_stopped : Bool
  pub is_protective_stopped : Bool
  pub is_program_running : Bool
  pub is_program_paused : Bool
  pub robot_mode : ℕ
  pub control_mode : ℕ
  pub target_speed_fraction : D
  pub speed_scaling : D

pub record RobotState (D : Type 0) : Type 0 where
  pub version_msg : VersionMessage
  pub mb_data : MasterboardData D
  pub robot_mode : RobotModeData D
  -- How often the one thread that uses the recursive mutex holds it.
  pub val_lock : ℕ
  pub new_data_available : Bool
  pub robot_mode_running : ℕ
  -- How often `pMsg_cond_` was notified.
  pub notified : ℕ

module _ {D : Type 0} where
  unfoldable pub set_disconnected : RobotState D → RobotState D
  set_disconnected s = record s {
    robot_mode = record (s.robot_mode) {
      is_robot_connected = false;
      is_real_robot_enabled = false;
      is_power_on_robot = false;
    };
  }

  -- The constructor sets few fields; the others are what the memory held.
  unfoldable pub new : RobotState D → RobotState D
  unfolding set_disconnected
  new memory = record (set_disconnected memory) {
    version_msg = record (memory.version_msg) { major_version = 0; minor_version = 0 };
    val_lock = 0;
    new_data_available = false;
    robot_mode_running = running_mode_v30;
  }

  unfoldable pub lock : RobotState D → RobotState D
  lock s = record s { val_lock = s.val_lock + 1 }

  unfoldable pub unlock : RobotState D → RobotState D
  unlock s = record s { val_lock = s.val_lock - 1 }

  unfoldable pub finished_reading : RobotState D → RobotState D
  finished_reading s = record s { new_data_available = false }

  unfoldable pub get_new_data_available : RobotState D → Bool
  get_new_data_available s = s.new_data_available

  unfoldable pub get_digital_input_bits : RobotState D → ℕ
  get_digital_input_bits s = s.mb_data.digital_input_bits

  unfoldable pub get_digital_output_bits : RobotState D → ℕ
  get_digital_output_bits s = s.mb_data.digital_output_bits

  unfoldable pub get_analog_input0 : RobotState D → D
  get_analog_input0 s = s.mb_data.analog_input0

  unfoldable pub get_analog_input1 : RobotState D → D
  get_analog_input1 s = s.mb_data.analog_input1

  unfoldable pub get_analog_output0 : RobotState D → D
  get_analog_output0 s = s.mb_data.analog_output0

  unfoldable pub get_analog_output1 : RobotState D → D
  get_analog_output1 s = s.mb_data.analog_output1

  unfoldable pub is_robot_connected : RobotState D → Bool
  is_robot_connected s = s.robot_mode.is_robot_connected

  unfoldable pub is_real_robot_enabled : RobotState D → Bool
  is_real_robot_enabled s = s.robot_mode.is_real_robot_enabled

  unfoldable pub is_power_on_robot : RobotState D → Bool
  is_power_on_robot s = s.robot_mode.is_power_on_robot

  unfoldable pub is_emergency_stopped : RobotState D → Bool
  is_emergency_stopped s = s.robot_mode.is_emergency_stopped

  unfoldable pub is_protective_stopped : RobotState D → Bool
  is_protective_stopped s = s.robot_mode.is_protective_stopped

  unfoldable pub is_program_running : RobotState D → Bool
  is_program_running s = s.robot_mode.is_program_running

  unfoldable pub is_program_paused : RobotState D → Bool
  is_program_paused s = s.robot_mode.is_program_paused

  unfoldable pub get_robot_mode : RobotState D → ℕ
  get_robot_mode s = s.robot_mode.robot_mode

  unfoldable pub is_ready : RobotState D → Bool
  is_ready s = s.robot_mode.robot_mode == s.robot_mode_running

module _ {D : Type 0} ⦃d : Platform D⦄ where
  open d use {lit, add, mul, of_int}

  -- The lock is taken and given back around this.
  unfoldable pub get_version : RobotState D → D
  get_version s =
      let msg = s.version_msg in
      add (add (of_int msg.major_version) (mul (lit 1 1) (of_int msg.minor_version)))
        (mul (lit 1 7) (of_int msg.svn_revision))
