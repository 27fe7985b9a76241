-- ===== src/Examples/SecondaryPort.antt =====
-- The secondary port at concrete messages.
use ur_modern_driver.Common.{
  ℕ, ◌≡◌, refl, inr, true, false, List, [], ◌∷◌, ◌++◌, ok, stuck, ◌>>=◌, arith, replicate, load,
  swap_bytes,
}
use ur_modern_driver.Common.Int.{ℤ, pos}
use ur_modern_driver.Double.Fixed.{fixed}
use ur_modern_driver.RobotState.Defs.{RobotState, new, robot_state_message}
use ur_modern_driver.RobotState.Packages.{load_swapped}
use ur_modern_driver.RobotState.Unpack.{
  unpack_package, unpack_robot_state, unpack_message, message_loop, unpack, message_round,
  package_loop, package_round,
}
use ur_modern_driver.RobotState.Framing.{
  Frame, AreFrames, for_frames, announce, unpack_robot_state-eq-for_frames,
  unpack_robot_state_skips,
}
use ur_modern_driver.RobotState.Messages.{IsTail, unpack-eq-for_frames, message_loop-stays}
use ur_modern_driver.RobotState.VersionInvariant.{IsHeld}
use ur_modern_driver.RobotState.Invariant.{unpack-IsHeld}

-- Memory before the constructor.
abbrev pub memory : RobotState ℤ
memory = record {
  version_msg = record {
    timestamp = 0;
    source = 0;
    robot_message_type = 0;
    project_name_size = 0;
    project_name = replicate 15 0;
    major_version = 9;
    minor_version = 9;
    svn_revision = 0;
    build_date = replicate 25 0;
  };
  mb_data = record {
    digital_input_bits = 0;
    digital_output_bits = 0;
    analog_input_range0 = 0;
    analog_input_range1 = 0;
    analog_input0 = pos 0;
    analog_input1 = pos 0;
    analog_output_domain0 = 0;
    analog_output_domain1 = 0;
    analog_output0 = pos 0;
    analog_output1 = pos 0;
    master_board_temperature = pos 0;
    robot_voltage48_v = pos 0;
    robot_current = pos 0;
    master_io_current = pos 0;
    safety_mode = 0;
    master_on_off_state = 0;
    euromap67_interface_installed = 0;
    euromap_input_bits = 0;
    euromap_output_bits = 0;
    euromap_voltage = pos 0;
    euromap_current = pos 0;
  };
  robot_mode = record {
    timestamp = 0;
    is_robot_connected = true;
    is_real_robot_enabled = true;
    is_power_on_robot = true;
    is_emergency_stopped = false;
    is_protective_stopped = false;
    is_program_running = false;
    is_program_paused = false;
    robot_mode = 0;
    control_mode = 0;
    target_speed_fraction = pos 0;
    speed_scaling = pos 0;
  };
  val_lock = 5;
  new_data_available = true;
  robot_mode_running = 3;
  notified = 0;
}

abbrev pub state : RobotState ℤ
state = new memory

pub state-IsHeld : IsHeld 0 state
unfolding new
state-IsHeld = record {
  depth = refl;
  sized = record { name = refl; date = refl };
  running = inr refl;
}

-- A state message with one robot mode package, and then the first bytes of another message.
abbrev buffer : List ℕ
buffer = (0 ∷ 0 ∷ 0 ∷ 43 ∷ 16 ∷ 0 ∷ 0 ∷ 0 ∷ 38 ∷ 0 ∷ replicate 33 1) ++ (0 ∷ 0 ∷ 0 ∷ 9 ∷ [])

abbrev state_frame : Frame
state_frame = record { kind = robot_state_message; size = 43 }

abbrev mode_frame : Frame
mode_frame = record { kind = 0; size = 38 }

messages : AreFrames buffer 0 43 (state_frame ∷ [])
unfolding load_swapped load swap_bytes
messages = (refl, refl, omega arith, omega arith, refl)

packages : AreFrames buffer 5 43 (mode_frame ∷ [])
unfolding load_swapped load swap_bytes
packages = (refl, refl, omega arith, omega arith, refl)

tail : IsTail buffer 47 43
unfolding load_swapped load swap_bytes
tail = inr (9, omega arith, refl, omega arith, omega arith)

unpack-eq-for_frames_example :
    unpack buffer 47 state
    ≡ for_frames (λ f o. unpack_message f.kind buffer o f.size) 0 (state_frame ∷ []) state
unpack-eq-for_frames_example =
    unpack-eq-for_frames buffer 47 43 (state_frame ∷ []) state (omega arith) (omega arith)
      (omega arith) messages tail

unpack_robot_state-eq-for_frames_example : unpack_robot_state buffer 0 43 state ≡ (
    for_frames (λ f o. unpack_package f.kind buffer o) 5 (mode_frame ∷ []) state >>= λ s'.
    ok (announce s'))
unpack_robot_state-eq-for_frames_example =
    unpack_robot_state-eq-for_frames buffer 43 (mode_frame ∷ []) state (omega arith) (omega arith)
      packages

-- The same message behind one of 43 bytes.
unpack_robot_state_skips_example :
    unpack_robot_state (replicate 43 0 ++ buffer) 43 43 state ≡ ok (announce state)
unpack_robot_state_skips_example =
    unpack_robot_state_skips (replicate 43 0 ++ buffer) 43 43 state (omega arith) (omega arith)

-- Zeros: a message of length 0 and type 0.
zero_length : load_swapped 4 (replicate 8 0) 0 ≡ ok 0
unfolding load_swapped load swap_bytes
zero_length = refl

zero_type : load 1 (replicate 8 0) 4 ≡ ok 0
unfolding load
zero_type = refl

message_loop-stays_example : message_loop 1_000 (replicate 8 0) 8 0 state ≡ stuck
message_loop-stays_example =
    message_loop-stays 1_000 (replicate 8 0) 8 0 0 state (omega arith) (omega arith) zero_length
      zero_type (λ e. omega (arith, e)) (λ e. omega (arith, e))

-- A state message with joint data, which nobody reads.
abbrev joints : List ℕ
joints = 0 ∷ 0 ∷ 0 ∷ 10 ∷ 16 ∷ 0 ∷ 0 ∷ 0 ∷ 5 ∷ 1 ∷ []

ends : unpack joints 10 state ≡ ok (announce state)
unfolding unpack message_loop message_round unpack_message unpack_robot_state package_loop
    package_round unpack_package load_swapped load swap_bytes
ends = refl

unpack-IsHeld_example : IsHeld 0 (announce state)
unpack-IsHeld_example = unpack-IsHeld 0 joints 10 state (announce state) state-IsHeld ends
