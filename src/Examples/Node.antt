-- ===== src/Examples/Node.antt =====
-- The ROS node at concrete requests, parameters and states.
use ur_modern_driver.Common.{
  ℕ, List, none, ◌≤◌, ◌∷◌, [], ◌%◌, ◌^◌, ◌<◌, ◌≡◌, refl, true, false, ◌||◌, some, Returns,
  get_elem?,
}
use ur_modern_driver.Common.Int.{ℤ, pos}
use ur_modern_driver.Double.Fixed.{fixed}
use ur_modern_driver.RobotState.Defs.{is_emergency_stopped, is_protective_stopped}
use ur_modern_driver.RobotStateRt.Defs.{new as new_state, set_data_published}
use ur_modern_driver.RobotStateRt.Shape.{new-IsValid}
use ur_modern_driver.Ros.Defs.{RosWrapper}
use ur_modern_driver.Ros.Services.{set_io, requested, IsAnswered, set_io-sent}
use ur_modern_driver.Driver.Trajectory.{Look}
use ur_modern_driver.Ros.Setup.{Params}
use ur_modern_driver.Ros.Node.{reverse_port_of, reverse_port_of-bounds}
use ur_modern_driver.Ros.Board.{
  digital_states, value_of, bit, io_states, publish_board, digital_states-bits, publish_board-stops,
}
use ur_modern_driver.Ros.Motion.{Geometry, publish_rt}
use ur_modern_driver.Ros.Reports.{IsReport, publish_rt-reports}
use ur_modern_driver.Examples.SecondaryPort.{memory}
use ur_modern_driver.Examples.Control.{driver, one}
use ur_modern_driver.Examples.Goals.{goal, node}

set_io-sent_example : IsAnswered (requested 1 17 one) driver (set_io 1 17 one driver)
set_io-sent_example = set_io-sent 1 17 one driver

-- Only the gain is on the parameter server, and it is too high.
abbrev params : Params ℤ
params = record {
  prefix = none;
  use_ros_control = none;
  max_acceleration = none;
  max_velocity = none;
  min_payload = none;
  max_payload = none;
  servoj_time = none;
  servoj_lookahead_time = none;
  servoj_gain = some (pos 90_000_000_000);
  base_frame = none;
  tool_frame = none;
  hardware_joints = [];
}

reverse_port_of-bounds_example :
    (n : ℕ) × (reverse_port_of (some (pos 70_000)) ≡ pos n) × (1 ≤ n) × (n ≤ 65_534)
reverse_port_of-bounds_example = reverse_port_of-bounds (some (pos 70_000))

digital_states-bits_example :
    (value_of (digital_states 1_234_567 0 18) ≡ 1_234_567 % 2 ^ 18)
    × ((j : ℕ)
        → j < 18
        → get_elem? (digital_states 1_234_567 0 18) j
          ≡ some (record { pin = j; state = bit 1_234_567 j }))
digital_states-bits_example = digital_states-bits 1_234_567 18

-- An emergency stop while a goal is executed.
abbrev alarmed : RosWrapper ℤ
alarmed = record node {
  robot = record driver {
    executing_traj = true;
    sec_interface = record (driver.sec_interface) {
      robot_state = record memory {
        robot_mode = record (memory.robot_mode) { is_emergency_stopped = true };
      };
    };
  };
  goal_handle = some goal;
  has_goal = true;
}

alarm :
    (is_emergency_stopped alarmed.robot.sec_interface.robot_state
      || is_protective_stopped alarmed.robot.sec_interface.robot_state)
    ≡ true
unfolding is_emergency_stopped is_protective_stopped
alarm = refl

publish_board-stops_example :
    Returns
      (λ r.
        (r.0 ≡ io_states alarmed.robot.sec_interface.robot_state)
        × (r.1.has_goal ≡ false)
        × (alarmed.has_goal ≡ true → r.1.robot.executing_traj ≡ false)
        × (r.1.robot.sec_interface.robot_state.new_data_available ≡ false))
      (publish_board alarmed)
publish_board-stops_example = publish_board-stops alarmed alarm

-- Functions that compute stand for those of <cmath>.
abbrev geometry : Geometry ℤ
geometry = record { sqrt = λ x. x; sin = λ x. x; cos = λ x. one }

unlocked : node.robot.rt_interface.robot_state.val_lock ≡ false
unfolding new_state
unlocked = refl

publish_rt-reports_example :
    Returns
      (λ r.
        IsReport geometry node node.robot.rt_interface.robot_state r.0
        × (r.1.robot.rt_interface.robot_state
            ≡ set_data_published node.robot.rt_interface.robot_state))
      (publish_rt geometry node)
publish_rt-reports_example = publish_rt-reports geometry node unlocked (new-IsValid {D = ℤ}) refl

-- The clock of the thread that the goal's acceptance started, looked at twice.
abbrev clock : List (Look ℤ)
clock =
    record { elapsed = pos 5_000_000; stopped = false }
    ∷ record { elapsed = pos 30_000_000; stopped = false }
    ∷ []
