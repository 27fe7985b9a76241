-- ===== src/Examples/Goals.antt =====
-- The action of the ROS node at concrete goals.
use ur_modern_driver.Common.{
  ℕ, ◌<◌, ◌≡◌, ◌↔◌, inl, inr, refl, true, false, List, [], ◌∷◌, none, some, ok, fault, text,
  Returns, length, All, replicate,
}
use ur_modern_driver.Common.Int.{ℤ, pos, negsuc}
use mathlib.Core.List.{Perm}
use mathlib.Core.List.Perm
use ur_modern_driver.Double.Fixed.{fixed, fixed-IsOrdered}
use ur_modern_driver.RobotState.Defs.{is_ready, is_emergency_stopped, is_protective_stopped}
use ur_modern_driver.RobotStateRt.Defs.{new as new_state}
use ur_modern_driver.Realtime.Defs.{add_command_to_queue}
use ur_modern_driver.RobotStateRt.Getters.{get_q_actual, get_qd_actual, locked}
use ur_modern_driver.RobotStateRt.Defs.{lock, unlock}
use ur_modern_driver.Driver.Defs.{get_joint_names, stop_traj, send}
use ur_modern_driver.Ros.Defs.{
  Point, JointTrajectory, GoalHandle, Result, RosWrapper, Task, accept, cancel, equal_text,
}
use ur_modern_driver.Ros.Joints.{
  validate_joint_names, match_names, find_name, reorder_traj_joints, name_mapping, map_names,
  map_name, pick, reorder_point, reorder_points, reorder_accelerations,
}
use ur_modern_driver.Ros.Checks.{
  goal_error, refusal, has_positions, sizes_match, has_velocities, traj_is_finite, point_is_finite,
  has_limited_velocities, velocities_limited, start_positions_match, positions_match,
}
use ur_modern_driver.Ros.Actions.{
  goal_sent, cancel_sent, examine_goal, run, step, goal_cb, preempt, take_goal, make_task,
  accept_goal, call, set_robot, cancel_cb, is_current,
}
use ur_modern_driver.Ros.OpenGoals.{IsHonest, open_goals, executed}
use ur_modern_driver.Ros.Goals.{run-IsHonest}
use ur_modern_driver.Ros.Matching.{validate_joint_names-Perm, validate_joint_names-overreads}
use ur_modern_driver.Ros.Reordering.{IsFull, AreReordered, reorder_traj_joints-moves}
use ur_modern_driver.Ros.Accepted.{IsSized, IsSafePoint, goal_error-checks}
use ur_modern_driver.Ros.Handover.{IsReadable, IsHanded, examine_goal-hands}
use ur_modern_driver.Examples.SecondaryPort.{memory}
use ur_modern_driver.Examples.Control.{driver, one, six}

abbrev pub actual : List (List ℕ)
actual = text "a" ∷ text "b" ∷ text "c" ∷ text "d" ∷ text "e" ∷ text "f" ∷ []

abbrev pub given : List (List ℕ)
given = text "b" ∷ text "a" ∷ text "c" ∷ text "d" ∷ text "e" ∷ text "f" ∷ []

pub swapped : Perm given actual
swapped = Perm.swap (text "a") (text "b") (text "c" ∷ text "d" ∷ text "e" ∷ text "f" ∷ [])

validate_joint_names-Perm_example :
    (validate_joint_names actual given ≡ ok true) ↔ Perm given actual
validate_joint_names-Perm_example = validate_joint_names-Perm actual given

-- The one name is not that of the driver.
different : ¬ Perm (text "x" ∷ []) (text "a" ∷ [])
unfolding validate_joint_names match_names find_name equal_text
different p =
    let taken : fault ≡ ok true = (validate_joint_names-Perm (text "a" ∷ []) (text "x" ∷ [])).1 p in
    absurd cc

validate_joint_names-overreads_example :
    validate_joint_names (text "a" ∷ []) (text "x" ∷ []) ≡ fault
validate_joint_names-overreads_example =
    validate_joint_names-overreads (text "a" ∷ []) (text "x" ∷ []) refl different

abbrev point : ℤ → Point ℤ
point t = record { positions = six; velocities = six; accelerations = six; time_from_start = t }

abbrev trajectory : JointTrajectory ℤ
trajectory = record { joint_names = given; points = point (pos 0) ∷ point one ∷ [] }

full : All (IsFull given) trajectory.points
full = (
  record { positions = refl; velocities = refl; accelerations = inr refl },
  (record { positions = refl; velocities = refl; accelerations = inr refl }, tt),
)

reorder_traj_joints-moves_example :
    Returns
      (λ t. (t.joint_names ≡ actual) × AreReordered actual given trajectory.points t.points)
      (reorder_traj_joints actual trajectory)
reorder_traj_joints-moves_example = reorder_traj_joints-moves actual trajectory swapped full

goal_error-checks_example :
    Returns
      (λ error.
        error ≡ none
        → (0 < length trajectory.points)
          × All (IsSized (length trajectory.joint_names)) trajectory.points
          × All (IsSafePoint (pos 100_000_000)) trajectory.points)
      (goal_error actual (pos 100_000_000) trajectory)
goal_error-checks_example = goal_error-checks actual (pos 100_000_000) trajectory swapped

abbrev pub goal : GoalHandle ℤ
goal = record { id = 7; trajectory = trajectory }

abbrev pub node : RosWrapper ℤ
node = record {
  robot = record driver { joint_names = actual };
  goal_handle = none;
  has_goal = false;
  result = record { error_code = pos 0; error_string = [] };
  io_flag_delay = pos 500_000;
  max_velocity = pos 100_000_000;
  joint_offsets = replicate 6 (pos 0);
  base_frame = [];
  tool_frame = [];
  use_ros_control = false;
  tasks = [];
  calls = [];
}

pub readable : IsReadable node.robot
unfolding new_state
readable = record { free = refl; joints = refl; speeds = refl }

-- A robot that is ready, a goal that starts where it stands, and the cancellation of that goal.
abbrev ready : RosWrapper ℤ
ready = record node {
  robot = record driver {
    joint_names = actual;
    sec_interface = record (driver.sec_interface) {
      robot_state = record memory { robot_mode_running = 0 };
    };
  };
}

abbrev still : Point ℤ
still = record {
  positions = replicate 6 (pos 0);
  velocities = replicate 6 (pos 0);
  accelerations = [];
  time_from_start = pos 0;
}

-- A goal that starts where the robot stands, but not at the time 0.
abbrev pub later : GoalHandle ℤ
later = record {
  id = 8;
  trajectory = record {
    joint_names = given;
    points =
        record still { time_from_start = one }
        ∷ record still { time_from_start = pos 20_000_000 }
        ∷ [];
  };
}

examine_goal-hands_example : Returns (IsHanded later node) (examine_goal later node)
examine_goal-hands_example =
    examine_goal-hands fixed-IsOrdered later node refl swapped (inl refl, (inl refl, tt)) readable

-- It is accepted, and its thread is given the robot's position at the time 0 before the two points.
abbrev pub given_task : Task ℤ
given_task = record {
  timestamps = pos 0 ∷ one ∷ pos 20_000_000 ∷ [];
  positions = replicate 3 (replicate 6 (pos 0));
  velocities = replicate 3 (replicate 6 (pos 0));
}

abbrev pub taken : RosWrapper ℤ
taken = record node {
  goal_handle = some later;
  has_goal = true;
  tasks = given_task ∷ [];
  calls = (8, accept) ∷ [];
}

pub takes : examine_goal later node ≡ ok taken
unfolding examine_goal goal_error validate_joint_names match_names find_name equal_text
    has_positions sizes_match has_velocities traj_is_finite point_is_finite has_limited_velocities
    velocities_limited take_goal reorder_traj_joints name_mapping map_names map_name pick
    reorder_point reorder_points reorder_accelerations start_positions_match positions_match
    make_task accept_goal call get_joint_names get_q_actual get_qd_actual locked lock unlock
    new_state set_robot
takes = refl

abbrev stay : GoalHandle ℤ
stay = record { id = 7; trajectory = record { joint_names = actual; points = still ∷ [] } }

abbrev cancelled : Result
cancelled = record { error_code = negsuc 99; error_string = text "Goal cancelled by client" }

abbrev ended : RosWrapper ℤ
ended = record ready {
  robot = record (ready.robot) {
    rt_interface = record (ready.robot.rt_interface) { sent = text "stopj(10)\n" ∷ [] };
  };
  goal_handle = some stay;
  result = cancelled;
  tasks =
      record {
        timestamps = pos 0 ∷ [];
        positions = replicate 6 (pos 0) ∷ [];
        velocities = replicate 6 (pos 0) ∷ [];
      }
      ∷ [];
  calls = (7, cancel cancelled) ∷ (7, accept) ∷ [];
}

goes : run (goal_sent stay ∷ cancel_sent stay ∷ []) ready ≡ ok ended
unfolding run step goal_cb refusal is_ready is_emergency_stopped is_protective_stopped preempt
    examine_goal goal_error validate_joint_names match_names find_name equal_text has_positions
    sizes_match has_velocities traj_is_finite point_is_finite has_limited_velocities
    velocities_limited take_goal reorder_traj_joints name_mapping map_names map_name pick
    reorder_point reorder_points reorder_accelerations start_positions_match positions_match
    make_task accept_goal call set_robot cancel_cb is_current get_joint_names stop_traj send
    add_command_to_queue get_q_actual locked lock unlock new_state
goes = refl

honest : IsHonest ready
unfolding open_goals executed
honest = refl

run-IsHonest_example : IsHonest ended
run-IsHonest_example = run-IsHonest (goal_sent stay ∷ cancel_sent stay ∷ []) ready ended honest goes
