-- ===== src/Ros/Checks.antt =====
-- What `goalCB` of src/ur_ros_wrapper.cpp asks of the robot and of a goal.
use ur_modern_driver.Common.{
  ℕ, suc, Bool, true, false, not, List, [], ◌∷◌, ◌++◌, Option, none, some, Outcome, ok, fault,
  ◌>>=◌, ◌==◌, if◌then◌else◌, length, text,
}
use ur_modern_driver.Double.{Platform}
use ur_modern_driver.RobotState.Defs.{
  RobotState, is_ready, is_power_on_robot, is_real_robot_enabled, is_emergency_stopped,
  is_protective_stopped, get_robot_mode,
}
use ur_modern_driver.RobotStateRt.Getters.{get_q_actual}
use ur_modern_driver.Driver.Defs.{UrDriver}
use ur_modern_driver.Driver.Trajectory.{at}
use ur_modern_driver.Ros.Defs.{Point, JointTrajectory, Result, invalid_goal, invalid_joints}
use ur_modern_driver.Ros.Joints.{validate_joint_names}

unfoldable pub spaced : List (List ℕ) → List ℕ
spaced [] = []
spaced (name ∷ names) = name ++ (text " " ++ spaced names)

module _ {D : Type 0} where
  unfoldable pub sizes_match : ℕ → List (Point D) → Bool
  sizes_match n [] = true
  sizes_match n (p ∷ ps) = if length p.positions == n then sizes_match n ps else false

  unfoldable pub has_positions : JointTrajectory D → Bool
  has_positions traj =
      if length traj.points == 0 then false else sizes_match (length traj.joint_names) traj.points

  unfoldable pub has_velocities : List (Point D) → Bool
  has_velocities [] = true
  has_velocities (p ∷ ps) =
      if length p.positions == length p.velocities then has_velocities ps else false

module _ {D : Type 0} ⦃d : Platform D⦄ where
  open d use {lit, lt, sub, fabs, is_finite, printed, printed_int}

  -- The loop over the joints of a point; the positions are read at the indices of the velocities.
  unfoldable pub point_is_finite : List D → List D → Outcome Bool
  point_is_finite positions [] = ok true
  point_is_finite [] (v ∷ vs) = fault
  point_is_finite (x ∷ xs) (v ∷ vs) =
      if not (is_finite x)
      then ok false
      else if not (is_finite v)
      then ok false
      else point_is_finite xs vs

  unfoldable pub traj_is_finite : List (Point D) → Outcome Bool
  traj_is_finite [] = ok true
  traj_is_finite (p ∷ ps) = do
    finite ← point_is_finite p.positions p.velocities
    if finite then traj_is_finite ps else ok false

  unfoldable pub velocities_limited : D → List D → Bool
  velocities_limited max_velocity [] = true
  velocities_limited max_velocity (v ∷ vs) =
      if lt max_velocity (fabs v) then false else velocities_limited max_velocity vs

  unfoldable pub has_limited_velocities : D → List (Point D) → Bool
  has_limited_velocities max_velocity [] = true
  has_limited_velocities max_velocity (p ∷ ps) =
      if velocities_limited max_velocity p.velocities
      then has_limited_velocities max_velocity ps
      else false

  -- The joints from `i` on against the realtime state, which is asked anew for each.
  unfoldable pub positions_match : D → ℕ → List D → UrDriver D → Outcome (Bool × UrDriver D)
  positions_match eps i [] drv = ok (true, drv)
  positions_match eps i (x ∷ xs) drv = do
    (q_actual, state) ← get_q_actual drv.rt_interface.robot_state
    let drv = record drv { rt_interface = record (drv.rt_interface) { robot_state = state } }
    q ← at q_actual i
    if lt eps (fabs (sub x q)) then ok (false, drv) else positions_match eps (suc i) xs drv

  unfoldable pub start_positions_match :
      JointTrajectory D → D → UrDriver D → Outcome (Bool × UrDriver D)
  start_positions_match traj eps drv = do
    p ← at traj.points 0
    positions_match eps 0 p.positions drv

  -- Why no goal is taken in this state of the robot, if so.
  unfoldable pub refusal : RobotState D → Option (List ℕ)
  refusal s =
      if not (is_ready s)
      then if not (is_power_on_robot s)
        then some (text "Cannot accept new trajectories: Robot arm is not powered on")
        else if not (is_real_robot_enabled s)
        then some (text "Cannot accept new trajectories: Robot is not enabled")
        else some (
            text "Cannot accept new trajectories. (Debug: Robot mode is "
            ++ (printed_int (get_robot_mode s) ++ text ")"))
      else if is_emergency_stopped s
      then some (text "Cannot accept new trajectories: Robot is emergency stopped")
      else if is_protective_stopped s
      then some (text "Cannot accept new trajectories: Robot is protective stopped")
      else none

  -- Why the goal itself is not taken, by the checks before the joints are put in order.
  unfoldable pub goal_error : List (List ℕ) → D → JointTrajectory D → Outcome (Option Result)
  goal_error actual max_velocity traj = do
    named ← validate_joint_names actual traj.joint_names
    if not named
        then ok (
            some (record {
              error_code = invalid_joints;
              error_string =
                  text "Received a goal with incorrect joint names: " ++ spaced traj.joint_names;
            }))
        else if not (has_positions traj)
        then ok (
            some (record {
              error_code = invalid_goal;
              error_string = text "Received a goal without positions";
            }))
        else if not (has_velocities traj.points)
        then ok (
            some (record {
              error_code = invalid_goal;
              error_string = text "Received a goal without velocities";
            }))
        else traj_is_finite traj.points >>= λ finite.
            if not finite
            then ok (
                some (record {
                  error_code = invalid_goal;
                  error_string = text "Received a goal with infinities or NaNs";
                }))
            else if not (has_limited_velocities max_velocity traj.points)
            then ok (
                some (record {
                  error_code = invalid_goal;
                  error_string =
                      text "Received a goal with velocities that are higher than "
                      ++ printed 6 max_velocity;
                }))
            else ok none
