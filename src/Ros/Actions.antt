-- ===== src/Ros/Actions.antt =====
-- The action of `RosWrapper`: `goalCB`, `cancelCB`, `trajThread`, the stop of a trajectory in
-- `publishMbMsg`, and any order of them.
use ur_modern_driver.Common.{
  ℕ, suc, Bool, true, false, not, ◌||◌, List, [], ◌∷◌, ◌++◌, map, Option, none, some, Outcome, ok,
  ◌>>=◌, ◌==◌, if◌then◌else◌, take, drop, get_elem?, text,
}
use ur_modern_driver.Common.Int.{ℤ}
use ur_modern_driver.Double.{Platform}
use ur_modern_driver.RobotState.Defs.{is_emergency_stopped, is_protective_stopped}
use ur_modern_driver.RobotStateRt.Getters.{get_q_actual, get_qd_actual}
use ur_modern_driver.Driver.Defs.{UrDriver, get_joint_names, stop_traj}
use ur_modern_driver.Driver.Trajectory.{at, Look}
use ur_modern_driver.Driver.Program.{do_traj}
use ur_modern_driver.Ros.Defs.{
  Point, GoalHandle, Result, Call, accept, reject, abort, succeed, cancel, Task, RosWrapper,
  successful, invalid_goal, undefined_error,
}
use ur_modern_driver.Ros.Joints.{reorder_traj_joints}
use ur_modern_driver.Ros.Checks.{refusal, goal_error, start_positions_match}

pub data Event (D : Type 0) : Type 0 where
  goal_sent : GoalHandle D → Event D
  cancel_sent : GoalHandle D → Event D
  -- The thread at this place of the list comes to its end: what `accept` gave, and the looks at
  -- the clock.
  task_ran : ℕ → ℤ → List (Look D) → Event D
  board_reported : Event D
  -- Other threads of the driver and other calls have changed the robot.
  robot_changed : UrDriver D → Event D

module _ {D : Type 0} where
  -- A call on the handle of a goal.
  unfoldable pub call : ℕ → Call → RosWrapper D → RosWrapper D
  call id c ros = record ros { calls = (id, c) ∷ ros.calls }

  -- A call on `goal_handle_`.
  unfoldable pub add_call : Option (GoalHandle D) → Call → List (ℕ × Call) → List (ℕ × Call)
  add_call none c calls = calls
  add_call (some gh) c calls = (gh.id, c) ∷ calls

  unfoldable pub call_current : Call → RosWrapper D → RosWrapper D
  unfolding add_call
  call_current c ros = record ros { calls = add_call ros.goal_handle c ros.calls }

  unfoldable pub reject_goal : GoalHandle D → Result → RosWrapper D → RosWrapper D
  unfolding call
  reject_goal gh result ros = call gh.id (reject result) (record ros { result = result })

  unfoldable pub set_robot : UrDriver D → RosWrapper D → RosWrapper D
  set_robot drv ros = record ros { robot = drv }

  -- The goal that is executed is given up for a reason.
  unfoldable pub abort_goal : Result → RosWrapper D → RosWrapper D
  unfolding call_current
  abort_goal result ros =
      call_current (abort result) (record ros { result = result; has_goal = false })

  -- `gh == goal_handle_`.
  unfoldable pub is_current : GoalHandle D → Option (GoalHandle D) → Bool
  is_current gh none = false
  is_current gh (some now) = gh.id == now.id

  -- The end of `trajThread`: it does not look at what `doTraj` gave, and keeps the text that the last
  -- result had.
  unfoldable pub finish_task : RosWrapper D → RosWrapper D
  unfolding call_current
  finish_task ros =
      if ros.has_goal
      then (let result : Result = record (ros.result) { error_code = successful } in
          record (call_current (succeed result) (record ros { result = result })) {
            has_goal = false;
          })
      else ros

module _ {D : Type 0} ⦃d : Platform D⦄ where
  open d use {lit, eq}

  -- A new goal takes the place of the one that is executed.
  unfoldable pub preempt : RosWrapper D → Outcome (RosWrapper D)
  preempt ros =
      if ros.has_goal
      then (do
        drv ← stop_traj ros.robot
        ok (
            abort_goal
              (record {
                error_code = undefined_error;
                error_string = text "Received another trajectory";
              })
              (set_robot drv ros)))
      else ok ros

  -- What the thread is given: the points of the goal, behind the robot's position if the first one
  -- is not at time 0.
  unfoldable pub make_task : List (Point D) → UrDriver D → Outcome (Task D × UrDriver D)
  make_task points drv = do
    first ← at points 0
    let task : Task D = record {
      timestamps = map (λ p. p.time_from_start) points;
      positions = map (λ p. p.positions) points;
      velocities = map (λ p. p.velocities) points;
    }
    if not (eq first.time_from_start (lit 0 0))
        then (do
          (q, state) ← get_q_actual drv.rt_interface.robot_state
          (qd, state) ← get_qd_actual state
          let drv = record drv { rt_interface = record (drv.rt_interface) { robot_state = state } }
          let longer : Task D = record {
            timestamps = lit 0 0 ∷ task.timestamps;
            positions = q ∷ task.positions;
            velocities = qd ∷ task.velocities;
          }
          ok (longer, drv))
        else ok (task, drv)

  unfoldable pub accept_goal : GoalHandle D → Task D → RosWrapper D → RosWrapper D
  unfolding call
  accept_goal gh task ros =
      call gh.id accept (record ros { has_goal = true; tasks = task ∷ ros.tasks })

  -- The checks have passed: the joints are put in order and the start is compared to the robot's.
  unfoldable pub take_goal : GoalHandle D → RosWrapper D → Outcome (RosWrapper D)
  take_goal gh ros = do
    traj ← reorder_traj_joints (get_joint_names ros.robot) gh.trajectory
    (here, drv) ← start_positions_match traj (lit 1 2) ros.robot
    if not here
        then ok (
            reject_goal gh
              (record {
                error_code = invalid_goal;
                error_string = text "Goal start doesn't match current pose";
              })
              (set_robot drv ros))
        else (do
          (task, drv) ← make_task traj.points drv
          ok (accept_goal gh task (set_robot drv ros)))

  unfoldable pub examine_goal : GoalHandle D → RosWrapper D → Outcome (RosWrapper D)
  examine_goal gh ros = do
    let ros = record ros { goal_handle = some gh }
    error ← goal_error (get_joint_names ros.robot) ros.max_velocity gh.trajectory
    elim error [ some result ↦ ok (reject_goal gh result ros) | none ↦ take_goal gh ros ]

  unfoldable pub goal_cb : GoalHandle D → RosWrapper D → Outcome (RosWrapper D)
  goal_cb gh ros = elim (refusal ros.robot.sec_interface.robot_state) [
    | some reason ↦
        ok (reject_goal gh (record { error_code = undefined_error; error_string = reason }) ros)
    | none ↦ preempt ros >>= examine_goal gh
  ]

  unfoldable pub cancel_cb : GoalHandle D → RosWrapper D → Outcome (RosWrapper D)
  unfolding call
  cancel_cb gh ros = do
    ros ←
        if ros.has_goal
        then if is_current gh ros.goal_handle
          then (do drv ← stop_traj ros.robot; ok (record ros { robot = drv; has_goal = false }))
          else ok ros
        else ok ros
    let result : Result = record {
      error_code = undefined_error;
      error_string = text "Goal cancelled by client";
    }
    ok (call gh.id (cancel result) (record ros { result = result }))

  unfoldable pub traj_thread : ℤ → List (Look D) → Task D → RosWrapper D → Outcome (RosWrapper D)
  traj_thread new_sockfd looks task ros = do
    (done, drv) ← do_traj new_sockfd looks task.timestamps task.positions task.velocities ros.robot
    ok (finish_task (set_robot drv ros))

  -- A round of `publishMbMsg` after the message: in an emergency or protective stop the goal is
  -- given up.
  unfoldable pub watch_robot : RosWrapper D → Outcome (RosWrapper D)
  watch_robot ros =
      let s = ros.robot.sec_interface.robot_state in
      if is_emergency_stopped s || is_protective_stopped s
      then if ros.has_goal
        then (do
          drv ← stop_traj ros.robot
          ok (
              abort_goal
                (record { error_code = successful; error_string = text "Robot was halted" })
                (set_robot drv ros)))
        else ok ros
      else ok ros

  unfoldable pub run_task : ℕ → ℤ → List (Look D) → RosWrapper D → Outcome (RosWrapper D)
  run_task i new_sockfd looks ros = elim (get_elem? ros.tasks i) [
    | none ↦ ok ros
    | some task ↦
        traj_thread new_sockfd looks task
          (record ros { tasks = take i ros.tasks ++ drop (suc i) ros.tasks })
  ]

  unfoldable pub step : Event D → RosWrapper D → Outcome (RosWrapper D)
  step (goal_sent gh) ros = goal_cb gh ros
  step (cancel_sent gh) ros = cancel_cb gh ros
  step (task_ran i new_sockfd looks) ros = run_task i new_sockfd looks ros
  step board_reported ros = watch_robot ros
  step (robot_changed drv) ros = ok (set_robot drv ros)

  unfoldable pub run : List (Event D) → RosWrapper D → Outcome (RosWrapper D)
  run [] ros = ok ros
  run (e ∷ es) ros = do ros ← step e ros; run es ros
