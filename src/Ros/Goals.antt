-- ===== src/Ros/Goals.antt =====
-- Goals and answers: what the calls on the handles of goals come to, in any order of events.
use ur_modern_driver.Common.{
  ◌≡◌, refl, ap, false, not, ◌||◌, List, [], ◌∷◌, none, some, ok, ◌>>=◌, Keeps, kept, Keeps-bind,
  Keeps-any, Keeps-if, Keeps-value, Option-cases, inl, inr, get_elem?,
}
use ur_modern_driver.Common.Int.{ℤ}
use ur_modern_driver.Double.{Platform}
use ur_modern_driver.RobotState.Defs.{is_emergency_stopped, is_protective_stopped}
use ur_modern_driver.Driver.Defs.{UrDriver, stop_traj, get_joint_names}
use ur_modern_driver.Driver.Program.{do_traj}
use ur_modern_driver.Driver.Trajectory.{Look}
use ur_modern_driver.Ros.Defs.{GoalHandle, Result, cancel, Task, RosWrapper, undefined_error}
use ur_modern_driver.Ros.Joints.{reorder_traj_joints}
use ur_modern_driver.Ros.Checks.{refusal, goal_error, start_positions_match}
use ur_modern_driver.Ros.Actions.{
  Event, goal_sent, cancel_sent, task_ran, board_reported, robot_changed, call, reject_goal,
  set_robot, preempt, make_task, accept_goal, take_goal, examine_goal, goal_cb, is_current,
  cancel_cb, traj_thread, watch_robot, run_task, step, run,
}
use ur_modern_driver.Ros.OpenGoals.{
  without, after, open_goals, executed, IsHonest, cancel-closes, reject_goal-IsHonest,
  abort_goal-IsHonest, finish_task-IsHonest,
}

module _ {D : Type 0} ⦃d : Platform D⦄ where
  open d use {lit}

  accept_goal-IsHonest :
      (gh : GoalHandle D) (task : Task D) (drv : UrDriver D) (ros : RosWrapper D)
      → ros.goal_handle ≡ some gh
      → ros.has_goal ≡ false
      → IsHonest ros
      → IsHonest (accept_goal gh task (set_robot drv ros))
  unfolding accept_goal set_robot call open_goals after executed
  accept_goal-IsHonest gh task drv ros e h i =
      let none_open : open_goals ros.calls ≡ [] = rw h at i in rw (e) (ap (◌∷◌ gh.id) none_open)

  set_robot-IsHonest :
      (drv : UrDriver D) (ros : RosWrapper D) → IsHonest ros → IsHonest (set_robot drv ros)
  unfolding set_robot
  set_robot-IsHonest drv ros i = i

  take_goal-IsHonest :
      (gh : GoalHandle D) (ros : RosWrapper D)
      → ros.goal_handle ≡ some gh
      → ros.has_goal ≡ false
      → IsHonest ros
      → Keeps IsHonest (take_goal gh ros)
  unfolding take_goal
  take_goal-IsHonest gh ros e h i =
      Keeps-any (reorder_traj_joints (get_joint_names ros.robot) gh.trajectory) λ traj.
        Keeps-any (start_positions_match traj (lit 1 2) ros.robot) λ (here, drv).
          Keeps-if (not here)
            (λ _. kept (reject_goal-IsHonest gh _ _ (set_robot-IsHonest drv ros i)))
            (λ _.
              Keeps-any (make_task traj.points drv)
                λ (task, drv'). kept (accept_goal-IsHonest gh task drv' ros e h i))

  examine_goal-IsHonest :
      (gh : GoalHandle D) (ros : RosWrapper D)
      → (ros.has_goal ≡ false) × IsHonest ros
      → Keeps IsHonest (examine_goal gh ros)
  unfolding examine_goal executed
  examine_goal-IsHonest gh ros (h, i) =
      let ros' = record ros { goal_handle = some gh } in
      let i' : IsHonest ros' = rw h (rw h at i) in
      Keeps-any (goal_error (get_joint_names ros.robot) ros.max_velocity gh.trajectory) λ error.
        elim error
          as (λ error. Keeps (IsHonest {D = D}) (elim error [
            | some result ↦ ok (reject_goal gh result ros')
            | none ↦ take_goal gh ros'
          ])) [
            | some result ↦ kept (reject_goal-IsHonest gh result ros' i')
            | none ↦ take_goal-IsHonest gh ros' refl h i'
          ]

  preempt-IsHonest :
      (ros : RosWrapper D)
      → IsHonest ros
      → Keeps (λ t. (t.has_goal ≡ false) × IsHonest t) (preempt ros)
  unfolding preempt set_robot
  preempt-IsHonest ros i =
      Keeps-if ros.has_goal
        (λ h.
          Keeps-any (stop_traj ros.robot) λ drv.
            kept (abort_goal-IsHonest _ (set_robot drv ros) h (set_robot-IsHonest drv ros i)))
        (λ h. kept (h, i))

  goal_cb-IsHonest :
      (gh : GoalHandle D) (ros : RosWrapper D) → IsHonest ros → Keeps IsHonest (goal_cb gh ros)
  unfolding goal_cb
  goal_cb-IsHonest gh ros i =
      elim (refusal ros.robot.sec_interface.robot_state)
        as (λ r. Keeps (IsHonest {D = D}) (elim r [
          | some reason ↦
              ok (
                reject_goal gh (record { error_code = undefined_error; error_string = reason }) ros)
          | none ↦ preempt ros >>= examine_goal gh
        ])) [
          | some reason ↦ kept (reject_goal-IsHonest gh _ ros i)
          | none ↦ Keeps-bind (preempt-IsHonest ros i) λ t w. examine_goal-IsHonest gh t w
        ]

  -- Ready for the handle's `setCanceled`.
  MayCancel : GoalHandle D → RosWrapper D → Type 0
  MayCancel gh ros =
      (result : Result)
      → open_goals ((gh.id, cancel result) ∷ ros.calls) ≡ executed ros.has_goal ros.goal_handle

  cancel_cb-IsHonest :
      (gh : GoalHandle D) (ros : RosWrapper D) → IsHonest ros → Keeps IsHonest (cancel_cb gh ros)
  unfolding cancel_cb call MayCancel open_goals after executed without
  cancel_cb-IsHonest gh ros i =
      Keeps-bind {P = MayCancel gh}
        (Keeps-if ros.has_goal
          (λ h.
            let closes = cancel-closes gh ros.goal_handle in
            Keeps-if (is_current gh ros.goal_handle)
              (λ e.
                Keeps-any (stop_traj ros.robot)
                  λ drv. kept λ result. rw e at (closes result ros.calls (rw h at i)))
              (λ e. kept λ result. rw h (rw e at (closes result ros.calls (rw h at i)))))
          (λ h. kept λ result. rw h (ap (without gh.id) (rw h at i))))
        (λ t may. kept (may t.result))

  watch_robot-IsHonest : (ros : RosWrapper D) → IsHonest ros → Keeps IsHonest (watch_robot ros)
  unfolding watch_robot set_robot
  watch_robot-IsHonest ros i =
      let s = ros.robot.sec_interface.robot_state in
      Keeps-if (is_emergency_stopped s || is_protective_stopped s)
        (λ _.
          Keeps-if ros.has_goal
            (λ h. Keeps-any (stop_traj ros.robot) λ drv.
              kept (abort_goal-IsHonest _ (set_robot drv ros) h (set_robot-IsHonest drv ros i)).1)
            (λ h. kept i))
        (λ _. kept i)

  traj_thread-IsHonest :
      (fd : ℤ) (looks : List (Look D)) (task : Task D) (ros : RosWrapper D)
      → IsHonest ros
      → Keeps IsHonest (traj_thread fd looks task ros)
  unfolding traj_thread
  traj_thread-IsHonest fd looks task ros i =
      Keeps-any (do_traj fd looks task.timestamps task.positions task.velocities ros.robot)
        λ (done, drv). kept (finish_task-IsHonest _ (set_robot-IsHonest drv ros i))

  step-IsHonest : (e : Event D) (ros : RosWrapper D) → IsHonest ros → Keeps IsHonest (step e ros)
  unfolding step run_task
  step-IsHonest (goal_sent gh) ros i = goal_cb-IsHonest gh ros i
  step-IsHonest (cancel_sent gh) ros i = cancel_cb-IsHonest gh ros i
  step-IsHonest (task_ran n fd looks) ros i = elim (Option-cases (get_elem? ros.tasks n)) [
    | inl e ↦ rw (e, run_task) (kept i)
    | inr (task, e) ↦ rw (e, run_task) (traj_thread-IsHonest fd looks task _ i)
  ]
  step-IsHonest board_reported ros i = watch_robot-IsHonest ros i
  step-IsHonest (robot_changed drv) ros i = kept (set_robot-IsHonest drv ros i)

  run-Keeps :
      (es : List (Event D)) (ros : RosWrapper D) → IsHonest ros → Keeps IsHonest (run es ros)
  unfolding run
  run-Keeps [] ros i = kept i
  run-Keeps (e ∷ es) ros i = Keeps-bind (step-IsHonest e ros i) λ t w. run-Keeps es t w

  -- Whatever goals and cancellations come, whichever threads end and whatever the robot reports, in
  -- whatever order: of the goals that were accepted, those that were not aborted, cancelled or
  -- answered with success since are the one that the node says it executes, or none where it
  -- says that it executes none. So two goals are never open, and none is forgotten.
  pub run-IsHonest :
      (es : List (Event D)) (ros t : RosWrapper D) → IsHonest ros → run es ros ≡ ok t → IsHonest t
  run-IsHonest es ros t i e = Keeps-value t (run-Keeps es ros i) e
