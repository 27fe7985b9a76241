-- ===== src/Ros/Node.antt =====
-- The threads of the node: the end of the constructor of `RosWrapper`, `halt`, and `main` of
-- src/ur_ros_wrapper.cpp.
use ur_modern_driver.Common.{
  ℕ, ◌≤◌, ◌≡◌, refl, Bool, true, false, List, [], ◌∷◌, Option, none, some, Outcome, ok, fault,
  stuck, ◌>>=◌, ◌||◌, if◌then◌else◌, arith, Bool-cases, inl, inr, Returns, returns, Returns-bind,
  Returns-value,
}
use ur_modern_driver.Common.Int.{ℤ, pos, negsuc, leb_ℤ}
use ur_modern_driver.Double.{Platform}
use ur_modern_driver.Driver.Defs.{UrDriver}
use ur_modern_driver.Driver.Life.{
  Answers, start as start_driver, halt as halt_driver, start-IsUp, halt-joins,
}
use ur_modern_driver.Ros.Defs.{RosWrapper}

-- The node with its threads: which publishing or control thread was started.
pub record Node (D : Type 0) : Type 0 where
  pub ros : RosWrapper D
  pub rt_publish_thread : Bool
  pub mb_publish_thread : Bool
  pub ros_control_thread : Bool

-- Which of the threads that `halt` joins come to their ends: those of the two ports, and the one
-- that publishes the realtime state, which may wait for a message for ever.
pub record Ended : Type 0 where
  pub sec : Bool
  pub rt : Bool
  pub rt_publish : Bool

abbrev pub all_ended : Ended
all_ended = record { sec = true; rt = true; rt_publish = true }

module _ {D : Type 0} ⦃d : Platform D⦄ where
  -- The rest of the constructor: the robot is started, and then the threads.
  unfoldable pub launch : Answers → RosWrapper D → Outcome (Node D)
  launch a ros = do
    (up, drv) ← start_driver a ros.robot
    let ros : RosWrapper D = record ros { robot = drv }
    if up
        then if ros.use_ros_control
          then ok (record {
            ros = ros;
            rt_publish_thread = false;
            mb_publish_thread = true;
            ros_control_thread = true;
          })
          else ok (record {
            ros = record ros { has_goal = false };
            rt_publish_thread = true;
            mb_publish_thread = true;
            ros_control_thread = false;
          })
        else ok (record {
          ros = ros;
          rt_publish_thread = false;
          mb_publish_thread = false;
          ros_control_thread = false;
        })

  -- `rt_publish_thread_` is set only where the thread is started, and the thread that publishes the
  -- board is not joined. `join` waits for ever if the thread does not come to its end.
  unfoldable pub halt : Ended → Node D → Outcome (Node D)
  halt ended node = do
    drv ← halt_driver ended.sec ended.rt node.ros.robot
    let ros = record (node.ros) { robot = drv }
    if node.rt_publish_thread
        then if ended.rt_publish
          then ok (record node { ros = ros; rt_publish_thread = false })
          else stuck
        else fault

-- `main`: the port for the reverse connection.
unfoldable pub reverse_port_of : Option ℤ → ℤ
reverse_port_of none = pos 50_001
reverse_port_of (some port) =
    if leb_ℤ port (pos 0) || leb_ℤ (pos 65_535) port then pos 50_001 else port

-- `main`: the robot's address, from the parameter or else from the command line; without one the
-- program ends.
unfoldable host_of : Option (List ℕ) → List (List ℕ) → Option (List ℕ)
host_of (some host) args = some host
host_of none [] = none
host_of none (arg ∷ args) = some arg

-- Whatever the parameter for the reverse port says, the port that `main` takes is one from 1 to 65534.
pub reverse_port_of-bounds :
    (port : Option ℤ) → (n : ℕ) × (reverse_port_of port ≡ pos n) × (1 ≤ n) × (n ≤ 65_534)
unfolding reverse_port_of
reverse_port_of-bounds none = (50_001, refl, omega arith, omega arith)
reverse_port_of-bounds (some (pos n)) =
    elim (Bool-cases (leb_ℤ (pos n) (pos 0) || leb_ℤ (pos 65_535) (pos n))) [
      | inl e ↦ (50_001, rw e refl, omega arith, omega arith)
      | inr e ↦ (n, rw e refl, ground (arith, e), ground (arith, e))
    ]
reverse_port_of-bounds (some (negsuc n)) = (50_001, ground arith, omega arith, omega arith)

module _ {D : Type 0} ⦃d : Platform D⦄ where
  -- Without `ros_control`, `halt` of a node whose robot started returns if the threads of both ports
  -- and the one that publishes the realtime state come to their ends; no trajectory is executed any more.
  launch-halts :
      (a : Answers) (ros : RosWrapper D) (drv : UrDriver D)
      → ros.use_ros_control ≡ false
      → start_driver a ros.robot ≡ ok (true, drv)
      → Returns
          (λ node.
            (node.rt_publish_thread ≡ false)
            × (node.ros.robot.executing_traj ≡ false)
            × (node.ros.robot.sec_interface.com_thread ≡ false)
            × (node.ros.robot.rt_interface.com_thread ≡ false))
          (launch a ros >>= halt all_ended)
  unfolding launch halt
  launch-halts a ros drv e up =
      let runs = start-IsUp a ros.robot drv up in
      rw (up, e)
        (Returns-bind (halt-joins drv runs.sec_runs runs.rt_runs)
          λ t (idle, _, _, sec, rt). returns (refl, idle, sec, rt))

  -- With `ros_control`, `halt` joins a thread that was never made: it goes through a pointer that
  -- was not set.
  launch-faults :
      (a : Answers) (ros : RosWrapper D) (drv : UrDriver D)
      → ros.use_ros_control ≡ true
      → start_driver a ros.robot ≡ ok (true, drv)
      → (launch a ros >>= halt all_ended) ≡ fault
  unfolding launch halt
  launch-faults a ros drv e up =
      let runs = start-IsUp a ros.robot drv up in
      let (t, stops, _) = Returns-value (halt-joins drv runs.sec_runs runs.rt_runs) in
      rw (up, e, stops) refl
