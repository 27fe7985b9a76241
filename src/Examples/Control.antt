-- ===== src/Examples/Control.antt =====
-- The driver and the hardware interface at concrete values.
use ur_modern_driver.Common.{
  ℕ, ◌>>=◌, ◌≡◌, refl, Bool, true, false, not, ◌&&◌, List, [], ◌∷◌, ◌++◌, map, ok, arith, length,
  replicate, u32, take, drop, if◌then◌else◌,
}
use ur_modern_driver.Common.Int.{ℤ, pos, negsuc, ltb_ℤ}
use ur_modern_driver.Double.Fixed.{fixed, fixed-IsOrdered}
use ur_modern_driver.RobotStateRt.Defs.{new as new_state}
use ur_modern_driver.Realtime.Defs.{Realtime}
use ur_modern_driver.Driver.Defs.{UrDriver, set_speed}
use ur_modern_driver.Driver.Settings.{
  Setting, min_payload, servoj_time, lookahead, gain, apply_all, IsTuned, apply_all-IsTuned,
}
use ur_modern_driver.Realtime.Commands.{EndsLine}
use ur_modern_driver.Driver.Scripts.{digital_out, IsProgram}
use ur_modern_driver.Driver.Outputs.{perform, sent, accepted, perform-sent}
use ur_modern_driver.Driver.Servo.{servoj, joint_int, read_integers, servoj-read_integers}
use ur_modern_driver.Driver.Trajectory.{Look}
use ur_modern_driver.Driver.Steps.{IsCalm}
use ur_modern_driver.Driver.Following.{IsTrajectory, over}
use ur_modern_driver.Driver.Program.{do_traj, do_traj-ends}
use ur_modern_driver.Hardware.Defs.{
  UrHardwareInterface, Kind, velocity_joint_interface, position_joint_interface, other_interface,
  is_velocity, is_position, names, may_start, can_switch, do_switch, read, write,
}
use ur_modern_driver.Hardware.Switching.{
  allowed, can_switch-allowed, left_running, IsLeft, do_switch-exclusive,
}
use ur_modern_driver.Hardware.Reading.{read-eq-ok}
use ur_modern_driver.RobotStateRt.Shape.{new-IsValid}
use ur_modern_driver.Hardware.Limit.{IsLimited, write-IsLimited}
use ur_modern_driver.Examples.SecondaryPort.{memory}

abbrev pub one : ℤ
one = pos 10_000_000

abbrev robot : Realtime ℤ
robot = record {
  safety_count_max = 12;
  safety_count = 13;
  local_ip = [];
  keepalive = true;
  com_thread = true;
  connected = true;
  robot_state = new_state;
  sent = [];
}

abbrev pub driver : UrDriver ℤ
driver = record {
  maximum_time_step = one;
  minimum_payload = pos 0;
  maximum_payload = one;
  joint_names = [];
  ip_addr = [];
  reverse_port = 50007;
  reverse_connected = true;
  reverse_sent = [];
  servoj_time = pos 160_000;
  executing_traj = false;
  firmware_version = pos 30_000_000;
  servoj_lookahead_time = pos 300_000;
  servoj_gain = pos 3_000_000_000;
  rt_interface = robot;
  sec_interface = record {
    keepalive = true;
    connected = true;
    com_thread = true;
    robot_state = memory;
  };
}

tuned : IsTuned driver
tuned = record { payload = refl; time = refl; lookahead = (refl, refl); gain = (refl, refl) }

abbrev settings : List (Setting ℤ)
settings = min_payload (negsuc 5) ∷ servoj_time (pos 1) ∷ lookahead one ∷ gain one ∷ []

apply_all-IsTuned_example : IsTuned (apply_all settings driver)
apply_all-IsTuned_example = apply_all-IsTuned fixed-IsOrdered settings driver tuned

servoj-read_integers_example :
    let positions = one ∷ one ∷ one ∷ one ∷ one ∷ negsuc 5_000_000 ∷ [] in
    (buf : List ℕ) × (servoj positions 1 driver
      ≡ ok (record driver { reverse_sent = driver.reverse_sent ++ (buf ∷ []) }))
    × (length buf ≡ 28)
    × (read_integers 7 buf ≡ map (λ x. u32 (joint_int x)) positions ++ (u32 1 ∷ []))
servoj-read_integers_example =
    servoj-read_integers one one one one one (negsuc 5_000_000) 1 driver refl

calm : IsCalm driver
unfolding new_state
calm = record { free = refl; joints = refl }

-- Two points, one second apart, and a clock that is looked at three times.
abbrev pub six : List ℤ
six = one ∷ one ∷ one ∷ one ∷ one ∷ one ∷ []

abbrev looks : List (Look ℤ)
looks =
    record { elapsed = pos 0; stopped = false }
    ∷ record { elapsed = pos 5_000_000; stopped = false }
    ∷ record { elapsed = pos 20_000_000; stopped = false }
    ∷ []

trajectory : IsTrajectory (pos 0 ∷ one ∷ []) (six ∷ six ∷ []) (six ∷ six ∷ [])
trajectory = record {
  points = omega arith;
  enough_positions = refl;
  enough_velocities = refl;
  six_positions = (refl, (refl, tt));
  six_velocities = (refl, (refl, tt));
}

is_over : over looks one ≡ true
unfolding over
is_over = refl

do_traj-ends_example :
    (opened : Bool) × (drv' : UrDriver ℤ) × (do_traj
        (pos 7)
        looks
        (pos 0 ∷ one ∷ [])
        (six ∷ six ∷ [])
        (six ∷ six ∷ [])
        driver
      ≡ ok (opened, drv'))
    × (opened ≡ not (ltb_ℤ (pos 7) (pos 0)))
    × (opened ≡ true → (drv'.reverse_connected ≡ false) × (drv'.executing_traj ≡ false))
do_traj-ends_example =
    do_traj-ends (pos 7) looks (pos 0 ∷ one ∷ []) (six ∷ six ∷ []) (six ∷ six ∷ []) (pos 0) one
      driver trajectory refl refl (refl, (refl, (refl, tt))) is_over (omega arith) calm

abbrev hardware : UrHardwareInterface ℤ
hardware = record {
  velocity_interface_running = true;
  position_interface_running = false;
  num_joints = 6;
  joint_position = six;
  joint_velocity = six;
  joint_effort = six;
  joint_position_command = six;
  joint_velocity_command = six;
  prev_joint_velocity_command = replicate 6 (pos 0);
  robot_force = [];
  robot_torque = [];
  max_vel_change = pos 1_200_000;
  robot = driver;
}

abbrev start_list : List Kind
start_list = other_interface ∷ position_joint_interface ∷ []

abbrev stop_list : List Kind
stop_list = velocity_joint_interface ∷ []

can_switch-allowed_example :
    can_switch start_list stop_list hardware
    ≡ allowed hardware.velocity_interface_running hardware.position_interface_running start_list
        stop_list
can_switch-allowed_example = can_switch-allowed start_list stop_list hardware

switches : can_switch start_list stop_list hardware ≡ true
unfolding can_switch may_start names
switches = refl

do_switch-exclusive_example :
    (hw' : UrHardwareInterface ℤ) × (do_switch start_list stop_list (λ i. pos 7) hardware ≡ ok hw')
    × IsLeft
        (left_running true is_velocity start_list stop_list)
        (left_running false is_position start_list stop_list)
        hw'
    × ((hw'.velocity_interface_running && hw'.position_interface_running)
        ≡ (names is_velocity start_list && names is_position start_list))
do_switch-exclusive_example =
    do_switch-exclusive start_list stop_list (λ i. pos 7) hardware calm switches refl

unlocked : robot.robot_state.val_lock ≡ false
unfolding new_state
unlocked = refl

spread :
    (p : ℤ)
    → fixed.lt (fixed.add p hardware.max_vel_change) (fixed.sub p hardware.max_vel_change) ≡ false
spread p = ground arith

write-IsLimited_example :
    (x0 x1 x2 x3 x4 x5 : ℤ) × let cmd = x0 ∷ x1 ∷ x2 ∷ x3 ∷ x4 ∷ x5 ∷ [] in
      (write hardware ≡ (
        set_speed x0 x1 x2 x3 x4 x5 (fixed.mul (pos 1_200_000) (fixed.lit 125 0)) driver
        >>= λ robot'. ok (record hardware { prev_joint_velocity_command = cmd; robot = robot' })))
      × IsLimited (pos 1_200_000) hardware.prev_joint_velocity_command cmd
write-IsLimited_example =
    write-IsLimited fixed-IsOrdered (pos 0) (pos 0) (pos 0) (pos 0) (pos 0) (pos 0) one one one one
      one one hardware refl refl refl spread

read-eq-ok_example :
    read hardware
    ≡ ok (record hardware {
      joint_position = robot.robot_state.q_actual;
      joint_velocity = robot.robot_state.qd_actual;
      joint_effort = robot.robot_state.i_actual;
      robot_force = take 3 robot.robot_state.tcp_force;
      robot_torque = drop 3 robot.robot_state.tcp_force;
    })
read-eq-ok_example = read-eq-ok hardware refl unlocked (new-IsValid {D = ℤ})

-- The second digital output of the tool.
perform-sent_example :
    (line : List ℕ) × IsProgram driver.firmware_version (digital_out 17 true) line
    × EndsLine line
    × (perform (digital_out 17 true) driver
        ≡ ok (if accepted (digital_out 17 true) driver then sent line driver else driver))
perform-sent_example = perform-sent (digital_out 17 true) driver
