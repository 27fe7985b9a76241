-- ===== src/Lib.antt =====
-- The driver for Universal Robots' controllers (ur_modern_driver), as functions on explicit states.
--
-- The driver talks to a controller over two ports. The realtime port (30003) reports the joints 125
-- times a second and takes speed commands: src/ur_realtime_communication.cpp runs a thread on it and
-- keeps what it reports in src/robot_state_RT.cpp. The secondary port (30002) reports the version,
-- the mode and the masterboard: src/ur_communication.cpp runs a thread on it and keeps its messages in
-- src/robot_state.cpp. src/ur_driver.cpp stands on both; src/ur_hardware_interface.cpp gives it to
-- ros_control, and src/ur_ros_wrapper.cpp is the ROS node: it takes goals, services and topics, hands
-- trajectories to the driver, and publishes what the two states hold.
--
-- - Common: numbers, tests, lists, byte buffers and the outcomes of calls. A call comes to a value
--   (ok), to undefined behaviour such as an access outside an array or to an exception that nobody
--   catches (fault), or to no end (stuck).
-- - Double: what the code uses of floating-point numbers and of their conversions and printing, as
--   an interface; Double/Fixed is an instance that computes, on which the examples run. The laws in
--   IsOrdered are facts on comparison that IEEE numbers have, and how long 0 and 100 are in print.
-- - RobotStateRt: RobotStateRT of include/ur_modern_driver/robot_state_RT.h. Defs is the state, its
--   constructor, destructor and flags; Getters the getters under the mutex; DigitalBits
--   `unpackDigitalInputBits`; Unpack the method `unpack`, cut where the layouts of the firmware
--   versions part. Layout is the table of offsets that Fields and Contract compare it to; Shape has
--   the sizes of the vectors; Overread a message on which the code reads past its end.
-- - Realtime: UrRealtimeCommunication. Defs is the object and its commands; Thread the method
--   `run`, one event for each answer of a blocking call and each call of another thread. Commands
--   is what the commands do, Speeds the program that `setSpeed` sends, Listening what a message
--   does, Watchdog the stop of a robot that nobody controls, Safety what no order of events can
--   break. The socket is the list of the writes made on it.
-- - RobotState: RobotState of include/ur_modern_driver/robot_state.h. Defs is the state and its
--   getters, Packages the two packages that are read, Unpack the messages and the loops. Framing
--   and Messages say how the loops walk over a buffer, VersionInvariant and Invariant what all of it
--   keeps.
-- - Communication: UrCommunication of include/ur_modern_driver/ur_communication.h. Defs is the
--   object with `start` and `halt`; Thread the method `run`, on events as for the realtime port.
--   Handshake is about `start`, Safety about what no order of events can break and about the end
--   of the thread.
-- - Driver: UrDriver of include/ur_modern_driver/ur_driver.h. Defs is the state and the commands
--   for outputs and payload, Scripts the programs that these stand for, Outputs what reaches the
--   controller; Settings the setters; Servo the reverse connection, on which `servoj` writes the
--   joints; Trajectory `interp_cubic` and the loops of `doTraj`, on a list of what each look at
--   the clock gives; Program the text that `uploadProg` sends, and `doTraj` as a whole; Steps and
--   Following what the loops need. Life is the constructor, `start` and `halt`, which act on both
--   ports.
-- - Hardware: UrHardwareInterface of include/ur_modern_driver/ur_hardware_interface.h, which uses a
--   UrDriver. Defs is `init`, `read`, `write`, `canSwitch` and `doSwitch`; Limit, Reading and
--   Switching what they guarantee. A controller is the type of interface that it names.
-- - Ros: RosWrapper and `main` of src/ur_ros_wrapper.cpp. Defs is the state and the messages.
--   Joints is `validateJointNames` and `reorder_traj_joints`, on which Matching, Mapping and
--   Reordering are; Checks the other tests of `goalCB`, on which Accepted is; Actions the action:
--   `goalCB`, `cancelCB`, `trajThread` and the stop in `publishMbMsg`, and any order of them.
--   OpenGoals and Goals compare what the node says it executes to the calls that it made on the
--   handles of goals; Handover says what a thread is given and Answering what its end answers.
--   Services is `setIO`, `setPayload`, `speedInterface` and `urscriptInterface`; Board a round of
--   `publishMbMsg`; Motion a round of `publishRTMsg` and of `rosControlLoop`, and Reports what the
--   first publishes; Setup the parameters and the constructor, Node the threads, `halt`, and the
--   address and port that `main` takes.
-- - Examples: runs at concrete values.
--
-- Bytes are numbers below 256, integers of a machine width are their bit patterns, and unsigned
-- arithmetic wraps where it is written `u16` or `u32`. The host is little-endian. The loops of
-- RobotState run on fuel: one round more than the buffer has bytes, which is enough for messages of
-- five bytes and more. The inner loop of `doTraj` has one round more than there are points; the
-- outer one has a round for each look at the clock. Times, socket options and what is printed are
-- left out. An event of a thread of the ports is taken as a whole, and so is a callback of the node,
-- a round of a publishing loop, and a run of `doTraj`, in which the looks at the clock say when
-- another thread stopped it. `sprintf` faults in `setSpeed` if it does not fit the buffer, and is
-- taken to fit in the other commands; a conversion to `int` is taken to be in range. A thread that
-- is joined comes to its end or not, as an argument of `halt` says, and without it `halt` does not
-- return.
--
-- A call on the handle of a goal is an entry in a log. ROS, actionlib, tf and the controller manager are
-- not code of this repository: the values on the parameter server, what the controllers make of the
-- hardware interface, whether a publisher is free and the functions of <cmath> are arguments, and
-- a rotation is given as what tf is called with.
--
-- Not modelled: src/do_output.cpp, which prints or logs a text; what is printed anywhere, with the flag
-- `warned` of `publishMbMsg`; the options of sockets; the registration of handles with ros_control;
-- test_move.py, a script for tests by hand, and the launch and configuration files.
pub mod Common
pub mod Double
pub mod Communication
pub mod Driver
pub mod Examples
pub mod Hardware
pub mod Realtime
pub mod RobotState
pub mod RobotStateRt
pub mod Ros
