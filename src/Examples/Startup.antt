-- ===== src/Examples/Startup.antt =====
-- Starting and stopping the driver at concrete answers.
use ur_modern_driver.Common.{
  ℕ, ◌≡◌, refl, true, false, List, [], ◌∷◌, ◌++◌, some, ok, arith, Returns, replicate, load,
  swap_bytes,
}
use ur_modern_driver.Common.Int.{ℤ, pos}
use ur_modern_driver.Double.Fixed.{fixed}
use ur_modern_driver.RobotState.Defs.{
  new as new_robot, set_disconnected, get_version, finished_reading,
}
use ur_modern_driver.RobotState.Packages.{load_swapped}
use ur_modern_driver.RobotState.Unpack.{unpack, message_loop}
use ur_modern_driver.RobotStateRt.Defs.{set_version, lock, unlock, new as new_state}
use ur_modern_driver.Realtime.Defs.{new as new_rt, start as start_rt, get_local_ip}
use ur_modern_driver.Communication.Defs.{
  UrCommunication, new as new_sec, unpack_answer, start as start_sec,
}
use ur_modern_driver.Communication.Thread.{
  Thread, Event, answered, attempted, halted, published, finished, begin, settle, step, run, round,
  reconnect, on_answer, on_attempt,
}
use ur_modern_driver.Communication.Safety.{
  IsSteady, Wakes, timed_out, run-IsSteady, begin-IsSteady, halted-finishes,
}
use ur_modern_driver.Communication.Handshake.{IsVersion, answer_buffer, start-version}
use ur_modern_driver.Driver.Defs.{UrDriver}
use ur_modern_driver.Driver.Life.{Answers, new, start, start_realtime, IsUp, start-IsUp}
use ur_modern_driver.Examples.SecondaryPort.{memory, state, state-IsHeld}

-- A message of version 1.8 with the name "UR" and a date of one byte.
abbrev bytes : List ℕ
bytes = (0 ∷ 0 ∷ 0 ∷ 25 ∷ 20 ∷ replicate 9 0) ++ (3 ∷ 2 ∷ 85 ∷ 82 ∷ 1 ∷ 8 ∷ 0 ∷ 0 ∷ 0 ∷ 5 ∷ 68 ∷ [])

IsVersion-bytes : IsVersion (answer_buffer bytes) 25 2 1 1 8 5
unfolding load_swapped load swap_bytes
IsVersion-bytes = record {
  inside = omega arith;
  size = refl;
  short_name = omega arith;
  short_date = omega arith;
  kind = refl;
  name_size = refl;
  major_at = refl;
  minor_at = refl;
  svn_at = refl;
}

abbrev sec : UrCommunication ℤ
sec = record { keepalive = false; connected = false; com_thread = false; robot_state = state }

size_bytes : load_swapped 4 (answer_buffer bytes) 0 ≡ ok 25
unfolding load_swapped load swap_bytes
size_bytes = refl

kind_bytes : load 1 (answer_buffer bytes) 4 ≡ ok 20
unfolding load
kind_bytes = refl

start-version_example :
    Returns
      (λ r.
        (r.0 ≡ true)
        × (r.1.com_thread ≡ true)
        × (r.1.keepalive ≡ true)
        × (r.1.robot_state.val_lock ≡ 0)
        × (get_version r.1.robot_state
            ≡ fixed.add
                (fixed.add (fixed.of_int 1) (fixed.mul (fixed.lit 1 1) (fixed.of_int 8)))
                (fixed.mul (fixed.lit 1 7) (fixed.of_int 5))))
      (start_sec (pos 0) (some bytes) (pos 0) sec)
start-version_example =
    start-version bytes 2 1 1 8 5 (pos 0) (pos 0) sec refl refl (omega arith) size_bytes kind_bytes
      IsVersion-bytes state-IsHeld

-- The thread loses the connection and gets it back.
abbrev events : List Event
events = answered [] ∷ attempted (pos 0) ∷ published ∷ halted ∷ answered [] ∷ []

abbrev last : Thread ℤ
last = record {
  sec = record {
    keepalive = false;
    connected = false;
    com_thread = true;
    robot_state = record state { new_data_available = false };
  };
  buf = replicate 2048 0;
  phase = finished;
}

abbrev running : UrCommunication ℤ
running = record { keepalive = true; connected = false; com_thread = true; robot_state = state }

events-run : run events (begin running) ≡ ok last
unfolding run step begin settle on_answer on_attempt round reconnect set_disconnected
    finished_reading new_robot
events-run = refl

run-IsSteady_example : IsSteady last
run-IsSteady_example =
    run-IsSteady events (begin running) last (omega arith, (tt, (tt, (tt, (omega arith, tt)))))
      (begin-IsSteady running state-IsHeld) events-run

waits : Wakes (begin running).phase (answered [])
unfolding begin settle
waits = timed_out

halted-finishes_example :
    Returns (λ t. t.phase ≡ finished) (run (halted ∷ answered [] ∷ []) (begin running))
halted-finishes_example = halted-finishes (answered []) (begin running) waits

abbrev pub answers : Answers
answers = record {
  result = pos 0;
  answer = some [];
  sec_error = pos 0;
  rt_error = pos 0;
  name_error = pos 0;
  local_ip = (49 ∷ []);
}

abbrev pub idle : UrDriver ℤ
idle =
    new 50_001 (pos 80_000) 12 (pos 800_000) (pos 0) (pos 10_000_000) (pos 300_000)
      (pos 3_000_000_000) memory

abbrev pub up : UrDriver ℤ
up = record idle {
  ip_addr = (49 ∷ []);
  firmware_version = pos 0;
  sec_interface = record (idle.sec_interface) { keepalive = true; com_thread = true };
  rt_interface = record (idle.rt_interface) {
    keepalive = true;
    com_thread = true;
    local_ip = (49 ∷ []);
  };
}

pub starts : start answers idle ≡ ok (true, up)
unfolding start start_realtime start_sec start_rt new new_rt new_sec new_state unpack_answer unpack
    message_loop set_version lock unlock get_local_ip get_version new_robot
starts = refl

start-IsUp_example : IsUp (49 ∷ []) up
start-IsUp_example = start-IsUp answers idle up starts
