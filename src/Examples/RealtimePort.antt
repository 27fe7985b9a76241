-- ===== src/Examples/RealtimePort.antt =====
-- The realtime port at concrete messages.
use ur_modern_driver.Common.{
  ◌⊎◌, ℕ, ltb, ◌<◌, ◌>>=◌, ◌+◌, ◌≡◌, refl, true, false, List, [], ◌∷◌, ◌++◌, map, some, ok, fault,
  arith, length, get_elem?, take, replicate, length-replicate, All, All-replicate, All-take, IsByte,
  be_value, if◌then◌else◌, text, ◌/◌, ◌%◌, ◌^◌, ◌==◌,
}
use ur_modern_driver.Common.Int.{ℤ, pos}
use ur_modern_driver.Double.Fixed.{fixed, fixed-IsOrdered}
use ur_modern_driver.RobotStateRt.Defs.{RobotStateRt, new as new_state, unlock}
use ur_modern_driver.RobotStateRt.DigitalBits.{
  unpack_digital_input_bits, get_elem?-unpack_digital_input_bits,
}
use ur_modern_driver.RobotStateRt.Unpack.{unpack, length_good}
use ur_modern_driver.RobotStateRt.Layout.{read_body, publish}
use ur_modern_driver.RobotStateRt.Contract.{unpack-eq-ok}
use ur_modern_driver.RobotStateRt.Shape.{IsValid, unpack-IsValid}
use ur_modern_driver.RobotStateRt.Overread.{unpack_overreads}
use ur_modern_driver.Realtime.Defs.{
  Realtime, speed_command, speeds, set_speed, moves, add_command_to_queue,
}
use ur_modern_driver.Realtime.Thread.{
  Thread, Event, answered, speed_set, halted, commanded, attempted, reading, run, begin,
}
use ur_modern_driver.Realtime.Commands.{deliver, EndsLine, Completes, add_command_to_queue-deliver}
use ur_modern_driver.Realtime.Speeds.{IsSpeedProgram, AreStill, set_speed-sends}
use ur_modern_driver.Realtime.Listening.{IsMessage, IsListening, stop_command, stops}
use ur_modern_driver.Realtime.Watchdog.{watchdog, moving_stops}
use ur_modern_driver.Realtime.Safety.{IsSafe, IsSound, IsPossible, run-IsSafe}

-- A message of 1044 bytes, in an array of 2048, and a state of version 3.0.
abbrev message : List ℕ
message = 0 ∷ 0 ∷ 4 ∷ 20 ∷ replicate 2044 0

abbrev state : RobotStateRt ℤ
state = record (new_state {D = ℤ}) { version = pos 30_000_000 }

long : length message ≡ 2048
long = omega (arith, length-replicate {A = ℕ} 2044 0)

bytes : All IsByte message
bytes = (
  omega arith,
  (omega arith, (omega arith, (omega arith, All-replicate IsByte 2044 0 (omega arith)))),
)

first_bytes : All IsByte (take 4 message)
first_bytes = All-take IsByte 4 message bytes

unlocked : state.val_lock ≡ false
unfolding new_state
unlocked = refl

valid : IsValid state
unfolding new_state
valid = ground arith

unpack-eq-ok_example :
    unpack message state
    ≡ ok (
        if length_good state.version (be_value (take 4 message))
        then publish (unlock (read_body message (record state { val_lock = true })))
        else state)
unpack-eq-ok_example = unpack-eq-ok message state (omega (arith, long)) first_bytes unlocked

unpack-IsValid_example :
    (t : RobotStateRt ℤ) × (unpack message state ≡ ok t)
    × IsValid t
    × (t.val_lock ≡ false)
    × (t.version ≡ state.version)
unpack-IsValid_example =
    unpack-IsValid message state (omega (arith, long)) first_bytes unlocked valid

-- A controller of version 1.6 with revision 21.
abbrev state_v16 : RobotStateRt ℤ
state_v16 = record (new_state {D = ℤ}) { version = pos 16_000_021 }

abbrev message_v16 : List ℕ
message_v16 = 0 ∷ 0 ∷ 2 ∷ 244 ∷ replicate 752 0

unlocked_v16 : state_v16.val_lock ≡ false
unfolding new_state
unlocked_v16 = refl

length_v16 : be_value (take 4 message_v16) ≡ 756
unfolding be_value
length_v16 = refl

unpack_overreads_example : unpack message_v16 state_v16 ≡ fault
unpack_overreads_example =
    unpack_overreads message_v16 state_v16 (omega (arith, length-replicate {A = ℕ} 752 0))
      (omega arith, (omega arith, (omega arith, (omega arith, tt)))) length_v16 unlocked_v16 refl
      refl refl

get_elem?-unpack_digital_input_bits_example :
    get_elem? (unpack_digital_input_bits (λ i. 0) 40) 3 ≡ some (40 / 2 ^ 3 % 2 == 1)
get_elem?-unpack_digital_input_bits_example =
    get_elem?-unpack_digital_input_bits (λ i. 0) 3 40 (omega arith)

-- A robot whose watchdog waits for two messages.
abbrev robot : Realtime ℤ
robot = record {
  safety_count_max = 2;
  safety_count = 3;
  local_ip = [];
  keepalive = true;
  com_thread = true;
  connected = true;
  robot_state = state;
  sent = [];
}

abbrev thread : Thread ℤ
thread = record { rt = robot; buf = message; phase = reading }

thread-IsListening : IsListening thread
thread-IsListening = record {
  ready = record { free = unlocked; valid = valid; size = long; bytes = bytes };
  phase = refl;
  keepalive = refl;
  connected = refl;
}

abbrev one : ℤ
one = pos 10_000_000

one-moves : moves one one one one one one ≡ true
unfolding moves
one-moves = refl

add_command_to_queue-deliver_example :
    (line : List ℕ) × (add_command_to_queue (text "stopj(1)") robot ≡ ok (deliver line robot))
    × EndsLine line
    × Completes (text "stopj(1)") line
add_command_to_queue-deliver_example =
    add_command_to_queue-deliver (text "stopj(1)") robot (omega arith)

is_message : IsMessage message
is_message = (omega (arith, long), omega (arith, long), bytes)

watchdog_example :
    (t : Thread ℤ) × (run (map answered (message ∷ [])) thread ≡ ok t)
    × IsListening t
    × (t.rt.safety_count ≡ thread.rt.safety_count + length (message ∷ []))
    × (t.rt.sent ≡ thread.rt.sent ++ stops thread.rt (length (message ∷ [])))
watchdog_example =
    watchdog fixed-IsOrdered (message ∷ []) thread thread-IsListening (is_message, tt) (omega arith)

abbrev messages : List (List ℕ)
messages = message ∷ message ∷ message ∷ []

one-fits : length (speed_command thread.rt.robot_state.version one one one one one one one) < 1024
unfolding speed_command speeds
one-fits = omega arith

last-fits : length (speed_command robot.robot_state.version one one one one one (pos 0) one) < 1024
unfolding speed_command speeds
last-fits = omega arith

moving_stops_example :
    let version = thread.rt.robot_state.version in
    (t : Thread ℤ) × (run (speed_set one one one one one one one ∷ map answered messages) thread
      ≡ ok t)
    × (t.rt.sent
        ≡ (thread.rt.sent ++ (speed_command version one one one one one one one ∷ []))
          ++ (if ltb thread.rt.safety_count_max (length messages)
              then stop_command version ∷ []
              else []))
moving_stops_example =
    moving_stops fixed-IsOrdered one one one one one one one messages thread thread-IsListening
      one-moves one-fits (is_message, (is_message, (is_message, tt))) (omega arith)

set_speed-sends_example :
    let qs = one ∷ one ∷ one ∷ one ∷ one ∷ pos 0 ∷ [] in
    (line : List ℕ) × (count : ℕ) × IsSpeedProgram robot.robot_state.version qs one line
    × EndsLine line
    × ((AreStill qs × (count ≡ robot.safety_count)) ⊎ (¬ AreStill qs × (count ≡ 0)))
    × (set_speed one one one one one (pos 0) one robot
        ≡ ok (record robot {
          safety_count = count;
          sent = if robot.connected then robot.sent ++ (line ∷ []) else robot.sent;
        }))
set_speed-sends_example = set_speed-sends one one one one one (pos 0) one robot unlocked last-fits

robot-IsSound : IsSound robot
robot-IsSound = record { free = unlocked; valid = valid; lines = tt }

-- A speed that is three bytes in print.
slow-fits : (version : ℤ) → length (speed_command version one one one one one one one) < 1024
unfolding speed_command speeds
slow-fits version = ground arith

-- A message, the end of the connection, a new connection, a command and a halt.
abbrev events : List (Event ℤ)
events =
    answered message
    ∷ answered []
    ∷ attempted (pos 0)
    ∷ commanded (text "stopj(1)")
    ∷ speed_set one one one one one one one
    ∷ halted
    ∷ answered message
    ∷ []

possible : All IsPossible events
possible = (
  (omega (arith, long), bytes),
  ((omega arith, tt), (tt, (omega arith, (slow-fits, (tt, ((omega (arith, long), bytes), tt)))))),
)

run-IsSafe_example : (t : Thread ℤ) × ((begin robot >>= run events) ≡ ok t) × IsSafe t
run-IsSafe_example = run-IsSafe fixed-IsOrdered events robot possible robot-IsSound
