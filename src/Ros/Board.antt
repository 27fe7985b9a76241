-- ===== src/Ros/Board.antt =====
-- `publishMbMsg` of src/ur_ros_wrapper.cpp: the message with the robot's inputs and outputs, and what
-- a round of the loop does. A round starts when the secondary state has new data.
use ur_modern_driver.Common.{
  ℕ, zero, suc, ◌+◌, ◌*◌, ◌/◌, ◌%◌, ◌^◌, ◌<◌, ◌≡◌, refl, sym, ap, ◌∙◌, bit_and, true, false, ◌||◌,
  List, [], ◌∷◌, Outcome, ok, ◌>>=◌, if◌then◌else◌, get_elem?, some, arith, Returns, returns,
  Returns-bind, Returns-if,
}
use native.Mathlib.Nat.{
  pow-suc, mul-div_cancel, one-le-pow, mul_comm, div-div-eq-div-mul, mul_assoc, div-add-mod,
}
use ur_modern_driver.Common.Bits.{bit_and-pow}
use ur_modern_driver.Double.{Platform}
use ur_modern_driver.RobotState.Defs.{
  RobotState, get_version, get_digital_input_bits, get_digital_output_bits, get_analog_input0,
  get_analog_input1, get_analog_output0, get_analog_output1, is_emergency_stopped,
  is_protective_stopped, finished_reading,
}
use ur_modern_driver.Driver.Life.{stop_traj-Returns}
use ur_modern_driver.Ros.Defs.{RosWrapper}
use ur_modern_driver.Ros.Actions.{watch_robot, abort_goal, set_robot, call_current}

-- `ur_msgs::Digital` and `ur_msgs::Analog`.
pub record Digital : Type 0 where
  pub pin : ℕ
  pub state : ℕ

pub record Analog (D : Type 0) : Type 0 where
  pub pin : ℕ
  pub state : D

-- `ur_msgs::IOStates`.
pub record IoStates (D : Type 0) : Type 0 where
  pub digital_in_states : List Digital
  pub digital_out_states : List Digital
  pub analog_in_states : List (Analog D)
  pub analog_out_states : List (Analog D)

-- The states of the pins from `i` on: `(bits & (1 << i)) >> i`.
unfoldable pub digital_states : ℕ → ℕ → ℕ → List Digital
digital_states bits i zero = []
digital_states bits i (suc n) =
    record { pin = i; state = bit_and bits (2 ^ i) / 2 ^ i } ∷ digital_states bits (suc i) n

module _ {D : Type 0} ⦃d : Platform D⦄ where
  open d use {lit, lt}

  -- From version 3.0 there are up to 18 pins.
  unfoldable pub pins : RobotState D → ℕ
  pins s = if lt (lit 3 0) (get_version s) then 18 else 10

  unfoldable pub io_states : RobotState D → IoStates D
  io_states s = record {
    digital_in_states = digital_states (get_digital_input_bits s) 0 (pins s);
    digital_out_states = digital_states (get_digital_output_bits s) 0 (pins s);
    analog_in_states =
        record { pin = 0; state = get_analog_input0 s }
        ∷ record { pin = 1; state = get_analog_input1 s }
        ∷ [];
    analog_out_states =
        record { pin = 0; state = get_analog_output0 s }
        ∷ record { pin = 1; state = get_analog_output1 s }
        ∷ [];
  }

  -- A round of `publishMbMsg`: the message, and the node.
  unfoldable pub publish_board : RosWrapper D → Outcome (IoStates D × RosWrapper D)
  publish_board ros = do
    let msg = io_states ros.robot.sec_interface.robot_state
    ros ← watch_robot ros
    let sec = ros.robot.sec_interface
    let sec = record sec { robot_state = finished_reading sec.robot_state }
    ok (msg, record ros { robot = record (ros.robot) { sec_interface = sec } })

-- The bit of a pin.
abbrev pub bit : ℕ → ℕ → ℕ
bit bits i = bits / 2 ^ i % 2

masked : (bits i : ℕ) → bit_and bits (2 ^ i) / 2 ^ i ≡ bit bits i
masked bits i =
    let cancels : bit bits i * 2 ^ i / 2 ^ i ≡ bit bits i =
      mul-div_cancel (bit bits i) (one-le-pow i 2 (omega arith)) in
    rw (bit_and-pow bits i) cancels

-- The number whose binary digits the states are, the first pin's the lowest.
unfoldable pub value_of : List Digital → ℕ
value_of [] = 0
value_of (p ∷ ps) = p.state + 2 * value_of ps

-- A number's last binary digit in front of those before it.
low_bit : (x m : ℕ) → x % 2 + 2 * (x / 2 % m) ≡ x % (m * 2)
low_bit x m =
    let halves : x / (m * 2) ≡ x / 2 / m = rw (mul_comm m 2) (sym (div-div-eq-div-mul x 2 m)) in
    let whole : m * 2 * (x / 2 / m) + x % (m * 2) ≡ x = rw halves at (div-add-mod x (m * 2)) in
    let moved : m * 2 * (x / 2 / m) ≡ 2 * (m * (x / 2 / m)) =
      ap (λ y. y * (x / 2 / m)) (mul_comm m 2) ∙ mul_assoc 2 m (x / 2 / m) in
    omega (arith, whole, moved, div-add-mod (x / 2) m)

digital_states-value : (bits i n : ℕ) → value_of (digital_states bits i n) ≡ bits / 2 ^ i % 2 ^ n
unfolding digital_states value_of
digital_states-value bits i zero = omega arith
digital_states-value bits i (suc n) =
    let rest = digital_states-value bits (suc i) n in
    rw (masked bits i, rest, pow-suc 2 i, pow-suc 2 n)
      (rw (sym (div-div-eq-div-mul bits (2 ^ i) 2)) (low_bit (bits / 2 ^ i) (2 ^ n)))

digital_states-get :
    (bits i n j : ℕ)
    → j < n
    → get_elem? (digital_states bits i n) j
      ≡ some (record { pin = i + j; state = bit bits (i + j) })
unfolding digital_states
digital_states-get bits i zero j h = absurd (omega (arith, h))
digital_states-get bits i (suc n) zero h =
    let here : i + 0 ≡ i = omega arith in rw (masked bits i, here) refl
digital_states-get bits i (suc n) (suc j) h =
    let next : suc i + j ≡ i + suc j = omega arith in
    rw next at (digital_states-get bits (suc i) n j (omega (arith, h)))

-- The message on the first `n` pins says of each whether its bit is set, and so the number is known from
-- it up to that bit.
pub digital_states-bits :
    (bits n : ℕ)
    → (value_of (digital_states bits 0 n) ≡ bits % 2 ^ n)
      × ((j : ℕ)
          → j < n
          → get_elem? (digital_states bits 0 n) j ≡ some (record { pin = j; state = bit bits j }))
digital_states-bits bits n = (
  (let one : bits / 2 ^ 0 ≡ bits = omega arith in rw one at (digital_states-value bits 0 n)),
  λ j h. (let here : 0 + j ≡ j = omega arith in rw here at (digital_states-get bits 0 n j h)),
)

module _ {D : Type 0} ⦃d : Platform D⦄ where
  open d use {lit}

  -- The stop of the goal that is executed.
  watch_robot-stops :
      (ros : RosWrapper D)
      → let s = ros.robot.sec_interface.robot_state in
        (is_emergency_stopped s || is_protective_stopped s) ≡ true
        → Returns
            (λ t. (t.has_goal ≡ false) × (ros.has_goal ≡ true → t.robot.executing_traj ≡ false))
            (watch_robot ros)
  unfolding watch_robot abort_goal set_robot call_current
  watch_robot-stops ros e = rw e (
      Returns-if ros.has_goal
        (λ h.
          Returns-bind (stop_traj-Returns ros.robot) λ drv (idle, _, _). returns (refl, λ _. idle))
        (λ h. returns (h, λ busy. absurd cc)))

  -- In an emergency stop or a protective stop, one round of the loop publishes the inputs and outputs
  -- and gives up the goal, if there is one: no goal is executed then, and its trajectory is
  -- stopped. The round marks the data as read.
  pub publish_board-stops :
      (ros : RosWrapper D)
      → let s = ros.robot.sec_interface.robot_state in
        (is_emergency_stopped s || is_protective_stopped s) ≡ true
        → Returns
            (λ r.
              (r.0 ≡ io_states s)
              × (r.1.has_goal ≡ false)
              × (ros.has_goal ≡ true → r.1.robot.executing_traj ≡ false)
              × (r.1.robot.sec_interface.robot_state.new_data_available ≡ false))
            (publish_board ros)
  unfolding publish_board finished_reading
  publish_board-stops ros e =
      Returns-bind (watch_robot-stops ros e)
        λ t (none_left, idle). returns (refl, none_left, idle, refl)
