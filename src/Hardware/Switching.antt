-- ===== src/Hardware/Switching.antt =====
-- Switching controllers: what `canSwitch` answers, what `doSwitch` leaves running.
use ur_modern_driver.Common.{
  ℕ, suc, ◌≡◌, refl, sym, ◌∙◌, Bool, true, false, not, ◌&&◌, ◌||◌, List, [], ◌∷◌, ok, Returns,
  returns, Returns-bind, Returns-value, arith,
}
use ur_modern_driver.Common.Int.{ℤ}
use ur_modern_driver.Double.{Platform}
use ur_modern_driver.Driver.Defs.{UrDriver}
use ur_modern_driver.Driver.Servo.{open_servo}
use ur_modern_driver.Driver.Steps.{IsCalm, close_servo-Returns}
use ur_modern_driver.Driver.Program.{uploaded, upload_prog-eq-ok, uploaded-IsCalm}
use ur_modern_driver.Hardware.Defs.{
  UrHardwareInterface, Kind, velocity_joint_interface, position_joint_interface, other_interface,
  is_velocity, is_position, names, may_start, can_switch, stop_one, stop_all, start_one, start_all,
  do_switch,
}

and-false : (b : Bool) → (b && false) ≡ false
and-false true = refl
and-false false = refl

or-true : (b : Bool) → (b || true) ≡ true
or-true true = refl
or-true false = refl

-- What `canSwitch` is to say: no interface starts that runs, nor beside the other one, unless that
-- is in the list of those to stop.
abbrev pub allowed : (velocity position : Bool) → List Kind → List Kind → Bool
allowed velocity position start_list stop_list =
    not (
      names is_velocity start_list && (velocity || (position && not (names is_position stop_list))))
    && not (
        names is_position start_list
        && (position || (velocity && not (names is_velocity stop_list))))

-- What runs after a switch: what was started, and what ran and was not stopped.
abbrev pub left_running : Bool → (Kind → Bool) → List Kind → List Kind → Bool
left_running before wanted start_list stop_list =
    names wanted start_list || (before && not (names wanted stop_list))

module _ {D : Type 0} where
  -- `canSwitch` allows exactly the switches in which no interface is started that is running, nor
  -- beside the other one, unless that is in the list of those to stop.
  pub can_switch-allowed :
      (start_list stop_list : List Kind) (hw : UrHardwareInterface D)
      → can_switch start_list stop_list hw
        ≡ allowed hw.velocity_interface_running hw.position_interface_running start_list stop_list
  unfolding can_switch may_start names
  can_switch-allowed [] stop_list hw = refl
  can_switch-allowed (velocity_joint_interface ∷ ks) stop_list hw =
      ground (arith, can_switch-allowed ks stop_list hw)
  can_switch-allowed (position_joint_interface ∷ ks) stop_list hw =
      ground (arith, can_switch-allowed ks stop_list hw)
  can_switch-allowed (other_interface ∷ ks) stop_list hw = can_switch-allowed ks stop_list hw

module _ {D : Type 0} ⦃d : Platform D⦄ where
  -- The flags of the interfaces, and a driver that goes on.
  pub record IsLeft (v p : Bool) (hw : UrHardwareInterface D) : Type 0 where
    pub velocity : hw.velocity_interface_running ≡ v
    pub position : hw.position_interface_running ≡ p
    pub calm : IsCalm hw.robot

  stop_all-IsLeft :
      (stop_list : List Kind) (v p : Bool) (hw : UrHardwareInterface D)
      → IsLeft v p hw
      → Returns
          (IsLeft (v && not (names is_velocity stop_list)) (p && not (names is_position stop_list)))
          (stop_all stop_list hw)
  unfolding stop_all stop_one names
  stop_all-IsLeft [] v p hw l = returns (record {
    velocity = ground (arith, l.velocity);
    position = ground (arith, l.position);
    calm = l.calm;
  })
  stop_all-IsLeft (velocity_joint_interface ∷ ks) v p hw l = rw (and-false v) (
      stop_all-IsLeft ks false p _
        (record { velocity = refl; position = l.position; calm = l.calm }))
  stop_all-IsLeft (position_joint_interface ∷ ks) v p hw l = rw (and-false p) (
      Returns-bind
        (Returns-bind {Q = IsLeft v false} (close_servo-Returns [] hw.robot l.calm)
          (λ robot h. returns (record { velocity = l.velocity; position = refl; calm = h.2 })))
        (λ hw' l'. stop_all-IsLeft ks v false hw' l'))
  stop_all-IsLeft (other_interface ∷ ks) v p hw l = stop_all-IsLeft ks v p hw l

  open_servo-IsCalm : (fd : ℤ) (drv : UrDriver D) → IsCalm drv → IsCalm (open_servo fd drv).1
  unfolding open_servo
  open_servo-IsCalm fd drv c = ground (arith, c.free, c.joints)

  start_all-IsLeft :
      (start_list : List Kind) (fds : ℕ → ℤ) (v p : Bool) (hw : UrHardwareInterface D)
      → IsLeft v p hw
      → Returns
          (IsLeft (names is_velocity start_list || v) (names is_position start_list || p))
          (start_all start_list fds hw)
  unfolding start_all start_one names
  start_all-IsLeft [] fds v p hw l = returns l
  start_all-IsLeft (velocity_joint_interface ∷ ks) fds v p hw l =
      let next = record hw { velocity_interface_running = true } in
      let ready : IsLeft true p next = record {
        velocity = refl;
        position = l.position;
        calm = l.calm;
      } in
      rw (or-true (names is_velocity ks)) at
        (start_all-IsLeft ks (λ i. fds (suc i)) true p next ready)
  start_all-IsLeft (position_joint_interface ∷ ks) fds v p hw l =
      let calm = open_servo-IsCalm (fds 0) (uploaded hw.robot) (uploaded-IsCalm hw.robot l.calm) in
      let robot = (open_servo (fds 0) (uploaded hw.robot)).1 in
      let next = record hw { position_interface_running = true; robot = robot } in
      let ready : IsLeft v true next = record {
        velocity = l.velocity;
        position = refl;
        calm = calm;
      } in
      rw (upload_prog-eq-ok (fds 0) hw.robot) (
        rw (or-true (names is_position ks)) at
          (start_all-IsLeft ks (λ i. fds (suc i)) v true next ready))
  start_all-IsLeft (other_interface ∷ ks) fds v p hw l =
      start_all-IsLeft ks (λ i. fds (suc i)) v p hw l

  do_switch-IsLeft :
      (start_list stop_list : List Kind) (fds : ℕ → ℤ) (hw : UrHardwareInterface D)
      → IsCalm hw.robot
      → Returns
          (IsLeft
            (left_running hw.velocity_interface_running is_velocity start_list stop_list)
            (left_running hw.position_interface_running is_position start_list stop_list))
          (do_switch start_list stop_list fds hw)
  unfolding do_switch
  do_switch-IsLeft start_list stop_list fds hw c =
      Returns-bind
        (stop_all-IsLeft stop_list hw.velocity_interface_running hw.position_interface_running hw
          (record { velocity = refl; position = refl; calm = c }))
        (λ hw' l. start_all-IsLeft start_list fds _ _ hw' l)

-- Of two interfaces of which not both run, an allowed switch leaves both running exactly if it
-- starts controllers of both types.
exclusive :
    (v p sv sp tv tp : Bool)
    → (v && p) ≡ false
    → (not (sv && (v || (p && not tp))) && not (sp && (p || (v && not tv)))) ≡ true
    → ((sv || (v && not tv)) && (sp || (p && not tp))) ≡ (sv && sp)
exclusive v p sv sp tv tp h1 h3 = ground arith

module _ {D : Type 0} ⦃d : Platform D⦄ where
  -- `doSwitch`, on a driver whose realtime state is not locked and has six joints, ends without a
  -- fault, and what runs afterwards is what was started and what ran and was not stopped. If
  -- `canSwitch` allowed the switch and not both interfaces ran before, then both run afterwards
  -- exactly if the start list names both types, which `canSwitch` does not look at.
  pub do_switch-exclusive :
      (start_list stop_list : List Kind) (fds : ℕ → ℤ) (hw : UrHardwareInterface D)
      → IsCalm hw.robot
      → can_switch start_list stop_list hw ≡ true
      → (hw.velocity_interface_running && hw.position_interface_running) ≡ false
      → (hw' : UrHardwareInterface D) × (do_switch start_list stop_list fds hw ≡ ok hw')
        × IsLeft
            (left_running hw.velocity_interface_running is_velocity start_list stop_list)
            (left_running hw.position_interface_running is_position start_list stop_list)
            hw'
        × ((hw'.velocity_interface_running && hw'.position_interface_running)
            ≡ (names is_velocity start_list && names is_position start_list))
  do_switch-exclusive start_list stop_list fds hw c can before =
      let (hw', runs, left) = Returns-value (do_switch-IsLeft start_list stop_list fds hw c) in
      let allows = sym (can_switch-allowed start_list stop_list hw) ∙ can in
      let kept =
        exclusive hw.velocity_interface_running hw.position_interface_running
          (names is_velocity start_list) (names is_position start_list)
          (names is_velocity stop_list) (names is_position stop_list) before allows in
      (hw', runs, left, rw (left.velocity, left.position) kept)
