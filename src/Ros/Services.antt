-- ===== src/Ros/Services.antt =====
-- The services and topics of src/ur_ros_wrapper.cpp that pass a command on: `setIO`, `setPayload`,
-- `speedInterface` and `urscriptInterface`.
use ur_modern_driver.Common.{
  ℕ, zero, suc, arith, Option, none, some, ◌≡◌, ◌<◌, refl, sym, ap, ◌∙◌, bind-congr, bind-bind,
  Bool, true, false, List, [], ◌∷◌, Outcome, ok, fault, ◌>>=◌, ◌==◌, if◌then◌else◌, length,
}
use ur_modern_driver.Double.{Platform}
use ur_modern_driver.Realtime.Defs.{add_command_to_queue, speed_command, moves}
use ur_modern_driver.Realtime.Commands.{EndsLine, deliver, set_speed-eq-ok}
use ur_modern_driver.Driver.Defs.{
  UrDriver, set_digital_out, set_flag, set_analog_out, set_tool_voltage, set_payload, set_speed,
}
use ur_modern_driver.Driver.Scripts.{
  Output, tool_voltage, flag, digital_out, analog_out, payload, IsProgram,
}
use ur_modern_driver.Driver.Outputs.{perform, accepted, sent, perform-sent}
use ur_modern_driver.Driver.Trajectory.{at}
use ur_modern_driver.Ros.Defs.{Point, JointTrajectory}

module _ {D : Type 0} ⦃d : Platform D⦄ where
  open d use {lit, lt, to_int}

  -- The pin is given as the `unsigned int` that it becomes.
  unfoldable pub set_io : ℕ → ℕ → D → UrDriver D → Outcome (Bool × UrDriver D)
  set_io fun pin state drv =
      let on = lt (lit 0 0) state in
      if fun == 1
      then (do drv ← set_digital_out pin on drv; ok (true, drv))
      else if fun == 2
      then (do drv ← set_flag pin on drv; ok (true, drv))
      else if fun == 3
      then (do drv ← set_analog_out pin state drv; ok (true, drv))
      else if fun == 4
      then (do drv ← set_tool_voltage (to_int state) drv; ok (true, drv))
      else ok (false, drv)

  -- Both branches answer with success.
  unfoldable pub set_payload_srv : D → UrDriver D → Outcome (Bool × UrDriver D)
  set_payload_srv m drv = do
    (taken, drv) ← set_payload m drv
    if taken then ok (true, drv) else ok (true, drv)

  -- `std::max_element`: the first of the largest.
  unfoldable pub max_from : D → List D → D
  max_from best [] = best
  max_from best (x ∷ xs) = max_from (if lt best x then x else best) xs

  unfoldable pub acceleration : List D → D
  acceleration [] = lit 100 0
  acceleration (x ∷ xs) = max_from x xs

  unfoldable pub speed_interface : JointTrajectory D → UrDriver D → Outcome (UrDriver D)
  speed_interface msg drv = do
    p ← at msg.points 0
    let v = p.velocities
    if length v == 6
        then (do
          v0 ← at v 0
          v1 ← at v 1
          v2 ← at v 2
          v3 ← at v 3
          v4 ← at v 4
          v5 ← at v 5
          set_speed v0 v1 v2 v3 v4 v5 (acceleration p.accelerations) drv)
        else ok drv

module _ {D : Type 0} where
  unfoldable pub urscript_interface : List ℕ → UrDriver D → Outcome (UrDriver D)
  urscript_interface text drv = do
    rt ← add_command_to_queue text drv.rt_interface
    ok (record drv { rt_interface = rt })

module _ {D : Type 0} ⦃d : Platform D⦄ where
  open d use {lit, lt, to_int}

  -- The call that a request stands for: the functions 1 to 4 of the service's message.
  abbrev pub requested : ℕ → ℕ → D → Option (Output D)
  requested (suc zero) pin state = some (digital_out pin (lt (lit 0 0) state))
  requested (suc (suc zero)) pin state = some (flag pin (lt (lit 0 0) state))
  requested (suc (suc (suc zero))) pin state = some (analog_out pin state)
  requested (suc (suc (suc (suc zero)))) pin state = some (tool_voltage (to_int state))
  requested _ pin state = none

  -- The answer to a request that stands for this call.
  unfoldable pub IsAnswered : Option (Output D) → UrDriver D → Outcome (Bool × UrDriver D) → Type 0
  IsAnswered none drv o = o ≡ ok (false, drv)
  IsAnswered (some call) drv o =
      (line : List ℕ) × IsProgram drv.firmware_version call line
      × EndsLine line
      × (o ≡ ok (true, sent line drv))

  -- A request to set an output: for each of the four functions that exist the program for the
  -- digital output, flag, analog output or tool voltage that is asked for goes to the controller as
  -- one whole line, if there is a connection, and the service answers with success; for any other
  -- function nothing is sent, and it answers that it failed.
  pub set_io-sent :
      (fun pin : ℕ) (state : D) (drv : UrDriver D)
      → IsAnswered (requested fun pin state) drv (set_io fun pin state drv)
  unfolding set_io perform IsAnswered
  set_io-sent zero pin state drv = refl
  set_io-sent (suc zero) pin state drv =
      let (line, is, ends, h) = perform-sent (digital_out pin (lt (lit 0 0) state)) drv in
      (line, is, ends, rw h refl)
  set_io-sent (suc (suc zero)) pin state drv =
      let (line, is, ends, h) = perform-sent (flag pin (lt (lit 0 0) state)) drv in
      (line, is, ends, rw h refl)
  set_io-sent (suc (suc (suc zero))) pin state drv =
      let (line, is, ends, h) = perform-sent (analog_out pin state) drv in
      (line, is, ends, rw h refl)
  set_io-sent (suc (suc (suc (suc zero)))) pin state drv =
      let (line, is, ends, h) = perform-sent (tool_voltage (to_int state)) drv in
      (line, is, ends, rw h refl)
  set_io-sent (suc (suc (suc (suc (suc n))))) pin state drv = ground arith

  answers_true :
      (r : Bool × UrDriver D)
      → if◌then◌else◌ {A = Outcome (Bool × UrDriver D)} r.0 (ok (true, r.1)) (ok (true, r.1))
        ≡ ok (true, r.1)
  answers_true (true, drv) = refl
  answers_true (false, drv) = refl

  -- A request to set the payload is answered with success in any case, also where the payload is
  -- refused and nothing is sent.
  pub set_payload_srv-answers :
      (m : D) (drv : UrDriver D)
      → (line : List ℕ) × IsProgram drv.firmware_version (payload m) line
        × EndsLine line
        × (set_payload_srv m drv
            ≡ ok (true, if accepted (payload m) drv then sent line drv else drv))
  unfolding set_payload_srv perform
  set_payload_srv-answers m drv =
      let (line, is, ends, h) = perform-sent (payload m) drv in
      (
        line,
        is,
        ends,
        bind-congr (set_payload m drv) answers_true
            ∙ sym (bind-bind (set_payload m drv) (λ r. ok r.1) (λ x. ok (true, x)))
            ∙ ap (λ o. o >>= λ x. ok (true, x)) h,
      )

  -- A message with six speeds in its first point becomes one speed command with these speeds and the
  -- largest acceleration, or 100 if there is none; it goes to the controller if there is a
  -- connection, and holds off the watchdog if a joint is to move. The command is to fit its buffer.
  pub speed_interface-sends :
      (v0 v1 v2 v3 v4 v5 : D) (p : Point D) (ps : List (Point D)) (msg : JointTrajectory D)
      (drv : UrDriver D)
      → msg.points ≡ p ∷ ps
      → p.velocities ≡ v0 ∷ v1 ∷ v2 ∷ v3 ∷ v4 ∷ v5 ∷ []
      → drv.rt_interface.robot_state.val_lock ≡ false
      → length (
          speed_command drv.rt_interface.robot_state.version v0 v1 v2 v3 v4 v5
            (acceleration p.accelerations))
        < 1024
      → let line =
          speed_command drv.rt_interface.robot_state.version v0 v1 v2 v3 v4 v5
            (acceleration p.accelerations) in
        speed_interface msg drv
        ≡ ok (record drv {
          rt_interface =
              if moves v0 v1 v2 v3 v4 v5
              then record (deliver line drv.rt_interface) { safety_count = 0 }
              else deliver line drv.rt_interface;
        })
  unfolding speed_interface set_speed
  speed_interface-sends v0 v1 v2 v3 v4 v5 p ps msg drv e1 e2 free short =
      rw
        (
          e1,
          e2,
          set_speed-eq-ok v0 v1 v2 v3 v4 v5 (acceleration p.accelerations) drv.rt_interface free
              short,
        )
        refl

  -- A message without points, and an empty script: both read an element that does not exist.
  speed_interface-faults :
      (msg : JointTrajectory D) (drv : UrDriver D)
      → msg.points ≡ []
      → speed_interface msg drv ≡ fault
  unfolding speed_interface
  speed_interface-faults msg drv e = rw e refl
