-- ===== src/Driver/Program.antt =====
-- `uploadProg`, `doTraj` and `stopTraj` of src/ur_driver.cpp: the program that the controller is to run,
-- which opens the reverse connection.
use ur_modern_driver.Common.{
  ℕ, ◌-◌, ◌^◌, ◌<◌, ◌≡◌, refl, Bool, true, false, not, List, ◌++◌, some, Outcome, ok, ◌>>=◌,
  Bool-cases, inl, inr, if◌then◌else◌, text, length, get_elem?, All, arith,
}
use ur_modern_driver.Common.Int.{ℤ, pos, ltb_ℤ}
use ur_modern_driver.Double.{Platform}
use ur_modern_driver.RobotState.Defs.{get_version}
use ur_modern_driver.Realtime.Commands.{
  EndsLine, EndsLine-append, deliver, add_command_to_queue-EndsLine,
}
use ur_modern_driver.Driver.Defs.{UrDriver, send}
use ur_modern_driver.Driver.Servo.{open_servo}
use ur_modern_driver.Driver.Trajectory.{Look, follow_traj}
use ur_modern_driver.Driver.Steps.{IsCalm}
use ur_modern_driver.Driver.Following.{IsTrajectory, over, follow_traj-ends}

unfoldable pub program_head : List ℕ
program_head = text "def driverProg():\n"

unfoldable pub program_servo : List ℕ
program_servo =
    text "\tSERVO_IDLE = 0\n"
    ++ (text "\tSERVO_RUNNING = 1\n"
        ++ (text "\tcmd_servo_state = SERVO_IDLE\n"
            ++ (text "\tcmd_servo_q = [0.0, 0.0, 0.0, 0.0, 0.0, 0.0]\n"
                ++ (text "\tdef set_servo_setpoint(q):\n"
                    ++ (text "\t\tenter_critical\n"
                        ++ (text "\t\tcmd_servo_state = SERVO_RUNNING\n"
                            ++ (text "\t\tcmd_servo_q = q\n"
                                ++ (text "\t\texit_critical\n"
                                    ++ (text "\tend\n"
                                        ++ (text "\tthread servoThread():\n"
                                            ++ (text "\t\tstate = SERVO_IDLE\n"
                                                ++ (text "\t\twhile True:\n"
                                                    ++ (text "\t\t\tenter_critical\n"
                                                        ++ (text "\t\t\tq = cmd_servo_q\n"
                                                            ++ (text "\t\t\tdo_brake = False\n"
                                                            ++ (text
                                                            "\t\t\tif (state == SERVO_RUNNING) and "
                                                            ++ (text
                                                            "(cmd_servo_state == SERVO_IDLE):\n"
                                                            ++ (text "\t\t\t\tdo_brake = True\n"
                                                            ++ (text "\t\t\tend\n"
                                                            ++ (text
                                                            "\t\t\tstate = cmd_servo_state\n"
                                                            ++ (text
                                                            "\t\t\tcmd_servo_state = SERVO_IDLE\n"
                                                            ++ (text "\t\t\texit_critical\n"
                                                            ++ (text "\t\t\tif do_brake:\n"
                                                            ++ (text "\t\t\t\tstopj(1.0)\n"
                                                            ++ (text "\t\t\t\tsync()\n"
                                                            ++ text
                                                            "\t\t\telif state == SERVO_RUNNING:\n")))))))))))))))))))))))))

unfoldable pub program_brake : List ℕ
program_brake =
    text "\t\t\telse:\n"
    ++ (text "\t\t\t\tsync()\n" ++ (text "\t\t\tend\n" ++ (text "\t\tend\n" ++ text "\tend\n")))

unfoldable pub program_loop : List ℕ
program_loop =
    text "\tthread_servo = run servoThread()\n"
    ++ (text "\tkeepalive = 1\n"
        ++ (text "\twhile keepalive > 0:\n"
            ++ (text "\t\tparams_mult = socket_read_binary_integer(6+1)\n"
                ++ (text "\t\tif params_mult[0] > 0:\n"
                    ++ (text "\t\t\tq = [params_mult[1] / MULT_jointstate, "
                        ++ (text "params_mult[2] / MULT_jointstate, "
                            ++ (text "params_mult[3] / MULT_jointstate, "
                                ++ (text "params_mult[4] / MULT_jointstate, "
                                    ++ (text "params_mult[5] / MULT_jointstate, "
                                        ++ (text "params_mult[6] / MULT_jointstate]\n"
                                            ++ (text "\t\t\tkeepalive = params_mult[7]\n"
                                                ++ (text "\t\t\tset_servo_setpoint(q)\n"
                                                    ++ (text "\t\tend\n"
                                                        ++ (text "\tend\n"
                                                            ++ (text "\tsleep(.1)\n"
                                                            ++ (text "\tsocket_close()\n"
                                                            ++ (text "\tkill thread_servo\n"
                                                            ++ text "end\n")))))))))))))))))

module _ {D : Type 0} ⦃d : Platform D⦄ where
  open d use {lit, le, printed, printed_int}

  -- The call of `servoj`; versions from 3.1 on take two more parameters.
  unfoldable pub servoj_line : UrDriver D → List ℕ
  servoj_line drv =
      if le (lit 31 1) (get_version drv.sec_interface.robot_state)
      then text "\t\t\t\tservoj(q, t="
        ++ (printed 4 drv.servoj_time
            ++ (text ", lookahead_time="
                ++ (printed 4 drv.servoj_lookahead_time
                    ++ (text ", gain=" ++ (printed 0 drv.servoj_gain ++ text ")\n")))))
      else text "\t\t\t\tservoj(q, t=" ++ (printed 4 drv.servoj_time ++ text ")\n")

  -- Up to the call that opens the socket.
  unfoldable pub program_start : UrDriver D → List ℕ
  program_start drv =
      program_head
      ++ (text "\tMULT_jointstate = "
          ++ (printed_int 1_000_000
              ++ (text "\n"
                  ++ (program_servo
                      ++ (servoj_line drv
                          ++ (program_brake
                              ++ (text "\tsocket_open(\""
                                  ++ (drv.ip_addr
                                      ++ (text "\", "
                                          ++ (printed_int drv.reverse_port ++ text ")\n"))))))))))

  unfoldable pub program : UrDriver D → List ℕ
  program drv = program_start drv ++ program_loop

  -- The descriptor is what `accept` gives.
  unfoldable pub upload_prog : ℤ → UrDriver D → Outcome (Bool × UrDriver D)
  upload_prog new_sockfd drv = do drv ← send (program drv) drv; ok (open_servo new_sockfd drv)

  unfoldable pub do_traj :
      ℤ
      → List (Look D)
      → List D
      → List (List D)
      → List (List D)
      → UrDriver D
      → Outcome (Bool × UrDriver D)
  do_traj new_sockfd looks timestamps positions velocities drv = do
    (opened, drv) ← upload_prog new_sockfd drv
    if opened
        then (do drv ← follow_traj looks timestamps positions velocities drv; ok (true, drv))
        else ok (false, drv)

module _ {D : Type 0} ⦃d : Platform D⦄ where
  program-EndsLine : (drv : UrDriver D) → EndsLine (program drv)
  unfolding program program_loop
  program-EndsLine drv = EndsLine-append (program_start drv) program_loop refl

  -- The driver after its program was sent.
  abbrev pub uploaded : UrDriver D → UrDriver D
  uploaded drv = record drv { rt_interface = deliver (program drv) drv.rt_interface }

  pub upload_prog-eq-ok :
      (new_sockfd : ℤ) (drv : UrDriver D)
      → upload_prog new_sockfd drv ≡ ok (open_servo new_sockfd (uploaded drv))
  unfolding upload_prog send
  upload_prog-eq-ok new_sockfd drv =
      rw (add_command_to_queue-EndsLine (program drv) drv.rt_interface (program-EndsLine drv))

  pub uploaded-IsCalm : (drv : UrDriver D) → IsCalm drv → IsCalm (uploaded drv)
  unfolding deliver
  uploaded-IsCalm drv c = ground (arith, c.free, c.joints)

module _ {D : Type 0} ⦃d : Platform D⦄ where
  open d use {le}

  -- A trajectory of two points or more, with six positions and six velocities at each, and a clock
  -- that is never before its first timestamp and comes past its last one, unless another thread
  -- stops it: `doTraj` ends without reading an element out of range. It tells whether the robot's
  -- program opened the reverse connection, and if so it leaves the driver without that
  -- connection and not executing a trajectory.
  pub do_traj-ends :
      (new_sockfd : ℤ) (looks : List (Look D)) (timestamps : List D)
      (positions velocities : List (List D)) (t0 last : D) (drv : UrDriver D)
      → IsTrajectory timestamps positions velocities
      → get_elem? timestamps 0 ≡ some t0
      → get_elem? timestamps (length timestamps - 1) ≡ some last
      → All (λ l. le t0 l.elapsed ≡ true) looks
      → over looks last ≡ true
      → length timestamps < 2 ^ 32
      → IsCalm drv
      → (opened : Bool) × (drv' : UrDriver D) × (do_traj new_sockfd looks timestamps positions
            velocities drv
          ≡ ok (opened, drv'))
        × (opened ≡ not (ltb_ℤ new_sockfd (pos 0)))
        × (opened ≡ true → (drv'.reverse_connected ≡ false) × (drv'.executing_traj ≡ false))
  unfolding do_traj open_servo
  do_traj-ends fd looks timestamps positions velocities t0 last drv traj first final started o small
        c =
      let sent = uploaded-IsCalm drv c in
      elim (Bool-cases (ltb_ℤ fd (pos 0))) [
        | inl e ↦
            (false, uploaded drv, rw (upload_prog-eq-ok fd drv, e) refl, rw e refl, λ e'. absurd cc)
        | inr e ↦
            let there = record (uploaded drv) { reverse_connected = true } in
            let (drv', runs, gone, idle) =
              follow_traj-ends timestamps positions velocities t0 first traj last final looks there
                o started small (record { free = sent.free; joints = sent.joints }) in
            (
              true,
              drv',
              rw (upload_prog-eq-ok fd drv, e) (rw runs refl),
              rw e refl,
              λ e'. (gone, idle),
            )
      ]
