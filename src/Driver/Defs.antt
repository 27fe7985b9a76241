-- ===== src/Driver/Defs.antt =====
-- The state of include/ur_modern_driver/ur_driver.h, and the commands of src/ur_driver.cpp that go
-- to the realtime port.
use ur_modern_driver.Common.{
  ℕ, ◌-◌, Bool, true, false, ◌&&◌, List, ◌++◌, Outcome, ok, ◌>>=◌, ltb, if◌then◌else◌, text,
}
use ur_modern_driver.Double.{Platform}
use ur_modern_driver.Realtime.Defs.{Realtime, add_command_to_queue, set_speed as set_speed_rt}
use ur_modern_driver.Communication.Defs.{UrCommunication}

pub record UrDriver (D : Type 0) : Type 0 where
  pub maximum_time_step : D
  pub minimum_payload : D
  pub maximum_payload : D
  pub joint_names : List (List ℕ)
  pub ip_addr : List ℕ
  pub reverse_port : ℕ
  -- The socket of the reverse connection: whether it is there, and what was written to it.
  pub reverse_connected : Bool
  pub reverse_sent : List (List ℕ)
  pub servoj_time : D
  pub executing_traj : Bool
  pub firmware_version : D
  pub servoj_lookahead_time : D
  pub servoj_gain : D
  pub rt_interface : Realtime D
  pub sec_interface : UrCommunication D

module _ {D : Type 0} ⦃d : Platform D⦄ where
  -- `rt_interface_->addCommandToQueue`.
  unfoldable pub send : List ℕ → UrDriver D → Outcome (UrDriver D)
  send cmd drv = do
    rt ← add_command_to_queue cmd drv.rt_interface
    ok (record drv { rt_interface = rt })

  unfoldable pub set_speed : D → D → D → D → D → D → D → UrDriver D → Outcome (UrDriver D)
  set_speed q0 q1 q2 q3 q4 q5 acc drv = do
    rt ← set_speed_rt q0 q1 q2 q3 q4 q5 acc drv.rt_interface
    ok (record drv { rt_interface = rt })

  unfoldable pub get_joint_names : UrDriver D → List (List ℕ)
  get_joint_names drv = drv.joint_names

  unfoldable pub set_joint_names : List (List ℕ) → UrDriver D → UrDriver D
  set_joint_names jn drv = record drv { joint_names = jn }

abbrev pub truth : Bool → List ℕ
truth b = if b then text "True" else text "False"

-- The voltage as it is printed.
unfoldable pub tool_voltage_command : List ℕ → List ℕ
tool_voltage_command v = text "sec setOut():\n\tset_tool_voltage(" ++ (v ++ text ")\nend\n")

-- The three commands with a number, as it is printed, and a truth value.
unfoldable pub switch_command : List ℕ → List ℕ → Bool → List ℕ
switch_command name n b =
    text "sec setOut():\n\t"
    ++ (name ++ (text "(" ++ (n ++ (text ", " ++ (truth b ++ text ")\nend\n")))))

module _ {D : Type 0} ⦃d : Platform D⦄ where
  open d use {lit, lt, printed, printed_int}

  unfoldable pub set_tool_voltage : ℕ → UrDriver D → Outcome (UrDriver D)
  set_tool_voltage v drv = send (tool_voltage_command (printed_int v)) drv

  unfoldable pub set_flag : ℕ → Bool → UrDriver D → Outcome (UrDriver D)
  set_flag n b drv = send (switch_command (text "set_flag") (printed_int n) b) drv

  -- The pins from 16 on are the tool's, and those from 8 on are configurable.
  unfoldable pub digital_out_command : D → ℕ → Bool → List ℕ
  digital_out_command version n b =
      if lt version (lit 2 0)
      then switch_command (text "set_digital_out") (printed_int n) b
      else if ltb 15 n
      then switch_command (text "set_tool_digital_out") (printed_int (n - 16)) b
      else if ltb 7 n
      then switch_command (text "set_configurable_digital_out") (printed_int (n - 8)) b
      else switch_command (text "set_standard_digital_out") (printed_int n) b

  unfoldable pub set_digital_out : ℕ → Bool → UrDriver D → Outcome (UrDriver D)
  set_digital_out n b drv = send (digital_out_command drv.firmware_version n b) drv

  unfoldable pub analog_out_command : D → ℕ → D → List ℕ
  analog_out_command version n f =
      text "sec setOut():\n\t"
      ++ ((if lt version (lit 2 0) then text "set_analog_out(" else text "set_standard_analog_out(")
          ++ (printed_int n ++ (text ", " ++ (printed 4 f ++ text ")\nend\n"))))

  unfoldable pub set_analog_out : ℕ → D → UrDriver D → Outcome (UrDriver D)
  set_analog_out n f drv = send (analog_out_command drv.firmware_version n f) drv

  unfoldable pub payload_command : D → List ℕ
  payload_command m = text "sec setOut():\n\tset_payload(" ++ (printed 3 m ++ text ")\nend\n")

  -- Whether the payload was taken, and the driver.
  unfoldable pub set_payload : D → UrDriver D → Outcome (Bool × UrDriver D)
  set_payload m drv =
      if lt m drv.maximum_payload && lt drv.minimum_payload m
      then (do drv ← send (payload_command m) drv; ok (true, drv))
      else ok (false, drv)

  unfoldable pub stop_traj : UrDriver D → Outcome (UrDriver D)
  stop_traj drv = send (text "stopj(10)\n") (record drv { executing_traj = false })
