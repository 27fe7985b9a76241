-- ===== src/Driver/Outputs.antt =====
-- The commands for the robot's outputs and payload, as the controller gets them.
use ur_modern_driver.Common.{
  ℕ, ◌-◌, arith, ◌≡◌, inl, inr, refl, Bool, true, ◌&&◌, Bool-cases, List, ◌++◌, Outcome, ok, ◌>>=◌,
  if◌then◌else◌, ltb, text,
}
use ur_modern_driver.Double.{Platform}
use ur_modern_driver.Realtime.Commands.{
  EndsLine, EndsLine-append, deliver, add_command_to_queue-EndsLine,
}
use ur_modern_driver.Driver.Scripts.{
  Output, tool_voltage, flag, digital_out, analog_out, payload, IsProgram, any_pin, standard_pin,
  configurable_pin, tool_pin, for_voltage, for_flag, for_digital, for_old_analog, for_analog,
  for_payload,
}
use ur_modern_driver.Driver.Defs.{
  UrDriver, send, truth, tool_voltage_command, set_tool_voltage, switch_command, set_flag,
  digital_out_command, set_digital_out, analog_out_command, set_analog_out, payload_command,
  set_payload,
}

module _ {D : Type 0} ⦃d : Platform D⦄ where
  open d use {lt, printed, printed_int}

  unfoldable pub perform : Output D → UrDriver D → Outcome (UrDriver D)
  perform (tool_voltage v) drv = set_tool_voltage v drv
  perform (flag n b) drv = set_flag n b drv
  perform (digital_out n b) drv = set_digital_out n b drv
  perform (analog_out n f) drv = set_analog_out n f drv
  perform (payload m) drv = set_payload m drv >>= λ r. ok r.1

  -- The driver after a line was sent.
  abbrev pub sent : List ℕ → UrDriver D → UrDriver D
  sent line drv = record drv { rt_interface = deliver line drv.rt_interface }

  send-sent :
      (line : List ℕ) (drv : UrDriver D) → EndsLine line → send line drv ≡ ok (sent line drv)
  unfolding send
  send-sent line drv e = rw (add_command_to_queue-EndsLine line drv.rt_interface e)

-- What the commands end with.
closes : (xs : List ℕ) → EndsLine (xs ++ text ")\nend\n")
closes xs = EndsLine-append xs (text ")\nend\n") refl

listed : (n xs : List ℕ) → EndsLine (n ++ (text ", " ++ (xs ++ text ")\nend\n")))
listed n xs =
    let rest = xs ++ text ")\nend\n" in
    EndsLine-append n (text ", " ++ rest) (EndsLine-append (text ", ") rest (closes xs))

switch_command-EndsLine : (name n : List ℕ) (b : Bool) → EndsLine (switch_command name n b)
unfolding switch_command
switch_command-EndsLine name n b =
    let rest = n ++ (text ", " ++ (truth b ++ text ")\nend\n")) in
    EndsLine-append (text "sec setOut():\n\t") (name ++ (text "(" ++ rest)) (
      EndsLine-append name (text "(" ++ rest)
        (EndsLine-append (text "(") rest (listed n (truth b))))

module _ {D : Type 0} ⦃d : Platform D⦄ where
  open d use {lit, lt, printed, printed_int}

  digital_out_command-EndsLine :
      (version : D) (n : ℕ) (b : Bool) → EndsLine (digital_out_command version n b)
  unfolding digital_out_command
  digital_out_command-EndsLine version n b = elim (Bool-cases (lt version (lit 2 0))) [
    | inl e ↦ rw e (switch_command-EndsLine _ _ b)
    | inr e ↦ rw e (elim (Bool-cases (ltb 15 n)) [
      | inl f ↦ rw f (switch_command-EndsLine _ _ b)
      | inr f ↦ rw f (elim (Bool-cases (ltb 7 n)) [
        | inl g ↦ rw g (switch_command-EndsLine _ _ b)
        | inr g ↦ rw g (switch_command-EndsLine _ _ b)
      ])
    ])
  ]

  analog_out_command-EndsLine :
      (version : D) (n : ℕ) (f : D) → EndsLine (analog_out_command version n f)
  unfolding analog_out_command
  analog_out_command-EndsLine version n f =
      let rest = printed_int n ++ (text ", " ++ (printed 4 f ++ text ")\nend\n")) in
      let name =
        if lt version (lit 2 0) then text "set_analog_out(" else text "set_standard_analog_out(" in
      EndsLine-append (text "sec setOut():\n\t") (name ++ rest)
        (EndsLine-append name rest (listed (printed_int n) (printed 4 f)))

  -- Every call but that of a payload outside the limits is accepted.
  abbrev pub accepted : Output D → UrDriver D → Bool
  accepted (payload m) drv = lt m drv.maximum_payload && lt drv.minimum_payload m
  accepted _ drv = true

  digital_out_command-IsProgram :
      (version : D) (n : ℕ) (b : Bool)
      → IsProgram version (digital_out n b) (digital_out_command version n b)
  unfolding digital_out_command switch_command
  digital_out_command-IsProgram version n b = elim (Bool-cases (lt version (lit 2 0))) [
    | inl e ↦ rw e (for_digital n b _ n (any_pin e))
    | inr e ↦ rw e (elim (Bool-cases (ltb 15 n)) [
      | inl f ↦ rw f (for_digital n b _ (n - 16) (tool_pin (n - 16) e (ground (arith, f))))
      | inr f ↦ rw f (elim (Bool-cases (ltb 7 n)) [
        | inl g ↦ rw g (
            for_digital n b _ (n - 8)
              (configurable_pin (n - 8) e (ground (arith, f, g)) (ground (arith, g))))
        | inr g ↦ rw g (for_digital n b _ n (standard_pin e (ground (arith, g))))
      ])
    ])
  ]

  analog_out_command-IsProgram :
      (version : D) (n : ℕ) (f : D)
      → IsProgram version (analog_out n f) (analog_out_command version n f)
  unfolding analog_out_command
  analog_out_command-IsProgram version n f = elim (Bool-cases (lt version (lit 2 0))) [
    | inl e ↦ rw e (for_old_analog n f e)
    | inr e ↦ rw e (for_analog n f e)
  ]

  -- Each call for the tool's voltage, a flag, a digital or an analog output sends one whole line
  -- to the controller, if there is a connection, and changes nothing else. The line is the program for
  -- that call on a controller of that version: it names the function, the number of the output there,
  -- and the value. So does a payload strictly between the two limits; any other payload is
  -- refused, and nothing changes.
  pub perform-sent :
      (o : Output D) (drv : UrDriver D)
      → (line : List ℕ) × IsProgram drv.firmware_version o line
        × EndsLine line
        × (perform o drv ≡ ok (if accepted o drv then sent line drv else drv))
  unfolding perform set_tool_voltage set_flag set_digital_out set_analog_out set_payload
      tool_voltage_command payload_command switch_command
  perform-sent (tool_voltage v) drv =
      let e =
        EndsLine-append (text "sec setOut():\n\tset_tool_voltage(")
          (printed_int v ++ text ")\nend\n") (closes (printed_int v)) in
      (_, for_voltage v, e, send-sent _ drv e)
  perform-sent (flag n b) drv =
      let e = switch_command-EndsLine (text "set_flag") (printed_int n) b in
      (_, for_flag n b, e, send-sent _ drv e)
  perform-sent (digital_out n b) drv =
      let e = digital_out_command-EndsLine drv.firmware_version n b in
      (_, digital_out_command-IsProgram drv.firmware_version n b, e, send-sent _ drv e)
  perform-sent (analog_out n f) drv =
      let e = analog_out_command-EndsLine drv.firmware_version n f in
      (_, analog_out_command-IsProgram drv.firmware_version n f, e, send-sent _ drv e)
  perform-sent (payload m) drv =
      let line = payload_command m in
      let e : EndsLine line =
        EndsLine-append (text "sec setOut():\n\tset_payload(") (printed 3 m ++ text ")\nend\n")
          (closes (printed 3 m)) in
      elim (Bool-cases (lt m drv.maximum_payload && lt drv.minimum_payload m)) [
        | inl h ↦ (line, for_payload m, e, rw (h, send-sent line drv e) refl)
        | inr h ↦ (line, for_payload m, e, rw h refl)
      ]
