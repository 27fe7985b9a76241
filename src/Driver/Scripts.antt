-- ===== src/Driver/Scripts.antt =====
-- The URScript programs that the calls for outputs and payload stand for: a function of the
-- controller and its arguments.
use ur_modern_driver.Common.{ℕ, ◌+◌, ◌<◌, ◌≡◌, Bool, true, false, List, [], ◌∷◌, ◌++◌, text}
use ur_modern_driver.Double.{Platform}
use ur_modern_driver.Driver.Defs.{truth}

-- A call of one of the methods.
pub data Output (D : Type 0) : Type 0 where
  tool_voltage : ℕ → Output D
  flag digital_out : ℕ → Bool → Output D
  analog_out : ℕ → D → Output D
  payload : D → Output D

abbrev listed : List (List ℕ) → List ℕ
listed [] = text ")\nend\n"
listed (a ∷ []) = a ++ text ")\nend\n"
listed (a ∷ b ∷ rest) = a ++ (text ", " ++ listed (b ∷ rest))

-- A program that calls one function.
abbrev pub script : List ℕ → List (List ℕ) → List ℕ
script name args = text "sec setOut():\n\t" ++ (name ++ (text "(" ++ listed args))

-- The function for a digital output and its number there. A controller before version 2.0 has one
-- function for all of them; later ones have eight standard outputs, eight configurable ones, and
-- those of the tool.
pub data IsPin (old : Bool) (n : ℕ) : List ℕ → ℕ → Type 0 where
  any_pin : old ≡ true → IsPin old n (text "set_digital_out") n
  standard_pin : old ≡ false → n < 8 → IsPin old n (text "set_standard_digital_out") n
  configurable_pin :
      (k : ℕ)
      → old ≡ false
      → k < 8
      → n ≡ 8 + k
      → IsPin old n (text "set_configurable_digital_out") k
  tool_pin : (k : ℕ) → old ≡ false → n ≡ 16 + k → IsPin old n (text "set_tool_digital_out") k

-- The program for a call, on a controller of this version.
pub data IsProgram {D : Type 0} ⦃d : Platform D⦄ (version : D) : Output D → List ℕ → Type 0 where
  for_voltage :
      (v : ℕ)
      → IsProgram version (tool_voltage v) (script (text "set_tool_voltage") (d.printed_int v ∷ []))
  for_flag :
      (n : ℕ) (b : Bool)
      → IsProgram version (flag n b) (script (text "set_flag") (d.printed_int n ∷ truth b ∷ []))
  for_digital :
      (n : ℕ) (b : Bool) (name : List ℕ) (k : ℕ)
      → IsPin (d.lt version (d.lit 2 0)) n name k
      → IsProgram version (digital_out n b) (script name (d.printed_int k ∷ truth b ∷ []))
  for_old_analog :
      (n : ℕ) (f : D)
      → d.lt version (d.lit 2 0) ≡ true
      → IsProgram version
          (analog_out n f)
          (script (text "set_analog_out") (d.printed_int n ∷ d.printed 4 f ∷ []))
  for_analog :
      (n : ℕ) (f : D)
      → d.lt version (d.lit 2 0) ≡ false
      → IsProgram version
          (analog_out n f)
          (script (text "set_standard_analog_out") (d.printed_int n ∷ d.printed 4 f ∷ []))
  for_payload :
      (m : D) → IsProgram version (payload m) (script (text "set_payload") (d.printed 3 m ∷ []))
