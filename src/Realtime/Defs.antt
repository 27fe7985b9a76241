-- ===== src/Realtime/Defs.antt =====
-- `UrRealtimeCommunication`: the state of include/ur_modern_driver/ur_realtime_communication.h and
-- the commands of src/ur_realtime_communication.cpp. The socket is the list of the `write` calls
-- made on it.
use ur_modern_driver.Common.{
  ℕ, ◌+◌, Bool, true, false, not, ◌||◌, List, [], ◌∷◌, ◌++◌, none, some, Outcome, ok, fault, ◌>>=◌,
  ◌==◌, if◌then◌else◌, u32, text, get_last?, length, ltb, stuck,
}
use ur_modern_driver.Common.Int.{ℤ, pos, ltb_ℤ}
use ur_modern_driver.Double.{Platform}
use ur_modern_driver.RobotStateRt.Defs.{RobotStateRt, new as new_state}
use ur_modern_driver.RobotStateRt.Getters.{get_version}

pub record Realtime (D : Type 0) : Type 0 where
  pub safety_count_max : ℕ  -- unsigned int
  pub safety_count : ℕ  -- unsigned int
  pub local_ip : List ℕ
  pub keepalive : Bool
  pub connected : Bool
  -- Whether `comThread_` was started and not joined.
  pub com_thread : Bool
  pub robot_state : RobotStateRt D
  pub sent : List (List ℕ)

module _ {D : Type 0} ⦃d : Platform D⦄ where
  open d use {lit, le, eq, printed}

  -- The constructor, after the socket is made and the host's name resolved.
  unfoldable pub new : ℕ → Realtime D
  new safety_count_max = record {
    safety_count_max = u32 safety_count_max;
    safety_count = u32 (safety_count_max + 1);
    local_ip = [];
    keepalive = false;
    connected = false;
    com_thread = false;
    robot_state = new_state;
    sent = [];
  }

  unfoldable pub speeds : D → D → D → D → D → D → List ℕ
  speeds q0 q1 q2 q3 q4 q5 =
      text "speedj(["
      ++ (printed 5 q0
          ++ (text ", "
              ++ (printed 5 q1
                  ++ (text ", "
                      ++ (printed 5 q2
                          ++ (text ", "
                              ++ (printed 5 q3
                                  ++ (text ", "
                                      ++ (printed 5 q4
                                          ++ (text ", " ++ (printed 5 q5 ++ text "], ")))))))))))

  -- The command for a firmware version.
  unfoldable pub speed_command : D → D → D → D → D → D → D → D → List ℕ
  unfolding speeds
  speed_command version q0 q1 q2 q3 q4 q5 acc =
      let joints = speeds q0 q1 q2 q3 q4 q5 in
      if le (lit 33 1) version
      then joints ++ (printed 6 acc ++ text ", 0.008)\n")
      else if le (lit 31 1) version
      then joints ++ (printed 6 acc ++ text ")\n")
      else joints ++ (printed 6 acc ++ text ", 0.02)\n")

module _ {D : Type 0} where
  -- `inp.back()` of an empty string is undefined.
  unfoldable pub add_command_to_queue : List ℕ → Realtime D → Outcome (Realtime D)
  add_command_to_queue inp rt = elim (get_last? inp) [
    | none ↦ fault
    | some c ↦
        let inp' = if c == b'\n' then inp else inp ++ (b'\n' ∷ []) in
        ok (if rt.connected then record rt { sent = rt.sent ++ (inp' ∷ []) } else rt)
  ]

  unfoldable pub set_safety_count_max : ℕ → Realtime D → Realtime D
  set_safety_count_max inp rt = record rt { safety_count_max = u32 inp }

  unfoldable pub get_local_ip : Realtime D → List ℕ
  get_local_ip rt = rt.local_ip

  -- What the operating system answers to `start`: the socket's pending error, the result of
  -- `getsockname` and the address as text.
  unfoldable pub start : ℤ → ℤ → List ℕ → Realtime D → Realtime D × Bool
  start so_error err str rt =
      let awake = record rt { keepalive = true } in
      if ltb_ℤ so_error (pos 0)
      then (awake, false)
      else if ltb_ℤ err (pos 0)
      then (awake, false)
      else (record awake { local_ip = str; com_thread = true }, true)

  -- `join` of a thread that was never started throws, and nobody catches it. Otherwise it waits for
  -- the thread, and for ever if that does not come to its end; the argument says whether it does.
  unfoldable pub halt : Bool → Realtime D → Outcome (Realtime D)
  halt ended rt =
      if rt.com_thread
      then if ended then ok (record rt { keepalive = false; com_thread = false }) else stuck
      else fault

module _ {D : Type 0} ⦃d : Platform D⦄ where
  open d use {lit, le, eq, printed}

  unfoldable pub moves : D → D → D → D → D → D → Bool
  moves q0 q1 q2 q3 q4 q5 =
      not (eq q0 (lit 0 0))
      || not (eq q1 (lit 0 0))
      || not (eq q2 (lit 0 0))
      || not (eq q3 (lit 0 0))
      || not (eq q4 (lit 0 0))
      || not (eq q5 (lit 0 0))

  -- `sprintf` writes the command with the zero that ends it into 1024 bytes, and past them if it is
  -- longer.
  unfoldable pub set_speed : D → D → D → D → D → D → D → Realtime D → Outcome (Realtime D)
  set_speed q0 q1 q2 q3 q4 q5 acc rt = do
    (version, state) ← get_version rt.robot_state
    let cmd = speed_command version q0 q1 q2 q3 q4 q5 acc
    rt ←
        if ltb (length cmd) 1024
        then add_command_to_queue cmd (record rt { robot_state = state })
        else fault
    ok (if moves q0 q1 q2 q3 q4 q5 then record rt { safety_count = 0 } else rt)
