-- ===== src/Communication/Defs.antt =====
-- `UrCommunication`: the state of include/ur_modern_driver/ur_communication.h, and the constructor,
-- `start` and `halt` of src/ur_communication.cpp. What the operating system answers is an argument.
use ur_modern_driver.Common.{
  ℕ, ◌-◌, ◌^◌, Bool, true, false, List, Option, none, some, Outcome, ok, fault, stuck, ◌>>=◌,
  if◌then◌else◌, length, replicate, overlay,
}
use ur_modern_driver.Common.Int.{ℤ, pos, ltb_ℤ}
use ur_modern_driver.Double.{Platform}
use ur_modern_driver.RobotState.Defs.{RobotState, new as new_state}
use ur_modern_driver.RobotState.Unpack.{unpack}

pub record UrCommunication (D : Type 0) : Type 0 where
  pub keepalive : Bool
  pub connected : Bool
  -- Whether `comThread_` was started and not joined.
  pub com_thread : Bool
  pub robot_state : RobotState D

module _ {D : Type 0} where
  -- The constructor, after the sockets are made and the host's name resolved; the argument is what
  -- the memory of the robot's state held.
  unfoldable pub new : RobotState D → UrCommunication D
  new memory = record {
    keepalive = false;
    connected = false;
    com_thread = false;
    robot_state = new_state memory;
  }

  -- `join` waits for the thread, and for ever if that does not come to its end; the argument says
  -- whether it does.
  unfoldable pub halt : Bool → UrCommunication D → Outcome (UrCommunication D)
  halt ended sec =
      if sec.com_thread
      then if ended then ok (record sec { keepalive = false; com_thread = false }) else stuck
      else fault

module _ {D : Type 0} ⦃d : Platform D⦄ where
  -- `bytes_read = read(...)` is unsigned: a failed read, `none`, counts as 2^32 - 1 bytes.
  unfoldable pub unpack_answer : Option (List ℕ) → RobotState D → Outcome (RobotState D)
  unpack_answer none s = unpack (replicate 512 0) (2 ^ 32 - 1) s
  unpack_answer (some bytes) s = unpack (overlay bytes (replicate 512 0)) (length bytes) s

  -- The result of `connect` on the primary port, what `read` gave there, and the pending error of
  -- the socket of the secondary port.
  unfoldable pub start :
      ℤ → Option (List ℕ) → ℤ → UrCommunication D → Outcome (Bool × UrCommunication D)
  start result answer so_error sec =
      let awake = record sec { keepalive = true } in
      if ltb_ℤ result (pos 0) then ok (false, awake) else (do
        state ← unpack_answer answer awake.robot_state
        let sec = record awake { robot_state = state }
        ok (
            if ltb_ℤ so_error (pos 0)
            then (false, sec)
            else (true, record sec { com_thread = true })))
