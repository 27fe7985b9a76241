-- ===== src/RobotState/Unpack.antt =====
-- `unpack`, `unpackRobotMessage`, `unpackRobotMessageVersion` and `unpackRobotState` of
-- src/robot_state.cpp. The loops run on fuel: a run that needs more rounds than there are bytes
-- comes to an offset for the second time, and then never ends.
use ur_modern_driver.Common.{
  ℕ, zero, suc, ◌+◌, ◌-◌, ◌^◌, true, false, List, ◌∷◌, ◌++◌, Outcome, ok, fault, stuck, ◌>>=◌, leb,
  ltb, ◌==◌, if◌then◌else◌, u32, length, drop, take, load, copy_bytes,
}
use ur_modern_driver.Double.{Platform}
use ur_modern_driver.RobotState.Defs.{
  RobotState, VersionMessage, robot_state_message, robot_message, robot_mode_package,
  masterboard_package, robot_message_version, running_mode_v18, lock, unlock,
}
use ur_modern_driver.RobotState.Packages.{
  load_swapped, unpack_robot_mode, unpack_robot_state_masterboard,
}

-- `memcpy` to the start of an array, and a write of one byte; both fault past its end.
unfoldable pub store_bytes : List ℕ → List ℕ → Outcome (List ℕ)
store_bytes bytes array =
    if leb (length bytes) (length array) then ok (bytes ++ drop (length bytes) array) else fault

unfoldable pub store_zero : ℕ → List ℕ → Outcome (List ℕ)
store_zero i array =
    if ltb i (length array) then ok (take i array ++ (0 ∷ drop (suc i) array)) else fault

-- An int8_t as a `size_t` or an unsigned offset: a negative one becomes huge.
abbrev pub extended : ℕ → ℕ → ℕ
extended width x = if ltb x 128 then x else 2 ^ width - 256 + x

-- The project's name, of a length that comes first.
unfoldable pub unpack_project_name : List ℕ → ℕ → VersionMessage → Outcome (VersionMessage × ℕ)
unpack_project_name buf offset msg = do
  project_name_size ← load 1 buf offset
  let offset = u32 (offset + 1)
  bytes ← copy_bytes buf offset (extended 64 project_name_size)
  project_name ← store_bytes bytes msg.project_name
  let offset = u32 (offset + extended 32 project_name_size)
  project_name ← store_zero (extended 32 project_name_size) project_name
  ok (record msg { project_name_size = project_name_size; project_name = project_name }, offset)

unfoldable pub unpack_version_numbers : List ℕ → ℕ → VersionMessage → Outcome (VersionMessage × ℕ)
unpack_version_numbers buf offset msg = do
  major_version ← load 1 buf offset
  let offset = u32 (offset + 1)
  minor_version ← load 1 buf offset
  let offset = u32 (offset + 1)
  svn_revision ← load_swapped 4 buf offset
  let offset = u32 (offset + 4)
  let msg = record msg {
    major_version = major_version;
    minor_version = minor_version;
    svn_revision = svn_revision;
  }
  ok (msg, offset)

-- The rest of the message, `len - offset` bytes: the size is computed in 64 bits and the index of
-- the last byte in 32.
unfoldable pub unpack_build_date : List ℕ → ℕ → ℕ → VersionMessage → Outcome VersionMessage
unpack_build_date buf offset len msg = do
  bytes ← copy_bytes buf offset (if leb offset len then len - offset else 2 ^ 64 + len - offset)
  build_date ← store_bytes bytes msg.build_date
  build_date ← store_zero (u32 (len + 2 ^ 32 - offset)) build_date
  ok (record msg { build_date = build_date })

module _ {D : Type 0} where
  unfoldable pub unpack_robot_message_version :
      List ℕ → ℕ → ℕ → RobotState D → Outcome (RobotState D)
  unpack_robot_message_version buf offset len s = do
    (msg, offset) ← unpack_project_name buf offset s.version_msg
    (msg, offset) ← unpack_version_numbers buf offset msg
    msg ← unpack_build_date buf offset len msg
    let running = if ltb msg.major_version 2 then running_mode_v18 else s.robot_mode_running
    ok (record s { version_msg = msg; robot_mode_running = running })

  unfoldable pub unpack_robot_message : List ℕ → ℕ → ℕ → RobotState D → Outcome (RobotState D)
  unpack_robot_message buf offset len s = do
    let offset = u32 (offset + 5)
    timestamp ← load 8 buf offset
    let offset = u32 (offset + 8)
    source ← load 1 buf offset
    let offset = u32 (offset + 1)
    robot_message_type ← load 1 buf offset
    let offset = u32 (offset + 1)
    if robot_message_type == robot_message_version
        then (do
          let s = lock s
          let msg = record (s.version_msg) {
            timestamp = timestamp;
            source = source;
            robot_message_type = robot_message_type;
          }
          s ← unpack_robot_message_version buf offset len (record s { version_msg = msg })
          ok (unlock s))
        else ok s

module _ {D : Type 0} ⦃d : Platform D⦄ where
  -- The `switch` on the type of a package.
  unfoldable pub unpack_package : ℕ → List ℕ → ℕ → RobotState D → Outcome (RobotState D)
  unpack_package package_type buf offset s =
      if package_type == robot_mode_package
      then (do s ← unpack_robot_mode buf (u32 (offset + 5)) (lock s); ok (unlock s))
      else if package_type == masterboard_package
      then (do s ← unpack_robot_state_masterboard buf (u32 (offset + 5)) (lock s); ok (unlock s))
      else ok s

  -- One round of the loop over the packages, with the offset that follows.
  unfoldable pub package_round : List ℕ → ℕ → RobotState D → Outcome (RobotState D × ℕ)
  package_round buf offset s = do
    length ← load_swapped 4 buf offset
    package_type ← load 1 buf (offset + 4)
    s ← unpack_package package_type buf offset s
    ok (s, u32 (offset + length))

  unfoldable pub package_loop : ℕ → List ℕ → ℕ → ℕ → RobotState D → Outcome (RobotState D)
  package_loop zero buf offset len s = stuck
  package_loop (suc fuel) buf offset len s = elim (ltb offset len) [
    | true ↦ package_round buf offset s >>= λ r. package_loop fuel buf r.1 len r.0
    | false ↦ ok s
  ]

  unfoldable pub unpack_robot_state : List ℕ → ℕ → ℕ → RobotState D → Outcome (RobotState D)
  unpack_robot_state buf offset len s = do
    s ← package_loop (length buf + 1) buf (u32 (offset + 5)) len s
    ok (record s { new_data_available = true; notified = s.notified + 1 })

  -- The `switch` on the type of a message.
  unfoldable pub unpack_message : ℕ → List ℕ → ℕ → ℕ → RobotState D → Outcome (RobotState D)
  unpack_message message_type buf offset len s =
      if message_type == robot_message
      then unpack_robot_message buf offset len s
      else if message_type == robot_state_message
      then unpack_robot_state buf offset len s
      else ok s

  -- One round of the loop over the messages once the length is known; `rest` is the next round.
  unfoldable pub message_round :
      (ℕ → RobotState D → Outcome (RobotState D))
      → List ℕ
      → ℕ
      → ℕ
      → ℕ
      → RobotState D
      → Outcome (RobotState D)
  message_round rest buf buf_length offset len s =
      if ltb buf_length (u32 (len + offset)) then ok s else (do
        message_type ← load 1 buf (offset + 4)
        s ← unpack_message message_type buf offset len s
        rest (u32 (offset + len)) s)

  unfoldable pub message_loop : ℕ → List ℕ → ℕ → ℕ → RobotState D → Outcome (RobotState D)
  message_loop zero buf buf_length offset s = stuck
  message_loop (suc fuel) buf buf_length offset s = elim (ltb offset buf_length) [
    | true ↦ load_swapped 4 buf offset >>= λ len.
        message_round (message_loop fuel buf buf_length) buf buf_length offset len s
    | false ↦ ok s
  ]

  -- The buffer is the whole array; `buf_length` of its bytes are new.
  unfoldable pub unpack : List ℕ → ℕ → RobotState D → Outcome (RobotState D)
  unpack buf buf_length s = message_loop (length buf + 1) buf buf_length 0 s
