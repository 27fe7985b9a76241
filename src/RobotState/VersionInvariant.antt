-- ===== src/RobotState/VersionInvariant.antt =====
-- What the unpacking of a version message keeps of the state.
use ur_modern_driver.Common.{
  ℕ, suc, ◌+◌, ◌-◌, ◌^◌, ◌≤◌, ◌<◌, ◌≡◌, ◌⊎◌, inl, refl, Bool, true, false, List, ◌∷◌, arith, leb,
  ltb, ◌==◌, if◌then◌else◌, u32, length, take, drop, length-append, length-take, length-drop, load,
  copy_bytes, Keeps, Keeps-bind, Keeps-any, Keeps-if, kept, faulted,
}
use ur_modern_driver.RobotState.Defs.{
  RobotState, VersionMessage, running_mode_v18, running_mode_v30, lock, unlock,
  robot_message_version,
}
use ur_modern_driver.RobotState.Packages.{load_swapped}
use ur_modern_driver.RobotState.Unpack.{
  store_bytes, store_zero, unpack_project_name, unpack_version_numbers, unpack_build_date, extended,
  unpack_robot_message_version, unpack_robot_message,
}

-- The arrays of the version message have the sizes they are declared with.
pub record IsSized (msg : VersionMessage) : Type 0 where
  pub name : length msg.project_name ≡ 15
  pub date : length msg.build_date ≡ 25

-- The mutex is held `depth` times, and the running mode is one of the two that the code knows.
pub record IsHeld {D : Type 0} (n : ℕ) (s : RobotState D) : Type 0 where
  pub depth : s.val_lock ≡ n
  pub sized : IsSized s.version_msg
  pub running :
      (s.robot_mode_running ≡ running_mode_v18) ⊎ (s.robot_mode_running ≡ running_mode_v30)

HasLength : ℕ → List ℕ → Type 0
HasLength n xs = length xs ≡ n

store_bytes-Keeps :
    (bytes array : List ℕ) (n : ℕ)
    → HasLength n array
    → Keeps (HasLength n) (store_bytes bytes array)
unfolding store_bytes HasLength
store_bytes-Keeps bytes array n h =
    Keeps-if (leb (length bytes) (length array))
      (λ e.
        let fits : length bytes ≤ length array = ground arith in
        let joined = length-append bytes (drop (length bytes) array) in
        let rest = length-drop (length bytes) array in kept (omega (arith, joined, rest, h, fits)))
      (λ e. faulted)

store_zero-Keeps :
    (i : ℕ) (array : List ℕ) (n : ℕ) → HasLength n array → Keeps (HasLength n) (store_zero i array)
unfolding store_zero HasLength
store_zero-Keeps i array n h =
    Keeps-if (ltb i (length array))
      (λ e.
        let inside : i < length array = ground arith in
        let joined = length-append (take i array) (0 ∷ drop (suc i) array) in
        let front = length-take i array (omega arith) in
        let rest = length-drop (suc i) array in
        kept (omega (arith, joined, front, rest, h, inside)))
      (λ e. faulted)

HasSized : VersionMessage × ℕ → Type 0
HasSized r = IsSized r.0

unpack_project_name-Keeps :
    (buf : List ℕ) (offset : ℕ) (msg : VersionMessage)
    → IsSized msg
    → Keeps HasSized (unpack_project_name buf offset msg)
unfolding unpack_project_name HasSized HasLength
unpack_project_name-Keeps buf offset msg h = Keeps-any (load 1 buf offset) λ size.
    Keeps-any (copy_bytes buf (u32 (offset + 1)) (extended 64 size)) λ bytes.
      Keeps-bind (store_bytes-Keeps bytes msg.project_name 15 h.name) λ name hn.
        Keeps-bind (store_zero-Keeps (extended 32 size) name 15 hn)
          λ name' hn'. kept record { name = hn'; date = h.date }

unpack_version_numbers-Keeps :
    (buf : List ℕ) (offset : ℕ) (msg : VersionMessage)
    → IsSized msg
    → Keeps HasSized (unpack_version_numbers buf offset msg)
unfolding unpack_version_numbers HasSized
unpack_version_numbers-Keeps buf offset msg h = Keeps-any (load 1 buf offset) λ major.
    Keeps-any (load 1 buf (u32 (offset + 1))) λ minor.
      Keeps-any (load_swapped 4 buf (u32 (u32 (offset + 1) + 1)))
        λ svn. kept record { name = h.name; date = h.date }

unpack_build_date-Keeps :
    (buf : List ℕ) (offset len : ℕ) (msg : VersionMessage)
    → IsSized msg
    → Keeps IsSized (unpack_build_date buf offset len msg)
unfolding unpack_build_date HasLength
unpack_build_date-Keeps buf offset len msg h =
    Keeps-any
      (copy_bytes buf offset (if leb offset len then len - offset else 2 ^ 64 + len - offset))
      λ bytes. Keeps-bind (store_bytes-Keeps bytes msg.build_date 25 h.date) λ date hd.
        Keeps-bind (store_zero-Keeps (u32 (len + 2 ^ 32 - offset)) date 25 hd)
          λ date' hd'. kept record { name = h.name; date = hd' }

running_mode-if :
    (b : Bool) (mode : ℕ)
    → (mode ≡ running_mode_v18) ⊎ (mode ≡ running_mode_v30)
    → ((if b then running_mode_v18 else mode) ≡ running_mode_v18)
      ⊎ ((if b then running_mode_v18 else mode) ≡ running_mode_v30)
running_mode-if true mode h = inl refl
running_mode-if false mode h = h

module _ {D : Type 0} (depth : ℕ) where
  unpack_robot_message_version-Keeps :
      (buf : List ℕ) (offset len : ℕ) (s : RobotState D)
      → IsHeld depth s
      → Keeps (IsHeld depth) (unpack_robot_message_version buf offset len s)
  unfolding unpack_robot_message_version HasSized
  unpack_robot_message_version-Keeps buf offset len s h =
      Keeps-bind (unpack_project_name-Keeps buf offset s.version_msg h.sized) λ (msg1, o1) h1.
        Keeps-bind (unpack_version_numbers-Keeps buf o1 msg1 h1) λ (msg2, o2) h2.
          Keeps-bind (unpack_build_date-Keeps buf o2 len msg2 h2) λ msg h3. kept record {
            depth = h.depth;
            sized = h3;
            running = running_mode-if (ltb msg.major_version 2) s.robot_mode_running h.running;
          }

pub lock-IsHeld :
    {D : Type 0} (depth : ℕ) (s : RobotState D) → IsHeld depth s → IsHeld (suc depth) (lock s)
unfolding lock
lock-IsHeld depth s h = record {
  depth = omega (arith, h.depth);
  sized = h.sized;
  running = h.running;
}

pub unlock-IsHeld :
    {D : Type 0} (depth : ℕ) (s : RobotState D) → IsHeld (suc depth) s → IsHeld depth (unlock s)
unfolding unlock
unlock-IsHeld depth s h = record {
  depth = omega (arith, h.depth);
  sized = h.sized;
  running = h.running;
}

pub unpack_robot_message-Keeps :
    {D : Type 0} (depth : ℕ) (buf : List ℕ) (offset len : ℕ) (s : RobotState D)
    → IsHeld depth s
    → Keeps (IsHeld depth) (unpack_robot_message buf offset len s)
unfolding unpack_robot_message
unpack_robot_message-Keeps depth buf offset len s h =
    let held = lock-IsHeld depth s h in
    Keeps-any (load 8 buf (u32 (offset + 5))) λ timestamp.
      Keeps-any (load 1 buf (u32 (u32 (offset + 5) + 8))) λ source.
        Keeps-any (load 1 buf (u32 (u32 (u32 (offset + 5) + 8) + 1))) λ robot_message_type.
          Keeps-if (robot_message_type == robot_message_version)
            (λ e.
              Keeps-bind
                (unpack_robot_message_version-Keeps (suc depth) buf _ len _ (record {
                  depth = held.depth;
                  sized = record { name = held.sized.name; date = held.sized.date };
                  running = held.running;
                }))
                (λ s' h'. kept (unlock-IsHeld depth s' h')))
            (λ e. kept h)
