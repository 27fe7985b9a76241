-- ===== src/Communication/Handshake.antt =====
-- `UrCommunication::start`: the version message on the primary port, and what comes of a read that
-- fails.
use ur_modern_driver.Common.{
  ℕ, ◌+◌, ◌-◌, ◌^◌, ◌≤◌, ◌<◌, ◌≡◌, refl, ◌∙◌, [], inl, true, false, List, none, some, ok, stuck,
  arith, Returns, returns, Returns-bind, length, drop, replicate, overlay, bind-ok, load,
  copy_bytes-Returns, ltb, leb, le→leb, lt→ltb, u32, length-take, length-append, length-drop, take,
  ◌∷◌, load-eq-ok, suc, swap_bytes,
}
use ur_modern_driver.Common.Int.{ℤ, pos, ltb_ℤ}
use ur_modern_driver.Double.{Platform}
use ur_modern_driver.RobotState.Defs.{
  RobotState, VersionMessage, robot_message_version, robot_message, get_version, lock, unlock,
}
use ur_modern_driver.RobotState.Packages.{load_swapped}
use ur_modern_driver.RobotState.Unpack.{
  store_bytes, store_zero, unpack_project_name, unpack_version_numbers, unpack_build_date,
  unpack_robot_message_version, unpack_robot_message, unpack_message, unpack,
}
use ur_modern_driver.RobotState.Framing.{Frame, for_frames}
use ur_modern_driver.RobotState.Messages.{unpack-eq-for_frames, message_loop-stays}
use ur_modern_driver.RobotState.VersionInvariant.{IsSized, IsHeld}
use ur_modern_driver.Communication.Defs.{UrCommunication, unpack_answer, start}

-- A version message at the start of a buffer: the project's name has `name` bytes, the build's date
-- `date` bytes, and between them stand the numbers.
pub record IsVersion (buf : List ℕ) (len name date major minor svn : ℕ) : Type 0 where
  pub inside : len ≤ length buf
  pub size : len ≡ 22 + name + date
  pub short_name : name < 15
  pub short_date : date < 25
  pub kind : load 1 buf 14 ≡ ok robot_message_version
  pub name_size : load 1 buf 15 ≡ ok name
  pub major_at : load 1 buf (16 + name) ≡ ok major
  pub minor_at : load 1 buf (17 + name) ≡ ok minor
  pub svn_at : load_swapped 4 buf (18 + name) ≡ ok svn

store_bytes-Returns :
    (bytes array : List ℕ)
    → length bytes ≤ length array
    → Returns (λ xs. length xs ≡ length array) (store_bytes bytes array)
unfolding store_bytes
store_bytes-Returns bytes array h = rw (le→leb (length bytes) (length array) h) (
    returns (
      omega
        (arith, length-append bytes (drop (length bytes) array), length-drop (length bytes) array)))

store_zero-Returns :
    (i : ℕ) (array : List ℕ)
    → i < length array
    → Returns (λ xs. length xs ≡ length array) (store_zero i array)
unfolding store_zero
store_zero-Returns i array h = rw (lt→ltb i (length array) h) (
    returns (
      omega (
        arith,
        length-append (take i array) (0 ∷ drop (suc i) array),
        length-take i array (omega arith),
        length-drop (suc i) array,
      )))

module _ (buf : List ℕ) (len name date major minor svn : ℕ) where
  unpack_project_name-Returns :
      (msg : VersionMessage)
      → IsVersion buf len name date major minor svn
      → IsSized msg
      → Returns (λ r. (r.1 ≡ 16 + name) × IsSized r.0) (unpack_project_name buf 15 msg)
  unfolding unpack_project_name
  unpack_project_name-Returns msg v h =
      let small : ltb name 128 ≡ true = lt→ltb name 128 (omega (arith, v.short_name)) in
      let room : 16 + name ≤ length buf = omega (arith, v.inside, v.size) in
      rw (v.name_size, small)
        (Returns-bind (copy_bytes-Returns buf 16 name room) λ bytes hb.
          Returns-bind
            (store_bytes-Returns bytes msg.project_name (omega (arith, hb, h.name, v.short_name)))
            λ xs hx.
              Returns-bind (store_zero-Returns name xs (omega (arith, hx, h.name, v.short_name)))
                λ ys hy. returns (
                  omega (arith, v.short_name),
                  record { name = omega (arith, hx, hy, h.name); date = h.date },
                ))

  unpack_version_numbers-Returns :
      (msg : VersionMessage)
      → IsVersion buf len name date major minor svn
      → IsSized msg
      → Returns
          (λ r.
            (r.1 ≡ 22 + name)
            × (r.0.major_version ≡ major)
            × (r.0.minor_version ≡ minor)
            × (r.0.svn_revision ≡ svn)
            × IsSized r.0)
          (unpack_version_numbers buf (16 + name) msg)
  unfolding unpack_version_numbers
  unpack_version_numbers-Returns msg v h =
      let e1 : u32 (16 + name + 1) ≡ 17 + name = omega (arith, v.short_name) in
      let e2 : u32 (17 + name + 1) ≡ 18 + name = omega (arith, v.short_name) in
      let e3 : u32 (18 + name + 4) ≡ 22 + name = omega (arith, v.short_name) in
      rw (v.major_at, e1, v.minor_at, e2, v.svn_at, e3)
        (returns (refl, refl, refl, refl, record { name = h.name; date = h.date }))

  unpack_build_date-Returns :
      (msg : VersionMessage)
      → IsVersion buf len name date major minor svn
      → IsSized msg
      → Returns
          (λ m.
            (m.major_version ≡ msg.major_version)
            × (m.minor_version ≡ msg.minor_version)
            × (m.svn_revision ≡ msg.svn_revision))
          (unpack_build_date buf (22 + name) len msg)
  unfolding unpack_build_date
  unpack_build_date-Returns msg v h =
      let before : leb (22 + name) len ≡ true = le→leb (22 + name) len (omega (arith, v.size)) in
      let e1 : len - (22 + name) ≡ date = omega (arith, v.size) in
      let e2 : u32 (len + 2 ^ 32 - (22 + name)) ≡ date = omega (arith, v.size, v.short_date) in
      let room : 22 + name + date ≤ length buf = omega (arith, v.size, v.inside) in
      rw (before, e1, e2)
        (Returns-bind (copy_bytes-Returns buf (22 + name) date room) λ bytes hb.
          Returns-bind
            (store_bytes-Returns bytes msg.build_date (omega (arith, hb, h.date, v.short_date)))
            λ xs hx.
              Returns-bind (store_zero-Returns date xs (omega (arith, hx, h.date, v.short_date)))
                λ ys hy. returns (refl, refl, refl))

module _ {D : Type 0} (major minor svn : ℕ) where
  -- The versions of the message, and the lock of before.
  abbrev HasVersion : RobotState D → RobotState D → Type 0
  HasVersion s t =
      (t.version_msg.major_version ≡ major)
      × (t.version_msg.minor_version ≡ minor)
      × (t.version_msg.svn_revision ≡ svn)
      × (t.val_lock ≡ s.val_lock)

module _ {D : Type 0} (buf : List ℕ) (len name date major minor svn : ℕ) where
  unpack_robot_message_version-Returns :
      (s : RobotState D)
      → IsVersion buf len name date major minor svn
      → IsSized s.version_msg
      → Returns (HasVersion major minor svn s) (unpack_robot_message_version buf 15 len s)
  unfolding unpack_robot_message_version
  unpack_robot_message_version-Returns s v h =
      Returns-bind (unpack_project_name-Returns buf len name date major minor svn s.version_msg v h)
        λ (m1, o1) (e1, h1). rw e1 (
          Returns-bind (unpack_version_numbers-Returns buf len name date major minor svn m1 v h1)
            λ (m2, o2) (e2, a2, b2, c2, h2). rw e2 (
              Returns-bind (unpack_build_date-Returns buf len name date major minor svn m2 v h2)
                λ m3 (a3, b3, c3). returns (a3 ∙ a2, b3 ∙ b2, c3 ∙ c2, refl)))

  unpack_robot_message-version :
      (s : RobotState D)
      → IsVersion buf len name date major minor svn
      → IsSized s.version_msg
      → Returns (HasVersion major minor svn s) (unpack_robot_message buf 0 len s)
  unfolding unpack_robot_message lock unlock
  unpack_robot_message-version s v h =
      let room : 22 ≤ length buf = omega (arith, v.size, v.inside) in
      rw (load-eq-ok 8 buf 5 (omega arith), load-eq-ok 1 buf 13 (omega arith), v.kind)
        (Returns-bind
          (unpack_robot_message_version-Returns _ v record { name = h.name; date = h.date })
          λ t (a, b, c, l). returns (a, b, c, omega (arith, l)))

-- What `read` leaves in the buffer of `start`.
abbrev pub answer_buffer : List ℕ → List ℕ
answer_buffer bytes = overlay bytes (replicate 512 0)

module _ {D : Type 0} ⦃d : Platform D⦄ where
  open d use {lit, add, mul, of_int}

  one_message :
      (bytes : List ℕ) (name date major minor svn : ℕ) (s : RobotState D)
      → length bytes ≤ 512
      → load_swapped 4 (answer_buffer bytes) 0 ≡ ok (length bytes)
      → load 1 (answer_buffer bytes) 4 ≡ ok robot_message
      → IsVersion (answer_buffer bytes) (length bytes) name date major minor svn
      → unpack_answer (some bytes) s
        ≡ unpack_message robot_message (answer_buffer bytes) 0 (length bytes) s
  unfolding unpack_answer for_frames
  one_message bytes name date major minor svn s l e1 e2 v =
      let n = length bytes in
      let f : Frame = record { kind = robot_message; size = n } in
      unpack-eq-for_frames (answer_buffer bytes) n n (f ∷ []) s v.inside (omega arith) (omega arith)
        (e1, e2, omega (arith, v.size), omega arith, omega arith) (inl (omega arith))
      ∙ bind-ok (unpack_message robot_message (answer_buffer bytes) 0 n s)

  -- The controller accepts both connections and answers with one version message, whose name and
  -- date fit the arrays: `start` succeeds, its thread runs, and the state reports the version of
  -- that message and is not locked.
  pub start-version :
      (bytes : List ℕ) (name date major minor svn : ℕ) (result so_error : ℤ)
      (sec : UrCommunication D)
      → ltb_ℤ result (pos 0) ≡ false
      → ltb_ℤ so_error (pos 0) ≡ false
      → length bytes ≤ 512
      → load_swapped 4 (answer_buffer bytes) 0 ≡ ok (length bytes)
      → load 1 (answer_buffer bytes) 4 ≡ ok robot_message
      → IsVersion (answer_buffer bytes) (length bytes) name date major minor svn
      → IsHeld 0 sec.robot_state
      → Returns
          (λ r.
            (r.0 ≡ true)
            × (r.1.com_thread ≡ true)
            × (r.1.keepalive ≡ true)
            × (r.1.robot_state.val_lock ≡ 0)
            × (get_version r.1.robot_state
                ≡ add
                    (add (of_int major) (mul (lit 1 1) (of_int minor)))
                    (mul (lit 1 7) (of_int svn))))
          (start result (some bytes) so_error sec)
  unfolding start unpack_message get_version
  start-version bytes name date major minor svn result so_error sec e1 e2 l len kind v h =
      rw (e1, one_message bytes name date major minor svn sec.robot_state l len kind v)
        (Returns-bind
          (unpack_robot_message-version (answer_buffer bytes) (length bytes) name date major minor
            svn sec.robot_state v h.sized)
          λ t (a, b, c, free).
            rw e2 (returns (refl, refl, refl, free ∙ h.depth, rw (a, b, c) refl)))

  -- A read that fails on the primary port: `start` does not come back. The failed read counts as
  -- 2^32 - 1 bytes, and the first message of the cleared buffer has length 0.
  pub start-stuck :
      (result so_error : ℤ) (sec : UrCommunication D)
      → ltb_ℤ result (pos 0) ≡ false
      → start result none so_error sec ≡ stuck
  unfolding start unpack_answer unpack load_swapped load swap_bytes
  start-stuck result so_error sec e =
      rw
        (
          e,
          message_loop-stays 513 (replicate 512 0) (2 ^ 32 - 1) 0 0 sec.robot_state (omega arith)
              (omega arith) refl refl (λ e. omega (arith, e)) (λ e. omega (arith, e)),
        )
        refl
