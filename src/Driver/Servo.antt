-- ===== src/Driver/Servo.antt =====
-- The reverse connection of src/ur_driver.cpp: the robot's program opens it, and `servoj` writes
-- the joints on it as seven numbers in network order.
use ur_modern_driver.Common.{
  ℕ, zero, suc, ◌+◌, ◌*◌, ◌≡◌, refl, ap, ◌∙◌, Bool, true, false, List, [], ◌∷◌, ◌++◌, map, Outcome,
  ok, ◌>>=◌, ◌==◌, if◌then◌else◌, arith, u32, length, length-append, get_elem?, take, drop,
  take-append, drop-append, or_fault, swap_bytes, le_bytes, be_value, be_value-htonl,
}
use ur_modern_driver.Common.Int.{ℤ, pos, ltb_ℤ}
use ur_modern_driver.Double.{Platform}
use ur_modern_driver.RobotStateRt.Getters.{get_q_actual}
use ur_modern_driver.Driver.Defs.{UrDriver}

-- `htonl` and the four bytes that are written of it.
unfoldable pub htonl_bytes : ℕ → List ℕ
htonl_bytes x = le_bytes 4 (swap_bytes 4 x)

module _ {D : Type 0} ⦃d : Platform D⦄ where
  open d use {lit, mul, to_int}

  -- A position times MULT_JOINTSTATE_, as an int.
  abbrev pub joint_int : D → ℕ
  joint_int x = to_int (mul x (lit 1_000_000 0))

  -- The loop over `i`, with the rounds left.
  unfoldable pub joint_bytes : ℕ → ℕ → List D → Outcome (List ℕ)
  joint_bytes zero i positions = ok []
  joint_bytes (suc n) i positions = do
    x ← or_fault (get_elem? positions i)
    rest ← joint_bytes n (i + 1) positions
    ok (htonl_bytes (joint_int x) ++ rest)

  unfoldable pub servoj : List D → ℕ → UrDriver D → Outcome (UrDriver D)
  servoj positions keepalive drv =
      if drv.reverse_connected
      then (do
        buf ← joint_bytes 6 0 positions
        ok (record drv {
          reverse_sent = drv.reverse_sent ++ ((buf ++ htonl_bytes keepalive) ∷ []);
        }))
      else ok drv

  -- The descriptor that `accept` gives.
  unfoldable pub open_servo : ℤ → UrDriver D → Bool × UrDriver D
  open_servo new_sockfd drv =
      if ltb_ℤ new_sockfd (pos 0)
      then (false, drv)
      else (true, record drv { reverse_connected = true })

  unfoldable pub close_servo : List D → UrDriver D → Outcome (UrDriver D)
  close_servo positions drv = do
    drv ← if length positions == 6 then servoj positions 0 drv else (do
      (q, state) ← get_q_actual drv.rt_interface.robot_state
      servoj q 0 (record drv { rt_interface = record (drv.rt_interface) { robot_state = state } }))
    ok (record drv { reverse_connected = false })

-- What the robot's program reads: four bytes for each number, the highest first.
unfoldable pub read_integers : ℕ → List ℕ → List ℕ
read_integers zero bytes = []
read_integers (suc n) bytes = be_value (take 4 bytes) ∷ read_integers n (drop 4 bytes)

be_value-htonl_bytes : (x : ℕ) → be_value (htonl_bytes x) ≡ u32 x
unfolding htonl_bytes
be_value-htonl_bytes x = be_value-htonl x

length-htonl_bytes : (x : ℕ) → length (htonl_bytes x) ≡ 4
unfolding htonl_bytes le_bytes
length-htonl_bytes x = refl

read_integers-append :
    (n x : ℕ) (front rest : List ℕ)
    → length front ≡ 4
    → be_value front ≡ x
    → read_integers (suc n) (front ++ rest) ≡ x ∷ read_integers n rest
unfolding read_integers
read_integers-append n x front rest h e =
    rw (take-append front rest 4 h, drop-append front rest 4 h, e)

module _ {D : Type 0} ⦃d : Platform D⦄ where
  -- The joints in order, each with the bytes of `htonl`.
  joints_message : List D → List ℕ → List ℕ
  joints_message [] rest = rest
  joints_message (x ∷ xs) rest = htonl_bytes (joint_int x) ++ joints_message xs rest

  length-joints_message :
      (xs : List D) (rest : List ℕ) → length (joints_message xs rest) ≡ 4 * length xs + length rest
  unfolding joints_message
  length-joints_message [] rest = omega arith
  length-joints_message (x ∷ xs) rest = omega (
    arith,
    length-append (htonl_bytes (joint_int x)) (joints_message xs rest),
    length-htonl_bytes (joint_int x),
    length-joints_message xs rest,
  )

  read_integers-joints_message :
      (xs : List D) (keepalive : ℕ)
      → read_integers (suc (length xs)) (joints_message xs (htonl_bytes keepalive ++ []))
        ≡ map (λ x. u32 (joint_int x)) xs ++ (u32 keepalive ∷ [])
  unfolding joints_message read_integers
  read_integers-joints_message [] keepalive =
      read_integers-append 0 (u32 keepalive) (htonl_bytes keepalive) []
        (length-htonl_bytes keepalive) (be_value-htonl_bytes keepalive)
  read_integers-joints_message (x ∷ xs) keepalive =
      let here = u32 (joint_int x) in
      let rest = joints_message xs (htonl_bytes keepalive ++ []) in
      read_integers-append (suc (length xs)) here (htonl_bytes (joint_int x)) rest
        (length-htonl_bytes (joint_int x)) (be_value-htonl_bytes (joint_int x))
      ∙ ap (◌∷◌ here) (read_integers-joints_message xs keepalive)

  -- On a reverse connection `servoj` with six positions makes one write, of 28 bytes, in which the
  -- robot's program reads the joints in millionths and then the keepalive value.
  pub servoj-read_integers :
      (q0 q1 q2 q3 q4 q5 : D) (keepalive : ℕ) (drv : UrDriver D)
      → drv.reverse_connected ≡ true
      → let positions = q0 ∷ q1 ∷ q2 ∷ q3 ∷ q4 ∷ q5 ∷ [] in
        (buf : List ℕ) × (servoj positions keepalive drv
          ≡ ok (record drv { reverse_sent = drv.reverse_sent ++ (buf ∷ []) }))
        × (length buf ≡ 28)
        × (read_integers 7 buf ≡ map (λ x. u32 (joint_int x)) positions ++ (u32 keepalive ∷ []))
  unfolding servoj joint_bytes joints_message htonl_bytes le_bytes
  servoj-read_integers q0 q1 q2 q3 q4 q5 keepalive drv connected =
      let positions = q0 ∷ q1 ∷ q2 ∷ q3 ∷ q4 ∷ q5 ∷ [] in
      (
        joints_message positions (htonl_bytes keepalive ++ []),
        rw connected refl,
        refl,
        read_integers-joints_message positions keepalive,
      )
