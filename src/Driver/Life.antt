-- ===== src/Driver/Life.antt =====
-- `UrDriver`'s constructor, `start` and `halt` of src/ur_driver.cpp: the two ports together.
use ur_modern_driver.Common.{
  ℕ, ◌≡◌, refl, ap, ◌∙◌, ◌&&◌, Bool, true, false, List, Outcome, ok, fault, ◌>>=◌, arith, Returns,
  returns, Returns-value, Returns-bind, Returns-if, Keeps, Keeps-any, Keeps-if, Keeps-value,
  Keeps-bind, kept, endless, if◌then◌else◌, text, Option, inl, inr, Bool-cases, [],
}
use ur_modern_driver.Common.Int.{ℤ, pos, ltb_ℤ}
use ur_modern_driver.Double.{Platform}
use ur_modern_driver.RobotState.Defs.{RobotState, get_version}
use ur_modern_driver.RobotStateRt.Defs.{RobotStateRt, set_version, lock, unlock}
use ur_modern_driver.Realtime.Defs.{
  Realtime, new as new_rt, start as start_rt, halt as halt_rt, get_local_ip, add_command_to_queue,
}
use ur_modern_driver.Realtime.Commands.{add_command_to_queue-deliver, deliver}
use ur_modern_driver.Communication.Defs.{
  UrCommunication, new as new_sec, unpack_answer, start as start_sec, halt as halt_sec,
}
use ur_modern_driver.Driver.Defs.{UrDriver, stop_traj, send}

-- What the operating system answers to `start`: on the primary port, on the secondary port and on
-- the realtime port.
pub record Answers : Type 0 where
  pub result : ℤ
  pub answer : Option (List ℕ)
  pub sec_error : ℤ
  pub rt_error : ℤ
  pub name_error : ℤ
  pub local_ip : List ℕ

module _ {D : Type 0} ⦃d : Platform D⦄ where
  open d use {lit}

  -- The constructor, after the sockets are made; the joints have no names yet. The memory is that
  -- of the secondary state before its constructor.
  unfoldable pub new : ℕ → D → ℕ → D → D → D → D → D → RobotState D → UrDriver D
  new port servoj_time safety max_step min_payload max_payload lookahead gain memory = record {
    maximum_time_step = max_step;
    minimum_payload = min_payload;
    maximum_payload = max_payload;
    joint_names = [];
    ip_addr = [];
    reverse_port = port;
    reverse_connected = false;
    reverse_sent = [];
    servoj_time = servoj_time;
    executing_traj = false;
    firmware_version = lit 0 0;
    servoj_lookahead_time = lookahead;
    servoj_gain = gain;
    rt_interface = new_rt safety;
    sec_interface = new_sec memory;
  }

  -- What follows once the secondary port is up.
  unfoldable pub start_realtime : Answers → UrDriver D → Outcome (Bool × UrDriver D)
  start_realtime a drv = do
    let version = get_version drv.sec_interface.robot_state
    state ← set_version version drv.rt_interface.robot_state
    let (rt, up) =
        start_rt a.rt_error a.name_error a.local_ip
          (record (drv.rt_interface) { robot_state = state })
    let drv = record drv { firmware_version = version; rt_interface = rt }
    ok (if up then (true, record drv { ip_addr = get_local_ip rt }) else (false, drv))

  unfoldable pub start : Answers → UrDriver D → Outcome (Bool × UrDriver D)
  start a drv = do
    (up, sec) ← start_sec a.result a.answer a.sec_error drv.sec_interface
    let drv = record drv { sec_interface = sec }
    if up then start_realtime a drv else ok (false, drv)

  -- Whether the threads of the secondary and of the realtime port come to their ends.
  unfoldable pub halt : Bool → Bool → UrDriver D → Outcome (UrDriver D)
  halt sec_ended rt_ended drv = do
    drv ← if drv.executing_traj then stop_traj drv else ok drv
    sec ← halt_sec sec_ended drv.sec_interface
    rt ← halt_rt rt_ended drv.rt_interface
    ok (record drv { sec_interface = sec; rt_interface = rt })

-- Both threads run, and the two states and the driver agree on the controller's version.
pub record IsUp {D : Type 0} ⦃d : Platform D⦄ (ip : List ℕ) (drv : UrDriver D) : Type 0 where
  pub sec_runs : drv.sec_interface.com_thread ≡ true
  pub rt_runs : drv.rt_interface.com_thread ≡ true
  pub sec_alive : drv.sec_interface.keepalive ≡ true
  pub rt_alive : drv.rt_interface.keepalive ≡ true
  pub version : drv.firmware_version ≡ get_version drv.sec_interface.robot_state
  pub rt_version : drv.rt_interface.robot_state.version ≡ drv.firmware_version
  pub free : drv.rt_interface.robot_state.val_lock ≡ false
  pub address : drv.ip_addr ≡ ip

module _ {D : Type 0} where
  set_version-Keeps :
      (v : D) (s : RobotStateRt D)
      → Keeps (λ t. (t.version ≡ v) × (t.val_lock ≡ false)) (set_version v s)
  unfolding set_version lock unlock
  set_version-Keeps v s = elim (Bool-cases s.val_lock) [
    | inl e ↦ rw e endless
    | inr e ↦ rw e (kept (refl, refl))
  ]

  -- A `start` of the realtime port that succeeds has started its thread.
  start_rt-runs :
      (so_error err : ℤ) (str : List ℕ) (rt : Realtime D)
      → let (rt', up) = start_rt so_error err str rt in
        up ≡ true
        → (rt'.com_thread ≡ true)
          × (rt'.keepalive ≡ true)
          × (rt'.local_ip ≡ str)
          × (rt'.robot_state ≡ rt.robot_state)
  unfolding start_rt
  start_rt-runs so_error err str rt = elim (Bool-cases (ltb_ℤ so_error (pos 0))) [
    | inl e ↦ rw e (λ f. absurd cc)
    | inr e ↦ rw e (elim (Bool-cases (ltb_ℤ err (pos 0))) [
      | inl e' ↦ rw e' (λ f. absurd cc)
      | inr e' ↦ rw e' (λ f. (refl, refl, refl, refl))
    ])
  ]

  sec_runs-if :
      (failed : Bool) (sec : UrCommunication D)
      → sec.keepalive ≡ true
      → let r : Bool × UrCommunication D =
          if failed then (false, sec) else (true, record sec { com_thread = true }) in
        r.0 ≡ true → (r.1.com_thread ≡ true) × (r.1.keepalive ≡ true)
  sec_runs-if true sec k e = absurd cc
  sec_runs-if false sec k e = (refl, k)

module _ {D : Type 0} ⦃d : Platform D⦄ where
  start_sec-Keeps :
      (a : Answers) (sec : UrCommunication D)
      → Keeps
          (λ r. r.0 ≡ true → (r.1.com_thread ≡ true) × (r.1.keepalive ≡ true))
          (start_sec a.result a.answer a.sec_error sec)
  unfolding start_sec
  start_sec-Keeps a sec =
      Keeps-if (ltb_ℤ a.result (pos 0)) (λ e. kept (λ f. absurd cc))
        λ e.
          Keeps-any (unpack_answer a.answer sec.robot_state)
            λ state. kept (sec_runs-if (ltb_ℤ a.sec_error (pos 0)) _ refl)

  IsUp-if :
      (ip : List ℕ) (up : Bool) (drv : UrDriver D)
      → (up ≡ true → IsUp ip (record drv { ip_addr = get_local_ip drv.rt_interface }))
      → let r : Bool × UrDriver D =
          if up
          then (true, record drv { ip_addr = get_local_ip drv.rt_interface })
          else (false, drv) in
        r.0 ≡ true → IsUp ip r.1
  IsUp-if ip true drv h e = h refl
  IsUp-if ip false drv h e = absurd cc

  start_realtime-Keeps :
      (a : Answers) (drv : UrDriver D)
      → drv.sec_interface.com_thread ≡ true
      → drv.sec_interface.keepalive ≡ true
      → Keeps (λ r. r.0 ≡ true → IsUp a.local_ip r.1) (start_realtime a drv)
  unfolding start_realtime get_local_ip
  start_realtime-Keeps a drv runs alive =
      Keeps-bind
        (set_version-Keeps (get_version drv.sec_interface.robot_state) drv.rt_interface.robot_state)
        λ state (version, free).
          let rt = record (drv.rt_interface) { robot_state = state } in
          let started = start_rt-runs a.rt_error a.name_error a.local_ip rt in
          kept (
            IsUp-if a.local_ip (start_rt a.rt_error a.name_error a.local_ip rt).1 _ λ e.
              let (there, awake, ip, same) = started e in
              record {
                sec_runs = runs;
                rt_runs = there;
                sec_alive = alive;
                rt_alive = awake;
                version = refl;
                rt_version = ap (λ r. r.version) same ∙ version;
                free = ap (λ r. r.val_lock) same ∙ free;
                address = ip;
              })

  start-Keeps :
      (a : Answers) (drv : UrDriver D) → Keeps (λ r. r.0 ≡ true → IsUp a.local_ip r.1) (start a drv)
  unfolding start
  start-Keeps a drv = Keeps-bind (start_sec-Keeps a drv.sec_interface) λ (up, sec) f.
      elim (Bool-cases up) [
        | inl e ↦ rw e (start_realtime-Keeps a (record drv { sec_interface = sec }) (f e).0 (f e).1)
        | inr e ↦ rw e (kept (λ g. absurd cc))
      ]

  -- `start` that comes back with true: the threads of both ports run, the version that the secondary
  -- state reports is that of the driver and of the realtime state, whose mutex is free, and the
  -- driver's address is that of the realtime port's socket.
  pub start-IsUp :
      (a : Answers) (drv drv' : UrDriver D) → start a drv ≡ ok (true, drv') → IsUp a.local_ip drv'
  start-IsUp a drv drv' e = Keeps-value (true, drv') (start-Keeps a drv) e refl

  deliver-com_thread :
      (line : List ℕ) (rt : Realtime D) → (deliver line rt).com_thread ≡ rt.com_thread
  unfolding deliver
  deliver-com_thread line rt = elim (Bool-cases rt.connected) [
    | inl e ↦ rw e refl
    | inr e ↦ rw e refl
  ]

  stop_traj-eq-ok :
      (line : List ℕ) (drv : UrDriver D)
      → add_command_to_queue (text "stopj(10)\n") drv.rt_interface
        ≡ ok (deliver line drv.rt_interface)
      → stop_traj drv
        ≡ ok (record drv { executing_traj = false; rt_interface = deliver line drv.rt_interface })
  unfolding stop_traj send
  stop_traj-eq-ok line drv e = rw e refl

  -- `stopTraj` always ends, and leaves the driver idle.
  pub stop_traj-Returns :
      (drv : UrDriver D)
      → Returns
          (λ t.
            (t.executing_traj ≡ false)
            × (t.sec_interface ≡ drv.sec_interface)
            × (t.rt_interface.com_thread ≡ drv.rt_interface.com_thread))
          (stop_traj drv)
  stop_traj-Returns drv =
      let (line, sends, _, _) =
        add_command_to_queue-deliver (text "stopj(10)\n") drv.rt_interface (omega arith) in
      rw (stop_traj-eq-ok line drv sends)
        (returns (refl, refl, deliver-com_thread line drv.rt_interface))

  stopped :
      (drv : UrDriver D)
      → Returns
          (λ t.
            (t.executing_traj ≡ false)
            × (t.sec_interface ≡ drv.sec_interface)
            × (t.rt_interface.com_thread ≡ drv.rt_interface.com_thread))
          (if drv.executing_traj then stop_traj drv else ok drv)
  stopped drv =
      Returns-if drv.executing_traj (λ e. stop_traj-Returns drv) (λ e. returns (e, refl, refl))

  -- `halt` of a driver whose threads both run and come to their ends: it stops the trajectory that is executed, asks both
  -- threads to end and joins them.
  pub halt-joins :
      (drv : UrDriver D)
      → drv.sec_interface.com_thread ≡ true
      → drv.rt_interface.com_thread ≡ true
      → Returns
          (λ t.
            (t.executing_traj ≡ false)
            × (t.sec_interface.keepalive ≡ false)
            × (t.rt_interface.keepalive ≡ false)
            × (t.sec_interface.com_thread ≡ false)
            × (t.rt_interface.com_thread ≡ false))
          (halt true true drv)
  unfolding halt halt_sec halt_rt
  halt-joins drv h1 h2 = Returns-bind (stopped drv) λ t (idle, same, runs).
      let e1 : t.sec_interface.com_thread ≡ true = ap (λ s. s.com_thread) same ∙ h1 in
      let e2 : t.rt_interface.com_thread ≡ true = runs ∙ h2 in
      rw (e1, e2) (returns (idle, refl, refl, refl, refl))

  -- `halt` of a driver one of whose threads was not started, as after a `start` that failed: `join`
  -- throws, and nobody catches it.
  pub halt_throws :
      (drv : UrDriver D)
      → (drv.sec_interface.com_thread && drv.rt_interface.com_thread) ≡ false
      → halt true true drv ≡ fault
  unfolding halt halt_sec halt_rt
  halt_throws drv h =
      let (t, e, (idle, same, runs)) = Returns-value (stopped drv) in
      let e1 = ap (λ s. s.com_thread) same in
      rw e (elim (Bool-cases drv.sec_interface.com_thread) [
        | inl s ↦
            let s' : t.sec_interface.com_thread ≡ true = e1 ∙ s in
            let r' : t.rt_interface.com_thread ≡ false = runs ∙ (rw s at h) in rw (s', r') refl
        | inr s ↦ let s' : t.sec_interface.com_thread ≡ false = e1 ∙ s in rw s' refl
      ])
