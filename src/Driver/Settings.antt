-- ===== src/Driver/Settings.antt =====
-- The settings of src/ur_driver.cpp: each keeps to its range, whatever the caller asks for.
use ur_modern_driver.Common.{◌≡◌, true, Bool-cases, inl, inr, List, [], ◌∷◌, arith, if◌then◌else◌}
use ur_modern_driver.Double.{Platform, IsOrdered}
use ur_modern_driver.Driver.Defs.{UrDriver}

module _ {D : Type 0} ⦃d : Platform D⦄ where
  open d use {lit, lt}

  unfoldable pub set_min_payload : D → UrDriver D → UrDriver D
  set_min_payload m drv = record drv { minimum_payload = if lt (lit 0 0) m then m else lit 0 0 }

  unfoldable pub set_max_payload : D → UrDriver D → UrDriver D
  set_max_payload m drv = record drv { maximum_payload = m }

  unfoldable pub set_servoj_time : D → UrDriver D → UrDriver D
  set_servoj_time t drv = record drv { servoj_time = if lt (lit 8 3) t then t else lit 8 3 }

  -- The limits of a value, as two tests in a row.
  unfoldable pub set_servoj_lookahead : D → UrDriver D → UrDriver D
  set_servoj_lookahead t drv = record drv {
    servoj_lookahead_time =
        if lt (lit 3 2) t then (if lt t (lit 2 1) then t else lit 2 1) else lit 3 2;
  }

  unfoldable pub set_servoj_gain : D → UrDriver D → UrDriver D
  set_servoj_gain g drv = record drv {
    servoj_gain =
        if lt (lit 100 0) g then (if lt g (lit 2000 0) then g else lit 2000 0) else lit 100 0;
  }

-- A call of one of the setters.
pub data Setting (D : Type 0) : Type 0 where
  min_payload max_payload servoj_time lookahead gain : D → Setting D

module _ {D : Type 0} ⦃d : Platform D⦄ where
  open d use {lit, lt, le}

  unfoldable pub apply : Setting D → UrDriver D → UrDriver D
  apply (min_payload m) drv = set_min_payload m drv
  apply (max_payload m) drv = set_max_payload m drv
  apply (servoj_time t) drv = set_servoj_time t drv
  apply (lookahead t) drv = set_servoj_lookahead t drv
  apply (gain g) drv = set_servoj_gain g drv

  unfoldable pub apply_all : List (Setting D) → UrDriver D → UrDriver D
  apply_all [] drv = drv
  apply_all (c ∷ cs) drv = apply_all cs (apply c drv)

  abbrev pub IsWithin : D → D → D → Type 0
  IsWithin low high x = (le low x ≡ true) × (le x high ≡ true)

  -- What the controller asks of the parameters of `servoj`, and no negative payload.
  pub record IsTuned (drv : UrDriver D) : Type 0 where
    pub payload : le (lit 0 0) drv.minimum_payload ≡ true
    pub time : le (lit 8 3) drv.servoj_time ≡ true
    pub lookahead : IsWithin (lit 3 2) (lit 2 1) drv.servoj_lookahead_time
    pub gain : IsWithin (lit 100 0) (lit 2000 0) drv.servoj_gain

module _ {D : Type 0} ⦃d : Platform D⦄ (laws : IsOrdered d) where
  open d use {lit, lt, le}

  at_least : (low x : D) → le low low ≡ true → le low (if lt low x then x else low) ≡ true
  at_least low x h = elim (Bool-cases (lt low x)) [
    | inl e ↦ rw e (laws.le_of_lt low x e)
    | inr e ↦ rw e h
  ]

  clamped :
      (low high x : D)
      → le low low ≡ true
      → le low high ≡ true
      → le high high ≡ true
      → IsWithin low high (if lt low x then (if lt x high then x else high) else low)
  clamped low high x hl h hh = elim (Bool-cases (lt low x)) [
    | inl e ↦ rw e (elim (Bool-cases (lt x high)) [
      | inl f ↦ rw f (laws.le_of_lt low x e, laws.le_of_lt x high f)
      | inr f ↦ rw f (h, hh)
    ])
    | inr e ↦ rw e (hl, h)
  ]

  apply-IsTuned : (c : Setting D) (drv : UrDriver D) → IsTuned drv → IsTuned (apply c drv)
  unfolding apply set_min_payload set_max_payload set_servoj_time set_servoj_lookahead
      set_servoj_gain
  apply-IsTuned (min_payload m) drv h = record {
    payload = at_least (lit 0 0) m (laws.le_lit 0 0 0 0 (omega arith));
    time = h.time;
    lookahead = h.lookahead;
    gain = h.gain;
  }
  apply-IsTuned (max_payload m) drv h = record {
    payload = h.payload;
    time = h.time;
    lookahead = h.lookahead;
    gain = h.gain;
  }
  apply-IsTuned (servoj_time t) drv h = record {
    payload = h.payload;
    time = at_least (lit 8 3) t (laws.le_lit 8 3 8 3 (omega arith));
    lookahead = h.lookahead;
    gain = h.gain;
  }
  apply-IsTuned (lookahead t) drv h = record {
    payload = h.payload;
    time = h.time;
    lookahead =
        clamped (lit 3 2) (lit 2 1) t (laws.le_lit 3 2 3 2 (omega arith))
          (laws.le_lit 3 2 2 1 (omega arith)) (laws.le_lit 2 1 2 1 (omega arith));
    gain = h.gain;
  }
  apply-IsTuned (gain g) drv h = record {
    payload = h.payload;
    time = h.time;
    lookahead = h.lookahead;
    gain =
        clamped (lit 100 0) (lit 2000 0) g (laws.le_lit 100 0 100 0 (omega arith))
          (laws.le_lit 100 0 2000 0 (omega arith)) (laws.le_lit 2000 0 2000 0 (omega arith));
  }

  -- However the setters are called, with whatever values and in whatever order, a driver whose
  -- parameters are in their ranges keeps them there: a servo period of at least 0.008, a look-ahead
  -- from 0.03 to 0.2, a gain from 100 to 2000, and a minimum payload of at least 0.
  pub apply_all-IsTuned :
      (cs : List (Setting D)) (drv : UrDriver D) → IsTuned drv → IsTuned (apply_all cs drv)
  unfolding apply_all
  apply_all-IsTuned [] drv h = h
  apply_all-IsTuned (c ∷ cs) drv h = apply_all-IsTuned cs (apply c drv) (apply-IsTuned c drv h)
