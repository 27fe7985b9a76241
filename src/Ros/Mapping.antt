-- ===== src/Ros/Mapping.antt =====
-- The mapping of `reorder_traj_joints`: where the goal has each joint of the driver.
use ur_modern_driver.Common.{
  ℕ, zero, suc, ◌+◌, ◌<◌, ◌≡◌, ◌⊎◌, inl, inr, refl, sym, ap, ◌∙◌, List, [], ◌∷◌, some,
  if◌then◌else◌, Bool-cases, length, get_elem?, replicate, arith,
}
use mathlib.Core.List.{Mem, Perm, not-mem-nil, mem-cons_self, mem-cons_of_mem}
use mathlib.Core.List.Perm
use ur_modern_driver.Ros.Defs.{equal_text}
use ur_modern_driver.Ros.Joints.{map_name, map_names, name_mapping}
use ur_modern_driver.Ros.Matching.{equal_text-eq, distinct, not_behind}

-- Where the loop over the goal's names last finds a name, or what the mapping held before.
last_index : ℕ → List (List ℕ) → List ℕ → ℕ → ℕ
last_index i [] a k = k
last_index i (name ∷ names) a k = last_index (suc i) names a (if equal_text name a then i else k)

last_index-cases :
    (i : ℕ) (names : List (List ℕ)) (a : List ℕ) (k : ℕ)
    → ((m : ℕ) × (get_elem? names m ≡ some a) × (last_index i names a k ≡ i + m))
      ⊎ ((¬ Mem a names) × (last_index i names a k ≡ k))
unfolding last_index
last_index-cases i [] a k = inr (not-mem-nil, refl)
last_index-cases i (name ∷ names) a k = elim (Bool-cases (equal_text name a)) [
  | inl e ↦ elim (last_index-cases (suc i) names a i) [
    | inl (m, g, h) ↦ rw e (inl (suc m, g, omega (arith, h)))
    | inr (absent, h) ↦ rw e (inl (0, ap some (equal_text-eq name a e), omega (arith, h)))
  ]
  | inr e ↦ elim (last_index-cases (suc i) names a k) [
    | inl (m, g, h) ↦ rw e (inl (suc m, g, omega (arith, h)))
    | inr (absent, h) ↦
        rw e (inr (not_behind a name names (λ same. distinct name a e (sym same)) absent, h))
  ]
]

map_name-get :
    (i : ℕ) (name : List ℕ) (actual : List (List ℕ)) (mapping : List ℕ) (j k : ℕ) (a : List ℕ)
    → get_elem? actual j ≡ some a
    → get_elem? mapping j ≡ some k
    → get_elem? (map_name i name actual mapping) j ≡ some (if equal_text name a then i else k)
unfolding map_name
map_name-get i name [] mapping j k a e1 e2 = absurd cc
map_name-get i name (b ∷ rest) [] j k a e1 e2 = absurd cc
map_name-get i name (b ∷ rest) (x ∷ mapping) zero k a e1 e2 =
    let same : b ≡ a = cc in let kept_index : x ≡ k = cc in rw (same, kept_index) refl
map_name-get i name (b ∷ rest) (x ∷ mapping) (suc j) k a e1 e2 =
    map_name-get i name rest mapping j k a e1 e2

map_names-get :
    (i : ℕ) (names actual : List (List ℕ)) (mapping : List ℕ) (j k : ℕ) (a : List ℕ)
    → get_elem? actual j ≡ some a
    → get_elem? mapping j ≡ some k
    → get_elem? (map_names i names actual mapping) j ≡ some (last_index i names a k)
unfolding map_names last_index
map_names-get i [] actual mapping j k a e1 e2 = e2
map_names-get i (name ∷ names) actual mapping j k a e1 e2 =
    map_names-get (suc i) names actual (map_name i name actual mapping) j
      (if equal_text name a then i else k) a e1 (map_name-get i name actual mapping j k a e1 e2)

get_elem?-replicate : (n j x : ℕ) → j < n → get_elem? (replicate n x) j ≡ some x
get_elem?-replicate zero j x h = absurd (omega arith)
get_elem?-replicate (suc n) zero x h = refl
get_elem?-replicate (suc n) (suc j) x h = get_elem?-replicate n j x (omega arith)

module _ {ℓ} {A : Type ℓ} where
  pub get_elem?-inside : (xs : List A) (j : ℕ) (a : A) → get_elem? xs j ≡ some a → j < length xs
  get_elem?-inside [] j a e = absurd cc
  get_elem?-inside (x ∷ xs) zero a e = omega arith
  get_elem?-inside (x ∷ xs) (suc j) a e = omega (arith, get_elem?-inside xs j a e)

get_elem?-Mem : (xs : List (List ℕ)) (j : ℕ) (a : List ℕ) → get_elem? xs j ≡ some a → Mem a xs
get_elem?-Mem [] j a e = absurd cc
get_elem?-Mem (x ∷ xs) zero a e = let same : x ≡ a = cc in rw same mem-cons_self
get_elem?-Mem (x ∷ xs) (suc j) a e = mem-cons_of_mem x (get_elem?-Mem xs j a e)

-- For names that are the driver's in some order, the mapping leads from each joint of the driver to
-- an index at which the goal names it.
pub name_mapping-get :
    (actual names : List (List ℕ)) (j : ℕ) (a : List ℕ)
    → Perm names actual
    → get_elem? actual j ≡ some a
    → (k : ℕ) × (get_elem? (name_mapping actual names) j ≡ some k) × (get_elem? names k ≡ some a)
unfolding name_mapping
name_mapping-get actual names j a p e =
    let n = length actual in
    let start = get_elem?-replicate n j n (get_elem?-inside actual j a e) in
    let there = map_names-get 0 names actual (replicate n n) j n a e start in
    elim (last_index-cases 0 names a n) [
      | inl (m, g, h) ↦ (m, there ∙ ap some (omega (arith, h)), g)
      | inr (absent, h) ↦ absurd (absent ((Perm.mem_iff p).1 (get_elem?-Mem actual j a e)))
    ]

pub some-at {ℓ} :
    {A : Type ℓ} (xs : List A) (i : ℕ) → i < length xs → (x : A) × (get_elem? xs i ≡ some x)
some-at [] i l = absurd (omega (arith, l))
some-at (x ∷ xs) zero l = (x, refl)
some-at (x ∷ xs) (suc i) l = some-at xs i (omega (arith, l))
