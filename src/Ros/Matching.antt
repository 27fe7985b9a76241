-- ===== src/Ros/Matching.antt =====
-- `validateJointNames`: which names it takes, and on which it reads past the end of a vector.
use ur_modern_driver.Common.{
  ℕ, suc, ◌≡◌, ◌↔◌, ◌⊎◌, inl, inr, refl, sym, subst, ap, ◌∙◌, true, false, List, [], ◌∷◌, ◌++◌,
  none, some, ok, fault, ◌==◌, ==_iff, Bool-cases, length, take, drop, get_elem?, length-append,
  arith,
}
use mathlib.Core.HLevel.{⊥_prop}
use mathlib.Core.Logic.Or
use mathlib.Core.List.{Mem, Perm, perm_middle, not-mem-nil, eq-or-mem_of_mem-cons, mem-cons_self}
use mathlib.Core.List.Perm
use ur_modern_driver.Ros.Defs.{equal_text}
use ur_modern_driver.Ros.Joints.{find_name, match_names, validate_joint_names}

pub equal_text_refl : (xs : List ℕ) → equal_text xs xs ≡ true
unfolding equal_text
equal_text_refl [] = refl
equal_text_refl (x ∷ xs) = ground (arith, equal_text_refl xs)

pub equal_text-eq : (xs ys : List ℕ) → equal_text xs ys ≡ true → xs ≡ ys
unfolding equal_text
equal_text-eq [] [] e = refl
equal_text-eq (x ∷ xs) (y ∷ ys) e = elim (Bool-cases (x == y)) [
  | inl h ↦
      let rest : equal_text xs ys ≡ true = rw h at e in
      rw ((==_iff x y).0 h, equal_text-eq xs ys rest) refl
  | inr h ↦ let no : false ≡ true = rw h at e in absurd cc
]
equal_text-eq [] (y ∷ ys) e = absurd cc
equal_text-eq (x ∷ xs) [] e = absurd cc

pub distinct : (xs ys : List ℕ) → equal_text xs ys ≡ false → ¬ xs ≡ ys
distinct xs ys e same =
    let yes : equal_text xs ys ≡ true = rw (← same) (equal_text_refl xs) in absurd cc

pub not_behind :
    (name a : List ℕ) (rest : List (List ℕ)) → ¬ name ≡ a → ¬ Mem name rest → ¬ Mem name (a ∷ rest)
not_behind name a rest differ absent m = Or.elim ⊥_prop (eq-or-mem_of_mem-cons m) differ absent

-- The list around an index at which it has an element.
IsSplit : {A : Type 0} → List A → ℕ → A → Type 0
IsSplit xs j a = (get_elem? xs j ≡ some a) × (xs ≡ take j xs ++ (a ∷ drop (suc j) xs))

-- A name is found where it stands, or it does not stand there.
find_name-cases :
    (name : List ℕ) (actual : List (List ℕ))
    → IsSplit actual (find_name name actual) name
      ⊎ ((get_elem? actual (find_name name actual) ≡ none) × ¬ Mem name actual)
unfolding find_name IsSplit
find_name-cases name [] = inr (refl, not-mem-nil)
find_name-cases name (a ∷ rest) = elim (Bool-cases (equal_text name a)) [
  | inl e ↦ rw e (
      inl
        (ap some (sym (equal_text-eq name a e)), ap (λ x. x ∷ rest) (sym (equal_text-eq name a e))))
  | inr e ↦ rw e (elim (find_name-cases name rest) [
    | inl (here, split) ↦ inl (here, ap (◌∷◌ a) split)
    | inr (past, absent) ↦ inr (past, not_behind name a rest (distinct name a e) absent)
  ])
]

-- A name that is found goes on without it, and one that is not is compared past the end.
found :
    (name : List ℕ) (names actual : List (List ℕ))
    → IsSplit actual (find_name name actual) name
    → let j = find_name name actual in
      match_names (name ∷ names) actual ≡ match_names names (take j actual ++ drop (suc j) actual)
unfolding match_names IsSplit
found name names actual (here, split) = rw (here, equal_text_refl name) refl

lost :
    (name : List ℕ) (names actual : List (List ℕ))
    → get_elem? actual (find_name name actual) ≡ none
    → match_names (name ∷ names) actual ≡ fault
unfolding match_names
lost name names actual past = rw past refl

-- The loop of the goal's names: it takes them, or it reads past the end.
match_names-cases :
    (names actual : List (List ℕ))
    → (match_names names actual ≡ ok true) ⊎ (match_names names actual ≡ fault)
unfolding match_names IsSplit
match_names-cases [] actual = inl refl
match_names-cases (name ∷ names) actual = elim (find_name-cases name actual) [
  | inl (here, split) ↦
      let j = find_name name actual in
      rw (here, equal_text_refl name)
        (match_names-cases names (take j actual ++ drop (suc j) actual))
  | inr (past, absent) ↦ rw past (inr refl)
]

split-Perm :
    (xs : List (List ℕ)) (j : ℕ) (a : List ℕ)
    → IsSplit xs j a
    → Perm xs (a ∷ (take j xs ++ drop (suc j) xs))
unfolding IsSplit
split-Perm xs j a (here, split) =
    subst (λ ys. Perm ys (a ∷ (take j xs ++ drop (suc j) xs))) (sym split)
      (perm_middle (take j xs) (drop (suc j) xs))

split-length :
    (xs : List (List ℕ)) (j : ℕ) (a : List ℕ)
    → IsSplit xs j a
    → length xs ≡ suc (length (take j xs ++ drop (suc j) xs))
unfolding IsSplit
split-length xs j a (here, split) =
    ap length split
    ∙ omega (
      arith,
      length-append (take j xs) (a ∷ drop (suc j) xs),
      length-append (take j xs) (drop (suc j) xs),
    )

pub match_names-Perm :
    (names actual : List (List ℕ))
    → Perm names actual
    → (match_names names actual ≡ ok true) × (length names ≡ length actual)
unfolding match_names
match_names-Perm [] [] p = (refl, refl)
match_names-Perm [] (a ∷ more) p = absurd (not-mem-nil ((Perm.mem_iff p).1 mem-cons_self))
match_names-Perm (name ∷ names) actual p = elim (find_name-cases name actual) [
  | inl split ↦
      let j = find_name name actual in
      let rest = take j actual ++ drop (suc j) actual in
      let moved : Perm (name ∷ names) (name ∷ rest) =
        Perm.trans p (split-Perm actual j name split) in
      let (taken, same) = match_names-Perm names rest (Perm.cons_inv moved) in
      (found name names actual split ∙ taken, omega (arith, same, split-length actual j name split))
  | inr (past, absent) ↦ absurd (absent ((Perm.mem_iff p).0 mem-cons_self))
]

match_names-taken :
    (names actual : List (List ℕ))
    → length names ≡ length actual
    → match_names names actual ≡ ok true
    → Perm names actual
match_names-taken [] [] l e = Perm.nil
match_names-taken [] (a ∷ more) l e = absurd (omega (arith, l))
match_names-taken (name ∷ names) actual l e = elim (find_name-cases name actual) [
  | inl split ↦
      let j = find_name name actual in
      let rest = take j actual ++ drop (suc j) actual in
      let fewer = split-length actual j name split in
      let others =
        match_names-taken names rest (omega (arith, l, fewer))
          (sym (found name names actual split) ∙ e) in
      Perm.trans (Perm.cons name others) (Perm.symm (split-Perm actual j name split))
  | inr (past, absent) ↦
      let no : fault ≡ ok true = sym (lost name names actual past) ∙ e in absurd cc
]

-- A goal's joint names are taken exactly if they are the driver's, in any order.
pub validate_joint_names-Perm :
    (actual names : List (List ℕ))
    → (validate_joint_names actual names ≡ ok true) ↔ Perm names actual
unfolding validate_joint_names
validate_joint_names-Perm actual names = (
  λ e. elim (Bool-cases (length names == length actual)) [
    | inl h ↦
        match_names-taken names actual ((==_iff (length names) (length actual)).0 h) (rw h at e)
    | inr h ↦ let no : ok false ≡ ok true = rw h at e in absurd cc
  ],
  λ p.
      let (taken, same) = match_names-Perm names actual p in
      let h = (==_iff (length names) (length actual)).1 same in rw (h, taken) refl,
)

-- Names of the right number that are not the driver's in some order: the check reads the element
-- behind the last one of a vector, where it means to answer no.
pub validate_joint_names-overreads :
    (actual names : List (List ℕ))
    → length names ≡ length actual
    → ¬ Perm names actual
    → validate_joint_names actual names ≡ fault
unfolding validate_joint_names
validate_joint_names-overreads actual names l wrong =
    let h = (==_iff (length names) (length actual)).1 l in
    rw h (elim (match_names-cases names actual) [
      | inl e ↦ absurd (wrong (match_names-taken names actual l e))
      | inr e ↦ e
    ])
