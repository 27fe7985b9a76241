-- ===== src/Common/Text.antt =====
-- Text as the list of its bytes.
use Prim.Native.Char.{code}
use Prim.Native.String.{String}
use Prim.Native.Nat.{ℕ}
use mathlib.Core.Path.{◌≡◌, refl}
use mathlib.Core.List.{List, [], ◌∷◌, ◌++◌}
use mathlib.Core.Option.{Option, none, some}

-- The bytes of a literal.
abbrev pub text : String → List ℕ
text String.[] = []
text (String.◌∷◌ c s) = code c ∷ text s

abbrev pub get_last? {ℓ} : {A : Type ℓ} → List A → Option A
get_last? [] = none
get_last? (x ∷ []) = some x
get_last? (x ∷ y ∷ ys) = get_last? (y ∷ ys)

pub get_last?-append {ℓ} :
    {A : Type ℓ} (xs : List A) (y : A) (ys : List A) → get_last? (xs ++ y ∷ ys) ≡ get_last? (y ∷ ys)
get_last?-append [] y ys = refl
get_last?-append (x ∷ []) y ys = refl
get_last?-append (x ∷ z ∷ xs) y ys = get_last?-append (z ∷ xs) y ys
