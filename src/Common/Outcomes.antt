-- ===== src/Common/Outcomes.antt =====
-- What a call can come to: a value, a fault (undefined behaviour such as an access outside an array, or
-- an exception that nobody catches), or no end within the fuel.
use mathlib.Core.Path.{◌≡◌, refl, ap, subst}
use mathlib.Core.Bool.{Bool, true, false}
use mathlib.Core.Option.{Option, none, some}
use ur_modern_driver.Common.Tests.{if◌then◌else◌}

pub data Outcome {ℓ} (A : Type ℓ) : Type ℓ where
  ok : A → Outcome A
  fault : Outcome A
  stuck : Outcome A

infixl 5 ◌>>=◌ ◌>>◌
abbrev pub ◌>>=◌ {ℓ κ} : {A : Type ℓ} {B : Type κ} → Outcome A → (A → Outcome B) → Outcome B
ok a >>= f = f a
fault >>= f = fault
stuck >>= f = stuck

abbrev pub ◌>>◌ {ℓ} : {B : Type ℓ} → Outcome (Unit {0}) → Outcome B → Outcome B
m >> k = m >>= λ _. k

abbrev pub or_fault {ℓ} : {A : Type ℓ} → Option A → Outcome A
or_fault none = fault
or_fault (some a) = ok a

pub bind-congr {ℓ κ} :
    {A : Type ℓ} {B : Type κ} (m : Outcome A) {f g : A → Outcome B}
    → ((a : A) → f a ≡ g a)
    → (m >>= f) ≡ (m >>= g)
bind-congr (ok a) h = h a
bind-congr fault h = refl
bind-congr stuck h = refl

pub bind-bind {ℓ κ μ} :
    {A : Type ℓ} {B : Type κ} {C : Type μ} (m : Outcome A) (f : A → Outcome B) (g : B → Outcome C)
    → (m >>= f >>= g) ≡ (m >>= λ a. f a >>= g)
bind-bind (ok a) f g = refl
bind-bind fault f g = refl
bind-bind stuck f g = refl

pub bind-ok {ℓ} : {A : Type ℓ} (m : Outcome A) → (m >>= λ a. ok a) ≡ m
bind-ok (ok a) = refl
bind-ok fault = refl
bind-ok stuck = refl

-- The call ends with a value, of which `P` holds.
pub data Returns {ℓ κ} {A : Type ℓ} (P : A → Type κ) : Outcome A → Type (ℓ ⊔ κ) where
  returns : {a : A} → P a → Returns P (ok a)

pub Returns-bind {ℓ κ μ ν} :
    {A : Type ℓ} {B : Type κ} {P : A → Type μ} {Q : B → Type ν} {m : Outcome A} {f : A → Outcome B}
    → Returns P m
    → ((a : A) → P a → Returns Q (f a))
    → Returns Q (m >>= f)
Returns-bind (returns {a = a} p) k = k a p

pub Returns-mono {ℓ κ μ} :
    {A : Type ℓ} {P : A → Type κ} {Q : A → Type μ} {m : Outcome A}
    → Returns P m
    → ((a : A) → P a → Q a)
    → Returns Q m
Returns-mono (returns {a = a} p) k = returns (k a p)

pub Returns-elim {ℓ κ} :
    {A : Type ℓ} {P : A → Type κ} {x y : Outcome A} (b : Bool)
    → (b ≡ true → Returns P x)
    → (b ≡ false → Returns P y)
    → Returns P (elim b [ true ↦ x | false ↦ y ])
Returns-elim true yes_case no_case = yes_case refl
Returns-elim false yes_case no_case = no_case refl

-- The value and the fact, taken out of the family.
pub Returns-value {ℓ κ} :
    {A : Type ℓ} {P : A → Type κ} {m : Outcome A} → Returns P m → (a : A) × (m ≡ ok a) × P a
Returns-value (returns {a = a} p) = (a, refl, p)

pub Returns-if {ℓ κ} :
    {A : Type ℓ} {P : A → Type κ} {x y : Outcome A} (b : Bool)
    → (b ≡ true → Returns P x)
    → (b ≡ false → Returns P y)
    → Returns P (if b then x else y)
Returns-if true yes_case no_case = yes_case refl
Returns-if false yes_case no_case = no_case refl

-- What holds of the value, if the call ends with one.
pub data Keeps {ℓ κ} {A : Type ℓ} (P : A → Type κ) : Outcome A → Type (ℓ ⊔ κ) where
  kept : {a : A} → P a → Keeps P (ok a)
  faulted : Keeps P fault
  endless : Keeps P stuck

pub Keeps-bind {ℓ κ μ ν} :
    {A : Type ℓ} {B : Type κ} {P : A → Type μ} {Q : B → Type ν} {m : Outcome A} {f : A → Outcome B}
    → Keeps P m
    → ((a : A) → P a → Keeps Q (f a))
    → Keeps Q (m >>= f)
Keeps-bind (kept {a = a} p) k = k a p
Keeps-bind faulted k = faulted
Keeps-bind endless k = endless

pub Keeps-any {ℓ κ ν} :
    {A : Type ℓ} {B : Type κ} {Q : B → Type ν} (m : Outcome A) {f : A → Outcome B}
    → ((a : A) → Keeps Q (f a))
    → Keeps Q (m >>= f)
Keeps-any (ok a) k = k a
Keeps-any fault k = faulted
Keeps-any stuck k = endless

pub Keeps-if {ℓ κ} :
    {A : Type ℓ} {P : A → Type κ} {x y : Outcome A} (b : Bool)
    → (b ≡ true → Keeps P x)
    → (b ≡ false → Keeps P y)
    → Keeps P (if b then x else y)
Keeps-if true yes_case no_case = yes_case refl
Keeps-if false yes_case no_case = no_case refl

pub Keeps-value {ℓ κ} :
    {A : Type ℓ} {P : A → Type κ} {m : Outcome A} (a : A) → Keeps P m → m ≡ ok a → P a
Keeps-value {P = P} a (kept {a = b} p) e = subst P (ap (λ m. elim m [ ok x ↦ x | _ ↦ a ]) e) p
Keeps-value a faulted e = absurd cc
Keeps-value a endless e = absurd cc

-- The value is the one that the call ends with.
pub Keeps-self {ℓ} : {A : Type ℓ} (m : Outcome A) → Keeps (λ a. m ≡ ok a) m
Keeps-self (ok a) = kept refl
Keeps-self fault = faulted
Keeps-self stuck = endless
