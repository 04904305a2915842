-- ===== src/Prelude/Outcomes.antt =====
-- Chains of optional results, for `do` blocks.
use mathlib.Core.Path.{◌≡◌, refl, subst}
use mathlib.Core.Bool.{Bool, true, false}
use mathlib.Core.Option.{Option, none, some}

infixl 5 ◌>>=◌
abbrev pub ◌>>=◌ {ℓ κ} : {A : Type ℓ} {B : Type κ} → Option A → (A → Option B) → Option B
none >>= f = none
some a >>= f = f a

-- The result, if there is one, has the property.
abbrev pub Held {ℓ κ} : {A : Type ℓ} → (A → Type κ) → Option A → Type κ
Held P none = Unit
Held P (some a) = P a

pub Held-bind {ℓ κ ι} :
    {A : Type ℓ} {B : Type κ} (P : A → Type ι) (Q : B → Type ι) (o : Option A) (f : A → Option B)
    → Held P o
    → ((a : A) → P a → Held Q (f a))
    → Held Q (o >>= f)
Held-bind P Q none f h step = tt
Held-bind P Q (some a) f h step = step a h

pub Held-some {ℓ κ} :
    {A : Type ℓ} (P : A → Type κ) {o : Option A} {a : A} → Held P o → o ≡ some a → P a
Held-some P h e = subst (Held P) e h

abbrev pub is_some {ℓ} : {A : Type ℓ} → Option A → Bool
is_some none = false
is_some (some a) = true

-- Where a chain has a result, its first part has one.
pub bind-some {ℓ κ} :
    {A : Type ℓ} {B : Type κ} (o : Option A) (f : A → Option B) {b : B}
    → (o >>= f) ≡ some b
    → (a : A) × ((o ≡ some a) × (f a ≡ some b))
bind-some none f e = cc e
bind-some (some a) f e = (a, (refl, e))
