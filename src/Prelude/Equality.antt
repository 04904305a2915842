-- ===== src/Prelude/Equality.antt =====
-- Python's `==` on the values that the program compares, as an interface with its law.
use Prim.Native.Nat.{ℕ}
use mathlib.Core.Path.{◌≡◌, refl}
use mathlib.Core.Logic.{◌↔◌}
use mathlib.Core.Bool.{Bool, true, false, ◌&&◌, ◌||◌}
use mathlib.Core.List.{List, [], ◌∷◌, ◌++◌}
use native.Mathlib.Omega.{arith}
use my_pr_agent.Prelude.Tests.{nat_beq, nat_beq_iff}

pub record Eq {ℓ} (A : Type ℓ) : Type ℓ where
  pub same : A → A → Bool
  pub same_iff : (a b : A) → (same a b ≡ true) ↔ (a ≡ b)

module _ {ℓ κ} {A : Type ℓ} {B : Type κ} where
  abbrev pub pair_beq : Eq A → Eq B → A × B → A × B → Bool
  pair_beq e f (a, b) (c, d) = e.same a c && f.same b d

  pub pair_beq_iff : (e : Eq A) (f : Eq B) (p q : A × B) → (pair_beq e f p q ≡ true) ↔ (p ≡ q)
  pair_beq_iff e f (a, b) (c, d) = ground (arith, e.same_iff a c, f.same_iff b d)

  instance abbrev pub pair_eq : ⦃e : Eq A⦄ ⦃f : Eq B⦄ → Eq (A × B)
  pair_eq ⦃e⦄ ⦃f⦄ = record { same = pair_beq e f; same_iff = pair_beq_iff e f }

module _ {ℓ} {A : Type ℓ} where
  abbrev pub list_beq : Eq A → List A → List A → Bool
  list_beq e [] [] = true
  list_beq e (x ∷ xs) (y ∷ ys) = e.same x y && list_beq e xs ys
  list_beq e _ _ = false

  pub list_beq_iff : (e : Eq A) (xs ys : List A) → (list_beq e xs ys ≡ true) ↔ (xs ≡ ys)
  list_beq_iff e [] [] = ground arith
  list_beq_iff e [] (y ∷ ys) = ground arith
  list_beq_iff e (x ∷ xs) [] = ground arith
  list_beq_iff e (x ∷ xs) (y ∷ ys) = ground (arith, e.same_iff x y, list_beq_iff e xs ys)

  instance abbrev pub list_eq : ⦃e : Eq A⦄ → Eq (List A)
  list_eq ⦃e⦄ = record { same = list_beq e; same_iff = list_beq_iff e }

instance abbrev pub nat_eq : Eq ℕ
nat_eq = record { same = nat_beq; same_iff = nat_beq_iff }

module _ {ℓ} {A : Type ℓ} ⦃e : Eq A⦄ where
  infix 50 ◌==◌
  abbrev pub ◌==◌ : A → A → Bool
  a == b = e.same a b

  -- `a in xs`
  abbrev pub contains : List A → A → Bool
  contains [] a = false
  contains (x ∷ xs) a = x == a || contains xs a

  pub contains-append :
      (xs ys : List A) (a : A) → contains (xs ++ ys) a ≡ (contains xs a || contains ys a)
  contains-append [] ys a = refl
  contains-append (x ∷ xs) ys a = ground (arith, contains-append xs ys a)
