-- ===== src/Prelude/Lists.antt =====
-- Lists measured and cut by native numbers, and predicates on lists.
use Prim.Native.Nat.{ℕ, zero, suc, ◌+◌, ◌-◌, min}
use mathlib.Core.Path.{◌≡◌, refl, ap}
use mathlib.Core.Bool.{Bool, true, false, ◌&&◌, ◌||◌}
use mathlib.Core.List.{List, [], ◌∷◌, ◌++◌}
use mathlib.Core.Option.{Option, none, some}
use native.Mathlib.Omega.{arith}

module _ {ℓ} {A : Type ℓ} where
  abbrev pub length : List A → ℕ
  length [] = 0
  length (x ∷ xs) = suc (length xs)

  abbrev pub get_elem? : List A → ℕ → Option A
  get_elem? [] i = none
  get_elem? (x ∷ xs) zero = some x
  get_elem? (x ∷ xs) (suc i) = get_elem? xs i

  abbrev pub take : ℕ → List A → List A
  take zero xs = []
  take (suc n) [] = []
  take (suc n) (x ∷ xs) = x ∷ take n xs

  abbrev pub drop : ℕ → List A → List A
  drop zero xs = xs
  drop (suc n) [] = []
  drop (suc n) (x ∷ xs) = drop n xs

  abbrev pub concat : List (List A) → List A
  concat [] = []
  concat (xs ∷ xss) = xs ++ concat xss

  -- Python's `xs[i:j]` for indices that are not negative.
  abbrev pub slice : List A → ℕ → ℕ → List A
  slice xs i j = take (j - i) (drop i xs)

  -- `any(p(x) for x in xs)` and `all(p(x) for x in xs)`.
  abbrev pub any_of : (A → Bool) → List A → Bool
  any_of p [] = false
  any_of p (x ∷ xs) = p x || any_of p xs

  abbrev pub all_of : (A → Bool) → List A → Bool
  all_of p [] = true
  all_of p (x ∷ xs) = p x && all_of p xs

  -- `[x for x in xs if p(x)]`
  abbrev pub keep : (A → Bool) → List A → List A
  keep p [] = []
  keep p (x ∷ xs) = elim (p x) [ true ↦ x ∷ keep p xs | false ↦ keep p xs ]

  pub length-append : (xs ys : List A) → length (xs ++ ys) ≡ length xs + length ys
  length-append [] ys = omega arith
  length-append (x ∷ xs) ys = omega (arith, length-append xs ys)

  pub take-append-drop : (n : ℕ) (xs : List A) → take n xs ++ drop n xs ≡ xs
  take-append-drop zero xs = refl
  take-append-drop (suc n) [] = refl
  take-append-drop (suc n) (x ∷ xs) = ap (λ t. x ∷ t) (take-append-drop n xs)

  pub length-take : (n : ℕ) (xs : List A) → length (take n xs) ≡ min n (length xs)
  length-take zero xs = omega arith
  length-take (suc n) [] = omega arith
  length-take (suc n) (x ∷ xs) = omega (arith, length-take n xs)

  pub length-drop : (n : ℕ) (xs : List A) → length (drop n xs) ≡ length xs - n
  length-drop zero xs = omega arith
  length-drop (suc n) [] = omega arith
  length-drop (suc n) (x ∷ xs) = omega (arith, length-drop n xs)

  pub keep-append : (p : A → Bool) (xs ys : List A) → keep p (xs ++ ys) ≡ keep p xs ++ keep p ys
  keep-append p [] ys = refl
  keep-append p (x ∷ xs) ys = ground (arith, keep-append p xs ys)

  pub any_of-append :
      (p : A → Bool) (xs ys : List A) → any_of p (xs ++ ys) ≡ (any_of p xs || any_of p ys)
  any_of-append p [] ys = refl
  any_of-append p (x ∷ xs) ys = ground (arith, any_of-append p xs ys)

module _ {ℓ κ} {A : Type ℓ} where
  abbrev pub All : (A → Type κ) → List A → Type κ
  All P [] = Unit
  All P (x ∷ xs) = P x × All P xs

  pub All-append : (P : A → Type κ) (xs ys : List A) → All P xs → All P ys → All P (xs ++ ys)
  All-append P [] ys _ hy = hy
  All-append P (x ∷ xs) ys (px, hx) hy = (px, All-append P xs ys hx hy)

  pub All-split :
      (P : A → Type κ) (xs ys : List A) (y : A) → All P (xs ++ y ∷ ys) → P y × All P (xs ++ ys)
  All-split P [] ys y h = h
  All-split P (x ∷ xs) ys y (px, h) = let (py, rest) = All-split P xs ys y h in (py, (px, rest))
