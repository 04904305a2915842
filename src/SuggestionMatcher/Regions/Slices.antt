-- ===== src/SuggestionMatcher/Regions/Slices.antt =====
-- Parts of a list that stand together in it.
use my_pr_agent.Prelude.{
  ℕ, zero, suc, ◌+◌, ◌-◌, ◌≤◌, ◌≡◌, refl, ap, ◌∙◌, List, [], ◌∷◌, ◌++◌, append_assoc, arith, take,
  drop, take-append-drop, slice, length, length-drop, min,
}

module _ {A : Type 0} where
  -- `xs` stands in `ys`.
  abbrev pub IsPart : List A → List A → Type 0
  IsPart xs ys = (before : List A) × ((after : List A) × (before ++ (xs ++ after) ≡ ys))

  IsPart-cons : (x : A) (xs ys : List A) → IsPart xs ys → IsPart xs (x ∷ ys)
  IsPart-cons x xs ys (before, (after, e)) = (x ∷ before, (after, ap (λ t. x ∷ t) e))

  pub IsPart-trans : (xs ys zs : List A) → IsPart xs ys → IsPart ys zs → IsPart xs zs
  IsPart-trans xs ys zs (b, (a, e)) (b', (a', e')) = (
    b' ++ b,
    (
      a ++ a',
      cc (
        e,
        e',
        append_assoc b' b (xs ++ (a ++ a')),
        append_assoc xs a a',
        append_assoc b (xs ++ a) a',
      ),
    ),
  )

  pub IsPart-slice : (xs : List A) (i j : ℕ) → IsPart (slice xs i j) xs
  IsPart-slice xs i j = (
    take i xs,
    (
      drop (j - i) (drop i xs),
      ap (λ t. take i xs ++ t) (take-append-drop (j - i) (drop i xs)) ∙ take-append-drop i xs,
    ),
  )

  take-nil : (n : ℕ) → take {A = A} n [] ≡ []
  take-nil zero = refl
  take-nil (suc n) = refl

  prefix : (a b : ℕ) (xs : List A) → a ≤ b → (after : List A) × (take a xs ++ after ≡ take b xs)
  prefix zero b xs h = (take b xs, refl)
  prefix (suc a) zero xs h = ground arith
  prefix (suc a) (suc b) [] h = ([], refl)
  prefix (suc a) (suc b) (x ∷ xs) h =
      let (after, e) = prefix a b xs (omega arith) in (after, ap (λ t. x ∷ t) e)

  window :
      (i a n m : ℕ) (xs : List A)
      → i ≤ a
      → a + n ≤ i + m
      → IsPart (take n (drop a xs)) (take m (drop i xs))
  window (suc i) zero n m xs ia h = ground arith
  window (suc i) (suc a) n m [] ia h = rw (take-nil n, take-nil m) ([], ([], refl))
  window (suc i) (suc a) n m (x ∷ xs) ia h = window i a n m xs (omega arith) (omega arith)
  window zero zero n m xs ia h = ([], prefix n m xs (omega arith))
  window zero (suc a) n zero xs ia h = ground arith
  window zero (suc a) n (suc m) [] ia h = rw (take-nil n) ([], ([], refl))
  window zero (suc a) n (suc m) (x ∷ xs) ia h =
      IsPart-cons x _ _ (window zero a n m xs (omega arith) (omega arith))

  -- A slice within another one is a part of it.
  pub slice-inner :
      (xs : List A) (i a b j : ℕ) → i ≤ a → a ≤ b → b ≤ j → IsPart (slice xs a b) (slice xs i j)
  slice-inner xs i a b j ia ab bj = window i a (b - a) (j - i) xs ia (omega arith)

  take-whole : (n : ℕ) (xs : List A) → length xs ≤ n → take n xs ≡ xs
  take-whole zero [] h = refl
  take-whole zero (x ∷ xs) h = ground arith
  take-whole (suc n) [] h = refl
  take-whole (suc n) (x ∷ xs) h = ap (λ t. x ∷ t) (take-whole n xs (omega arith))

  -- The end of a slice may be cut down to the length of the list.
  pub slice-clip : (xs : List A) (i j : ℕ) → slice xs i (min (length xs) j) ≡ slice xs i j
  slice-clip xs i j = ground (
    arith,
    take-whole (length xs - i) (drop i xs),
    take-whole (j - i) (drop i xs),
    length-drop i xs,
  )
