-- ===== src/Tests/Matching.antt =====
-- A small matcher of lines: every place where the first list stands in the second one.
use my_pr_agent.Prelude.{
  ℕ, zero, suc, ◌+◌, ◌-◌, ◌≤◌, ◌≡◌, refl, sym, ◌∙◌, nat_beq_iff, inl, inr, Bool, true, Bool-cases,
  ◌&&◌, List, [], ◌∷◌, ◌++◌, arith, ap, All, All-append, any_of, any_of-append, nat_eq, list_eq,
  list_beq_iff, ◌==◌, if◌then◌else◌, length, length-append, take, drop, slice, subst,
}
use my_pr_agent.Text.{Text}
use my_pr_agent.SuggestionMatcher.Regions.{Opcode, GetOpcodes, equal, is_equal}
use my_pr_agent.SuggestionMatcher.Regions.Slices.{IsPart}
use my_pr_agent.SuggestionMatcher.Regions.Drift.{IsMatcher}

unfoldable pub place : List Text → List Text → ℕ → List Opcode
place a b k =
    if take (length a) (drop k b) == a
    then record { tag = equal; i1 = 0; i2 = length a; j1 = k; j2 = k + length a } ∷ []
    else []

unfoldable pub places : List Text → List Text → ℕ → List Opcode
unfolding place
places a b zero = place a b zero
places a b (suc k) = place a b (suc k) ++ places a b k

unfoldable pub matcher : GetOpcodes
unfolding places
matcher a b = places a b (length b)

module _ (a b : List Text) where
  abbrev IsSound : Opcode → Type 0
  IsSound op =
      is_equal op.tag ≡ true
      → (op.i1 ≤ op.i2) × ((op.i2 ≤ length a) × (slice a op.i1 op.i2 ≡ slice b op.j1 op.j2))

  abbrev is_whole : Opcode → Bool
  is_whole op = is_equal op.tag && op.i2 - op.i1 == length a

  take-length : {A : Type 0} (xs ys : List A) → take (length xs) (xs ++ ys) ≡ xs
  take-length [] ys = refl
  take-length (x ∷ xs) ys = ap (λ t. x ∷ t) (take-length xs ys)

  drop-length : {A : Type 0} (xs ys : List A) → drop (length xs) (xs ++ ys) ≡ ys
  drop-length [] ys = refl
  drop-length (x ∷ xs) ys = drop-length xs ys

  take_self : {A : Type 0} (xs : List A) → take (length xs) xs ≡ xs
  take_self [] = refl
  take_self (x ∷ xs) = ap (λ t. x ∷ t) (take_self xs)

  same_lines :
      (k : ℕ)
      → (take (length a) (drop k b) == a) ≡ true
      → slice a 0 (length a) ≡ slice b k (k + length a)
  same_lines k here =
      let eq = (list_beq_iff (list_eq {A = ℕ}) (take (length a) (drop k b)) a).0 here in
      let left : length a - 0 ≡ length a = omega arith in
      let right : k + length a - k ≡ length a = omega arith in
      rw (left, right) (take_self a ∙ sym eq)

  place-IsSound : (k : ℕ) → All IsSound (place a b k)
  unfolding place
  place-IsSound k = elim (Bool-cases (take (length a) (drop k b) == a)) [
    | inl here ↦ rw (here, place) ((λ e. (omega arith, (omega arith, same_lines k here))), tt)
    | inr other ↦ rw (other, place) tt
  ]

  places-IsSound : (k : ℕ) → All IsSound (places a b k)
  unfolding places
  places-IsSound zero = place-IsSound zero
  places-IsSound (suc k) =
      All-append IsSound (place a b (suc k)) (places a b k) (place-IsSound (suc k))
        (places-IsSound k)

  place-whole : (k : ℕ) → take (length a) (drop k b) ≡ a → any_of is_whole (place a b k) ≡ true
  unfolding place
  place-whole k e =
      rw ((list_beq_iff (list_eq {A = ℕ}) (take (length a) (drop k b)) a).1 e, place) (ground arith)

  places-whole :
      (k m : ℕ) → k ≤ m → take (length a) (drop k b) ≡ a → any_of is_whole (places a b m) ≡ true
  unfolding places
  places-whole k zero h e =
      let first : k ≡ 0 = omega arith in
      subst (λ n. any_of is_whole (place a b n) ≡ true) first (place-whole k e)
  places-whole k (suc m) h e =
      rw (any_of-append is_whole (place a b (suc m)) (places a b m))
        (elim (Bool-cases (k == suc m)) [
          | inl last ↦
              let here =
                subst (λ n. any_of is_whole (place a b n) ≡ true) ((nat_beq_iff k (suc m)).0 last)
                  (place-whole k e) in
              ground (arith, here)
          | inr earlier ↦ ground (arith, places-whole k m (ground arith) e)
        ])

  found_whole : IsPart a b → any_of is_whole (matcher a b) ≡ true
  unfolding matcher
  found_whole (before, (after, e)) =
      places-whole (length before) (length b)
        (subst (λ t. length before ≤ length t) e (omega (arith, length-append before (a ++ after))))
        (subst (λ t. take (length a) (drop (length before) t) ≡ a) e
          (rw (drop-length before (a ++ after)) (take-length a after)))

pub matcher-IsMatcher : IsMatcher matcher
unfolding matcher
matcher-IsMatcher = record {
  equal_parts = λ a b. places-IsSound a b (length b);
  whole_match = λ a b part positive. found_whole a b part;
}
