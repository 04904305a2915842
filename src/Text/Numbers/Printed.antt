-- ===== src/Text/Numbers/Printed.antt =====
-- A number that is printed is read again.
use my_pr_agent.Prelude.{
  ℕ, zero, suc, ◌+◌, ◌-◌, ◌*◌, ◌/◌, ◌%◌, ◌<◌, ◌≡◌, refl, ◌∙◌, ap, inl, inr, Bool-cases, true, [],
  ◌∷◌, ◌++◌, none, some, ltb, leb, arith,
}
use my_pr_agent.Text.{Text}
use my_pr_agent.Text.Numbers.{digit_in, digit, digits_from, number, print_from, print}

digit_print : (d : ℕ) → d < 10 → digit (b'0' + d) ≡ some d
unfolding digit digit_in
digit_print d small =
    let low : leb b'0' (b'0' + d) ≡ true = ground arith in
    let high : leb (b'0' + d) (b'0' + 9) ≡ true = ground (arith, small) in
    let back : b'0' + d - b'0' ≡ d = omega arith in rw (low, high) (ap (λ n. some n) back)

number-digit : (d : ℕ) (s : Text) → d < 10 → number ((b'0' + d) ∷ s) ≡ some (digits_from d s)
unfolding number
number-digit d s small = rw (digit_print d small, number) refl

digits_from-digit :
    (n d : ℕ) (s : Text) → d < 10 → digits_from n ((b'0' + d) ∷ s) ≡ digits_from (n * 10 + d) s
unfolding digits_from
digits_from-digit n d s small = rw (digit_print d small, digits_from) refl

print_from-number :
    (fuel n : ℕ) (s : Text) → n < fuel → number (print_from fuel n s) ≡ some (digits_from n s)
unfolding print_from
print_from-number zero n s h = ground (arith, h)
print_from-number (suc fuel) n s h = elim (Bool-cases (ltb n 10)) [
  | inl small ↦
      let same : n % 10 ≡ n = ground (arith, small) in
      rw (small) (number-digit (n % 10) s (omega arith) ∙ ap (λ k. some (digits_from k s)) same)
  | inr large ↦
      let shorter : n / 10 < fuel = ground (arith, large, h) in
      let same : n / 10 * 10 + n % 10 ≡ n = omega arith in
      rw (large) (
        print_from-number fuel (n / 10) ((b'0' + n % 10) ∷ s) shorter
        ∙ ap (λ r. some r)
            (digits_from-digit (n / 10) (n % 10) s (omega arith) ∙ ap (λ k. digits_from k s) same))
]

print_from-append :
    (fuel n : ℕ) (out s : Text) → print_from fuel n out ++ s ≡ print_from fuel n (out ++ s)
unfolding print_from
print_from-append zero n out s = refl
print_from-append (suc fuel) n out s = elim (Bool-cases (ltb n 10)) [
  | inl small ↦ rw (small) refl
  | inr large ↦ rw (large) (print_from-append fuel (n / 10) ((b'0' + n % 10) ∷ out) s)
]

-- A printed number is read up to what is no digit.
pub number-print :
    (n c : ℕ) (s : Text) → digit c ≡ none → number (print n ++ c ∷ s) ≡ some (n, c ∷ s)
unfolding print digits_from
number-print n c s other =
    ap number (print_from-append (n + 1) n [] (c ∷ s))
    ∙ (print_from-number (n + 1) n (c ∷ s) (omega arith) ∙ rw (other, digits_from) refl)
