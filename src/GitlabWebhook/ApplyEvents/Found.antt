-- ===== src/GitlabWebhook/ApplyEvents/Found.antt =====
-- An Apply commit that is found in the stripped message is found in the message.
use my_pr_agent.Prelude.{
  ℕ, ◌+◌, ◌*◌, ◌≡◌, refl, subst, sym, ◌∙◌, ap, inl, inr, true, Bool-cases, Option-cases, ◌&&◌, none,
  some, [], ◌∷◌, ◌++◌, nat_eq, is_some, arith, bind-some,
}
use my_pr_agent.Text.{Text, codes, is_empty, is_space, lstrip, rstrip, strip}
use my_pr_agent.Text.Numbers.{digit, digits_from, number}
use my_pr_agent.Text.Patterns.{after_folded, skip_spaces, after_spaces}
use my_pr_agent.GitlabWebhook.ApplyEvents.{match_apply, search_apply}

after_folded-append :
    (p s t : Text) {r : Text} → after_folded p s ≡ some r → after_folded p (s ++ t) ≡ some (r ++ t)
unfolding after_folded
after_folded-append [] s t e = ground (arith, e)
after_folded-append (c ∷ p) [] t e = ground (arith, e)
after_folded-append (c ∷ p) (d ∷ s) t {r} e = ground (arith, e, after_folded-append p s t {r = r})

skip_spaces-append :
    (s t : Text) {c : ℕ} {r : Text} → skip_spaces s ≡ c ∷ r → skip_spaces (s ++ t) ≡ (c ∷ r) ++ t
unfolding skip_spaces
skip_spaces-append [] t e = ground (arith, e)
skip_spaces-append (d ∷ s) t {c} {r} e = ground (arith, e, skip_spaces-append s t {c = c} {r = r})

digits_from-stop : (n d : ℕ) (s : Text) → digit d ≡ none → digits_from n (d ∷ s) ≡ (n, d ∷ s)
unfolding digits_from
digits_from-stop n d s e = rw (e, digits_from) refl

digits_from-more :
    (n d v : ℕ) (s : Text) → digit d ≡ some v → digits_from n (d ∷ s) ≡ digits_from (n * 10 + v) s
unfolding digits_from
digits_from-more n d v s e = rw (e, digits_from) refl

digits_from-nil : (n : ℕ) → digits_from n [] ≡ (n, [])
unfolding digits_from
digits_from-nil n = refl

digits_from-append :
    (n : ℕ) (s t : Text) {m c : ℕ} {r : Text}
    → digits_from n s ≡ (m, c ∷ r)
    → digits_from n (s ++ t) ≡ (m, c ∷ (r ++ t))
digits_from-append n [] t e = cc (digits_from-nil n, e)
digits_from-append n (d ∷ s) t {m = m} {c = c} {r = r} e = elim (Option-cases (digit d)) [
  | inl stop ↦
      digits_from-stop n d (s ++ t) stop
      ∙ ap (λ p. (p.0, p.1 ++ t)) (sym (digits_from-stop n d s stop) ∙ e)
  | inr (v, more) ↦
      digits_from-more n d v (s ++ t) more
      ∙ digits_from-append (n * 10 + v) s t (sym (digits_from-more n d v s more) ∙ e)
]

number-first : (d v : ℕ) (s : Text) → digit d ≡ some v → number (d ∷ s) ≡ some (digits_from v s)
unfolding number
number-first d v s e = rw (e, number) refl

number-none : (d : ℕ) (s : Text) → digit d ≡ none → number (d ∷ s) ≡ none
unfolding number
number-none d s e = rw (e, number) refl

number-nil : number [] ≡ none
unfolding number
number-nil = refl

number-append :
    (s t : Text) {m c : ℕ} {r : Text}
    → number s ≡ some (m, c ∷ r)
    → number (s ++ t) ≡ some (m, c ∷ (r ++ t))
number-append [] t e = cc (number-nil, e)
number-append (d ∷ s) t e = elim (Option-cases (digit d)) [
  | inl stop ↦ cc (number-none d s stop, e)
  | inr (v, first) ↦
      let same : some (digits_from v s) ≡ some _ = sym (number-first d v s first) ∙ e in
      number-first d v (s ++ t) first ∙ ap some (digits_from-append v s t (cc same))
]

after_spaces-append :
    (s t : Text) {c : ℕ} {r : Text}
    → after_spaces s ≡ some (c ∷ r)
    → after_spaces (s ++ t) ≡ some (c ∷ (r ++ t))
unfolding after_spaces
after_spaces-append [] t e = ground (arith, e)
after_spaces-append (d ∷ s) t {c = c} {r = r} e =
    ground (arith, e, skip_spaces-append s t {c = c} {r = r})

-- What the parts of a match took.
record IsMatch (s : Text) (count : ℕ) : Type 0 where
  behind_apply : Text
  first_digit : ℕ
  digits : Text
  first_space : ℕ
  spaces : Text
  first_letter : ℕ
  letters : Text
  rest : Text
  took_apply : after_folded (codes "apply") s ≡ some behind_apply
  took_spaces : after_spaces behind_apply ≡ some (first_digit ∷ digits)
  took_number : number (first_digit ∷ digits) ≡ some (count, first_space ∷ spaces)
  took_more : after_spaces (first_space ∷ spaces) ≡ some (first_letter ∷ letters)
  took_word : after_folded (codes "suggestion") (first_letter ∷ letters) ≡ some rest

IsMatch-append : (s t : Text) (count : ℕ) → IsMatch s count → IsMatch (s ++ t) count
IsMatch-append s t count h = record {
  behind_apply = h.behind_apply ++ t;
  first_digit = h.first_digit;
  digits = h.digits ++ t;
  first_space = h.first_space;
  spaces = h.spaces ++ t;
  first_letter = h.first_letter;
  letters = h.letters ++ t;
  rest = h.rest ++ t;
  took_apply = after_folded-append (codes "apply") s t h.took_apply;
  took_spaces = after_spaces-append h.behind_apply t h.took_spaces;
  took_number = number-append (h.first_digit ∷ h.digits) t h.took_number;
  took_more = after_spaces-append (h.first_space ∷ h.spaces) t h.took_more;
  took_word = after_folded-append (codes "suggestion") (h.first_letter ∷ h.letters) t h.took_word;
}

match_apply-of : (s : Text) (count : ℕ) → IsMatch s count → match_apply s ≡ some count
unfolding match_apply
match_apply-of s count h =
    rw (h.took_apply, match_apply)
      (rw h.took_spaces (rw h.took_number (rw h.took_more (rw h.took_word refl))))

parts :
    (s s1 s2 s3 s4 s5 : Text) (count : ℕ)
    → after_folded (codes "apply") s ≡ some s1
    → after_spaces s1 ≡ some s2
    → number s2 ≡ some (count, s3)
    → after_spaces s3 ≡ some s4
    → after_folded (codes "suggestion") s4 ≡ some s5
    → IsMatch s count
unfolding after_folded after_spaces
parts s s1 [] s3 s4 s5 count e1 e2 e3 e4 e5 = cc (number-nil, e3)
parts s s1 (c ∷ s2) [] s4 s5 count e1 e2 e3 e4 e5 = cc e4
parts s s1 (c ∷ s2) (d ∷ s3) [] s5 count e1 e2 e3 e4 e5 = cc e5
parts s s1 (c ∷ s2) (d ∷ s3) (a ∷ s4) s5 count e1 e2 e3 e4 e5 = record {
  behind_apply = s1;
  first_digit = c;
  digits = s2;
  first_space = d;
  spaces = s3;
  first_letter = a;
  letters = s4;
  rest = s5;
  took_apply = e1;
  took_spaces = e2;
  took_number = e3;
  took_more = e4;
  took_word = e5;
}

match_apply-parts : (s : Text) (count : ℕ) → match_apply s ≡ some count → IsMatch s count
unfolding match_apply
match_apply-parts s count e =
    let (s1, (e1, f1)) = bind-some (after_folded (codes "apply") s) _ e in
    let (s2, (e2, f2)) = bind-some (after_spaces s1) _ f1 in
    let (s3, (e3, f3)) = bind-some (number s2) _ f2 in
    let (s4, (e4, f4)) = bind-some (after_spaces s3.1) _ f3 in
    let (s5, (e5, f5)) = bind-some (after_folded (codes "suggestion") s4) _ f4 in
    parts s s1 s2 s3.1 s4 s5 count e1 e2 (e3 ∙ ap some (ap (λ n. (n, s3.1)) (cc f5))) e4 e5

match_apply-append :
    (s t : Text) (count : ℕ) → match_apply s ≡ some count → match_apply (s ++ t) ≡ some count
match_apply-append s t count e =
    match_apply-of (s ++ t) count (IsMatch-append s t count (match_apply-parts s count e))

search_apply-append :
    (s t : Text) → is_some (search_apply s) ≡ true → is_some (search_apply (s ++ t)) ≡ true
unfolding search_apply
search_apply-append [] t h = ground arith
search_apply-append (c ∷ s) t h = elim (Option-cases (match_apply (c ∷ s))) [
  | inl other ↦
      let later = search_apply-append s t (rw (other, search_apply) at h) in
      elim (Option-cases (match_apply (c ∷ (s ++ t)))) [
        | inl still ↦ rw (still, search_apply) later
        | inr (n, e) ↦ rw (e, search_apply) refl
      ]
  | inr (n, e) ↦ rw (match_apply-append (c ∷ s) t n e, search_apply) refl
]

search_apply-later :
    (b s : Text) → is_some (search_apply s) ≡ true → is_some (search_apply (b ++ s)) ≡ true
unfolding search_apply
search_apply-later [] s h = h
search_apply-later (c ∷ b) s h = elim (Option-cases (match_apply (c ∷ (b ++ s)))) [
  | inl other ↦ rw (other, search_apply) (search_apply-later b s h)
  | inr (n, e) ↦ rw (e, search_apply) refl
]

lstrip-cut : (s : Text) → (b : Text) × (b ++ lstrip s ≡ s)
unfolding lstrip
lstrip-cut [] = ([], refl)
lstrip-cut (c ∷ s) = elim (Bool-cases (is_space c)) [
  | inl blank ↦ let (b, e) = lstrip-cut s in (c ∷ b, rw (blank, lstrip) (ap (λ t. c ∷ t) e))
  | inr other ↦ ([], rw (other, lstrip) refl)
]

rstrip-cut : (s : Text) → (t : Text) × (rstrip s ++ t ≡ s)
unfolding rstrip
rstrip-cut [] = ([], refl)
rstrip-cut (c ∷ s) = elim (Bool-cases (is_empty (rstrip s) && is_space c)) [
  | inl blank ↦ (c ∷ s, rw (blank, rstrip) refl)
  | inr other ↦ let (t, e) = rstrip-cut s in (t, rw (other, rstrip) (ap (λ t. c ∷ t) e))
]

-- Stripping does not make a match.
pub search_apply-strip :
    (s : Text) → is_some (search_apply (strip s)) ≡ true → is_some (search_apply s) ≡ true
unfolding strip
search_apply-strip s h =
    let (b, e) = lstrip-cut s in
    let (t, f) = rstrip-cut (lstrip s) in
    subst (λ u. is_some (search_apply u) ≡ true) e
      (search_apply-later b (lstrip s) (
        subst (λ u. is_some (search_apply u) ≡ true) f
          (search_apply-append (rstrip (lstrip s)) t h)))
