-- ===== src/SuggestionMatcher/Spans.antt =====
-- What `_find_spans` finds.
use my_pr_agent.Prelude.{
  ℕ, zero, suc, ◌+◌, ◌-◌, ◌≡◌, refl, sym, inl, inr, Bool, true, false, not, ◌&&◌, ◌||◌, List, [],
  ◌∷◌, arith, ltb, nat_eq, list_eq, pair_eq, pair_beq, ◌==◌, if◌then◌else◌, length, take, drop,
  length-drop, Bool-cases, contains,
}
use my_pr_agent.Text.{Text, is_empty}
use my_pr_agent.SuggestionMatcher.{Span, spans_from, find_spans}

-- The lines that begin `k` lines down are the needle.
abbrev pub stands_at : List Text → List Text → ℕ → Bool
stands_at haystack needle k = take (length needle) (drop k haystack) == needle

short :
    (needle lines : List Text)
    → ltb (length lines) (length needle) ≡ true
    → (take (length needle) lines == needle) ≡ false
short [] lines h = ground arith
short (n ∷ needle) [] h = refl
short (n ∷ needle) (x ∷ lines) h = ground (arith, short needle lines)

nothing_at : (n : Text) (needle : List Text) (k : ℕ) → stands_at [] (n ∷ needle) k ≡ false
nothing_at n needle zero = refl
nothing_at n needle (suc k) = refl

stands_at-cons :
    (x : Text) (haystack needle : List Text) (k m : ℕ)
    → m ≡ k - 1
    → stands_at (x ∷ haystack) needle k
      ≡ (if k == 0 then stands_at (x ∷ haystack) needle 0 else stands_at haystack needle m)
stands_at-cons x haystack needle zero m e = refl
stands_at-cons x haystack needle (suc k) m e = ground arith

-- The first line is counted, and then the others one further down.
next_line :
    (here further later : Bool) (index len a b : ℕ)
    → later ≡ (ltb (suc index) a && b + 1 == a + len && further)
    → (if here then pair_beq nat_eq nat_eq (index + 1, index + len) (a, b) || later else later)
      ≡ (ltb index a && b + 1 == a + len && (if a - 1 - index == 0 then here else further))
next_line here further later index len a b e = ground arith

contains-if :
    (c : Bool) (span : Span) (spans : List Span) (other : Span)
    → contains (if c then span ∷ spans else spans) other ≡ (
        if c
        then pair_beq nat_eq nat_eq span other || contains spans other
        else contains spans other)
contains-if true span spans other = refl
contains-if false span spans other = refl

spans_from-contains :
    (index : ℕ) (haystack : List Text) (n : Text) (needle : List Text) (a b : ℕ)
    → contains (spans_from index haystack (n ∷ needle)) (a, b) ≡ (
        ltb index a
        && b + 1 == a + length (n ∷ needle)
        && stands_at haystack (n ∷ needle) (a - 1 - index))
unfolding spans_from
spans_from-contains index [] n needle a b = ground (arith, nothing_at n needle (a - 1 - index))
spans_from-contains index (x ∷ haystack) n needle a b =
    let ns = n ∷ needle in
    let rest = contains (spans_from (suc index) haystack ns) (a, b) in
    let here = stands_at (x ∷ haystack) ns 0 in
    let counted =
      next_line here (stands_at haystack ns (a - 1 - suc index)) rest index (length ns) a b
        (spans_from-contains (suc index) haystack n needle a b) in
    rw (stands_at-cons x haystack ns (a - 1 - index) (a - 1 - suc index) (omega arith), sym counted)
      (contains-if here (index + 1, index + length ns) (spans_from (suc index) haystack ns) (a, b))

-- A span is found exactly if there is a needle, and the span has its length and holds its lines.
pub find_spans-contains :
    (haystack needle : List Text) (a b : ℕ)
    → contains (find_spans haystack needle) (a, b) ≡ (
        not (is_empty needle)
        && ltb 0 a
        && b + 1 == a + length needle
        && stands_at haystack needle (a - 1))
unfolding find_spans
find_spans-contains haystack [] a b = refl
find_spans-contains haystack (n ∷ needle) a b =
    let ns = n ∷ needle in
    elim (Bool-cases (ltb (length haystack) (length ns))) [
      | inl long ↦
          let none_there =
            short ns (drop (a - 1) haystack) (ground (arith, length-drop (a - 1) haystack)) in
          rw (long, find_spans) (ground (arith, none_there))
      | inr fits ↦
          let all = spans_from-contains 0 haystack n needle a b in
          rw (fits, find_spans) (ground (arith, all))
    ]
