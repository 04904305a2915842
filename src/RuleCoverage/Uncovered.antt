-- ===== src/RuleCoverage/Uncovered.antt =====
-- Which rules are uncovered.
use my_pr_agent.Prelude.{
  ◌≡◌, refl, ap, ◌∙◌, inl, inr, Bool, Bool-cases, false, not, ◌&&◌, ◌||◌, List, [], ◌∷◌, ◌++◌,
  Option, none, some, keep, contains, contains-append, any_of, arith, nat_eq, list_eq, list_beq_iff,
}
use my_pr_agent.Text.{Text}
use my_pr_agent.RuleCoverage.{
  FindKeys, Suggestion, scan_text, collect_cited_keys, compute_uncovered_rules,
}

-- A field of the suggestion holds the key.
abbrev pub cites : FindKeys → Text → Option Suggestion → Bool
cites find k none = false
cites find k (some s) =
    contains (scan_text find s.suggestion_content) k
    || contains (scan_text find s.one_sentence_summary) k
    || contains (scan_text find s.improved_code) k

contains-four :
    (one two three rest : List Text) (k : Text)
    → contains (one ++ two ++ three ++ rest) k
      ≡ ((contains one k || contains two k || contains three k) || contains rest k)
contains-four one two three rest k = ground (
  arith,
  contains-append (one ++ two ++ three) rest k,
  contains-append (one ++ two) three k,
  contains-append one two k,
)

contains-collect :
    (find : FindKeys) (k : Text) (suggestions : List (Option Suggestion))
    → contains (collect_cited_keys find suggestions) k ≡ any_of (cites find k) suggestions
unfolding collect_cited_keys
contains-collect find k [] = refl
contains-collect find k (none ∷ suggestions) = contains-collect find k suggestions
contains-collect find k (some s ∷ suggestions) =
    contains-four (scan_text find s.suggestion_content) (scan_text find s.one_sentence_summary)
      (scan_text find s.improved_code) (collect_cited_keys find suggestions) k
    ∙ ap (λ b. cites find k (some s) || b) (contains-collect find k suggestions)

contains-keep :
    (p : Text → Bool) (k : Text) (required : List Text)
    → contains (keep p required) k ≡ (contains required k && p k)
contains-keep p k [] = refl
contains-keep p k (r ∷ required) = elim (Bool-cases (p r)) [
  | inl passes ↦ ground (arith, passes, list_beq_iff nat_eq r k, contains-keep p k required)
  | inr fails ↦ ground (arith, fails, list_beq_iff nat_eq r k, contains-keep p k required)
]

-- A rule is uncovered exactly if it is required and no field of any suggestion cites it.
pub compute_uncovered_rules_lem :
    (find : FindKeys) (required : List Text) (suggestions : List (Option Suggestion)) (k : Text)
    → contains (compute_uncovered_rules find required suggestions) k
      ≡ (contains required k && not (any_of (cites find k) suggestions))
unfolding compute_uncovered_rules
compute_uncovered_rules_lem find [] suggestions k = refl
compute_uncovered_rules_lem find (r ∷ required) suggestions k = ground (
  arith,
  contains-collect find k suggestions,
  contains-keep (λ j. not (contains (collect_cited_keys find suggestions) j)) k (r ∷ required),
)
