-- ===== src/Tests/CoverageRuns.antt =====
-- Two rules of which one is cited.
use my_pr_agent.Prelude.{
  ◌≡◌, refl, not, ◌&&◌, none, some, List, [], ◌∷◌, Option, contains, any_of, nat_eq, list_eq,
}
use my_pr_agent.Text.{Text, codes}
use my_pr_agent.RuleCoverage.{FindKeys, Suggestion, compute_uncovered_rules}
use my_pr_agent.RuleCoverage.Uncovered.{cites, compute_uncovered_rules_lem}

-- A text is one key here.
abbrev find : FindKeys
find text = text ∷ []

abbrev suggestions : List (Option Suggestion)
suggestions =
    none
    ∷ some (record {
      suggestion_content = codes "ZLG-1";
      one_sentence_summary = [];
      improved_code = [];
    })
    ∷ []

abbrev required : List Text
required = codes "ZLG-1" ∷ codes "ZLG-2" ∷ []

uncovered : compute_uncovered_rules find required suggestions ≡ codes "ZLG-2" ∷ []
unfolding compute_uncovered_rules
uncovered = refl

compute_uncovered_rules_lem_example :
    contains (compute_uncovered_rules find required suggestions) (codes "ZLG-2")
    ≡ (contains required (codes "ZLG-2") && not (any_of (cites find (codes "ZLG-2")) suggestions))
compute_uncovered_rules_lem_example =
    compute_uncovered_rules_lem find required suggestions (codes "ZLG-2")
