-- ===== src/Tests/PostRuns.antt =====
-- Suggestions of one round, the rows of the store, and the answer of a model.
use my_pr_agent.Prelude.{
  ◌+◌, ◌≤◌, ◌≡◌, refl, true, not, none, some, [], ◌∷◌, nat_eq, pair_eq, list_eq, keep, length,
}
use my_pr_agent.Text.{codes, is_space}
use my_pr_agent.CodeSuggestions.{
  InlineSuggestion, Site, dedup_same_round_suggestions, get_suggestion_limit,
}
use my_pr_agent.CodeSuggestions.Dedup.{is_at, first_best, dedup_same_round_suggestions-site}
use my_pr_agent.CodeSuggestions.Suppress.{Stored, Suppressing, suppress_resolved_suggestions}
use my_pr_agent.CodeSuggestions.Suppress.Kept.{is_suppressed, suppress_resolved_suggestions-kept}
use my_pr_agent.CodeSuggestions.Posting.{
  SuggestionOutcome, select_suggestions, select_suggestions-counts,
}
use my_pr_agent.CodeSuggestions.Predicted.{
  PredictedSuggestion, Preparing, prepare_pr_code_suggestions, truncates_body,
}
use my_pr_agent.CodeSuggestions.Predicted.Summaries.{are_new, prepare_pr_code_suggestions-new}
use my_pr_agent.CodeSuggestions.Predicted.Reflection.{
  Feedback, prediction_of_call, prediction_of_call-rescored,
}

abbrev weak : InlineSuggestion
weak = record {
  relevant_file = codes "a.py";
  relevant_lines_start = 7;
  label = codes "bug";
  fingerprint = codes "f1";
  cohort_key = codes "c1";
  posted_head_sha = codes "h";
  body = [];
  suggestion_content = [];
  one_sentence_summary = [];
  score = 4;
}

abbrev strong : InlineSuggestion
strong = record weak { label = codes "bug "; fingerprint = codes "f2"; score = 9 }

abbrev elsewhere : InlineSuggestion
elsewhere = record weak {
  relevant_lines_start = 40;
  fingerprint = codes "f3";
  cohort_key = codes "c3";
}

abbrev site : Site
site = (codes "a.py", (7, codes "bug"))

one_for_a_site :
    dedup_same_round_suggestions (weak ∷ elsewhere ∷ strong ∷ []) ≡ strong ∷ elsewhere ∷ []
unfolding dedup_same_round_suggestions is_space
one_for_a_site = refl

dedup_same_round_suggestions-site_example :
    keep (is_at site) (dedup_same_round_suggestions (weak ∷ elsewhere ∷ strong ∷ []))
    ≡ first_best (keep (is_at site) (weak ∷ elsewhere ∷ strong ∷ []))
dedup_same_round_suggestions-site_example =
    dedup_same_round_suggestions-site (weak ∷ elsewhere ∷ strong ∷ []) site

-- The stub of the hash gives the text itself; no rule keys are found.
abbrev h : Suppressing
h = record { digest = λ t. t; sort_keys = λ ks. ks; find_keys = λ t. []; rule_line_window = 10 }

abbrev applied : Stored
applied = record {
  state = codes "applied";
  file = codes "a.py";
  line = 9;
  rule_keys = [];
  fingerprint = codes "f0";
  cohort_key = codes "c0";
  posted_head_sha = codes "g";
}

near_is_suppressed :
    (suppress_resolved_suggestions h (some (applied ∷ [])) [] (weak ∷ elsewhere ∷ [])).0
    ≡ elsewhere ∷ []
unfolding suppress_resolved_suggestions is_space
near_is_suppressed = refl

suppress_resolved_suggestions-kept_example :
    (suppress_resolved_suggestions h (some (applied ∷ [])) (applied ∷ []) (weak ∷ elsewhere ∷ [])).0
    ≡ keep (λ s. not (is_suppressed h (applied ∷ []) (applied ∷ []) s)) (weak ∷ elsewhere ∷ [])
suppress_resolved_suggestions-kept_example =
    suppress_resolved_suggestions-kept h (applied ∷ []) (applied ∷ []) (weak ∷ elsewhere ∷ [])

posted_one :
    (select_suggestions h
      (get_suggestion_limit (some 0) none)
      (some (applied ∷ []))
      []
      (weak ∷ elsewhere ∷ strong ∷ [])).0
    ≡ elsewhere ∷ []
unfolding select_suggestions get_suggestion_limit is_space
posted_one = refl

abbrev outcome : SuggestionOutcome
outcome =
    (select_suggestions h 1 (some (applied ∷ [])) (applied ∷ []) (weak ∷ elsewhere ∷ strong ∷ [])).1

select_suggestions-counts_example :
    (outcome.llm_emitted
      ≡ outcome.dedup_dropped + (outcome.suppressed_count + (outcome.limit_dropped + outcome.kept)))
    × ((length outcome.suppressed_records ≡ outcome.suppressed_count) × (outcome.kept ≤ 1))
select_suggestions-counts_example =
    select_suggestions-counts h 1 (some (applied ∷ [])) (applied ∷ [])
      (weak ∷ elsewhere ∷ strong ∷ [])

abbrev cut : PredictedSuggestion
cut = record {
  one_sentence_summary = some (codes "Add a docstring");
  label = some (codes "style");
  relevant_file = some (codes "a.py");
  suggestion_content = some (codes "Document it");
  existing_code = some (codes "def f():\n  a\n  b\n  c");
  improved_code = some (codes "def f():\n  ...");
  relevant_lines = some (some 1, some 4);
  score = none;
}

body_left_out : truncates_body (codes "def f():\n  a\n  b\n  c") (codes "def f():\n  ...") ≡ true
unfolding truncates_body is_space
body_left_out = refl

abbrev p : Preparing
p = record {
  focus_only_on_problems = true;
  max_code_suggestion_length = 0;
  suggestion_truncation_message = [];
}

prepare_pr_code_suggestions-new_example :
    are_new [] (prepare_pr_code_suggestions p [] (cut ∷ cut ∷ [])) ≡ true
prepare_pr_code_suggestions-new_example = prepare_pr_code_suggestions-new p [] (cut ∷ cut ∷ [])

abbrev praise : Feedback
praise = record {
  suggestion_score = some 8;
  why = some (codes "good");
  relevant_lines_start = some 1;
  relevant_lines_end = some 4;
}

-- The guard's score is forgotten.
guard_forgotten :
    prediction_of_call [] true 5 (some (praise ∷ [])) (record cut { score = some 0 } ∷ [])
    ≡ record cut { score = some 8 } ∷ []
unfolding prediction_of_call
guard_forgotten = refl

prediction_of_call-rescored_example :
    prediction_of_call [] true 5 (some (praise ∷ [])) (record cut { score = some 0 } ∷ [])
    ≡ prediction_of_call [] true 5 (some (praise ∷ [])) (cut ∷ [])
prediction_of_call-rescored_example =
    prediction_of_call-rescored [] true 5 (some (praise ∷ [])) (cut ∷ []) (λ s. some 0) refl
