-- ===== src/CodeSuggestions/Predicted/Summaries.antt =====
-- `_prepare_pr_code_suggestions`: no summary stands twice, and no key that is needed is missing.
use my_pr_agent.Prelude.{
  ℕ, ◌≡◌, refl, subst, inl, inr, Bool, true, false, Bool-cases, not, ◌&&◌, ◌||◌, Option,
  Option-cases, none, some, is_some, List, [], ◌∷◌, ◌++◌, nat_eq, list_eq, ◌==◌, contains,
  if◌then◌else◌,
}
use my_pr_agent.Text.{Text}
use my_pr_agent.CodeSuggestions.Predicted.{
  PredictedSuggestion, Preparing, truncate_code, truncates_body, const_instead_of_let, taken_over,
  prepare_one, prepare_pr_code_suggestions,
}

-- The content is there, and does not ask for `const` instead of `let`.
abbrev content_passes : Option Text → Bool
content_passes none = false
content_passes (some content) = not (const_instead_of_let content)

abbrev is_zero : Option ℕ → Bool
is_zero none = false
is_zero (some score) = score == 0

-- Both codes are there, and the score is 0 where a body looks left out.
abbrev codes_pass : Option Text → Option Text → Option ℕ → Bool
codes_pass (some existing_code) (some improved_code) score =
    not (truncates_body existing_code improved_code) || is_zero score
codes_pass _ _ score = false

-- A suggestion that has what is needed.
unfoldable pub is_complete : PredictedSuggestion → Bool
unfolding const_instead_of_let truncates_body
is_complete t =
    is_some t.label
    && (is_some t.relevant_file
        && (content_passes t.suggestion_content
            && codes_pass t.existing_code t.improved_code t.score))

-- Complete suggestions whose summaries are new, one after the other.
unfoldable pub are_new : List Text → List PredictedSuggestion → Bool
unfolding is_complete
are_new seen [] = true
are_new seen (t ∷ suggestions) = elim t.one_sentence_summary [
  | none ↦ false
  | some summary ↦
      not (contains seen summary) && (is_complete t && are_new (seen ++ summary ∷ []) suggestions)
]

-- What is true of a suggestion that is taken over.
abbrev Passes : List Text → Option (Text × PredictedSuggestion) → Type 0
Passes seen none = Unit
Passes seen (some (summary, t)) =
    (t.one_sentence_summary ≡ some summary)
    × ((contains seen summary ≡ false) × (is_complete t ≡ true))

codes_pass-guard :
    (existing_code improved_code : Text) (score : Option ℕ)
    → codes_pass
        (some existing_code)
        (some improved_code)
        (if truncates_body existing_code improved_code then some 0 else score)
      ≡ true
codes_pass-guard existing_code improved_code score =
    elim (Bool-cases (truncates_body existing_code improved_code)) [
      | inl left_out ↦ rw (left_out) refl
      | inr whole ↦ rw (whole) refl
    ]

taken_over_summary :
    (p : Preparing) (s : PredictedSuggestion) (label existing_code improved_code : Text)
    → (taken_over p s label existing_code improved_code).one_sentence_summary
      ≡ s.one_sentence_summary
unfolding taken_over
taken_over_summary p s label existing_code improved_code = refl

taken_over_complete :
    (p : Preparing) (s : PredictedSuggestion)
    (label existing_code improved_code file content : Text)
    → s.relevant_file ≡ some file
    → s.suggestion_content ≡ some content
    → const_instead_of_let content ≡ false
    → s.existing_code ≡ some existing_code
    → is_complete (taken_over p s label existing_code improved_code) ≡ true
unfolding is_complete taken_over
taken_over_complete p s label existing_code improved_code file content f c e o =
    rw (f, c, e, o) (codes_pass-guard existing_code (truncate_code p improved_code) s.score)

prepare_one-Passes :
    (p : Preparing) (seen : List Text) (s : PredictedSuggestion)
    → Passes seen (prepare_one p seen s)
unfolding prepare_one
prepare_one-Passes p seen s = elim (Option-cases s.one_sentence_summary) [
  | inl e ↦ rw (e) tt
  | inr (summary, e) ↦ elim (Option-cases s.label) [
    | inl e' ↦ rw (e, e') tt
    | inr (label, e') ↦ elim (Option-cases s.relevant_file) [
      | inl f ↦ rw (e, e', f) tt
      | inr (file, f) ↦ elim (Bool-cases (contains seen summary)) [
        | inl old ↦ rw (e, e', f, old) tt
        | inr new ↦ elim (Option-cases s.suggestion_content) [
          | inl c ↦ rw (e, e', f, new, c) tt
          | inr (content, c) ↦ elim (Bool-cases (const_instead_of_let content)) [
            | inl k ↦ rw (e, e', f, new, c, k) tt
            | inr k ↦ elim (Option-cases s.existing_code) [
              | inl o ↦ rw (e, e', f, new, c, k, o) tt
              | inr (existing_code, o) ↦ elim (Option-cases s.improved_code) [
                | inl i ↦ rw (e, e', f, new, c, k, o, i) tt
                | inr (improved_code, i) ↦
                    let r : PredictedSuggestion = record s {
                      one_sentence_summary = some summary;
                      label = some label;
                      relevant_file = some file;
                      suggestion_content = some content;
                      existing_code = some existing_code;
                      improved_code = some improved_code;
                    } in
                    rw (e, e', f, new, c, k, o, i)
                      (
                        taken_over_summary p r label existing_code improved_code,
                        (
                          new,
                          taken_over_complete p r label existing_code improved_code file content
                              refl refl k refl,
                        ),
                      )
              ]
            ]
          ]
        ]
      ]
    ]
  ]
]

-- All suggestions that are prepared have a label, a file, a content that does not ask for `const`
-- instead of `let`, and both codes; where a body looks left out the score is 0; and the summary of
-- each is another than those before it.
pub prepare_pr_code_suggestions-new :
    (p : Preparing) (seen : List Text) (suggestions : List PredictedSuggestion)
    → are_new seen (prepare_pr_code_suggestions p seen suggestions) ≡ true
unfolding prepare_pr_code_suggestions are_new
prepare_pr_code_suggestions-new p seen [] = refl
prepare_pr_code_suggestions-new p seen (s ∷ suggestions) =
    elim (Option-cases (prepare_one p seen s)) [
      | inl skipped ↦
          rw (skipped, prepare_pr_code_suggestions)
            (prepare_pr_code_suggestions-new p seen suggestions)
      | inr ((summary, t), taken) ↦
          let (named, (new, complete)) = subst (Passes seen) taken (prepare_one-Passes p seen s) in
          let rest = prepare_pr_code_suggestions-new p (seen ++ summary ∷ []) suggestions in
          rw (taken, prepare_pr_code_suggestions, are_new, named, new, complete) rest
    ]
