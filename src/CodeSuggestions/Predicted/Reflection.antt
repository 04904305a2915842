-- ===== src/CodeSuggestions/Predicted/Reflection.antt =====
-- `_get_prediction` and `prepare_prediction_main`: the scores of the suggestions and the threshold.
use my_pr_agent.Prelude.{
  ℕ, suc, ◌≡◌, refl, ap, ap₂, Bool, true, false, not, ◌&&◌, ◌||◌, Option, none, some, is_some, List,
  [], ◌∷◌, leb, nat_eq, list_eq, ◌==◌, if◌then◌else◌, length, max, map, keep, arith,
}
use my_pr_agent.Patch.{FilePatchInfo}
use my_pr_agent.Text.{Text, codes, is_empty, strip, has_part}
use my_pr_agent.CodeSuggestions.Predicted.{PredictedSuggestion}

-- An entry of the feedback, with the keys that it has. A line below 0 is none, as is one that is not
-- there, which counts as -1.
pub record Feedback : Type 0 where
  pub suggestion_score : Option ℕ
  pub why : Option Text
  pub relevant_lines_start : Option ℕ
  pub relevant_lines_end : Option ℕ

-- The score of a suggestion, with the lines of the feedback where it has none.
abbrev scored_lines : Feedback → ℕ → Option (Option ℕ × Option ℕ) → ℕ
scored_lines f score (some lines) = score
scored_lines f score none =
    if is_some f.relevant_lines_start && is_some f.relevant_lines_end then score else 0

abbrev reflected_lines : Feedback → Option (Option ℕ × Option ℕ) → Option (Option ℕ × Option ℕ)
reflected_lines f (some lines) = some lines
reflected_lines f none = some (f.relevant_lines_start, f.relevant_lines_end)

-- The body of the `try`: a key that is missing gives the score 7.
unfoldable pub reflect_score : Feedback → PredictedSuggestion → PredictedSuggestion
reflect_score f s = elim f.suggestion_score [
  | none ↦ record s { score = some 7 }
  | some score ↦ elim f.why [
    | none ↦ record s { score = some 7 }
    | some why ↦ record s {
      score = some (scored_lines f score s.relevant_lines);
      relevant_lines = reflected_lines f s.relevant_lines;
    }
  ]
]

abbrev text_of : Option Text → Text
text_of none = []
text_of (some t) = t

-- Whether the files show that a suggestion was made before; a file without content ends the search.
unfoldable pub repeats_code : Text → Text → Text → List FilePatchInfo → Bool
unfolding strip has_part
repeats_code file existing_code new_code [] = false
repeats_code file existing_code new_code (f ∷ files) =
    let rest = repeats_code file existing_code new_code files in
    let here =
      has_part existing_code f.base_file
      && (not (has_part existing_code f.head_file) && has_part new_code f.head_file) in
    if strip f.filename == file
    then (if is_empty f.head_file then false else here || rest)
    else rest

unfoldable pub validate_one_liner_suggestion_not_repeating_code :
    List FilePatchInfo → PredictedSuggestion → PredictedSuggestion
unfolding repeats_code strip has_part
validate_one_liner_suggestion_not_repeating_code files s =
    let existing_code = strip (text_of s.existing_code) in
    let again =
      repeats_code (strip (text_of s.relevant_file)) existing_code (strip (text_of s.improved_code))
        files in
    if not (has_part (codes "...") existing_code) && again then record s { score = some 0 } else s

-- Where the code before and after is the same, one of the two is cleared; a missing one is an error
-- that is caught.
unfoldable pub clear_equal : Bool → PredictedSuggestion → PredictedSuggestion
clear_equal commitable s = elim s.existing_code [
  | none ↦ s
  | some existing_code ↦ elim s.improved_code [
    | none ↦ s
    | some improved_code ↦
        let cleared =
          if commitable
          then record s { improved_code = some [] }
          else record s { existing_code = some [] } in
        if existing_code == improved_code then cleared else s
  ]
]

unfoldable pub reflect_one :
    List FilePatchInfo → Bool → Feedback → PredictedSuggestion → PredictedSuggestion
unfolding reflect_score validate_one_liner_suggestion_not_repeating_code clear_equal
reflect_one files commitable f s =
    clear_equal commitable
      (validate_one_liner_suggestion_not_repeating_code files (reflect_score f s))

unfoldable pub reflect_each :
    List FilePatchInfo → Bool → List Feedback → List PredictedSuggestion → List PredictedSuggestion
unfolding reflect_one
reflect_each files commitable [] suggestions = suggestions
reflect_each files commitable (f ∷ fs) [] = []
reflect_each files commitable (f ∷ fs) (s ∷ suggestions) =
    reflect_one files commitable f s ∷ reflect_each files commitable fs suggestions

-- Feedback that does not fit the suggestions is left aside.
unfoldable pub analyze_self_reflection_response :
    List FilePatchInfo → Bool → List Feedback → List PredictedSuggestion → List PredictedSuggestion
unfolding reflect_each
analyze_self_reflection_response files commitable feedback suggestions =
    if length feedback == length suggestions
    then reflect_each files commitable feedback suggestions
    else suggestions

-- The suggestions behind the reflection; none where there is no answer.
unfoldable pub reflect_on :
    List FilePatchInfo
    → Bool
    → Option (List Feedback)
    → List PredictedSuggestion
    → List PredictedSuggestion
unfolding analyze_self_reflection_response
reflect_on files commitable none suggestions =
    map {B = PredictedSuggestion} (λ s. record s { score = some 7 }) suggestions
reflect_on files commitable (some feedback) suggestions =
    analyze_self_reflection_response files commitable feedback suggestions

abbrev pub score_of : Option ℕ → ℕ
score_of none = 1
score_of (some score) = score

-- The suggestions that are left by `suggestions_score_threshold`.
unfoldable pub above_threshold : ℕ → List PredictedSuggestion → List PredictedSuggestion
above_threshold threshold suggestions =
    keep (λ s. leb (max 1 threshold) (score_of s.score)) suggestions

-- What is left of one call's answer.
unfoldable pub prediction_of_call :
    List FilePatchInfo
    → Bool
    → ℕ
    → Option (List Feedback)
    → List PredictedSuggestion
    → List PredictedSuggestion
unfolding reflect_on above_threshold
prediction_of_call files commitable threshold feedback suggestions =
    above_threshold threshold (reflect_on files commitable feedback suggestions)

-- The feedback has the length that is asked for.
abbrev Fits : Option (List Feedback) → List PredictedSuggestion → Type 0
Fits none suggestions = Unit
Fits (some feedback) suggestions = length feedback ≡ length suggestions

-- A suggestion with another score.
abbrev rescored : (PredictedSuggestion → Option ℕ) → PredictedSuggestion → PredictedSuggestion
rescored score s = record s { score = score s }

reflect_score-rescored :
    (score : PredictedSuggestion → Option ℕ) (f : Feedback) (s : PredictedSuggestion)
    → reflect_score f (rescored score s) ≡ reflect_score f s
unfolding reflect_score
reflect_score-rescored score f s = refl

reflect_each-rescored :
    (files : List FilePatchInfo) (commitable : Bool) (score : PredictedSuggestion → Option ℕ)
    (feedback : List Feedback) (suggestions : List PredictedSuggestion)
    → length feedback ≡ length suggestions
    → reflect_each files commitable feedback (map (rescored score) suggestions)
      ≡ reflect_each files commitable feedback suggestions
unfolding reflect_each reflect_one
reflect_each-rescored files commitable score [] [] same = refl
reflect_each-rescored files commitable score [] (s ∷ suggestions) same = ground (arith, same)
reflect_each-rescored files commitable score (f ∷ feedback) [] same = ground (arith, same)
reflect_each-rescored files commitable score (f ∷ feedback) (s ∷ suggestions) same =
    ap₂
      (λ t u. clear_equal commitable (validate_one_liner_suggestion_not_repeating_code files t) ∷ u)
      (reflect_score-rescored score f s)
      (reflect_each-rescored files commitable score feedback suggestions (omega (arith, same)))

length-rescored :
    (score : PredictedSuggestion → Option ℕ) (suggestions : List PredictedSuggestion)
    → length (map (rescored score) suggestions) ≡ length suggestions
length-rescored score [] = refl
length-rescored score (s ∷ suggestions) = ap (λ n. suc n) (length-rescored score suggestions)

reflect_on-rescored :
    (files : List FilePatchInfo) (commitable : Bool) (score : PredictedSuggestion → Option ℕ)
    (feedback : Option (List Feedback)) (suggestions : List PredictedSuggestion)
    → Fits feedback suggestions
    → reflect_on files commitable feedback (map (rescored score) suggestions)
      ≡ reflect_on files commitable feedback suggestions
unfolding reflect_on analyze_self_reflection_response
reflect_on-rescored files commitable score none [] fits = refl
reflect_on-rescored files commitable score none (s ∷ suggestions) fits =
    ap (λ t. record s { score = some 7 } ∷ t)
      (reflect_on-rescored files commitable score none suggestions fits)
reflect_on-rescored files commitable score (some feedback) suggestions fits =
    let same : (length feedback == length (map (rescored score) suggestions)) ≡ true =
      ground (arith, fits, length-rescored score suggestions) in
    let before : (length feedback == length suggestions) ≡ true = ground (arith, fits) in
    rw (same, before) (reflect_each-rescored files commitable score feedback suggestions fits)

-- Unless the feedback has another length than the suggestions, what is left of a call's answer does
-- not depend on the scores that the suggestions had before the reflection, so that the score 0 of
-- the guard against truncated bodies rejects none of them.
pub prediction_of_call-rescored :
    (files : List FilePatchInfo) (commitable : Bool) (threshold : ℕ)
    (feedback : Option (List Feedback)) (suggestions : List PredictedSuggestion)
    (score : PredictedSuggestion → Option ℕ)
    → Fits feedback suggestions
    → prediction_of_call files commitable threshold feedback (map (rescored score) suggestions)
      ≡ prediction_of_call files commitable threshold feedback suggestions
unfolding prediction_of_call
prediction_of_call-rescored files commitable threshold feedback suggestions score fits =
    ap (above_threshold threshold)
      (reflect_on-rescored files commitable score feedback suggestions fits)
