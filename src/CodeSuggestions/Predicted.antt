-- ===== src/CodeSuggestions/Predicted.antt =====
-- `_prepare_pr_code_suggestions`: the suggestions of a model's answer that are well formed.
pub mod Summaries
pub mod Reflection
use my_pr_agent.Prelude.{
  ℕ, ◌+◌, ◌-◌, Bool, true, false, not, ◌&&◌, ◌||◌, Option, none, some, is_some, List, [], ◌∷◌, ◌++◌,
  leb, ltb, nat_eq, list_eq, ◌==◌, contains, if◌then◌else◌, length, take, keep, any_of, ◌>>=◌,
}
use my_pr_agent.Text.{
  Text, codes, newline, is_empty, strip, lstrip, starts_with, has_part, lower, is_space,
}
use my_pr_agent.Text.Lines.{splitlines}

-- A suggestion of the answer with the keys that it has. A line below 0 is none; a key whose value is
-- null is not modelled.
pub record PredictedSuggestion : Type 0 where
  pub one_sentence_summary : Option Text
  pub label : Option Text
  pub relevant_file : Option Text
  pub suggestion_content : Option Text
  pub existing_code : Option Text
  pub improved_code : Option Text
  pub relevant_lines : Option (Option ℕ × Option ℕ)
  pub score : Option ℕ

-- The settings that are read.
pub record Preparing : Type 0 where
  pub focus_only_on_problems : Bool
  pub max_code_suggestion_length : ℕ
  pub suggestion_truncation_message : Text

unfoldable pub truncate_code : Preparing → Text → Text
truncate_code p code =
    if ltb 0 p.max_code_suggestion_length && ltb p.max_code_suggestion_length (length code)
    then take p.max_code_suggestion_length code ++ newline ∷ p.suggestion_truncation_message
    else code

unfoldable pub code_lines : Text → List Text
unfolding strip splitlines
code_lines code = keep (λ line. not (is_empty (strip line))) (splitlines code)

unfoldable pub is_ellipsis : Text → Bool
unfolding strip
is_ellipsis line = strip line == codes "..."

unfoldable pub is_def : Text → Bool
unfolding lstrip starts_with
is_def line = starts_with (codes "def ") (lstrip line)

-- Each `def` line has an ellipsis behind it.
unfoldable pub defs_closed : List Text → Bool
unfolding is_ellipsis is_def
defs_closed [] = true
defs_closed (line ∷ lines) = (not (is_def line) || any_of is_ellipsis lines) && defs_closed lines

unfoldable pub is_list_of_functions : List Text → Bool
unfolding is_ellipsis is_def defs_closed
is_list_of_functions lines =
    leb 2 (length (keep is_def lines))
    && (leb (length (keep is_def lines)) (length (keep is_ellipsis lines)) && defs_closed lines)

-- Whether the improved code looks as if a body was left out.
unfoldable pub truncates_body : Text → Text → Bool
unfolding code_lines is_ellipsis is_list_of_functions strip
truncates_body existing_code improved_code =
    let orig_lines = code_lines (strip existing_code) in
    let new_lines = code_lines (strip improved_code) in
    let ellipsis_count = length (keep is_ellipsis new_lines) in
    not (is_empty (strip existing_code))
    && (not (is_empty (strip improved_code))
        && (leb 4 (length orig_lines)
            && (leb 1 ellipsis_count
                && (leb (length new_lines - ellipsis_count + 2) (length orig_lines)
                    && not (is_list_of_functions new_lines)))))

-- The label that is published where only problems are looked for.
unfoldable pub published_label : Preparing → Text → Text
unfolding has_part lower
published_label p label =
    if p.focus_only_on_problems && has_part (codes "critical") (lower label)
    then codes "possible issue"
    else label

unfoldable pub const_instead_of_let : Text → Bool
unfolding has_part
const_instead_of_let content =
    has_part (codes "const") content
    && (has_part (codes "instead") content && has_part (codes "let") content)

-- A suggestion that is taken, with its code cut and the guard's score.
unfoldable pub taken_over :
    Preparing → PredictedSuggestion → Text → Text → Text → PredictedSuggestion
unfolding truncate_code truncates_body published_label
taken_over p s label existing_code improved_code =
    let improved = truncate_code p improved_code in
    record s {
      label = some (published_label p label);
      improved_code = some improved;
      score = if truncates_body existing_code improved then some 0 else s.score;
    }

-- The suggestion as it is taken over, or none where it is skipped. `seen` are the summaries so far.
unfoldable pub prepare_one :
    Preparing → List Text → PredictedSuggestion → Option (Text × PredictedSuggestion)
unfolding const_instead_of_let
prepare_one p seen s = do
  summary ← s.one_sentence_summary
  label ← s.label
  file ← s.relevant_file
  content ← (if contains seen summary then none else s.suggestion_content)
  existing_code ← (if const_instead_of_let content then none else s.existing_code)
  improved_code ← s.improved_code
  some (summary, taken_over p s label existing_code improved_code)

unfoldable pub prepare_pr_code_suggestions :
    Preparing → List Text → List PredictedSuggestion → List PredictedSuggestion
unfolding prepare_one
prepare_pr_code_suggestions p seen [] = []
prepare_pr_code_suggestions p seen (s ∷ suggestions) = elim (prepare_one p seen s) [
  | none ↦ prepare_pr_code_suggestions p seen suggestions
  | some (summary, t) ↦ t ∷ prepare_pr_code_suggestions p (seen ++ summary ∷ []) suggestions
]
