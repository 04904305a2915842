-- ===== src/Tests/SuggestionRuns.antt =====
-- A suggestion that a commit has applied, and one that is drifted only.
use my_pr_agent.Prelude.{
  ◌≡◌, refl, true, false, not, ◌&&◌, Option, none, some, List, [], ◌∷◌, ◌+◌, ◌-◌, min, leb, ltb,
  keep, map, contains, length, nat_eq, list_eq, pair_eq, ◌==◌,
}
use my_pr_agent.Text.{Text, codes, strip, is_empty, is_space, starts_with}
use my_pr_agent.SuggestionMatcher.{
  Span, extract_suggestion_patch, find_spans, normalize_file_lines, normalize_line_endings,
}
use my_pr_agent.SuggestionMatcher.Spans.{stands_at, find_spans-contains}
use my_pr_agent.SuggestionMatcher.Regions.{target_region_changed, window_unchanged}
use my_pr_agent.SuggestionMatcher.Regions.Drift.{target_region_changed_lem}
use my_pr_agent.SuggestionMatcher.Candidates.{
  OpenSuggestion, Commit, find_applied_suggestion_candidates,
}
use my_pr_agent.SuggestionMatcher.Candidates.Cached.{
  applies, find_applied_suggestion_candidates_lem,
}
use my_pr_agent.Tests.Matching.{matcher, matcher-IsMatcher}

abbrev note : Text
note = codes "See here:\n```Suggestion:-0+0\n  b = 2\n\n```\nand so on"

patch : extract_suggestion_patch note ≡ some (codes "  b = 2")
unfolding extract_suggestion_patch starts_with normalize_line_endings is_space
patch = refl

abbrev pub parent : Text
parent = codes "a = 1\nb = 1\nc = 3\n"

abbrev pub current : Text
current = codes "a = 1\n  b = 2\r\nc = 3\n"

abbrev commit : Commit
commit = record {
  notes_by_discussion = (codes "n1", note) ∷ [];
  parent_files = (codes "x.py", parent) ∷ [];
  current_files = (codes "x.py", current) ∷ [];
  changed_ranges_by_file = (codes "x.py", (2, 2) ∷ []) ∷ [];
}

abbrev pub suggestion : Option Text → OpenSuggestion
suggestion state = record {
  state = state;
  suggestion_id = codes " s1 ";
  note_id = codes "n1";
  file = codes "x.py";
}

abbrev pub suggestions : List OpenSuggestion
suggestions = suggestion none ∷ suggestion (some (codes "adopted")) ∷ []

applied : find_applied_suggestion_candidates matcher commit suggestions ≡ codes "s1" ∷ []
unfolding find_applied_suggestion_candidates matcher starts_with normalize_line_endings is_space
applied = refl

find_applied_suggestion_candidates_lem_example :
    find_applied_suggestion_candidates matcher commit suggestions
    ≡ map (λ s. strip s.suggestion_id) (keep (applies matcher commit) suggestions)
find_applied_suggestion_candidates_lem_example =
    find_applied_suggestion_candidates_lem matcher commit suggestions

abbrev needle : List Text
needle = codes "b" ∷ codes "c" ∷ []

abbrev haystack : List Text
haystack = codes "a" ∷ codes "b" ∷ codes "c" ∷ []

spans : find_spans haystack needle ≡ (2, 3) ∷ []
unfolding find_spans
spans = refl

find_spans-contains_example : contains {A = Span} (find_spans haystack needle) (2, 3) ≡ (
    not (is_empty needle)
    && ltb 0 2
    && 3 + 1 == 2 + length needle
    && stands_at haystack needle (2 - 1))
find_spans-contains_example = find_spans-contains haystack needle 2 3

-- The window is not covered by one equal part, since the matcher only finds whole lists.
changed : target_region_changed matcher parent current 2 0 1 ≡ true
unfolding target_region_changed matcher normalize_line_endings is_space
changed = refl

unchanged : target_region_changed matcher parent parent 2 3 1 ≡ false
unfolding target_region_changed matcher normalize_line_endings is_space
unchanged = refl

target_region_changed_lem_example : target_region_changed matcher parent current 2 0 1 ≡ (
    leb 1 2
    && leb 2 2
    && leb 2 (length (normalize_file_lines parent))
    && not (
        window_unchanged
          (2 - 1 - 1)
          (min (length (normalize_file_lines parent)) (2 + 1))
          (matcher (normalize_file_lines parent) (normalize_file_lines current))))
target_region_changed_lem_example =
    target_region_changed_lem matcher matcher-IsMatcher parent current 2 0 1
