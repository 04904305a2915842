-- ===== src/Tests/MultiRuns.antt =====
-- Two files of a pull request in diffs for several calls.
use my_pr_agent.Text.{join, strip, starts_with}
use my_pr_agent.Text.Lines.{splitlines}
use my_pr_agent.Patch.Header.{match_header}
use my_pr_agent.Patch.Deletions.{handle_patch_deletions}
use my_pr_agent.Prelude.{
  ◌≡◌, ◌≤◌, refl, true, false, none, some, List, [], ◌∷◌, nat_eq, list_eq, All, length,
}
use my_pr_agent.Text.{Text, codes}
use my_pr_agent.Patch.{FilePatchInfo, EditType}
use my_pr_agent.Pruning.MultiDiffs.{MultiSettings, skip, multi_diffs}
use my_pr_agent.Pruning.MultiDiffs.Patches.{IsPart}
use my_pr_agent.Pruning.MultiDiffs.Budget.{multi_diffs-within}

abbrev settings : MultiSettings
settings = record {
  handler = record { prompt_tokens = 100; count_tokens = length };
  max_tokens = 1650;
  max_calls = 2;
  add_line_numbers = false;
  enable_ai_metadata = true;
  large_patch_policy = skip;
  output_chars = λ chars tokens most. most;
}

abbrev file : Text → FilePatchInfo
file name = record {
  base_file = codes "a\n";
  head_file = codes "a\nb\n";
  patch = codes "@@ -1,1 +1,2 @@\n a\n+b";
  filename = name;
  tokens = some 21;
  edit_type = EditType.modified;
  old_filename = none;
  num_plus_lines = none;
  num_minus_lines = none;
  language = none;
  ai_file_summary = none;
}

abbrev files : List FilePatchInfo
files = file (codes "a.py") ∷ file (codes "b.py") ∷ file (codes "c.py") ∷ []

abbrev diffs : List Text
diffs =
    codes "\n\n## File: 'a.py'\n\n@@ -1,1 +1,2 @@\n a\n+b\n"
    ∷ codes "\n\n## File: 'b.py'\n\n@@ -1,1 +1,2 @@\n a\n+b\n"
    ∷ []

made : multi_diffs settings files ≡ some diffs
unfolding multi_diffs handle_patch_deletions join splitlines starts_with match_header strip
made = refl

multi_diffs-within_example : All (IsPart settings) diffs × (length diffs ≤ 2)
multi_diffs-within_example = multi_diffs-within settings files diffs made
