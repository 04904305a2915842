-- ===== src/Tests/PruningRuns.antt =====
-- Two files of a pull request within small budgets. The tokenizer here counts characters.
use my_pr_agent.Prelude.{
  ℕ, ◌+◌, ◌≡◌, ◌≤◌, ◌⊎◌, refl, true, false, none, some, List, [], ◌∷◌, ◌++◌, nat_eq, pair_eq,
  list_eq, arith, All, length, contains, map,
}
use my_pr_agent.Text.{Text, codes, is_space, lstrip, rstrip, strip, starts_with, join}
use my_pr_agent.Text.Lines.{splitlines}
use my_pr_agent.Dict.{get, put}
use my_pr_agent.Patch.{FilePatchInfo, EditType}
use my_pr_agent.Patch.Header.{match_header}
use my_pr_agent.Patch.Deletions.{handle_patch_deletions}
use my_pr_agent.Pruning.{TokenHandler, soft_threshold, hard_threshold}
use my_pr_agent.Pruning.Packing.{PatchData, patch_final, generate_full_patch}
use my_pr_agent.Pruning.Packing.Budget.{FitsSlack}
use my_pr_agent.Pruning.Compressed.{
  Language, FileTable, Diffs, sorted_files, converted, add_files, make_diffs,
  pr_generate_compressed_diff,
}
use my_pr_agent.Pruning.Compressed.Chunks.{shown_in, left_over}
use my_pr_agent.Pruning.Compressed.Whole.{compressed-within, compressed-covers}

abbrev handler : TokenHandler
handler = record { prompt_tokens = 100; count_tokens = length }

abbrev patch : Text
patch = codes "@@ -1,1 +1,2 @@\n a\n+b"

abbrev file : Text → ℕ → FilePatchInfo
file name tokens = record {
  base_file = codes "a\n";
  head_file = codes "a\nb\n";
  patch = patch;
  filename = name;
  tokens = some tokens;
  edit_type = EditType.modified;
  old_filename = none;
  num_plus_lines = none;
  num_minus_lines = none;
  language = none;
  ai_file_summary = none;
}

abbrev langs : List Language
langs =
    record { language = codes "Python"; files = file (codes "a.py") 5 ∷ file (codes "b.py") 9 ∷ [] }
    ∷ []

abbrev entry : PatchData
entry = record { patch = patch; tokens = 21; edit_type = EditType.modified }

abbrev table : FileTable
table = record {
  file_dict = (codes "b.py", entry) ∷ (codes "a.py", entry) ∷ [];
  deleted_files_list = [];
}

abbrev shown : Text → Text
shown name = codes "\n\n## File: '" ++ (name ++ codes "'\n\n@@ -1,1 +1,2 @@\n a\n+b\n")

-- A budget for one of the files in each diff.
abbrev diffs : Diffs
diffs = record {
  patches_list = (shown (codes "b.py") ∷ []) ∷ (shown (codes "a.py") ∷ []) ∷ [];
  total_tokens_list = 141 ∷ 141 ∷ [];
  remaining_files_list = [];
  files_in_patches_list = (codes "b.py" ∷ []) ∷ (codes "a.py" ∷ []) ∷ [];
}

made : pr_generate_compressed_diff handler false true 4 1630 langs ≡ some (diffs, table)
unfolding pr_generate_compressed_diff sorted_files converted add_files make_diffs
    handle_patch_deletions splitlines join match_header starts_with strip put generate_full_patch
made = refl

fits : All (FitsSlack handler false 20) table.file_dict
unfolding patch_final strip lstrip rstrip is_space
fits = (omega arith, (omega arith, tt))

has_entry : get (codes "a.py") table.file_dict ≡ some entry
unfolding get
has_entry = refl

asked : contains (map (λ g. g.filename) (sorted_files langs)) (codes "a.py") ≡ true
unfolding sorted_files
asked = refl

room :
    (generate_full_patch handler false 1630 (codes "a.py" ∷ []) table.file_dict).total_tokens
      + hard_threshold
    ≤ 1630
unfolding generate_full_patch strip lstrip rstrip is_space
room = omega arith

compressed-within_example :
    All
      (λ total. (total ≤ handler.prompt_tokens) ⊎ (total + soft_threshold ≤ 1630 + 20))
      diffs.total_tokens_list
compressed-within_example =
    compressed-within handler false true 4 1630 langs diffs table made 20 fits

compressed-covers_example :
    shown_in (codes "a.py") diffs.files_in_patches_list + left_over (codes "a.py") diffs ≡ 1
compressed-covers_example =
    compressed-covers handler false true 4 1630 langs diffs table made 20 (codes "a.py") entry fits
      (omega arith) (omega arith) has_entry refl asked
