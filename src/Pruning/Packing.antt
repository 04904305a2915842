-- ===== src/Pruning/Packing.antt =====
-- `generate_full_patch` of pr_agent/algo/pr_processing.py.
pub mod Budget
pub mod Coverage
use my_pr_agent.Prelude.{
  ℕ, ◌+◌, Bool, true, false, List, [], ◌∷◌, ◌++◌, ltb, if◌then◌else◌, nat_eq, list_eq, contains,
}
use my_pr_agent.Text.{Text, codes, newline, is_empty, strip}
use my_pr_agent.Dict.{Dict}
use my_pr_agent.Patch.{EditType}
use my_pr_agent.Pruning.{TokenHandler, soft_threshold, hard_threshold}

-- A value of `file_dict`.
pub record PatchData : Type 0 where
  pub patch : Text
  pub tokens : ℕ
  pub edit_type : EditType

-- The variables of the loop, which are what it returns.
pub record Packed : Type 0 where
  pub total_tokens : ℕ
  pub patches : List Text
  pub remaining_files_list : List Text
  pub files_in_patch_list : List Text

unfoldable pub patch_final : Bool → Text → Text → Text
patch_final convert_hunks_to_line_numbers filename patch =
    if convert_hunks_to_line_numbers
    then newline ∷ newline ∷ strip patch
    else codes "\n\n## File: '"
      ++ (strip filename ++ (codes "'\n\n" ++ (strip patch ++ newline ∷ [])))

-- One round of the loop. Python's `a > b - c` is written `b < a + c`, since the budget may be
-- smaller than the threshold.
unfoldable pub pack_file : TokenHandler → Bool → ℕ → List Text → Text → PatchData → Packed → Packed
unfolding patch_final
pack_file handler convert max_tokens_model prev filename entry p =
    if contains prev filename
    then (if ltb max_tokens_model (p.total_tokens + hard_threshold)
        then p
        else if ltb max_tokens_model (p.total_tokens + entry.tokens + soft_threshold)
        then record p { remaining_files_list = p.remaining_files_list ++ filename ∷ [] }
        else if is_empty entry.patch
        then p
        else (let final = patch_final convert filename entry.patch in
            record p {
              patches = p.patches ++ final ∷ [];
              total_tokens = p.total_tokens + handler.count_tokens final;
              files_in_patch_list = p.files_in_patch_list ++ filename ∷ [];
            }))
    else p

unfoldable pub pack_files :
    TokenHandler → Bool → ℕ → List Text → Dict Text PatchData → Packed → Packed
unfolding pack_file
pack_files handler convert max_tokens_model prev [] p = p
pack_files handler convert max_tokens_model prev ((filename, entry) ∷ files) p =
    pack_files handler convert max_tokens_model prev files
      (pack_file handler convert max_tokens_model prev filename entry p)

abbrev pub nothing_packed : TokenHandler → Packed
nothing_packed handler = record {
  total_tokens = handler.prompt_tokens;
  patches = [];
  remaining_files_list = [];
  files_in_patch_list = [];
}

unfoldable pub generate_full_patch :
    TokenHandler → Bool → ℕ → List Text → Dict Text PatchData → Packed
unfolding pack_files
generate_full_patch handler convert max_tokens_model prev file_dict =
    pack_files handler convert max_tokens_model prev file_dict (nothing_packed handler)
