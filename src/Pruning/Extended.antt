-- ===== src/Pruning/Extended.antt =====
-- `pr_generate_extended_diff` of pr_agent/algo/pr_processing.py: every patch with its context.
pub mod Total
use my_pr_agent.Prelude.{
  ℕ, zero, suc, ◌+◌, ◌-◌, Bool, true, false, not, ◌&&◌, ◌||◌, List, [], ◌∷◌, ◌++◌, Option, none,
  some, length, if◌then◌else◌, ◌>>=◌, nat_eq, list_eq,
}
use my_pr_agent.Text.{Text, codes, newline, is_empty, strip, starts_with}
use my_pr_agent.Patch.{FilePatchInfo}
use my_pr_agent.Patch.Context.{ContextSettings, extend_patch}
use my_pr_agent.Patch.Numbered.{decouple_and_convert_to_hunks_with_lines_numbers}
use my_pr_agent.Pruning.{TokenHandler}
use my_pr_agent.Pruning.Clip.{add_ai_summary_top_patch}
use my_pr_agent.Pruning.Compressed.{Language}

-- The arguments and settings; the two counts of extra lines have been capped.
pub record ExtendedSettings : Type 0 where
  pub handler : TokenHandler
  pub context : ContextSettings
  pub add_line_numbers_to_hunks : Bool
  pub enable_ai_metadata : Bool
  pub extra_lines_before : ℕ
  pub extra_lines_after : ℕ

-- `s.replace(old, new)`; `skipped` characters of an `old` that has been replaced are still to come.
unfoldable pub replace_from : ℕ → Text → Text → Text → Text
unfolding starts_with
replace_from skipped old new [] = []
replace_from (suc skipped) old new (c ∷ s) = replace_from skipped old new s
replace_from zero old new (c ∷ s) =
    let replaced = new ++ replace_from (length old - 1) old new s in
    let kept = c ∷ replace_from zero old new s in if starts_with old (c ∷ s) then replaced else kept

-- The patch as it is shown. `none` is an exception.
unfoldable pub full_extended_patch : ExtendedSettings → FilePatchInfo → Text → Option Text
unfolding replace_from strip
full_extended_patch settings file extended_patch =
    if settings.add_line_numbers_to_hunks
    then decouple_and_convert_to_hunks_with_lines_numbers extended_patch (some file)
    else some (
        codes "\n\n## File: '"
        ++ strip file.filename
        ++ codes "'\n\n"
        ++ strip (replace_from zero (codes "\n@@ ") (codes "\n\n@@ ") extended_patch)
        ++ newline ∷ [])

unfoldable pub summary_on_top : ExtendedSettings → FilePatchInfo → Text → Text
summary_on_top settings file patch = elim file.ai_file_summary [
  | none ↦ patch
  | some summary ↦
      if settings.enable_ai_metadata then add_ai_summary_top_patch summary patch else patch
]

-- The loop's variables, and the files that it has passed, whose tokens are written.
pub record ExtendedDiff : Type 0 where
  pub patches_extended : List Text
  pub total_tokens : ℕ
  pub patches_extended_tokens : List ℕ
  pub files : List FilePatchInfo

unfoldable pub pass_file : FilePatchInfo → ExtendedDiff → ExtendedDiff
pass_file file d = record d { files = d.files ++ file ∷ [] }

unfoldable pub show_file : ExtendedSettings → FilePatchInfo → Text → ExtendedDiff → ExtendedDiff
show_file settings file shown d =
    let patch_tokens = settings.handler.count_tokens shown in
    record {
      patches_extended = d.patches_extended ++ shown ∷ [];
      total_tokens = d.total_tokens + patch_tokens;
      patches_extended_tokens = d.patches_extended_tokens ++ patch_tokens ∷ [];
      files = d.files ++ record file { tokens = some patch_tokens } ∷ [];
    }

unfoldable pub extended_file : ExtendedSettings → FilePatchInfo → ExtendedDiff → Option ExtendedDiff
unfolding pass_file show_file full_extended_patch summary_on_top
extended_file settings file d =
    let extended_patch =
      extend_patch settings.context file.base_file file.patch settings.extra_lines_before
        settings.extra_lines_after file.filename file.head_file in
    if is_empty file.patch || is_empty extended_patch
    then some (pass_file file d)
    else elim (full_extended_patch settings file extended_patch) [
      | none ↦ none
      | some shown ↦ some (show_file settings file (summary_on_top settings file shown) d)
    ]

unfoldable pub extended_files :
    ExtendedSettings → List FilePatchInfo → ExtendedDiff → Option ExtendedDiff
unfolding extended_file
extended_files settings [] d = some d
extended_files settings (file ∷ files) d =
    extended_file settings file d >>= extended_files settings files

-- The languages one after the other; those passed come with their new files.
unfoldable pub extended_languages :
    ExtendedSettings → List Language → ExtendedDiff → Option (ExtendedDiff × List Language)
unfolding extended_files
extended_languages settings [] d = some (d, [])
extended_languages settings (lang ∷ langs) d = do
  d ← extended_files settings lang.files (record d { files = [] })
  (e, later) ← extended_languages settings langs d
  some (e, record lang { files = d.files } ∷ later)

abbrev pub extended_init : TokenHandler → ExtendedDiff
extended_init handler = record {
  patches_extended = [];
  total_tokens = handler.prompt_tokens;
  patches_extended_tokens = [];
  files = [];
}

unfoldable pub pr_generate_extended_diff :
    ExtendedSettings → List Language → Option (ExtendedDiff × List Language)
unfolding extended_languages
pr_generate_extended_diff settings langs =
    extended_languages settings langs (extended_init settings.handler)
