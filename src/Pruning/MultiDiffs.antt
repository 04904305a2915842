-- ===== src/Pruning/MultiDiffs.antt =====
-- `get_pr_multi_diffs` of pr_agent/algo/pr_processing.py, from where the files have been sorted: the
-- diff in several parts, one for each call of a model.
pub mod Patches
pub mod Budget
pub mod Total
use my_pr_agent.Prelude.{
  ℕ, suc, ◌+◌, ◌-◌, Bool, true, false, not, ◌&&◌, ◌||◌, List, [], ◌∷◌, ◌++◌, Option, none, some,
  ltb, leb, if◌then◌else◌, ◌>>=◌,
}
use my_pr_agent.Text.{Text, codes, newline, is_empty, strip, join}
use my_pr_agent.Patch.{FilePatchInfo}
use my_pr_agent.Patch.Deletions.{handle_patch_deletions}
use my_pr_agent.Patch.Numbered.{decouple_and_convert_to_hunks_with_lines_numbers}
use my_pr_agent.Pruning.{TokenHandler, soft_threshold}
use my_pr_agent.Pruning.Clip.{OutputChars, clip_tokens, add_ai_summary_top_patch}

-- `config.large_patch_policy`
pub data LargePatchPolicy : Type 0 where
  skip clip unknown_policy : LargePatchPolicy

-- The arguments and settings that the loop reads; `max_tokens` is `get_max_tokens(model)`.
pub record MultiSettings : Type 0 where
  pub handler : TokenHandler
  pub max_tokens : ℕ
  pub max_calls : ℕ
  pub add_line_numbers : Bool
  pub enable_ai_metadata : Bool
  pub large_patch_policy : LargePatchPolicy
  pub output_chars : OutputChars

-- The patch with its line numbers or its title, and the summary. `none` is an exception.
unfoldable pub titled : MultiSettings → FilePatchInfo → Text → Option Text
titled settings file patch =
    if settings.add_line_numbers
    then decouple_and_convert_to_hunks_with_lines_numbers patch (some file)
    else some (
        codes "\n\n## File: '"
        ++ strip file.filename
        ++ codes "'\n\n"
        ++ strip patch
        ++ newline ∷ [])

unfoldable pub summarised : MultiSettings → FilePatchInfo → Text → Text
summarised settings file patch = elim file.ai_file_summary [
  | none ↦ patch
  | some summary ↦
      if settings.enable_ai_metadata then add_ai_summary_top_patch summary patch else patch
]

-- `get_max_tokens(model) - OUTPUT_BUFFER_TOKENS_SOFT_THRESHOLD < tokens`
abbrev pub too_many : MultiSettings → ℕ → Bool
too_many settings tokens = ltb settings.max_tokens (tokens + soft_threshold)

-- What is left for a patch beside the prompt; `none` if that is negative.
abbrev pub tokens_left : MultiSettings → Option ℕ
tokens_left settings =
    if leb (soft_threshold + settings.handler.prompt_tokens) settings.max_tokens
    then some (settings.max_tokens - soft_threshold - settings.handler.prompt_tokens)
    else none

-- What goes on of a patch that is too large alone; `none` is a `continue`.
unfoldable pub fit_large : LargePatchPolicy → MultiSettings → Text → Option Text
fit_large skip settings clipped = none
fit_large clip settings clipped =
    let tokens = settings.handler.prompt_tokens + settings.handler.count_tokens clipped in
    if not (is_empty clipped) && too_many settings tokens then none else some clipped
fit_large unknown_policy settings clipped = none

unfoldable pub fit_patch : MultiSettings → Text → Option Text
unfolding fit_large
fit_patch settings patch =
    let tokens = settings.handler.count_tokens patch in
    if not (is_empty patch) && too_many settings (settings.handler.prompt_tokens + tokens)
    then fit_large settings.large_patch_policy settings
        (clip_tokens settings.output_chars patch (tokens_left settings) tokens true true)
    else some patch

-- The loop's variables; `stopped` is a `break`.
pub record Chunking : Type 0 where
  pub patches : List Text
  pub final_diff_list : List Text
  pub total_tokens : ℕ
  pub call_number : ℕ
  pub stopped : Bool

-- Starts a new diff if the patch does not fit the current one.
unfoldable pub make_room : MultiSettings → Text → Chunking → Chunking
make_room settings patch s =
    if not (is_empty patch)
      && too_many settings (s.total_tokens + settings.handler.count_tokens patch)
    then record {
      patches = [];
      final_diff_list = s.final_diff_list ++ join (newline ∷ []) s.patches ∷ [];
      total_tokens = settings.handler.prompt_tokens;
      call_number = s.call_number + 1;
      stopped = ltb settings.max_calls (s.call_number + 1);
    }
    else s

unfoldable pub append_patch : MultiSettings → Text → Chunking → Chunking
append_patch settings patch s = if s.stopped || is_empty patch then s else record s {
  patches = s.patches ++ patch ∷ [];
  total_tokens = s.total_tokens + settings.handler.count_tokens patch;
}

unfoldable pub chunk_patch : MultiSettings → Text → Chunking → Chunking
unfolding fit_patch make_room append_patch
chunk_patch settings patch s = elim (fit_patch settings patch) [
  | none ↦ s
  | some fitting ↦ append_patch settings fitting (make_room settings fitting s)
]

-- One round of the loop. `none` is an exception.
unfoldable pub chunk_file : MultiSettings → FilePatchInfo → Chunking → Option Chunking
unfolding chunk_patch titled summarised
chunk_file settings file s =
    if ltb settings.max_calls s.call_number
    then some (record s { stopped = true })
    else if is_empty file.patch
    then some s
    else elim (handle_patch_deletions file.patch file.head_file file.edit_type) [
      | none ↦ some s
      | some patch ↦ elim (titled settings file patch) [
        | none ↦ none
        | some shown ↦ some (chunk_patch settings (summarised settings file shown) s)
      ]
    ]

unfoldable pub chunk_files : MultiSettings → List FilePatchInfo → Chunking → Option Chunking
unfolding chunk_file
chunk_files settings [] s = some s
chunk_files settings (file ∷ files) s = elim s.stopped [
  | true ↦ some s
  | false ↦ chunk_file settings file s >>= chunk_files settings files
]

abbrev pub chunking : MultiSettings → Chunking
chunking settings = record {
  patches = [];
  final_diff_list = [];
  total_tokens = settings.handler.prompt_tokens;
  call_number = 1;
  stopped = false;
}

unfoldable pub last_chunk : Chunking → List Text
last_chunk s =
    if is_empty s.patches
    then s.final_diff_list
    else s.final_diff_list ++ strip (join (newline ∷ []) s.patches) ∷ []

unfoldable pub multi_diffs : MultiSettings → List FilePatchInfo → Option (List Text)
unfolding chunk_files last_chunk
multi_diffs settings sorted = do
  s ← chunk_files settings sorted (chunking settings)
  some (last_chunk s)
