-- ===== src/Pruning/Assembly.antt =====
-- `get_pr_diff` of pr_agent/algo/pr_processing.py, from the grouped files on.
pub mod Whole
use my_pr_agent.Prelude.{
  ℕ, ◌+◌, ◌-◌, Bool, true, false, not, ◌&&◌, List, [], ◌∷◌, ◌++◌, Option, none, some, ltb, leb,
  length, contains, if◌then◌else◌, ◌>>=◌, nat_eq, list_eq,
}
use my_pr_agent.Dict.{Dict}
use my_pr_agent.Text.{Text, codes, newline, is_empty, join}
use my_pr_agent.Patch.{EditType, added, deleted, modified, renamed, unknown}
use my_pr_agent.Pruning.{TokenHandler, soft_threshold, hard_threshold}
use my_pr_agent.Pruning.Clip.{OutputChars, clip_tokens}
use my_pr_agent.Pruning.Packing.{PatchData}
use my_pr_agent.Pruning.Compressed.{Language, Diffs, FileTable, pr_generate_compressed_diff}
use my_pr_agent.Pruning.Extended.{ExtendedSettings, ExtendedDiff, pr_generate_extended_diff}

-- ADDED_FILES_, MORE_MODIFIED_FILES_ and DELETED_FILES_
abbrev pub added_files : Text
added_files = codes "Additional added files (insufficient token budget to process):\n"

abbrev pub more_modified_files : Text
more_modified_files = codes "Additional modified files (insufficient token budget to process):\n"

abbrev pub deleted_files : Text
deleted_files = codes "Deleted files:\n"

-- `max_tokens_model` is `get_max_tokens(model)`; `encode` counts with the encoder of `clip_tokens`.
pub record AssemblySettings : Type 0 where
  pub extended : ExtendedSettings
  pub max_tokens_model : ℕ
  pub max_ai_calls : ℕ
  pub large_pr_handling : Bool
  pub output_chars : OutputChars
  pub encode : Text → ℕ

pub record FileLists : Type 0 where
  pub added_list_str : Text
  pub modified_list_str : Text
  pub deleted_list_str : Text

abbrev pub add_name : Text → Text → Text → Text
add_name title filename list_str =
    if is_empty list_str then title ++ newline ∷ filename else list_str ++ newline ∷ filename

-- One round of the loop over `file_dict`.
unfoldable pub list_file : List Text → Text → PatchData → FileLists → FileLists
list_file files_in_patch filename entry l =
    if contains files_in_patch filename then l else elim entry.edit_type [
      | added ↦ record l { added_list_str = add_name added_files filename l.added_list_str }
      | modified ↦ record l {
        modified_list_str = add_name more_modified_files filename l.modified_list_str;
      }
      | renamed ↦ record l {
        modified_list_str = add_name more_modified_files filename l.modified_list_str;
      }
      | deleted ↦ record l { deleted_list_str = add_name deleted_files filename l.deleted_list_str }
      | unknown ↦ l
    ]

unfoldable pub list_files : List Text → Dict Text PatchData → FileLists → FileLists
unfolding list_file
list_files files_in_patch [] l = l
list_files files_in_patch ((filename, entry) ∷ file_dict) l =
    list_files files_in_patch file_dict (list_file files_in_patch filename entry l)

abbrev pub no_lists : FileLists
no_lists = record { added_list_str = []; modified_list_str = []; deleted_list_str = [] }

-- `max_tokens - curr_token`, where the hard threshold is taken off; `none` is negative.
abbrev pub room_left : AssemblySettings → ℕ → Option ℕ
room_left s curr_token =
    if leb (hard_threshold + curr_token) s.max_tokens_model
    then some (s.max_tokens_model - hard_threshold - curr_token)
    else none

-- A list, clipped, at the end of the diff; the tokens are those behind it.
unfoldable pub append_list : AssemblySettings → Text → Text × ℕ → Text × ℕ
append_list s list_str (final_diff, curr_token) =
    let clipped =
      clip_tokens s.output_chars list_str (room_left s curr_token) (s.encode list_str) true false in
    if is_empty clipped then (final_diff, curr_token) else (
      final_diff ++ newline ∷ newline ∷ clipped,
      curr_token + s.extended.handler.count_tokens clipped + 2,
    )

-- The lists, if more than ten tokens are left (`delta_tokens`).
unfoldable pub add_lists : AssemblySettings → List Text → ℕ → List Text → Dict Text PatchData → Text
unfolding append_list list_files
add_lists s patches_compressed total_tokens_new files_in_patch file_dict =
    let l =
      if ltb (hard_threshold + total_tokens_new + 10) s.max_tokens_model
      then list_files files_in_patch file_dict no_lists
      else no_lists in
    (append_list s l.deleted_list_str (
      append_list s l.modified_list_str (
        append_list s l.added_list_str
          (join (newline ∷ []) patches_compressed, total_tokens_new)))).0

-- A text with the whole diff, the empty text of a large pull request with more than one diff, or a
-- pruned diff with the files that remain.
pub data PrDiff : Type 0 where
  whole : Text → PrDiff
  several : PrDiff
  pruned : Text → List Text → PrDiff

-- The first diff. The three lists have an entry for each diff, and an index past them raises.
unfoldable pub first_pruned : AssemblySettings → Diffs → FileTable → Option PrDiff
unfolding add_lists
first_pruned s (diffs) table = elim diffs.patches_list [
  | [] ↦ none
  | patches ∷ _ ↦ elim diffs.total_tokens_list [
    | [] ↦ none
    | total ∷ _ ↦ elim diffs.files_in_patches_list [
      | [] ↦ none
      | files_in_patch ∷ _ ↦ some (
          pruned (add_lists s patches total files_in_patch table.file_dict)
            diffs.remaining_files_list)
    ]
  ]
]

unfoldable pub prune_diff : AssemblySettings → List Language → Option PrDiff
unfolding first_pruned
prune_diff s langs = do
  (diffs, table) ←
      pr_generate_compressed_diff s.extended.handler s.extended.add_line_numbers_to_hunks
        s.large_pr_handling s.max_ai_calls s.max_tokens_model langs
  if s.large_pr_handling && ltb 1 (length diffs.patches_list)
      then some several
      else first_pruned s diffs table

-- `none` is an exception of the conversion to line numbers.
unfoldable pub get_pr_diff : AssemblySettings → List Language → Option PrDiff
unfolding prune_diff
get_pr_diff s langs = do
  (d, shown) ← pr_generate_extended_diff s.extended langs
  if ltb (d.total_tokens + soft_threshold) s.max_tokens_model
      then some (whole (join (newline ∷ []) d.patches_extended))
      else prune_diff s shown
