-- ===== src/Pruning/Compressed.antt =====
-- `pr_generate_compressed_diff` of pr_agent/algo/pr_processing.py.
pub mod Order
pub mod Chunks
pub mod Whole
use my_pr_agent.Prelude.{
  ℕ, zero, suc, ◌+◌, ◌-◌, ◌≡◌, refl, Bool, true, false, List, [], ◌∷◌, ◌++◌, Option, none, some,
  ltb, leb, if◌then◌else◌, nat_eq, list_eq, contains, map, ◌>>=◌,
}
use my_pr_agent.Text.{Text, codes, newline, is_empty, strip}
use my_pr_agent.Dict.{Dict, put}
use my_pr_agent.Patch.{EditType, FilePatchInfo}
use my_pr_agent.Patch.Deletions.{handle_patch_deletions}
use my_pr_agent.Patch.Numbered.{decouple_and_convert_to_hunks_with_lines_numbers}
use my_pr_agent.Pruning.{TokenHandler}
use my_pr_agent.Pruning.Packing.{PatchData, Packed, generate_full_patch}

-- The files of one language, as `sort_files_by_main_languages` groups them.
pub record Language : Type 0 where
  pub language : Text
  pub files : List FilePatchInfo

-- `a.tokens <= b.tokens`, where `none` is -1.
abbrev pub tokens_le : Option ℕ → Option ℕ → Bool
tokens_le none b = true
tokens_le (some m) none = false
tokens_le (some m) (some n) = leb m n

-- `sorted(files, key=lambda x: x.tokens, reverse=True)`, which keeps the order of equal files.
unfoldable pub insert_file : FilePatchInfo → List FilePatchInfo → List FilePatchInfo
insert_file file [] = file ∷ []
insert_file file (g ∷ files) = elim (tokens_le g.tokens file.tokens) [
  | true ↦ file ∷ (g ∷ files)
  | false ↦ g ∷ insert_file file files
]

unfoldable pub sort_by_tokens : List FilePatchInfo → List FilePatchInfo
unfolding insert_file
sort_by_tokens [] = []
sort_by_tokens (file ∷ files) = insert_file file (sort_by_tokens files)

unfoldable pub sorted_files : List Language → List FilePatchInfo
unfolding sort_by_tokens
sorted_files [] = []
sorted_files (lang ∷ langs) = sort_by_tokens lang.files ++ sorted_files langs

-- `file_dict` and `deleted_files_list`.
pub record FileTable : Type 0 where
  pub file_dict : Dict Text PatchData
  pub deleted_files_list : List Text

-- The patch that is shown. `none` is an exception.
unfoldable pub converted : Bool → Text → FilePatchInfo → Option Text
converted convert_hunks_to_line_numbers patch file =
    if convert_hunks_to_line_numbers
    then decouple_and_convert_to_hunks_with_lines_numbers patch (some file)
    else some patch

-- One round of the loop that counts the tokens of each file.
unfoldable pub add_file : TokenHandler → Bool → FilePatchInfo → FileTable → Option FileTable
add_file handler convert file t =
    if is_empty file.patch
    then some t
    else elim (handle_patch_deletions file.patch file.head_file file.edit_type) [
      | none ↦ some (
          if contains t.deleted_files_list file.filename
          then t
          else record t { deleted_files_list = t.deleted_files_list ++ file.filename ∷ [] })
      | some patch ↦ elim (converted convert patch file) [
        | none ↦ none
        | some shown ↦ some (record t {
          file_dict =
              put file.filename
                (record {
                  patch = shown;
                  tokens = handler.count_tokens shown;
                  edit_type = file.edit_type;
                })
                t.file_dict;
        })
      ]
    ]

unfoldable pub add_files : TokenHandler → Bool → List FilePatchInfo → FileTable → Option FileTable
unfolding add_file
add_files handler convert [] t = some t
add_files handler convert (file ∷ files) t =
    add_file handler convert file t >>= add_files handler convert files

-- The lists that grow by an entry for each diff.
pub record Diffs : Type 0 where
  pub patches_list : List (List Text)
  pub total_tokens_list : List ℕ
  pub remaining_files_list : List Text
  pub files_in_patches_list : List (List Text)

-- What an additional iteration makes of one more diff; one without patches is not added.
unfoldable pub add_diff : Packed → Diffs → Diffs
add_diff p d =
    if is_empty p.patches
    then record d { remaining_files_list = p.remaining_files_list }
    else record {
      patches_list = d.patches_list ++ p.patches ∷ [];
      total_tokens_list = d.total_tokens_list ++ p.total_tokens ∷ [];
      remaining_files_list = p.remaining_files_list;
      files_in_patches_list = d.files_in_patches_list ++ p.files_in_patch_list ∷ [];
    }

-- The additional iterations; the loop breaks when no file remains.
unfoldable pub iterate : TokenHandler → Bool → ℕ → Dict Text PatchData → ℕ → Diffs → Diffs
unfolding add_diff
iterate handler convert max_tokens_model file_dict zero d = d
iterate handler convert max_tokens_model file_dict (suc rounds) d =
    elim (is_empty d.remaining_files_list) [
      | true ↦ d
      | false ↦ iterate handler convert max_tokens_model file_dict rounds (
          add_diff
            (generate_full_patch handler convert max_tokens_model d.remaining_files_list file_dict)
            d)
    ]

unfoldable pub first_diff : Packed → Diffs
first_diff p = record {
  patches_list = p.patches ∷ [];
  total_tokens_list = p.total_tokens ∷ [];
  remaining_files_list = p.remaining_files_list;
  files_in_patches_list = p.files_in_patch_list ∷ [];
}

-- The iterations over the dictionary. `max_ai_calls` is the setting of `pr_description`: one call
-- summarises, and the first iteration has been made.
unfoldable pub make_diffs :
    TokenHandler → Bool → Bool → ℕ → ℕ → List Text → Dict Text PatchData → Diffs
unfolding iterate first_diff
make_diffs handler convert large_pr_handling max_ai_calls max_tokens_model names file_dict =
    let first = first_diff (generate_full_patch handler convert max_tokens_model names file_dict) in
    if large_pr_handling
    then iterate handler convert max_tokens_model file_dict (max_ai_calls - 1 - 1) first
    else first

unfoldable pub pr_generate_compressed_diff :
    TokenHandler → Bool → Bool → ℕ → ℕ → List Language → Option (Diffs × FileTable)
pr_generate_compressed_diff handler convert large_pr_handling max_ai_calls max_tokens_model langs =
    do
      let files = sorted_files langs
      t ← add_files handler convert files (record { file_dict = []; deleted_files_list = [] })
      some (
        make_diffs handler convert large_pr_handling max_ai_calls max_tokens_model
            (map (λ f. f.filename) files) t.file_dict,
        t,
      )
