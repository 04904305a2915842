-- ===== src/Pruning/Compressed/Whole.antt =====
-- What holds of the diffs of `pr_generate_compressed_diff`, for any files.
use my_pr_agent.Prelude.{
  ℕ, ◌+◌, ◌≤◌, ◌≡◌, Bool, true, false, List, [], ◌∷◌, some, contains, All, arith, map, nat_eq,
  list_eq, Held, Held-bind, Held-some, ◌⊎◌, Bool-cases, Option-cases, inl, inr,
}
use my_pr_agent.Text.{Text, is_empty}
use my_pr_agent.Dict.{get, Distinct, Distinct-put}
use my_pr_agent.Patch.{FilePatchInfo}
use my_pr_agent.Patch.Deletions.{handle_patch_deletions}
use my_pr_agent.Pruning.{TokenHandler, soft_threshold, hard_threshold}
use my_pr_agent.Pruning.Packing.{PatchData}
use my_pr_agent.Pruning.Packing.Budget.{FitsSlack}
use my_pr_agent.Pruning.Compressed.{
  Language, FileTable, Diffs, sorted_files, converted, add_file, add_files, make_diffs,
  pr_generate_compressed_diff,
}
use my_pr_agent.Pruning.Compressed.Chunks.{
  shown_in, left_over, make_diffs-once, make_diffs-IsWithin, make_diffs-covers,
}

-- No name stands twice in the table.
abbrev IsTable : FileTable → Type 0
IsTable t = Distinct t.file_dict

module _ (handler : TokenHandler) (convert : Bool) where
  add_file-IsTable :
      (file : FilePatchInfo) (t : FileTable)
      → IsTable t
      → Held IsTable (add_file handler convert file t)
  unfolding add_file
  add_file-IsTable file t h = elim (Bool-cases (is_empty file.patch)) [
    | inl nothing ↦ rw (nothing, add_file) h
    | inr filled ↦
        elim (Option-cases (handle_patch_deletions file.patch file.head_file file.edit_type)) [
          | inl deleted ↦ elim (Bool-cases (contains t.deleted_files_list file.filename)) [
            | inl listed ↦ rw (filled, deleted, listed, add_file) h
            | inr new ↦ rw (filled, deleted, new, add_file) h
          ]
          | inr (patch, shorter) ↦ elim (Option-cases (converted convert patch file)) [
            | inl raised ↦ rw (filled, shorter, raised, add_file) tt
            | inr (shown, done) ↦
                rw (filled, shorter, done, add_file) (Distinct-put file.filename _ t.file_dict h)
          ]
        ]
  ]

  add_files-IsTable :
      (files : List FilePatchInfo) (t : FileTable)
      → IsTable t
      → Held IsTable (add_files handler convert files t)
  unfolding add_files
  add_files-IsTable [] t h = h
  add_files-IsTable (file ∷ files) t h =
      Held-bind IsTable IsTable (add_file handler convert file t) (add_files handler convert files)
        (add_file-IsTable file t h) (add_files-IsTable files)

module _ (handler : TokenHandler) (convert large : Bool) (max_ai_calls max_tokens_model : ℕ)
    (langs : List Language) (d : Diffs) (t : FileTable)
    (made : pr_generate_compressed_diff handler convert large max_ai_calls max_tokens_model langs
      ≡ some (d, t)) where
  names : List Text
  names = map (λ f. f.filename) (sorted_files langs)

  parts :
      (add_files handler convert
          (sorted_files langs)
          (record { file_dict = []; deleted_files_list = [] })
        ≡ some t)
      × (d ≡ make_diffs handler convert large max_ai_calls max_tokens_model names t.file_dict)
  unfolding names pr_generate_compressed_diff
  parts = ground (arith, made)

  table : Distinct t.file_dict
  table =
      Held-some IsTable
        (add_files-IsTable handler convert (sorted_files langs)
          (record { file_dict = []; deleted_files_list = [] }) tt)
        parts.0

  -- No file is shown in two of the diffs, and no file that is shown is among the remaining ones.
  compressed-once : (f : Text) → shown_in f d.files_in_patches_list + left_over f d ≤ 1
  compressed-once f = rw parts.1 (
      make_diffs-once handler convert max_tokens_model t.file_dict large max_ai_calls names f table)

  -- If the header put on a patch costs at most `slack` tokens, each diff's total is at most the
  -- prompt's tokens, so that it added none, or leaves the soft threshold free, up to `slack`.
  pub compressed-within :
      (slack : ℕ)
      → All (FitsSlack handler convert slack) t.file_dict
      → All
          (λ total.
            (total ≤ handler.prompt_tokens) ⊎ (total + soft_threshold ≤ max_tokens_model + slack))
          d.total_tokens_list
  compressed-within slack fits = rw parts.1 (
      make_diffs-IsWithin handler convert max_tokens_model t.file_dict slack fits large max_ai_calls
        names)

  -- With the hard threshold free beside the prompt and headers that cost at most the difference of
  -- the thresholds, no file is lost: one of the languages' files with a patch to show is shown in
  -- exactly one diff or is among the remaining ones.
  pub compressed-covers :
      (slack : ℕ) (f : Text) (entry : PatchData)
      → All (FitsSlack handler convert slack) t.file_dict
      → handler.prompt_tokens + hard_threshold ≤ max_tokens_model
      → slack + hard_threshold ≤ soft_threshold
      → get f t.file_dict ≡ some entry
      → is_empty entry.patch ≡ false
      → contains (map (λ g. g.filename) (sorted_files langs)) f ≡ true
      → shown_in f d.files_in_patches_list + left_over f d ≡ 1
  unfolding names
  compressed-covers slack f entry fits prompt small known filled asked = rw parts.1 (
      make_diffs-covers handler convert max_tokens_model t.file_dict slack large max_ai_calls names
        f entry fits prompt small table known filled asked)
