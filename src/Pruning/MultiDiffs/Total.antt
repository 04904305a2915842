-- ===== src/Pruning/MultiDiffs/Total.antt =====
-- When the loop of `get_pr_multi_diffs` raises nothing.
use my_pr_agent.Prelude.{
  ◌≡◌, refl, inl, inr, Bool-cases, Option-cases, true, false, List, [], ◌∷◌, some, ltb, arith,
}
use my_pr_agent.Text.{Text, is_empty}
use my_pr_agent.Patch.{FilePatchInfo}
use my_pr_agent.Patch.Deletions.{handle_patch_deletions}
use my_pr_agent.Pruning.MultiDiffs.{
  MultiSettings, titled, summarised, Chunking, chunk_patch, chunk_file, chunk_files, chunking,
  last_chunk, multi_diffs,
}

module _ (settings : MultiSettings) where
  titled-returns :
      (file : FilePatchInfo) (patch : Text)
      → settings.add_line_numbers ≡ false
      → (shown : Text) × (titled settings file patch ≡ some shown)
  unfolding titled
  titled-returns file patch plain = rw plain (_, refl)

  chunk_file-returns :
      (file : FilePatchInfo) (s : Chunking)
      → settings.add_line_numbers ≡ false
      → (t : Chunking) × (chunk_file settings file s ≡ some t)
  unfolding chunk_file
  chunk_file-returns file s plain = elim (Bool-cases (ltb settings.max_calls s.call_number)) [
    | inl reached ↦ rw (reached, chunk_file) (record s { stopped = true }, refl)
    | inr fewer ↦ elim (Bool-cases (is_empty file.patch)) [
      | inl empty ↦ rw (fewer, empty, chunk_file) (s, refl)
      | inr filled ↦
          elim (Option-cases (handle_patch_deletions file.patch file.head_file file.edit_type)) [
            | inl deleted ↦ rw (fewer, filled, deleted, chunk_file) (s, refl)
            | inr (patch, found) ↦
                let (shown, made) = titled-returns file patch plain in
                (
                  chunk_patch settings (summarised settings file shown) s,
                  rw (fewer, filled, found, made, chunk_file) refl,
                )
          ]
    ]
  ]

  chunk_files-returns :
      (files : List FilePatchInfo) (s : Chunking)
      → settings.add_line_numbers ≡ false
      → (t : Chunking) × (chunk_files settings files s ≡ some t)
  unfolding chunk_files
  chunk_files-returns [] s plain = (s, refl)
  chunk_files-returns (file ∷ files) s plain = elim (Bool-cases s.stopped) [
    | inl over ↦ (s, ground (arith, over))
    | inr going ↦
        let (t, first) = chunk_file-returns file s plain in
        let (u, later) = chunk_files-returns files t plain in
        (u, ground (arith, going, first, later))
  ]

  -- Where no line numbers are added nothing raises: the diffs are returned.
  multi_diffs-returns :
      (files : List FilePatchInfo)
      → settings.add_line_numbers ≡ false
      → (diffs : List Text) × (multi_diffs settings files ≡ some diffs)
  unfolding multi_diffs
  multi_diffs-returns files plain =
      let (s, found) = chunk_files-returns files (chunking settings) plain in
      (last_chunk s, rw found refl)
