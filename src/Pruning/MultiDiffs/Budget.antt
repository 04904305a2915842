-- ===== src/Pruning/MultiDiffs/Budget.antt =====
-- The size and the number of the diffs of `get_pr_multi_diffs`.
use my_pr_agent.Prelude.{
  ◌≤◌, ◌≡◌, refl, inl, inr, Bool-cases, Option-cases, List, [], ◌∷◌, some, ltb, length,
  length-append, All, All-append, arith, Held, Held-bind, Held-some,
}
use my_pr_agent.Text.{Text, newline, is_empty, strip, join}
use my_pr_agent.Patch.{FilePatchInfo}
use my_pr_agent.Patch.Deletions.{handle_patch_deletions}
use my_pr_agent.Pruning.MultiDiffs.{
  MultiSettings, titled, summarised, fit_patch, Chunking, make_room, chunk_patch, chunk_file,
  chunk_files, chunking, last_chunk, multi_diffs,
}
use my_pr_agent.Pruning.MultiDiffs.Patches.{
  IsPart, Chunked, Goes, fit_patch-Goes, make_room-Chunked, append_patch-Chunked, make_room-more,
}

module _ (settings : MultiSettings) where
  chunk_patch-Chunked :
      (patch : Text) (s : Chunking)
      → s.call_number ≤ settings.max_calls
      → Chunked settings s
      → Chunked settings (chunk_patch settings patch s)
  unfolding chunk_patch
  chunk_patch-Chunked patch s low h = elim (Option-cases (fit_patch settings patch)) [
    | inl skipped ↦ rw (skipped, chunk_patch) h
    | inr (fitting, found) ↦
        let fits =
          Held-some (λ p. Goes settings p settings.handler.prompt_tokens)
            (fit_patch-Goes settings patch) found in
        let (roomy, goes_on) = make_room-Chunked settings fitting s fits h in
        rw (found, chunk_patch)
          (append_patch-Chunked settings fitting (make_room settings fitting s) goes_on
            (make_room-more settings fitting s low) roomy)
  ]

  chunk_file-Chunked :
      (file : FilePatchInfo) (s : Chunking)
      → Chunked settings s
      → Held (Chunked settings) (chunk_file settings file s)
  unfolding chunk_file
  chunk_file-Chunked file s h = elim (Bool-cases (ltb settings.max_calls s.call_number)) [
    | inl reached ↦
        rw (reached, chunk_file)
          (record {
            total = h.total;
            room = h.room;
            parts = h.parts;
            calls = h.calls;
            bound = h.bound;
          })
    | inr fewer ↦ elim (Bool-cases (is_empty file.patch)) [
      | inl empty ↦ rw (fewer, empty, chunk_file) h
      | inr filled ↦
          elim (Option-cases (handle_patch_deletions file.patch file.head_file file.edit_type)) [
            | inl deleted ↦ rw (fewer, filled, deleted, chunk_file) h
            | inr (patch, found) ↦ elim (Option-cases (titled settings file patch)) [
              | inl raised ↦ rw (fewer, filled, found, raised, chunk_file) tt
              | inr (shown, made) ↦
                  rw (fewer, filled, found, made, chunk_file)
                    (chunk_patch-Chunked (summarised settings file shown) s (ground (arith, fewer))
                      h)
            ]
          ]
    ]
  ]

  chunk_files-Chunked :
      (files : List FilePatchInfo) (s : Chunking)
      → Chunked settings s
      → Held (Chunked settings) (chunk_files settings files s)
  unfolding chunk_files
  chunk_files-Chunked [] s h = h
  chunk_files-Chunked (file ∷ files) s h = elim (Bool-cases s.stopped) [
    | inl over ↦ rw (over, chunk_files) h
    | inr going ↦
        rw (going, chunk_files)
          (Held-bind (Chunked settings) (Chunked settings) (chunk_file settings file s)
            (chunk_files settings files) (chunk_file-Chunked file s h) (chunk_files-Chunked files))
  ]

  last_chunk-parts :
      (s : Chunking)
      → Chunked settings s
      → All (IsPart settings) (last_chunk s) × (length (last_chunk s) ≤ settings.max_calls)
  unfolding last_chunk
  last_chunk-parts s h = elim (Bool-cases (is_empty s.patches)) [
    | inl empty ↦ rw (empty, last_chunk) (h.parts, ground (arith, h.bound))
    | inr filled ↦
        let diff = strip (join (newline ∷ []) s.patches) in
        rw (filled, last_chunk)
          (
            All-append (IsPart settings) s.final_diff_list (diff ∷ []) h.parts (
              record {
                patches = s.patches;
                some_patch = filled;
                within = ground (arith, h.room, h.total, filled);
                text = inr refl;
              },
              tt,
            ),
            ground (arith, h.bound, filled, length-append s.final_diff_list (diff ∷ [])),
          )
  ]

  -- If the loop raises nothing, it gives at most `max_calls` diffs, and each is made of one patch or
  -- more whose tokens, added up, leave the soft threshold free beside the prompt.
  pub multi_diffs-within :
      (files : List FilePatchInfo) (diffs : List Text)
      → multi_diffs settings files ≡ some diffs
      → All (IsPart settings) diffs × (length diffs ≤ settings.max_calls)
  unfolding multi_diffs
  multi_diffs-within files diffs e =
      let start : Chunked settings (chunking settings) = record {
        total = ground arith;
        room = inl refl;
        parts = tt;
        calls = refl;
        bound = ground arith;
      } in
      let run =
        Held-bind (Chunked settings)
          (λ parts. All (IsPart settings) parts × (length parts ≤ settings.max_calls))
          (chunk_files settings files (chunking settings)) (λ s. some (last_chunk s))
          (chunk_files-Chunked files (chunking settings) start) last_chunk-parts in
      Held-some (λ parts. All (IsPart settings) parts × (length parts ≤ settings.max_calls)) run e
