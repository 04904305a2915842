-- ===== src/Pruning/Extended/Total.antt =====
-- The tokens of the extended diff.
use my_pr_agent.Prelude.{
  ℕ, ◌+◌, ◌≡◌, refl, ap, inl, inr, Bool-cases, Option-cases, ◌||◌, List, [], ◌∷◌, ◌++◌, some, map,
  arith, ◌>>=◌, Held, Held-bind, Held-some,
}
use my_pr_agent.Text.{Text, is_empty}
use my_pr_agent.Patch.{FilePatchInfo}
use my_pr_agent.Patch.Context.{extend_patch}
use my_pr_agent.Pruning.Compressed.{Language}
use my_pr_agent.Pruning.MultiDiffs.Patches.{cost, cost-append}
use my_pr_agent.Pruning.Extended.{
  ExtendedSettings, ExtendedDiff, full_extended_patch, summary_on_top, pass_file, show_file,
  extended_file, extended_files, extended_languages, extended_init, pr_generate_extended_diff,
}

-- The total is the prompt's tokens and those of the patches, each of which has its count in the list.
pub record IsTotal (settings : ExtendedSettings) (d : ExtendedDiff) : Type 0 where
  pub total :
      d.total_tokens
      ≡ settings.handler.prompt_tokens + cost settings.handler.count_tokens d.patches_extended
  pub each : d.patches_extended_tokens ≡ map settings.handler.count_tokens d.patches_extended

map-snoc : (f : Text → ℕ) (xs : List Text) (x : Text) → map f (xs ++ x ∷ []) ≡ map f xs ++ f x ∷ []
map-snoc f [] x = refl
map-snoc f (y ∷ ys) x = ap (λ t. f y ∷ t) (map-snoc f ys x)

module _ (settings : ExtendedSettings) where
  abbrev count : Text → ℕ
  count = settings.handler.count_tokens

  show_file-IsTotal :
      (file : FilePatchInfo) (shown : Text) (d : ExtendedDiff)
      → IsTotal settings d
      → IsTotal settings (show_file settings file shown d)
  unfolding show_file
  show_file-IsTotal file shown d h = record {
    total = ground (arith, h.total, cost-append count d.patches_extended (shown ∷ []));
    each = ground (arith, h.each, map-snoc count d.patches_extended shown);
  }

  extended_file-IsTotal :
      (file : FilePatchInfo) (d : ExtendedDiff)
      → IsTotal settings d
      → Held (IsTotal settings) (extended_file settings file d)
  unfolding extended_file pass_file
  extended_file-IsTotal file d h =
      let extended =
        extend_patch settings.context file.base_file file.patch settings.extra_lines_before
          settings.extra_lines_after file.filename file.head_file in
      elim (Bool-cases (is_empty file.patch || is_empty extended)) [
        | inl nothing ↦ rw (nothing, extended_file) (record { total = h.total; each = h.each })
        | inr something ↦ elim (Option-cases (full_extended_patch settings file extended)) [
          | inl raised ↦ rw (something, raised, extended_file) tt
          | inr (shown, made) ↦
              rw (something, made, extended_file)
                (show_file-IsTotal file (summary_on_top settings file shown) d h)
        ]
      ]

  extended_files-IsTotal :
      (files : List FilePatchInfo) (d : ExtendedDiff)
      → IsTotal settings d
      → Held (IsTotal settings) (extended_files settings files d)
  unfolding extended_files
  extended_files-IsTotal [] d h = h
  extended_files-IsTotal (file ∷ files) d h =
      Held-bind (IsTotal settings) (IsTotal settings) (extended_file settings file d)
        (extended_files settings files) (extended_file-IsTotal file d h)
        (extended_files-IsTotal files)

  extended_languages-IsTotal :
      (langs : List Language) (d : ExtendedDiff)
      → IsTotal settings d
      → Held (λ r. IsTotal settings r.0) (extended_languages settings langs d)
  unfolding extended_languages
  extended_languages-IsTotal [] d h = h
  extended_languages-IsTotal (lang ∷ langs) d h =
      Held-bind (IsTotal settings) (λ r. IsTotal settings r.0)
        (extended_files settings lang.files (record d { files = [] }))
        (λ e. extended_languages settings langs e >>= λ r.
          some (r.0, record lang { files = e.files } ∷ r.1))
        (extended_files-IsTotal lang.files (record d { files = [] })
          (record { total = h.total; each = h.each }))
        (λ e he.
          Held-bind (λ r. IsTotal settings r.0) (λ r. IsTotal settings r.0)
            (extended_languages settings langs e)
            (λ r. some (r.0, record lang { files = e.files } ∷ r.1))
            (extended_languages-IsTotal langs e he) (λ r hr. hr))

  pub extended_diff-IsTotal :
      (langs : List Language) (d : ExtendedDiff) (shown : List Language)
      → pr_generate_extended_diff settings langs ≡ some (d, shown)
      → IsTotal settings d
  unfolding pr_generate_extended_diff
  extended_diff-IsTotal langs d shown e =
      Held-some (λ r. IsTotal settings r.0)
        (extended_languages-IsTotal langs (extended_init settings.handler)
          (record { total = ground arith; each = refl }))
        e
