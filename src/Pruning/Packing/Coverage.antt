-- ===== src/Pruning/Packing/Coverage.antt =====
-- Where each file of the dictionary goes.
use my_pr_agent.Prelude.{
  ℕ, ◌+◌, ◌≤◌, ◌≡◌, refl, inl, inr, Bool, Bool-cases, true, false, not, subst, ◌&&◌, ◌||◌, List, [],
  ◌∷◌, arith, nat_eq, list_eq, ◌==◌, contains, contains-append, length, length-append, none, some,
  list_beq_iff,
}
use my_pr_agent.Text.{Text, is_empty}
use my_pr_agent.Dict.{Dict, get, Distinct}
use my_pr_agent.Pruning.{TokenHandler, hard_threshold}
use my_pr_agent.Pruning.Packing.{
  PatchData, Packed, patch_final, pack_file, pack_files, nothing_packed, generate_full_patch,
}

-- The file is in the diff, or is left for a later one.
abbrev pub placed : Packed → Text → Bool
placed p f = contains p.files_in_patch_list f || contains p.remaining_files_list f

nothing_in :
    {A : Type 0} (xs : List A) (names : List Text) (f : Text)
    → length xs ≡ length names
    → is_empty xs ≡ true
    → contains names f ≡ false
nothing_in [] [] f _ _ = refl
nothing_in [] (n ∷ names) f e _ = absurd (omega arith)
nothing_in (x ∷ xs) names f _ e = absurd (ground arith)

module _ (handler : TokenHandler) (convert : Bool) (max_tokens_model : ℕ) (prev : List Text) where
  abbrev step : Text → PatchData → Packed → Packed
  step filename entry p = pack_file handler convert max_tokens_model prev filename entry p

  abbrev run : Dict Text PatchData → Packed → Packed
  run files p = pack_files handler convert max_tokens_model prev files p

  le-step :
      (filename : Text) (entry : PatchData) (p : Packed)
      → p.total_tokens ≤ (step filename entry p).total_tokens
  unfolding pack_file
  le-step filename entry p = ground arith

  le-run : (files : Dict Text PatchData) (p : Packed) → p.total_tokens ≤ (run files p).total_tokens
  unfolding pack_files
  le-run [] p = omega arith
  le-run ((filename, entry) ∷ files) p =
      omega (arith, le-step filename entry p, le-run files (step filename entry p))

  placed-step :
      (filename : Text) (entry : PatchData) (p : Packed) (f : Text)
      → placed p f ≡ true
      → placed (step filename entry p) f ≡ true
  unfolding pack_file
  placed-step filename entry p f h = ground (
    arith,
    contains-append p.files_in_patch_list (filename ∷ []) f,
    contains-append p.remaining_files_list (filename ∷ []) f,
  )

  placed-run :
      (files : Dict Text PatchData) (p : Packed) (f : Text)
      → placed p f ≡ true
      → placed (run files p) f ≡ true
  unfolding pack_files
  placed-run [] p f h = h
  placed-run ((filename, entry) ∷ files) p f h =
      placed-run files (step filename entry p) f (placed-step filename entry p f h)

  placed-step_self :
      (filename : Text) (entry : PatchData) (p : Packed)
      → contains prev filename ≡ true
      → is_empty entry.patch ≡ false
      → p.total_tokens + hard_threshold ≤ max_tokens_model
      → placed (step filename entry p) filename ≡ true
  unfolding pack_file
  placed-step_self filename entry p asked filled room = ground (
    arith,
    contains-append p.files_in_patch_list (filename ∷ []) filename,
    contains-append p.remaining_files_list (filename ∷ []) filename,
    list_beq_iff nat_eq filename filename,
  )

  run-placed :
      (files : Dict Text PatchData) (p : Packed) (f : Text) (entry : PatchData)
      → get f files ≡ some entry
      → contains prev f ≡ true
      → is_empty entry.patch ≡ false
      → (run files p).total_tokens + hard_threshold ≤ max_tokens_model
      → placed (run files p) f ≡ true
  unfolding pack_files get
  run-placed [] p f entry e asked filled room = cc
  run-placed ((filename, entry') ∷ files) p f entry e asked filled room =
      let q = step filename entry' p in
      elim (Bool-cases (filename == f)) [
        | inl same ↦
            let name : filename ≡ f = (list_beq_iff nat_eq filename f).0 same in
            let value : entry' ≡ entry = ground arith in
            subst (λ g. placed (run files q) g ≡ true) name
              (placed-run files q filename (
                placed-step_self filename entry' p (ground (arith, name)) (ground (arith, value))
                  (omega (arith, le-step filename entry' p, le-run files q))))
        | inr other ↦ run-placed files q f entry (ground arith) asked filled room
      ]

  -- If the total leaves the hard threshold free at the end, every file that was asked for and has a
  -- patch is in the diff or is left for a later one.
  pub generate_full_patch-placed :
      (file_dict : Dict Text PatchData) (f : Text) (entry : PatchData)
      → get f file_dict ≡ some entry
      → contains prev f ≡ true
      → is_empty entry.patch ≡ false
      → (generate_full_patch handler convert max_tokens_model prev file_dict).total_tokens
          + hard_threshold
        ≤ max_tokens_model
      → placed (generate_full_patch handler convert max_tokens_model prev file_dict) f ≡ true
  unfolding generate_full_patch
  generate_full_patch-placed file_dict f entry =
      run-placed file_dict (nothing_packed handler) f entry

  -- No file is both in the diff and left over, and those are files that were asked for.
  abbrev pub IsSplit : Packed → Text → Type 0
  IsSplit p f =
      ((contains p.files_in_patch_list f && contains p.remaining_files_list f) ≡ false)
      × ((placed p f && not (contains prev f)) ≡ false)

  IsSplit-step :
      (filename : Text) (entry : PatchData) (p : Packed) (f : Text)
      → placed p filename ≡ false
      → IsSplit p f
      → IsSplit (step filename entry p) f
  unfolding pack_file
  IsSplit-step filename entry p f new h = ground (
    arith,
    contains-append p.files_in_patch_list (filename ∷ []) f,
    contains-append p.remaining_files_list (filename ∷ []) f,
    list_beq_iff nat_eq filename f,
  )

  unplaced-step :
      (filename : Text) (entry : PatchData) (p : Packed) (f : Text)
      → (filename == f) ≡ false
      → placed p f ≡ false
      → placed (step filename entry p) f ≡ false
  unfolding pack_file
  unplaced-step filename entry p f other h = ground (
    arith,
    contains-append p.files_in_patch_list (filename ∷ []) f,
    contains-append p.remaining_files_list (filename ∷ []) f,
  )

  abbrev Fresh : Dict Text PatchData → Packed → Type 0
  Fresh [] p = Unit
  Fresh ((filename, entry) ∷ files) p = (placed p filename ≡ false) × Fresh files p

  Fresh-step :
      (files : Dict Text PatchData) (filename : Text) (entry : PatchData) (p : Packed)
      → get filename files ≡ none
      → Fresh files p
      → Fresh files (step filename entry p)
  unfolding get
  Fresh-step [] filename entry p _ h = tt
  Fresh-step ((g, e) ∷ files) filename entry p absent (first, rest) = (
    unplaced-step filename entry p g
        (ground (arith, list_beq_iff nat_eq filename g, list_beq_iff nat_eq g filename)) first,
    Fresh-step files filename entry p (ground arith) rest,
  )

  run-IsSplit :
      (files : Dict Text PatchData) (p : Packed) (f : Text)
      → Distinct files
      → Fresh files p
      → IsSplit p f
      → IsSplit (run files p) f
  unfolding pack_files
  run-IsSplit [] p f _ _ h = h
  run-IsSplit ((filename, entry) ∷ files) p f (absent, distinct) (new, fresh) h =
      run-IsSplit files (step filename entry p) f distinct
        (Fresh-step files filename entry p absent fresh) (IsSplit-step filename entry p f new h)

  Fresh-nothing : (files : Dict Text PatchData) → Fresh files (nothing_packed handler)
  Fresh-nothing [] = tt
  Fresh-nothing (file ∷ files) = (refl, Fresh-nothing files)

  pub generate_full_patch-IsSplit :
      (file_dict : Dict Text PatchData) (f : Text)
      → Distinct file_dict
      → IsSplit (generate_full_patch handler convert max_tokens_model prev file_dict) f
  unfolding generate_full_patch
  generate_full_patch-IsSplit file_dict f distinct =
      run-IsSplit file_dict (nothing_packed handler) f distinct (Fresh-nothing file_dict)
        (refl, refl)

  -- A diff has a patch for each of its files.
  sides-step :
      (filename : Text) (entry : PatchData) (p : Packed)
      → length p.patches ≡ length p.files_in_patch_list
      → length (step filename entry p).patches ≡ length (step filename entry p).files_in_patch_list
  unfolding pack_file
  sides-step filename entry p h = ground (
    arith,
    length-append p.patches (patch_final convert filename entry.patch ∷ []),
    length-append p.files_in_patch_list (filename ∷ []),
  )

  sides-run :
      (files : Dict Text PatchData) (p : Packed)
      → length p.patches ≡ length p.files_in_patch_list
      → length (run files p).patches ≡ length (run files p).files_in_patch_list
  unfolding pack_files
  sides-run [] p h = h
  sides-run ((filename, entry) ∷ files) p h =
      sides-run files (step filename entry p) (sides-step filename entry p h)

  length-files_in_patch_list :
      (file_dict : Dict Text PatchData)
      → let p = generate_full_patch handler convert max_tokens_model prev file_dict in
        length p.patches ≡ length p.files_in_patch_list
  unfolding generate_full_patch
  length-files_in_patch_list file_dict = sides-run file_dict (nothing_packed handler) refl

  pub no_patches-no_files :
      (file_dict : Dict Text PatchData) (f : Text)
      → is_empty (generate_full_patch handler convert max_tokens_model prev file_dict).patches
        ≡ true
      → contains
          (generate_full_patch handler convert max_tokens_model prev file_dict).files_in_patch_list
          f
        ≡ false
  no_patches-no_files file_dict f e =
      let p = generate_full_patch handler convert max_tokens_model prev file_dict in
      nothing_in p.patches p.files_in_patch_list f (length-files_in_patch_list file_dict) e
