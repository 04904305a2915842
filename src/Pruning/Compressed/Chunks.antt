-- ===== src/Pruning/Compressed/Chunks.antt =====
-- How the files of a large pull request are spread over its diffs.
use my_pr_agent.Prelude.{
  ℕ, zero, suc, ◌+◌, ◌-◌, ◌≤◌, ◌≡◌, ◌⊎◌, inl, inr, Bool, Bool-cases, true, false, List, [], ◌∷◌,
  ◌++◌, some, if◌then◌else◌, nat_eq, list_eq, contains, All, All-append, arith,
}
use my_pr_agent.Text.{Text, is_empty}
use my_pr_agent.Dict.{Dict, get, Distinct}
use my_pr_agent.Pruning.{TokenHandler, soft_threshold, hard_threshold}
use my_pr_agent.Pruning.Packing.{PatchData, Packed, generate_full_patch}
use my_pr_agent.Pruning.Packing.Budget.{FitsSlack, generate_full_patch-budget}
use my_pr_agent.Pruning.Packing.Coverage.{
  placed, generate_full_patch-placed, generate_full_patch-IsSplit, no_patches-no_files,
}
use my_pr_agent.Pruning.Compressed.{Diffs, add_diff, iterate, first_diff, make_diffs}

-- The number of diffs that show the file.
abbrev pub shown_in : Text → List (List Text) → ℕ
shown_in f [] = 0
shown_in f (files ∷ diffs) = (if contains files f then 1 else 0) + shown_in f diffs

abbrev pub left_over : Text → Diffs → ℕ
left_over f d = if contains d.remaining_files_list f then 1 else 0

shown_in-append :
    (f : Text) (xs ys : List (List Text)) → shown_in f (xs ++ ys) ≡ shown_in f xs + shown_in f ys
shown_in-append f [] ys = omega arith
shown_in-append f (x ∷ xs) ys = omega (arith, shown_in-append f xs ys)

module _ (handler : TokenHandler) (convert : Bool) (max_tokens_model : ℕ)
    (file_dict : Dict Text PatchData) where
  abbrev again : Diffs → Packed
  again d = generate_full_patch handler convert max_tokens_model d.remaining_files_list file_dict

  -- An invariant of the iterations.
  iterate_inv :
      {P : Diffs → Type 0}
      → ((d : Diffs) → P d → P (add_diff (again d) d))
      → (rounds : ℕ) (d : Diffs) → P d
      → P (iterate handler convert max_tokens_model file_dict rounds d)
  unfolding iterate
  iterate_inv keep zero d h = h
  iterate_inv {P} keep (suc rounds) d h = elim (Bool-cases (is_empty d.remaining_files_list)) [
    | inl finished ↦ rw (finished, iterate) h
    | inr more ↦
        rw (more, iterate) (iterate_inv {P = P} keep rounds (add_diff (again d) d) (keep d h))
  ]

  once-add_diff :
      (f : Text) (d : Diffs)
      → Distinct file_dict
      → shown_in f d.files_in_patches_list + left_over f d ≤ 1
      → shown_in f (add_diff (again d) d).files_in_patches_list + left_over f (add_diff (again d) d)
        ≤ 1
  unfolding add_diff
  once-add_diff f d distinct h =
      let p = again d in
      let (apart, asked) =
        generate_full_patch-IsSplit handler convert max_tokens_model d.remaining_files_list
          file_dict f distinct in
      ground (
        arith,
        apart,
        asked,
        shown_in-append f d.files_in_patches_list (p.files_in_patch_list ∷ []),
      )

  once-first_diff :
      (f : Text) (names : List Text)
      → Distinct file_dict
      → let d = first_diff (generate_full_patch handler convert max_tokens_model names file_dict) in
        shown_in f d.files_in_patches_list + left_over f d ≤ 1
  unfolding first_diff
  once-first_diff f names distinct =
      let (apart, asked) =
        generate_full_patch-IsSplit handler convert max_tokens_model names file_dict f distinct in
      ground (arith, apart, asked)

  -- No file is shown in two diffs, and none that is shown is left over.
  pub make_diffs-once :
      (large : Bool) (max_ai_calls : ℕ) (names : List Text) (f : Text)
      → Distinct file_dict
      → let d = make_diffs handler convert large max_ai_calls max_tokens_model names file_dict in
        shown_in f d.files_in_patches_list + left_over f d ≤ 1
  unfolding make_diffs
  make_diffs-once false max_ai_calls names f distinct = once-first_diff f names distinct
  make_diffs-once true max_ai_calls names f distinct =
      iterate_inv {P = λ d. shown_in f d.files_in_patches_list + left_over f d ≤ 1}
        (λ d h. once-add_diff f d distinct h) (max_ai_calls - 1 - 1) _
        (once-first_diff f names distinct)

  module _ (slack : ℕ) (fits : All (FitsSlack handler convert slack) file_dict) where
    -- A total of a diff is within the budget.
    abbrev pub IsWithin : ℕ → Type 0
    IsWithin total =
        (total ≤ handler.prompt_tokens) ⊎ (total + soft_threshold ≤ max_tokens_model + slack)

    IsWithin-add_diff :
        (d : Diffs)
        → All IsWithin d.total_tokens_list
        → All IsWithin (add_diff (again d) d).total_tokens_list
    unfolding add_diff
    IsWithin-add_diff d h = elim (Bool-cases (is_empty (again d).patches)) [
      | inl nothing ↦ rw (nothing, add_diff) h
      | inr some_patch ↦
          rw (some_patch, add_diff)
            (All-append IsWithin d.total_tokens_list ((again d).total_tokens ∷ []) h (
              (generate_full_patch-budget handler convert max_tokens_model d.remaining_files_list
                  slack file_dict fits).0,
              tt,
            ))
    ]

    -- Every diff is within the budget: if a patch's header costs at most `slack` tokens, a diff's
    -- total is at most the prompt's tokens or leaves the soft threshold free, up to `slack`.
    pub make_diffs-IsWithin :
        (large : Bool) (max_ai_calls : ℕ) (names : List Text)
        → All IsWithin
            (make_diffs handler convert large max_ai_calls max_tokens_model names
              file_dict).total_tokens_list
    unfolding make_diffs
    make_diffs-IsWithin false max_ai_calls names = (
      (generate_full_patch-budget handler convert max_tokens_model names slack file_dict fits).0,
      tt,
    )
    make_diffs-IsWithin true max_ai_calls names =
        iterate_inv {P = λ d. All IsWithin d.total_tokens_list} IsWithin-add_diff
          (max_ai_calls - 1 - 1) _
          (
            (generate_full_patch-budget handler convert max_tokens_model names slack file_dict
                fits).0,
            tt,
          )

    -- The hard threshold is free after each diff.
    room :
        (names : List Text)
        → handler.prompt_tokens + hard_threshold ≤ max_tokens_model
        → slack + hard_threshold ≤ soft_threshold
        → (generate_full_patch handler convert max_tokens_model names file_dict).total_tokens
            + hard_threshold
          ≤ max_tokens_model
    room names prompt small = ground (
      arith,
      (generate_full_patch-budget handler convert max_tokens_model names slack file_dict fits).0,
    )

  -- The file is in one diff or left over, and is counted once.
  abbrev pub IsCovered : Text → Diffs → Type 0
  IsCovered f d = shown_in f d.files_in_patches_list + left_over f d ≡ 1

  IsCovered-first_diff :
      (f : Text) (names : List Text)
      → (placed (generate_full_patch handler convert max_tokens_model names file_dict) f ≡ true)
      → Distinct file_dict
      → IsCovered f
          (first_diff (generate_full_patch handler convert max_tokens_model names file_dict))
  unfolding first_diff
  IsCovered-first_diff f names h distinct =
      let (apart, asked) =
        generate_full_patch-IsSplit handler convert max_tokens_model names file_dict f distinct in
      ground (arith, apart, asked, h)

  IsCovered-add_diff :
      (f : Text) (d : Diffs)
      → (contains d.remaining_files_list f ≡ true → placed (again d) f ≡ true)
      → Distinct file_dict
      → IsCovered f d
      → IsCovered f (add_diff (again d) d)
  unfolding add_diff
  IsCovered-add_diff f d place distinct h =
      let p = again d in
      let (apart, asked) =
        generate_full_patch-IsSplit handler convert max_tokens_model d.remaining_files_list
          file_dict f distinct in
      ground (
        arith,
        apart,
        asked,
        no_patches-no_files handler convert max_tokens_model d.remaining_files_list file_dict f,
        shown_in-append f d.files_in_patches_list (p.files_in_patch_list ∷ []),
      )

  -- With room for the prompt and headers that cost little, no file is lost: one that was asked for
  -- and has a patch is shown in exactly one diff or left over.
  pub make_diffs-covers :
      (slack : ℕ) (large : Bool) (max_ai_calls : ℕ) (names : List Text) (f : Text)
      (entry : PatchData)
      → All (FitsSlack handler convert slack) file_dict
      → handler.prompt_tokens + hard_threshold ≤ max_tokens_model
      → slack + hard_threshold ≤ soft_threshold
      → Distinct file_dict
      → get f file_dict ≡ some entry
      → is_empty entry.patch ≡ false
      → contains names f ≡ true
      → IsCovered f (make_diffs handler convert large max_ai_calls max_tokens_model names file_dict)
  unfolding make_diffs
  make_diffs-covers slack large max_ai_calls names f entry fits prompt small distinct known filled
        asked =
      let place = λ (prev : List Text) (e : contains prev f ≡ true).
        generate_full_patch-placed handler convert max_tokens_model prev file_dict f entry known e
          filled (room slack fits prev prompt small) in
      let first = IsCovered-first_diff f names (place names asked) distinct in
      elim large
        as (λ b.
          IsCovered f
            (make_diffs handler convert b max_ai_calls max_tokens_model names file_dict)) [
              | false ↦ first
              | true ↦
                  iterate_inv {P = IsCovered f}
                    (λ d h. IsCovered-add_diff f d (place d.remaining_files_list) distinct h)
                    (max_ai_calls - 1 - 1) _ first
            ]
