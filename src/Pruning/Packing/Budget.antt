-- ===== src/Pruning/Packing/Budget.antt =====
-- The tokens of what is packed.
use my_pr_agent.Prelude.{
  ℕ, ◌+◌, ◌≤◌, ◌≡◌, ◌⊎◌, Bool, List, [], ◌∷◌, ◌++◌, All, arith, nat_eq, list_eq,
}
use my_pr_agent.Text.{Text}
use my_pr_agent.Dict.{Dict}
use my_pr_agent.Pruning.{TokenHandler, soft_threshold}
use my_pr_agent.Pruning.Packing.{
  PatchData, Packed, patch_final, pack_file, pack_files, nothing_packed, generate_full_patch,
}

abbrev pub sum_tokens : TokenHandler → List Text → ℕ
sum_tokens handler [] = 0
sum_tokens handler (t ∷ ts) = handler.count_tokens t + sum_tokens handler ts

sum_tokens-append :
    (handler : TokenHandler) (xs ys : List Text)
    → sum_tokens handler (xs ++ ys) ≡ sum_tokens handler xs + sum_tokens handler ys
sum_tokens-append handler [] ys = omega arith
sum_tokens-append handler (x ∷ xs) ys = omega (arith, sum_tokens-append handler xs ys)

-- The header that is put before a patch costs at most `slack` tokens.
abbrev pub FitsSlack : TokenHandler → Bool → ℕ → Text × PatchData → Type 0
FitsSlack handler convert slack (filename, entry) =
    handler.count_tokens (patch_final convert filename entry.patch) ≤ entry.tokens + slack

module _ (handler : TokenHandler) (convert : Bool) (max_tokens_model : ℕ) (prev : List Text) where
  -- Either nothing was added to the prompt, or the total leaves the soft threshold free.
  abbrev pub WithinBudget : ℕ → Packed → Type 0
  WithinBudget slack p =
      (p.total_tokens ≤ handler.prompt_tokens)
      ⊎ (p.total_tokens + soft_threshold ≤ max_tokens_model + slack)

  abbrev IsCounted : Packed → Type 0
  IsCounted p = p.total_tokens ≡ handler.prompt_tokens + sum_tokens handler p.patches

  pack_file-budget :
      (slack : ℕ) (filename : Text) (entry : PatchData) (p : Packed)
      → FitsSlack handler convert slack (filename, entry)
      → WithinBudget slack p
      → WithinBudget slack (pack_file handler convert max_tokens_model prev filename entry p)
  unfolding pack_file
  pack_file-budget slack filename entry p fits h = ground arith

  pack_file-IsCounted :
      (filename : Text) (entry : PatchData) (p : Packed)
      → IsCounted p
      → IsCounted (pack_file handler convert max_tokens_model prev filename entry p)
  unfolding pack_file
  pack_file-IsCounted filename entry p h =
      let final = patch_final convert filename entry.patch in
      ground (arith, sum_tokens-append handler p.patches (final ∷ []))

  pack_files-budget :
      (slack : ℕ) (files : Dict Text PatchData) (p : Packed)
      → All (FitsSlack handler convert slack) files
      → WithinBudget slack p
      → IsCounted p
      → let q = pack_files handler convert max_tokens_model prev files p in
        WithinBudget slack q × IsCounted q
  unfolding pack_files
  pack_files-budget slack [] p _ h c = (h, c)
  pack_files-budget slack ((filename, entry) ∷ files) p (fits, all_fit) h c =
      pack_files-budget slack files
        (pack_file handler convert max_tokens_model prev filename entry p) all_fit
        (pack_file-budget slack filename entry p fits h) (pack_file-IsCounted filename entry p c)

  -- The total that is returned is the prompt's tokens and those of the patches that are returned.
  -- If no patch costs more than `slack` tokens beyond what was counted for it before its header was
  -- put on, then either no tokens are added to the prompt's or the total leaves the soft threshold
  -- of the model's tokens free, up to `slack`.
  pub generate_full_patch-budget :
      (slack : ℕ) (file_dict : Dict Text PatchData)
      → All (FitsSlack handler convert slack) file_dict
      → let p = generate_full_patch handler convert max_tokens_model prev file_dict in
        ((p.total_tokens ≤ handler.prompt_tokens)
          ⊎ (p.total_tokens + soft_threshold ≤ max_tokens_model + slack))
        × (p.total_tokens ≡ handler.prompt_tokens + sum_tokens handler p.patches)
  unfolding generate_full_patch
  generate_full_patch-budget slack file_dict fits =
      pack_files-budget slack file_dict (nothing_packed handler) fits (omega arith) (omega arith)
