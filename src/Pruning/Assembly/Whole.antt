-- ===== src/Pruning/Assembly/Whole.antt =====
-- When `get_pr_diff` shows the whole diff, and what it shows.
use my_pr_agent.Prelude.{
  ℕ, ◌+◌, ◌<◌, ◌≡◌, refl, ◌⊎◌, inl, inr, Bool-cases, List, [], ◌∷◌, some, ltb, arith,
}
use my_pr_agent.Text.{newline, join}
use my_pr_agent.Pruning.{soft_threshold}
use my_pr_agent.Pruning.Compressed.{Language}
use my_pr_agent.Pruning.MultiDiffs.Patches.{cost}
use my_pr_agent.Pruning.Extended.{ExtendedDiff, pr_generate_extended_diff}
use my_pr_agent.Pruning.Extended.Total.{extended_diff-IsTotal}
use my_pr_agent.Pruning.Assembly.{AssemblySettings, whole, prune_diff, get_pr_diff}

-- The tokens of the prompt and of the patches of the extended diff.
abbrev pub needed : AssemblySettings → ExtendedDiff → ℕ
needed s d =
    s.extended.handler.prompt_tokens + cost s.extended.handler.count_tokens d.patches_extended

-- If the patches with their context are made, the whole diff is returned, with all of them, exactly
-- if their tokens and the prompt's leave more than the soft threshold free; else the pruning decides.
pub get_pr_diff-whole :
    (s : AssemblySettings) (langs : List Language) (d : ExtendedDiff) (shown : List Language)
    → pr_generate_extended_diff s.extended langs ≡ some (d, shown)
    → ((needed s d + soft_threshold < s.max_tokens_model)
        × (get_pr_diff s langs ≡ some (whole (join (newline ∷ []) d.patches_extended))))
      ⊎ ((s.max_tokens_model < needed s d + soft_threshold + 1)
          × (get_pr_diff s langs ≡ prune_diff s shown))
unfolding get_pr_diff
get_pr_diff-whole s langs d shown made =
    let t = extended_diff-IsTotal s.extended langs d shown made in
    elim (Bool-cases (ltb (d.total_tokens + soft_threshold) s.max_tokens_model)) [
      | inl fits ↦ inl (ground (arith, fits, t.total), rw (made, fits, get_pr_diff) refl)
      | inr large ↦ inr (ground (arith, large, t.total), rw (made, large, get_pr_diff) refl)
    ]
