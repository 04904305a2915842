-- ===== src/Pruning/Compressed/Order.antt =====
-- The order in which files are taken: the most tokens first.
use mathlib.Core.List.{Perm}
use mathlib.Core.List.Perm
use my_pr_agent.Prelude.{
  ℕ, ◌≡◌, refl, Bool-cases, inl, inr, true, false, List, [], ◌∷◌, Option, none, some, arith,
}
use my_pr_agent.Patch.{FilePatchInfo}
use my_pr_agent.Pruning.Compressed.{tokens_le, insert_file, sort_by_tokens}

-- Each file has at least the tokens of the file behind it.
abbrev pub IsDescending : List FilePatchInfo → Type 0
IsDescending [] = Unit
IsDescending (f ∷ []) = Unit
IsDescending (f ∷ g ∷ files) = (tokens_le g.tokens f.tokens ≡ true) × IsDescending (g ∷ files)

tokens_le_total : (a b : Option ℕ) → tokens_le a b ≡ false → tokens_le b a ≡ true
tokens_le_total none b h = cc
tokens_le_total (some m) none h = refl
tokens_le_total (some m) (some n) h = ground arith

insert_file-IsDescending :
    (f : FilePatchInfo) (files : List FilePatchInfo)
    → IsDescending files
    → IsDescending (insert_file f files)
unfolding insert_file
insert_file-IsDescending f [] h = tt
insert_file-IsDescending f (g ∷ []) h = elim (Bool-cases (tokens_le g.tokens f.tokens)) [
  | inl le ↦ rw (le, insert_file) (le, tt)
  | inr gt ↦ rw (gt, insert_file) (tokens_le_total g.tokens f.tokens gt, tt)
]
insert_file-IsDescending f (g ∷ k ∷ files) (first, rest) =
    elim (Bool-cases (tokens_le g.tokens f.tokens)) [
      | inl le ↦ rw (le, insert_file) (le, (first, rest))
      | inr gt ↦
          let tail = insert_file-IsDescending f (k ∷ files) rest in
          elim (Bool-cases (tokens_le k.tokens f.tokens)) [
            | inl le' ↦
                rw (gt, le', insert_file)
                  (tokens_le_total g.tokens f.tokens gt, (rw (le', insert_file) at tail))
            | inr gt' ↦ rw (gt, gt', insert_file) (first, (rw (gt', insert_file) at tail))
          ]
    ]

insert_file-perm :
    (f : FilePatchInfo) (files : List FilePatchInfo) → Perm (insert_file f files) (f ∷ files)
unfolding insert_file
insert_file-perm f [] = Perm.refl (f ∷ [])
insert_file-perm f (g ∷ files) = elim (Bool-cases (tokens_le g.tokens f.tokens)) [
  | inl le ↦ rw (le, insert_file) (Perm.refl (f ∷ g ∷ files))
  | inr gt ↦
      rw (gt, insert_file)
        (Perm.trans (Perm.cons g (insert_file-perm f files)) (Perm.swap f g files))
]

-- The files of a language are taken each once, the most tokens first.
sort_by_tokens-sorts :
    (files : List FilePatchInfo)
    → Perm (sort_by_tokens files) files × IsDescending (sort_by_tokens files)
unfolding sort_by_tokens
sort_by_tokens-sorts [] = (Perm.refl [], tt)
sort_by_tokens-sorts (f ∷ files) =
    let (perm, descending) = sort_by_tokens-sorts files in
    (
      Perm.trans (insert_file-perm f (sort_by_tokens files)) (Perm.cons f perm),
      insert_file-IsDescending f (sort_by_tokens files) descending,
    )
