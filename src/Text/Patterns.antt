-- ===== src/Text/Patterns.antt =====
-- Pieces of regular expressions that the program searches for.
use my_pr_agent.Prelude.{
  ℕ, ◌+◌, ◌&&◌, ◌||◌, true, false, Option, none, some, [], ◌∷◌, leb, nat_eq, ◌==◌, if◌then◌else◌,
}
use my_pr_agent.Text.{Text, is_space}

-- A character as `re.IGNORECASE` compares it with the small letters of a pattern; other characters
-- than the capitals fold to i and to s. No pattern has a k.
abbrev pub fold_case : ℕ → ℕ
fold_case c =
    if leb b'A' c && leb c b'Z'
    then c + 32
    else if c == 0x130 || c == 0x131
    then b'i'
    else if c == 0x17f
    then b's'
    else c

-- What stands behind a literal, which is written in small letters, whatever the case.
unfoldable pub after_folded : Text → Text → Option Text
after_folded [] s = some s
after_folded (p ∷ ps) [] = none
after_folded (p ∷ ps) (c ∷ s) = elim (fold_case c == p) [ true ↦ after_folded ps s | false ↦ none ]

-- `\s*`
unfoldable pub skip_spaces : Text → Text
unfolding is_space
skip_spaces [] = []
skip_spaces (c ∷ s) = let rest = skip_spaces s in if is_space c then rest else c ∷ s

-- `\s+`
unfoldable pub after_spaces : Text → Option Text
unfolding is_space skip_spaces
after_spaces [] = none
after_spaces (c ∷ s) = if is_space c then some (skip_spaces s) else none
