-- ===== src/Patch/Position/Hunk.antt =====
-- The position of a line that is given by its number.
use my_pr_agent.Prelude.{
  ℕ, suc, ◌+◌, ◌≤◌, ◌≡◌, true, false, List, [], ◌∷◌, ◌++◌, Option, none, some, length, leb, nat_eq,
  ◌==◌, if◌then◌else◌,
}
use my_pr_agent.Text.{Text, codes, starts_with}
use my_pr_agent.Patch.Position.{Counter}

-- How many of the lines the new file has.
abbrev pub new_lines : List Text → ℕ
new_lines [] = 0
new_lines (line ∷ lines) =
    if starts_with (codes "-") line then new_lines lines else suc (new_lines lines)

-- The line at index `i`, counted from `first`, is the one of the new file with number `p`, where
-- the first line has number `n`.
pub record Located (body : List Text) (first n p i : ℕ) : Type 0 where
  pub before : List Text
  pub line : Text
  pub behind : List Text
  pub parts : body ≡ before ++ line ∷ behind
  pub index : i ≡ first + length before
  pub number : n + new_lines before ≡ p
  pub is_new : starts_with (codes "-") line ≡ false

abbrev pub InHunk : Text → Type 0
InHunk line = starts_with (codes "@@") line ≡ false

-- Either the line is found, or the lines end before its number.
abbrev pub Search : List Text → ℕ → ℕ → ℕ → Option (Option (ℕ × Counter) × Counter) → Type 0
Search body first n p none = ⊥
Search body first n p (some (none, c)) = n + new_lines body ≤ p
Search body first n p (some (some (i, c), d)) = Located body first n p i

-- The number of a line before is one less if the line is new.
abbrev pub before_new : Text → ℕ → ℕ
before_new line n = if starts_with (codes "-") line then n else suc n

-- The index of the line that is found; `none` where an exception is raised.
abbrev pub found_at : Option (Option (ℕ × Counter) × Counter) → Option (Option ℕ)
found_at none = none
found_at (some (none, c)) = some none
found_at (some (some (i, c), d)) = some (some i)

-- What is found for a number: of a line in the hunk or behind it, of the line before the hunk, or of
-- an earlier one.
unfoldable pub Answer : List Text → ℕ → ℕ → Option (Option (ℕ × Counter) × Counter) → Type 0
Answer body start2 p r = elim (leb start2 p) [
  | true ↦ Search body 1 start2 p r
  | false ↦ found_at r ≡ some (if p + 1 == start2 then some 0 else none)
]
