-- ===== src/Patch/Header.antt =====
-- `RE_HUNK_HEADER` and `extract_hunk_headers` of pr_agent/algo/git_patch_processing.py.
use my_pr_agent.Prelude.{
  ℕ, true, false, [], ◌∷◌, Option, none, some, nat_eq, ◌==◌, if◌then◌else◌, ◌>>=◌,
}
use my_pr_agent.Text.{Text, codes, newline}
use my_pr_agent.Text.Numbers.{number}

-- The groups of a match, in order; a group that took no part is `none`.
pub record Groups : Type 0 where
  pub start1 : ℕ
  pub size1 : Option ℕ
  pub start2 : ℕ
  pub size2 : Option ℕ
  pub section : Text

-- What stands behind a literal.
unfoldable pub after : Text → Text → Option Text
after [] s = some s
after (p ∷ ps) [] = none
after (p ∷ ps) (c ∷ s) = elim (c == p) [ true ↦ after ps s | false ↦ none ]

-- `(?:,(\d+))?`
unfoldable pub optional_count : Text → Option ℕ × Text
unfolding number
optional_count [] = (none, [])
optional_count (c ∷ s) =
    if c == b','
    then elim (number s) [ none ↦ (none, c ∷ s) | some (n, rest) ↦ (some n, rest) ]
    else (none, c ∷ s)

-- `[ ]?`
unfoldable pub optional_space : Text → Text
optional_space [] = []
optional_space (c ∷ s) = if c == b' ' then s else c ∷ s

-- `(.*)`
unfoldable pub line_rest : Text → Text
line_rest [] = []
line_rest (c ∷ s) = let rest = line_rest s in if c == newline then [] else c ∷ rest

-- `RE_HUNK_HEADER.match`. At each point of the pattern one way to go on fits at most, so that the
-- matcher has nothing to try again.
unfoldable pub match_header : Text → Option Groups
unfolding after number optional_count optional_space line_rest
match_header s = do
  s ← after (codes "@@ -") s
  (start1, s) ← number s
  let (size1, s) = optional_count s
  s ← after (codes " +") s
  (start2, s) ← number s
  let (size2, s) = optional_count s
  s ← after (codes " @@") s
  some record {
    start1 = start1;
    size1 = size1;
    start2 = start2;
    size2 = size2;
    section = line_rest (optional_space s);
  }

pub record HunkHeader : Type 0 where
  pub section_header : Text
  pub size1 : ℕ
  pub size2 : ℕ
  pub start1 : ℕ
  pub start2 : ℕ

abbrev pub or_zero : Option ℕ → ℕ
or_zero none = 0
or_zero (some n) = n

-- A group that took no part becomes 0. The conversions to `int` cannot fail.
unfoldable pub extract_hunk_headers : Groups → HunkHeader
extract_hunk_headers m = record {
  section_header = m.section;
  size1 = or_zero m.size1;
  size2 = or_zero m.size2;
  start1 = m.start1;
  start2 = m.start2;
}
