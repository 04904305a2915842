-- ===== src/SuggestionMatcher.antt =====
-- pr_agent/servers/gitlab_suggestion_matcher.py: which posted suggestions a commit has applied.
pub mod Spans
pub mod Regions
pub mod Candidates
use my_pr_agent.Prelude.{
  ℕ, zero, suc, ◌+◌, ◌-◌, Bool, true, false, ◌&&◌, ◌||◌, Option, none, some, List, [], ◌∷◌, ◌++◌,
  leb, ltb, nat_eq, list_eq, ◌==◌, if◌then◌else◌, map, length, take, ◌>>=◌,
}
use my_pr_agent.Text.{Text, codes, newline, is_empty, rstrip, split_char, starts_with, join}
use my_pr_agent.Text.Patterns.{after_folded}

-- `s.replace("\r\n", "\n").replace("\r", "\n")`
unfoldable pub normalize_line_endings : Text → Text
normalize_line_endings [] = []
normalize_line_endings (c ∷ []) = (if c == b'\r' then newline else c) ∷ []
normalize_line_endings (c ∷ d ∷ s) =
    let both = newline ∷ normalize_line_endings s in
    let rest = normalize_line_endings (d ∷ s) in
    if c == b'\r' then (if d == newline then both else newline ∷ rest) else c ∷ rest

unfoldable pub stripped_lines : Text → List Text
unfolding rstrip split_char
stripped_lines code = map rstrip (split_char newline (normalize_line_endings code))

-- `while lines and not lines[0]: lines.pop(0)`
unfoldable pub pop_empty_first : List Text → List Text
pop_empty_first [] = []
pop_empty_first (line ∷ lines) =
    let rest = pop_empty_first lines in if is_empty line then rest else line ∷ lines

-- `while lines and not lines[-1]: lines.pop()`
unfoldable pub pop_empty_last : List Text → List Text
pop_empty_last [] = []
pop_empty_last (line ∷ lines) =
    let rest = pop_empty_last lines in if is_empty rest && is_empty line then [] else line ∷ rest

unfoldable pub normalize_patch_lines : Text → List Text
unfolding stripped_lines pop_empty_first pop_empty_last
normalize_patch_lines code = pop_empty_last (pop_empty_first (stripped_lines code))

-- Drops the last line if it is empty.
unfoldable pub drop_empty_last : List Text → List Text
drop_empty_last [] = []
drop_empty_last (line ∷ []) = if is_empty line then [] else line ∷ []
drop_empty_last (line ∷ next ∷ lines) = line ∷ drop_empty_last (next ∷ lines)

unfoldable pub normalize_file_lines : Text → List Text
unfolding stripped_lines drop_empty_last
normalize_file_lines content = drop_empty_last (stripped_lines content)

-- `[^\n]*\n`
unfoldable pub after_line : Text → Option Text
after_line [] = none
after_line (c ∷ s) = elim (c == newline) [ true ↦ some s | false ↦ after_line s ]

-- `(.*?)\n``` `: the text before the first such fence.
unfoldable pub before_fence : Text → Option Text
before_fence [] = none
before_fence (c ∷ s) = elim (starts_with (codes "\n```") (c ∷ s)) [
  | true ↦ some []
  | false ↦ before_fence s >>= λ body. some (c ∷ body)
]

unfoldable pub match_block : Text → Option Text
unfolding after_folded after_line before_fence
match_block s = after_folded (codes "```suggestion") s >>= λ r. after_line r >>= before_fence

-- `_SUGGESTION_BLOCK_RE.search`
unfoldable pub search_block : Text → Option Text
unfolding match_block
search_block [] = none
search_block (c ∷ s) = elim (match_block (c ∷ s)) [ some body ↦ some body | none ↦ search_block s ]

unfoldable pub extract_suggestion_patch : Text → Option Text
unfolding search_block normalize_patch_lines join
extract_suggestion_patch body = search_block body >>= λ block.
    let lines = normalize_patch_lines block in
    if is_empty lines then none else some (join (newline ∷ []) lines)

-- A line range, with both its ends in it.
abbrev pub Span : Type 0
Span = ℕ × ℕ

-- The spans from the line behind the first `index` on.
unfoldable pub spans_from : ℕ → List Text → List Text → List Span
spans_from index [] needle = []
spans_from index (line ∷ lines) needle =
    let rest = spans_from (suc index) lines needle in
    if take (length needle) (line ∷ lines) == needle
    then (index + 1, index + length needle) ∷ rest
    else rest

unfoldable pub find_spans : List Text → List Text → List Span
unfolding spans_from
find_spans haystack needle =
    if is_empty needle || ltb (length haystack) (length needle)
    then []
    else spans_from 0 haystack needle

unfoldable pub ranges_overlap : Span → Span → Bool
ranges_overlap first second = leb first.0 second.1 && leb second.0 first.1
