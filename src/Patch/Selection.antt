-- ===== src/Patch/Selection.antt =====
-- `extract_hunk_lines_from_patch` of pr_agent/algo/git_patch_processing.py.
pub mod Right
pub mod Left
use my_pr_agent.Prelude.{
  ℕ, zero, suc, ◌+◌, Bool, true, false, not, ◌&&◌, ◌||◌, List, [], ◌∷◌, ◌++◌, Option, none, some,
  if◌then◌else◌, leb, list_eq, nat_eq, ◌==◌, ◌>>=◌,
}
use my_pr_agent.Text.{Text, codes, newline, starts_with, lower, strip, rstrip}
use my_pr_agent.Text.Lines.{splitlines}
use my_pr_agent.Patch.Header.{Groups, match_header, HunkHeader, extract_hunk_headers}
use my_pr_agent.Patch.Numbered.{minus, no_newline}

-- The variables of the loop that are read again. A start is `none` while it is -1.
pub record Selecting : Type 0 where
  pub patch_with_lines : Text
  pub selected_lines : Text
  pub start1 : Option ℕ
  pub start2 : Option ℕ
  pub skip_hunk : Bool
  pub selected_lines_num : ℕ

-- `low <= start + num <= high`
abbrev pub in_range : ℕ → Option ℕ → ℕ → ℕ → Bool
in_range low none zero high = false
in_range low none (suc n) high = leb low n && leb n high
in_range low (some start) num high = leb low (start + num) && leb (start + num) high

-- `start <= num + start <= high`, whose first comparison always holds.
abbrev pub up_to : Option ℕ → ℕ → ℕ → Bool
up_to none zero high = true
up_to none (suc n) high = leb n high
up_to (some start) num high = leb start (num + start) && leb (num + start) high

abbrev pub is_left : Text → Bool
is_left side = lower side == codes "left"

abbrev pub is_right : Text → Bool
is_right side = lower side == codes "right"

-- The hunk does not reach the first line that is asked for.
unfoldable pub misses : Text → ℕ → HunkHeader → Bool
misses side line_start h =
    if is_left side
    then not (leb h.start1 line_start && leb line_start (h.start1 + h.size1))
    else if is_right side
    then not (leb h.start2 line_start && leb line_start (h.start2 + h.size2))
    else false

unfoldable pub select_header : Text → ℕ → Text → Groups → Selecting → Selecting
unfolding misses extract_hunk_headers
select_header side line_start line m s =
    let h = extract_hunk_headers m in
    let skipped = misses side line_start h in
    record s {
      patch_with_lines =
          if skipped
          then s.patch_with_lines
          else s.patch_with_lines ++ (newline ∷ (line ++ newline ∷ []));
      start1 = some h.start1;
      start2 = some h.start2;
      skip_hunk = skipped;
      selected_lines_num = 0;
    }

-- A line of a hunk that is not skipped.
unfoldable pub select_body : Text → ℕ → ℕ → Text → Selecting → Selecting
select_body side line_start line_end line s =
    let row = line ++ newline ∷ [] in
    let right =
      if is_right side && in_range line_start s.start2 s.selected_lines_num line_end
      then s.selected_lines ++ row
      else s.selected_lines in
    let left =
      if is_left side && up_to s.start1 s.selected_lines_num line_end
      then right ++ row
      else right in
    record s {
      selected_lines = left;
      patch_with_lines = s.patch_with_lines ++ row;
      selected_lines_num = if minus line then s.selected_lines_num else s.selected_lines_num + 1;
    }

-- One round of the loop. `none` is the exception for a line that begins with @@ and is no header.
unfoldable pub select_line : Text → ℕ → ℕ → Text → Selecting → Option Selecting
unfolding select_header select_body
select_line side line_start line_end line s =
    if no_newline line
    then some s
    else if starts_with (codes "@@") line
    then elim (match_header line) [
      | none ↦ none
      | some m ↦ some (select_header side line_start line m s)
    ]
    else if s.skip_hunk
    then some s
    else some (select_body side line_start line_end line s)

unfoldable pub select_lines : Text → ℕ → ℕ → List Text → Selecting → Option Selecting
unfolding select_line
select_lines side line_start line_end [] s = some s
select_lines side line_start line_end (line ∷ lines) s =
    select_line side line_start line_end line s >>= select_lines side line_start line_end lines

abbrev pub selecting : Text → Selecting
selecting out = record {
  patch_with_lines = out;
  selected_lines = [];
  start1 = none;
  start2 = none;
  skip_hunk = false;
  selected_lines_num = 0;
}

abbrev pub trimmed : Bool → Selecting → Text × Text
trimmed true s = (rstrip s.patch_with_lines, rstrip s.selected_lines)
trimmed false s = (s.patch_with_lines, s.selected_lines)

-- An exception is logged, and gives two empty texts.
abbrev pub selection : Bool → Option Selecting → Text × Text
selection remove none = ([], [])
selection remove (some s) = trimmed remove s

unfoldable pub extract_hunk_lines_from_patch : Text → Text → ℕ → ℕ → Text → Bool → Text × Text
unfolding select_lines
extract_hunk_lines_from_patch patch file_name line_start line_end side remove_trailing_chars =
    let out = codes "\n\n## File: '" ++ (strip file_name ++ codes "'\n\n") in
    selection remove_trailing_chars
      (select_lines side line_start line_end (splitlines patch) (selecting out))
