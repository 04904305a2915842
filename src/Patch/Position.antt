-- ===== src/Patch/Position.antt =====
-- `find_line_number_of_relevant_line_in_file` of pr_agent/algo/utils.py: where a line stands in a
-- patch, from its number in the new file or from its text.
pub mod Hunk
use my_pr_agent.Prelude.{
  ℕ, ◌+◌, ◌-◌, Bool, true, false, not, ◌&&◌, ◌||◌, List, [], ◌∷◌, ◌++◌, Option, none, some, is_some,
  nat_eq, list_eq, ◌==◌, if◌then◌else◌, ◌>>=◌,
}
use my_pr_agent.Text.{Text, codes, is_empty, lstrip, strip, starts_with, has_part}
use my_pr_agent.Text.Lines.{splitlines}
use my_pr_agent.Patch.{FilePatchInfo}
use my_pr_agent.Patch.Header.{Groups, match_header}

-- `start2` and `delta`. The other numbers of a header are read and not used.
pub record Counter : Type 0 where
  pub start2 : ℕ
  pub delta : ℕ

-- `map(int, match.groups()[:4])`, which raises where a count is left out.
abbrev pub all_counts : Groups → Bool
all_counts m = is_some m.size1 && is_some m.size2

-- The counter with a line. `none` is an exception: a line that begins with @@ and is no header, or
-- one that leaves a count out.
unfoldable pub count_line : Text → Counter → Option Counter
unfolding match_header starts_with
count_line line c =
    if starts_with (codes "@@") line
    then elim (match_header line) [
      | none ↦ none
      | some m ↦ if all_counts m then some (record { start2 = m.start2; delta = 0 }) else none
    ]
    else if starts_with (codes "-") line
    then some c
    else some (record c { delta = c.delta + 1 })

-- The index and the counter of the first line that passes the test, and the counter at the end. A
-- test may raise as well.
unfoldable pub scan :
    (Text → Counter → Option Bool)
    → ℕ
    → List Text
    → Counter
    → Option (Option (ℕ × Counter) × Counter)
unfolding count_line
scan test i [] c = some (none, c)
scan test i (line ∷ lines) c = count_line line c >>= λ c. test line c >>= λ hit. elim hit [
  | true ↦ some (some (i, c), c)
  | false ↦ scan test (i + 1) lines c
]

-- `start2 + delta - 1 == absolute_position`
unfoldable pub at_absolute : ℕ → Text → Counter → Option Bool
at_absolute absolute_position line c = some (c.start2 + c.delta == absolute_position + 1)

-- `line[0] != '-'`, which raises on an empty line.
abbrev pub no_deletion : Text → Option Bool
no_deletion [] = none
no_deletion (c ∷ line) = some (not (c == b'-'))

unfoldable pub holds : Text → Text → Counter → Option Bool
unfolding has_part
holds part line c = if has_part part line then no_deletion line else some false

-- The variables of the function; `none` is -1.
pub record Searching : Type 0 where
  pub position : Option ℕ
  pub absolute_position : Option ℕ
  pub relevant_line_in_file : Text

-- `start2 + delta - 1`
abbrev pub absolute_of : Counter → Option ℕ
absolute_of c = if c.start2 + c.delta == 0 then none else some (c.start2 + c.delta - 1)

abbrev pub found_text : Option (ℕ × Counter) → Searching → Searching
found_text none s = s
found_text (some (i, c)) s = record s { position = some i; absolute_position = absolute_of c }

abbrev pub found_number : Option (ℕ × Counter) → Searching → Searching
found_number none s = s
found_number (some (i, c)) s = record s { position = some i }

-- `difflib.get_close_matches(line, lines, n=3, cutoff=0.93)`
abbrev pub CloseMatches : Type 0
CloseMatches = Text → List Text → List Text

abbrev pub closest : List Text → Text → Text
closest (m ∷ []) line = if starts_with (codes "+") m then m else line
closest _ line = line

-- A second look for the line without its plus, from the counter that the first has left.
abbrev pub second_look : List Text → Counter → Searching → Option Searching
second_look patch_lines c s = elim s.position [
  | some _ ↦ some s
  | none ↦ elim s.relevant_line_in_file [
    | [] ↦ none
    | x ∷ rest ↦
        if x == b'+'
        then (scan (holds (lstrip rest)) 0 patch_lines c >>= λ r. some (found_text r.0 s))
        else some s
  ]
]

unfoldable pub search_file : CloseMatches → List Text → Searching → Option Searching
unfolding scan at_absolute holds lstrip
search_file close patch_lines s =
    let start : Counter = record { start2 = 0; delta = 0 } in
    elim s.absolute_position [
      | some p ↦ scan (at_absolute p) 0 patch_lines start >>= λ r. some (found_number r.0 s)
      | none ↦
          let line = closest (close s.relevant_line_in_file patch_lines) s.relevant_line_in_file in
          let s = record s { relevant_line_in_file = line } in
          scan (holds line) 0 patch_lines start >>= λ r.
          second_look patch_lines r.1 (found_text r.0 s)
    ]

unfoldable pub search_files :
    CloseMatches → Text → List FilePatchInfo → Searching → Option Searching
unfolding search_file
search_files close relevant_file [] s = some s
search_files close relevant_file (file ∷ files) s =
    (if not (is_empty file.filename) && strip file.filename == relevant_file
      then search_file close (splitlines file.patch) s
      else some s)
    >>= search_files close relevant_file files

-- `none` is an exception.
unfoldable pub find_line_number :
    CloseMatches → List FilePatchInfo → Text → Text → Option ℕ → Option (Option ℕ × Option ℕ)
unfolding search_files splitlines strip
find_line_number close diff_files relevant_file relevant_line_in_file absolute_position = do
  s ← search_files close relevant_file diff_files (record {
    position = none;
    absolute_position = absolute_position;
    relevant_line_in_file = relevant_line_in_file;
  })
  some (s.position, s.absolute_position)
