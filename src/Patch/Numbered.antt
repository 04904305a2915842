-- ===== src/Patch/Numbered.antt =====
-- `decouple_and_convert_to_hunks_with_lines_numbers` of pr_agent/algo/git_patch_processing.py.
pub mod Hunks
use my_pr_agent.Prelude.{
  ℕ, suc, ◌+◌, Bool, true, false, not, ◌&&◌, ◌||◌, List, [], ◌∷◌, ◌++◌, Option, none, some,
  if◌then◌else◌, any_of,
}
use my_pr_agent.Text.{Text, codes, newline, is_empty, starts_with, has_part, lower, strip, rstrip}
use my_pr_agent.Text.Lines.{splitlines}
use my_pr_agent.Text.Numbers.{print}
use my_pr_agent.Patch.{FilePatchInfo, EditType, is_deleted}
use my_pr_agent.Patch.Header.{Groups, match_header, HunkHeader, extract_hunk_headers}

-- `start2` is `none` while it is -1, and so is a line number that is counted from it.
abbrev pub next_number : Option ℕ → Option ℕ
next_number none = some 0
next_number (some n) = some (n + 1)

unfoldable pub print_number : Option ℕ → Text
print_number none = codes "-1"
print_number (some n) = print n

-- `f"{start2 + i} {line_new}\n"` of each line.
unfoldable pub number_lines : Option ℕ → List Text → Text
unfolding print_number
number_lines start [] = []
number_lines start (line ∷ lines) =
    print_number start
    ++ (codes " " ++ (line ++ (newline ∷ number_lines (next_number start) lines)))

-- `f"{line_old}\n"` of each line.
unfoldable pub end_lines : List Text → Text
end_lines [] = []
end_lines (line ∷ lines) = line ++ (newline ∷ end_lines lines)

abbrev pub plus : Text → Bool
plus = starts_with (codes "+")

abbrev pub minus : Text → Bool
minus = starts_with (codes "-")

-- What the end of a hunk adds to the output behind its header.
unfoldable pub write_sides : Option ℕ → List Text → List Text → Text → Text
unfolding number_lines end_lines
write_sides start2 new_lines old_lines out =
    let is_minus_lines = any_of minus old_lines in
    let out' =
      if any_of plus new_lines || is_minus_lines
      then rstrip out ++ (codes "\n__new hunk__\n" ++ number_lines start2 new_lines)
      else out in
    if is_minus_lines
    then rstrip out' ++ (codes "\n__old hunk__\n" ++ end_lines old_lines)
    else out'

-- `f'\n{header_line}\n'` behind the output.
abbrev pub write_header : Text → Text → Text
write_header header out = out ++ (newline ∷ (header ++ newline ∷ []))

-- The variables of the loop that are read again.
pub record Converting : Type 0 where
  pub patch_with_lines : Text
  pub new_content_lines : List Text
  pub old_content_lines : List Text
  pub matched : Bool
  pub start2 : Option ℕ
  pub prev_header_line : Text
  pub header_line : Text

unfoldable pub flush : Converting → Converting
unfolding write_sides
flush s = if is_empty s.new_content_lines && is_empty s.old_content_lines then s else record s {
  patch_with_lines = write_sides s.start2 s.new_content_lines s.old_content_lines (
      if is_empty s.prev_header_line
      then s.patch_with_lines
      else write_header s.prev_header_line s.patch_with_lines);
  new_content_lines = [];
  old_content_lines = [];
}

-- A line that begins with @@. If it is no hunk header the call of `extract_hunk_headers` raises.
unfoldable pub convert_header : Text → Converting → Option Converting
unfolding flush extract_hunk_headers
convert_header line s = elim (match_header line) [
  | none ↦ none
  | some m ↦ some (record (flush s) {
    matched = true;
    start2 = some (extract_hunk_headers m).start2;
    prev_header_line = line;
    header_line = line;
  })
]

-- An empty line before a hunk header, or at the end, is skipped unless it is the first of all.
abbrev pub is_skipped : Bool → Text → List Text → Bool
is_skipped first line [] = is_empty line && not first
is_skipped first line (next ∷ lines) = is_empty line && (not first && starts_with (codes "@@") next)

unfoldable pub convert_body : Bool → Text → List Text → Converting → Converting
convert_body first line lines s =
    if plus line
    then record s { new_content_lines = s.new_content_lines ++ line ∷ [] }
    else if minus line
    then record s { old_content_lines = s.old_content_lines ++ line ∷ [] }
    else if is_skipped first line lines
    then s
    else record s {
      new_content_lines = s.new_content_lines ++ line ∷ [];
      old_content_lines = s.old_content_lines ++ line ∷ [];
    }

abbrev pub no_newline : Text → Bool
no_newline line = has_part (codes "no newline at end of file") (lower line)

-- One round of the loop.
unfoldable pub convert_line : Bool → Text → List Text → Converting → Option Converting
unfolding convert_header convert_body
convert_line first line lines s =
    if no_newline line
    then some s
    else if starts_with (codes "@@") line
    then convert_header line s
    else some (convert_body first line lines s)

unfoldable pub convert_lines : Bool → List Text → Converting → Option Converting
unfolding convert_line
convert_lines first [] s = some s
convert_lines first (line ∷ lines) s = elim (convert_line first line lines s) [
  | none ↦ none
  | some s' ↦ convert_lines false lines s'
]

-- The end of the last hunk.
unfoldable pub finish : Converting → Text
unfolding write_sides
finish s = rstrip (
    if s.matched && not (is_empty s.new_content_lines)
    then write_sides s.start2 s.new_content_lines s.old_content_lines
        (write_header s.header_line s.patch_with_lines)
    else s.patch_with_lines)

abbrev pub converting : Text → Converting
converting out = record {
  patch_with_lines = out;
  new_content_lines = [];
  old_content_lines = [];
  matched = false;
  start2 = none;
  prev_header_line = [];
  header_line = [];
}

unfoldable pub convert : Text → Text → Option Text
unfolding convert_lines finish
convert out patch = elim (convert_lines true (splitlines patch) (converting out)) [
  | none ↦ none
  | some s ↦ some (finish s)
]

-- `none` is an exception.
unfoldable pub decouple_and_convert_to_hunks_with_lines_numbers :
    Text → Option FilePatchInfo → Option Text
unfolding convert
decouple_and_convert_to_hunks_with_lines_numbers patch none = convert [] patch
decouple_and_convert_to_hunks_with_lines_numbers patch (some file) =
    if is_deleted file.edit_type
    then some (codes "\n\n## File '" ++ (strip file.filename ++ codes "' was deleted\n"))
    else convert (codes "\n\n## File: '" ++ (strip file.filename ++ codes "'\n")) patch
