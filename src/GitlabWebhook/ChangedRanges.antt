-- ===== src/GitlabWebhook/ChangedRanges.antt =====
-- `_changed_new_line_ranges`: the lines of the new file that a diff has changed.
pub mod Reached
pub mod Covered
pub mod Printed
use my_pr_agent.Prelude.{
  ℕ, ◌+◌, ◌-◌, max, Bool, true, false, not, ◌&&◌, Option, none, some, List, [], ◌∷◌, ◌++◌, leb,
  if◌then◌else◌, ◌>>=◌, drop,
}
use my_pr_agent.Text.{Text, codes, is_empty, strip, starts_with}
use my_pr_agent.Text.Lines.{splitlines}
use my_pr_agent.Text.Numbers.{number}
use my_pr_agent.Patch.Header.{after, optional_count}
use my_pr_agent.SuggestionMatcher.{Span}

-- The variables of the loop. The functions inside it write to them.
pub record Scanning : Type 0 where
  pub ranges : List Span
  pub new_line : Option ℕ
  pub range_start : Option ℕ
  pub deleted_before_addition : Bool
  pub deleted_lines_blank : Bool
  pub pending_deletion_start : Option ℕ

abbrev pub unscanned : Scanning
unscanned = record {
  ranges = [];
  new_line = none;
  range_start = none;
  deleted_before_addition = false;
  deleted_lines_blank = false;
  pending_deletion_start = none;
}

-- `re.match` of a hunk header, with its only group.
unfoldable pub hunk_start : Text → Option ℕ
unfolding after number optional_count
hunk_start line = do
  s ← after (codes "@@ -") line
  (_, s) ← number s
  let (_, s) = optional_count s
  s ← after (codes " +") s
  (start, s) ← number s
  let (_, s) = optional_count s
  _ ← after (codes " @@") s
  some start

-- What the two inner functions put at the end of the ranges. An open range is there only behind an
-- added line, so that the next line is 1 or more.
abbrev pub closing : Option ℕ → Option ℕ → Bool → List Span
closing (some start) (some line) deleted =
    let end = if deleted then line - 1 else line in if leb start end then (start, end) ∷ [] else []
closing _ _ deleted = []

abbrev pub flushing : Option ℕ → Option ℕ → List Span
flushing (some start) (some line) = (start, max start (line - 1)) ∷ []
flushing _ _ = []

-- The start is forgotten if there is a next line.
abbrev pub forgotten : Option ℕ → Option ℕ → Option ℕ
forgotten start none = start
forgotten start (some line) = none

unfoldable pub close_range : Scanning → Scanning
close_range s = record s {
  ranges = s.ranges ++ closing s.range_start s.new_line s.deleted_before_addition;
  range_start = forgotten s.range_start s.new_line;
}

unfoldable pub flush_pending_deletion : Scanning → Scanning
flush_pending_deletion s = record s {
  ranges = s.ranges ++ flushing s.pending_deletion_start s.new_line;
  pending_deletion_start = forgotten s.pending_deletion_start s.new_line;
}

abbrev pub or_else : Option ℕ → ℕ → Option ℕ
or_else none n = some n
or_else (some m) n = some m

abbrev pub is_added : Text → Bool
is_added line = starts_with (codes "+") line && not (starts_with (codes "+++") line)

abbrev pub is_removed : Text → Bool
is_removed line = starts_with (codes "-") line && not (starts_with (codes "---") line)

-- A line behind a hunk header, when the next line of the new file is `line_number`.
unfoldable pub scan_added : ℕ → Scanning → Scanning
unfolding flush_pending_deletion
scan_added line_number s =
    let flushed = flush_pending_deletion s in
    let start =
      if s.deleted_before_addition && not s.deleted_lines_blank
      then line_number
      else max 1 (line_number - 1) in
    record flushed {
      range_start = or_else flushed.range_start start;
      new_line = some (line_number + 1);
    }

unfoldable pub scan_removed : ℕ → Text → Scanning → Scanning
unfolding close_range strip
scan_removed line_number line s =
    let closed = close_range s in
    let blank = if s.deleted_before_addition then s.deleted_lines_blank else true in
    record closed {
      deleted_lines_blank = blank && is_empty (strip (drop 1 line));
      deleted_before_addition = true;
      pending_deletion_start = or_else closed.pending_deletion_start line_number;
    }

unfoldable pub scan_context : ℕ → Scanning → Scanning
unfolding close_range flush_pending_deletion
scan_context line_number s = record (flush_pending_deletion (close_range s)) {
  deleted_before_addition = false;
  deleted_lines_blank = false;
  new_line = some (line_number + 1);
}

unfoldable pub scan_hunk : ℕ → Scanning → Scanning
unfolding close_range flush_pending_deletion
scan_hunk start s = record (flush_pending_deletion (close_range s)) {
  new_line = some start;
  deleted_before_addition = false;
  deleted_lines_blank = false;
}

-- A line that is no hunk header.
unfoldable pub scan_body : ℕ → Text → Scanning → Scanning
unfolding starts_with scan_added scan_removed scan_context
scan_body line_number line s =
    if is_added line
    then scan_added line_number s
    else if is_removed line
    then scan_removed line_number line s
    else scan_context line_number s

unfoldable pub range_line : Text → Scanning → Scanning
unfolding hunk_start scan_hunk scan_body
range_line line s = elim (hunk_start line) [
  | some start ↦ scan_hunk start s
  | none ↦ elim s.new_line [ none ↦ s | some line_number ↦ scan_body line_number line s ]
]

unfoldable pub range_lines : List Text → Scanning → Scanning
unfolding range_line
range_lines [] s = s
range_lines (line ∷ lines) s = range_lines lines (range_line line s)

unfoldable pub changed_new_line_ranges : Text → List Span
unfolding splitlines range_lines close_range flush_pending_deletion
changed_new_line_ranges diff =
    let s = range_lines (splitlines diff) unscanned in
    let ended = flush_pending_deletion (close_range s) in ended.ranges
