-- ===== src/SuggestionMatcher/Regions.antt =====
-- What the opcodes of `difflib` say about a suggestion's region.
pub mod Slices
pub mod Drift
use my_pr_agent.Prelude.{
  ℕ, ◌+◌, ◌-◌, Bool, true, false, not, ◌&&◌, ◌||◌, List, [], ◌∷◌, min, max, leb, ltb, nat_eq, ◌==◌,
  if◌then◌else◌, length, slice, any_of,
}
use my_pr_agent.Text.{Text, is_empty}
use my_pr_agent.SuggestionMatcher.{Span, ranges_overlap, normalize_file_lines}

-- The four tags of an opcode.
pub data Tag : Type 0 where
  equal replace delete insert : Tag

pub record Opcode : Type 0 where
  pub tag : Tag
  pub i1 : ℕ
  pub i2 : ℕ
  pub j1 : ℕ
  pub j2 : ℕ

-- `difflib.SequenceMatcher(None, a, b, autojunk=False).get_opcodes()` is a library.
abbrev pub GetOpcodes : Type 0
GetOpcodes = List Text → List Text → List Opcode

abbrev pub is_equal : Tag → Bool
is_equal equal = true
is_equal _ = false

unfoldable pub span_is_unchanged : Span → List Opcode → Bool
span_is_unchanged span opcodes =
    any_of (λ op. is_equal op.tag && (leb op.j1 (span.0 - 1) && leb span.1 op.j2)) opcodes

-- `any` over the changed ranges of the two branches.
unfoldable pub near_deletion : ℕ → List Span → Bool
unfolding ranges_overlap
near_deletion current_pos changed_ranges =
    any_of
      (λ cr.
        ranges_overlap (current_pos, current_pos + 1) cr
        || ranges_overlap (max 1 (current_pos - 1), current_pos + 1) cr)
      changed_ranges

unfoldable pub near_replacement : ℕ → List Span → Bool
unfolding ranges_overlap
near_replacement current_pos changed_ranges =
    any_of (ranges_overlap (current_pos, current_pos + 1)) changed_ranges

-- The loop over the opcodes, for the lines from `p_start` up to `p_end`. The sizes are integers in
-- the source, of which no opcode has a negative one.
unfoldable pub region_deleted : ℕ → ℕ → List Span → List Opcode → Bool
unfolding near_deletion near_replacement
region_deleted p_start p_end changed_ranges [] = false
region_deleted p_start p_end changed_ranges (op ∷ opcodes) =
    let rest = region_deleted p_start p_end changed_ranges opcodes in
    if leb op.i2 p_start
    then rest
    else if leb p_end op.i1
    then false
    else if leb (min op.i2 p_end) (max op.i1 p_start)
    then rest
    else elim op.tag [
      | delete ↦ near_deletion (op.j1 + 1) changed_ranges
      | replace ↦
          (if ltb (op.j2 - op.j1) (op.i2 - op.i1)
            then near_replacement (op.j1 + 1) changed_ranges
            else false)
      | equal ↦ rest
      | insert ↦ rest
    ]

unfoldable pub patch_region_deleted : Span → List Opcode → List Span → Bool
unfolding region_deleted
patch_region_deleted parent_span opcodes changed_ranges =
    region_deleted (parent_span.0 - 1) parent_span.1 changed_ranges opcodes

-- `equal_start <= old_start and equal_end >= old_end` for an equal opcode.
unfoldable pub window_unchanged : ℕ → ℕ → List Opcode → Bool
window_unchanged old_start old_end opcodes =
    any_of (λ op. is_equal op.tag && (leb op.i1 old_start && leb old_end op.i2)) opcodes

-- The longest equal part.
unfoldable pub longest_equal : ℕ → List Opcode → ℕ
longest_equal longest [] = longest
longest_equal longest (op ∷ opcodes) =
    longest_equal (if is_equal op.tag then max longest (op.i2 - op.i1) else longest) opcodes

-- The second and the third stage, for a window that is unchanged.
unfoldable pub drift_check : GetOpcodes → List Text → List Text → ℕ → ℕ → Bool
unfolding longest_equal
drift_check get_opcodes posted_lines current_lines start_line end_line =
    let target = slice posted_lines (start_line - 1) end_line in
    let longest = longest_equal 0 (get_opcodes target current_lines) in
    if ltb (length current_lines) end_line
    then false
    else if is_empty target
    then false
    else if leb (length target) longest
    then false
    else not (longest == 0)

-- A `line` or `context_lines` below 0 acts like 0; a `line_end` below 0, for which the source answers
-- `False`, is not modelled. `line_end` is 0 if it is not given.
unfoldable pub target_region_changed : GetOpcodes → Text → Text → ℕ → ℕ → ℕ → Bool
unfolding normalize_file_lines window_unchanged drift_check
target_region_changed get_opcodes posted_content current_content line line_end context =
    let posted_lines = normalize_file_lines posted_content in
    let current_lines = normalize_file_lines current_content in
    let end_line = if line_end == 0 then line else line_end in
    let old_start = line - 1 - context in
    let old_end = min (length posted_lines) (end_line + context) in
    if ltb line 1 || ltb end_line line || ltb (length posted_lines) line
    then false
    else if leb old_end old_start
    then false
    else if not (window_unchanged old_start old_end (get_opcodes posted_lines current_lines))
    then true
    else drift_check get_opcodes posted_lines current_lines line end_line
