-- ===== src/Patch/Context.antt =====
-- `extend_patch` and what it calls, in pr_agent/algo/git_patch_processing.py: lines of the file are
-- put around each hunk. The settings that the code reads are a record.
pub mod Counts
pub mod Kept
use my_pr_agent.Prelude.{
  ℕ, ◌+◌, ◌-◌, Bool, true, false, not, ◌&&◌, ◌||◌, List, [], ◌∷◌, ◌++◌, map, Option, none, some,
  ltb, nat_eq, list_eq, ◌==◌, if◌then◌else◌, length, get_elem?, slice, drop, any_of,
}
use my_pr_agent.Text.{Text, codes, newline, is_empty, strip, starts_with, ends_with, has_part, join}
use my_pr_agent.Text.Lines.{splitlines}
use my_pr_agent.Patch.Header.{HunkHeader, match_header, extract_hunk_headers}
use my_pr_agent.Patch.Extent.{Extent, unextended, calc_context_limits, shifted, header_text}

pub record ContextSettings : Type 0 where
  pub allow_dynamic_context : Bool
  pub max_extra_lines_before_dynamic_context : ℕ
  pub patch_extension_skip_types : List Text

unfoldable pub should_skip_patch : ContextSettings → Text → Bool
should_skip_patch settings filename =
    not (is_empty settings.patch_extension_skip_types)
    && not (is_empty filename)
    && any_of (λ skip_type. ends_with skip_type filename) settings.patch_extension_skip_types

-- `xs[i]` where `i` is the number of a line less one: 0 - 1 is the last line in Python.
abbrev pub line_at : List Text → ℕ → Option Text
line_at lines start1 =
    if start1 == 0 then get_elem? lines (length lines - 1) else get_elem? lines (start1 - 1)

abbrev pub starts_with_space : Text → Bool
starts_with_space [] = false
starts_with_space (c ∷ s) = c == b' '

-- Whether the first line of the hunk, if it is one of the file, stands there in the file. An empty
-- line and a number past the end of the file raise, which is caught with the result true. The
-- attempts at other encodings change only what is logged.
abbrev pub hunk_line_fits : Option Text → Text → Bool
hunk_line_fits none line = true
hunk_line_fits (some original) line = strip line == strip original

unfoldable pub check_if_hunk_lines_matches_to_file : List Text → List Text → ℕ → Bool
unfolding strip
check_if_hunk_lines_matches_to_file [] original_lines start1 = true
check_if_hunk_lines_matches_to_file (line ∷ lines) original_lines start1 =
    if starts_with_space line then hunk_line_fits (line_at original_lines start1) line else true

-- `lines[ext - 1:start - 1]`, whose end is -1 if the start is 0: all lines but the last.
abbrev pub lines_before : List Text → ℕ → ℕ → List Text
lines_before lines ext start =
    if start == 0
    then slice lines (ext - 1) (length lines - 1)
    else slice lines (ext - 1) (start - 1)

-- `lines[start + size - 1:start + size - 1 + after]`, which begins at the last line if the sum is 0.
abbrev pub lines_after : List Text → ℕ → ℕ → List Text
lines_after lines stop after =
    if stop == 0
    then slice lines (length lines - 1) (after - 1)
    else slice lines (stop - 1) (stop - 1 + after)

abbrev pub spaced : List Text → List Text
spaced lines = map (λ line. b' ' ∷ line) lines

-- The first line that holds the section header.
unfoldable pub find_section : Text → List Text → Option ℕ
unfolding has_part
find_section section_header [] = none
find_section section_header (line ∷ lines) = elim (has_part section_header line) [
  | true ↦ some 0
  | false ↦ elim (find_section section_header lines) [ none ↦ none | some i ↦ some (i + 1) ]
]

-- The two files, as lines, and how many lines are asked for.
pub record Around : Type 0 where
  pub file_original_lines : List Text
  pub file_new_lines : List Text
  pub extra_before : ℕ
  pub extra_after : ℕ

-- Where the lines before the hunk start, and the section header that is kept.
unfoldable pub dynamic_context : ContextSettings → Around → HunkHeader → Extent × Text
unfolding calc_context_limits find_section
dynamic_context settings a h =
    let limits = calc_context_limits (length a.file_original_lines) a.extra_after h in
    let e = limits settings.max_extra_lines_before_dynamic_context in
    let before_original = lines_before a.file_original_lines e.start1 h.start1 in
    let before_new = lines_before a.file_new_lines e.start2 h.start2 in
    elim (find_section h.section_header before_original) [
      | none ↦ (limits a.extra_before, h.section_header)
      | some i ↦
          if drop i before_original == drop i before_new
          then (shifted i e, [])
          else (limits a.extra_before, h.section_header)
    ]

-- The first place from which on the lines of the two files agree.
unfoldable pub mini_match : List Text → List Text → Option ℕ
mini_match [] delta_lines_new = none
mini_match (line ∷ lines) delta_lines_new = elim ((line ∷ lines) == delta_lines_new) [
  | true ↦ some 0
  | false ↦ elim (mini_match lines (drop 1 delta_lines_new)) [ none ↦ none | some i ↦ some (i + 1) ]
]

-- The numbers for the header and the lines that go before the hunk.
unfoldable pub agreeing : Around → HunkHeader → Extent → Extent × List Text
unfolding mini_match
agreeing a h e =
    let delta_original = spaced (lines_before a.file_original_lines e.start1 h.start1) in
    let delta_new = spaced (lines_before a.file_new_lines e.start2 h.start2) in
    if is_empty a.file_new_lines || delta_original == delta_new
    then (e, delta_original)
    else elim (mini_match delta_original delta_new) [
      | none ↦ (unextended h, [])
      | some i ↦ (shifted i e, drop i delta_original)
    ]

unfoldable pub kept_section : ContextSettings → Text → List Text → Text
unfolding has_part
kept_section settings section_header delta_lines =
    if not (is_empty section_header)
      && not settings.allow_dynamic_context
      && any_of (has_part section_header) delta_lines
    then []
    else section_header

-- Where the lines before a valid hunk start, and its section header.
unfoldable pub context_start : ContextSettings → Around → HunkHeader → Extent × Text
unfolding dynamic_context calc_context_limits
context_start settings a h =
    if settings.allow_dynamic_context && not (is_empty a.file_new_lines)
    then dynamic_context settings a h
    else (
      calc_context_limits (length a.file_original_lines) a.extra_after h a.extra_before,
      h.section_header,
    )

-- The header of a hunk as it is written, and the lines behind it.
unfoldable pub extend_header : ContextSettings → Around → HunkHeader → Bool → Text × List Text
unfolding context_start agreeing kept_section header_text
extend_header settings a h is_valid_hunk =
    if is_valid_hunk && (ltb 0 a.extra_before || ltb 0 a.extra_after)
    then (let (e, section) = context_start settings a h in
        let (extent, delta_lines) = agreeing a h e in
        (header_text extent (kept_section settings section delta_lines), delta_lines))
    else (header_text (unextended h) h.section_header, [])

-- The loop's variables. `header` is the last one read, `none` while the four numbers are -1.
pub record Extending : Type 0 where
  pub extended_patch_lines : List Text
  pub is_valid_hunk : Bool
  pub header : Option HunkHeader

-- The lines behind the last hunk.
abbrev pub lines_behind : Around → Extending → List Text
lines_behind a s = elim s.header [
  | none ↦ []
  | some h ↦
      if s.is_valid_hunk && ltb 0 a.extra_after
      then spaced (lines_after a.file_original_lines (h.start1 + h.size1) a.extra_after)
      else []
]

unfoldable pub extend_line : ContextSettings → Around → Text → List Text → Extending → Extending
unfolding check_if_hunk_lines_matches_to_file extract_hunk_headers extend_header match_header
extend_line settings a line lines s =
    let plain = record s { extended_patch_lines = s.extended_patch_lines ++ line ∷ [] } in
    if starts_with (codes "@@") line
    then elim (match_header line) [
      | none ↦ plain
      | some m ↦
          let h = extract_hunk_headers m in
          let valid = check_if_hunk_lines_matches_to_file lines a.file_original_lines h.start1 in
          let (text, delta_lines) = extend_header settings a h valid in
          record {
            extended_patch_lines =
                (s.extended_patch_lines ++ lines_behind a s) ++ [] ∷ text ∷ delta_lines;
            is_valid_hunk = valid;
            header = some h;
          }
    ]
    else plain

unfoldable pub extend_lines : ContextSettings → Around → List Text → Extending → Extending
unfolding extend_line
extend_lines settings a [] s = s
extend_lines settings a (line ∷ lines) s =
    extend_lines settings a lines (extend_line settings a line lines s)

abbrev pub extending : Extending
extending = record { extended_patch_lines = []; is_valid_hunk = true; header = none }

unfoldable pub process_patch_lines : ContextSettings → Text → Text → ℕ → ℕ → Text → Text
unfolding extend_lines
process_patch_lines settings patch_str original_file_str extra_before extra_after new_file_str =
    let a : Around = record {
      file_original_lines = splitlines original_file_str;
      file_new_lines = splitlines new_file_str;
      extra_before = extra_before;
      extra_after = extra_after;
    } in
    let s = extend_lines settings a (splitlines patch_str) extending in
    join (newline ∷ []) (s.extended_patch_lines ++ lines_behind a s)

-- The files are texts here; `decode_if_bytes` has nothing to do.
unfoldable pub extend_patch : ContextSettings → Text → Text → ℕ → ℕ → Text → Text → Text
unfolding should_skip_patch process_patch_lines
extend_patch settings original_file_str patch_str extra_before extra_after filename new_file_str =
    if is_empty patch_str
      || (extra_before == 0 && extra_after == 0)
      || is_empty original_file_str
      || should_skip_patch settings filename
    then patch_str
    else process_patch_lines settings patch_str original_file_str extra_before extra_after
        new_file_str
