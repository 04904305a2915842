-- ===== src/Patch/Deletions.antt =====
-- `omit_deletion_hunks` and `handle_patch_deletions` of pr_agent/algo/git_patch_processing.py.
pub mod Kept
use my_pr_agent.Prelude.{
  is_some, ℕ, ◌≡◌, refl, Bool, true, false, ◌&&◌, ◌||◌, List, [], ◌∷◌, ◌++◌, Option, none, some,
  nat_eq, list_eq, ◌==◌, if◌then◌else◌,
}
use my_pr_agent.Text.{Text, codes, newline, is_empty, starts_with, join}
use my_pr_agent.Text.Lines.{splitlines}
use my_pr_agent.Patch.{EditType, is_deleted, is_unknown}
use my_pr_agent.Patch.Header.{match_header}

-- The variables of the loop.
pub record Scan : Type 0 where
  pub temp_hunk : List Text
  pub added_patched : List Text
  pub add_hunk : Bool
  pub inside_hunk : Bool

abbrev pub scan_init : Scan
scan_init = record { temp_hunk = []; added_patched = []; add_hunk = false; inside_hunk = false }

-- `line[0] == '+'` of a line that is not empty.
abbrev pub is_plus : Text → Bool
is_plus [] = false
is_plus (c ∷ s) = c == b'+'

-- `if inside_hunk and add_hunk` of the end of a hunk.
unfoldable pub finish_hunk : Scan → Scan
finish_hunk s =
    if s.inside_hunk && s.add_hunk
    then record s {
      added_patched = s.added_patched ++ s.temp_hunk;
      temp_hunk = [];
      add_hunk = false;
    }
    else s

unfoldable pub scan_line : Text → Scan → Scan
unfolding finish_hunk
scan_line line s =
    if starts_with (codes "@@") line
    then (if is_some (match_header line)
        then (let t = finish_hunk s in
            record t { temp_hunk = t.temp_hunk ++ line ∷ []; inside_hunk = true })
        else s)
    else record s { temp_hunk = s.temp_hunk ++ line ∷ []; add_hunk = s.add_hunk || is_plus line }

unfoldable pub scan_lines : List Text → Scan → Scan
unfolding scan_line
scan_lines [] s = s
scan_lines (line ∷ lines) s = scan_lines lines (scan_line line s)

-- The lines that `omit_deletion_hunks` joins.
unfoldable pub kept_lines : List Text → List Text
unfolding scan_lines
kept_lines patch_lines =
    let s = scan_lines patch_lines scan_init in
    if s.inside_hunk && s.add_hunk then s.added_patched ++ s.temp_hunk else s.added_patched

unfoldable pub omit_deletion_hunks : List Text → Text
unfolding kept_lines
omit_deletion_hunks patch_lines = join (newline ∷ []) (kept_lines patch_lines)

-- The original content and the file's name are only logged. `none` is a deleted file.
unfoldable pub handle_patch_deletions : Text → Text → EditType → Option Text
unfolding omit_deletion_hunks
handle_patch_deletions patch new_file_content_str edit_type =
    if is_empty new_file_content_str && (is_deleted edit_type || is_unknown edit_type)
    then none
    else (let patch_new = omit_deletion_hunks (splitlines patch) in
        if patch == patch_new then some patch else some patch_new)
