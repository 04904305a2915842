-- ===== src/Tests/PositionRuns.antt =====
-- A line of a patch of one hunk.
use my_pr_agent.Prelude.{◌≡◌, refl, none, some, List, [], ◌∷◌, nat_eq, list_eq}
use my_pr_agent.Text.{Text, codes, starts_with, strip, has_part}
use my_pr_agent.Text.Lines.{splitlines}
use my_pr_agent.Patch.{FilePatchInfo, EditType}
use my_pr_agent.Patch.Header.{Groups, match_header}
use my_pr_agent.Patch.Position.{count_line, scan, at_absolute, find_line_number}
use my_pr_agent.Patch.Position.Hunk.{Answer}

abbrev header : Text
header = codes "@@ -4,3 +4,3 @@ f"

abbrev body : List Text
body = codes " a" ∷ codes "-b" ∷ codes "+B" ∷ codes " c" ∷ []

abbrev groups : Groups
groups = record { start1 = 4; size1 = some 3; start2 = 4; size2 = some 3; section = codes "f" }

-- The number before the hunk is found at its header.
before_hunk :
    Answer body 4 3 (scan (at_absolute 3) 0 (header ∷ body) (record { start2 = 0; delta = 0 }))
unfolding Answer scan at_absolute count_line starts_with match_header
before_hunk = refl

abbrev file : Text → FilePatchInfo
file patch = record {
  base_file = [];
  head_file = [];
  patch = patch;
  filename = codes "x.py";
  tokens = none;
  edit_type = EditType.modified;
  old_filename = none;
  num_plus_lines = none;
  num_minus_lines = none;
  language = none;
  ai_file_summary = none;
}

-- Line 5 of the new file is the fourth of the patch; by its text it is found there as well.
by_number :
    find_line_number
      (λ line lines. [])
      (file (codes "@@ -4,3 +4,3 @@ f\n a\n-b\n+B\n c") ∷ [])
      (codes "x.py")
      []
      (some 5)
    ≡ some (some 3, some 5)
unfolding find_line_number starts_with match_header splitlines strip
by_number = refl

by_text :
    find_line_number
      (λ line lines. [])
      (file (codes "@@ -4,3 +4,3 @@ f\n a\n-b\n+B\n c") ∷ [])
      (codes "x.py")
      (codes "+B")
      none
    ≡ some (some 3, some 5)
unfolding find_line_number starts_with match_header splitlines strip has_part
by_text = refl

-- A header that leaves a count out raises.
short_header :
    find_line_number
      (λ line lines. [])
      (file (codes "@@ -4 +4 @@\n-b\n+B") ∷ [])
      (codes "x.py")
      []
      (some 4)
    ≡ none
unfolding find_line_number starts_with match_header splitlines strip
short_header = refl
