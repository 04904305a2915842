-- ===== src/Tests/PatchRuns.antt =====
-- Patches of a few lines.
use my_pr_agent.Prelude.{
  ◌≡◌, refl, true, false, none, some, List, [], ◌∷◌, ◌++◌, nat_eq, pair_eq, list_eq, arith, any_of,
  All,
}
use my_pr_agent.Text.{
  Text, codes, newline, is_space, rstrip, strip, starts_with, has_part, lower, join,
}
use my_pr_agent.Text.Lines.{is_line_end, splitlines}
use my_pr_agent.Text.Lines.RoundTrip.{IsLine}
use my_pr_agent.Text.Numbers.{print}
use my_pr_agent.Patch.Header.{Groups, match_header}
use my_pr_agent.Patch.Deletions.{kept_lines}
use my_pr_agent.Patch.Deletions.Kept.{
  is_header, relevant, NoPlus, AtHeader, kept_lines-split, kept_lines-all,
}
use my_pr_agent.Patch.Numbered.{convert, no_newline, end_lines}
use my_pr_agent.Patch.Numbered.Hunks.{Hunk, IsHunk, IsBody, EndsNew, render, lines_of, convert-join}
use my_pr_agent.Patch.Selection.{extract_hunk_lines_from_patch, is_left, is_right}
use my_pr_agent.Patch.Selection.Left.{extract-left}
use my_pr_agent.Patch.Selection.Right.{IsRow, new_rows, window, extract-right}

abbrev header : Text
header = codes "@@ -3,2 +4,3 @@ def f():"

abbrev groups : Groups
groups = record {
  start1 = 3;
  size1 = some 2;
  start2 = 4;
  size2 = some 3;
  section = codes "def f():";
}

header_matches : match_header header ≡ some groups
unfolding match_header
header_matches = refl

short_header :
    match_header (codes "@@ -1 +1 @@")
    ≡ some (record { start1 = 1; size1 = none; start2 = 1; size2 = none; section = [] })
unfolding match_header
short_header = refl

no_header : match_header (codes "@@@ -1,2 -1,2 +1,3 @@@") ≡ none
unfolding match_header
no_header = refl

abbrev body : List Text
body = codes " a" ∷ codes "-b" ∷ codes "+c" ∷ codes "+d" ∷ []

abbrev patch : Text
patch = join (newline ∷ []) (header ∷ body)

printed : print 1907 ≡ codes "1907"
unfolding print
printed = refl

abbrev deletion_only : List Text
deletion_only = codes "@@ -1,2 +1,1 @@" ∷ codes " x" ∷ codes "-y" ∷ []

numbered :
    convert [] patch
    ≡ some
        (codes "\n@@ -3,2 +4,3 @@ def f():\n__new hunk__\n4  a\n5 +c\n6 +d\n__old hunk__\n a\n-b")
unfolding convert splitlines join match_header starts_with lower has_part rstrip is_space print
numbered = refl

selected :
    extract_hunk_lines_from_patch patch (codes "f.py") 5 5 (codes "RIGHT") true
    ≡ (codes "\n\n## File: 'f.py'\n\n\n@@ -3,2 +4,3 @@ def f():\n a\n-b\n+c\n+d", codes "-b\n+c")
unfolding extract_hunk_lines_from_patch splitlines join match_header starts_with lower has_part
    strip is_space
selected = refl

abbrev two_hunks : List Text
two_hunks = deletion_only ++ header ∷ body

one_deleted : kept_lines deletion_only ≡ []
unfolding kept_lines starts_with match_header
one_deleted = refl

has_header : any_of is_header (deletion_only ++ header ∷ []) ≡ true
unfolding starts_with match_header
has_header = refl

no_headers : All (λ line. starts_with (codes "@@") line ≡ false) body
unfolding starts_with
no_headers = (refl, (refl, (refl, (refl, tt))))

kept_lines-all_example :
    kept_lines ((deletion_only ++ header ∷ []) ++ body)
    ≡ relevant ((deletion_only ++ header ∷ []) ++ body)
kept_lines-all_example =
    kept_lines-all (deletion_only ++ header ∷ []) body has_header no_headers refl

has_header_first : any_of is_header (header ∷ body ++ deletion_only) ≡ true
unfolding starts_with match_header
has_header_first = refl

kept_lines-split_example :
    (dropped : List Text) × (kept_lines (header ∷ body ++ deletion_only) ++ dropped
      ≡ relevant (header ∷ body ++ deletion_only))
    × NoPlus dropped
    × AtHeader (kept_lines (header ∷ body ++ deletion_only)) dropped
kept_lines-split_example = kept_lines-split (header ∷ body ++ deletion_only) has_header_first

abbrev hunk : Hunk
hunk = record { header = header; groups = groups; body = body }

hunk_lines : All IsBody body
unfolding starts_with lower has_part
hunk_lines = (
  record { filled = refl; inside = refl; content = refl },
  (
    record { filled = refl; inside = refl; content = refl },
    (
      record { filled = refl; inside = refl; content = refl },
      (record { filled = refl; inside = refl; content = refl }, tt),
    ),
  ),
)

is_hunk : IsHunk hunk
unfolding lower has_part starts_with
is_hunk = record { matches = header_matches; content = refl; has_lines = refl; lines = hunk_lines }

ends_new : EndsNew hunk (hunk ∷ [])
unfolding starts_with
ends_new = refl

each_IsLine : All IsLine (lines_of (hunk ∷ hunk ∷ []))
unfolding is_line_end
each_IsLine = (refl, (refl, (refl, (refl, (refl, (refl, (refl, (refl, (refl, (refl, tt))))))))))

convert-join_example :
    convert [] (join (newline ∷ []) (lines_of (hunk ∷ hunk ∷ [])))
    ≡ some (rstrip (render [] (hunk ∷ hunk ∷ [])))
convert-join_example =
    convert-join [] hunk (hunk ∷ []) is_hunk (is_hunk, tt) ends_new each_IsLine refl

rows : All IsRow body
unfolding starts_with lower has_part
rows = (
  record { inside = refl; content = refl },
  (
    record { inside = refl; content = refl },
    (record { inside = refl; content = refl }, (record { inside = refl; content = refl }, tt)),
  ),
)

header_content : no_newline header ≡ false
unfolding starts_with lower has_part
header_content = refl

hunk-each_IsLine : All IsLine (header ∷ body)
unfolding is_line_end
hunk-each_IsLine = (refl, (refl, (refl, (refl, (refl, tt)))))

right_side : is_right (codes "RIGHT") ≡ true
unfolding lower
right_side = refl

left_side : is_left (codes "left") ≡ true
unfolding lower
left_side = refl

extract-right_example :
    (chosen : List Text) × ((extract_hunk_lines_from_patch patch
        (codes "f.py")
        5
        5
        (codes "RIGHT")
        false).1
      ≡ end_lines chosen)
    × (new_rows chosen ≡ window 5 5 4 (new_rows body))
extract-right_example =
    extract-right (codes "RIGHT") 5 5 right_side header groups body (codes "f.py") header_matches
      header_content rows hunk-each_IsLine refl (omega arith) (omega arith)

extract-left_example :
    extract_hunk_lines_from_patch patch (codes "f.py") 3 4 (codes "left") true
    ≡ extract_hunk_lines_from_patch patch (codes "f.py") 4 4 (codes "left") true
extract-left_example =
    extract-left (codes "left") 3 4 4 left_side header groups body (codes "f.py") true
      header_matches rows hunk-each_IsLine refl (omega arith) (omega arith) (omega arith)
      (omega arith)
