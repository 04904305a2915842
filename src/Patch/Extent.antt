-- ===== src/Patch/Extent.antt =====
-- The numbers of the header of an extended hunk: `_calc_context_limits` in `process_patch_lines` of
-- pr_agent/algo/git_patch_processing.py.
use my_pr_agent.Prelude.{ℕ, ◌+◌, ◌-◌, max, ◌∷◌, ◌++◌, ltb, leb, nat_eq, list_eq, if◌then◌else◌}
use my_pr_agent.Text.{Text, codes}
use my_pr_agent.Text.Numbers.{print}
use my_pr_agent.Patch.Header.{HunkHeader}

-- An integer, written as a difference of two natural numbers: a size may fall below 0 where a header
-- does not fit its file.
pub record Difference : Type 0 where
  pub up : ℕ
  pub down : ℕ

abbrev pub exact : ℕ → Difference
exact n = record { up = n; down = 0 }

unfoldable pub print_difference : Difference → Text
unfolding print
print_difference d = if ltb d.up d.down then b'-' ∷ print (d.down - d.up) else print (d.up - d.down)

-- `max(d - cap, size)`
unfoldable pub capped : ℕ → ℕ → Difference → Difference
capped cap size d =
    if leb (size + d.down + cap) d.up then record d { down = d.down + cap } else exact size

-- `extended_start1`, `extended_size1`, `extended_start2`, `extended_size2`, which the header gets.
pub record Extent : Type 0 where
  pub start1 : ℕ
  pub size1 : Difference
  pub start2 : ℕ
  pub size2 : Difference

abbrev pub unextended : HunkHeader → Extent
unextended h = record {
  start1 = h.start1;
  size1 = exact h.size1;
  start2 = h.start2;
  size2 = exact h.size2;
}

abbrev pub extended_start : ℕ → ℕ → ℕ
extended_start start lines_before = max 1 (start - lines_before)

-- `size + (start - extended_start) + patch_extra_lines_after`
abbrev pub extended_size : ℕ → ℕ → ℕ → ℕ → Difference
extended_size start size ext after = record { up = size + start + after; down = ext }

-- `_calc_context_limits`
unfoldable pub calc_context_limits : ℕ → ℕ → HunkHeader → ℕ → Extent
unfolding capped
calc_context_limits len_original_lines after h lines_before =
    let start1 = extended_start h.start1 lines_before in
    let size1 = extended_size h.start1 h.size1 start1 after in
    let start2 = extended_start h.start2 lines_before in
    let size2 = extended_size h.start2 h.size2 start2 after in
    if ltb (len_original_lines + size1.down) (start1 - 1 + size1.up)
    then (let cap = start1 - 1 + size1.up - (len_original_lines + size1.down) in
        record {
          start1 = start1;
          size1 = capped cap h.size1 size1;
          start2 = start2;
          size2 = capped cap h.size2 size2;
        })
    else record { start1 = start1; size1 = size1; start2 = start2; size2 = size2 }

abbrev pub less : ℕ → Difference → Difference
less i d = record d { down = d.down + i }

abbrev pub shifted : ℕ → Extent → Extent
shifted i e = record {
  start1 = e.start1 + i;
  size1 = less i e.size1;
  start2 = e.start2 + i;
  size2 = less i e.size2;
}

-- `f'@@ -{extended_start1},{extended_size1} +{extended_start2},{extended_size2} @@ {section}'`
unfoldable pub header_text : Extent → Text → Text
unfolding print_difference print
header_text e section_header =
    codes "@@ -"
    ++ print e.start1
    ++ b',' ∷ print_difference e.size1
    ++ codes " +"
    ++ print e.start2
    ++ b',' ∷ print_difference e.size2
    ++ codes " @@ "
    ++ section_header
