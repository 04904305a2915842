-- ===== src/Patch/Selection/Left.antt =====
-- What is selected of a hunk of the old file: the first line asked for is not read there.
use my_pr_agent.Prelude.{
  ℕ, ◌+◌, ◌≡◌, ◌≤◌, refl, Bool, true, false, List, [], ◌∷◌, ◌++◌, some, All, arith, list_eq, nat_eq,
  list_beq_iff, ◌∙◌, ap, ap₂, sym, ◌>>=◌, fun_ext,
}
use my_pr_agent.Text.{Text, codes, newline, lower, join, strip}
use my_pr_agent.Text.Lines.RoundTrip.{IsLine, ends_filled, splitlines-join}
use my_pr_agent.Patch.Header.{Groups, match_header, or_zero}
use my_pr_agent.Patch.Numbered.Hunks.{starts-match_header}
use my_pr_agent.Patch.Selection.{
  Selecting, selecting, is_left, is_right, select_header, select_line, select_lines,
  extract_hunk_lines_from_patch, misses, selection,
}
use my_pr_agent.Patch.Selection.Right.{IsRow}

module _ (side : Text) (low low' high : ℕ) (left : is_left side ≡ true) where
  left_not_right : is_right side ≡ false
  left_not_right = ground (
    arith,
    list_beq_iff nat_eq (lower side) (codes "left"),
    list_beq_iff nat_eq (lower side) (codes "right"),
  )

  select_line-row :
      (line : Text) (s : Selecting)
      → IsRow line
      → select_line side low high line s ≡ select_line side low' high line s
  unfolding select_line
  select_line-row line s row = ground (arith, row.inside, row.content, left, left_not_right)

  select_lines-rows :
      (lines : List Text) (s : Selecting)
      → All IsRow lines
      → select_lines side low high lines s ≡ select_lines side low' high lines s
  unfolding select_lines
  select_lines-rows [] s _ = refl
  select_lines-rows (line ∷ lines) s (row, rows) =
      ap₂ (λ m f. m >>= f) (select_line-row line s row)
        (fun_ext λ s'. select_lines-rows lines s' rows)

  select_line-header :
      (header : Text) (m : Groups) (s : Selecting)
      → match_header header ≡ some m
      → m.start1 ≤ low
      → low ≤ m.start1 + or_zero m.size1
      → m.start1 ≤ low'
      → low' ≤ m.start1 + or_zero m.size1
      → select_line side low high header s ≡ select_line side low' high header s
  unfolding select_line select_header misses
  select_line-header header m s matches from to from' to' =
      ground (arith, matches, starts-match_header header m matches, left)

  -- Of a hunk of the old file, any two first lines that the hunk holds give the same selection.
  pub extract-left :
      (header : Text) (m : Groups) (body : List Text) (file_name : Text) (remove : Bool)
      → match_header header ≡ some m
      → All IsRow body
      → All IsLine (header ∷ body)
      → ends_filled (header ∷ body) ≡ true
      → m.start1 ≤ low
      → low ≤ m.start1 + or_zero m.size1
      → m.start1 ≤ low'
      → low' ≤ m.start1 + or_zero m.size1
      → extract_hunk_lines_from_patch
          (join (newline ∷ []) (header ∷ body))
          file_name
          low
          high
          side
          remove
        ≡ extract_hunk_lines_from_patch
            (join (newline ∷ []) (header ∷ body))
            file_name
            low'
            high
            side
            remove
  unfolding extract_hunk_lines_from_patch select_lines
  extract-left header m body file_name remove matches rows lines filled from to from' to' =
      let split = splitlines-join (header ∷ body) lines filled in
      let out = codes "\n\n## File: '" ++ (strip file_name ++ codes "'\n\n") in
      let run = λ (ls : List Text) (l : ℕ).
        selection remove (select_lines side l high ls (selecting out)) in
      ap (λ ls. run ls low) split
      ∙ ap (selection remove) (
          ap₂ (λ m' f. m' >>= f)
            (select_line-header header m (selecting out) matches from to from' to')
            (fun_ext λ s'. select_lines-rows body s' rows))
      ∙ ap (λ ls. run ls low') (sym split)
