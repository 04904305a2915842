-- ===== src/Patch/Selection/Right.antt =====
-- What is selected of a hunk of the new file.
use my_pr_agent.Prelude.{
  ℕ, zero, suc, ◌+◌, ◌-◌, ◌≡◌, ◌≤◌, refl, sym, ◌∙◌, ap, ap₂, true, false, not, ◌&&◌, Bool-cases,
  inl, inr, List, [], ◌∷◌, ◌++◌, some, if◌then◌else◌, leb, All, keep, take, drop, append_assoc,
  append-nil, arith, list_eq, nat_eq, list_beq_iff,
}
use my_pr_agent.Text.{Text, codes, newline, starts_with, lower, join, strip}
use my_pr_agent.Patch.Numbered.{minus, no_newline, end_lines}
use my_pr_agent.Patch.Header.{Groups, match_header, or_zero}
use my_pr_agent.Patch.Numbered.Hunks.{starts-match_header}
use my_pr_agent.Text.Lines.RoundTrip.{IsLine, ends_filled, splitlines-join}
use my_pr_agent.Patch.Selection.{
  Selecting, selecting, select_header, extract_hunk_lines_from_patch, selection, is_left, is_right,
  select_body, select_line, select_lines,
}

-- A line that is neither a header nor a remark about the end of the file.
pub record IsRow (line : Text) : Type 0 where
  pub inside : starts_with (codes "@@") line ≡ false
  pub content : no_newline line ≡ false

-- The rows whose number in the new file, counted from `at`, is in the range. A deleted row has the
-- number of the row behind it.
pub chosen : ℕ → ℕ → ℕ → List Text → List Text
chosen low high at [] = []
chosen low high at (line ∷ lines) =
    let rest = chosen low high (if minus line then at else at + 1) lines in
    if leb low at && leb at high then line ∷ rest else rest

abbrev pub new_rows : List Text → List Text
new_rows = keep (λ line. not (minus line))

-- The items with a number in the range, of items that are numbered from `at`.
abbrev pub window {ℓ} : {A : Type ℓ} → ℕ → ℕ → ℕ → List A → List A
window low high at xs = take (high + 1 - (low - at) - at) (drop (low - at) xs)

take-nil {ℓ} : {A : Type ℓ} (n : ℕ) → ◌≡◌ {A = List A} (take n []) []
take-nil zero = refl
take-nil (suc n) = refl

drop-nil {ℓ} : {A : Type ℓ} (n : ℕ) → ◌≡◌ {A = List A} (drop n []) []
drop-nil zero = refl
drop-nil (suc n) = refl

window-nil {ℓ} : {A : Type ℓ} (low high at : ℕ) → window {A = A} low high at [] ≡ []
window-nil low high at = rw (drop-nil, take-nil)

window-cons {ℓ} :
    {A : Type ℓ} (low high at : ℕ) (x : A) (xs : List A)
    → window low high at (x ∷ xs) ≡ (
        if leb low at && leb at high
        then x ∷ window low high (at + 1) xs
        else window low high (at + 1) xs)
window-cons low high at x xs = elim (Bool-cases (leb low at)) [
  | inl reached ↦
      let zero_skip : low - at ≡ 0 = ground arith in
      let zero_skip' : low - (at + 1) ≡ 0 = ground arith in
      elim (Bool-cases (leb at high)) [
        | inl inside ↦
            let one_more : high + 1 - 0 - at ≡ suc (high + 1 - 0 - (at + 1)) = ground arith in
            rw (reached, inside, zero_skip, zero_skip', one_more) refl
        | inr beyond ↦
            let none_left : high + 1 - 0 - at ≡ 0 = ground arith in
            let none_left' : high + 1 - 0 - (at + 1) ≡ 0 = ground arith in
            rw (reached, beyond, zero_skip, zero_skip', none_left, none_left') refl
      ]
  | inr before ↦
      let skip : low - at ≡ suc (low - (at + 1)) = ground arith in
      let same : high + 1 - suc (low - (at + 1)) - at ≡ high + 1 - (low - (at + 1)) - (at + 1) =
        omega arith in
      rw (before, skip, same) refl
]

-- Of the rows that are not deleted, exactly those with a number in the range are chosen.
chosen-window :
    (low high at : ℕ) (lines : List Text)
    → new_rows (chosen low high at lines) ≡ window low high at (new_rows lines)
unfolding chosen
chosen-window low high at [] = sym (window-nil low high at)
chosen-window low high at (line ∷ lines) = ground (
  arith,
  chosen-window low high at lines,
  chosen-window low high (at + 1) lines,
  window-cons low high at line (new_rows lines),
)

-- One more row in front of those that are chosen.
end_lines-chosen :
    (low high at next : ℕ) (line : Text) (lines : List Text) (selected : Text)
    → next ≡ (if minus line then at else at + 1)
    → (if leb low at && leb at high then selected ++ (line ++ newline ∷ []) else selected)
        ++ end_lines (chosen low high next lines)
      ≡ selected ++ end_lines (chosen low high at (line ∷ lines))
unfolding chosen end_lines
end_lines-chosen low high at next line lines selected e =
    let rest = end_lines (chosen low high next lines) in
    ground (
      arith,
      append_assoc selected (line ++ newline ∷ []) rest,
      append_assoc line (newline ∷ []) rest,
      ap (λ n. chosen low high n lines) e,
    )

module _ (side : Text) (low high : ℕ) (right : is_right side ≡ true) where
  right_not_left : is_left side ≡ false
  right_not_left = ground (
    arith,
    list_beq_iff nat_eq (lower side) (codes "left"),
    list_beq_iff nat_eq (lower side) (codes "right"),
  )

  select_line-row :
      (line : Text) (s : Selecting)
      → IsRow line
      → s.skip_hunk ≡ false
      → select_line side low high line s ≡ some (select_body side low high line s)
  unfolding select_line
  select_line-row line s row shown = ground (arith, row.inside, row.content, shown)

  select_body-right :
      (line : Text) (s : Selecting) (start : ℕ)
      → s.start2 ≡ some start
      → (select_body side low high line s).selected_lines ≡ (
          if leb low (start + s.selected_lines_num) && leb (start + s.selected_lines_num) high
          then s.selected_lines ++ (line ++ newline ∷ [])
          else s.selected_lines)
  unfolding select_body
  select_body-right line s start e = ground (arith, right, right_not_left, e)

  select_body-num :
      (line : Text) (s : Selecting)
      → (select_body side low high line s).selected_lines_num
        ≡ (if minus line then s.selected_lines_num else s.selected_lines_num + 1)
  unfolding select_body
  select_body-num line s = refl

  select_body-rest :
      (line : Text) (s : Selecting)
      → ((select_body side low high line s).start2 ≡ s.start2)
        × ((select_body side low high line s).skip_hunk ≡ s.skip_hunk)
  unfolding select_body
  select_body-rest line s = (refl, refl)

  -- In a hunk that is not skipped the loop selects the chosen rows.
  select_lines-chosen :
      (lines : List Text) (s : Selecting) (start : ℕ)
      → All IsRow lines
      → s.start2 ≡ some start
      → s.skip_hunk ≡ false
      → (s' : Selecting) × (select_lines side low high lines s ≡ some s')
        × (s'.selected_lines
            ≡ s.selected_lines ++ end_lines (chosen low high (start + s.selected_lines_num) lines))
  unfolding select_lines
  select_lines-chosen [] s start _ e shown =
      (s, refl, unfold chosen end_lines in sym (append-nil s.selected_lines))
  select_lines-chosen (line ∷ lines) s start (row, rows) e shown =
      let t = select_body side low high line s in
      let (e', shown') = select_body-rest line s in
      let (s', ran, selected) = select_lines-chosen lines t start rows (e' ∙ e) (shown' ∙ shown) in
      (
        s',
        rw (select_line-row line s row shown, select_lines) ran,
        selected
            ∙ ap (λ sel. sel ++ end_lines (chosen low high (start + t.selected_lines_num) lines))
                (select_body-right line s start e)
            ∙ end_lines-chosen low high (start + s.selected_lines_num)
                (start + t.selected_lines_num) line lines s.selected_lines
                (ground (arith, select_body-num line s)),
      )

  select_line-header :
      (header : Text) (m : Groups) (s : Selecting)
      → match_header header ≡ some m
      → no_newline header ≡ false
      → select_line side low high header s ≡ some (select_header side low header m s)
  unfolding select_line
  select_line-header header m s matches content =
      ground (arith, matches, content, starts-match_header header m matches)

  select_header-right :
      (header : Text) (m : Groups) (s : Selecting)
      → let t = select_header side low header m s in
        (t.skip_hunk ≡ not (leb m.start2 low && leb low (m.start2 + or_zero m.size2)))
        × (t.start2 ≡ some m.start2)
        × (t.selected_lines_num ≡ 0)
        × (t.selected_lines ≡ s.selected_lines)
  unfolding select_header
  select_header-right header m s = ground (arith, right, right_not_left)

  -- The loop on a hunk that holds the first line asked for.
  select_lines-hunk :
      (header : Text) (m : Groups) (body : List Text) (s : Selecting)
      → match_header header ≡ some m
      → no_newline header ≡ false
      → All IsRow body
      → m.start2 ≤ low
      → low ≤ m.start2 + or_zero m.size2
      → (s' : Selecting) × (select_lines side low high (header ∷ body) s ≡ some s')
        × (s'.selected_lines ≡ s.selected_lines ++ end_lines (chosen low high m.start2 body))
  unfolding select_lines
  select_lines-hunk header m body s matches content rows from to =
      let t = select_header side low header m s in
      let (skip, start, num, selected) = select_header-right header m s in
      let shown : t.skip_hunk ≡ false = ground (arith, skip) in
      let (s', ran, result) = select_lines-chosen body t m.start2 rows start shown in
      (
        s',
        rw (select_line-header header m s matches content, select_lines) ran,
        result
            ∙ ap₂ (λ sel at. sel ++ end_lines (chosen low high at body)) selected
                (ground (arith, num)),
      )

  -- Of a hunk of the new file that holds the first line asked for, the rows with a number in the
  -- range are selected: apart from deleted rows, exactly those.
  pub extract-right :
      (header : Text) (m : Groups) (body : List Text) (file_name : Text)
      → match_header header ≡ some m
      → no_newline header ≡ false
      → All IsRow body
      → All IsLine (header ∷ body)
      → ends_filled (header ∷ body) ≡ true
      → m.start2 ≤ low
      → low ≤ m.start2 + or_zero m.size2
      → (rows : List Text) × ((extract_hunk_lines_from_patch
            (join (newline ∷ []) (header ∷ body))
            file_name
            low
            high
            side
            false).1
          ≡ end_lines rows)
        × (new_rows rows ≡ window low high m.start2 (new_rows body))
  unfolding extract_hunk_lines_from_patch
  extract-right header m body file_name matches content rows lines filled from to =
      let out = codes "\n\n## File: '" ++ (strip file_name ++ codes "'\n\n") in
      let (s', ran, result) =
        select_lines-hunk header m body (selecting out) matches content rows from to in
      (
        chosen low high m.start2 body,
        ap (λ r. (selection false r).1)
              (ap (λ ls. select_lines side low high ls (selecting out))
                  (splitlines-join (header ∷ body) lines filled)
                ∙ ran)
            ∙ result,
        chosen-window low high m.start2 body,
      )
