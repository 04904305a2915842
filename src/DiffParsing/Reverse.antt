-- ===== src/DiffParsing/Reverse.antt =====
-- The patch of a file is undone: `reconstruct_base_file` gives the text that the patch was made from.
use my_pr_agent.Prelude.{
  ℕ, ◌+◌, ◌≡◌, refl, ◌∙◌, ap, ap₂, List, [], ◌∷◌, ◌++◌, some, length, get_elem?, take, drop, slice,
  length-append, append_assoc, append-nil, arith, list_eq, nat_eq, list_beq_iff,
}
use my_pr_agent.Text.{Text}
use my_pr_agent.Text.Lines.{splitlines}
use my_pr_agent.DiffParsing.{
  context, insertion, removal, mark, HunkLine, Hunk, PatchedFile, Parser, rstrip_ends, Cursor,
  reverse_line, reverse_lines, reverse_hunk, reverse_hunks, close_text, reconstruct_base_file,
}

-- The lines that a hunk has of the file before and after the change.
abbrev pub base_part : List HunkLine → List Text
base_part [] = []
base_part (line ∷ lines) = elim line.line_type [
  | context ↦ rstrip_ends line.value ∷ base_part lines
  | insertion ↦ base_part lines
  | removal ↦ rstrip_ends line.value ∷ base_part lines
  | mark ↦ base_part lines
]

abbrev pub head_part : List HunkLine → List Text
head_part [] = []
head_part (line ∷ lines) = elim line.line_type [
  | context ↦ rstrip_ends line.value ∷ head_part lines
  | insertion ↦ rstrip_ends line.value ∷ head_part lines
  | removal ↦ head_part lines
  | mark ↦ head_part lines
]

-- A change of a file: lines that stay, then those of a hunk, again and again, then lines that stay.
pub record Section : Type 0 where
  pub before : List Text
  pub body : List HunkLine

abbrev pub base_of : List Section → List Text → List Text
base_of [] end = end
base_of (s ∷ sections) end = s.before ++ (base_part s.body ++ base_of sections end)

abbrev pub head_of : List Section → List Text → List Text
head_of [] end = end
head_of (s ∷ sections) end = s.before ++ (head_part s.body ++ head_of sections end)

-- The hunks of the change, whose headers count the lines of the new file from 1.
abbrev pub hunks_from : ℕ → List Section → List Hunk
hunks_from passed [] = []
hunks_from passed (s ∷ sections) =
    record { target_start = passed + length s.before + 1; lines = s.body }
    ∷ hunks_from (passed + length s.before + length (head_part s.body)) sections

module _ {ℓ} {A : Type ℓ} where
  get_elem?-append :
      (xs : List A) (y : A) (ys : List A) → get_elem? (xs ++ y ∷ ys) (length xs) ≡ some y
  get_elem?-append [] y ys = refl
  get_elem?-append (x ∷ xs) y ys = get_elem?-append xs y ys

  take-append : (xs ys : List A) → take (length xs) (xs ++ ys) ≡ xs
  take-append [] ys = refl
  take-append (x ∷ xs) ys = ap (λ t. x ∷ t) (take-append xs ys)

  drop-append : (xs ys : List A) → drop (length xs) (xs ++ ys) ≡ ys
  drop-append [] ys = refl
  drop-append (x ∷ xs) ys = drop-append xs ys

abbrev at : List Text → List Text → Cursor
at passed base = record { head_idx = length passed; base_lines = base }

reverse_lines-body :
    (passed rest base : List Text) (body : List HunkLine)
    → reverse_lines (passed ++ (head_part body ++ rest)) body (at passed base)
      ≡ some (at (passed ++ head_part body) (base ++ base_part body))
unfolding reverse_lines reverse_line
reverse_lines-body passed rest base [] = ground (arith, append-nil passed, append-nil base)
reverse_lines-body passed rest base (line ∷ body) =
    let v = rstrip_ends line.value in
    ground (
      arith,
      get_elem?-append passed v (head_part body ++ rest),
      list_beq_iff nat_eq v v,
      length-append passed (v ∷ []),
      append_assoc passed (v ∷ []) (head_part body ++ rest),
      append_assoc passed (v ∷ []) (head_part body),
      append_assoc base (v ∷ []) (base_part body),
      reverse_lines-body (passed ++ v ∷ []) rest (base ++ v ∷ []) body,
      reverse_lines-body (passed ++ v ∷ []) rest base body,
      reverse_lines-body passed rest (base ++ v ∷ []) body,
      reverse_lines-body passed rest base body,
    )

slice-middle :
    (passed before rest : List Text)
    → slice (passed ++ (before ++ rest)) (length passed) (length passed + length before) ≡ before
slice-middle passed before rest =
    ap₂ take (omega arith) (drop-append passed (before ++ rest)) ∙ take-append before rest

reverse_hunk-section :
    (passed rest base : List Text) (s : Section)
    → reverse_hunk
        (passed ++ (s.before ++ (head_part s.body ++ rest)))
        (record { target_start = length passed + length s.before + 1; lines = s.body })
        (at passed base)
      ≡ some
          (at ((passed ++ s.before) ++ head_part s.body) ((base ++ s.before) ++ base_part s.body))
unfolding reverse_hunk
reverse_hunk-section passed rest base s = ground (
  arith,
  slice-middle passed s.before (head_part s.body ++ rest),
  length-append passed s.before,
  length-append passed (s.before ++ (head_part s.body ++ rest)),
  length-append s.before (head_part s.body ++ rest),
  append_assoc passed s.before (head_part s.body ++ rest),
  reverse_lines-body (passed ++ s.before) rest (base ++ s.before) s.body,
)

reverse_hunks-sections :
    (passed end base : List Text) (sections : List Section)
    → (c : Cursor) × (reverse_hunks
          (passed ++ head_of sections end)
          (hunks_from (length passed) sections)
          (at passed base)
        ≡ some c)
      × (c.base_lines ++ drop c.head_idx (passed ++ head_of sections end)
          ≡ base ++ base_of sections end)
unfolding reverse_hunks
reverse_hunks-sections passed end base [] =
    (at passed base, refl, ap (λ t. base ++ t) (drop-append passed end))
reverse_hunks-sections passed end base (s ∷ sections) =
    let rest = head_of sections end in
    let passed' = (passed ++ s.before) ++ head_part s.body in
    let base' = (base ++ s.before) ++ base_part s.body in
    let (c, runs, ends) = reverse_hunks-sections passed' end base' sections in
    let whole =
      append_assoc (passed ++ s.before) (head_part s.body) rest
      ∙ append_assoc passed s.before (head_part s.body ++ rest) in
    (
      c,
      ground (
        arith,
        reverse_hunk-section passed rest base s,
        whole,
        length-append (passed ++ s.before) (head_part s.body),
        length-append passed s.before,
        runs,
      ),
      ground (
        arith,
        whole,
        ends,
        append_assoc (base ++ s.before) (base_part s.body) (base_of sections end),
        append_assoc base s.before (base_part s.body ++ base_of sections end),
      ),
    )

-- If a patch parses to one file whose hunks are those of a change, each with the place where it
-- stands in the new file, then the lines of the old file are reconstructed from the new one: the
-- result is their text, with a newline at the end if the new file ends with one and a line is left.
pub reconstruct_base_file-undoes :
    (parse : Parser) (head_file_str patch_str : Text) (pf : PatchedFile) (sections : List Section)
    (end : List Text)
    → parse patch_str ≡ some (pf ∷ [])
    → pf.hunks ≡ hunks_from 0 sections
    → splitlines head_file_str ≡ head_of sections end
    → reconstruct_base_file parse head_file_str patch_str
      ≡ close_text head_file_str (base_of sections end)
unfolding reconstruct_base_file
reconstruct_base_file-undoes parse head patch pf sections end parsed hunks lines =
    let (c, runs, ends) = reverse_hunks-sections [] end [] sections in
    ground (arith, parsed, hunks, lines, runs, ends)
