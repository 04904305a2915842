-- ===== src/Patch/Numbered/Hunks.antt =====
-- The conversion of a patch, hunk by hunk.
use my_pr_agent.Prelude.{
  ◌≡◌, refl, ap, sym, ◌∙◌, Bool, true, false, not, ◌&&◌, List, [], ◌∷◌, ◌++◌, some, All, keep,
  keep-append, append_assoc, append-nil, arith,
}
use my_pr_agent.Text.{Text, codes, newline, is_empty, starts_with, rstrip, join}
use my_pr_agent.Text.Lines.RoundTrip.{IsLine, ends_filled, splitlines-join}
use my_pr_agent.Patch.Header.{Groups, match_header}
use my_pr_agent.Patch.Numbered.{
  plus, minus, no_newline, write_sides, write_header, Converting, converting, convert_header,
  convert_line, convert_lines, is_skipped, finish, convert,
}

pub record Hunk : Type 0 where
  pub header : Text
  pub groups : Groups
  pub body : List Text

-- A body line that is not empty, opens no hunk and is no remark about the end of the file.
pub record IsBody (line : Text) : Type 0 where
  pub filled : is_empty line ≡ false
  pub inside : starts_with (codes "@@") line ≡ false
  pub content : no_newline line ≡ false

pub record IsHunk (h : Hunk) : Type 0 where
  pub matches : match_header h.header ≡ some h.groups
  pub content : no_newline h.header ≡ false
  pub has_lines : is_empty h.body ≡ false
  pub lines : All IsBody h.body

abbrev pub new_side : List Text → List Text
new_side = keep (λ line. not (minus line))

abbrev pub old_side : List Text → List Text
old_side = keep (λ line. not (plus line))

abbrev pub lines_of : List Hunk → List Text
lines_of [] = []
lines_of (h ∷ hs) = h.header ∷ (h.body ++ lines_of hs)

-- What one hunk adds to the output.
abbrev pub shown : Hunk → Text → Text
shown h out =
    write_sides (some h.groups.start2) (new_side h.body) (old_side h.body)
      (write_header h.header out)

abbrev pub render : Text → List Hunk → Text
render out [] = out
render out (h ∷ hs) = render (shown h out) hs

pub starts-match_header :
    (line : Text) (m : Groups) → match_header line ≡ some m → starts_with (codes "@@") line ≡ true
unfolding match_header starts_with
starts-match_header [] m h = cc
starts-match_header (c ∷ []) m h = ground arith
starts-match_header (c ∷ c' ∷ s) m h = ground arith

plus_not_minus : (line : Text) → plus line ≡ true → minus line ≡ false
unfolding starts_with
plus_not_minus [] e = cc
plus_not_minus (c ∷ s) e = ground arith

-- The state after body lines that are put behind those of the current hunk.
abbrev extended : List Text → Converting → Converting
extended body s = record s {
  new_content_lines = s.new_content_lines ++ new_side body;
  old_content_lines = s.old_content_lines ++ old_side body;
}

is_skipped_filled :
    (first : Bool) (line : Text) (lines : List Text)
    → is_empty line ≡ false
    → is_skipped first line lines ≡ false
is_skipped_filled first line [] e = ground arith
is_skipped_filled first line (next ∷ lines) e = ground arith

convert_line-body :
    (line : Text) (lines : List Text) (s : Converting)
    → IsBody line
    → convert_line false line lines s ≡ some (extended (line ∷ []) s)
unfolding convert_line
convert_line-body line lines s h = ground (
  arith,
  h.filled,
  h.inside,
  h.content,
  plus_not_minus line,
  is_skipped_filled false line lines,
  append-nil s.new_content_lines,
  append-nil s.old_content_lines,
)

extended-append :
    (xs ys : List Text) (s : Converting) → extended (xs ++ ys) s ≡ extended ys (extended xs s)
extended-append xs ys s = ground (
  arith,
  keep-append (λ line. not (minus line)) xs ys,
  keep-append (λ line. not (plus line)) xs ys,
  append_assoc s.new_content_lines (new_side xs) (new_side ys),
  append_assoc s.old_content_lines (old_side xs) (old_side ys),
)

convert_lines-body :
    (body rest : List Text) (s : Converting)
    → All IsBody body
    → convert_lines false (body ++ rest) s ≡ convert_lines false rest (extended body s)
unfolding convert_lines
convert_lines-body [] rest s _ =
    ground (arith, append-nil s.new_content_lines, append-nil s.old_content_lines)
convert_lines-body (line ∷ body) rest s (h, hs) =
    rw (convert_line-body line (body ++ rest) s h, convert_lines)
      (convert_lines-body body rest (extended (line ∷ []) s) hs
        ∙ ap (convert_lines false rest) (sym (extended-append (line ∷ []) body s)))

-- The state inside the hunk `h`, whose lines are all read, with `out` written before it.
abbrev within : Text → Hunk → Converting
within out h = record {
  patch_with_lines = out;
  new_content_lines = new_side h.body;
  old_content_lines = old_side h.body;
  matched = true;
  start2 = some h.groups.start2;
  prev_header_line = h.header;
  header_line = h.header;
}

no_side_empty :
    (body : List Text)
    → is_empty body ≡ false
    → (is_empty (new_side body) && is_empty (old_side body)) ≡ false
no_side_empty [] e = cc
no_side_empty (line ∷ body) e = ground (arith, plus_not_minus line)

convert_line-header :
    (first : Bool) (lines : List Text) (h : Hunk) (s : Converting)
    → IsHunk h
    → convert_line first h.header lines s ≡ convert_header h.header s
unfolding convert_line
convert_line-header first lines h s is_hunk =
    ground (arith, is_hunk.content, starts-match_header h.header h.groups is_hunk.matches)

filled-starts : (line : Text) → starts_with (codes "@@") line ≡ true → is_empty line ≡ false
unfolding starts_with
filled-starts [] e = cc
filled-starts (c ∷ s) e = refl

header-ne-nil : (h : Hunk) → IsHunk h → is_empty h.header ≡ false
header-ne-nil h is_hunk =
    filled-starts h.header (starts-match_header h.header h.groups is_hunk.matches)

-- From a state that has nothing to flush, and from one inside a hunk.
convert_header-first :
    (out : Text) (h : Hunk)
    → IsHunk h
    → convert_header h.header (converting out)
      ≡ some (record (within out h) { new_content_lines = []; old_content_lines = [] })
unfolding convert_header
convert_header-first out h is_hunk = ground (arith, is_hunk.matches)

convert_header-next :
    (out : Text) (g h : Hunk)
    → IsHunk g
    → IsHunk h
    → convert_header h.header (within out g)
      ≡ some (record (within (shown g out) h) { new_content_lines = []; old_content_lines = [] })
unfolding convert_header
convert_header-next out g h is_g is_h =
    ground (arith, is_h.matches, no_side_empty g.body is_g.has_lines, header-ne-nil g is_g)

-- The state at the end of a patch.
abbrev last_state : Text → Hunk → List Hunk → Converting
last_state out g [] = within out g
last_state out g (h ∷ hs) = last_state (shown g out) h hs

convert_lines-within :
    (out : Text) (g : Hunk) (hs : List Hunk)
    → IsHunk g
    → All IsHunk hs
    → convert_lines false (lines_of hs) (within out g) ≡ some (last_state out g hs)
unfolding convert_lines
convert_lines-within out g [] is_g _ = refl
convert_lines-within out g (h ∷ hs) is_g (is_h, are_hs) =
    rw
      (
        convert_line-header false (h.body ++ lines_of hs) h (within out g) is_h,
        convert_header-next out g h is_g is_h,
        convert_lines,
      )
      (convert_lines-body h.body (lines_of hs) _ is_h.lines
        ∙ convert_lines-within (shown g out) h hs is_h are_hs)

-- The last hunk has a line of the new file.
abbrev pub EndsNew : Hunk → List Hunk → Type 0
EndsNew g [] = is_empty (new_side g.body) ≡ false
EndsNew g (h ∷ hs) = EndsNew h hs

finish-last_state :
    (out : Text) (g : Hunk) (hs : List Hunk)
    → EndsNew g hs
    → finish (last_state out g hs) ≡ rstrip (render out (g ∷ hs))
unfolding finish
finish-last_state out g [] e = ground (arith, e)
finish-last_state out g (h ∷ hs) e = finish-last_state (shown g out) h hs e

convert_lines-lines_of :
    (out : Text) (g : Hunk) (hs : List Hunk)
    → IsHunk g
    → All IsHunk hs
    → convert_lines true (lines_of (g ∷ hs)) (converting out) ≡ some (last_state out g hs)
unfolding convert_lines
convert_lines-lines_of out g hs is_g are_hs =
    rw
      (
        convert_line-header true (g.body ++ lines_of hs) g (converting out) is_g,
        convert_header-first out g is_g,
        convert_lines,
      )
      (convert_lines-body g.body (lines_of hs) _ is_g.lines
        ∙ convert_lines-within out g hs is_g are_hs)

-- A patch text of hunks is converted hunk by hunk: each is shown by its header, its lines of the new
-- file with the numbers that count from the header's start, and, if it deletes lines, its lines of
-- the old file. This asks of each hunk a header that matches and some lines, none of them empty,
-- beginning with @@ or about a missing newline, of the last
-- hunk a line of the new file, and of the text that its lines are joined by newlines.
pub convert-join :
    (out : Text) (g : Hunk) (hs : List Hunk)
    → IsHunk g
    → All IsHunk hs
    → EndsNew g hs
    → All IsLine (lines_of (g ∷ hs))
    → ends_filled (lines_of (g ∷ hs)) ≡ true
    → convert out (join (newline ∷ []) (lines_of (g ∷ hs))) ≡ some (rstrip (render out (g ∷ hs)))
unfolding convert
convert-join out g hs is_g are_hs ends lines filled =
    rw
      (
        splitlines-join (lines_of (g ∷ hs)) lines filled,
        convert_lines-lines_of out g hs is_g are_hs,
        convert,
      )
      (ap some (finish-last_state out g hs ends))
