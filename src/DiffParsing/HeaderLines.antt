-- ===== src/DiffParsing/HeaderLines.antt =====
-- The lines that `to_hunk_only_patch` drops.
use my_pr_agent.Prelude.{
  ◌≡◌, refl, ap, inl, inr, Bool-cases, true, false, List, [], ◌∷◌, ◌++◌, concat, All, arith,
  append_assoc,
}
use my_pr_agent.Text.{Text, codes, starts_with}
use my_pr_agent.Text.Lines.{splitlines_keepends, concat-splitlines_keepends}
use my_pr_agent.DiffParsing.{from_header, to_hunk_only_patch}

abbrev pub NoHeader : Text → Type 0
NoHeader line = starts_with (codes "@@") line ≡ false

abbrev pub BeginsAtHeader : List Text → Type 0
BeginsAtHeader [] = Unit
BeginsAtHeader (line ∷ lines) = starts_with (codes "@@") line ≡ true

-- The lines fall in two: those dropped, none of which begins with @@, and those shown, the first of
-- which does.
pub record IsCut (lines : List Text) (hunks : Text) : Type 0 where
  pub dropped : List Text
  pub shown : List Text
  pub parts : lines ≡ dropped ++ shown
  pub no_header : All NoHeader dropped
  pub header : BeginsAtHeader shown
  pub content : hunks ≡ concat shown

from_header-IsCut : (lines : List Text) → IsCut lines (from_header lines)
unfolding from_header
from_header-IsCut [] = record {
  dropped = [];
  shown = [];
  parts = refl;
  no_header = tt;
  header = tt;
  content = refl;
}
from_header-IsCut (line ∷ lines) = elim (Bool-cases (starts_with (codes "@@") line)) [
  | inl starts ↦ record {
    dropped = [];
    shown = line ∷ lines;
    parts = refl;
    no_header = tt;
    header = starts;
    content = rw (starts, from_header) refl;
  }
  | inr other ↦
      let cut = from_header-IsCut lines in
      record {
        dropped = line ∷ cut.dropped;
        shown = cut.shown;
        parts = ap (λ t. line ∷ t) cut.parts;
        no_header = (other, cut.no_header);
        header = cut.header;
        content = rw (other, from_header) cut.content;
      }
]

concat-append : (xs ys : List Text) → concat (xs ++ ys) ≡ concat xs ++ concat ys
concat-append [] ys = refl
concat-append (x ∷ xs) ys =
    ground (arith, concat-append xs ys, append_assoc x (concat xs) (concat ys))

-- A patch is a front part of whole lines of which none begins with @@, and then the result of
-- `to_hunk_only_patch`, whose first line does if there is one.
to_hunk_only_patch-IsCut :
    (patch : Text)
    → (cut : IsCut (splitlines_keepends patch) (to_hunk_only_patch patch)) × (patch
        ≡ concat cut.dropped ++ to_hunk_only_patch patch)
unfolding to_hunk_only_patch
to_hunk_only_patch-IsCut patch =
    let cut = from_header-IsCut (splitlines_keepends patch) in
    (
      cut,
      ground (
        arith,
        concat-splitlines_keepends patch,
        cut.parts,
        cut.content,
        concat-append cut.dropped cut.shown,
      ),
    )
