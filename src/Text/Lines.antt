-- ===== src/Text/Lines.antt =====
-- `str.splitlines`.
pub mod RoundTrip
use my_pr_agent.Prelude.{
  ℕ, Bool, true, false, not, ◌≡◌, refl, ap, append_assoc, concat, arith, ◌&&◌, ◌||◌, List, [], ◌∷◌,
  ◌++◌, leb, nat_eq, ◌==◌, if◌then◌else◌,
}
use my_pr_agent.Text.{Text, codes, is_empty}

-- The characters that end a line for `splitlines`.
unfoldable pub is_line_end : ℕ → Bool
is_line_end c =
    (leb 10 c && leb c 13) || (leb 28 c && leb c 30) || c == 0x85 || c == 0x2028 || c == 0x2029

-- The lines of the text behind the current line `cur`; `cr` tells that a carriage return has just
-- ended a line, so that a newline belongs to it.
unfoldable pub lines_from : Bool → Text → Text → List Text
unfolding is_line_end
lines_from cr cur [] = if is_empty cur then [] else cur ∷ []
lines_from cr cur (c ∷ s) = elim (cr && c == 10) [
  | true ↦ lines_from false cur s
  | false ↦ elim (is_line_end c) [
    | true ↦ cur ∷ lines_from (c == 13) [] s
    | false ↦ lines_from false (cur ++ c ∷ []) s
  ]
]

unfoldable pub splitlines : Text → List Text
unfolding lines_from
splitlines s = lines_from false [] s

-- The same with each line's end kept, for `splitlines(keepends=True)`; a pending `cr` stands at the
-- end of `cur`.
unfoldable pub ended_lines : Bool → Text → Text → List Text
unfolding is_line_end
ended_lines cr cur [] = if is_empty cur then [] else cur ∷ []
ended_lines cr cur (c ∷ s) = elim cr [
  | true ↦ elim (c == 10) [
    | true ↦ (cur ++ c ∷ []) ∷ ended_lines false [] s
    | false ↦ cur ∷ elim (is_line_end c && not (c == 13)) [
      | true ↦ (c ∷ []) ∷ ended_lines false [] s
      | false ↦ ended_lines (c == 13) (c ∷ []) s
    ]
  ]
  | false ↦ elim (is_line_end c && not (c == 13)) [
    | true ↦ (cur ++ c ∷ []) ∷ ended_lines false [] s
    | false ↦ ended_lines (c == 13) (cur ++ c ∷ []) s
  ]
]

unfoldable pub splitlines_keepends : Text → List Text
unfolding ended_lines
splitlines_keepends s = ended_lines false [] s

concat-ended_lines : (cr : Bool) (cur s : Text) → concat (ended_lines cr cur s) ≡ cur ++ s
unfolding ended_lines
concat-ended_lines cr [] [] = refl
concat-ended_lines cr (d ∷ cur) [] = refl
concat-ended_lines cr cur (c ∷ s) = ground (
  arith,
  concat-ended_lines false [] s,
  concat-ended_lines (c == 13) (c ∷ []) s,
  concat-ended_lines (c == 13) (cur ++ c ∷ []) s,
  append_assoc cur (c ∷ []) s,
)

pub concat-splitlines_keepends : (s : Text) → concat (splitlines_keepends s) ≡ s
unfolding splitlines_keepends
concat-splitlines_keepends s = concat-ended_lines false [] s
