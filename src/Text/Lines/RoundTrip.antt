-- ===== src/Text/Lines/RoundTrip.antt =====
-- Lines that are joined by newlines are split again.
use my_pr_agent.Prelude.{
  ◌≡◌, refl, sym, ◌∙◌, ap, Bool, true, false, not, List, [], ◌∷◌, ◌++◌, All, any_of, append_assoc,
  append-nil, arith,
}
use my_pr_agent.Text.{Text, newline, is_empty, join}
use my_pr_agent.Text.Lines.{is_line_end, lines_from, splitlines}

-- Text that holds no end of a line.
abbrev pub IsLine : Text → Type 0
IsLine line = any_of is_line_end line ≡ false

-- The last line, if there is one, is not empty.
abbrev pub ends_filled : List Text → Bool
ends_filled [] = true
ends_filled (p ∷ []) = not (is_empty p)
ends_filled (p ∷ q ∷ ps) = ends_filled (q ∷ ps)

lines_from-line :
    (line rest cur : Text)
    → IsLine line
    → lines_from false cur (line ++ rest) ≡ lines_from false (cur ++ line) rest
unfolding lines_from
lines_from-line [] rest cur h = ap (λ t. lines_from false t rest) (sym (append-nil cur))
lines_from-line (c ∷ line) rest cur h =
    ground (arith, lines_from-line line rest (cur ++ c ∷ []), append_assoc cur (c ∷ []) line)

lines_from-newline :
    (rest cur : Text) → lines_from false cur (newline ∷ rest) ≡ cur ∷ lines_from false [] rest
unfolding lines_from
lines_from-newline rest cur = refl

lines_from-nil : (line : Text) → is_empty line ≡ false → lines_from false line [] ≡ line ∷ []
unfolding lines_from
lines_from-nil line h = ground arith

-- `splitlines` undoes `"\n".join` on lines without line ends of which the last is not empty.
pub splitlines-join :
    (lines : List Text)
    → All IsLine lines
    → ends_filled lines ≡ true
    → splitlines (join (newline ∷ []) lines) ≡ lines
unfolding splitlines join
splitlines-join [] _ _ = refl
splitlines-join (p ∷ []) (hp, _) filled =
    ap (lines_from false []) (sym (append-nil p))
    ∙ lines_from-line p [] [] hp
    ∙ lines_from-nil p (ground arith)
splitlines-join (p ∷ q ∷ ps) (hp, hps) filled =
    lines_from-line p (newline ∷ join (newline ∷ []) (q ∷ ps)) [] hp
    ∙ lines_from-newline (join (newline ∷ []) (q ∷ ps)) p
    ∙ ap (λ t. p ∷ t) (splitlines-join (q ∷ ps) hps filled)
