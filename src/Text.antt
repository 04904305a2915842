-- ===== src/Text.antt =====
-- Python's `str` as the list of its code points, and the methods of `str` that the program calls.
pub mod Lines
pub mod Numbers
pub mod Patterns
use Prim.Native.Char.{code}
use Prim.Native.String.{String}
use my_pr_agent.Prelude.{
  ℕ, ◌+◌, ◌≡◌, refl, Bool, true, false, not, ◌&&◌, ◌||◌, List, [], ◌∷◌, ◌++◌, leb, nat_eq, list_eq,
  ◌==◌, if◌then◌else◌, map, any_of,
}

abbrev pub Text : Type 0
Text = List ℕ

abbrev pub codes : String → Text
codes String.[] = []
codes (String.◌∷◌ c s) = code c ∷ codes s

abbrev pub newline : ℕ
newline = 10

-- `not s`
abbrev pub is_empty {ℓ} : {A : Type ℓ} → List A → Bool
is_empty [] = true
is_empty (c ∷ s) = false

-- `str.isspace` of one character.
unfoldable pub is_space : ℕ → Bool
is_space c =
    (leb 9 c && leb c 13)
    || (leb 28 c && leb c 32)
    || c == 0x85
    || c == 0xa0
    || c == 0x1680
    || (leb 0x2000 c && leb c 0x200a)
    || c == 0x2028
    || c == 0x2029
    || c == 0x202f
    || c == 0x205f
    || c == 0x3000

unfoldable pub lstrip : Text → Text
lstrip [] = []
lstrip (c ∷ s) = elim (is_space c) [ true ↦ lstrip s | false ↦ c ∷ s ]

unfoldable pub rstrip : Text → Text
rstrip [] = []
rstrip (c ∷ s) = let rest = rstrip s in if is_empty rest && is_space c then [] else c ∷ rest

unfoldable pub strip : Text → Text
unfolding lstrip rstrip is_space
strip s = rstrip (lstrip s)

unfoldable pub starts_with : Text → Text → Bool
starts_with [] s = true
starts_with (p ∷ ps) [] = false
starts_with (p ∷ ps) (c ∷ s) = c == p && starts_with ps s

-- `s.endswith(p)`
unfoldable pub ends_with : Text → Text → Bool
ends_with p [] = is_empty p
ends_with p (c ∷ s) = (c ∷ s) == p || ends_with p s

-- `p in s`
unfoldable pub has_part : Text → Text → Bool
unfolding starts_with
has_part p [] = is_empty p
has_part p (c ∷ s) = starts_with p (c ∷ s) || has_part p s

-- `str.lower` on the characters that give ASCII letters: A to Z, the sign for kelvin, and the dotted
-- capital I, which leaves a mark behind its i. The program looks for ASCII words in the result, or
-- compares two results, so that the letters of other scripts stand for themselves.
unfoldable pub lower : Text → Text
lower [] = []
lower (c ∷ s) =
    let rest = lower s in
    if leb b'A' c && leb c b'Z'
    then (c + 32) ∷ rest
    else if c == 0x212a
    then b'k' ∷ rest
    else if c == 0x130
    then b'i' ∷ 0x307 ∷ rest
    else c ∷ rest

-- `sep.join(parts)`
unfoldable pub join : Text → List Text → Text
join sep [] = []
join sep (p ∷ []) = p
join sep (p ∷ q ∷ ps) = p ++ (sep ++ join sep (q ∷ ps))

abbrev pub cons_head : ℕ → List Text → List Text
cons_head c [] = (c ∷ []) ∷ []
cons_head c (line ∷ lines) = (c ∷ line) ∷ lines

-- `s.split(sep)`
unfoldable pub split_char : ℕ → Text → List Text
split_char sep [] = [] ∷ []
split_char sep (c ∷ s) =
    let rest = split_char sep s in if c == sep then [] ∷ rest else cons_head c rest
