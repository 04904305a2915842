-- ===== src/Text/Numbers.antt =====
-- Decimal numbers: what `\d` and `int` read, and what `f"{n}"` writes.
pub mod Printed
use Prim.Native.Nat.{zero, suc}
use my_pr_agent.Prelude.{
  ℕ, ◌+◌, ◌-◌, ◌*◌, ◌/◌, ◌%◌, ◌&&◌, List, [], ◌∷◌, Option, none, some, leb, ltb, nat_eq,
  if◌then◌else◌,
}
use my_pr_agent.Text.{Text}

-- The digits zero of Unicode's decimal systems (category Nd), each followed by its one to nine.
abbrev pub zeros : List ℕ
zeros =
    0x30 ∷ 0x660 ∷ 0x6f0 ∷ 0x7c0 ∷ 0x966 ∷ 0x9e6 ∷ 0xa66 ∷ 0xae6 ∷ 0xb66 ∷ 0xbe6 ∷ 0xc66 ∷ 0xce6
    ∷ 0xd66 ∷ 0xde6 ∷ 0xe50 ∷ 0xed0 ∷ 0xf20 ∷ 0x1040 ∷ 0x1090 ∷ 0x17e0 ∷ 0x1810 ∷ 0x1946 ∷ 0x19d0
    ∷ 0x1a80 ∷ 0x1a90 ∷ 0x1b50 ∷ 0x1bb0 ∷ 0x1c40 ∷ 0x1c50 ∷ 0xa620 ∷ 0xa8d0 ∷ 0xa900 ∷ 0xa9d0
    ∷ 0xa9f0 ∷ 0xaa50 ∷ 0xabf0 ∷ 0xff10 ∷ 0x104a0 ∷ 0x10d30 ∷ 0x11066 ∷ 0x110f0 ∷ 0x11136 ∷ 0x111d0
    ∷ 0x112f0 ∷ 0x11450 ∷ 0x114d0 ∷ 0x11650 ∷ 0x116c0 ∷ 0x11730 ∷ 0x118e0 ∷ 0x11950 ∷ 0x11c50
    ∷ 0x11d50 ∷ 0x11da0 ∷ 0x16a60 ∷ 0x16ac0 ∷ 0x16b50 ∷ 0x1d7ce ∷ 0x1d7d8 ∷ 0x1d7e2 ∷ 0x1d7ec
    ∷ 0x1d7f6 ∷ 0x1e140 ∷ 0x1e2f0 ∷ 0x1e950 ∷ 0x1fbf0 ∷ []

unfoldable pub digit_in : List ℕ → ℕ → Option ℕ
digit_in [] c = none
digit_in (z ∷ zs) c =
    let rest = digit_in zs c in if leb z c && leb c (z + 9) then some (c - z) else rest

-- The value of a decimal digit.
unfoldable pub digit : ℕ → Option ℕ
unfolding digit_in
digit c = digit_in zeros c

-- `\d*` at the front of a text, as a number behind the digits `n`; what is left.
unfoldable pub digits_from : ℕ → Text → ℕ × Text
unfolding digit
digits_from n [] = (n, [])
digits_from n (c ∷ s) = elim (digit c) [ none ↦ (n, c ∷ s) | some d ↦ digits_from (n * 10 + d) s ]

-- `(\d+)` and `int`: one digit or more.
unfoldable pub number : Text → Option (ℕ × Text)
unfolding digits_from
number [] = none
number (c ∷ s) = elim (digit c) [ none ↦ none | some d ↦ some (digits_from d s) ]

-- The decimal print, on fuel: a number has fewer digits than its value plus one.
unfoldable pub print_from : ℕ → ℕ → Text → Text
print_from zero n out = out
print_from (suc fuel) n out =
    let out' = (b'0' + n % 10) ∷ out in
    let rest = print_from fuel (n / 10) out' in if ltb n 10 then out' else rest

unfoldable pub print : ℕ → Text
unfolding print_from
print n = print_from (n + 1) n []
