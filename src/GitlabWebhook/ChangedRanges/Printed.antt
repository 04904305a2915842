-- ===== src/GitlabWebhook/ChangedRanges/Printed.antt =====
-- The hunks of a diff as they are written, and the lines of the new file that they change.
use my_pr_agent.Prelude.{
  ℕ, ◌+◌, ◌≡◌, refl, ◌∙◌, ap, subst, true, false, Option, none, some, List, [], ◌∷◌, ◌++◌, map,
  nat_eq, All,
}
use my_pr_agent.Text.{Text, codes, starts_with}
use my_pr_agent.Text.Lines.{splitlines}
use my_pr_agent.Text.Numbers.{digit_in, digit, number, print}
use my_pr_agent.Text.Numbers.Printed.{number-print}
use my_pr_agent.Patch.Header.{after, optional_count}
use my_pr_agent.GitlabWebhook.ChangedRanges.{hunk_start, changed_new_line_ranges}
use my_pr_agent.GitlabWebhook.ChangedRanges.Covered.{
  following_number, changed_line, changed, is_covered, read-covered,
}

pub data DiffLine : Type 0 where
  context added removed : Text → DiffLine

pub record DiffHunk : Type 0 where
  pub start1 : ℕ
  pub size1 : Option ℕ
  pub start2 : ℕ
  pub size2 : Option ℕ
  pub section : Text
  pub lines : List DiffLine

abbrev pub printed_line : DiffLine → Text
printed_line (context t) = b' ' ∷ t
printed_line (added t) = b'+' ∷ t
printed_line (removed t) = b'-' ∷ t

-- A count of 1 may be left out.
abbrev pub printed_count : Option ℕ → Text
printed_count none = []
printed_count (some n) = b',' ∷ print n

unfoldable pub printed_header : DiffHunk → Text
unfolding print
printed_header h =
    codes "@@ -"
    ++ (print h.start1
        ++ (printed_count h.size1
            ++ (codes " +"
                ++ (print h.start2 ++ (printed_count h.size2 ++ (codes " @@" ++ h.section))))))

unfoldable pub printed_hunks : List DiffHunk → List Text
unfolding printed_header
printed_hunks [] = []
printed_hunks (h ∷ hunks) = printed_header h ∷ (map printed_line h.lines ++ printed_hunks hunks)

-- The numbers of the changed lines, where the next line of the new file has number `n`: that of an
-- added line, and for a removed one that of the line which takes its place.
abbrev pub changed_numbers : ℕ → List DiffLine → List ℕ
changed_numbers n [] = []
changed_numbers n (context t ∷ lines) = changed_numbers (n + 1) lines
changed_numbers n (added t ∷ lines) = n ∷ changed_numbers (n + 1) lines
changed_numbers n (removed t ∷ lines) = n ∷ changed_numbers n lines

abbrev pub hunks_changed : List DiffHunk → List ℕ
hunks_changed [] = []
hunks_changed (h ∷ hunks) = changed_numbers h.start2 h.lines ++ hunks_changed hunks

-- No line that is added begins with ++, and none that is removed with --.
abbrev pub IsPlain : DiffLine → Type 0
IsPlain (context t) = Unit
IsPlain (added t) = starts_with (codes "++") t ≡ false
IsPlain (removed t) = starts_with (codes "--") t ≡ false

abbrev pub HasPlainLines : DiffHunk → Type 0
HasPlainLines h = All IsPlain h.lines

space_other : digit b' ' ≡ none
unfolding digit digit_in
space_other = refl

comma_other : digit b',' ≡ none
unfolding digit digit_in
comma_other = refl

number-counted :
    (n : ℕ) (count : Option ℕ) (s : Text)
    → number (print n ++ (printed_count count ++ b' ' ∷ s))
      ≡ some (n, printed_count count ++ b' ' ∷ s)
number-counted n none s = number-print n b' ' s space_other
number-counted n (some m) s = number-print n b',' (print m ++ b' ' ∷ s) comma_other

optional_count-printed :
    (count : Option ℕ) (s : Text)
    → optional_count (printed_count count ++ b' ' ∷ s) ≡ (count, b' ' ∷ s)
unfolding optional_count
optional_count-printed none s = refl
optional_count-printed (some m) s = rw (number-print m b' ' s space_other) refl

hunk_start-printed : (h : DiffHunk) → hunk_start (printed_header h) ≡ some h.start2
unfolding hunk_start printed_header after
hunk_start-printed h =
    let last = b'@' ∷ b'@' ∷ h.section in
    let new = b'+' ∷ (print h.start2 ++ (printed_count h.size2 ++ b' ' ∷ last)) in
    rw
      (
        number-counted h.start1 h.size1 new,
        optional_count-printed h.size1 new,
        number-counted h.start2 h.size2 last,
        optional_count-printed h.size2 last,
      )
      refl

-- Behind the lines of a hunk the loop has counted some number, and found the changed ones.
lines-changed :
    (n : ℕ) (lines : List DiffLine) (rest : List Text)
    → All IsPlain lines
    → (m : ℕ) × (changed (some n) (map printed_line lines ++ rest)
        ≡ changed_numbers n lines ++ changed (some m) rest)
unfolding changed following_number changed_line hunk_start after starts_with
lines-changed n [] rest plain = (n, refl)
lines-changed n (context t ∷ lines) rest (plain, others) = lines-changed (n + 1) lines rest others
lines-changed n (added t ∷ lines) rest (plain, others) =
    let (m, found) = lines-changed (n + 1) lines rest others in
    (m, rw (plain) (ap (λ ns. n ∷ ns) found))
lines-changed n (removed t ∷ lines) rest (plain, others) =
    let (m, found) = lines-changed n lines rest others in (m, rw (plain) (ap (λ ns. n ∷ ns) found))

header-changed :
    (next : Option ℕ) (h : DiffHunk) (rest : List Text)
    → changed next (printed_header h ∷ rest) ≡ changed (some h.start2) rest
unfolding changed following_number changed_line
header-changed next h rest = rw (hunk_start-printed h, changed, following_number, changed_line) refl

hunks-changed :
    (next : Option ℕ) (hunks : List DiffHunk)
    → All HasPlainLines hunks
    → changed next (printed_hunks hunks) ≡ hunks_changed hunks
unfolding changed printed_hunks
hunks-changed next [] plain = refl
hunks-changed next (h ∷ hunks) (plain, others) =
    let (m, found) = lines-changed h.start2 h.lines (printed_hunks hunks) plain in
    header-changed next h (map printed_line h.lines ++ printed_hunks hunks)
    ∙ (found
        ∙ ap (λ ns. changed_numbers h.start2 h.lines ++ ns) (hunks-changed (some m) hunks others))

-- For a diff whose lines are those of hunks as they are written, where no added line begins with ++
-- and no removed one with --, each changed line is in one of the ranges: each added line by its
-- number in the new file, and for each removed line the line which takes its place. The number 0,
-- which a header has where the new file is empty, is left out.
pub changed_new_line_ranges-covers :
    (diff : Text) (hunks : List DiffHunk)
    → splitlines diff ≡ printed_hunks hunks
    → All HasPlainLines hunks
    → All (λ n. is_covered (changed_new_line_ranges diff) n ≡ true) (hunks_changed hunks)
changed_new_line_ranges-covers diff hunks parts plain =
    subst (All (λ n. is_covered (changed_new_line_ranges diff) n ≡ true))
      (ap (changed none) parts ∙ hunks-changed none hunks plain) (read-covered diff)
