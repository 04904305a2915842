-- ===== src/GitlabWebhook/ChangedRanges/Covered.antt =====
-- No line that the loop takes for a changed one is left out of the ranges.
use my_pr_agent.Prelude.{
  ℕ, ◌+◌, ◌≡◌, refl, sym, ◌∙◌, subst, All-append, inl, inr, Bool, Bool-cases, Option-cases, true,
  false, ◌||◌, Option, none, some, List, [], ◌∷◌, ◌++◌, nat_eq, ◌==◌, if◌then◌else◌, All, any_of,
  arith,
}
use my_pr_agent.Text.{Text, starts_with}
use my_pr_agent.Text.Lines.{splitlines}
use my_pr_agent.SuggestionMatcher.{Span}
use my_pr_agent.GitlabWebhook.ChangedRanges.{
  Scanning, unscanned, hunk_start, is_added, is_removed, scan_hunk, scan_body, range_line,
  range_lines, changed_new_line_ranges,
}
use my_pr_agent.GitlabWebhook.ChangedRanges.Reached.{
  in_span, reaches, settled, reaches-scan_hunk, is_sound, scanned-added, scanned-removed,
  scanned-hunk, next-added, next-removed, next-context, next-hunk, ended, reaches-scan_body,
  is_sound-scan_body,
}

-- The number of the next line of the new file behind a line.
unfoldable pub following_number : Option ℕ → Text → Option ℕ
following_number next line = elim (hunk_start line) [
  | some start ↦ some start
  | none ↦ elim next [ none ↦ none | some n ↦ if is_removed line then some n else some (n + 1) ]
]

-- The number of a line that the loop takes for a changed one: its own for an added line, that of the line which takes its place
-- for a removed one.
unfoldable pub changed_line : Option ℕ → Text → List ℕ
changed_line next line = elim (hunk_start line) [
  | some start ↦ []
  | none ↦ elim next [
    | none ↦ []
    | some n ↦ if is_added line || is_removed line then n ∷ [] else []
  ]
]

unfoldable pub changed : Option ℕ → List Text → List ℕ
unfolding following_number changed_line
changed next [] = []
changed next (line ∷ lines) = changed_line next line ++ changed (following_number next line) lines

-- What a line does, by the case that it is.
range_line-hunk :
    (line : Text) (s : Scanning) (k : ℕ)
    → hunk_start line ≡ some k
    → range_line line s ≡ scan_hunk k s
unfolding range_line
range_line-hunk line s k e = rw (e, range_line) refl

range_line-outside :
    (line : Text) (s : Scanning)
    → hunk_start line ≡ none
    → s.new_line ≡ none
    → range_line line s ≡ s
unfolding range_line
range_line-outside line s e outside = rw (e, range_line) (ground (arith, outside))

range_line-body :
    (line : Text) (s : Scanning) (k : ℕ)
    → hunk_start line ≡ none
    → s.new_line ≡ some k
    → range_line line s ≡ scan_body k line s
unfolding range_line
range_line-body line s k e inside = rw (e, range_line) (ground (arith, inside))

not_both : (line : Text) → is_added line ≡ true → is_removed line ≡ false
unfolding starts_with
not_both [] h = ground arith
not_both (c ∷ line) h = ground arith

-- What a line counts, by the case that it is.
at_hunk :
    (next : Option ℕ) (line : Text) (k : ℕ)
    → hunk_start line ≡ some k
    → (following_number next line ≡ some k) × (changed_line next line ≡ [])
unfolding following_number changed_line
at_hunk next line k e = (rw (e, following_number) refl, rw (e, changed_line) refl)

at_outside :
    (next : Option ℕ) (line : Text)
    → hunk_start line ≡ none
    → next ≡ none
    → (following_number next line ≡ none) × (changed_line next line ≡ [])
unfolding following_number changed_line
at_outside next line e outside =
    (rw (e, outside, following_number) refl, rw (e, outside, changed_line) refl)

at_body :
    (next : Option ℕ) (line : Text) (n : ℕ)
    → hunk_start line ≡ none
    → next ≡ some n
    → (following_number next line ≡ (if is_removed line then some n else some (n + 1)))
      × (changed_line next line ≡ (if is_added line || is_removed line then n ∷ [] else []))
unfolding following_number changed_line
at_body next line n e inside =
    (rw (e, inside, following_number) refl, rw (e, inside, changed_line) refl)

body-counted :
    (k : ℕ) (line : Text) (s : Scanning)
    → s.new_line ≡ some k
    → (scan_body k line s).new_line ≡ (if is_removed line then some k else some (k + 1))
unfolding scan_body
body-counted k line s e =
    ground (arith, e, not_both line, next-added k s, next-removed k line s, next-context k s)

body-reached :
    (k : ℕ) (line : Text) (s : Scanning)
    → s.new_line ≡ some k
    → is_sound s ≡ true
    → All
        (λ n. (n == 0 || reaches (scan_body k line s) n) ≡ true)
        (if is_added line || is_removed line then k ∷ [] else [])
unfolding scan_body
body-reached k line s e h = elim (Bool-cases (is_added line)) [
  | inl added ↦ rw (added, scan_body) ((scanned-added k s e h).1, tt)
  | inr other ↦ elim (Bool-cases (is_removed line)) [
    | inl removed ↦ rw (other, removed, scan_body) ((scanned-removed k line s e h).1, tt)
    | inr context ↦ rw (other, context, scan_body) tt
  ]
]

-- Of one line: the state stays sound, nothing is lost, the number is counted on, and the line
-- itself is reached if it is changed.
record IsScanned (line : Text) (s t : Scanning) : Type 0 where
  sound : is_sound t ≡ true
  kept : (n : ℕ) → reaches s n ≡ true → reaches t n ≡ true
  counted : t.new_line ≡ following_number s.new_line line
  reached : All (λ n. (n == 0 || reaches t n) ≡ true) (changed_line s.new_line line)

scan_body-IsScanned :
    (line : Text) (s : Scanning) (k : ℕ)
    → hunk_start line ≡ none
    → s.new_line ≡ some k
    → is_sound s ≡ true
    → IsScanned line s (scan_body k line s)
scan_body-IsScanned line s k e inside h = record {
  sound = is_sound-scan_body k line s inside h;
  kept = λ n. reaches-scan_body k line s n inside;
  counted = body-counted k line s inside ∙ sym (at_body s.new_line line k e inside).0;
  reached = rw (at_body s.new_line line k e inside).1 (body-reached k line s inside h);
}

scanned : (line : Text) (s : Scanning) → is_sound s ≡ true → IsScanned line s (range_line line s)
scanned line s h = elim (Option-cases (hunk_start line)) [
  | inr (k, e) ↦ rw (range_line-hunk line s k e) (record {
    sound = scanned-hunk k s h;
    kept = reaches-scan_hunk k s;
    counted = next-hunk k s ∙ sym (at_hunk s.new_line line k e).0;
    reached = rw (at_hunk s.new_line line k e).1 tt;
  })
  | inl body ↦ elim (Option-cases s.new_line) [
    | inl outside ↦ rw (range_line-outside line s body outside) (record {
      sound = h;
      kept = λ n r. r;
      counted = outside ∙ sym (at_outside s.new_line line body outside).0;
      reached = rw (at_outside s.new_line line body outside).1 tt;
    })
    | inr (k, inside) ↦
        rw (range_line-body line s k body inside) (scan_body-IsScanned line s k body inside h)
  ]
]

reaches-scan_lines :
    (lines : List Text) (s : Scanning) (n : ℕ)
    → is_sound s ≡ true
    → reaches s n ≡ true
    → any_of (in_span n) (ended (range_lines lines s)) ≡ true
unfolding range_lines
reaches-scan_lines [] s n h r = settled s n r
reaches-scan_lines (line ∷ lines) s n h r =
    let one = scanned line s h in
    reaches-scan_lines lines (range_line line s) n one.sound (one.kept n r)

abbrev pub is_covered : List Span → ℕ → Bool
is_covered ranges n = n == 0 || any_of (in_span n) ranges

All-mono : {P Q : ℕ → Type 0} → ((n : ℕ) → P n → Q n) → (ns : List ℕ) → All P ns → All Q ns
All-mono f [] h = tt
All-mono f (n ∷ ns) (h, hs) = (f n h, All-mono f ns hs)

covered_later :
    (lines : List Text) (s : Scanning)
    → is_sound s ≡ true
    → (n : ℕ) → (n == 0 || reaches s n) ≡ true
    → is_covered (ended (range_lines lines s)) n ≡ true
covered_later lines s h n r = elim (Bool-cases (n == 0)) [
  | inl first ↦ ground (arith, first)
  | inr other ↦ ground (arith, reaches-scan_lines lines s n h (rw other at r))
]

changed-covered :
    (lines : List Text) (s : Scanning)
    → is_sound s ≡ true
    → All (λ n. is_covered (ended (range_lines lines s)) n ≡ true) (changed s.new_line lines)
unfolding range_lines changed
changed-covered [] s h = tt
changed-covered (line ∷ lines) s h =
    let one = scanned line s h in
    let rest = changed-covered lines (range_line line s) one.sound in
    All-append _ (changed_line s.new_line line) _
      (All-mono (covered_later lines (range_line line s) one.sound) (changed_line s.new_line line)
        one.reached)
      (subst
        (λ t.
          All (λ n. is_covered (ended (range_lines lines (range_line line s))) n ≡ true)
            (changed t lines))
        one.counted rest)

-- Each line of a diff that the loop takes for a changed one is in one of the ranges.
pub read-covered :
    (diff : Text)
    → All (λ n. is_covered (changed_new_line_ranges diff) n ≡ true) (changed none (splitlines diff))
unfolding changed_new_line_ranges
read-covered diff = changed-covered (splitlines diff) unscanned refl
