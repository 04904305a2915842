-- ===== src/Patch/Context/Counts.antt =====
-- The numbers in the header of an extended hunk count the lines that stand around it.
use my_pr_agent.Prelude.{
  ℕ, suc, ◌+◌, ◌-◌, ◌≤◌, ◌<◌, min, ◌≡◌, refl, sym, ◌∙◌, ap, ◌⊎◌, inl, inr, Bool-cases, Option-cases,
  false, not, ◌&&◌, List, [], ◌∷◌, some, length, drop, length-take, length-drop, arith, list_eq,
  nat_eq, ◌==◌, list_beq_iff,
}
use my_pr_agent.Text.{Text, is_empty}
use my_pr_agent.Patch.Header.{HunkHeader}
use my_pr_agent.Patch.Extent.{Difference, Extent, unextended, calc_context_limits, shifted, capped}
use my_pr_agent.Patch.Context.{
  ContextSettings, Around, lines_before, lines_after, spaced, find_section, mini_match,
  dynamic_context, context_start, agreeing,
}

length-spaced : (lines : List Text) → length (spaced lines) ≡ length lines
length-spaced [] = refl
length-spaced (x ∷ lines) = ap suc (length-spaced lines)

length-lines_before :
    (lines : List Text) (ext start : ℕ)
    → 1 ≤ ext
    → ext ≤ start
    → start ≤ length lines + 1
    → length (lines_before lines ext start) ≡ start - ext
length-lines_before lines ext start low le fits =
    ground (
      arith,
      length-take (start - 1 - (ext - 1)) (drop (ext - 1) lines),
      length-drop (ext - 1) lines,
    )

length-lines_after :
    (lines : List Text) (stop after : ℕ)
    → 1 ≤ stop
    → length (lines_after lines stop after) ≡ min after (length lines - (stop - 1))
length-lines_after lines stop after low = ground (
  arith,
  length-take (stop - 1 + after - (stop - 1)) (drop (stop - 1) lines),
  length-drop (stop - 1) lines,
)

-- A size that is the hunk's with the lines before it, from `start` on, and `behind` lines after it.
abbrev pub Sized : Difference → ℕ → ℕ → ℕ → ℕ → Type 0
Sized d size start from behind = d.up + from ≡ d.down + size + start + behind

-- The header's numbers are those of the hunk, moved to the lines before and after it.
pub record Fits (behind : ℕ) (h : HunkHeader) (e : Extent) : Type 0 where
  pub low1 : 1 ≤ e.start1
  pub low2 : 1 ≤ e.start2
  pub start1 : e.start1 ≤ h.start1
  pub start2 : e.start2 ≤ h.start2
  pub size1 : Sized e.size1 h.size1 h.start1 e.start1 behind
  pub size2 : Sized e.size2 h.size2 h.start2 e.start2 behind

calc_context_limits-Fits :
    (len after before : ℕ) (h : HunkHeader)
    → 1 ≤ h.start1
    → 1 ≤ h.start2
    → h.start1 - 1 + h.size1 ≤ len
    → Fits (min after (len - (h.start1 + h.size1 - 1))) h (calc_context_limits len after h before)
unfolding calc_context_limits capped
calc_context_limits-Fits len after before h low1 low2 inside = record {
  low1 = ground arith;
  low2 = ground arith;
  start1 = ground arith;
  start2 = ground arith;
  size1 = ground arith;
  size2 = ground arith;
}

shifted-Fits :
    (behind i : ℕ) (h : HunkHeader) (e : Extent)
    → Fits behind h e
    → e.start1 + i ≤ h.start1
    → e.start2 + i ≤ h.start2
    → Fits behind h (shifted i e)
shifted-Fits behind i h e fits le1 le2 = record {
  low1 = ground (arith, fits.low1);
  low2 = ground (arith, fits.low2);
  start1 = le1;
  start2 = le2;
  size1 = ground (arith, fits.size1);
  size2 = ground (arith, fits.size2);
}

find_section-bound :
    (section : Text) (lines : List Text) (i : ℕ)
    → find_section section lines ≡ some i
    → i < length lines
unfolding find_section
find_section-bound section [] i e = cc
find_section-bound section (line ∷ lines) i e = elim (Option-cases (find_section section lines)) [
  | inl nothing ↦ ground (arith, nothing)
  | inr (j, found) ↦ ground (arith, found, find_section-bound section lines j found)
]

-- A match within the first list is at a place where the two lists agree, so that they are as long.
mini_match_lem :
    (xs ys : List Text) (i : ℕ)
    → mini_match xs ys ≡ some i
    → (i < length xs) × (length xs ≡ length ys)
unfolding mini_match
mini_match_lem [] ys i e = cc
mini_match_lem (x ∷ xs) ys i e = elim (Bool-cases ((x ∷ xs) == ys)) [
  | inl same ↦
      let equal = (list_beq_iff (list_eq {A = ℕ}) (x ∷ xs) ys).0 same in ground (arith, equal, same)
  | inr differ ↦ elim (Option-cases (mini_match xs (drop 1 ys))) [
    | inl nothing ↦ ground (arith, nothing, differ)
    | inr (j, found) ↦
        ground (arith, differ, found, mini_match_lem xs (drop 1 ys) j found, length-drop 1 ys)
  ]
]

-- What the header and the lines before the hunk are to one another.
pub record Counts (behind : ℕ) (h : HunkHeader) (e : Extent) (before : List Text) : Type 0 where
  pub start1 : e.start1 + length before ≡ h.start1
  pub start2 : e.start2 + length before ≡ h.start2
  pub size1 : e.size1.up ≡ e.size1.down + (length before + h.size1 + behind)
  pub size2 : e.size2.up ≡ e.size2.down + (length before + h.size2 + behind)

Fits→Counts :
    (behind : ℕ) (h : HunkHeader) (e : Extent) (before : List Text)
    → Fits behind h e
    → length before ≡ h.start1 - e.start1
    → length before ≡ h.start2 - e.start2
    → Counts behind h e before
Fits→Counts behind h e before fits old new = record {
  start1 = ground (arith, fits.start1, old);
  start2 = ground (arith, fits.start2, new);
  size1 = ground (arith, fits.start1, fits.size1, old);
  size2 = ground (arith, fits.start2, fits.size2, new);
}

module _ (a : Around) (h : HunkHeader) (low1 : 1 ≤ h.start1) (low2 : 1 ≤ h.start2)
    (inside : h.start1 - 1 + h.size1 ≤ length a.file_original_lines)
    (inside_new : h.start2 ≤ length a.file_new_lines + 1) where
  abbrev behind : ℕ
  behind = min a.extra_after (length a.file_original_lines - (h.start1 + h.size1 - 1))

  abbrev old_before : Extent → List Text
  old_before e = lines_before a.file_original_lines e.start1 h.start1

  abbrev new_before : Extent → List Text
  new_before e = lines_before a.file_new_lines e.start2 h.start2

  length-old_before : (e : Extent) → Fits behind h e → length (old_before e) ≡ h.start1 - e.start1
  length-old_before e fits =
      length-lines_before a.file_original_lines e.start1 h.start1 fits.low1 fits.start1
        (ground (arith, inside))

  length-new_before : (e : Extent) → Fits behind h e → length (new_before e) ≡ h.start2 - e.start2
  length-new_before e fits =
      length-lines_before a.file_new_lines e.start2 h.start2 fits.low2 fits.start2 inside_new

  limits : ℕ → Extent
  limits before = calc_context_limits (length a.file_original_lines) a.extra_after h before

  limits-Fits : (before : ℕ) → Fits behind h (limits before)
  unfolding limits
  limits-Fits before =
      calc_context_limits-Fits (length a.file_original_lines) a.extra_after before h low1 low2
        inside

  agreeing-Counts :
      (e : Extent)
      → is_empty a.file_new_lines ≡ false
      → Fits behind h e
      → Counts behind h (agreeing a h e).0 (agreeing a h e).1
        ⊎ (agreeing a h e ≡ (unextended h, []))
  unfolding agreeing
  agreeing-Counts e has_new fits =
      let old = spaced (old_before e) in
      let new = spaced (new_before e) in
      let old_length = length-spaced (old_before e) ∙ length-old_before e fits in
      let new_length = length-spaced (new_before e) ∙ length-new_before e fits in
      elim (Bool-cases (old == new)) [
        | inl same ↦
            let equal = (list_beq_iff (list_eq {A = ℕ}) old new).0 same in
            rw (same, has_new, agreeing)
              (inl (Fits→Counts behind h e old fits old_length (ap length equal ∙ new_length)))
        | inr differ ↦ elim (Option-cases (mini_match old new)) [
          | inl nothing ↦ rw (differ, has_new, nothing, agreeing) (inr refl)
          | inr (i, found) ↦
              let (lt, equal) = mini_match_lem old new i found in
              let moved =
                shifted-Fits behind i h e fits (ground (arith, lt, old_length, fits.start1))
                  (ground (arith, lt, equal, new_length, fits.start2)) in
              rw (differ, has_new, found, agreeing)
                (inl (
                  Fits→Counts behind h (shifted i e) (drop i old) moved
                    (ground (arith, length-drop i old, old_length))
                    (ground (arith, length-drop i old, equal, new_length))))
        ]
      ]

  dynamic_context-Fits :
      (settings : ContextSettings) → Fits behind h (dynamic_context settings a h).0
  unfolding dynamic_context limits
  dynamic_context-Fits settings =
      let e = limits settings.max_extra_lines_before_dynamic_context in
      let fits = limits-Fits settings.max_extra_lines_before_dynamic_context in
      let plain = limits-Fits a.extra_before in
      elim (Option-cases (find_section h.section_header (old_before e))) [
        | inl nothing ↦ rw (nothing, dynamic_context) plain
        | inr (i, found) ↦ elim (Bool-cases (drop i (old_before e) == drop i (new_before e))) [
          | inl same ↦
              let lt = find_section-bound h.section_header (old_before e) i found in
              let equal =
                (list_beq_iff (list_eq {A = ℕ}) (drop i (old_before e)) (drop i (new_before e))).0
                  same in
              let lengths =
                sym (length-drop i (old_before e))
                ∙ ap length equal
                ∙ length-drop i (new_before e) in
              rw (found, same, dynamic_context)
                (shifted-Fits behind i h e fits
                  (ground (arith, lt, length-old_before e fits, fits.start1))
                  (ground (
                    arith,
                    lt,
                    lengths,
                    length-new_before e fits,
                    fits.start2,
                    length-old_before e fits,
                  )))
          | inr differ ↦ rw (found, differ, dynamic_context) plain
        ]
      ]

  context_start-Fits : (settings : ContextSettings) → Fits behind h (context_start settings a h).0
  unfolding context_start limits
  context_start-Fits settings =
      elim (Bool-cases (settings.allow_dynamic_context && not (is_empty a.file_new_lines))) [
        | inl dynamic ↦ rw (dynamic, context_start) (dynamic_context-Fits settings)
        | inr static ↦ rw (static, context_start) (limits-Fits a.extra_before)
      ]

  -- Of a valid hunk that lies within both files, the new file not empty: the lines put before it end
  -- where it begins in both files, and each size in its header counts them, the lines of the hunk on
  -- that side and the lines that are put after it; or, where the files differ before the hunk, it
  -- keeps its own header and no line is put before it.
  pub extended-Counts :
      (settings : ContextSettings)
      → is_empty a.file_new_lines ≡ false
      → Counts
          (length (lines_after a.file_original_lines (h.start1 + h.size1) a.extra_after))
          h
          (agreeing a h (context_start settings a h).0).0
          (agreeing a h (context_start settings a h).0).1
        ⊎ (agreeing a h (context_start settings a h).0 ≡ (unextended h, []))
  extended-Counts settings has_new =
      rw
        (length-lines_after a.file_original_lines (h.start1 + h.size1) a.extra_after (ground arith))
        (agreeing-Counts (context_start settings a h).0 has_new (context_start-Fits settings))
