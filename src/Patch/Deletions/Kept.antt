-- ===== src/Patch/Deletions/Kept.antt =====
-- Which lines `omit_deletion_hunks` keeps.
use my_pr_agent.Prelude.{
  is_some, ◌≡◌, refl, sym, ◌∙◌, ap, ◌⊎◌, inl, inr, Bool, Bool-cases, true, false, not, ◌&&◌, ◌||◌,
  List, [], ◌∷◌, ◌++◌, nat_eq, list_eq, append_assoc, append-nil, arith, All, All-append, any_of,
  any_of-append, keep, keep-append,
}
use my_pr_agent.Text.{Text, codes, starts_with}
use my_pr_agent.Patch.Header.{match_header}
use my_pr_agent.Patch.Deletions.{
  Scan, scan_init, is_plus, finish_hunk, scan_line, scan_lines, kept_lines,
}

-- A line that opens a hunk.
abbrev pub is_header : Text → Bool
is_header line = starts_with (codes "@@") line && is_some (match_header line)

-- Every line but those that begin with @@ and are no hunk header.
abbrev pub is_relevant : Text → Bool
is_relevant line = not (starts_with (codes "@@") line) || is_some (match_header line)

abbrev pub relevant : List Text → List Text
relevant = keep is_relevant

abbrev pub NoPlus : List Text → Type 0
NoPlus = All (λ line. is_plus line ≡ false)

header_no_plus : (line : Text) → starts_with (codes "@@") line ≡ true → is_plus line ≡ false
unfolding starts_with
header_no_plus [] h = cc
header_no_plus (c ∷ s) h = ground arith

-- The unfinished lines begin with a header once something is kept.
abbrev Opens : List Text → List Text → Type 0
Opens kept [] = kept ≡ []
Opens kept (line ∷ rest) = (kept ≡ []) ⊎ (is_header line ≡ true)

Opens-append :
    (kept temp : List Text) (line : Text) → Opens kept temp → Opens kept (temp ++ line ∷ [])
Opens-append kept [] line h = inl h
Opens-append kept (x ∷ temp) line h = h

record IsScan (seen : List Text) (s : Scan) : Type 0 where
  parts : s.added_patched ++ s.temp_hunk ≡ relevant seen
  no_plus : s.add_hunk ≡ false → NoPlus s.temp_hunk
  opens : Opens s.added_patched s.temp_hunk
  inside : s.inside_hunk ≡ any_of is_header seen
  outside : s.inside_hunk ≡ false → s.added_patched ≡ []

module _ (seen : List Text) (s : Scan) (line : Text) (h : IsScan seen s) where
  appended : relevant (seen ++ line ∷ []) ≡ relevant seen ++ relevant (line ∷ [])
  appended = keep-append is_relevant seen (line ∷ [])

  seen_headers : any_of is_header (seen ++ line ∷ []) ≡ (any_of is_header seen || is_header line)
  seen_headers = ground (arith, any_of-append is_header seen (line ∷ []))

  regrouped : s.added_patched ++ (s.temp_hunk ++ line ∷ []) ≡ relevant seen ++ line ∷ []
  regrouped =
      sym (append_assoc s.added_patched s.temp_hunk (line ∷ [])) ∙ ap (λ t. t ++ line ∷ []) h.parts

  scan_line-header :
      starts_with (codes "@@") line ≡ true
      → is_some (match_header line) ≡ true
      → IsScan (seen ++ line ∷ []) (scan_line line s)
  unfolding scan_line
  scan_line-header at matched = elim (Bool-cases (s.inside_hunk && s.add_hunk)) [
    | inl flush ↦
        rw (at, matched, flush, scan_line, finish_hunk)
          record {
            parts = ground (arith, appended, h.parts);
            no_plus = λ _. (header_no_plus line at, tt);
            opens = inr (ground arith);
            inside = ground (arith, seen_headers);
            outside = λ e. ground arith;
          }
    | inr stay ↦
        rw (at, matched, stay, scan_line, finish_hunk)
          record {
            parts = ground (arith, appended, regrouped);
            no_plus = λ e.
                All-append _ s.temp_hunk (line ∷ []) (h.no_plus e) (header_no_plus line at, tt);
            opens = Opens-append s.added_patched s.temp_hunk line h.opens;
            inside = ground (arith, seen_headers);
            outside = λ e. ground arith;
          }
  ]

  scan_line-other :
      starts_with (codes "@@") line ≡ true
      → is_some (match_header line) ≡ false
      → IsScan (seen ++ line ∷ []) (scan_line line s)
  unfolding scan_line
  scan_line-other at unmatched =
      rw (at, unmatched, scan_line)
        record {
          parts = ground (arith, appended, h.parts, append-nil (relevant seen));
          no_plus = h.no_plus;
          opens = h.opens;
          inside = ground (arith, seen_headers, h.inside);
          outside = h.outside;
        }

  scan_line-body :
      starts_with (codes "@@") line ≡ false → IsScan (seen ++ line ∷ []) (scan_line line s)
  unfolding scan_line
  scan_line-body body =
      rw (body, scan_line)
        record {
          parts = ground (arith, appended, regrouped);
          no_plus = λ e.
              All-append _ s.temp_hunk (line ∷ []) (h.no_plus (ground arith)) (ground arith, tt);
          opens = Opens-append s.added_patched s.temp_hunk line h.opens;
          inside = ground (arith, seen_headers, h.inside);
          outside = h.outside;
        }

scan_line-IsScan :
    (seen : List Text) (s : Scan) (line : Text)
    → IsScan seen s
    → IsScan (seen ++ line ∷ []) (scan_line line s)
scan_line-IsScan seen s line h = elim (Bool-cases (starts_with (codes "@@") line)) [
  | inl at ↦ elim (Bool-cases (is_some (match_header line))) [
    | inl matched ↦ scan_line-header seen s line h at matched
    | inr unmatched ↦ scan_line-other seen s line h at unmatched
  ]
  | inr body ↦ scan_line-body seen s line h body
]

scan_lines-IsScan :
    (lines seen : List Text) (s : Scan)
    → IsScan seen s
    → IsScan (seen ++ lines) (scan_lines lines s)
unfolding scan_lines
scan_lines-IsScan [] seen s h = rw append-nil h
scan_lines-IsScan (line ∷ lines) seen s h = rw (← append_assoc seen (line ∷ []) lines) (
    scan_lines-IsScan lines (seen ++ line ∷ []) (scan_line line s) (scan_line-IsScan seen s line h))

scanned : (lines : List Text) → IsScan lines (scan_lines lines scan_init)
scanned lines =
    scan_lines-IsScan lines [] scan_init
      record { parts = refl; no_plus = λ _. tt; opens = refl; inside = refl; outside = λ _. refl }

-- What is dropped begins with a header, unless nothing is dropped or nothing is kept.
abbrev pub AtHeader : List Text → List Text → Type 0
AtHeader kept [] = Unit
AtHeader kept (line ∷ rest) = (kept ≡ []) ⊎ (is_header line ≡ true)

Opens-AtHeader : (kept temp : List Text) → Opens kept temp → AtHeader kept temp
Opens-AtHeader kept [] h = tt
Opens-AtHeader kept (line ∷ rest) h = h

-- Of a patch with a hunk header, the lines that are kept are a front part of its lines (less those
-- that begin with @@ and are no header): no added line is dropped, and what is dropped begins with
-- a hunk header unless nothing is kept.
pub kept_lines-split :
    (lines : List Text)
    → any_of is_header lines ≡ true
    → (dropped : List Text) × (kept_lines lines ++ dropped ≡ relevant lines)
      × NoPlus dropped
      × AtHeader (kept_lines lines) dropped
unfolding kept_lines
kept_lines-split lines has_header =
    let s = scan_lines lines scan_init in
    let h = scanned lines in
    elim (Bool-cases s.add_hunk) [
      | inl plus ↦ ([], ground (arith, h.inside, h.parts, append-nil (relevant lines)), tt, tt)
      | inr no_plus ↦ rw no_plus (
        s.temp_hunk,
        ground (arith, h.inside, h.parts),
        h.no_plus no_plus,
        ground (arith, Opens-AtHeader s.added_patched s.temp_hunk h.opens),
      )
    ]

-- Without a hunk header nothing is kept.
pub kept_lines-no_header :
    (lines : List Text) → any_of is_header lines ≡ false → kept_lines lines ≡ []
unfolding kept_lines
kept_lines-no_header lines no_header = let h = scanned lines in ground (arith, h.inside, h.outside)

-- Lines with an addition and no line that begins with @@ set the flag of the loop.
add_hunk-scan_lines :
    (body : List Text) (s : Scan)
    → All (λ line. starts_with (codes "@@") line ≡ false) body
    → (scan_lines body s).add_hunk ≡ (s.add_hunk || any_of is_plus body)
unfolding scan_lines scan_line
add_hunk-scan_lines [] s _ = ground arith
add_hunk-scan_lines (line ∷ body) s (first, rest) = ground (
  arith,
  add_hunk-scan_lines body
      (record s { temp_hunk = s.temp_hunk ++ line ∷ []; add_hunk = s.add_hunk || is_plus line })
      rest,
)

scan_lines-append :
    (xs ys : List Text) (s : Scan) → scan_lines (xs ++ ys) s ≡ scan_lines ys (scan_lines xs s)
unfolding scan_lines
scan_lines-append [] ys s = refl
scan_lines-append (x ∷ xs) ys s = scan_lines-append xs ys (scan_line x s)

-- If the last hunk of a patch adds a line, every line is kept (less those that begin with @@ and
-- are no header), the hunks before it that only delete lines included.
pub kept_lines-all :
    (lines body : List Text)
    → any_of is_header lines ≡ true
    → All (λ line. starts_with (codes "@@") line ≡ false) body
    → any_of is_plus body ≡ true
    → kept_lines (lines ++ body) ≡ relevant (lines ++ body)
unfolding kept_lines
kept_lines-all lines body has_header in_hunk plus =
    let h = scanned (lines ++ body) in
    ground (
      arith,
      h.inside,
      h.parts,
      any_of-append is_header lines body,
      scan_lines-append lines body scan_init,
      add_hunk-scan_lines body (scan_lines lines scan_init) in_hunk,
    )
