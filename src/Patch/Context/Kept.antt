-- ===== src/Patch/Context/Kept.antt =====
-- What `process_patch_lines` keeps of a patch, and what it puts in.
use my_pr_agent.Prelude.{
  ℕ, zero, suc, ◌+◌, ◌-◌, ◌≡◌, refl, sym, ◌∙◌, ap, length, ltb, ◌&&◌, ◌||◌, subst, inl, inr, Bool,
  Bool-cases, Option-cases, true, List, [], ◌∷◌, ◌++◌, some, take, drop, slice, arith, All, nat_eq,
  list_eq, contains, ◌==◌, list_beq_iff, append_assoc, append-nil,
}
use my_pr_agent.Text.{Text, codes, starts_with, is_empty}
use my_pr_agent.Patch.Header.{Groups, HunkHeader, match_header, extract_hunk_headers}
use my_pr_agent.Patch.Extent.{Extent}
use my_pr_agent.Patch.Context.{
  ContextSettings, Around, lines_before, lines_after, spaced, agreeing, mini_match, context_start,
  extend_header, check_if_hunk_lines_matches_to_file, Extending, extending, lines_behind,
  extend_line, extend_lines,
}

-- `Extends file lines out`: the lines of a patch in their order, where a header gives an empty line
-- and a text, with lines of the file, each behind a space, put in between.
pub data Extends (file : List Text) : List Text → List Text → Type 0 where
  done : Extends file [] []
  kept :
      {line : Text} {lines out : List Text}
      → Extends file lines out
      → Extends file (line ∷ lines) (line ∷ out)
  header :
      {line text : Text} {m : Groups} {lines out : List Text}
      → match_header line ≡ some m
      → Extends file lines out
      → Extends file (line ∷ lines) ([] ∷ text ∷ out)
  extra :
      {line : Text} {lines out : List Text}
      → contains file line ≡ true
      → Extends file lines out
      → Extends file lines ((b' ' ∷ line) ∷ out)

abbrev pub From : List Text → List Text → Type 0
From file xs = All (λ x. contains file x ≡ true) xs

module _ (file : List Text) where
  From-take : (n : ℕ) (xs : List Text) → From file xs → From file (take n xs)
  From-take zero xs h = tt
  From-take (suc n) [] h = tt
  From-take (suc n) (x ∷ xs) (hx, h) = (hx, From-take n xs h)

  From-drop : (n : ℕ) (xs : List Text) → From file xs → From file (drop n xs)
  From-drop zero xs h = h
  From-drop (suc n) [] h = tt
  From-drop (suc n) (x ∷ xs) (hx, h) = From-drop n xs h

From-weaken : (x : Text) (file xs : List Text) → From file xs → From (x ∷ file) xs
From-weaken x file [] h = tt
From-weaken x file (y ∷ ys) (hy, h) = (ground (arith, hy), From-weaken x file ys h)

From-self : (file : List Text) → From file file
From-self [] = tt
From-self (x ∷ file) =
    (ground (arith, list_beq_iff nat_eq x x), From-weaken x file file (From-self file))

From-slice : (file : List Text) (i j : ℕ) → From file (slice file i j)
From-slice file i j = From-take file (j - i) (drop i file) (From-drop file i file (From-self file))

From-lines_before : (file : List Text) (ext start : ℕ) → From file (lines_before file ext start)
From-lines_before file ext start = elim (Bool-cases (start == 0)) [
  | inl zero_start ↦ rw zero_start (From-slice file (ext - 1) (length file - 1))
  | inr later ↦ rw later (From-slice file (ext - 1) (start - 1))
]

-- Lines of the file behind a space, put in front.
add_spaced :
    {file lines out : List Text} (xs : List Text)
    → From file xs
    → Extends file lines out
    → Extends file lines (spaced xs ++ out)
add_spaced [] h e = e
add_spaced (x ∷ xs) (hx, h) e = extra hx (add_spaced xs h e)

From-lines_after : (file : List Text) (stop after : ℕ) → From file (lines_after file stop after)
From-lines_after file stop after = elim (Bool-cases (stop == 0)) [
  | inl zero_stop ↦ rw zero_stop (From-slice file (length file - 1) (after - 1))
  | inr later ↦ rw later (From-slice file (stop - 1) (stop - 1 + after))
]

-- Lines of the file, each behind a space.
pub record IsExtra (file delta : List Text) : Type 0 where
  pub lines : List Text
  pub from_file : From file lines
  pub same : delta ≡ spaced lines

no-IsExtra : {file : List Text} → IsExtra file []
no-IsExtra = record { lines = []; from_file = tt; same = refl }

IsExtra-lines :
    {file : List Text} (lines : List Text) → From file lines → IsExtra file (spaced lines)
IsExtra-lines lines h = record { lines = lines; from_file = h; same = refl }

drop-spaced : (i : ℕ) (lines : List Text) → drop i (spaced lines) ≡ spaced (drop i lines)
drop-spaced zero lines = refl
drop-spaced (suc i) [] = refl
drop-spaced (suc i) (x ∷ lines) = drop-spaced i lines

agreeing-IsExtra :
    (a : Around) (h : HunkHeader) (e : Extent) → IsExtra a.file_original_lines (agreeing a h e).1
unfolding agreeing
agreeing-IsExtra a h e =
    let old = lines_before a.file_original_lines e.start1 h.start1 in
    let new = lines_before a.file_new_lines e.start2 h.start2 in
    let h_old = From-lines_before a.file_original_lines e.start1 h.start1 in
    elim (Bool-cases (is_empty a.file_new_lines || spaced old == spaced new)) [
      | inl same ↦ rw (same, agreeing) (IsExtra-lines old h_old)
      | inr differ ↦ elim (Option-cases (mini_match (spaced old) (spaced new))) [
        | inl nothing ↦ rw (differ, nothing, agreeing) no-IsExtra
        | inr (i, found) ↦
            rw (differ, found, agreeing)
              (record {
                lines = drop i old;
                from_file = From-drop a.file_original_lines i old h_old;
                same = drop-spaced i old;
              })
      ]
    ]

extend_header-IsExtra :
    (settings : ContextSettings) (a : Around) (h : HunkHeader) (valid : Bool)
    → IsExtra a.file_original_lines (extend_header settings a h valid).1
unfolding extend_header
extend_header-IsExtra settings a h valid =
    elim (Bool-cases (valid && (ltb 0 a.extra_before || ltb 0 a.extra_after))) [
      | inl wide ↦ rw (wide, extend_header) (agreeing-IsExtra a h (context_start settings a h).0)
      | inr narrow ↦ rw (narrow, extend_header) no-IsExtra
    ]

lines_behind-IsExtra :
    (a : Around) (s : Extending) → IsExtra a.file_original_lines (lines_behind a s)
lines_behind-IsExtra a s = elim (Option-cases s.header) [
  | inl nothing ↦ rw nothing no-IsExtra
  | inr (h, found) ↦ elim (Bool-cases (s.is_valid_hunk && ltb 0 a.extra_after)) [
    | inl wide ↦
        rw (found, wide)
          (IsExtra-lines (lines_after a.file_original_lines (h.start1 + h.size1) a.extra_after)
            (From-lines_after a.file_original_lines (h.start1 + h.size1) a.extra_after))
    | inr narrow ↦ rw (found, narrow) no-IsExtra
  ]
]

add_extra :
    {file lines out delta : List Text}
    → IsExtra file delta
    → Extends file lines out
    → Extends file lines (delta ++ out)
add_extra {out = out} x e = rw x.same (add_spaced x.lines x.from_file e)

-- What one round of the loop writes for its line.
pub record Written (a : Around) (lines : List Text) (line : Text) (s t : Extending) : Type 0 where
  pub piece : List Text
  pub same : t.extended_patch_lines ≡ s.extended_patch_lines ++ piece
  pub extends :
      (out : List Text)
      → Extends a.file_original_lines lines out
      → Extends a.file_original_lines (line ∷ lines) (piece ++ out)

write_line :
    (a : Around) (lines : List Text) (line : Text) (s : Extending)
    → Written a lines line s
        (record s { extended_patch_lines = s.extended_patch_lines ++ line ∷ [] })
write_line a lines line s = record { piece = line ∷ []; same = refl; extends = λ out e. kept e }

write_header :
    (a : Around) (lines : List Text) (line text : Text) (delta : List Text) (m : Groups)
    (s t : Extending)
    → match_header line ≡ some m
    → IsExtra a.file_original_lines delta
    → t.extended_patch_lines ≡ (s.extended_patch_lines ++ lines_behind a s) ++ [] ∷ text ∷ delta
    → Written a lines line s t
write_header a lines line text delta m s t matched delta_extra same =
    let behind = lines_behind a s in
    record {
      piece = behind ++ [] ∷ text ∷ delta;
      same = same ∙ append_assoc s.extended_patch_lines behind ([] ∷ text ∷ delta);
      extends = λ out e.
          subst (Extends a.file_original_lines (line ∷ lines))
            (sym (append_assoc behind ([] ∷ text ∷ delta) out))
            (add_extra (lines_behind-IsExtra a s) (header matched (add_extra delta_extra e)));
    }

extend_line-Written :
    (settings : ContextSettings) (a : Around) (line : Text) (lines : List Text) (s : Extending)
    → Written a lines line s (extend_line settings a line lines s)
unfolding extend_line
extend_line-Written settings a line lines s = elim (Bool-cases (starts_with (codes "@@") line)) [
  | inr other ↦ rw (other, extend_line) (write_line a lines line s)
  | inl begins ↦ elim (Option-cases (match_header line)) [
    | inl nothing ↦ rw (begins, nothing, extend_line) (write_line a lines line s)
    | inr (m, found) ↦
        let h = extract_hunk_headers m in
        let valid = check_if_hunk_lines_matches_to_file lines a.file_original_lines h.start1 in
        let (text, delta) = extend_header settings a h valid in
        rw (begins, found, extend_line)
          (write_header a lines line text delta m s
            (record {
              extended_patch_lines =
                  (s.extended_patch_lines ++ lines_behind a s) ++ [] ∷ text ∷ delta;
              is_valid_hunk = valid;
              header = some h;
            })
            found (extend_header-IsExtra settings a h valid) refl)
  ]
]

-- The lines that the loop writes behind those of `s`, for the lines that are left.
extend_lines-Extends :
    (settings : ContextSettings) (a : Around) (lines : List Text) (s : Extending)
    → (out : List Text) × Extends a.file_original_lines lines out
      × ((extend_lines settings a lines s).extended_patch_lines
            ++ lines_behind a (extend_lines settings a lines s)
          ≡ s.extended_patch_lines ++ out)
unfolding extend_lines
extend_lines-Extends settings a [] s = (
  lines_behind a s ++ [],
  add_extra (lines_behind-IsExtra a s) done,
  ap (λ t. s.extended_patch_lines ++ t) (sym (append-nil (lines_behind a s))),
)
extend_lines-Extends settings a (line ∷ lines) s =
    let w = extend_line-Written settings a line lines s in
    let (out, e, same) =
      extend_lines-Extends settings a lines (extend_line settings a line lines s) in
    (
      w.piece ++ out,
      w.extends out e,
      same ∙ ap (λ t. t ++ out) w.same ∙ append_assoc s.extended_patch_lines w.piece out,
    )

-- The lines that `process_patch_lines` joins are those of the patch in their order, where a hunk
-- header becomes an empty line and a new header, and all that is put in between are lines of the
-- original file, each behind a space.
pub extend_lines-keeps :
    (settings : ContextSettings) (a : Around) (patch_lines : List Text)
    → Extends a.file_original_lines patch_lines (
        (extend_lines settings a patch_lines extending).extended_patch_lines
        ++ lines_behind a (extend_lines settings a patch_lines extending))
extend_lines-keeps settings a patch_lines =
    let (out, e, same) = extend_lines-Extends settings a patch_lines extending in
    subst (Extends a.file_original_lines patch_lines) (sym same) e
