-- ===== src/SuggestionMatcher/Regions/Drift.antt =====
-- What the three stages of `target_region_changed` come to.
use my_pr_agent.Prelude.{
  ℕ, ◌+◌, ◌-◌, ◌≤◌, ◌<◌, ◌≡◌, subst, inl, inr, true, false, not, Bool-cases, ◌&&◌, List, [], ◌∷◌,
  min, max, leb, nat_eq, ◌==◌, if◌then◌else◌, length, slice, any_of, arith, All,
}
use my_pr_agent.Text.{Text}
use my_pr_agent.SuggestionMatcher.{normalize_file_lines}
use my_pr_agent.SuggestionMatcher.Regions.{
  Opcode, GetOpcodes, is_equal, window_unchanged, longest_equal, drift_check, target_region_changed,
}
use my_pr_agent.SuggestionMatcher.Regions.Slices.{
  IsPart, IsPart-slice, IsPart-trans, slice-inner, slice-clip,
}

-- What `difflib` documents. An opcode `equal` names a part of the first list and an equal part of the
-- second one. The longest contiguous part that both have is among the matches: a first list that
-- stands in the second one as a whole is matched as a whole.
pub record IsMatcher (get_opcodes : GetOpcodes) : Type 0 where
  pub equal_parts :
      (a b : List Text)
      → All
          (λ op.
            is_equal op.tag ≡ true
            → (op.i1 ≤ op.i2) × ((op.i2 ≤ length a) × (slice a op.i1 op.i2 ≡ slice b op.j1 op.j2)))
          (get_opcodes a b)
  pub whole_match :
      (a b : List Text)
      → IsPart a b
      → 0 < length a
      → any_of (λ op. is_equal op.tag && op.i2 - op.i1 == length a) (get_opcodes a b) ≡ true

longest-start : (n : ℕ) (ops : List Opcode) → n ≤ longest_equal n ops
unfolding longest_equal
longest-start n [] = omega arith
longest-start n (op ∷ ops) =
    ground (arith, longest-start n ops, longest-start (max n (op.i2 - op.i1)) ops)

longest-any :
    (n k : ℕ) (ops : List Opcode)
    → any_of (λ op. is_equal op.tag && op.i2 - op.i1 == k) ops ≡ true
    → k ≤ longest_equal n ops
unfolding longest_equal
longest-any n k [] h = ground arith
longest-any n k (op ∷ ops) h = ground (
  arith,
  longest-start (max n (op.i2 - op.i1)) ops,
  longest-any n k ops,
  longest-any (max n (op.i2 - op.i1)) k ops,
)

-- Where the target stands in the current lines the later stages do not find a change.
drift-part :
    (g : GetOpcodes) (m : IsMatcher g) (posted current : List Text) (start stop : ℕ)
    → IsPart (slice posted (start - 1) stop) current
    → drift_check g posted current start stop ≡ false
unfolding drift_check
drift-part g m posted current start stop part =
    let target = slice posted (start - 1) stop in
    ground
      (arith, m.whole_match target current part, longest-any 0 (length target) (g target current))

-- An unchanged window puts what lies in it into the current lines.
window-part :
    (posted current : List Text) (ops : List Opcode) (i a b j : ℕ)
    → All
        (λ op.
          is_equal op.tag ≡ true
          → (op.i1 ≤ op.i2)
            × ((op.i2 ≤ length posted) × (slice posted op.i1 op.i2 ≡ slice current op.j1 op.j2)))
        ops
    → window_unchanged i j ops ≡ true
    → i ≤ a
    → a ≤ b
    → b ≤ j
    → IsPart (slice posted a b) current
unfolding window_unchanged
window-part posted current [] i a b j h w ia ab bj = ground arith
window-part posted current (op ∷ ops) i a b j (hop, h) w ia ab bj =
    elim (Bool-cases (is_equal op.tag && (leb op.i1 i && leb j op.i2))) [
      | inl found ↦
          let (ordered, (_, same)) = hop (ground arith) in
          IsPart-trans _ _ _ (slice-inner posted op.i1 a b op.i2 (ground arith) ab (ground arith))
            (rw same (IsPart-slice current op.j1 op.j2))
      | inr other ↦ window-part posted current ops i a b j h (ground arith) ia ab bj
    ]

no_drift :
    (g : GetOpcodes) (m : IsMatcher g) (posted current : List Text) (line end_line context : ℕ)
    → line ≤ end_line
    → line ≤ length posted
    → window_unchanged
        (line - 1 - context)
        (min (length posted) (end_line + context))
        (g posted current)
      ≡ true
    → drift_check g posted current line end_line ≡ false
no_drift g m posted current line end_line context ordered within unchanged =
    drift-part g m posted current line end_line (
      subst (λ t. IsPart t current) (slice-clip posted (line - 1) end_line)
        (window-part posted current (g posted current) (line - 1 - context) (line - 1)
          (min (length posted) end_line) (min (length posted) (end_line + context))
          (m.equal_parts posted current) unchanged (omega arith) (omega arith) (omega arith)))

-- The region has changed exactly if the lines exist and no equal part covers them and their context.
pub target_region_changed_lem :
    (g : GetOpcodes) (m : IsMatcher g) (posted_content current_content : Text)
    (line line_end context : ℕ)
    → let posted = normalize_file_lines posted_content in
      let end_line = if line_end == 0 then line else line_end in
      target_region_changed g posted_content current_content line line_end context ≡ (
        leb 1 line
        && leb line end_line
        && leb line (length posted)
        && not (
            window_unchanged
              (line - 1 - context)
              (min (length posted) (end_line + context))
              (g posted (normalize_file_lines current_content))))
unfolding target_region_changed
target_region_changed_lem g m posted_content current_content line line_end context =
    let posted = normalize_file_lines posted_content in
    let end_line = if line_end == 0 then line else line_end in
    ground (arith, no_drift g m posted (normalize_file_lines current_content) line end_line context)
