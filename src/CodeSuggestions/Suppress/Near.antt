-- ===== src/CodeSuggestions/Suppress/Near.antt =====
-- `_is_resolved`: the rows of the store that keep a suggestion from being posted.
use my_pr_agent.Prelude.{
  ℕ, zero, suc, ◌+◌, ◌-◌, ◌≡◌, refl, sym, ◌∙◌, ap, ap₂, inl, inr, Bool, false, Bool-cases, not,
  ◌&&◌, ◌||◌, List, [], ◌∷◌, nat_eq, list_eq, ◌==◌, if◌then◌else◌, keep, map, arith, any_of,
}
use my_pr_agent.RuleCoverage.{FindKeys}
use my_pr_agent.Text.{Text, codes, is_empty}
use my_pr_agent.Dict.{get}
use my_pr_agent.CodeSuggestions.Suppress.{
  Stored, Suppressing, LineMap, or_nothing, entry_of, resolved_entries, entries_at, or_states,
  states_at, states_around, is_dismissal, dismissed_within, is_resolved,
}
use my_pr_agent.CodeSuggestions.Suppress.Entries.{stands, resolved_entries-get}
use my_pr_agent.CodeSuggestions.Suppress.Rows.{
  off, same_rule, between, is_near, any_of-or, any_of-cong, any_of-never, states-empty,
  any_of-entries, or_states-empty, or_states-none, stands-around, between-none, between-suc,
  is_near-parts,
}

-- The entries for one file of a store.
module _ (find : FindKeys) (f : Text) (rows : List Stored) (lines : LineMap)
    (rest : (l : ℕ) → entries_at l lines ≡ map (entry_of find) (keep (stands f l) rows)) where
  at-empty :
      (l : ℕ) → is_empty (map (λ e. e.state) (entries_at l lines)) ≡ not (any_of (stands f l) rows)
  at-empty l =
      ap (λ t. is_empty (map (λ e. e.state) t)) (rest l) ∙ states-empty find (stands f l) rows

  around-empty :
      (l d : ℕ)
      → is_empty (
          or_states
            (map (λ e. e.state) (entries_at (l - suc d) lines))
            (map (λ e. e.state) (entries_at (l + suc d) lines)))
        ≡ not (any_of (off f l (suc d)) rows)
  around-empty l d =
      let a = any_of (stands f (l - suc d)) rows in
      let b = any_of (stands f (l + suc d)) rows in
      let both : (a || b) ≡ any_of (off f l (suc d)) rows =
        any_of-or (stands f (l - suc d)) (stands f (l + suc d)) rows
        ∙ any_of-cong (λ r. stands f (l - suc d) r || stands f (l + suc d) r) (off f l (suc d))
            (stands-around f l d) rows in
      ground (
        arith,
        both,
        at-empty (l - suc d),
        at-empty (l + suc d),
        or_states-empty (map (λ e. e.state) (entries_at (l - suc d) lines))
            (map (λ e. e.state) (entries_at (l + suc d) lines)),
      )

  dismissed-around :
      (keys : List Text) (l d : ℕ)
      → (any_of (is_dismissal keys) (entries_at (l - suc d) lines)
          || any_of (is_dismissal keys) (entries_at (l + suc d) lines))
        ≡ any_of (λ r. off f l (suc d) r && same_rule find keys r) rows
  dismissed-around keys l d =
      let p : Stored → Bool = λ r. stands f (l - suc d) r && same_rule find keys r in
      let q : Stored → Bool = λ r. stands f (l + suc d) r && same_rule find keys r in
      let before : any_of (is_dismissal keys) (entries_at (l - suc d) lines) ≡ any_of p rows =
        ap (any_of (is_dismissal keys)) (rest (l - suc d))
        ∙ any_of-entries find keys (stands f (l - suc d)) rows in
      let after : any_of (is_dismissal keys) (entries_at (l + suc d) lines) ≡ any_of q rows =
        ap (any_of (is_dismissal keys)) (rest (l + suc d))
        ∙ any_of-entries find keys (stands f (l + suc d)) rows in
      ap₂ (λ t u. t || u) before after
      ∙ any_of-or p q rows
      ∙ any_of-cong (λ r. p r || q r) (λ r. off f l (suc d) r && same_rule find keys r)
          (λ r. ground (arith, stands-around f l d r)) rows

  dismissed_within-any :
      (keys : List Text) (l d count : ℕ)
      → dismissed_within keys l (suc d) count lines
        ≡ any_of (between find keys f l (suc d) count) rows
  unfolding dismissed_within
  dismissed_within-any keys l d zero =
      sym (any_of-never rows)
      ∙ sym (
          any_of-cong (between find keys f l (suc d) 0) (λ r. false)
            (between-none find keys f l (suc d)) rows)
  dismissed_within-any keys l d (suc count) =
      let p : Stored → Bool = λ r. off f l (suc d) r && same_rule find keys r in
      let q = between find keys f l (suc (suc d)) count in
      ap₂ (λ t u. t || u) (dismissed-around keys l d) (dismissed_within-any keys l (suc d) count)
      ∙ any_of-or p q rows
      ∙ any_of-cong (λ r. p r || q r) (between find keys f l (suc d) (suc count))
          (between-suc find keys f l (suc d) count) rows

  -- Five tests of the rows are one.
  joined :
      (p q r s t : Stored → Bool)
      → (any_of p rows || (any_of q rows || (any_of r rows || (any_of s rows || any_of t rows))))
        ≡ any_of (λ x. p x || (q x || (r x || (s x || t x)))) rows
  joined p q r s t =
      let st : Stored → Bool = λ x. s x || t x in
      let rst : Stored → Bool = λ x. r x || st x in
      let qrst : Stored → Bool = λ x. q x || rst x in
      ap (λ u. any_of p rows || u)
        (ap (λ u. any_of q rows || u)
            (ap (λ u. any_of r rows || u) (any_of-or s t rows) ∙ any_of-or r st rows)
          ∙ any_of-or q rst rows)
      ∙ any_of-or p qrst rows

  is_resolved-empty :
      (h : Suppressing) (l : ℕ) (keys : List Text)
      → is_empty (is_resolved h lines l keys)
        ≡ not (not (l == 0) && any_of (is_near find h.rule_line_window f l keys) rows)
  unfolding is_resolved
  is_resolved-empty h l keys = elim (Bool-cases (l == 0)) [
    | inl none_given ↦ rw (none_given) refl
    | inr given ↦
        let wide : Stored → Bool = between find keys f l 4 (h.rule_line_window + 1 - 4) in
        let whole : (any_of (stands f l) rows
              || (any_of (off f l 1) rows
                  || (any_of (off f l 2) rows || (any_of (off f l 3) rows || any_of wide rows))))
            ≡ any_of (is_near find h.rule_line_window f l keys) rows =
          joined (stands f l) (off f l 1) (off f l 2) (off f l 3) wide
          ∙ any_of-cong
              (λ x. stands f l x || (off f l 1 x || (off f l 2 x || (off f l 3 x || wide x))))
              (is_near find h.rule_line_window f l keys)
              (is_near-parts find h.rule_line_window f l keys) rows in
        let far = dismissed_within keys l 4 (h.rule_line_window + 1 - 4) lines in
        let last : List Text = if far then codes "dismissed" ∷ [] else [] in
        let last_empty : is_empty last ≡ not (any_of wide rows) =
          ground (arith, dismissed_within-any keys l 3 (h.rule_line_window + 1 - 4)) in
        rw (given) (
          or_states-none (states_at l lines) (states_around l 1 lines) (states_around l 2 lines)
            (states_around l 3 lines) last _ _ _ _ _ (at-empty l) (around-empty l 0)
            (around-empty l 1) (around-empty l 2) last_empty
          ∙ ap not whole)
  ]

-- The states that are found for a file and a line are empty, which lets the suggestion be posted,
-- exactly when the line is not given or the store has no applied or dismissed row of that file within
-- 3 lines and no dismissed one with a rule key of the suggestion within the window.
pub is_resolved-near :
    (h : Suppressing) (rows : List Stored) (f : Text) (l : ℕ) (keys : List Text)
    → is_empty (is_resolved h (or_nothing (get f (resolved_entries h.find_keys [] rows))) l keys)
      ≡ not (not (l == 0) && any_of (is_near h.find_keys h.rule_line_window f l keys) rows)
unfolding entries_at
is_resolved-near h rows f l keys =
    is_resolved-empty h.find_keys f rows (or_nothing (get f (resolved_entries h.find_keys [] rows)))
      (λ k. resolved_entries-get h.find_keys f k [] rows) h l keys
