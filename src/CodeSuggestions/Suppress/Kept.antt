-- ===== src/CodeSuggestions/Suppress/Kept.antt =====
-- `_suppress_resolved_suggestions`: the suggestions that it keeps, by the rows of the store.
use my_pr_agent.Prelude.{
  ℕ, ◌≡◌, ◌↔◌, refl, sym, ◌∙◌, ap, ap₂, inl, inr, Bool, true, false, Bool-cases, not, ◌&&◌, ◌||◌,
  Option, Option-cases, none, some, is_some, List, [], ◌∷◌, nat_eq, list_eq, pair_eq, Eq, ◌==◌,
  contains, if◌then◌else◌, keep, arith, any_of,
}
use my_pr_agent.Text.{Text, is_empty, strip}
use my_pr_agent.Dict.{Dict, get, put, get-put}
use my_pr_agent.CodeSuggestions.{InlineSuggestion}
use my_pr_agent.CodeSuggestions.Suppress.{
  Stored, Suppressing, Reason, or_nothing, is_live, existing_fingerprints, existing_cohort,
  resolved_entries, is_resolved, rule_keys_of, cohort_of, prior_cohort, by_cohort, reason_for,
  suppress_from, suppress_resolved_suggestions,
}
use my_pr_agent.CodeSuggestions.Suppress.Rows.{is_near}
use my_pr_agent.CodeSuggestions.Suppress.Near.{is_resolved-near}

-- A row that is not superseded, with the fingerprint of the suggestion.
unfoldable pub same_patch : Text → Stored → Bool
same_patch fingerprint row =
    not (is_empty fingerprint) && (is_live row.state && row.fingerprint == fingerprint)

-- A row that is not superseded, with the cohort key of the suggestion, for the same head.
unfoldable pub same_cohort : Text → Text → Stored → Bool
same_cohort cohort head row =
    not (is_empty cohort)
    && (is_live row.state && (row.cohort_key == cohort && row.posted_head_sha == head))

-- Whether the store keeps a suggestion from being posted.
unfoldable pub is_suppressed : Suppressing → List Stored → List Stored → InlineSuggestion → Bool
unfolding strip cohort_of rule_keys_of same_patch same_cohort is_near
is_suppressed h existing rows s =
    any_of (same_patch s.fingerprint) rows
    || (any_of (same_cohort (cohort_of h s) s.posted_head_sha) rows
        || not (s.relevant_lines_start == 0)
          && any_of
              (is_near h.find_keys h.rule_line_window (strip s.relevant_file) s.relevant_lines_start
                (rule_keys_of h s))
              existing)

text_eq_iff : (a b : Text) → ((a == b) ≡ true) ↔ (a ≡ b)
text_eq_iff = Eq.same_iff (list_eq {A = ℕ})

fingerprints-any :
    (fp : Text) (rows : List Stored)
    → (not (is_empty fp) && contains (existing_fingerprints rows) fp) ≡ any_of (same_patch fp) rows
unfolding existing_fingerprints same_patch
fingerprints-any [] [] = refl
fingerprints-any (c ∷ fp) [] = refl
fingerprints-any [] (row ∷ rows) = fingerprints-any [] rows
fingerprints-any (c ∷ fp) (row ∷ rows) = elim (Bool-cases (row.fingerprint == (c ∷ fp))) [
  | inl h ↦
      let full : is_empty row.fingerprint ≡ false =
        ap is_empty ((text_eq_iff row.fingerprint (c ∷ fp)).0 h) in
      ground (arith, h, full, fingerprints-any (c ∷ fp) rows)
  | inr h ↦ ground (arith, h, fingerprints-any (c ∷ fp) rows)
]

suppress_from-kept :
    (reason : InlineSuggestion → Option Reason) (suggestions : List InlineSuggestion)
    → (suppress_from reason suggestions).0 ≡ keep (λ s. not (is_some (reason s))) suggestions
unfolding suppress_from
suppress_from-kept reason [] = refl
suppress_from-kept reason (s ∷ suggestions) = elim (Option-cases (reason s)) [
  | inl absent ↦
      rw (absent, suppress_from, keep) (ap (λ t. s ∷ t) (suppress_from-kept reason suggestions))
  | inr (why, given) ↦ rw (given, suppress_from, keep) (suppress_from-kept reason suggestions)
]

keep-same :
    (p q : InlineSuggestion → Bool)
    → ((s : InlineSuggestion) → p s ≡ q s)
    → (suggestions : List InlineSuggestion) → keep p suggestions ≡ keep q suggestions
keep-same p q h [] = refl
keep-same p q h (s ∷ suggestions) = ground (arith, h s, keep-same p q h suggestions)

unfoldable add_cohort : Dict (Text × Text) Text → Stored → Dict (Text × Text) Text
unfolding get put
add_cohort cohort row =
    let key : Text × Text = (row.cohort_key, row.posted_head_sha) in
    let more : Dict (Text × Text) Text = elim (get key cohort) [
      | none ↦ put key row.state cohort
      | some _ ↦ cohort
    ] in
    if is_empty row.cohort_key || not (is_live row.state) then cohort else more

key_eq_iff : (a b : Text × Text) → ((a == b) ≡ true) ↔ (a ≡ b)
key_eq_iff = Eq.same_iff (pair_eq {A = Text} {B = Text})

-- The key is there after a row is entered, when it was or is the row's.
entered :
    (rk key : Text × Text) (state : Text) (cohort : Dict (Text × Text) Text)
    → is_some (get key (elim (get rk cohort) [ none ↦ put rk state cohort | some _ ↦ cohort ]))
      ≡ (is_some (get key cohort) || rk == key)
entered rk key state cohort = elim (Option-cases (get rk cohort)) [
  | inl absent ↦ rw (absent) (elim (Bool-cases (rk == key)) [
    | inl same ↦
        let at : get key (put rk state cohort) ≡ some state =
          get-put rk key state cohort ∙ rw same refl in
        let before : get key cohort ≡ none =
          ap (λ k. get k cohort) (sym ((key_eq_iff rk key).0 same)) ∙ absent in
        rw (at, before, same) refl
    | inr other ↦
        let at : get key (put rk state cohort) ≡ get key cohort =
          get-put rk key state cohort ∙ rw other refl in
        rw (at, other) (ground arith)
  ])
  | inr (v, found) ↦ rw (found) (elim (Bool-cases (rk == key)) [
    | inl same ↦
        let at : get key cohort ≡ some v =
          ap (λ k. get k cohort) (sym ((key_eq_iff rk key).0 same)) ∙ found in
        rw (at) refl
    | inr other ↦ rw (other) (ground arith)
  ])
]

add_cohort-some :
    (c : ℕ) (ck head : Text) (cohort : Dict (Text × Text) Text) (row : Stored)
    → is_some (get (c ∷ ck, head) (add_cohort cohort row))
      ≡ (is_some (get (c ∷ ck, head) cohort) || same_cohort (c ∷ ck) head row)
unfolding add_cohort same_cohort
add_cohort-some c ck head cohort row =
    let one = entered (row.cohort_key, row.posted_head_sha) (c ∷ ck, head) row.state cohort in
    elim (Bool-cases (row.cohort_key == (c ∷ ck))) [
      | inl h ↦
          let full : is_empty row.cohort_key ≡ false =
            ap is_empty ((text_eq_iff row.cohort_key (c ∷ ck)).0 h) in
          elim (Bool-cases (is_live row.state)) [
            | inl live ↦ rw (full, live) (one)
            | inr over ↦ rw (full, over) (ground arith)
          ]
      | inr h ↦ ground (arith, h, one)
    ]

existing_cohort-some :
    (c : ℕ) (ck head : Text) (cohort : Dict (Text × Text) Text) (rows : List Stored)
    → is_some (get (c ∷ ck, head) (existing_cohort cohort rows))
      ≡ (is_some (get (c ∷ ck, head) cohort) || any_of (same_cohort (c ∷ ck) head) rows)
unfolding existing_cohort add_cohort
existing_cohort-some c ck head cohort [] = ground arith
existing_cohort-some c ck head cohort (row ∷ rows) = ground (
  arith,
  add_cohort-some c ck head cohort row,
  existing_cohort-some c ck head (add_cohort cohort row) rows,
)

cohort-any :
    (ck head : Text) (rows : List Stored)
    → is_some (prior_cohort ck head (existing_cohort [] rows)) ≡ any_of (same_cohort ck head) rows
unfolding get same_cohort
cohort-any [] head [] = refl
cohort-any [] head (row ∷ rows) = cohort-any [] head rows
cohort-any (c ∷ ck) head rows = existing_cohort-some c ck head [] rows

-- The three tests, as a test of each.
reasons-some :
    (patch : Bool) (prior : Option Text) (states : List Text)
    → is_some (if patch then some Reason.fingerprint_existing else by_cohort prior states)
      ≡ (patch || (is_some prior || not (is_empty states)))
reasons-some true prior states = refl
reasons-some false (some state) states = refl
reasons-some false none [] = refl
reasons-some false none (s ∷ states) = refl

reason_for-some :
    (h : Suppressing) (existing rows : List Stored) (s : InlineSuggestion)
    → is_some (
        reason_for h
          (existing_fingerprints rows)
          (existing_cohort [] rows)
          (resolved_entries h.find_keys [] existing)
          s)
      ≡ is_suppressed h existing rows s
unfolding reason_for is_suppressed
reason_for-some h existing rows s =
    let file = strip s.relevant_file in
    let line = s.relevant_lines_start in
    let keys = rule_keys_of h s in
    let lines = or_nothing (get file (resolved_entries h.find_keys [] existing)) in
    let states = is_resolved h lines line keys in
    let prior = prior_cohort (cohort_of h s) s.posted_head_sha (existing_cohort [] rows) in
    let near = is_near h.find_keys h.rule_line_window file line keys in
    let patch =
      not (is_empty s.fingerprint) && contains (existing_fingerprints rows) s.fingerprint in
    let third : not (is_empty states) ≡ (not (line == 0) && any_of near existing) =
      ground (arith, is_resolved-near h existing file line keys) in
    reasons-some patch prior states
    ∙ ap₂ (λ a b. a || b) (fingerprints-any s.fingerprint rows)
        (ap₂ (λ a b. a || b) (cohort-any (cohort_of h s) s.posted_head_sha rows) third)

-- Where the store can be read, the suggestions that are kept are, in their order, those for which it
-- has no row that is not superseded with the same fingerprint, none with the same cohort key for the
-- same head, and no applied or dismissed row near the line.
pub suppress_resolved_suggestions-kept :
    (h : Suppressing) (existing rows : List Stored) (suggestions : List InlineSuggestion)
    → (suppress_resolved_suggestions h (some existing) rows suggestions).0
      ≡ keep (λ s. not (is_suppressed h existing rows s)) suggestions
unfolding suppress_resolved_suggestions
suppress_resolved_suggestions-kept h existing rows suggestions =
    let reason : InlineSuggestion → Option Reason =
      reason_for h (existing_fingerprints rows) (existing_cohort [] rows)
        (resolved_entries h.find_keys [] existing) in
    suppress_from-kept reason suggestions
    ∙ keep-same (λ s. not (is_some (reason s))) (λ s. not (is_suppressed h existing rows s))
        (λ s. ap not (reason_for-some h existing rows s)) suggestions
