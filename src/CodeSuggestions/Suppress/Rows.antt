-- ===== src/CodeSuggestions/Suppress/Rows.antt =====
-- Rows of the store by their distance from a line, and tests of all rows.
use my_pr_agent.Prelude.{
  ℕ, suc, ◌+◌, ◌-◌, ◌≡◌, refl, ap, ap₂, inl, inr, Bool, true, false, Bool-cases, not, ◌&&◌, ◌||◌,
  List, [], ◌∷◌, nat_eq, list_eq, ◌==◌, leb, ltb, contains, keep, map, arith, any_of,
}
use my_pr_agent.RuleCoverage.{FindKeys}
use my_pr_agent.Text.{Text, codes, is_empty}
use my_pr_agent.CodeSuggestions.Suppress.{
  Stored, entry_of, is_entry, or_states, is_dismissal, extract_rule_keys_from_text,
}
use my_pr_agent.CodeSuggestions.Suppress.Entries.{is_prior, stands}

abbrev pub distance : ℕ → ℕ → ℕ
distance a b = (a - b) + (b - a)

-- A row that counts for the file and is that far from the line.
unfoldable pub off : Text → ℕ → ℕ → Stored → Bool
unfolding is_prior
off file line delta row = is_prior file row && distance line row.line == delta

-- A dismissed row with one of the rule keys.
unfoldable pub same_rule : FindKeys → List Text → Stored → Bool
unfolding extract_rule_keys_from_text
same_rule find keys row =
    row.state == codes "dismissed"
    && any_of (contains (extract_rule_keys_from_text find row.rule_keys)) keys

-- A row with one of the rule keys, at a distance from `delta` to below `delta + count`.
unfoldable pub between : FindKeys → List Text → Text → ℕ → ℕ → ℕ → Stored → Bool
unfolding is_prior same_rule
between find keys file line delta count row =
    is_prior file row
    && (leb delta (distance line row.line)
        && (ltb (distance line row.line) (delta + count) && same_rule find keys row))

-- Whether a row keeps a suggestion for the file and the line, with those rule keys, from being posted.
unfoldable pub is_near : FindKeys → ℕ → Text → ℕ → List Text → Stored → Bool
unfolding is_prior same_rule
is_near find window file line keys row =
    is_prior file row
    && (leb (distance line row.line) 3
        || same_rule find keys row && leb (distance line row.line) window)

pub any_of-or :
    (p q : Stored → Bool) (rows : List Stored)
    → (any_of p rows || any_of q rows) ≡ any_of (λ r. p r || q r) rows
any_of-or p q [] = refl
any_of-or p q (row ∷ rows) = ground (arith, any_of-or p q rows)

pub any_of-cong :
    (p q : Stored → Bool)
    → ((r : Stored) → p r ≡ q r)
    → (rows : List Stored) → any_of p rows ≡ any_of q rows
any_of-cong p q h [] = refl
any_of-cong p q h (row ∷ rows) = ap₂ (λ a b. a || b) (h row) (any_of-cong p q h rows)

pub any_of-never : (rows : List Stored) → any_of (λ r. false) rows ≡ false
any_of-never [] = refl
any_of-never (row ∷ rows) = any_of-never rows

pub states-empty :
    (find : FindKeys) (p : Stored → Bool) (rows : List Stored)
    → is_empty (map (λ e. e.state) (map (entry_of find) (keep p rows))) ≡ not (any_of p rows)
states-empty find p [] = refl
states-empty find p (row ∷ rows) = elim (Bool-cases (p row)) [
  | inl h ↦ rw (h, keep) refl
  | inr h ↦ rw (h, keep) (states-empty find p rows)
]

pub any_of-entries :
    (find : FindKeys) (keys : List Text) (p : Stored → Bool) (rows : List Stored)
    → any_of (is_dismissal keys) (map (entry_of find) (keep p rows))
      ≡ any_of (λ r. p r && same_rule find keys r) rows
unfolding entry_of same_rule
any_of-entries find keys p [] = refl
any_of-entries find keys p (row ∷ rows) = elim (Bool-cases (p row)) [
  | inl h ↦ rw (h, keep) (ap (λ t. same_rule find keys row || t) (any_of-entries find keys p rows))
  | inr h ↦ rw (h, keep) (any_of-entries find keys p rows)
]

pub or_states-empty : (a b : List Text) → is_empty (or_states a b) ≡ (is_empty a && is_empty b)
or_states-empty [] b = refl
or_states-empty (s ∷ a) b = refl

or_states-one :
    (a b : List Text) (p q : Bool)
    → is_empty a ≡ not p
    → is_empty b ≡ not q
    → is_empty (or_states a b) ≡ not (p || q)
or_states-one a b p q ha hb = ground (arith, ha, hb, or_states-empty a b)

pub or_states-none :
    (a b c d e : List Text) (p q r s t : Bool)
    → is_empty a ≡ not p
    → is_empty b ≡ not q
    → is_empty c ≡ not r
    → is_empty d ≡ not s
    → is_empty e ≡ not t
    → is_empty (or_states a (or_states b (or_states c (or_states d e))))
      ≡ not (p || (q || (r || (s || t))))
or_states-none a b c d e p q r s t ha hb hc hd he =
    or_states-one a (or_states b (or_states c (or_states d e))) p (q || (r || (s || t))) ha (
      or_states-one b (or_states c (or_states d e)) q (r || (s || t)) hb
        (or_states-one c (or_states d e) r (s || t) hc (or_states-one d e s t hd he)))

prior-line : (f : Text) (row : Stored) → is_prior f row ≡ true → (row.line == 0) ≡ false
unfolding is_prior is_entry
prior-line f row h = ground arith

pub stands-around :
    (f : Text) (l d : ℕ) (row : Stored)
    → (stands f (l - suc d) row || stands f (l + suc d) row) ≡ off f l (suc d) row
unfolding stands off
stands-around f l d row = elim (Bool-cases (is_prior f row)) [
  | inl h ↦ ground (arith, h, prior-line f row h)
  | inr h ↦ rw (h) refl
]

pub between-none :
    (find : FindKeys) (keys : List Text) (f : Text) (l d : ℕ) (row : Stored)
    → between find keys f l d 0 row ≡ false
unfolding between
between-none find keys f l d row = ground arith

pub between-suc :
    (find : FindKeys) (keys : List Text) (f : Text) (l d count : ℕ) (row : Stored)
    → (off f l d row && same_rule find keys row || between find keys f l (suc d) count row)
      ≡ between find keys f l d (suc count) row
unfolding between off
between-suc find keys f l d count row =
    elim (Bool-cases (is_prior f row && same_rule find keys row)) [
      | inl h ↦ ground (arith, h)
      | inr h ↦ ground (arith, h)
    ]

pub is_near-parts :
    (find : FindKeys) (window : ℕ) (f : Text) (l : ℕ) (keys : List Text) (row : Stored)
    → (stands f l row
        || (off f l 1 row
            || (off f l 2 row || (off f l 3 row || between find keys f l 4 (window + 1 - 4) row))))
      ≡ is_near find window f l keys row
unfolding between off stands is_near
is_near-parts find window f l keys row = elim (Bool-cases (is_prior f row)) [
  | inl h ↦ elim (Bool-cases (same_rule find keys row)) [
    | inl same ↦ ground (arith, h, same)
    | inr other ↦ ground (arith, h, other)
  ]
  | inr h ↦ rw (h) refl
]
