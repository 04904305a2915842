-- ===== src/CodeSuggestions/Suppress/Entries.antt =====
-- The entries for a line, in terms of the rows of the store.
use my_pr_agent.Prelude.{
  ℕ, ◌≡◌, ◌↔◌, refl, sym, ◌∙◌, ap, inl, inr, Bool, true, false, Bool-cases, ◌&&◌, some, List, [],
  ◌∷◌, ◌++◌, nat_eq, list_eq, ◌==◌, if◌then◌else◌, keep, keep-append, map, append_assoc, append-nil,
  arith, Eq,
}
use my_pr_agent.RuleCoverage.{FindKeys}
use my_pr_agent.Text.{Text, strip}
use my_pr_agent.Dict.{Dict, get, put, get-put}
use my_pr_agent.CodeSuggestions.Suppress.{
  Stored, Entry, LineMap, or_nothing, entry_of, is_entry, add_entry, resolved_entries, entries_at,
}

-- A row that counts for a file.
unfoldable pub is_prior : Text → Stored → Bool
unfolding is_entry strip
is_prior file row = is_entry row && strip row.file == file

unfoldable pub stands : Text → ℕ → Stored → Bool
unfolding is_prior
stands file line row = is_prior file row && row.line == line

abbrev pub looked_up : Text → ℕ → Dict Text LineMap → List Entry
looked_up file line resolved = entries_at line (or_nothing (get file resolved))

text_eq_iff : (a b : Text) → ((a == b) ≡ true) ↔ (a ≡ b)
text_eq_iff = Eq.same_iff (list_eq {A = ℕ})

line_eq_iff : (a b : ℕ) → ((a == b) ≡ true) ↔ (a ≡ b)
line_eq_iff = Eq.same_iff nat_eq

-- The entry, where a file and a line are those that are looked up.
unfoldable one_more : Text → ℕ → Text → ℕ → Entry → List Entry
one_more f l file line entry = if file == f && line == l then entry ∷ [] else []

line-put :
    (line l : ℕ) (entry : Entry) (lines : LineMap)
    → entries_at l (put line (or_nothing (get line lines) ++ entry ∷ []) lines)
      ≡ entries_at l lines ++ (if line == l then entry ∷ [] else [])
unfolding entries_at
line-put line l entry lines =
    let bucket = or_nothing (get line lines) ++ entry ∷ [] in
    let written = get-put line l bucket lines in
    elim (Bool-cases (line == l)) [
      | inl here ↦
          let at : get l (put line bucket lines) ≡ some bucket = written ∙ rw here refl in
          rw (here) (
            ap or_nothing at
            ∙ ap (λ t. or_nothing (get t lines) ++ entry ∷ []) ((line_eq_iff line l).0 here))
      | inr other ↦
          let at : get l (put line bucket lines) ≡ get l lines = written ∙ rw other refl in
          rw (other) (ap or_nothing at ∙ sym (append-nil (or_nothing (get l lines))))
    ]

add_entry-get :
    (f : Text) (l : ℕ) (file : Text) (line : ℕ) (entry : Entry) (resolved : Dict Text LineMap)
    → looked_up f l (add_entry file line entry resolved)
      ≡ looked_up f l resolved ++ one_more f l file line entry
unfolding add_entry one_more
add_entry-get f l file line entry resolved =
    let lines = or_nothing (get file resolved) in
    let more = put line (or_nothing (get line lines) ++ entry ∷ []) lines in
    let written = get-put file f more resolved in
    elim (Bool-cases (file == f)) [
      | inl here ↦
          let at : get f (put file more resolved) ≡ some more = written ∙ rw here refl in
          rw (here) (
            ap (λ o. entries_at l (or_nothing o)) at
            ∙ line-put line l entry lines
            ∙ ap (λ t. looked_up t l resolved ++ (if line == l then entry ∷ [] else []))
                ((text_eq_iff file f).0 here))
      | inr other ↦
          let at : get f (put file more resolved) ≡ get f resolved = written ∙ rw other refl in
          rw (other)
            (ap (λ o. entries_at l (or_nothing o)) at ∙ sym (append-nil (looked_up f l resolved)))
    ]

keep-stands :
    (find : FindKeys) (f : Text) (l : ℕ) (row : Stored)
    → is_entry row ≡ true
    → one_more f l (strip row.file) row.line (entry_of find row)
      ≡ map (entry_of find) (keep (stands f l) (row ∷ []))
unfolding one_more stands is_prior
keep-stands find f l row e = elim (Bool-cases (strip row.file == f && row.line == l)) [
  | inl h ↦ ground (arith, e, h)
  | inr h ↦ ground (arith, e, h)
]

keep-apart :
    (f : Text) (l : ℕ) (row : Stored) → is_entry row ≡ false → keep (stands f l) (row ∷ []) ≡ []
unfolding stands is_prior
keep-apart f l row e = ground (arith, e)

map-append :
    (find : FindKeys) (xs ys : List Stored)
    → map (entry_of find) (xs ++ ys) ≡ map (entry_of find) xs ++ map (entry_of find) ys
map-append find [] ys = refl
map-append find (x ∷ xs) ys = ap (λ t. entry_of find x ∷ t) (map-append find xs ys)

unfoldable add_row : FindKeys → Stored → Dict Text LineMap → Dict Text LineMap
unfolding add_entry
add_row find row resolved =
    if is_entry row
    then add_entry (strip row.file) row.line (entry_of find row) resolved
    else resolved

add_row-get :
    (find : FindKeys) (f : Text) (l : ℕ) (row : Stored) (resolved : Dict Text LineMap)
    → looked_up f l (add_row find row resolved)
      ≡ looked_up f l resolved ++ map (entry_of find) (keep (stands f l) (row ∷ []))
unfolding add_row
add_row-get find f l row resolved = elim (Bool-cases (is_entry row)) [
  | inl e ↦
      ap (looked_up f l) (rw (e) refl)
      ∙ add_entry-get f l (strip row.file) row.line (entry_of find row) resolved
      ∙ ap (λ t. looked_up f l resolved ++ t) (keep-stands find f l row e)
  | inr e ↦
      ap (looked_up f l) (rw (e) refl)
      ∙ sym (append-nil (looked_up f l resolved))
      ∙ ap (λ t. looked_up f l resolved ++ map (entry_of find) t) (sym (keep-apart f l row e))
]

-- The entries for a file and a line are those of the rows that stand there, in their order.
pub resolved_entries-get :
    (find : FindKeys) (f : Text) (l : ℕ) (resolved : Dict Text LineMap) (rows : List Stored)
    → looked_up f l (resolved_entries find resolved rows)
      ≡ looked_up f l resolved ++ map (entry_of find) (keep (stands f l) rows)
unfolding resolved_entries add_row
resolved_entries-get find f l resolved [] = sym (append-nil (looked_up f l resolved))
resolved_entries-get find f l resolved (row ∷ rows) =
    let one = map (entry_of find) (keep (stands f l) (row ∷ [])) in
    let others = map (entry_of find) (keep (stands f l) rows) in
    resolved_entries-get find f l (add_row find row resolved) rows
    ∙ ap (λ t. t ++ others) (add_row-get find f l row resolved)
    ∙ append_assoc (looked_up f l resolved) one others
    ∙ ap (λ t. looked_up f l resolved ++ t)
        (sym (map-append find (keep (stands f l) (row ∷ [])) (keep (stands f l) rows)))
    ∙ ap (λ t. looked_up f l resolved ++ map (entry_of find) t)
        (sym (keep-append (stands f l) (row ∷ []) rows))
