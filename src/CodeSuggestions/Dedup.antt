-- ===== src/CodeSuggestions/Dedup.antt =====
-- One suggestion is kept for each site, the best of those for it.
use my_pr_agent.Prelude.{
  ℕ, ◌≡◌, ◌↔◌, refl, append_assoc, sym, ◌∙◌, ap, ap₂, inl, inr, Bool, true, false, Bool-cases, All,
  subst, none, some, List, [], ◌∷◌, ◌++◌, leb, nat_eq, pair_eq, list_eq, pair_beq_iff, ◌==◌,
  if◌then◌else◌, take, keep, keep-append, append-nil,
}
use my_pr_agent.Text.{Text}
use my_pr_agent.Dict.{Dict, get, put, get-put, Distinct, Distinct-put}
use my_pr_agent.Dict.Entries.{Everywhere}
use my_pr_agent.CodeSuggestions.{
  InlineSuggestion, insert_suggestion, sort_by_score, Site, site_of, bucket_of, group_by_site,
  winner, winners, dedup_same_round_suggestions,
}

-- The first one of the highest score.
abbrev better : InlineSuggestion → List InlineSuggestion → List InlineSuggestion
better s [] = s ∷ []
better s (t ∷ rest) = if leb t.score s.score then s ∷ [] else t ∷ []

unfoldable pub first_best : List InlineSuggestion → List InlineSuggestion
first_best [] = []
first_best (s ∷ suggestions) = better s (first_best suggestions)

unfoldable pub is_at : Site → InlineSuggestion → Bool
unfolding site_of
is_at site s = site_of s == site

site_eq_iff : (a b : Site) → ((a == b) ≡ true) ↔ (a ≡ b)
site_eq_iff = pair_beq_iff (list_eq {A = ℕ}) (pair_eq {A = ℕ} {B = Text})

take-insert :
    (s : InlineSuggestion) (sorted : List InlineSuggestion)
    → take 1 (insert_suggestion s sorted) ≡ better s (take 1 sorted)
unfolding insert_suggestion
take-insert s [] = refl
take-insert s (t ∷ sorted) = elim (Bool-cases (leb t.score s.score)) [
  | inl le ↦ rw (le, insert_suggestion) refl
  | inr gt ↦ rw (gt, insert_suggestion) refl
]

winner-first_best : (bucket : List InlineSuggestion) → winner bucket ≡ first_best bucket
unfolding winner sort_by_score first_best
winner-first_best [] = refl
winner-first_best (s ∷ bucket) =
    take-insert s (sort_by_score bucket) ∙ ap (better s) (winner-first_best bucket)

-- All stand at the site.
abbrev AllAt : Site → List InlineSuggestion → Type 0
AllAt site = All (λ s. is_at site s ≡ true)

better-AllAt :
    (site : Site) (s : InlineSuggestion) (rest : List InlineSuggestion)
    → is_at site s ≡ true
    → AllAt site rest
    → AllAt site (better s rest)
better-AllAt site s [] h hs = (h, tt)
better-AllAt site s (t ∷ rest) h (ht, hs) = elim (Bool-cases (leb t.score s.score)) [
  | inl le ↦ rw (le, better) (h, tt)
  | inr gt ↦ rw (gt, better) (ht, tt)
]

first_best-AllAt :
    (site : Site) (bucket : List InlineSuggestion)
    → AllAt site bucket
    → AllAt site (first_best bucket)
unfolding first_best
first_best-AllAt site [] h = tt
first_best-AllAt site (s ∷ bucket) (h, hs) =
    better-AllAt site s (first_best bucket) h (first_best-AllAt site bucket hs)

keep-AllAt :
    (site : Site) (bucket : List InlineSuggestion)
    → AllAt site bucket
    → keep (is_at site) bucket ≡ bucket
keep-AllAt site [] h = refl
keep-AllAt site (s ∷ bucket) (h, hs) = rw (h, keep) (ap (λ t. s ∷ t) (keep-AllAt site bucket hs))

is_at-site : (site : Site) (s : InlineSuggestion) → is_at site s ≡ (site_of s == site)
unfolding is_at
is_at-site site s = refl

keep-others :
    (site other : Site) (bucket : List InlineSuggestion)
    → AllAt other bucket
    → (other == site) ≡ false
    → keep (is_at site) bucket ≡ []
keep-others site other [] h apart = refl
keep-others site other (s ∷ bucket) (h, hs) apart =
    let elsewhere : is_at site s ≡ false =
      is_at-site site s
      ∙ subst (λ t. (t == site) ≡ false)
          (sym ((site_eq_iff (site_of s) other).0 (sym (is_at-site other s) ∙ h))) apart in
    rw (elsewhere, keep) (keep-others site other bucket hs apart)

-- The groups with one more suggestion.
abbrev grown :
    Dict Site (List InlineSuggestion) → InlineSuggestion → Dict Site (List InlineSuggestion)
grown groups s = put (site_of s) (bucket_of (get (site_of s) groups) ++ s ∷ []) groups

keep-one-true :
    (site : Site) (s : InlineSuggestion) → is_at site s ≡ true → keep (is_at site) (s ∷ []) ≡ s ∷ []
keep-one-true site s h = rw (h, keep) refl

keep-one-false :
    (site : Site) (s : InlineSuggestion) → is_at site s ≡ false → keep (is_at site) (s ∷ []) ≡ []
keep-one-false site s h = rw (h, keep) refl

grown-get :
    (site : Site) (groups : Dict Site (List InlineSuggestion)) (s : InlineSuggestion)
    → bucket_of (get site (grown groups s))
      ≡ bucket_of (get site groups) ++ keep (is_at site) (s ∷ [])
grown-get site groups s =
    let bucket = bucket_of (get (site_of s) groups) ++ s ∷ [] in
    let written = get-put (site_of s) site bucket groups in
    elim (Bool-cases (site_of s == site)) [
      | inl here ↦
          let one = keep-one-true site s (is_at-site site s ∙ here) in
          let at : get site (grown groups s) ≡ some bucket = written ∙ rw here refl in
          ap bucket_of at
          ∙ ap₂ (λ t u. bucket_of (get t groups) ++ u) ((site_eq_iff (site_of s) site).0 here)
              (sym one)
      | inr other ↦
          let one = keep-one-false site s (is_at-site site s ∙ other) in
          let at : get site (grown groups s) ≡ get site groups = written ∙ rw other refl in
          ap bucket_of at
          ∙ (sym (append-nil (bucket_of (get site groups)))
              ∙ ap (λ u. bucket_of (get site groups) ++ u) (sym one))
    ]

group-get :
    (site : Site) (groups : Dict Site (List InlineSuggestion)) (suggestions : List InlineSuggestion)
    → bucket_of (get site (group_by_site groups suggestions))
      ≡ bucket_of (get site groups) ++ keep (is_at site) suggestions
unfolding group_by_site
group-get site groups [] = sym (append-nil (bucket_of (get site groups)))
group-get site groups (s ∷ suggestions) =
    group-get site (grown groups s) suggestions
    ∙ (ap (λ t. t ++ keep (is_at site) suggestions) (grown-get site groups s)
        ∙ (append_assoc (bucket_of (get site groups)) (keep (is_at site) (s ∷ []))
              (keep (is_at site) suggestions)
            ∙ ap (λ t. bucket_of (get site groups) ++ t)
                (sym (keep-append (is_at site) (s ∷ []) suggestions))))

AllAt-keep :
    (site : Site) (suggestions : List InlineSuggestion) → AllAt site (keep (is_at site) suggestions)
AllAt-keep site [] = tt
AllAt-keep site (s ∷ suggestions) = elim (Bool-cases (is_at site s)) [
  | inl here ↦ rw (here, keep) (here, AllAt-keep site suggestions)
  | inr other ↦ rw (other, keep) (AllAt-keep site suggestions)
]

group-Distinct :
    (suggestions : List InlineSuggestion) (groups : Dict Site (List InlineSuggestion))
    → Distinct groups
    → Distinct (group_by_site groups suggestions)
unfolding group_by_site
group-Distinct [] groups d = d
group-Distinct (s ∷ suggestions) groups d =
    group-Distinct suggestions (grown groups s)
      (Distinct-put (site_of s) (bucket_of (get (site_of s) groups) ++ s ∷ []) groups d)

Everywhere-tail :
    (other : Site) (bucket : List InlineSuggestion) (groups : Dict Site (List InlineSuggestion))
    → get other groups ≡ none
    → Everywhere AllAt ((other, bucket) ∷ groups)
    → AllAt other bucket × Everywhere AllAt groups
unfolding get
Everywhere-tail other bucket groups fresh h = (
  h other bucket (rw ((site_eq_iff other other).1 refl, get) refl),
  λ site found e. elim (Bool-cases (other == site)) [
    | inl same ↦ cc (sym fresh ∙ (ap (λ t. get t groups) ((site_eq_iff other site).0 same) ∙ e))
    | inr apart ↦ h site found (rw (apart, get) e)
  ],
)

winners-here :
    (site : Site) (bucket : List InlineSuggestion)
    → AllAt site bucket
    → keep (is_at site) (winner bucket) ≡ first_best bucket
winners-here site bucket h =
    ap (keep (is_at site)) (winner-first_best bucket)
    ∙ keep-AllAt site (first_best bucket) (first_best-AllAt site bucket h)

winners-apart :
    (site other : Site) (bucket : List InlineSuggestion)
    → AllAt other bucket
    → (other == site) ≡ false
    → keep (is_at site) (winner bucket) ≡ []
winners-apart site other bucket h apart =
    ap (keep (is_at site)) (winner-first_best bucket)
    ∙ keep-others site other (first_best bucket) (first_best-AllAt other bucket h) apart

winners-keep :
    (site : Site) (groups : Dict Site (List InlineSuggestion))
    → Distinct groups
    → Everywhere AllAt groups
    → keep (is_at site) (winners groups) ≡ first_best (bucket_of (get site groups))
unfolding winners get first_best
winners-keep site [] d h = refl
winners-keep site ((other, bucket) ∷ groups) (fresh, d) h =
    let (here, rest) = Everywhere-tail other bucket groups fresh h in
    let later = winners-keep site groups d rest in
    keep-append (is_at site) (winner bucket) (winners groups) ∙ elim (Bool-cases (other == site)) [
      | inl same ↦
          let eq = (site_eq_iff other site).0 same in
          let empty : get site groups ≡ none = ap (λ t. get t groups) (sym eq) ∙ fresh in
          rw (same, get)
            (ap₂ (λ t u. t ++ u) (winners-here site bucket (subst (λ t. AllAt t bucket) eq here))
                (later ∙ ap (λ o. first_best (bucket_of o)) empty)
              ∙ append-nil (first_best bucket))
      | inr apart ↦
          rw (apart, get) (ap₂ (λ t u. t ++ u) (winners-apart site other bucket here apart) later)
    ]

grouped-AllAt :
    (suggestions : List InlineSuggestion) → Everywhere AllAt (group_by_site [] suggestions)
unfolding get
grouped-AllAt suggestions site bucket e =
    subst (AllAt site) (sym (group-get site [] suggestions) ∙ ap bucket_of e)
      (AllAt-keep site suggestions)

-- Of the suggestions for a site, a file with a first line and a label, exactly one is kept, the
-- first one of the highest score; none is kept for a site that no suggestion has.
pub dedup_same_round_suggestions-site :
    (suggestions : List InlineSuggestion) (site : Site)
    → keep (is_at site) (dedup_same_round_suggestions suggestions)
      ≡ first_best (keep (is_at site) suggestions)
unfolding dedup_same_round_suggestions get
dedup_same_round_suggestions-site suggestions site =
    winners-keep site (group_by_site [] suggestions) (group-Distinct suggestions [] tt)
      (grouped-AllAt suggestions)
    ∙ ap first_best (group-get site [] suggestions)
