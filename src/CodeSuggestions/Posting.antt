-- ===== src/CodeSuggestions/Posting.antt =====
-- `push_inline_code_suggestions`: from the suggestions that were parsed to those that are posted.
use my_pr_agent.Prelude.{
  ℕ, zero, suc, ◌+◌, ◌-◌, ◌≤◌, ◌≡◌, refl, inl, inr, Bool-cases, Option, Option-cases, none, some,
  List, [], ◌∷◌, ◌++◌, nat_eq, pair_eq, list_eq, length, length-append, length-take, take, map,
  ◌==◌, arith,
}
use my_pr_agent.Text.{Text, strip}
use my_pr_agent.Dict.{Dict, get, put}
use my_pr_agent.CodeSuggestions.{
  InlineSuggestion, insert_suggestion, sort_by_score, rank_and_limit, Site, site_of, bucket_of,
  group_by_site, winner, winners, dedup_same_round_suggestions,
}
use my_pr_agent.CodeSuggestions.Suppress.{
  Stored, Suppressing, Reason, suppress_from, suppress_resolved_suggestions,
}

pub record SuggestionOutcome : Type 0 where
  pub llm_emitted : ℕ
  pub dedup_dropped : ℕ
  pub suppressed_count : ℕ
  pub limit_dropped : ℕ
  pub kept : ℕ
  pub suppressed_lines : List (Text × (ℕ × Text))
  pub suppressed_records : List (InlineSuggestion × Reason)

abbrev suppressed_line : InlineSuggestion → Text × (ℕ × Text)
suppressed_line s = (s.relevant_file, (s.relevant_lines_start, strip s.label))

-- What is posted, and the numbers that are reported.
unfoldable pub select_suggestions :
    Suppressing
    → ℕ
    → Option (List Stored)
    → List Stored
    → List InlineSuggestion
    → List InlineSuggestion × SuggestionOutcome
unfolding dedup_same_round_suggestions suppress_resolved_suggestions rank_and_limit strip
select_suggestions h limit existing rows parsed =
    let distinct = dedup_same_round_suggestions parsed in
    let open_ones : List InlineSuggestion × List (InlineSuggestion × Reason) =
      suppress_resolved_suggestions h existing rows distinct in
    let suppressed = length distinct - length open_ones.0 in
    let ranked : List InlineSuggestion × ℕ = rank_and_limit limit open_ones.0 in
    let outcome : SuggestionOutcome = record {
      llm_emitted = length parsed;
      dedup_dropped = length parsed - length distinct;
      suppressed_count = suppressed;
      limit_dropped = ranked.1;
      kept = length ranked.0;
      suppressed_lines = take suppressed (map suppressed_line distinct);
      suppressed_records = open_ones.1;
    } in
    (ranked.0, outcome)

length-insert :
    (s : InlineSuggestion) (sorted : List InlineSuggestion)
    → length (insert_suggestion s sorted) ≡ 1 + length sorted
unfolding insert_suggestion
length-insert s [] = refl
length-insert s (t ∷ sorted) = ground (arith, length-insert s sorted)

length-sort :
    (suggestions : List InlineSuggestion) → length (sort_by_score suggestions) ≡ length suggestions
unfolding sort_by_score
length-sort [] = refl
length-sort (s ∷ suggestions) =
    omega (arith, length-insert s (sort_by_score suggestions), length-sort suggestions)

-- The number of suggestions in all groups.
abbrev total : Dict Site (List InlineSuggestion) → ℕ
total [] = 0
total ((site, bucket) ∷ groups) = length bucket + total groups

total-put :
    (site : Site) (bucket : List InlineSuggestion) (groups : Dict Site (List InlineSuggestion))
    → total (put site bucket groups) + length (bucket_of (get site groups))
      ≡ total groups + length bucket
unfolding put get
total-put site bucket [] = omega arith
total-put site bucket ((other, first) ∷ groups) = elim (Bool-cases (other == site)) [
  | inl same ↦ rw (same) (omega arith)
  | inr apart ↦ rw (apart) (omega (arith, total-put site bucket groups))
]

total-group :
    (groups : Dict Site (List InlineSuggestion)) (suggestions : List InlineSuggestion)
    → total (group_by_site groups suggestions) ≡ total groups + length suggestions
unfolding group_by_site
total-group groups [] = omega arith
total-group groups (s ∷ suggestions) =
    let site = site_of s in
    let old = bucket_of (get site groups) in
    omega (
      arith,
      total-put site (old ++ s ∷ []) groups,
      length-append old (s ∷ []),
      total-group (put site (old ++ s ∷ []) groups) suggestions,
    )

length-taken :
    (n : ℕ) (suggestions : List InlineSuggestion)
    → length (take n suggestions) + (length suggestions - n) ≡ length suggestions
length-taken zero suggestions = omega arith
length-taken (suc n) [] = omega arith
length-taken (suc n) (s ∷ suggestions) = omega (arith, length-taken n suggestions)

length-winners :
    (groups : Dict Site (List InlineSuggestion)) → length (winners groups) ≤ total groups
unfolding winners winner
length-winners [] = omega arith
length-winners ((site, bucket) ∷ groups) = omega (
  arith,
  length-append (take 1 (sort_by_score bucket)) (winners groups),
  length-taken 1 (sort_by_score bucket),
  length-sort bucket,
  length-winners groups,
)

length-dedup :
    (parsed : List InlineSuggestion) → length (dedup_same_round_suggestions parsed) ≤ length parsed
unfolding dedup_same_round_suggestions
length-dedup parsed = omega (arith, length-winners (group_by_site [] parsed), total-group [] parsed)

length-suppress_from :
    (reason : InlineSuggestion → Option Reason) (suggestions : List InlineSuggestion)
    → length (suppress_from reason suggestions).0 + length (suppress_from reason suggestions).1
      ≡ length suggestions
unfolding suppress_from
length-suppress_from reason [] = refl
length-suppress_from reason (s ∷ suggestions) = elim (Option-cases (reason s)) [
  | inl absent ↦ rw (absent, length) (omega (arith, length-suppress_from reason suggestions))
  | inr (why, given) ↦ rw (given, length) (omega (arith, length-suppress_from reason suggestions))
]

length-suppress :
    (h : Suppressing) (existing : Option (List Stored)) (rows : List Stored)
    (suggestions : List InlineSuggestion)
    → length (suppress_resolved_suggestions h existing rows suggestions).0
        + length (suppress_resolved_suggestions h existing rows suggestions).1
      ≡ length suggestions
unfolding suppress_resolved_suggestions
length-suppress h none rows suggestions = omega arith
length-suppress h (some existing) rows suggestions = length-suppress_from _ suggestions

-- The numbers that are reported add up: each parsed suggestion is dropped as a duplicate, suppressed,
-- left out for the limit or posted; there is a record for each suppressed one, and no more than the
-- limit are posted.
pub select_suggestions-counts :
    (h : Suppressing) (limit : ℕ) (existing : Option (List Stored)) (rows : List Stored)
    (parsed : List InlineSuggestion)
    → let o : SuggestionOutcome = (select_suggestions h limit existing rows parsed).1 in
      (o.llm_emitted ≡ o.dedup_dropped + (o.suppressed_count + (o.limit_dropped + o.kept)))
      × ((length o.suppressed_records ≡ o.suppressed_count) × (o.kept ≤ limit))
unfolding select_suggestions rank_and_limit
select_suggestions-counts h limit existing rows parsed =
    let distinct = dedup_same_round_suggestions parsed in
    let open_ones : List InlineSuggestion × List (InlineSuggestion × Reason) =
      suppress_resolved_suggestions h existing rows distinct in
    let fewer = length-dedup parsed in
    let split = length-suppress h existing rows distinct in
    let taken = length-taken limit (sort_by_score open_ones.0) in
    let sorted = length-sort open_ones.0 in
    (
      omega (arith, fewer, split, taken, sorted),
      (omega (arith, split), omega (arith, length-take limit (sort_by_score open_ones.0))),
    )
