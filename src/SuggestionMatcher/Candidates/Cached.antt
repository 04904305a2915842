-- ===== src/SuggestionMatcher/Candidates/Cached.antt =====
-- The cache of compared files does not change what is found.
use my_pr_agent.Prelude.{
  ◌≡◌, refl, sym, ◌∙◌, Bool-cases, ◌==◌, inl, inr, Bool, false, Option-cases, none, some, List, [],
  ◌∷◌, nat_eq, list_eq, list_beq_iff, arith, keep, map,
}
use my_pr_agent.Text.{Text, strip}
use my_pr_agent.Dict.{Dict, get, put, get-put}
use my_pr_agent.SuggestionMatcher.Regions.{GetOpcodes}
use my_pr_agent.SuggestionMatcher.Candidates.{
  OpenSuggestion, Commit, FileLines, Selected, select, compare_files, is_applied, cached,
  candidates_from, find_applied_suggestion_candidates,
}

-- Whether a suggestion is applied, by the two versions of its own file.
unfoldable pub applies : GetOpcodes → Commit → OpenSuggestion → Bool
unfolding is_applied
applies g commit s = elim (select commit s) [
  | none ↦ false
  | some selected ↦ is_applied (compare_files g selected.parent selected.current) selected
]

applies-none :
    (g : GetOpcodes) (commit : Commit) (s : OpenSuggestion)
    → select commit s ≡ none
    → applies g commit s ≡ false
unfolding applies
applies-none g commit s e = rw (e, applies) refl

applies-some :
    (g : GetOpcodes) (commit : Commit) (s : OpenSuggestion) (selected : Selected)
    → select commit s ≡ some selected
    → applies g commit s ≡ is_applied (compare_files g selected.parent selected.current) selected
unfolding applies
applies-some g commit s selected e = rw (e, applies) refl

-- The entries of the cache are comparisons of the commit's own files.
abbrev IsFaithful : GetOpcodes → Commit → Dict Text FileLines → Type 0
IsFaithful g commit cache =
    (path parent current : Text) (files : FileLines)
    → get path cache ≡ some files
    → get path commit.parent_files ≡ some parent
    → get path commit.current_files ≡ some current
    → files ≡ compare_files g parent current

record Comes (commit : Commit) (s : OpenSuggestion) (selected : Selected) : Type 0 where
  id_of : selected.id ≡ strip s.suggestion_id
  parent_found : get selected.path commit.parent_files ≡ some selected.parent
  current_found : get selected.path commit.current_files ≡ some selected.current

select-Comes :
    (commit : Commit) (s : OpenSuggestion) (selected : Selected)
    → select commit s ≡ some selected
    → Comes commit s selected
unfolding select
select-Comes commit s selected e = record {
  id_of = ground (arith, e);
  parent_found = ground (arith, e);
  current_found = ground (arith, e);
}

module _ (g : GetOpcodes) (commit : Commit) where
  cached-files :
      (selected : Selected) (cache : Dict Text FileLines)
      → IsFaithful g commit cache
      → get selected.path commit.parent_files ≡ some selected.parent
      → get selected.path commit.current_files ≡ some selected.current
      → (cached g selected cache).0 ≡ compare_files g selected.parent selected.current
  unfolding cached
  cached-files selected cache h p c = elim (Option-cases (get selected.path cache)) [
    | inl missing ↦ rw (missing, cached) refl
    | inr (files, found) ↦
        rw (found, cached) (h selected.path selected.parent selected.current files found p c)
  ]

  put-IsFaithful :
      (selected : Selected) (cache : Dict Text FileLines)
      → IsFaithful g commit cache
      → get selected.path commit.parent_files ≡ some selected.parent
      → get selected.path commit.current_files ≡ some selected.current
      → IsFaithful g commit
          (put selected.path (compare_files g selected.parent selected.current) cache)
  put-IsFaithful selected cache h p c path parent current files e pe ce =
      let files' = compare_files g selected.parent selected.current in
      elim (Bool-cases (selected.path == path)) [
        | inl same ↦
            let eq = (list_beq_iff nat_eq selected.path path).0 same in
            let whole = get-put selected.path path files' cache in
            cc (rw same at whole, eq, e, p, c, pe, ce)
        | inr other ↦
            let whole = get-put selected.path path files' cache in
            h path parent current files (sym (rw other at whole) ∙ e) pe ce
      ]

  cached-IsFaithful :
      (selected : Selected) (cache : Dict Text FileLines)
      → IsFaithful g commit cache
      → get selected.path commit.parent_files ≡ some selected.parent
      → get selected.path commit.current_files ≡ some selected.current
      → IsFaithful g commit (cached g selected cache).1
  unfolding cached
  cached-IsFaithful selected cache h p c path parent current files =
      elim (Option-cases (get selected.path cache)) [
        | inl missing ↦
            rw (missing, cached) (put-IsFaithful selected cache h p c path parent current files)
        | inr (old, found) ↦ rw (found, cached) (h path parent current files)
      ]

  candidates_from-keep :
      (cache : Dict Text FileLines) (suggestions : List OpenSuggestion)
      → IsFaithful g commit cache
      → candidates_from g commit cache suggestions
        ≡ map (λ s. strip s.suggestion_id) (keep (applies g commit) suggestions)
  unfolding candidates_from
  candidates_from-keep cache [] h = refl
  candidates_from-keep cache (s ∷ suggestions) h = elim (Option-cases (select commit s)) [
    | inl skipped ↦
        rw (skipped, candidates_from)
          (ground
            (arith, applies-none g commit s skipped, candidates_from-keep cache suggestions h))
    | inr (selected, e) ↦
        let from = select-Comes commit s selected e in
        let rest =
          candidates_from-keep (cached g selected cache).1 suggestions
            (cached-IsFaithful selected cache h from.parent_found from.current_found) in
        let files = cached-files selected cache h from.parent_found from.current_found in
        rw (e, candidates_from)
          (ground (arith, applies-some g commit s selected e, from.id_of, files, rest))
  ]

-- The candidates are the ids of those suggestions, in their order, that pass the guards and are
-- applied by the two versions of their own file: the cache does not show.
pub find_applied_suggestion_candidates_lem :
    (g : GetOpcodes) (commit : Commit) (suggestions : List OpenSuggestion)
    → find_applied_suggestion_candidates g commit suggestions
      ≡ map (λ s. strip s.suggestion_id) (keep (applies g commit) suggestions)
unfolding find_applied_suggestion_candidates get
find_applied_suggestion_candidates_lem g commit suggestions =
    candidates_from-keep g commit [] suggestions (λ path parent current files e. cc)
