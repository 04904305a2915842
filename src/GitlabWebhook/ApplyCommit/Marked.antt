-- ===== src/GitlabWebhook/ApplyCommit/Marked.antt =====
-- What is marked as applied, from the event to the ids.
use my_pr_agent.Prelude.{
  ℕ, ◌<◌, ◌≡◌, sym, ◌∙◌, ap, subst, inl, inr, Bool-cases, ◌||◌, some, List, bind-some, nat_eq, ◌==◌,
  ltb, length, length-take, take, keep, map, arith,
}
use my_pr_agent.Text.{Text, strip}
use my_pr_agent.SuggestionMatcher.Regions.{GetOpcodes}
use my_pr_agent.SuggestionMatcher.Candidates.{
  OpenSuggestion, Commit, find_applied_suggestion_candidates,
}
use my_pr_agent.SuggestionMatcher.Candidates.Cached.{
  applies, find_applied_suggestion_candidates_lem,
}
use my_pr_agent.GitlabWebhook.ApplyEvents.{ApplyEvent}
use my_pr_agent.GitlabWebhook.ApplyCommit.{
  Forge, gather, expected_count, choose, process_apply_commit_event,
}

-- The ids of the suggestions that a commit applies, in their order.
abbrev pub applied_ids : GetOpcodes → Commit → List OpenSuggestion → List Text
applied_ids g commit suggestions =
    map (λ s. strip s.suggestion_id) (keep (applies g commit) suggestions)

-- What a mark comes from.
pub record IsMarked (g : GetOpcodes) (f : Forge) (ev : ApplyEvent) (ids : List Text) : Type 0 where
  pub commit : Commit
  pub suggestions : List OpenSuggestion
  -- the commit's files, ranges and notes were all found
  pub gathered : gather f ev ≡ some (commit, suggestions)
  -- as many ids as the commit says, one at least
  pub counted : length ids ≡ expected_count ev
  pub some_marked : 0 < length ids
  -- the first ones of those that the commit applies
  pub first : ids ≡ take (expected_count ev) (applied_ids g commit suggestions)

choose-take :
    (n : ℕ) (candidates ids : List Text)
    → choose n candidates ≡ some ids
    → (ids ≡ take n candidates) × ((length ids ≡ n) × (0 < n))
unfolding choose
choose-take n candidates ids e = elim (Bool-cases (n == 0 || ltb (length candidates) n)) [
  | inl few ↦ cc (rw (few, choose) at e)
  | inr enough ↦
      let taken : some (take n candidates) ≡ some ids = rw (enough, choose) at e in
      let same : ids ≡ take n candidates = cc taken in
      (
        same,
        (ap length same ∙ ground (arith, enough, length-take n candidates), ground (arith, enough)),
      )
]

-- Ids are marked only if the evidence for the commit was found; there are then as many as its
-- message says, one at least, and they are the first ones of those suggestions that the commit
-- applies.
pub process_apply_commit_event-IsMarked :
    (g : GetOpcodes) (f : Forge) (ev : ApplyEvent) {ids : List Text}
    → process_apply_commit_event g f ev ≡ some ids
    → IsMarked g f ev ids
unfolding process_apply_commit_event
process_apply_commit_event-IsMarked g f ev {ids = ids} e =
    let ((commit, suggestions), (found, chosen)) = bind-some (gather f ev) _ e in
    let candidates = find_applied_suggestion_candidates g commit suggestions in
    let (same, (counted, positive)) = choose-take (expected_count ev) candidates ids chosen in
    record {
      commit = commit;
      suggestions = suggestions;
      gathered = found;
      counted = counted;
      some_marked = subst (λ n. 0 < n) (sym counted) positive;
      first =
          same
          ∙ ap (take (expected_count ev))
              (find_applied_suggestion_candidates_lem g commit suggestions);
    }
