-- ===== src/CodeSuggestions.antt =====
-- pr_agent/tools/pr_code_suggestions.py: which suggestions of a model are posted.
pub mod Dedup
pub mod Suppress
pub mod Posting
pub mod Predicted
use my_pr_agent.Prelude.{
  ℕ, suc, ◌-◌, Bool, true, false, Option, none, some, List, [], ◌∷◌, ◌++◌, leb, nat_eq, pair_eq,
  list_eq, if◌then◌else◌, length, take, max,
}
use my_pr_agent.Text.{Text, codes, strip, join}
use my_pr_agent.Text.Numbers.{print}
use my_pr_agent.Dict.{Dict, get, put}
use my_pr_agent.SuggestionMatcher.{normalize_patch_lines}

-- A suggestion that is ready to be posted, with the fields that are read; what is absent is empty or
-- 0. The score is that of the original suggestion.
pub record InlineSuggestion : Type 0 where
  pub relevant_file : Text
  pub relevant_lines_start : ℕ
  pub label : Text
  pub fingerprint : Text
  pub cohort_key : Text
  pub posted_head_sha : Text
  pub body : Text
  pub suggestion_content : Text
  pub one_sentence_summary : Text
  pub score : ℕ

-- `sorted(…, key=score, reverse=True)`, which keeps the order of equal scores.
unfoldable pub insert_suggestion : InlineSuggestion → List InlineSuggestion → List InlineSuggestion
insert_suggestion s [] = s ∷ []
insert_suggestion s (t ∷ suggestions) =
    let rest = insert_suggestion s suggestions in
    if leb t.score s.score then s ∷ t ∷ suggestions else t ∷ rest

unfoldable pub sort_by_score : List InlineSuggestion → List InlineSuggestion
unfolding insert_suggestion
sort_by_score [] = []
sort_by_score (s ∷ suggestions) = insert_suggestion s (sort_by_score suggestions)

-- `max(1, …)` of the first setting that is there.
unfoldable pub get_suggestion_limit : Option ℕ → Option ℕ → ℕ
get_suggestion_limit (some configured) per_chunk = max 1 configured
get_suggestion_limit none (some per_chunk) = max 1 per_chunk
get_suggestion_limit none none = 3

-- The best suggestions, and the number of those that are left out.
unfoldable pub rank_and_limit : ℕ → List InlineSuggestion → List InlineSuggestion × ℕ
unfolding sort_by_score
rank_and_limit limit suggestions =
    let ranked = sort_by_score suggestions in (take limit ranked, length ranked - limit)

-- The text whose hash is the fingerprint. The normal form of code is that of a suggestion's patch.
unfoldable pub fingerprint_payload : Text → Text → Text → Text
unfolding strip normalize_patch_lines join
fingerprint_payload file existing_code improved_code = join (0 ∷ []) (
    strip file
    ∷ join (b'\n' ∷ []) (normalize_patch_lines existing_code)
    ∷ join (b'\n' ∷ []) (normalize_patch_lines improved_code)
    ∷ [])

-- The text whose hash is the cohort key; `sorted` is an argument.
unfoldable pub cohort_payload : (List Text → List Text) → Text → ℕ → List Text → Text
unfolding strip join print
cohort_payload sort_keys file line rule_keys =
    join (0 ∷ []) (strip file ∷ print line ∷ join (codes ",") (sort_keys rule_keys) ∷ [])

-- The site of a suggestion, for one round.
abbrev pub Site : Type 0
Site = Text × (ℕ × Text)

unfoldable pub site_of : InlineSuggestion → Site
unfolding strip
site_of s = (strip s.relevant_file, (s.relevant_lines_start, strip s.label))

abbrev pub bucket_of : Option (List InlineSuggestion) → List InlineSuggestion
bucket_of none = []
bucket_of (some bucket) = bucket

-- `groups` in the order of `order`.
unfoldable pub group_by_site :
    Dict Site (List InlineSuggestion) → List InlineSuggestion → Dict Site (List InlineSuggestion)
unfolding site_of get put
group_by_site groups [] = groups
group_by_site groups (s ∷ suggestions) =
    let site = site_of s in
    group_by_site (put site (bucket_of (get site groups) ++ s ∷ []) groups) suggestions

-- The suggestion of a group that is kept.
unfoldable pub winner : List InlineSuggestion → List InlineSuggestion
unfolding sort_by_score
winner bucket = take 1 (sort_by_score bucket)

unfoldable pub winners : Dict Site (List InlineSuggestion) → List InlineSuggestion
unfolding winner
winners [] = []
winners ((site, bucket) ∷ groups) = winner bucket ++ winners groups

unfoldable pub dedup_same_round_suggestions : List InlineSuggestion → List InlineSuggestion
unfolding group_by_site winners
dedup_same_round_suggestions suggestions = winners (group_by_site [] suggestions)
