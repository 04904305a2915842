-- ===== src/CodeSuggestions/Suppress.antt =====
-- `_suppress_resolved_suggestions`: what was posted, applied or dismissed before is not posted again.
pub mod Entries
pub mod Rows
pub mod Near
pub mod Kept
use my_pr_agent.Prelude.{
  ℕ, zero, suc, ◌+◌, ◌-◌, Bool, true, false, not, ◌&&◌, ◌||◌, Option, none, some, List, [], ◌∷◌,
  ◌++◌, nat_eq, pair_eq, list_eq, ◌==◌, contains, if◌then◌else◌, ◌>>=◌, any_of, keep, map,
}
use my_pr_agent.RuleCoverage.{FindKeys}
use my_pr_agent.Text.{Text, codes, is_empty, strip}
use my_pr_agent.Dict.{Dict, get, put}
use my_pr_agent.CodeSuggestions.{InlineSuggestion, cohort_payload}

-- A row of the store, with the columns that are read; what is absent is empty or 0.
pub record Stored : Type 0 where
  pub state : Text
  pub file : Text
  pub line : ℕ
  pub rule_keys : Text
  pub fingerprint : Text
  pub cohort_key : Text
  pub posted_head_sha : Text

-- The hash and the order of texts, which are libraries, the pattern of rule keys, and the setting
-- `resolved_suggestions_rule_line_window`.
pub record Suppressing : Type 0 where
  pub digest : Text → Text
  pub sort_keys : List Text → List Text
  pub find_keys : FindKeys
  pub rule_line_window : ℕ

-- Each key once, in the order of first appearance.
unfoldable pub add_keys : List Text → List Text → List Text
add_keys seen [] = seen
add_keys seen (key ∷ keys) = add_keys (if contains seen key then seen else seen ++ key ∷ []) keys

unfoldable pub extract_rule_keys_from_text : FindKeys → Text → List Text
unfolding add_keys
extract_rule_keys_from_text find text = if is_empty text then [] else add_keys [] (find text)

abbrev pub is_resolving : Text → Bool
is_resolving state = state == codes "applied" || state == codes "dismissed"

abbrev pub is_live : Text → Bool
is_live state = state == codes "open" || is_resolving state

unfoldable pub existing_fingerprints : List Stored → List Text
existing_fingerprints [] = []
existing_fingerprints (row ∷ rows) =
    let rest = existing_fingerprints rows in
    if is_live row.state && not (is_empty row.fingerprint) then row.fingerprint ∷ rest else rest

-- The state of the first live row with a cohort key and a head.
unfoldable pub existing_cohort : Dict (Text × Text) Text → List Stored → Dict (Text × Text) Text
unfolding get put
existing_cohort cohort [] = cohort
existing_cohort cohort (row ∷ rows) =
    let key : Text × Text = (row.cohort_key, row.posted_head_sha) in
    let more : Dict (Text × Text) Text = elim (get key cohort) [
      | none ↦ put key row.state cohort
      | some _ ↦ cohort
    ] in
    existing_cohort (if is_empty row.cohort_key || not (is_live row.state) then cohort else more)
      rows

-- An entry of `resolved`.
pub record Entry : Type 0 where
  pub state : Text
  pub rule_keys : List Text

abbrev pub LineMap : Type 0
LineMap = Dict ℕ (List Entry)

abbrev pub or_nothing {ℓ} : {A : Type ℓ} → Option (List A) → List A
or_nothing none = []
or_nothing (some xs) = xs

unfoldable pub entry_of : FindKeys → Stored → Entry
unfolding extract_rule_keys_from_text
entry_of find row = record {
  state = row.state;
  rule_keys = extract_rule_keys_from_text find row.rule_keys;
}

-- Whether a row gets an entry.
unfoldable pub is_entry : Stored → Bool
unfolding strip
is_entry row = is_resolving row.state && not (is_empty (strip row.file)) && not (row.line == 0)

unfoldable pub add_entry : Text → ℕ → Entry → Dict Text LineMap → Dict Text LineMap
unfolding get put
add_entry file line entry resolved =
    let lines = or_nothing (get file resolved) in
    put file (put line (or_nothing (get line lines) ++ entry ∷ []) lines) resolved

unfoldable pub resolved_entries : FindKeys → Dict Text LineMap → List Stored → Dict Text LineMap
unfolding entry_of is_entry add_entry strip
resolved_entries find resolved [] = resolved
resolved_entries find resolved (row ∷ rows) =
    let more = add_entry (strip row.file) row.line (entry_of find row) resolved in
    resolved_entries find (if is_entry row then more else resolved) rows

-- `fmap.get(line) or []`
unfoldable pub entries_at : ℕ → LineMap → List Entry
unfolding get
entries_at line lines = or_nothing (get line lines)

-- `a or b`, for lists of states.
abbrev pub or_states : List Text → List Text → List Text
or_states [] b = b
or_states (s ∷ states) b = s ∷ states

abbrev pub states_at : ℕ → LineMap → List Text
states_at line lines = map (λ e. e.state) (entries_at line lines)

-- No entry stands at line 0, which stands for lines below 1.
abbrev pub states_around : ℕ → ℕ → LineMap → List Text
states_around line delta lines =
    or_states (states_at (line - delta) lines) (states_at (line + delta) lines)

abbrev pub is_dismissal : List Text → Entry → Bool
is_dismissal rule_keys e = e.state == codes "dismissed" && any_of (contains e.rule_keys) rule_keys

abbrev pub dismissed_around : List Text → ℕ → ℕ → LineMap → Bool
dismissed_around rule_keys line delta lines =
    any_of (is_dismissal rule_keys) (entries_at (line - delta) lines)
    || any_of (is_dismissal rule_keys) (entries_at (line + delta) lines)

-- `count` distances from `delta` on.
unfoldable pub dismissed_within : List Text → ℕ → ℕ → ℕ → LineMap → Bool
unfolding entries_at
dismissed_within rule_keys line delta zero lines = false
dismissed_within rule_keys line delta (suc count) lines =
    dismissed_around rule_keys line delta lines
    || dismissed_within rule_keys line (suc delta) count lines

-- The states of the resolved suggestions near a line; none are `None`.
unfoldable pub is_resolved : Suppressing → LineMap → ℕ → List Text → List Text
unfolding entries_at dismissed_within
is_resolved s lines line rule_keys =
    if line == 0
    then []
    else or_states (states_at line lines) (
        or_states (states_around line 1 lines) (
          or_states (states_around line 2 lines) (
            or_states (states_around line 3 lines) (
              if dismissed_within rule_keys line 4 (s.rule_line_window + 1 - 4) lines
              then codes "dismissed" ∷ []
              else []))))

pub data Reason : Type 0 where
  fingerprint_existing : Reason
  cohort_existing : Text → Reason
  resolved_near : List Text → Reason

-- The text in which a suggestion's rule keys are looked for.
unfoldable pub rule_text : InlineSuggestion → Text
rule_text s =
    s.body ++ (codes " " ++ (s.suggestion_content ++ (codes " " ++ s.one_sentence_summary)))

unfoldable pub rule_keys_of : Suppressing → InlineSuggestion → List Text
unfolding extract_rule_keys_from_text rule_text
rule_keys_of h s = extract_rule_keys_from_text h.find_keys (rule_text s)

unfoldable pub cohort_of : Suppressing → InlineSuggestion → Text
unfolding cohort_payload rule_keys_of
cohort_of h s =
    if is_empty s.cohort_key
    then h.digest
        (cohort_payload h.sort_keys s.relevant_file s.relevant_lines_start (rule_keys_of h s))
    else s.cohort_key

-- The state of the suggestion that was posted for the same site and head.
abbrev pub prior_cohort : Text → Text → Dict (Text × Text) Text → Option Text
prior_cohort ck head cohort = if is_empty ck then none else get (ck, head) cohort

-- The second and the third test.
abbrev pub by_cohort : Option Text → List Text → Option Reason
by_cohort (some state) states = some (Reason.cohort_existing state)
by_cohort none states = if is_empty states then none else some (Reason.resolved_near states)

-- Why a suggestion is dropped, by the three tests in their order.
unfoldable pub reason_for :
    Suppressing
    → List Text
    → Dict (Text × Text) Text
    → Dict Text LineMap
    → InlineSuggestion
    → Option Reason
unfolding cohort_of rule_keys_of is_resolved get strip
reason_for h fingerprints cohort resolved s =
    let prior = prior_cohort (cohort_of h s) s.posted_head_sha cohort in
    let lines = or_nothing (get (strip s.relevant_file) resolved) in
    let states = is_resolved h lines s.relevant_lines_start (rule_keys_of h s) in
    if not (is_empty s.fingerprint) && contains fingerprints s.fingerprint
    then some fingerprint_existing
    else by_cohort prior states

-- The suggestions that are kept, and the records of the others.
unfoldable pub suppress_from :
    (InlineSuggestion → Option Reason)
    → List InlineSuggestion
    → List InlineSuggestion × List (InlineSuggestion × Reason)
suppress_from reason [] = ([], [])
suppress_from reason (s ∷ suggestions) =
    let rest = suppress_from reason suggestions in
    elim (reason s) [ none ↦ (s ∷ rest.0, rest.1) | some why ↦ (rest.0, (s, why) ∷ rest.1) ]

-- `existing` is none where the merge request has no number or the look-up fails; no rows stand for a
-- failed look-up of fingerprints. The object that is called has no records of an earlier call.
unfoldable pub suppress_resolved_suggestions :
    Suppressing
    → Option (List Stored)
    → List Stored
    → List InlineSuggestion
    → List InlineSuggestion × List (InlineSuggestion × Reason)
unfolding suppress_from reason_for existing_fingerprints existing_cohort resolved_entries
suppress_resolved_suggestions h none rows suggestions = (suggestions, [])
suppress_resolved_suggestions h (some existing) rows suggestions =
    suppress_from
      (reason_for h (existing_fingerprints rows) (existing_cohort [] rows)
        (resolved_entries h.find_keys [] existing))
      suggestions
