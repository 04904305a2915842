-- ===== src/GitlabWebhook/ApplyCommit.antt =====
-- `_process_apply_commit_event`: which suggestions an Apply commit marks as applied.
pub mod Marked
use my_pr_agent.Prelude.{
  ℕ, zero, suc, Bool, true, false, not, ◌&&◌, ◌||◌, Option, none, some, List, [], ◌∷◌, ◌++◌, ltb,
  nat_eq, list_eq, ◌==◌, contains, if◌then◌else◌, ◌>>=◌, length, take, drop, keep, map,
}
use my_pr_agent.Settings.{Several, listed, written}
use my_pr_agent.Text.{Text, codes, is_empty, strip, split_char, starts_with, has_part}
use my_pr_agent.Dict.{Dict, get, put}
use my_pr_agent.SuggestionMatcher.{Span}
use my_pr_agent.SuggestionMatcher.Regions.{GetOpcodes}
use my_pr_agent.SuggestionMatcher.Candidates.{
  OpenSuggestion, Commit, find_applied_suggestion_candidates,
}
use my_pr_agent.GitlabWebhook.ChangedRanges.{changed_new_line_ranges}
use my_pr_agent.GitlabWebhook.ApplyEvents.{ApplyEvent, search_apply, or_text, is_id}

-- What a service answers: an exception, a status that is no success, or a value.
pub data Reply (A : Type 0) : Type 0 where
  failed : Reply A
  denied : Reply A
  answer : A → Reply A

pub record MergeRequest : Type 0 where
  pub iid : Option ℕ
  pub web_url : Text
  pub url : Text

pub record DiffEntry : Type 0 where
  pub new_path : Text
  pub old_path : Text
  pub diff : Text

pub record Note : Type 0 where
  pub body : Text
  pub author_username : Text

-- `notes` is none where the summary of a discussion does not have them.
pub record Discussion : Type 0 where
  pub id : Text
  pub notes : Option (List Note)

-- GitLab, the store of suggestions and the settings, as the code asks them. `none` is an exception.
pub record Forge : Type 0 where
  pub merge_requests : Option ℕ → Text → Reply (List MergeRequest)
  pub provider : Text → Bool
  pub commit_parents : Option ℕ → Text → Reply (List Text)
  pub commit_diff : Option ℕ → Text → Reply (List DiffEntry)
  pub open_suggestions : ℕ → Option ℕ → List OpenSuggestion
  pub discussions : List Discussion
  pub discussion_notes : Text → Option (List Note)
  pub file_content : Text → Text → Option Text
  pub gitlab_user : Text
  pub allowed_bot_usernames : Several

-- The first merge request with an iid.
unfoldable pub first_with_iid : List MergeRequest → Option (ℕ × Text)
first_with_iid [] = none
first_with_iid (mr ∷ mrs) =
    let rest = first_with_iid mrs in
    if is_id mr.iid then mr.iid >>= (λ iid. some (iid, or_text mr.web_url mr.url)) else rest

abbrev pub answered {ℓ} : {A : Type 0} {B : Type ℓ} → Reply A → B → (A → B) → B
answered failed b f = b
answered denied b f = b
answered (answer a) b f = f a

-- `_lookup_mr_for_push`
unfoldable pub lookup_mr_for_push : Forge → Option ℕ → Text → Option (ℕ × Text)
unfolding first_with_iid starts_with
lookup_mr_for_push f project_id ref =
    let prefix = codes "refs/heads/" in
    let branch = if starts_with prefix ref then drop (length prefix) ref else [] in
    if is_empty branch
    then none
    else answered (f.merge_requests project_id branch) none first_with_iid

-- A setting that is a list, or a text with commas.
unfoldable pub usernames : Several → List Text
unfolding strip split_char
usernames (listed names) = keep (λ u. not (is_empty u)) (map strip names)
usernames (written text) = keep (λ u. not (is_empty u)) (map strip (split_char b',' text))

-- `_resolve_bot_usernames`: a set is a list here, since only membership is asked for.
unfoldable pub resolve_bot_usernames : Forge → List Text
unfolding usernames strip
resolve_bot_usernames f =
    let user = strip f.gitlab_user in
    let names = usernames f.allowed_bot_usernames in if is_empty user then names else user ∷ names

-- The body of the first note of the bot with a suggestion.
unfoldable pub bot_note : List Text → List Note → Option Text
unfolding has_part strip
bot_note bots [] = none
bot_note bots (note ∷ notes) =
    let rest = bot_note bots notes in
    if not (has_part (codes "```suggestion") note.body)
    then rest
    else if not (is_empty bots) && not (contains bots (strip note.author_username))
    then rest
    else some note.body

unfoldable pub notes_of : Forge → Discussion → List Note
notes_of f d = elim d.notes [
  | some notes ↦ notes
  | none ↦ elim (f.discussion_notes (strip d.id)) [ some notes ↦ notes | none ↦ [] ]
]

-- The loop over the discussions, which adds to the bodies found so far.
unfoldable pub note_loop : Forge → List Text → Dict Text Text → List Discussion → Dict Text Text
unfolding strip notes_of bot_note put resolve_bot_usernames
note_loop f ids bodies [] = bodies
note_loop f ids bodies (d ∷ discussions) =
    let id = strip d.id in
    let note = bot_note (resolve_bot_usernames f) (notes_of f d) in
    let more : Dict Text Text = elim note [ none ↦ bodies | some body ↦ put id body bodies ] in
    note_loop f ids (if contains ids id then more else bodies) discussions

unfoldable pub load_suggestion_notes : Forge → List Text → Dict Text Text
unfolding note_loop
load_suggestion_notes f ids = if is_empty ids then [] else note_loop f ids [] f.discussions

-- The contents of a file before and after, if both are there.
unfoldable pub load_file : Forge → Text → Text → Text → Option (Text × Text)
load_file f parent_sha current_sha path = do
  parent ← f.file_content path parent_sha
  current ← f.file_content path current_sha
  if is_empty parent || is_empty current then none else some (parent, current)

unfoldable pub load_apply_commit_files :
    Forge
    → Text
    → Text
    → List Text
    → Dict Text Text × Dict Text Text
    → Dict Text Text × Dict Text Text
unfolding load_file put
load_apply_commit_files f parent_sha current_sha [] files = files
load_apply_commit_files f parent_sha current_sha (path ∷ paths) files =
    let more : Dict Text Text × Dict Text Text = elim (load_file f parent_sha current_sha path) [
      | none ↦ files
      | some (parent, current) ↦ (put path parent files.0, put path current files.1)
    ] in
    load_apply_commit_files f parent_sha current_sha paths more

-- The changed ranges of each file of a commit; a later entry for a file takes the place of an
-- earlier one.
unfoldable pub ranges_by_file : Dict Text (List Span) → List DiffEntry → Dict Text (List Span)
unfolding put changed_new_line_ranges
ranges_by_file ranges [] = ranges
ranges_by_file ranges (entry ∷ entries) =
    let file = or_text entry.new_path entry.old_path in
    ranges_by_file
      (if is_empty file then ranges else put file (changed_new_line_ranges entry.diff) ranges)
      entries

-- The parent that the event names, or the first one that the commit has; `none` gives up.
unfoldable pub parent_of : Forge → Option ℕ → Text → Text → Option Text
parent_of f project_id sha given =
    if not (is_empty given) then some given else elim (f.commit_parents project_id sha) [
      | failed ↦ none
      | denied ↦ some []
      | answer [] ↦ some []
      | answer (parent ∷ parents) ↦ some parent
    ]

-- `str(s.get("note_id") or "").strip()` of the suggestions that have one.
unfoldable pub note_ids : List OpenSuggestion → List Text
unfolding strip
note_ids suggestions = map strip (keep (λ id. not (is_empty id)) (map (λ s. s.note_id) suggestions))

-- `if not …: return`
abbrev pub guard : Bool → Option Bool
guard true = some true
guard false = none

-- The merge request of the event, with its address.
unfoldable pub target_of : Forge → ApplyEvent → Option (ℕ × Text)
unfolding lookup_mr_for_push
target_of f ev =
    let url = text_of ev.pr_url in
    if not (is_empty url) && is_id ev.mr_iid
    then ev.mr_iid >>= (λ iid. some (iid, url))
    else lookup_mr_for_push f ev.project_id (text_of ev.ref)
      >>= (λ found. if is_empty found.1 then none else some found)
  where
    text_of : Option Text → Text
    text_of none = []
    text_of (some s) = s

-- All that is known of one commit, with the open suggestions; `none` is a `return` for lack of it.
unfoldable pub gather : Forge → ApplyEvent → Option (Commit × List OpenSuggestion)
unfolding target_of parent_of ranges_by_file note_ids load_suggestion_notes load_apply_commit_files
gather f ev = do
  sha ← ev.sha
  _ ← guard (is_id ev.project_id && not (is_empty sha))
  (mr_id, url) ← target_of f ev
  _ ← guard (f.provider url)
  parent ← parent_of f ev.project_id sha (elim ev.parent_sha [ none ↦ [] | some p ↦ p ])
  entries ← answered (f.commit_diff ev.project_id sha) none some
  let ranges = ranges_by_file [] entries
  _ ← guard (not (is_empty parent || is_empty ranges))
  let suggestions = f.open_suggestions mr_id ev.project_id
  let (parents, currents) = load_apply_commit_files f parent sha (map (λ e. e.0) ranges) ([], [])
  some (
    record {
      notes_by_discussion = load_suggestion_notes f (note_ids suggestions);
      parent_files = parents;
      current_files = currents;
      changed_ranges_by_file = ranges;
    },
    suggestions,
  )

-- The number that the event names, or its message if it names none.
unfoldable pub expected_count : ApplyEvent → ℕ
unfolding search_apply
expected_count ev =
    if ev.suggestion_count == 0
    then elim (search_apply ev.msg) [ none ↦ 0 | some count ↦ count ]
    else ev.suggestion_count

-- The first `expected` candidates, if there are so many.
unfoldable pub choose : ℕ → List Text → Option (List Text)
choose expected candidates =
    if expected == 0 || ltb (length candidates) expected
    then none
    else some (take expected candidates)

-- The ids that are marked as applied; `none` where nothing is marked.
unfoldable pub process_apply_commit_event : GetOpcodes → Forge → ApplyEvent → Option (List Text)
unfolding gather expected_count choose find_applied_suggestion_candidates
process_apply_commit_event get_opcodes f ev = gather f ev >>= λ found.
    choose (expected_count ev) (find_applied_suggestion_candidates get_opcodes found.0 found.1)
