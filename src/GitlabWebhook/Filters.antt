-- ===== src/GitlabWebhook/Filters.antt =====
-- The events that the GitLab server leaves alone. Regular expressions are matched by a library:
-- `none` is a pattern that does not compile.
use my_pr_agent.Prelude.{
  Bool, true, false, not, ◌&&◌, ◌||◌, Option, none, some, List, [], ◌∷◌, nat_eq, list_eq, contains,
  if◌then◌else◌, ◌>>=◌, any_of, keep, map,
}
use my_pr_agent.Settings.{Several, listed, written}
use my_pr_agent.Text.{
  Text, codes, is_empty, strip, split_char, lower, ends_with, has_part, starts_with,
}

abbrev pub FindPattern : Type 0
FindPattern = Text → Text → Option Bool

abbrev pub bot_indicators : List Text
bot_indicators = map codes ("codium" ∷ "bot_" ∷ "bot-" ∷ "_bot" ∷ "-bot" ∷ [])

-- The names in `allowed_bot_usernames`; parts of a text keep the spaces around them.
unfoldable pub allowed_names : Several → List Text
unfolding lower strip split_char
allowed_names (listed names) = map lower names
allowed_names (written text) =
    map lower (keep (λ a. not (is_empty (strip a))) (split_char b',' text))

unfoldable pub ends_like_bot : Text → Bool
unfolding ends_with
ends_like_bot username =
    ends_with (codes "-bot") username
    || ends_with (codes "_bot") username
    || ends_with (codes "bot") username

unfoldable pub named_like_bot : Text → Bool
unfolding has_part starts_with
named_like_bot name = any_of (λ indicator. has_part indicator name) bot_indicators

-- The name and the username of the sender; a name that is absent is empty.
unfoldable pub is_bot_user : Several → Text → Text → Bool
unfolding allowed_names ends_like_bot named_like_bot lower
is_bot_user allowed name username =
    let sender_name = lower (if is_empty name then codes "unknown" else name) in
    let sender_username = lower username in
    if not (is_empty sender_username) && contains (allowed_names allowed) sender_username
    then false
    else named_like_bot sender_name || ends_like_bot sender_username

unfoldable pub is_sender_bot_account : Text → Text → Bool
unfolding ends_like_bot named_like_bot lower
is_sender_bot_account name username =
    let sender_username = lower username in
    if is_empty sender_username
    then false
    else ends_like_bot sender_username || named_like_bot (lower name)

-- A merge request event. `draft` is none where the attribute is absent; a title may be absent too.
pub record MergeRequestEvent : Type 0 where
  pub has_attributes : Bool
  pub is_push : Bool
  pub action : Text
  pub title : Option Text
  pub draft : Option Bool
  pub oldrev : Text
  pub username : Text
  pub repo_full_name : Text
  pub source_branch : Option Text
  pub target_branch : Option Text
  pub labels : List Text
  -- the previous and the current value of a change
  pub draft_change : Option (Bool × Bool)
  pub title_change : Option (Text × Text)

abbrev pub draft_mark : Text
draft_mark = codes "Draft:"

-- An absent title raises, which is caught.
unfoldable pub is_draft : MergeRequestEvent → Bool
unfolding has_part starts_with
is_draft e = elim e.draft [
  | some draft ↦ draft
  | none ↦ elim e.title [ none ↦ false | some title ↦ has_part draft_mark title ]
]

unfoldable pub is_draft_ready : MergeRequestEvent → Bool
unfolding has_part starts_with
is_draft_ready e = elim e.draft_change [
  | some (previous, current) ↦ previous && not current
  | none ↦ elim e.title_change [
    | none ↦ false
    | some (previous, current) ↦ has_part draft_mark previous && not (has_part draft_mark current)
  ]
]

pub record IgnoreRules : Type 0 where
  pub repositories : List Text
  pub authors : List Text
  pub titles : List Text
  pub labels : List Text
  pub source_branches : List Text
  pub target_branches : List Text

-- `any(re.matches(regex, text) for regex in regexes)`; `none` is an exception.
unfoldable pub any_match : FindPattern → List Text → Text → Option Bool
any_match matches [] text = some false
any_match matches (regex ∷ regexes) text =
    matches regex text >>= λ found. if found then some true else any_match matches regexes text

-- A test that is made only if the text is not empty.
abbrev pub match_text : FindPattern → List Text → Text → Option Bool
match_text matches regexes text =
    if is_empty text then some false else any_match matches regexes text

-- A branch that is absent raises if there is a pattern.
abbrev pub match_branch : FindPattern → List Text → Option Text → Option Bool
match_branch matches [] branch = some false
match_branch matches (regex ∷ regexes) none = none
match_branch matches (regex ∷ regexes) (some branch) = any_match matches (regex ∷ regexes) branch

-- Whether one of the rules ignores the event, in the order of the tests.
unfoldable pub is_ignored : FindPattern → IgnoreRules → MergeRequestEvent → Option Bool
unfolding any_match
is_ignored matches s e = match_text matches s.repositories e.repo_full_name >>= λ repository.
    if repository
    then some true
    else match_text matches s.authors e.username >>= λ author.
        if author
        then some true
        else match_branch matches s.source_branches e.source_branch >>= λ source.
            if source
            then some true
            else match_branch matches s.target_branches e.target_branch >>= λ target.
                if target
                then some true
                else if any_of (contains s.labels) e.labels
                then some true
                else match_text matches s.titles (elim e.title [ none ↦ [] | some title ↦ title ])

-- An exception lets the event through.
unfoldable pub should_process_pr_logic : FindPattern → IgnoreRules → MergeRequestEvent → Bool
unfolding is_ignored
should_process_pr_logic matches s e =
    if not e.has_attributes && not e.is_push
    then false
    else elim (is_ignored matches s e) [ none ↦ true | some ignored ↦ not ignored ]
