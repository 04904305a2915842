-- ===== src/GitlabWebhook/ApplyEvents.antt =====
-- `_resolve_apply_event` and `_iter_apply_events`: the Apply commits that an event is about.
pub mod Found
pub mod Iterated
use my_pr_agent.Prelude.{
  ℕ, zero, suc, Bool, true, false, not, ◌&&◌, ◌||◌, Option, none, some, List, [], ◌∷◌, ◌++◌, nat_eq,
  list_eq, ◌==◌, contains, if◌then◌else◌, ◌>>=◌, is_some,
}
use my_pr_agent.Text.{Text, codes, is_empty, strip}
use my_pr_agent.Text.Numbers.{number, print}
use my_pr_agent.Text.Patterns.{after_folded, after_spaces}

-- A text that is absent is empty where the source reads it with `or ""`.
pub record PushCommit : Type 0 where
  pub id : Option Text
  pub message : Text
  pub added : List Text
  pub modified : List Text
  pub removed : List Text

pub record ObjectAttributes : Type 0 where
  pub action : Text
  pub last_commit_id : Option Text
  pub last_commit_message : Text
  pub oldrev : Option Text
  pub target_project_id : Option ℕ
  pub iid : Option ℕ
  pub id : Option ℕ
  pub url : Text
  pub web_url : Text

-- The fields of the event that are read.
pub record WebhookData : Type 0 where
  pub object_kind : Text
  pub project_id : Option ℕ
  pub project_web_url : Text
  pub username : Text
  pub user_username : Text
  pub ref : Text
  pub before : Option Text
  pub commits : List PushCommit
  pub object_attributes : ObjectAttributes

pub record ApplyEvent : Type 0 where
  pub sha : Option Text
  pub parent_sha : Option Text
  pub msg : Text
  pub suggestion_count : ℕ
  pub project_id : Option ℕ
  pub ref : Option Text
  pub mr_iid : Option ℕ
  pub actor : Text
  pub files_hint : List Text
  pub pr_url : Option Text

-- `_APPLY_COMMIT_RE` at the front of a text, with its group. No part of the pattern can take what
-- the next one needs, so that there is nothing to try again.
unfoldable pub match_apply : Text → Option ℕ
unfolding after_folded after_spaces number
match_apply s = do
  s ← after_folded (codes "apply") s
  s ← after_spaces s
  (count, s) ← number s
  s ← after_spaces s
  _ ← after_folded (codes "suggestion") s
  some count

-- `_APPLY_COMMIT_RE.search`
unfoldable pub search_apply : Text → Option ℕ
unfolding match_apply
search_apply [] = none
search_apply (c ∷ s) = elim (match_apply (c ∷ s)) [
  | some count ↦ some count
  | none ↦ search_apply s
]

-- `a or b`
abbrev pub or_text : Text → Text → Text
or_text a b = if is_empty a then b else a

abbrev pub or_id : Option ℕ → Option ℕ → Option ℕ
or_id none b = b
or_id (some zero) b = b
or_id (some (suc n)) b = some (suc n)

abbrev pub is_id : Option ℕ → Bool
is_id none = false
is_id (some zero) = false
is_id (some (suc n)) = true

-- `None` for an empty text
abbrev pub non_empty : Text → Option Text
non_empty s = if is_empty s then none else some s

unfoldable pub actor_of : WebhookData → Text
actor_of d = or_text d.username d.user_username

-- The last commit with a match, and its count.
unfoldable pub last_apply : List PushCommit → Option (PushCommit × ℕ)
unfolding search_apply
last_apply [] = none
last_apply (c ∷ commits) = elim (last_apply commits) [
  | some found ↦ some found
  | none ↦ search_apply c.message >>= λ count. some (c, count)
]

-- The names of `fs` that are not empty and not yet listed.
unfoldable pub add_hints : List Text → List Text → List Text
add_hints hint [] = hint
add_hints hint (f ∷ fs) =
    add_hints (if is_empty f || contains hint f then hint else hint ++ f ∷ []) fs

unfoldable pub files_hint_of : PushCommit → List Text
unfolding add_hints
files_hint_of c = add_hints (add_hints (add_hints [] c.added) c.modified) c.removed

abbrev pub is_single {ℓ} : {A : Type ℓ} → List A → Bool
is_single (x ∷ []) = true
is_single _ = false

unfoldable pub push_event : WebhookData → PushCommit → ℕ → ApplyEvent
unfolding strip files_hint_of actor_of
push_event d c count = record {
  sha = c.id;
  parent_sha = if is_single d.commits then d.before else none;
  msg = strip c.message;
  suggestion_count = count;
  project_id = d.project_id;
  ref = some d.ref;
  mr_iid = none;
  actor = actor_of d;
  files_hint = files_hint_of c;
  pr_url = none;
}

-- `s.rstrip("/")`
unfoldable pub rstrip_slash : Text → Text
rstrip_slash [] = []
rstrip_slash (c ∷ s) =
    let rest = rstrip_slash s in if is_empty rest && c == b'/' then [] else c ∷ rest

unfoldable pub merge_request_url : WebhookData → Option Text
unfolding rstrip_slash print
merge_request_url d =
    let o = d.object_attributes in
    let given = or_text o.url o.web_url in
    if not (is_empty given)
    then some given
    else if is_id o.iid
    then o.iid >>= (λ iid.
      some (rstrip_slash d.project_web_url ++ (codes "/-/merge_requests/" ++ print iid)))
    else none

unfoldable pub merge_request_event : WebhookData → Option ApplyEvent
unfolding strip search_apply actor_of merge_request_url
merge_request_event d =
    let o = d.object_attributes in
    let msg = strip o.last_commit_message in
    if not (o.action == codes "update")
    then none
    else o.last_commit_id >>= λ sha.
        if is_empty sha
        then none
        else search_apply msg >>= λ count. some (record {
          sha = some sha;
          parent_sha = o.oldrev;
          msg = msg;
          suggestion_count = count;
          project_id = or_id d.project_id o.target_project_id;
          ref = none;
          mr_iid = or_id o.iid o.id;
          actor = actor_of d;
          files_hint = [];
          pr_url = merge_request_url d;
        })

unfoldable pub resolve_apply_event : WebhookData → Option ApplyEvent
unfolding last_apply push_event merge_request_event
resolve_apply_event d =
    if d.object_kind == codes "push"
    then last_apply d.commits >>= (λ found. some (push_event d found.0 found.1))
    else if d.object_kind == codes "merge_request"
    then merge_request_event d
    else none

abbrev pub listed {ℓ} : {A : Type ℓ} → Option A → List A
listed none = []
listed (some a) = a ∷ []

-- The loop over the commits; each is resolved in a copy of the event that has this commit only.
unfoldable pub events_of : WebhookData → List PushCommit → List ApplyEvent
unfolding strip search_apply resolve_apply_event
events_of d [] = []
events_of d (c ∷ commits) =
    let rest = events_of d commits in
    if is_some (search_apply (strip c.message))
    then listed (resolve_apply_event (record d { commits = c ∷ [] })) ++ rest
    else rest

unfoldable pub iter_apply_events : WebhookData → List ApplyEvent
unfolding resolve_apply_event events_of
iter_apply_events d =
    if is_empty d.commits then listed (resolve_apply_event d) else events_of d d.commits
