-- ===== src/GitlabWebhook/MergeRequests.antt =====
-- What the GitLab server does with a merge request event that is no Apply commit.
use my_pr_agent.Prelude.{Bool, not, ◌&&◌, ◌||◌, List, [], ◌∷◌, nat_eq, list_eq, ◌==◌, if◌then◌else◌}
use my_pr_agent.Text.{Text, codes, is_empty}
use my_pr_agent.GitlabWebhook.Filters.{
  FindPattern, IgnoreRules, MergeRequestEvent, is_draft, is_draft_ready, should_process_pr_logic,
}

pub data Work : Type 0 where
  record_activity : Text → Work
  resolve_superseded : Work
  pr_commands push_commands : Work

pub record PushSettings : Type 0 where
  pub has_push_commands : Bool
  pub handle_push_trigger : Bool

unfoldable pub on_open : MergeRequestEvent → List Work
unfolding is_draft
on_open e = record_activity (codes "opened") ∷ (if is_draft e then [] else pr_commands ∷ [])

-- `is_apply` tells that the event resolves to an Apply commit.
unfoldable pub on_update : PushSettings → Bool → MergeRequestEvent → List Work
unfolding is_draft
on_update s is_apply e =
    if is_empty e.oldrev
    then record_activity (codes "updated") ∷ []
    else if is_draft e || is_apply
    then []
    else record_activity (codes "updated")
      ∷ resolve_superseded
      ∷ (if s.has_push_commands && s.handle_push_trigger then push_commands ∷ [] else [])

-- The branches in their order.
unfoldable pub handle_merge_request :
    FindPattern → IgnoreRules → PushSettings → Bool → MergeRequestEvent → List Work
unfolding on_open on_update is_draft_ready should_process_pr_logic
handle_merge_request matches ignore s is_apply e =
    if not (should_process_pr_logic matches ignore e)
    then []
    else if e.action == codes "open" || e.action == codes "reopen"
    then on_open e
    else if e.action == codes "update"
    then on_update s is_apply e
    else if e.action == codes "merge"
    then record_activity (codes "merged") ∷ []
    else if e.action == codes "close"
    then record_activity (codes "closed") ∷ []
    else if e.action == codes "update" && is_draft_ready e
    then pr_commands ∷ []
    else []
