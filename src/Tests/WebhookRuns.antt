-- ===== src/Tests/WebhookRuns.antt =====
-- Events of the GitLab server: a push with Apply commits, the diff of a commit, a reply.
use my_pr_agent.Prelude.{
  ◌≡◌, refl, true, false, ◌&&◌, Option, none, some, List, [], ◌∷◌, All, keep, map, nat_eq, list_eq,
  ◌==◌, if◌then◌else◌,
}
use my_pr_agent.Settings.{written}
use my_pr_agent.Text.{Text, codes, is_space, starts_with}
use my_pr_agent.Text.Lines.{splitlines}
use my_pr_agent.SuggestionMatcher.{normalize_line_endings}
use my_pr_agent.GitlabWebhook.ChangedRanges.{changed_new_line_ranges}
use my_pr_agent.GitlabWebhook.ChangedRanges.Covered.{is_covered}
use my_pr_agent.GitlabWebhook.ChangedRanges.Printed.{
  DiffLine, DiffHunk, printed_hunks, HasPlainLines, hunks_changed, changed_new_line_ranges-covers,
}
use my_pr_agent.GitlabWebhook.ApplyEvents.{
  PushCommit, ObjectAttributes, WebhookData, ApplyEvent, iter_apply_events,
}
use my_pr_agent.GitlabWebhook.ApplyEvents.Iterated.{commit_event, is_apply, iter_apply_events-push}
use my_pr_agent.GitlabWebhook.ApplyCommit.{Forge, answer, process_apply_commit_event}
use my_pr_agent.GitlabWebhook.ApplyCommit.Marked.{IsMarked, process_apply_commit_event-IsMarked}
use my_pr_agent.GitlabWebhook.Adopt.{
  Posted, Provider, process_adopt_reply, adopted, resolve, mark_adopted,
}
use my_pr_agent.GitlabWebhook.Adopt.Checked.{
  is_adoptable, is_adopted, marks, process_adopt_reply-adopts,
}
use my_pr_agent.GitlabWebhook.Filters.{FindPattern, IgnoreRules, MergeRequestEvent, is_bot_user}
use my_pr_agent.GitlabWebhook.MergeRequests.{
  PushSettings, record_activity, pr_commands, handle_merge_request,
}
use my_pr_agent.Tests.Matching.{matcher, matcher-IsMatcher}
use my_pr_agent.Tests.SuggestionRuns.{parent, current, suggestions}

abbrev diff : Text
diff = codes "@@ -1,3 +1,3 @@\n a = 1\n-b = 1\n+  b = 2\n c = 3\n@@ -9,2 +9,1 @@\n x\n-y\n"

ranges : changed_new_line_ranges diff ≡ (2, 2) ∷ (2, 2) ∷ (10, 10) ∷ []
unfolding changed_new_line_ranges
ranges = refl

abbrev hunks : List DiffHunk
hunks =
    record {
      start1 = 1;
      size1 = some 3;
      start2 = 1;
      size2 = some 3;
      section = [];
      lines =
          DiffLine.context (codes "a = 1")
          ∷ DiffLine.removed (codes "b = 1")
          ∷ DiffLine.added (codes "  b = 2")
          ∷ DiffLine.context (codes "c = 3")
          ∷ [];
    }
    ∷ record {
      start1 = 9;
      size1 = some 2;
      start2 = 9;
      size2 = some 1;
      section = [];
      lines = DiffLine.context (codes "x") ∷ DiffLine.removed (codes "y") ∷ [];
    }
    ∷ []

diff_parts : splitlines diff ≡ printed_hunks hunks
unfolding splitlines printed_hunks
diff_parts = refl

plain_hunks : All HasPlainLines hunks
unfolding starts_with
plain_hunks = ((tt, (refl, (refl, (tt, tt)))), ((tt, (refl, tt)), tt))

changed_new_line_ranges-covers_example :
    All (λ n. is_covered (changed_new_line_ranges diff) n ≡ true) (hunks_changed hunks)
changed_new_line_ranges-covers_example =
    changed_new_line_ranges-covers diff hunks diff_parts plain_hunks

-- An added line that begins with ++ is taken for context, and is in no range.
plus_missed : changed_new_line_ranges (codes "@@ -1,3 +1,3 @@\n a\n+++i\n b\n-c") ≡ (4, 4) ∷ []
unfolding changed_new_line_ranges
plus_missed = refl

abbrev commit : Text → Text → PushCommit
commit id message = record {
  id = some id;
  message = message;
  added = [];
  modified = codes "x.py" ∷ [];
  removed = [];
}

abbrev no_attributes : ObjectAttributes
no_attributes = record {
  action = [];
  last_commit_id = none;
  last_commit_message = [];
  oldrev = none;
  target_project_id = none;
  iid = none;
  id = none;
  url = [];
  web_url = [];
}

abbrev push : WebhookData
push = record {
  object_kind = codes "push";
  project_id = some 7;
  project_web_url = [];
  username = [];
  user_username = codes "jo";
  ref = codes "refs/heads/topic";
  before = some (codes "p0");
  commits =
      commit (codes "c1") (codes "Apply 1 suggestion(s) to 1 file(s)\n")
      ∷ commit (codes "c2") (codes "other work")
      ∷ commit (codes "c3") (codes "apply 2 suggestions")
      ∷ [];
  object_attributes = no_attributes;
}

two_events : map (λ e. e.sha) (iter_apply_events push) ≡ some (codes "c1") ∷ some (codes "c3") ∷ []
unfolding iter_apply_events
two_events = refl

-- The commit before the push is the parent of both.
same_parent :
    map (λ e. e.parent_sha) (iter_apply_events push) ≡ some (codes "p0") ∷ some (codes "p0") ∷ []
unfolding iter_apply_events
same_parent = refl

iter_apply_events-push_example :
    iter_apply_events push ≡ map (commit_event push) (keep is_apply push.commits)
iter_apply_events-push_example = iter_apply_events-push push refl

-- The contents of the one file, by the commit.
abbrev content : Text → Text → Option Text
content path sha =
    if sha == codes "p0" then some parent else if sha == codes "c1" then some current else none

abbrev suggested : Text
suggested = codes "```suggestion:-0+0\n  b = 2\n```"

abbrev forge : Forge
forge = record {
  merge_requests = λ project branch.
      answer (record { iid = some 3; web_url = codes "https://g/3"; url = [] } ∷ []);
  provider = λ url. true;
  commit_parents = λ project sha. answer [];
  commit_diff = λ project sha.
      answer (record { new_path = codes "x.py"; old_path = codes "x.py"; diff = diff } ∷ []);
  open_suggestions = λ mr project. suggestions;
  discussions =
      record {
        id = codes "n1";
        notes = some (record { body = suggested; author_username = codes "bot" } ∷ []);
      }
      ∷ [];
  discussion_notes = λ id. none;
  file_content = content;
  gitlab_user = [];
  allowed_bot_usernames = written (codes " bot ,");
}

abbrev event : ApplyEvent
event = commit_event push (commit (codes "c1") (codes "Apply 1 suggestion(s) to 1 file(s)\n"))

one_marked : process_apply_commit_event matcher forge event ≡ some (codes "s1" ∷ [])
unfolding process_apply_commit_event matcher starts_with normalize_line_endings is_space
    commit_event
one_marked = refl

process_apply_commit_event-IsMarked_example : IsMarked matcher forge event (codes "s1" ∷ [])
process_apply_commit_event-IsMarked_example =
    process_apply_commit_event-IsMarked matcher forge event one_marked

abbrev posted : Posted
posted = record { posted_head_sha = codes "p0"; file = codes "x.py"; line = 2; line_end = 0 }

abbrev provider : Provider
provider = record {
  mr_sha = codes "c1";
  diff_head_sha = [];
  file_content = content;
  resolve_discussion = true;
}

is_marked : process_adopt_reply matcher provider posted ≡ (adopted, resolve ∷ mark_adopted ∷ [])
unfolding process_adopt_reply matcher normalize_line_endings is_space
is_marked = refl

process_adopt_reply-adopts_example :
    (marks (process_adopt_reply matcher provider posted).1
      ≡ (is_adoptable matcher provider posted && true))
    × (is_adopted (process_adopt_reply matcher provider posted).0
        ≡ marks (process_adopt_reply matcher provider posted).1)
process_adopt_reply-adopts_example =
    process_adopt_reply-adopts matcher matcher-IsMatcher provider posted

-- A pattern matches the text that it is.
abbrev find : FindPattern
find regex text = some (regex == text)

abbrev ignore : IgnoreRules
ignore = record {
  repositories = [];
  authors = [];
  titles = codes "WIP" ∷ [];
  labels = [];
  source_branches = [];
  target_branches = [];
}

abbrev settings : PushSettings
settings = record { has_push_commands = true; handle_push_trigger = true }

-- A draft becomes ready.
abbrev ready : MergeRequestEvent
ready = record {
  has_attributes = true;
  is_push = false;
  action = codes "update";
  title = some (codes "Add x");
  draft = some false;
  oldrev = [];
  username = codes "jo";
  repo_full_name = codes "g/x";
  source_branch = some (codes "topic");
  target_branch = some (codes "main");
  labels = [];
  draft_change = some (true, false);
  title_change = none;
}

nothing_run :
    handle_merge_request find ignore settings false ready ≡ record_activity (codes "updated") ∷ []
unfolding handle_merge_request
nothing_run = refl

opened_runs :
    handle_merge_request find ignore settings false (record ready { action = codes "open" })
    ≡ record_activity (codes "opened") ∷ pr_commands ∷ []
unfolding handle_merge_request
opened_runs = refl

-- The space behind a comma keeps an allowed name from being found.
not_allowed : is_bot_user (written (codes "a, ci-bot")) [] (codes "ci-bot") ≡ true
unfolding is_bot_user is_space
not_allowed = refl
