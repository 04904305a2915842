-- ===== src/Tests/PushRuns.antt =====
-- Three pushes to one pull request: the second waits, and the third is discarded.
use my_pr_agent.Prelude.{◌≡◌, refl, true, none, some, nat_eq, list_eq}
use my_pr_agent.Text.{codes}
use my_pr_agent.PushTriggers.{
  PushEvent, TriggerSettings, Triggers, no_triggers, handle_push_trigger_for_new_commits, release,
  go_on, TriggerStep, push, finish, resume, expire_entry, expire_condition, evict_entry,
  evict_condition, here, next,
}
use my_pr_agent.PushTriggers.Drained.{Drains, TriggerReach-Settles}
use my_pr_agent.PushTriggers.Exclusion.{IsOrderly, TriggerReach-IsOrderly}

abbrev settings : TriggerSettings
settings = record {
  handle_push_trigger = true;
  push_trigger_ignore_merge_commits = true;
  push_trigger_pending_tasks_backlog = true;
}

abbrev commit : PushEvent
commit = record { before_sha = codes "a"; after_sha = codes "b"; merge_commit_sha = codes "m" }

abbrev crowded : Triggers
crowded = record { entry = some 2; running = 1; waiting = 1; woken = 0; stranded = 0 }

abbrev handed_on : Triggers
handed_on = record { entry = some 1; running = 0; waiting = 0; woken = 1; stranded = 0 }

merge_is_discarded :
    handle_push_trigger_for_new_commits settings
      (record commit { after_sha = codes "m" })
      no_triggers
    ≡ no_triggers
unfolding handle_push_trigger_for_new_commits
merge_is_discarded = refl

abbrev alone : Triggers
alone = record { entry = some 1; running = 1; waiting = 0; woken = 0; stranded = 0 }

first_push : TriggerStep settings no_triggers alone
unfolding handle_push_trigger_for_new_commits
first_push = push commit refl

second_push : TriggerStep settings alone crowded
unfolding handle_push_trigger_for_new_commits
second_push = push commit refl

third_push : TriggerStep settings crowded crowded
unfolding handle_push_trigger_for_new_commits
third_push = push commit refl

first_ends : TriggerStep settings crowded handed_on
unfolding release
first_ends = finish refl refl

second_runs : TriggerStep settings handed_on (record handed_on { running = 1; woken = 0 })
unfolding go_on
second_runs = resume refl refl

TriggerReach-IsOrderly_example : IsOrderly (record handed_on { running = 1; woken = 0 })
unfolding first_push second_push third_push first_ends second_runs
TriggerReach-IsOrderly_example =
    TriggerReach-IsOrderly
      (next (next (next (next (next here first_push) second_push) third_push) first_ends)
        second_runs)
      refl

TriggerReach-Settles_example : Drains crowded
unfolding first_push second_push
TriggerReach-Settles_example = TriggerReach-Settles (next (next here first_push) second_push) refl

-- The lifetime of the entry ends while the first task runs: the next push runs a second one.
abbrev entry_gone : Triggers
entry_gone = record alone { entry = none }

entry_expires : TriggerStep settings alone entry_gone
unfolding evict_entry
entry_expires = expire_entry refl

two_at_once : TriggerStep settings entry_gone (record entry_gone { entry = some 1; running = 2 })
unfolding handle_push_trigger_for_new_commits
two_at_once = push commit refl

-- The lifetime of the condition ends while a task waits: the end of the first wakes none.
condition_expires : TriggerStep settings crowded (record crowded { waiting = 0; stranded = 1 })
unfolding evict_condition
condition_expires = expire_condition refl

left_waiting :
    TriggerStep settings
      (record crowded { waiting = 0; stranded = 1 })
      (record crowded { entry = some 1; running = 0; waiting = 0; stranded = 1 })
unfolding release
left_waiting = finish refl refl
