-- ===== src/PushTriggers.antt =====
-- pr_agent/servers/github_app.py: the tasks that new commits of a pull request start.
pub mod Exclusion
pub mod Drained
use my_pr_agent.Prelude.{
  ℕ, Option, none, some, ◌+◌, ◌-◌, ◌≡◌, Bool, true, not, ◌&&◌, ◌||◌, nat_eq, list_eq, ltb, ◌==◌,
  if◌then◌else◌,
}
use my_pr_agent.Text.{Text}

-- The fields of the event that are read.
pub record PushEvent : Type 0 where
  pub before_sha : Text
  pub after_sha : Text
  pub merge_commit_sha : Text

pub record TriggerSettings : Type 0 where
  pub handle_push_trigger : Bool
  pub push_trigger_ignore_merge_commits : Bool
  pub push_trigger_pending_tasks_backlog : Bool

-- The tests on an event.
unfoldable pub is_handled : TriggerSettings → PushEvent → Bool
is_handled s e =
    s.handle_push_trigger
    && (not (e.before_sha == e.after_sha)
        && not (s.push_trigger_ignore_merge_commits && e.after_sha == e.merge_commit_sha))

-- The tasks of one pull request: its entry in `_duplicate_push_triggers`, the tasks that run, those
-- that wait on the condition in `_pending_task_duplicate_push_conditions`, those that were notified
-- and have not gone on, and those that wait on a condition that is no longer in the table.
pub record Triggers : Type 0 where
  pub entry : Option ℕ
  pub running : ℕ
  pub waiting : ℕ
  pub woken : ℕ
  pub stranded : ℕ

abbrev pub no_triggers : Triggers
no_triggers = record { entry = none; running = 0; waiting = 0; woken = 0; stranded = 0 }

-- `setdefault(api_url, 0)`
abbrev pub active_tasks : Option ℕ → ℕ
active_tasks none = 0
active_tasks (some n) = n

abbrev pub max_active_tasks : TriggerSettings → ℕ
max_active_tasks s = if s.push_trigger_pending_tasks_backlog then 2 else 1

-- An event that passes the tests: its task runs, waits or is discarded. No other task can step in
-- between, since the lock of the condition is not held where a task is suspended.
unfoldable pub enter : TriggerSettings → Triggers → Triggers
enter s t =
    let current = active_tasks t.entry in
    let counted : Triggers = record t { entry = some (current + 1) } in
    if not (ltb current (max_active_tasks s))
    then record t { entry = some current }
    else if current == 1
    then record counted { waiting = t.waiting + 1 }
    else record counted { running = t.running + 1 }

unfoldable pub handle_push_trigger_for_new_commits :
    TriggerSettings → PushEvent → Triggers → Triggers
unfolding is_handled enter
handle_push_trigger_for_new_commits s e t = if is_handled s e then enter s t else t

-- `notify(1)` on the condition that is in the table, or on a new one.
unfoldable pub notify : Triggers → Triggers
notify t = if t.waiting == 0 then t else record t { waiting = t.waiting - 1; woken = t.woken + 1 }

-- The `finally` of a task that ran, whether its commands failed or not. Where the entry is gone the
-- subtraction raises `KeyError`, and the table stays as it is.
unfoldable pub release : Triggers → Triggers
unfolding notify
release t =
    let n = notify t in
    elim t.entry [
      | none ↦ record n { running = n.running - 1 }
      | some active ↦ record n { entry = some (active - 1); running = n.running - 1 }
    ]

-- A task that was notified has the lock again and goes on.
unfoldable pub go_on : Triggers → Triggers
go_on t = record t { woken = t.woken - 1; running = t.running + 1 }

-- The lifetime of an entry is over, and an access for another pull request takes it away.
unfoldable pub evict_entry : Triggers → Triggers
evict_entry t = record t { entry = none }

-- The condition is taken away: no later notification reaches the tasks that wait on it.
unfoldable pub evict_condition : Triggers → Triggers
evict_condition t = record t { waiting = 0; stranded = t.stranded + t.waiting }

pub data TriggerStep (s : TriggerSettings) (t u : Triggers) : Type 0 where
  push : (e : PushEvent) → u ≡ handle_push_trigger_for_new_commits s e t → TriggerStep s t u
  finish : ltb 0 t.running ≡ true → u ≡ release t → TriggerStep s t u
  resume : ltb 0 t.woken ≡ true → u ≡ go_on t → TriggerStep s t u
  expire_entry : u ≡ evict_entry t → TriggerStep s t u
  expire_condition : u ≡ evict_condition t → TriggerStep s t u

pub data TriggerReach (s : TriggerSettings) (t : Triggers) : Triggers → Type 0 where
  here : TriggerReach s t t
  next : {u v : Triggers} → TriggerReach s t u → TriggerStep s u v → TriggerReach s t v

abbrev pub expiry_of : {s : TriggerSettings} {t u : Triggers} → TriggerStep s t u → ℕ
expiry_of (push e eq) = 0
expiry_of (finish runs eq) = 0
expiry_of (resume woken eq) = 0
expiry_of (expire_entry eq) = 1
expiry_of (expire_condition eq) = 1

-- The number of entries and conditions that were taken away.
abbrev pub expiries : {s : TriggerSettings} {t u : Triggers} → TriggerReach s t u → ℕ
expiries here = 0
expiries (next r st) = expiries r + expiry_of st
