-- ===== src/Coordinator/Workers.antt =====
-- The tasks that run admitted jobs: `_drain_apply_pipeline` of pr_agent/servers/gitlab_webhook.py,
-- started by the webhook for a job that `enqueue` answers with "start".
pub mod Deliveries
pub mod Exclusion
use my_pr_agent.Prelude.{ℕ, ◌≡◌, Option, none, some, List, [], ◌∷◌, ◌++◌, Eq}
use my_pr_agent.Coordinator.{
  ApplyPipelineJob, ApplyPipelineCoordinator, Decision, duplicate, start, queued, init, enqueue,
  complete,
}

-- The coordinator, and the job of each drain task, in no particular order.
pub record System (D : Type 0) : Type 0 where
  pub coordinator : ApplyPipelineCoordinator D
  pub active : List (ApplyPipelineJob D)

abbrev pub idle : {D : Type 0} → ℕ → System D
idle ttl = record { coordinator = init ttl; active = [] }

module _ {D : Type 0} where
  -- The webhook awaits a drain task for a job that starts, and returns otherwise.
  abbrev pub started :
      Decision → ApplyPipelineJob D → List (ApplyPipelineJob D) → List (ApplyPipelineJob D)
  started start job active = job ∷ active
  started duplicate job active = active
  started queued job active = active

  -- `while current_job is not None`: the task goes on with the job that `complete` returns.
  abbrev pub continued :
      Option (ApplyPipelineJob D) → List (ApplyPipelineJob D) → List (ApplyPipelineJob D)
  continued none active = active
  continued (some next) active = next ∷ active

module _ {D : Type 0} ⦃d : Eq D⦄ where
  -- A delivery at any time, or the end of any task's current job, which may fail or not.
  pub data Step (s u : System D) : Type 0 where
    deliver :
        (now : ℕ) (job : ApplyPipelineJob D)
        → u.coordinator ≡ (enqueue now job s.coordinator).0
        → u.active ≡ started (enqueue now job s.coordinator).1 job s.active
        → Step s u
    finish :
        (before after : List (ApplyPipelineJob D)) (job : ApplyPipelineJob D)
        → s.active ≡ before ++ job ∷ after
        → u.coordinator ≡ (complete job s.coordinator).0
        → u.active ≡ continued (complete job s.coordinator).1 (before ++ after)
        → Step s u

  pub data Reach (s : System D) : System D → Type 0 where
    here : Reach s s
    next : {t u : System D} → Reach s t → Step t u → Reach s u
