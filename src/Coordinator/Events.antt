-- ===== src/Coordinator/Events.antt =====
-- Sequences of calls: webhook deliveries and finished runs, in the order of the lock.
use my_pr_agent.Prelude.{ℕ, List, [], ◌∷◌, Eq}
use my_pr_agent.Coordinator.{ApplyPipelineJob, ApplyPipelineCoordinator, enqueue, complete}

pub data Event (D : Type 0) : Type 0 where
  deliver : ℕ → ApplyPipelineJob D → Event D
  finish : ApplyPipelineJob D → Event D

module _ {D : Type 0} ⦃d : Eq D⦄ where
  unfoldable pub apply : Event D → ApplyPipelineCoordinator D → ApplyPipelineCoordinator D
  apply (deliver now job) c = (enqueue now job c).0
  apply (finish job) c = (complete job c).0

  unfoldable pub run : List (Event D) → ApplyPipelineCoordinator D → ApplyPipelineCoordinator D
  run [] c = c
  run (e ∷ es) c = run es (apply e c)

  pub run_induction :
      {P : ApplyPipelineCoordinator D → Type 0}
      → ((e : Event D) (c : ApplyPipelineCoordinator D) → P c → P (apply e c))
      → (es : List (Event D)) (c : ApplyPipelineCoordinator D) → P c
      → P (run es c)
  unfolding run
  run_induction keep [] c h = h
  run_induction keep (e ∷ es) c h = run_induction keep es (apply e c) (keep e c h)
