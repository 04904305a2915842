-- ===== src/Tests/CoordinatorRuns.antt =====
-- Apply commits of two merge requests, delivered and run.
use my_pr_agent.Prelude.{
  ℕ, ◌≡◌, ◌↔◌, ◌≢◌, ◌≤◌, ◌⊎◌, ◌-◌, refl, none, some, [], ◌∷◌, nat_eq, pair_eq, list_eq, arith,
}
use my_pr_agent.Text.{Text, codes}
use my_pr_agent.Dict.{get, put, remove, retain}
use my_pr_agent.Coordinator.{
  ApplyPipelineJob, ApplyPipelineCoordinator, key, claim_key, init, enqueue, complete, duplicate,
  start, queued,
}
use my_pr_agent.Coordinator.Events.{deliver, finish, run}
use my_pr_agent.Coordinator.Invariant.{
  IsConsistent, init-IsConsistent, enqueue-IsConsistent, run-IsConsistent,
}
use my_pr_agent.Coordinator.Dedup.{duplicate_iff, duplicate-run}
use my_pr_agent.Coordinator.Queue.{complete-enqueue}
use my_pr_agent.Coordinator.Workers.{System, idle, Step, Reach, here, next}
use my_pr_agent.Coordinator.Workers
use my_pr_agent.Coordinator.Workers.Deliveries.{busy}
use my_pr_agent.Coordinator.Workers.Exclusion.{one_task}

abbrev job : ℕ → Text → ApplyPipelineJob ℕ
job iid sha = record {
  project_id = 7;
  mr_iid = iid;
  sha = sha;
  pr_url = codes "u";
  payload = 1;
  log_context = 2;
  commands_conf = codes "apply_commands";
}

abbrev first : ApplyPipelineJob ℕ
first = job 1 (codes "aa")

abbrev second : ApplyPipelineJob ℕ
second = job 1 (codes "bb")

abbrev third : ApplyPipelineJob ℕ
third = job 1 (codes "cc")

abbrev one_running : ApplyPipelineCoordinator ℕ
one_running = (enqueue 10 first (init 600)).0

abbrev one_waiting : ApplyPipelineCoordinator ℕ
one_waiting = (enqueue 20 second one_running).0

decisions :
    ((enqueue 10 first (init 600)).1 ≡ start)
    × ((enqueue 20 second one_running).1 ≡ queued)
    × ((enqueue 30 first one_waiting).1 ≡ duplicate)
    × ((enqueue 611 first one_waiting).1 ≡ queued)
    × ((enqueue 30 (job 2 (codes "dd")) one_waiting).1 ≡ start)
unfolding enqueue get put retain
decisions = (refl, refl, refl, refl, refl)

completions :
    ((complete first one_waiting).1 ≡ some second)
    × ((complete second one_waiting).1 ≡ none)
    × ((complete first one_running).1 ≡ none)
unfolding enqueue complete get put retain remove
completions = (refl, refl, refl)

first_starts : (enqueue 10 first (init 600)).1 ≢ duplicate
unfolding enqueue get put retain
first_starts = λ p. cc p

run-IsConsistent_example :
    IsConsistent (run (deliver 10 first ∷ deliver 20 second ∷ finish first ∷ []) (init 600))
run-IsConsistent_example =
    run-IsConsistent (deliver 10 first ∷ deliver 20 second ∷ finish first ∷ []) (init 600)
      (init-IsConsistent 600)

duplicate-run_example :
    (enqueue 30 (job 2 (codes "aa")) (run (deliver 20 second ∷ finish first ∷ []) one_running)).1
    ≡ duplicate
duplicate-run_example =
    duplicate-run (init 600) 10 30 first (job 2 (codes "aa"))
      (deliver 20 second ∷ finish first ∷ []) (init-IsConsistent 600) first_starts (omega arith)
      refl (omega arith)

abbrev running_consistent : IsConsistent one_running
running_consistent = enqueue-IsConsistent 10 first (init 600) (init-IsConsistent 600)

first_runs : get (key first) one_running.running ≡ some first
unfolding enqueue get put retain
first_runs = refl

second_new : (enqueue 20 second one_running).1 ≢ duplicate
unfolding enqueue get put retain
second_new = λ p. cc p

complete-enqueue_example :
    ((enqueue 20 second one_running).1 ≡ queued)
    × ((complete first (enqueue 20 second one_running).0).1 ≡ some second)
complete-enqueue_example = complete-enqueue 20 second first one_running first_runs refl second_new

first_runs_on : get (key first) one_waiting.running ≡ some first
unfolding enqueue get put retain
first_runs_on = refl

abbrev two_delivered : System ℕ
two_delivered = record { coordinator = one_waiting; active = first ∷ [] }

delivered : Reach (idle 600) two_delivered
unfolding enqueue get put retain
delivered =
    next {t = record { coordinator = one_running; active = first ∷ [] }}
      (next here (Workers.Step.deliver 10 first refl refl))
      (Workers.Step.deliver 20 second refl refl)

one_task_example :
    (busy (key first) two_delivered.active ≤ 1)
    × ((get (key first) two_delivered.coordinator.pending ≡ none)
        ⊎ (busy (key first) two_delivered.active ≡ 1))
one_task_example = one_task 600 (key first) delivered

duplicate_iff_example : ((enqueue 30 first one_running).1 ≡ duplicate) ↔ (
    (t : ℕ) × (get (claim_key first) one_running.claims ≡ some t)
    × (30 - t ≤ one_running.claim_ttl))
duplicate_iff_example = duplicate_iff one_running running_consistent 30 first
