-- ===== src/Coordinator/Queue.antt =====
-- What a queued job waits for, and what the end of the running job starts.
use my_pr_agent.Prelude.{
  ℕ, ◌≡◌, refl, ◌≢◌, ◌↔◌, true, Option-cases, inl, inr, none, some, arith, Eq, ◌==◌, nat_eq,
  pair_eq, list_eq, pair_beq_iff, list_beq_iff,
}
use my_pr_agent.Dict.{get, put, get-put, get-remove}
use my_pr_agent.Coordinator.{
  ApplyPipelineJob, ApplyPipelineCoordinator, Key, key, enqueue, admit, hand_over, complete,
  job_beq, duplicate, queued,
}

own : (k : Key) → ((k == k) ≡ true) ↔ (k ≡ k)
own k = pair_beq_iff nat_eq nat_eq k k

module _ {D : Type 0} ⦃d : Eq D⦄ where
  job_beq_refl : (job : ApplyPipelineJob D) → job_beq job job ≡ true
  job_beq_refl job = ground (
    arith,
    list_beq_iff nat_eq job.sha job.sha,
    list_beq_iff nat_eq job.pr_url job.pr_url,
    list_beq_iff nat_eq job.commands_conf job.commands_conf,
    d.same_iff job.payload job.payload,
    d.same_iff job.log_context job.log_context,
  )

  -- The job that stands in the running table is the one that is completed.
  pub complete-eq-hand_over :
      (job : ApplyPipelineJob D) (c : ApplyPipelineCoordinator D)
      → get (key job) c.running ≡ some job
      → complete job c ≡ hand_over job c
  unfolding complete
  complete-eq-hand_over job c e = rw (e, job_beq_refl job, complete)

  -- When the running job of a merge request ends, the job that is pending for it is returned, is
  -- the running one from then on and is no longer pending; with none pending the slot is free.
  complete-running :
      (job : ApplyPipelineJob D) (c : ApplyPipelineCoordinator D)
      → get (key job) c.running ≡ some job
      → ((complete job c).1 ≡ get (key job) c.pending)
        × (get (key job) (complete job c).0.running ≡ get (key job) c.pending)
        × (get (key job) (complete job c).0.pending ≡ none)
  unfolding hand_over
  complete-running job c e = elim (Option-cases (get (key job) c.pending)) [
    | inl idle ↦
        rw (complete-eq-hand_over job c e, idle, hand_over)
          (refl, ground (arith, get-remove (key job) (key job) c.running, own (key job)), idle)
    | inr (follower, waiting) ↦
        rw (complete-eq-hand_over job c e, waiting, hand_over)
          (
            refl,
            ground (arith, get-put (key job) (key job) follower c.running, own (key job)),
            ground (arith, get-remove (key job) (key job) c.pending, own (key job)),
          )
  ]

  enqueue-queued :
      (now : ℕ) (job current : ApplyPipelineJob D) (c : ApplyPipelineCoordinator D)
      → get (key job) c.running ≡ some current
      → (enqueue now job c).1 ≢ duplicate
      → ((enqueue now job c).1 ≡ queued)
        × ((enqueue now job c).0.running ≡ c.running)
        × ((enqueue now job c).0.pending ≡ put (key job) job c.pending)
  unfolding enqueue admit
  enqueue-queued now job current c busy new = ground arith

  -- While a job of the merge request runs, a new commit is queued and takes the place of any that
  -- was queued before: it is the one that the end of the running job starts.
  pub complete-enqueue :
      (now : ℕ) (job current : ApplyPipelineJob D) (c : ApplyPipelineCoordinator D)
      → get (key job) c.running ≡ some current
      → key current ≡ key job
      → (enqueue now job c).1 ≢ duplicate
      → ((enqueue now job c).1 ≡ queued) × ((complete current (enqueue now job c).0).1 ≡ some job)
  complete-enqueue now job current c busy same new =
      let (answer, running, pending) = enqueue-queued now job current c busy new in
      let c' = (enqueue now job c).0 in
      let holds : get (key current) c'.running ≡ some current = rw (same, running) busy in
      (
        answer,
        ground (
          arith,
          (complete-running current c' holds).0,
          same,
          pending,
          get-put (key job) (key job) job c.pending,
          own (key job),
        ),
      )
