-- ===== src/Coordinator/Invariant.antt =====
-- What holds of the coordinator's tables after any calls.
use my_pr_agent.Prelude.{
  ℕ, ◌≡◌, refl, Bool-cases, inl, inr, Option-cases, none, List, arith, Eq, ◌==◌, nat_eq, pair_eq,
  list_eq, pair_beq_iff, true, ◌↔◌,
}
use my_pr_agent.Dict.{get, Distinct, Distinct-put, Distinct-retain, get-put, get-remove}
use my_pr_agent.Dict.Entries.{Everywhere, Everywhere-put, Everywhere-remove}
use my_pr_agent.Coordinator.{
  ApplyPipelineJob, ApplyPipelineCoordinator, Key, key, claim_key, init, expire_claims, admit,
  enqueue, hand_over, complete, job_beq,
}
use my_pr_agent.Coordinator.Events.{Event, deliver, finish, apply, run, run_induction}

pub record IsConsistent {D : Type 0} (c : ApplyPipelineCoordinator D) : Type 0 where
  -- no claim stands twice
  pub claims_distinct : Distinct c.claims
  -- a job stands under its own key
  pub running_keyed : Everywhere (λ k j. key j ≡ k) c.running
  pub pending_keyed : Everywhere (λ k j. key j ≡ k) c.pending
  -- what waits, waits behind a running job
  pub served : (k : Key) → get k c.running ≡ none → get k c.pending ≡ none

key_eq_iff : (a b : Key) → ((a == b) ≡ true) ↔ (a ≡ b)
key_eq_iff = pair_beq_iff nat_eq nat_eq

module _ {D : Type 0} where
  admit-IsConsistent :
      (now : ℕ) (job : ApplyPipelineJob D) (c : ApplyPipelineCoordinator D)
      → IsConsistent c
      → IsConsistent (admit now job c).0
  unfolding admit
  admit-IsConsistent now job c h = elim (Option-cases (get (key job) c.running)) [
    | inl free ↦
        rw (free, admit)
          record {
            claims_distinct = Distinct-put (claim_key job) now c.claims h.claims_distinct;
            running_keyed = Everywhere-put (key job) job c.running refl h.running_keyed;
            pending_keyed = h.pending_keyed;
            served = λ k e. ground (arith, get-put (key job) k job c.running, h.served k);
          }
    | inr (j, busy) ↦
        rw (busy, admit)
          record {
            claims_distinct = Distinct-put (claim_key job) now c.claims h.claims_distinct;
            running_keyed = h.running_keyed;
            pending_keyed = Everywhere-put (key job) job c.pending refl h.pending_keyed;
            served = λ k e.
                ground
                  (arith, get-put (key job) k job c.pending, key_eq_iff (key job) k, h.served k);
          }
  ]

  expire_claims-IsConsistent :
      (now : ℕ) (c : ApplyPipelineCoordinator D)
      → IsConsistent c
      → IsConsistent (expire_claims now c)
  unfolding expire_claims
  expire_claims-IsConsistent now c h = record {
    claims_distinct = Distinct-retain _ c.claims h.claims_distinct;
    running_keyed = h.running_keyed;
    pending_keyed = h.pending_keyed;
    served = h.served;
  }

  -- A delivery keeps the tables consistent, whatever it is answered.
  pub enqueue-IsConsistent :
      (now : ℕ) (job : ApplyPipelineJob D) (c : ApplyPipelineCoordinator D)
      → IsConsistent c
      → IsConsistent (enqueue now job c).0
  unfolding enqueue
  enqueue-IsConsistent now job c h =
      let h' = expire_claims-IsConsistent now c h in
      elim (Option-cases (get (claim_key job) (expire_claims now c).claims)) [
        | inl fresh ↦ rw (fresh, enqueue) (admit-IsConsistent now job (expire_claims now c) h')
        | inr (t, claimed) ↦ rw (claimed, enqueue) h'
      ]

module _ {D : Type 0} ⦃d : Eq D⦄ where
  hand_over-IsConsistent :
      (job : ApplyPipelineJob D) (c : ApplyPipelineCoordinator D)
      → IsConsistent c
      → IsConsistent (hand_over job c).0
  unfolding hand_over
  hand_over-IsConsistent job c h = elim (Option-cases (get (key job) c.pending)) [
    | inl idle ↦
        rw (idle, hand_over)
          record {
            claims_distinct = h.claims_distinct;
            running_keyed = Everywhere-remove (key job) c.running h.running_keyed;
            pending_keyed = h.pending_keyed;
            served = λ k e.
                ground
                  (arith, get-remove (key job) k c.running, key_eq_iff (key job) k, h.served k);
          }
    | inr (next, waiting) ↦
        rw (waiting, hand_over)
          record {
            claims_distinct = h.claims_distinct;
            running_keyed =
                Everywhere-put (key job) next c.running (h.pending_keyed (key job) next waiting)
                  h.running_keyed;
            pending_keyed = Everywhere-remove (key job) c.pending h.pending_keyed;
            served = λ k e. ground (
              arith,
              get-put (key job) k next c.running,
              get-remove (key job) k c.pending,
              h.served k,
            );
          }
  ]

  -- The end of a run keeps the tables consistent, also when the job is not the one that runs.
  pub complete-IsConsistent :
      (job : ApplyPipelineJob D) (c : ApplyPipelineCoordinator D)
      → IsConsistent c
      → IsConsistent (complete job c).0
  unfolding complete
  complete-IsConsistent job c h = elim (Option-cases (get (key job) c.running)) [
    | inl idle ↦ rw (idle, complete) h
    | inr (current, busy) ↦ elim (Bool-cases (job_beq current job)) [
      | inl same ↦ rw (busy, same, complete) (hand_over-IsConsistent job c h)
      | inr other ↦ rw (busy, other, complete) h
    ]
  ]

  pub apply-IsConsistent :
      (e : Event D) (c : ApplyPipelineCoordinator D) → IsConsistent c → IsConsistent (apply e c)
  unfolding apply
  apply-IsConsistent (deliver now job) c h = enqueue-IsConsistent now job c h
  apply-IsConsistent (finish job) c h = complete-IsConsistent job c h

  -- From a consistent coordinator, any calls in any order lead to consistent tables: jobs stand
  -- under their own keys, no claim stands twice, and nothing is pending behind no running job.
  pub run-IsConsistent :
      (es : List (Event D)) (c : ApplyPipelineCoordinator D)
      → IsConsistent c
      → IsConsistent (run es c)
  run-IsConsistent = run_induction apply-IsConsistent

pub init-IsConsistent : {D : Type 0} (ttl : ℕ) → IsConsistent (init {D = D} ttl)
unfolding get
init-IsConsistent ttl = record {
  claims_distinct = tt;
  running_keyed = λ k j e. cc;
  pending_keyed = λ k j e. cc;
  served = λ k e. refl;
}
