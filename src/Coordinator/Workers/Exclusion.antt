-- ===== src/Coordinator/Workers/Exclusion.antt =====
-- The running table tells exactly which merge requests have a task, and each has at most one.
use my_pr_agent.Prelude.{
  ℕ, ◌+◌, ◌≤◌, ◌≡◌, ◌⊎◌, refl, sym, ap, ◌∙◌, subst, inl, inr, Option, Option-cases, none, some,
  List, ◌∷◌, ◌++◌, arith, Eq, ◌==◌, nat_eq, pair_eq, list_eq, pair_beq_iff, All, All-split,
  if◌then◌else◌,
}
use my_pr_agent.Dict.{get, get-put, get-remove}
use my_pr_agent.Coordinator.{ApplyPipelineJob, Key, key, hand_over, complete}
use my_pr_agent.Coordinator.Invariant.{IsConsistent, init-IsConsistent, complete-IsConsistent}
use my_pr_agent.Coordinator.Queue.{complete-eq-hand_over}
use my_pr_agent.Coordinator.Workers.{
  System, idle, continued, Step, deliver, finish, Reach, here, next,
}
use my_pr_agent.Coordinator.Workers.Deliveries.{
  busy, slots, busy-append, Holds, IsExclusive, Holds-others, IsExclusive-of_fields,
  deliver-IsExclusive,
}

module _ {D : Type 0} ⦃d : Eq D⦄ where
  module _ (before after : List (ApplyPipelineJob D)) (job : ApplyPipelineJob D) (s : System D)
      (h : IsExclusive s) (e : s.active ≡ before ++ job ∷ after) where
    others : List (ApplyPipelineJob D)
    others = before ++ after

    split : Holds s.coordinator job × All (Holds s.coordinator) others
    unfolding others
    split = All-split (Holds s.coordinator) before after job (rw e at h.held)

    busy-others :
        (k : Key)
        → (if key job == k then 1 else 0) + busy k others ≡ slots (get k s.coordinator.running)
    unfolding others
    busy-others k = omega (
      arith,
      busy-append k before after,
      busy-append k before (job ∷ after),
      ap (busy k) e,
      h.counted k,
    )

    busy-others_self : busy (key job) others ≡ 0
    busy-others_self =
        ground
          (arith, split.0, busy-others (key job), pair_beq_iff nat_eq nat_eq (key job) (key job))

    consistent-hand_over : IsConsistent (hand_over job s.coordinator).0
    consistent-hand_over =
        subst (λ r. IsConsistent r.0) (complete-eq-hand_over job s.coordinator split.0)
          (complete-IsConsistent job s.coordinator h.consistent)

    -- The table after the hand-over, given by its look-ups.
    hand_over-IsExclusive_of :
        (slot : Option (ApplyPipelineJob D))
        → (hand_over job s.coordinator).1 ≡ slot
        → ((k : Key)
            → get k (hand_over job s.coordinator).0.running
              ≡ (if key job == k then slot else get k s.coordinator.running))
        → ((follower : ApplyPipelineJob D) → slot ≡ some follower → key follower ≡ key job)
        → IsExclusive (record {
          coordinator = (hand_over job s.coordinator).0;
          active = continued slot others;
        })
    hand_over-IsExclusive_of none returned table keyed = record {
      consistent = consistent-hand_over;
      counted = λ k. ground (arith, table k, busy-others k);
      held =
          Holds-others s.coordinator (hand_over job s.coordinator).0 (key job) others
            (λ j other. ground (arith, table j)) busy-others_self split.1;
    }
    hand_over-IsExclusive_of (some follower) returned table keyed =
        let same = keyed follower refl in
        record {
          consistent = consistent-hand_over;
          counted = λ k. ground (arith, table k, busy-others k, same);
          held = (
            ground (
              arith,
              table (key follower),
              same,
              pair_beq_iff nat_eq nat_eq (key job) (key follower),
            ),
            Holds-others s.coordinator (hand_over job s.coordinator).0 (key job) others
                (λ j other. ground (arith, table j)) busy-others_self split.1,
          );
        }

    get-hand_over :
        (k : Key)
        → get k (hand_over job s.coordinator).0.running
          ≡ (if key job == k then (hand_over job s.coordinator).1 else get k s.coordinator.running)
    unfolding hand_over
    get-hand_over k = elim (Option-cases (get (key job) s.coordinator.pending)) [
      | inl idle ↦ rw (idle, hand_over) (get-remove (key job) k s.coordinator.running)
      | inr (follower, waiting) ↦
          rw (waiting, hand_over) (get-put (key job) k follower s.coordinator.running)
    ]

    returned-pending : (hand_over job s.coordinator).1 ≡ get (key job) s.coordinator.pending
    unfolding hand_over
    returned-pending = ground arith

    finish-IsExclusive : IsExclusive (record {
      coordinator = (complete job s.coordinator).0;
      active = continued (complete job s.coordinator).1 (before ++ after);
    })
    unfolding others
    finish-IsExclusive = rw (complete-eq-hand_over job s.coordinator split.0) (
        hand_over-IsExclusive_of (hand_over job s.coordinator).1 refl get-hand_over
          λ follower e'. h.consistent.pending_keyed (key job) follower (sym returned-pending ∙ e'))

  Step-IsExclusive : {s u : System D} → Step s u → IsExclusive s → IsExclusive u
  Step-IsExclusive {s} (deliver now job ec ea) h =
      IsExclusive-of_fields _ _ ec ea (deliver-IsExclusive now job s h)
  Step-IsExclusive {s} (finish before after job e ec ea) h =
      IsExclusive-of_fields _ _ ec ea (finish-IsExclusive before after job s h e)

  idle-IsExclusive : (ttl : ℕ) → IsExclusive (idle {D = D} ttl)
  unfolding get
  idle-IsExclusive ttl = record {
    consistent = init-IsConsistent ttl;
    counted = λ k. refl;
    held = tt;
  }

  pub Reach-IsExclusive : (ttl : ℕ) {s : System D} → Reach (idle ttl) s → IsExclusive s
  Reach-IsExclusive ttl here = idle-IsExclusive ttl
  Reach-IsExclusive ttl (next r st) = Step-IsExclusive st (Reach-IsExclusive ttl r)

  -- After any deliveries and ends of runs, in any interleaving, at most one task runs for a merge
  -- request, and exactly one does unless no job is pending for it.
  pub one_task :
      (ttl : ℕ) {s : System D} (k : Key)
      → Reach (idle ttl) s
      → (busy k s.active ≤ 1) × ((get k s.coordinator.pending ≡ none) ⊎ (busy k s.active ≡ 1))
  one_task ttl {s} k r =
      let h = Reach-IsExclusive ttl r in
      (
        ground (arith, h.counted k),
        elim (Option-cases (get k s.coordinator.running)) [
          | inl free ↦ inl (h.consistent.served k free)
          | inr (job, occupied) ↦ inr (ground (arith, h.counted k))
        ],
      )
