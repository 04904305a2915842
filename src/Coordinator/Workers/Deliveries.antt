-- ===== src/Coordinator/Workers/Deliveries.antt =====
-- A delivery keeps the running table and the tasks in step.
use my_pr_agent.Prelude.{
  ℕ, ◌+◌, ◌≡◌, ◌≢◌, ◌⊎◌, refl, sym, ap, subst, false, inl, inr, Option, none, some, List, [], ◌∷◌,
  ◌++◌, arith, ◌==◌, nat_eq, pair_eq, list_eq, pair_beq_iff, All, if◌then◌else◌,
}
use my_pr_agent.Dict.{get, put, get-put}
use my_pr_agent.Coordinator.{
  ApplyPipelineJob, ApplyPipelineCoordinator, Key, key, admit, enqueue, Decision, duplicate, start,
  queued,
}
use my_pr_agent.Coordinator.Invariant.{IsConsistent, enqueue-IsConsistent}
use my_pr_agent.Coordinator.Workers.{System, started}

Decision-cases : (e : Decision) → (e ≡ start) ⊎ (e ≢ start)
Decision-cases duplicate = inr (λ p. cc p)
Decision-cases start = inl refl
Decision-cases queued = inr (λ p. cc p)

module _ {D : Type 0} where
  -- The number of tasks whose job is for the merge request `k`.
  abbrev pub busy : Key → List (ApplyPipelineJob D) → ℕ
  busy k [] = 0
  busy k (job ∷ active) = (if key job == k then 1 else 0) + busy k active

  abbrev pub slots : Option (ApplyPipelineJob D) → ℕ
  slots none = 0
  slots (some job) = 1

  pub busy-append :
      (k : Key) (xs ys : List (ApplyPipelineJob D)) → busy k (xs ++ ys) ≡ busy k xs + busy k ys
  busy-append k [] ys = omega arith
  busy-append k (x ∷ xs) ys = omega (arith, busy-append k xs ys)

  -- Every task's job is the running one of its merge request.
  abbrev pub Holds : ApplyPipelineCoordinator D → ApplyPipelineJob D → Type 0
  Holds c job = get (key job) c.running ≡ some job

  pub record IsExclusive (s : System D) : Type 0 where
    pub consistent : IsConsistent s.coordinator
    pub counted : (k : Key) → busy k s.active ≡ slots (get k s.coordinator.running)
    pub held : All (Holds s.coordinator) s.active

  -- A write at `k` is not seen by jobs of other merge requests.
  pub Holds-others :
      (c c' : ApplyPipelineCoordinator D) (k : Key) (xs : List (ApplyPipelineJob D))
      → ((j : Key) → (k == j) ≡ false → get j c'.running ≡ get j c.running)
      → busy k xs ≡ 0
      → All (Holds c) xs
      → All (Holds c') xs
  Holds-others c c' k [] same none_busy _ = tt
  Holds-others c c' k (x ∷ xs) same none_busy (hx, hxs) = (
    ground (
      arith,
      same (key x),
      pair_beq_iff nat_eq nat_eq k (key x),
      pair_beq_iff nat_eq nat_eq (key x) k,
    ),
    Holds-others c c' k xs same (omega arith) hxs,
  )

  enqueue-start :
      (now : ℕ) (job : ApplyPipelineJob D) (c : ApplyPipelineCoordinator D)
      → (enqueue now job c).1 ≡ start
      → (get (key job) c.running ≡ none)
        × ((enqueue now job c).0.running ≡ put (key job) job c.running)
  unfolding enqueue admit
  enqueue-start now job c e = ground arith

  enqueue-other :
      (now : ℕ) (job : ApplyPipelineJob D) (c : ApplyPipelineCoordinator D)
      → (enqueue now job c).1 ≢ start
      → (enqueue now job c).0.running ≡ c.running
  unfolding enqueue admit
  enqueue-other now job c e = ground arith

  deliver-start :
      (now : ℕ) (job : ApplyPipelineJob D) (s : System D)
      → IsExclusive s
      → (enqueue now job s.coordinator).1 ≡ start
      → IsExclusive
          (record { coordinator = (enqueue now job s.coordinator).0; active = job ∷ s.active })
  deliver-start now job s h e =
      let c = s.coordinator in
      let (free, written) = enqueue-start now job c e in
      let at = λ (k : Key). get-put (key job) k job c.running in
      record {
        consistent = enqueue-IsConsistent now job c h.consistent;
        counted = λ k.
            ground
              (arith, free, written, at k, h.counted k, pair_beq_iff nat_eq nat_eq (key job) k);
        held = (
          ground (arith, written, at (key job), pair_beq_iff nat_eq nat_eq (key job) (key job)),
          Holds-others c (enqueue now job c).0 (key job) s.active
              (λ j other. ground (arith, written, at j)) (ground (arith, free, h.counted (key job)))
              h.held,
        );
      }

  deliver-other :
      (now : ℕ) (job : ApplyPipelineJob D) (s : System D)
      → IsExclusive s
      → (enqueue now job s.coordinator).1 ≢ start
      → IsExclusive (record { coordinator = (enqueue now job s.coordinator).0; active = s.active })
  deliver-other now job s h e =
      let c = s.coordinator in
      let same = enqueue-other now job c e in
      record {
        consistent = enqueue-IsConsistent now job c h.consistent;
        counted = λ k. rw same (h.counted k);
        held = subst (λ r. All (λ j. get (key j) r ≡ some j) s.active) (sym same) h.held;
      }

  -- The two ways in which `deliver` and `finish` give the state after them.
  pub IsExclusive-of_fields :
      {u : System D} (c : ApplyPipelineCoordinator D) (active : List (ApplyPipelineJob D))
      → u.coordinator ≡ c
      → u.active ≡ active
      → IsExclusive (record { coordinator = c; active = active })
      → IsExclusive u
  IsExclusive-of_fields c active ec ea h =
      subst IsExclusive (λ i. record { coordinator = sym ec i; active = sym ea i }) h

  started-other :
      (e : Decision) (job : ApplyPipelineJob D) (active : List (ApplyPipelineJob D))
      → e ≢ start
      → started e job active ≡ active
  started-other duplicate job active h = refl
  started-other start job active h = absurd (h refl)
  started-other queued job active h = refl

  pub deliver-IsExclusive :
      (now : ℕ) (job : ApplyPipelineJob D) (s : System D)
      → IsExclusive s
      → IsExclusive (record {
        coordinator = (enqueue now job s.coordinator).0;
        active = started (enqueue now job s.coordinator).1 job s.active;
      })
  deliver-IsExclusive now job s h = elim (Decision-cases (enqueue now job s.coordinator).1) [
    | inl e ↦
        IsExclusive-of_fields _ _ refl (ap (λ r. started r job s.active) e)
          (deliver-start now job s h e)
    | inr e ↦
        IsExclusive-of_fields _ _ refl (started-other _ job s.active e)
          (deliver-other now job s h e)
  ]
