-- ===== src/Coordinator/Dedup.antt =====
-- One Apply commit is admitted once within the lifetime of its claim.
use my_pr_agent.Prelude.{
  ℕ, ◌-◌, ◌≤◌, ◌≡◌, ◌≢◌, ◌↔◌, refl, ◌∙◌, true, not, inl, inr, Option-cases, some, List, [], ◌∷◌,
  arith, Eq, ◌==◌, nat_eq, pair_eq, list_eq, pair_beq_iff, All,
}
use my_pr_agent.Dict.{get, kept, get-put, get-retain}
use my_pr_agent.Coordinator.{
  ApplyPipelineJob, ApplyPipelineCoordinator, ClaimKey, claim_key, expired, expire_claims, admit,
  enqueue, hand_over, complete, duplicate,
}
use my_pr_agent.Coordinator.Events.{Event, deliver, finish, apply, run}
use my_pr_agent.Coordinator.Invariant.{
  IsConsistent, enqueue-IsConsistent, apply-IsConsistent, run-IsConsistent,
}

claim_key_eq_iff : (a b : ClaimKey) → ((a == b) ≡ true) ↔ (a ≡ b)
claim_key_eq_iff = pair_beq_iff nat_eq list_eq

module _ {D : Type 0} (c : ApplyPipelineCoordinator D) (h : IsConsistent c) where
  -- What a claim is after `_expire_claims`.
  get-expire_claims :
      (now : ℕ) (k : ClaimKey)
      → get k (expire_claims now c).claims
        ≡ kept (λ t. not (expired c.claim_ttl now t)) (get k c.claims)
  unfolding expire_claims
  get-expire_claims now k = get-retain _ k c.claims h.claims_distinct

  -- A delivery is answered "duplicate" exactly when its commit was claimed no longer ago than the
  -- claims live.
  pub duplicate_iff :
      (now : ℕ) (job : ApplyPipelineJob D)
      → ((enqueue now job c).1 ≡ duplicate)
        ↔ ((t : ℕ) × (get (claim_key job) c.claims ≡ some t) × (now - t ≤ c.claim_ttl))
  unfolding enqueue admit
  duplicate_iff now job = (
    λ e. elim (Option-cases (get (claim_key job) c.claims)) [
      | inl fresh ↦ absurd (ground (arith, get-expire_claims now (claim_key job)))
      | inr (t, claimed) ↦ (t, claimed, ground (arith, get-expire_claims now (claim_key job)))
    ],
    λ (t, claimed, young). ground (arith, get-expire_claims now (claim_key job)),
  )

  -- A claim outlives a call that comes before its end.
  claim-enqueue :
      (now t : ℕ) (k : ClaimKey) (job : ApplyPipelineJob D)
      → get k c.claims ≡ some t
      → now - t ≤ c.claim_ttl
      → get k (enqueue now job c).0.claims ≡ some t
  unfolding enqueue admit
  claim-enqueue now t k job claimed young = ground (
    arith,
    get-expire_claims now k,
    get-expire_claims now (claim_key job),
    claim_key_eq_iff (claim_key job) k,
    get-put (claim_key job) k now (expire_claims now c).claims,
  )

module _ {D : Type 0} ⦃d : Eq D⦄ where
  claims-complete :
      (job : ApplyPipelineJob D) (c : ApplyPipelineCoordinator D)
      → (complete job c).0.claims ≡ c.claims
  unfolding complete hand_over
  claims-complete job c = ground arith

  claim_ttl-complete :
      (job : ApplyPipelineJob D) (c : ApplyPipelineCoordinator D)
      → (complete job c).0.claim_ttl ≡ c.claim_ttl
  unfolding complete hand_over
  claim_ttl-complete job c = ground arith

  claim_ttl-enqueue :
      (now : ℕ) (job : ApplyPipelineJob D) (c : ApplyPipelineCoordinator D)
      → (enqueue now job c).0.claim_ttl ≡ c.claim_ttl
  unfolding enqueue admit
  claim_ttl-enqueue now job c = ground arith

  -- An event at a time when a claim of time `t` still lives.
  abbrev pub Within : ℕ → ℕ → Event D → Type 0
  Within ttl t (deliver now job) = now - t ≤ ttl
  Within ttl t (finish job) = Unit

  claim-apply :
      (t : ℕ) (k : ClaimKey) (e : Event D) (c : ApplyPipelineCoordinator D)
      → IsConsistent c
      → get k c.claims ≡ some t
      → Within c.claim_ttl t e
      → (get k (apply e c).claims ≡ some t) × ((apply e c).claim_ttl ≡ c.claim_ttl)
  unfolding apply
  claim-apply t k (deliver now job) c h claimed young =
      (claim-enqueue c h now t k job claimed young, claim_ttl-enqueue now job c)
  claim-apply t k (finish job) c h claimed _ =
      (cc (claims-complete job c), claim_ttl-complete job c)

  claim-run :
      (t : ℕ) (k : ClaimKey) (es : List (Event D)) (c : ApplyPipelineCoordinator D)
      → IsConsistent c
      → get k c.claims ≡ some t
      → All (Within c.claim_ttl t) es
      → (get k (run es c).claims ≡ some t) × ((run es c).claim_ttl ≡ c.claim_ttl)
  unfolding run
  claim-run t k [] c h claimed _ = (claimed, refl)
  claim-run t k (e ∷ es) c h claimed (young, rest) =
      let (claimed', same) = claim-apply t k e c h claimed young in
      let (claimed'', same') =
        claim-run t k es (apply e c) (apply-IsConsistent e c h) claimed' (rw same rest) in
      (claimed'', same' ∙ same)

  claim-admitted :
      (now : ℕ) (job : ApplyPipelineJob D) (c : ApplyPipelineCoordinator D)
      → (enqueue now job c).1 ≢ duplicate
      → get (claim_key job) (enqueue now job c).0.claims ≡ some now
  unfolding enqueue admit
  claim-admitted now job c new = ground (
    arith,
    claim_key_eq_iff (claim_key job) (claim_key job),
    get-put (claim_key job) (claim_key job) now (expire_claims now c).claims,
  )

  -- Once a commit is admitted, a second delivery of it within the lifetime of the claim is answered
  -- "duplicate", whatever deliveries and finished runs come in between, and whichever merge
  -- request, data or commands the second delivery names.
  pub duplicate-run :
      (c : ApplyPipelineCoordinator D) (t now : ℕ) (job job' : ApplyPipelineJob D)
      (es : List (Event D))
      → IsConsistent c
      → (enqueue t job c).1 ≢ duplicate
      → All (Within c.claim_ttl t) es
      → claim_key job' ≡ claim_key job
      → now - t ≤ c.claim_ttl
      → (enqueue now job' (run es (enqueue t job c).0)).1 ≡ duplicate
  duplicate-run c t now job job' es h new young same late =
      let admitted = (enqueue t job c).0 in
      let h' = enqueue-IsConsistent t job c h in
      let ttl = claim_ttl-enqueue t job c in
      let (claimed, ttl') =
        claim-run t (claim_key job) es admitted h' (claim-admitted t job c new) (rw ttl young) in
      (duplicate_iff (run es admitted) (run-IsConsistent es admitted h') now job').1
        (t, rw same claimed, rw (ttl', ttl) late)
