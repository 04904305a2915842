-- ===== src/Coordinator.antt =====
-- pr_agent/servers/apply_pipeline_coordinator.py: which Apply commit of a merge request is run.
pub mod Events
pub mod Dedup
pub mod Invariant
pub mod Queue
pub mod Workers
use my_pr_agent.Prelude.{
  ℕ, ◌-◌, Bool, ◌&&◌, not, Option, none, some, [], Eq, ◌==◌, ltb, if◌then◌else◌, nat_eq, pair_eq,
  list_eq,
}
use my_pr_agent.Text.{Text}
use my_pr_agent.Dict.{Dict, get, put, remove, retain}

-- `data` and `log_context` are dicts that the coordinator only compares: `payload` and
-- `log_context` are of a type `D` with an equality.
pub record ApplyPipelineJob (D : Type 0) : Type 0 where
  pub project_id : ℕ
  pub mr_iid : ℕ
  pub sha : Text
  pub pr_url : Text
  pub payload : D
  pub log_context : D
  pub commands_conf : Text

abbrev pub Key : Type 0
Key = ℕ × ℕ

abbrev pub ClaimKey : Type 0
ClaimKey = ℕ × Text

-- The clock is read in whole ticks, in which `claim_ttl` is given too.
pub record ApplyPipelineCoordinator (D : Type 0) : Type 0 where
  pub claim_ttl : ℕ
  pub claims : Dict ClaimKey ℕ
  pub running : Dict Key (ApplyPipelineJob D)
  pub pending : Dict Key (ApplyPipelineJob D)

pub data Decision : Type 0 where
  duplicate start queued : Decision

abbrev pub init : {D : Type 0} → ℕ → ApplyPipelineCoordinator D
init ttl = record { claim_ttl = ttl; claims = []; running = []; pending = [] }

-- `now - claimed_at > ttl`
abbrev pub expired : ℕ → ℕ → ℕ → Bool
expired ttl now claimed_at = ltb ttl (now - claimed_at)

module _ {D : Type 0} where
  abbrev pub key : ApplyPipelineJob D → Key
  key job = (job.project_id, job.mr_iid)

  abbrev pub claim_key : ApplyPipelineJob D → ClaimKey
  claim_key job = (job.project_id, job.sha)

  unfoldable pub expire_claims : ℕ → ApplyPipelineCoordinator D → ApplyPipelineCoordinator D
  expire_claims now c = record c {
    claims = retain (λ claimed_at. not (expired c.claim_ttl now claimed_at)) c.claims;
  }

  -- The branch of `enqueue` for a commit that has no live claim.
  unfoldable pub admit :
      ℕ → ApplyPipelineJob D → ApplyPipelineCoordinator D → ApplyPipelineCoordinator D × Decision
  admit now job c =
      let claimed = record c { claims = put (claim_key job) now c.claims } in
      elim (get (key job) c.running) [
        | none ↦ (record claimed { running = put (key job) job c.running }, start)
        | some _ ↦ (record claimed { pending = put (key job) job c.pending }, queued)
      ]

  -- `enqueue` at the clock value `now`.
  unfoldable pub enqueue :
      ℕ → ApplyPipelineJob D → ApplyPipelineCoordinator D → ApplyPipelineCoordinator D × Decision
  unfolding admit expire_claims
  enqueue now job c =
      let live = expire_claims now c in
      elim (get (claim_key job) live.claims) [
        | some _ ↦ (live, duplicate)
        | none ↦ admit now job live
      ]

module _ {D : Type 0} ⦃d : Eq D⦄ where
  -- The equality of the frozen dataclass: field by field.
  abbrev pub job_beq : ApplyPipelineJob D → ApplyPipelineJob D → Bool
  job_beq a b =
      a.project_id == b.project_id
      && a.mr_iid == b.mr_iid
      && a.sha == b.sha
      && a.pr_url == b.pr_url
      && a.payload == b.payload
      && a.log_context == b.log_context
      && a.commands_conf == b.commands_conf

  -- The last part of `complete`: the pending job takes the slot, or the slot is freed.
  unfoldable pub hand_over :
      ApplyPipelineJob D
      → ApplyPipelineCoordinator D
      → ApplyPipelineCoordinator D × Option (ApplyPipelineJob D)
  hand_over job c = elim (get (key job) c.pending) [
    | none ↦ (record c { running = remove (key job) c.running }, none)
    | some next ↦ (
      record c { running = put (key job) next c.running; pending = remove (key job) c.pending },
      some next,
    )
  ]

  unfoldable pub complete :
      ApplyPipelineJob D
      → ApplyPipelineCoordinator D
      → ApplyPipelineCoordinator D × Option (ApplyPipelineJob D)
  unfolding hand_over
  complete job c = elim (get (key job) c.running) [
    | none ↦ (c, none)
    | some current ↦ if job_beq current job then hand_over job c else (c, none)
  ]
