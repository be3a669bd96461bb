-- ===== src/Policy/Gating.antt =====
-- internal/controlplane/core/approvalpolicy/capacity_policy.go: what resolveLaneDecision never lets
-- through, whatever the profile of the policy says.
use legator.Common.{subst, true, ◌≡◌, ◌≢◌, ◌⊎◌, inl, inr, arith, Bool-cases}
use legator.Protocol.{
  remediate, ExecutionClass, observe_direct, remediate_sandbox, breakglass_direct, ApprovalMode,
  approval_none,
}
use legator.Executor.Classifier.{CommandClassification}
use legator.Policy.Profile.{CommandPolicyProfile}
use legator.Policy.Lane.{
  allowed, blocked, LaneReason, first_lane, stricter_lane, lane_rank, gate_of_mode, sandboxed_lane,
  sandbox_step, mutation_step, resolve_lane_decision, policy_allowed,
}

-- No requirement takes a mutating command out of its sandbox, but breakglass.
first_lane-remediate :
    (required : ExecutionClass)
    → (first_lane remediate required ≡ remediate_sandbox)
      ⊎ (first_lane remediate required ≡ breakglass_direct)
unfolding first_lane stricter_lane lane_rank
first_lane-remediate breakglass_direct = inr (ground arith)
first_lane-remediate required = inl (ground arith)

gate_of_mode-mutating :
    (mode : ApprovalMode) (lane : ExecutionClass) (reason : LaneReason)
    → (gate_of_mode mode true lane reason).gate_outcome ≡ allowed
    → (mode ≡ approval_none) × ((gate_of_mode mode true lane reason).selected_lane ≡ lane)
unfolding gate_of_mode
gate_of_mode-mutating mode lane reason h = ground arith

sandbox_step-mutating :
    (p : CommandPolicyProfile)
    → (sandbox_step p true remediate_sandbox policy_allowed).gate_outcome ≡ allowed
    → (p.approval_mode ≡ approval_none)
      × ((sandbox_step p true remediate_sandbox policy_allowed).selected_lane ≡ remediate_sandbox)
unfolding sandbox_step sandboxed_lane
sandbox_step-mutating p h =
    ground (arith, gate_of_mode-mutating p.approval_mode remediate_sandbox policy_allowed)

mutation_step-mutating :
    (p : CommandPolicyProfile) (lane : ExecutionClass)
    → (lane ≡ remediate_sandbox) ⊎ (lane ≡ breakglass_direct)
    → (mutation_step p lane).gate_outcome ≡ allowed
    → (p.approval_mode ≡ approval_none) × ((mutation_step p lane).selected_lane ≡ remediate_sandbox)
unfolding mutation_step
mutation_step-mutating p lane (inl e) h =
    rw e (sandbox_step-mutating p (subst (λ l. (mutation_step p l).gate_outcome ≡ allowed) e h))
mutation_step-mutating p lane (inr e) h = ground arith

-- A command that is classified as remediate is allowed without approval only if its signature is
-- known and the profile's approval mode is none, and then its lane is the remediate sandbox.
pub unapproved_mutation :
    (c : CommandClassification) (p : CommandPolicyProfile)
    → c.level ≡ remediate
    → (resolve_lane_decision c p).gate_outcome ≡ allowed
    → (c.signature_known ≡ true)
      × (p.approval_mode ≡ approval_none)
      × ((resolve_lane_decision c p).selected_lane ≡ remediate_sandbox)
unfolding resolve_lane_decision
unapproved_mutation c p level h = elim (Bool-cases c.signature_known) [
  | inr unknown ↦ let h' = rw (level, unknown) at h in cc
  | inl known ↦
      let (mode, lane) =
        mutation_step-mutating p _ (first_lane-remediate p.execution_class_required)
          (rw (level, known) at h) in
      (known, mode, rw (level, known) lane)
]

-- Where the profile requires a sandbox, a lane that is not blocked is neither observe_direct nor
-- breakglass_direct.
pub sandbox_honoured :
    (c : CommandClassification) (p : CommandPolicyProfile)
    → p.sandbox_required ≡ true
    → (resolve_lane_decision c p).gate_outcome ≢ blocked
    → ((resolve_lane_decision c p).selected_lane ≢ observe_direct)
      × ((resolve_lane_decision c p).selected_lane ≢ breakglass_direct)
unfolding resolve_lane_decision sandbox_step mutation_step sandboxed_lane gate_of_mode
sandbox_honoured c p required h = ground arith
