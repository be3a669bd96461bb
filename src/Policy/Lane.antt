-- ===== src/Policy/Lane.antt =====
-- internal/controlplane/core/approvalpolicy/capacity_policy.go: the lane of a command and its gate.
use legator.Common.{ℕ, Bool, true, false, not, ◌&&◌, ◌||◌, ltb, if◌then◌else◌}
use legator.Protocol.{
  CapabilityLevel, diagnose, remediate, ExecutionClass, observe_direct, diagnose_sandbox,
  remediate_sandbox, breakglass_direct, unset_class, ApprovalMode, approval_none, mutation_gate,
  plan_first, every_action, two_person,
}
use legator.Executor.Classifier.{CommandClassification}
use legator.Policy.Profile.{CommandPolicyProfile}

pub data CommandPolicyGateOutcome : Type 0 where
  allowed blocked pending_approval : CommandPolicyGateOutcome

-- The reason codes of a lane, in the source's words.
pub data LaneReason : Type 0 where
  policy_allowed lane_unmapped breakglass_disabled needs_sandbox lane_escalated : LaneReason
  sandbox_escalated breakglass_not_applicable breakglass_required : LaneReason
  required_mutation_gate required_plan_first required_every_action required_two_person : LaneReason

pub record LaneResolutionResult : Type 0 where
  pub selected_lane : ExecutionClass
  pub gate_outcome : CommandPolicyGateOutcome
  pub reason_code : LaneReason

abbrev pub is_remediating : CapabilityLevel → Bool
is_remediating remediate = true
is_remediating _ = false

abbrev pub is_breakglass : ExecutionClass → Bool
is_breakglass breakglass_direct = true
is_breakglass _ = false

-- laneFromCapability
unfoldable pub lane_from_capability : CapabilityLevel → ExecutionClass
lane_from_capability diagnose = diagnose_sandbox
lane_from_capability remediate = remediate_sandbox
lane_from_capability _ = observe_direct

-- The function `rank` of stricterLane.
unfoldable pub lane_rank : ExecutionClass → ℕ
lane_rank observe_direct = 1
lane_rank diagnose_sandbox = 2
lane_rank remediate_sandbox = 3
lane_rank breakglass_direct = 4
lane_rank _ = 0

-- stricterLane
unfoldable pub stricter_lane : ExecutionClass → ExecutionClass → ExecutionClass
unfolding lane_rank
stricter_lane unset_class candidate = candidate
stricter_lane current unset_class = current
stricter_lane current breakglass_direct = breakglass_direct
stricter_lane current candidate =
    if ltb (lane_rank current) (lane_rank candidate) then candidate else current

-- The lane that resolveLaneDecision selects at first.
unfoldable pub first_lane : CapabilityLevel → ExecutionClass → ExecutionClass
unfolding lane_from_capability stricter_lane
first_lane level breakglass_direct = breakglass_direct
first_lane level unset_class = lane_from_capability level
first_lane level required = stricter_lane (lane_from_capability level) required

abbrev pub resolved : ExecutionClass → CommandPolicyGateOutcome → LaneReason → LaneResolutionResult
resolved lane gate reason = record {
  selected_lane = lane;
  gate_outcome = gate;
  reason_code = reason;
}

-- The `switch` of resolveLaneDecision on the approval mode.
unfoldable pub gate_of_mode :
    ApprovalMode → Bool → ExecutionClass → LaneReason → LaneResolutionResult
gate_of_mode approval_none mutates lane reason = resolved lane allowed reason
gate_of_mode mutation_gate mutates lane reason =
    if mutates || is_breakglass lane
    then resolved lane pending_approval required_mutation_gate
    else resolved lane allowed reason
gate_of_mode plan_first mutates lane reason = resolved lane pending_approval required_plan_first
gate_of_mode every_action mutates lane reason = resolved lane pending_approval required_every_action
gate_of_mode two_person mutates lane reason = resolved lane pending_approval required_two_person
gate_of_mode _ mutates lane reason =
    if mutates
    then resolved lane pending_approval required_mutation_gate
    else resolved lane allowed reason

abbrev pub escalated : LaneReason → LaneReason
escalated policy_allowed = sandbox_escalated
escalated r = r

-- The `switch` of resolveLaneDecision on the lane, where a sandbox is required.
unfoldable pub sandboxed_lane :
    ApprovalMode → Bool → ExecutionClass → LaneReason → LaneResolutionResult
unfolding gate_of_mode
sandboxed_lane mode mutates observe_direct reason =
    gate_of_mode mode mutates diagnose_sandbox (escalated reason)
sandboxed_lane mode mutates breakglass_direct reason =
    resolved breakglass_direct blocked needs_sandbox
sandboxed_lane mode mutates lane reason = gate_of_mode mode mutates lane reason

-- resolveLaneDecision from the test of SandboxRequired on.
unfoldable pub sandbox_step :
    CommandPolicyProfile → Bool → ExecutionClass → LaneReason → LaneResolutionResult
unfolding gate_of_mode sandboxed_lane
sandbox_step p mutates lane reason =
    if p.sandbox_required
    then sandboxed_lane p.approval_mode mutates lane reason
    else if not mutates && is_breakglass lane
    then resolved lane blocked breakglass_not_applicable
    else gate_of_mode p.approval_mode mutates lane reason

-- The cases of resolveLaneDecision at a command that mutates, with a known signature.
unfoldable pub mutation_step : CommandPolicyProfile → ExecutionClass → LaneResolutionResult
unfolding sandbox_step
mutation_step p breakglass_direct =
    if not p.breakglass.enabled
    then resolved breakglass_direct blocked breakglass_disabled
    else if p.sandbox_required
    then resolved breakglass_direct blocked needs_sandbox
    else resolved breakglass_direct pending_approval breakglass_required
mutation_step p observe_direct = resolved observe_direct blocked lane_unmapped
mutation_step p diagnose_sandbox = sandbox_step p true remediate_sandbox lane_escalated
mutation_step p lane = sandbox_step p true lane policy_allowed

abbrev pub or_remediate : ExecutionClass → ExecutionClass
or_remediate unset_class = remediate_sandbox
or_remediate lane = lane

-- resolveLaneDecision
unfoldable pub resolve_lane_decision :
    CommandClassification → CommandPolicyProfile → LaneResolutionResult
unfolding first_lane mutation_step sandbox_step
resolve_lane_decision c p =
    let lane = first_lane c.level p.execution_class_required in
    if is_remediating c.level
    then if not c.signature_known
      then resolved (or_remediate lane) blocked lane_unmapped
      else mutation_step p lane
    else sandbox_step p false lane policy_allowed
