-- ===== src/Policy/Capacity.antt =====
-- internal/controlplane/core/approvalpolicy/capacity_policy.go: the capacity signals, their
-- thresholds, and the decision on a command. A float64 is a value of a type F that is only compared.
use Prim.Native.Char.{Char}
use legator.Common.{
  ℕ, zero, suc, String, Bool, true, false, ◌||◌, Option, none, some, List, str_eq, ltb,
  if◌then◌else◌, Result, ok, err,
}
use legator.Common.Text.{trim_space, map_chars}
use legator.Common.Int.{ℤ, pos, negsuc}
use legator.Protocol.{ExecutionClass}
use legator.Approval.Risk.{RiskLevel, low, medium, high, critical}
use legator.Executor.Classifier.{CommandClassification}
use legator.Policy.Profile.{CommandPolicyProfile}
use legator.Policy.Lane.{
  CommandPolicyGateOutcome, allowed, blocked, pending_approval, LaneReason, policy_allowed,
  lane_unmapped, breakglass_disabled, needs_sandbox, lane_escalated, sandbox_escalated,
  breakglass_not_applicable, breakglass_required, required_mutation_gate, required_plan_first,
  required_every_action, required_two_person, LaneResolutionResult,
}

pub data CommandPolicyDecisionOutcome : Type 0 where
  allow deny queue : CommandPolicyDecisionOutcome

-- The reason codes of a decision.
pub data ReasonCode : Type 0 where
  lane_reason : LaneReason → ReasonCode
  risk_high availability_degraded availability_limited : ReasonCode
  datasource_insufficient dashboard_coverage_low query_coverage_low : ReasonCode

-- The text of a lane's reason code.
unfoldable pub lane_reason_text : LaneReason → String
lane_reason_text policy_allowed = "policy.allowed"
lane_reason_text lane_unmapped = "policy.lane_unmapped"
lane_reason_text breakglass_disabled = "policy.breakglass_disabled"
lane_reason_text needs_sandbox = "policy.sandbox_required"
lane_reason_text lane_escalated = "policy.lane_escalated"
lane_reason_text sandbox_escalated = "policy.sandbox_escalated"
lane_reason_text breakglass_not_applicable = "policy.breakglass_not_applicable"
lane_reason_text breakglass_required = "approval.breakglass_required"
lane_reason_text required_mutation_gate = "approval.required.mutation_gate"
lane_reason_text required_plan_first = "approval.required.plan_first"
lane_reason_text required_every_action = "approval.required.every_action"
lane_reason_text required_two_person = "approval.required.two_person"

-- The text of a reason code.
unfoldable pub reason_text : ReasonCode → String
unfolding lane_reason_text
reason_text (lane_reason r) = lane_reason_text r
reason_text risk_high = "approval.required.risk_high"
reason_text availability_degraded = "capacity.availability_degraded"
reason_text availability_limited = "capacity.availability_limited"
reason_text datasource_insufficient = "capacity.datasource_insufficient"
reason_text dashboard_coverage_low = "capacity.dashboard_coverage_low"
reason_text query_coverage_low = "capacity.query_coverage_low"

-- decisionOutcomeFromGate
unfoldable pub decision_outcome_from_gate : CommandPolicyGateOutcome → CommandPolicyDecisionOutcome
decision_outcome_from_gate blocked = deny
decision_outcome_from_gate pending_approval = queue
decision_outcome_from_gate allowed = allow

-- decisionGateFromOutcome
unfoldable pub decision_gate_from_outcome : CommandPolicyDecisionOutcome → CommandPolicyGateOutcome
decision_gate_from_outcome deny = blocked
decision_gate_from_outcome queue = pending_approval
decision_gate_from_outcome allow = allowed

-- The function `rank` of mergeDecisionOutcome.
unfoldable pub outcome_rank : CommandPolicyDecisionOutcome → ℕ
outcome_rank allow = 1
outcome_rank queue = 2
outcome_rank deny = 3

-- mergeDecisionOutcome
unfoldable pub merge_decision_outcome :
    CommandPolicyDecisionOutcome → CommandPolicyDecisionOutcome → CommandPolicyDecisionOutcome
unfolding outcome_rank
merge_decision_outcome current candidate =
    if ltb (outcome_rank current) (outcome_rank candidate) then candidate else current

-- riskTierForLevel, at the levels that ClassifyRisk returns.
unfoldable pub risk_tier_for_level : RiskLevel → ℕ
risk_tier_for_level low = 1
risk_tier_for_level medium = 2
risk_tier_for_level high = 3
risk_tier_for_level critical = 4

-- Go's comparisons of float64 values, its conversion of an int, and the constants of the code.
pub record Float64 (F : Type 0) : Type 0 where
  pub lt : F → F → Bool
  pub le : F → F → Bool
  pub of_int : ℤ → F
  pub nought : F
  pub one : F
  pub half : F
  pub quarter : F

pub record CapacityThresholds (F : Type 0) : Type 0 where
  pub min_datasource_count : ℤ
  pub min_dashboard_coverage : F
  pub min_query_coverage : F

pub record CapacitySignals (F : Type 0) : Type 0 where
  pub source : String
  pub availability : String
  pub dashboard_coverage : F
  pub query_coverage : F
  pub datasource_count : ℤ
  pub partial : Bool
  pub warnings : List String

-- A field of type any of an indicator.
pub data IndicatorValue (F : Type 0) : Type 0 where
  no_value : IndicatorValue F
  text : String → IndicatorValue F
  risk_value : RiskLevel → IndicatorValue F
  count : ℤ → IndicatorValue F
  share : F → IndicatorValue F
  flag : Bool → IndicatorValue F

pub record CommandPolicyIndicator (F : Type 0) : Type 0 where
  pub name : String
  pub source : String
  pub value : IndicatorValue F
  pub comparator : String
  pub threshold : IndicatorValue F
  pub severity : String
  pub effect : Option CommandPolicyDecisionOutcome
  pub drove_outcome : Bool
  pub message : String

-- CommandPolicyDecision, with the fields of its rationale but the constant name of the policy.
pub record CommandPolicyDecision (F : Type 0) : Type 0 where
  pub outcome : CommandPolicyDecisionOutcome
  pub gate_outcome : CommandPolicyGateOutcome
  pub lane : ExecutionClass
  pub risk_level : RiskLevel
  pub risk_tier : ℕ
  pub reason_code : ReasonCode
  pub classification : CommandClassification
  pub policy : CommandPolicyProfile
  pub summary : String
  pub fallback : Bool
  pub indicators : List (CommandPolicyIndicator F)
  pub capacity : Option (CapacitySignals F)
  pub thresholds : CapacityThresholds F
  pub lane_rationale : LaneResolutionResult

-- Not above zero.
abbrev not_positive : ℤ → Bool
not_positive (pos zero) = true
not_positive (pos (suc n)) = false
not_positive (negsuc n) = true

module _ {F : Type 0} (fl : Float64 F) where
  -- DefaultCapacityThresholds
  unfoldable pub default_capacity_thresholds : CapacityThresholds F
  default_capacity_thresholds = record {
    min_datasource_count = pos 1;
    min_dashboard_coverage = fl.half;
    min_query_coverage = fl.quarter;
  }

  -- CapacityThresholds.normalized
  unfoldable pub normalized : CapacityThresholds F → CapacityThresholds F
  normalized t = record {
    min_datasource_count =
        if not_positive t.min_datasource_count then pos 1 else t.min_datasource_count;
    min_dashboard_coverage =
        if fl.le t.min_dashboard_coverage fl.nought || fl.lt fl.one t.min_dashboard_coverage
        then fl.half
        else t.min_dashboard_coverage;
    min_query_coverage =
        if fl.le t.min_query_coverage fl.nought || fl.lt fl.one t.min_query_coverage
        then fl.quarter
        else t.min_query_coverage;
  }

-- capacitySource
unfoldable pub capacity_source : String → String
capacity_source source =
    let trimmed = trim_space source in if str_eq trimmed "" then "grafana" else trimmed

-- readCapacitySignals at what the provider returns; `none` stands for no provider.
unfoldable pub read_capacity_signals :
    {F : Type 0} (lower : Char → Char)
    → Option (Result String (Option (CapacitySignals F)))
    → Result String (Option (CapacitySignals F))
read_capacity_signals lower none = ok none
read_capacity_signals lower (some (err e)) = err e
read_capacity_signals lower (some (ok none)) = ok none
read_capacity_signals lower (some (ok (some signals))) = ok (
    some (record signals {
      source = capacity_source signals.source;
      availability = map_chars lower (trim_space signals.availability);
    }))
