-- ===== src/Policy/Evaluate.antt =====
-- internal/controlplane/core/approvalpolicy/capacity_policy.go: evaluateCommandPolicy, which
-- decides on a command by its lane, by its risk and by the capacity signals, in this order.
use Prim.Native.Char.{Char}
use legator.Common.{
  String, Bool, true, false, ◌&&◌, ◌||◌, Option, none, some, List, [], ◌∷◌, str_eq, starts_with,
  if◌then◌else◌, Result, ok, err,
}
use legator.Common.Text.{trim_space, map_chars}
use legator.Common.Map.{Map}
use legator.Protocol.{CommandPayload, CapabilityLevel}
use legator.Approval.Risk.{RiskLevel, classify_risk}
use legator.Executor.Classifier.{CommandClassification}
use legator.Policy.Commands.{classify_for_control}
use legator.Policy.Profile.{CommandPolicyProfile, AppliedPolicyContext, resolve_policy_profile}
use legator.Policy.Lane.{resolve_lane_decision}
use legator.Policy.Capacity.{
  CommandPolicyDecisionOutcome, deny, queue, lane_reason, risk_high, availability_degraded,
  availability_limited, datasource_insufficient, dashboard_coverage_low, query_coverage_low,
  reason_text, decision_outcome_from_gate, risk_tier_for_level, Float64, CapacityThresholds,
  CapacitySignals, IndicatorValue, no_value, text, risk_value, count, share, flag,
  CommandPolicyIndicator, CommandPolicyDecision, normalized, capacity_source, read_capacity_signals,
}
use legator.Policy.Decision.{
  Check, apply_check, apply_checks, finish, is_allow, is_deny, is_high, noted, skipped, struck,
}

module _ {F : Type 0} where
  abbrev plain : String → String → IndicatorValue F → String → CommandPolicyIndicator F
  plain name source value message = record {
    name = name;
    source = source;
    value = value;
    comparator = "";
    threshold = no_value;
    severity = "info";
    effect = none;
    drove_outcome = false;
    message = message;
  }

  -- The command's risk, which only counts where the lane allows the command.
  unfoldable pub risk_check : RiskLevel → CommandPolicyDecisionOutcome → Check F
  risk_check risk current =
      let i =
        plain "command_risk" "risk_classifier" (risk_value risk) "command risk classification" in
      if is_high risk && is_allow current
      then struck i "warn" queue risk_high "high-risk command requires human approval"
      else noted i

  -- The signals are not available.
  unfoldable pub fallback_check : Option String → Check F
  fallback_check failure =
      let shown : String = elim failure [ none ↦ "unavailable" | some e ↦ e ] in
      noted (
        plain "capacity_signals" "grafana_adapter" (text shown)
          "Grafana capacity signals unavailable; using risk-only fallback")

  module _ (fl : Float64 F) (lower : Char → Char) (t : CapacityThresholds F)
      (c : CapacitySignals F) where
    unfoldable pub seen_availability : String
    seen_availability = map_chars lower (trim_space c.availability)

    unfoldable pub availability_check : Check F
    unfolding seen_availability
    availability_check =
        let seen = seen_availability in
        let i =
          plain "availability" (capacity_source c.source) (text seen)
            "Grafana availability signal" in
        if str_eq seen "degraded"
        then struck i "critical" deny availability_degraded
            "capacity degraded; command denied by policy"
        else if str_eq seen "limited" || str_eq seen "insufficient"
        then struck i "warn" queue availability_limited
            "capacity limited; command queued for operator decision"
        else noted i

    abbrev compared :
        String → IndicatorValue F → IndicatorValue F → String → CommandPolicyIndicator F
    compared name value threshold message =
        record (plain name (capacity_source c.source) value message) {
          comparator = ">=";
          threshold = threshold;
        }

    unfoldable pub datasource_check : Check F
    datasource_check =
        let i =
          compared "datasource_count" (count c.datasource_count) (count t.min_datasource_count)
            "minimum datasource count check" in
        if fl.lt (fl.of_int c.datasource_count) (fl.of_int t.min_datasource_count)
        then struck i "critical" deny datasource_insufficient
            "insufficient datasource coverage; command denied"
        else noted i

    unfoldable pub dashboard_check : Check F
    dashboard_check =
        let i =
          compared "dashboard_coverage" (share c.dashboard_coverage)
            (share t.min_dashboard_coverage) "dashboard coverage threshold" in
        if fl.lt fl.nought c.dashboard_coverage
        then if fl.lt c.dashboard_coverage t.min_dashboard_coverage
          then struck i "warn" queue dashboard_coverage_low
              "dashboard coverage below threshold; command queued"
          else noted i
        else skipped

    unfoldable pub query_check : Check F
    query_check =
        let i =
          compared "query_coverage" (share c.query_coverage) (share t.min_query_coverage)
            "query coverage threshold" in
        if fl.lt fl.nought c.query_coverage
        then if fl.lt c.query_coverage t.min_query_coverage
          then struck i "warn" queue query_coverage_low
              "query coverage below threshold; command queued"
          else noted i
        else skipped

    unfoldable pub partial_check : Check F
    partial_check =
        let i =
          plain "partial_snapshot" (capacity_source c.source) (flag true)
            "capacity snapshot is partial; non-deny safeguards remain active" in
        if c.partial then noted (record i { severity = "warn" }) else skipped

    -- evaluateCommandPolicy from the copy of the signals on.
    unfoldable pub capacity_checks : List (Check F)
    unfolding availability_check datasource_check dashboard_check query_check partial_check
    capacity_checks =
        availability_check ∷ datasource_check ∷ dashboard_check ∷ query_check ∷ partial_check ∷ []

  -- The decision that the lane makes.
  unfoldable pub lane_decision :
      CapacityThresholds F
      → RiskLevel
      → CommandClassification
      → CommandPolicyProfile
      → CommandPolicyDecision F
  unfolding decision_outcome_from_gate risk_tier_for_level
  lane_decision t risk c p =
      let resolution = resolve_lane_decision c p in
      record {
        outcome = decision_outcome_from_gate resolution.gate_outcome;
        gate_outcome = resolution.gate_outcome;
        lane = resolution.selected_lane;
        risk_level = risk;
        risk_tier = risk_tier_for_level risk;
        reason_code = lane_reason resolution.reason_code;
        classification = c;
        policy = p;
        summary = "";
        fallback = false;
        indicators = [];
        capacity = none;
        thresholds = t;
        lane_rationale = resolution;
      }

  -- The signals' part of evaluateCommandPolicy.
  unfoldable pub signals_step :
      Float64 F
      → (Char → Char)
      → CapacityThresholds F
      → Result String (Option (CapacitySignals F))
      → CommandPolicyDecision F
      → CommandPolicyDecision F
  unfolding apply_checks capacity_checks fallback_check
  signals_step fl lower t (err e) d =
      apply_check (fallback_check (some e)) (record d { fallback = true })
  signals_step fl lower t (ok none) d =
      apply_check (fallback_check none) (record d { fallback = true })
  signals_step fl lower t (ok (some c)) d =
      apply_checks (capacity_checks fl lower t c) (record d { capacity = some c })

  -- The early return at a denial by a rule of the policy.
  unfoldable pub is_policy_block : CommandPolicyDecision F → Bool
  unfolding reason_text
  is_policy_block d = is_deny d.outcome && starts_with (reason_text d.reason_code) "policy."

  -- evaluateCommandPolicy from the risk's indicator on.
  unfoldable pub decide_on :
      Float64 F
      → (Char → Char)
      → CapacityThresholds F
      → Result String (Option (CapacitySignals F))
      → RiskLevel
      → CommandPolicyDecision F
      → CommandPolicyDecision F
  unfolding finish apply_check risk_check is_policy_block signals_step
  decide_on fl lower t read risk chosen =
      let d = apply_check (risk_check risk chosen.outcome) chosen in
      finish (if is_policy_block d then d else signals_step fl lower t read d)

  -- evaluateCommandPolicy; `provider` is what the provider of the signals returns, if there is one.
  unfoldable pub evaluate_command_policy :
      Float64 F
      → (Char → Char)
      → CapacityThresholds F
      → Option (Result String (Option (CapacitySignals F)))
      → Map AppliedPolicyContext
      → String
      → CommandPayload
      → CapabilityLevel
      → Option CommandPolicyProfile
      → CommandPolicyDecision F
  unfolding lane_decision decide_on
  evaluate_command_policy fl lower configured provider applied probe_id cmd probe_level override =
      let t = normalized fl configured in
      let risk = classify_risk lower cmd in
      let p = resolve_policy_profile applied probe_id probe_level override in
      decide_on fl lower t (read_capacity_signals lower provider) risk
        (lane_decision t risk (classify_for_control lower cmd.command cmd.args) p)
