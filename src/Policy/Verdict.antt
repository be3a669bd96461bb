-- ===== src/Policy/Verdict.antt =====
-- internal/controlplane/core/approvalpolicy/capacity_policy.go: exactly which commands
-- evaluateCommandPolicy denies, and which it allows.
use Prim.Native.Char.{Char}
use legator.Common.{
  String, true, false, ◌≡◌, ◌↔◌, ◌∙◌, ◌⊎◌, inl, inr, sym, Option, none, some, arith, Result, ok,
  err, Bool-cases,
}
use legator.Common.Map.{Map}
use legator.Protocol.{CommandPayload, CapabilityLevel}
use legator.Approval.Risk.{RiskLevel, classify_risk}
use legator.Policy.Commands.{classify_for_control}
use legator.Policy.Profile.{CommandPolicyProfile, AppliedPolicyContext, resolve_policy_profile}
use legator.Policy.Lane.{CommandPolicyGateOutcome, allowed, blocked, resolve_lane_decision}
use legator.Policy.Capacity.{
  CommandPolicyDecisionOutcome, allow, deny, merge_decision_outcome, Float64, CapacityThresholds,
  CapacitySignals, CommandPolicyDecision, normalized, read_capacity_signals,
}
use legator.Policy.Decision.{is_high, apply_check, add_indicator, finish}
use legator.Policy.Evaluate.{
  risk_check, fallback_check, capacity_checks, signals_step, is_policy_block, decide_on,
  evaluate_command_policy,
}
use legator.Policy.Demands.{
  IsPostponed, IsRefused, allow-gate, capacity_allows, capacity_refuses, deny-gate, deny-ne-allow,
  gate-allow, gate-deny, outcome-apply_check, outcome-apply_checks,
}

module _ {F : Type 0} where
  module _ (fl : Float64 F) (lower : Char → Char) (t : CapacityThresholds F) where
    -- The signals that were read, if any, refuse a command.
    abbrev pub Refuses : Result String (Option (CapacitySignals F)) → Type 0
    Refuses (err e) = ⊥
    Refuses (ok none) = ⊥
    Refuses (ok (some c)) = IsRefused fl lower t c

    abbrev pub Postpones : Result String (Option (CapacitySignals F)) → Type 0
    Postpones (err e) = ⊥
    Postpones (ok none) = ⊥
    Postpones (ok (some c)) = IsPostponed fl lower t c

    signals_refuse :
        (read : Result String (Option (CapacitySignals F))) (d : CommandPolicyDecision F)
        → ((signals_step fl lower t read d).outcome ≡ deny) ↔ ((d.outcome ≡ deny) ⊎ Refuses read)
    unfolding signals_step apply_check fallback_check add_indicator
    signals_refuse (err e) d = (λ h. inl h, λ h. ground arith)
    signals_refuse (ok none) d = (λ h. inl h, λ h. ground arith)
    signals_refuse (ok (some c)) d =
        rw (outcome-apply_checks (capacity_checks fl lower t c) (record d { capacity = some c }))
          (capacity_refuses fl lower t c d.outcome)

    signals_allow :
        (read : Result String (Option (CapacitySignals F))) (d : CommandPolicyDecision F)
        → ((signals_step fl lower t read d).outcome ≡ allow)
          ↔ ((d.outcome ≡ allow) × (¬ Refuses read) × (¬ Postpones read))
    unfolding signals_step apply_check fallback_check add_indicator
    signals_allow (err e) d = (λ h. (h, λ x. x, λ x. x), λ h. h.0)
    signals_allow (ok none) d = (λ h. (h, λ x. x, λ x. x), λ h. h.0)
    signals_allow (ok (some c)) d =
        rw (outcome-apply_checks (capacity_checks fl lower t c) (record d { capacity = some c }))
          (capacity_allows fl lower t c d.outcome)

  risk-outcome :
      (risk : RiskLevel) (d : CommandPolicyDecision F)
      → ((apply_check (risk_check risk d.outcome) d).outcome ≡ deny) ↔ (d.outcome ≡ deny)
  unfolding risk_check
  risk-outcome risk d =
      rw (outcome-apply_check (risk_check risk d.outcome) d)
        (unfold merge_decision_outcome in (λ h. ground arith, λ h. ground arith))

  risk_allows :
      (risk : RiskLevel) (d : CommandPolicyDecision F)
      → ((apply_check (risk_check risk d.outcome) d).outcome ≡ allow)
        ↔ ((d.outcome ≡ allow) × (is_high risk ≡ false))
  unfolding risk_check
  risk_allows risk d =
      rw (outcome-apply_check (risk_check risk d.outcome) d)
        (unfold merge_decision_outcome in (λ h. ground arith, λ h. ground arith))

  policy_block-deny : (d : CommandPolicyDecision F) → is_policy_block d ≡ true → d.outcome ≡ deny
  unfolding is_policy_block
  policy_block-deny d h = ground arith

  module _ (fl : Float64 F) (lower : Char → Char) (t : CapacityThresholds F)
      (read : Result String (Option (CapacitySignals F))) (risk : RiskLevel)
      (chosen : CommandPolicyDecision F) where
    decide_on_denies :
        ((decide_on fl lower t read risk chosen).outcome ≡ deny)
        ↔ ((chosen.outcome ≡ deny) ⊎ Refuses fl lower t read)
    unfolding decide_on finish
    decide_on_denies =
        let d = apply_check (risk_check risk chosen.outcome) chosen in
        let keeps = risk-outcome risk chosen in
        let signals = signals_refuse fl lower t read d in
        elim (Bool-cases (is_policy_block d)) [
          | inl stop ↦ rw stop (λ h. inl (keeps.0 h), λ h. policy_block-deny d stop)
          | inr go_on ↦ rw go_on (
            λ h. elim (signals.0 h) [ inl e ↦ inl (keeps.0 e) | inr e ↦ inr e ],
            λ h. signals.1 (elim h [ inl e ↦ inl (keeps.1 e) | inr e ↦ inr e ]),
          )
        ]

    decide_on_allows : ((decide_on fl lower t read risk chosen).outcome ≡ allow) ↔ (
        (chosen.outcome ≡ allow)
        × (is_high risk ≡ false)
        × (¬ Refuses fl lower t read)
        × (¬ Postpones fl lower t read))
    unfolding decide_on finish
    decide_on_allows =
        let d = apply_check (risk_check risk chosen.outcome) chosen in
        let keeps = risk_allows risk chosen in
        let signals = signals_allow fl lower t read d in
        elim (Bool-cases (is_policy_block d)) [
          | inl stop ↦ rw stop (
            λ h. absurd (deny-ne-allow (sym (policy_block-deny d stop) ∙ h)),
            λ h. absurd (deny-ne-allow (sym (policy_block-deny d stop) ∙ keeps.1 (h.0, h.1))),
          )
          | inr go_on ↦ rw go_on (
            λ h. let (a, r, p) = signals.0 h in let (b, g) = keeps.0 a in (b, g, r, p),
            λ h. signals.1 (keeps.1 (h.0, h.1), h.2, h.3),
          )
        ]

  module _ (fl : Float64 F) (lower : Char → Char) (configured : CapacityThresholds F)
      (provider : Option (Result String (Option (CapacitySignals F))))
      (applied : Map AppliedPolicyContext) (probe_id : String) (cmd : CommandPayload)
      (probe_level : CapabilityLevel) (override : Option CommandPolicyProfile) where
    -- The gate of the command's lane.
    abbrev pub lane_gate : CommandPolicyGateOutcome
    lane_gate =
        (resolve_lane_decision (classify_for_control lower cmd.command cmd.args)
          (resolve_policy_profile applied probe_id probe_level override)).gate_outcome

    abbrev verdict : CommandPolicyDecisionOutcome
    verdict =
        (evaluate_command_policy fl lower configured provider applied probe_id cmd probe_level
          override).outcome

    abbrev pub read_signals : Result String (Option (CapacitySignals F))
    read_signals = read_capacity_signals lower provider

    -- A command is denied exactly if its lane is blocked, or the signals that were read report
    -- degraded capacity or fewer datasources than the normalized minimum. No risk denies it.
    pub denied_iff :
        (verdict ≡ deny)
        ↔ ((lane_gate ≡ blocked) ⊎ Refuses fl lower (normalized fl configured) read_signals)
    unfolding evaluate_command_policy
    denied_iff =
        let (to, from) =
          decide_on_denies fl lower (normalized fl configured) read_signals
            (classify_risk lower cmd) _ in
        (
          λ h. elim (to h) [ inl e ↦ inl (gate-deny _ e) | inr e ↦ inr e ],
          λ h. from (elim h [ inl e ↦ inl (deny-gate _ e) | inr e ↦ inr e ]),
        )

    -- A command is allowed at once exactly if its lane is, its risk is neither high nor critical,
    -- and the signals that were read, if any, neither refuse nor postpone it.
    pub allowed_iff : (verdict ≡ allow) ↔ (
        (lane_gate ≡ allowed)
        × (is_high (classify_risk lower cmd) ≡ false)
        × (¬ Refuses fl lower (normalized fl configured) read_signals)
        × (¬ Postpones fl lower (normalized fl configured) read_signals))
    unfolding evaluate_command_policy
    allowed_iff =
        let (to, from) =
          decide_on_allows fl lower (normalized fl configured) read_signals
            (classify_risk lower cmd) _ in
        (
          λ h. let x = to h in (gate-allow _ x.0, x.1, x.2, x.3),
          λ h. from (allow-gate _ h.0, h.1, h.2, h.3),
        )
