-- ===== src/Policy/Outcome.antt =====
-- internal/controlplane/core/approvalpolicy/capacity_policy.go: what decides the outcome of
-- evaluateCommandPolicy, and that the decision's parts agree with it.
use Prim.Native.Char.{Char}
use legator.Common.{
  ◌≤◌, String, Bool, true, false, ◌||◌, ◌≡◌, ◌∙◌, inl, inr, refl, Option, none, some, List, [], ◌∷◌,
  arith, ltb, if◌then◌else◌, Result, ok, err, some_of, some_of-append, Bool-cases,
}
use legator.Common.Map.{Map}
use legator.Protocol.{CommandPayload, CapabilityLevel}
use legator.Approval.Risk.{RiskLevel, classify_risk}
use legator.Executor.Classifier.{CommandClassification}
use legator.Policy.Commands.{classify_for_control}
use legator.Policy.Profile.{CommandPolicyProfile, AppliedPolicyContext, resolve_policy_profile}
use legator.Policy.Lane.{CommandPolicyGateOutcome, resolve_lane_decision}
use legator.Policy.Capacity.{
  CommandPolicyDecisionOutcome, ReasonCode, decision_outcome_from_gate, decision_gate_from_outcome,
  merge_decision_outcome, outcome_rank, Float64, CapacityThresholds, CapacitySignals,
  CommandPolicyIndicator, CommandPolicyDecision, normalized, read_capacity_signals,
}
use legator.Policy.Decision.{
  drives, differs, Check, skipped, noted, struck, apply_check, apply_checks, add_indicator, finish,
  merge_decision_with_reason,
}
use legator.Policy.Evaluate.{
  risk_check, capacity_checks, lane_decision, signals_step, is_policy_block, decide_on,
  evaluate_command_policy,
}

-- A merge drives the outcome exactly if it makes it stricter.
merge-drives :
    (base current effect : CommandPolicyDecisionOutcome)
    → outcome_rank base ≤ outcome_rank current
    → (ltb (outcome_rank base) (outcome_rank current) || drives effect current)
      ≡ ltb (outcome_rank base) (outcome_rank (merge_decision_outcome current effect))
unfolding merge_decision_outcome
merge-drives base current effect h = ground arith

merge-stricter :
    (base current effect : CommandPolicyDecisionOutcome)
    → outcome_rank base ≤ outcome_rank current
    → outcome_rank base ≤ outcome_rank (merge_decision_outcome current effect)
unfolding merge_decision_outcome
merge-stricter base current effect h = ground arith

gate_back :
    (gate : CommandPolicyGateOutcome)
    → gate ≡ decision_gate_from_outcome (decision_outcome_from_gate gate)
unfolding decision_gate_from_outcome decision_outcome_from_gate
gate_back gate = ground arith

or_false : (b : Bool) → (b || false) ≡ b
or_false true = refl
or_false false = refl

abbrev pub lane_outcome :
    CommandClassification → CommandPolicyProfile → CommandPolicyDecisionOutcome
lane_outcome c p = decision_outcome_from_gate (resolve_lane_decision c p).gate_outcome

differs_lem : (a b : CommandPolicyDecisionOutcome) → differs a b ≡ false → b ≡ a
differs_lem a b h = ground arith

module _ {F : Type 0} where
  abbrev drove : CommandPolicyDecision F → Bool
  drove d = some_of (λ i. i.drove_outcome) d.indicators

  -- The parts of a decision agree: the gate is that of the outcome, and the outcome is as strict
  -- as the lane's, and stricter exactly if an indicator drove it.
  pub record IsExplained (base : CommandPolicyDecisionOutcome) (d : CommandPolicyDecision F)
      : Type 0 where
    pub gate : d.gate_outcome ≡ decision_gate_from_outcome d.outcome
    pub stricter : outcome_rank base ≤ outcome_rank d.outcome
    pub driven : drove d ≡ ltb (outcome_rank base) (outcome_rank d.outcome)

  pub outcome-merge :
      (d : CommandPolicyDecision F) (effect : CommandPolicyDecisionOutcome) (reason : ReasonCode)
      → (merge_decision_with_reason d effect reason).outcome
        ≡ merge_decision_outcome d.outcome effect
  unfolding merge_decision_with_reason
  outcome-merge d effect reason =
      elim (Bool-cases (differs (merge_decision_outcome d.outcome effect) d.outcome)) [
        | inl new ↦ rw new
        | inr old ↦ rw old (differs_lem _ _ old)
      ]

  gate-merge :
      (d : CommandPolicyDecision F) (effect : CommandPolicyDecisionOutcome) (reason : ReasonCode)
      → d.gate_outcome ≡ decision_gate_from_outcome d.outcome
      → (merge_decision_with_reason d effect reason).gate_outcome
        ≡ decision_gate_from_outcome (merge_decision_with_reason d effect reason).outcome
  unfolding merge_decision_with_reason
  gate-merge d effect reason h =
      elim (Bool-cases (differs (merge_decision_outcome d.outcome effect) d.outcome)) [
        | inl new ↦ rw new
        | inr old ↦ rw old h
      ]

  indicators-merge :
      (d : CommandPolicyDecision F) (effect : CommandPolicyDecisionOutcome) (reason : ReasonCode)
      → (merge_decision_with_reason d effect reason).indicators ≡ d.indicators
  unfolding merge_decision_with_reason
  indicators-merge d effect reason =
      elim (Bool-cases (differs (merge_decision_outcome d.outcome effect) d.outcome)) [
        | inl new ↦ rw new
        | inr old ↦ rw old
      ]

  drove-add_indicator :
      (i : CommandPolicyIndicator F) (d : CommandPolicyDecision F)
      → drove (add_indicator i d) ≡ (drove d || i.drove_outcome)
  unfolding add_indicator
  drove-add_indicator i d = ground (
    arith,
    some_of-append (λ (x : CommandPolicyIndicator F). x.drove_outcome) d.indicators (i ∷ []),
  )

  apply_check-IsExplained :
      (base : CommandPolicyDecisionOutcome) (c : Check F) (d : CommandPolicyDecision F)
      → IsExplained base d
      → IsExplained base (apply_check c d)
  unfolding apply_check
  apply_check-IsExplained base skipped d h = h
  apply_check-IsExplained base (noted i) d h = record {
    gate = unfold add_indicator in h.gate;
    stricter = unfold add_indicator in h.stricter;
    driven = drove-add_indicator _ d ∙ or_false (drove d) ∙ h.driven;
  }
  apply_check-IsExplained base (struck i severity effect reason message) d h = record {
    gate = unfold add_indicator in gate-merge d effect reason h.gate;
    stricter =
        unfold add_indicator in
        rw (outcome-merge d effect reason) (merge-stricter base d.outcome effect h.stricter);
    driven =
        drove-add_indicator _ (merge_decision_with_reason d effect reason)
        ∙ rw (indicators-merge d effect reason, outcome-merge d effect reason, h.driven)
            (merge-drives base d.outcome effect h.stricter);
  }

  apply_checks-IsExplained :
      (base : CommandPolicyDecisionOutcome) (cs : List (Check F)) (d : CommandPolicyDecision F)
      → IsExplained base d
      → IsExplained base (apply_checks cs d)
  unfolding apply_checks
  apply_checks-IsExplained base [] d h = h
  apply_checks-IsExplained base (c ∷ cs) d h =
      apply_checks-IsExplained base cs (apply_check c d) (apply_check-IsExplained base c d h)

  with_fallback-IsExplained :
      (base : CommandPolicyDecisionOutcome) (d : CommandPolicyDecision F)
      → IsExplained base d
      → IsExplained base (record d { fallback = true })
  with_fallback-IsExplained base d h = record {
    gate = h.gate;
    stricter = h.stricter;
    driven = h.driven;
  }

  with_capacity-IsExplained :
      (base : CommandPolicyDecisionOutcome) (c : CapacitySignals F) (d : CommandPolicyDecision F)
      → IsExplained base d
      → IsExplained base (record d { capacity = some c })
  with_capacity-IsExplained base c d h = record {
    gate = h.gate;
    stricter = h.stricter;
    driven = h.driven;
  }

  finish-IsExplained :
      (base : CommandPolicyDecisionOutcome) (d : CommandPolicyDecision F)
      → IsExplained base d
      → IsExplained base (finish d)
  unfolding finish
  finish-IsExplained base d h = record { gate = h.gate; stricter = h.stricter; driven = h.driven }

  either-IsExplained :
      (base : CommandPolicyDecisionOutcome) (b : Bool) (d d' : CommandPolicyDecision F)
      → IsExplained base d
      → IsExplained base d'
      → IsExplained base (if b then d else d')
  either-IsExplained base true d d' h h' = h
  either-IsExplained base false d d' h h' = h'

  lane_decision-IsExplained :
      (t : CapacityThresholds F) (risk : RiskLevel) (c : CommandClassification)
      (p : CommandPolicyProfile)
      → IsExplained (lane_outcome c p) (lane_decision t risk c p)
  unfolding lane_decision
  lane_decision-IsExplained t risk c p = record {
    gate = gate_back (resolve_lane_decision c p).gate_outcome;
    stricter = omega arith;
    driven = ground arith;
  }

  signals_step-IsExplained :
      (fl : Float64 F) (lower : Char → Char) (t : CapacityThresholds F)
      (read : Result String (Option (CapacitySignals F))) (base : CommandPolicyDecisionOutcome)
      (d : CommandPolicyDecision F)
      → IsExplained base d
      → IsExplained base (signals_step fl lower t read d)
  unfolding signals_step
  signals_step-IsExplained fl lower t (err e) base d h =
      apply_check-IsExplained base _ _ (with_fallback-IsExplained base d h)
  signals_step-IsExplained fl lower t (ok none) base d h =
      apply_check-IsExplained base _ _ (with_fallback-IsExplained base d h)
  signals_step-IsExplained fl lower t (ok (some c)) base d h =
      apply_checks-IsExplained base (capacity_checks fl lower t c) _
        (with_capacity-IsExplained base c d h)

  decide_on-IsExplained :
      (fl : Float64 F) (lower : Char → Char) (t : CapacityThresholds F)
      (read : Result String (Option (CapacitySignals F))) (risk : RiskLevel)
      (base : CommandPolicyDecisionOutcome) (chosen : CommandPolicyDecision F)
      → IsExplained base chosen
      → IsExplained base (decide_on fl lower t read risk chosen)
  unfolding decide_on
  decide_on-IsExplained fl lower t read risk base chosen h =
      let d = apply_check (risk_check risk chosen.outcome) chosen in
      let h' : IsExplained base d = apply_check-IsExplained base _ chosen h in
      finish-IsExplained base (if is_policy_block d then d else signals_step fl lower t read d) (
        either-IsExplained base (is_policy_block d) d _ h'
          (signals_step-IsExplained fl lower t read base d h'))

  module _ (fl : Float64 F) (lower : Char → Char) (configured : CapacityThresholds F)
      (provider : Option (Result String (Option (CapacitySignals F))))
      (applied : Map AppliedPolicyContext) (probe_id : String) (cmd : CommandPayload)
      (probe_level : CapabilityLevel) (override : Option CommandPolicyProfile) where
    -- What the lane of the command alone comes to.
    abbrev pub lane_outcome_of : CommandPolicyDecisionOutcome
    lane_outcome_of =
        lane_outcome (classify_for_control lower cmd.command cmd.args)
          (resolve_policy_profile applied probe_id probe_level override)

    -- The decision on a command agrees with itself: its gate is that of its outcome, its outcome
    -- is at least as strict as that of the command's lane, and it is stricter exactly if some
    -- indicator is marked as the driver of the outcome.
    pub evaluate_command_policy-IsExplained : IsExplained lane_outcome_of (
        evaluate_command_policy fl lower configured provider applied probe_id cmd probe_level
          override)
    unfolding evaluate_command_policy
    evaluate_command_policy-IsExplained =
        decide_on-IsExplained fl lower (normalized fl configured)
          (read_capacity_signals lower provider) (classify_risk lower cmd) lane_outcome_of _
          (lane_decision-IsExplained (normalized fl configured) (classify_risk lower cmd) _ _)
