-- ===== src/Policy/Decision.antt =====
-- internal/controlplane/core/approvalpolicy/capacity_policy.go: how a block of evaluateCommandPolicy acts on
-- a decision, and the summary of a decision.
use Prim.Native.String as Str
use legator.Common.{
  String, Bool, true, false, not, none, some, List, [], ◌∷◌, ◌++◌, str_eq, if◌then◌else◌,
}
use legator.Common.Text.{trim_space}
use legator.Approval.Risk.{RiskLevel, high, critical}
use legator.Policy.Capacity.{
  CommandPolicyDecisionOutcome, allow, deny, queue, ReasonCode, decision_gate_from_outcome,
  merge_decision_outcome, CommandPolicyIndicator, CommandPolicyDecision,
}

abbrev pub is_allow : CommandPolicyDecisionOutcome → Bool
is_allow allow = true
is_allow _ = false

abbrev pub is_deny : CommandPolicyDecisionOutcome → Bool
is_deny deny = true
is_deny _ = false

abbrev pub is_high : RiskLevel → Bool
is_high high = true
is_high critical = true
is_high _ = false

-- The tests of DroveOutcome: a denial drives unless the command is denied already, and a queuing
-- where it is still allowed.
abbrev pub drives : CommandPolicyDecisionOutcome → CommandPolicyDecisionOutcome → Bool
drives allow current = false
drives deny current = not (is_deny current)
drives queue current = is_allow current

abbrev pub differs : CommandPolicyDecisionOutcome → CommandPolicyDecisionOutcome → Bool
differs allow allow = false
differs deny deny = false
differs queue queue = false
differs _ _ = true

-- The join of summarizeDecision.
join_semicolon : List String → String
join_semicolon [] = ""
join_semicolon (m ∷ []) = m
join_semicolon (m ∷ n ∷ ms) = Str.◌++◌ m (Str.◌++◌ "; " (join_semicolon (n ∷ ms)))

abbrev outcome_text : CommandPolicyDecisionOutcome → String
outcome_text allow = "allow"
outcome_text deny = "deny"
outcome_text queue = "queue"

default_summary : CommandPolicyDecisionOutcome → String
default_summary allow = "command allowed by policy"
default_summary queue = "command queued for approval"
default_summary deny = "command denied by policy"

summary_of : CommandPolicyDecisionOutcome → List String → String
unfolding join_semicolon default_summary
summary_of outcome [] = default_summary outcome
summary_of outcome (m ∷ ms) =
    Str.◌++◌ (outcome_text outcome) (Str.◌++◌ " (" (Str.◌++◌ (join_semicolon (m ∷ ms)) ")"))

-- What one block of the evaluation comes to: nothing, an indicator of severity "info", or an
-- indicator with a severity, an effect, a reason code and a message of its own.
pub data Check (F : Type 0) : Type 0 where
  skipped : Check F
  noted : CommandPolicyIndicator F → Check F
  struck :
      CommandPolicyIndicator F
      → String
      → CommandPolicyDecisionOutcome
      → ReasonCode
      → String
      → Check F

module _ {F : Type 0} where
  -- The loop of summarizeDecision.
  unfoldable pub drivers : List (CommandPolicyIndicator F) → List String
  drivers [] = []
  drivers (i ∷ is) =
      let message = trim_space i.message in
      let named = if str_eq message "" then i.name else message in
      let rest = drivers is in if i.drove_outcome then named ∷ rest else rest

  -- summarizeDecision
  unfoldable pub summarize_decision :
      CommandPolicyDecisionOutcome → List (CommandPolicyIndicator F) → String
  unfolding summary_of drivers
  summarize_decision outcome indicators = summary_of outcome (drivers indicators)

  unfoldable pub add_indicator :
      CommandPolicyIndicator F → CommandPolicyDecision F → CommandPolicyDecision F
  add_indicator i d = record d { indicators = d.indicators ++ i ∷ [] }

  unfoldable pub finish : CommandPolicyDecision F → CommandPolicyDecision F
  finish d = record d { summary = summarize_decision d.outcome d.indicators }

  -- mergeDecisionWithReason, at a reason code that is not empty.
  unfoldable pub merge_decision_with_reason :
      CommandPolicyDecision F → CommandPolicyDecisionOutcome → ReasonCode → CommandPolicyDecision F
  unfolding merge_decision_outcome decision_gate_from_outcome
  merge_decision_with_reason d candidate reason =
      let merged = merge_decision_outcome d.outcome candidate in
      if differs merged d.outcome
      then record d {
        outcome = merged;
        gate_outcome = decision_gate_from_outcome merged;
        reason_code = reason;
      }
      else d

  -- The block's change of the decision: the merge, then the indicator.
  unfoldable pub apply_check : Check F → CommandPolicyDecision F → CommandPolicyDecision F
  unfolding merge_decision_with_reason add_indicator
  apply_check skipped d = d
  apply_check (noted i) d = add_indicator (record i { effect = none; drove_outcome = false }) d
  apply_check (struck i severity effect reason message) d =
      add_indicator
        (record i {
          severity = severity;
          effect = some effect;
          drove_outcome = drives effect d.outcome;
          message = message;
        })
        (merge_decision_with_reason d effect reason)

  unfoldable pub apply_checks : List (Check F) → CommandPolicyDecision F → CommandPolicyDecision F
  apply_checks [] d = d
  apply_checks (c ∷ cs) d = apply_checks cs (apply_check c d)
