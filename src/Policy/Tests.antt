-- ===== src/Policy/Tests.antt =====
-- internal/controlplane/core/approvalpolicy: a restart of nginx under a policy, by way of approval.
use legator.Common.{
  ℕ, String, true, false, ◌≡◌, ◌≢◌, ◌↔◌, ◌⊎◌, refl, sym, ◌∙◌, str_eq, Option, none, some, Result,
  [], ◌∷◌, ok, ltb, leb,
}
use legator.Common.Ascii.{ascii_lower}
use legator.Common.Int.{pos, negsuc}
use legator.Common.Text.{ne_of_str_eq, trim_space, map_chars}
use legator.Protocol.{
  CommandPayload, observe, remediate, remediate_sandbox, observe_direct, breakglass_direct,
  approval_none,
}
use legator.Executor.Classifier.{
  CommandClassification, base_word, word_of, base_of, classify_command_with_metadata,
}
use legator.Policy.Commands.{classify_for_control}
use legator.Policy.Classifier.{classify_for_control_lem}
use legator.Policy.Profile.{CommandPolicyProfile, no_breakglass}
use legator.Policy.Lane.{resolve_lane_decision, allowed, blocked}
use legator.Approval.Risk.{classify_risk}
use legator.Policy.Capacity.{
  Float64, CapacityThresholds, CapacitySignals, default_capacity_thresholds, CommandPolicyDecision,
  deny, allow, normalized, read_capacity_signals,
}
use legator.Policy.Decision.{is_high}
use legator.Policy.Evaluate.{evaluate_command_policy}
use legator.Policy.Outcome.{IsExplained, lane_outcome_of, evaluate_command_policy-IsExplained}
use legator.Policy.Verdict.{lane_gate, Refuses, Postpones, denied_iff, allowed_iff}
use legator.Policy.Gating.{unapproved_mutation, sandbox_honoured}

not_a_shell : (shell : String) → str_eq "wget" shell ≡ false → base_word ascii_lower "wget" ≢ shell
unfolding base_word
not_a_shell shell e =
    unfold trim_space map_chars word_of base_of ascii_lower in ne_of_str_eq "wget" shell e

classify_for_control_lem_example :
    classify_for_control ascii_lower "wget" ("-o" ∷ "page.html" ∷ [])
    ≡ classify_command_with_metadata ascii_lower "wget" ("-o" ∷ "page.html" ∷ [])
classify_for_control_lem_example =
    classify_for_control_lem ascii_lower "wget" ("-o" ∷ "page.html" ∷ []) (not_a_shell "sh" refl)
      (not_a_shell "bash" refl)

abbrev mutation : CommandClassification
mutation = record {
  level = remediate;
  category = "mutation";
  signature_known = true;
  reason_code = "classifier.remediate_prefix";
}

abbrev free : CommandPolicyProfile
free = record {
  policy_id = "";
  execution_class_required = observe_direct;
  sandbox_required = true;
  approval_mode = approval_none;
  require_second_approver = false;
  breakglass = no_breakglass;
}

mutation_allowed : (resolve_lane_decision mutation free).gate_outcome ≡ allowed
unfolding resolve_lane_decision
mutation_allowed = refl

unapproved_mutation_example :
    (true ≡ true)
    × (approval_none ≡ approval_none)
    × ((resolve_lane_decision mutation free).selected_lane ≡ remediate_sandbox)
unapproved_mutation_example = unapproved_mutation mutation free refl mutation_allowed

allowed-ne-blocked : allowed ≢ blocked
allowed-ne-blocked h = cc

sandbox_honoured_example :
    ((resolve_lane_decision mutation free).selected_lane ≢ observe_direct)
    × ((resolve_lane_decision mutation free).selected_lane ≢ breakglass_direct)
sandbox_honoured_example =
    sandbox_honoured mutation free refl (λ h. allowed-ne-blocked (sym mutation_allowed ∙ h))

-- Percentages stand for float64 values.
abbrev percent : Float64 ℕ
percent = record {
  lt = λ a b. ltb a b;
  le = λ a b. leb a b;
  of_int = λ n. elim n [ pos k ↦ k | negsuc k ↦ 0 ];
  nought = 0;
  one = 100;
  half = 50;
  quarter = 25;
}

abbrev thresholds : CapacityThresholds ℕ
thresholds = default_capacity_thresholds percent

abbrev signals : CapacitySignals ℕ
signals = record {
  source = "";
  availability = " Limited ";
  dashboard_coverage = 80;
  query_coverage = 10;
  datasource_count = pos 3;
  partial = false;
  warnings = [];
}

abbrev provider : Option (Result String (Option (CapacitySignals ℕ)))
provider = some (ok (some signals))

abbrev listing : CommandPayload
listing = record {
  request_id = "r1";
  command = "ls";
  args = [];
  timeout = 0;
  level = observe;
  stream = false;
}

abbrev listing_decision : CommandPolicyDecision ℕ
listing_decision =
    evaluate_command_policy percent ascii_lower thresholds provider [] "web-03" listing observe none

evaluate_command_policy-IsExplained_example :
    IsExplained
      (lane_outcome_of percent ascii_lower thresholds provider [] "web-03" listing observe none)
      listing_decision
evaluate_command_policy-IsExplained_example =
    evaluate_command_policy-IsExplained percent ascii_lower thresholds provider [] "web-03" listing
      observe none

denied_iff_example : (listing_decision.outcome ≡ deny) ↔ (
    (lane_gate percent ascii_lower thresholds provider [] "web-03" listing observe none ≡ blocked)
    ⊎ Refuses percent ascii_lower
        (normalized percent thresholds)
        (read_capacity_signals ascii_lower provider))
denied_iff_example =
    denied_iff percent ascii_lower thresholds provider [] "web-03" listing observe none

allowed_iff_example : (listing_decision.outcome ≡ allow) ↔ (
    (lane_gate percent ascii_lower thresholds provider [] "web-03" listing observe none ≡ allowed)
    × (is_high (classify_risk ascii_lower listing) ≡ false)
    × (¬ Refuses percent ascii_lower
        (normalized percent thresholds)
        (read_capacity_signals ascii_lower provider))
    × (¬ Postpones percent ascii_lower
        (normalized percent thresholds)
        (read_capacity_signals ascii_lower provider)))
allowed_iff_example =
    allowed_iff percent ascii_lower thresholds provider [] "web-03" listing observe none
