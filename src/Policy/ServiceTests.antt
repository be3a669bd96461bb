-- ===== src/Policy/ServiceTests.antt =====
-- internal/controlplane/core/approvalpolicy/service.go: a two-person request for a restart of nginx,
-- its approvals, and the dispatch of its command.
use legator.Common.{
  ℕ, ◌≤◌, ◌<◌, String, true, false, ◌≡◌, refl, none, some, List, [], ◌∷◌, ok, All, arith, length,
  str_eq, if◌then◌else◌,
}
use legator.Common.Ascii.{ascii_lower}
use legator.Common.Int.{pos}
use legator.Common.Text.{trim_space, equal_fold}
use legator.Common.Map.{lookup, insert, map_values, delete_where}
use legator.Protocol
use legator.Protocol.{CommandPayload, CapabilityLevel, observe, remediate}
use legator.Approval.Request.{Request, approved, pending, decide_request, required_approval_count}
use legator.Approval.Queue.{
  Queue, Submission, new_queue, evict_expired, expire_request, is_stale, submit, decide, get,
}
use legator.Approval.Quorum.{IsNamed, AreApart}
use legator.Approval.History.{submits, decides, step, run, run-new_queue-IsSoundQueue, IsSoundQueue}
use legator.Approval.Risk.{high}
use legator.Policy.Profile.{TemplateOptions, default_template_options_for_level}
use legator.Policy.Lane.{pending_approval, resolved, required_mutation_gate}
use legator.Policy.Capacity.{queue, CommandPolicyDecision, lane_reason}
use legator.Policy.Service.{Template, Stores, Service, submit_decided}
use legator.Policy.Dispatch.{
  DecisionHooks, decide_and_dispatch, decision_result, recorded, decision_hook_error,
  decision_recorded,
}
use legator.Policy.Dispatching.{dispatches_of, serve, ServiceCall, decides_and_dispatches}
use legator.Policy.Once.{dispatched_at_most_once, sent_when_approved, failed_hook_is_final}

abbrev restart : CommandPayload
restart = record {
  request_id = "r1";
  command = "systemctl";
  args = "restart" ∷ "nginx" ∷ [];
  timeout = 0;
  level = remediate;
  stream = false;
}

abbrev asked : Submission
asked = record {
  probe_id = "web-03";
  command = some restart;
  reason = "deploy";
  risk_level = "high";
  requester = "api";
  policy_decision = "queue";
  policy_rationale = none;
  require_second_approver = false;
}

-- Every hook succeeds, and so does every dispatch.
abbrev smooth : DecisionHooks
smooth = record {
  on_decision_recorded = λ x. none;
  on_approved_dispatch = λ x. none;
  dispatch = some (λ probe_id cmd. none);
}

-- The hook of a decision fails.
abbrev failing : DecisionHooks
failing = record smooth { on_decision_recorded = λ x. some "audit store closed" }

abbrev submitted : Queue
submitted = run ascii_lower (new_queue 100 8) (submits "a1" 4 5 asked ∷ [])

submitted-IsSoundQueue : IsSoundQueue ascii_lower submitted
submitted-IsSoundQueue = run-new_queue-IsSoundQueue ascii_lower 100 8 (submits "a1" 4 5 asked ∷ [])

abbrev twice : List ServiceCall
twice =
    decides_and_dispatches "a1" approved "ann" 6 7
    ∷ decides_and_dispatches "a1" approved "bob" 8 9
    ∷ []

dispatched_at_most_once_example : dispatches_of "a1" (serve ascii_lower smooth submitted twice) ≤ 1
dispatched_at_most_once_example =
    dispatched_at_most_once ascii_lower smooth submitted twice "a1" submitted-IsSoundQueue
      (tt, (tt, tt))

one_dispatch : dispatches_of "a1" (serve ascii_lower smooth submitted twice) ≡ 1
unfolding dispatches_of serve run step new_queue submit decide get decide_request evict_expired
    expire_request is_stale lookup insert map_values delete_where equal_fold trim_space
    required_approval_count ascii_lower decide_and_dispatch
one_dispatch = refl

one_sent :
    0
    < dispatches_of "a1"
        (decide_and_dispatch ascii_lower smooth submitted "a1" approved "ann" 6 7).effects
unfolding dispatches_of run step new_queue submit decide get decide_request evict_expired
    expire_request is_stale lookup insert map_values delete_where equal_fold trim_space
    required_approval_count ascii_lower decide_and_dispatch
one_sent = omega arith

abbrev wanted : String
wanted = "a1"

sent_when_approved_example :
    (wanted ≡ wanted)
    × (r : Request) × (get (step ascii_lower submitted (decides "a1" approved "ann" 6 7)) "a1"
        ≡ some r)
    × (r.decision ≡ approved)
    × (length r.approvals ≡ required_approval_count r)
    × All IsNamed r.approvals
    × AreApart ascii_lower r.approvals
sent_when_approved_example =
    sent_when_approved ascii_lower smooth submitted wanted wanted approved "ann" 6 7
      submitted-IsSoundQueue one_sent

abbrev accepted : Request
accepted = record {
  id = "a1";
  workspace_id = "";
  probe_id = "web-03";
  command = some restart;
  reason = "deploy";
  risk_level = "high";
  requester = "api";
  policy_decision = "queue";
  policy_rationale = none;
  require_second_approver = false;
  required_approvals = 1;
  approvals = record { actor = "ann"; timestamp = 7 } ∷ [];
  decision = approved;
  decided_by = "ann";
  decided_at = some 7;
  created_at = 5;
  expires_at = 105;
}

ann_approves : (decide ascii_lower submitted "a1" approved "ann" 6 7).1 ≡ ok accepted
unfolding run step new_queue submit decide get decide_request evict_expired expire_request is_stale
    lookup insert map_values delete_where equal_fold trim_space required_approval_count ascii_lower
ann_approves = refl

failed_hook_is_final_example :
    ((decide_and_dispatch ascii_lower failing submitted "a1" approved "ann" 6 7).error
      ≡ some (decision_hook_error decision_recorded "audit store closed"))
    × ((decide_and_dispatch ascii_lower failing submitted "a1" approved "ann" 6 7).effects
        ≡ recorded (decision_result accepted) ∷ [])
    × (dispatches_of "a1" (serve ascii_lower failing submitted twice) ≡ 0)
failed_hook_is_final_example =
    failed_hook_is_final ascii_lower failing submitted "a1" approved "ann" 6 7 accepted
      "audit store closed" (decides_and_dispatches "a1" approved "bob" 8 9 ∷ [])
      submitted-IsSoundQueue ann_approves refl refl (tt, tt)

abbrev strict : TemplateOptions
strict = record (default_template_options_for_level remediate) { require_second_approver = true }

abbrev template : Template
template = record {
  id = "full";
  name = "Full";
  level = remediate;
  allowed = [];
  blocked = [];
  paths = [];
  options = strict;
}

-- The fleet is the level of its one probe.
abbrev stores : Stores CapabilityLevel
stores = record {
  has_probe = λ s id. str_eq id "web-03";
  set_policy = λ s id level. level;
  template = λ id. if str_eq id "full" then some template else none;
  push = none;
}

abbrev service : Service ℕ CapabilityLevel
service = record {
  approvals = new_queue 100 8;
  fleet = observe;
  capacity_thresholds = record {
    min_datasource_count = pos 1;
    min_dashboard_coverage = 50;
    min_query_coverage = 25;
  };
  two_person_mode = true;
  applied_policy = [];
}

abbrev decision : CommandPolicyDecision ℕ
decision = record {
  outcome = queue;
  gate_outcome = pending_approval;
  lane = Protocol.remediate_sandbox;
  risk_level = high;
  risk_tier = 3;
  reason_code = lane_reason required_mutation_gate;
  classification = record {
    level = remediate;
    category = "mutation";
    signature_known = true;
    reason_code = "classifier.remediate_prefix";
  };
  policy = record {
    policy_id = "full";
    execution_class_required = Protocol.remediate_sandbox;
    sandbox_required = true;
    approval_mode = Protocol.mutation_gate;
    require_second_approver = true;
    breakglass = strict.breakglass;
  };
  summary = "command queued for approval";
  fallback = true;
  indicators = [];
  capacity = none;
  thresholds = service.capacity_thresholds;
  lane_rationale = resolved Protocol.remediate_sandbox pending_approval required_mutation_gate;
}

abbrev waiting : Request
waiting = record accepted {
  policy_rationale = some "";
  require_second_approver = true;
  required_approvals = 2;
  approvals = [];
  decision = pending;
  decided_by = "";
  decided_at = none;
}

two_asked :
    (submit_decided (λ d. "") service decision "a1" 4 5 "web-03" restart "deploy" "api").1.request
    ≡ some waiting
unfolding submit_decided submit new_queue evict_expired map_values delete_where
two_asked = refl
