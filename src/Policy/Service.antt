-- ===== src/Policy/Service.antt =====
-- internal/controlplane/core/approvalpolicy/service.go: the submission of a command for approval, and
-- the application of a policy template to a probe. A template is internal/controlplane/policy's; the
-- fleet and the template store stand behind the interfaces that the service declares.
use Prim.Native.Char.{Char}
use legator.Common.{
  ℕ, String, Bool, true, false, not, ◌&&◌, ◌≡◌, refl, inl, inr, arith, Option, none, some, List,
  leb, str_eq, eq_iff, if◌then◌else◌, Result, ok, err, Bool-cases, Option-cases, sym,
}
use legator.Common.Map.{Map, insert, lookup-insert}
use legator.Protocol.{CommandPayload, CapabilityLevel}
use legator.Approval.Risk.{RiskLevel, low, medium, high, critical}
use legator.Approval.Request.{Request, Error}
use legator.Approval.Queue.{Queue, Submission, submit}
use legator.Policy.Profile.{TemplateOptions, AppliedPolicyContext, applied_policy_for_probe}
use legator.Policy.Capacity.{
  CommandPolicyDecisionOutcome, queue, Float64, CapacityThresholds, CapacitySignals,
  CommandPolicyDecision,
}
use legator.Policy.Evaluate.{evaluate_command_policy}

-- The fields of Template that are not its description, its WASM configuration and its timestamps.
pub record Template : Type 0 where
  pub id : String
  pub name : String
  pub level : CapabilityLevel
  pub allowed : List String
  pub blocked : List String
  pub paths : List String
  pub options : TemplateOptions

pub record PolicyUpdatePayload : Type 0 where
  pub policy_id : String
  pub level : CapabilityLevel
  pub allowed : List String
  pub blocked : List String
  pub paths : List String
  pub options : TemplateOptions

-- ToPolicy
unfoldable pub to_policy : Template → PolicyUpdatePayload
to_policy t = record {
  policy_id = t.id;
  level = t.level;
  allowed = t.allowed;
  blocked = t.blocked;
  paths = t.paths;
  options = t.options;
}

-- The interfaces fleetStore and policyStore; `push` sends a policy to a probe and tells whether
-- that succeeded.
pub record Stores (S : Type 0) : Type 0 where
  pub has_probe : S → String → Bool
  pub set_policy : S → String → CapabilityLevel → S
  pub template : String → Option Template
  pub push : Option (String → PolicyUpdatePayload → Bool)

pub record Service (F S : Type 0) : Type 0 where
  pub approvals : Queue
  pub fleet : S
  pub capacity_thresholds : CapacityThresholds F
  pub two_person_mode : Bool
  pub applied_policy : Map AppliedPolicyContext

pub data ServiceError : Type 0 where
  probe_not_found policy_template_not_found : ServiceError

pub record PolicyApplyResult : Type 0 where
  pub template : Template
  pub pushed : Bool

abbrev risk_text : RiskLevel → String
risk_text low = "low"
risk_text medium = "medium"
risk_text high = "high"
risk_text critical = "critical"

abbrev pub is_queue : CommandPolicyDecisionOutcome → Bool
is_queue queue = true
is_queue _ = false

abbrev context_of : Template → AppliedPolicyContext
context_of t = record { policy_id = t.id; options = t.options }

-- rememberAppliedPolicy
unfoldable pub remember_applied_policy :
    Map AppliedPolicyContext → String → Template → Map AppliedPolicyContext
remember_applied_policy applied probe_id t =
    if str_eq probe_id "" then applied else insert probe_id (context_of t) applied

pub record SubmitCommandApprovalResult (F : Type 0) : Type 0 where
  pub request : Option Request
  pub decision : CommandPolicyDecision F

if_same {ℓ} : {A : Type ℓ} (b : Bool) (x : A) → (if b then x else x) ≡ x
if_same true x = refl
if_same false x = refl

applied_policy-remember :
    (applied : Map AppliedPolicyContext) (probe_id other_id : String) (t : Template)
    → applied_policy_for_probe (remember_applied_policy applied probe_id t) other_id ≡ (
        if str_eq probe_id other_id && not (str_eq other_id "")
        then some (context_of t)
        else applied_policy_for_probe applied other_id)
unfolding remember_applied_policy applied_policy_for_probe
applied_policy-remember applied probe_id other_id t = ground (
  arith,
  eq_iff probe_id other_id,
  eq_iff probe_id "",
  eq_iff other_id "",
  lookup-insert probe_id other_id (context_of t) applied,
)

-- The push of ApplyPolicyTemplate, which no error of it undoes.
unfoldable pub pushed_to : {S : Type 0} → Stores S → String → Template → Bool
unfolding to_policy
pushed_to stores probe_id t = elim stores.push [
  | none ↦ true
  | some push ↦ push probe_id (to_policy t)
]

module _ {F S : Type 0} where
  -- ApplyPolicyTemplate
  unfoldable pub apply_policy_template :
      Stores S → Service F S → String → String → Service F S × Result ServiceError PolicyApplyResult
  unfolding remember_applied_policy pushed_to
  apply_policy_template stores s probe_id policy_id =
      if not (stores.has_probe s.fleet probe_id)
      then (s, err probe_not_found)
      else elim (stores.template policy_id) [
        | none ↦ (s, err policy_template_not_found)
        | some t ↦ (
          record s {
            fleet = stores.set_policy s.fleet probe_id t.level;
            applied_policy = remember_applied_policy s.applied_policy probe_id t;
          },
          ok (record { template = t; pushed = pushed_to stores probe_id t }),
        )
      ]

  -- After ApplyPolicyTemplate the policy of a probe is the template's if the call was for this
  -- probe, knew the probe and the template, and the probe's id is not empty. In all other cases it
  -- is what it was.
  applied_policy-apply :
      (stores : Stores S) (s : Service F S) (probe_id policy_id other_id : String)
      → applied_policy_for_probe
          (apply_policy_template stores s probe_id policy_id).0.applied_policy
          other_id
        ≡ (if stores.has_probe s.fleet probe_id
              && (str_eq probe_id other_id && not (str_eq other_id ""))
            then elim (stores.template policy_id) [
              | none ↦ applied_policy_for_probe s.applied_policy other_id
              | some t ↦ some (record { policy_id = t.id; options = t.options })
            ]
            else applied_policy_for_probe s.applied_policy other_id)
  unfolding apply_policy_template
  applied_policy-apply stores s probe_id policy_id other_id =
      elim (Bool-cases (stores.has_probe s.fleet probe_id)) [
        | inr unknown ↦ rw unknown
        | inl known ↦ elim (Option-cases (stores.template policy_id)) [
          | inl missing ↦
              rw (known, missing)
                (sym (if_same (str_eq probe_id other_id && not (str_eq other_id "")) _))
          | inr (t, found) ↦
              rw (known, found) (applied_policy-remember s.applied_policy probe_id other_id t)
        ]
      ]

  -- What SubmitCommandApprovalWithContext hands to the queue; `rationale` is the JSON text of the
  -- decision's rationale.
  unfoldable pub submission_of :
      Service F S
      → CommandPolicyDecision F
      → String
      → String
      → CommandPayload
      → String
      → String
      → Submission
  submission_of s d rationale probe_id cmd reason requester = record {
    probe_id = probe_id;
    command = some cmd;
    reason = reason;
    risk_level = risk_text d.risk_level;
    requester = requester;
    policy_decision = "queue";
    policy_rationale = some rationale;
    require_second_approver =
        s.two_person_mode && (leb 3 d.risk_tier && d.policy.require_second_approver);
  }

  -- The answer to what the queue returns.
  abbrev pub submit_answer :
      Service F S
      → CommandPolicyDecision F
      → Queue
      → Result Error Request
      → Service F S × SubmitCommandApprovalResult F × Option Error
  submit_answer s d q (ok x) =
      (record s { approvals = q }, record { request = some x; decision = d }, none)
  submit_answer s d q (err e) =
      (record s { approvals = q }, record { request = none; decision = d }, some e)

  -- SubmitCommandApprovalWithContext after the evaluation. `id` is the UUID, `evicted` and `now` are
  -- the readings of the clock, that the queue takes.
  unfoldable pub submit_decided :
      (CommandPolicyDecision F → String)
      → Service F S
      → CommandPolicyDecision F
      → String
      → ℕ
      → ℕ
      → String
      → CommandPayload
      → String
      → String
      → Service F S × SubmitCommandApprovalResult F × Option Error
  unfolding submission_of
  submit_decided show s d id evicted now probe_id cmd reason requester =
      if is_queue d.outcome
      then (let (q, r) =
            submit s.approvals id evicted now
              (submission_of s d (show d) probe_id cmd reason requester) in
          submit_answer s d q r)
      else (s, record { request = none; decision = d }, none)

  -- SubmitCommandApprovalWithContext
  unfoldable pub submit_command_approval :
      Float64 F
      → (Char → Char)
      → (CommandPolicyDecision F → String)
      → Service F S
      → Option (Result String (Option (CapacitySignals F)))
      → String
      → ℕ
      → ℕ
      → String
      → CommandPayload
      → CapabilityLevel
      → String
      → String
      → Service F S × SubmitCommandApprovalResult F × Option Error
  unfolding submit_decided
  submit_command_approval fl lower show s provider id evicted now probe_id cmd level reason
        requester =
      submit_decided show s
        (evaluate_command_policy fl lower s.capacity_thresholds provider s.applied_policy probe_id
          cmd level none)
        id evicted now probe_id cmd reason requester
