-- ===== src/Policy/Dispatch.antt =====
-- internal/controlplane/core/approvalpolicy/service.go: a decision on a request, and the dispatch of
-- the command that it approves. The calls that the service makes are collected in their order.
use Prim.Native.Char.{Char}
use legator.Common.{
  ℕ, String, Bool, true, false, ◌&&◌, Option, none, some, List, [], ◌∷◌, ◌++◌, if◌then◌else◌,
  Result, ok, err,
}
use legator.Protocol.{CommandPayload}
use legator.Approval.Request.{Decision, Request, Error, is_approved}
use legator.Approval.Queue.{Queue, decide}

pub record ApprovalDecisionResult : Type 0 where
  pub request : Request
  pub requires_dispatch : Bool

pub data DecisionHookStage : Type 0 where
  decision_recorded dispatch_complete : DecisionHookStage

-- The errors of DecideAndDispatch; DecisionHookError and ApprovedDispatchError carry the text of
-- the error that they wrap.
pub data DispatchError : Type 0 where
  approval_error : Error → DispatchError
  decision_hook_error : DecisionHookStage → String → DispatchError
  approved_dispatch_error : String → DispatchError

-- The hooks, and the function that sends a command to a probe: each returns an error's text, if it
-- fails. A nil function is `none`.
pub record DecisionHooks : Type 0 where
  pub on_decision_recorded : ApprovalDecisionResult → Option String
  pub on_approved_dispatch : ApprovalDecisionResult → Option String
  pub dispatch : Option (String → CommandPayload → Option String)

-- A call that DecideAndDispatch makes; a dispatch, with the request whose command it sends.
pub data Effect : Type 0 where
  recorded : ApprovalDecisionResult → Effect
  dispatched : Request → String → CommandPayload → Effect
  completed : ApprovalDecisionResult → Effect

pub record DispatchOutcome : Type 0 where
  pub queue : Queue
  pub effects : List Effect
  pub result : Option ApprovalDecisionResult
  pub error : Option DispatchError

-- RequiresDispatch
unfoldable pub decision_result : Request → ApprovalDecisionResult
decision_result r = record {
  request = r;
  requires_dispatch = is_approved r.decision && elim r.command [ none ↦ false | some c ↦ true ];
}

-- DecideApproval, at what the queue returns.
unfoldable pub decided_result : Result Error Request → Result Error ApprovalDecisionResult
unfolding decision_result
decided_result (ok r) = ok (decision_result r)
decided_result (err e) = err e

-- What DispatchApprovedCommand sends, if anything.
unfoldable pub command_to_dispatch :
    DecisionHooks
    → ApprovalDecisionResult
    → Option ((String → CommandPayload → Option String) × CommandPayload)
command_to_dispatch hooks x =
    if x.requires_dispatch
    then elim hooks.dispatch [
      | none ↦ none
      | some f ↦ elim x.request.command [ none ↦ none | some c ↦ some (f, c) ]
    ]
    else none

-- The hook after a dispatch that succeeded.
unfoldable pub after_dispatch :
    DecisionHooks → Queue → ApprovalDecisionResult → List Effect → DispatchOutcome
after_dispatch hooks q x done = record {
  queue = q;
  effects = done ++ completed x ∷ [];
  result = some x;
  error = elim (hooks.on_approved_dispatch x) [
    | none ↦ none
    | some e ↦ some (decision_hook_error dispatch_complete e)
  ];
}

-- DispatchApprovedCommand, and the hook after it.
unfoldable pub dispatch_approved_command :
    DecisionHooks → Queue → ApprovalDecisionResult → DispatchOutcome
unfolding command_to_dispatch after_dispatch
dispatch_approved_command hooks q x = elim (command_to_dispatch hooks x) [
  | none ↦ record { queue = q; effects = recorded x ∷ []; result = some x; error = none }
  | some (f, c) ↦
      let done = recorded x ∷ dispatched x.request x.request.probe_id c ∷ [] in
      elim (f x.request.probe_id c) [
        | some e ↦ record {
          queue = q;
          effects = done;
          result = some x;
          error = some (approved_dispatch_error e);
        }
        | none ↦ after_dispatch hooks q x done
      ]
]

-- DecideAndDispatch after DecideApproval.
unfoldable pub dispatch_decided :
    DecisionHooks → Queue → Result Error ApprovalDecisionResult → DispatchOutcome
unfolding dispatch_approved_command
dispatch_decided hooks q (err e) = record {
  queue = q;
  effects = [];
  result = none;
  error = some (approval_error e);
}
dispatch_decided hooks q (ok x) = elim (hooks.on_decision_recorded x) [
  | some e ↦ record {
    queue = q;
    effects = recorded x ∷ [];
    result = some x;
    error = some (decision_hook_error decision_recorded e);
  }
  | none ↦ dispatch_approved_command hooks q x
]

-- DecideAndDispatch; `fold`, `checked` and `now` are as for Decide.
unfoldable pub decide_and_dispatch :
    (Char → Char) → DecisionHooks → Queue → String → Decision → String → ℕ → ℕ → DispatchOutcome
unfolding dispatch_decided decided_result
decide_and_dispatch fold hooks q id decision decided_by checked now =
    let (q', r) = decide fold q id decision decided_by checked now in
    dispatch_decided hooks q' (decided_result r)
