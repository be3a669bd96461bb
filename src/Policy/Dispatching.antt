-- ===== src/Policy/Dispatching.antt =====
-- internal/controlplane/core/approvalpolicy/service.go and approval/queue.go: a command goes to its
-- probe only once its request is approved, and at most once.
use Prim.Native.Char.{Char}
use legator.Common.{
  ℕ, ◌+◌, ◌≤◌, String, true, ◌&&◌, ◌≡◌, refl, inl, inr, arith, Option, some, List, [], ◌∷◌, ◌++◌,
  if◌then◌else◌, ok, err, Option-cases, str_eq,
}
use legator.Common.Map.{Each-lookup}
use legator.Protocol.{CommandPayload}
use legator.Approval.Request.{Decision, Request, Error}
use legator.Approval.Queue.{Queue, decide, get}
use legator.Approval.Quorum.{IsSound}
use legator.Approval.Deciding.{decide-Accepts}
use legator.Approval.History.{Call, decides, step, IsSoundQueue, step-IsSoundQueue}
use legator.Approval.Persists.{Spares}
use legator.Policy.Dispatch.{
  ApprovalDecisionResult, DecisionHooks, Effect, recorded, dispatched, completed, decision_result,
  decided_result, command_to_dispatch, after_dispatch, dispatch_approved_command, dispatch_decided,
  decide_and_dispatch,
}

-- How many of the calls send the command of the request with this id.
unfoldable pub dispatches_of : String → List Effect → ℕ
dispatches_of id [] = 0
dispatches_of id (dispatched r p c ∷ es) = (if str_eq r.id id then 1 else 0) + dispatches_of id es
dispatches_of id (_ ∷ es) = dispatches_of id es

pub dispatches_of-append :
    (id : String) (xs ys : List Effect)
    → dispatches_of id (xs ++ ys) ≡ dispatches_of id xs + dispatches_of id ys
unfolding dispatches_of
dispatches_of-append id [] ys = omega arith
dispatches_of-append id (dispatched r p c ∷ xs) ys = omega (arith, dispatches_of-append id xs ys)
dispatches_of-append id (recorded x ∷ xs) ys = dispatches_of-append id xs ys
dispatches_of-append id (completed x ∷ xs) ys = dispatches_of-append id xs ys

-- The calls that follow a decision, in their order: the hook of the decision; then, where the
-- request is approved and has a command, that command to its probe; then the hook of the dispatch.
pub data Follows (x : ApprovalDecisionResult) (es : List Effect) : Type 0 where
  only_recorded : es ≡ recorded x ∷ [] → Follows x es
  sent :
      (c : CommandPayload)
      → x.requires_dispatch ≡ true
      → x.request.command ≡ some c
      → es ≡ recorded x ∷ dispatched x.request x.request.probe_id c ∷ []
      → Follows x es
  sent_and_completed :
      (c : CommandPayload)
      → x.requires_dispatch ≡ true
      → x.request.command ≡ some c
      → es ≡ recorded x ∷ dispatched x.request x.request.probe_id c ∷ completed x ∷ []
      → Follows x es

module _ (hooks : DecisionHooks) where
  command_to_dispatch_lem :
      (x : ApprovalDecisionResult) (f : String → CommandPayload → Option String)
      (c : CommandPayload)
      → command_to_dispatch hooks x ≡ some (f, c)
      → (x.requires_dispatch ≡ true) × (x.request.command ≡ some c)
  unfolding command_to_dispatch
  command_to_dispatch_lem x f c h = ground arith

  dispatch_approved_command-Follows :
      (q : Queue) (x : ApprovalDecisionResult)
      → Follows x (dispatch_approved_command hooks q x).effects
  unfolding dispatch_approved_command after_dispatch
  dispatch_approved_command-Follows q x = elim (Option-cases (command_to_dispatch hooks x)) [
    | inl idle ↦ rw (idle, dispatch_approved_command) (only_recorded refl)
    | inr ((f, c), e) ↦
        let (needed, there) = command_to_dispatch_lem x f c e in
        elim (Option-cases (f x.request.probe_id c)) [
          | inl fine ↦
              rw (e, fine, dispatch_approved_command) (sent_and_completed c needed there refl)
          | inr (m, failed) ↦ rw (e, failed, dispatch_approved_command) (sent c needed there refl)
        ]
  ]

  dispatch_decided-Follows :
      (q : Queue) (x : ApprovalDecisionResult) → Follows x (dispatch_decided hooks q (ok x)).effects
  unfolding dispatch_decided
  dispatch_decided-Follows q x = elim (Option-cases (hooks.on_decision_recorded x)) [
    | inl fine ↦ rw (fine, dispatch_decided) (dispatch_approved_command-Follows q x)
    | inr (e, failed) ↦ rw (failed, dispatch_decided) (only_recorded refl)
  ]

pub Follows-le_one :
    (id : String) (x : ApprovalDecisionResult) (es : List Effect)
    → Follows x es
    → dispatches_of id es ≤ (if x.requires_dispatch && str_eq x.request.id id then 1 else 0)
unfolding dispatches_of
Follows-le_one id x es (only_recorded e) = rw e (ground arith)
Follows-le_one id x es (sent c needed there e) = rw e (ground arith)
Follows-le_one id x es (sent_and_completed c needed there e) = rw e (ground arith)

-- A call on the service: a decision with its dispatch, or any other call on the queue.
pub data ServiceCall : Type 0 where
  decides_and_dispatches : String → Decision → String → ℕ → ℕ → ServiceCall
  other_call : Call → ServiceCall

abbrev pub queue_call : ServiceCall → Call
queue_call (decides_and_dispatches id d by checked now) = decides id d by checked now
queue_call (other_call c) = c

abbrev pub SparesId : String → ServiceCall → Type 0
SparesId id c = Spares id (queue_call c)

module _ (fold : Char → Char) (hooks : DecisionHooks) where
  -- The effects of a call on the service.
  unfoldable pub effects_of : Queue → ServiceCall → List Effect
  effects_of q (decides_and_dispatches id d by checked now) =
      (decide_and_dispatch fold hooks q id d by checked now).effects
  effects_of q (other_call c) = []

  -- The effects of calls on the service, in their order.
  unfoldable pub serve : Queue → List ServiceCall → List Effect
  unfolding effects_of
  serve q [] = []
  serve q (c ∷ cs) = effects_of q c ++ serve (step fold q (queue_call c)) cs

  pub effects-refused :
      (q : Queue) (id : String) (d : Decision) (by : String) (checked now : ℕ) (e : Error)
      → (decide fold q id d by checked now).1 ≡ err e
      → (decide_and_dispatch fold hooks q id d by checked now).effects ≡ []
  unfolding decide_and_dispatch dispatch_decided decided_result
  effects-refused q id d by checked now e h = rw h

  pub effects-Follows :
      (q : Queue) (id : String) (d : Decision) (by : String) (checked now : ℕ) (r : Request)
      → (decide fold q id d by checked now).1 ≡ ok r
      → Follows (decision_result r) (decide_and_dispatch fold hooks q id d by checked now).effects
  unfolding decide_and_dispatch decided_result
  effects-Follows q id d by checked now r h =
      rw h
        (dispatch_decided-Follows hooks (decide fold q id d by checked now).0 (decision_result r))

  -- The request that a decision returns stands in the queue under its own id.
  pub decided_stored :
      (q : Queue) (id : String) (d : Decision) (by : String) (checked now : ℕ) (r : Request)
      → IsSoundQueue fold q
      → (decide fold q id d by checked now).1 ≡ ok r
      → (get (step fold q (decides id d by checked now)) id ≡ some r) × IsSound fold r × (r.id ≡ id)
  unfolding get step
  decided_stored q id d by checked now r h e =
      let (_, _, _, _, there) = decide-Accepts fold q id d by checked now r e in
      let sound = step-IsSoundQueue fold q (decides id d by checked now) h in
      let s = Each-lookup _ id r _ sound.stored there in (there, s.0, s.1)
