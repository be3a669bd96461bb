-- ===== src/Approval/Request.antt =====
-- internal/controlplane/approval/queue.go: a request of the approval queue, and what a decision
-- does to it. Times are numbers of nanoseconds.
use Prim.Native.Char.{Char}
use legator.Common.{
  ℕ, String, Bool, true, false, not, ◌||◌, Option, none, some, List, [], ◌∷◌, ◌++◌, ltb, length,
  some_of, str_eq, if◌then◌else◌,
}
use legator.Common.Text.{trim_space, equal_fold}
use legator.Protocol.{CommandPayload}

-- A Go string type: `other` stands for every text but the four constants.
pub data Decision : Type 0 where
  pending approved denied expired : Decision
  other : String → Decision

abbrev pub is_pending : Decision → Bool
is_pending pending = true
is_pending _ = false

abbrev pub is_approved : Decision → Bool
is_approved approved = true
is_approved _ = false

abbrev pub is_denied : Decision → Bool
is_denied denied = true
is_denied _ = false

pub record ApprovalRecord : Type 0 where
  pub actor : String
  pub timestamp : ℕ

-- `policy_rationale` is a value of type any that the queue only carries, here as its JSON text;
-- `decided_at` is `none` for the zero time.
pub record Request : Type 0 where
  pub id : String
  pub workspace_id : String
  pub probe_id : String
  pub command : Option CommandPayload
  pub reason : String
  pub risk_level : String
  pub requester : String
  pub policy_decision : String
  pub policy_rationale : Option String
  pub require_second_approver : Bool
  pub required_approvals : ℕ
  pub approvals : List ApprovalRecord
  pub decision : Decision
  pub decided_by : String
  pub decided_at : Option ℕ
  pub created_at : ℕ
  pub expires_at : ℕ

-- RequiredApprovalCount
unfoldable pub required_approval_count : Request → ℕ
required_approval_count r =
    if ltb 1 r.required_approvals
    then r.required_approvals
    else if r.require_second_approver
    then 2
    else 1

trimmed_actors : List ApprovalRecord → List String
trimmed_actors [] = []
trimmed_actors (a ∷ r) =
    let actor = trim_space a.actor in
    if str_eq actor "" then trimmed_actors r else actor ∷ trimmed_actors r

-- ApproverIDs; the nil slice is the empty list.
pub approver_ids : Request → List String
unfolding trimmed_actors
approver_ids r = trimmed_actors r.approvals

last : List ApprovalRecord → Option ApprovalRecord
last [] = none
last (a ∷ []) = some a
last (a ∷ b ∷ r) = last (b ∷ r)

-- LatestApproval
pub latest_approval : Request → Option ApprovalRecord
unfolding last
latest_approval r = last r.approvals

pub data Error : Type 0 where
  queue_full : ℕ → ℕ → Error
  decided_by_required : Error
  not_found : String → Error
  already_decided : String → Decision → Error
  request_expired : String → ℕ → Error
  invalid_decision : Decision → Error
  already_approved : String → String → Error
  wait_timeout : String → Error

-- The test of the loop over prior approvals.
unfoldable pub has_approved : (Char → Char) → String → List ApprovalRecord → Bool
has_approved fold actor prior = some_of (λ p. equal_fold fold (trim_space p.actor) actor) prior

-- The end of Decide: an approval is recorded, and decides the request once the quorum is met.
unfoldable pub record_approval : Request → String → ℕ → Request
record_approval r actor now =
    let r' = record r {
      approvals = r.approvals ++ record { actor = actor; timestamp = now } ∷ [];
    } in
    if ltb (length r'.approvals) (required_approval_count r')
    then record r' { decision = pending }
    else record r' { decision = approved; decided_by = actor; decided_at = some now }

-- Decide from the test of req.Decision on: the request as it is stored afterwards, and the error.
-- `checked` and `now` are the two readings of the clock.
unfoldable pub decide_request :
    (Char → Char) → Request → String → Decision → String → ℕ → ℕ → Request × Option Error
unfolding record_approval has_approved
decide_request fold r id decision actor checked now =
    if not (is_pending r.decision)
    then (r, some (already_decided id r.decision))
    else if ltb r.expires_at checked
    then (record r { decision = expired }, some (request_expired id r.expires_at))
    else if not (is_approved decision || is_denied decision)
    then (r, some (invalid_decision decision))
    else if is_denied decision
    then (record r { decision = denied; decided_by = actor; decided_at = some now }, none)
    else if has_approved fold actor r.approvals
    then (r, some (already_approved actor id))
    else (record_approval r actor now, none)
