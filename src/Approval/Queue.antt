-- ===== src/Approval/Queue.antt =====
-- internal/controlplane/approval/queue.go: the operations of the queue. Each takes the readings of
-- the clock, and the new UUID, that the code makes; the mutex makes each of them one step.
use Prim.Native.Char.{Char}
use legator.Common.{
  ℕ, ◌+◌, String, Bool, not, ◌&&◌, Option, none, some, [], ltb, leb, length, str_eq, if◌then◌else◌,
  Result, ok, err, or_error,
}
use legator.Common.Text.{trim_space}
use legator.Common.Map.{Map, lookup, insert, map_values, delete_where}
use legator.Protocol.{CommandPayload}
use legator.Approval.Request.{
  Decision, pending, expired, is_pending, Request, Error, queue_full, decided_by_required,
  not_found, decide_request,
}

pub record Queue : Type 0 where
  pub requests : Map Request
  pub ttl : ℕ
  pub max_size : ℕ

-- NewQueue
unfoldable pub new_queue : ℕ → ℕ → Queue
new_queue ttl max_size = record { requests = []; ttl = ttl; max_size = max_size }

-- What a caller says of a request: the arguments of SubmitWithPolicyDetailsAndOptions.
pub record Submission : Type 0 where
  pub probe_id : String
  pub command : Option CommandPayload
  pub reason : String
  pub risk_level : String
  pub requester : String
  pub policy_decision : String
  pub policy_rationale : Option String
  pub require_second_approver : Bool

-- 24 hours
abbrev pub retention : ℕ
retention = 86_400_000_000_000

-- The first loop of evictExpiredLocked, at one request.
unfoldable pub expire_request : ℕ → Request → Request
expire_request now r =
    if is_pending r.decision && ltb r.expires_at now then record r { decision = expired } else r

-- The test of its second loop.
unfoldable pub is_stale : ℕ → Request → Bool
is_stale now r = not (is_pending r.decision) && ltb (r.created_at + retention) now

-- evictExpiredLocked
unfoldable pub evict_expired : ℕ → Queue → Queue
evict_expired now q = record q {
  requests = delete_where (is_stale now) (map_values (expire_request now) q.requests);
}

-- The request that SubmitWithPolicyDetailsAndOptions builds.
unfoldable pub new_request : Queue → String → ℕ → Submission → Request
new_request q id now s = record {
  id = id;
  workspace_id = "";
  probe_id = s.probe_id;
  command = s.command;
  reason = s.reason;
  risk_level = s.risk_level;
  requester = s.requester;
  policy_decision = s.policy_decision;
  policy_rationale = s.policy_rationale;
  require_second_approver = s.require_second_approver;
  required_approvals = if s.require_second_approver then 2 else 1;
  approvals = [];
  decision = pending;
  decided_by = "";
  decided_at = none;
  created_at = now;
  expires_at = now + q.ttl;
}

-- SubmitWithPolicyDetailsAndOptions; `evicted` and `now` are the two readings of the clock.
unfoldable pub submit : Queue → String → ℕ → ℕ → Submission → Queue × Result Error Request
unfolding new_request
submit q id evicted now s =
    let q' = evict_expired evicted q in
    if leb q'.max_size (length q'.requests)
    then (q', err (queue_full (length q'.requests) q'.max_size))
    else let r = new_request q' id now s in (record q' { requests = insert id r q'.requests }, ok r)

-- The second critical section of SubmitWithWorkspaceAndOptions, which shares the request with
-- the map.
unfoldable pub tag_workspace : String → Queue → Request → Queue × Result Error Request
tag_workspace workspace q r =
    let w = trim_space workspace in
    if str_eq w "" then (q, ok r) else elim (lookup r.id q.requests) [
      | none ↦ (q, ok r)
      | some stored ↦
          let tagged = record stored { workspace_id = w } in
          (record q { requests = insert r.id tagged q.requests }, ok tagged)
    ]

unfoldable pub tag_submitted : String → Queue → Result Error Request → Queue × Result Error Request
unfolding tag_workspace
tag_submitted workspace q (err e) = (q, err e)
tag_submitted workspace q (ok r) = tag_workspace workspace q r

-- SubmitWithWorkspaceAndOptions, with no other operation between its critical sections.
unfoldable pub submit_with_workspace :
    String → Queue → String → ℕ → ℕ → Submission → Queue × Result Error Request
unfolding tag_submitted
submit_with_workspace workspace q id evicted now s =
    let (q', result) = submit q id evicted now s in tag_submitted workspace q' result

-- Decide
unfoldable pub decide :
    (Char → Char) → Queue → String → Decision → String → ℕ → ℕ → Queue × Result Error Request
decide fold q id decision decided_by checked now =
    let actor = trim_space decided_by in
    if str_eq actor "" then (q, err decided_by_required) else elim (lookup id q.requests) [
      | none ↦ (q, err (not_found id))
      | some r ↦
          let (r', e) = decide_request fold r id decision actor checked now in
          (record q { requests = insert id r' q.requests }, or_error r' e)
    ]

-- Get
unfoldable pub get : Queue → String → Option Request
get q id = lookup id q.requests

-- GetCheckWorkspace
unfoldable pub get_check_workspace : Queue → String → String → Option Request
unfolding get
get_check_workspace q id expected = elim (get q id) [
  | none ↦ none
  | some r ↦
      if not (str_eq expected "")
        && (not (str_eq r.workspace_id "") && not (str_eq r.workspace_id expected))
      then none
      else some r
]
