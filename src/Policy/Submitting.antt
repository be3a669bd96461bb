-- ===== src/Policy/Submitting.antt =====
-- internal/controlplane/core/approvalpolicy/service.go and approval/queue.go: the request that a
-- submission through the policy leaves in the queue.
use legator.Common.{
  ℕ, ◌≤◌, String, Bool, true, ◌&&◌, ◌≡◌, ◌↔◌, ◌⊎◌, inl, inr, refl, arith, subst, some, leb, length,
  if◌then◌else◌, Result, ok, err, Bool-cases,
}
use legator.Common.Map.{insert, lookup-insert_self}
use legator.Protocol.{CommandPayload}
use legator.Approval.Request.{Request, Error, required_approval_count}
use legator.Approval.Queue.{Queue, Submission, submit, new_request, evict_expired, get}
use legator.Policy.Capacity.{queue, CommandPolicyDecision}
use legator.Policy.Service.{Service, submission_of, submit_decided, is_queue, submit_answer}

ok_injective : (r s : Request) → ◌≡◌ {A = Result Error Request} (ok r) (ok s) → r ≡ s
ok_injective r s h = ground arith

submit-stored :
    (q : Queue) (id : String) (evicted now : ℕ) (asked : Submission) (r : Request)
    → (submit q id evicted now asked).1 ≡ ok r
    → (get (submit q id evicted now asked).0 id ≡ some r)
      × (required_approval_count r ≡ (if asked.require_second_approver then 2 else 1))
unfolding submit new_request required_approval_count get
submit-stored q id evicted now asked r h =
    let q' = evict_expired evicted q in
    elim (Bool-cases (leb q'.max_size (length q'.requests))) [
      | inl full ↦ let h' = rw full at h in cc
      | inr room ↦
          let e = ok_injective (new_request q' id now asked) r (rw room at h) in
          rw room (
            subst
              (λ x.
                (get (record q' { requests = insert id (new_request q' id now asked) q'.requests })
                    id
                  ≡ some x)
                × (required_approval_count x ≡ (if asked.require_second_approver then 2 else 1)))
              e (lookup-insert_self id (new_request q' id now asked) q'.requests, ground arith))
    ]

quorum_iff :
    (a c : Bool) (tier n : ℕ)
    → n ≡ (if a && (leb 3 tier && c) then 2 else 1)
    → ((n ≡ 2) ↔ ((a ≡ true) × (3 ≤ tier) × (c ≡ true))) × ((n ≡ 2) ⊎ (n ≡ 1))
quorum_iff a c tier n h = ((λ e. ground arith, λ e. ground arith), ground arith)

module _ {F S : Type 0} where
  answered :
      (s : Service F S) (d : CommandPolicyDecision F) (q : Queue) (x : Result Error Request)
      (r : Request)
      → (submit_answer s d q x).1.request ≡ some r
      → (x ≡ ok r) × ((submit_answer s d q x).0.approvals ≡ q)
  answered s d q (ok y) r h = (ground arith, refl)
  answered s d q (err e) r h = cc

  -- A submission that returns a request was queued by the policy, and left this request under its
  -- id in the queue. The request needs two approvals exactly if the service is in two-person mode,
  -- the command's risk tier is at least 3 and the profile asks for a second approver; it needs one
  -- otherwise.
  two_person_request :
      (show : CommandPolicyDecision F → String) (s : Service F S) (d : CommandPolicyDecision F)
      (id : String) (evicted now : ℕ) (probe_id : String) (cmd : CommandPayload)
      (reason requester : String) (r : Request)
      → (submit_decided show s d id evicted now probe_id cmd reason requester).1.request ≡ some r
      → (d.outcome ≡ queue)
        × (get (submit_decided show s d id evicted now probe_id cmd reason requester).0.approvals id
            ≡ some r)
        × ((required_approval_count r ≡ 2) ↔ (
            (s.two_person_mode ≡ true)
            × (3 ≤ d.risk_tier)
            × (d.policy.require_second_approver ≡ true)))
        × ((required_approval_count r ≡ 2) ⊎ (required_approval_count r ≡ 1))
  unfolding submit_decided submission_of
  two_person_request show s d id evicted now probe_id cmd reason requester r h =
      let asked = submission_of s d (show d) probe_id cmd reason requester in
      let q' = (submit s.approvals id evicted now asked).0 in
      elim (Bool-cases (is_queue d.outcome)) [
        | inr other ↦ let h' = rw other at h in cc
        | inl queued ↦
            let (e, same) = answered s d q' _ r (rw queued at h) in
            let (there, quorum) = submit-stored s.approvals id evicted now asked r e in
            let (iff, some_) = quorum_iff _ _ _ _ quorum in
            (ground arith, rw (queued, same) there, iff, some_)
      ]
