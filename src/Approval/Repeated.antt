-- ===== src/Approval/Repeated.antt =====
-- internal/controlplane/approval/queue.go: an actor approves a request once, whatever happens in between.
use Prim.Native.Char.{Char}
use mathlib.Core.Option.{some-injective}
use legator.Common.{
  ℕ, String, true, false, ◌≡◌, ◌≢◌, refl, sym, ap, ◌∙◌, inl, inr, some, List, [], ◌∷◌, ◌++◌, arith,
  All, ok, some_of-append,
}
use legator.Common.Text.{trim_space, trim_space_idem, equal_fold}
use legator.Approval.Request.{
  Decision, approved, ApprovalRecord, Request, has_approved, record_approval, decide_request,
}
use legator.Approval.Queue.{Queue, expire_request, decide, get}
use legator.Approval.History.{Call, decides, step, run, IsSoundQueue, step-IsSoundQueue}
use legator.Approval.Deciding.{Accepts, denies, joins, completes, decide-Accepts}
use legator.Approval.Persists.{Spares, Keeps, run-Keeps}

module _ (fold : Char → Char) where
  has_approved-snoc :
      (xs : List ApprovalRecord) (a : ApprovalRecord) (actor : String)
      → equal_fold fold (trim_space a.actor) actor ≡ true
      → has_approved fold actor (xs ++ a ∷ []) ≡ true
  unfolding has_approved
  has_approved-snoc [] a actor e = rw e
  has_approved-snoc (x ∷ xs) a actor e = ground (arith, has_approved-snoc xs a actor e)

  Accepts-appends :
      (r : Request) (actor : String) (now : ℕ) (r' : Request)
      → Accepts fold r actor now approved r'
      → r'.approvals ≡ r.approvals ++ record { actor = actor; timestamp = now } ∷ []
  Accepts-appends r actor now r' (denies d e) = cc
  Accepts-appends r actor now r' (joins d f l e) = ap (λ (x : Request). x.approvals) e
  Accepts-appends r actor now r' (completes d f l e) = ap (λ (x : Request). x.approvals) e

  Accepts-fresh :
      (r : Request) (actor : String) (now : ℕ) (r' : Request)
      → Accepts fold r actor now approved r'
      → has_approved fold actor r.approvals ≡ false
  Accepts-fresh r actor now r' (denies d e) = cc
  Accepts-fresh r actor now r' (joins d f l e) = f
  Accepts-fresh r actor now r' (completes d f l e) = f

  has_approved-append :
      (xs : List ApprovalRecord) (a : ApprovalRecord) (actor : String)
      → has_approved fold actor xs ≡ true
      → has_approved fold actor (xs ++ a ∷ []) ≡ true
  unfolding has_approved
  has_approved-append xs a actor h =
      some_of-append (λ p. equal_fold fold (trim_space p.actor) actor) xs (a ∷ []) ∙ rw h refl

  -- The actor is among those who have approved the request.
  abbrev HasApproved : String → Request → Type 0
  HasApproved actor r = has_approved fold actor r.approvals ≡ true

  expire_request-HasApproved :
      (actor : String) (now : ℕ) (r : Request)
      → HasApproved actor r
      → HasApproved actor (expire_request now r)
  unfolding expire_request
  expire_request-HasApproved actor now r h = ground (arith, h)

  record_approval-HasApproved :
      (actor : String) (r : Request) (by : String) (now : ℕ)
      → HasApproved actor r
      → HasApproved actor (record_approval r by now)
  unfolding record_approval
  record_approval-HasApproved actor r by now h =
      ground
        (arith, has_approved-append r.approvals (record { actor = by; timestamp = now }) actor h)

  decide_request-HasApproved :
      (actor : String) (r : Request) (id : String) (d : Decision) (by : String) (checked now : ℕ)
      → HasApproved actor r
      → HasApproved actor (decide_request fold r id d by checked now).0
  unfolding decide_request
  decide_request-HasApproved actor r id d by checked now h =
      ground (arith, h, record_approval-HasApproved actor r by now h)

  -- An approval that Decide accepts in a sound queue leaves the actor, as EqualFold sees him, among
  -- those who have approved the request.
  first_approval_stays :
      (q : Queue) (id : String) (by by' : String) (checked now : ℕ) (r' : Request)
      → (decide fold q id approved by checked now).1 ≡ ok r'
      → equal_fold fold (trim_space by) (trim_space by') ≡ true
      → Keeps (HasApproved (trim_space by')) (get (decide fold q id approved by checked now).0 id)
  first_approval_stays q id by by' checked now r' first same =
      let (x, open_, named, a, held) = decide-Accepts fold q id approved by checked now r' first in
      inr (
        r',
        held,
        rw (Accepts-appends x (trim_space by) now r' a)
            (has_approved-snoc x.approvals _ (trim_space by') (rw (trim_space_idem by) same)),
      )

  -- In a sound queue, after an approval that Decide accepts and any calls that reuse none of the
  -- request's id, no approval of that request by the same actor is accepted, up to surrounding space
  -- and what EqualFold identifies.
  pub same_actor_refused :
      (q : Queue) (id : String) (by by' : String) (checked now checked' now' : ℕ) (r' r : Request)
      (cs : List Call)
      → IsSoundQueue fold q
      → (decide fold q id approved by checked now).1 ≡ ok r'
      → equal_fold fold (trim_space by) (trim_space by') ≡ true
      → All (Spares id) cs
      → (decide fold
          (run fold (decide fold q id approved by checked now).0 cs)
          id
          approved
          by'
          checked'
          now').1
        ≢ ok r
  same_actor_refused q id by by' checked now checked' now' r' r cs h first same spared second =
      let q1 = (decide fold q id approved by checked now).0 in
      let actor = trim_space by' in
      let (y, open', named', b, held') =
        decide-Accepts fold (run fold q1 cs) id approved by' checked' now' r second in
      let sound : IsSoundQueue fold q1 =
        unfold step in step-IsSoundQueue fold q (decides id approved by checked now) h in
      let stays =
        run-Keeps fold id (HasApproved actor) (λ t x. expire_request-HasApproved actor t x)
          (λ x k d a t u. decide_request-HasApproved actor x k d a t u) q1 cs spared sound
          (first_approval_stays q id by by' checked now r' first same) in
      refused y actor now' r open'.found b stays
    where
      refused :
          (y : Request) (actor : String) (t : ℕ) (z : Request)
          → get (run fold (decide fold q id approved by checked now).0 cs) id ≡ some y
          → Accepts fold y actor t approved z
          → Keeps
              (HasApproved actor)
              (get (run fold (decide fold q id approved by checked now).0 cs) id)
          → ⊥
      refused y actor t z found b (inl gone) = cc
      refused y actor t z found b (inr (x, there, again)) =
          let e : x ≡ y = some-injective x y (sym there ∙ found) in
          cc (
            ap (λ (u : Request). has_approved fold actor u.approvals) e,
            again,
            Accepts-fresh y actor t z b,
          )
