-- ===== src/Approval/Deciding.antt =====
-- internal/controlplane/approval/queue.go: what Decide accepts and refuses.
use Prim.Native.Char.{Char}
use legator.Common.{
  ℕ, ◌+◌, ◌≤◌, ◌<◌, length-append, String, true, false, ◌≡◌, ◌≢◌, refl, ap, ◌∙◌, subst, inl, inr,
  ◌⊎◌, none, some, [], ◌∷◌, ◌++◌, arith, length, Bool-cases, Option-cases, ltb, str_eq, eq_iff, ok,
  or_error,
}
use legator.Common.Text.{trim_space, ne_of_str_eq}
use legator.Common.Map.{lookup, lookup-insert_self}
use legator.Approval.Request.{
  Decision, pending, approved, denied, ApprovalRecord, Request, is_pending, is_denied, is_approved,
  has_approved, record_approval, decide_request, required_approval_count,
}
use legator.Approval.Queue.{Queue, decide, get}
use legator.Approval.Quorum.{decide_request_cases}

is_denied→eq : (d : Decision) → is_denied d ≡ true → d ≡ denied
is_denied→eq denied h = refl
is_denied→eq d h = ground arith

is_approved→eq : (d : Decision) → is_approved d ≡ true → d ≡ approved
is_approved→eq approved h = refl
is_approved→eq d h = ground arith

module _ (fold : Char → Char) where
  -- How a decision that Decide accepts changes a request: a denial, one more approval short of the
  -- quorum, or the approval that meets it.
  pub data Accepts (r : Request) (actor : String) (now : ℕ) (d : Decision) (r' : Request)
      : Type 0 where
    denies :
        d ≡ denied
        → r' ≡ record r { decision = denied; decided_by = actor; decided_at = some now }
        → Accepts r actor now d r'
    joins :
        d ≡ approved
        → has_approved fold actor r.approvals ≡ false
        → length r.approvals + 1 < required_approval_count r
        → r' ≡ record r {
          approvals = r.approvals ++ record { actor = actor; timestamp = now } ∷ [];
          decision = pending;
        }
        → Accepts r actor now d r'
    completes :
        d ≡ approved
        → has_approved fold actor r.approvals ≡ false
        → required_approval_count r ≤ length r.approvals + 1
        → r' ≡ record r {
          approvals = r.approvals ++ record { actor = actor; timestamp = now } ∷ [];
          decision = approved;
          decided_by = actor;
          decided_at = some now;
        }
        → Accepts r actor now d r'

  -- The request that stands under an id is open: pending, and not past its deadline.
  pub record IsOpen (q : Queue) (id : String) (checked : ℕ) (r : Request) : Type 0 where
    pub found : get q id ≡ some r
    pub undecided : is_pending r.decision ≡ true
    pub in_time : checked ≤ r.expires_at

  record_approval-Accepts :
      (r : Request) (actor : String) (now : ℕ) (d : Decision)
      → d ≡ approved
      → has_approved fold actor r.approvals ≡ false
      → Accepts r actor now d (record_approval r actor now)
  unfolding record_approval required_approval_count
  record_approval-Accepts r actor now d e fresh =
      let a : ApprovalRecord = record { actor = actor; timestamp = now } in
      let n : length (r.approvals ++ a ∷ []) ≡ length r.approvals + 1 =
        length-append r.approvals (a ∷ []) in
      elim (Bool-cases (ltb (length (r.approvals ++ a ∷ [])) (required_approval_count r))) [
        | inl more ↦ joins e fresh (ground (arith, n, more)) (rw more)
        | inr met ↦ completes e fresh (ground (arith, n, met)) (rw met)
      ]

  decide_request-Accepts :
      (r : Request) (id : String) (d : Decision) (actor : String) (checked now : ℕ) (r' : Request)
      → let x = decide_request fold r id d actor checked now in
        or_error x.0 x.1 ≡ ok r'
        → (is_pending r.decision ≡ true)
          × (checked ≤ r.expires_at)
          × Accepts r actor now d r'
          × (x.0 ≡ r')
  decide_request-Accepts r id d actor checked now r' =
      decide_request_cases fold
        (λ x.
          or_error x.0 x.1 ≡ ok r'
          → (is_pending r.decision ≡ true)
            × (checked ≤ r.expires_at)
            × Accepts r actor now d r'
            × (x.0 ≡ r'))
        r id d actor checked now (λ e h. cc) (λ p l h. cc)
        (λ p l e h. (p, l, denies (is_denied→eq d e) (cc), cc))
        (λ p l e f h. (
          p,
          l,
          subst (Accepts r actor now d) (cc)
              (record_approval-Accepts r actor now d (is_approved→eq d e) f),
          cc,
        ))

  -- A decision that Decide accepts comes from a named actor, on a pending request before its
  -- deadline; it denies it, adds an approval by an actor who has not approved it yet, or with that
  -- approval meets the quorum and approves it. The queue holds the request that is returned.
  pub decide-Accepts :
      (q : Queue) (id : String) (d : Decision) (by : String) (checked now : ℕ) (r' : Request)
      → (decide fold q id d by checked now).1 ≡ ok r'
      → (r : Request) × IsOpen q id checked r
        × (trim_space by ≢ "")
        × Accepts r (trim_space by) now d r'
        × (get (decide fold q id d by checked now).0 id ≡ some r')
  unfolding decide get
  decide-Accepts q id d by checked now r' = elim (Bool-cases (str_eq (trim_space by) "")) [
    | inl blank ↦ rw blank (λ h. cc)
    | inr named ↦ elim (Option-cases (lookup id q.requests)) [
      | inl missing ↦ rw (named, missing) (λ h. cc)
      | inr (r, found) ↦
          rw (named, found)
            (λ h.
              let (p, l, a, e) = decide_request-Accepts r id d (trim_space by) checked now r' h in
              (
                r,
                record { found = found; undecided = p; in_time = l },
                ne_of_str_eq _ _ named,
                a,
                lookup-insert_self id _ q.requests ∙ ap some e,
              ))
    ]
  ]

  -- What Decide needs of a decision besides an open request and a named actor.
  abbrev pub IsAdmissible : Request → String → Decision → Type 0
  IsAdmissible r actor d =
      (d ≡ denied) ⊎ ((d ≡ approved) × (has_approved fold actor r.approvals ≡ false))

  decide_request_ok :
      (r : Request) (id : String) (d : Decision) (actor : String) (checked now : ℕ)
      → is_pending r.decision ≡ true
      → checked ≤ r.expires_at
      → IsAdmissible r actor d
      → (decide_request fold r id d actor checked now).1 ≡ none
  unfolding decide_request
  decide_request_ok r id d actor checked now p l (inl e) = ground arith
  decide_request_ok r id d actor checked now p l (inr (e, f)) = ground arith

  -- A named actor's denial of an open request, or approval of one that he has not
  -- approved yet, is accepted.
  pub decide_open :
      (q : Queue) (id : String) (d : Decision) (by : String) (checked now : ℕ) (r : Request)
      → IsOpen q id checked r
      → trim_space by ≢ ""
      → IsAdmissible r (trim_space by) d
      → (r' : Request) × ((decide fold q id d by checked now).1 ≡ ok r')
  unfolding decide get
  decide_open q id d by checked now r h named a = elim (Bool-cases (str_eq (trim_space by) "")) [
    | inl blank ↦ absurd (named ((eq_iff _ _).0 blank))
    | inr filled ↦
        let e = decide_request_ok r id d (trim_space by) checked now h.undecided h.in_time a in
        ((decide_request fold r id d (trim_space by) checked now).0, rw (filled, h.found, e))
  ]
