-- ===== src/Approval/Quorum.antt =====
-- internal/controlplane/approval/queue.go: the quorum of a single request, kept by Decide and by
-- the eviction of expired requests.
use Prim.Native.Char.{Char}
use legator.Common.{
  ℕ, ◌≤◌, ◌<◌, String, true, false, ◌≡◌, ◌≢◌, refl, inl, inr, Option, none, some, List, [], ◌∷◌,
  ◌++◌, arith, length, length-append, All, Bool-cases, ltb, ltb→lt, ltb→le,
}
use legator.Common.Text.{trim_space, equal_fold}
use legator.Approval.Request.{
  Decision, denied, expired, is_pending, is_approved, ApprovalRecord, Request, Error, is_denied,
  request_expired, required_approval_count, has_approved, record_approval, decide_request,
}
use legator.Approval.Queue.{Queue, Submission, new_request, expire_request}

-- Recorded actors are trimmed and not empty.
abbrev pub IsNamed : ApprovalRecord → Type 0
IsNamed a = (trim_space a.actor ≡ a.actor) × (a.actor ≢ "")

pub id-expire_request : (now : ℕ) (r : Request) → (expire_request now r).id ≡ r.id
unfolding expire_request
id-expire_request now r = ground arith

module _ (fold : Char → Char) where
  -- No later approval has an actor that EqualFold identifies with an earlier one.
  abbrev pub AreApart : List ApprovalRecord → Type 0
  AreApart [] = Unit {0}
  AreApart (a ∷ r) = All (λ b. equal_fold fold a.actor b.actor ≡ false) r × AreApart r

  pub record IsSound (r : Request) : Type 0 where
    pub named : All IsNamed r.approvals
    pub apart : AreApart r.approvals
    pub quorum_met : is_approved r.decision ≡ true → length r.approvals ≡ required_approval_count r
    pub quorum_open :
        is_approved r.decision ≡ false → length r.approvals < required_approval_count r

  IsNamed-snoc :
      (xs : List ApprovalRecord) (a : ApprovalRecord)
      → All IsNamed xs
      → IsNamed a
      → All IsNamed (xs ++ a ∷ [])
  IsNamed-snoc [] a h n = (n, tt)
  IsNamed-snoc (x ∷ xs) a h n = (h.0, IsNamed-snoc xs a h.1 n)

  differs-snoc :
      (x : ApprovalRecord) (xs : List ApprovalRecord) (a : ApprovalRecord)
      → All (λ b. equal_fold fold x.actor b.actor ≡ false) xs
      → equal_fold fold x.actor a.actor ≡ false
      → All (λ b. equal_fold fold x.actor b.actor ≡ false) (xs ++ a ∷ [])
  differs-snoc x [] a h e = (e, tt)
  differs-snoc x (y ∷ xs) a h e = (h.0, differs-snoc x xs a h.1 e)

  -- The loop over prior approvals finds no match just where the new actor keeps the list apart.
  AreApart-snoc :
      (xs : List ApprovalRecord) (a : ApprovalRecord)
      → All IsNamed xs
      → AreApart xs
      → has_approved fold a.actor xs ≡ false
      → AreApart (xs ++ a ∷ [])
  unfolding has_approved
  AreApart-snoc [] a n p h = (tt, tt)
  AreApart-snoc (x ∷ xs) a n p h =
      (differs-snoc x xs a p.0 (ground (arith, n.0.0)), AreApart-snoc xs a n.1 p.1 (ground arith))

  required-pos : (r : Request) → 0 < required_approval_count r
  unfolding required_approval_count
  required-pos r = ground arith

  pub new_request-IsSound :
      (q : Queue) (id : String) (now : ℕ) (s : Submission) → IsSound (new_request q id now s)
  unfolding new_request
  new_request-IsSound q id now s = record {
    named = tt;
    apart = tt;
    quorum_met = λ e. cc;
    quorum_open = λ e. required-pos _;
  }

  pub expire_request-IsSound : (now : ℕ) (r : Request) → IsSound r → IsSound (expire_request now r)
  unfolding expire_request required_approval_count
  expire_request-IsSound now r h = ground arith

  -- The actor that Decide appends: trimmed, not empty, and not among the prior approvers.
  record_approval-IsSound :
      (r : Request) (actor : String) (now : ℕ)
      → trim_space actor ≡ actor
      → actor ≢ ""
      → is_approved r.decision ≡ false
      → has_approved fold actor r.approvals ≡ false
      → IsSound r
      → IsSound (record_approval r actor now)
  unfolding record_approval required_approval_count
  record_approval-IsSound r actor now trimmed filled undecided fresh h =
      let a : ApprovalRecord = record { actor = actor; timestamp = now } in
      let named : All IsNamed (r.approvals ++ a ∷ []) =
        IsNamed-snoc r.approvals a h.named (trimmed, filled) in
      let apart : AreApart (r.approvals ++ a ∷ []) =
        AreApart-snoc r.approvals a h.named h.apart fresh in
      ground (arith, h.quorum_open undecided, length-append r.approvals (a ∷ []))

  close-IsSound :
      (r : Request) (d : Decision) (actor : String) (at : Option ℕ)
      → is_approved d ≡ false
      → is_approved r.decision ≡ false
      → IsSound r
      → IsSound (record r { decision = d; decided_by = actor; decided_at = at })
  unfolding required_approval_count
  close-IsSound r d actor at e f h = record {
    named = h.named;
    apart = h.apart;
    quorum_met = λ g. cc;
    quorum_open = λ g. h.quorum_open f;
  }

  pub tag-IsSound : (r : Request) (w : String) → IsSound r → IsSound (record r { workspace_id = w })
  unfolding required_approval_count
  tag-IsSound r w h = record {
    named = h.named;
    apart = h.apart;
    quorum_met = h.quorum_met;
    quorum_open = h.quorum_open;
  }

  -- The outcomes of Decide at a stored request: an error that changes nothing, expiry, denial, or
  -- one more approval.
  pub decide_request_cases {ℓ} :
      (P : Request × Option Error → Type ℓ) (r : Request) (id : String) (d : Decision)
      (actor : String) (checked now : ℕ)
      → ((e : Error) → P (r, some e))
      → (is_pending r.decision ≡ true
          → r.expires_at < checked
          → P (record r { decision = expired }, some (request_expired id r.expires_at)))
      → (is_pending r.decision ≡ true
          → checked ≤ r.expires_at
          → is_denied d ≡ true
          → P (record r { decision = denied; decided_by = actor; decided_at = some now }, none))
      → (is_pending r.decision ≡ true
          → checked ≤ r.expires_at
          → is_approved d ≡ true
          → has_approved fold actor r.approvals ≡ false
          → P (record_approval r actor now, none))
      → P (decide_request fold r id d actor checked now)
  unfolding decide_request
  decide_request_cases P r id d actor checked now same late refused more =
      elim (Bool-cases (is_pending r.decision)) [
        | inr decided ↦ rw decided (same _)
        | inl open_ ↦ rw open_ (elim (Bool-cases (ltb r.expires_at checked)) [
          | inl over ↦ rw over (late open_ (ltb→lt _ _ over))
          | inr live ↦ rw live (elim (Bool-cases (is_denied d)) [
            | inl deny ↦
                let unapproved : is_approved d ≡ false = ground arith in
                rw (deny, unapproved) (refused open_ (ltb→le _ _ live) deny)
            | inr other_ ↦ elim (Bool-cases (is_approved d)) [
              | inr bad ↦ rw (other_, bad) (same _)
              | inl good ↦ elim (Bool-cases (has_approved fold actor r.approvals)) [
                | inl again ↦ rw (other_, good, again) (same _)
                | inr fresh ↦ rw (other_, good, fresh) (more open_ (ltb→le _ _ live) good fresh)
              ]
            ]
          ])
        ])
      ]

  pub id-decide_request :
      (r : Request) (id : String) (d : Decision) (actor : String) (checked now : ℕ)
      → (decide_request fold r id d actor checked now).0.id ≡ r.id
  unfolding record_approval
  id-decide_request r id d actor checked now =
      decide_request_cases (λ x. x.0.id ≡ r.id) r id d actor checked now (λ e. refl) (λ p l. refl)
        (λ p l e. refl) (λ p l e f. ground arith)

  pub decide_request-IsSound :
      (r : Request) (id : String) (d : Decision) (actor : String) (checked now : ℕ)
      → trim_space actor ≡ actor
      → actor ≢ ""
      → IsSound r
      → IsSound (decide_request fold r id d actor checked now).0
  decide_request-IsSound r id d actor checked now trimmed filled h =
      decide_request_cases (λ x. IsSound x.0) r id d actor checked now (λ e. h)
        (λ p l. close-IsSound r expired r.decided_by r.decided_at refl (ground arith) h)
        (λ p l e. close-IsSound r denied actor (some now) refl (ground arith) h)
        (λ p l e f. record_approval-IsSound r actor now trimmed filled (ground arith) f h)
