-- ===== src/Approval/History.antt =====
-- internal/controlplane/approval/queue.go: any sequence of the calls that change the queue, and
-- what holds of the queue after it.
use Prim.Native.Char.{Char}
use legator.Common.{
  ℕ, ◌≤◌, String, ◌≡◌, refl, ◌∙◌, inl, inr, Result, some, List, [], ◌∷◌, arith, length, All,
  Bool-cases, Option-cases, leb, str_eq, ok, err,
}
use legator.Common.Text.{trim_space, trim_space_idem, ne_of_str_eq}
use legator.Common.Map.{
  Map, lookup, insert, map_values, Distinct, Each, Distinct-insert, Distinct-map_values,
  Distinct-delete_where, length-insert, length-insert_present, length-map_values,
  length-delete_where, Each-lookup, Each-insert, Each-map_values, Each-delete_where,
}
use legator.Approval.Request.{Decision, Request, Error, approved, required_approval_count}
use legator.Approval.Queue.{
  Queue, Submission, new_queue, evict_expired, expire_request, is_stale, new_request, submit,
  tag_workspace, tag_submitted, submit_with_workspace, decide, get,
}
use legator.Approval.Quorum.{
  IsNamed, AreApart, IsSound, new_request-IsSound, expire_request-IsSound, decide_request-IsSound,
  id-expire_request, id-decide_request, tag-IsSound,
}

-- The calls that change the queue. `sweeps` is evictExpiredLocked alone, as the reaper, Pending,
-- PendingCount and PendingByWorkspace make it.
pub data Call : Type 0 where
  submits : String → ℕ → ℕ → Submission → Call
  submits_in : String → String → ℕ → ℕ → Submission → Call
  decides : String → Decision → String → ℕ → ℕ → Call
  sweeps : ℕ → Call

module _ (fold : Char → Char) where
  unfoldable pub step : Queue → Call → Queue
  step q (submits id evicted now s) = (submit q id evicted now s).0
  step q (submits_in w id evicted now s) = (submit_with_workspace w q id evicted now s).0
  step q (decides id d actor checked now) = (decide fold q id d actor checked now).0
  step q (sweeps now) = evict_expired now q

  unfoldable pub run : Queue → List Call → Queue
  run q [] = q
  run q (c ∷ cs) = run (step q c) cs

  abbrev Stored : String → Request → Type 0
  Stored k r = IsSound fold r × (r.id ≡ k)

  pub record IsSoundQueue (q : Queue) : Type 0 where
    pub distinct : Distinct q.requests
    pub stored : Each Stored q.requests
    pub bounded : length q.requests ≤ q.max_size

  evict_expired-IsSound :
      (now : ℕ) (q : Queue) → IsSoundQueue q → IsSoundQueue (evict_expired now q)
  unfolding evict_expired
  evict_expired-IsSound now q h =
      let expire : Request → Request = expire_request now in
      let m : Map Request = map_values expire q.requests in
      record {
        distinct =
            Distinct-delete_where (is_stale now) m
              (Distinct-map_values expire q.requests h.distinct);
        stored = Each-delete_where Stored (is_stale now) m (
            Each-map_values Stored expire
              (λ k r s. (expire_request-IsSound fold now r s.0, id-expire_request now r ∙ s.1))
              q.requests h.stored);
        bounded = omega (
          arith,
          h.bounded,
          length-map_values expire q.requests,
          length-delete_where (is_stale now) m,
        );
      }

  put-IsSound :
      (q : Queue) (k : String) (r : Request)
      → IsSoundQueue q
      → Stored k r
      → length (insert k r q.requests) ≤ q.max_size
      → IsSoundQueue (record q { requests = insert k r q.requests })
  put-IsSound q k r h s room = record {
    distinct = Distinct-insert k r q.requests h.distinct;
    stored = Each-insert Stored k r q.requests s h.stored;
    bounded = room;
  }

  -- A write to a request that is there.
  update-IsSound :
      (q : Queue) (k : String) (r r' : Request)
      → IsSoundQueue q
      → lookup k q.requests ≡ some r
      → Stored k r'
      → IsSoundQueue (record q { requests = insert k r' q.requests })
  update-IsSound q k r r' h found s =
      put-IsSound q k r' h s
        (omega (arith, h.bounded, length-insert_present k r' r q.requests found))

  submit-IsSound :
      (q : Queue) (id : String) (evicted now : ℕ) (s : Submission)
      → IsSoundQueue q
      → IsSoundQueue (submit q id evicted now s).0
  unfolding submit
  submit-IsSound q id evicted now s h =
      let q' = evict_expired evicted q in
      let r = new_request q' id now s in
      let h' : IsSoundQueue q' = evict_expired-IsSound evicted q h in
      elim (Bool-cases (leb q'.max_size (length q'.requests))) [
        | inl full ↦ rw full h'
        | inr room ↦ rw room (
            put-IsSound q' id r h'
              (new_request-IsSound fold q' id now s, unfold new_request in refl)
              (ground (arith, length-insert id r q'.requests)))
      ]

  tag_workspace-IsSound :
      (w : String) (q : Queue) (r : Request) → IsSoundQueue q → IsSoundQueue (tag_workspace w q r).0
  unfolding tag_workspace
  tag_workspace-IsSound w q r h = elim (Bool-cases (str_eq (trim_space w) "")) [
    | inl blank ↦ rw blank h
    | inr tagged ↦ elim (Option-cases (lookup r.id q.requests)) [
      | inl missing ↦ rw (tagged, missing) h
      | inr (x, found) ↦
          let s : Stored r.id x = Each-lookup Stored r.id x q.requests h.stored found in
          rw (tagged, found)
            (update-IsSound q r.id x (record x { workspace_id = trim_space w }) h found
              (tag-IsSound fold x _ s.0, s.1))
    ]
  ]

  tag_submitted-IsSound :
      (w : String) (q : Queue) (x : Result Error Request)
      → IsSoundQueue q
      → IsSoundQueue (tag_submitted w q x).0
  unfolding tag_submitted
  tag_submitted-IsSound w q (ok r) h = tag_workspace-IsSound w q r h
  tag_submitted-IsSound w q (err e) h = h

  submit_with_workspace-IsSound :
      (w : String) (q : Queue) (id : String) (evicted now : ℕ) (s : Submission)
      → IsSoundQueue q
      → IsSoundQueue (submit_with_workspace w q id evicted now s).0
  unfolding submit_with_workspace
  submit_with_workspace-IsSound w q id evicted now s h =
      tag_submitted-IsSound w (submit q id evicted now s).0 (submit q id evicted now s).1
        (submit-IsSound q id evicted now s h)

  decide-IsSound :
      (q : Queue) (id : String) (d : Decision) (by : String) (checked now : ℕ)
      → IsSoundQueue q
      → IsSoundQueue (decide fold q id d by checked now).0
  unfolding decide
  decide-IsSound q id d by checked now h = elim (Bool-cases (str_eq (trim_space by) "")) [
    | inl blank ↦ rw blank h
    | inr named ↦ elim (Option-cases (lookup id q.requests)) [
      | inl missing ↦ rw (named, missing) h
      | inr (r, found) ↦
          let s : Stored id r = Each-lookup Stored id r q.requests h.stored found in
          rw (named, found)
            (update-IsSound q id r _ h found (
              decide_request-IsSound fold r id d (trim_space by) checked now (trim_space_idem by)
                  (ne_of_str_eq _ _ named) s.0,
              id-decide_request fold r id d (trim_space by) checked now ∙ s.1,
            ))
    ]
  ]

  pub step-IsSoundQueue : (q : Queue) (c : Call) → IsSoundQueue q → IsSoundQueue (step q c)
  unfolding step
  step-IsSoundQueue q (submits id evicted now s) h = submit-IsSound q id evicted now s h
  step-IsSoundQueue q (submits_in w id evicted now s) h =
      submit_with_workspace-IsSound w q id evicted now s h
  step-IsSoundQueue q (decides id d by checked now) h = decide-IsSound q id d by checked now h
  step-IsSoundQueue q (sweeps now) h = evict_expired-IsSound now q h

  run-IsSoundQueue : (q : Queue) (cs : List Call) → IsSoundQueue q → IsSoundQueue (run q cs)
  unfolding run
  run-IsSoundQueue q [] h = h
  run-IsSoundQueue q (c ∷ cs) h = run-IsSoundQueue (step q c) cs (step-IsSoundQueue q c h)

  new_queue-IsSoundQueue : (ttl max_size : ℕ) → IsSoundQueue (new_queue ttl max_size)
  unfolding new_queue
  new_queue-IsSoundQueue ttl max_size = record { distinct = tt; stored = tt; bounded = omega arith }

  -- After any calls on a new queue, the queue holds at most `max_size` requests under distinct
  -- ids, each of them sound and stored under its own id.
  pub run-new_queue-IsSoundQueue :
      (ttl max_size : ℕ) (cs : List Call) → IsSoundQueue (run (new_queue ttl max_size) cs)
  run-new_queue-IsSoundQueue ttl max_size cs =
      run-IsSoundQueue _ cs (new_queue-IsSoundQueue ttl max_size)

  -- After any calls on a new queue, a request that Get returns as approved has exactly as many
  -- approvals as its quorum, each by a named actor, no two of whom EqualFold identifies.
  pub approved_by_quorum :
      (ttl max_size : ℕ) (cs : List Call) (id : String) (r : Request)
      → get (run (new_queue ttl max_size) cs) id ≡ some r
      → r.decision ≡ approved
      → (length r.approvals ≡ required_approval_count r)
        × All IsNamed r.approvals
        × AreApart fold r.approvals
  unfolding get
  approved_by_quorum ttl max_size cs id r found e =
      let h = run-new_queue-IsSoundQueue ttl max_size cs in
      let s : Stored id r = Each-lookup Stored id r _ h.stored found in
      (s.0.quorum_met (ground arith), s.0.named, s.0.apart)
