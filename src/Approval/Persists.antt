-- ===== src/Approval/Persists.antt =====
-- internal/controlplane/approval/queue.go: what stays true of a request in the queue until it is purged.
use Prim.Native.Char.{Char}
use mathlib.Core.Option
use mathlib.Core.Option.{some-injective}
use legator.Common.{
  ℕ, String, true, false, ◌≡◌, refl, sym, ap, subst, ◌∙◌, inl, inr, ◌⊎◌, Option, none, some, List,
  [], ◌∷◌, length, All, Bool-cases, Option-cases, leb, str_eq, eq_iff,
}
use legator.Common.Text.{trim_space}
use legator.Common.Map.{
  lookup, insert, unless_dropped, lookup-insert, lookup-map_values, lookup-delete_where,
  Distinct-map_values,
}
use legator.Approval.Request.{Decision, Request, decide_request}
use legator.Approval.Queue.{
  Queue, Submission, evict_expired, expire_request, is_stale, new_request, submit, tag_workspace,
  tag_submitted, submit_with_workspace, decide, get,
}
use legator.Approval.History.{
  Call, submits, submits_in, decides, sweeps, step, run, IsSoundQueue, step-IsSoundQueue,
}

-- The call adds no request under this id, as a new UUID makes sure.
abbrev pub Spares : String → Call → Type 0
Spares id (submits new evicted now s) = str_eq new id ≡ false
Spares id (submits_in w new evicted now s) = str_eq new id ≡ false
Spares id (decides other d by checked now) = Unit
Spares id (sweeps now) = Unit

-- Purged, or with the property.
abbrev pub Keeps : (Request → Type 0) → Option Request → Type 0
Keeps P o = (o ≡ none) ⊎ ((x : Request) × (o ≡ some x) × P x)

lookup-evict_expired :
    (fold : Char → Char) (now : ℕ) (q : Queue) (id : String)
    → IsSoundQueue fold q
    → lookup id (evict_expired now q).requests
      ≡ unless_dropped (is_stale now) (Option.map (expire_request now) (lookup id q.requests))
unfolding evict_expired
lookup-evict_expired fold now q id h =
    lookup-delete_where (is_stale now) id _
      (Distinct-map_values (expire_request now) q.requests h.distinct)
    ∙ ap (unless_dropped (is_stale now)) (lookup-map_values (expire_request now) id q.requests)

module _ (fold : Char → Char) (id : String) (P : Request → Type 0)
    (expires : (now : ℕ) (x : Request) → P x → P (expire_request now x))
    (decided : (x : Request) (k : String) (d : Decision) (actor : String) (checked now : ℕ)
      → P x
      → P (decide_request fold x k d actor checked now).0) where
  evict_expired-Keeps :
      (now : ℕ) (q : Queue)
      → IsSoundQueue fold q
      → Keeps P (get q id)
      → Keeps P (get (evict_expired now q) id)
  unfolding get
  evict_expired-Keeps now q h (inl gone) = inl (lookup-evict_expired fold now q id h ∙ rw gone)
  evict_expired-Keeps now q h (inr (x, there, p)) =
      let x' = expire_request now x in
      elim (Bool-cases (is_stale now x')) [
        | inl stale ↦ inl (lookup-evict_expired fold now q id h ∙ rw (there, stale))
        | inr young ↦
            inr (x', lookup-evict_expired fold now q id h ∙ rw (there, young), expires now x p)
      ]

  insert-Keeps :
      (q : Queue) (k : String) (x : Request)
      → str_eq k id ≡ false
      → Keeps P (get q id)
      → Keeps P (get (record q { requests = insert k x q.requests }) id)
  unfolding get
  insert-Keeps q k x e h = rw (lookup-insert k id x q.requests, e) h

  submit-Keeps :
      (q : Queue) (k : String) (evicted now : ℕ) (s : Submission)
      → str_eq k id ≡ false
      → IsSoundQueue fold q
      → Keeps P (get q id)
      → Keeps P (get (submit q k evicted now s).0 id)
  unfolding submit
  submit-Keeps q k evicted now s e h held =
      let q' = evict_expired evicted q in
      elim (Bool-cases (leb q'.max_size (length q'.requests))) [
        | inl full ↦ rw full (evict_expired-Keeps evicted q h held)
        | inr room ↦ rw room (insert-Keeps q' k _ e (evict_expired-Keeps evicted q h held))
      ]

  tag_workspace-Keeps :
      (w : String) (q : Queue) (x : Request)
      → str_eq x.id id ≡ false
      → Keeps P (get q id)
      → Keeps P (get (tag_workspace w q x).0 id)
  unfolding tag_workspace
  tag_workspace-Keeps w q x e h = elim (Bool-cases (str_eq (trim_space w) "")) [
    | inl blank ↦ rw blank h
    | inr tagged ↦ elim (Option-cases (lookup x.id q.requests)) [
      | inl missing ↦ rw (tagged, missing) h
      | inr (y, found) ↦ rw (tagged, found) (insert-Keeps q x.id _ e h)
    ]
  ]

  tag_submitted-Keeps :
      (w : String) (q : Queue) (k : String) (evicted now : ℕ) (s : Submission)
      → str_eq k id ≡ false
      → Keeps P (get (submit q k evicted now s).0 id)
      → Keeps P (get (submit_with_workspace w q k evicted now s).0 id)
  unfolding submit_with_workspace tag_submitted submit
  tag_submitted-Keeps w q k evicted now s e =
      let q' = evict_expired evicted q in
      elim (Bool-cases (leb q'.max_size (length q'.requests))) [
        | inl full ↦ rw full (λ h. h)
        | inr room ↦ rw room (λ h. tag_workspace-Keeps w _ _ (unfold new_request in e) h)
      ]

  insert_found :
      (q : Queue) (k : String) (x : Request)
      → str_eq k id ≡ true
      → get (record q { requests = insert k x q.requests }) id ≡ some x
  unfolding get
  insert_found q k x same = rw (lookup-insert k id x q.requests, same) refl

  stored :
      (q : Queue) (k : String) (x : Request)
      → str_eq k id ≡ true
      → lookup k q.requests ≡ some x
      → Keeps P (get q id)
      → P x
  unfolding get
  stored q k x same found h =
      let e : lookup id q.requests ≡ some x = rw (← (eq_iff k id).0 same) found in
      elim h [
        | inl gone ↦ absurd (cc)
        | inr (y, there, p) ↦ subst P (some-injective y x (sym there ∙ e)) p
      ]

  decide-Keeps :
      (q : Queue) (k : String) (d : Decision) (by : String) (checked now : ℕ)
      → Keeps P (get q id)
      → Keeps P (get (decide fold q k d by checked now).0 id)
  unfolding decide
  decide-Keeps q k d by checked now h = elim (Bool-cases (str_eq (trim_space by) "")) [
    | inl blank ↦ rw blank h
    | inr named ↦ elim (Option-cases (lookup k q.requests)) [
      | inl missing ↦ rw (named, missing) h
      | inr (x, found) ↦ elim (Bool-cases (str_eq k id)) [
        | inr other ↦ rw (named, found) (insert-Keeps q k _ other h)
        | inl same ↦
            rw (named, found)
              (inr (
                (decide_request fold x k d (trim_space by) checked now).0,
                insert_found q k _ same,
                decided x k d (trim_space by) checked now (stored q k x same found h),
              ))
      ]
    ]
  ]

  pub step-Keeps :
      (q : Queue) (c : Call)
      → Spares id c
      → IsSoundQueue fold q
      → Keeps P (get q id)
      → Keeps P (get (step fold q c) id)
  unfolding step
  step-Keeps q (submits k evicted now s) e h held = submit-Keeps q k evicted now s e h held
  step-Keeps q (submits_in w k evicted now s) e h held =
      tag_submitted-Keeps w q k evicted now s e (submit-Keeps q k evicted now s e h held)
  step-Keeps q (decides k d by checked now) e h held = decide-Keeps q k d by checked now held
  step-Keeps q (sweeps now) e h held = evict_expired-Keeps now q h held

  pub run-Keeps :
      (q : Queue) (cs : List Call)
      → All (Spares id) cs
      → IsSoundQueue fold q
      → Keeps P (get q id)
      → Keeps P (get (run fold q cs) id)
  unfolding run
  run-Keeps q [] e h held = held
  run-Keeps q (c ∷ cs) e h held =
      run-Keeps (step fold q c) cs e.1 (step-IsSoundQueue fold q c h) (step-Keeps q c e.0 h held)
