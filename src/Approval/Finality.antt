-- ===== src/Approval/Finality.antt =====
-- internal/controlplane/approval/queue.go: a decided request is never decided again; it stays as
-- it is until it is purged.
use Prim.Native.Char.{Char}
use legator.Common.{
  ℕ, String, false, ◌≡◌, refl, ap, ◌∙◌, inl, inr, ◌⊎◌, Option, none, some, List, All,
}
use legator.Approval.Request.{Decision, Request, already_decided, is_pending, decide_request}
use legator.Approval.Queue.{Queue, expire_request, get}
use legator.Approval.Persists.{Spares, Keeps, step-Keeps, run-Keeps}
use legator.Approval.History.{Call, step, run, IsSoundQueue}

-- Purged, or unchanged.
abbrev pub Holds : Request → Option Request → Type 0
Holds r o = (o ≡ none) ⊎ (o ≡ some r)

expire_request-decided :
    (now : ℕ) (r : Request) → is_pending r.decision ≡ false → expire_request now r ≡ r
unfolding expire_request
expire_request-decided now r e = rw e

pub decide_request-decided :
    (fold : Char → Char) (r : Request) (id : String) (d : Decision) (actor : String)
    (checked now : ℕ)
    → is_pending r.decision ≡ false
    → decide_request fold r id d actor checked now ≡ (r, some (already_decided id r.decision))
unfolding decide_request
decide_request-decided fold r id d actor checked now e = rw e

module _ (fold : Char → Char) (id : String) (r : Request)
    (decided : is_pending r.decision ≡ false) where
  expire_same : (now : ℕ) (x : Request) → x ≡ r → expire_request now x ≡ r
  expire_same now x same = rw same (expire_request-decided now r decided)

  decide_same :
      (x : Request) (k : String) (d : Decision) (actor : String) (checked now : ℕ)
      → x ≡ r
      → (decide_request fold x k d actor checked now).0 ≡ r
  decide_same x k d actor checked now same =
      rw same (ap (λ y. y.0) (decide_request-decided fold r k d actor checked now decided))

  Keeps-Holds : (o : Option Request) → Keeps (λ x. x ≡ r) o → Holds r o
  Keeps-Holds o (inl gone) = inl gone
  Keeps-Holds o (inr (x, there, same)) = inr (there ∙ ap some same)

  Holds-Keeps : (o : Option Request) → Holds r o → Keeps (λ x. x ≡ r) o
  Holds-Keeps o (inl gone) = inl gone
  Holds-Keeps o (inr there) = inr (r, there, refl)

  pub step-Holds :
      (q : Queue) (c : Call)
      → Spares id c
      → IsSoundQueue fold q
      → Holds r (get q id)
      → Holds r (get (step fold q c) id)
  step-Holds q c e h held =
      Keeps-Holds _
        (step-Keeps fold id (λ x. x ≡ r) expire_same decide_same q c e h (Holds-Keeps _ held))

-- A request that is decided (approved, denied or expired) in a sound queue is, after any calls
-- that reuse none of its id, either purged or exactly as it was: no field of it has changed.
pub decided_is_final :
    (fold : Char → Char) (q : Queue) (cs : List Call) (id : String) (r : Request)
    → IsSoundQueue fold q
    → get q id ≡ some r
    → is_pending r.decision ≡ false
    → All (Spares id) cs
    → Holds r (get (run fold q cs) id)
decided_is_final fold q cs id r h found decided e = Keeps-Holds fold id r decided _ (
    run-Keeps fold id (λ x. x ≡ r) (expire_same fold id r decided) (decide_same fold id r decided) q
      cs e h (inr (r, found, refl)))
