-- ===== src/Tracker/Delivery.antt =====
-- internal/controlplane/cmdtracker/tracker.go: every caller gets at most one result, on an open
-- channel whose buffer is empty.
use legator.Common.{
  ℕ, ◌+◌, ◌≤◌, String, Bool, true, false, ◌≡◌, refl, ap, ◌∙◌, inl, inr, none, some, List, [], ◌∷◌,
  ◌++◌, arith, str_eq, ◌==◌, Bool-cases, Option-cases, eq_refl, ok, err,
}
use legator.Common.Map.{Map, lookup, insert, delete, delete_where, lookup-delete}
use legator.Protocol.{CapabilityLevel, CommandResultPayload}
use legator.Tracker.Model.{
  PendingCommand, Tracker, new_tracker, track, complete, cancel, is_late, timeouts, expire,
  no_pending_command,
}

-- How often a channel stands in the pending commands, what was sent, and what was closed.
abbrev pub one_if : Bool → ℕ
one_if true = 1
one_if false = 0

unfoldable pub waiting_on : ℕ → Map PendingCommand → ℕ
waiting_on c [] = 0
waiting_on c ((id, pc) ∷ m) = one_if (pc.result == c) + waiting_on c m

unfoldable pub sent_on : ℕ → List (ℕ × CommandResultPayload) → ℕ
sent_on c [] = 0
sent_on c ((d, result) ∷ rest) = one_if (d == c) + sent_on c rest

unfoldable pub closed_on : ℕ → List ℕ → ℕ
closed_on c [] = 0
closed_on c (d ∷ rest) = one_if (d == c) + closed_on c rest

abbrev pub uses : ℕ → Tracker → ℕ
uses c t = waiting_on c t.pending + sent_on c t.sent + closed_on c t.closed

-- Every channel serves once: a command waits on it, or something was sent on it, or it was closed;
-- a channel that is not made yet serves nothing.
pub record IsSingle (t : Tracker) : Type 0 where
  pub once : (c : ℕ) → uses c t ≤ 1
  pub unmade : (c : ℕ) → t.made ≤ c → uses c t ≡ 0

waiting_on-insert :
    (c : ℕ) (k : String) (pc : PendingCommand) (m : Map PendingCommand)
    → waiting_on c (insert k pc m) ≤ waiting_on c m + one_if (pc.result == c)
unfolding waiting_on insert
waiting_on-insert c k pc [] = omega arith
waiting_on-insert c k pc ((j, old) ∷ m) = elim (Bool-cases (str_eq j k)) [
  | inl e ↦ rw e (omega arith)
  | inr e ↦ rw e (omega (arith, waiting_on-insert c k pc m))
]

waiting_on-delete_le :
    (c : ℕ) (k : String) (m : Map PendingCommand) → waiting_on c (delete k m) ≤ waiting_on c m
unfolding waiting_on delete
waiting_on-delete_le c k [] = omega arith
waiting_on-delete_le c k ((j, old) ∷ m) = elim (Bool-cases (str_eq j k)) [
  | inl e ↦ rw e (omega (arith, waiting_on-delete_le c k m))
  | inr e ↦ rw e (omega (arith, waiting_on-delete_le c k m))
]

waiting_on-delete :
    (c : ℕ) (k : String) (pc : PendingCommand) (m : Map PendingCommand)
    → lookup k m ≡ some pc
    → waiting_on c (delete k m) + one_if (pc.result == c) ≤ waiting_on c m
unfolding waiting_on delete lookup
waiting_on-delete c k pc [] h = absurd (ground (arith, h))
waiting_on-delete c k pc ((j, old) ∷ m) h = elim (Bool-cases (str_eq j k)) [
  | inl e ↦
      let same : old ≡ pc = ground (arith, e, h) in
      rw e (ground (arith, same, waiting_on-delete_le c k m))
  | inr e ↦ rw e (ground (arith, waiting_on-delete c k pc m (ground (arith, e, h))))
]

waiting_on-expire :
    (c ttl now : ℕ) (m : Map PendingCommand)
    → waiting_on c (delete_where (is_late ttl now) m) + sent_on c (timeouts ttl now m)
      ≡ waiting_on c m
unfolding waiting_on delete_where timeouts sent_on
waiting_on-expire c ttl now [] = refl
waiting_on-expire c ttl now ((j, pc) ∷ m) = elim (Bool-cases (is_late ttl now pc)) [
  | inl e ↦ rw e (omega (arith, waiting_on-expire c ttl now m))
  | inr e ↦ rw e (omega (arith, waiting_on-expire c ttl now m))
]

sent_on-append :
    (c : ℕ) (xs ys : List (ℕ × CommandResultPayload))
    → sent_on c (xs ++ ys) ≡ sent_on c xs + sent_on c ys
unfolding sent_on
sent_on-append c [] ys = omega arith
sent_on-append c ((d, r) ∷ xs) ys = omega (arith, sent_on-append c xs ys)

track-IsSingle :
    (t : Tracker) (id probe command : String) (level : CapabilityLevel) (now : ℕ)
    → IsSingle t
    → IsSingle (track t id probe command level now).0
unfolding track
track-IsSingle t id probe command level now s =
    let n = track t id probe command level now in
    let pc = n.1 in
    record {
      once = λ c. ground (arith, s.once c, s.unmade c, waiting_on-insert c id pc t.pending);
      unmade = λ c h. ground (arith, s.unmade c, waiting_on-insert c id pc t.pending);
    }

complete-IsSingle :
    (t : Tracker) (id : String) (r : CommandResultPayload)
    → IsSingle t
    → IsSingle (complete t id r).0
unfolding complete sent_on
complete-IsSingle t id r s = elim (Option-cases (lookup id t.pending)) [
  | inl e ↦ rw (e, complete) s
  | inr (pc, e) ↦ record {
    once = λ c. ground (arith, s.once c, waiting_on-delete c id pc t.pending e);
    unmade = λ c h. ground (arith, s.unmade c, waiting_on-delete c id pc t.pending e);
  }
]

cancel-IsSingle : (t : Tracker) (id : String) → IsSingle t → IsSingle (cancel t id)
unfolding cancel closed_on
cancel-IsSingle t id s = elim (Option-cases (lookup id t.pending)) [
  | inl e ↦ rw (e, cancel) s
  | inr (pc, e) ↦ record {
    once = λ c. ground (arith, s.once c, waiting_on-delete c id pc t.pending e);
    unmade = λ c h. ground (arith, s.unmade c, waiting_on-delete c id pc t.pending e);
  }
]

expire-IsSingle : (t : Tracker) (now : ℕ) → IsSingle t → IsSingle (expire t now)
unfolding expire
expire-IsSingle t now s =
    let split = λ (c : ℕ). waiting_on-expire c t.ttl now t.pending in
    let joined = λ (c : ℕ). sent_on-append c (timeouts t.ttl now t.pending) t.sent in
    record {
      once = λ c. omega (arith, s.once c, split c, joined c);
      unmade = λ c h. omega (arith, s.unmade c h, split c, joined c);
    }

-- The calls that change the tracker; the reaper's are `expires`.
pub data Call : Type 0 where
  tracks : String → String → String → CapabilityLevel → ℕ → Call
  completes : String → CommandResultPayload → Call
  cancels : String → Call
  expires : ℕ → Call

unfoldable pub step : Tracker → Call → Tracker
step t (tracks id probe command level now) = (track t id probe command level now).0
step t (completes id r) = (complete t id r).0
step t (cancels id) = cancel t id
step t (expires now) = expire t now

unfoldable pub run : Tracker → List Call → Tracker
run t [] = t
run t (c ∷ cs) = run (step t c) cs

step-IsSingle : (t : Tracker) (c : Call) → IsSingle t → IsSingle (step t c)
unfolding step
step-IsSingle t (tracks id probe command level now) s =
    track-IsSingle t id probe command level now s
step-IsSingle t (completes id r) s = complete-IsSingle t id r s
step-IsSingle t (cancels id) s = cancel-IsSingle t id s
step-IsSingle t (expires now) s = expire-IsSingle t now s

run-IsSingle : (t : Tracker) (cs : List Call) → IsSingle t → IsSingle (run t cs)
unfolding run
run-IsSingle t [] s = s
run-IsSingle t (c ∷ cs) s = run-IsSingle (step t c) cs (step-IsSingle t c s)

-- After any calls on a new tracker, every channel has served at most once: a command waits on it,
-- or one result was sent on it, or it was closed. So no caller gets two results, no send finds a
-- full buffer, and none finds a closed channel.
pub run-new_tracker-IsSingle : (ttl : ℕ) (cs : List Call) → IsSingle (run (new_tracker ttl) cs)
unfolding new_tracker waiting_on sent_on closed_on
run-new_tracker-IsSingle ttl cs =
    run-IsSingle (new_tracker ttl) cs
      (record { once = λ c. omega arith; unmade = λ c h. omega arith })

complete_unknown :
    (t : Tracker) (id : String) (r : CommandResultPayload)
    → lookup id t.pending ≡ none
    → complete t id r ≡ (t, err (no_pending_command id))
unfolding complete
complete_unknown t id r h = rw (h, complete) refl

complete_known :
    (t : Tracker) (id : String) (pc : PendingCommand) (r : CommandResultPayload)
    → lookup id t.pending ≡ some pc
    → complete t id r
      ≡ (record t { pending = delete id t.pending; sent = (pc.result, r) ∷ t.sent }, ok tt)
unfolding complete
complete_known t id pc r h = rw (h, complete) refl

-- Complete delivers the result to the caller who waits under the id, and a second Complete under
-- the id is an error that delivers nothing.
pub complete_once :
    (t : Tracker) (id : String) (pc : PendingCommand) (r r' : CommandResultPayload)
    → lookup id t.pending ≡ some pc
    → ((complete t id r).1 ≡ ok tt)
      × ((complete t id r).0.sent ≡ (pc.result, r) ∷ t.sent)
      × (complete (complete t id r).0 id r' ≡ ((complete t id r).0, err (no_pending_command id)))
complete_once t id pc r r' h =
    let done = complete_known t id pc r h in
    let gone : lookup id (delete id t.pending) ≡ none =
      ground (arith, lookup-delete id id t.pending, eq_refl id) in
    (
      ap (λ x. x.1) done,
      ap (λ x. x.0.sent) done,
      complete_unknown (complete t id r).0 id r' (ap (λ x. lookup id x.0.pending) done ∙ gone),
    )
