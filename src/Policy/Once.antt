-- ===== src/Policy/Once.antt =====
-- internal/controlplane/core/approvalpolicy/service.go and approval/queue.go: over any calls on the
-- service, a request's command is sent at most once, and only when its quorum is met.
use Prim.Native.Char.{Char}
use mathlib.Core.Option.{some-injective}
use legator.Common.{
  ℕ, ◌+◌, ◌≤◌, ◌<◌, String, Bool, true, false, ◌&&◌, ◌≡◌, ◌≢◌, ◌⊎◌, refl, sym, ap, ◌∙◌, inl, inr,
  subst, arith, some, List, [], ◌∷◌, length, All, if◌then◌else◌, ok, err, Bool-cases, Result-cases,
  str_eq, eq_iff,
}
use legator.Approval.Request.{
  Decision, Request, Error, approved, is_approved, is_pending, required_approval_count,
}
use legator.Approval.Queue.{Queue, decide, get}
use legator.Approval.Quorum.{IsNamed, AreApart}
use legator.Approval.Deciding.{decide-Accepts}
use legator.Approval.History.{decides, step, IsSoundQueue, step-IsSoundQueue}
use legator.Approval.Finality.{Holds, step-Holds}
use legator.Policy.Dispatch.{
  ApprovalDecisionResult, DecisionHooks, Effect, recorded, decision_result, decided_result,
  dispatch_decided, decide_and_dispatch, decision_hook_error, decision_recorded,
}
use legator.Policy.Dispatching.{
  dispatches_of, dispatches_of-append, Follows-le_one, ServiceCall, decides_and_dispatches,
  other_call, queue_call, SparesId, effects_of, serve, effects-refused, effects-Follows,
  decided_stored,
}

weaken :
    (n : ℕ) (a c s s' : Bool)
    → s ≡ s'
    → n ≤ (if (a && c) && s then 1 else 0)
    → n ≤ (if a && s' then 1 else 0)
weaken n a c s s' e h = ground arith

nothing_sent : (n : ℕ) (a s : Bool) → s ≡ false → n ≤ (if a && s then 1 else 0) → n ≡ 0
nothing_sent n a s e h = ground arith

zero_of_false : (n : ℕ) (b : Bool) → b ≡ false → n ≤ (if b then 1 else 0) → n ≡ 0
zero_of_false n b e h = ground arith

one_of_true : (n : ℕ) (b : Bool) → n ≤ (if b then 1 else 0) → n ≤ 1
one_of_true n b h = ground arith

sent_true : (n : ℕ) (b : Bool) → 0 < n → n ≤ (if b then 1 else 0) → b ≡ true
sent_true n b h k = ground arith

not_sent : (id : String) (es : List Effect) → es ≡ [] → ¬ (0 < dispatches_of id es)
unfolding dispatches_of
not_sent id es e h = ground arith

recorded_only :
    (id : String) (es : List Effect) (n : ℕ) (x : ApprovalDecisionResult)
    → es ≡ recorded x ∷ []
    → n ≡ 0
    → dispatches_of id es + n ≡ 0
unfolding dispatches_of
recorded_only id es n x e h = rw (e, h) (omega arith)

both_true : (a b : Bool) → (a && b) ≡ true → (a ≡ true) × (b ≡ true)
both_true a b h = ground arith

true-ne-false : true ≢ false
true-ne-false h = cc

module _ (fold : Char → Char) (hooks : DecisionHooks) where
  -- A decision sends no command of a request that is not the one it returns, or not approved.
  dispatches-le_decided :
      (q : Queue) (k id : String) (d : Decision) (by : String) (checked now : ℕ) (r : Request)
      → IsSoundQueue fold q
      → (decide fold q k d by checked now).1 ≡ ok r
      → dispatches_of id (decide_and_dispatch fold hooks q k d by checked now).effects
        ≤ (if is_approved r.decision && str_eq k id then 1 else 0)
  unfolding decision_result
  dispatches-le_decided q k id d by checked now r h e =
      let (_, _, same) = decided_stored fold hooks q k d by checked now r h e in
      let bound =
        Follows-le_one id (decision_result r) _
          (effects-Follows fold hooks q k d by checked now r e) in
      weaken _ (is_approved r.decision) _ _ _ (ap (λ x. str_eq x id) same) bound

  -- A decided request is refused by Decide.
  settled_refused :
      (q : Queue) (id : String) (d : Decision) (by : String) (checked now : ℕ) (r : Request)
      → Holds r (get q id)
      → is_pending r.decision ≡ false
      → (e : Error) × ((decide fold q id d by checked now).1 ≡ err e)
  settled_refused q id d by checked now r held decided =
      elim (Result-cases (decide fold q id d by checked now).1) [
        | inr (e, failed) ↦ (e, failed)
        | inl (r', fine) ↦
            let (r0, open_, _, _, _) = decide-Accepts fold q id d by checked now r' fine in
            elim held [
              | inl gone ↦ cc (open_.found)
              | inr there ↦
                  let same = some-injective r0 r (sym open_.found ∙ there) in
                  let undecided = subst (λ x. is_pending x.decision ≡ true) same open_.undecided in
                  absurd (true-ne-false (sym undecided ∙ decided))
            ]
      ]

  settled_effects :
      (q : Queue) (id : String) (r : Request) (c : ServiceCall)
      → IsSoundQueue fold q
      → Holds r (get q id)
      → is_pending r.decision ≡ false
      → dispatches_of id (effects_of fold hooks q c) ≡ 0
  unfolding effects_of dispatches_of
  settled_effects q id r (other_call c) h held decided = refl
  settled_effects q id r (decides_and_dispatches k d by checked now) h held decided =
      elim (Bool-cases (str_eq k id)) [
        | inl same ↦
            let (e, failed) = settled_refused q id d by checked now r held decided in
            rw ((eq_iff k id).0 same, effects-refused fold hooks q id d by checked now e failed)
        | inr apart ↦ elim (Result-cases (decide fold q k d by checked now).1) [
          | inr (e, failed) ↦ rw (effects-refused fold hooks q k d by checked now e failed)
          | inl (r', fine) ↦
              let bound = dispatches-le_decided q k id d by checked now r' h fine in
              nothing_sent _ _ _ apart bound
        ]
      ]

  -- A call sends no command of the request, or it sends one and leaves the request decided.
  first_call :
      (q : Queue) (c : ServiceCall) (id : String)
      → IsSoundQueue fold q
      → (dispatches_of id (effects_of fold hooks q c) ≡ 0)
        ⊎ (r : Request) × (dispatches_of id (effects_of fold hooks q c) ≤ 1)
          × (get (step fold q (queue_call c)) id ≡ some r)
          × (is_pending r.decision ≡ false)
  unfolding effects_of
  first_call q (other_call c) id h = inl (unfold dispatches_of in refl)
  first_call q (decides_and_dispatches k d by checked now) id h =
      elim (Result-cases (decide fold q k d by checked now).1) [
        | inr (e, failed) ↦
            inl (
              unfold dispatches_of in rw (effects-refused fold hooks q k d by checked now e failed))
        | inl (r, fine) ↦
            let bound = dispatches-le_decided q k id d by checked now r h fine in
            let (there, _, _) = decided_stored fold hooks q k d by checked now r h fine in
            elim (Bool-cases (is_approved r.decision && str_eq k id)) [
              | inr silent ↦ inl (zero_of_false _ _ silent bound)
              | inl sends ↦
                  let (a, same) = both_true (is_approved r.decision) (str_eq k id) sends in
                  inr (
                    r,
                    one_of_true _ _ bound,
                    subst (λ x. get (step fold q (decides k d by checked now)) x ≡ some r)
                        ((eq_iff k id).0 same) there,
                    ground arith,
                  )
            ]
      ]

  -- Once a request is decided, no call sends its command.
  settled :
      (q : Queue) (cs : List ServiceCall) (id : String) (r : Request)
      → IsSoundQueue fold q
      → Holds r (get q id)
      → is_pending r.decision ≡ false
      → All (SparesId id) cs
      → dispatches_of id (serve fold hooks q cs) ≡ 0
  unfolding serve dispatches_of
  settled q [] id r h held decided fresh = refl
  settled q (c ∷ cs) id r h held decided fresh =
      let q' = step fold q (queue_call c) in
      omega (
        arith,
        dispatches_of-append id (effects_of fold hooks q c) (serve fold hooks q' cs),
        settled_effects q id r c h held decided,
        settled q' cs id r (step-IsSoundQueue fold q (queue_call c) h)
            (step-Holds fold id r decided q (queue_call c) fresh.0 h held) decided fresh.1,
      )

  -- Over any calls on the service, starting from a sound queue, that reuse no id, the command of
  -- a request is sent to its probe at most once.
  pub dispatched_at_most_once :
      (q : Queue) (cs : List ServiceCall) (id : String)
      → IsSoundQueue fold q
      → All (SparesId id) cs
      → dispatches_of id (serve fold hooks q cs) ≤ 1
  unfolding serve
  dispatched_at_most_once q [] id h fresh = unfold dispatches_of in omega arith
  dispatched_at_most_once q (c ∷ cs) id h fresh =
      let q' = step fold q (queue_call c) in
      let rest =
        dispatched_at_most_once q' cs id (step-IsSoundQueue fold q (queue_call c) h) fresh.1 in
      let whole = dispatches_of-append id (effects_of fold hooks q c) (serve fold hooks q' cs) in
      elim (first_call q c id h) [
        | inl none_sent ↦ omega (arith, rest, whole, none_sent)
        | inr (r, one_sent, there, decided) ↦ omega (
          arith,
          whole,
          one_sent,
          settled q' cs id r (step-IsSoundQueue fold q (queue_call c) h) (inr there) decided
              fresh.1,
        )
      ]

  -- If DecideAndDispatch on a sound queue sends the command of a request, the call named this
  -- request, the queue now holds it as approved, and its approvals meet its quorum: they are as
  -- many as required, by named actors whom EqualFold tells apart.
  pub sent_when_approved :
      (q : Queue) (k id : String) (d : Decision) (by : String) (checked now : ℕ)
      → IsSoundQueue fold q
      → 0 < dispatches_of id (decide_and_dispatch fold hooks q k d by checked now).effects
      → (k ≡ id)
        × (r : Request) × (get (step fold q (decides k d by checked now)) id ≡ some r)
        × (r.decision ≡ approved)
        × (length r.approvals ≡ required_approval_count r)
        × All IsNamed r.approvals
        × AreApart fold r.approvals
  sent_when_approved q k id d by checked now h sent =
      elim (Result-cases (decide fold q k d by checked now).1) [
        | inr (e, failed) ↦
            let none_sent = effects-refused fold hooks q k d by checked now e failed in
            absurd (not_sent id _ none_sent sent)
        | inl (r, fine) ↦
            let bound = dispatches-le_decided q k id d by checked now r h fine in
            let (there, sound, _) = decided_stored fold hooks q k d by checked now r h fine in
            let (a, same) =
              both_true (is_approved r.decision) (str_eq k id) (sent_true _ _ sent bound) in
            let e : k ≡ id = (eq_iff k id).0 same in
            (
              e,
              r,
              subst (λ x. get (step fold q (decides k d by checked now)) x ≡ some r) e there,
              ground arith,
              sound.quorum_met a,
              sound.named,
              sound.apart,
            )
      ]

  -- If a decision approves a request and the hook of the decision then fails, the call reports the
  -- hook's error and sends nothing; and no later call that reuses no id sends the command either.
  pub failed_hook_is_final :
      (q : Queue) (id : String) (d : Decision) (by : String) (checked now : ℕ) (r : Request)
      (message : String) (cs : List ServiceCall)
      → IsSoundQueue fold q
      → (decide fold q id d by checked now).1 ≡ ok r
      → r.decision ≡ approved
      → hooks.on_decision_recorded (decision_result r) ≡ some message
      → All (SparesId id) cs
      → ((decide_and_dispatch fold hooks q id d by checked now).error
          ≡ some (decision_hook_error decision_recorded message))
        × ((decide_and_dispatch fold hooks q id d by checked now).effects
            ≡ recorded (decision_result r) ∷ [])
        × (dispatches_of id (serve fold hooks q (decides_and_dispatches id d by checked now ∷ cs))
            ≡ 0)
  unfolding decide_and_dispatch dispatch_decided decided_result serve effects_of
  failed_hook_is_final q id d by checked now r message cs h fine accepted failed fresh =
      let effects : (decide_and_dispatch fold hooks q id d by checked now).effects
          ≡ recorded (decision_result r) ∷ [] =
        rw (fine, failed) in
      let q' = step fold q (decides id d by checked now) in
      let (there, _, _) = decided_stored fold hooks q id d by checked now r h fine in
      let later =
        settled q' cs id r (step-IsSoundQueue fold q (decides id d by checked now) h) (inr there)
          (rw accepted) fresh in
      (
        rw (fine, failed),
        effects,
        dispatches_of-append id
              (effects_of fold hooks q (decides_and_dispatches id d by checked now)) _
            ∙ recorded_only id _ _ (decision_result r) effects later,
      )
