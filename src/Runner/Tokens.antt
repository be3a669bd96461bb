-- ===== src/Runner/Tokens.antt =====
-- internal/controlplane/runner/manager.go: the run tokens behind the lifecycle. What a lifecycle
-- call that succeeds has checked, and that its token serves for no other.
use Prim.Native.Char.{Char}
use legator.Common.{
  ℕ, String, true, ◌≡◌, ◌≢◌, refl, sym, ap, subst, ◌∙◌, inl, inr, none, some, List, ok,
  Result-cases, Option-cases, arith,
}
use legator.Common.Text.{trim_space, trim_space_idem}
use legator.Common.Map.{lookup, insert}
use legator.TokenBroker.Store.{TokenTable}
use legator.TokenBroker.Model.{Claims}
use legator.TokenBroker.Broker.{validate}
use legator.TokenBroker.Later.{Later}
use legator.TokenBroker.History.{consumed_refused}
use legator.Runner.Model.{State, Runner, LifecycleRequest, can_transition, audience_target}
use legator.Runner.Calls.{Call, run, run-Goes, lifecycle-tokens}
use legator.Runner.Manager.{
  Manager, check_token, prepare_transition, prepare_runner_lifecycle, complete_runner_lifecycle,
  lifecycle,
}
use legator.Runner.Requests.{lifecycle_check, move_to}

module _ (db : TokenTable) where
  -- What a successful preparation has checked: the runner is there and may make the transition,
  -- and the token was granted for this audience, runner, run and session, and is now consumed.
  pub record IsPrepared (m m' : Manager db) (req : LifecycleRequest) (audience : String)
      (target : State) (now : ℕ) (r : Runner) : Type 0 where
    pub found : lookup (trim_space req.runner_id) m.runners ≡ some r
    pub allowed : can_transition r.state target ≡ true
    pub claims : Claims
    pub granted : (validate db m.tokens (lifecycle_check req audience r) now).1 ≡ ok claims
    pub tokens : m'.tokens ≡ (validate db m.tokens (lifecycle_check req audience r) now).0
    pub runners : m'.runners ≡ m.runners

  check_token_ok :
      (m : Manager db) (req : LifecycleRequest) (audience : String) (target : State) (now : ℕ)
      (r r' : Runner)
      → lookup (trim_space req.runner_id) m.runners ≡ some r
      → (check_token db m req audience target now r).1 ≡ ok r'
      → (r ≡ r')
        × IsPrepared m (check_token db m req audience target now r).0 req audience target now r
  unfolding check_token
  check_token_ok m req audience target now r r' found h =
      elim (Result-cases (validate db m.tokens (lifecycle_check req audience r) now).1) [
        | inr (e, p) ↦ absurd (ground (arith, p))
        | inl (c, p) ↦ (
          ground (arith, p),
          record {
            found = found;
            allowed = ground (arith, p);
            claims = c;
            granted = p;
            tokens = ground (arith, p);
            runners = ground (arith, p);
          },
        )
      ]

  -- A preparation that succeeds has reached the check of the token.
  prepare_transition_reaches :
      (m : Manager db) (req : LifecycleRequest) (audience : String) (target : State) (now : ℕ)
      (r r' : Runner)
      → lookup (trim_space req.runner_id) m.runners ≡ some r
      → (prepare_transition db m req audience target now).1 ≡ ok r'
      → prepare_transition db m req audience target now ≡ check_token db m req audience target now r
  unfolding prepare_transition
  prepare_transition_reaches m req audience target now r r' found h = ground (arith, found)

  prepare_transition_found :
      (m : Manager db) (req : LifecycleRequest) (audience : String) (target : State) (now : ℕ)
      (r' : Runner)
      → (prepare_transition db m req audience target now).1 ≡ ok r'
      → lookup (trim_space req.runner_id) m.runners ≢ none
  unfolding prepare_transition
  prepare_transition_found m req audience target now r' h none_there = ground (arith, none_there)

  prepare_transition_ok :
      (m : Manager db) (req : LifecycleRequest) (audience : String) (target : State) (now : ℕ)
      (r' : Runner)
      → (prepare_transition db m req audience target now).1 ≡ ok r'
      → IsPrepared m (prepare_transition db m req audience target now).0 req audience target now r'
  prepare_transition_ok m req audience target now r' h =
      elim (Option-cases (lookup (trim_space req.runner_id) m.runners)) [
        | inl e ↦ absurd (prepare_transition_found m req audience target now r' h e)
        | inr (r, found) ↦
            let e = prepare_transition_reaches m req audience target now r r' found h in
            let (same, prepared) =
              check_token_ok m req audience target now r r' found (sym (ap (λ x. x.1) e) ∙ h) in
            subst
              (λ x.
                IsPrepared m (prepare_transition db m req audience target now).0 req audience target
                  now x)
              same (subst (λ x. IsPrepared m x.0 req audience target now r) (sym e) prepared)
      ]

  -- What a lifecycle call that succeeds has checked of the manager before, and what it leaves.
  pub record IsMoved (m m' : Manager db) (req : LifecycleRequest) (audience : String)
      (target : State) (checked now : ℕ) (r' : Runner) : Type 0 where
    pub before : Runner
    pub found : lookup (trim_space req.runner_id) m.runners ≡ some before
    pub allowed : can_transition before.state target ≡ true
    pub claims : Claims
    pub granted : (validate db m.tokens (lifecycle_check req audience before) checked).1 ≡ ok claims
    pub tokens : m'.tokens ≡ (validate db m.tokens (lifecycle_check req audience before) checked).0
    pub after : r' ≡ move_to target now before
    pub runners : m'.runners ≡ insert (trim_space req.runner_id) r' m.runners

  complete_ok :
      (m : Manager db) (id : String) (target : State) (now : ℕ) (r r' : Runner)
      → lookup (trim_space id) m.runners ≡ some r
      → (complete_runner_lifecycle db m id target now).1 ≡ ok r'
      → (r' ≡ move_to target now r)
        × ((complete_runner_lifecycle db m id target now).0.runners
            ≡ insert (trim_space id) r' m.runners)
  unfolding complete_runner_lifecycle
  complete_ok m id target now r r' found h =
      let e : r' ≡ move_to target now r = ground (arith, found) in (e, rw e (ground (arith, found)))

  pub prepare_ok :
      (m : Manager db) (req : LifecycleRequest) (audience : String) (target : State) (now : ℕ)
      (r : Runner)
      → audience_target audience ≡ some target
      → (prepare_runner_lifecycle db m req audience now).1 ≡ ok r
      → IsPrepared m (prepare_runner_lifecycle db m req audience now).0 req audience target now r
  unfolding prepare_runner_lifecycle
  prepare_ok m req audience target now r e h =
      let f : prepare_runner_lifecycle db m req audience now
          ≡ prepare_transition db m req audience target now =
        rw (e, prepare_runner_lifecycle) refl in
      subst (λ x. IsPrepared m x.0 req audience target now r) (sym f)
        (prepare_transition_ok m req audience target now r (sym (ap (λ x. x.1) f) ∙ h))

  pub lifecycle_prepared :
      (m : Manager db) (req : LifecycleRequest) (audience : String) (target : State)
      (checked now : ℕ) (r' : Runner)
      → (lifecycle db m req audience target checked now).1 ≡ ok r'
      → (r : Runner) × ((prepare_runner_lifecycle db m req audience checked).1 ≡ ok r)
        × (lifecycle db m req audience target checked now
            ≡ complete_runner_lifecycle db
                (prepare_runner_lifecycle db m req audience checked).0
                req.runner_id
                target
                now)
  unfolding lifecycle
  lifecycle_prepared m req audience target checked now r' h =
      elim (Result-cases (prepare_runner_lifecycle db m req audience checked).1) [
        | inl (r, p) ↦ (r, p, ground (arith, p))
        | inr (e, p) ↦ absurd (ground (arith, p))
      ]

  -- Where the audience is that of the transition, a lifecycle call that succeeds found the runner
  -- in a state that may make the transition, had a token granted for the audience, the runner, the
  -- run and the session, and leaves the token consumed and only this runner changed.
  pub lifecycle-IsMoved :
      (m : Manager db) (req : LifecycleRequest) (audience : String) (target : State)
      (checked now : ℕ) (r' : Runner)
      → audience_target audience ≡ some target
      → (lifecycle db m req audience target checked now).1 ≡ ok r'
      → IsMoved m
          (lifecycle db m req audience target checked now).0
          req
          audience
          target
          checked
          now
          r'
  lifecycle-IsMoved m req audience target checked now r' e h =
      let (r, p, f) = lifecycle_prepared m req audience target checked now r' h in
      let m1 = (prepare_runner_lifecycle db m req audience checked).0 in
      let g = prepare_ok m req audience target checked r e p in
      let found = ap (lookup (trim_space req.runner_id)) g.runners ∙ g.found in
      let (after, changed) =
        complete_ok m1 req.runner_id target now r r' found (sym (ap (λ x. x.1) f) ∙ h) in
      record {
        before = r;
        found = g.found;
        allowed = g.allowed;
        claims = g.claims;
        granted = g.granted;
        tokens = lifecycle-tokens db m req audience target checked now ∙ g.tokens;
        after = after;
        runners =
            ap (λ x. x.0.runners) f ∙ changed ∙ ap (insert (trim_space req.runner_id) r') g.runners;
      }

  -- A run token moves a runner once: after a lifecycle call that succeeded, and any calls of the
  -- manager, no lifecycle call with the same token, trimmed, succeeds, for whatever runner.
  pub run_token_once :
      (lower : Char → Char) (m : Manager db) (req req' : LifecycleRequest)
      (audience audience' : String) (target target' : State) (checked now checked' now' : ℕ)
      (r r' : Runner) (cs : List Call)
      → audience_target audience ≡ some target
      → audience_target audience' ≡ some target'
      → trim_space req'.run_token ≡ trim_space req.run_token
      → (lifecycle db m req audience target checked now).1 ≡ ok r
      → (lifecycle db
          (run db lower (lifecycle db m req audience target checked now).0 cs)
          req'
          audience'
          target'
          checked'
          now').1
        ≢ ok r'
  run_token_once lower m req req' audience audience' target target' checked now checked' now' r r'
        cs e e' same h h' =
      let m1 = (lifecycle db m req audience target checked now).0 in
      let m2 = run db lower m1 cs in
      let x = lifecycle-IsMoved m req audience target checked now r e h in
      let y = lifecycle-IsMoved m2 req' audience' target' checked' now' r' e' h' in
      consumed_refused db m.tokens m2.tokens (lifecycle_check req audience x.before)
        (lifecycle_check req' audience' y.before) checked checked' x.claims y.claims x.granted refl
        (subst (λ b. Later db b m2.tokens) x.tokens (run-Goes db lower m1 cs)) refl
        (trim_space_idem req'.run_token ∙ same ∙ sym (trim_space_idem req.run_token)) y.granted
