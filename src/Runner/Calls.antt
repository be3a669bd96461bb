-- ===== src/Runner/Calls.antt =====
-- internal/controlplane/runner/manager.go: any sequence of the manager's calls, and what they do
-- to the broker and to the runners.
use Prim.Native.Char.{Char}
use legator.Common.{
  ℕ, String, ◌≡◌, sym, subst, inl, inr, Option, List, [], ◌∷◌, Option-cases, arith,
}
use legator.Common.Text.{trim_space}
use legator.Common.Map.{lookup}
use legator.TokenBroker.Store.{TokenTable}
use legator.TokenBroker.Model.{ValidateRequest}
use legator.TokenBroker.Broker.{Broker, validate, revoke}
use legator.TokenBroker.Issue.{issue}
use legator.TokenBroker.Later.{
  Later, Later-refl, Later-trans, validate-Later, revoke-Later, issue-Later,
}
use legator.Runner.Model.{
  State, Runner, CreateRequest, IssueTokenRequest, LifecycleRequest, audience_target,
}
use legator.Runner.Manager.{
  Manager, create_runner, issue_for, issue_run_token, revoke_run_token, check_token,
  prepare_transition, prepare_runner_lifecycle, complete_runner_lifecycle, lifecycle, validate_with,
  validate_run_token,
}
use legator.Runner.Requests.{broker_request, broker_check, lifecycle_check, token_job_id}

-- The calls of the manager that change its state, each with the clock's readings; `moves` is the
-- common text of StartRunner, StopRunner and DestroyRunner.
pub data Call : Type 0 where
  creates : CreateRequest → ℕ → String → String → Call
  issues : IssueTokenRequest → ℕ → (ℕ → Option String) → Call
  revokes : String → ℕ → Call
  validates : ValidateRequest → ℕ → Call
  prepares : LifecycleRequest → String → ℕ → Call
  completes : String → State → ℕ → Call
  moves : LifecycleRequest → String → State → ℕ → ℕ → Call

module _ (db : TokenTable) (lower : Char → Char) where
  unfoldable pub step : Manager db → Call → Manager db
  step m (creates req now id spare) = (create_runner db lower m req now id spare).0
  step m (issues req now gen) = (issue_run_token db m req now gen).0
  step m (revokes token now) = (revoke_run_token db m token now).0
  step m (validates req now) = (validate_run_token db m req now).0
  step m (prepares req audience now) = (prepare_runner_lifecycle db m req audience now).0
  step m (completes id target now) = (complete_runner_lifecycle db m id target now).0
  step m (moves req audience target checked now) =
      (lifecycle db m req audience target checked now).0

  unfoldable pub run : Manager db → List Call → Manager db
  run m [] = m
  run m (c ∷ cs) = run (step m c) cs

module _ (db : TokenTable) where
  -- A manager whose broker is the one before, or a later one.
  abbrev pub Goes : Manager db → Manager db → Type 0
  Goes m n = Later db m.tokens n.tokens

  Later-of_eq : (b c : Broker db) → c ≡ b → Later db b c
  Later-of_eq b c e = subst (λ x. Later db b x) (sym e) (Later-refl db b)

  create_runner-Goes :
      (lower : Char → Char) (m : Manager db) (req : CreateRequest) (now : ℕ) (id spare : String)
      → Goes m (create_runner db lower m req now id spare).0
  unfolding create_runner
  create_runner-Goes lower m req now id spare = Later-of_eq m.tokens _ (ground arith)

  issue_for-tokens :
      (m : Manager db) (req : IssueTokenRequest) (job : String) (now : ℕ) (gen : ℕ → Option String)
      → (issue_for db m req job now gen).0.tokens
        ≡ (issue db m.tokens (broker_request req job m.run_token_ttl) now gen).0
  unfolding issue_for
  issue_for-tokens m req job now gen = ground arith

  issue_for-Goes :
      (m : Manager db) (req : IssueTokenRequest) (job : String) (now : ℕ) (gen : ℕ → Option String)
      → Goes m (issue_for db m req job now gen).0
  issue_for-Goes m req job now gen =
      subst (λ b. Later db m.tokens b) (sym (issue_for-tokens m req job now gen))
        (issue-Later db m.tokens (broker_request req job m.run_token_ttl) now gen)

  issue_run_token-Goes :
      (m : Manager db) (req : IssueTokenRequest) (now : ℕ) (gen : ℕ → Option String)
      → Goes m (issue_run_token db m req now gen).0
  unfolding issue_run_token
  issue_run_token-Goes m req now gen =
      elim (Option-cases (lookup (trim_space req.runner_id) m.runners)) [
        | inl e ↦ Later-of_eq m.tokens _ (ground arith)
        | inr (r, e) ↦
            elim (Option-cases (token_job_id (trim_space r.job_id) (trim_space req.job_id))) [
              | inl f ↦ Later-of_eq m.tokens _ (ground arith)
              | inr (job, f) ↦
                  let l = issue_for-Goes m req job now gen in
                  record {
                    spent = λ k h. ground (arith, l.spent k h);
                    revoked = λ k h. ground (arith, l.revoked k h);
                  }
            ]
      ]

  revoke_run_token-tokens :
      (m : Manager db) (token : String) (now : ℕ)
      → (revoke_run_token db m token now).0.tokens ≡ (revoke db m.tokens token now).0
  unfolding revoke_run_token
  revoke_run_token-tokens m token now = ground arith

  validate_with-tokens :
      (m : Manager db) (req : ValidateRequest) (now : ℕ)
      → (validate_with db m req now).0.tokens ≡ (validate db m.tokens (broker_check req) now).0
  unfolding validate_with
  validate_with-tokens m req now = ground arith

  check_token-tokens :
      (m : Manager db) (req : LifecycleRequest) (audience : String) (target : State) (now : ℕ)
      (r : Runner)
      → (check_token db m req audience target now r).0.tokens
        ≡ (validate db m.tokens (lifecycle_check req audience r) now).0
  unfolding check_token
  check_token-tokens m req audience target now r = ground arith

  revoke_run_token-Goes :
      (m : Manager db) (token : String) (now : ℕ) → Goes m (revoke_run_token db m token now).0
  revoke_run_token-Goes m token now =
      subst (λ b. Later db m.tokens b) (sym (revoke_run_token-tokens m token now))
        (revoke-Later db m.tokens token now)

  validate_run_token-Goes :
      (m : Manager db) (req : ValidateRequest) (now : ℕ)
      → Goes m (validate_run_token db m req now).0
  unfolding validate_run_token
  validate_run_token-Goes m req now =
      let l = validate-Later db m.tokens (broker_check req) now in
      let e = validate_with-tokens m req now in
      record {
        spent = λ k h. ground (arith, l.spent k h, e);
        revoked = λ k h. ground (arith, l.revoked k h, e);
      }

  prepare_transition-Goes :
      (m : Manager db) (req : LifecycleRequest) (audience : String) (target : State) (now : ℕ)
      → Goes m (prepare_transition db m req audience target now).0
  unfolding prepare_transition
  prepare_transition-Goes m req audience target now =
      elim (Option-cases (lookup (trim_space req.runner_id) m.runners)) [
        | inl e ↦ Later-of_eq m.tokens _ (ground arith)
        | inr (r, e) ↦
            let l = validate-Later db m.tokens (lifecycle_check req audience r) now in
            let f = check_token-tokens m req audience target now r in
            record {
              spent = λ k h. ground (arith, l.spent k h, f);
              revoked = λ k h. ground (arith, l.revoked k h, f);
            }
      ]

  prepare_runner_lifecycle-Goes :
      (m : Manager db) (req : LifecycleRequest) (audience : String) (now : ℕ)
      → Goes m (prepare_runner_lifecycle db m req audience now).0
  unfolding prepare_runner_lifecycle
  prepare_runner_lifecycle-Goes m req audience now =
      elim (Option-cases (audience_target audience)) [
        | inl e ↦ Later-of_eq m.tokens _ (ground arith)
        | inr (target, e) ↦
            rw (e, prepare_runner_lifecycle) (prepare_transition-Goes m req audience target now)
      ]

  pub complete_runner_lifecycle-tokens :
      (m : Manager db) (id : String) (target : State) (now : ℕ)
      → (complete_runner_lifecycle db m id target now).0.tokens ≡ m.tokens
  unfolding complete_runner_lifecycle
  complete_runner_lifecycle-tokens m id target now = ground arith

  pub lifecycle-tokens :
      (m : Manager db) (req : LifecycleRequest) (audience : String) (target : State)
      (checked now : ℕ)
      → (lifecycle db m req audience target checked now).0.tokens
        ≡ (prepare_runner_lifecycle db m req audience checked).0.tokens
  unfolding lifecycle
  lifecycle-tokens m req audience target checked now = ground (
    arith,
    complete_runner_lifecycle-tokens (prepare_runner_lifecycle db m req audience checked).0
        req.runner_id target now,
  )

  step-Goes : (lower : Char → Char) (m : Manager db) (c : Call) → Goes m (step db lower m c)
  unfolding step
  step-Goes lower m (creates req now id spare) = create_runner-Goes lower m req now id spare
  step-Goes lower m (issues req now gen) = issue_run_token-Goes m req now gen
  step-Goes lower m (revokes token now) = revoke_run_token-Goes m token now
  step-Goes lower m (validates req now) = validate_run_token-Goes m req now
  step-Goes lower m (prepares req audience now) = prepare_runner_lifecycle-Goes m req audience now
  step-Goes lower m (completes id target now) =
      Later-of_eq m.tokens _ (complete_runner_lifecycle-tokens m id target now)
  step-Goes lower m (moves req audience target checked now) =
      subst (λ b. Later db m.tokens b) (sym (lifecycle-tokens m req audience target checked now))
        (prepare_runner_lifecycle-Goes m req audience checked)

  -- No calls of the manager give back a consumed token, or forget a revocation.
  pub run-Goes :
      (lower : Char → Char) (m : Manager db) (cs : List Call) → Goes m (run db lower m cs)
  unfolding run
  run-Goes lower m [] = Later-refl db m.tokens
  run-Goes lower m (c ∷ cs) =
      let n = step db lower m c in
      Later-trans db m.tokens n.tokens _ (step-Goes lower m c) (run-Goes lower n cs)
