-- ===== src/Runner/Follows.antt =====
-- internal/controlplane/runner/manager.go: what one call of the manager leaves of a runner.
use Prim.Native.Char.{Char}
use legator.Common.{
  ℕ, String, ◌≡◌, ◌≢◌, refl, ap, ◌∙◌, ◌⊎◌, inl, inr, Option, none, some, Result-cases, Bool-cases,
  Option-cases, arith, str_eq, eq_iff, true,
}
use legator.Common.Text.{trim_space, map_chars}
use legator.Common.Map.{Map, lookup, lookup-insert}
use legator.TokenBroker.Store.{TokenTable}
use legator.TokenBroker.Model.{ValidateRequest}
use legator.Runner.Model.{
  State, created, Runner, CreateRequest, IssueTokenRequest, LifecycleRequest, can_transition,
  normalize_backend, normalize_sandbox_contract, audience_target,
}
use legator.Runner.Manager.{
  Manager, create_runner, issue_for, issue_run_token, revoke_run_token, check_token,
  prepare_transition, prepare_runner_lifecycle, complete_runner_lifecycle, lifecycle, validate_with,
  validate_run_token,
}
use legator.Runner.Requests.{or_else, move_to}

-- What is under an id after one call: the runner itself, or the runner moved as the table allows.
abbrev pub Follows : Runner → Option Runner → Type 0
Follows r after =
    (after ≡ some r)
    ⊎ ((target : State) × (now : ℕ) × (can_transition r.state target ≡ true)
        × (after ≡ some (move_to target now r)))

module _ (db : TokenTable) where
  pub issue_run_token-runners :
      (m : Manager db) (req : IssueTokenRequest) (now : ℕ) (gen : ℕ → Option String)
      → (issue_run_token db m req now gen).0.runners ≡ m.runners
  unfolding issue_run_token issue_for
  issue_run_token-runners m req now gen = ground arith

  pub revoke_run_token-runners :
      (m : Manager db) (token : String) (now : ℕ)
      → (revoke_run_token db m token now).0.runners ≡ m.runners
  unfolding revoke_run_token
  revoke_run_token-runners m token now = ground arith

  pub validate_run_token-runners :
      (m : Manager db) (req : ValidateRequest) (now : ℕ)
      → (validate_run_token db m req now).0.runners ≡ m.runners
  unfolding validate_run_token validate_with
  validate_run_token-runners m req now = ground arith

  pub prepare_transition-runners :
      (m : Manager db) (req : LifecycleRequest) (audience : String) (target : State) (now : ℕ)
      → (prepare_transition db m req audience target now).0.runners ≡ m.runners
  unfolding prepare_transition check_token
  prepare_transition-runners m req audience target now = ground arith

  pub prepare_runner_lifecycle-runners :
      (m : Manager db) (req : LifecycleRequest) (audience : String) (now : ℕ)
      → (prepare_runner_lifecycle db m req audience now).0.runners ≡ m.runners
  unfolding prepare_runner_lifecycle
  prepare_runner_lifecycle-runners m req audience now =
      elim (Option-cases (audience_target audience)) [
        | inl e ↦ rw (e, prepare_runner_lifecycle) refl
        | inr (target, e) ↦
            rw (e, prepare_runner_lifecycle) (prepare_transition-runners m req audience target now)
      ]

  pub complete-Follows :
      (m : Manager db) (id : String) (target : State) (now : ℕ) (k : String) (r : Runner)
      → lookup k m.runners ≡ some r
      → Follows r (lookup k (complete_runner_lifecycle db m id target now).0.runners)
  unfolding complete_runner_lifecycle
  complete-Follows m id target now k r h = elim (Bool-cases (str_eq (trim_space id) k)) [
    | inr apart ↦ inl (elim (Option-cases (lookup (trim_space id) m.runners)) [
      | inl e ↦ ground (arith, h)
      | inr (x, e) ↦
          ground (arith, h, lookup-insert (trim_space id) k (move_to target now x) m.runners)
    ])
    | inl same ↦ elim (Bool-cases (can_transition r.state target)) [
      | inr fixed ↦ inl (ground (arith, h, eq_iff (trim_space id) k))
      | inl allowed ↦ elim (Bool-cases (str_eq (trim_space id) "")) [
        | inl blank ↦ inl (ground (arith, h))
        | inr named ↦ inr (
          target,
          now,
          allowed,
          ground (
            arith,
            h,
            eq_iff (trim_space id) k,
            lookup-insert (trim_space id) k (move_to target now r) m.runners,
          ),
        )
      ]
    ]
  ]

  pub create_runner-lookup :
      (lower : Char → Char) (m : Manager db) (req : CreateRequest) (now : ℕ)
      (generated spare k : String)
      → or_else generated spare ≢ k
      → lookup k (create_runner db lower m req now generated spare).0.runners ≡ lookup k m.runners
  unfolding create_runner
  create_runner-lookup lower m req now generated spare k ne =
      elim (Result-cases (normalize_backend req.backend)) [
        | inr (x, e) ↦ ground arith
        | inl (b, e) ↦ elim (Result-cases (normalize_sandbox_contract b req.contract)) [
          | inr (x, f) ↦ ground arith
          | inl (c, f) ↦
              let r : Runner = record {
                id = or_else generated spare;
                label = trim_space req.label;
                job_id = trim_space req.job_id;
                backend = b;
                contract = c;
                state = created;
                created_by = trim_space req.created_by;
                session_id = trim_space req.session_id;
                workspace_id = map_chars lower (trim_space req.workspace_id);
                created_at = now;
                updated_at = now;
                destroyed_at = none;
              } in
              ground (
                arith,
                lookup-insert (or_else generated spare) k r m.runners,
                eq_iff (or_else generated spare) k,
              )
        ]
      ]

  pub keeps-Follows :
      (m n : Map Runner) (k : String) (r : Runner)
      → n ≡ m
      → lookup k m ≡ some r
      → Follows r (lookup k n)
  keeps-Follows m n k r e h = inl (ap (lookup k) e ∙ h)

  pub lifecycle-Follows :
      (m : Manager db) (req : LifecycleRequest) (audience : String) (target : State)
      (checked now : ℕ) (k : String) (r : Runner)
      → lookup k m.runners ≡ some r
      → Follows r (lookup k (lifecycle db m req audience target checked now).0.runners)
  unfolding lifecycle
  lifecycle-Follows m req audience target checked now k r h =
      let n = (prepare_runner_lifecycle db m req audience checked).0 in
      let same = prepare_runner_lifecycle-runners m req audience checked in
      elim (Result-cases (prepare_runner_lifecycle db m req audience checked).1) [
        | inl (x, e) ↦
            rw (e, lifecycle)
              (complete-Follows n req.runner_id target now k r (ap (lookup k) same ∙ h))
        | inr (x, e) ↦ rw (e, lifecycle) (keeps-Follows m.runners n.runners k r same h)
      ]
