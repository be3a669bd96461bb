-- ===== src/Runner/Manager.antt =====
-- internal/controlplane/runner/manager.go: the manager's operations, over the token broker. Each
-- takes the readings of the clock and the new ids that the code makes.
use Prim.Native.Char.{Char}
use mathlib.Core.Option
use legator.Common.{
  ℕ, String, not, ◌&&◌, Option, none, some, str_eq, if◌then◌else◌, Result, ok, err,
}
use legator.Common.Text.{trim_space, map_chars}
use legator.Common.Map.{Map, lookup, insert}
use legator.TokenBroker.Store.{TokenTable}
use legator.TokenBroker.Model.{Claims, ValidateRequest}
use legator.TokenBroker.Broker.{Broker, validate, revoke, is_blank}
use legator.TokenBroker.Issue.{issue}
use legator.Runner.Model.{
  State, created, running, stopped, destroyed, Runner, CreateRequest, IssueTokenRequest,
  LifecycleRequest, Error, session_required, audience_required, runner_id_required,
  runner_not_found, invalid_audience, invalid_transition, run_token_required, run_token_scope,
  map_token_broker_error, can_transition, audience_target, is_allowed_audience,
  audience_runner_start, audience_runner_stop, audience_runner_destroy, normalize_backend,
  normalize_sandbox_contract,
}
use legator.Runner.Requests.{
  RunToken, or_else, token_job_id, broker_request, run_token_of, lifecycle_check, move_to, find_job,
  trimmed_claims, broker_check,
}

module _ (db : TokenTable) where
  pub record Manager : Type 0 where
    pub runners : Map Runner
    pub run_token_ttl : ℕ
    pub tokens : Broker db

  abbrev Answer : Type 0 → Type 0
  Answer A = Manager × Result Error A

  -- CreateRunner; `generated` is the generator's id, and `fallback` the UUID for a blank one.
  unfoldable pub create_runner :
      (Char → Char) → Manager → CreateRequest → ℕ → String → String → Answer Runner
  create_runner lower m req now generated fallback =
      if is_blank req.session_id
      then (m, err session_required)
      else elim (normalize_backend req.backend) [
        | err e ↦ (m, err e)
        | ok backend ↦ elim (normalize_sandbox_contract backend req.contract) [
          | err e ↦ (m, err e)
          | ok contract ↦
              let r : Runner = record {
                id = or_else generated fallback;
                label = trim_space req.label;
                job_id = trim_space req.job_id;
                backend = backend;
                contract = contract;
                state = created;
                created_by = trim_space req.created_by;
                session_id = trim_space req.session_id;
                workspace_id = map_chars lower (trim_space req.workspace_id);
                created_at = now;
                updated_at = now;
                destroyed_at = none;
              } in
              (record m { runners = insert r.id r m.runners }, ok r)
        ]
      ]

  -- The call of the broker at the end of IssueRunToken.
  unfoldable pub issue_for :
      Manager → IssueTokenRequest → String → ℕ → (ℕ → Option String) → Answer RunToken
  issue_for m req job now gen =
      let (b, result) = issue db m.tokens (broker_request req job m.run_token_ttl) now gen in
      elim result [
        | ok t ↦ (record m { tokens = b }, ok (run_token_of req job t))
        | err e ↦ (record m { tokens = b }, err (map_token_broker_error e))
      ]

  -- IssueRunToken
  unfoldable pub issue_run_token :
      Manager → IssueTokenRequest → ℕ → (ℕ → Option String) → Answer RunToken
  unfolding issue_for
  issue_run_token m req now gen =
      if is_blank req.session_id
      then (m, err session_required)
      else if is_blank req.runner_id
      then (m, err runner_id_required)
      else if is_blank req.audience
      then (m, err audience_required)
      else if not (is_allowed_audience req.audience)
      then (m, err (invalid_audience (trim_space req.audience)))
      else elim (lookup (trim_space req.runner_id) m.runners) [
        | none ↦ (m, err runner_not_found)
        | some r ↦ elim (token_job_id (trim_space r.job_id) (trim_space req.job_id)) [
          | none ↦ (m, err run_token_scope)
          | some job ↦ issue_for m req job now gen
        ]
      ]

  -- RevokeRunToken
  unfoldable pub revoke_run_token : Manager → String → ℕ → Answer (Unit {0})
  revoke_run_token m token now =
      let (b, result) = revoke db m.tokens token now in
      elim result [
        | ok u ↦ (record m { tokens = b }, ok tt)
        | err e ↦ (record m { tokens = b }, err (map_token_broker_error e))
      ]

  -- The end of prepareTransition: the token is consumed, then the transition is tested.
  unfoldable pub check_token :
      Manager → LifecycleRequest → String → State → ℕ → Runner → Answer Runner
  check_token m req audience target now r =
      let (b, result) = validate db m.tokens (lifecycle_check req audience r) now in
      elim result [
        | err e ↦ (record m { tokens = b }, err (map_token_broker_error e))
        | ok claims ↦
            if can_transition r.state target
            then (record m { tokens = b }, ok r)
            else (record m { tokens = b }, err (invalid_transition r.state target))
      ]

  -- prepareTransition
  unfoldable pub prepare_transition :
      Manager → LifecycleRequest → String → State → ℕ → Answer Runner
  prepare_transition m req audience target now =
      if is_blank req.session_id
      then (m, err session_required)
      else if is_blank req.runner_id
      then (m, err runner_id_required)
      else if is_blank req.run_token
      then (m, err run_token_required)
      else elim (lookup (trim_space req.runner_id) m.runners) [
        | none ↦ (m, err runner_not_found)
        | some r ↦
            if not (is_blank req.job_id)
              && (not (is_blank r.job_id)
                  && not (str_eq (trim_space req.job_id) (trim_space r.job_id)))
            then (m, err run_token_scope)
            else check_token m req audience target now r
      ]

  -- PrepareRunnerLifecycle
  unfoldable pub prepare_runner_lifecycle : Manager → LifecycleRequest → String → ℕ → Answer Runner
  prepare_runner_lifecycle m req audience now = elim (audience_target audience) [
    | none ↦ (m, err (invalid_audience audience))
    | some target ↦ prepare_transition m req audience target now
  ]

  -- CompleteRunnerLifecycle
  unfoldable pub complete_runner_lifecycle : Manager → String → State → ℕ → Answer Runner
  complete_runner_lifecycle m runner_id target now =
      let id = trim_space runner_id in
      if str_eq id "" then (m, err runner_id_required) else elim (lookup id m.runners) [
        | none ↦ (m, err runner_not_found)
        | some r ↦
            if can_transition r.state target
            then (
              record m { runners = insert id (move_to target now r) m.runners },
              ok (move_to target now r),
            )
            else (m, err (invalid_transition r.state target))
      ]

  -- The common text of StartRunner, StopRunner and DestroyRunner; no other call comes between its
  -- two critical sections.
  unfoldable pub lifecycle : Manager → LifecycleRequest → String → State → ℕ → ℕ → Answer Runner
  lifecycle m req audience target checked now =
      let (m', result) = prepare_runner_lifecycle m req audience checked in
      elim result [
        | err e ↦ (m', err e)
        | ok r ↦ complete_runner_lifecycle m' req.runner_id target now
      ]

  -- StartRunner
  abbrev pub start_runner : Manager → LifecycleRequest → ℕ → ℕ → Answer Runner
  start_runner m req checked now = lifecycle m req audience_runner_start running checked now

  -- StopRunner
  abbrev pub stop_runner : Manager → LifecycleRequest → ℕ → ℕ → Answer Runner
  stop_runner m req checked now = lifecycle m req audience_runner_stop stopped checked now

  -- DestroyRunner
  abbrev pub destroy_runner : Manager → LifecycleRequest → ℕ → ℕ → Answer Runner
  destroy_runner m req checked now = lifecycle m req audience_runner_destroy destroyed checked now

  -- GetRunner
  unfoldable pub get_runner : Manager → String → Result Error Runner
  get_runner m runner_id =
      let id = trim_space runner_id in
      if str_eq id ""
      then err runner_id_required
      else elim (lookup id m.runners) [ none ↦ err runner_not_found | some r ↦ ok r ]

  -- The call of the broker at the end of ValidateRunToken.
  unfoldable pub validate_with : Manager → ValidateRequest → ℕ → Answer Claims
  validate_with m req now =
      let (b, result) = validate db m.tokens (broker_check req) now in
      elim result [
        | ok c ↦ (record m { tokens = b }, ok (trimmed_claims c))
        | err e ↦ (record m { tokens = b }, err (map_token_broker_error e))
      ]

  -- ValidateRunToken; its request has the fields of the broker's.
  unfoldable pub validate_run_token : Manager → ValidateRequest → ℕ → Answer Claims
  unfolding validate_with
  validate_run_token m req now =
      if is_blank req.token
      then (m, err run_token_required)
      else if is_blank req.session_id
      then (m, err session_required)
      else if is_blank req.audience
      then (m, err audience_required)
      else validate_with m req now

  -- WorkspaceForRun
  unfoldable pub workspace_for_run : (Char → Char) → Manager → String → Option String
  unfolding find_job
  workspace_for_run lower m run_id =
      let id = trim_space run_id in
      let shown = λ (r : Runner). map_chars lower (trim_space r.workspace_id) in
      if str_eq id "" then none else elim (lookup id m.runners) [
        | some r ↦ some (shown r)
        | none ↦ Option.map shown (find_job id m.runners)
      ]
