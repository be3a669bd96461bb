-- ===== src/Runner/Requests.antt =====
-- internal/controlplane/runner/manager.go: the requests that the manager makes of the broker, its
-- answers, and the change of a runner.
use legator.Common.{
  ℕ, ◌-◌, ◌/◌, String, true, not, ◌&&◌, Option, none, some, List, [], ◌∷◌, ltb, str_eq,
  if◌then◌else◌,
}
use legator.Common.Text.{trim_space}
use legator.Common.Map.{Map}
use legator.TokenBroker.Model.{Claims, IssueRequest, IssuedToken, ValidateRequest}
use legator.TokenBroker.Broker.{is_blank}
use legator.Runner.Model.{State, destroyed, Runner, IssueTokenRequest, LifecycleRequest}

-- IssuedToken of this package.
pub record RunToken : Type 0 where
  pub token : String
  pub runner_id : String
  pub job_id : String
  pub audience : String
  pub scopes : List String
  pub issuer : String
  pub issued_at : ℕ
  pub expires_at : ℕ
  pub ttl_seconds : ℕ

-- A request's own text, unless it is blank.
abbrev pub or_else : String → String → String
or_else s fallback = if is_blank s then fallback else trim_space s

-- The `switch` of IssueRunToken on the job ids: the token's, or nothing if they differ.
unfoldable pub token_job_id : String → String → Option String
token_job_id runner_job job =
    if not (str_eq runner_job "") && str_eq job ""
    then some runner_job
    else if not (str_eq runner_job "") && not (str_eq job runner_job)
    then none
    else some job

-- The request that IssueRunToken makes of the broker.
abbrev pub broker_request : IssueTokenRequest → String → ℕ → IssueRequest
broker_request req job default_ttl = record {
  run_id = if str_eq job "" then trim_space req.runner_id else job;
  probe_id = trim_space req.runner_id;
  audience = trim_space req.audience;
  scopes = trim_space req.audience ∷ [];
  issuer = or_else req.issuer (trim_space req.session_id);
  session_id = trim_space req.session_id;
  ttl = if ltb 0 req.ttl then req.ttl else default_ttl;
}

abbrev pub run_token_of : IssueTokenRequest → String → IssuedToken → RunToken
run_token_of req job t = record {
  token = t.token;
  runner_id = trim_space req.runner_id;
  job_id = job;
  audience = trim_space req.audience;
  scopes = t.claims.scopes;
  issuer = t.claims.issuer;
  issued_at = t.claims.issued_at;
  expires_at = t.claims.expires_at;
  ttl_seconds = (t.claims.expires_at - t.claims.issued_at) / 1_000_000_000;
}

-- The check that prepareTransition asks of the broker, for an audience.
abbrev pub lifecycle_check : LifecycleRequest → String → Runner → ValidateRequest
lifecycle_check req audience r = record {
  token = trim_space req.run_token;
  scope = audience;
  audience = audience;
  run_id = or_else r.job_id (trim_space req.runner_id);
  probe_id = trim_space req.runner_id;
  session_id = trim_space req.session_id;
  consume = true;
}

-- The change of CompleteRunnerLifecycle to a runner.
unfoldable pub move_to : State → ℕ → Runner → Runner
move_to destroyed now r = record r { state = destroyed; updated_at = now; destroyed_at = some now }
move_to target now r = record r { state = target; updated_at = now }

-- The loop of WorkspaceForRun.
unfoldable pub find_job : String → Map Runner → Option Runner
find_job job [] = none
find_job job ((id, r) ∷ m) = if str_eq (trim_space r.job_id) job then some r else find_job job m

-- The claims of ValidateRunToken.
abbrev pub trimmed_claims : Claims → Claims
trimmed_claims c = record c {
  run_id = trim_space c.run_id;
  probe_id = trim_space c.probe_id;
  session_id = trim_space c.session_id;
  issuer = trim_space c.issuer;
  audience = trim_space c.audience;
}

-- The request that ValidateRunToken makes of the broker.
abbrev pub broker_check : ValidateRequest → ValidateRequest
broker_check req = record {
  token = trim_space req.token;
  scope = or_else req.scope (trim_space req.audience);
  audience = trim_space req.audience;
  run_id = trim_space req.run_id;
  probe_id = trim_space req.probe_id;
  session_id = trim_space req.session_id;
  consume = req.consume;
}
