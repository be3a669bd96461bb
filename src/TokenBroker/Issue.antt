-- ===== src/TokenBroker/Issue.antt =====
-- internal/controlplane/tokenbroker/broker.go: Issue. The token generator is an argument, from the
-- number of the attempt to the text it returns, or `none` for its error.
use legator.Common.{
  ℕ, zero, suc, ◌+◌, String, not, ◌==◌, Option, none, some, ltb, length, str_eq, if◌then◌else◌,
  Result, ok, err,
}
use legator.Common.Text.{trim_space}
use legator.TokenBroker.Store.{TokenState, TokenTable, token_exists, store_insert}
use legator.TokenBroker.Model.{
  IssueRequest, IssuedToken, Error, token_issued, run_id_required, probe_id_required,
  issuer_required, session_mismatch, scopes_required, audience_required, scope_rejected,
  scope_limit_exceeded, generate_failed, empty_token, collisions_exhausted, store_error,
  normalize_scopes, has_scope,
}
use legator.TokenBroker.Broker.{Broker, emit, event_of, claims_of, is_blank}

-- The checks of Issue, in order.
unfoldable pub issue_fault : ℕ → IssueRequest → Option Error
issue_fault max_scope req =
    let scopes = normalize_scopes req.scopes in
    if is_blank req.run_id
    then some run_id_required
    else if is_blank req.probe_id
    then some probe_id_required
    else if is_blank req.issuer
    then some issuer_required
    else if is_blank req.session_id
    then some session_mismatch
    else if is_blank req.audience
    then some audience_required
    else if length scopes == 0
    then some scopes_required
    else if ltb max_scope (length scopes)
    then some (scope_limit_exceeded (length scopes) max_scope)
    else if not (has_scope scopes (trim_space req.audience))
    then some (scope_rejected (trim_space req.audience))
    else none

-- The row that Issue inserts.
unfoldable pub new_row : IssueRequest → ℕ → ℕ → String → TokenState
new_row req default_ttl now token = record {
  token = token;
  scope = normalize_scopes req.scopes;
  audience = trim_space req.audience;
  runner_id = trim_space req.probe_id;
  job_id = trim_space req.run_id;
  issuer = trim_space req.issuer;
  session_id = trim_space req.session_id;
  issued_at = now;
  expires_at = now + (if ltb 0 req.ttl then req.ttl else default_ttl);
  consumed_at = none;
}

abbrev pub max_attempts : ℕ
max_attempts = 5

module _ (db : TokenTable) where
  -- One round of the loop of Issue, on the generator's answer; `none` after a collision.
  unfoldable pub try_token :
      Broker db → IssueRequest → ℕ → Option String → Option (Broker db × Result Error IssuedToken)
  try_token b req now none = some (b, err generate_failed)
  try_token b req now (some generated) =
      let token = trim_space generated in
      let s = new_row req b.default_ttl now token in
      if str_eq token "" then some (b, err empty_token) else elim (store_insert db b.store s) [
        | ok u ↦ some (
          emit db (event_of token_issued token s "" none) (record b { store = u }),
          ok (record { token = token; claims = claims_of s }),
        )
        | err token_exists ↦ none
        | err e ↦ some (b, err store_error)
      ]

  -- The loop of Issue, with the rounds that are left and the number of the next one.
  unfoldable pub issue_attempts :
      Broker db
      → IssueRequest
      → ℕ
      → (ℕ → Option String)
      → ℕ
      → ℕ
      → Broker db × Result Error IssuedToken
  issue_attempts b req now gen zero i = (b, err collisions_exhausted)
  issue_attempts b req now gen (suc left) i = elim (try_token b req now (gen i)) [
    | some x ↦ x
    | none ↦ issue_attempts b req now gen left (suc i)
  ]

  -- Issue
  unfoldable pub issue :
      Broker db → IssueRequest → ℕ → (ℕ → Option String) → Broker db × Result Error IssuedToken
  issue b req now gen = elim (issue_fault b.max_scope req) [
    | some e ↦ (b, err e)
    | none ↦ issue_attempts b req now gen max_attempts 0
  ]
