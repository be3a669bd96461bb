-- ===== src/Runner/Model.antt =====
-- internal/controlplane/runner/manager.go: runners, requests, errors, and the tables of states and
-- audiences.
use legator.Common.{
  ℕ, String, Bool, true, false, Option, none, some, List, [], ◌∷◌, ◌||◌, str_eq, if◌then◌else◌,
  Result, ok, err,
}
use legator.Common.Text.{trim_space}
use legator.Common.Int.{ℤ, pos, is_negative}
use legator.TokenBroker.Model as Broker

-- A Go string type: `other` stands for every text but the four constants.
pub data State : Type 0 where
  created running stopped destroyed : State
  other : String → State

pub data BackendKind : Type 0 where
  host sandbox : BackendKind

pub record SandboxContract : Type 0 where
  pub image : String
  pub command : List String
  pub timeout_seconds : ℤ

-- `destroyed_at` is `none` for the zero time.
pub record Runner : Type 0 where
  pub id : String
  pub label : String
  pub job_id : String
  pub backend : BackendKind
  pub contract : Option SandboxContract
  pub state : State
  pub created_by : String
  pub session_id : String
  pub workspace_id : String
  pub created_at : ℕ
  pub updated_at : ℕ
  pub destroyed_at : Option ℕ

pub record CreateRequest : Type 0 where
  pub label : String
  pub job_id : String
  pub backend : String
  pub contract : Option SandboxContract
  pub created_by : String
  pub session_id : String
  pub workspace_id : String

pub record IssueTokenRequest : Type 0 where
  pub runner_id : String
  pub job_id : String
  pub audience : String
  pub issuer : String
  pub session_id : String
  pub ttl : ℕ

pub record LifecycleRequest : Type 0 where
  pub runner_id : String
  pub job_id : String
  pub run_token : String
  pub session_id : String

pub data Error : Type 0 where
  session_required audience_required runner_id_required runner_not_found : Error
  invalid_audience : String → Error
  invalid_transition : State → State → Error
  run_token_required run_token_invalid run_token_expired run_token_revoked : Error
  run_token_consumed run_token_scope run_token_session_bound : Error
  invalid_backend : String → Error
  sandbox_command_required sandbox_contract_malformed : Error
  broker_failure : Broker.Error → Error

-- mapTokenBrokerError
unfoldable pub map_token_broker_error : Broker.Error → Error
map_token_broker_error Broker.token_required = run_token_required
map_token_broker_error Broker.token_invalid = run_token_invalid
map_token_broker_error Broker.token_expired = run_token_expired
map_token_broker_error Broker.token_revoked = run_token_revoked
map_token_broker_error Broker.token_consumed = run_token_consumed
map_token_broker_error (Broker.scope_rejected s) = run_token_scope
map_token_broker_error Broker.scope_required = run_token_scope
map_token_broker_error Broker.scopes_required = run_token_scope
map_token_broker_error Broker.run_id_required = run_token_scope
map_token_broker_error Broker.probe_id_required = run_token_scope
map_token_broker_error Broker.audience_required = run_token_scope
map_token_broker_error (Broker.audience_mismatch s) = run_token_scope
map_token_broker_error (Broker.binding_mismatch s) = run_token_scope
map_token_broker_error (Broker.scope_limit_exceeded n m) = run_token_scope
map_token_broker_error Broker.session_mismatch = run_token_session_bound
map_token_broker_error e = broker_failure e

-- canTransition
unfoldable pub can_transition : State → State → Bool
can_transition created running = true
can_transition stopped running = true
can_transition running stopped = true
can_transition created destroyed = true
can_transition running destroyed = true
can_transition stopped destroyed = true
can_transition _ _ = false

abbrev pub audience_runner_start : String
audience_runner_start = "runner:start"

abbrev pub audience_runner_stop : String
audience_runner_stop = "runner:stop"

abbrev pub audience_runner_destroy : String
audience_runner_destroy = "runner:destroy"

abbrev pub audience_runner_provider_proxy : String
audience_runner_provider_proxy = "runner:provider-proxy"

-- audienceTarget
unfoldable pub audience_target : String → Option State
audience_target audience =
    let a = trim_space audience in
    if str_eq a audience_runner_start
    then some running
    else if str_eq a audience_runner_stop
    then some stopped
    else if str_eq a audience_runner_destroy
    then some destroyed
    else none

-- isAllowedAudience
unfoldable pub is_allowed_audience : String → Bool
is_allowed_audience audience =
    let a = trim_space audience in
    str_eq a audience_runner_start
    || str_eq a audience_runner_stop
    || str_eq a audience_runner_destroy
    || str_eq a audience_runner_provider_proxy

-- normalizeBackend
unfoldable pub normalize_backend : String → Result Error BackendKind
normalize_backend b =
    let k = trim_space b in
    if str_eq k "" || str_eq k "host"
    then ok host
    else if str_eq k "sandbox"
    then ok sandbox
    else err (invalid_backend k)

-- The loop of normalizeSandboxContract over the command.
unfoldable pub trimmed_command : List String → List String
trimmed_command [] = []
trimmed_command (part ∷ rest) =
    let trimmed = trim_space part in
    if str_eq trimmed "" then trimmed_command rest else trimmed ∷ trimmed_command rest

abbrev empty_contract : SandboxContract
empty_contract = record { image = ""; command = []; timeout_seconds = pos 0 }

-- normalizeSandboxContract, at a contract that is not nil.
unfoldable pub normalize_contract : SandboxContract → Result Error SandboxContract
unfolding trimmed_command
normalize_contract c = elim (trimmed_command c.command) [
  | [] ↦ err sandbox_command_required
  | part ∷ rest ↦
      if is_negative c.timeout_seconds
      then err sandbox_contract_malformed
      else ok (record {
        image = trim_space c.image;
        command = part ∷ rest;
        timeout_seconds = c.timeout_seconds;
      })
]

abbrev some_contract : Result Error SandboxContract → Result Error (Option SandboxContract)
some_contract (ok c) = ok (some c)
some_contract (err e) = err e

-- normalizeSandboxContract
unfoldable pub normalize_sandbox_contract :
    BackendKind → Option SandboxContract → Result Error (Option SandboxContract)
unfolding normalize_contract
normalize_sandbox_contract host c = ok none
normalize_sandbox_contract sandbox none = some_contract (normalize_contract empty_contract)
normalize_sandbox_contract sandbox (some c) = some_contract (normalize_contract c)
