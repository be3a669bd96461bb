-- ===== src/TokenBroker/Model.antt =====
-- internal/controlplane/tokenbroker/broker.go: requests, claims, events and errors of the broker.
-- Times and lifetimes are numbers of nanoseconds; a lifetime that is not positive is 0.
use legator.Common.{ℕ, String, Bool, Option, List, [], ◌∷◌, some_of, str_eq, if◌then◌else◌}
use legator.Common.Text.{trim_space}

pub record Claims : Type 0 where
  pub run_id : String
  pub probe_id : String
  pub audience : String
  pub scopes : List String
  pub issued_at : ℕ
  pub expires_at : ℕ
  pub issuer : String
  pub session_id : String

pub record IssueRequest : Type 0 where
  pub run_id : String
  pub probe_id : String
  pub audience : String
  pub scopes : List String
  pub issuer : String
  pub session_id : String
  pub ttl : ℕ

pub record IssuedToken : Type 0 where
  pub token : String
  pub claims : Claims

pub record ValidateRequest : Type 0 where
  pub token : String
  pub scope : String
  pub audience : String
  pub run_id : String
  pub probe_id : String
  pub session_id : String
  pub consume : Bool

pub data EventType : Type 0 where
  token_issued token_used token_expire token_reject : EventType

-- `none` is a zero time.
pub record Event : Type 0 where
  pub type : EventType
  pub token : String
  pub run_id : String
  pub probe_id : String
  pub audience : String
  pub scopes : List String
  pub issuer : String
  pub session_id : String
  pub reason : String
  pub issued_at : Option ℕ
  pub expires_at : Option ℕ
  pub used_at : Option ℕ

pub data Error : Type 0 where
  token_required token_invalid token_expired token_revoked token_consumed : Error
  scope_required run_id_required probe_id_required issuer_required session_mismatch : Error
  scopes_required audience_required : Error
  scope_rejected audience_mismatch binding_mismatch : String → Error
  scope_limit_exceeded : ℕ → ℕ → Error
  generate_failed empty_token collisions_exhausted store_error : Error

-- The test of normalizeScopes on the scopes that are kept so far.
unfoldable pub is_seen : String → List String → Bool
is_seen scope seen = some_of (λ s. str_eq s scope) seen

-- The loop of normalizeScopes.
unfoldable pub normalize_from : List String → List String → List String
unfolding is_seen
normalize_from seen [] = []
normalize_from seen (raw ∷ rest) =
    let scope = trim_space raw in
    let skip = normalize_from seen rest in
    let add = scope ∷ normalize_from (scope ∷ seen) rest in
    if str_eq scope "" then skip else if is_seen scope seen then skip else add

-- normalizeScopes
unfoldable pub normalize_scopes : List String → List String
unfolding normalize_from
normalize_scopes raw = normalize_from [] raw

-- hasScope
unfoldable pub has_scope : List String → String → Bool
has_scope scopes scope = some_of (λ granted. str_eq (trim_space granted) (trim_space scope)) scopes
