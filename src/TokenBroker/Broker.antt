-- ===== src/TokenBroker/Broker.antt =====
-- internal/controlplane/tokenbroker/broker.go: the operations of the broker, over a token table.
-- The audit sink is the list of the events emitted, newest first. Each operation holds the mutex
-- where it reads and writes the state, so it is one step; the clock's reading is an argument.
use legator.Common.{
  ℕ, String, Bool, true, false, not, ◌&&◌, Option, none, some, List, [], ◌∷◌, ltb, str_eq,
  if◌then◌else◌, Result, ok, err,
}
use legator.Common.Text.{trim_space}
use legator.Common.Map.{Map, lookup, insert}
use legator.TokenBroker.Store.{TokenState, TokenTable, token_not_found, store_get, mark_consumed}
use legator.TokenBroker.Model.{
  Claims, ValidateRequest, Event, EventType, token_used, token_expire, token_reject, Error,
  token_required, token_invalid, token_expired, token_revoked, token_consumed, scope_required,
  session_mismatch, scope_rejected, audience_mismatch, binding_mismatch, store_error, has_scope,
}

-- The test for a text that is blank once trimmed.
abbrev pub is_blank : String → Bool
is_blank s = str_eq (trim_space s) ""

-- The claims that a row grants.
abbrev pub claims_of : TokenState → Claims
claims_of s = record {
  run_id = s.job_id;
  probe_id = s.runner_id;
  audience = s.audience;
  scopes = s.scope;
  issued_at = s.issued_at;
  expires_at = s.expires_at;
  issuer = s.issuer;
  session_id = s.session_id;
}

abbrev pub event_of : EventType → String → TokenState → String → Option ℕ → Event
event_of type token s reason used = record {
  type = type;
  token = token;
  run_id = s.job_id;
  probe_id = s.runner_id;
  audience = s.audience;
  scopes = s.scope;
  issuer = s.issuer;
  session_id = s.session_id;
  reason = reason;
  issued_at = some s.issued_at;
  expires_at = some s.expires_at;
  used_at = used;
}

-- The event of emitReject for a token that the table does not hold.
abbrev unknown_event : ValidateRequest → String → Event
unknown_event req reason = record {
  type = token_reject;
  token = trim_space req.token;
  run_id = trim_space req.run_id;
  probe_id = trim_space req.probe_id;
  audience = trim_space req.audience;
  scopes = [];
  issuer = "";
  session_id = trim_space req.session_id;
  reason = reason;
  issued_at = none;
  expires_at = none;
  used_at = none;
}

-- The checks of Validate on the scope and the bindings, in order: the reason that is logged and
-- the error, or nothing.
unfoldable pub binding_fault : ValidateRequest → TokenState → Option (String × Error)
binding_fault req s =
    if not (has_scope s.scope (trim_space req.scope))
    then some ("scope_mismatch", scope_rejected (trim_space req.scope))
    else if not (is_blank req.audience)
        && not (str_eq (trim_space req.audience) (trim_space s.audience))
    then some ("audience_mismatch", audience_mismatch (trim_space s.audience))
    else if not (is_blank req.run_id) && not (str_eq (trim_space req.run_id) (trim_space s.job_id))
    then some ("run_binding_mismatch", binding_mismatch s.job_id)
    else if not (is_blank req.probe_id)
        && not (str_eq (trim_space req.probe_id) (trim_space s.runner_id))
    then some ("probe_binding_mismatch", binding_mismatch s.runner_id)
    else if not (is_blank s.session_id)
        && not (str_eq (trim_space s.session_id) (trim_space req.session_id))
    then some ("session_mismatch", session_mismatch)
    else none

abbrev pub is_consumed : TokenState → Bool
is_consumed s = elim s.consumed_at [ none ↦ false | some at ↦ true ]

module _ (db : TokenTable) where
  open db use {Table}

  pub record Broker : Type 0 where
    pub store : Table
    pub revoked : Map ℕ
    pub default_ttl : ℕ
    pub max_scope : ℕ
    pub events : List Event

  unfoldable pub emit : Event → Broker → Broker
  emit e b = record b { events = e ∷ b.events }

  -- `_, _ = b.store.MarkConsumed(token, now)`
  unfoldable pub mark_anyway : Broker → String → ℕ → Broker
  mark_anyway b token now = elim (mark_consumed db b.store token now) [
    | ok (u, n) ↦ record b { store = u }
    | err e ↦ b
  ]

  -- The end of Validate, where the token is good.
  unfoldable pub consume_token :
      Broker → ValidateRequest → String → TokenState → ℕ → Broker × Result Error Claims
  unfolding emit
  consume_token b req token s now = elim req.consume [
    | false ↦ (b, ok (claims_of s))
    | true ↦ elim (mark_consumed db b.store token now) [
      | err e ↦ (b, err store_error)
      | ok (u, false) ↦ (
        emit (event_of token_reject s.token s "token_consumed" s.consumed_at)
            (record b { store = u }),
        err token_consumed,
      )
      | ok (u, true) ↦ (
        emit (event_of token_used token s "" (some now)) (record b { store = u }),
        ok (claims_of s),
      )
    ]
  ]

  -- Validate from the check of the revocations on, at the row of the token.
  unfoldable pub validate_row :
      Broker → ValidateRequest → String → TokenState → ℕ → Broker × Result Error Claims
  unfolding emit mark_anyway consume_token
  validate_row b req token s now = elim (lookup token b.revoked) [
    | some at ↦ (emit (event_of token_reject token s "revoked" (some at)) b, err token_revoked)
    | none ↦
        if is_consumed s && req.consume
        then (
          emit (event_of token_reject s.token s "token_consumed" s.consumed_at) b,
          err token_consumed,
        )
        else if ltb s.expires_at now
        then (
          emit (event_of token_expire token s "expired" (some now)) (mark_anyway b token now),
          err token_expired,
        )
        else elim (binding_fault req s) [
          | some (reason, e) ↦
              (emit (event_of token_reject s.token s reason s.consumed_at) b, err e)
          | none ↦ consume_token b req token s now
        ]
  ]

  -- Validate
  unfoldable pub validate : Broker → ValidateRequest → ℕ → Broker × Result Error Claims
  unfolding emit
  validate b req now =
      let token = trim_space req.token in
      if str_eq token ""
      then (b, err token_required)
      else if is_blank req.scope
      then (b, err scope_required)
      else elim (store_get db b.store token) [
        | err token_not_found ↦ (emit (unknown_event req "invalid_token") b, err token_invalid)
        | err e ↦ (b, err store_error)
        | ok s ↦ validate_row b req token s now
      ]

  -- Revoke
  unfoldable pub revoke : Broker → String → ℕ → Broker × Result Error (Unit {0})
  unfolding emit mark_anyway
  revoke b raw now =
      let token = trim_space raw in
      if str_eq token "" then (b, err token_required) else elim (store_get db b.store token) [
        | err token_not_found ↦ (b, err token_invalid)
        | err e ↦ (b, err store_error)
        | ok s ↦ (
          emit (event_of token_reject token s "revoked" (some now))
              (mark_anyway (record b { revoked = insert token now b.revoked }) token now),
          ok tt,
        )
      ]
