-- ===== src/TokenBroker/Tests.antt =====
-- internal/controlplane/tokenbroker: a token that is issued, consumed, revoked and refused.
use legator.Common.{ℕ, String, true, ◌≡◌, ◌≢◌, ◌↔◌, refl, inr, Option, some, [], ◌∷◌, ok, arith}
use legator.Common.Text.{trim_space, ne_of_str_eq}
use legator.Common.Map.{lookup, insert}
use legator.TokenBroker.Store.{TokenState, store_insert, store_get, mark_consumed}
use legator.TokenBroker.Model.{
  Claims, IssueRequest, IssuedToken, ValidateRequest, normalize_scopes, has_scope, is_seen,
}
use legator.TokenBroker.Broker.{
  Broker, emit, validate, revoke, validate_row, consume_token, binding_fault, claims_of,
  mark_anyway,
}
use legator.TokenBroker.Issue.{issue, issue_attempts, issue_fault, try_token, new_row}
use legator.TokenBroker.Validating.{IsGranted, validate-IsGranted}
use legator.TokenBroker.History.{run, revokes, single_use, revoked_for_good}
use legator.TokenBroker.Granting.{Works, issue-validate}
use legator.TokenBroker.Scopes.{IsNormal, AreDistinct, normalize_scopes_lem}
use legator.TokenBroker.Memory.{memory, insert_into, update_at}

abbrev empty : Broker memory
empty = record { store = []; revoked = []; default_ttl = 120; max_scope = 8; events = [] }

abbrev wanted : IssueRequest
wanted = record {
  run_id = "run-1";
  probe_id = "runner-1";
  audience = "runner:start";
  scopes = " runner:start " ∷ "runner:start" ∷ [];
  issuer = "ann";
  session_id = "s1";
  ttl = 0;
}

abbrev texts : ℕ → Option String
texts i = some "lgrt_1"

abbrev used : ValidateRequest
used = record {
  token = "lgrt_1";
  scope = "runner:start";
  audience = "runner:start";
  run_id = "run-1";
  probe_id = "runner-1";
  session_id = "s1";
  consume = true;
}

abbrev granted : Claims
granted = record {
  run_id = "run-1";
  probe_id = "runner-1";
  audience = "runner:start";
  scopes = "runner:start" ∷ [];
  issued_at = 10;
  expires_at = 130;
  issuer = "ann";
  session_id = "s1";
}

abbrev issued : IssuedToken
issued = record { token = "lgrt_1"; claims = granted }

abbrev stocked : Broker memory
stocked = (issue memory empty wanted 10 texts).0

issue_runs : (issue memory empty wanted 10 texts).1 ≡ ok issued
unfolding issue issue_attempts try_token issue_fault new_row normalize_scopes has_scope trim_space
    store_insert insert_into lookup insert
issue_runs = refl

validate_runs : (validate memory stocked used 20).1 ≡ ok granted
unfolding issue issue_attempts try_token issue_fault new_row normalize_scopes has_scope trim_space
    store_insert insert_into lookup insert emit validate validate_row consume_token binding_fault
    store_get mark_consumed update_at
validate_runs = refl

validate-IsGranted_example :
    (s : TokenState) × IsGranted memory stocked used 20 s × (granted ≡ claims_of s)
validate-IsGranted_example = validate-IsGranted memory stocked used 20 granted validate_runs

single_use_example :
    (validate memory
      (run memory (validate memory stocked used 20).0 (revokes "other" 25 ∷ []))
      used
      30).1
    ≢ ok granted
single_use_example =
    single_use memory stocked used used 20 30 (revokes "other" 25 ∷ []) granted granted
      validate_runs refl refl refl

revoke_runs : (revoke memory stocked "lgrt_1" 15).1 ≡ ok tt
unfolding issue issue_attempts try_token issue_fault new_row normalize_scopes has_scope trim_space
    store_insert insert_into lookup insert emit revoke mark_anyway store_get
revoke_runs = refl

revoked_for_good_example :
    (validate memory (run memory (revoke memory stocked "lgrt_1" 15).0 []) used 20).1 ≢ ok granted
revoked_for_good_example =
    revoked_for_good memory stocked "lgrt_1" 15 20 [] used granted revoke_runs refl

stocked-Works : Works memory stocked.store
stocked-Works = record { selects = λ k. refl; updates = λ k at. (update_at _ k at, refl) }

issue-validate_example : (validate memory stocked used 130).1 ≡ ok granted
unfolding trim_space new_row normalize_scopes has_scope lookup
issue-validate_example =
    issue-validate memory empty wanted 10 texts issued used 130 issue_runs stocked-Works refl
      (ne_of_str_eq "runner:start" "" refl) refl (omega arith)
      (record {
        in_scope = refl;
        audience = inr refl;
        run = inr refl;
        probe = inr refl;
        session = inr refl;
      })

normalize_scopes_lem_example :
    AreDistinct (normalize_scopes (" a" ∷ "a" ∷ "" ∷ []))
    × ((is_seen "a" (normalize_scopes (" a" ∷ "a" ∷ "" ∷ [])) ≡ true)
        ↔ (IsNormal "a" × (has_scope (" a" ∷ "a" ∷ "" ∷ []) "a" ≡ true)))
normalize_scopes_lem_example = normalize_scopes_lem (" a" ∷ "a" ∷ "" ∷ []) "a"
