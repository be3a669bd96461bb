-- ===== src/TokenBroker/Validating.antt =====
-- internal/controlplane/tokenbroker/broker.go: what Validate accepts, and what it then leaves.
use legator.Common.{
  ℕ, ◌≤◌, String, true, ◌≡◌, sym, ap, subst, ◌∙◌, ◌⊎◌, none, some, eq_iff, Result, ok, arith,
}
use legator.Common.Text.{trim_space, trim_space_idem}
use legator.Common.Map.{lookup}
use legator.TokenBroker.Store.{TokenState, TokenTable, store_get, mark_consumed}
use legator.TokenBroker.Model.{Claims, ValidateRequest, Error, has_scope}
use legator.TokenBroker.Broker.{
  Broker, validate, binding_fault, claims_of, validate_row, consume_token,
}

-- Two texts agree once trimmed, or the first is blank and asks nothing.
abbrev pub Agrees : String → String → Type 0
Agrees asked held = (trim_space asked ≡ "") ⊎ (trim_space asked ≡ trim_space held)

-- The scope and the bindings that a request names are those of the row.
pub record IsBound (req : ValidateRequest) (s : TokenState) : Type 0 where
  pub in_scope : has_scope s.scope (trim_space req.scope) ≡ true
  pub audience : Agrees req.audience s.audience
  pub run : Agrees req.run_id s.job_id
  pub probe : Agrees req.probe_id s.runner_id
  pub session :
      (trim_space s.session_id ≡ "") ⊎ (trim_space s.session_id ≡ trim_space req.session_id)

binding_fault-IsBound :
    (req : ValidateRequest) (s : TokenState) → binding_fault req s ≡ none → IsBound req s
unfolding binding_fault
binding_fault-IsBound req s h = ground (
  arith,
  eq_iff (trim_space req.audience) "",
  eq_iff (trim_space req.audience) (trim_space s.audience),
  eq_iff (trim_space req.run_id) "",
  eq_iff (trim_space req.run_id) (trim_space s.job_id),
  eq_iff (trim_space req.probe_id) "",
  eq_iff (trim_space req.probe_id) (trim_space s.runner_id),
  eq_iff (trim_space s.session_id) "",
  eq_iff (trim_space s.session_id) (trim_space req.session_id),
)

pub IsBound-binding_fault :
    (req : ValidateRequest) (s : TokenState) → IsBound req s → binding_fault req s ≡ none
unfolding binding_fault
IsBound-binding_fault req s h = ground (
  arith,
  eq_iff (trim_space req.audience) "",
  eq_iff (trim_space req.audience) (trim_space s.audience),
  eq_iff (trim_space req.run_id) "",
  eq_iff (trim_space req.run_id) (trim_space s.job_id),
  eq_iff (trim_space req.probe_id) "",
  eq_iff (trim_space req.probe_id) (trim_space s.runner_id),
  eq_iff (trim_space s.session_id) "",
  eq_iff (trim_space s.session_id) (trim_space req.session_id),
)

module _ (db : TokenTable) where
  open db use {Table, row, select_row, update_row}

  -- What Validate has checked of the row that it grants.
  pub record IsGranted (b : Broker db) (req : ValidateRequest) (now : ℕ) (s : TokenState)
      : Type 0 where
    pub held : row b.store (trim_space req.token) ≡ some s
    pub unrevoked : lookup (trim_space req.token) b.revoked ≡ none
    pub in_time : now ≤ s.expires_at
    pub unconsumed : req.consume ≡ true → s.consumed_at ≡ none
    pub bound : IsBound req s

  pub store_get_row :
      (t : Table) (token : String) (s : TokenState)
      → store_get db t token ≡ ok s
      → row t (trim_space token) ≡ some s
  unfolding store_get
  store_get_row t token s h = ground (arith, db.select_is_row t (trim_space token) (some s))

  consume_token_ok :
      (b : Broker db) (req : ValidateRequest) (token : String) (s : TokenState) (now : ℕ)
      (c : Claims)
      → (consume_token db b req token s now).1 ≡ ok c
      → c ≡ claims_of s
  unfolding consume_token
  consume_token_ok b req token s now c h = ground arith

  -- Validate gets past its checks only to the end of the function.
  validate_row_ok :
      (b : Broker db) (req : ValidateRequest) (token : String) (s : TokenState) (now : ℕ)
      (c : Claims)
      → (validate_row db b req token s now).1 ≡ ok c
      → (lookup token b.revoked ≡ none)
        × (now ≤ s.expires_at)
        × (req.consume ≡ true → s.consumed_at ≡ none)
        × (binding_fault req s ≡ none)
        × (validate_row db b req token s now ≡ consume_token db b req token s now)
  unfolding validate_row
  validate_row_ok b req token s now c h = ground arith

  validate_ok :
      (b : Broker db) (req : ValidateRequest) (now : ℕ) (c : Claims)
      → (validate db b req now).1 ≡ ok c
      → (s : TokenState) × (store_get db b.store (trim_space req.token) ≡ ok s)
        × (validate db b req now ≡ validate_row db b req (trim_space req.token) s now)
  unfolding validate
  validate_ok b req now c h = ground arith

  -- A request that Validate accepts names a row that is not revoked, is in time and not consumed
  -- yet if it is to be consumed, and whose scope and bindings are those of the request; the claims
  -- are those of the row.
  pub validate-IsGranted :
      (b : Broker db) (req : ValidateRequest) (now : ℕ) (c : Claims)
      → (validate db b req now).1 ≡ ok c
      → (s : TokenState) × IsGranted b req now s × (c ≡ claims_of s)
  validate-IsGranted b req now c h =
      let (s, got, e) = validate_ok b req now c h in
      let token = trim_space req.token in
      let h' : (validate_row db b req token s now).1 ≡ ok c =
        sym (ap (λ (x : Broker db × Result Error Claims). x.1) e) ∙ h in
      let (unrevoked, in_time, unconsumed, bound, e') = validate_row_ok b req token s now c h' in
      (
        s,
        record {
          held =
              subst (λ k. row b.store k ≡ some s) (trim_space_idem req.token)
                (store_get_row b.store token s got);
          unrevoked = unrevoked;
          in_time = in_time;
          unconsumed = unconsumed;
          bound = binding_fault-IsBound req s bound;
        },
        consume_token_ok b req token s now c
            (sym (ap (λ (x : Broker db × Result Error Claims). x.1) e') ∙ h'),
      )

  -- Where the request consumes, the row is marked afterwards.
  consume_token-marks :
      (b : Broker db) (req : ValidateRequest) (token : String) (s : TokenState) (now : ℕ)
      (c : Claims)
      → (consume_token db b req token s now).1 ≡ ok c
      → req.consume ≡ true
      → (u : Table) × (mark_consumed db b.store token now ≡ ok (u, true))
        × ((consume_token db b req token s now).0.store ≡ u)
  unfolding consume_token
  consume_token-marks b req token s now c h e = ground arith

  pub validate-marks :
      (b : Broker db) (req : ValidateRequest) (now : ℕ) (c : Claims)
      → (validate db b req now).1 ≡ ok c
      → req.consume ≡ true
      → mark_consumed db b.store (trim_space req.token) now
        ≡ ok ((validate db b req now).0.store, true)
  validate-marks b req now c h e =
      let (s, got, p) = validate_ok b req now c h in
      let token = trim_space req.token in
      let h' : (validate_row db b req token s now).1 ≡ ok c =
        sym (ap (λ (x : Broker db × Result Error Claims). x.1) p) ∙ h in
      let (unrevoked, in_time, unconsumed, bound, p') = validate_row_ok b req token s now c h' in
      let (u, marked, q) =
        consume_token-marks b req token s now c
          (sym (ap (λ (x : Broker db × Result Error Claims). x.1) p') ∙ h') e in
      let r : (validate db b req now).0.store ≡ u =
        ap (λ (x : Broker db × Result Error Claims). x.0.store) (p ∙ p') ∙ q in
      rw r marked
