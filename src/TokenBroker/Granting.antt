-- ===== src/TokenBroker/Granting.antt =====
-- internal/controlplane/tokenbroker/broker.go: what Issue grants, and that Validate honours it.
use legator.Common.{
  ℕ, zero, suc, ◌≤◌, String, true, ◌≡◌, ◌≢◌, refl, subst, inl, inr, Option, none, some, eq_iff,
  eq_refl, Result, ok, Result-cases, Option-cases, arith,
}
use legator.Common.Text.{trim_space, trim_space_idem}
use legator.Common.Map.{lookup}
use legator.TokenBroker.Store.{
  TokenState, TokenTable, is_unconsumed, store_insert, store_get, mark_consumed,
}
use legator.TokenBroker.Model.{Claims, IssueRequest, IssuedToken, ValidateRequest, Error}
use legator.TokenBroker.Broker.{Broker, emit, validate, claims_of, validate_row, consume_token}
use legator.TokenBroker.Issue.{issue, issue_attempts, issue_fault, try_token, new_row, max_attempts}
use legator.TokenBroker.Validating.{IsBound, IsBound-binding_fault}

module _ (db : TokenTable) where
  open db use {Table, row, select_row, update_row, insert_row}

  -- The state after Issue has granted a token: its row is new, and holds what was asked for.
  pub record IsIssued (b c : Broker db) (req : IssueRequest) (now : ℕ) (t : IssuedToken)
      : Type 0 where
    pub named : t.token ≢ ""
    pub trimmed : trim_space t.token ≡ t.token
    pub unused : row b.store t.token ≡ none
    pub held : row c.store t.token ≡ some (new_row req b.default_ttl now t.token)
    pub granted : t.claims ≡ claims_of (new_row req b.default_ttl now t.token)
    pub revoked : c.revoked ≡ b.revoked

  inserted :
      (b : Broker db) (req : IssueRequest) (now : ℕ) (token : String) (u : Table)
      → store_insert db b.store (new_row req b.default_ttl now token) ≡ ok u
      → (row b.store token ≡ none) × (row u token ≡ some (new_row req b.default_ttl now token))
  unfolding store_insert new_row
  inserted b req now token u h =
      let s = new_row req b.default_ttl now token in
      let e : insert_row b.store s ≡ ok u = ground arith in
      (
        db.insert_new b.store s u e,
        ground (arith, db.row-insert b.store s u token e, eq_refl token),
      )

  try_token-IsIssued :
      (b : Broker db) (req : IssueRequest) (now : ℕ) (g : Option String)
      (x : Broker db × Result Error IssuedToken) (t : IssuedToken)
      → try_token db b req now g ≡ some x
      → x.1 ≡ ok t
      → IsIssued b x.0 req now t
  unfolding try_token emit
  try_token-IsIssued b req now none x t h e = absurd (ground arith)
  try_token-IsIssued b req now (some g) x t h e =
      let token = trim_space g in
      let s = new_row req b.default_ttl now token in
      elim (Result-cases (store_insert db b.store s)) [
        | inl (u, f) ↦
            let (unused, held) = inserted b req now token u f in
            let same : t.token ≡ token = ground (arith, f) in
            let put : x.0.store ≡ u = ground (arith, f) in
            record {
              named = ground (arith, eq_iff token "");
              trimmed = rw same (trim_space_idem g);
              unused = rw same unused;
              held = rw (same, put) held;
              granted = rw same (ground (arith, f));
              revoked = ground arith;
            }
        | inr (y, f) ↦ absurd (ground (arith, f))
      ]

  issue_attempts-IsIssued :
      (b : Broker db) (req : IssueRequest) (now : ℕ) (gen : ℕ → Option String) (left i : ℕ)
      (t : IssuedToken)
      → (issue_attempts db b req now gen left i).1 ≡ ok t
      → IsIssued b (issue_attempts db b req now gen left i).0 req now t
  unfolding issue_attempts
  issue_attempts-IsIssued b req now gen zero i t = λ h. cc
  issue_attempts-IsIssued b req now gen (suc left) i t =
      elim (Option-cases (try_token db b req now (gen i))) [
        | inl e ↦ rw (e, issue_attempts) (issue_attempts-IsIssued b req now gen left (suc i) t)
        | inr (x, e) ↦ rw (e, issue_attempts) (try_token-IsIssued b req now (gen i) x t e)
      ]

  -- A token that Issue returns is not blank and new to the table, and its row holds the requested
  -- bindings, the normalized scopes and the expiry; the request has passed every check.
  pub issue-IsIssued :
      (b : Broker db) (req : IssueRequest) (now : ℕ) (gen : ℕ → Option String) (t : IssuedToken)
      → (issue db b req now gen).1 ≡ ok t
      → (issue_fault b.max_scope req ≡ none) × IsIssued b (issue db b req now gen).0 req now t
  unfolding issue
  issue-IsIssued b req now gen t = elim (Option-cases (issue_fault b.max_scope req)) [
    | inl e ↦ rw (e, issue) (λ h. (refl, issue_attempts-IsIssued b req now gen max_attempts 0 t h))
    | inr (x, e) ↦ rw (e, issue) (λ h. cc)
  ]

  -- The statements that Validate executes do not fail on this table.
  pub record Works (t : Table) : Type 0 where
    pub selects : (k : String) → select_row t k ≡ ok (row t k)
    pub updates :
        (k : String) (at : ℕ) → (u : Table) × (update_row t k at ≡ ok (u, is_unconsumed (row t k)))

  store_get_good :
      (t : Table) (token : String) (s : TokenState)
      → Works t
      → row t (trim_space token) ≡ some s
      → store_get db t (trim_space token) ≡ ok s
  unfolding store_get
  store_get_good t token s w held =
      ground (arith, trim_space_idem token, w.selects (trim_space token), held)

  mark_consumed_good :
      (t : Table) (token : String) (now : ℕ) (s : TokenState)
      → Works t
      → row t (trim_space token) ≡ some s
      → s.consumed_at ≡ none
      → (u : Table) × (mark_consumed db t (trim_space token) now ≡ ok (u, true))
  unfolding mark_consumed
  mark_consumed_good t token now s w held unconsumed =
      let (u, e) = w.updates (trim_space token) now in
      let n : is_unconsumed (row t (trim_space token)) ≡ true = rw held (rw unconsumed) in
      (u, ground (arith, trim_space_idem token, e, n))

  -- Validate honours a row that is not revoked, not consumed and in time, for a request that is
  -- bound to it.
  validate_good :
      (b : Broker db) (req : ValidateRequest) (now : ℕ) (s : TokenState)
      → Works b.store
      → trim_space req.token ≢ ""
      → trim_space req.scope ≢ ""
      → row b.store (trim_space req.token) ≡ some s
      → s.consumed_at ≡ none
      → lookup (trim_space req.token) b.revoked ≡ none
      → now ≤ s.expires_at
      → IsBound req s
      → (validate db b req now).1 ≡ ok (claims_of s)
  unfolding validate validate_row consume_token
  validate_good b req now s w named scoped held unconsumed unrevoked in_time bound =
      let got = store_get_good b.store req.token s w held in
      let (u, marked) = mark_consumed_good b.store req.token now s w held unconsumed in
      let fits = IsBound-binding_fault req s bound in
      ground (
        arith,
        eq_iff (trim_space req.token) "",
        eq_iff (trim_space req.scope) "",
        got,
        marked,
        fits,
      )

  -- A token that Issue has returned is accepted by Validate, with the claims that Issue returned,
  -- up to its expiry, from any request that names it with a granted scope and its bindings,
  -- provided that its text is not on the list of revocations and the table's statements work.
  pub issue-validate :
      (b : Broker db) (req : IssueRequest) (now : ℕ) (gen : ℕ → Option String) (t : IssuedToken)
      (vr : ValidateRequest) (later : ℕ)
      → (issue db b req now gen).1 ≡ ok t
      → Works (issue db b req now gen).0.store
      → trim_space vr.token ≡ t.token
      → trim_space vr.scope ≢ ""
      → lookup t.token b.revoked ≡ none
      → later ≤ t.claims.expires_at
      → IsBound vr (new_row req b.default_ttl now t.token)
      → (validate db (issue db b req now gen).0 vr later).1 ≡ ok t.claims
  issue-validate b req now gen t vr later h w same scoped unrevoked in_time bound =
      let (checked, i) = issue-IsIssued b req now gen t h in
      let s = new_row req b.default_ttl now t.token in
      rw i.granted (
        validate_good (issue db b req now gen).0 vr later s w (rw same i.named) scoped
          (rw same i.held) (unfold new_row in refl) (rw (i.revoked, same) unrevoked)
          (subst (λ (c : Claims). later ≤ c.expires_at) i.granted in_time) bound)
