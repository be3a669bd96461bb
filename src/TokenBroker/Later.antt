-- ===== src/TokenBroker/Later.antt =====
-- internal/controlplane/tokenbroker: no operation of the broker gives back a consumed token, or
-- forgets a revocation.
use legator.Common.{
  ℕ, zero, suc, String, Bool, true, false, ◌≡◌, ◌≢◌, inl, inr, Option, none, some, str_eq, eq_iff,
  Result, ok, Result-cases, Bool-cases, Option-cases, arith,
}
use legator.Common.Text.{trim_space}
use legator.Common.Map.{lookup, insert, lookup-insert}
use legator.TokenBroker.Store.{
  TokenState, TokenTable, consume_at, store_insert, store_get, mark_consumed,
}
use legator.TokenBroker.Model.{IssueRequest, IssuedToken, ValidateRequest, Error}
use legator.TokenBroker.Broker.{
  Broker, emit, mark_anyway, validate, revoke, is_consumed, validate_row, consume_token,
}
use legator.TokenBroker.Issue.{issue, issue_attempts, issue_fault, try_token, new_row, max_attempts}

-- There is a row, and it is consumed.
abbrev pub is_spent : Option TokenState → Bool
is_spent none = false
is_spent (some s) = is_consumed s

module _ (db : TokenTable) where
  open db use {Table, row, select_row, update_row, insert_row}

  -- No row is lost, given back, or taken from the revocations.
  pub record Later (b c : Broker db) : Type 0 where
    pub spent : (k : String) → is_spent (row b.store k) ≡ true → is_spent (row c.store k) ≡ true
    pub revoked : (k : String) → lookup k b.revoked ≢ none → lookup k c.revoked ≢ none

  pub Later-refl : (b : Broker db) → Later b b
  Later-refl b = record { spent = λ k h. h; revoked = λ k h. h }

  pub Later-trans : (b c d : Broker db) → Later b c → Later c d → Later b d
  Later-trans b c d x y = record {
    spent = λ k h. y.spent k (x.spent k h);
    revoked = λ k h. y.revoked k (x.revoked k h);
  }

  -- An operation on the table that only adds rows or consumes them.
  abbrev Grows : Table → Table → Type 0
  Grows t u = (k : String) → is_spent (row t k) ≡ true → is_spent (row u k) ≡ true

  pub consume_at-spent :
      (at : ℕ) (o : Option TokenState) → is_spent o ≡ true → is_spent (consume_at at o) ≡ true
  consume_at-spent at none h = h
  consume_at-spent at (some s) h = ground arith

  mark_consumed-Grows :
      (t : Table) (token : String) (now : ℕ) (u : Table) (n : Bool)
      → mark_consumed db t token now ≡ ok (u, n)
      → Grows t u
  unfolding mark_consumed
  mark_consumed-Grows t token now u n h k spent =
      let e : update_row t (trim_space token) now ≡ ok (u, n) = ground arith in
      ground (
        arith,
        db.row-update t (trim_space token) now u n k e,
        consume_at-spent now (row t k) spent,
      )

  store_insert-Grows :
      (t : Table) (s : TokenState) (u : Table) → store_insert db t s ≡ ok u → Grows t u
  unfolding store_insert
  store_insert-Grows t s u h k spent =
      let e : insert_row t (record s { consumed_at = none }) ≡ ok u = ground arith in
      ground (
        arith,
        db.row-insert t (record s { consumed_at = none }) u k e,
        db.insert_new t (record s { consumed_at = none }) u e,
        eq_iff s.token k,
      )

  -- A broker that differs in its table and its events only.
  restore-Later : (b c : Broker db) → Grows b.store c.store → c.revoked ≡ b.revoked → Later b c
  restore-Later b c g e = record { spent = g; revoked = λ k h. rw e h }

  mark_anyway-Grows :
      (b : Broker db) (token : String) (now : ℕ) → Grows b.store (mark_anyway db b token now).store
  unfolding mark_anyway
  mark_anyway-Grows b token now k spent = elim (Result-cases (mark_consumed db b.store token now)) [
    | inl ((u, n), e) ↦ ground (arith, mark_consumed-Grows b.store token now u n e k spent)
    | inr (x, e) ↦ ground arith
  ]

  pub mark_anyway-revoked :
      (b : Broker db) (token : String) (now : ℕ) → (mark_anyway db b token now).revoked ≡ b.revoked
  unfolding mark_anyway
  mark_anyway-revoked b token now = ground arith

  consume_token-Grows :
      (b : Broker db) (req : ValidateRequest) (token : String) (s : TokenState) (now : ℕ)
      → Grows b.store (consume_token db b req token s now).0.store
  unfolding consume_token emit
  consume_token-Grows b req token s now k spent =
      elim (Result-cases (mark_consumed db b.store token now)) [
        | inl ((u, n), e) ↦ ground (arith, mark_consumed-Grows b.store token now u n e k spent)
        | inr (x, e) ↦ ground arith
      ]

  consume_token-revoked :
      (b : Broker db) (req : ValidateRequest) (token : String) (s : TokenState) (now : ℕ)
      → (consume_token db b req token s now).0.revoked ≡ b.revoked
  unfolding consume_token emit
  consume_token-revoked b req token s now = ground arith

  validate_row-Later :
      (b : Broker db) (req : ValidateRequest) (token : String) (s : TokenState) (now : ℕ)
      → Later b (validate_row db b req token s now).0
  unfolding validate_row emit
  validate_row-Later b req token s now =
      restore-Later b _
        (λ k spent. ground (
          arith,
          mark_anyway-Grows b token now k spent,
          consume_token-Grows b req token s now k spent,
        ))
        (ground (arith, mark_anyway-revoked b token now, consume_token-revoked b req token s now))

  pub validate-Later :
      (b : Broker db) (req : ValidateRequest) (now : ℕ) → Later b (validate db b req now).0
  unfolding validate emit
  validate-Later b req now = elim (Bool-cases (str_eq (trim_space req.token) "")) [
    | inl blank ↦ rw blank (Later-refl b)
    | inr named ↦ elim (Bool-cases (str_eq (trim_space req.scope) "")) [
      | inl unscoped ↦ rw (named, unscoped) (Later-refl b)
      | inr scoped ↦ elim (Result-cases (store_get db b.store (trim_space req.token))) [
        | inl (s, e) ↦ rw (named, scoped, e) (validate_row-Later b req (trim_space req.token) s now)
        | inr (x, e) ↦ restore-Later b _ (λ k spent. ground arith) (ground arith)
      ]
    ]
  ]

  pub revoke-Later : (b : Broker db) (token : String) (now : ℕ) → Later b (revoke db b token now).0
  unfolding revoke emit
  revoke-Later b token now =
      let token' = trim_space token in
      let c : Broker db = record b { revoked = insert token' now b.revoked } in
      record {
        spent = λ k spent. ground (arith, mark_anyway-Grows c token' now k spent);
        revoked = λ k h.
            ground
              (arith, mark_anyway-revoked c token' now, lookup-insert token' k now b.revoked, h);
      }

  try_token-Grows :
      (b : Broker db) (req : IssueRequest) (now : ℕ) (g : Option String)
      (x : Broker db × Result Error IssuedToken)
      → try_token db b req now g ≡ some x
      → Grows b.store x.0.store
  unfolding try_token emit
  try_token-Grows b req now none x h k spent = ground arith
  try_token-Grows b req now (some g) x h k spent =
      let s = new_row req b.default_ttl now (trim_space g) in
      elim (Result-cases (store_insert db b.store s)) [
        | inl (u, f) ↦ ground (arith, f, store_insert-Grows b.store s u f k spent)
        | inr (y, f) ↦ ground (arith, f)
      ]

  try_token-revoked :
      (b : Broker db) (req : IssueRequest) (now : ℕ) (g : Option String)
      (x : Broker db × Result Error IssuedToken)
      → try_token db b req now g ≡ some x
      → x.0.revoked ≡ b.revoked
  unfolding try_token emit
  try_token-revoked b req now none x h = ground arith
  try_token-revoked b req now (some g) x h = ground arith

  issue_attempts-Later :
      (b : Broker db) (req : IssueRequest) (now : ℕ) (gen : ℕ → Option String) (left i : ℕ)
      → Later b (issue_attempts db b req now gen left i).0
  unfolding issue_attempts
  issue_attempts-Later b req now gen zero i = Later-refl b
  issue_attempts-Later b req now gen (suc left) i =
      elim (Option-cases (try_token db b req now (gen i))) [
        | inl e ↦ rw (e, issue_attempts) (issue_attempts-Later b req now gen left (suc i))
        | inr (x, e) ↦
            rw (e, issue_attempts)
              (restore-Later b x.0 (try_token-Grows b req now (gen i) x e)
                (try_token-revoked b req now (gen i) x e))
      ]

  pub issue-Later :
      (b : Broker db) (req : IssueRequest) (now : ℕ) (gen : ℕ → Option String)
      → Later b (issue db b req now gen).0
  unfolding issue
  issue-Later b req now gen = elim (Option-cases (issue_fault b.max_scope req)) [
    | inl e ↦ rw (e, issue) (issue_attempts-Later b req now gen max_attempts 0)
    | inr (x, e) ↦ rw (e, issue) (Later-refl b)
  ]
