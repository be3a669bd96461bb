-- ===== src/TokenBroker/History.antt =====
-- internal/controlplane/tokenbroker: any sequence of the broker's calls. What is consumed stays
-- consumed, what is revoked stays revoked, and so a run token serves once.
use legator.Common.{
  ℕ, String, true, ◌≡◌, ◌≢◌, sym, subst, Option, none, some, List, [], ◌∷◌, eq_refl, ok, arith,
}
use legator.Common.Text.{trim_space, trim_space_idem}
use legator.Common.Map.{lookup, insert, lookup-insert_self}
use legator.TokenBroker.Store.{TokenState, TokenTable, consume_at, is_unconsumed, mark_consumed}
use legator.TokenBroker.Model.{Claims, IssueRequest, ValidateRequest}
use legator.TokenBroker.Broker.{Broker, emit, validate, revoke}
use legator.TokenBroker.Issue.{issue}
use legator.TokenBroker.Validating.{validate-IsGranted, validate-marks}
use legator.TokenBroker.Later.{
  is_spent, Later, Later-refl, Later-trans, validate-Later, revoke-Later, issue-Later,
  mark_anyway-revoked,
}

module _ (db : TokenTable) where
  open db use {Table, row, select_row, update_row, insert_row}

  -- The calls that clients make, each with the clock's reading; `issues` with the generator's
  -- answers.
  pub data Call : Type 0 where
    issues : IssueRequest → ℕ → (ℕ → Option String) → Call
    validates : ValidateRequest → ℕ → Call
    revokes : String → ℕ → Call

  pub step : Broker db → Call → Broker db
  step b (issues req now gen) = (issue db b req now gen).0
  step b (validates req now) = (validate db b req now).0
  step b (revokes token now) = (revoke db b token now).0

  pub run : Broker db → List Call → Broker db
  run b [] = b
  run b (c ∷ cs) = run (step b c) cs

  step-Later : (b : Broker db) (c : Call) → Later db b (step b c)
  unfolding step
  step-Later b (issues req now gen) = issue-Later db b req now gen
  step-Later b (validates req now) = validate-Later db b req now
  step-Later b (revokes token now) = revoke-Later db b token now

  -- No calls give back a consumed token, or forget a revocation.
  pub run-Later : (b : Broker db) (cs : List Call) → Later db b (run b cs)
  unfolding run
  run-Later b [] = Later-refl db b
  run-Later b (c ∷ cs) = Later-trans db b (step b c) _ (step-Later b c) (run-Later (step b c) cs)

  consumed_now :
      (at : ℕ) (o : Option TokenState) → is_unconsumed o ≡ true → is_spent (consume_at at o) ≡ true
  consumed_now at none h = cc
  consumed_now at (some s) h = ground arith

  mark_consumed-spent :
      (t : Table) (token : String) (now : ℕ) (u : Table)
      → mark_consumed db t (trim_space token) now ≡ ok (u, true)
      → is_spent (row u (trim_space token)) ≡ true
  unfolding mark_consumed
  mark_consumed-spent t token now u h =
      let k = trim_space token in
      let e : update_row t k now ≡ ok (u, true) =
        subst (λ j. update_row t j now ≡ ok (u, true)) (trim_space_idem token) (ground arith) in
      let unconsumed : is_unconsumed (row t k) ≡ true = sym (db.update_counts t k now u true e) in
      ground
        (arith, db.row-update t k now u true k e, eq_refl k, consumed_now now (row t k) unconsumed)

  -- Once Validate has consumed a token, no later broker accepts a request that consumes it.
  pub consumed_refused :
      (b later : Broker db) (req req' : ValidateRequest) (now now' : ℕ) (c c' : Claims)
      → (validate db b req now).1 ≡ ok c
      → req.consume ≡ true
      → Later db (validate db b req now).0 later
      → req'.consume ≡ true
      → trim_space req'.token ≡ trim_space req.token
      → (validate db later req' now').1 ≢ ok c'
  consumed_refused b later req req' now now' c c' h e l e' same h' =
      let b' = (validate db b req now).0 in
      let spent : is_spent (row b'.store (trim_space req.token)) ≡ true =
        mark_consumed-spent b.store req.token now b'.store (validate-marks db b req now c h e) in
      let (s, g, p) = validate-IsGranted db later req' now' c' h' in
      ground (arith, g.held, g.unconsumed e', l.spent (trim_space req.token) spent, same)

  -- A run token serves once: after Validate has consumed it, and whatever calls come in between,
  -- no request that consumes is accepted for it again.
  pub single_use :
      (b : Broker db) (req req' : ValidateRequest) (now now' : ℕ) (cs : List Call) (c c' : Claims)
      → (validate db b req now).1 ≡ ok c
      → req.consume ≡ true
      → req'.consume ≡ true
      → trim_space req'.token ≡ trim_space req.token
      → (validate db (run (validate db b req now).0 cs) req' now').1 ≢ ok c'
  single_use b req req' now now' cs c c' h e e' =
      let b' = (validate db b req now).0 in
      consumed_refused b (run b' cs) req req' now now' c c' h e (run-Later b' cs) e'

  revoke-revokes :
      (b : Broker db) (token : String) (now : ℕ)
      → (revoke db b token now).1 ≡ ok tt
      → lookup (trim_space token) (revoke db b token now).0.revoked ≢ none
  unfolding revoke emit
  revoke-revokes b token now h = ground (
    arith,
    mark_anyway-revoked db (record b { revoked = insert (trim_space token) now b.revoked })
        (trim_space token) now,
    lookup-insert_self (trim_space token) now b.revoked,
  )

  -- Once Revoke has returned no error, no request is accepted for the token, whatever calls come
  -- in between.
  pub revoked_for_good :
      (b : Broker db) (token : String) (now now' : ℕ) (cs : List Call) (req : ValidateRequest)
      (c : Claims)
      → (revoke db b token now).1 ≡ ok tt
      → trim_space req.token ≡ trim_space token
      → (validate db (run (revoke db b token now).0 cs) req now').1 ≢ ok c
  revoked_for_good b token now now' cs req c h same h' =
      let b' = (revoke db b token now).0 in
      let (s, g, p) = validate-IsGranted db (run b' cs) req now' c h' in
      (run-Later b' cs).revoked (trim_space token) (revoke-revokes b token now h)
        (rw same at g.unrevoked)
