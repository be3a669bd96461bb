-- ===== src/Runner/Spent.antt =====
-- internal/controlplane/runner/manager.go: the row of the run token behind a lifecycle call.
use legator.Common.{
  ℕ, ◌≤◌, String, true, ◌≡◌, ◌≢◌, ◌⊎◌, inl, inr, refl, sym, ap, subst, ◌∙◌, none, some, ok, str_eq,
  eq_iff, eq_refl, arith, if◌then◌else◌, Bool-cases,
}
use legator.Common.Text.{trim_space, trim_space_idem}
use legator.Common.Map.{lookup, insert}
use legator.TokenBroker.Store.{TokenTable, TokenState, mark_consumed, consume_row}
use legator.TokenBroker.Model.{Claims, ValidateRequest, has_scope}
use legator.TokenBroker.Broker.{Broker, validate}
use legator.TokenBroker.Validating.{Agrees, validate-IsGranted, validate-marks}
use legator.Runner.Model.{State, Runner, LifecycleRequest, can_transition, audience_target}
use legator.Runner.Manager.{Manager, prepare_runner_lifecycle, complete_runner_lifecycle, lifecycle}
use legator.Runner.Requests.{lifecycle_check, move_to}
use legator.Runner.Tokens.{lifecycle_prepared, lifecycle-IsMoved}

-- A text that is asked for is the one held.
agrees_named :
    (asked held : String)
    → Agrees asked held
    → trim_space asked ≢ ""
    → trim_space held ≡ trim_space asked
agrees_named asked held (inl blank) h = absurd (h blank)
agrees_named asked held (inr same) h = sym same

audience_named :
    (audience : String) (target : State)
    → audience_target audience ≡ some target
    → trim_space audience ≢ ""
unfolding audience_target
audience_named audience target h blank = let g : none ≡ some target = rw blank at h in ground arith

-- The job of a runner or, if it has none, the runner's id, both trimmed.
abbrev run_of : Runner → String → String
run_of r runner_id =
    if str_eq (trim_space r.job_id) "" then trim_space runner_id else trim_space r.job_id

run_of-trim : (r : Runner) (id : String) → trim_space (run_of r id) ≡ run_of r id
run_of-trim r id = elim (Bool-cases (str_eq (trim_space r.job_id) "")) [
  | inl e ↦ rw e (trim_space_idem id)
  | inr e ↦ rw e (trim_space_idem r.job_id)
]

run_of_named : (r : Runner) (id : String) → trim_space id ≢ "" → run_of r id ≢ ""
run_of_named r id h = elim (Bool-cases (str_eq (trim_space r.job_id) "")) [
  | inl e ↦ rw e h
  | inr e ↦ rw e (λ p. ground (arith, e, p, eq_iff (trim_space r.job_id) ""))
]

consumed_row :
    (now : ℕ) (s : TokenState)
    → s.consumed_at ≡ none
    → consume_row now s ≡ record s { consumed_at = some now }
consumed_row now s h = rw h refl

module _ (db : TokenTable) where
  open db use {Table, row}

  -- What a lifecycle call that succeeds found of the runner and of its token, and what it leaves.
  pub record IsSpent (m m' : Manager db) (req : LifecycleRequest) (audience : String)
      (target : State) (checked now : ℕ) (r' : Runner) : Type 0 where
    pub before : Runner
    pub found : lookup (trim_space req.runner_id) m.runners ≡ some before
    pub allowed : can_transition before.state target ≡ true
    pub token : TokenState
    pub held : row m.tokens.store (trim_space req.run_token) ≡ some token
    pub unrevoked : lookup (trim_space req.run_token) m.tokens.revoked ≡ none
    pub in_time : checked ≤ token.expires_at
    pub unconsumed : token.consumed_at ≡ none
    pub in_scope : has_scope token.scope (trim_space audience) ≡ true
    pub for_audience : trim_space token.audience ≡ trim_space audience
    pub for_run : trim_space token.job_id ≡ run_of before req.runner_id
    pub for_runner : trim_space token.runner_id ≡ trim_space req.runner_id
    pub for_session :
        (trim_space token.session_id ≡ "")
        ⊎ (trim_space token.session_id ≡ trim_space req.session_id)
    pub consumed :
        row m'.tokens.store (trim_space req.run_token)
        ≡ some (record token { consumed_at = some checked })
    pub after : r' ≡ move_to target now before
    pub runners : m'.runners ≡ insert (trim_space req.runner_id) r' m.runners

  mark_consumed-row :
      (t u : Table) (token : String) (now : ℕ) (s : TokenState)
      → mark_consumed db t token now ≡ ok (u, true)
      → row t (trim_space token) ≡ some s
      → row u (trim_space token) ≡ some (consume_row now s)
  unfolding mark_consumed
  mark_consumed-row t u token now s h held = ground (
    arith,
    db.row-update t (trim_space token) now u true (trim_space token),
    eq_refl (trim_space token),
    held,
  )

  -- The row that Validate leaves under a token that it has consumed.
  spent_row :
      (m m' : Manager db) (req : LifecycleRequest) (now : ℕ) (s : TokenState) (c : Claims)
      (check : ValidateRequest)
      → (validate db m.tokens check now).1 ≡ ok c
      → check.consume ≡ true
      → trim_space check.token ≡ trim_space req.run_token
      → m'.tokens ≡ (validate db m.tokens check now).0
      → row m.tokens.store (trim_space req.run_token) ≡ some s
      → s.consumed_at ≡ none
      → row m'.tokens.store (trim_space req.run_token) ≡ some (record s { consumed_at = some now })
  spent_row m m' req now s c check granted e key same held fresh =
      let k : trim_space (trim_space check.token) ≡ trim_space req.run_token =
        trim_space_idem check.token ∙ key in
      let u = (validate db m.tokens check now).0.store in
      let marked =
        mark_consumed-row m.tokens.store u (trim_space check.token) now s
          (validate-marks db m.tokens check now c granted e)
          (subst (λ j. row m.tokens.store j ≡ some s) (sym k) held) in
      ap (λ (b : Broker db). row b.store (trim_space req.run_token)) same
      ∙ subst (λ j. row u j ≡ some (consume_row now s)) k marked
      ∙ ap some (consumed_row now s fresh)

  completed_named :
      (m : Manager db) (id : String) (target : State) (now : ℕ) (r' : Runner)
      → (complete_runner_lifecycle db m id target now).1 ≡ ok r'
      → trim_space id ≢ ""
  unfolding complete_runner_lifecycle
  completed_named m id target now r' h blank = ground (arith, eq_iff (trim_space id) "")

  runner_named :
      (m : Manager db) (req : LifecycleRequest) (audience : String) (target : State)
      (checked now : ℕ) (r' : Runner)
      → (lifecycle db m req audience target checked now).1 ≡ ok r'
      → trim_space req.runner_id ≢ ""
  runner_named m req audience target checked now r' h =
      let (r, p, f) = lifecycle_prepared db m req audience target checked now r' h in
      completed_named (prepare_runner_lifecycle db m req audience checked).0 req.runner_id target
        now r' (sym (ap (λ x. x.1) f) ∙ h)

  -- Where the audience is that of the transition, a lifecycle call that succeeds found the runner in a
  -- state that may make the transition, and the row of its token neither revoked, expired nor
  -- consumed; the row allows the audience as a scope, and names the audience, the runner, the
  -- runner's job (its id if it has none), and the session or none. The call leaves the row consumed
  -- at the time of the check, and of the runners only this one changed.
  pub lifecycle-IsSpent :
      (m : Manager db) (req : LifecycleRequest) (audience : String) (target : State)
      (checked now : ℕ) (r' : Runner)
      → audience_target audience ≡ some target
      → (lifecycle db m req audience target checked now).1 ≡ ok r'
      → IsSpent m
          (lifecycle db m req audience target checked now).0
          req
          audience
          target
          checked
          now
          r'
  lifecycle-IsSpent m req audience target checked now r' e h =
      let moved = lifecycle-IsMoved db m req audience target checked now r' e h in
      let check = lifecycle_check req audience moved.before in
      let (s, g, claims) =
        validate-IsGranted db m.tokens check checked moved.claims moved.granted in
      let m' = (lifecycle db m req audience target checked now).0 in
      let key : trim_space check.token ≡ trim_space req.run_token = trim_space_idem req.run_token in
      let held = subst (λ k. row m.tokens.store k ≡ some s) key g.held in
      let there = runner_named m req audience target checked now r' h in
      let runner_there : trim_space check.probe_id ≢ "" =
        λ p. there (sym (trim_space_idem req.runner_id) ∙ p) in
      let run_there : trim_space check.run_id ≢ "" = λ p.
        run_of_named moved.before req.runner_id there
          (sym (run_of-trim moved.before req.runner_id) ∙ p) in
      record {
        before = moved.before;
        found = moved.found;
        allowed = moved.allowed;
        token = s;
        held = held;
        unrevoked = subst (λ k. lookup k m.tokens.revoked ≡ none) key g.unrevoked;
        in_time = g.in_time;
        unconsumed = g.unconsumed refl;
        in_scope = g.bound.in_scope;
        for_audience =
            agrees_named audience s.audience g.bound.audience (audience_named audience target e);
        for_run =
            agrees_named check.run_id s.job_id g.bound.run run_there
            ∙ run_of-trim moved.before req.runner_id;
        for_runner =
            agrees_named check.probe_id s.runner_id g.bound.probe runner_there
            ∙ trim_space_idem req.runner_id;
        for_session =
            subst (λ k. (trim_space s.session_id ≡ "") ⊎ (trim_space s.session_id ≡ k))
              (trim_space_idem req.session_id) g.bound.session;
        consumed =
            spent_row m m' req checked s moved.claims check moved.granted refl key moved.tokens held
              (g.unconsumed refl);
        after = moved.after;
        runners = moved.runners;
      }
