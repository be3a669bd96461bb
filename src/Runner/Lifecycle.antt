-- ===== src/Runner/Lifecycle.antt =====
-- internal/controlplane/runner/manager.go: the states of a runner over any calls of the manager.
use Prim.Native.Char.{Char}
use legator.Common.{
  ℕ, String, ◌≡◌, ◌≢◌, refl, ap, ◌∙◌, inl, inr, some, List, [], ◌∷◌, All, arith, true, false,
}
use legator.Common.Map.{lookup}
use legator.TokenBroker.Store.{TokenTable}
use legator.Runner.Model.{
  State, created, running, stopped, destroyed, other, Runner, can_transition,
}
use legator.Runner.Calls.{
  Call, creates, issues, revokes, validates, prepares, completes, moves, step, run,
}
use legator.Runner.Manager.{Manager}
use legator.Runner.Requests.{or_else, move_to}
use legator.Runner.Follows.{
  Follows, issue_run_token-runners, revoke_run_token-runners, validate_run_token-runners,
  prepare_runner_lifecycle-runners, complete-Follows, create_runner-lookup, keeps-Follows,
  lifecycle-Follows,
}

-- The call does not make a new runner under this id.
abbrev pub Spares : String → Call → Type 0
Spares id (creates req now generated spare) = or_else generated spare ≢ id
Spares id _ = Unit

-- The moves of one runner along the table of transitions.
pub data Evolves : Runner → Runner → Type 0 where
  stays : {r : Runner} → Evolves r r
  moves_on :
      {r r' : Runner} (target : State) (now : ℕ)
      → can_transition r.state target ≡ true
      → Evolves (move_to target now r) r'
      → Evolves r r'

-- Who a runner is: what no move changes.
abbrev pub identity_of : Runner → String × String × String × String × String
identity_of r = (r.id, r.job_id, r.session_id, r.workspace_id, r.created_by)

move_to-identity :
    (target : State) (now : ℕ) (r : Runner) → identity_of (move_to target now r) ≡ identity_of r
unfolding move_to
move_to-identity created now r = refl
move_to-identity running now r = refl
move_to-identity stopped now r = refl
move_to-identity destroyed now r = refl
move_to-identity (other s) now r = refl

module _ (db : TokenTable) where
  step-Follows :
      (lower : Char → Char) (m : Manager db) (c : Call) (k : String) (r : Runner)
      → lookup k m.runners ≡ some r
      → Spares k c
      → Follows r (lookup k (step db lower m c).runners)
  unfolding step
  step-Follows lower m (creates req now id spare) k r h ne =
      inl (create_runner-lookup db lower m req now id spare k ne ∙ h)
  step-Follows lower m (issues req now gen) k r h ne =
      keeps-Follows db m.runners _ k r (issue_run_token-runners db m req now gen) h
  step-Follows lower m (revokes token now) k r h ne =
      keeps-Follows db m.runners _ k r (revoke_run_token-runners db m token now) h
  step-Follows lower m (validates req now) k r h ne =
      keeps-Follows db m.runners _ k r (validate_run_token-runners db m req now) h
  step-Follows lower m (prepares req audience now) k r h ne =
      keeps-Follows db m.runners _ k r (prepare_runner_lifecycle-runners db m req audience now) h
  step-Follows lower m (completes id target now) k r h ne =
      complete-Follows db m id target now k r h
  step-Follows lower m (moves req audience target checked now) k r h ne =
      lifecycle-Follows db m req audience target checked now k r h

  -- Over any calls that create no runner under its id, a runner stays in the manager, and changes
  -- only by moves that the table of transitions allows; its id, job, session, workspace and creator
  -- stay.
  pub run-Evolves :
      (lower : Char → Char) (m : Manager db) (cs : List Call) (k : String) (r : Runner)
      → lookup k m.runners ≡ some r
      → All (Spares k) cs
      → (r' : Runner) × (lookup k (run db lower m cs).runners ≡ some r')
        × Evolves r r'
        × (identity_of r' ≡ identity_of r)
  unfolding run
  run-Evolves lower m [] k r h ne = (r, h, stays, refl)
  run-Evolves lower m (c ∷ cs) k r h (ne, nes) =
      let n = step db lower m c in
      elim (step-Follows lower m c k r h ne) [
        | inl e ↦ run-Evolves lower n cs k r e nes
        | inr (target, now, allowed, e) ↦
            let (r', e', moved, same) = run-Evolves lower n cs k (move_to target now r) e nes in
            (r', e', moves_on target now allowed moved, same ∙ move_to-identity target now r)
      ]

-- No transition leaves `destroyed`.
destroyed_is_stuck : (s : State) → can_transition destroyed s ≡ false
unfolding can_transition
destroyed_is_stuck created = refl
destroyed_is_stuck running = refl
destroyed_is_stuck stopped = refl
destroyed_is_stuck destroyed = refl
destroyed_is_stuck (other s) = refl

destroyed-Evolves : (r r' : Runner) → Evolves r r' → r.state ≡ destroyed → r' ≡ r
destroyed-Evolves r r' stays d = refl
destroyed-Evolves r r' (moves_on target now allowed moved) d =
    absurd (ground (arith, allowed, d, destroyed_is_stuck target))

-- A destroyed runner is never changed again by calls that create no runner under its id.
pub destroyed_is_final :
    (db : TokenTable) (lower : Char → Char) (m : Manager db) (cs : List Call) (k : String)
    (r : Runner)
    → lookup k m.runners ≡ some r
    → r.state ≡ destroyed
    → All (Spares k) cs
    → lookup k (run db lower m cs).runners ≡ some r
destroyed_is_final db lower m cs k r h d ne =
    let (r', e, moved, same) = run-Evolves db lower m cs k r h ne in
    e ∙ ap some (destroyed-Evolves r r' moved d)
