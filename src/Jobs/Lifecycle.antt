-- ===== src/Jobs/Lifecycle.antt =====
-- internal/controlplane/jobs/async_store.go: any sequence of the store's statements on one job.
use legator.Common.{
  ℕ, String, Bool, true, false, ◌≡◌, ◌≢◌, ◌⊎◌, refl, sym, ap, ◌∙◌, subst, inl, inr, none, List, [],
  ◌∷◌, eq_iff, Result, ok, err, Bool-cases, arith,
}
use legator.Jobs.State.{
  AsyncJobState, queued, running, waiting_approval, succeeded, failed, expired, cancelled, other,
  is_terminal, is_known_async_job_state, is_same, is_move, can_transition_async_job,
}
use legator.Jobs.Row.{
  AsyncJob, AsyncJobTransitionOptions, Error, set_clauses, transition_async_job, approve_async_job,
  reject_async_job, expire_running_async_job, expire_waiting_approval_async_job,
  extend_approval_expiry,
}

-- The statements that change a row.
pub data Call : Type 0 where
  transitions : AsyncJobState → AsyncJobTransitionOptions → ℕ → Call
  approves : ℕ → Call
  rejects : String → ℕ → Call
  expires_running expires_waiting : String → ℕ → Call
  extends : ℕ → ℕ → Call

-- The row after a statement that may fail.
abbrev kept_or : AsyncJob → Result Error AsyncJob → AsyncJob
kept_or job (ok changed) = changed
kept_or job (err e) = job

-- No statement leads out of a terminal state.
abbrev Stuck : AsyncJobState → Type 0
Stuck s = (to : AsyncJobState) → is_same s to ≡ false → can_transition_async_job s to ≡ false

is_same_eq : (s t : AsyncJobState) → is_same s t ≡ true → s ≡ t
unfolding is_same
is_same_eq queued t h = ground (arith, h)
is_same_eq running t h = ground (arith, h)
is_same_eq waiting_approval t h = ground (arith, h)
is_same_eq succeeded t h = ground (arith, h)
is_same_eq failed t h = ground (arith, h)
is_same_eq expired t h = ground (arith, h)
is_same_eq cancelled t h = ground (arith, h)
is_same_eq (other x) (other y) h = ap other ((eq_iff x y).0 h)
is_same_eq (other x) queued h = absurd (ground (arith, h))
is_same_eq (other x) running h = absurd (ground (arith, h))
is_same_eq (other x) waiting_approval h = absurd (ground (arith, h))
is_same_eq (other x) succeeded h = absurd (ground (arith, h))
is_same_eq (other x) failed h = absurd (ground (arith, h))
is_same_eq (other x) expired h = absurd (ground (arith, h))
is_same_eq (other x) cancelled h = absurd (ground (arith, h))

terminal-Stuck : (s : AsyncJobState) → is_terminal s ≡ true → Stuck s
unfolding is_terminal can_transition_async_job is_move is_known_async_job_state
terminal-Stuck queued h to ne = absurd (ground (arith, h))
terminal-Stuck running h to ne = absurd (ground (arith, h))
terminal-Stuck waiting_approval h to ne = absurd (ground (arith, h))
terminal-Stuck succeeded h to ne = ground (arith, ne)
terminal-Stuck failed h to ne = ground (arith, ne)
terminal-Stuck expired h to ne = ground (arith, ne)
terminal-Stuck cancelled h to ne = ground (arith, ne)
terminal-Stuck (other s) h to ne = absurd (ground (arith, h))

not_terminal :
    (s t : AsyncJobState) → is_terminal s ≡ true → is_terminal t ≡ false → is_same s t ≡ false
not_terminal s t h g = elim (Bool-cases (is_same s t)) [
  | inl e ↦ absurd (ground (arith, h, g, is_same_eq s t e))
  | inr e ↦ e
]

-- The states that a job reaches from another by moves that the table allows.
pub data Reaches : AsyncJobState → AsyncJobState → Type 0 where
  here : {s : AsyncJobState} → Reaches s s
  moves : {s u : AsyncJobState} (t : AsyncJobState) → is_move s t ≡ true → Reaches t u → Reaches s u

-- A job in a terminal state has a time at which it finished.
abbrev pub IsFinished : AsyncJob → Type 0
IsFinished job = (is_terminal job.state ≡ false) ⊎ (job.finished_at ≢ none)

-- The row keeps its state, or moves as the table allows.
abbrev Moves : AsyncJob → AsyncJob → Type 0
Moves job job' = (job'.state ≡ job.state) ⊎ (is_move job.state job'.state ≡ true)

transition-is_move :
    (s t : AsyncJobState)
    → is_same s t ≡ false
    → can_transition_async_job s t ≡ true
    → is_move s t ≡ true
unfolding can_transition_async_job
transition-is_move s t ne h = ground (arith, ne, h)

move_of_same :
    (s t u : AsyncJobState) → is_same s t ≡ true → is_move t u ≡ true → is_move s u ≡ true
move_of_same s t u h g = subst (λ x. is_move x u ≡ true) (sym (is_same_eq s t h)) g

module _ (truncate : String → String) (not_after : ℕ → ℕ → Bool) where
  unfoldable pub step : AsyncJob → Call → AsyncJob
  step job (transitions to opts now) = kept_or job (transition_async_job truncate job to opts now)
  step job (approves now) = kept_or job (approve_async_job job now)
  step job (rejects reason now) = kept_or job (reject_async_job job reason now)
  step job (expires_running reason now) = expire_running_async_job job reason now
  step job (expires_waiting reason now) = expire_waiting_approval_async_job not_after job reason now
  step job (extends expiry now) = extend_approval_expiry job expiry now

  unfoldable pub run : AsyncJob → List Call → AsyncJob
  run job [] = job
  run job (c ∷ cs) = run (step job c) cs

  step_terminal : (job : AsyncJob) (c : Call) → is_terminal job.state ≡ true → step job c ≡ job
  unfolding step transition_async_job approve_async_job reject_async_job expire_running_async_job
      expire_waiting_approval_async_job extend_approval_expiry is_terminal
  step_terminal job (transitions to opts now) h = ground (arith, terminal-Stuck job.state h to)
  step_terminal job (approves now) h =
      ground (arith, not_terminal job.state waiting_approval h refl)
  step_terminal job (rejects reason now) h =
      ground (arith, not_terminal job.state waiting_approval h refl)
  step_terminal job (expires_running reason now) h =
      ground (arith, not_terminal job.state running h refl)
  step_terminal job (expires_waiting reason now) h =
      ground (arith, not_terminal job.state waiting_approval h refl)
  step_terminal job (extends expiry now) h =
      ground (arith, not_terminal job.state waiting_approval h refl)

  -- No statement changes any column of a job that has succeeded, failed, expired or been cancelled.
  pub terminal_is_final :
      (job : AsyncJob) (cs : List Call) → is_terminal job.state ≡ true → run job cs ≡ job
  unfolding run
  terminal_is_final job [] h = refl
  terminal_is_final job (c ∷ cs) h =
      let e = step_terminal job c h in
      terminal_is_final (step job c) cs (subst (λ j. is_terminal j.state ≡ true) (sym e) h) ∙ e

  transition-Moves :
      (job : AsyncJob) (to : AsyncJobState) (opts : AsyncJobTransitionOptions) (now : ℕ)
      → Moves job (kept_or job (transition_async_job truncate job to opts now))
  unfolding transition_async_job set_clauses
  transition-Moves job to opts now = elim (Bool-cases (is_same job.state to)) [
    | inl e ↦ inl (ground (arith, e))
    | inr e ↦ elim (Bool-cases (can_transition_async_job job.state to)) [
      | inl f ↦ elim (Bool-cases (is_known_async_job_state to)) [
        | inl k ↦ inr (ground (arith, e, f, k, transition-is_move job.state to e f))
        | inr k ↦ inl (ground (arith, k))
      ]
      | inr f ↦ inl (ground (arith, e, f))
    ]
  ]

  step-Moves : (job : AsyncJob) (c : Call) → Moves job (step job c)
  unfolding step approve_async_job reject_async_job expire_running_async_job
      expire_waiting_approval_async_job extend_approval_expiry is_move
  step-Moves job (transitions to opts now) = transition-Moves job to opts now
  step-Moves job (approves now) = elim (Bool-cases (is_same job.state waiting_approval)) [
    | inl e ↦ inr (ground (arith, e, move_of_same job.state waiting_approval running e refl))
    | inr e ↦ inl (ground (arith, e))
  ]
  step-Moves job (rejects reason now) = elim (Bool-cases (is_same job.state waiting_approval)) [
    | inl e ↦ inr (ground (arith, e, move_of_same job.state waiting_approval failed e refl))
    | inr e ↦ inl (ground (arith, e))
  ]
  step-Moves job (expires_running reason now) = elim (Bool-cases (is_same job.state running)) [
    | inl e ↦ inr (ground (arith, e, move_of_same job.state running expired e refl))
    | inr e ↦ inl (ground (arith, e))
  ]
  step-Moves job (expires_waiting reason now) =
      elim (Bool-cases (is_same job.state waiting_approval)) [
        | inl e ↦ ground (arith, e, move_of_same job.state waiting_approval expired e refl)
        | inr e ↦ inl (ground (arith, e))
      ]
  step-Moves job (extends expiry now) = inl (ground arith)

  step-IsFinished : (job : AsyncJob) (c : Call) → IsFinished job → IsFinished (step job c)
  unfolding step transition_async_job set_clauses approve_async_job reject_async_job
      expire_running_async_job expire_waiting_approval_async_job extend_approval_expiry is_terminal
  step-IsFinished job (transitions to opts now) h = ground (arith, h)
  step-IsFinished job (approves now) h = ground (arith, h)
  step-IsFinished job (rejects reason now) h = ground (arith, h)
  step-IsFinished job (expires_running reason now) h = ground (arith, h)
  step-IsFinished job (expires_waiting reason now) h = ground (arith, h)
  step-IsFinished job (extends expiry now) h = ground (arith, h)

  -- Whatever statements are executed, a job's state changes only along the table of moves, and a
  -- job in a terminal state has a time at which it finished, if that held at first.
  pub run-Reaches :
      (job : AsyncJob) (cs : List Call)
      → IsFinished job
      → Reaches job.state (run job cs).state × IsFinished (run job cs)
  unfolding run
  run-Reaches job [] f = (here, f)
  run-Reaches job (c ∷ cs) f =
      let (reached, finished) = run-Reaches (step job c) cs (step-IsFinished job c f) in
      elim (step-Moves job c) [
        | inl e ↦ (subst (λ s. Reaches s (run (step job c) cs).state) e reached, finished)
        | inr m ↦ (moves (step job c).state m reached, finished)
      ]
