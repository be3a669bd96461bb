-- ===== src/Jobs/Runs.antt =====
-- internal/controlplane/jobs/async_scheduler.go and async_manager.go: any sequence of drains, dispatches,
-- creations and transitions to terminal states.
use Prim.Native.Char.{Char}
use legator.Common.{
  ℕ, String, Bool, true, false, ◌≡◌, Option, List, [], ◌∷◌, arith, All, some_of, keep,
}
use legator.Common.Text.{trim_space}
use legator.Jobs.State.{
  AsyncJobState, queued, running, is_same, is_terminal, is_known_async_job_state,
}
use legator.Jobs.Row.{AsyncJob, AsyncJobTransitionOptions}
use legator.Jobs.Table.{Table, transition_job}
use legator.Jobs.Drain.{Limits, drain_queued}
use legator.Jobs.Scheduler.{dispatch_now, create_job}
use legator.Jobs.Limits.{IsWithin, drain_queued-IsWithin}
use legator.Jobs.InFlight.{finish-IsWithin, create_job-IsWithin, dispatch_now-IsWithin}

-- A call: of the scheduler's loop, of DispatchNow with what the dispatcher does, of CreateJob, or of
-- TransitionAsyncJob.
pub data SchedulerCall : Type 0 where
  drains : (String → ℕ) → SchedulerCall
  dispatches_now : (AsyncJob → Option String) → String → ℕ → ℕ → SchedulerCall
  creates : AsyncJob → String → String → ℕ → SchedulerCall
  transitions : String → AsyncJobState → AsyncJobTransitionOptions → ℕ → SchedulerCall

-- New ids are trimmed, as UUIDs are, and a transition that is not the scheduler's ends the job.
abbrev pub IsFair : SchedulerCall → Type 0
IsFair (drains clock) = Unit
IsFair (dispatches_now dispatch id now done) = Unit
IsFair (creates job new_id new_request now) =
    (trim_space job.id ≡ job.id) × (trim_space new_id ≡ new_id)
IsFair (transitions id to opts now) = is_terminal to ≡ true

-- The rows that CreateJob counts.
abbrev pub waits : AsyncJob → Bool
waits job = some_of (λ s. is_same job.state s) (keep is_known_async_job_state (queued ∷ []))

terminal-stops : (to : AsyncJobState) → is_terminal to ≡ true → is_same to running ≡ false
unfolding is_terminal is_same
terminal-stops to h = ground arith

module _ (limits : Limits) (depth : ℕ) (lower : Char → Char) (truncate : String → String)
    (by_creation : List AsyncJob → List AsyncJob) where
  unfoldable pub step : Table → SchedulerCall → Table
  step t (drains clock) = (drain_queued limits truncate by_creation clock t).0
  step t (dispatches_now dispatch id now done) =
      (dispatch_now limits truncate dispatch t id now done).0
  step t (creates job new_id new_request now) =
      (create_job depth lower truncate t job new_id new_request now).0
  step t (transitions id to opts now) = (transition_job truncate t id to opts now).0

  unfoldable pub run : Table → List SchedulerCall → Table
  unfolding step
  run t [] = t
  run t (c ∷ cs) = run (step t c) cs

  -- Over any sequence of drains, dispatches, creations and endings of jobs, a sound table that is
  -- within the scheduler's limits stays so: at most MaxInFlight jobs run, and at most MaxPerProbe of
  -- each probe, if that is set.
  pub run-IsWithin :
      ((P : AsyncJob → Type 0) (rows : List AsyncJob) → All P rows → All P (by_creation rows))
      → (t : Table) (cs : List SchedulerCall) → All IsFair cs
      → IsWithin limits t
      → IsWithin limits (run t cs)
  unfolding run
  run-IsWithin lists t [] fair w = w
  run-IsWithin lists t (c ∷ cs) fair w =
      run-IsWithin lists (step t c) cs fair.1 (step-IsWithin c fair.0)
    where
      step-IsWithin : (call : SchedulerCall) → IsFair call → IsWithin limits (step t call)
      step-IsWithin (drains clock) f =
          drain_queued-IsWithin limits truncate by_creation clock t lists w
      step-IsWithin (dispatches_now dispatch id now done) f =
          dispatch_now-IsWithin limits truncate dispatch t id now done w
      step-IsWithin (creates job new_id new_request now) f =
          create_job-IsWithin limits truncate depth lower t job new_id new_request now f.0 f.1 w
      step-IsWithin (transitions id to opts now) f =
          finish-IsWithin limits truncate t id to opts now (terminal-stops to f) w
