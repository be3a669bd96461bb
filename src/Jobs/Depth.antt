-- ===== src/Jobs/Depth.antt =====
-- internal/controlplane/jobs/async_manager.go: the queue of new jobs is never deeper than configured.
use Prim.Native.Char.{Char}
use legator.Common.{
  ℕ, ◌+◌, ◌-◌, ◌≤◌, ◌<◌, String, true, false, ◌&&◌, ◌≡◌, refl, sym, ap, inl, inr, subst, Option,
  List, [], ◌∷◌, arith, ltb, leb, str_eq, Bool-cases, Option-cases, Result-cases, Result, All,
}
use legator.Common.Text.{trim_space}
use legator.Common.Map.{lookup}
use legator.Jobs.State.{
  AsyncJobState, queued, running, failed, is_same, is_terminal, is_known_async_job_state,
}
use legator.Jobs.Row.{AsyncJob}
use legator.Jobs.Table.{
  Table, StoreError, count_where, count_async_jobs_by_state, has_request, prepared, insert_job,
  create_async_job, list_async_jobs_by_state, get_async_job,
}
use legator.Jobs.Drain.{
  global_limit, probe_limit, state_changed, Limits, Round, Claim, claimed, claim_failed,
  started_after, new_round, no_options, claim_queued_job, drain_loop, drain_queued,
}
use legator.Jobs.Scheduler.{dispatch_claimed_sync, dispatch_claim, dispatch_now, create_job}
use legator.Jobs.Counting.{count_where-insert_le}
use legator.Jobs.Claiming.{
  Moves, refused, moved, transition_job-Moves, IsClaimStep, passed_over, starts,
  claim_queued_job-IsClaimStep,
}
use legator.Jobs.InFlight.{quiet_write, store_result-table}
use legator.Jobs.Runs.{
  SchedulerCall, drains, dispatches_now, creates, transitions, IsFair, waits, step, run,
}

-- The depth that CreateJob looks at.
abbrev depth_of : Table → ℕ
depth_of t = count_where waits t

-- A state other than queued.
abbrev IsAway : AsyncJobState → Type 0
IsAway to = is_same to queued ≡ false

away_waits : (to : AsyncJobState) (job : AsyncJob) → IsAway to → job.state ≡ to → waits job ≡ false
unfolding is_known_async_job_state
away_waits to job away e = ground (arith, ap (λ s. is_same s queued) e)

terminal-IsAway : (to : AsyncJobState) → is_terminal to ≡ true → IsAway to
unfolding is_terminal is_same
terminal-IsAway to h = ground arith

Moves-depth :
    (t : Table) (key : String) (to : AsyncJobState) (t' : Table) (r : Result StoreError AsyncJob)
    → IsAway to
    → Moves t key to t' r
    → depth_of t' ≤ depth_of t
Moves-depth t key to t' r away (refused e same) = rw same (omega arith)
Moves-depth t key to t' r away (moved row new found same state written) = rw written (
    quiet_write waits key row new t found
      (elim state [ inl e ↦ inl (away_waits to new away e) | inr e ↦ inr e ]))

IsClaimStep-depth :
    (limits : Limits) (c : AsyncJob) (round round' : Round) (claim : Claim)
    → IsClaimStep limits c round round' claim
    → depth_of round'.table ≤ depth_of round.table
unfolding is_same
IsClaimStep-depth limits c round round' claim (passed_over _ _ same other) = rw same (omega arith)
IsClaimStep-depth limits c round round' claim
      (starts _ row job total probe found same state written more counts) =
    rw written (
      quiet_write waits _ row job round.table found
        (elim state [ inl e ↦ inl (away_waits running job refl e) | inr e ↦ inr e ]))

room_for_one :
    (n k depth : ℕ) → 0 < depth → (ltb 0 depth && leb depth k) ≡ false → n ≤ k + 1 → n ≤ depth
room_for_one n k depth some_ room h = ground arith

module _ (limits : Limits) (depth : ℕ) (lower : Char → Char) (truncate : String → String)
    (by_creation : List AsyncJob → List AsyncJob) where
  drain_loop-depth :
      (clock : String → ℕ) (cs : List AsyncJob) (started available : ℕ) (round : Round)
      → depth_of (drain_loop limits truncate clock cs started available round).0
        ≤ depth_of round.table
  unfolding drain_loop
  drain_loop-depth clock [] started available round = omega arith
  drain_loop-depth clock (c ∷ cs) started available round =
      let x = claim_queued_job limits truncate c (clock c.id) round in
      let first =
        IsClaimStep-depth limits c round x.0 x.1
          (claim_queued_job-IsClaimStep truncate limits c (clock c.id) round) in
      let rest = drain_loop-depth clock cs (started_after x.1 started) available x.0 in
      elim (Bool-cases (leb available started)) [
        | inl full ↦ rw full (omega arith)
        | inr room ↦ rw room (omega (arith, first, rest))
      ]

  drain_queued-depth :
      (clock : String → ℕ) (t : Table)
      → depth_of (drain_queued limits truncate by_creation clock t).0 ≤ depth_of t
  unfolding drain_queued
  drain_queued-depth clock t =
      elim (Bool-cases (leb limits.max_in_flight (new_round t).running_total)) [
        | inl full ↦ rw full (omega arith)
        | inr room ↦ rw room (
            unfold new_round in
            drain_loop-depth clock
              (list_async_jobs_by_state by_creation queued limits.fetch_batch_size t) 0
              (limits.max_in_flight - (new_round t).running_total) (new_round t))
      ]

  dispatch_claimed_sync-depth :
      (dispatch : AsyncJob → Option String) (job : AsyncJob) (now : ℕ) (t : Table)
      → depth_of (dispatch_claimed_sync truncate dispatch job now t).0 ≤ depth_of t
  unfolding dispatch_claimed_sync is_same
  dispatch_claimed_sync-depth dispatch job now t = elim (Option-cases (dispatch job)) [
    | inl fine ↦ rw (fine, dispatch_claimed_sync) (omega arith)
    | inr (e, bad) ↦
        rw (bad, dispatch_claimed_sync)
          (Moves-depth t (trim_space job.id) failed _ _ refl (
            transition_job-Moves truncate t job.id failed
              (record no_options { status_reason = e; output = e }) now))
  ]

  dispatch_claim-depth :
      (dispatch : AsyncJob → Option String) (job : AsyncJob) (done : ℕ) (round : Round)
      (claim : Claim)
      → depth_of (dispatch_claim truncate dispatch job done (round, claim)).0 ≤ depth_of round.table
  unfolding dispatch_claim
  dispatch_claim-depth dispatch job done round (claimed c) =
      dispatch_claimed_sync-depth dispatch c done round.table
  dispatch_claim-depth dispatch job done round global_limit = omega arith
  dispatch_claim-depth dispatch job done round probe_limit = omega arith
  dispatch_claim-depth dispatch job done round state_changed = omega arith
  dispatch_claim-depth dispatch job done round (claim_failed e) = omega arith

  dispatch_now-depth :
      (dispatch : AsyncJob → Option String) (t : Table) (id : String) (now done : ℕ)
      → depth_of (dispatch_now limits truncate dispatch t id now done).0 ≤ depth_of t
  unfolding dispatch_now
  dispatch_now-depth dispatch t id now done = elim (Result-cases (get_async_job t id)) [
    | inr (e, bad) ↦ rw (bad, dispatch_now) (omega arith)
    | inl (job, fine) ↦ elim (Bool-cases (is_same job.state queued)) [
      | inr busy ↦ rw (fine, busy, dispatch_now) (omega arith)
      | inl queued_ ↦
          let x = claim_queued_job limits truncate job now (new_round t) in
          let first =
            IsClaimStep-depth limits job (new_round t) x.0 x.1
              (claim_queued_job-IsClaimStep truncate limits job now (new_round t)) in
          let rest = dispatch_claim-depth dispatch job done x.0 x.1 in
          rw (fine, queued_, dispatch_now) (unfold new_round in omega (arith, first, rest))
    ]
  ]

  insert_job-depth : (t : Table) (row : AsyncJob) → depth_of (insert_job t row).0 ≤ depth_of t + 1
  unfolding insert_job
  insert_job-depth t row = elim (Option-cases (lookup row.id t)) [
    | inr (taken, found) ↦ rw (found, insert_job) (omega arith)
    | inl free ↦ elim (Bool-cases (has_request row.request_id t)) [
      | inl taken ↦ rw (free, taken, insert_job) (omega arith)
      | inr fresh ↦
          rw (free, fresh, insert_job) (ground (arith, count_where-insert_le waits row.id row t))
    ]
  ]

  create_async_job-depth :
      (t : Table) (job : AsyncJob) (new_id new_request : String) (now : ℕ)
      → depth_of (create_async_job lower truncate t job new_id new_request now).0 ≤ depth_of t + 1
  unfolding create_async_job
  create_async_job-depth t job new_id new_request now =
      let row = prepared lower truncate job new_id new_request now in
      elim (Bool-cases (str_eq row.probe_id "")) [
        | inl e ↦ rw e (omega arith)
        | inr e ↦ elim (Bool-cases (str_eq row.command "")) [
          | inl f ↦ rw (e, f) (omega arith)
          | inr f ↦ elim (Bool-cases (is_known_async_job_state row.state)) [
            | inr g ↦ rw (e, f, g) (omega arith)
            | inl g ↦ rw (e, f, g) (insert_job-depth t row)
          ]
        ]
      ]

  create_job-depth :
      (t : Table) (job : AsyncJob) (new_id new_request : String) (now : ℕ)
      → 0 < depth
      → depth_of t ≤ depth
      → depth_of (create_job depth lower truncate t job new_id new_request now).0 ≤ depth
  unfolding create_job
  create_job-depth t job new_id new_request now some_ w =
      elim (Bool-cases (ltb 0 depth && leb depth (count_async_jobs_by_state (queued ∷ []) t))) [
        | inl full ↦ rw full w
        | inr room ↦ rw room (
            subst (λ x. depth_of x ≤ depth) (sym (store_result-table _))
              (room_for_one _ (depth_of t) depth some_ (unfold count_async_jobs_by_state in room)
                (create_async_job-depth t (record job { state = queued }) new_id new_request now)))
      ]

  -- Where the manager has a maximal depth and at most that many jobs are queued to begin with, no more
  -- are queued after any drains, dispatches, creations with trimmed ids and endings of jobs.
  pub run-depth_le :
      (t : Table) (cs : List SchedulerCall)
      → All IsFair cs
      → 0 < depth
      → count_where waits t ≤ depth
      → count_where waits (run limits depth lower truncate by_creation t cs) ≤ depth
  unfolding run
  run-depth_le t [] fair some_ w = w
  run-depth_le t (c ∷ cs) fair some_ w =
      run-depth_le (step limits depth lower truncate by_creation t c) cs fair.1 some_
        (step-depth c fair.0)
    where
      step-depth :
          (call : SchedulerCall)
          → IsFair call
          → depth_of (step limits depth lower truncate by_creation t call) ≤ depth
      step-depth (drains clock) f = omega (arith, w, drain_queued-depth clock t)
      step-depth (dispatches_now dispatch id now done) f =
          omega (arith, w, dispatch_now-depth dispatch t id now done)
      step-depth (creates job new_id new_request now) f =
          create_job-depth t job new_id new_request now some_ w
      step-depth (transitions id to opts now) f = omega (
        arith,
        w,
        Moves-depth t (trim_space id) to _ _ (terminal-IsAway to f)
            (transition_job-Moves truncate t id to opts now),
      )
