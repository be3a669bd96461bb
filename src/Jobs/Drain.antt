-- ===== src/Jobs/Drain.antt =====
-- internal/controlplane/jobs/async_scheduler.go: the limits, the claim of a job, and the drain of the queue,
-- which the scheduler's mutex makes one step among its own calls.
use legator.Common.{
  ℕ, zero, suc, ◌+◌, ◌-◌, String, ◌&&◌, none, some, List, [], ◌∷◌, ltb, leb, if◌then◌else◌, Result,
  ok, err,
}
use legator.Common.Int.{ℤ, pos, negsuc}
use legator.Common.Map.{Map, lookup, insert}
use legator.Jobs.State.{queued, running}
use legator.Jobs.Row.{AsyncJob, AsyncJobTransitionOptions, invalid_async_job_transition}
use legator.Jobs.Table.{
  Table, StoreError, no_rows, row_error, running_async_jobs_by_probe, list_async_jobs_by_state,
  transition_job,
}

-- What a caller configures.
pub record AsyncWorkerConfig : Type 0 where
  pub max_in_flight : ℤ
  pub max_per_probe : ℤ
  pub fetch_batch_size : ℤ

-- A normalized configuration; 0 sets no limit for a probe.
pub record Limits : Type 0 where
  pub max_in_flight : ℕ
  pub max_per_probe : ℕ
  pub fetch_batch_size : ℕ

-- A number above zero, or the default.
abbrev positive_or : ℤ → ℕ → ℕ
positive_or (pos zero) default = default
positive_or (pos (suc n)) default = suc n
positive_or (negsuc n) default = default

-- AsyncWorkerConfig.normalized
unfoldable pub normalized_limits : AsyncWorkerConfig → Limits
normalized_limits c =
    let in_flight = positive_or c.max_in_flight 8 in
    let batch = positive_or c.fetch_batch_size 64 in
    let raised = if ltb batch in_flight then in_flight else batch in
    record {
      max_in_flight = in_flight;
      max_per_probe = positive_or c.max_per_probe 0;
      fetch_batch_size = if ltb 500 raised then 500 else raised;
    }

abbrev pub no_options : AsyncJobTransitionOptions
no_options = record {
  status_reason = "";
  approval_id = "";
  exit_code = none;
  output = "";
  started_at = none;
  finished_at = none;
  expires_at = none;
  approved_by = "";
  rejected_by = "";
  rejection_reason = "";
  approval_deadline = none;
}

-- The table, and the scheduler's counts of what runs: in total, and by probe.
pub record Round : Type 0 where
  pub table : Table
  pub running_total : ℕ
  pub running_by_probe : Map ℕ

pub data Claim : Type 0 where
  claimed : AsyncJob → Claim
  global_limit probe_limit state_changed : Claim
  claim_failed : StoreError → Claim

-- A key of a Go map of numbers, which is 0 where it is missing.
abbrev pub count_of : String → Map ℕ → ℕ
count_of key counts = elim (lookup key counts) [ none ↦ 0 | some n ↦ n ]

-- The errors that claimQueuedJob takes for a change of the state.
unfoldable pub claim_error : StoreError → Claim
claim_error no_rows = state_changed
claim_error (row_error (invalid_async_job_transition from to)) = state_changed
claim_error e = claim_failed e

-- The counts after a claim that succeeds.
unfoldable pub claim_result : Round → Table → Result StoreError AsyncJob → Round × Claim
unfolding claim_error
claim_result round t (ok job) = (
  record {
    table = t;
    running_total = round.running_total + 1;
    running_by_probe =
        insert job.probe_id (count_of job.probe_id round.running_by_probe + 1)
          round.running_by_probe;
  },
  claimed job,
)
claim_result round t (err e) = (record round { table = t }, claim_error e)

-- claimQueuedJob; `now` is the time of the transition.
unfoldable pub claim_queued_job : Limits → (String → String) → AsyncJob → ℕ → Round → Round × Claim
unfolding claim_result
claim_queued_job limits truncate candidate now round =
    if leb limits.max_in_flight round.running_total
    then (round, global_limit)
    else if ltb 0 limits.max_per_probe
        && leb limits.max_per_probe (count_of candidate.probe_id round.running_by_probe)
    then (round, probe_limit)
    else (let (t, r) = transition_job truncate round.table candidate.id running no_options now in
        claim_result round t r)

-- `started++` after a claim that succeeds.
abbrev pub started_after : Claim → ℕ → ℕ
started_after (claimed job) started = started + 1
started_after _ started = started

-- The dispatch of a claimed job, before the later ones.
abbrev pub dispatched_first : Claim → List AsyncJob → List AsyncJob
dispatched_first (claimed job) jobs = job ∷ jobs
dispatched_first _ jobs = jobs

-- The loop of drainQueued: the table after it, and the jobs that it dispatches. `clock` gives the time of
-- the transition of each candidate.
unfoldable pub drain_loop :
    Limits
    → (String → String)
    → (String → ℕ)
    → List AsyncJob
    → ℕ
    → ℕ
    → Round
    → Table × List AsyncJob
drain_loop limits truncate clock [] started available round = (round.table, [])
drain_loop limits truncate clock (c ∷ cs) started available round =
    let (round', claim) = claim_queued_job limits truncate c (clock c.id) round in
    let (t, jobs) =
      drain_loop limits truncate clock cs (started_after claim started) available round' in
    if leb available started then (round.table, []) else (t, dispatched_first claim jobs)

-- runningTotal
unfoldable pub sum_of : Map ℕ → ℕ
sum_of [] = 0
sum_of ((key, n) ∷ counts) = n + sum_of counts

unfoldable pub new_round : Table → Round
unfolding sum_of
new_round t =
    let counts = running_async_jobs_by_probe t in
    record { table = t; running_total = sum_of counts; running_by_probe = counts }

-- drainQueued, where no statement of the database fails; `by_creation` is as for the listing.
unfoldable pub drain_queued :
    Limits
    → (String → String)
    → (List AsyncJob → List AsyncJob)
    → (String → ℕ)
    → Table
    → Table × List AsyncJob
unfolding drain_loop new_round
drain_queued limits truncate by_creation clock t =
    let round = new_round t in
    if leb limits.max_in_flight round.running_total
    then (t, [])
    else drain_loop limits truncate clock
        (list_async_jobs_by_state by_creation queued limits.fetch_batch_size t) 0
        (limits.max_in_flight - round.running_total) round
