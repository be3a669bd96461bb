-- ===== src/Jobs/Scheduler.antt =====
-- internal/controlplane/jobs/async_scheduler.go and async_manager.go: the immediate dispatch of one
-- job, one step under the scheduler's mutex, and the admission of new jobs.
use Prim.Native.Char.{Char}
use legator.Common.{
  ℕ, String, not, ◌&&◌, Option, none, some, [], ◌∷◌, ltb, leb, if◌then◌else◌, Result, ok, err,
}
use legator.Common.Text.{trim_space, map_chars}
use legator.Protocol.{CommandPayload}
use legator.Jobs.State.{queued, failed, is_same}
use legator.Jobs.Row.{AsyncJob}
use legator.Jobs.Table.{
  Table, StoreError, count_async_jobs_by_state, get_async_job, transition_job, create_async_job,
}
use legator.Jobs.Drain.{
  Claim, Limits, Round, claim_failed, claim_queued_job, claimed, new_round, no_options,
}

pub data DispatchAnswer : Type 0 where
  job_not_queued : AsyncJob → DispatchAnswer
  deferred : Claim → AsyncJob → DispatchAnswer
  started_job : AsyncJob → DispatchAnswer

-- dispatchClaimedSync: the dispatcher runs the job; if it fails, with the text of an error, the job is
-- marked as failed, unless its state has changed.
unfoldable pub dispatch_claimed_sync :
    (String → String) → (AsyncJob → Option String) → AsyncJob → ℕ → Table → Table × Option String
dispatch_claimed_sync truncate dispatch job now t = elim (dispatch job) [
  | none ↦ (t, none)
  | some e ↦
      let opts = record no_options { status_reason = e; output = e } in
      ((transition_job truncate t job.id failed opts now).0, some e)
]

-- DispatchNow after the claim; `done` is the time after the dispatch.
unfoldable pub dispatch_claim :
    (String → String)
    → (AsyncJob → Option String)
    → AsyncJob
    → ℕ
    → Round × Claim
    → Table × Result StoreError DispatchAnswer × Option String
unfolding dispatch_claimed_sync
dispatch_claim truncate dispatch job done (round, claimed c) =
    let (t, e) = dispatch_claimed_sync truncate dispatch c done round.table in
    (t, ok (started_job c), e)
dispatch_claim truncate dispatch job done (round, claim_failed e) = (round.table, err e, none)
dispatch_claim truncate dispatch job done (round, claim) =
    (round.table, ok (deferred claim job), none)

-- DispatchNow: the table, the answer, and the error of the dispatch.
unfoldable pub dispatch_now :
    Limits
    → (String → String)
    → (AsyncJob → Option String)
    → Table
    → String
    → ℕ
    → ℕ
    → Table × Result StoreError DispatchAnswer × Option String
unfolding claim_queued_job new_round dispatch_claim
dispatch_now limits truncate dispatch t id now done = elim (get_async_job t id) [
  | err e ↦ (t, err e, none)
  | ok job ↦
      if not (is_same job.state queued)
      then (t, ok (job_not_queued job), none)
      else dispatch_claim truncate dispatch job done
          (claim_queued_job limits truncate job now (new_round t))
]

pub data CreateError : Type 0 where
  async_queue_saturated : ℕ → ℕ → CreateError
  store_error : StoreError → CreateError

abbrev pub store_result : Table × Result StoreError AsyncJob → Table × Result CreateError AsyncJob
store_result (t, ok job) = (t, ok job)
store_result (t, err e) = (t, err (store_error e))

-- AsyncManager.CreateJob; a depth of 0 sets no limit.
unfoldable pub create_job :
    ℕ
    → (Char → Char)
    → (String → String)
    → Table
    → AsyncJob
    → String
    → String
    → ℕ
    → Table × Result CreateError AsyncJob
create_job max_queue_depth lower truncate t job new_id new_request now =
    let depth = count_async_jobs_by_state (queued ∷ []) t in
    if ltb 0 max_queue_depth && leb max_queue_depth depth
    then (t, err (async_queue_saturated depth max_queue_depth))
    else store_result
        (create_async_job lower truncate t (record job { state = queued }) new_id new_request now)

-- CreateForCommandInWorkspace; `level_text` is the text of the command's level.
unfoldable pub create_for_command_in_workspace :
    ℕ
    → (Char → Char)
    → (String → String)
    → Table
    → String
    → String
    → CommandPayload
    → String
    → String
    → String
    → ℕ
    → Table × Result CreateError AsyncJob
unfolding create_job
create_for_command_in_workspace max_queue_depth lower truncate t probe_id workspace_id cmd
      level_text new_id new_request now =
    create_job max_queue_depth lower truncate t
      (record {
        id = "";
        workspace_id = map_chars lower (trim_space workspace_id);
        probe_id = trim_space probe_id;
        request_id = trim_space cmd.request_id;
        command = trim_space cmd.command;
        args = cmd.args;
        level = level_text;
        state = queued;
        status_reason = "";
        approval_id = "";
        exit_code = none;
        output = "";
        created_at = 0;
        updated_at = 0;
        started_at = none;
        finished_at = none;
        expires_at = none;
        approved_by = "";
        rejected_by = "";
        rejection_reason = "";
        approval_deadline = none;
      })
      new_id new_request now
