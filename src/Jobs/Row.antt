-- ===== src/Jobs/Row.antt =====
-- internal/controlplane/jobs/async_store.go: what the statements of the store do to the row of one
-- job. `truncate` stands for the cut of an output at the store's limit of bytes.
use legator.Common.{
  ℕ, String, Bool, true, false, not, ◌&&◌, Option, none, some, List, str_eq, if◌then◌else◌, Result,
  ok, err,
}
use legator.Common.Text.{trim_space}
use legator.Common.Int.{ℤ}
use legator.Jobs.State.{
  AsyncJobState, running, waiting_approval, failed, expired, is_terminal, is_known_async_job_state,
  is_same, can_transition_async_job,
}

-- `none` is a NULL column.
pub record AsyncJob : Type 0 where
  pub id : String
  pub workspace_id : String
  pub probe_id : String
  pub request_id : String
  pub command : String
  pub args : List String
  pub level : String
  pub state : AsyncJobState
  pub status_reason : String
  pub approval_id : String
  pub exit_code : Option ℤ
  pub output : String
  pub created_at : ℕ
  pub updated_at : ℕ
  pub started_at : Option ℕ
  pub finished_at : Option ℕ
  pub expires_at : Option ℕ
  pub approved_by : String
  pub rejected_by : String
  pub rejection_reason : String
  pub approval_deadline : Option ℕ

pub record AsyncJobTransitionOptions : Type 0 where
  pub status_reason : String
  pub approval_id : String
  pub exit_code : Option ℤ
  pub output : String
  pub started_at : Option ℕ
  pub finished_at : Option ℕ
  pub expires_at : Option ℕ
  pub approved_by : String
  pub rejected_by : String
  pub rejection_reason : String
  pub approval_deadline : Option ℕ

pub data Error : Type 0 where
  invalid_state : AsyncJobState → Error
  invalid_async_job_transition : AsyncJobState → AsyncJobState → Error
  async_job_conflict : AsyncJobState → Error

-- A text column that is set only to a text that is not blank.
abbrev set_text : String → String → String
set_text new old = if str_eq (trim_space new) "" then old else trim_space new

-- A column that is set only if there is a value.
abbrev set_some {ℓ} : {A : Type ℓ} → Option A → Option A → Option A
set_some (some a) old = some a
set_some none old = old

-- A time that is given, or else now if the test holds.
abbrev given_or : Option ℕ → Bool → ℕ → Option ℕ
given_or (some t) b now = some t
given_or none true now = some now
given_or none false now = none

-- The column expires_at, which is cleared unless the job waits for approval.
abbrev set_expiry : Option ℕ → AsyncJobState → Option ℕ → Option ℕ
set_expiry (some t) to old = some t
set_expiry none to old = if is_same to waiting_approval then old else none

module _ (truncate : String → String) where
  -- The UPDATE that TransitionAsyncJob builds.
  unfoldable pub set_clauses : AsyncJob → AsyncJobState → AsyncJobTransitionOptions → ℕ → AsyncJob
  set_clauses job to opts now = record job {
    state = to;
    updated_at = now;
    status_reason = set_text opts.status_reason job.status_reason;
    approval_id = set_text opts.approval_id job.approval_id;
    exit_code = set_some opts.exit_code job.exit_code;
    output =
        if str_eq (trim_space opts.output) ""
        then job.output
        else truncate (trim_space opts.output);
    started_at = set_some (given_or opts.started_at (is_same to running) now) job.started_at;
    finished_at = set_some (given_or opts.finished_at (is_terminal to) now) job.finished_at;
    expires_at = set_expiry opts.expires_at to job.expires_at;
    approved_by = set_text opts.approved_by job.approved_by;
    rejected_by = set_text opts.rejected_by job.rejected_by;
    rejection_reason = set_text opts.rejection_reason job.rejection_reason;
    approval_deadline = set_some opts.approval_deadline job.approval_deadline;
  }

  -- TransitionAsyncJob, in its transaction: the row before and the row that it returns.
  unfoldable pub transition_async_job :
      AsyncJob → AsyncJobState → AsyncJobTransitionOptions → ℕ → Result Error AsyncJob
  unfolding set_clauses
  transition_async_job job to opts now =
      if not (is_known_async_job_state to)
      then err (invalid_state to)
      else if is_same job.state to
      then ok job
      else if not (can_transition_async_job job.state to)
      then err (invalid_async_job_transition job.state to)
      else ok (set_clauses job to opts now)

-- ApproveAsyncJob
unfoldable pub approve_async_job : AsyncJob → ℕ → Result Error AsyncJob
approve_async_job job now =
    if is_same job.state waiting_approval
    then ok (record job { state = running; started_at = some now; updated_at = now })
    else err (async_job_conflict job.state)

-- RejectAsyncJob
unfoldable pub reject_async_job : AsyncJob → String → ℕ → Result Error AsyncJob
reject_async_job job reason now =
    if is_same job.state waiting_approval
    then ok (record job {
      state = failed;
      status_reason = trim_space reason;
      rejection_reason = trim_space reason;
      finished_at = some now;
      updated_at = now;
    })
    else err (async_job_conflict job.state)

-- A reason, or the text for a blank one.
abbrev reason_or : String → String → String
reason_or reason fallback = if str_eq (trim_space reason) "" then fallback else trim_space reason

abbrev expire_with : AsyncJob → String → ℕ → AsyncJob
expire_with job reason now = record job {
  state = expired;
  status_reason = reason;
  updated_at = now;
  finished_at = some now;
}

-- ExpireRunningAsyncJobs
unfoldable pub expire_running_async_job : AsyncJob → String → ℕ → AsyncJob
expire_running_async_job job reason now =
    if is_same job.state running
    then expire_with job (reason_or reason "expired while control plane was unavailable") now
    else job

-- The test of the column expires_at against a time; `not_after` is the database's comparison of two
-- formatted times.
abbrev is_due : (ℕ → ℕ → Bool) → Option ℕ → ℕ → Bool
is_due not_after none now = false
is_due not_after (some t) now = not_after t now

-- ExpireWaitingApprovalAsyncJobs
unfoldable pub expire_waiting_approval_async_job : (ℕ → ℕ → Bool) → AsyncJob → String → ℕ → AsyncJob
expire_waiting_approval_async_job not_after job reason now =
    if is_same job.state waiting_approval && is_due not_after job.expires_at now
    then expire_with job (reason_or reason "approval window expired") now
    else job

-- ExtendApprovalExpiry
unfoldable pub extend_approval_expiry : AsyncJob → ℕ → ℕ → AsyncJob
extend_approval_expiry job expiry now =
    if is_same job.state waiting_approval
    then record job { expires_at = some expiry; updated_at = now }
    else job
