-- ===== src/Jobs/State.antt =====
-- internal/controlplane/jobs/async_types.go: the states of an asynchronous job.
use legator.Common.{String, Bool, true, false, not, ◌||◌, str_eq, if◌then◌else◌}
use legator.Common.Text.{trim_space}

-- A Go string type: `other` stands for every trimmed text but the seven constants.
pub data AsyncJobState : Type 0 where
  queued running waiting_approval succeeded failed expired cancelled : AsyncJobState
  other : String → AsyncJobState

-- normalizeAsyncJobState
unfoldable pub normalize_async_job_state : String → AsyncJobState
normalize_async_job_state text =
    let s = trim_space text in
    if str_eq s "queued"
    then queued
    else if str_eq s "running"
    then running
    else if str_eq s "waiting_approval"
    then waiting_approval
    else if str_eq s "succeeded"
    then succeeded
    else if str_eq s "failed"
    then failed
    else if str_eq s "expired"
    then expired
    else if str_eq s "cancelled"
    then cancelled
    else other s

-- IsTerminal
unfoldable pub is_terminal : AsyncJobState → Bool
is_terminal succeeded = true
is_terminal failed = true
is_terminal expired = true
is_terminal cancelled = true
is_terminal _ = false

-- isKnownAsyncJobState
unfoldable pub is_known_async_job_state : AsyncJobState → Bool
is_known_async_job_state (other s) = false
is_known_async_job_state _ = true

-- The comparison of two normalized states.
unfoldable pub is_same : AsyncJobState → AsyncJobState → Bool
is_same queued queued = true
is_same running running = true
is_same waiting_approval waiting_approval = true
is_same succeeded succeeded = true
is_same failed failed = true
is_same expired expired = true
is_same cancelled cancelled = true
is_same (other s) (other t) = str_eq s t
is_same _ _ = false

-- The `switch` of canTransitionAsyncJob.
unfoldable pub is_move : AsyncJobState → AsyncJobState → Bool
is_move queued running = true
is_move queued waiting_approval = true
is_move queued cancelled = true
is_move queued expired = true
is_move queued failed = true
is_move waiting_approval running = true
is_move waiting_approval cancelled = true
is_move waiting_approval expired = true
is_move waiting_approval failed = true
is_move running succeeded = true
is_move running failed = true
is_move running expired = true
is_move running cancelled = true
is_move _ _ = false

-- canTransitionAsyncJob
unfoldable pub can_transition_async_job : AsyncJobState → AsyncJobState → Bool
can_transition_async_job from to =
    if is_same from to
    then true
    else if not (is_known_async_job_state from) || not (is_known_async_job_state to)
    then false
    else is_move from to
