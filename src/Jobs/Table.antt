-- ===== src/Jobs/Table.antt =====
-- internal/controlplane/jobs/async_store.go: the table of jobs by their primary key, the statements that
-- read it, and those that change it. Each statement is one step of the database.
use Prim.Native.Char.{Char}
use legator.Common.{
  ℕ, suc, ◌+◌, String, Bool, not, none, some, List, [], ◌∷◌, take, keep, some_of, ltb, ◌==◌, str_eq,
  if◌then◌else◌, Result, ok, err,
}
use legator.Common.Text.{trim_space, map_chars}
use legator.Common.Map.{Map, lookup, insert, values}
use legator.Jobs.State.{AsyncJobState, running, is_known_async_job_state, is_same}
use legator.Jobs.Row.{
  AsyncJob, AsyncJobTransitionOptions, Error, invalid_state, transition_async_job,
}

abbrev pub Table : Type 0
Table = Map AsyncJob

pub data StoreError : Type 0 where
  no_rows : StoreError
  job_id_required probe_id_required command_required : StoreError
  insert_failed : StoreError
  row_error : Error → StoreError

-- The rows that pass a test, counted.
unfoldable pub count_where : (AsyncJob → Bool) → Table → ℕ
count_where p [] = 0
count_where p ((id, job) ∷ t) = (if p job then 1 else 0) + count_where p t

-- CountAsyncJobsByState
unfoldable pub count_async_jobs_by_state : List AsyncJobState → Table → ℕ
count_async_jobs_by_state states t =
    count_where (λ job. some_of (λ s. is_same job.state s) (keep is_known_async_job_state states)) t

abbrev pub is_running : AsyncJob → Bool
is_running job = is_same job.state running

-- One more for a key.
unfoldable pub bump : String → Map ℕ → Map ℕ
bump key counts = insert key (elim (lookup key counts) [ none ↦ 1 | some n ↦ suc n ]) counts

-- The groups of running rows by probe, with their sizes.
unfoldable pub running_groups : Table → Map ℕ
unfolding bump
running_groups [] = []
running_groups ((id, job) ∷ t) =
    let rest = running_groups t in if is_running job then bump job.probe_id rest else rest

-- The loop over the groups, which trims the keys.
unfoldable pub trim_keys : Map ℕ → Map ℕ
trim_keys [] = []
trim_keys ((key, n) ∷ counts) = insert (trim_space key) n (trim_keys counts)

-- RunningAsyncJobsByProbe
unfoldable pub running_async_jobs_by_probe : Table → Map ℕ
unfolding running_groups trim_keys
running_async_jobs_by_probe t = trim_keys (running_groups t)

-- normalizeAsyncJobLimit, at a limit that is not negative.
unfoldable pub normalize_async_job_limit : ℕ → ℕ
normalize_async_job_limit limit = if ltb 0 limit then if ltb 500 limit then 500 else limit else 50

-- ListAsyncJobsByState at a known state; `by_creation` stands for the database's ORDER BY created_at.
unfoldable pub list_async_jobs_by_state :
    (List AsyncJob → List AsyncJob) → AsyncJobState → ℕ → Table → List AsyncJob
unfolding normalize_async_job_limit
list_async_jobs_by_state by_creation state limit t =
    take (normalize_async_job_limit limit)
      (by_creation (keep (λ job. is_same job.state state) (values t)))

-- GetAsyncJob
unfoldable pub get_async_job : Table → String → Result StoreError AsyncJob
get_async_job t id =
    let key = trim_space id in
    if str_eq key ""
    then err job_id_required
    else elim (lookup key t) [ none ↦ err no_rows | some job ↦ ok job ]

-- The row that stands under a key after a statement on it.
abbrev pub write_row : Table → String → Result Error AsyncJob → Table × Result StoreError AsyncJob
write_row t key (ok job) = (insert key job t, ok job)
write_row t key (err e) = (t, err (row_error e))

-- TransitionAsyncJob
unfoldable pub transition_job :
    (String → String)
    → Table
    → String
    → AsyncJobState
    → AsyncJobTransitionOptions
    → ℕ
    → Table × Result StoreError AsyncJob
transition_job truncate t id to opts now =
    let key = trim_space id in
    if str_eq key "" then (t, err job_id_required) else elim (lookup key t) [
      | none ↦ (t, err no_rows)
      | some job ↦ write_row t key (transition_async_job truncate job to opts now)
    ]

-- The test of the UNIQUE column request_id.
abbrev pub has_request : String → Table → Bool
has_request request_id t = some_of (λ job. str_eq job.request_id request_id) (values t)

-- The row of a new job, with the UUIDs for a blank id and a blank request id; a time of creation of 0
-- is not set.
unfoldable pub prepared :
    (Char → Char) → (String → String) → AsyncJob → String → String → ℕ → AsyncJob
prepared lower truncate job new_id new_request now = record {
  id = if str_eq (trim_space job.id) "" then new_id else job.id;
  workspace_id = map_chars lower (trim_space job.workspace_id);
  probe_id = trim_space job.probe_id;
  request_id =
      if str_eq (trim_space job.request_id) "" then new_request else trim_space job.request_id;
  command = trim_space job.command;
  args = job.args;
  level = trim_space job.level;
  state = job.state;
  status_reason = trim_space job.status_reason;
  approval_id = trim_space job.approval_id;
  exit_code = job.exit_code;
  output = truncate job.output;
  created_at = if job.created_at == 0 then now else job.created_at;
  updated_at = now;
  started_at = job.started_at;
  finished_at = job.finished_at;
  expires_at = job.expires_at;
  approved_by = trim_space job.approved_by;
  rejected_by = trim_space job.rejected_by;
  rejection_reason = trim_space job.rejection_reason;
  approval_deadline = job.approval_deadline;
}

-- The INSERT, which the PRIMARY KEY and the UNIQUE request_id can refuse, and the read after it.
unfoldable pub insert_job : Table → AsyncJob → Table × Result StoreError AsyncJob
insert_job t row = elim (lookup row.id t) [
  | some taken ↦ (t, err insert_failed)
  | none ↦
      if has_request row.request_id t
      then (t, err insert_failed)
      else (insert row.id row t, get_async_job (insert row.id row t) row.id)
]

-- CreateAsyncJob, at a job whose state is set.
unfoldable pub create_async_job :
    (Char → Char)
    → (String → String)
    → Table
    → AsyncJob
    → String
    → String
    → ℕ
    → Table × Result StoreError AsyncJob
unfolding prepared insert_job
create_async_job lower truncate t job new_id new_request now =
    let row = prepared lower truncate job new_id new_request now in
    if str_eq row.probe_id ""
    then (t, err probe_id_required)
    else if str_eq row.command ""
    then (t, err command_required)
    else if not (is_known_async_job_state row.state)
    then (t, err (row_error (invalid_state row.state)))
    else insert_job t row
