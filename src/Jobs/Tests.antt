-- ===== src/Jobs/Tests.antt =====
-- internal/controlplane/jobs: a job that waits for approval, runs, and is done.
use legator.Common.{String, ◌≡◌, refl, inl, none, some, List, [], ◌∷◌, leb, err}
use legator.Common.Int.{pos}
use legator.Common.Text.{trim_space}
use legator.Jobs.State.{
  waiting_approval, succeeded, is_terminal, is_known_async_job_state, is_same, is_move,
  can_transition_async_job,
}
use legator.Jobs.Row.{
  AsyncJob, AsyncJobTransitionOptions, set_clauses, transition_async_job, approve_async_job,
  reject_async_job, invalid_async_job_transition,
}
use legator.Jobs.Lifecycle.{
  Call, transitions, approves, rejects, IsFinished, Reaches, run, step, terminal_is_final,
  run-Reaches,
}

abbrev waiting : AsyncJob
waiting = record {
  id = "j1";
  workspace_id = "ws";
  probe_id = "p1";
  request_id = "r1";
  command = "reboot";
  args = [];
  level = "remediate";
  state = waiting_approval;
  status_reason = "";
  approval_id = "a1";
  exit_code = none;
  output = "";
  created_at = 1;
  updated_at = 1;
  started_at = none;
  finished_at = none;
  expires_at = some 100;
  approved_by = "";
  rejected_by = "";
  rejection_reason = "";
  approval_deadline = none;
}

abbrev done_with : AsyncJobTransitionOptions
done_with = record {
  status_reason = "";
  approval_id = "";
  exit_code = some (pos 0);
  output = " up ";
  started_at = none;
  finished_at = none;
  expires_at = none;
  approved_by = "";
  rejected_by = "";
  rejection_reason = "";
  approval_deadline = none;
}

abbrev cut : String → String
cut s = s

abbrev calls : List Call
calls = approves 20 ∷ transitions succeeded done_with 30 ∷ rejects "late" 40 ∷ []

abbrev finished : AsyncJob
finished = record waiting {
  state = succeeded;
  exit_code = some (pos 0);
  output = "up";
  updated_at = 30;
  started_at = some 20;
  finished_at = some 30;
  expires_at = none;
}

calls_finish : run cut leb waiting calls ≡ finished
unfolding run step approve_async_job transition_async_job set_clauses is_same
    is_known_async_job_state is_terminal is_move can_transition_async_job trim_space
    reject_async_job
calls_finish = refl

-- A job that waits for approval does not succeed without running.
no_shortcut :
    transition_async_job cut waiting succeeded done_with 30
    ≡ err (invalid_async_job_transition waiting_approval succeeded)
unfolding transition_async_job is_same is_known_async_job_state is_move can_transition_async_job
no_shortcut = refl

terminal_is_final_example : run cut leb finished (approves 50 ∷ rejects "no" 51 ∷ []) ≡ finished
unfolding is_terminal
terminal_is_final_example =
    terminal_is_final cut leb finished (approves 50 ∷ rejects "no" 51 ∷ []) refl

run-Reaches_example :
    Reaches waiting_approval (run cut leb waiting calls).state
    × IsFinished (run cut leb waiting calls)
unfolding is_terminal
run-Reaches_example = run-Reaches cut leb waiting calls (inl refl)
