-- ===== src/Jobs/RunsTests.antt =====
-- internal/controlplane/jobs: two jobs for one probe, which may run one at a time.
use legator.Common.{◌≤◌, ◌≡◌, refl, none, some, List, [], ◌∷◌, arith, length, All}
use legator.Common.Ascii.{ascii_lower}
use legator.Common.Int.{pos, negsuc}
use legator.Common.Text.{trim_space, map_chars}
use legator.Common.Map.{lookup, insert, values}
use legator.Jobs.State.{
  queued, succeeded, is_same, is_terminal, is_known_async_job_state, can_transition_async_job,
  is_move,
}
use legator.Jobs.Row.{AsyncJob, transition_async_job}
use legator.Jobs.Table.{
  Table, count_where, is_running, transition_job, create_async_job, get_async_job,
  list_async_jobs_by_state, running_async_jobs_by_probe, count_async_jobs_by_state,
}
use legator.Jobs.Drain.{Limits, normalized_limits, no_options, drain_queued, claim_queued_job}
use legator.Jobs.Scheduler.{dispatch_now, create_job}
use legator.Jobs.Limits.{IsWithin}
use legator.Jobs.Runs.{
  SchedulerCall, drains, dispatches_now, creates, transitions, IsFair, waits, run, run-IsWithin,
}
use legator.Jobs.Depth.{run-depth_le}

-- The defaults, but one job for a probe.
abbrev limits : Limits
limits = record { max_in_flight = 8; max_per_probe = 1; fetch_batch_size = 64 }

limits_normalized :
    normalized_limits
      (record { max_in_flight = negsuc 0; max_per_probe = pos 1; fetch_batch_size = pos 0 })
    ≡ limits
unfolding normalized_limits
limits_normalized = refl

abbrev restart : AsyncJob
restart = record {
  id = "";
  workspace_id = "";
  probe_id = " web-03 ";
  request_id = "";
  command = "systemctl restart nginx";
  args = [];
  level = "remediate";
  state = queued;
  status_reason = "";
  approval_id = "";
  exit_code = none;
  output = "";
  created_at = 0;
  updated_at = 0;
  started_at = none;
  finished_at = none;
  expires_at = none;
  approved_by = "";
  rejected_by = "";
  rejection_reason = "";
  approval_deadline = none;
}

abbrev calls : List SchedulerCall
calls =
    creates restart "j1" "r1" 1
    ∷ creates restart "j2" "r2" 2
    ∷ creates restart "j3" "r3" 3
    ∷ drains (λ id. 4)
    ∷ dispatches_now (λ job. some "probe offline") "j2" 5 6
    ∷ transitions "j1" succeeded no_options 7
    ∷ dispatches_now (λ job. some "probe offline") "j2" 8 9
    ∷ []

calls-IsFair : All IsFair calls
unfolding trim_space is_terminal
calls-IsFair = ((refl, refl), ((refl, refl), ((refl, refl), (tt, (tt, (refl, (tt, tt)))))))

abbrev after : Table
after = run limits 2 ascii_lower (λ s. s) (λ rows. rows) [] calls

run-IsWithin_example : IsWithin limits after
run-IsWithin_example =
    run-IsWithin limits 2 ascii_lower (λ s. s) (λ rows. rows) (λ P rows h. h) [] calls calls-IsFair
      (unfold count_where in
        record {
          distinct = tt;
          stored = tt;
          trimmed = tt;
          total = omega arith;
          by_probe = λ some_ p. omega arith;
        })

run-depth_le_example : count_where waits after ≤ 2
run-depth_le_example =
    run-depth_le limits 2 ascii_lower (λ s. s) (λ rows. rows) [] calls calls-IsFair (omega arith)
      (unfold count_where in omega arith)

-- The first job succeeds; the second is deferred, then started, and fails; the third is refused.
states_after :
    (length after ≡ 2) × (count_where waits after ≡ 0) × (count_where is_running after ≡ 0)
unfolding run count_where is_same is_known_async_job_state drain_queued dispatch_now create_job
    transition_job create_async_job get_async_job list_async_jobs_by_state
    running_async_jobs_by_probe count_async_jobs_by_state claim_queued_job transition_async_job
    lookup insert values trim_space map_chars ascii_lower can_transition_async_job is_move
    is_terminal
states_after = (refl, refl, refl)
