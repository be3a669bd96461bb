-- ===== src/Runner/Tests.antt =====
-- internal/controlplane/runner/manager.go: a runner that is started, destroyed and left alone.
use legator.Common.{◌≡◌, ◌≢◌, refl, none, some, [], ◌∷◌, ok}
use legator.Common.Ascii.{ascii_lower}
use legator.Common.Text.{trim_space, ne_of_str_eq}
use legator.Common.Map.{lookup, insert}
use legator.TokenBroker.Store.{TokenState, store_get, mark_consumed}
use legator.TokenBroker.Model.{has_scope}
use legator.TokenBroker.Broker.{emit, validate, validate_row, consume_token, binding_fault}
use legator.TokenBroker.Memory.{memory, update_at}
use legator.Runner.Model.{
  State, created, running, destroyed, host, Runner, CreateRequest, LifecycleRequest, can_transition,
  audience_target, audience_runner_start,
}
use legator.Runner.Manager.{
  Manager, check_token, prepare_transition, prepare_runner_lifecycle, complete_runner_lifecycle,
  lifecycle,
}
use legator.Runner.Requests.{move_to, or_else}
use legator.Runner.Calls.{Call, creates, completes, run}
use legator.Runner.Tokens.{run_token_once}
use legator.Runner.Spent.{IsSpent, lifecycle-IsSpent}
use legator.Runner.Lifecycle.{Evolves, identity_of, run-Evolves}

abbrev started_with : TokenState
started_with = record {
  token = "lgrt_1";
  job_id = "run-1";
  runner_id = "runner-1";
  audience = "runner:start";
  scope = "runner:start" ∷ [];
  issuer = "ann";
  session_id = "s1";
  issued_at = 10;
  expires_at = 130;
  consumed_at = none;
}

abbrev fresh : Runner
fresh = record {
  id = "runner-1";
  label = "build";
  job_id = "run-1";
  backend = host;
  contract = none;
  state = created;
  created_by = "ann";
  session_id = "s1";
  workspace_id = "ws";
  created_at = 5;
  updated_at = 5;
  destroyed_at = none;
}

abbrev manager : Manager memory
manager = record {
  runners = ("runner-1", fresh) ∷ [];
  run_token_ttl = 120;
  tokens = record {
    store = ("lgrt_1", started_with) ∷ [];
    revoked = [];
    default_ttl = 120;
    max_scope = 8;
    events = [];
  };
}

abbrev asked : LifecycleRequest
asked = record {
  runner_id = " runner-1";
  job_id = "run-1";
  run_token = "lgrt_1";
  session_id = "s1";
}

abbrev started : Runner
started = record fresh { state = running; updated_at = 25 }

start_runs : (lifecycle memory manager asked audience_runner_start running 20 25).1 ≡ ok started
unfolding lifecycle prepare_runner_lifecycle prepare_transition check_token
    complete_runner_lifecycle can_transition audience_target move_to trim_space lookup insert
    validate validate_row consume_token binding_fault has_scope store_get mark_consumed update_at
    emit
start_runs = refl

start_target : audience_target audience_runner_start ≡ some running
unfolding audience_target trim_space
start_target = refl

lifecycle-IsSpent_example :
    IsSpent memory manager
      (lifecycle memory manager asked audience_runner_start running 20 25).0
      asked
      audience_runner_start
      running
      20
      25
      started
lifecycle-IsSpent_example =
    lifecycle-IsSpent memory manager asked audience_runner_start running 20 25 started start_target
      start_runs

run_token_once_example :
    (lifecycle memory
      (run memory ascii_lower
        (lifecycle memory manager asked audience_runner_start running 20 25).0
        (completes "runner-1" State.stopped 30 ∷ []))
      asked
      audience_runner_start
      running
      40
      45).1
    ≢ ok started
run_token_once_example =
    run_token_once memory ascii_lower manager asked asked audience_runner_start
      audience_runner_start running running 20 25 40 45 started started
      (completes "runner-1" State.stopped 30 ∷ []) start_target start_target refl start_runs

abbrev wanted : CreateRequest
wanted = record {
  label = "x";
  job_id = "";
  backend = "";
  contract = none;
  created_by = "bob";
  session_id = "s2";
  workspace_id = "";
}

abbrev later : Call
later = creates wanted 50 "runner-2" "spare"

later_spares : or_else "runner-2" "spare" ≢ "runner-1"
unfolding trim_space
later_spares = ne_of_str_eq _ _ refl

run-Evolves_example :
    (r' : Runner) × (lookup "runner-1"
        (run memory ascii_lower manager (later ∷ completes "runner-1" destroyed 30 ∷ [])).runners
      ≡ some r')
    × Evolves fresh r'
    × (identity_of r' ≡ identity_of fresh)
unfolding lookup
run-Evolves_example =
    run-Evolves memory ascii_lower manager (later ∷ completes "runner-1" destroyed 30 ∷ [])
      "runner-1" fresh refl (later_spares, (tt, tt))

abbrev gone : Runner
gone = record fresh { state = destroyed; updated_at = 30; destroyed_at = some 30 }
