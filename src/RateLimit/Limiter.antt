-- ===== src/RateLimit/Limiter.antt =====
-- internal/shared/ratelimit/ratelimit.go: the limiter's state and operations. The limits are not
-- negative, times are numbers of nanoseconds, and the clock's reading is an argument.
use legator.Common.{
  ℕ, suc, ◌+◌, ◌-◌, ◌*◌, String, Bool, not, ◌&&◌, Option, none, some, List, [], ◌∷◌, ◌++◌, ltb, leb,
  str_eq, length, if◌then◌else◌,
}
use legator.Common.Map.{Map, lookup, insert}

pub record Config : Type 0 where
  pub max_concurrent_cluster : ℕ
  pub max_concurrent_per_agent : ℕ
  pub max_runs_per_hour_cluster : ℕ
  pub max_runs_per_hour_per_agent : ℕ
  pub burst_allowance : ℕ

abbrev pub default_config : Config
default_config = record {
  max_concurrent_cluster = 10;
  max_concurrent_per_agent = 1;
  max_runs_per_hour_cluster = 200;
  max_runs_per_hour_per_agent = 30;
  burst_allowance = 3;
}

-- Decision: allowed, or the limit that is reached, with the count and the maximum.
pub data Decision : Type 0 where
  allowed : Decision
  agent_concurrency cluster_concurrency agent_rate cluster_rate : ℕ → ℕ → Decision

pub record RunRecord : Type 0 where
  pub agent_key : String
  pub time : ℕ

pub record Limiter : Type 0 where
  pub config : Config
  pub concurrent : Map ℕ
  pub total_conc : ℕ
  pub history : List RunRecord

-- NewLimiter
unfoldable pub new_limiter : Config → Limiter
new_limiter config = record { config = config; concurrent = []; total_conc = 0; history = [] }

abbrev pub or_zero : Option ℕ → ℕ
or_zero none = 0
or_zero (some n) = n

-- `l.concurrent[agentKey]`; a missing key reads as 0.
abbrev pub running_of : Limiter → String → ℕ
running_of l agent = or_zero (lookup agent l.concurrent)

abbrev pub hour : ℕ
hour = 3_600_000_000_000

-- The test `Before(cutoff)` on a record, an hour before `now`.
abbrev pub is_old : ℕ → RunRecord → Bool
is_old now r = ltb r.time (now - hour)

-- The loop of pruneHistory.
unfoldable pub drop_old : ℕ → List RunRecord → List RunRecord
drop_old now [] = []
drop_old now (r ∷ rs) = let rest = drop_old now rs in if is_old now r then rest else r ∷ rs

-- pruneHistory
unfoldable pub prune_history : Limiter → ℕ → Limiter
prune_history l now = record l { history = drop_old now l.history }

-- The loop of countAgent.
unfoldable pub count_agent : String → ℕ → List RunRecord → ℕ
count_agent agent now [] = 0
count_agent agent now (r ∷ rs) =
    let rest = count_agent agent now rs in
    if str_eq r.agent_key agent && not (is_old now r) then suc rest else rest

abbrev pub max_concurrent : Config → Bool → ℕ
max_concurrent c is_webhook =
    if is_webhook then c.max_concurrent_cluster + c.burst_allowance else c.max_concurrent_cluster

abbrev pub max_rate : Config → Bool → ℕ
max_rate c is_webhook =
    if is_webhook
    then c.max_runs_per_hour_cluster + c.burst_allowance * 10
    else c.max_runs_per_hour_cluster

-- Allow
unfoldable pub allow : Limiter → String → Bool → ℕ → Limiter × Decision
unfolding prune_history
allow l agent is_webhook now =
    let p = prune_history l now in
    let c = l.config in
    let count = count_agent agent now p.history in
    let total = length p.history in
    if leb c.max_concurrent_per_agent (running_of p agent)
    then (p, agent_concurrency (running_of p agent) c.max_concurrent_per_agent)
    else if leb (max_concurrent c is_webhook) p.total_conc
    then (p, cluster_concurrency p.total_conc (max_concurrent c is_webhook))
    else if leb c.max_runs_per_hour_per_agent count
    then (p, agent_rate count c.max_runs_per_hour_per_agent)
    else if leb (max_rate c is_webhook) total
    then (p, cluster_rate total (max_rate c is_webhook))
    else (p, allowed)

-- RecordStart
unfoldable pub record_start : Limiter → String → ℕ → Limiter
record_start l agent now = record l {
  concurrent = insert agent (suc (running_of l agent)) l.concurrent;
  total_conc = suc l.total_conc;
  history = l.history ++ (record { agent_key = agent; time = now } ∷ []);
}

-- RecordComplete
unfoldable pub record_complete : Limiter → String → Limiter
record_complete l agent = record l {
  concurrent =
      if ltb 0 (running_of l agent)
      then insert agent (running_of l agent - 1) l.concurrent
      else l.concurrent;
  total_conc = l.total_conc - 1;
}

pub record Stats : Type 0 where
  pub concurrent_total : ℕ
  pub concurrent_by_agent : Map ℕ
  pub runs_last_hour : ℕ

-- GetStats
unfoldable pub get_stats : Limiter → ℕ → Limiter × Stats
unfolding prune_history
get_stats l now =
    let p = prune_history l now in
    (
      p,
      record {
        concurrent_total = p.total_conc;
        concurrent_by_agent = p.concurrent;
        runs_last_hour = length p.history;
      },
    )
