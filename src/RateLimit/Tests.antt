-- ===== src/RateLimit/Tests.antt =====
-- internal/shared/ratelimit/ratelimit.go: a limiter that allows, refuses and forgets runs.
use legator.Common.{arith, true, false, ◌≡◌, ◌↔◌, refl, List, [], ◌∷◌}
use legator.Common.Map.{lookup, insert}
use legator.RateLimit.Limiter.{
  Limiter, allowed, agent_concurrency, allow, default_config, new_limiter, prune_history, drop_old,
  count_agent, record_start, record_complete, hour, running_of,
}
use legator.RateLimit.Window.{IsWithin, allow_iff}
use legator.RateLimit.Counting.{
  Call, asks, starts, completes, reads, run, open_runs, total_of, run-new_limiter_counts,
}

abbrev busy : Limiter
busy = record_start (new_limiter default_config) "a" 5

busy_refuses : (allow busy "a" true 6).1 ≡ agent_concurrency 1 1
unfolding allow prune_history drop_old count_agent record_start new_limiter lookup insert
busy_refuses = refl

others_run : (allow busy "b" false 6).1 ≡ allowed
unfolding allow prune_history drop_old count_agent record_start new_limiter lookup insert
others_run = refl

allow_iff_example : ((allow busy "b" false 6).1 ≡ allowed) ↔ IsWithin busy "b" false 6
unfolding record_start new_limiter
allow_iff_example = allow_iff busy "b" false 6 (tt, tt)

-- A completion of an agent that does not run lowers the cluster's count.
spurious_completion : (record_complete busy "b").total_conc ≡ 0
unfolding record_start record_complete new_limiter
spurious_completion = refl

abbrev calls : List Call
calls =
    asks "a" false 5 ∷ starts "a" 6 ∷ starts "b" 7 ∷ starts "a" 8 ∷ completes "b" ∷ reads hour ∷ []

run-new_limiter_counts_example :
    (running_of (run (new_limiter default_config) calls) "a" ≡ open_runs "a" 0 calls)
    × ((run (new_limiter default_config) calls).total_conc
        ≡ total_of (run (new_limiter default_config) calls).concurrent)
run-new_limiter_counts_example = run-new_limiter_counts default_config calls "a" (omega arith, tt)

two_open : open_runs "a" 0 calls ≡ 2
two_open = refl
