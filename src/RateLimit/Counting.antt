-- ===== src/RateLimit/Counting.antt =====
-- internal/shared/ratelimit/ratelimit.go: the counters over any sequence of calls, each a step of its own.
use legator.Common.{
  ℕ, ◌<◌, ◌-◌, ◌+◌, suc, String, Bool, ◌≡◌, refl, sym, ap, ◌∙◌, List, [], ◌∷◌, arith, Bool-cases,
  inl, inr, str_eq, eq_iff, if◌then◌else◌,
}
use legator.Common.Map.{Map, lookup, insert, lookup-insert}
use legator.RateLimit.Limiter.{
  Config, Limiter, allow, prune_history, new_limiter, running_of, or_zero, record_start,
  record_complete, get_stats,
}

pub data Call : Type 0 where
  asks : String → Bool → ℕ → Call
  starts : String → ℕ → Call
  completes : String → Call
  reads : ℕ → Call

unfoldable pub step : Limiter → Call → Limiter
step l (asks agent is_webhook now) = (allow l agent is_webhook now).0
step l (starts agent now) = record_start l agent now
step l (completes agent) = record_complete l agent
step l (reads now) = (get_stats l now).0

unfoldable pub run : Limiter → List Call → Limiter
run l [] = l
run l (c ∷ cs) = run (step l c) cs

-- The runs of an agent that are open after the calls, given those open before.
abbrev pub open_runs : String → ℕ → List Call → ℕ
open_runs agent n [] = n
open_runs agent n (starts a now ∷ cs) = open_runs agent (if str_eq a agent then suc n else n) cs
open_runs agent n (completes a ∷ cs) = open_runs agent (if str_eq a agent then n - 1 else n) cs
open_runs agent n (_ ∷ cs) = open_runs agent n cs

-- Every completion is of an agent that has an open run, given the runs that are open before.
abbrev pub AreOpen : (String → ℕ) → List Call → Type 0
AreOpen runs [] = Unit
AreOpen runs (starts a now ∷ cs) = AreOpen (λ k. if str_eq a k then suc (runs k) else runs k) cs
AreOpen runs (completes a ∷ cs) =
    (0 < runs a) × AreOpen (λ k. if str_eq a k then runs k - 1 else runs k) cs
AreOpen runs (_ ∷ cs) = AreOpen runs cs

-- The sum of the agents' counts.
abbrev pub total_of : Map ℕ → ℕ
total_of [] = 0
total_of ((k, n) ∷ m) = n + total_of m

total_of-insert :
    (k : String) (n : ℕ) (m : Map ℕ)
    → total_of (insert k n m) + or_zero (lookup k m) ≡ total_of m + n
unfolding insert lookup
total_of-insert k n [] = omega arith
total_of-insert k n ((j, i) ∷ m) = elim (Bool-cases (str_eq j k)) [
  | inl e ↦ rw e (omega arith)
  | inr e ↦ rw e (omega (arith, total_of-insert k n m))
]

allow_keeps :
    (l : Limiter) (agent : String) (is_webhook : Bool) (now : ℕ)
    → ((allow l agent is_webhook now).0.config ≡ l.config)
      × ((allow l agent is_webhook now).0.concurrent ≡ l.concurrent)
      × ((allow l agent is_webhook now).0.total_conc ≡ l.total_conc)
unfolding allow prune_history
allow_keeps l agent is_webhook now = (ground arith, ground arith, ground arith)

-- The counters are the numbers of open runs, and the cluster's is their sum.
record IsCounted (runs : String → ℕ) (l : Limiter) : Type 0 where
  agents : (k : String) → running_of l k ≡ runs k
  cluster : l.total_conc ≡ total_of l.concurrent

record_start-IsCounted :
    (runs : String → ℕ) (l : Limiter) (a : String) (now : ℕ)
    → IsCounted runs l
    → IsCounted (λ k. if str_eq a k then suc (runs k) else runs k) (record_start l a now)
unfolding record_start
record_start-IsCounted runs l a now c = record {
  agents = λ k. ground (
    arith,
    c.agents k,
    c.agents a,
    eq_iff a k,
    lookup-insert a k (suc (running_of l a)) l.concurrent,
  );
  cluster = ground (arith, c.cluster, total_of-insert a (suc (running_of l a)) l.concurrent);
}

record_complete-IsCounted :
    (runs : String → ℕ) (l : Limiter) (a : String)
    → 0 < runs a
    → IsCounted runs l
    → IsCounted (λ k. if str_eq a k then runs k - 1 else runs k) (record_complete l a)
unfolding record_complete
record_complete-IsCounted runs l a some_ c = record {
  agents = λ k. ground (
    arith,
    some_,
    c.agents k,
    c.agents a,
    eq_iff a k,
    lookup-insert a k (running_of l a - 1) l.concurrent,
  );
  cluster =
      ground
        (arith, some_, c.agents a, c.cluster, total_of-insert a (running_of l a - 1) l.concurrent);
}

allow-IsCounted :
    (runs : String → ℕ) (l : Limiter) (a : String) (is_webhook : Bool) (now : ℕ)
    → IsCounted runs l
    → IsCounted runs (allow l a is_webhook now).0
allow-IsCounted runs l a is_webhook now c =
    let (same, kept, total) = allow_keeps l a is_webhook now in
    record {
      agents = λ k. ap (λ m. or_zero (lookup k m)) kept ∙ c.agents k;
      cluster = total ∙ c.cluster ∙ ap total_of (sym kept);
    }

get_stats-IsCounted :
    (runs : String → ℕ) (l : Limiter) (now : ℕ)
    → IsCounted runs l
    → IsCounted runs (get_stats l now).0
unfolding get_stats prune_history
get_stats-IsCounted runs l now c = record { agents = c.agents; cluster = c.cluster }

-- The counters after the calls are those of the runs that are open then.
run_counts :
    (cs : List Call) (runs : String → ℕ) (l : Limiter) (agent : String)
    → AreOpen runs cs
    → IsCounted runs l
    → (running_of (run l cs) agent ≡ open_runs agent (runs agent) cs)
      × ((run l cs).total_conc ≡ total_of (run l cs).concurrent)
unfolding run step
run_counts [] runs l agent fair c = (c.agents agent, c.cluster)
run_counts (asks a w now ∷ cs) runs l agent fair c =
    run_counts cs runs (allow l a w now).0 agent fair (allow-IsCounted runs l a w now c)
run_counts (starts a now ∷ cs) runs l agent fair c =
    run_counts cs _ (record_start l a now) agent fair (record_start-IsCounted runs l a now c)
run_counts (completes a ∷ cs) runs l agent fair c =
    run_counts cs _ (record_complete l a) agent fair.1 (record_complete-IsCounted runs l a fair.0 c)
run_counts (reads now ∷ cs) runs l agent fair c =
    run_counts cs runs (get_stats l now).0 agent fair (get_stats-IsCounted runs l now c)

-- After any calls on a new limiter, in which a run completes only for an agent that has one open, the
-- limiter's count of an agent is the number of its runs that have started and not completed, and the
-- cluster's count is the sum of the agents' counts.
pub run-new_limiter_counts :
    (config : Config) (cs : List Call) (agent : String)
    → AreOpen (λ k. 0) cs
    → let l = run (new_limiter config) cs in
      (running_of l agent ≡ open_runs agent 0 cs) × (l.total_conc ≡ total_of l.concurrent)
unfolding new_limiter lookup
run-new_limiter_counts config cs agent fair =
    run_counts cs (λ k. 0) (new_limiter config) agent fair
      (record { agents = λ k. refl; cluster = refl })
