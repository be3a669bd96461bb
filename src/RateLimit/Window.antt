-- ===== src/RateLimit/Window.antt =====
-- internal/shared/ratelimit/ratelimit.go: the sliding window of runs, and what Allow decides by it.
use legator.Common.{
  ℕ, ◌≤◌, ◌<◌, ◌-◌, String, Bool, not, ◌≡◌, ◌↔◌, refl, sym, ap, ◌∙◌, List, [], ◌∷◌, arith, length,
  Bool-cases, inl, inr, All, str_eq, keep, ltb→le,
}
use legator.RateLimit.Limiter.{
  Limiter, RunRecord, allowed, is_old, drop_old, count_agent, allow, prune_history, running_of,
  max_concurrent, max_rate, hour,
}

-- No run is later than one that stands behind it.
abbrev pub InOrder : List RunRecord → Type 0
InOrder [] = Unit
InOrder (r ∷ rs) = All (λ (s : RunRecord). r.time ≤ s.time) rs × InOrder rs

-- The runs that are not older than an hour.
abbrev pub recent : ℕ → List RunRecord → List RunRecord
recent now rs = keep (λ r. not (is_old now r)) rs

all_recent :
    (now t : ℕ) (rs : List RunRecord)
    → now - hour ≤ t
    → All (λ (s : RunRecord). t ≤ s.time) rs
    → recent now rs ≡ rs
all_recent now t [] h a = refl
all_recent now t (r ∷ rs) h (le, a) = ground (arith, all_recent now t rs h a)

drop_old_lem : (now : ℕ) (rs : List RunRecord) → InOrder rs → drop_old now rs ≡ recent now rs
unfolding drop_old
drop_old_lem now [] h = refl
drop_old_lem now (r ∷ rs) (a, h) = elim (Bool-cases (is_old now r)) [
  | inl e ↦ rw e (drop_old_lem now rs h)
  | inr e ↦ rw e (ap (λ x. r ∷ x) (sym (all_recent now r.time rs (ltb→le r.time (now - hour) e) a)))
]

-- The runs of an agent.
abbrev pub runs_of : String → List RunRecord → List RunRecord
runs_of agent rs = keep (λ r. str_eq r.agent_key agent) rs

count_agent_lem :
    (agent : String) (now : ℕ) (rs : List RunRecord)
    → count_agent agent now rs ≡ length (runs_of agent (recent now rs))
unfolding count_agent
count_agent_lem agent now [] = refl
count_agent_lem agent now (r ∷ rs) = ground (arith, count_agent_lem agent now rs)

recent_idem : (now : ℕ) (rs : List RunRecord) → recent now (recent now rs) ≡ recent now rs
recent_idem now [] = refl
recent_idem now (r ∷ rs) = elim (Bool-cases (is_old now r)) [
  | inl e ↦ rw e (recent_idem now rs)
  | inr e ↦ rw e (rw e (ap (λ x. r ∷ x) (recent_idem now rs)))
]

-- What Allow asks: the agent and the cluster are below their limits of simultaneous runs and of
-- runs in the last hour, the cluster's raised by the burst for a webhook.
pub record IsWithin (l : Limiter) (agent : String) (is_webhook : Bool) (now : ℕ) : Type 0 where
  pub agent_running : running_of l agent < l.config.max_concurrent_per_agent
  pub running : l.total_conc < max_concurrent l.config is_webhook
  pub agent_runs :
      length (runs_of agent (recent now l.history)) < l.config.max_runs_per_hour_per_agent
  pub runs : length (recent now l.history) < max_rate l.config is_webhook

-- Where the history is in the order of time, Allow lets a run start exactly if it is within the
-- four limits, counted over the runs of the last hour.
pub allow_iff :
    (l : Limiter) (agent : String) (is_webhook : Bool) (now : ℕ)
    → InOrder l.history
    → ((allow l agent is_webhook now).1 ≡ allowed) ↔ IsWithin l agent is_webhook now
unfolding allow prune_history
allow_iff l agent is_webhook now ordered =
    let e = drop_old_lem now l.history ordered in
    let n : count_agent agent now (drop_old now l.history)
        ≡ length (runs_of agent (recent now l.history)) =
      ap (count_agent agent now) e
      ∙ count_agent_lem agent now (recent now l.history)
      ∙ ap (λ x. length (runs_of agent x)) (recent_idem now l.history) in
    let m = ap length e in
    (
      λ h. record {
        agent_running = ground (arith, n, m);
        running = ground (arith, n, m);
        agent_runs = ground (arith, n, m);
        runs = ground (arith, n, m);
      },
      λ h. ground (arith, n, m, h.agent_running, h.running, h.agent_runs, h.runs),
    )
