-- ===== src/Jobs/Limits.antt =====
-- internal/controlplane/jobs/async_scheduler.go: a drain keeps the number of running jobs within the
-- limits, in total and for each probe.
use legator.Common.{
  ℕ, ◌-◌, ◌≤◌, ◌<◌, String, ◌≡◌, sym, ap, ◌∙◌, inl, inr, some, List, [], ◌∷◌, arith, leb,
  Bool-cases, All, All-map, All-keep, All-take, keep,
}
use mathlib.Core.Option.{some-injective}
use legator.Common.Text.{trim_space}
use legator.Common.Map.{
  lookup, values, Each, Each-insert, Each-lookup, Each-values, Each-self, Distinct, Distinct-insert,
}
use legator.Jobs.State.{queued, is_same}
use legator.Jobs.Row.{AsyncJob}
use legator.Jobs.Table.{
  Table, count_where, is_running, normalize_async_job_limit, list_async_jobs_by_state,
}
use legator.Jobs.Drain.{
  Limits, Round, Claim, started_after, new_round, claim_queued_job, drain_loop, drain_queued,
}
use legator.Jobs.Counting.{
  runs_at, IsTrimmed, sum_of-running_async_jobs_by_probe, count_of-running_async_jobs_by_probe,
}
use legator.Jobs.Claiming.{
  IsCounted, Fits, IsClaimStep, passed_over, starts, claim_queued_job-IsClaimStep,
  IsClaimStep-IsCounted, IsClaimStep-total, IsClaimStep-probe, IsClaimStep-IsTrimmed,
  IsClaimStep-Fits,
}

-- A row stands under its own id, which is trimmed.
abbrev pub IsStored : String → AsyncJob → Type 0
IsStored k job = (job.id ≡ k) × (trim_space k ≡ k)

-- A sound table whose running jobs are within the limits. A limit of 0 for a probe is none.
pub record IsWithin (limits : Limits) (t : Table) : Type 0 where
  pub distinct : Distinct t
  pub stored : Each IsStored t
  pub trimmed : Each IsTrimmed t
  pub total : count_where is_running t ≤ limits.max_in_flight
  pub by_probe :
      0 < limits.max_per_probe → (p : String) → count_where (runs_at p) t ≤ limits.max_per_probe

pub new_round-IsCounted : (t : Table) → Each IsTrimmed t → IsCounted (new_round t)
unfolding new_round
new_round-IsCounted t h = record {
  total = omega (arith, sum_of-running_async_jobs_by_probe t h);
  by_probe = λ p. omega (arith, count_of-running_async_jobs_by_probe p t h);
}

module _ {limits : Limits} {c : AsyncJob} {round : Round} where
  IsClaimStep-Distinct :
      (round' : Round) (claim : Claim)
      → IsClaimStep limits c round round' claim
      → Distinct round.table
      → Distinct round'.table
  IsClaimStep-Distinct round' claim (passed_over _ _ same other) h = rw same h
  IsClaimStep-Distinct round' claim
        (starts _ row job total probe found same state written more counts) h =
      rw written (Distinct-insert _ job round.table h)

  IsClaimStep-IsStored :
      (round' : Round) (claim : Claim)
      → IsClaimStep limits c round round' claim
      → Each IsStored round.table
      → Each IsStored round'.table
  IsClaimStep-IsStored round' claim (passed_over _ _ same other) h = rw same h
  IsClaimStep-IsStored round' claim
        (starts _ row job total probe found same state written more counts) h =
      let (key, trimmed_key) = Each-lookup IsStored _ row round.table h found in
      rw written (Each-insert IsStored _ job round.table (same.0 ∙ key, trimmed_key) h)

  pub IsClaimStep-IsWithin :
      (round' : Round) (claim : Claim)
      → IsClaimStep limits c round round' claim
      → IsCounted round
      → Fits round.table c
      → IsWithin limits round.table
      → IsWithin limits round'.table
  IsClaimStep-IsWithin round' claim x h fits w = record {
    distinct = IsClaimStep-Distinct round' claim x w.distinct;
    stored = IsClaimStep-IsStored round' claim x w.stored;
    trimmed = IsClaimStep-IsTrimmed round' claim x w.trimmed;
    total = IsClaimStep-total limits.max_in_flight round' claim x h (omega arith) w.total;
    by_probe = λ some_ p.
        IsClaimStep-probe p limits.max_per_probe round' claim x h fits some_ (omega arith)
          (w.by_probe some_ p);
  }

module _ (limits : Limits) (truncate : String → String) (clock : String → ℕ) where
  drain_loop-IsWithin :
      (cs : List AsyncJob) (started available : ℕ) (round : Round)
      → IsCounted round
      → All (Fits round.table) cs
      → IsWithin limits round.table
      → IsWithin limits (drain_loop limits truncate clock cs started available round).0
  unfolding drain_loop
  drain_loop-IsWithin [] started available round h fits w = w
  drain_loop-IsWithin (c ∷ cs) started available round h fits w =
      let x = claim_queued_job limits truncate c (clock c.id) round in
      let claims = claim_queued_job-IsClaimStep truncate limits c (clock c.id) round in
      elim (Bool-cases (leb available started)) [
        | inl full ↦ rw full w
        | inr room ↦ rw room (
            drain_loop-IsWithin cs (started_after x.1 started) available x.0
              (IsClaimStep-IsCounted x.0 x.1 claims h)
              (All-map (Fits round.table) (Fits x.0.table)
                (λ d f. IsClaimStep-Fits x.0 x.1 d claims f) cs fits.1)
              (IsClaimStep-IsWithin x.0 x.1 claims h fits.0 w))
      ]

-- A row of the table fits it.
pub row-Fits :
    (t : Table) (k : String) (job : AsyncJob) → Each IsStored t → lookup k t ≡ some job → Fits t job
row-Fits t k job stored found row e =
    let (key, trimmed_key) = Each-lookup IsStored k job t stored found in
    let same : trim_space job.id ≡ k = ap trim_space key ∙ trimmed_key in
    ap (λ (j : AsyncJob). j.probe_id) (some-injective row job (sym e ∙ rw same found))

rows-Fits : (t : Table) → Distinct t → Each IsStored t → All (Fits t) (values t)
rows-Fits t distinct stored =
    Each-values (λ k v. lookup k t ≡ some v) (Fits t) (λ k v e. row-Fits t k v stored e) t
      (Each-self t distinct)

-- A drain of a sound table that is within the limits leaves one: at most MaxInFlight jobs run, and
-- at most MaxPerProbe of each probe, if that is set. The order in which the database lists the queued
-- jobs plays no part, as long as what it lists are rows.
pub drain_queued-IsWithin :
    (limits : Limits) (truncate : String → String) (by_creation : List AsyncJob → List AsyncJob)
    (clock : String → ℕ) (t : Table)
    → ((P : AsyncJob → Type 0) (rows : List AsyncJob) → All P rows → All P (by_creation rows))
    → IsWithin limits t
    → IsWithin limits (drain_queued limits truncate by_creation clock t).0
unfolding drain_queued list_async_jobs_by_state
drain_queued-IsWithin limits truncate by_creation clock t lists w =
    let waiting = keep (λ (job : AsyncJob). is_same job.state queued) (values t) in
    elim (Bool-cases (leb limits.max_in_flight (new_round t).running_total)) [
      | inl full ↦ rw full w
      | inr room ↦ rw room (
          drain_loop-IsWithin limits truncate clock
            (list_async_jobs_by_state by_creation queued limits.fetch_batch_size t) 0
            (limits.max_in_flight - (new_round t).running_total) (new_round t)
            (new_round-IsCounted t w.trimmed)
            (unfold new_round in
              All-take (Fits t) (normalize_async_job_limit limits.fetch_batch_size)
                (by_creation waiting)
                (lists (Fits t) waiting (
                  All-keep (Fits t) (λ job. is_same job.state queued) (values t)
                    (rows-Fits t w.distinct w.stored))))
            w)
    ]
