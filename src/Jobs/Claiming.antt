-- ===== src/Jobs/Claiming.antt =====
-- internal/controlplane/jobs/async_scheduler.go: one claim, and what it does to the rows that run.
use legator.Common.{
  ℕ, ◌+◌, ◌≤◌, ◌<◌, String, true, false, ◌&&◌, ◌≡◌, ◌≢◌, refl, sym, ◌∙◌, inl, inr, ◌⊎◌, subst, some,
  arith, ltb, leb, if◌then◌else◌, str_eq, eq_iff, Bool-cases, Option-cases, Result-cases, Result,
  ok, err,
}
use mathlib.Core.Option.{some-injective}
use legator.Common.Text.{trim_space}
use legator.Common.Map.{Map, lookup, insert, lookup-insert, Each, Each-insert, Each-lookup}
use legator.Jobs.State.{
  AsyncJobState, running, is_same, is_known_async_job_state, can_transition_async_job,
}
use legator.Jobs.Row.{AsyncJob, AsyncJobTransitionOptions, Error, transition_async_job, set_clauses}
use legator.Jobs.Table.{Table, StoreError, count_where, is_running, transition_job}
use legator.Jobs.Drain.{
  Limits, Round, Claim, claimed, no_options, count_of, claim_error, claim_result, claim_queued_job,
}
use legator.Jobs.Counting.{runs_at, IsTrimmed, count_where-insert_le}

-- A statement keeps the id and the probe of a row.
abbrev pub SameJob : AsyncJob → AsyncJob → Type 0
SameJob old new = (new.id ≡ old.id) × (new.probe_id ≡ old.probe_id)

ok_injective : (a b : AsyncJob) → ◌≡◌ {A = Result Error AsyncJob} (ok a) (ok b) → a ≡ b
ok_injective a b h = ground arith

-- What TransitionAsyncJob does to the table: nothing, or it writes the row that stands under its key.
pub data Moves (t : Table) (key : String) (to : AsyncJobState) (t' : Table)
    : Result StoreError AsyncJob → Type 0 where
  refused : (e : StoreError) → t' ≡ t → Moves t key to t' (err e)
  moved :
      (row new : AsyncJob)
      → lookup key t ≡ some row
      → SameJob row new
      → (new.state ≡ to) ⊎ (new ≡ row)
      → t' ≡ insert key new t
      → Moves t key to t' (ok new)

-- The scheduler counts at least what runs.
pub record IsCounted (round : Round) : Type 0 where
  pub total : count_where is_running round.table ≤ round.running_total
  pub by_probe :
      (p : String) → count_where (runs_at p) round.table ≤ count_of p round.running_by_probe

-- The row that stands under a candidate's key, if any, is of the candidate's probe.
abbrev pub Fits : Table → AsyncJob → Type 0
Fits t c = (row : AsyncJob) → lookup (trim_space c.id) t ≡ some row → row.probe_id ≡ c.probe_id

-- What a claim comes to: it changes nothing, or it starts a job within both limits.
pub data IsClaimStep (limits : Limits) (c : AsyncJob) (round : Round) : Round → Claim → Type 0 where
  passed_over :
      (round' : Round) (claim : Claim)
      → round' ≡ round
      → ((job : AsyncJob) → claim ≢ claimed job)
      → IsClaimStep limits c round round' claim
  starts :
      (round' : Round) (row job : AsyncJob)
      → round.running_total < limits.max_in_flight
      → (0 < limits.max_per_probe
          → count_of c.probe_id round.running_by_probe < limits.max_per_probe)
      → lookup (trim_space c.id) round.table ≡ some row
      → SameJob row job
      → (job.state ≡ running) ⊎ (job ≡ row)
      → round'.table ≡ insert (trim_space c.id) job round.table
      → round'.running_total ≡ round.running_total + 1
      → round'.running_by_probe
        ≡ insert job.probe_id
            (count_of job.probe_id round.running_by_probe + 1)
            round.running_by_probe
      → IsClaimStep limits c round round' (claimed job)

claim_error-ne-claimed : (e : StoreError) (job : AsyncJob) → claim_error e ≢ claimed job
unfolding claim_error
claim_error-ne-claimed e job h = ground arith

within_limits :
    (limits : Limits) (n k : ℕ)
    → leb limits.max_in_flight n ≡ false
    → (ltb 0 limits.max_per_probe && leb limits.max_per_probe k) ≡ false
    → (n < limits.max_in_flight) × (0 < limits.max_per_probe → k < limits.max_per_probe)
within_limits limits n k room free = (ground arith, λ h. ground arith)

claim_result-IsClaimStep :
    (limits : Limits) (c : AsyncJob) (round : Round) (t : Table) (r : Result StoreError AsyncJob)
    → leb limits.max_in_flight round.running_total ≡ false
    → (ltb 0 limits.max_per_probe
        && leb limits.max_per_probe (count_of c.probe_id round.running_by_probe))
      ≡ false
    → Moves round.table (trim_space c.id) running t r
    → IsClaimStep limits c round (claim_result round t r).0 (claim_result round t r).1
unfolding claim_result
claim_result-IsClaimStep limits c round t r room free (refused e same) =
    passed_over _ _ (rw same) (λ job h. claim_error-ne-claimed e job h)
claim_result-IsClaimStep limits c round t r room free (moved row new found same state written) =
    let (total, probe) =
      within_limits limits round.running_total (count_of c.probe_id round.running_by_probe) room
        free in
    starts _ row new total probe found same state written refl refl

module _ (truncate : String → String) where
  transition_async_job-SameJob :
      (job new : AsyncJob) (to : AsyncJobState) (opts : AsyncJobTransitionOptions) (now : ℕ)
      → transition_async_job truncate job to opts now ≡ ok new
      → SameJob job new × ((new.state ≡ to) ⊎ (new ≡ job))
  unfolding transition_async_job set_clauses
  transition_async_job-SameJob job new to opts now =
      let P : AsyncJob → Type 0 = λ n. SameJob job n × ((n.state ≡ to) ⊎ (n ≡ job)) in
      elim (Bool-cases (is_known_async_job_state to)) [
        | inr unknown ↦ rw unknown (λ h. cc)
        | inl known ↦ elim (Bool-cases (is_same job.state to)) [
          | inl same ↦
              rw (known, same) (λ h. subst P (ok_injective job new h) ((refl, refl), inr refl))
          | inr apart ↦ elim (Bool-cases (can_transition_async_job job.state to)) [
            | inr barred ↦ rw (known, apart, barred) (λ h. cc)
            | inl free ↦
                rw (known, apart, free)
                  (λ h. subst P (ok_injective _ new h) ((refl, refl), inl refl))
          ]
        ]
      ]

  pub transition_job-Moves :
      (t : Table) (id : String) (to : AsyncJobState) (opts : AsyncJobTransitionOptions) (now : ℕ)
      → let x = transition_job truncate t id to opts now in Moves t (trim_space id) to x.0 x.1
  unfolding transition_job
  transition_job-Moves t id to opts now = elim (Bool-cases (str_eq (trim_space id) "")) [
    | inl blank ↦ rw blank (refused _ refl)
    | inr named ↦ elim (Option-cases (lookup (trim_space id) t)) [
      | inl missing ↦ rw (named, missing) (refused _ refl)
      | inr (row, found) ↦ elim (Result-cases (transition_async_job truncate row to opts now)) [
        | inr (e, bad) ↦ rw (named, found, bad) (refused _ refl)
        | inl (new, fine) ↦
            let (same, state) = transition_async_job-SameJob row new to opts now fine in
            rw (named, found, fine) (moved row new found same state refl)
      ]
    ]
  ]

  pub claim_queued_job-IsClaimStep :
      (limits : Limits) (c : AsyncJob) (now : ℕ) (round : Round)
      → let x = claim_queued_job limits truncate c now round in IsClaimStep limits c round x.0 x.1
  unfolding claim_queued_job
  claim_queued_job-IsClaimStep limits c now round =
      elim (Bool-cases (leb limits.max_in_flight round.running_total)) [
        | inl full ↦ rw full (passed_over _ _ refl (λ job h. cc))
        | inr room ↦
            elim (Bool-cases (
              ltb 0 limits.max_per_probe
              && leb limits.max_per_probe (count_of c.probe_id round.running_by_probe))) [
                | inl busy ↦ rw (room, busy) (passed_over _ _ refl (λ job h. cc))
                | inr free ↦
                    let x = transition_job truncate round.table c.id running no_options now in
                    rw (room, free)
                      (claim_result-IsClaimStep limits c round x.0 x.1 room free
                        (transition_job-Moves round.table c.id running no_options now))
              ]
      ]

probe-insert_le :
    (p id : String) (job : AsyncJob) (t : Table)
    → count_where (runs_at p) (insert id job t)
      ≤ count_where (runs_at p) t + (if str_eq job.probe_id p then 1 else 0)
probe-insert_le p id job t = ground (arith, count_where-insert_le (runs_at p) id job t)

count_of-insert :
    (k p : String) (m : Map ℕ)
    → count_of p (insert k (count_of k m + 1) m) ≡ count_of p m + (if str_eq k p then 1 else 0)
count_of-insert k p m = ground (arith, lookup-insert k p (count_of k m + 1) m, eq_iff k p)

skipped_insert :
    (k i : String) (job : AsyncJob) (t : Table)
    → str_eq k i ≡ false
    → lookup i (insert k job t) ≡ lookup i t
skipped_insert k i job t h = ground (arith, lookup-insert k i job t)

written_insert :
    (k i : String) (job : AsyncJob) (t : Table)
    → str_eq k i ≡ true
    → lookup i (insert k job t) ≡ some job
written_insert k i job t h = ground (arith, lookup-insert k i job t)

module _ {limits : Limits} {c : AsyncJob} {round : Round} where
  pub IsClaimStep-IsCounted :
      (round' : Round) (claim : Claim)
      → IsClaimStep limits c round round' claim
      → IsCounted round
      → IsCounted round'
  IsClaimStep-IsCounted round' claim (passed_over _ _ same other) h = rw same h
  IsClaimStep-IsCounted round' claim
        (starts _ row job total probe found same state written more counts) h =
      record {
        total =
            rw (written, more)
              (ground (
                arith,
                h.total,
                count_where-insert_le is_running (trim_space c.id) job round.table,
              ));
        by_probe = λ p.
            rw (written, counts)
              (omega (
                arith,
                h.by_probe p,
                probe-insert_le p (trim_space c.id) job round.table,
                count_of-insert job.probe_id p round.running_by_probe,
              ));
      }

  -- No claim takes the number of running jobs above a bound that the limit does not exceed.
  pub IsClaimStep-total :
      (bound : ℕ) (round' : Round) (claim : Claim)
      → IsClaimStep limits c round round' claim
      → IsCounted round
      → limits.max_in_flight ≤ bound
      → count_where is_running round.table ≤ bound
      → count_where is_running round'.table ≤ bound
  IsClaimStep-total bound round' claim (passed_over _ _ same other) h e k = rw same k
  IsClaimStep-total bound round' claim
        (starts _ row job total probe found same state written more counts) h e k =
      rw written (
        ground (arith, h.total, count_where-insert_le is_running (trim_space c.id) job round.table))

  pub IsClaimStep-probe :
      (p : String) (bound : ℕ) (round' : Round) (claim : Claim)
      → IsClaimStep limits c round round' claim
      → IsCounted round
      → Fits round.table c
      → 0 < limits.max_per_probe
      → limits.max_per_probe ≤ bound
      → count_where (runs_at p) round.table ≤ bound
      → count_where (runs_at p) round'.table ≤ bound
  IsClaimStep-probe p bound round' claim (passed_over _ _ same other) h fits some_ e k = rw same k
  IsClaimStep-probe p bound round' claim
        (starts _ row job total probe found same state written more counts) h fits some_ e k =
      rw written (elim (Bool-cases (str_eq job.probe_id p)) [
        | inr other ↦ ground (arith, other, probe-insert_le p (trim_space c.id) job round.table)
        | inl mine ↦
            let here : c.probe_id ≡ p =
              sym (same.1 ∙ fits row found) ∙ (eq_iff job.probe_id p).0 mine in
            let below = probe some_ in
            let at_p : count_of p round.running_by_probe < limits.max_per_probe =
              subst (λ x. count_of x round.running_by_probe < limits.max_per_probe) here below in
            ground
              (arith, at_p, h.by_probe p, mine, probe-insert_le p (trim_space c.id) job round.table)
      ])

  pub IsClaimStep-IsTrimmed :
      (round' : Round) (claim : Claim)
      → IsClaimStep limits c round round' claim
      → Each IsTrimmed round.table
      → Each IsTrimmed round'.table
  IsClaimStep-IsTrimmed round' claim (passed_over _ _ same other) h = rw same h
  IsClaimStep-IsTrimmed round' claim
        (starts _ row job total probe found same state written more counts) h =
      rw written (
        Each-insert IsTrimmed (trim_space c.id) job round.table
          (rw same.1 (Each-lookup IsTrimmed (trim_space c.id) row round.table h found)) h)

  -- IsClaimStep keep the probe of every row, so a candidate still fits the table after them.
  pub IsClaimStep-Fits :
      (round' : Round) (claim : Claim) (d : AsyncJob)
      → IsClaimStep limits c round round' claim
      → Fits round.table d
      → Fits round'.table d
  IsClaimStep-Fits round' claim d (passed_over _ _ same other) h = rw same h
  IsClaimStep-Fits round' claim d
        (starts _ row job total probe found same state written more counts) h =
      rw written (λ r e. elim (Bool-cases (str_eq (trim_space c.id) (trim_space d.id))) [
        | inr other ↦ h r (sym (skipped_insert _ _ job round.table other) ∙ e)
        | inl mine ↦
            let keys = (eq_iff (trim_space c.id) (trim_space d.id)).0 mine in
            let r_job : r ≡ job =
              sym (some-injective job r (sym (written_insert _ _ job round.table mine) ∙ e)) in
            rw r_job (same.1 ∙ h row (rw (← keys) found))
      ])
