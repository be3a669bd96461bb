-- ===== src/Jobs/InFlight.antt =====
-- internal/controlplane/jobs/async_scheduler.go and async_manager.go: over any calls that do not start
-- jobs past the scheduler, the running jobs stay within the limits.
use Prim.Native.Char.{Char}
use legator.Common.{
  ℕ, ◌≤◌, String, Bool, false, ◌&&◌, ◌≡◌, refl, sym, ap, ◌∙◌, inl, inr, ◌⊎◌, subst, Option, some,
  [], ◌∷◌, arith, ltb, leb, if◌then◌else◌, str_eq, Bool-cases, Option-cases, Result-cases, Result,
  ok, err,
}
use mathlib.Core.Option.{some-injective}
use legator.Common.Text.{trim_space, trim_space_idem}
use legator.Common.Map.{lookup, insert, Each-insert, Each-lookup, Distinct-insert}
use legator.Jobs.State.{AsyncJobState, queued, running, failed, is_same, is_known_async_job_state}
use legator.Jobs.Row.{AsyncJob, AsyncJobTransitionOptions}
use legator.Jobs.Table.{
  Table, StoreError, count_where, is_running, has_request, count_async_jobs_by_state, get_async_job,
  transition_job, prepared, insert_job, create_async_job,
}
use legator.Jobs.Drain.{
  global_limit, probe_limit, state_changed, Limits, Round, Claim, claimed, claim_failed, new_round,
  no_options, claim_queued_job,
}
use legator.Jobs.Scheduler.{
  dispatch_claimed_sync, dispatch_claim, dispatch_now, store_result, create_job,
}
use legator.Jobs.Counting.{runs_at, IsTrimmed, count_where-insert_le}
use legator.Jobs.Claiming.{
  Moves, refused, moved, transition_job-Moves, claim_queued_job-IsClaimStep,
}
use legator.Jobs.Limits.{IsStored, IsWithin, IsClaimStep-IsWithin, row-Fits, new_round-IsCounted}

-- Writing back what is there counts nothing more.
count_where-insert_same :
    (p : AsyncJob → Bool) (id : String) (job : AsyncJob) (t : Table)
    → lookup id t ≡ some job
    → count_where p (insert id job t) ≡ count_where p t
unfolding count_where insert lookup
count_where-insert_same p id job [] h = cc
count_where-insert_same p id job ((i, j) ∷ t) h = elim (Bool-cases (str_eq i id)) [
  | inl e ↦ rw (e, some-injective j job (rw e at h))
  | inr e ↦ rw e (omega (arith, count_where-insert_same p id job t (rw e at h)))
]

-- A row that does not run, or is what it was, adds no running row.
pub quiet_write :
    (p : AsyncJob → Bool) (id : String) (row new : AsyncJob) (t : Table)
    → lookup id t ≡ some row
    → (p new ≡ false) ⊎ (new ≡ row)
    → count_where p (insert id new t) ≤ count_where p t
quiet_write p id row new t found (inl idle) = ground (arith, idle, count_where-insert_le p id new t)
quiet_write p id row new t found (inr same) =
    omega (arith, count_where-insert_same p id new t (found ∙ ap some (sym same)))

pub idle_state :
    (p : String) (to : AsyncJobState) (new : AsyncJob)
    → is_same to running ≡ false
    → new.state ≡ to
    → (is_running new ≡ false) × (runs_at p new ≡ false)
idle_state p to new idle e = (rw e idle, ground (arith, ap (λ s. is_same s running) e))

-- A transition to a state other than running keeps the limits.
Moves-IsWithin :
    (limits : Limits) (t : Table) (key : String) (to : AsyncJobState) (t' : Table)
    (r : Result StoreError AsyncJob)
    → is_same to running ≡ false
    → Moves t key to t' r
    → IsWithin limits t
    → IsWithin limits t'
Moves-IsWithin limits t key to t' r idle (refused e same) w = rw same w
Moves-IsWithin limits t key to t' r idle (moved row new found same state written) w =
    let (id_key, trimmed_key) = Each-lookup IsStored key row t w.stored found in
    rw written (record {
      distinct = Distinct-insert key new t w.distinct;
      stored = Each-insert IsStored key new t (same.0 ∙ id_key, trimmed_key) w.stored;
      trimmed =
          Each-insert IsTrimmed key new t
            (rw same.1 (Each-lookup IsTrimmed key row t w.trimmed found)) w.trimmed;
      total = omega (arith, w.total, quiet_write is_running key row new t found quiet);
      by_probe = λ some_ p.
          omega
            (arith, w.by_probe some_ p, quiet_write (runs_at p) key row new t found (quiet_at p));
    })
  where
    quiet : (is_running new ≡ false) ⊎ (new ≡ row)
    quiet = elim state [ inl e ↦ inl (idle_state "" to new idle e).0 | inr e ↦ inr e ]

    quiet_at : (p : String) → (runs_at p new ≡ false) ⊎ (new ≡ row)
    quiet_at p = elim state [ inl e ↦ inl (idle_state p to new idle e).1 | inr e ↦ inr e ]

get_async_job-found :
    (t : Table) (id : String) (job : AsyncJob)
    → get_async_job t id ≡ ok job
    → lookup (trim_space id) t ≡ some job
unfolding get_async_job
get_async_job-found t id job h = ground arith

-- A new job waits, so it adds no running row.
row_id :
    (id new_id : String)
    → trim_space id ≡ id
    → trim_space new_id ≡ new_id
    → trim_space (if str_eq (trim_space id) "" then new_id else id)
      ≡ (if str_eq (trim_space id) "" then new_id else id)
row_id id new_id h k = elim (Bool-cases (str_eq (trim_space id) "")) [
  | inl e ↦ rw e k
  | inr e ↦ rw e h
]

insert_job-IsWithin :
    (limits : Limits) (t : Table) (row : AsyncJob)
    → is_running row ≡ false
    → trim_space row.id ≡ row.id
    → trim_space row.probe_id ≡ row.probe_id
    → IsWithin limits t
    → IsWithin limits (insert_job t row).0
unfolding insert_job
insert_job-IsWithin limits t row idle id_trimmed probe_trimmed w =
    elim (Option-cases (lookup row.id t)) [
      | inr (taken, found) ↦ rw (found, insert_job) w
      | inl free ↦ elim (Bool-cases (has_request row.request_id t)) [
        | inl taken ↦ rw (free, taken, insert_job) w
        | inr fresh ↦
            rw (free, fresh, insert_job)
              (record {
                distinct = Distinct-insert row.id row t w.distinct;
                stored = Each-insert IsStored row.id row t (refl, id_trimmed) w.stored;
                trimmed = Each-insert IsTrimmed row.id row t probe_trimmed w.trimmed;
                total =
                    ground (arith, w.total, idle, count_where-insert_le is_running row.id row t);
                by_probe = λ some_ p. ground (
                  arith,
                  w.by_probe some_ p,
                  idle,
                  count_where-insert_le (runs_at p) row.id row t,
                );
              })
      ]
    ]

pub store_result-table : (x : Table × Result StoreError AsyncJob) → (store_result x).0 ≡ x.0
store_result-table (t, ok job) = refl
store_result-table (t, err e) = refl

create_async_job-IsWithin :
    (limits : Limits) (lower : Char → Char) (truncate : String → String) (t : Table)
    (job : AsyncJob) (new_id new_request : String) (now : ℕ)
    → job.state ≡ queued
    → trim_space job.id ≡ job.id
    → trim_space new_id ≡ new_id
    → IsWithin limits t
    → IsWithin limits (create_async_job lower truncate t job new_id new_request now).0
unfolding create_async_job prepared is_same
create_async_job-IsWithin limits lower truncate t job new_id new_request now waits trimmed fresh w =
    let row = prepared lower truncate job new_id new_request now in
    elim (Bool-cases (str_eq row.probe_id "")) [
      | inl e ↦ rw e w
      | inr e ↦ elim (Bool-cases (str_eq row.command "")) [
        | inl f ↦ rw (e, f) w
        | inr f ↦ elim (Bool-cases (is_known_async_job_state row.state)) [
          | inr g ↦ rw (e, f, g) w
          | inl g ↦
              rw (e, f, g)
                (insert_job-IsWithin limits t row (rw waits) (row_id job.id new_id trimmed fresh)
                  (trim_space_idem job.probe_id) w)
        ]
      ]
    ]

module _ (limits : Limits) (truncate : String → String) where
  pub create_job-IsWithin :
      (depth : ℕ) (lower : Char → Char) (t : Table) (job : AsyncJob) (new_id new_request : String)
      (now : ℕ)
      → trim_space job.id ≡ job.id
      → trim_space new_id ≡ new_id
      → IsWithin limits t
      → IsWithin limits (create_job depth lower truncate t job new_id new_request now).0
  unfolding create_job
  create_job-IsWithin depth lower t job new_id new_request now trimmed fresh w =
      let queue_depth = count_async_jobs_by_state (queued ∷ []) t in
      elim (Bool-cases (ltb 0 depth && leb depth queue_depth)) [
        | inl full ↦ rw full w
        | inr room ↦ rw room (
            subst (IsWithin limits) (sym (store_result-table _)) (
              create_async_job-IsWithin limits lower truncate t (record job { state = queued })
                new_id new_request now refl trimmed fresh w))
      ]

  pub finish-IsWithin :
      (t : Table) (id : String) (to : AsyncJobState) (opts : AsyncJobTransitionOptions) (now : ℕ)
      → is_same to running ≡ false
      → IsWithin limits t
      → IsWithin limits (transition_job truncate t id to opts now).0
  finish-IsWithin t id to opts now idle w =
      Moves-IsWithin limits t (trim_space id) to _ _ idle
        (transition_job-Moves truncate t id to opts now) w

  dispatch_claimed_sync-IsWithin :
      (dispatch : AsyncJob → Option String) (job : AsyncJob) (now : ℕ) (t : Table)
      → IsWithin limits t
      → IsWithin limits (dispatch_claimed_sync truncate dispatch job now t).0
  unfolding dispatch_claimed_sync is_same
  dispatch_claimed_sync-IsWithin dispatch job now t w = elim (Option-cases (dispatch job)) [
    | inl fine ↦ rw (fine, dispatch_claimed_sync) w
    | inr (e, bad) ↦
        rw (bad, dispatch_claimed_sync)
          (finish-IsWithin t job.id failed (record no_options { status_reason = e; output = e }) now
            refl w)
  ]

  dispatch_claim-IsWithin :
      (dispatch : AsyncJob → Option String) (job : AsyncJob) (done : ℕ) (round : Round)
      (claim : Claim)
      → IsWithin limits round.table
      → IsWithin limits (dispatch_claim truncate dispatch job done (round, claim)).0
  unfolding dispatch_claim
  dispatch_claim-IsWithin dispatch job done round (claimed c) w =
      dispatch_claimed_sync-IsWithin dispatch c done round.table w
  dispatch_claim-IsWithin dispatch job done round global_limit w = w
  dispatch_claim-IsWithin dispatch job done round probe_limit w = w
  dispatch_claim-IsWithin dispatch job done round state_changed w = w
  dispatch_claim-IsWithin dispatch job done round (claim_failed e) w = w

  pub dispatch_now-IsWithin :
      (dispatch : AsyncJob → Option String) (t : Table) (id : String) (now done : ℕ)
      → IsWithin limits t
      → IsWithin limits (dispatch_now limits truncate dispatch t id now done).0
  unfolding dispatch_now
  dispatch_now-IsWithin dispatch t id now done w = elim (Result-cases (get_async_job t id)) [
    | inr (e, bad) ↦ rw (bad, dispatch_now) w
    | inl (job, fine) ↦ elim (Bool-cases (is_same job.state queued)) [
      | inr busy ↦ rw (fine, busy, dispatch_now) w
      | inl waits ↦
          let x = claim_queued_job limits truncate job now (new_round t) in
          rw (fine, waits, dispatch_now)
            (dispatch_claim-IsWithin dispatch job done x.0 x.1 (
              IsClaimStep-IsWithin x.0 x.1
                (claim_queued_job-IsClaimStep truncate limits job now (new_round t))
                (new_round-IsCounted t w.trimmed)
                (unfold new_round in
                  row-Fits t (trim_space id) job w.stored (get_async_job-found t id job fine))
                (unfold new_round in w)))
    ]
  ]
