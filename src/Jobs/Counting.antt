-- ===== src/Jobs/Counting.antt =====
-- internal/controlplane/jobs/async_store.go: what a write to the table does to the counts of its rows, and
-- what the counts by probe say of the rows.
use legator.Common.{
  ℕ, suc, ◌+◌, ◌≤◌, String, Bool, ◌&&◌, ◌≡◌, refl, inl, inr, none, some, [], ◌∷◌, arith,
  if◌then◌else◌, str_eq, eq_iff, Bool-cases, Option-cases, ◌∙◌,
}
use legator.Common.Text.{trim_space}
use legator.Common.Map.{
  Map, lookup, insert, lookup-insert, Each, Each-insert, Distinct, Distinct-insert,
}
use legator.Jobs.Row.{AsyncJob}
use legator.Jobs.Table.{
  Table, count_where, is_running, bump, running_groups, trim_keys, running_async_jobs_by_probe,
}
use legator.Jobs.Drain.{count_of, sum_of}

pub count_where-insert_le :
    (p : AsyncJob → Bool) (id : String) (job : AsyncJob) (t : Table)
    → count_where p (insert id job t) ≤ count_where p t + (if p job then 1 else 0)
unfolding count_where insert
count_where-insert_le p id job [] = ground arith
count_where-insert_le p id job ((i, j) ∷ t) = ground (arith, count_where-insert_le p id job t)

-- A running row of a probe.
abbrev pub runs_at : String → AsyncJob → Bool
runs_at probe_id job = is_running job && str_eq job.probe_id probe_id

sum_of-insert_new :
    (k : String) (n : ℕ) (m : Map ℕ) → lookup k m ≡ none → sum_of (insert k n m) ≡ sum_of m + n
unfolding sum_of insert lookup
sum_of-insert_new k n [] h = omega arith
sum_of-insert_new k n ((i, v) ∷ m) h = ground (arith, sum_of-insert_new k n m)

sum_of-insert_old :
    (k : String) (n v : ℕ) (m : Map ℕ)
    → lookup k m ≡ some v
    → sum_of (insert k n m) + v ≡ sum_of m + n
unfolding sum_of insert lookup
sum_of-insert_old k n v [] h = cc
sum_of-insert_old k n v ((i, w) ∷ m) h = ground (arith, sum_of-insert_old k n v m)

sum_of-bump : (k : String) (m : Map ℕ) → sum_of (bump k m) ≡ sum_of m + 1
unfolding bump
sum_of-bump k m = elim (Option-cases (lookup k m)) [
  | inl absent ↦ rw absent (sum_of-insert_new k 1 m absent)
  | inr (v, there) ↦ rw there (omega (arith, sum_of-insert_old k (suc v) v m there))
]

count_of-bump :
    (k j : String) (m : Map ℕ)
    → count_of j (bump k m) ≡ count_of j m + (if str_eq k j then 1 else 0)
unfolding bump
count_of-bump k j m = elim (Option-cases (lookup k m)) [
  | inl absent ↦ rw absent (ground (arith, absent, lookup-insert k j 1 m, eq_iff k j))
  | inr (v, there) ↦ rw there (ground (arith, there, lookup-insert k j (suc v) m, eq_iff k j))
]

Distinct-running_groups : (t : Table) → Distinct (running_groups t)
unfolding running_groups bump
Distinct-running_groups [] = tt
Distinct-running_groups ((id, job) ∷ t) = elim (Bool-cases (is_running job)) [
  | inl runs ↦ rw runs (Distinct-insert job.probe_id _ _ (Distinct-running_groups t))
  | inr idle ↦ rw idle (Distinct-running_groups t)
]

-- The rows' probes are trimmed, as CreateAsyncJob writes them.
abbrev pub IsTrimmed : String → AsyncJob → Type 0
IsTrimmed id job = trim_space job.probe_id ≡ job.probe_id

abbrev TrimmedKey : String → ℕ → Type 0
TrimmedKey key n = trim_space key ≡ key

trimmed-running_groups : (t : Table) → Each IsTrimmed t → Each TrimmedKey (running_groups t)
unfolding running_groups bump
trimmed-running_groups [] h = tt
trimmed-running_groups ((id, job) ∷ t) h = elim (Bool-cases (is_running job)) [
  | inl runs ↦ rw runs (Each-insert TrimmedKey job.probe_id _ _ h.0 (trimmed-running_groups t h.1))
  | inr idle ↦ rw idle (trimmed-running_groups t h.1)
]

lookup-trim_keys :
    (k : String) (m : Map ℕ) → Each TrimmedKey m → lookup k (trim_keys m) ≡ lookup k m
unfolding trim_keys lookup
lookup-trim_keys k [] h = refl
lookup-trim_keys k ((i, n) ∷ m) h =
    lookup-insert (trim_space i) k n (trim_keys m)
    ∙ rw h.0 (ground (arith, lookup-trim_keys k m h.1))

sum_of-trim_keys : (m : Map ℕ) → Each TrimmedKey m → Distinct m → sum_of (trim_keys m) ≡ sum_of m
unfolding trim_keys sum_of
sum_of-trim_keys [] h d = refl
sum_of-trim_keys ((i, n) ∷ m) h d = rw h.0 (
    omega (
      arith,
      sum_of-insert_new i n (trim_keys m) (lookup-trim_keys i m h.1 ∙ d.0),
      sum_of-trim_keys m h.1 d.1,
    ))

sum_of-running_groups : (t : Table) → sum_of (running_groups t) ≡ count_where is_running t
unfolding running_groups count_where
sum_of-running_groups [] = unfold sum_of in refl
sum_of-running_groups ((id, job) ∷ t) = elim (Bool-cases (is_running job)) [
  | inl runs ↦
      rw runs (omega (arith, sum_of-bump job.probe_id (running_groups t), sum_of-running_groups t))
  | inr idle ↦ rw idle (omega (arith, sum_of-running_groups t))
]

count_of-running_groups :
    (p : String) (t : Table) → count_of p (running_groups t) ≡ count_where (runs_at p) t
unfolding running_groups count_where
count_of-running_groups p [] = unfold lookup in refl
count_of-running_groups p ((id, job) ∷ t) = elim (Bool-cases (is_running job)) [
  | inl runs ↦
      rw runs (
        omega (arith, count_of-bump job.probe_id p (running_groups t), count_of-running_groups p t))
  | inr idle ↦ rw idle (omega (arith, count_of-running_groups p t))
]

-- Where the probes are trimmed, the scheduler's total is the number of running rows.
pub sum_of-running_async_jobs_by_probe :
    (t : Table)
    → Each IsTrimmed t
    → sum_of (running_async_jobs_by_probe t) ≡ count_where is_running t
unfolding running_async_jobs_by_probe
sum_of-running_async_jobs_by_probe t h =
    sum_of-trim_keys (running_groups t) (trimmed-running_groups t h) (Distinct-running_groups t)
    ∙ sum_of-running_groups t

-- And its count for a probe is the number of that probe's running rows.
pub count_of-running_async_jobs_by_probe :
    (p : String) (t : Table)
    → Each IsTrimmed t
    → count_of p (running_async_jobs_by_probe t) ≡ count_where (runs_at p) t
unfolding running_async_jobs_by_probe
count_of-running_async_jobs_by_probe p t h =
    rw (lookup-trim_keys p (running_groups t) (trimmed-running_groups t h), count_of)
      (count_of-running_groups p t)
