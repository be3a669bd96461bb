-- ===== src/Approval/Listing.antt =====
-- internal/controlplane/approval/queue.go: the listings of the queue, newest first. A map's order of iteration is that of its entries, which is any.
use mathlib.Core.List.{Perm}
use Prim.Native.Nat.{min}
use legator.Common.{
  ◌==◌, ℕ, String, Bool, not, ◌&&◌, ◌≡◌, refl, ap, subst, zero, suc, inl, inr, List, [], ◌∷◌, arith,
  ltb, length, take, keep, All, Bool-cases, str_eq, if◌then◌else◌,
}
use legator.Common.Map.{Map, values, map_values, delete_where}
use legator.Approval.Request.{Request, is_pending}
use legator.Approval.Sort.{
  sort_requests_by_time, IsNewestFirst, sort_requests_by_time_sorts, length-sort_requests_by_time,
}
use legator.Approval.Queue.{Queue, evict_expired, expire_request, is_stale}

abbrev pub pending_of : Queue → List Request
pending_of q = keep (λ r. is_pending r.decision) (values q.requests)

-- Pending
unfoldable pub list_pending : Queue → ℕ → Queue × List Request
list_pending q now = let q' = evict_expired now q in (q', sort_requests_by_time (pending_of q'))

-- PendingCount
unfoldable pub pending_count : Queue → ℕ → Queue × ℕ
pending_count q now = let q' = evict_expired now q in (q', length (pending_of q'))

-- The end of All and AllByWorkspace.
abbrev pub up_to : ℕ → List Request → List Request
up_to limit rs = if ltb 0 limit && ltb limit (length rs) then take limit rs else rs

-- All
unfoldable pub list_all : Queue → ℕ → List Request
list_all q limit = up_to limit (sort_requests_by_time (values q.requests))

-- The test by which PendingByWorkspace and AllByWorkspace skip a request.
abbrev pub is_foreign : String → Request → Bool
is_foreign workspace r =
    not (str_eq workspace "")
    && (not (str_eq r.workspace_id "") && not (str_eq r.workspace_id workspace))

-- PendingByWorkspace
unfoldable pub pending_by_workspace : Queue → String → ℕ → Queue × List Request
pending_by_workspace q workspace now =
    let q' = evict_expired now q in
    (
      q',
      sort_requests_by_time
          (keep (λ r. is_pending r.decision && not (is_foreign workspace r)) (values q'.requests)),
    )

-- AllByWorkspace
unfoldable pub all_by_workspace : Queue → String → ℕ → List Request
all_by_workspace q workspace limit =
    up_to limit
      (sort_requests_by_time (keep (λ r. not (is_foreign workspace r)) (values q.requests)))

-- Pending, and not past its deadline.
abbrev pub is_open_at : ℕ → Request → Bool
is_open_at now r = is_pending r.decision && not (ltb r.expires_at now)

-- What eviction leaves pending, under any further test that expiry does not change.
keep-evicted :
    (p : Request → Bool) (now : ℕ) (m : Map Request)
    → ((r : Request) → p (expire_request now r) ≡ p r)
    → keep
        (λ r. is_pending r.decision && p r)
        (values (delete_where (is_stale now) (map_values (expire_request now) m)))
      ≡ keep (λ r. is_open_at now r && p r) (values m)
unfolding values map_values delete_where expire_request is_stale
keep-evicted p now [] h = refl
keep-evicted p now ((k, r) ∷ m) h = ground (arith, h r, keep-evicted p now m h)

keep-evicted_all :
    (now : ℕ) (m : Map Request)
    → keep
        (λ r. is_pending r.decision)
        (values (delete_where (is_stale now) (map_values (expire_request now) m)))
      ≡ keep (is_open_at now) (values m)
unfolding values map_values delete_where expire_request is_stale
keep-evicted_all now [] = refl
keep-evicted_all now ((k, r) ∷ m) = ground (arith, keep-evicted_all now m)

-- Pending lists, newest first, exactly the requests that were pending and not past their deadline
-- when it was called; PendingCount is their number.
pub list_pending_lem :
    (q : Queue) (now : ℕ)
    → IsNewestFirst (list_pending q now).1
      × Perm (list_pending q now).1 (keep (is_open_at now) (values q.requests))
      × ((pending_count q now).1 ≡ length (keep (is_open_at now) (values q.requests)))
unfolding list_pending pending_count evict_expired
list_pending_lem q now =
    let (sorted, same) = sort_requests_by_time_sorts (pending_of (evict_expired now q)) in
    let e = keep-evicted_all now q.requests in (sorted, subst (Perm _) e same, ap length e)

expired_workspace :
    (workspace : String) (now : ℕ) (r : Request)
    → not (is_foreign workspace (expire_request now r)) ≡ not (is_foreign workspace r)
unfolding expire_request
expired_workspace workspace now r = ground arith

-- PendingByWorkspace lists, newest first, exactly the open requests that are not foreign.
pub pending_by_workspace_lem :
    (q : Queue) (workspace : String) (now : ℕ)
    → IsNewestFirst (pending_by_workspace q workspace now).1
      × Perm
          (pending_by_workspace q workspace now).1
          (keep (λ r. is_open_at now r && not (is_foreign workspace r)) (values q.requests))
unfolding pending_by_workspace evict_expired
pending_by_workspace_lem q workspace now =
    let (sorted, same) = sort_requests_by_time_sorts _ in
    let same_workspace : (r : Request)
        → not (is_foreign workspace (expire_request now r)) ≡ not (is_foreign workspace r) =
      expired_workspace workspace now in
    (
      sorted,
      subst (Perm _)
          (keep-evicted (λ r. not (is_foreign workspace r)) now q.requests same_workspace) same,
    )

pub All-take {ℓ} : (P : Request → Type ℓ) (n : ℕ) (xs : List Request) → All P xs → All P (take n xs)
All-take P zero xs h = tt
All-take P (suc n) [] h = tt
All-take P (suc n) (x ∷ xs) h = (h.0, All-take P n xs h.1)

IsNewestFirst-take : (n : ℕ) (xs : List Request) → IsNewestFirst xs → IsNewestFirst (take n xs)
IsNewestFirst-take zero xs h = tt
IsNewestFirst-take (suc n) [] h = tt
IsNewestFirst-take (suc n) (x ∷ xs) h = (All-take _ n xs h.0, IsNewestFirst-take n xs h.1)

length-take : (n : ℕ) (xs : List Request) → length (take n xs) ≡ min n (length xs)
length-take zero xs = omega arith
length-take (suc n) [] = omega arith
length-take (suc n) (x ∷ xs) = omega (arith, length-take n xs)

up_to-length :
    (limit : ℕ) (rs : List Request)
    → length (up_to limit rs) ≡ (if limit == 0 then length rs else min limit (length rs))
up_to-length limit rs = ground (arith, length-take limit rs)

up_to-IsNewestFirst :
    (limit : ℕ) (rs : List Request) → IsNewestFirst rs → IsNewestFirst (up_to limit rs)
up_to-IsNewestFirst limit rs h = elim (Bool-cases (ltb 0 limit && ltb limit (length rs))) [
  | inl cut ↦ rw cut (IsNewestFirst-take limit rs h)
  | inr whole ↦ rw whole h
]

-- All returns requests newest first: all of them for the limit 0, and else as many as the limit
-- allows.
pub list_all_lem :
    (q : Queue) (limit : ℕ)
    → IsNewestFirst (list_all q limit)
      × (length (list_all q limit) ≡ (
          if limit == 0
          then length (values q.requests)
          else min limit (length (values q.requests))))
      × Perm (list_all q 0) (values q.requests)
unfolding list_all
list_all_lem q limit =
    let rs = sort_requests_by_time (values q.requests) in
    let (sorted, same) = sort_requests_by_time_sorts (values q.requests) in
    let n : length rs ≡ length (values q.requests) =
      length-sort_requests_by_time (values q.requests) in
    (up_to-IsNewestFirst limit rs sorted, ground (arith, up_to-length limit rs, n), same)
