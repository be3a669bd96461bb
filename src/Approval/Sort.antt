-- ===== src/Approval/Sort.antt =====
-- internal/controlplane/approval/queue.go: the insertion sort behind the listings.
use mathlib.Core.List.{Perm, perm_middle}
use mathlib.Core.List.Perm
use legator.Common.{
  ℕ, suc, ◌+◌, ◌≤◌, ◌≡◌, refl, inl, inr, List, [], ◌∷◌, ◌++◌, arith, ltb, ltb→lt, ltb→le, length,
  All, Bool-cases, if◌then◌else◌,
}
use legator.Approval.Request.{Request}

-- The inner loop: the new element moves past the older ones. The sorted part of the slice is read
-- from its end.
shift : Request → List Request → List Request
shift x [] = x ∷ []
shift x (y ∷ ys) = if ltb y.created_at x.created_at then y ∷ shift x ys else x ∷ y ∷ ys

-- A list in front of another, read from its end.
onto : List Request → List Request → List Request
onto [] acc = acc
onto (x ∷ xs) acc = onto xs (x ∷ acc)

-- The outer loop, with the sorted part and the rest of the slice.
sort_from : List Request → List Request → List Request
unfolding onto shift
sort_from done [] = onto done []
sort_from done (x ∷ xs) = sort_from (shift x done) xs

-- sortRequestsByTime
unfoldable pub sort_requests_by_time : List Request → List Request
unfolding sort_from
sort_requests_by_time reqs = sort_from [] reqs

-- Newest first: no request was made after one that stands before it.
abbrev pub IsNewestFirst : List Request → Type 0
IsNewestFirst [] = Unit {0}
IsNewestFirst (x ∷ xs) = All (λ y. y.created_at ≤ x.created_at) xs × IsNewestFirst xs

abbrev IsOldestFirst : List Request → Type 0
IsOldestFirst [] = Unit {0}
IsOldestFirst (x ∷ xs) = All (λ y. x.created_at ≤ y.created_at) xs × IsOldestFirst xs

shift-perm : (x : Request) (xs : List Request) → Perm (shift x xs) (x ∷ xs)
unfolding shift
shift-perm x [] = Perm.refl _
shift-perm x (y ∷ ys) = elim (Bool-cases (ltb y.created_at x.created_at)) [
  | inl older ↦ rw older (Perm.trans (Perm.cons y (shift-perm x ys)) (Perm.swap x y ys))
  | inr newer ↦ rw newer (Perm.refl _)
]

onto-perm : (xs acc : List Request) → Perm (onto xs acc) (xs ++ acc)
unfolding onto
onto-perm [] acc = Perm.refl acc
onto-perm (x ∷ xs) acc = Perm.trans (onto-perm xs (x ∷ acc)) (perm_middle xs acc)

sort_from-perm : (done xs : List Request) → Perm (sort_from done xs) (done ++ xs)
unfolding sort_from
sort_from-perm done [] = onto-perm done []
sort_from-perm done (x ∷ xs) =
    Perm.trans (sort_from-perm (shift x done) xs) (
      Perm.trans (Perm.append (shift-perm x done) (Perm.refl xs)) (Perm.symm (perm_middle done xs)))

at_most-shift :
    (t : ℕ) (x : Request) (xs : List Request)
    → t ≤ x.created_at
    → All (λ y. t ≤ y.created_at) xs
    → All (λ y. t ≤ y.created_at) (shift x xs)
unfolding shift
at_most-shift t x [] h a = (h, tt)
at_most-shift t x (y ∷ ys) h a = elim (Bool-cases (ltb y.created_at x.created_at)) [
  | inl older ↦ rw older (a.0, at_most-shift t x ys h a.1)
  | inr newer ↦ rw newer (h, a)
]

at_most_trans :
    (s t : ℕ) (xs : List Request)
    → s ≤ t
    → All (λ y. t ≤ y.created_at) xs
    → All (λ y. s ≤ y.created_at) xs
at_most_trans s t [] h a = tt
at_most_trans s t (x ∷ xs) h a = (omega arith, at_most_trans s t xs h a.1)

shift-IsOldestFirst :
    (x : Request) (xs : List Request) → IsOldestFirst xs → IsOldestFirst (shift x xs)
unfolding shift
shift-IsOldestFirst x [] h = (tt, tt)
shift-IsOldestFirst x (y ∷ ys) h = elim (Bool-cases (ltb y.created_at x.created_at)) [
  | inl older ↦ rw older (
    at_most-shift y.created_at x ys (omega (arith, ltb→lt _ _ older)) h.0,
    shift-IsOldestFirst x ys h.1,
  )
  | inr newer ↦
      let n = ltb→le _ _ newer in
      rw newer ((n, at_most_trans x.created_at y.created_at ys n h.0), h)
]

-- Every request of the first list is at least as new as all of the second.
abbrev Over : List Request → List Request → Type 0
Over xs acc = All (λ x. All (λ a. a.created_at ≤ x.created_at) acc) xs

Over-cons :
    (x : Request) (xs acc : List Request)
    → All (λ y. x.created_at ≤ y.created_at) xs
    → Over xs acc
    → Over xs (x ∷ acc)
Over-cons x [] acc h o = tt
Over-cons x (y ∷ ys) acc h o = ((h.0, o.0), Over-cons x ys acc h.1 o.1)

onto-IsNewestFirst :
    (xs acc : List Request)
    → IsOldestFirst xs
    → IsNewestFirst acc
    → Over xs acc
    → IsNewestFirst (onto xs acc)
unfolding onto
onto-IsNewestFirst [] acc h n o = n
onto-IsNewestFirst (x ∷ xs) acc h n o =
    onto-IsNewestFirst xs (x ∷ acc) h.1 (o.0, n) (Over-cons x xs acc h.0 o.1)

Over-nil : (xs : List Request) → Over xs []
Over-nil [] = tt
Over-nil (x ∷ xs) = (tt, Over-nil xs)

sort_from-IsNewestFirst :
    (done xs : List Request) → IsOldestFirst done → IsNewestFirst (sort_from done xs)
unfolding sort_from
sort_from-IsNewestFirst done [] h = onto-IsNewestFirst done [] h tt (Over-nil done)
sort_from-IsNewestFirst done (x ∷ xs) h =
    sort_from-IsNewestFirst (shift x done) xs (shift-IsOldestFirst x done h)

-- The insertion sort returns the same requests, newest first.
pub sort_requests_by_time_sorts :
    (rs : List Request)
    → IsNewestFirst (sort_requests_by_time rs) × Perm (sort_requests_by_time rs) rs
unfolding sort_requests_by_time
sort_requests_by_time_sorts rs = (sort_from-IsNewestFirst [] rs tt, sort_from-perm [] rs)

length-shift : (x : Request) (xs : List Request) → length (shift x xs) ≡ suc (length xs)
unfolding shift
length-shift x [] = refl
length-shift x (y ∷ ys) = ground (arith, length-shift x ys)

length-onto : (xs acc : List Request) → length (onto xs acc) ≡ length xs + length acc
unfolding onto
length-onto [] acc = omega arith
length-onto (x ∷ xs) acc = omega (arith, length-onto xs (x ∷ acc))

length-sort_from : (done xs : List Request) → length (sort_from done xs) ≡ length done + length xs
unfolding sort_from
length-sort_from done [] = length-onto done []
length-sort_from done (x ∷ xs) =
    omega (arith, length-sort_from (shift x done) xs, length-shift x done)

pub length-sort_requests_by_time :
    (rs : List Request) → length (sort_requests_by_time rs) ≡ length rs
unfolding sort_requests_by_time
length-sort_requests_by_time rs = omega (arith, length-sort_from [] rs)

module _ {ℓ} (P : Request → Type ℓ) where
  All-shift : (x : Request) (xs : List Request) → P x → All P xs → All P (shift x xs)
  unfolding shift
  All-shift x [] h a = (h, tt)
  All-shift x (y ∷ ys) h a = elim (Bool-cases (ltb y.created_at x.created_at)) [
    | inl older ↦ rw older (a.0, All-shift x ys h a.1)
    | inr newer ↦ rw newer (h, a)
  ]

  All-onto : (xs acc : List Request) → All P xs → All P acc → All P (onto xs acc)
  unfolding onto
  All-onto [] acc h a = a
  All-onto (x ∷ xs) acc h a = All-onto xs (x ∷ acc) h.1 (h.0, a)

  All-sort_from : (done xs : List Request) → All P done → All P xs → All P (sort_from done xs)
  unfolding sort_from
  All-sort_from done [] h a = All-onto done [] h tt
  All-sort_from done (x ∷ xs) h a = All-sort_from (shift x done) xs (All-shift x done a.0 h) a.1

  pub All-sort_requests_by_time : (rs : List Request) → All P rs → All P (sort_requests_by_time rs)
  unfolding sort_requests_by_time
  All-sort_requests_by_time rs a = All-sort_from [] rs tt a
