-- ===== src/Approval/Workspace.antt =====
-- internal/controlplane/approval/queue.go: what a caller of one workspace is shown.
use legator.Common.{
  ℕ, String, Bool, true, false, not, ◌&&◌, ◌≡◌, ◌≢◌, ◌⊎◌, inl, inr, Option, none, some, List, [],
  ◌∷◌, arith, ltb, length, keep, All, Bool-cases, eq_iff, if◌then◌else◌,
}
use legator.Common.Map.{values}
use legator.Approval.Request.{Request, is_pending}
use legator.Approval.Queue.{Queue, evict_expired, get, get_check_workspace}
use legator.Approval.Sort.{All-sort_requests_by_time}
use legator.Approval.Listing.{is_foreign, pending_by_workspace, all_by_workspace, up_to, All-take}

-- The request is of this workspace, or of none.
abbrev pub IsVisible : String → Request → Type 0
IsVisible workspace r = (r.workspace_id ≡ "") ⊎ (r.workspace_id ≡ workspace)

-- The property of the value, if there is one.
abbrev pub OfSome : (Request → Type 0) → Option Request → Type 0
OfSome P none = Unit
OfSome P (some r) = P r

IsVisible-of_test :
    (workspace : String) (r : Request)
    → workspace ≢ ""
    → is_foreign workspace r ≡ false
    → IsVisible workspace r
IsVisible-of_test workspace r named h =
    ground (arith, eq_iff workspace "", eq_iff r.workspace_id "", eq_iff r.workspace_id workspace)

module _ (workspace : String) (named : workspace ≢ "") where
  keep-IsVisible :
      (p : Request → Bool) (rs : List Request)
      → ((r : Request) → p r ≡ true → is_foreign workspace r ≡ false)
      → All (IsVisible workspace) (keep p rs)
  keep-IsVisible p [] h = tt
  keep-IsVisible p (r ∷ rs) h = elim (Bool-cases (p r)) [
    | inl kept ↦ rw kept (IsVisible-of_test workspace r named (h r kept), keep-IsVisible p rs h)
    | inr dropped ↦ rw dropped (keep-IsVisible p rs h)
  ]

  up_to-IsVisible :
      (limit : ℕ) (rs : List Request)
      → All (IsVisible workspace) rs
      → All (IsVisible workspace) (up_to limit rs)
  up_to-IsVisible limit rs h = elim (Bool-cases (ltb 0 limit && ltb limit (length rs))) [
    | inl cut ↦ rw cut (All-take _ limit rs h)
    | inr whole ↦ rw whole h
  ]

-- For a caller with a workspace, AllByWorkspace, PendingByWorkspace and GetCheckWorkspace show no
-- request of another workspace.
pub workspace_isolation :
    (q : Queue) (workspace id : String) (limit now : ℕ)
    → workspace ≢ ""
    → All (IsVisible workspace) (all_by_workspace q workspace limit)
      × All (IsVisible workspace) (pending_by_workspace q workspace now).1
      × OfSome (IsVisible workspace) (get_check_workspace q id workspace)
unfolding all_by_workspace pending_by_workspace get_check_workspace
workspace_isolation q workspace id limit now named = (
  up_to-IsVisible workspace named limit _ (
      All-sort_requests_by_time _ _ (
        keep-IsVisible workspace named (λ r. not (is_foreign workspace r)) _
          (λ r h. ground arith))),
  All-sort_requests_by_time _ _ (
      keep-IsVisible workspace named (λ r. is_pending r.decision && not (is_foreign workspace r))
        (values (evict_expired now q).requests) (λ r h. ground arith)),
  shown (get q id),
)
  where
    shown :
        (o : Option Request)
        → OfSome
            (IsVisible workspace)
            (elim o [ none ↦ none | some r ↦ if is_foreign workspace r then none else some r ])
    shown none = tt
    shown (some r) = elim (Bool-cases (is_foreign workspace r)) [
      | inl other ↦ rw other tt
      | inr own ↦ rw own (IsVisible-of_test workspace r named own)
    ]
