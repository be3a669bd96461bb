-- ===== src/Approval/Tests.antt =====
-- internal/controlplane/approval/queue.go: a two-person request that two operators approve.
use legator.Common.{
  true, false, ◌≡◌, ◌≢◌, refl, inl, none, some, List, [], ◌∷◌, ok, All, ◌⊎◌, ◌↔◌, keep, arith,
  length,
}
use legator.Common.Ascii.{ascii_lower}
use legator.Common.Text.{trim_space, equal_fold, ne_of_str_eq, map_chars, join_space, has_prefix_in}
use legator.Common.Map.{lookup, insert, map_values, delete_where, values}
use legator.Protocol.{CommandPayload, observe, diagnose, remediate}
use legator.Approval.Request.{
  approved, denied, pending, Request, decide_request, required_approval_count,
}
use legator.Approval.Queue.{
  Queue, Submission, new_queue, evict_expired, expire_request, is_stale, submit, decide, get,
  get_check_workspace,
}
use legator.Approval.History.{
  Call, submits, decides, sweeps, step, run, run-new_queue-IsSoundQueue, approved_by_quorum,
  IsSoundQueue,
}
use legator.Approval.Quorum.{AreApart, IsNamed}
use legator.Approval.Finality.{Holds, decided_is_final}
use mathlib.Core.List.{Perm}
use legator.Approval.Sort.{IsNewestFirst}
use legator.Approval.Listing.{
  is_open_at, list_pending, pending_count, list_pending_lem, all_by_workspace, pending_by_workspace,
}
use legator.Approval.Workspace.{IsVisible, OfSome, workspace_isolation}
use legator.Approval.Risk.{
  needs_approval, classify_risk, is_critical, command_line, IsMutating, IsUnknown,
  needs_approval_iff,
}
use legator.Approval.Deciding.{Accepts, IsOpen, decide-Accepts, decide_open}
use legator.Approval.Repeated.{same_actor_refused}

abbrev restart : CommandPayload
restart = record {
  request_id = "r1";
  command = "systemctl";
  args = "restart" ∷ "nginx" ∷ [];
  timeout = 0;
  level = remediate;
  stream = false;
}

abbrev two_person : Submission
two_person = record {
  probe_id = "web-03";
  command = some restart;
  reason = "deploy";
  risk_level = "high";
  requester = "api";
  policy_decision = "queue";
  policy_rationale = none;
  require_second_approver = true;
}

abbrev asked : Request
asked = record {
  id = "a1";
  workspace_id = "";
  probe_id = "web-03";
  command = some restart;
  reason = "deploy";
  risk_level = "high";
  requester = "api";
  policy_decision = "queue";
  policy_rationale = none;
  require_second_approver = true;
  required_approvals = 2;
  approvals = [];
  decision = pending;
  decided_by = "";
  decided_at = none;
  created_at = 5;
  expires_at = 105;
}

abbrev approved_twice : Request
approved_twice = record asked {
  approvals =
      record { actor = "ann"; timestamp = 21 } ∷ record { actor = "bob"; timestamp = 31 } ∷ [];
  decision = approved;
  decided_by = "bob";
  decided_at = some 31;
}

abbrev calls : List Call
calls =
    submits "a1" 4 5 two_person
    ∷ decides "a1" approved " ann " 20 21
    ∷ decides "a1" approved "Ann" 25 26
    ∷ decides "a1" approved "bob" 30 31
    ∷ []

abbrev after : List Call → Queue
after cs = run ascii_lower (new_queue 100 8) cs

approved_in_the_end : get (after calls) "a1" ≡ some approved_twice
unfolding run step new_queue submit decide get decide_request evict_expired expire_request is_stale
    lookup insert map_values delete_where equal_fold trim_space required_approval_count ascii_lower
approved_in_the_end = refl

approved_by_quorum_example :
    (length approved_twice.approvals ≡ required_approval_count approved_twice)
    × All IsNamed approved_twice.approvals
    × AreApart ascii_lower approved_twice.approvals
approved_by_quorum_example =
    approved_by_quorum ascii_lower 100 8 calls "a1" approved_twice approved_in_the_end refl

decided_is_final_example :
    Holds approved_twice
      (get (run ascii_lower (after calls) (decides "a1" denied "eve" 40 41 ∷ sweeps 200 ∷ [])) "a1")
decided_is_final_example =
    decided_is_final ascii_lower (after calls) (decides "a1" denied "eve" 40 41 ∷ sweeps 200 ∷ [])
      "a1" approved_twice (run-new_queue-IsSoundQueue ascii_lower 100 8 calls) approved_in_the_end
      refl (tt, (tt, tt))

abbrev open_queue : Queue
open_queue = record { requests = ("a1", asked) ∷ []; ttl = 100; max_size = 8 }

abbrev approved_once : Request
approved_once = record asked { approvals = record { actor = "ann"; timestamp = 21 } ∷ [] }

first_approval : (decide ascii_lower open_queue "a1" approved " ann " 20 21).1 ≡ ok approved_once
unfolding decide decide_request lookup trim_space equal_fold required_approval_count
first_approval = refl

decide-Accepts_example :
    (r : Request) × IsOpen ascii_lower open_queue "a1" 20 r
    × (trim_space " ann " ≢ "")
    × Accepts ascii_lower r (trim_space " ann ") 21 approved approved_once
    × (get (decide ascii_lower open_queue "a1" approved " ann " 20 21).0 "a1" ≡ some approved_once)
decide-Accepts_example =
    decide-Accepts ascii_lower open_queue "a1" approved " ann " 20 21 approved_once first_approval

asked-IsOpen : IsOpen ascii_lower open_queue "a1" 20 asked
unfolding get lookup
asked-IsOpen = record { found = refl; undecided = refl; in_time = omega arith }

decide_open_example :
    (r : Request) × ((decide ascii_lower open_queue "a1" denied "eve" 20 21).1 ≡ ok r)
decide_open_example =
    decide_open ascii_lower open_queue "a1" denied "eve" 20 21 asked asked-IsOpen
      (unfold trim_space in ne_of_str_eq "eve" "" refl) (inl refl)

abbrev two_asked : Queue
two_asked = after (submits "a1" 4 5 two_person ∷ [])

first_of_two : (decide ascii_lower two_asked "a1" approved " ann " 20 21).1 ≡ ok approved_once
unfolding run step new_queue submit decide decide_request evict_expired expire_request is_stale
    lookup insert map_values delete_where equal_fold trim_space required_approval_count
first_of_two = refl

-- Another request comes in, and is denied, before Ann tries again.
same_actor_refused_example :
    (decide ascii_lower
      (run ascii_lower
        (decide ascii_lower two_asked "a1" approved " ann " 20 21).0
        (submits "a2" 22 23 two_person ∷ decides "a2" denied "eve" 24 25 ∷ []))
      "a1"
      approved
      "ANN"
      30
      31).1
    ≢ ok approved_once
unfolding equal_fold trim_space ascii_lower
same_actor_refused_example =
    same_actor_refused ascii_lower two_asked "a1" " ann " "ANN" 20 21 30 31 approved_once
      approved_once (submits "a2" 22 23 two_person ∷ decides "a2" denied "eve" 24 25 ∷ [])
      (run-new_queue-IsSoundQueue ascii_lower 100 8 (submits "a1" 4 5 two_person ∷ [])) first_of_two
      refl (refl, (tt, tt))

workspace_isolation_example :
    All (IsVisible "team") (all_by_workspace open_queue "team" 5)
    × All (IsVisible "team") (pending_by_workspace open_queue "team" 30).1
    × OfSome (IsVisible "team") (get_check_workspace open_queue "a1" "team")
workspace_isolation_example =
    workspace_isolation open_queue "team" "a1" 5 30 (ne_of_str_eq "team" "" refl)

list_pending_lem_example :
    IsNewestFirst (list_pending open_queue 30).1
    × Perm (list_pending open_queue 30).1 (keep (is_open_at 30) (values open_queue.requests))
    × ((pending_count open_queue 30).1 ≡ length (keep (is_open_at 30) (values open_queue.requests)))
list_pending_lem_example = list_pending_lem open_queue 30

run-new_queue-IsSoundQueue_example :
    IsSoundQueue ascii_lower (run ascii_lower (new_queue 100 8) calls)
run-new_queue-IsSoundQueue_example = run-new_queue-IsSoundQueue ascii_lower 100 8 calls

needs_approval_iff_example : (needs_approval ascii_lower restart observe ≡ true) ↔ (
    (command_line ascii_lower restart ≢ "")
    × (IsMutating (command_line ascii_lower restart)
        ⊎ IsUnknown (command_line ascii_lower restart)
          × (restart.level ≢ observe)
          × (restart.level ≢ diagnose)))
needs_approval_iff_example = needs_approval_iff ascii_lower restart observe

-- A restart that declares the observe level still needs approval.
restart-needs_approval :
    needs_approval ascii_lower (record restart { level = observe }) observe ≡ true
unfolding needs_approval classify_risk command_line trim_space map_chars join_space ascii_lower
    has_prefix_in is_critical
restart-needs_approval = refl
