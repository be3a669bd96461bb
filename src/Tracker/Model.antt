-- ===== src/Tracker/Model.antt =====
-- internal/controlplane/cmdtracker/tracker.go: the tracker's state and operations. A channel is a
-- number; `made` counts those that Track has made, `sent` holds what was sent on them and `closed`
-- those that were closed, newest first. Complete sends after it has left the critical section, on
-- a channel that no other call can reach by then, so it is one step.
use legator.Common.{
  ℕ, suc, ◌+◌, ◌-◌, ◌/◌, String, Bool, false, none, some, List, [], ◌∷◌, ◌++◌, ltb, leb, length,
  if◌then◌else◌, Result, ok, err,
}
use legator.Common.Map.{Map, lookup, insert, delete, delete_where}
use legator.Common.Int.{ℤ, pos, negsuc}
use legator.Protocol.{CapabilityLevel, CommandResultPayload}

pub record PendingCommand : Type 0 where
  pub request_id : String
  pub probe_id : String
  pub command : String
  pub level : CapabilityLevel
  pub submitted : ℕ
  pub result : ℕ

pub record Tracker : Type 0 where
  pub pending : Map PendingCommand
  pub ttl : ℕ
  pub made : ℕ
  pub sent : List (ℕ × CommandResultPayload)
  pub closed : List ℕ

pub data Error : Type 0 where
  no_pending_command : String → Error

-- New, without its goroutine.
unfoldable pub new_tracker : ℕ → Tracker
new_tracker ttl = record { pending = []; ttl = ttl; made = 0; sent = []; closed = [] }

-- Track
unfoldable pub track :
    Tracker → String → String → String → CapabilityLevel → ℕ → Tracker × PendingCommand
track t request_id probe_id command level now =
    let pc : PendingCommand = record {
      request_id = request_id;
      probe_id = probe_id;
      command = command;
      level = level;
      submitted = now;
      result = t.made;
    } in
    (record t { pending = insert request_id pc t.pending; made = suc t.made }, pc)

-- Complete
unfoldable pub complete :
    Tracker → String → CommandResultPayload → Tracker × Result Error (Unit {0})
complete t request_id result = elim (lookup request_id t.pending) [
  | none ↦ (t, err (no_pending_command request_id))
  | some pc ↦ (
    record t { pending = delete request_id t.pending; sent = (pc.result, result) ∷ t.sent },
    ok tt,
  )
]

-- Cancel
unfoldable pub cancel : Tracker → String → Tracker
cancel t request_id = elim (lookup request_id t.pending) [
  | none ↦ t
  | some pc ↦ record t { pending = delete request_id t.pending; closed = pc.result ∷ t.closed }
]

-- InFlight
abbrev pub in_flight : Tracker → ℕ
in_flight t = length t.pending

pub record PendingSummary : Type 0 where
  pub request_id : String
  pub probe_id : String
  pub command : String
  pub level : CapabilityLevel
  pub waiting : ℤ

-- `now.Sub(pc.Submitted)`
abbrev elapsed : ℕ → ℕ → ℤ
elapsed submitted now =
    if leb submitted now then pos (now - submitted) else negsuc (submitted - now - 1)

-- The loop of ListPending.
unfoldable pub summaries : ℕ → Map PendingCommand → List PendingSummary
summaries now [] = []
summaries now ((id, pc) ∷ m) =
    record {
      request_id = pc.request_id;
      probe_id = pc.probe_id;
      command = pc.command;
      level = pc.level;
      waiting = elapsed pc.submitted now;
    }
    ∷ summaries now m

-- ListPending
abbrev pub list_pending_commands : Tracker → ℕ → List PendingSummary
list_pending_commands t now = summaries now t.pending

-- `pc.Submitted.Before(cutoff)`
abbrev pub is_late : ℕ → ℕ → PendingCommand → Bool
is_late ttl now pc = ltb (pc.submitted + ttl) now

abbrev pub timeout_of : ℕ → PendingCommand → CommandResultPayload
timeout_of ttl pc = record {
  request_id = pc.request_id;
  exit_code = negsuc 0;
  stdout = "";
  stderr = "command timed out waiting for probe response";
  duration = ttl / 1_000_000;
  truncated = false;
}

-- What the loop of expire sends.
unfoldable pub timeouts : ℕ → ℕ → Map PendingCommand → List (ℕ × CommandResultPayload)
timeouts ttl now [] = []
timeouts ttl now ((id, pc) ∷ m) =
    let rest = timeouts ttl now m in
    if is_late ttl now pc then (pc.result, timeout_of ttl pc) ∷ rest else rest

-- expire
unfoldable pub expire : Tracker → ℕ → Tracker
unfolding timeouts
expire t now = record t {
  pending = delete_where (is_late t.ttl now) t.pending;
  sent = timeouts t.ttl now t.pending ++ t.sent;
}
