-- ===== src/Tracker/Tests.antt =====
-- internal/controlplane/cmdtracker/tracker.go: a command that is tracked, answered and timed out.
use legator.Common.{false, ◌≡◌, refl, List, [], ◌∷◌}
use legator.Common.Int.{pos}
use legator.Common.Map.{lookup, insert, delete_where}
use legator.Protocol.{observe, CommandResultPayload}
use legator.Tracker.Model.{Tracker, PendingCommand, new_tracker, track, expire, timeouts, in_flight}
use legator.Tracker.Delivery.{
  Call, tracks, completes, expires, IsSingle, run, run-new_tracker-IsSingle,
}

abbrev answer : CommandResultPayload
answer = record {
  request_id = "r1";
  exit_code = pos 0;
  stdout = "ok";
  stderr = "";
  duration = 4;
  truncated = false;
}

abbrev tracked : Tracker × PendingCommand
tracked = track (new_tracker 100) "r1" "p1" "ls" observe 50

expiry_is_strict : in_flight (expire tracked.0 150) ≡ 1
unfolding track new_tracker lookup insert expire timeouts delete_where
expiry_is_strict = refl

late_is_dropped : in_flight (expire tracked.0 151) ≡ 0
unfolding track new_tracker lookup insert expire timeouts delete_where
late_is_dropped = refl

abbrev calls : List Call
calls = tracks "r1" "p1" "ls" observe 50 ∷ expires 151 ∷ completes "r1" answer ∷ []

run-new_tracker-IsSingle_example : IsSingle (run (new_tracker 100) calls)
run-new_tracker-IsSingle_example = run-new_tracker-IsSingle 100 calls
