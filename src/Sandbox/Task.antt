-- ===== src/Sandbox/Task.antt =====
-- internal/controlplane/sandbox/task.go: the states of a task.
use legator.Common.{
  ℕ, ◌+◌, ◌≤◌, ◌<◌, String, Bool, true, false, ◌≡◌, List, [], ◌∷◌, arith, length, if◌then◌else◌,
  Result, ok, err,
}

-- A Go string: `other` stands for every text but the five constants.
pub data TaskState : Type 0 where
  queued running succeeded failed cancelled : TaskState
  other : String → TaskState

pub data TaskTransitionError : Type 0 where
  unknown_task_state : TaskState → TaskTransitionError
  task_not_allowed : TaskState → TaskState → TaskTransitionError

-- validTaskTransitions[from][to], with false for a missing key.
unfoldable pub is_valid_task : TaskState → TaskState → Bool
is_valid_task queued running = true
is_valid_task queued cancelled = true
is_valid_task running succeeded = true
is_valid_task running failed = true
is_valid_task running cancelled = true
is_valid_task _ _ = false

-- The keys of validTaskTransitions.
unfoldable pub is_listed_task : TaskState → Bool
is_listed_task (other s) = false
is_listed_task _ = true

-- ValidateTaskTransition
unfoldable pub validate_task_transition :
    TaskState → TaskState → Result TaskTransitionError (Unit {0})
validate_task_transition from to =
    if is_listed_task from
    then if is_valid_task from to then ok tt else err (task_not_allowed from to)
    else err (unknown_task_state from)

-- IsTerminal
unfoldable pub is_terminal_task : TaskState → Bool
is_terminal_task succeeded = true
is_terminal_task failed = true
is_terminal_task cancelled = true
is_terminal_task _ = false

-- The transitions that lead from a state to another, each of which ValidateTaskTransition accepts.
pub data TaskFollow : TaskState → List TaskState → TaskState → Type 0 where
  stop : {s : TaskState} → TaskFollow s [] s
  go :
      {s u : TaskState} {path : List TaskState} (t : TaskState)
      → validate_task_transition s t ≡ ok tt
      → TaskFollow t path u
      → TaskFollow s (t ∷ path) u

-- How many transitions a state may still have before it.
unfoldable pub task_left_of : TaskState → ℕ
task_left_of queued = 2
task_left_of running = 1
task_left_of _ = 0

valid_task_lowers :
    (s t : TaskState) → validate_task_transition s t ≡ ok tt → task_left_of t < task_left_of s
unfolding validate_task_transition is_valid_task is_listed_task task_left_of
valid_task_lowers queued t h = ground (arith, h)
valid_task_lowers running t h = ground (arith, h)
valid_task_lowers succeeded t h = absurd (ground (arith, h))
valid_task_lowers failed t h = absurd (ground (arith, h))
valid_task_lowers cancelled t h = absurd (ground (arith, h))
valid_task_lowers (other s) t h = absurd (ground (arith, h))

-- A task ends: of transitions that ValidateTaskTransition accepts one after the other there are at
-- most 2 from `queued`, 1 from `running` and none from any other state, less that number for the
-- state at their end.
pub length_of_task_le :
    {s u : TaskState} {path : List TaskState}
    → TaskFollow s path u
    → length path + task_left_of u ≤ task_left_of s
length_of_task_le stop = omega arith
length_of_task_le {s} (go t h f) = omega (arith, valid_task_lowers s t h, length_of_task_le f)
