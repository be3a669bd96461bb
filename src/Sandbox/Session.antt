-- ===== src/Sandbox/Session.antt =====
-- internal/controlplane/sandbox/model.go: the states of a session. The rest of the program changes
-- the state of a session by this table.
use legator.Common.{
  ℕ, ◌+◌, ◌≤◌, ◌<◌, String, Bool, true, false, ◌≡◌, List, [], ◌∷◌, arith, length, if◌then◌else◌,
  Result, ok, err,
}

-- A Go string: `other` stands for every text but the six constants.
pub data SessionState : Type 0 where
  created provisioning ready running failed destroyed : SessionState
  other : String → SessionState

pub data TransitionError : Type 0 where
  unknown_state : SessionState → TransitionError
  not_allowed : SessionState → SessionState → TransitionError

-- validTransitions[from][to], with false for a missing key.
unfoldable pub is_valid : SessionState → SessionState → Bool
is_valid created provisioning = true
is_valid provisioning ready = true
is_valid provisioning failed = true
is_valid ready running = true
is_valid ready destroyed = true
is_valid running failed = true
is_valid running destroyed = true
is_valid _ _ = false

-- The keys of validTransitions.
unfoldable pub is_listed : SessionState → Bool
is_listed (other s) = false
is_listed _ = true

-- ValidateTransition
unfoldable pub validate_transition : SessionState → SessionState → Result TransitionError (Unit {0})
validate_transition from to =
    if is_listed from
    then if is_valid from to then ok tt else err (not_allowed from to)
    else err (unknown_state from)

-- IsTerminal
unfoldable pub is_terminal_session : SessionState → Bool
is_terminal_session failed = true
is_terminal_session destroyed = true
is_terminal_session _ = false

-- The transitions that lead from a state to another, each of which ValidateTransition accepts.
pub data Follow : SessionState → List SessionState → SessionState → Type 0 where
  stop : {s : SessionState} → Follow s [] s
  go :
      {s u : SessionState} {path : List SessionState} (t : SessionState)
      → validate_transition s t ≡ ok tt
      → Follow t path u
      → Follow s (t ∷ path) u

-- How many transitions a state may still have before it.
unfoldable pub left_of : SessionState → ℕ
left_of created = 4
left_of provisioning = 3
left_of ready = 2
left_of running = 1
left_of _ = 0

valid_lowers : (s t : SessionState) → validate_transition s t ≡ ok tt → left_of t < left_of s
unfolding validate_transition is_valid is_listed left_of
valid_lowers created t h = ground (arith, h)
valid_lowers provisioning t h = ground (arith, h)
valid_lowers ready t h = ground (arith, h)
valid_lowers running t h = ground (arith, h)
valid_lowers failed t h = absurd (ground (arith, h))
valid_lowers destroyed t h = absurd (ground (arith, h))
valid_lowers (other s) t h = absurd (ground (arith, h))

-- A session has no endless life: of transitions that ValidateTransition accepts one after the
-- other there are at most 4 from `created`, 3 from `provisioning`, 2 from `ready`, 1 from `running`
-- and none from any other state, less that number for the state at their end.
pub length_of_life_le :
    {s u : SessionState} {path : List SessionState}
    → Follow s path u
    → length path + left_of u ≤ left_of s
length_of_life_le stop = omega arith
length_of_life_le {s} (go t h f) = omega (arith, valid_lowers s t h, length_of_life_le f)
