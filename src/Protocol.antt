-- ===== src/Protocol.antt =====
-- internal/protocol/messages.go: the command payload and its capability level. Durations are
-- numbers of nanoseconds.
use legator.Common.{ℕ, String, Bool, List}
use legator.Common.Int.{ℤ}

-- A Go string type: `other` stands for every text but the three constants.
pub data CapabilityLevel : Type 0 where
  observe diagnose remediate : CapabilityLevel
  other : String → CapabilityLevel

pub record CommandPayload : Type 0 where
  pub request_id : String
  pub command : String
  pub args : List String
  pub timeout : ℕ
  pub level : CapabilityLevel
  pub stream : Bool

pub record CommandResultPayload : Type 0 where
  pub request_id : String
  pub exit_code : ℤ
  pub stdout : String
  pub stderr : String
  pub duration : ℕ
  pub truncated : Bool

-- Go string types, of trimmed texts: `unset_class` and `unset_mode` are the empty text, and `other`
-- stands for every text that is no constant.
pub data ExecutionClass : Type 0 where
  observe_direct diagnose_sandbox remediate_sandbox breakglass_direct wasm_sandbox : ExecutionClass
  unset_class : ExecutionClass
  other_class : String → ExecutionClass

pub data ApprovalMode : Type 0 where
  approval_none mutation_gate plan_first every_action two_person : ApprovalMode
  unset_mode : ApprovalMode
  other_mode : String → ApprovalMode

pub record BreakglassPolicy : Type 0 where
  pub enabled : Bool
  pub allowed_reasons : List String
  pub require_typed_confirmation : Bool
