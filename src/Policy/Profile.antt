-- ===== src/Policy/Profile.antt =====
-- internal/controlplane/policy and core/approvalpolicy: the options of a policy template, and the
-- profile that is used for a command.
use legator.Common.{
  ℕ, String, Bool, true, false, Option, none, some, List, [], str_eq, if◌then◌else◌,
}
use legator.Common.Text.{trim_space}
use legator.Common.Map.{Map, lookup}
use legator.Protocol.{
  CapabilityLevel, diagnose, remediate, ExecutionClass, observe_direct, diagnose_sandbox,
  remediate_sandbox, unset_class, ApprovalMode, approval_none, mutation_gate, unset_mode,
  BreakglassPolicy,
}

-- The options of a template that the evaluation reads.
pub record TemplateOptions : Type 0 where
  pub execution_class_required : ExecutionClass
  pub sandbox_required : Bool
  pub approval_mode : ApprovalMode
  pub require_second_approver : Bool
  pub breakglass : BreakglassPolicy
  pub max_runtime_sec : ℕ
  pub allowed_scopes : List String

abbrev pub no_breakglass : BreakglassPolicy
no_breakglass = record { enabled = false; allowed_reasons = []; require_typed_confirmation = false }

abbrev template_options : ExecutionClass → Bool → ApprovalMode → TemplateOptions
template_options class sandbox mode = record {
  execution_class_required = class;
  sandbox_required = sandbox;
  approval_mode = mode;
  require_second_approver = false;
  breakglass = no_breakglass;
  max_runtime_sec = 0;
  allowed_scopes = [];
}

-- DefaultTemplateOptionsForLevel
unfoldable pub default_template_options_for_level : CapabilityLevel → TemplateOptions
default_template_options_for_level diagnose = template_options diagnose_sandbox true mutation_gate
default_template_options_for_level remediate = template_options remediate_sandbox true mutation_gate
default_template_options_for_level _ = template_options observe_direct false approval_none

pub record AppliedPolicyContext : Type 0 where
  pub policy_id : String
  pub options : TemplateOptions

pub record CommandPolicyProfile : Type 0 where
  pub policy_id : String
  pub execution_class_required : ExecutionClass
  pub sandbox_required : Bool
  pub approval_mode : ApprovalMode
  pub require_second_approver : Bool
  pub breakglass : BreakglassPolicy

abbrev class_or : ExecutionClass → ExecutionClass → ExecutionClass
class_or unset_class fallback = fallback
class_or c fallback = c

abbrev mode_or : ApprovalMode → ApprovalMode → ApprovalMode
mode_or unset_mode fallback = fallback
mode_or m fallback = m

-- appliedPolicyForProbe
unfoldable pub applied_policy_for_probe :
    Map AppliedPolicyContext → String → Option AppliedPolicyContext
applied_policy_for_probe applied probe_id =
    if str_eq probe_id "" then none else lookup probe_id applied

-- The profile before the override: the defaults, or what is applied to the probe.
unfoldable pub base_profile : TemplateOptions → Option AppliedPolicyContext → CommandPolicyProfile
base_profile defaults none = record {
  policy_id = "";
  execution_class_required = defaults.execution_class_required;
  sandbox_required = defaults.sandbox_required;
  approval_mode = defaults.approval_mode;
  require_second_approver = defaults.require_second_approver;
  breakglass = no_breakglass;
}
base_profile defaults (some c) = record {
  policy_id = trim_space c.policy_id;
  execution_class_required = c.options.execution_class_required;
  sandbox_required = c.options.sandbox_required;
  approval_mode = c.options.approval_mode;
  require_second_approver = c.options.require_second_approver;
  breakglass = c.options.breakglass;
}

-- The profile with an explicit override.
unfoldable pub override_profile :
    CommandPolicyProfile → Option CommandPolicyProfile → CommandPolicyProfile
override_profile p none = p
override_profile p (some o) = record {
  policy_id = if str_eq (trim_space o.policy_id) "" then p.policy_id else trim_space o.policy_id;
  execution_class_required = class_or o.execution_class_required p.execution_class_required;
  sandbox_required = o.sandbox_required;
  approval_mode = mode_or o.approval_mode p.approval_mode;
  require_second_approver = o.require_second_approver;
  breakglass = o.breakglass;
}

-- resolvePolicyProfile
unfoldable pub resolve_policy_profile :
    Map AppliedPolicyContext
    → String
    → CapabilityLevel
    → Option CommandPolicyProfile
    → CommandPolicyProfile
unfolding base_profile override_profile
resolve_policy_profile applied probe_id level override =
    let defaults = default_template_options_for_level level in
    let p =
      override_profile (base_profile defaults (applied_policy_for_probe applied probe_id))
        override in
    record p {
      execution_class_required =
          class_or p.execution_class_required defaults.execution_class_required;
      approval_mode = mode_or p.approval_mode defaults.approval_mode;
    }
