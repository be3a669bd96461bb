-- ===== src/Executor/Gate.antt =====
-- internal/probe/executor/executor.go: the checks of Execute before it starts the process. The
-- run of the process itself is the operating system's.
use Prim.Native.Char.{Char}
use legator.Common.{
  ℕ, ◌≤◌, String, Bool, true, false, not, ◌&&◌, ◌≡◌, ◌↔◌, ◌⊎◌, inl, inr, refl, ap, subst, ◌∙◌, List,
  [], ◌∷◌, arith, ltb, leb, starts_with, some_of, if◌then◌else◌, Result, ok, err, ◌==◌,
}
use legator.Common.Text.{map_chars}
use legator.Protocol.{CapabilityLevel, observe, diagnose, remediate, other, CommandPayload}
use legator.Executor.Classifier.{
  classify_command, full_line, base_word, with_args, IsReadOnly, classify_command_lem,
  classify_command_known,
}
use legator.Executor.Spec.{ExecSpec, SpecError, build_exec_spec}

pub record Policy : Type 0 where
  pub level : CapabilityLevel
  pub allowed : List String
  pub blocked : List String
  pub paths : List String

pub data Refusal : Type 0 where
  level_refused : CapabilityLevel → Refusal
  command_blocked not_in_allowlist : Refusal
  no_spec : SpecError → Refusal

-- What Execute starts, with its timeout.
pub record Launch : Type 0 where
  pub spec : ExecSpec
  pub timeout : ℕ

-- The map `levels`; a missing key reads as 0.
unfoldable pub level_rank : CapabilityLevel → ℕ
level_rank observe = 1
level_rank diagnose = 2
level_rank remediate = 3
level_rank (other s) = 0

abbrev default_timeout : ℕ
default_timeout = 30_000_000_000

unfoldable pub is_empty : List String → Bool
is_empty [] = true
is_empty (a ∷ rest) = false

module _ (lower : Char → Char) where
  -- effectiveLevel
  unfoldable pub effective_level : CommandPayload → CapabilityLevel
  effective_level cmd =
      let classified = classify_command lower cmd.command cmd.args in
      if ltb (level_rank cmd.level) (level_rank classified) then classified else cmd.level

  -- The loop of isBlocked and isAllowed.
  unfoldable pub matches_prefix : String → List String → Bool
  matches_prefix cmd prefixes =
      some_of (λ p. starts_with (map_chars lower cmd) (map_chars lower p)) prefixes

  -- Execute, up to the start of the process; `windows` as for build_exec_spec.
  unfoldable pub execute : Bool → Policy → CommandPayload → Result Refusal Launch
  unfolding effective_level matches_prefix is_empty
  execute windows policy cmd =
      let required = effective_level cmd in
      let full = with_args cmd.command cmd.args in
      let timeout = if cmd.timeout == 0 then default_timeout else cmd.timeout in
      if not (leb (level_rank required) (level_rank policy.level))
      then err (level_refused required)
      else if matches_prefix full policy.blocked
      then err command_blocked
      else if not (is_empty policy.allowed) && not (matches_prefix full policy.allowed)
      then err not_in_allowlist
      else elim (build_exec_spec lower windows cmd) [
        | err e ↦ err (no_spec e)
        | ok s ↦ ok (record { spec = s; timeout = timeout })
      ]

  -- What the policy asks of a command: neither its class nor its declared level is above the
  -- probe's, no blocked prefix matches, and an allowed one does unless none is listed.
  pub record IsPermitted (policy : Policy) (cmd : CommandPayload) : Type 0 where
    pub classified :
        level_rank (classify_command lower cmd.command cmd.args) ≤ level_rank policy.level
    pub declared : level_rank cmd.level ≤ level_rank policy.level
    pub unblocked : matches_prefix (with_args cmd.command cmd.args) policy.blocked ≡ false
    pub listed :
        (is_empty policy.allowed ≡ true)
        ⊎ (matches_prefix (with_args cmd.command cmd.args) policy.allowed ≡ true)

  level_rank-effective_level :
      (cmd : CommandPayload) (n : ℕ)
      → (level_rank (effective_level cmd) ≤ n) ↔ (
          (level_rank (classify_command lower cmd.command cmd.args) ≤ n)
          × (level_rank cmd.level ≤ n))
  unfolding effective_level
  level_rank-effective_level cmd n = (λ h. ground arith, λ h. ground arith)

  execute_ok :
      (windows : Bool) (policy : Policy) (cmd : CommandPayload) (l : Launch)
      → execute windows policy cmd ≡ ok l
      → IsPermitted policy cmd × (build_exec_spec lower windows cmd ≡ ok l.spec)
  unfolding execute
  execute_ok windows policy cmd l h =
      let (ranked, unranked) = level_rank-effective_level cmd (level_rank policy.level) in
      let (low, declared) = ranked (ground arith) in
      (
        record {
          classified = low;
          declared = declared;
          unblocked = ground arith;
          listed = ground arith;
        },
        ground arith,
      )

  execute_permitted :
      (windows : Bool) (policy : Policy) (cmd : CommandPayload) (s : ExecSpec)
      → IsPermitted policy cmd
      → build_exec_spec lower windows cmd ≡ ok s
      → (l : Launch) × (execute windows policy cmd ≡ ok l) × (l.spec ≡ s)
  unfolding execute
  execute_permitted windows policy cmd s p h =
      let (ranked, unranked) = level_rank-effective_level cmd (level_rank policy.level) in
      let low = unranked (p.classified, p.declared) in
      let timeout = if cmd.timeout == 0 then default_timeout else cmd.timeout in
      (record { spec = s; timeout = timeout }, ground (arith, low, p.unblocked, p.listed, h), refl)

  -- Execute starts a process exactly if the policy permits the command and the command has a
  -- process; the process is that of the command, whatever level the caller declared.
  pub execute_iff :
      (windows : Bool) (policy : Policy) (cmd : CommandPayload) (s : ExecSpec)
      → ((l : Launch) × (execute windows policy cmd ≡ ok l) × (l.spec ≡ s))
        ↔ (IsPermitted policy cmd × (build_exec_spec lower windows cmd ≡ ok s))
  execute_iff windows policy cmd s = (to, λ (p, h). execute_permitted windows policy cmd s p h)
    where
      to :
          ((l : Launch) × (execute windows policy cmd ≡ ok l) × (l.spec ≡ s))
          → IsPermitted policy cmd × (build_exec_spec lower windows cmd ≡ ok s)
      to (l, h, e) = let (p, built) = execute_ok windows policy cmd l h in (p, built ∙ ap ok e)

  observe_is_lowest :
      (level : CapabilityLevel)
      → level_rank level ≤ 1
      → (level ≡ observe) ⊎ ((s : String) × (level ≡ other s))
  unfolding level_rank
  observe_is_lowest observe h = inl refl
  observe_is_lowest diagnose h = absurd (omega (arith, h))
  observe_is_lowest remediate h = absurd (omega (arith, h))
  observe_is_lowest (other s) h = inr (s, refl)

  -- On a probe at the observe level, only commands that the classifier knows as read-only are
  -- started, whatever level the caller declares.
  pub observe_probe_reads :
      (windows : Bool) (policy : Policy) (cmd : CommandPayload) (l : Launch)
      → policy.level ≡ observe
      → execute windows policy cmd ≡ ok l
      → IsReadOnly (full_line lower cmd.command cmd.args) (base_word lower cmd.command)
  unfolding level_rank
  observe_probe_reads windows policy cmd l observing h =
      let (p, built) = execute_ok windows policy cmd l h in
      let low : level_rank (classify_command lower cmd.command cmd.args) ≤ 1 =
        subst (λ x. level_rank (classify_command lower cmd.command cmd.args) ≤ level_rank x)
          observing p.classified in
      elim (observe_is_lowest (classify_command lower cmd.command cmd.args) low) [
        | inl e ↦ (classify_command_lem lower cmd.command cmd.args).0 e
        | inr (s, e) ↦ absurd (classify_command_known lower cmd.command cmd.args s e)
      ]
