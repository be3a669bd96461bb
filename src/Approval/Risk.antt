-- ===== src/Approval/Risk.antt =====
-- internal/controlplane/approval/queue.go: the risk of a command, and whether it needs approval.
-- strings.ToLower works character by character, by a case map `lower`.
use Prim.Native.Char.{Char}
use legator.Common.{
  String, Bool, true, false, ◌||◌, ◌≡◌, ◌↔◌, ◌⊎◌, ◌≢◌, List, [], ◌∷◌, arith, str_eq, eq_iff,
  starts_with, if◌then◌else◌,
}
use legator.Common.Text.{trim_space, map_chars, join_space, has_prefix_in}
use legator.Protocol.{CapabilityLevel, observe, diagnose, CommandPayload}

pub data RiskLevel : Type 0 where
  low medium high critical : RiskLevel

abbrev pub critical_prefixes : List String
critical_prefixes =
    "mkfs" ∷ "fdisk" ∷ "parted" ∷ "shutdown" ∷ "reboot" ∷ "init 0" ∷ "init 6" ∷ "poweroff"
    ∷ "iptables" ∷ "nft flush" ∷ "userdel" ∷ []

abbrev pub high_prefixes : List String
high_prefixes =
    "systemctl restart" ∷ "systemctl stop" ∷ "systemctl start" ∷ "service " ∷ "apt install"
    ∷ "apt remove" ∷ "apt upgrade" ∷ "apt-get install" ∷ "apt-get remove" ∷ "apt-get upgrade"
    ∷ "yum install" ∷ "yum remove" ∷ "dnf install" ∷ "dnf remove" ∷ "pip install" ∷ "npm install"
    ∷ "npm uninstall" ∷ "chmod" ∷ "chown" ∷ "mv " ∷ "cp " ∷ "tee " ∷ "sed -i" ∷ "truncate" ∷ []

abbrev pub medium_prefixes : List String
medium_prefixes =
    "journalctl" ∷ "dmesg" ∷ "ss " ∷ "netstat" ∷ "lsof" ∷ "du " ∷ "find " ∷ "grep " ∷ "awk " ∷ "ps "
    ∷ "top" ∷ "systemctl status" ∷ "ip " ∷ "route" ∷ []

abbrev pub low_prefixes : List String
low_prefixes =
    "ls" ∷ "cat" ∷ "head" ∷ "tail" ∷ "pwd" ∷ "whoami" ∷ "id" ∷ "uname" ∷ "hostname" ∷ "uptime"
    ∷ "df" ∷ "free" ∷ "echo " ∷ "echo" ∷ []

-- The first test on the line: rm and dd.
is_destructive : String → Bool
is_destructive line =
    str_eq line "rm" || starts_with line "rm -" || str_eq line "dd" || starts_with line "dd if="

unfoldable pub is_critical : String → Bool
unfolding is_destructive
is_critical line = is_destructive line || has_prefix_in line critical_prefixes

-- The fallback by the declared level.
risk_of_level : CapabilityLevel → RiskLevel
risk_of_level observe = low
risk_of_level diagnose = medium
risk_of_level _ = high

-- The line matches a prefix of the critical or of the high table.
abbrev pub IsMutating : String → Type 0
IsMutating line = (is_critical line ≡ true) ⊎ (has_prefix_in line high_prefixes ≡ true)

-- No table knows the line.
abbrev pub IsUnknown : String → Type 0
IsUnknown line =
    (is_critical line ≡ false)
    × (has_prefix_in line high_prefixes ≡ false)
    × (has_prefix_in line medium_prefixes ≡ false)
    × (has_prefix_in line low_prefixes ≡ false)

module _ (lower : Char → Char) where
  -- The line that the prefixes are compared with.
  unfoldable pub command_line : CommandPayload → String
  command_line cmd = trim_space (map_chars lower (join_space (cmd.command ∷ cmd.args)))

  risk_of_line : String → CapabilityLevel → RiskLevel
  unfolding is_critical risk_of_level
  risk_of_line line level =
      if str_eq line ""
      then medium
      else if is_critical line
      then critical
      else if has_prefix_in line high_prefixes
      then high
      else if has_prefix_in line medium_prefixes
      then medium
      else if has_prefix_in line low_prefixes
      then low
      else risk_of_level level

  -- ClassifyRisk
  unfoldable pub classify_risk : CommandPayload → RiskLevel
  unfolding risk_of_line
  classify_risk cmd = risk_of_line (command_line cmd) cmd.level

  -- NeedsApproval
  unfoldable pub needs_approval : CommandPayload → CapabilityLevel → Bool
  unfolding classify_risk
  needs_approval cmd probe_level = elim (classify_risk cmd) [
    | high ↦ true
    | critical ↦ true
    | _ ↦ false
  ]

  -- A command needs approval exactly if its line is not empty and either matches a critical or
  -- high prefix, whatever level it declares, or is unknown and declares neither the observe nor
  -- the diagnose level. The probe's own level plays no part.
  pub needs_approval_iff :
      (cmd : CommandPayload) (probe_level : CapabilityLevel)
      → (needs_approval cmd probe_level ≡ true) ↔ (
          (command_line cmd ≢ "")
          × (IsMutating (command_line cmd)
              ⊎ IsUnknown (command_line cmd) × (cmd.level ≢ observe) × (cmd.level ≢ diagnose)))
  unfolding needs_approval risk_of_line risk_of_level
  needs_approval_iff cmd probe_level = (to, from)
    where
      to :
          needs_approval cmd probe_level ≡ true
          → ((command_line cmd ≢ "")
              × (IsMutating (command_line cmd)
                  ⊎ IsUnknown (command_line cmd) × (cmd.level ≢ observe) × (cmd.level ≢ diagnose)))
      to h = ground (arith, eq_iff (command_line cmd) "")

      from :
          ((command_line cmd ≢ "")
            × (IsMutating (command_line cmd)
                ⊎ IsUnknown (command_line cmd) × (cmd.level ≢ observe) × (cmd.level ≢ diagnose)))
          → needs_approval cmd probe_level ≡ true
      from h = ground (arith, eq_iff (command_line cmd) "")
