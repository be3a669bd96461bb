-- ===== src/Policy/Commands.antt =====
-- internal/controlplane/core/approvalpolicy/capacity_policy.go: the control plane's own classifier of
-- commands, with its own tables, written apart from the probe's.
use Prim.Native.Char.{Char, code}
use Prim.Native.String as Str
use legator.Common.{
  String, Bool, true, false, ◌&&◌, ◌||◌, ◌==◌, List, [], ◌∷◌, str_eq, starts_with, some_of,
  if◌then◌else◌,
}
use legator.Common.Text.{trim_space, map_chars, join_space, has_prefix_in}
use legator.Protocol.{CapabilityLevel, observe, diagnose, remediate}
use legator.Executor.Classifier.{CommandClassification, contains}

abbrev pub control_remediate_prefixes : List String
control_remediate_prefixes =
    "rm " ∷ "rm\t" ∷ "mv " ∷ "mv\t" ∷ "cp " ∷ "cp\t" ∷ "chmod " ∷ "chown " ∷ "chgrp " ∷ "mkdir "
    ∷ "touch " ∷ "tee " ∷ "apt " ∷ "apt-get " ∷ "dpkg " ∷ "yum " ∷ "dnf " ∷ "rpm " ∷ "pip "
    ∷ "pip3 " ∷ "npm " ∷ "gem " ∷ "systemctl start" ∷ "systemctl stop" ∷ "systemctl restart"
    ∷ "systemctl enable" ∷ "systemctl disable" ∷ "systemctl mask" ∷ "service " ∷ "reboot"
    ∷ "shutdown" ∷ "poweroff" ∷ "halt" ∷ "init " ∷ "kill " ∷ "pkill " ∷ "killall " ∷ "iptables "
    ∷ "ip6tables " ∷ "ufw " ∷ "firewall-cmd " ∷ "sed -i" ∷ "dd " ∷ "mkfs" ∷ "mount " ∷ "useradd"
    ∷ "userdel" ∷ "usermod" ∷ "groupadd" ∷ "groupdel" ∷ "passwd " ∷ "chpasswd" ∷ "crontab "
    ∷ "kubeflow cancel" ∷ []

abbrev pub control_observe_prefixes : List String
control_observe_prefixes =
    "ip addr" ∷ "ip route" ∷ "ip link" ∷ "ip neigh" ∷ "systemctl status" ∷ "systemctl is-active"
    ∷ "systemctl is-enabled" ∷ "systemctl list-units" ∷ "systemctl list-timers" ∷ "docker ps"
    ∷ "docker images" ∷ "docker inspect" ∷ "podman ps" ∷ "podman images" ∷ "podman inspect" ∷ []

abbrev pub control_observe_commands : List String
control_observe_commands =
    "cat" ∷ "ls" ∷ "head" ∷ "tail" ∷ "df" ∷ "du" ∷ "free" ∷ "uptime" ∷ "uname" ∷ "hostname"
    ∷ "whoami" ∷ "id" ∷ "ps" ∷ "top" ∷ "netstat" ∷ "ss" ∷ "lsof" ∷ "file" ∷ "stat" ∷ "wc" ∷ "grep"
    ∷ "find" ∷ "journalctl" ∷ "which" ∷ "type" ∷ "echo" ∷ "date" ∷ "env" ∷ "printenv"
    ∷ "lsb_release" ∷ "arch" ∷ "nproc" ∷ "getent" ∷ "groups" ∷ "last" ∷ "w" ∷ "sleep" ∷ "true"
    ∷ "false" ∷ "sh" ∷ "bash" ∷ []

abbrev pub control_diagnose_prefixes : List String
control_diagnose_prefixes = "curl" ∷ "wget" ∷ "fdisk -l" ∷ "mount" ∷ "kubeflow submit" ∷ []

abbrev pub control_diagnose_commands : List String
control_diagnose_commands =
    "strace" ∷ "ltrace" ∷ "tcpdump" ∷ "dig" ∷ "nslookup" ∷ "traceroute" ∷ "tracepath" ∷ "ping"
    ∷ "openssl" ∷ "nc" ∷ "ncat" ∷ "nmap" ∷ "iotop" ∷ "vmstat" ∷ "iostat" ∷ "sar" ∷ "dmesg" ∷ "lsblk"
    ∷ "blkid" ∷ "ss" ∷ "perf" ∷ "iftop" ∷ "nethogs" ∷ []

-- The result of classifyCommandWithMetadata, and toClassification of it.
abbrev pub control_result : CapabilityLevel → String → Bool → String → CommandClassification
control_result level category known reason = record {
  level = level;
  category = category;
  signature_known = known;
  reason_code = reason;
}

abbrev pub is_in : String → List String → Bool
is_in s names = some_of (λ c. str_eq s c) names

-- The tests of classifyCommandWithMetadata, in order, on the two texts of normalizeCommandParts.
unfoldable pub classify_parts : String → String → CommandClassification
classify_parts full base =
    if has_prefix_in full control_remediate_prefixes
      || has_prefix_in base control_remediate_prefixes
    then control_result remediate "mutation" true "classifier.remediate_prefix"
    else if has_prefix_in full control_observe_prefixes
    then control_result observe "observe" true "classifier.observe_prefix"
    else if is_in base control_observe_commands
    then if str_eq base "find" && (contains full "-exec" || contains full "-delete")
      then control_result remediate "mutation" true "classifier.find_mutation_flags"
      else control_result observe "observe" true "classifier.observe_command"
    else if has_prefix_in full control_diagnose_prefixes
    then if starts_with base "wget" && contains full " -o"
      then control_result remediate "mutation" true "classifier.wget_output_file"
      else control_result diagnose "diagnose" true "classifier.diagnose_prefix"
    else if is_in base control_diagnose_commands
    then control_result diagnose "diagnose" true "classifier.diagnose_command"
    else control_result remediate "mutation" false "classifier.unknown_mutation_signature"

-- A text up to its first space or tab, which strings.IndexAny finds, and the whole text if it has none.
unfoldable pub up_to_blank : String → String
up_to_blank String.[] = String.[]
up_to_blank (String.◌∷◌ c s) =
    let rest = up_to_blank s in
    if (code c == 32) || (code c == 9) then String.[] else String.◌∷◌ c rest

-- The cut of `base`, which is made only at an index above 0.
unfoldable pub cut_base : String → String
unfolding up_to_blank
cut_base s = let head = up_to_blank s in if str_eq head "" then s else head

unfoldable pub full_text : String → List String → String
full_text trimmed [] = trimmed
full_text trimmed (a ∷ args) = Str.◌++◌ trimmed (String.◌∷◌ " " (join_space (a ∷ args)))

-- normalizeCommandParts
unfoldable pub normalize_command_parts : (Char → Char) → String → List String → String × String
unfolding cut_base full_text
normalize_command_parts lower command args =
    let trimmed = trim_space command in
    (
      map_chars lower (trim_space (full_text trimmed args)),
      map_chars lower (trim_space (cut_base trimmed)),
    )

-- classifyCommandWithMetadata
unfoldable pub classify_for_control : (Char → Char) → String → List String → CommandClassification
unfolding classify_parts normalize_command_parts
classify_for_control lower command args =
    let (full, base) = normalize_command_parts lower command args in classify_parts full base
