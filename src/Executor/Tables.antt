-- ===== src/Executor/Tables.antt =====
-- internal/probe/executor/classifier.go: the tables of commands and prefixes.
use legator.Common.{String, List, [], ◌∷◌}

abbrev pub observe_commands : List String
observe_commands =
    "cat" ∷ "ls" ∷ "head" ∷ "tail" ∷ "df" ∷ "du" ∷ "free" ∷ "uptime" ∷ "uname" ∷ "hostname"
    ∷ "whoami" ∷ "id" ∷ "ps" ∷ "top" ∷ "netstat" ∷ "ss" ∷ "lsof" ∷ "file" ∷ "stat" ∷ "wc" ∷ "grep"
    ∷ "find" ∷ "journalctl" ∷ "which" ∷ "type" ∷ "echo" ∷ "date" ∷ "env" ∷ "printenv"
    ∷ "lsb_release" ∷ "arch" ∷ "nproc" ∷ "getent" ∷ "groups" ∷ "last" ∷ "w" ∷ "sleep" ∷ "true"
    ∷ "false" ∷ []

abbrev pub observe_prefixes : List String
observe_prefixes =
    "ip addr" ∷ "ip route" ∷ "ip link" ∷ "ip neigh" ∷ "systemctl status" ∷ "systemctl is-active"
    ∷ "systemctl is-enabled" ∷ "systemctl list-units" ∷ "systemctl list-timers" ∷ "docker ps"
    ∷ "docker images" ∷ "docker inspect" ∷ "podman ps" ∷ "podman images" ∷ "podman inspect" ∷ []

abbrev pub diagnose_commands : List String
diagnose_commands =
    "strace" ∷ "ltrace" ∷ "tcpdump" ∷ "dig" ∷ "nslookup" ∷ "traceroute" ∷ "tracepath" ∷ "ping"
    ∷ "openssl" ∷ "nc" ∷ "ncat" ∷ "nmap" ∷ "iotop" ∷ "vmstat" ∷ "iostat" ∷ "sar" ∷ "dmesg" ∷ "lsblk"
    ∷ "blkid" ∷ "ss" ∷ "perf" ∷ "iftop" ∷ "nethogs" ∷ []

abbrev pub diagnose_prefixes : List String
diagnose_prefixes = "curl" ∷ "wget" ∷ "fdisk -l" ∷ "mount" ∷ "kubeflow submit" ∷ []

abbrev pub remediate_prefixes : List String
remediate_prefixes =
    "rm " ∷ "rm\t" ∷ "mv " ∷ "mv\t" ∷ "cp " ∷ "cp\t" ∷ "chmod " ∷ "chown " ∷ "chgrp " ∷ "mkdir "
    ∷ "touch " ∷ "tee " ∷ "apt " ∷ "apt-get " ∷ "dpkg " ∷ "yum " ∷ "dnf " ∷ "rpm " ∷ "pip "
    ∷ "pip3 " ∷ "npm " ∷ "gem " ∷ "systemctl start" ∷ "systemctl stop" ∷ "systemctl restart"
    ∷ "systemctl enable" ∷ "systemctl disable" ∷ "systemctl mask" ∷ "service " ∷ "reboot"
    ∷ "shutdown" ∷ "poweroff" ∷ "halt" ∷ "init " ∷ "kill " ∷ "pkill " ∷ "killall " ∷ "iptables "
    ∷ "ip6tables " ∷ "ufw " ∷ "firewall-cmd " ∷ "sed -i" ∷ "dd " ∷ "mkfs" ∷ "mount " ∷ "useradd"
    ∷ "userdel" ∷ "usermod" ∷ "groupadd" ∷ "groupdel" ∷ "passwd " ∷ "chpasswd" ∷ "crontab "
    ∷ "kubeflow cancel" ∷ []
