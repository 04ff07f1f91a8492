-- ===== src/Seccomp/Table.antt =====
-- src/sys/seccomp.rs: the table of system calls, and the lists of those that are denied.
use myrun.Prelude.{ℕ, List, [], ◌∷◌, Option, none, some, if◌then◌else◌}
use myrun.Text.{Text, codes, text_eq}

-- `target_arch`
pub data Arch : Type 0 where
  x86_64 aarch64 : Arch

-- A row of the table: the name, the numbers on the two architectures, `none` where there is none.
abbrev pub Row : Type 0
Row = Text × Option ℕ × Option ℕ

unfoldable pub syscalls : List Row
syscalls =
    (codes "mount", some 165, some 40)
    ∷ (codes "umount2", some 166, some 39)
    ∷ (codes "pivot_root", some 155, some 41)
    ∷ (codes "chroot", some 161, some 51)
    ∷ (codes "swapon", some 167, some 224)
    ∷ (codes "swapoff", some 168, some 225)
    ∷ (codes "reboot", some 169, some 142)
    ∷ (codes "sethostname", some 170, some 161)
    ∷ (codes "setdomainname", some 171, some 162)
    ∷ (codes "init_module", some 175, some 105)
    ∷ (codes "finit_module", some 313, some 273)
    ∷ (codes "delete_module", some 176, some 106)
    ∷ (codes "kexec_load", some 246, some 104)
    ∷ (codes "kexec_file_load", some 320, some 294)
    ∷ (codes "open_by_handle_at", some 304, some 265)
    ∷ (codes "name_to_handle_at", some 303, some 264)
    ∷ (codes "add_key", some 248, some 217)
    ∷ (codes "request_key", some 249, some 218)
    ∷ (codes "keyctl", some 250, some 219)
    ∷ (codes "setns", some 308, some 268)
    ∷ (codes "unshare", some 272, some 97)
    ∷ (codes "bpf", some 321, some 280)
    ∷ (codes "perf_event_open", some 298, some 241)
    ∷ (codes "clock_settime", some 227, some 112)
    ∷ (codes "clock_adjtime", some 305, some 266)
    ∷ (codes "settimeofday", some 164, some 170)
    ∷ (codes "adjtimex", some 159, some 171)
    ∷ (codes "acct", some 163, some 89)
    ∷ (codes "quotactl", some 179, some 60)
    ∷ (codes "ioperm", some 173, none)
    ∷ (codes "iopl", some 172, none)
    ∷ (codes "uselib", some 134, none)
    ∷ (codes "nfsservctl", some 180, none)
    ∷ (codes "fsopen", some 430, some 430)
    ∷ (codes "fsconfig", some 431, some 431)
    ∷ (codes "fsmount", some 432, some 432)
    ∷ (codes "move_mount", some 429, some 429)
    ∷ (codes "open_tree", some 428, some 428)
    ∷ (codes "mount_setattr", some 442, some 442)
    ∷ (codes "ptrace", some 101, some 117)
    ∷ (codes "process_vm_readv", some 310, some 270)
    ∷ (codes "process_vm_writev", some 311, some 271)
    ∷ (codes "syslog", some 103, some 116)
    ∷ []

unfoldable pub default_deny : List Text
default_deny =
    codes "mount"
    ∷ codes "umount2"
    ∷ codes "pivot_root"
    ∷ codes "chroot"
    ∷ codes "swapon"
    ∷ codes "swapoff"
    ∷ codes "reboot"
    ∷ codes "sethostname"
    ∷ codes "setdomainname"
    ∷ codes "init_module"
    ∷ codes "finit_module"
    ∷ codes "delete_module"
    ∷ codes "kexec_load"
    ∷ codes "kexec_file_load"
    ∷ codes "open_by_handle_at"
    ∷ codes "name_to_handle_at"
    ∷ codes "add_key"
    ∷ codes "request_key"
    ∷ codes "keyctl"
    ∷ codes "setns"
    ∷ codes "unshare"
    ∷ codes "bpf"
    ∷ codes "perf_event_open"
    ∷ codes "clock_settime"
    ∷ codes "clock_adjtime"
    ∷ codes "settimeofday"
    ∷ codes "adjtimex"
    ∷ codes "acct"
    ∷ codes "quotactl"
    ∷ codes "ioperm"
    ∷ codes "iopl"
    ∷ codes "uselib"
    ∷ codes "nfsservctl"
    ∷ codes "fsopen"
    ∷ codes "fsconfig"
    ∷ codes "fsmount"
    ∷ codes "move_mount"
    ∷ codes "open_tree"
    ∷ codes "mount_setattr"
    ∷ []

unfoldable pub strict_extra : List Text
strict_extra =
    codes "ptrace" ∷ codes "process_vm_readv" ∷ codes "process_vm_writev" ∷ codes "syslog" ∷ []

abbrev pub number_on : Arch → Row → Option ℕ
number_on x86_64 r = r.1
number_on aarch64 r = r.2

unfoldable pub look_up : Arch → Text → List Row → Option ℕ
look_up a name [] = none
look_up a name (r ∷ rs) = if text_eq r.0 name then number_on a r else look_up a name rs

unfoldable pub syscall_nr : Arch → Text → Option ℕ
unfolding look_up syscalls
syscall_nr a name = look_up a name syscalls
