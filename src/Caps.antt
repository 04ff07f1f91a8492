-- ===== src/Caps.antt =====
-- src/sys/caps.rs: capability names, and the mask of those that a container keeps.
-- A mask is a `u64`. Reading and setting the process's sets are system calls, and left out.
pub mod Names
use Prim.Native.Nat.{bit_and, bit_or}
use myrun.Prelude.{
  ℕ, ◌-◌, ◌%◌, ◌^◌, Bool, false, ◌||◌, List, [], ◌∷◌, ◌++◌, Option, none, some, ◌==◌, if◌then◌else◌,
}
use myrun.Text.{Text, codes, text_eq, trim, to_ascii_uppercase, to_ascii_lowercase, strip_prefix}
use myrun.Text.Number.{show_nat}
use myrun.Error.{Error, Result, ◌>>=◌, ok, or_fail, lit, quoted}

unfoldable pub cap_table : List (Text × ℕ)
cap_table =
    (codes "CHOWN", 0)
    ∷ (codes "DAC_OVERRIDE", 1)
    ∷ (codes "DAC_READ_SEARCH", 2)
    ∷ (codes "FOWNER", 3)
    ∷ (codes "FSETID", 4)
    ∷ (codes "KILL", 5)
    ∷ (codes "SETGID", 6)
    ∷ (codes "SETUID", 7)
    ∷ (codes "SETPCAP", 8)
    ∷ (codes "LINUX_IMMUTABLE", 9)
    ∷ (codes "NET_BIND_SERVICE", 10)
    ∷ (codes "NET_BROADCAST", 11)
    ∷ (codes "NET_ADMIN", 12)
    ∷ (codes "NET_RAW", 13)
    ∷ (codes "IPC_LOCK", 14)
    ∷ (codes "IPC_OWNER", 15)
    ∷ (codes "SYS_MODULE", 16)
    ∷ (codes "SYS_RAWIO", 17)
    ∷ (codes "SYS_CHROOT", 18)
    ∷ (codes "SYS_PTRACE", 19)
    ∷ (codes "SYS_PACCT", 20)
    ∷ (codes "SYS_ADMIN", 21)
    ∷ (codes "SYS_BOOT", 22)
    ∷ (codes "SYS_NICE", 23)
    ∷ (codes "SYS_RESOURCE", 24)
    ∷ (codes "SYS_TIME", 25)
    ∷ (codes "SYS_TTY_CONFIG", 26)
    ∷ (codes "MKNOD", 27)
    ∷ (codes "LEASE", 28)
    ∷ (codes "AUDIT_WRITE", 29)
    ∷ (codes "AUDIT_CONTROL", 30)
    ∷ (codes "SETFCAP", 31)
    ∷ (codes "MAC_OVERRIDE", 32)
    ∷ (codes "MAC_ADMIN", 33)
    ∷ (codes "SYSLOG", 34)
    ∷ (codes "WAKE_ALARM", 35)
    ∷ (codes "BLOCK_SUSPEND", 36)
    ∷ (codes "AUDIT_READ", 37)
    ∷ (codes "PERFMON", 38)
    ∷ (codes "BPF", 39)
    ∷ (codes "CHECKPOINT_RESTORE", 40)
    ∷ []

unfoldable pub default_keep : List Text
default_keep =
    codes "CHOWN"
    ∷ codes "DAC_OVERRIDE"
    ∷ codes "FOWNER"
    ∷ codes "FSETID"
    ∷ codes "KILL"
    ∷ codes "SETGID"
    ∷ codes "SETUID"
    ∷ codes "SETPCAP"
    ∷ codes "NET_BIND_SERVICE"
    ∷ codes "SYS_CHROOT"
    ∷ codes "MKNOD"
    ∷ codes "AUDIT_WRITE"
    ∷ []

unfoldable pub find_cap : Text → List (Text × ℕ) → Option ℕ
find_cap n [] = none
find_cap n ((k, v) ∷ rest) = if text_eq k n then some v else find_cap n rest

-- `strip_prefix("CAP_").unwrap_or`
abbrev pub stripped : Text → Text
stripped t = elim (strip_prefix (codes "CAP_") t) [ none ↦ t | some r ↦ r ]

unfoldable pub parse_cap : Text → Result ℕ
unfolding find_cap cap_table
parse_cap name =
    or_fail (find_cap (stripped (to_ascii_uppercase (trim name))) cap_table)
      (Error.config (lit "unknown capability " ∷ quoted name ∷ []))

unfoldable pub find_value : ℕ → List (Text × ℕ) → Option Text
find_value v [] = none
find_value v ((k, n) ∷ rest) = if n == v then some k else find_value v rest

unfoldable pub cap_name : ℕ → Text
unfolding find_value cap_table
cap_name v = elim (find_value v cap_table) [
  | some k ↦ codes "CAP_" ++ k
  | none ↦ codes "CAP_" ++ show_nat v
]

-- `1u64 << v`, and its complement
abbrev pub bit : ℕ → ℕ
bit v = 2 ^ v % 2 ^ 64

abbrev pub all_but : ℕ → ℕ
all_but v = 2 ^ 64 - 1 - bit v

-- `eq_ignore_ascii_case("all")`
unfoldable pub is_all : Text → Bool
is_all t = text_eq (to_ascii_lowercase t) (codes "all")

unfoldable pub any_all : List Text → Bool
any_all [] = false
any_all (d ∷ ds) = is_all d || any_all ds

unfoldable pub keep_caps : ℕ → List Text → Result ℕ
keep_caps mask [] = ok mask
keep_caps mask (c ∷ cs) = do v ← parse_cap c; keep_caps (bit_or mask (bit v)) cs

unfoldable pub drop_caps : ℕ → List Text → Result ℕ
drop_caps mask [] = ok mask
drop_caps mask (c ∷ cs) = do v ← parse_cap c; drop_caps (bit_and mask (all_but v)) cs

unfoldable pub add_table : ℕ → List (Text × ℕ) → ℕ
add_table mask [] = mask
add_table mask ((k, v) ∷ rest) = add_table (bit_or mask (bit v)) rest

unfoldable pub add_caps : ℕ → List Text → Result ℕ
add_caps mask [] = ok mask
add_caps mask (c ∷ cs) =
    let all = add_caps (add_table mask cap_table) cs in
    if is_all c then all else (do v ← parse_cap c; add_caps (bit_or mask (bit v)) cs)

unfoldable pub resolve_keep_set : List Text → List Text → List Text → Result ℕ
unfolding keep_caps drop_caps add_caps any_all
resolve_keep_set base add dropped = do
  mask ← (if any_all dropped then ok 0 else (do m ← keep_caps 0 base; drop_caps m dropped))
  add_caps mask add

unfoldable pub describe_in : ℕ → List (Text × ℕ) → List Text
describe_in mask [] = []
describe_in mask ((k, v) ∷ rest) =
    let later = describe_in mask rest in
    if bit_and mask (bit v) == 0 then later else (codes "CAP_" ++ k) ∷ later

unfoldable pub describe_mask : ℕ → List Text
unfolding describe_in cap_table
describe_mask mask = describe_in mask cap_table
