-- ===== src/Seccomp.antt =====
-- src/sys/seccomp.rs: the system call filter, and the constants of src/sys/ffi.rs that it is made of.
-- The architecture that the program is built for is an argument.
mod Table
pub mod Kernel
pub mod Verdict
unfoldable pub use Table.*
use Prim.Native.Nat.{bit_and, bit_or}
use myrun.Prelude.{
  ℕ, ◌+◌, ◌-◌, ◌*◌, ◌%◌, Bool, false, ◌||◌, List, [], ◌∷◌, ◌++◌, Option, none, some, ltb,
  if◌then◌else◌, length,
}
use myrun.Text.{Text, codes, text_eq, trim, to_ascii_lowercase}
use myrun.Error.{Error, Result, ok, err, lit, quoted}

pub data SeccompMode : Type 0 where
  unconfined default strict : SeccompMode

-- `matches!` against a list of words
unfoldable pub one_of : Text → List Text → Bool
one_of s [] = false
one_of s (t ∷ ts) = text_eq s t || one_of s ts

unfoldable pub parse : Text → Result SeccompMode
unfolding one_of
parse s =
    let t = to_ascii_lowercase (trim s) in
    if one_of t (codes "unconfined" ∷ codes "off" ∷ codes "none" ∷ [])
    then ok unconfined
    else if one_of t (codes "default" ∷ codes "on" ∷ [])
    then ok default
    else if one_of t (codes "strict" ∷ [])
    then ok strict
    else err (
        Error.config (
          lit "unknown seccomp mode "
          ∷ quoted t
          ∷ lit " (expected unconfined|default|strict)"
          ∷ []))

unfoldable pub as_str : SeccompMode → Text
as_str unconfined = codes "unconfined"
as_str default = codes "default"
as_str strict = codes "strict"

unfoldable pub denied_syscalls : SeccompMode → List Text
denied_syscalls unconfined = []
denied_syscalls default = default_deny
denied_syscalls strict = default_deny ++ strict_extra

-- `struct sock_filter`
pub record SockFilter : Type 0 where
  pub code : ℕ
  pub jt : ℕ
  pub jf : ℕ
  pub k : ℕ

abbrev pub bpf_ld : ℕ
bpf_ld = 0

abbrev pub bpf_jmp : ℕ
bpf_jmp = 5

abbrev pub bpf_ret : ℕ
bpf_ret = 6

abbrev pub bpf_w : ℕ
bpf_w = 0

abbrev pub bpf_abs : ℕ
bpf_abs = 32

abbrev pub bpf_jeq : ℕ
bpf_jeq = 16

abbrev pub bpf_jge : ℕ
bpf_jge = 48

abbrev pub bpf_k : ℕ
bpf_k = 0

abbrev pub ret_kill_process : ℕ
ret_kill_process = 2147483648

abbrev pub ret_errno : ℕ
ret_errno = 327680

abbrev pub ret_allow : ℕ
ret_allow = 2147418112

abbrev pub ret_data : ℕ
ret_data = 65535

abbrev pub eperm : ℕ
eperm = 1

-- `AUDIT_ARCH_NATIVE`
abbrev pub audit_arch_native : Arch → ℕ
audit_arch_native x86_64 = 3221225534
audit_arch_native aarch64 = 3221225655

abbrev pub stmt : ℕ → ℕ → SockFilter
stmt code k = record { code = code; jt = 0; jf = 0; k = k }

abbrev pub jump : ℕ → ℕ → ℕ → ℕ → SockFilter
jump code k jt jf = record { code = code; jt = jt; jf = jf; k = k }

abbrev pub load : ℕ → SockFilter
load offset = stmt (bit_or (bit_or bpf_ld bpf_w) bpf_abs) offset

abbrev pub jump_eq : ℕ → ℕ → ℕ → SockFilter
jump_eq k jt jf = jump (bit_or (bit_or bpf_jmp bpf_jeq) bpf_k) k jt jf

abbrev pub jump_ge : ℕ → ℕ → ℕ → SockFilter
jump_ge k jt jf = jump (bit_or (bit_or bpf_jmp bpf_jge) bpf_k) k jt jf

abbrev pub ret : ℕ → SockFilter
ret k = stmt (bit_or bpf_ret bpf_k) k

-- `filter_map(syscall_nr)`
unfoldable pub numbers : Arch → List Text → List ℕ
numbers a [] = []
numbers a (name ∷ names) = elim (syscall_nr a name) [
  | none ↦ numbers a names
  | some n ↦ n ∷ numbers a names
]

abbrev pub first_check : Arch → ℕ
first_check x86_64 = 4
first_check aarch64 = 3

-- The guard against the numbers of the x32 ABI; a jump's distance is cast to eight bits.
abbrev pub x32_guard : Arch → ℕ → List SockFilter
x32_guard x86_64 kill = jump_ge 1073741824 ((kill - 4) % 256) 0 ∷ []
x32_guard aarch64 kill = []

-- One check for each number, the first of them at `idx`.
unfoldable pub checks : ℕ → ℕ → List ℕ → List SockFilter
checks idx deny [] = []
checks idx deny (nr ∷ nrs) = jump_eq nr ((deny - idx - 1) % 256) 0 ∷ checks (idx + 1) deny nrs

abbrev pub deny_action : SeccompMode → ℕ
deny_action strict = ret_kill_process
deny_action default = bit_or ret_errno (bit_and eperm ret_data)
deny_action unconfined = bit_or ret_errno (bit_and eperm ret_data)

-- The instructions, in order.
unfoldable pub program : Arch → SeccompMode → List ℕ → List SockFilter
unfolding checks
program a mode nrs =
    let allow = first_check a + length nrs in
    let deny = allow + 1 in
    let kill = allow + 2 in
    load 4
    ∷ jump_eq (audit_arch_native a) 0 ((kill - 2) % 256)
    ∷ load 0
    ∷ (x32_guard a kill
        ++ checks (first_check a) deny nrs
        ++ (ret ret_allow ∷ ret (deny_action mode) ∷ ret ret_kill_process ∷ []))

-- The body of `build_filter` once the numbers are there.
unfoldable pub assemble : Arch → SeccompMode → List ℕ → Result (List SockFilter)
unfolding program
assemble a mode nrs =
    if ltb 250 (first_check a + length nrs + 2)
    then err (Error.unsupported (lit "seccomp filter too large for 8-bit jump offsets" ∷ []))
    else ok (program a mode nrs)

unfoldable pub build_filter : Arch → SeccompMode → Result (List SockFilter)
build_filter a mode = assemble a mode (numbers a (denied_syscalls mode))

abbrev pub install_built : Result (List SockFilter) → (List SockFilter → Option Error) → Result ℕ
install_built (err e) call = err e
install_built (ok prog) call = elim (call prog) [ none ↦ ok (length prog) | some e ↦ err e ]

-- `install`: `call` is what the system call answers about a program, an error or success.
unfoldable pub install : Arch → SeccompMode → (List SockFilter → Option Error) → Result ℕ
install a unconfined call = ok 0
install a default call = install_built (build_filter a default) call
install a strict call = install_built (build_filter a strict) call
