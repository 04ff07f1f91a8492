-- ===== src/Process/Status.antt =====
-- src/sys/process.rs, `ExitStatus`: what a raw wait status is read as.
use myrun.Prelude.{ℕ, ◌+◌, ◌*◌, ◌≤◌, ◌<◌, ◌≡◌, Bool, true, false, none, some, arith, if◌then◌else◌}
use myrun.Process.{wifsignaled, wifstopped, from_raw, exit_code}

-- The status words of wait(2): a normal exit with a code, a death by a signal, with a core dump or
-- not, and a stop.
abbrev pub exited : ℕ → ℕ
exited c = c * 256

abbrev pub killed : ℕ → Bool → ℕ
killed s core = s + (if core then 128 else 0)

abbrev pub stopped : ℕ → ℕ
stopped s = s * 256 + 0x7f

-- A process that exited with code `c` is read back as `c`; one that a signal `s` from 1 to 126
-- killed, with a core dump or without, is read as that signal and reported as 128 + s.
pub from_raw_codes :
    (c s : ℕ) (core : Bool)
    → c < 256
    → 1 ≤ s
    → s ≤ 126
    → (from_raw (exited c) ≡ record { code = some c; signal = none })
      × (exit_code (from_raw (exited c)) ≡ c)
      × (from_raw (killed s core) ≡ record { code = none; signal = some s })
      × (exit_code (from_raw (killed s core)) ≡ 128 + s)
unfolding from_raw exit_code
from_raw_codes c s true hc lo hi = ground arith
from_raw_codes c s false hc lo hi = ground arith

-- A stopped process is no dead process, yet its status word passes for a death by signal 127:
-- `wifsignaled` holds of it, together with `wifstopped`, and `from_raw` reports signal 127.
pub from_raw-stopped :
    (s : ℕ)
    → (wifstopped (stopped s) ≡ true)
      × (wifsignaled (stopped s) ≡ true)
      × (from_raw (stopped s) ≡ record { code = none; signal = some 127 })
unfolding from_raw wifstopped
from_raw-stopped s = ground arith
