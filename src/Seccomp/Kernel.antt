-- ===== src/Seccomp/Kernel.antt =====
-- The kernel's machine for classic BPF programs, as src/sys/seccomp.rs relies on it.
use myrun.Prelude.{ℕ, ◌≡◌, List, ◌∷◌, Option, some, leb, ◌==◌, if◌then◌else◌, drop}
use myrun.Seccomp.{SockFilter}

-- `run arch nr acc rest`: what the kernel does with a call `nr` from a caller of architecture
-- `arch`, the accumulator being `acc` and `rest` the program from the next instruction on. Jumps
-- lead forward only. The laws are the documented meaning of the four instructions in use
-- (linux/bpf_common.h, seccomp(2)): 32 loads a word of `seccomp_data`, of which the number stands
-- at 0 and the architecture at 4; 21 and 53 compare the accumulator with `k`; 6 returns `k`.
pub record BpfMachine : Type 0 where
  pub run : ℕ → ℕ → ℕ → List SockFilter → Option ℕ
  pub loads_nr :
      (arch nr acc jt jf : ℕ) (rest : List SockFilter)
      → run arch nr acc (record { code = 32; jt = jt; jf = jf; k = 0 } ∷ rest) ≡ run arch nr nr rest
  pub loads_arch :
      (arch nr acc jt jf : ℕ) (rest : List SockFilter)
      → run arch nr acc (record { code = 32; jt = jt; jf = jf; k = 4 } ∷ rest)
        ≡ run arch nr arch rest
  pub jumps_eq :
      (arch nr acc jt jf k : ℕ) (rest : List SockFilter)
      → run arch nr acc (record { code = 21; jt = jt; jf = jf; k = k } ∷ rest)
        ≡ run arch nr acc (drop (if acc == k then jt else jf) rest)
  pub jumps_ge :
      (arch nr acc jt jf k : ℕ) (rest : List SockFilter)
      → run arch nr acc (record { code = 53; jt = jt; jf = jf; k = k } ∷ rest)
        ≡ run arch nr acc (drop (if leb k acc then jt else jf) rest)
  pub returns :
      (arch nr acc jt jf k : ℕ) (rest : List SockFilter)
      → run arch nr acc (record { code = 6; jt = jt; jf = jf; k = k } ∷ rest) ≡ some k
