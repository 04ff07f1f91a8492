-- ===== src/Cgroup/Applied.antt =====
-- src/runtime/cgroup.rs: the limits of a container, once `apply` has succeeded.
use myrun.Prelude.{ℕ, ◌+◌, ◌≤◌, ◌≡◌, some}
use myrun.Text.{Text, codes}
use myrun.Text.Number.{show_nat}
use myrun.Error.{Result}
use myrun.Floats.{Floats}
use myrun.Config.{Resources}
use myrun.Cgroup.{Cgroup, Kernel, Log, cpu_max_value, limit, number, swap_limit}
use myrun.Cgroup.Limits.{written}

-- Each limit that is set was written to its file; memory and swap together are the total asked for.
pub record IsLimited (F : Floats) (r : Resources) (log : Log) : Type 0 where
  pub memory : (m : ℕ) → r.memory ≡ some m → written (codes "memory.max") log ≡ some (show_nat m)
  pub swap :
      (s m : ℕ)
      → r.memory_swap ≡ some s
      → r.memory ≡ some m
      → m ≤ s
      → (k : ℕ) × (written (codes "memory.swap.max") log ≡ some (show_nat k)) × (m + k ≡ s)
  pub cpus : (v : Text) → cpu_max_value F r ≡ some v → written (codes "cpu.max") log ≡ some v
  pub weight :
      (w : ℕ) → r.cpu_weight ≡ some w → written (codes "cpu.weight") log ≡ some (show_nat w)
  pub pids : (p : ℕ) → r.pids ≡ some p → written (codes "pids.max") log ≡ some (show_nat p)

-- The five steps of `apply`.
module _ (F : Floats) (kernel : Kernel) (cg : Cgroup) (r : Resources) where
  abbrev memory_step : Log → Result Log
  memory_step k = limit kernel cg (codes "memory") (codes "memory.max") (number r.memory) k

  abbrev swap_step : Log → Result Log
  swap_step k = swap_limit kernel cg r.memory_swap r.memory k

  abbrev cpu_step : Log → Result Log
  cpu_step k = limit kernel cg (codes "cpu") (codes "cpu.max") (cpu_max_value F r) k

  abbrev weight_step : Log → Result Log
  weight_step k = limit kernel cg (codes "cpu") (codes "cpu.weight") (number r.cpu_weight) k

  abbrev pids_step : Log → Result Log
  pids_step k = limit kernel cg (codes "pids") (codes "pids.max") (number r.pids) k
