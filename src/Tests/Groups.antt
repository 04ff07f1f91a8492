-- ===== src/Tests/Groups.antt =====
-- src/runtime/cgroup.rs on concrete inputs.
use myrun.Prelude.{[], ◌∷◌, none, some}
use myrun.Text.{codes}
use myrun.Text.Number.{show_nat}
use myrun.Config.{Resources}
use myrun.Cgroup.{Cgroup, Kernel, Log}

abbrev group : Cgroup
group = record { path = codes "/g"; enabled = codes "memory" ∷ codes "pids" ∷ [] }

-- A kernel that takes every write.
abbrev willing : Kernel
willing = λ file value. none

abbrev limits : Resources
limits = record {
  memory = some 1000000;
  memory_swap = some 1500000;
  cpus = none;
  cpu_weight = none;
  pids = some 5;
}

abbrev log : Log
log =
    (codes "pids.max", show_nat 5)
    ∷ (codes "memory.swap.max", show_nat 500000)
    ∷ (codes "memory.max", show_nat 1000000)
    ∷ []
