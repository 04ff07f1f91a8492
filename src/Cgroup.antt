-- ===== src/Cgroup.antt =====
-- src/runtime/cgroup.rs: the limits of a container as the files of its cgroup.
-- What the kernel answers to a write is an argument. The writes that it took are a list, the last
-- one first; an error leaves no such list, since the caller removes the cgroup then. Logging is
-- left out.
pub mod Limits
pub mod Applied
use myrun.Prelude.{
  ℕ, ◌-◌, Bool, true, false, ◌&&◌, ◌||◌, List, [], ◌∷◌, ◌++◌, Option, none, some, ltb,
  if◌then◌else◌,
}
use myrun.Text.{Text, codes, text_eq}
use myrun.Text.Number.{show_nat}
use myrun.Error.{Error, Result, ok, err, ◌>>=◌, lit, shown, quoted}
use myrun.Floats.{Floats}
use myrun.Config.{Resources}

pub record Cgroup : Type 0 where
  pub path : Text
  pub enabled : List Text

-- The error's text, if the kernel refuses to write the value to the file.
abbrev pub Kernel : Type 0
Kernel = Text → Text → Option Text

abbrev pub Log : Type 0
Log = List (Text × Text)

-- `Resources::cpu_max_value`
unfoldable pub cpu_max_value : Floats → Resources → Option Text
cpu_max_value F r = elim r.cpus [
  | none ↦ none
  | some c ↦
      let quota = Floats.quota_u64 F c in
      some (show_nat (if ltb quota 1000 then 1000 else quota) ++ codes " 100000")
]

abbrev pub is_some {ℓ} : {A : Type ℓ} → Option A → Bool
is_some none = false
is_some (some a) = true

abbrev push_if : Bool → Text → List Text → List Text
push_if b controller rest = if b then controller ∷ rest else rest

unfoldable pub required_for : Resources → List Text
required_for r = push_if (is_some r.memory || is_some r.memory_swap) (codes "memory") (
    push_if (is_some r.cpus || is_some r.cpu_weight) (codes "cpu")
      (push_if (is_some r.pids) (codes "pids") []))

unfoldable pub has_controller : List Text → Text → Bool
has_controller [] controller = false
has_controller (c ∷ cs) controller = text_eq c controller || has_controller cs controller

-- `Cgroup::has`
abbrev pub has : Cgroup → Text → Bool
has cg controller = has_controller cg.enabled controller

-- `Cgroup::write`
unfoldable pub write : Kernel → Cgroup → Text → Text → Log → Result Log
write kernel cg file value log = elim (kernel file value) [
  | none ↦ ok ((file, value) ∷ log)
  | some e ↦ err (
      Error.io (
        lit "writing "
        ∷ quoted value
        ∷ lit " to "
        ∷ shown cg.path
        ∷ lit "/"
        ∷ shown file
        ∷ lit ": "
        ∷ shown e
        ∷ []))
]

-- `Cgroup::write_if`
unfoldable pub write_if : Kernel → Cgroup → Text → Text → Text → Log → Result Log
unfolding write
write_if kernel cg controller file value log =
    if has cg controller then write kernel cg file value log else ok log

-- a limit that is written where it is set
unfoldable pub limit : Kernel → Cgroup → Text → Text → Option Text → Log → Result Log
unfolding write_if
limit kernel cg controller file none log = ok log
limit kernel cg controller file (some value) log = write_if kernel cg controller file value log

abbrev pub number : Option ℕ → Option Text
number none = none
number (some n) = some (show_nat n)

-- `let _ =`: a failure is ignored.
abbrev pub ignored : Log → Result Log → Log
ignored log (ok l) = l
ignored log (err e) = log

-- The swap limit, of the swap and the memory limit.
unfoldable pub swap_limit : Kernel → Cgroup → Option ℕ → Option ℕ → Log → Result Log
unfolding write_if
swap_limit kernel cg (some s) (some m) log =
    write_if kernel cg (codes "memory") (codes "memory.swap.max") (show_nat (s - m)) log
swap_limit kernel cg (some s) none log =
    write_if kernel cg (codes "memory") (codes "memory.swap.max") (show_nat s) log
swap_limit kernel cg none (some m) log =
    ok (ignored log (write_if kernel cg (codes "memory") (codes "memory.swap.max") (codes "0") log))
swap_limit kernel cg none none log = ok log

-- `Cgroup::apply`
unfoldable pub apply : Floats → Kernel → Cgroup → Resources → Log → Result Log
unfolding limit swap_limit cpu_max_value
apply F kernel cg r log = do
  l1 ← limit kernel cg (codes "memory") (codes "memory.max") (number r.memory) log
  l2 ← swap_limit kernel cg r.memory_swap r.memory l1
  l3 ← limit kernel cg (codes "cpu") (codes "cpu.max") (cpu_max_value F r) l2
  l4 ← limit kernel cg (codes "cpu") (codes "cpu.weight") (number r.cpu_weight) l3
  limit kernel cg (codes "pids") (codes "pids.max") (number r.pids) l4
