-- ===== src/Cgroup/Limits.antt =====
-- src/runtime/cgroup.rs: which limits are in force once `apply` has succeeded.
use myrun.Prelude.{
  ℕ, ◌-◌, ◌≡◌, refl, sym, ap, ◌∙◌, inl, inr, Bool, true, false, ◌&&◌, List, [], ◌∷◌, Option, none,
  some, arith, if◌then◌else◌, Bool-cases, Option-cases,
}
use myrun.Text.{Text, codes, text_eq}
use myrun.Text.Laws.{text_eq_refl}
use myrun.Text.Number.{show_nat}
use myrun.Error.{Result, ok, err}
use myrun.Error.Chains.{ok_inj}
use myrun.Cgroup.{Cgroup, Kernel, Log, has, write, write_if, limit, swap_limit, ignored}

-- The value that was written last to a file.
unfoldable pub written : Text → Log → Option Text
written file [] = none
written file ((f, v) ∷ log) = if text_eq f file then some v else written file log

-- Every controller of the list is enabled.
unfoldable pub has_all : Cgroup → List Text → Bool
has_all cg [] = true
has_all cg (c ∷ cs) = has cg c && has_all cg cs

taken :
    (kernel : Kernel) (cg : Cgroup) (file value : Text) (log l : Log)
    → write kernel cg file value log ≡ ok l
    → l ≡ (file, value) ∷ log
unfolding write
taken kernel cg file value log l e = elim (Option-cases (kernel file value)) [
  | inl q ↦ sym (ok_inj ((file, value) ∷ log) l (ground (arith, e, q)))
  | inr (m, q) ↦ absurd (ground (arith, e, q))
]

-- A write that succeeds is the last one, if the controller is enabled, and none otherwise.
write_ok :
    (kernel : Kernel) (cg : Cgroup) (controller file value : Text) (log l : Log)
    → write_if kernel cg controller file value log ≡ ok l
    → has cg controller ≡ true
    → l ≡ (file, value) ∷ log
unfolding write_if
write_ok kernel cg controller file value log l e h =
    taken kernel cg file value log l
      (sym (ap (λ b. if b then write kernel cg file value log else ok log) h) ∙ e)

pub written-write_if :
    (kernel : Kernel) (cg : Cgroup) (controller file value : Text) (log l : Log)
    → write_if kernel cg controller file value log ≡ ok l
    → has cg controller ≡ true
    → written file l ≡ some value
unfolding written
written-write_if kernel cg controller file value log l e h =
    ap (written file) (write_ok kernel cg controller file value log l e h)
    ∙ (let same = text_eq_refl file in rw same refl)

-- Another file keeps its value.
write_other :
    (kernel : Kernel) (cg : Cgroup) (controller file value other : Text) (log l : Log)
    → write_if kernel cg controller file value log ≡ ok l
    → text_eq file other ≡ false
    → written other l ≡ written other log
unfolding write_if written
write_other kernel cg controller file value other log l e h =
    elim (Bool-cases (has cg controller)) [
      | inl t ↦ ap (written other) (write_ok kernel cg controller file value log l e t) ∙ rw h refl
      | inr f ↦ sym (
          ap (written other) (
            ok_inj log l
              (sym (ap (λ b. if b then write kernel cg file value log else ok log) f) ∙ e)))
    ]

pub limit_other :
    (kernel : Kernel) (cg : Cgroup) (controller file : Text) (value : Option Text) (other : Text)
    (log l : Log)
    → limit kernel cg controller file value log ≡ ok l
    → text_eq file other ≡ false
    → written other l ≡ written other log
unfolding limit
limit_other kernel cg controller file none other log l e h =
    sym (ap (written other) (ok_inj log l e))
limit_other kernel cg controller file (some v) other log l e h =
    write_other kernel cg controller file v other log l e h

pub swap_other :
    (kernel : Kernel) (cg : Cgroup) (swap memory : Option ℕ) (other : Text) (log l : Log)
    → swap_limit kernel cg swap memory log ≡ ok l
    → text_eq (codes "memory.swap.max") other ≡ false
    → written other l ≡ written other log
unfolding swap_limit
swap_other kernel cg (some s) (some m) other log l e h =
    write_other kernel cg (codes "memory") (codes "memory.swap.max") (show_nat (s - m)) other log l
      e h
swap_other kernel cg (some s) none other log l e h =
    write_other kernel cg (codes "memory") (codes "memory.swap.max") (show_nat s) other log l e h
swap_other kernel cg none (some m) other log l e h =
    sym (ap (written other) (ok_inj _ l e))
    ∙ at_most (write_if kernel cg (codes "memory") (codes "memory.swap.max") (codes "0") log) refl
  where
    at_most :
        (r : Result Log)
        → write_if kernel cg (codes "memory") (codes "memory.swap.max") (codes "0") log ≡ r
        → written other (ignored log r) ≡ written other log
    at_most (ok k) q =
        write_other kernel cg (codes "memory") (codes "memory.swap.max") (codes "0") other log k q h
    at_most (err x) q = refl
swap_other kernel cg none none other log l e h = sym (ap (written other) (ok_inj log l e))
