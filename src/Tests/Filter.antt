-- ===== src/Tests/Filter.antt =====
-- src/sys/seccomp.rs: a machine that the laws hold of, and the filter on it.
use myrun.Prelude.{
  ℕ, zero, suc, ◌≡◌, refl, List, [], ◌∷◌, Option, none, some, leb, ◌==◌, if◌then◌else◌, drop,
}
use myrun.Error.{ok}
use myrun.Seccomp.{SockFilter, x86_64, strict, denied_syscalls, numbers, build_filter}
use myrun.Seccomp.Kernel.{BpfMachine}
use myrun.Seccomp.Verdict.{wanted, filter_verdict}

data Kind : Type 0 where
  load_nr load_arch jump_equal jump_least give unknown : Kind

abbrev kind : ℕ → ℕ → Kind
kind code k =
    if code == 32
    then if k == 0 then load_nr else if k == 4 then load_arch else unknown
    else if code == 21
    then jump_equal
    else if code == 53
    then jump_least
    else if code == 6
    then give
    else unknown

-- `walk skip arch nr acc p`: the program after `skip` more instructions are passed over.
walk : ℕ → ℕ → ℕ → ℕ → List SockFilter → Option ℕ
walk skip arch nr acc [] = none
walk (suc skip) arch nr acc (i ∷ p) = walk skip arch nr acc p
walk zero arch nr acc (i ∷ p) = elim (kind i.code i.k) [
  | load_nr ↦ walk 0 arch nr nr p
  | load_arch ↦ walk 0 arch nr arch p
  | jump_equal ↦ walk (if acc == i.k then i.jt else i.jf) arch nr acc p
  | jump_least ↦ walk (if leb i.k acc then i.jt else i.jf) arch nr acc p
  | give ↦ some i.k
  | unknown ↦ none
]

walk-drop :
    (n arch nr acc : ℕ) (p : List SockFilter) → walk n arch nr acc p ≡ walk 0 arch nr acc (drop n p)
unfolding walk
walk-drop zero arch nr acc p = refl
walk-drop (suc n) arch nr acc [] = refl
walk-drop (suc n) arch nr acc (i ∷ p) = walk-drop n arch nr acc p

machine : BpfMachine
unfolding walk
machine = record {
  run = λ arch nr acc p. walk 0 arch nr acc p;
  loads_nr = λ arch nr acc jt jf rest. refl;
  loads_arch = λ arch nr acc jt jf rest. refl;
  jumps_eq = λ arch nr acc jt jf k rest. walk-drop (if acc == k then jt else jf) arch nr acc rest;
  jumps_ge = λ arch nr acc jt jf k rest. walk-drop (if leb k acc then jt else jf) arch nr acc rest;
  returns = λ arch nr acc jt jf k rest. refl;
}

filter_verdict_example :
    (prog : List SockFilter) × (build_filter x86_64 strict ≡ ok prog)
    × ((arch nr : ℕ)
        → BpfMachine.run machine arch nr 0 prog
          ≡ some (wanted x86_64 strict (numbers x86_64 (denied_syscalls strict)) arch nr))
filter_verdict_example = filter_verdict machine x86_64 strict
