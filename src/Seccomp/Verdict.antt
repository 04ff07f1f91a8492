-- ===== src/Seccomp/Verdict.antt =====
-- src/sys/seccomp.rs: what the kernel does when it runs the filter.
use myrun.Prelude.{
  ℕ, zero, suc, ◌+◌, ◌-◌, ◌%◌, ◌<◌, ◌≡◌, ◌↔◌, ◌⊎◌, refl, sym, ap, ◌∙◌, inl, inr, Bool, true, false,
  not, ◌||◌, List, [], ◌∷◌, ◌++◌, some, arith, ltb, leb, ◌==◌, if◌then◌else◌, length, drop,
  Bool-cases, Option-cases,
}
use myrun.Text.{Text, codes, text_eq}
use myrun.Error.{ok}
use myrun.Seccomp.{
  Arch, x86_64, aarch64, SeccompMode, unconfined, default, strict, SockFilter, syscalls,
  default_deny, strict_extra, look_up, syscall_nr, denied_syscalls, ret_kill_process, ret_allow,
  audit_arch_native, load, jump_ge, ret, numbers, checks, deny_action, program, assemble,
  build_filter,
}
use myrun.Seccomp.Kernel.{BpfMachine}

-- `nr` is one of the numbers.
abbrev pub is_in : ℕ → List ℕ → Bool
is_in nr [] = false
is_in nr (n ∷ ns) = nr == n || is_in nr ns

-- A number of the x32 ABI, where there is one.
abbrev pub is_x32 : Arch → ℕ → Bool
is_x32 x86_64 nr = leb 1073741824 nr
is_x32 aarch64 nr = false

-- The verdict that is wanted on a call `nr` from a caller of architecture `arch`.
abbrev pub wanted : Arch → SeccompMode → List ℕ → ℕ → ℕ → ℕ
wanted a mode nrs arch nr =
    if not (arch == audit_arch_native a) || is_x32 a nr
    then ret_kill_process
    else if is_in nr nrs
    then deny_action mode
    else ret_allow

length-checks : (idx deny : ℕ) (nrs : List ℕ) → length (checks idx deny nrs) ≡ length nrs
unfolding checks
length-checks idx deny [] = refl
length-checks idx deny (nr ∷ nrs) = rw (length-checks (idx + 1) deny nrs) refl

-- What is left when a jump passes over all of `xs` and the first instruction after it.
past :
    (n : ℕ) (xs : List SockFilter) (y : SockFilter) (ys : List SockFilter)
    → n ≡ length xs + 1
    → drop n (xs ++ y ∷ ys) ≡ ys
past n [] y ys h = rw h refl
past zero (x ∷ xs) y ys h = absurd (omega arith)
past (suc n) (x ∷ xs) y ys h = past n xs y ys (omega arith)

past_two :
    (n : ℕ) (xs : List SockFilter) (y z : SockFilter) (ys : List SockFilter)
    → n ≡ length xs + 2
    → drop n (xs ++ y ∷ z ∷ ys) ≡ ys
past_two n [] y z ys h = rw h refl
past_two zero (x ∷ xs) y z ys h = absurd (omega arith)
past_two (suc n) (x ∷ xs) y z ys h = past_two n xs y z ys (omega arith)

abbrev tail : SeccompMode → List SockFilter
tail mode = ret ret_allow ∷ ret (deny_action mode) ∷ ret ret_kill_process ∷ []

module _ (m : BpfMachine) where
  open m use {run, loads_nr, loads_arch, jumps_eq, jumps_ge, returns}

  runs_checks :
      (mode : SeccompMode) (arch nr idx : ℕ) (nrs : List ℕ)
      → length nrs < 250
      → run arch nr nr (checks idx (idx + length nrs + 1) nrs ++ tail mode)
        ≡ some (if is_in nr nrs then deny_action mode else ret_allow)
  unfolding checks
  runs_checks mode arch nr idx [] h = returns arch nr nr 0 0 ret_allow _
  runs_checks mode arch nr idx (n ∷ ns) h =
      let deny = idx + length (n ∷ ns) + 1 in
      let rest = checks (idx + 1) deny ns in
      let one = jumps_eq arch nr nr ((deny - idx - 1) % 256) 0 n (rest ++ tail mode) in
      elim (Bool-cases (nr == n)) [
        | inl e ↦
            one
            ∙ rw e (
                ap (run arch nr nr) (
                  past ((deny - idx - 1) % 256) rest (ret ret_allow) _
                    (omega (arith, length-checks (idx + 1) deny ns)))
                ∙ returns arch nr nr 0 0 (deny_action mode) _)
        | inr e ↦
            let same : idx + 1 + length ns + 1 ≡ deny = omega arith in
            one
            ∙ rw e (
                ap (λ d. run arch nr nr (checks (idx + 1) d ns ++ tail mode)) (sym same)
                ∙ runs_checks mode arch nr (idx + 1) ns (omega arith))
      ]

  kills :
      (mode : SeccompMode) (arch nr acc n : ℕ) (xs : List SockFilter)
      → n ≡ length xs + 2
      → run arch nr acc (drop n (xs ++ tail mode)) ≡ some ret_kill_process
  kills mode arch nr acc n xs h =
      ap (run arch nr acc)
        (past_two n xs (ret ret_allow) (ret (deny_action mode)) (ret ret_kill_process ∷ []) h)
      ∙ returns arch nr acc 0 0 ret_kill_process []

  -- The body on x86_64, from the load of the number on.
  runs_x86_64 :
      (mode : SeccompMode) (arch nr acc : ℕ) (nrs : List ℕ)
      → length nrs < 240
      → run arch nr acc (
          load 0
          ∷ jump_ge 1073741824 ((4 + length nrs + 2 - 4) % 256) 0
          ∷ (checks 4 (4 + length nrs + 1) nrs ++ tail mode))
        ≡ some (
            if leb 1073741824 nr
            then ret_kill_process
            else if is_in nr nrs
            then deny_action mode
            else ret_allow)
  runs_x86_64 mode arch nr acc nrs h =
      let rest = checks 4 (4 + length nrs + 1) nrs in
      loads_nr arch nr acc 0 0 _
      ∙ jumps_ge arch nr nr ((4 + length nrs + 2 - 4) % 256) 0 1073741824 (rest ++ tail mode)
      ∙ elim (Bool-cases (leb 1073741824 nr)) [
        | inl e ↦
            rw e (
              kills mode arch nr nr _ rest
                (omega (arith, length-checks 4 (4 + length nrs + 1) nrs)))
        | inr e ↦ rw e (runs_checks mode arch nr 4 nrs (omega arith))
      ]

  assembled :
      (a : Arch) (mode : SeccompMode) (nrs : List ℕ)
      → length nrs < 240
      → (prog : List SockFilter) × (assemble a mode nrs ≡ ok prog)
        × ((arch nr : ℕ) → run arch nr 0 prog ≡ some (wanted a mode nrs arch nr))
  unfolding assemble program
  assembled x86_64 mode nrs h =
      let fits : ltb 250 (4 + length nrs + 2) ≡ false = ground arith in
      (
        program x86_64 mode nrs,
        rw fits refl,
        λ arch nr.
            loads_arch arch nr 0 0 0 _
            ∙ jumps_eq arch nr arch 0 ((4 + length nrs + 2 - 2) % 256) (audit_arch_native x86_64) _
            ∙ elim (Bool-cases (arch == audit_arch_native x86_64)) [
              | inl e ↦ rw e (runs_x86_64 mode arch nr arch nrs h)
              | inr e ↦ rw e (
                  kills mode arch nr arch _
                    (load 0
                      ∷ jump_ge 1073741824 ((4 + length nrs + 2 - 4) % 256) 0
                      ∷ checks 4 (4 + length nrs + 1) nrs)
                    (omega (arith, length-checks 4 (4 + length nrs + 1) nrs)))
            ],
      )
  assembled aarch64 mode nrs h =
      let fits : ltb 250 (3 + length nrs + 2) ≡ false = ground arith in
      (
        program aarch64 mode nrs,
        rw fits refl,
        λ arch nr.
            loads_arch arch nr 0 0 0 _
            ∙ jumps_eq arch nr arch 0 ((3 + length nrs + 2 - 2) % 256) (audit_arch_native aarch64) _
            ∙ elim (Bool-cases (arch == audit_arch_native aarch64)) [
              | inl e ↦
                  rw e (loads_nr arch nr arch 0 0 _ ∙ runs_checks mode arch nr 3 nrs (omega arith))
              | inr e ↦ rw e (
                  kills mode arch nr arch _ (load 0 ∷ checks 3 (3 + length nrs + 1) nrs)
                    (omega (arith, length-checks 3 (3 + length nrs + 1) nrs)))
            ],
      )

-- Some name of the list has the number `nr` on architecture `a`.
abbrev pub NamesNumber : Arch → List Text → ℕ → Type 0
NamesNumber a [] nr = ⊥
NamesNumber a (name ∷ names) nr = (syscall_nr a name ≡ some nr) ⊎ NamesNumber a names nr

is_in_iff :
    (a : Arch) (names : List Text) (nr : ℕ)
    → (is_in nr (numbers a names) ≡ true) ↔ NamesNumber a names nr
unfolding numbers
is_in_iff a [] nr = ground arith
is_in_iff a (name ∷ names) nr =
    ground (arith, is_in_iff a names nr, Option-cases (syscall_nr a name))

-- Every mode's list is short enough for the jumps.
numbers_short : (a : Arch) (mode : SeccompMode) → length (numbers a (denied_syscalls mode)) < 240
unfolding numbers syscall_nr look_up syscalls denied_syscalls default_deny strict_extra codes
    text_eq
numbers_short x86_64 unconfined = omega arith
numbers_short x86_64 default = omega arith
numbers_short x86_64 strict = omega arith
numbers_short aarch64 unconfined = omega arith
numbers_short aarch64 default = omega arith
numbers_short aarch64 strict = omega arith

-- On x86_64 every denied name has a number: none is left out of the filter.
pub all_numbered :
    (mode : SeccompMode)
    → length (numbers x86_64 (denied_syscalls mode)) ≡ length (denied_syscalls mode)
unfolding numbers syscall_nr look_up syscalls denied_syscalls default_deny strict_extra codes
    text_eq
all_numbered unconfined = refl
all_numbered default = refl
all_numbered strict = refl

-- The program is built for each of the modes. On a machine that runs the documented instructions, a
-- call from a foreign architecture or by an x32 number kills the process, one whose number is a
-- denied name's gets the mode's deny action, and every other call is allowed.
pub filter_verdict :
    (m : BpfMachine) (a : Arch) (mode : SeccompMode)
    → (prog : List SockFilter) × (build_filter a mode ≡ ok prog)
      × ((arch nr : ℕ)
          → BpfMachine.run m arch nr 0 prog
            ≡ some (wanted a mode (numbers a (denied_syscalls mode)) arch nr))
unfolding build_filter
filter_verdict m a mode =
    assembled m a mode (numbers a (denied_syscalls mode)) (numbers_short a mode)
