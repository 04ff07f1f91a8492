-- ===== src/Process/Wait.antt =====
-- src/sys/process.rs: `wait_pid` and `reap_all`. The kernel's answers are a list, one for each
-- call of waitpid(2); `none` means that the list ran out, so that the call still blocks.
pub mod Children
use myrun.Prelude.{
  ℕ, zero, suc, Bool, true, false, ◌||◌, List, [], ◌∷◌, Option, none, some, ◌==◌, if◌then◌else◌,
  length,
}
use myrun.Error.{Error, Result, ok, err, lit, signed}
use myrun.Process.{ExitStatus, from_raw, wifstopped}

-- -1 with an errno, 0, or a child and its status word
pub data Reply : Type 0 where
  failed : ℕ → Reply
  nothing : Reply
  child : ℕ → ℕ → Reply

-- errno values of src/sys/ffi.rs
abbrev pub eintr : ℕ
eintr = 4

abbrev pub echild : ℕ
echild = 10

abbrev pub Reaped : Type 0
Reaped = Option (ℕ × ExitStatus)

-- The loop of `wait_pid`: what it returns, and the answers not yet used.
unfoldable pub wait_pid : ℕ → List Reply → Option (Result Reaped × List Reply)
unfolding wifstopped
wait_pid pid [] = none
wait_pid pid (failed e ∷ rs) =
    let again = wait_pid pid rs in
    if e == eintr
    then again
    else if e == echild
    then some (ok none, rs)
    else some (err (Error.syscall "waitpid" e (lit "pid " ∷ signed pid ∷ [])), rs)
wait_pid pid (nothing ∷ rs) = some (ok none, rs)
wait_pid pid (child p status ∷ rs) =
    let again = wait_pid pid rs in
    if wifstopped status then again else some (ok (some (p, from_raw status)), rs)

abbrev pub collect :
    ℕ × ExitStatus → Option (List (ℕ × ExitStatus)) → Option (List (ℕ × ExitStatus))
collect x none = none
collect x (some xs) = some (x ∷ xs)

-- `reap_all`: -1 asks for any child. A round uses at least one answer; `none` where the answers ran
-- out.
pub reap : ℕ → List Reply → Option (List (ℕ × ExitStatus))
reap zero rs = none
reap (suc fuel) rs = elim (wait_pid 0xffff_ffff rs) [
  | none ↦ none
  | some (r, rest) ↦ elim r [
    | err e ↦ some []
    | ok found ↦ elim found [ none ↦ some [] | some x ↦ collect x (reap fuel rest) ]
  ]
]

unfoldable pub reap_all : List Reply → Option (List (ℕ × ExitStatus))
unfolding reap
reap_all rs = reap (suc (length rs)) rs
