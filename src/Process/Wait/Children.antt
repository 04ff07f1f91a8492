-- ===== src/Process/Wait/Children.antt =====
-- src/sys/process.rs: which children `wait_pid` and `reap_all` report.
use myrun.Prelude.{
  ℕ, zero, suc, ◌≤◌, ◌<◌, ◌≡◌, refl, sym, ap, inl, inr, true, false, List, [], ◌∷◌, ◌++◌, Option,
  none, some, arith, ◌==◌, if◌then◌else◌, length, Bool-cases,
}
use myrun.Error.{Result, ok, err}
use myrun.Process.{ExitStatus, from_raw, wifstopped}
use myrun.Process.Wait.{
  collect, Reply, failed, nothing, child, eintr, echild, Reaped, wait_pid, reap, reap_all,
}

-- An answer after which the call is made again: an interruption, or a child that only stopped.
abbrev pub IsRetried : Reply → Type 0
IsRetried (failed e) = e ≡ eintr
IsRetried nothing = ⊥
IsRetried (child p status) = wifstopped status ≡ true

abbrev pub AllRetried : List Reply → Type 0
AllRetried [] = Unit
AllRetried (r ∷ rs) = IsRetried r × AllRetried rs

-- `wait_pid` reports a child only from an answer that is no stop, and every answer before that one
-- was an interruption or a stop. So the status of a stopped child never reaches a caller.
pub wait_pid-child :
    (pid : ℕ) (rs : List Reply) {p : ℕ} {st : ExitStatus} {rest : List Reply}
    → wait_pid pid rs ≡ some (ok (some (p, st)), rest)
    → (skipped : List Reply) × (status : ℕ) × (rs ≡ skipped ++ child p status ∷ rest)
      × AllRetried skipped
      × (wifstopped status ≡ false)
      × (st ≡ from_raw status)
unfolding wait_pid
wait_pid-child pid [] h = cc
wait_pid-child pid (failed e ∷ rs) h = elim (Bool-cases (e == eintr)) [
  | inl y ↦
      let (skipped, status, split, all, run, same) =
        wait_pid-child pid rs (rw (y, wait_pid) at h) in
      (failed e ∷ skipped, status, ap (◌∷◌ (failed e)) split, (ground arith, all), run, same)
  | inr n ↦ absurd (ground arith)
]
wait_pid-child pid (nothing ∷ rs) h = cc
wait_pid-child pid (child q status ∷ rs) h = elim (Bool-cases (wifstopped status)) [
  | inl y ↦
      let (skipped, status', split, all, run, same) =
        wait_pid-child pid rs (rw (y, wait_pid) at h) in
      (child q status ∷ skipped, status', ap (◌∷◌ (child q status)) split, (y, all), run, same)
  | inr n ↦ ([], status, ground arith, tt, n, ground arith)
]

-- The children that a list of answers reports, up to the first that ends the collection, if one
-- does.
pub reported : List Reply → Option (List (ℕ × ExitStatus))
reported [] = none
reported (failed e ∷ rs) = let rest = reported rs in if e == eintr then rest else some []
reported (nothing ∷ rs) = some []
reported (child p status ∷ rs) =
    let rest = reported rs in if wifstopped status then rest else collect (p, from_raw status) rest

-- What one call of `wait_pid` contributes to `xs`, the children still to be reported.
abbrev Round : ℕ → Option (List (ℕ × ExitStatus)) → Option (Result Reaped × List Reply) → Type 0
Round n xs none = xs ≡ none
Round n xs (some (err e, rest)) = xs ≡ some []
Round n xs (some (ok none, rest)) = xs ≡ some []
Round n xs (some (ok (some x), rest)) = (xs ≡ collect x (reported rest)) × (length rest < n)

wait_pid-Round :
    (pid n : ℕ) (rs : List Reply) → length rs ≤ n → Round n (reported rs) (wait_pid pid rs)
unfolding wait_pid reported
wait_pid-Round pid n [] h = refl
wait_pid-Round pid n (failed e ∷ rs) h = elim (Bool-cases (e == eintr)) [
  | inl again ↦ rw (again, wait_pid, reported) (wait_pid-Round pid n rs (omega arith))
  | inr other ↦
      rw (other, wait_pid, reported)
        (elim (Bool-cases (e == echild)) [ inl gone ↦ rw gone refl | inr bad ↦ rw bad refl ])
]
wait_pid-Round pid n (nothing ∷ rs) h = refl
wait_pid-Round pid n (child p status ∷ rs) h = elim (Bool-cases (wifstopped status)) [
  | inl again ↦ rw (again, wait_pid, reported) (wait_pid-Round pid n rs (omega arith))
  | inr dead ↦ rw (dead, wait_pid, reported) (refl, omega arith)
]

reap-reported : (fuel : ℕ) (rs : List Reply) → length rs < fuel → reap fuel rs ≡ reported rs
unfolding reap
reap-reported zero rs h = elim h [ ]
reap-reported (suc fuel) rs h =
    by_round (reap-reported fuel) (reported rs) (wait_pid 0xffff_ffff rs)
      (wait_pid-Round 0xffff_ffff fuel rs (omega arith))
  where
    by_round :
        ((ys : List Reply) → length ys < fuel → reap fuel ys ≡ reported ys)
        → (xs : Option (List (ℕ × ExitStatus))) (r : Option (Result Reaped × List Reply))
        → Round fuel xs r
        → (elim r [
          | none ↦ none
          | some (r, rest) ↦ elim r [
            | err e ↦ some []
            | ok found ↦ elim found [ none ↦ some [] | some x ↦ collect x (reap fuel rest) ]
          ]
        ])
          ≡ xs
    by_round ih xs none e = sym e
    by_round ih xs (some (err x, rest)) e = sym e
    by_round ih xs (some (ok none, rest)) e = sym e
    by_round ih xs (some (ok (some x), rest)) (e, short) = rw (ih rest short) (sym e)

-- `reap_all` reports every child that ended, in the order of the kernel's answers: interruptions
-- and stops are passed over, and the collection ends at the first answer that reports nothing or
-- fails; only answers that run out before give no result. The rounds allowed to its loop are enough
-- for any list of answers.
pub reap_all-reported : (rs : List Reply) → reap_all rs ≡ reported rs
unfolding reap_all
reap_all-reported rs = reap-reported (suc (length rs)) rs (omega arith)
