-- ===== src/Error/Codes.antt =====
-- src/error.rs: what an exit code tells a caller.
use myrun.Prelude.{ℕ, ◌≤◌, ◌≡◌, ◌⊎◌, inl, inr, refl, true, some, arith}
use myrun.Error.{Error, exit_code, errno, is_errno}

-- Every error exits with 1 or with a code from 64 to 72, so never with 0; an error for which
-- `is_errno` answers true for some errno exits with 70, and no other error does.
pub exit_code_classes :
    (e : Error)
    → ((exit_code e ≡ 1) ⊎ ((64 ≤ exit_code e) × (exit_code e ≤ 72)))
      × ((n : ℕ) → is_errno e n ≡ true → (exit_code e ≡ 70) × (errno e ≡ some n))
      × (exit_code e ≡ 70 → (n : ℕ) × (is_errno e n ≡ true))
unfolding exit_code is_errno
exit_code_classes (Error.syscall c m x) =
    (inr (omega arith), λ n h. ground arith, λ _. (m, ground arith))
exit_code_classes (Error.usage _) = (inr (omega arith), λ n h. cc, λ h. absurd (omega arith))
exit_code_classes (Error.io _) = (inl refl, λ n h. cc, λ h. absurd (omega arith))
exit_code_classes (Error.container _) = (inl refl, λ n h. cc, λ h. absurd (omega arith))
exit_code_classes _ = (inr (omega arith), λ n h. cc, λ h. absurd (omega arith))
