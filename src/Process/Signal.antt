-- ===== src/Process/Signal.antt =====
-- src/sys/process.rs: `parse_signal`.
pub mod Names
use myrun.Prelude.{
  ℕ, ◌^◌, ◌≤◌, ◌≡◌, Bool, true, false, ◌&&◌, List, [], ◌∷◌, Option, none, some, leb, if◌then◌else◌,
  arith,
}
use myrun.Text.{Text, codes, trim, to_ascii_uppercase, strip_prefix, text_eq}
use myrun.Text.Number.{parse_int}
use myrun.Error.{Error, Result, ok, err, lit, signed, quoted}

unfoldable pub signals : List (Text × ℕ)
unfolding codes
signals =
    (codes "HUP", 1)
    ∷ (codes "INT", 2)
    ∷ (codes "QUIT", 3)
    ∷ (codes "ILL", 4)
    ∷ (codes "ABRT", 6)
    ∷ (codes "FPE", 8)
    ∷ (codes "KILL", 9)
    ∷ (codes "USR1", 10)
    ∷ (codes "SEGV", 11)
    ∷ (codes "USR2", 12)
    ∷ (codes "PIPE", 13)
    ∷ (codes "ALRM", 14)
    ∷ (codes "TERM", 15)
    ∷ (codes "CHLD", 17)
    ∷ (codes "CONT", 18)
    ∷ (codes "STOP", 19)
    ∷ (codes "WINCH", 28)
    ∷ []

pub find_name : Text → List (Text × ℕ) → Option ℕ
find_name t [] = none
find_name t ((k, n) ∷ rest) = if text_eq k t then some n else find_name t rest

-- `strip_prefix("SIG").unwrap_or`
abbrev pub stripped : Text → Text
stripped t = elim (strip_prefix (codes "SIG") t) [ none ↦ t | some r ↦ r ]

unfoldable pub parse_signal : Text → Result ℕ
unfolding find_name
parse_signal s =
    let t = to_ascii_uppercase (trim s) in
    elim (parse_int (2 ^ 31) t) [
      | some n ↦
          if leb 1 n && leb n 64
          then ok n
          else err (Error.config (lit "signal " ∷ signed n ∷ lit " out of range" ∷ []))
      | none ↦ elim (find_name (stripped t) signals) [
        | some n ↦ ok n
        | none ↦ err (Error.config (lit "unknown signal " ∷ quoted s ∷ []))
      ]
    ]
