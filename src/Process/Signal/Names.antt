-- ===== src/Process/Signal/Names.antt =====
-- src/sys/process.rs: signal names against numbers.
use Prim.Native.String.{String}
use myrun.Prelude.{
  ℕ, ◌≤◌, ◌≡◌, refl, sym, ap, ◌∙◌, ◌⊎◌, inl, inr, List, [], ◌∷◌, Option, none, some, arith, ◌^◌,
  ◌==◌, ==_iff, Bool-cases,
}
use myrun.Text.{Text, is_whitespace, codes, trim, to_ascii_uppercase, strip_prefix, text_eq}
use myrun.Text.Number.{parse_int}
use myrun.Error.{ok, name_of}
use myrun.Process.{signal_table, signal_name}
use myrun.Process.Signal.{signals, find_name, stripped, parse_signal}

abbrev InRange : List (Text × ℕ) → Type 0
InRange [] = Unit
InRange ((k, n) ∷ rest) = ((1 ≤ n) × (n ≤ 64)) × InRange rest

find_name-InRange :
    (t : Text) (table : List (Text × ℕ)) (n : ℕ)
    → InRange table
    → find_name t table ≡ some n
    → (1 ≤ n) × (n ≤ 64)
unfolding find_name
find_name-InRange t [] n r h = cc
find_name-InRange t ((k, m) ∷ rest) n r h = ground (arith, find_name-InRange t rest n r.1)

signals-InRange : InRange signals
unfolding signals
signals-InRange = omega arith

-- Whatever text `parse_signal` accepts, a name or a number, the signal is from 1 to 64.
pub parse_signal_range : (s : Text) {n : ℕ} → parse_signal s ≡ ok n → (1 ≤ n) × (n ≤ 64)
unfolding parse_signal
parse_signal_range s {n} h = by_number (parse_int (2 ^ 31) (to_ascii_uppercase (trim s))) refl
  where
    by_number :
        (o : Option ℕ) → parse_int (2 ^ 31) (to_ascii_uppercase (trim s)) ≡ o → (1 ≤ n) × (n ≤ 64)
    by_number (some m) e = ground (arith, rw (e, parse_signal) at h)
    by_number none e = ground (
      arith,
      rw (e, parse_signal) at h,
      find_name-InRange (stripped (to_ascii_uppercase (trim s))) signals n signals-InRange,
    )

abbrev Parses : List (ℕ × String) → Type 0
Parses [] = Unit
Parses ((n, name) ∷ rest) = (parse_signal (codes name) ≡ ok n) × Parses rest

name_of-Parses :
    (table : List (ℕ × String)) (n : ℕ)
    → Parses table
    → (name_of "SIG?" table n ≡ "SIG?") ⊎ (parse_signal (codes (name_of "SIG?" table n)) ≡ ok n)
unfolding name_of
name_of-Parses [] n p = inl refl
name_of-Parses ((m, name) ∷ rest) n p = elim (Bool-cases (n == m)) [
  | inl same ↦ rw same (inr (p.0 ∙ ap ok (sym ((==_iff n m).0 same))))
  | inr other ↦ rw other (name_of-Parses rest n p.1)
]

signal_table-Parses : Parses signal_table
unfolding parse_signal signals codes trim to_ascii_uppercase strip_prefix text_eq parse_int
    is_whitespace
signal_table-Parses = (
  refl,
  (
    refl,
    (
      refl,
      (
        refl,
        (
          refl,
          (
            refl,
            (refl, (refl, (refl, (refl, (refl, (refl, (refl, (refl, (refl, (refl, tt)))))))))),
          ),
        ),
      ),
    ),
  ),
)

-- A signal that has a name is read back from its name.
pub parse_signal-signal_name :
    (n : ℕ) → (signal_name n ≡ "SIG?") ⊎ (parse_signal (codes (signal_name n)) ≡ ok n)
unfolding signal_name
parse_signal-signal_name n = name_of-Parses signal_table n signal_table-Parses
