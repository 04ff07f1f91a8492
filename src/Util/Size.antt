-- ===== src/Util/Size.antt =====
-- src/util/mod.rs: sizes and durations as text.
use myrun.Prelude.{
  ℕ, ◌/◌, ◌%◌, ◌^◌, ◌||◌, List, [], ◌∷◌, ◌++◌, Option, none, some, ltb, if◌then◌else◌,
}
use myrun.Text.{Text, codes, text_eq, trim, strip_suffix, to_ascii_lowercase}
use myrun.Text.Number.{show_nat}
use myrun.Error.{Error, Result, ok, err, plain, lit, quoted}
use myrun.Floats.{Floats}

-- The units in the order in which they are tried.
unfoldable pub units : List (Text × ℕ)
units =
    (codes "kib", 2 ^ 10)
    ∷ (codes "mib", 2 ^ 20)
    ∷ (codes "gib", 2 ^ 30)
    ∷ (codes "kb", 2 ^ 10)
    ∷ (codes "mb", 2 ^ 20)
    ∷ (codes "gb", 2 ^ 30)
    ∷ (codes "k", 2 ^ 10)
    ∷ (codes "m", 2 ^ 20)
    ∷ (codes "g", 2 ^ 30)
    ∷ (codes "b", 1)
    ∷ []

unfoldable pub split_unit : Text → List (Text × ℕ) → Text × ℕ
split_unit t [] = (t, 1)
split_unit t ((unit, mult) ∷ rest) = elim (strip_suffix unit t) [
  | some p ↦ (p, mult)
  | none ↦ split_unit t rest
]

unfoldable pub parse_size : Floats → Text → Result (Option ℕ)
unfolding split_unit units
parse_size F s =
    let t = to_ascii_lowercase (trim s) in
    let parts = split_unit t units in
    if text_eq t []
    then err (Error.config (plain "empty size value"))
    else if text_eq t (codes "-1") || text_eq t (codes "max") || text_eq t (codes "unlimited")
    then ok none
    else elim (Floats.parse_f64 F (trim parts.0)) [
      | none ↦ err (Error.config (lit "cannot parse size " ∷ quoted s ∷ []))
      | some n ↦
          if Floats.below_0 F n
          then err (Error.config (lit "negative size " ∷ quoted s ∷ []))
          else ok (some (Floats.times_u64 F n parts.1))
    ]

unfoldable pub format_duration_ms : ℕ → Text
format_duration_ms ms =
    let s = ms / 1000 in
    if ltb s 60
    then show_nat s ++ codes "s"
    else if ltb s 3600
    then show_nat (s / 60) ++ codes "m" ++ show_nat (s % 60) ++ codes "s"
    else if ltb s 86400
    then show_nat (s / 3600) ++ codes "h" ++ show_nat (s % 3600 / 60) ++ codes "m"
    else show_nat (s / 86400) ++ codes "d" ++ show_nat (s % 86400 / 3600) ++ codes "h"
