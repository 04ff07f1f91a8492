-- ===== src/Floats.antt =====
-- The operations on 64-bit floating-point numbers that the program uses: the language's, on bit
-- patterns.
use myrun.Prelude.{ℕ, Bool, Option, none, some, if◌then◌else◌}
use myrun.Text.{Text}

pub record Floats : Type 0 where
  -- `s.parse::<f64>()`
  pub parse_f64 : Text → Option ℕ
  -- `{}`
  pub show_f64 : ℕ → Text
  -- `x.is_finite()`, `x >= 0.0`, `x < 0.0`, `x > 0.0`, `x > 1024.0`
  pub is_finite : ℕ → Bool
  pub at_least_0 : ℕ → Bool
  pub below_0 : ℕ → Bool
  pub above_0 : ℕ → Bool
  pub above_1024 : ℕ → Bool
  -- `x as u64`, `x as i64` and `n as f64` of an `i64`
  pub to_u64 : ℕ → ℕ
  pub to_i64 : ℕ → ℕ
  pub of_i64 : ℕ → ℕ
  -- `(x * mult as f64) as u64`
  pub times_u64 : ℕ → ℕ → ℕ
  -- `(x * 100000 as f64).round() as u64`
  pub quota_u64 : ℕ → ℕ

-- `Json::as_u64` on a float
abbrev pub u64_of : Floats → ℕ → Option ℕ
u64_of F x = if Floats.at_least_0 F x then some (Floats.to_u64 F x) else none
