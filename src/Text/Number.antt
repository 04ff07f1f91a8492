-- ===== src/Text/Number.antt =====
-- Decimal numbers in text: `Display` for unsigned integers and `str::parse` into them.
use myrun.Prelude.{
  ℕ, zero, suc, ◌+◌, ◌-◌, ◌*◌, ◌/◌, ◌%◌, Bool, true, false, ◌&&◌, [], ◌∷◌, Option, none, some, leb,
  ◌==◌, if◌then◌else◌,
}
use myrun.Text.{Text}

-- The digits of `n` in front of `out`; each round takes one digit off.
unfoldable pub show_onto : ℕ → ℕ → Text → Text
show_onto zero n out = out
show_onto (suc f) n out =
    let out' = (b'0' + n % 10) ∷ out in
    elim (n / 10 == 0) [ true ↦ out' | false ↦ show_onto f (n / 10) out' ]

-- `format!("{}", n)`; a number has at most as many digits as its value plus one.
unfoldable pub show_nat : ℕ → Text
unfolding show_onto
show_nat n = show_onto (suc n) n []

unfoldable pub is_digit : ℕ → Bool
is_digit c = leb b'0' c && leb c b'9'

-- The digits of a number, refused as soon as the value passes `max`.
unfoldable pub parse_digits : ℕ → Text → ℕ → Option ℕ
unfolding is_digit
parse_digits max [] n = some n
parse_digits max (c ∷ s) n =
    let rest = parse_digits max s (n * 10 + (c - b'0')) in
    if is_digit c && leb (n * 10 + (c - b'0')) max then rest else none

-- at least one digit
unfoldable pub parse_some_digits : ℕ → Text → Option ℕ
unfolding parse_digits
parse_some_digits max [] = none
parse_some_digits max (c ∷ s) = parse_digits max (c ∷ s) 0

-- `s.parse::<uN>()`: one leading plus sign is accepted, a minus sign is not.
unfoldable pub parse_uint : ℕ → Text → Option ℕ
unfolding parse_some_digits
parse_uint max [] = none
parse_uint max (c ∷ s) =
    if c == b'+' then parse_some_digits max s else parse_some_digits max (c ∷ s)

-- A signed number of `2 ^ (w - 1) = half`, as its pattern: a minus sign takes the complement.
unfoldable pub parse_int : ℕ → Text → Option ℕ
unfolding parse_some_digits
parse_int half [] = none
parse_int half (c ∷ s) =
    if c == b'-'
    then (elim (parse_some_digits half s) [
      | none ↦ none
      | some n ↦ some ((2 * half - n) % (2 * half))
    ])
    else if c == b'+'
    then parse_some_digits (half - 1) s
    else parse_some_digits (half - 1) (c ∷ s)
