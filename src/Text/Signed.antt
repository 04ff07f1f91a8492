-- ===== src/Text/Signed.antt =====
-- Numbers of the standard library, printed and then read as signed ones.
use myrun.Prelude.{ℕ, ◌-◌, ◌≤◌, ◌<◌, ◌≡◌, sym, ap, ◌∙◌, true, ◌∷◌, some, arith}
use myrun.Text.{Text}
use myrun.Text.Number.{show_nat, is_digit, parse_int, parse_uint, parse_some_digits}
use myrun.Text.Laws.{show_nat-cons, parse-show_nat}

-- A text that begins with a digit is read without a sign.
parse_unsigned :
    (max c : ℕ) (s : Text)
    → is_digit c ≡ true
    → parse_uint max (c ∷ s) ≡ parse_some_digits max (c ∷ s)
unfolding parse_uint is_digit
parse_unsigned max c s d = ground (arith, d)

pub parse_some-show_nat : (max n : ℕ) → n ≤ max → parse_some_digits max (show_nat n) ≡ some n
parse_some-show_nat max n h =
    let (c, s, e, d) = show_nat-cons n in
    ap (parse_some_digits max) e
    ∙ sym (parse_unsigned max c s d)
    ∙ sym (ap (parse_uint max) e)
    ∙ parse-show_nat max n h

parse_positive :
    (half c : ℕ) (s : Text)
    → is_digit c ≡ true
    → parse_int half (c ∷ s) ≡ parse_some_digits (half - 1) (c ∷ s)
unfolding parse_int is_digit
parse_positive half c s d = ground (arith, d)

-- A printed number below `half` is read back.
pub parse_int-show_nat : (half n : ℕ) → n < half → parse_int half (show_nat n) ≡ some n
parse_int-show_nat half n h =
    let (c, s, e, d) = show_nat-cons n in
    ap (parse_int half) e
    ∙ parse_positive half c s d
    ∙ sym (ap (parse_some_digits (half - 1)) e)
    ∙ parse_some-show_nat (half - 1) n (omega (arith, h))
