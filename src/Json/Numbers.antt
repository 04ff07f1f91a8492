-- ===== src/Json/Numbers.antt =====
-- src/util/json.rs: integers, printed and read.
use mathlib.Core.Path.{subst}
use myrun.Prelude.{
  ℕ, ◌+◌, ◌-◌, ◌*◌, ◌%◌, ◌^◌, ◌≤◌, ◌<◌, ◌≡◌, refl, sym, ap, ◌∙◌, inl, inr, Bool, true, false, ◌||◌,
  [], ◌∷◌, ◌++◌, Option, none, some, arith, ltb, ◌==◌, length, Bool-cases,
}
use myrun.Text.{Text}
use myrun.Text.Number.{show_nat, is_digit, parse_int, parse_some_digits}
use myrun.Text.Signed.{parse_some-show_nat, parse_int-show_nat}
use myrun.Text.Laws.{All, show_nat-digits, show_nat-cons}
use myrun.Error.{ok}
use myrun.Floats.{Floats}
use myrun.Json.{Json}
use myrun.Json.Print.{show_i64}
use myrun.Json.Parse.{at, signed_chars, number_of}
use myrun.Json.Scan.{stops, number_chars-digits}

complement : (n : ℕ) → 2 ^ 63 ≤ n → n < 2 ^ 64 → (2 * 2 ^ 63 - (2 ^ 64 - n)) % (2 * 2 ^ 63) ≡ n
complement n h k = omega arith

-- What an `i64` prints as is parsed back.
pub parse_int-show_i64 : (n : ℕ) → n < 2 ^ 64 → parse_int (2 ^ 63) (show_i64 n) ≡ some n
unfolding show_i64
parse_int-show_i64 n h = elim (Bool-cases (ltb n (2 ^ 63))) [
  | inl l ↦ rw l (parse_int-show_nat (2 ^ 63) n (ground (arith, l)))
  | inr g ↦ rw g (negative (ground (arith, g)))
]
  where
    complemented : Option ℕ → Option ℕ
    complemented o = elim o [ none ↦ none | some m ↦ some ((2 * 2 ^ 63 - m) % (2 * 2 ^ 63)) ]

    minus : (s : Text) → parse_int (2 ^ 63) (b'-' ∷ s) ≡ complemented (parse_some_digits (2 ^ 63) s)
    minus s = unfold parse_int in refl

    negative : 2 ^ 63 ≤ n → parse_int (2 ^ 63) (b'-' ∷ show_nat (2 ^ 64 - n)) ≡ some n
    negative k =
        minus (show_nat (2 ^ 64 - n))
        ∙ ap complemented (parse_some-show_nat (2 ^ 63) (2 ^ 64 - n) (omega (arith, k)))
        ∙ ap (λ m. some m) (complement n k h)

unsigned_chars :
    (c : ℕ) (s out : Text)
    → is_digit c ≡ true
    → All is_digit s
    → stops out ≡ true
    → signed_chars (c ∷ (s ++ out)) ≡ (c ∷ s, false, out)
unfolding signed_chars
unsigned_chars c s out d ds h = ground (arith, d, number_chars-digits s out ds h)

-- Its characters are taken, and no more.
pub signed_chars-show_i64 :
    (n : ℕ) (out : Text)
    → stops out ≡ true
    → signed_chars (show_i64 n ++ out) ≡ (show_i64 n, false, out)
unfolding show_i64
signed_chars-show_i64 n out h = elim (Bool-cases (ltb n (2 ^ 63))) [
  | inl l ↦ rw l (positive (show_nat-cons n))
  | inr g ↦ rw g (negative (show_nat (2 ^ 64 - n)) (show_nat-digits (2 ^ 64 - n)))
]
  where
    positive :
        (c : ℕ) × (s : Text) × (show_nat n ≡ c ∷ s) × (is_digit c ≡ true)
        → signed_chars (show_nat n ++ out) ≡ (show_nat n, false, out)
    positive (c, s, e, d) =
        subst (λ t. signed_chars (t ++ out) ≡ (t, false, out)) (sym e)
          (unsigned_chars c s out d (subst (All is_digit) e (show_nat-digits n)).1 h)

    negative :
        (t : Text) → All is_digit t → signed_chars (b'-' ∷ (t ++ out)) ≡ (b'-' ∷ t, false, out)
    negative t d =
        let e = number_chars-digits t out d h in
        unfold signed_chars in ap (λ (r : Text × Bool × Text). (b'-' ∷ r.0, r.1, r.2)) e

number_of-text :
    (F : Floats) (i n : ℕ) (t out : Text)
    → parse_int (2 ^ 63) t ≡ some n
    → (k : ℕ) × (number_of F i (t, false, out) ≡ ok (Json.int n, at k out))
unfolding number_of parse_int
number_of-text F i n [] out e = absurd (ground (arith, e))
number_of-text F i n (c ∷ t) out e = (i + length (c ∷ t), rw e refl)

-- An integer that the printer writes is read back.
pub number_of-show_i64 :
    (F : Floats) (i n : ℕ) (out : Text)
    → n < 2 ^ 64
    → stops out ≡ true
    → (k : ℕ) × (number_of F i (signed_chars (show_i64 n ++ out)) ≡ ok (Json.int n, at k out))
number_of-show_i64 F i n out h k =
    let (end, e) = number_of-text F i n (show_i64 n) out (parse_int-show_i64 n h) in
    (end, ap (number_of F i) (signed_chars-show_i64 n out k) ∙ e)

-- An integer begins with a digit or a minus sign.
pub show_i64-cons :
    (n : ℕ) → (c : ℕ) × (s : Text) × (show_i64 n ≡ c ∷ s) × ((is_digit c || c == b'-') ≡ true)
unfolding show_i64
show_i64-cons n = elim (Bool-cases (ltb n (2 ^ 63))) [
  | inl l ↦ let (c, s, e, d) = show_nat-cons n in (c, s, rw l e, ground (arith, d))
  | inr g ↦ (b'-', show_nat (2 ^ 64 - n), rw g refl, ground arith)
]
