-- ===== src/Text/Laws.antt =====
-- Laws of the text operations.
use mathlib.Core.List.{reverse-cons, reverse-reverse}
use myrun.Prelude.{
  ℕ, zero, suc, ◌+◌, ◌-◌, ◌*◌, ◌/◌, ◌%◌, ◌≤◌, ◌<◌, ◌≡◌, refl, ◌∙◌, ◌↔◌, Bool, true, false, not, [],
  ◌∷◌, ◌++◌, reverse, some, inl, inr, arith, ◌==◌, Bool-cases, ==_iff,
}
use myrun.Text.{
  Text, strip_prefix, text_eq, split, split_once, has_char, is_whitespace, trim_start, trim,
}
use myrun.Text.Number.{show_onto, show_nat, is_digit, parse_digits, parse_uint}

pub text_eq_iff : (s t : Text) → (text_eq s t ≡ true) ↔ (s ≡ t)
unfolding text_eq
text_eq_iff (x ∷ s) (y ∷ t) = ground (arith, text_eq_iff s t)
text_eq_iff _ _ = ground arith

pub text_eq_refl : (s : Text) → text_eq s s ≡ true
text_eq_refl s = (text_eq_iff s s).1 refl

-- every character passes a test
abbrev pub All : (ℕ → Bool) → Text → Type 0
All p [] = Unit {0}
All p (c ∷ s) = (p c ≡ true) × All p s

show_onto-digits : (f n : ℕ) (out : Text) → All is_digit out → All is_digit (show_onto f n out)
unfolding show_onto is_digit
show_onto-digits zero n out h = h
show_onto-digits (suc f) n out h = elim (Bool-cases (n / 10 == 0)) [
  | inl e ↦ rw (e, show_onto) (ground arith, h)
  | inr e ↦ rw (e, show_onto) (show_onto-digits f (n / 10) _ (ground arith, h))
]

pub show_nat-digits : (n : ℕ) → All is_digit (show_nat n)
unfolding show_nat
show_nat-digits n = show_onto-digits (suc n) n [] tt

-- one digit read: the value moves on from `n / 10` to `n`
parse-digit :
    (max n : ℕ) (out : Text)
    → n ≤ max
    → parse_digits max ((b'0' + n % 10) ∷ out) (n / 10) ≡ parse_digits max out n
unfolding parse_digits
parse-digit max n out k =
    let e : n / 10 * 10 + (b'0' + n % 10 - b'0') ≡ n = omega arith in ground (arith, e)

-- reading the printed digits goes back to the number
parse-show_onto :
    (f max n : ℕ) (out : Text)
    → n < f
    → n ≤ max
    → parse_digits max (show_onto f n out) 0 ≡ parse_digits max out n
unfolding show_onto
parse-show_onto zero max n out h k = absurd (omega arith)
parse-show_onto (suc f) max n out h k = elim (Bool-cases (n / 10 == 0)) [
  | inl e ↦
      let z : n / 10 ≡ 0 = (==_iff _ _).0 e in rw (e, show_onto) (rw z at (parse-digit max n out k))
  | inr e ↦
      rw (e, show_onto)
        (parse-show_onto f max (n / 10) _ (ground arith) (omega arith) ∙ parse-digit max n out k)
]

-- the printed text begins with a digit
show_onto-cons :
    (f n : ℕ) (out : Text)
    → (c : ℕ) × (s : Text) × (show_onto (suc f) n out ≡ c ∷ s) × (is_digit c ≡ true)
unfolding show_onto is_digit
show_onto-cons zero n out = (b'0' + n % 10, out, ground arith, ground arith)
show_onto-cons (suc f) n out = elim (Bool-cases (n / 10 == 0)) [
  | inl e ↦ (b'0' + n % 10, out, rw (e, show_onto), ground arith)
  | inr e ↦
      let (c, s, p, d) = show_onto-cons f (n / 10) ((b'0' + n % 10) ∷ out) in
      (c, s, rw (e, show_onto) p, d)
]

-- A printed number is a digit and more digits.
pub show_nat-cons : (n : ℕ) → (c : ℕ) × (s : Text) × (show_nat n ≡ c ∷ s) × (is_digit c ≡ true)
unfolding show_nat
show_nat-cons n = show_onto-cons n n []

parse_some-cons :
    (max : ℕ) (s : Text) {c : ℕ} {t : Text}
    → s ≡ c ∷ t
    → is_digit c ≡ true
    → parse_uint max s ≡ parse_digits max s 0
unfolding parse_uint is_digit
parse_some-cons max [] e d = cc
parse_some-cons max (x ∷ s) {c} e d = ground arith

-- Printing and then parsing gives the number back.
pub parse-show_nat : (max n : ℕ) → n ≤ max → parse_uint max (show_nat n) ≡ some n
unfolding show_nat
parse-show_nat max n k =
    let (c, s, p, d) = show_onto-cons n n [] in
    parse_some-cons max (show_onto (suc n) n []) p d
    ∙ parse-show_onto (suc n) max n [] (omega arith) k
    ∙ parse_digits-nil max n
  where
    parse_digits-nil : (m k : ℕ) → parse_digits m [] k ≡ some k
    parse_digits-nil m k = unfold parse_digits in refl

-- Splitting at a character that the pieces do not hold.
pub split-append :
    (sep : ℕ) (s t : Text) → has_char sep s ≡ false → split sep (s ++ (sep ∷ t)) ≡ s ∷ split sep t
unfolding split has_char
split-append sep [] t h = ground arith
split-append sep (c ∷ s) t h = ground (arith, split-append sep s t)

pub split_whole : (sep : ℕ) (s : Text) → has_char sep s ≡ false → split sep s ≡ s ∷ []
unfolding split has_char
split_whole sep [] h = refl
split_whole sep (c ∷ s) h = ground (arith, split_whole sep s)

pub All-append : (p : ℕ → Bool) (s t : Text) → All p s → All p t → All p (s ++ t)
All-append p [] t hs ht = ht
All-append p (c ∷ s) t hs ht = (hs.0, All-append p s t hs.1 ht)

pub All-reverse : (p : ℕ → Bool) (s : Text) → All p s → All p (reverse s)
All-reverse p [] h = h
All-reverse p (c ∷ s) h =
    rw (reverse-cons c s) (All-append p (reverse s) (c ∷ []) (All-reverse p s h.1) (h.0, tt))

abbrev pub is_black : ℕ → Bool
is_black c = not (is_whitespace c)

pub trim_start-black : (s : Text) → All is_black s → trim_start s ≡ s
unfolding trim_start
trim_start-black [] h = refl
trim_start-black (c ∷ s) h = ground (arith, h.0)

-- A text without blanks is what `trim` leaves.
pub trim-black : (s : Text) → All is_black s → trim s ≡ s
unfolding trim
trim-black s h =
    rw (trim_start-black s h, trim_start-black (reverse s) (All-reverse is_black s h))
      (reverse-reverse s)

pub All-imp : (p q : ℕ → Bool) (s : Text) → ((c : ℕ) → p c ≡ true → q c ≡ true) → All p s → All q s
All-imp p q [] f h = tt
All-imp p q (c ∷ s) f h = (f c h.0, All-imp p q s f h.1)

pub has_char-digits :
    (k : ℕ) (s : Text) → is_digit k ≡ false → All is_digit s → has_char k s ≡ false
unfolding has_char
has_char-digits k [] n h = refl
has_char-digits k (c ∷ s) n h = ground (arith, has_char-digits k s n h.1, h.0)

pub split_once-append :
    (sep : ℕ) (s t : Text) → has_char sep s ≡ false → split_once sep (s ++ (sep ∷ t)) ≡ some (s, t)
unfolding split_once has_char
split_once-append sep [] t h = ground arith
split_once-append sep (c ∷ s) t h = ground (arith, split_once-append sep s t)

pub show_nat-black : (n : ℕ) → All is_black (show_nat n)
show_nat-black n = All-imp is_digit is_black (show_nat n) black_of_digit (show_nat-digits n)
  where
    black_of_digit : (c : ℕ) → is_digit c ≡ true → is_black c ≡ true
    black_of_digit c h = unfold is_digit is_whitespace in ground arith

pub show_nat-lacks : (k n : ℕ) → is_digit k ≡ false → has_char k (show_nat n) ≡ false
show_nat-lacks k n h = has_char-digits k (show_nat n) h (show_nat-digits n)

pub strip_prefix-append : (p s : Text) → strip_prefix p (p ++ s) ≡ some s
unfolding strip_prefix
strip_prefix-append [] s = refl
strip_prefix-append (c ∷ p) s = ground (arith, strip_prefix-append p s)
