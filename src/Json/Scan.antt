-- ===== src/Json/Scan.antt =====
-- src/util/json.rs: how the parser reads what the printer writes, piece by piece.
use myrun.Prelude.{
  ℕ, zero, suc, ◌+◌, ◌*◌, ◌/◌, ◌%◌, ◌≤◌, ◌<◌, ◌≡◌, refl, sym, ap, ◌∙◌, inl, inr, Bool, true, false,
  not, ◌||◌, [], ◌∷◌, ◌++◌, Option, none, some, arith, ltb, ◌==◌, ==_iff, length, Bool-cases,
  ltb→lt,
}
use mathlib.Core.Path.{subst}
use mathlib.Core.List.{append_assoc, append-nil}
use myrun.Text.{Text}
use myrun.Text.Number.{is_digit}
use myrun.Text.Laws.{All}
use myrun.Error.{Error, Result, ok, err, ◌>>=◌, plain}
use myrun.Util.{hex_digit}
use myrun.Json.Print.{escape_char, escape_chars, spaces, newline, gap}
use myrun.Json.Parse.{
  Pos, at, is_space, width, char_of, skip, read_char, escaped, simple_escape, unicode_escape,
  radix_16, hex_digits, hex_value, string_from, number_chars, is_float_char,
}

-- The text does not begin with a space.
abbrev pub solid : Text → Bool
solid [] = true
solid (c ∷ s) = not (is_space c)

pub skip-solid : (i : ℕ) (s : Text) → solid s ≡ true → skip i s ≡ at i s
unfolding skip
skip-solid i [] h = refl
skip-solid i (c ∷ s) h = ground (arith, h)

skip-spaces : (n i : ℕ) (s : Text) → (k : ℕ) × (skip i (spaces n s) ≡ skip k s)
unfolding spaces skip
skip-spaces zero i s = (i, refl)
skip-spaces (suc n) i s = skip-spaces n (i + 1) s

-- Reading starts at what follows a line break, or a gap.
pub skip-newline :
    (indent : Option ℕ) (depth i : ℕ) (s : Text)
    → solid s ≡ true
    → (k : ℕ) × (skip i (newline indent depth s) ≡ at k s)
unfolding newline
skip-newline none depth i s h = (i, skip-solid i s h)
skip-newline (some step) depth i s h =
    let (k, e) = skip-spaces (step * depth) (i + 1) s in
    (k, skip_break i (spaces (step * depth) s) ∙ e ∙ skip-solid k s h)
  where
    skip_break : (i : ℕ) (s : Text) → skip i (10 ∷ s) ≡ skip (i + 1) s
    skip_break i s = unfold skip in refl

pub skip-gap :
    (indent : Option ℕ) (i : ℕ) (s : Text)
    → solid s ≡ true
    → (k : ℕ) × (skip i (gap indent s) ≡ at k s)
unfolding skip
skip-gap none i s h = (i, skip-solid i s h)
skip-gap (some step) i s h = (i + 1, skip-solid (i + 1) s h)

hex_value-hex_digit : (d : ℕ) → d < 16 → hex_value (hex_digit d) ≡ some d
unfolding hex_value is_digit
hex_value-hex_digit d h = ground arith

hex_digits-hex_digit :
    (n d : ℕ) (s : Text) → d < 16 → hex_digits n (hex_digit d ∷ s) ≡ hex_digits (n * 16 + d) s
unfolding hex_digits
hex_digits-hex_digit n d s h =
    ap (λ o. elim o as (λ _. Option ℕ) [ none ↦ none | some d ↦ hex_digits (n * 16 + d) s ])
      (hex_value-hex_digit d h)

-- The digits of a control character, as the printer writes them.
abbrev control : ℕ → Text
control c = b'0' ∷ b'0' ∷ hex_digit (c / 16) ∷ hex_digit (c % 16) ∷ []

radix_16-control : (c : ℕ) → c < 32 → radix_16 (control c) ≡ some c
unfolding radix_16 hex_digits hex_value is_digit
radix_16-control c h =
    hex_digits-hex_digit 0 (c / 16) (hex_digit (c % 16) ∷ []) (omega arith)
    ∙ hex_digits-hex_digit (0 * 16 + c / 16) (c % 16) [] (omega arith)
    ∙ (let e : (0 * 16 + c / 16) * 16 + c % 16 ≡ c = omega arith in ap (λ n. some n) e)

abbrev Reads : ℕ → ℕ → Text → Type 0
Reads i c rest = (k : ℕ) × (read_char i (escape_char c ++ rest) ≡ ok (some c, at k rest))

read_control :
    (i c : ℕ) (rest : Text)
    → c < 32
    → read_char i (b'\\' ∷ b'u' ∷ (control c ++ rest)) ≡ ok (some c, at (i + 1 + 5) rest)
unfolding read_char escaped simple_escape unicode_escape
read_control i c rest h = ap finish (radix_16-control c h) ∙ ground arith
  where
    finish : Option ℕ → Result (Option ℕ × Pos)
    finish o =
        (elim o as (λ _. Result (ℕ × Text)) [
          | some cp ↦ ok (char_of cp, rest)
          | none ↦ err (Error.parse (plain "bad \\u escape"))
        ])
        >>= λ r. ok (some r.0, at (i + 1 + 5) r.1)

read_plain :
    (i c : ℕ) (rest : Text)
    → 32 ≤ c
    → (c == b'"') ≡ false
    → (c == b'\\') ≡ false
    → read_char i (c ∷ rest) ≡ ok (some c, at (i + width c) rest)
unfolding read_char
read_plain i c rest h q b = ground (arith, h, q, b)

-- One character that has an escape of its own, or else the rest.
by_escape :
    (i c k : ℕ) (rest : Text)
    → Reads i k rest
    → ((c == k) ≡ false → Reads i c rest)
    → Reads i c rest
by_escape i c k rest same other = elim (Bool-cases (c == k)) [
  | inl e ↦ subst (λ x. Reads i x rest) (sym ((==_iff c k).0 e)) same
  | inr n ↦ other n
]

-- A character that the printer writes is read back.
pub read_char-escape_char : (i c : ℕ) (rest : Text) → Reads i c rest
unfolding read_char escape_char escaped simple_escape
read_char-escape_char i c rest =
    by_escape i c b'"' rest (i + 1 + 1, refl)
      λ n1.
        by_escape i c b'\\' rest (i + 1 + 1, refl)
          λ n2.
            by_escape i c 10 rest (i + 1 + 1, refl)
              λ n3.
                by_escape i c 13 rest (i + 1 + 1, refl)
                  λ n4.
                    by_escape i c 9 rest (i + 1 + 1, refl)
                      λ n5.
                        by_escape i c 8 rest (i + 1 + 1, refl)
                          λ n6.
                            by_escape i c 12 rest (i + 1 + 1, refl)
                              λ n7. elim (Bool-cases (ltb c 32)) [
                                | inl l ↦
                                    let e : escape_char c ≡ b'\\' ∷ b'u' ∷ control c =
                                      ground (arith, n1, n2, n3, n4, n5, n6, n7, l) in
                                    (
                                      i + 1 + 5,
                                      ap (λ t. read_char i (t ++ rest)) e
                                          ∙ read_control i c rest (ltb→lt c 32 l),
                                    )
                                | inr g ↦
                                    let e : escape_char c ≡ c ∷ [] =
                                      ground (arith, n1, n2, n3, n4, n5, n6, n7, g) in
                                    (
                                      i + width c,
                                      ap (λ t. read_char i (t ++ rest)) e
                                          ∙ read_plain i c rest (ground (arith, g)) n1 n2,
                                    )
                              ]

-- A string that the printer writes is read back, up to its closing quote.
pub string_from-escape_chars :
    (n i : ℕ) (s out acc : Text)
    → length s < n
    → (k : ℕ) × (string_from n (at i (escape_chars s out)) acc ≡ some (ok (acc ++ s, at k out)))
unfolding string_from escape_chars read_char
string_from-escape_chars zero i s out acc h = absurd (omega (arith, h))
string_from-escape_chars (suc n) i [] out acc h =
    (i + 1, ap (λ t. some (ok (t, at (i + 1) out))) (sym (append-nil acc)))
string_from-escape_chars (suc n) i (c ∷ s) out acc h =
    let (k, e) = read_char-escape_char i c (escape_chars s out) in
    let (l, r) = string_from-escape_chars n k s out (acc ++ c ∷ []) (omega (arith, h)) in
    (
      l,
      ap (next_round n acc) e ∙ r ∙ ap (λ t. some (ok (t, at l out))) (append_assoc acc (c ∷ []) s),
    )
  where
    next_round : ℕ → Text → Result (Option ℕ × Pos) → Option (Result (Text × Pos))
    next_round n acc r = elim r [
      | err e ↦ some (err e)
      | ok (none, q) ↦ some (ok (acc, q))
      | ok (some c, q) ↦ string_from n q (acc ++ c ∷ [])
    ]

length-escape_char : (c : ℕ) → 1 ≤ length (escape_char c)
unfolding escape_char
length-escape_char c = ground arith

pub length-append : (s t : Text) → length (s ++ t) ≡ length s + length t
length-append [] t = omega arith
length-append (c ∷ s) t = let e = length-append s t in omega arith

-- The printer writes at least as many characters as the string has, and two quotes.
pub length-escape_chars : (s out : Text) → length s + 1 + length out ≤ length (escape_chars s out)
unfolding escape_chars
length-escape_chars [] out = omega arith
length-escape_chars (c ∷ s) out =
    let e = length-append (escape_char c) (escape_chars s out) in
    let rest = length-escape_chars s out in let one = length-escape_char c in omega arith

-- The text does not go on with a character that a number can have.
abbrev pub stops : Text → Bool
stops [] = true
stops (c ∷ s) = not (is_digit c || is_float_char c)

number_chars-stops : (out : Text) → stops out ≡ true → number_chars out ≡ ([], false, out)
unfolding number_chars
number_chars-stops [] h = refl
number_chars-stops (c ∷ out) h = ground (arith, h)

pub number_chars-digits :
    (s out : Text) → All is_digit s → stops out ≡ true → number_chars (s ++ out) ≡ (s, false, out)
unfolding number_chars
number_chars-digits [] out d h = number_chars-stops out h
number_chars-digits (c ∷ s) out d h = ground (arith, d.0, number_chars-digits s out d.1 h)
