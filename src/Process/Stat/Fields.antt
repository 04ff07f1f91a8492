-- ===== src/Process/Stat/Fields.antt =====
-- src/sys/process.rs: the fields of the line that the kernel writes to /proc/<pid>/stat.
use mathlib.Core.List.{append_assoc, append-nil, reverse-cons, reverse-reverse}
use myrun.Prelude.{
  ℕ, ◌≡◌, ◌≢◌, refl, sym, ap, ◌∙◌, Bool, true, false, not, ◌&&◌, List, [], ◌∷◌, ◌++◌, reverse,
  arith, ◌==◌,
}
use myrun.Text.{Text, is_whitespace, has_char, words_from, words, trim, trim_start}
use myrun.Text.Number.{show_nat, is_digit}
use myrun.Text.Laws.{All, is_black, show_nat-digits, trim_start-black, All-reverse}

-- what a character of a field behind the command name is: no blank, no parenthesis
abbrev pub field_char : ℕ → Bool
field_char c = not (is_whitespace c) && not (c == b')')

-- Fields that hold a character each.
abbrev pub AreFields : List Text → Type 0
AreFields [] = Unit {0}
AreFields (f ∷ fs) = ((f ≢ []) × All field_char f) × AreFields fs

-- Each field behind a blank, and the line break at the end.
unfoldable pub tail_of : List Text → Text
tail_of [] = 10 ∷ []
tail_of (f ∷ fs) = b' ' ∷ (f ++ tail_of fs)

words_from_chars :
    (t rest w : Text)
    → All field_char t
    → words_from w (t ++ rest) ≡ words_from (reverse t ++ w) rest
unfolding words_from
words_from_chars [] rest w h = refl
words_from_chars (c ∷ t) rest w h =
    let black : is_whitespace c ≡ false = ground (arith, h.0) in
    rw (black, words_from)
      (words_from_chars t rest (c ∷ w) h.1
        ∙ ap (λ x. words_from x rest)
            (sym (append_assoc (reverse t) (c ∷ []) w) ∙ ap (λ x. x ++ w) (sym (reverse-cons c t))))

word_end :
    (w s : Text) (c : ℕ)
    → w ≢ []
    → is_whitespace c ≡ true
    → words_from w (c ∷ s) ≡ reverse w ∷ words_from [] s
unfolding words_from
word_end [] s c ne h = absurd (ne refl)
word_end (x ∷ w) s c ne h = rw (h, words_from) refl

field_end :
    (f : Text) (fs : List Text)
    → f ≢ []
    → words_from [] (tail_of fs) ≡ fs
    → words_from (reverse f) (tail_of fs) ≡ f ∷ fs
unfolding words_from tail_of is_whitespace
field_end f fs ne e = by_fields fs e
  where
    some_letter : reverse f ≢ []
    some_letter r = ne (sym (reverse-reverse f) ∙ ap reverse r)

    by_fields :
        (fs : List Text)
        → words_from [] (tail_of fs) ≡ fs
        → words_from (reverse f) (tail_of fs) ≡ f ∷ fs
    by_fields [] e =
        word_end (reverse f) [] 10 some_letter refl ∙ ap (λ x. x ∷ []) (reverse-reverse f)
    by_fields (g ∷ gs) e =
        word_end (reverse f) (g ++ tail_of gs) b' ' some_letter refl
        ∙ ap (λ x. x ∷ words_from [] (g ++ tail_of gs)) (reverse-reverse f)
        ∙ ap (λ x. f ∷ x) e

-- The fields are the words of the tail.
pub words-tail_of : (fs : List Text) → AreFields fs → words (tail_of fs) ≡ fs
unfolding words words_from tail_of is_whitespace
words-tail_of [] h = refl
words-tail_of (f ∷ fs) h =
    words_from_chars f (tail_of fs) [] h.0.1
    ∙ ap (λ w. words_from w (tail_of fs)) (append-nil (reverse f))
    ∙ field_end f fs h.0.0 (words-tail_of fs h.1)

field_no_bracket :
    (f rest : Text) → All field_char f → has_char b')' (f ++ rest) ≡ has_char b')' rest
unfolding has_char
field_no_bracket [] rest h = refl
field_no_bracket (c ∷ f) rest h = ground (arith, h.0, field_no_bracket f rest h.1)

pub tail_of_no_bracket : (fs : List Text) → AreFields fs → has_char b')' (tail_of fs) ≡ false
unfolding has_char tail_of
tail_of_no_bracket [] h = refl
tail_of_no_bracket (f ∷ fs) h = field_no_bracket f (tail_of fs) h.0.1 ∙ tail_of_no_bracket fs h.1

reverse_last : (s : Text) (c : ℕ) → reverse (s ++ c ∷ []) ≡ c ∷ reverse s
reverse_last s c =
    ap reverse (sym (reverse-cons c (reverse s) ∙ ap (λ x. x ++ c ∷ []) (reverse-reverse s)))
    ∙ reverse-reverse (c ∷ reverse s)

black_start : (c : ℕ) (s : Text) → is_whitespace c ≡ false → trim_start (c ∷ s) ≡ c ∷ s
unfolding trim_start
black_start c s h = rw (h, trim_start) refl

-- A blank behind a text without blanks is trimmed.
pub trim_behind : (s : Text) → All is_black s → trim (s ++ b' ' ∷ []) ≡ s
unfolding trim trim_start is_whitespace
trim_behind [] h = refl
trim_behind (c ∷ s) h =
    ap (λ x. reverse (trim_start (reverse x)))
      (black_start c (s ++ b' ' ∷ []) (ground (arith, h.0)))
    ∙ ap (λ x. reverse (trim_start x)) (reverse_last (c ∷ s) b' ')
    ∙ ap reverse (trim_start-black (reverse (c ∷ s)) (All-reverse is_black (c ∷ s) h))
    ∙ reverse-reverse (c ∷ s)

-- The digits of a number hold no blank and no parenthesis.
digits-IsPlain :
    (s : Text) → All is_digit s → All is_black s × (has_char b'(' (s ++ b' ' ∷ []) ≡ false)
unfolding is_digit is_whitespace has_char
digits-IsPlain [] h = (tt, refl)
digits-IsPlain (c ∷ s) h =
    let rest = digits-IsPlain s h.1 in ((ground (arith, h.0), rest.0), ground (arith, h.0, rest.1))

pub trim-show_nat : (n : ℕ) → trim (show_nat n ++ b' ' ∷ []) ≡ show_nat n
trim-show_nat n = trim_behind (show_nat n) (digits-IsPlain (show_nat n) (show_nat-digits n)).0

pub show_nat_no_bracket : (n : ℕ) → has_char b'(' (show_nat n ++ b' ' ∷ []) ≡ false
show_nat_no_bracket n = (digits-IsPlain (show_nat n) (show_nat-digits n)).1
