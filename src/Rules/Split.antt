-- ===== src/Rules/Split.antt =====
-- src/runtime/nat.rs: `split_rule` on the lines that iptables prints.
use myrun.Prelude.{
  ℕ, ◌≡◌, ◌≢◌, refl, sym, ap, ◌∙◌, Bool, true, false, not, ◌&&◌, ◌||◌, List, [], ◌∷◌, ◌++◌, arith,
  ◌==◌,
}
use mathlib.Core.List.{append_assoc, append-nil}
use myrun.Text.{Text, is_whitespace}
use myrun.Text.Laws.{All}
use myrun.Rules.{split_from, split_rule}

-- A printed argument: its text, in quotes or not.
abbrev pub printed : Bool × Text → Text
printed (true, t) = b'"' ∷ (t ++ b'"' ∷ [])
printed (false, t) = t

-- A line of arguments with one blank between two.
unfoldable pub line_of : List (Bool × Text) → Text
line_of [] = []
line_of (a ∷ []) = printed a
line_of (a ∷ b ∷ args) = printed a ++ b' ' ∷ line_of (b ∷ args)

-- what a character of an argument may be
abbrev pub plain_char : Bool → ℕ → Bool
plain_char quoted c = not (c == b'"') && (quoted || not (is_whitespace c))

-- No argument is empty or holds a quote, and one without quotes holds no blank.
abbrev pub ArePrintable : List (Bool × Text) → Type 0
ArePrintable [] = Unit {0}
ArePrintable ((q, t) ∷ args) = ((t ≢ []) × All (plain_char q) t) × ArePrintable args

abbrev pub texts : List (Bool × Text) → List Text
texts [] = []
texts ((q, t) ∷ args) = t ∷ texts args

plain_not_quote : (q : Bool) (c : ℕ) → plain_char q c ≡ true → (c == b'"') ≡ false
plain_not_quote q c h = ground arith

plain_kept : (q : Bool) (c : ℕ) → plain_char q c ≡ true → (is_whitespace c && not q) ≡ false
plain_kept true c h = ground arith
plain_kept false c h = ground arith

-- The characters of an argument are added to the word so far.
split_chars :
    (t rest cur : Text) (q : Bool)
    → All (plain_char q) t
    → split_from (t ++ rest) cur q ≡ split_from rest (cur ++ t) q
unfolding split_from
split_chars [] rest cur q h = ap (λ x. split_from rest x q) (sym (append-nil cur))
split_chars (c ∷ t) rest cur q h =
    rw (plain_not_quote q c h.0, plain_kept q c h.0, split_from)
      (split_chars t rest (cur ++ c ∷ []) q h.1
        ∙ ap (λ x. split_from rest x q) (append_assoc cur (c ∷ []) t))

-- One argument, between blanks, is one word.
split_argument :
    (q : Bool) (t rest : Text)
    → t ≢ []
    → All (plain_char q) t
    → split_from (printed (q, t) ++ b' ' ∷ rest) [] false ≡ t ∷ split_from rest [] false
unfolding split_from is_whitespace
split_argument true [] rest ne h = absurd (ne refl)
split_argument false [] rest ne h = absurd (ne refl)
split_argument true (c ∷ t) rest ne h =
    rw (append_assoc (c ∷ t) (b'"' ∷ []) (b' ' ∷ rest))
      (split_chars (c ∷ t) (b'"' ∷ b' ' ∷ rest) [] true h)
split_argument false (c ∷ t) rest ne h = split_chars (c ∷ t) (b' ' ∷ rest) [] false h

-- An argument at the end of the line is one word too.
split_last :
    (q : Bool) (t : Text)
    → t ≢ []
    → All (plain_char q) t
    → split_from (printed (q, t)) [] false ≡ t ∷ []
unfolding split_from
split_last true [] ne h = absurd (ne refl)
split_last false [] ne h = absurd (ne refl)
split_last true (c ∷ t) ne h = split_chars (c ∷ t) (b'"' ∷ []) [] true h
split_last false (c ∷ t) ne h =
    ap (λ x. split_from x [] false) (sym (append-nil (c ∷ t))) ∙ split_chars (c ∷ t) [] [] false h

-- A line of arguments with one blank between two, each in quotes or without blanks, none empty or
-- with a quote inside, is split into those arguments, the quotes around them dropped.
pub split_rule-line_of :
    (args : List (Bool × Text)) → ArePrintable args → split_rule (line_of args) ≡ texts args
unfolding split_rule split_from line_of
split_rule-line_of [] h = refl
split_rule-line_of ((q, t) ∷ []) h = split_last q t h.0.0 h.0.1
split_rule-line_of ((q, t) ∷ b ∷ args) h =
    split_argument q t (line_of (b ∷ args)) h.0.0 h.0.1
    ∙ ap (λ x. t ∷ x) (split_rule-line_of (b ∷ args) h.1)
