-- ===== src/Json/Parse.antt =====
-- src/util/json.rs: the parser. A position is the byte offset and what is left of the text. The
-- text is valid UTF-8, so that the branches for a broken sequence cannot be taken. The recursion
-- is on fuel: `none` is fuel run out, which `parse` does not see.
use myrun.Prelude.{
  ℕ, zero, suc, ◌+◌, ◌-◌, ◌*◌, ◌^◌, Bool, true, false, ◌&&◌, ◌||◌, [], ◌∷◌, ◌++◌, Option, none,
  some, ltb, leb, ◌==◌, if◌then◌else◌, length,
}
use Prim.Native.String.{String}
use myrun.Text.{Text, codes, strip_prefix}
use myrun.Text.Number.{is_digit, parse_int}
use myrun.Error.{Error, Result, ok, err, ◌>>=◌, plain, lit, number, quoted}
use myrun.Util.{utf8_len}
use myrun.Floats.{Floats}
use myrun.Json.{Json, Items, Fields}

pub record Pos : Type 0 where
  pub offset : ℕ
  pub rest : Text

abbrev pub at : ℕ → Text → Pos
at i s = record { offset = i; rest = s }

-- `Parser::err`
abbrev pub fail {ℓ} : {A : Type ℓ} → String → ℕ → Result A
fail msg i = err (Error.parse (lit msg ∷ lit " at byte offset " ∷ number i ∷ []))

abbrev pub is_space : ℕ → Bool
is_space c = c == 32 || c == 9 || c == 10 || c == 13

-- `ws`
unfoldable pub skip : ℕ → Text → Pos
skip i [] = at i []
skip i (c ∷ s) = let later = skip (i + 1) s in if is_space c then later else at i (c ∷ s)

abbrev pub ws : Pos → Pos
ws p = skip p.offset p.rest

-- `char::to_digit(16)`
unfoldable pub hex_value : ℕ → Option ℕ
hex_value c =
    if is_digit c
    then some (c - b'0')
    else if leb b'a' c && leb c b'f'
    then some (c - b'a' + 10)
    else if leb b'A' c && leb c b'F'
    then some (c - b'A' + 10)
    else none

unfoldable pub hex_digits : ℕ → Text → Option ℕ
unfolding hex_value
hex_digits n [] = some n
hex_digits n (c ∷ s) = elim (hex_value c) [ none ↦ none | some d ↦ hex_digits (n * 16 + d) s ]

-- `u32::from_str_radix(hex, 16)` of four characters: a leading plus sign is accepted.
unfoldable pub radix_16 : Text → Option ℕ
unfolding hex_digits
radix_16 [] = none
radix_16 (c ∷ s) = if c == b'+' then hex_digits 0 s else hex_digits 0 (c ∷ s)

-- `char::from_u32(cp).unwrap_or('\u{fffd}')`, for a value of four digits
abbrev pub char_of : ℕ → ℕ
char_of cp = if leb 0xd800 cp && leb cp 0xdfff then 0xfffd else cp

-- The character of a one-letter escape.
unfoldable pub simple_escape : ℕ → Option ℕ
simple_escape e =
    if e == b'"'
    then some b'"'
    else if e == b'\\'
    then some b'\\'
    else if e == b'/'
    then some b'/'
    else if e == b'n'
    then some 10
    else if e == b'r'
    then some 13
    else if e == b't'
    then some 9
    else if e == b'b'
    then some 8
    else if e == b'f'
    then some 12
    else none

-- the four characters of `\u`, from the offset `i` on
unfoldable pub unicode_escape : ℕ → Text → Result (ℕ × Text)
unfolding radix_16 utf8_len
unicode_escape i (a ∷ b ∷ c ∷ d ∷ s) = elim (radix_16 (a ∷ b ∷ c ∷ d ∷ [])) [
  | some cp ↦ ok (char_of cp, s)
  | none ↦ err (Error.parse (plain "bad \\u escape"))
]
unicode_escape i s =
    if ltb (utf8_len s) 4
    then fail "truncated \\u escape" i
    else err (Error.parse (plain "bad \\u escape"))

-- the bytes of one character
abbrev pub width : ℕ → ℕ
width c = utf8_len (c ∷ [])

-- what follows a backslash; the letter is one byte of its character
unfoldable pub escaped : ℕ → Text → Result (Option ℕ × Pos)
unfolding simple_escape unicode_escape
escaped i [] = fail "unterminated escape" i
escaped i (e ∷ s) = elim (simple_escape e) [
  | some c ↦ ok (some c, at (i + 1) s)
  | none ↦
      if e == b'u'
      then (do r ← unicode_escape (i + 1) s; ok (some r.0, at (i + 5) r.1))
      else fail "unknown escape" (i + 1)
]

-- One character of a string, or its closing quote.
unfoldable pub read_char : ℕ → Text → Result (Option ℕ × Pos)
unfolding escaped
read_char i [] = fail "unterminated string" i
read_char i (c ∷ s) =
    if c == b'"'
    then ok (none, at (i + 1) s)
    else if c == b'\\'
    then escaped (i + 1) s
    else if ltb c 32
    then fail "control character in string" (i + 1)
    else ok (some c, at (i + width c) s)

-- `string`, after the opening quote; every round reads a character at least.
unfoldable pub string_from : ℕ → Pos → Text → Option (Result (Text × Pos))
unfolding read_char
string_from zero p s = none
string_from (suc n) p s = elim (read_char p.offset p.rest) [
  | err e ↦ some (err e)
  | ok (none, q) ↦ some (ok (s, q))
  | ok (some c, q) ↦ string_from n q (s ++ c ∷ [])
]

abbrev pub is_float_char : ℕ → Bool
is_float_char c = c == b'.' || c == b'e' || c == b'E' || c == b'-' || c == b'+'

-- The characters of a number, whether it is a float, and what is left.
unfoldable pub number_chars : Text → Text × Bool × Text
unfolding is_digit
number_chars [] = ([], false, [])
number_chars (c ∷ s) =
    let (t, float, rest) = number_chars s in
    if is_digit c
    then (c ∷ t, float, rest)
    else if is_float_char c
    then (c ∷ t, true, rest)
    else ([], false, c ∷ s)

-- the number's text and what follows the sign
unfoldable pub signed_chars : Text → Text × Bool × Text
unfolding number_chars
signed_chars [] = ([], false, [])
signed_chars (c ∷ s) =
    let (t, float, rest) = number_chars s in
    if c == b'-' || c == b'+' then (c ∷ t, float, rest) else number_chars (c ∷ s)

-- `text.parse::<f64>()`, for an error with the float parser's message left out
abbrev float_of : Floats → Text → Result Json
float_of F t = elim (Floats.parse_f64 F t) [
  | some x ↦ ok (Json.float x)
  | none ↦ err (Error.parse (lit "bad number " ∷ quoted t ∷ lit ": " ∷ []))
]

unfoldable pub number_of : Floats → ℕ → Text × Bool × Text → Result (Json × Pos)
number_of F i ([], float, rest) = fail "expected a value" i
number_of F i (c ∷ t, float, rest) = do
  v ←
      (if float then float_of F (c ∷ t) else elim (parse_int (2 ^ 63) (c ∷ t)) [
        | some n ↦ ok (Json.int n)
        | none ↦ float_of F (c ∷ t)
      ])
  ok (v, at (i + length (c ∷ t)) rest)

-- What the first character of a value says that it is.
pub data Kind : Type 0 where
  nothing brace bracket quote letter_t letter_f letter_n other : Kind

unfoldable pub kind : Text → Kind
kind [] = nothing
kind (c ∷ s) =
    if c == b'{'
    then brace
    else if c == b'['
    then bracket
    else if c == b'"'
    then quote
    else if c == b't'
    then letter_t
    else if c == b'f'
    then letter_f
    else if c == b'n'
    then letter_n
    else other

-- `lit`
unfoldable pub word : Text → Json → Pos → Result (Json × Pos)
word w v p = elim (strip_prefix w p.rest) [
  | some s ↦ ok (v, at (p.offset + length w) s)
  | none ↦ fail "invalid token" p.offset
]

-- one byte further
unfoldable pub step : ℕ → Text → Pos
step i [] = at i []
step i (c ∷ s) = at (i + 1) s

abbrev pub next : Pos → Pos
next p = step p.offset p.rest

-- `peek() == Some(k)`
unfoldable pub starts_text : ℕ → Text → Bool
starts_text k [] = false
starts_text k (c ∷ s) = c == k

abbrev pub starts : ℕ → Pos → Bool
starts k p = starts_text k p.rest

unfoldable pub push_item : Items → Json → Items
push_item Items.nil v = Items.cons v Items.nil
push_item (Items.cons j js) v = Items.cons j (push_item js v)

unfoldable pub push_field : Fields → Text → Json → Fields
push_field Fields.end k v = Fields.field k v Fields.end
push_field (Fields.field j w m) k v = Fields.field j w (push_field m k v)

-- What is being read: a value, the next item of an array after some, the next field of an object.
pub data Goal : Type 0 where
  one : Goal
  items : Items → Goal
  fields : Fields → Goal

abbrev pub Outcome : Type 0
Outcome = Option (Result (Json × Pos))

-- `?` in an outcome
infixl 5 ◌then◌
abbrev pub ◌then◌ {ℓ} : {A : Type ℓ} → Option (Result A) → (A → Outcome) → Outcome
none then f = none
some (err e) then f = some (err e)
some (ok a) then f = f a

-- After an item of an array and after a field of an object, each among those read so far. `again`
-- goes on reading.
abbrev pub item_end : (Goal → Pos → Outcome) → Items → Pos → Outcome
item_end again js q = elim (starts b',' q) [
  | true ↦ again (items js) (next q)
  | false ↦ elim (starts b']' q) [
    | true ↦ some (ok (Json.arr js, next q))
    | false ↦ some (fail "expected ',' or ']'" q.offset)
  ]
]

abbrev pub field_end : (Goal → Pos → Outcome) → Fields → Pos → Outcome
field_end again m q = elim (starts b',' q) [
  | true ↦ again (fields m) (next q)
  | false ↦ elim (starts b'}' q) [
    | true ↦ some (ok (Json.obj m, next q))
    | false ↦ some (fail "expected ',' or '}'" q.offset)
  ]
]

-- after a key
abbrev pub colon : (Goal → Pos → Outcome) → Fields → Text → Pos → Outcome
colon again m k q = elim (starts b':' q) [
  | false ↦ some (fail "expected ':'" q.offset)
  | true ↦ again one (ws (next q)) then λ r. field_end again (push_field m k r.0) (ws r.1)
]

-- the rest of a string, whose opening quote is next
abbrev pub string : Pos → Option (Result (Text × Pos))
string p = string_from (suc (length (next p).rest)) (next p) []

abbrev pub key : (Goal → Pos → Outcome) → Fields → Pos → Outcome
key again m q = elim (starts b'"' q) [
  | false ↦ some (fail "expected object key" q.offset)
  | true ↦ string q then λ k. colon again m k.0 (ws k.1)
]

-- an array or an object, whose opening bracket is next; `q` is after it and the spaces
abbrev pub array : (Goal → Pos → Outcome) → Pos → Pos → Outcome
array again p q = elim (starts b']' q) [
  | true ↦ some (ok (Json.arr Items.nil, next q))
  | false ↦ again (items Items.nil) (next p)
]

abbrev pub object : (Goal → Pos → Outcome) → Pos → Pos → Outcome
object again p q = elim (starts b'}' q) [
  | true ↦ some (ok (Json.obj Fields.end, next q))
  | false ↦ again (fields Fields.end) (next p)
]

-- `value`
unfoldable pub value : Floats → (Goal → Pos → Outcome) → Kind → Pos → Outcome
unfolding word step starts_text string_from signed_chars number_of push_item push_field
value F again nothing p = some (fail "unexpected end of input" p.offset)
value F again brace p = object again p (ws (next p))
value F again bracket p = array again p (ws (next p))
value F again quote p = string p then λ r. some (ok (Json.str r.0, r.1))
value F again letter_t p = some (word (codes "true") (Json.bool true) p)
value F again letter_f p = some (word (codes "false") (Json.bool false) p)
value F again letter_n p = some (word (codes "null") Json.null p)
value F again other p = some (number_of F p.offset (signed_chars p.rest))

-- One round of the reading.
unfoldable pub round : Floats → (Goal → Pos → Outcome) → Goal → Pos → Outcome
unfolding value kind
round F again one p = value F again (kind p.rest) p
round F again (items js) p = again one (ws p) then λ r. item_end again (push_item js r.0) (ws r.1)
round F again (fields m) p = key again m (ws p)

-- The rounds, on fuel.
unfoldable pub read : Floats → ℕ → Goal → Pos → Outcome
unfolding round
read F zero goal p = none
read F (suc n) goal p = round F (read F n) goal p

-- the value, and nothing after it
unfoldable pub whole : Result (Json × Pos) → Result Json
whole (err e) = err e
whole (ok (v, p)) = elim (ws p).rest [
  | [] ↦ ok v
  | c ∷ s ↦ err (Error.parse (lit "trailing data at byte offset " ∷ number (ws p).offset ∷ []))
]

-- `parse`, with the fuel that a text of this length can need
unfoldable pub parse_fueled : Floats → Text → Option (Result Json)
unfolding read whole
parse_fueled F s = elim (read F (2 * length s + 2) one (skip 0 s)) [
  | none ↦ none
  | some r ↦ some (whole r)
]
