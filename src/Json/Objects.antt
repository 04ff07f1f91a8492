-- ===== src/Json/Objects.antt =====
-- src/util/json.rs as its clients use it: objects written field by field, and fields read.
use myrun.Prelude.{
  ℕ, ◌<◌, ◌%◌, ◌^◌, ◌≡◌, refl, ap, Bool, List, [], ◌∷◌, Option, none, some, arith, ◌>>=?◌,
}
use myrun.Text.{Text}
use myrun.Json.{Json, Items, set, get, as_str, as_u64, as_bool, as_array, strings_items}

-- `Null` for what is not there
abbrev pub text_or_null : Option Text → Json
text_or_null none = Json.null
text_or_null (some s) = Json.str s

abbrev pub number_or_null : Option ℕ → Json
number_or_null none = Json.null
number_or_null (some n) = Json.int n

-- Several fields set in turn.
unfoldable pub set_all : List (Text × Json) → Json → Json
set_all [] j = j
set_all ((k, v) ∷ rest) j = set_all rest (set k v j)

abbrev pub text_at : Json → Text → Option Text
text_at j k = get j k >>=? as_str

abbrev pub bool_at : Json → Text → Option Bool
bool_at j k = get j k >>=? as_bool

abbrev pub array_at : Json → Text → Option Items
array_at j k = get j k >>=? as_array

abbrev pub u64_at : (ℕ → Option ℕ) → Json → Text → Option ℕ
u64_at of_float j k = get j k >>=? as_u64 of_float

abbrev cons_text : Option Text → List Text → List Text
cons_text none ss = ss
cons_text (some s) ss = s ∷ ss

-- `filter_map(as_str)`
unfoldable pub texts_of : Items → List Text
texts_of Items.nil = []
texts_of (Items.cons j js) = cons_text (as_str j) (texts_of js)

pub texts_of-strings_items : (ss : List Text) → texts_of (strings_items ss) ≡ ss
unfolding texts_of strings_items as_str
texts_of-strings_items [] = refl
texts_of-strings_items (s ∷ ss) = ap (◌∷◌ s) (texts_of-strings_items ss)

pub as_str-text_or_null : (o : Option Text) → as_str (text_or_null o) ≡ o
unfolding as_str
as_str-text_or_null none = refl
as_str-text_or_null (some s) = refl

pub as_u64-small :
    (of_float : ℕ → Option ℕ) (n : ℕ) → n < 2 ^ 63 → as_u64 of_float (Json.int n) ≡ some n
unfolding as_u64
as_u64-small of_float n h = ground arith

-- An optional number reads back, if it is in range.
abbrev pub Small : Option ℕ → Type 0
Small none = Unit {0}
Small (some n) = n < 2 ^ 63

pub as_u64-number_or_null :
    (of_float : ℕ → Option ℕ) (o : Option ℕ) → Small o → as_u64 of_float (number_or_null o) ≡ o
unfolding as_u64
as_u64-number_or_null of_float none h = refl
as_u64-number_or_null of_float (some n) h = ground arith

pub cast_u16 : (n : ℕ) → n < 2 ^ 16 → n % 2 ^ 16 ≡ n
cast_u16 n h = omega arith
