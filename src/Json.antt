-- ===== src/Json.antt =====
-- src/util/json.rs: JSON values. Json.Print has the printer and Json.Parse the parser.
-- A float is its 64 bits and an `i64` its 64-bit pattern. Arrays and objects are lists of their
-- own in the block, since a constructor may not take a list of values.
pub mod Laws
pub mod Objects
pub mod Print
pub mod Parse
pub mod Scan
pub mod Numbers
pub mod Steps
pub mod Pieces
pub mod Fuel
pub mod RoundTrip
use myrun.Prelude.{
  ℕ, ◌<◌, ◌^◌, Bool, true, false, ◌||◌, List, [], ◌∷◌, Option, none, some, ltb, if◌then◌else◌,
}
use myrun.Text.{Text, text_eq}

mutual
  pub data Json : Type 0 where
    null : Json
    bool : Bool → Json
    int : ℕ → Json
    float : ℕ → Json
    str : Text → Json
    arr : Items → Json
    obj : Fields → Json

  pub data Items : Type 0 where
    nil : Items
    cons : Json → Items → Items

  pub data Fields : Type 0 where
    end : Fields
    field : Text → Json → Fields → Fields

-- `Json::obj()`
abbrev pub empty_obj : Json
empty_obj = Json.obj Fields.end

unfoldable pub set_field : Text → Json → Fields → Fields
set_field k v Fields.end = Fields.field k v Fields.end
set_field k v (Fields.field j w m) =
    if text_eq j k then Fields.field j v m else Fields.field j w (set_field k v m)

-- A value that is no object is left as it is.
unfoldable pub set : Text → Json → Json → Json
unfolding set_field
set k v (Json.obj m) = Json.obj (set_field k v m)
set k v Json.null = Json.null
set k v j = j

unfoldable pub get_field : Text → Fields → Option Json
get_field k Fields.end = none
get_field k (Fields.field j v m) = if text_eq j k then some v else get_field k m

unfoldable pub get : Json → Text → Option Json
unfolding get_field
get (Json.obj m) k = get_field k m
get Json.null k = none
get _ k = none

unfoldable pub as_str : Json → Option Text
as_str (Json.str s) = some s
as_str Json.null = none
as_str _ = none

unfoldable pub as_bool : Json → Option Bool
as_bool (Json.bool b) = some b
as_bool Json.null = none
as_bool _ = none

-- `of_float` is the language's conversion of a float, `none` for one that is below 0.
unfoldable pub as_u64 : (ℕ → Option ℕ) → Json → Option ℕ
as_u64 of_float (Json.int i) = if ltb i (2 ^ 63) then some i else none
as_u64 of_float (Json.float f) = of_float f
as_u64 of_float _ = none

-- `of_float` is the language's conversion, here to an `i64`'s pattern.
unfoldable pub as_i64 : (ℕ → ℕ) → Json → Option ℕ
as_i64 of_float (Json.int i) = some i
as_i64 of_float (Json.float f) = some (of_float f)
as_i64 of_float Json.null = none
as_i64 of_float _ = none

-- `of_int` is the language's conversion of an integer.
unfoldable pub as_f64 : (ℕ → ℕ) → Json → Option ℕ
as_f64 of_int (Json.int i) = some (of_int i)
as_f64 of_int (Json.float f) = some f
as_f64 of_int Json.null = none
as_f64 of_int _ = none

unfoldable pub as_array : Json → Option Items
as_array (Json.arr a) = some a
as_array Json.null = none
as_array _ = none

unfoldable pub as_object : Json → Option Fields
as_object (Json.obj m) = some m
as_object Json.null = none
as_object _ = none

unfoldable pub is_null : Json → Bool
is_null Json.null = true
is_null (Json.bool _) = false
is_null _ = false

-- `Json::strings`
unfoldable pub strings_items : List Text → Items
strings_items [] = Items.nil
strings_items (s ∷ ss) = Items.cons (Json.str s) (strings_items ss)

unfoldable pub strings : List Text → Json
strings ss = Json.arr (strings_items ss)
