-- ===== src/Json/Print.antt =====
-- src/util/json.rs: the text form of a JSON value, `to_string` and `to_string_pretty`.
use myrun.Prelude.{
  ℕ, zero, suc, ◌+◌, ◌-◌, ◌*◌, ◌/◌, ◌%◌, ◌^◌, true, false, [], ◌∷◌, ◌++◌, Option, none, some, ltb,
  ◌==◌, if◌then◌else◌,
}
use myrun.Text.{Text, codes}
use myrun.Text.Number.{show_nat}
use myrun.Util.{hex_digit}
use myrun.Floats.{Floats}
use myrun.Json.{Json, Items, Fields}

-- `{}` of an `i64`
unfoldable pub show_i64 : ℕ → Text
show_i64 n = if ltb n (2 ^ 63) then show_nat n else b'-' ∷ show_nat (2 ^ 64 - n)

-- One character of a string, as the printer writes it: `\u{:04x}` for the rest of the control
-- characters.
unfoldable pub escape_char : ℕ → Text
escape_char c =
    if c == b'"'
    then b'\\' ∷ b'"' ∷ []
    else if c == b'\\'
    then b'\\' ∷ b'\\' ∷ []
    else if c == 10
    then b'\\' ∷ b'n' ∷ []
    else if c == 13
    then b'\\' ∷ b'r' ∷ []
    else if c == 9
    then b'\\' ∷ b't' ∷ []
    else if c == 8
    then b'\\' ∷ b'b' ∷ []
    else if c == 12
    then b'\\' ∷ b'f' ∷ []
    else if ltb c 32
    then b'\\' ∷ b'u' ∷ b'0' ∷ b'0' ∷ hex_digit (c / 16) ∷ hex_digit (c % 16) ∷ []
    else c ∷ []

-- A string's characters and the closing quote, before what follows.
unfoldable pub escape_chars : Text → Text → Text
unfolding escape_char
escape_chars [] out = b'"' ∷ out
escape_chars (c ∷ s) out = escape_char c ++ escape_chars s out

-- `escape_into`
abbrev pub escape : Text → Text → Text
escape s out = b'"' ∷ escape_chars s out

unfoldable pub spaces : ℕ → Text → Text
spaces zero out = out
spaces (suc n) out = b' ' ∷ spaces n out

-- the closure `nl`
unfoldable pub newline : Option ℕ → ℕ → Text → Text
unfolding spaces
newline none depth out = out
newline (some step) depth out = 10 ∷ spaces (step * depth) out

-- after the colon of a field
abbrev pub gap : Option ℕ → Text → Text
gap none out = out
gap (some step) out = b' ' ∷ out

-- The text of a value, before what follows it. `write_items` and `write_fields` write what is left
-- of an array and of an object, whose opening bracket has been written.
unfoldable mutual
  pub write : Floats → Option ℕ → ℕ → Json → Text → Text
  write F indent depth Json.null out = codes "null" ++ out
  write F indent depth (Json.bool true) out = codes "true" ++ out
  write F indent depth (Json.bool false) out = codes "false" ++ out
  write F indent depth (Json.int n) out = show_i64 n ++ out
  write F indent depth (Json.float x) out =
      (if Floats.is_finite F x then Floats.show_f64 F x else codes "null") ++ out
  write F indent depth (Json.str s) out = escape s out
  write F indent depth (Json.arr Items.nil) out = codes "[]" ++ out
  write F indent depth (Json.arr (Items.cons j js)) out =
      b'['
      ∷ newline indent (depth + 1)
          (write F indent (depth + 1) j (write_items F indent depth js out))
  write F indent depth (Json.obj Fields.end) out = codes "{}" ++ out
  write F indent depth (Json.obj (Fields.field k j m)) out =
      b'{'
      ∷ newline indent (depth + 1) (
          escape k
            (b':' ∷ gap indent (write F indent (depth + 1) j (write_fields F indent depth m out))))

  pub write_items : Floats → Option ℕ → ℕ → Items → Text → Text
  write_items F indent depth Items.nil out = newline indent depth (b']' ∷ out)
  write_items F indent depth (Items.cons j js) out =
      b','
      ∷ newline indent (depth + 1)
          (write F indent (depth + 1) j (write_items F indent depth js out))

  pub write_fields : Floats → Option ℕ → ℕ → Fields → Text → Text
  write_fields F indent depth Fields.end out = newline indent depth (b'}' ∷ out)
  write_fields F indent depth (Fields.field k j m) out =
      b','
      ∷ newline indent (depth + 1) (
          escape k
            (b':' ∷ gap indent (write F indent (depth + 1) j (write_fields F indent depth m out))))

abbrev pub to_string : Floats → Json → Text
to_string F j = write F none 0 j []

abbrev pub to_string_pretty : Floats → Json → Text
to_string_pretty F j = write F (some 2) 0 j []
