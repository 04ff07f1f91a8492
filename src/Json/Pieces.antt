-- ===== src/Json/Pieces.antt =====
-- src/util/json.rs: the values that are read back as they were, and the pieces of their text.
use mathlib.Core.Path.{subst}
use myrun.Text.Number.{is_digit}
use myrun.Prelude.{
  ◌||◌, ◌==◌, ℕ, suc, ◌+◌, ◌^◌, ◌<◌, ◌≡◌, refl, sym, ap, ◌∙◌, true, false, [], ◌∷◌, ◌++◌, Option,
  none, some, arith, length,
}
use myrun.Text.{Text, codes}
use myrun.Text.Laws.{strip_prefix-append}
use myrun.Error.{Result, ok}
use myrun.Floats.{Floats}
use myrun.Json.{Json, Items, Fields}
use myrun.Json.Print.{show_i64, escape, escape_chars, write}
use myrun.Json.Parse.{
  Pos, at, fail, step, starts_text, kind, other, word, push_item, push_field, Goal, one, string,
  value, round,
}
use myrun.Json.Scan.{solid, stops, string_from-escape_chars, length-escape_chars}
use myrun.Json.Numbers.{number_of-show_i64, show_i64-cons}

-- No floats, and integers of 64 bits.
unfoldable mutual
  pub IsPlain : Json → Type 0
  IsPlain Json.null = Unit {0}
  IsPlain (Json.bool b) = Unit {0}
  IsPlain (Json.int n) = n < 2 ^ 64
  IsPlain (Json.float x) = ⊥
  IsPlain (Json.str s) = Unit {0}
  IsPlain (Json.arr js) = ArePlain js
  IsPlain (Json.obj m) = FieldsPlain m

  pub ArePlain : Items → Type 0
  ArePlain Items.nil = Unit {0}
  ArePlain (Items.cons j js) = IsPlain j × ArePlain js

  pub FieldsPlain : Fields → Type 0
  FieldsPlain Fields.end = Unit {0}
  FieldsPlain (Fields.field k j m) = IsPlain j × FieldsPlain m

-- The rounds that reading a value takes.
unfoldable mutual
  pub cost : Json → ℕ
  cost Json.null = 1
  cost (Json.bool b) = 1
  cost (Json.int n) = 1
  cost (Json.float x) = 1
  cost (Json.str s) = 1
  cost (Json.arr js) = suc (cost_items js)
  cost (Json.obj m) = suc (cost_fields m)

  pub cost_items : Items → ℕ
  cost_items Items.nil = 0
  cost_items (Items.cons j js) = suc (cost j + cost_items js)

  pub cost_fields : Fields → ℕ
  cost_fields Fields.end = 0
  cost_fields (Fields.field k j m) = suc (cost j + cost_fields m)

unfoldable pub join : Items → Items → Items
join Items.nil js = js
join (Items.cons j js) ks = Items.cons j (join js ks)

pub join-push :
    (acc : Items) (j : Json) (js : Items) → join (push_item acc j) js ≡ join acc (Items.cons j js)
unfolding join push_item
join-push Items.nil j js = refl
join-push (Items.cons i is) j js = ap (Items.cons i) (join-push is j js)

pub join-last : (acc : Items) (j : Json) → push_item acc j ≡ join acc (Items.cons j Items.nil)
unfolding join push_item
join-last Items.nil j = refl
join-last (Items.cons i is) j = ap (Items.cons i) (join-last is j)

unfoldable pub join_fields : Fields → Fields → Fields
join_fields Fields.end m = m
join_fields (Fields.field k j l) m = Fields.field k j (join_fields l m)

pub join_fields-push :
    (acc : Fields) (k : Text) (j : Json) (m : Fields)
    → join_fields (push_field acc k j) m ≡ join_fields acc (Fields.field k j m)
unfolding join_fields push_field
join_fields-push Fields.end k j m = refl
join_fields-push (Fields.field i w l) k j m = ap (Fields.field i w) (join_fields-push l k j m)

pub join_fields-last :
    (acc : Fields) (k : Text) (j : Json)
    → push_field acc k j ≡ join_fields acc (Fields.field k j Fields.end)
unfolding join_fields push_field
join_fields-last Fields.end k j = refl
join_fields-last (Fields.field i w l) k j = ap (Fields.field i w) (join_fields-last l k j)

-- What the parser tests of the text of a value: it begins with no space and closes nothing.
abbrev pub Begins : Text → Type 0
Begins s = (solid s ≡ true) × (starts_text b']' s ≡ false)

sign-Begins :
    (c : ℕ) (s : Text) → (is_digit c || c == b'-') ≡ true → Begins (c ∷ s) × (kind (c ∷ s) ≡ other)
unfolding kind starts_text is_digit
sign-Begins c s d = ((ground (arith, d), ground (arith, d)), ground (arith, d))

show_i64-Begins :
    (n : ℕ) (out : Text) → Begins (show_i64 n ++ out) × (kind (show_i64 n ++ out) ≡ other)
show_i64-Begins n out =
    let (c, s, e, d) = show_i64-cons n in
    subst (λ t. Begins (t ++ out) × (kind (t ++ out) ≡ other)) (sym e) (sign-Begins c (s ++ out) d)

pub write-Begins :
    (F : Floats) (indent : Option ℕ) (depth : ℕ) (j : Json) (out : Text)
    → IsPlain j
    → Begins (write F indent depth j out)
unfolding write codes starts_text IsPlain
write-Begins F indent depth Json.null out v = (refl, refl)
write-Begins F indent depth (Json.bool true) out v = (refl, refl)
write-Begins F indent depth (Json.bool false) out v = (refl, refl)
write-Begins F indent depth (Json.int n) out v = (show_i64-Begins n out).0
write-Begins F indent depth (Json.float x) out v = absurd v
write-Begins F indent depth (Json.str s) out v = (refl, refl)
write-Begins F indent depth (Json.arr Items.nil) out v = (refl, refl)
write-Begins F indent depth (Json.arr (Items.cons j js)) out v = (refl, refl)
write-Begins F indent depth (Json.obj Fields.end) out v = (refl, refl)
write-Begins F indent depth (Json.obj (Fields.field k j m)) out v = (refl, refl)

-- A word of the language.
pub read_word :
    (F : Floats) (again : Goal → Pos → Option (Result (Json × Pos))) (i : ℕ) (w out : Text)
    (v : Json)
    → word w v (at i (w ++ out)) ≡ ok (v, at (i + length w) out)
unfolding word
read_word F again i w out v =
    ap
      (λ o. elim o as (λ _. Result (Json × Pos)) [
        | some s ↦ ok (v, at (i + length w) s)
        | none ↦ fail "invalid token" i
      ])
      (strip_prefix-append w out)

pub string-escape :
    (i : ℕ) (s out : Text) → (k : ℕ) × (string (at i (escape s out)) ≡ some (ok (s, at k out)))
unfolding step
string-escape i s out =
    string_from-escape_chars (suc (length (escape_chars s out))) (i + 1) s out []
      (omega (arith, length-escape_chars s out))

pub read_number :
    (F : Floats) (again : Goal → Pos → Option (Result (Json × Pos))) (i n : ℕ) (out : Text)
    → n < 2 ^ 64
    → stops out ≡ true
    → (k : ℕ) × (round F again one (at i (show_i64 n ++ out)) ≡ some (ok (Json.int n, at k out)))
unfolding round value
read_number F again i n out h k =
    let (end, e) = number_of-show_i64 F i n out h k in
    (
      end,
      ap (λ x. value F again x (at i (show_i64 n ++ out))) (show_i64-Begins n out).1
          ∙ ap (λ r. some r) e,
    )
