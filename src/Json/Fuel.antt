-- ===== src/Json/Fuel.antt =====
-- src/util/json.rs: the fuel that reading a written value takes is at most its text's length.
use myrun.Prelude.{
  ℕ, zero, suc, ◌+◌, ◌*◌, ◌≤◌, true, false, ◌∷◌, ◌++◌, Option, none, some, arith, length,
}
use myrun.Text.{Text, codes}
use myrun.Floats.{Floats}
use myrun.Json.{Json, Items, Fields}
use myrun.Json.Print.{show_i64, escape, newline, spaces, gap, write, write_items, write_fields}
use myrun.Json.Scan.{length-escape_chars, length-append}
use myrun.Json.Numbers.{show_i64-cons}
use myrun.Json.Pieces.{IsPlain, ArePlain, FieldsPlain, cost, cost_items, cost_fields}

length-spaces : (n : ℕ) (out : Text) → length out ≤ length (spaces n out)
unfolding spaces
length-spaces zero out = omega arith
length-spaces (suc n) out = let e = length-spaces n out in omega arith

length-newline :
    (indent : Option ℕ) (depth : ℕ) (out : Text) → length out ≤ length (newline indent depth out)
unfolding newline
length-newline none depth out = omega arith
length-newline (some step) depth out = let e = length-spaces (step * depth) out in omega arith

length-gap : (indent : Option ℕ) (out : Text) → length out ≤ length (gap indent out)
length-gap none out = omega arith
length-gap (some step) out = omega arith

length-show_i64 : (n : ℕ) (out : Text) → 1 + length out ≤ length (show_i64 n ++ out)
length-show_i64 n out =
    let (c, s, e, d) = show_i64-cons n in rw e (let l = length-append s out in omega arith)

module _ (F : Floats) (indent : Option ℕ) where
  mutual
    unfolding write cost codes IsPlain

    pub cost-write :
        (j : Json) (depth : ℕ) (out : Text)
        → IsPlain j
        → cost j + length out ≤ length (write F indent depth j out)
    cost-write Json.null depth out v = omega arith
    cost-write (Json.bool true) depth out v = omega arith
    cost-write (Json.bool false) depth out v = omega arith
    cost-write (Json.int n) depth out v = length-show_i64 n out
    cost-write (Json.float x) depth out v = absurd v
    cost-write (Json.str s) depth out v = let e = length-escape_chars s out in omega arith
    cost-write (Json.arr Items.nil) depth out v = omega arith
    cost-write (Json.arr (Items.cons j js)) depth out v =
        let rest = write_items F indent depth js out in
        let e = length-newline indent (depth + 1) (write F indent (depth + 1) j rest) in
        let item = cost-write j (depth + 1) rest v.0 in
        let others = cost-items js depth out v.1 in omega arith
    cost-write (Json.obj Fields.end) depth out v = omega arith
    cost-write (Json.obj (Fields.field k j m)) depth out v =
        let rest = write_fields F indent depth m out in
        let text = write F indent (depth + 1) j rest in
        let e = length-newline indent (depth + 1) (escape k (b':' ∷ gap indent text)) in
        let name = length-escape_chars k (b':' ∷ gap indent text) in
        let space = length-gap indent text in
        let item = cost-write j (depth + 1) rest v.0 in
        let others = cost-fields m depth out v.1 in omega arith

    pub cost-items :
        (js : Items) (depth : ℕ) (out : Text)
        → ArePlain js
        → 1 + cost_items js + length out ≤ length (write_items F indent depth js out)
    cost-items Items.nil depth out v =
        let e = length-newline indent depth (b']' ∷ out) in omega arith
    cost-items (Items.cons j js) depth out v =
        let rest = write_items F indent depth js out in
        let e = length-newline indent (depth + 1) (write F indent (depth + 1) j rest) in
        let item = cost-write j (depth + 1) rest v.0 in
        let others = cost-items js depth out v.1 in omega arith

    pub cost-fields :
        (m : Fields) (depth : ℕ) (out : Text)
        → FieldsPlain m
        → 1 + cost_fields m + length out ≤ length (write_fields F indent depth m out)
    cost-fields Fields.end depth out v =
        let e = length-newline indent depth (b'}' ∷ out) in omega arith
    cost-fields (Fields.field k j m) depth out v =
        let rest = write_fields F indent depth m out in
        let text = write F indent (depth + 1) j rest in
        let e = length-newline indent (depth + 1) (escape k (b':' ∷ gap indent text)) in
        let name = length-escape_chars k (b':' ∷ gap indent text) in
        let space = length-gap indent text in
        let item = cost-write j (depth + 1) rest v.0 in
        let others = cost-fields m depth out v.1 in omega arith
