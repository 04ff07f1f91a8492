-- ===== src/Json/RoundTrip.antt =====
-- src/util/json.rs: a value written as text, compact or indented, and parsed again.
use myrun.Prelude.{
  ℕ, zero, suc, ◌+◌, ◌*◌, ◌≤◌, ◌≡◌, refl, ap, ◌∙◌, true, false, [], ◌∷◌, Option, none, some, arith,
  length,
}
use myrun.Text.{Text, codes}
use myrun.Text.Number.{is_digit}
use myrun.Error.{Result, ok}
use myrun.Floats.{Floats}
use myrun.Json.{Json, Items, Fields}
use myrun.Json.Print.{escape, escape_chars, newline, gap, write, write_items, write_fields}
use myrun.Json.Parse.{
  at, skip, kind, push_item, push_field, one, items, fields, Outcome, value, round, read, whole,
  parse_fueled,
}
use myrun.Json.Scan.{skip-solid, skip-newline, skip-gap, stops}
use myrun.Json.Fuel.{cost-write}
use myrun.Json.Steps.{
  last_item, more_items, KeyValue, last_field, more_fields, open_array, open_object, empty_array,
  empty_object, read_string,
}
use myrun.Json.Pieces.{
  IsPlain, ArePlain, FieldsPlain, cost, cost_items, cost_fields, join, join-push, join-last,
  join_fields, join_fields-push, join_fields-last, write-Begins, read_word, string-escape,
  read_number,
}

cost_pos : (j : Json) → 1 ≤ cost j
unfolding cost
cost_pos Json.null = omega arith
cost_pos (Json.bool b) = omega arith
cost_pos (Json.int n) = omega arith
cost_pos (Json.float x) = omega arith
cost_pos (Json.str s) = omega arith
cost_pos (Json.arr js) = omega arith
cost_pos (Json.obj m) = omega arith

module _ (F : Floats) (indent : Option ℕ) where
  stops-newline :
      (depth c : ℕ) (out : Text)
      → stops (c ∷ []) ≡ true
      → stops (newline indent depth (c ∷ out)) ≡ true
  unfolding newline is_digit
  stops-newline depth c out h = elim indent as (λ o. stops (newline o depth (c ∷ out)) ≡ true) [
    | none ↦ h
    | some width ↦ refl
  ]

  stops-items :
      (depth : ℕ) (js : Items) (out : Text) → stops (write_items F indent depth js out) ≡ true
  unfolding write is_digit
  stops-items depth Items.nil out = stops-newline depth b']' out refl
  stops-items depth (Items.cons j js) out = refl

  stops-fields :
      (depth : ℕ) (m : Fields) (out : Text) → stops (write_fields F indent depth m out) ≡ true
  unfolding write is_digit
  stops-fields depth Fields.end out = stops-newline depth b'}' out refl
  stops-fields depth (Fields.field k j m) out = refl

  -- The texts of an item and of a field, and of those after it.
  abbrev item_text : ℕ → Json → Items → Text → Text
  item_text depth j js out =
      newline indent (depth + 1) (write F indent (depth + 1) j (write_items F indent depth js out))

  abbrev field_text : ℕ → Text → Json → Fields → Text → Text
  field_text depth k j m out = newline indent (depth + 1) (
      escape k
        (b':' ∷ gap indent (write F indent (depth + 1) j (write_fields F indent depth m out))))

  -- The value `j` is read where its text stands.
  abbrev Reads : ℕ → Json → ℕ → Text → Text → Type 0
  Reads n j i s out = (k : ℕ) × (read F n one (at i s) ≡ some (ok (j, at k out)))

  key_value :
      (n depth i : ℕ) (name : Text) (j : Json) (rest : Text)
      → IsPlain j
      → ((a : ℕ) → Reads n j a (write F indent (depth + 1) j rest) rest)
      → (k : ℕ) × KeyValue F
          (read F n)
          (at i (
            newline indent
              (depth + 1)
              (escape name (b':' ∷ gap indent (write F indent (depth + 1) j rest)))))
          name
          j
          k
          rest
  key_value n depth i name j rest v reads =
      let text = write F indent (depth + 1) j rest in
      let (a, to_quote) =
        skip-newline indent (depth + 1) i (escape name (b':' ∷ gap indent text)) refl in
      let (b, key_read) = string-escape a name (b':' ∷ gap indent text) in
      let (c, to_value) =
        skip-gap indent (b + 1) text (write-Begins F indent (depth + 1) j rest v).0 in
      let (k, value_read) = reads c in
      (
        k,
        record {
          quote_at = a;
          body = _;
          colon_from = b;
          colon_text = _;
          colon_at = b;
          value_from = _;
          value_at = c;
          value_text = text;
          to_quote = to_quote;
          key_read = key_read;
          to_colon = skip-solid b (b':' ∷ gap indent text) refl;
          to_value = to_value;
          value_read = value_read;
        },
      )

  -- After an item or a field, the parser finds the comma or the closing bracket.
  skip-last_item :
      (depth k : ℕ) (out : Text)
      → (l : ℕ) × (skip k (write_items F indent depth Items.nil out) ≡ at l (b']' ∷ out))
  unfolding write
  skip-last_item depth k out = skip-newline indent depth k (b']' ∷ out) refl

  skip-last_field :
      (depth k : ℕ) (out : Text)
      → (l : ℕ) × (skip k (write_fields F indent depth Fields.end out) ≡ at l (b'}' ∷ out))
  unfolding write
  skip-last_field depth k out = skip-newline indent depth k (b'}' ∷ out) refl

  mutual
    unfolding read round write IsPlain cost codes kind value join join_fields

    reads :
        (j : Json) (n depth i : ℕ) (out : Text)
        → IsPlain j
        → stops out ≡ true
        → cost j ≤ n
        → Reads n j i (write F indent depth j out) out
    reads j zero depth i out v h c = absurd (omega (arith, cost_pos j, c))
    reads Json.null (suc n) depth i out v h c =
        (_, ap (λ r. some r) (read_word F (read F n) i (codes "null") out Json.null))
    reads (Json.bool true) (suc n) depth i out v h c =
        (_, ap (λ r. some r) (read_word F (read F n) i (codes "true") out (Json.bool true)))
    reads (Json.bool false) (suc n) depth i out v h c =
        (_, ap (λ r. some r) (read_word F (read F n) i (codes "false") out (Json.bool false)))
    reads (Json.int m) (suc n) depth i out v h c = read_number F (read F n) i m out v h
    reads (Json.float x) (suc n) depth i out v h c = absurd v
    reads (Json.str s) (suc n) depth i out v h c =
        let (k, e) = string-escape i s out in
        (k, read_string F (read F n) i (escape_chars s out) s (at k out) e)
    reads (Json.arr Items.nil) (suc n) depth i out v h c =
        (i + 1 + 1, empty_array F (read F n) i out)
    reads (Json.arr (Items.cons j js)) (suc n) depth i out v h c =
        let text = write F indent (depth + 1) j (write_items F indent depth js out) in
        let (solid_text, closed) =
          write-Begins F indent (depth + 1) j (write_items F indent depth js out) v.0 in
        let (a, e) = skip-newline indent (depth + 1) (i + 1) text solid_text in
        let (k, r) = reads_items j js Items.nil n depth (i + 1) out v.0 v.1 (omega (arith, c)) in
        (k, open_array F (read F n) i a (item_text depth j js out) text e closed ∙ r)
    reads (Json.obj Fields.end) (suc n) depth i out v h c =
        (i + 1 + 1, empty_object F (read F n) i out)
    reads (Json.obj (Fields.field name j m)) (suc n) depth i out v h c =
        let text =
          escape name (
            b':' ∷ gap indent (write F indent (depth + 1) j (write_fields F indent depth m out))) in
        let (a, e) = skip-newline indent (depth + 1) (i + 1) text refl in
        let (k, r) =
          reads_fields name j m Fields.end n depth (i + 1) out v.0 v.1 (omega (arith, c)) in
        (k, open_object F (read F n) i a (field_text depth name j m out) text e refl ∙ r)

    reads_items :
        (j : Json) (js acc : Items) (n depth i : ℕ) (out : Text)
        → IsPlain j
        → ArePlain js
        → suc (cost j + cost_items js) ≤ n
        → (k : ℕ) × (read F n (items acc) (at i (item_text depth j js out))
            ≡ some (ok (Json.arr (join acc (Items.cons j js)), at k out)))
    reads_items j js acc zero depth i out p v c = absurd (omega (arith, c))
    reads_items j Items.nil acc (suc n) depth i out p v c =
        let rest = write_items F indent depth Items.nil out in
        let begins = write-Begins F indent (depth + 1) j rest p in
        let (a, e) =
          skip-newline indent (depth + 1) i (write F indent (depth + 1) j rest) begins.0 in
        let (k, r) =
          reads j n (depth + 1) a rest p (stops-items depth Items.nil out) (omega (arith, c)) in
        let (l, f) = skip-last_item depth k out in
        (
          l + 1,
          last_item F (read F n) acc j (at i (item_text depth j Items.nil out)) k l rest out
                (ap (read F n one) e ∙ r) f
              ∙ ap (λ x. some (ok (Json.arr x, at (l + 1) out))) (join-last acc j),
        )
    reads_items j (Items.cons j' js) acc (suc n) depth i out p v c =
        let rest = write_items F indent depth (Items.cons j' js) out in
        let begins = write-Begins F indent (depth + 1) j rest p in
        let (a, e) =
          skip-newline indent (depth + 1) i (write F indent (depth + 1) j rest) begins.0 in
        let (k, r) =
          reads j n (depth + 1) a rest p (stops-items depth (Items.cons j' js) out)
            (omega (arith, c)) in
        let (l, f) =
          reads_items j' js (push_item acc j) n depth (k + 1) out v.0 v.1 (omega (arith, c)) in
        (
          l,
          more_items F (read F n) acc j (at i (item_text depth j (Items.cons j' js) out)) k k rest
                (item_text depth j' js out) (ap (read F n one) e ∙ r) (skip-solid k rest refl)
              ∙ f
              ∙ ap (λ x. some (ok (Json.arr x, at l out))) (join-push acc j (Items.cons j' js)),
        )

    reads_fields :
        (name : Text) (j : Json) (m acc : Fields) (n depth i : ℕ) (out : Text)
        → IsPlain j
        → FieldsPlain m
        → suc (cost j + cost_fields m) ≤ n
        → (k : ℕ) × (read F n (fields acc) (at i (field_text depth name j m out))
            ≡ some (ok (Json.obj (join_fields acc (Fields.field name j m)), at k out)))
    reads_fields name j m acc zero depth i out p v c = absurd (omega (arith, c))
    reads_fields name j Fields.end acc (suc n) depth i out p v c =
        let rest = write_fields F indent depth Fields.end out in
        let (k, r) = key_value n depth i name j rest p (λ a.
          reads j n (depth + 1) a rest p (stops-fields depth Fields.end out) (omega (arith, c))) in
        let (l, f) = skip-last_field depth k out in
        (
          l + 1,
          last_field F (read F n) acc (at i (field_text depth name j Fields.end out)) name j k l
                rest out r f
              ∙ ap (λ x. some (ok (Json.obj x, at (l + 1) out))) (join_fields-last acc name j),
        )
    reads_fields name j (Fields.field name' j' m) acc (suc n) depth i out p v c =
        let rest = write_fields F indent depth (Fields.field name' j' m) out in
        let (k, r) = key_value n depth i name j rest p (λ a.
          reads j n (depth + 1) a rest p (stops-fields depth (Fields.field name' j' m) out)
            (omega (arith, c))) in
        let (l, f) =
          reads_fields name' j' m (push_field acc name j) n depth (k + 1) out v.0 v.1
            (omega (arith, c)) in
        (
          l,
          more_fields F (read F n) acc
                (at i (field_text depth name j (Fields.field name' j' m) out)) name j k k rest
                (field_text depth name' j' m out) r (skip-solid k rest refl)
              ∙ f
              ∙ ap (λ x. some (ok (Json.obj x, at l out)))
                  (join_fields-push acc name j (Fields.field name' j' m)),
        )

-- A value without floats, written compact or indented, parses as itself, and the fuel that the
-- parser is given is enough.
pub parse-write :
    (F : Floats) (indent : Option ℕ) (j : Json)
    → IsPlain j
    → parse_fueled F (write F indent 0 j []) ≡ some (ok j)
unfolding parse_fueled whole skip
parse-write F indent j v =
    let text = write F indent 0 j [] in
    let (k, e) =
      reads F indent j (2 * length text + 2) 0 0 [] v refl
        (let c = cost-write F indent j 0 [] v in omega arith) in
    ap (λ p. finish (read F (2 * length text + 2) one p))
      (skip-solid 0 text (write-Begins F indent 0 j [] v).0)
    ∙ ap finish e
  where
    finish : Outcome → Option (Result Json)
    finish o = elim o [ none ↦ none | some r ↦ some (whole r) ]
