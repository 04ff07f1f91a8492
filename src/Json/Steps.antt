-- ===== src/Json/Steps.antt =====
-- src/util/json.rs: one round of the parser on each form of text.
use myrun.Prelude.{ℕ, ◌+◌, ◌≡◌, refl, ap, ◌∙◌, true, false, ◌∷◌, some}
use myrun.Text.{Text}
use myrun.Error.{ok}
use myrun.Floats.{Floats}
use myrun.Json.{Json, Items, Fields}
use myrun.Json.Parse.{
  Pos, at, skip, ws, next, step, starts_text, kind, push_item, push_field, Goal, one, items, fields,
  Outcome, ◌then◌, item_end, field_end, colon, string, key, array, object, value, round,
}

module _ (F : Floats) (again : Goal → Pos → Outcome) where
  pub last_item :
      (acc : Items) (j : Json) (p : Pos) (k l : ℕ) (s out : Text)
      → again one (ws p) ≡ some (ok (j, at k s))
      → skip k s ≡ at l (b']' ∷ out)
      → round F again (items acc) p ≡ some (ok (Json.arr (push_item acc j), at (l + 1) out))
  unfolding round step starts_text
  last_item acc j p k l s out e f =
      ap (λ o. o then λ r. item_end again (push_item acc r.0) (ws r.1)) e
      ∙ ap (item_end again (push_item acc j)) f

  pub more_items :
      (acc : Items) (j : Json) (p : Pos) (k l : ℕ) (s out : Text)
      → again one (ws p) ≡ some (ok (j, at k s))
      → skip k s ≡ at l (b',' ∷ out)
      → round F again (items acc) p ≡ again (items (push_item acc j)) (at (l + 1) out)
  unfolding round step starts_text
  more_items acc j p k l s out e f =
      ap (λ o. o then λ r. item_end again (push_item acc r.0) (ws r.1)) e
      ∙ ap (item_end again (push_item acc j)) f

  -- A key, its colon and its value: where each begins, and what follows the value.
  pub record KeyValue (p : Pos) (name : Text) (j : Json) (k : ℕ) (s : Text) : Type 0 where
    pub quote_at : ℕ
    pub body : Text
    pub colon_from : ℕ
    pub colon_text : Text
    pub colon_at : ℕ
    pub value_from : Text
    pub value_at : ℕ
    pub value_text : Text
    pub to_quote : ws p ≡ at quote_at (b'"' ∷ body)
    pub key_read : string (at quote_at (b'"' ∷ body)) ≡ some (ok (name, at colon_from colon_text))
    pub to_colon : skip colon_from colon_text ≡ at colon_at (b':' ∷ value_from)
    pub to_value : skip (colon_at + 1) value_from ≡ at value_at value_text
    pub value_read : again one (at value_at value_text) ≡ some (ok (j, at k s))

  one_field :
      (acc : Fields) (p : Pos) (name : Text) (j : Json) (k : ℕ) (s : Text)
      → KeyValue p name j k s
      → round F again (fields acc) p ≡ field_end again (push_field acc name j) (skip k s)
  unfolding round step starts_text
  one_field acc p name j k s v =
      ap (key again acc) v.to_quote
      ∙ ap (λ o. o then λ k. colon again acc k.0 (ws k.1)) v.key_read
      ∙ ap (colon again acc name) v.to_colon
      ∙ ap (λ q. again one q then λ r. field_end again (push_field acc name r.0) (ws r.1))
          v.to_value
      ∙ ap (λ o. o then λ r. field_end again (push_field acc name r.0) (ws r.1)) v.value_read

  pub last_field :
      (acc : Fields) (p : Pos) (name : Text) (j : Json) (k l : ℕ) (s out : Text)
      → KeyValue p name j k s
      → skip k s ≡ at l (b'}' ∷ out)
      → round F again (fields acc) p ≡ some (ok (Json.obj (push_field acc name j), at (l + 1) out))
  unfolding step starts_text
  last_field acc p name j k l s out v f =
      one_field acc p name j k s v ∙ ap (field_end again (push_field acc name j)) f

  pub more_fields :
      (acc : Fields) (p : Pos) (name : Text) (j : Json) (k l : ℕ) (s out : Text)
      → KeyValue p name j k s
      → skip k s ≡ at l (b',' ∷ out)
      → round F again (fields acc) p ≡ again (fields (push_field acc name j)) (at (l + 1) out)
  unfolding step starts_text
  more_fields acc p name j k l s out v f =
      one_field acc p name j k s v ∙ ap (field_end again (push_field acc name j)) f

  -- An array and an object that are not empty.
  pub open_array :
      (i k : ℕ) (s t : Text)
      → skip (i + 1) s ≡ at k t
      → starts_text b']' t ≡ false
      → round F again one (at i (b'[' ∷ s)) ≡ again (items Items.nil) (at (i + 1) s)
  unfolding round value kind step
  open_array i k s t e f =
      ap (array again (at i (b'[' ∷ s))) e
      ∙ ap
          (λ b. elim b as (λ _. Outcome) [
            | true ↦ some (ok (Json.arr Items.nil, next (at k t)))
            | false ↦ again (items Items.nil) (at (i + 1) s)
          ])
          f

  pub open_object :
      (i k : ℕ) (s t : Text)
      → skip (i + 1) s ≡ at k t
      → starts_text b'}' t ≡ false
      → round F again one (at i (b'{' ∷ s)) ≡ again (fields Fields.end) (at (i + 1) s)
  unfolding round value kind step
  open_object i k s t e f =
      ap (object again (at i (b'{' ∷ s))) e
      ∙ ap
          (λ b. elim b as (λ _. Outcome) [
            | true ↦ some (ok (Json.obj Fields.end, next (at k t)))
            | false ↦ again (fields Fields.end) (at (i + 1) s)
          ])
          f

  pub read_string :
      (i : ℕ) (s name : Text) (p : Pos)
      → string (at i (b'"' ∷ s)) ≡ some (ok (name, p))
      → round F again one (at i (b'"' ∷ s)) ≡ some (ok (Json.str name, p))
  unfolding round value kind
  read_string i s name p e = ap (λ o. o then λ r. some (ok (Json.str r.0, r.1))) e

  pub empty_array :
      (i : ℕ) (out : Text)
      → round F again one (at i (b'[' ∷ b']' ∷ out))
        ≡ some (ok (Json.arr Items.nil, at (i + 1 + 1) out))
  unfolding round value kind step skip starts_text
  empty_array i out = refl

  pub empty_object :
      (i : ℕ) (out : Text)
      → round F again one (at i (b'{' ∷ b'}' ∷ out))
        ≡ some (ok (Json.obj Fields.end, at (i + 1 + 1) out))
  unfolding round value kind step skip starts_text
  empty_object i out = refl
