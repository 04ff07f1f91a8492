-- ===== src/Json/Laws.antt =====
-- src/util/json.rs: reading a field after writing one.
use myrun.Prelude.{◌≡◌, refl, some, arith, if◌then◌else◌}
use myrun.Text.{Text, text_eq}
use myrun.Text.Laws.{text_eq_iff}
use myrun.Json.{Json, Fields, set_field, set, get_field, get}

get_field-set_field :
    (k j : Text) (v : Json) (m : Fields)
    → get_field j (set_field k v m) ≡ (if text_eq k j then some v else get_field j m)
unfolding get_field set_field
get_field-set_field k j v Fields.end = refl
get_field-set_field k j v (Fields.field i w m) =
    ground (arith, text_eq_iff i k, text_eq_iff i j, text_eq_iff k j, get_field-set_field k j v m)

-- In an object, `set` replaces the value of its key and no other; `get` finds it.
pub get-set :
    (k j : Text) (v : Json) (m : Fields)
    → get (set k v (Json.obj m)) j ≡ (if text_eq k j then some v else get (Json.obj m) j)
unfolding get set
get-set k j v m = get_field-set_field k j v m
