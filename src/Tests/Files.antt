-- ===== src/Tests/Files.antt =====
-- src/util/json.rs, the state file of src/runtime/state.rs and the dates of src/util/mod.rs on
-- concrete inputs.
use myrun.Text.{Text, codes}
use myrun.Prelude.{none, ◌++◌, refl, ◌+◌, ◌-◌, ◌^◌, ◌≡◌, true, [], ◌∷◌, some, arith}
use myrun.Error.{Error, Result, ok, err}
use myrun.State.{ContainerState}
use myrun.Store.{Store}
use myrun.Json.{Json, Items, Fields}
use myrun.Json.Print.{write}
use myrun.Json.Parse.{parse_fueled}
use myrun.Json.Pieces.{IsPlain}
use myrun.Json.RoundTrip.{parse-write}
use myrun.State.Record.{
  new_state, state_json, state_of, state_of-state_json, new_state-IsStorableState,
}
use myrun.Config.{ContainerConfig, no_resources}
use myrun.Config.RoundTrip.{IsStorable}
use myrun.State.Stored.{saved, loaded, loaded-saved}
use myrun.Util.Time.{civil_date}
use myrun.Util.Time.Calendar.{next_day, civil_date-suc}
use myrun.Tests.Configuration.{floats, sample, sample-IsStorable}

-- A text with an escape and a control character, a negative number, an empty array.
abbrev value : Json
value = Json.obj (
    Fields.field (34 ∷ 1 ∷ [])
      (Json.arr (Items.cons (Json.int (2 ^ 64 - 5)) (Items.cons (Json.arr Items.nil) Items.nil)))
      (Fields.field [] (Json.bool true) Fields.end))

value-IsPlain : IsPlain value
unfolding IsPlain
value-IsPlain = ((omega arith, (tt, tt)), (tt, tt))

parse-write_example : parse_fueled floats (write floats (some 2) 0 value []) ≡ some (ok value)
parse-write_example = parse-write floats (some 2) value value-IsPlain

state_of-state_json_example :
    state_of floats (state_json (new_state sample 7)) ≡ ok (new_state sample 7)
state_of-state_json_example =
    state_of-state_json floats (new_state sample 7)
      (new_state-IsStorableState sample 7 sample-IsStorable (omega arith))

-- The same container with no limit on its processors.
abbrev unlimited : ContainerConfig
unlimited = record sample { resources = no_resources }

unlimited-IsStorable : IsStorable unlimited
unlimited-IsStorable = record {
  environment = sample-IsStorable.environment;
  resources_fit = (tt, tt, tt, tt);
  network_fit = sample-IsStorable.network_fit;
  user_fit = tt;
  labels_differ = sample-IsStorable.labels_differ;
  attached = refl;
}

loaded-saved_example :
    loaded floats (codes "state.json") (saved floats (new_state unlimited 7))
    ≡ some (ok (new_state unlimited 7))
unfolding new_state
loaded-saved_example =
    loaded-saved floats (codes "state.json") (new_state unlimited 7)
      (new_state-IsStorableState unlimited 7 unlimited-IsStorable (omega arith)) refl

-- A container to be detached, in a store with another one whose file cannot be read.
abbrev detached : ContainerState ContainerConfig
detached = new_state (record unlimited { detach = true }) 7

abbrev one_container : Store ContainerConfig
one_container = (codes "b1", err (Error.parse [])) ∷ []

abbrev in_directory : Text → Text
in_directory id = id ++ codes "/state.json"

-- What `load` makes of a file; the fuel of the parser is not short for the texts of interest.
unfoldable reads_back : ContainerState ContainerConfig → Result (ContainerState ContainerConfig)
reads_back s = elim (loaded floats (in_directory s.id) (saved floats s)) [
  | none ↦ err (Error.parse [])
  | some r ↦ r
]

-- 1970-02-28
civil_date-suc_example : civil_date (58 + 1) ≡ next_day (civil_date 58)
civil_date-suc_example = civil_date-suc 58
