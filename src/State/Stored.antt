-- ===== src/State/Stored.antt =====
-- src/runtime/state.rs: the text of a state file, which `Store::save` writes and `Store::load` reads.
use myrun.Prelude.{◌≡◌, ap, ◌∙◌, ◌∷◌, Option, none, some, false}
use myrun.Text.{Text}
use myrun.Error.{Error, Result, ok, err, ◌>>=◌, lit, shown, display}
use myrun.Floats.{Floats}
use myrun.Json.{Json}
use myrun.Json.Print.{to_string_pretty}
use myrun.Json.Parse.{parse_fueled}
use myrun.Json.RoundTrip.{parse-write}
use myrun.Config.{ContainerConfig}
use myrun.Config.Document.{config_json}
use myrun.State.{ContainerState}
use myrun.State.Record.{state_json, state_of, IsStorableState, state_of-state_json}
use myrun.State.Plain.{state-IsPlain}

-- What `save` writes.
abbrev pub saved : Floats → ContainerState ContainerConfig → Text
saved F st = to_string_pretty F (state_json st)

-- A parse error names the file.
abbrev in_file : Text → Result Json → Result Json
in_file path (ok j) = ok j
in_file path (err e) = err (Error.parse (shown path ∷ lit ": " ∷ display e))

-- What `load` makes of a file's text.
unfoldable pub loaded : Floats → Text → Text → Option (Result (ContainerState ContainerConfig))
loaded F path s = elim (parse_fueled F s) [
  | none ↦ none
  | some r ↦ some (in_file path r >>= state_of F)
]

-- The text that `save` writes is loaded as the state that was saved.
pub loaded-saved :
    (F : Floats) (path : Text) (st : ContainerState ContainerConfig)
    → IsStorableState st
    → st.config.resources.cpus ≡ none
    → loaded F path (saved F st) ≡ some (ok st)
unfolding loaded
loaded-saved F path st v e =
    ap
      (λ o. elim o as (λ _. Option (Result (ContainerState ContainerConfig))) [
        | none ↦ none
        | some r ↦ some (in_file path r >>= state_of F)
      ])
      (parse-write F (some 2) (state_json st) (state-IsPlain st v e))
    ∙ ap (λ r. some r) (state_of-state_json F st v)

-- Whether to detach is not written to the file.
abbrev pub attached : ContainerState ContainerConfig → ContainerState ContainerConfig
attached st = record st { config = record st.config { detach = false } }

-- A state that is to be detached is loaded as one that is not.
pub loaded-saved_attached :
    (F : Floats) (path : Text) (st : ContainerState ContainerConfig)
    → IsStorableState (attached st)
    → st.config.resources.cpus ≡ none
    → loaded F path (saved F st) ≡ some (ok (attached st))
unfolding state_json config_json
loaded-saved_attached F path st v e = loaded-saved F path (attached st) v e
