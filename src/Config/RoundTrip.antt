-- ===== src/Config/RoundTrip.antt =====
-- src/config.rs: `config.json`, written with `to_json` and read with `from_json`.
use mathlib.Core.List.{append_assoc, append-nil}
use myrun.Prelude.{◌≡◌, refl, ap, sym, ◌∙◌, Bool, false, ◌||◌, List, [], ◌∷◌, ◌++◌, some, arith}
use myrun.Text.{Text, codes, text_eq}
use myrun.Error.{Result, ok}
use myrun.Error.Chains.{Ensures_ok, Ensures-chain}
use myrun.Json.{
  Json, Fields, empty_obj, set, get, as_str, as_array, as_bool, set_field, get_field, strings,
  strings_items,
}
use myrun.Json.Objects.{set_all, texts_of, as_str-text_or_null, texts_of-strings_items}
use myrun.Floats.{Floats}
use myrun.Config.{ContainerConfig, default_config}
use myrun.Config.Document.{
  config_json, assemble, config_of, set_envs, set_labels, text_pairs, pairs_of,
}
use myrun.Config.Environment.{IsEnvironment, env_of-IsEnvironment, set_envs-IsEnvironment}
use myrun.Config.Restore.{
  IsStorableResources, resources_of-resources_json, IsStorableNetwork, network_of-network_json,
  IsStorableUser, security_of-security_json, namespaces_of-namespaces_json, mounts_of-mounts_json,
}

abbrev pub has_label : Text → List (Text × Text) → Bool
has_label k [] = false
has_label k ((j, v) ∷ ls) = text_eq j k || has_label k ls

-- No key occurs twice.
abbrev pub DistinctLabels : List (Text × Text) → Type 0
DistinctLabels [] = Unit {0}
DistinctLabels ((k, v) ∷ ls) = (has_label k ls ≡ false) × DistinctLabels ls

abbrev add_label : List (Text × Text) → Fields → Fields
add_label [] m = m
add_label ((k, v) ∷ ls) m = Fields.field k (Json.str v) (add_label ls m)

-- the fields of the labels `ls`
abbrev fields_of : List (Text × Text) → Fields
fields_of ls = add_label ls Fields.end

set_field-new :
    (k v : Text) (ls : List (Text × Text))
    → has_label k ls ≡ false
    → set_field k (Json.str v) (fields_of ls) ≡ fields_of (ls ++ (k, v) ∷ [])
unfolding set_field
set_field-new k v [] h = refl
set_field-new k v ((j, w) ∷ ls) h = ground (arith, h, set_field-new k v ls)

text_eq_sym : (s t : Text) → text_eq s t ≡ text_eq t s
unfolding text_eq
text_eq_sym [] [] = refl
text_eq_sym [] (d ∷ t) = refl
text_eq_sym (c ∷ s) [] = refl
text_eq_sym (c ∷ s) (d ∷ t) = ground (arith, text_eq_sym s t)

-- No key of the first labels is among the second.
abbrev AllNew : List (Text × Text) → List (Text × Text) → Type 0
AllNew [] ls = Unit {0}
AllNew ((k, v) ∷ rest) ls = (has_label k ls ≡ false) × AllNew rest ls

has_label-append :
    (j k v : Text) (ls : List (Text × Text))
    → has_label j ls ≡ false
    → text_eq k j ≡ false
    → has_label j (ls ++ (k, v) ∷ []) ≡ false
has_label-append j k v [] h e = ground (arith, e)
has_label-append j k v ((i, w) ∷ ls) h e = ground (arith, h, has_label-append j k v ls)

AllNew-append :
    (k v : Text) (rest ls : List (Text × Text))
    → has_label k rest ≡ false
    → AllNew rest ls
    → AllNew rest (ls ++ (k, v) ∷ [])
AllNew-append k v [] ls h n = tt
AllNew-append k v ((j, w) ∷ rest) ls h n = (
  has_label-append j k v ls n.0 (ground (arith, text_eq_sym k j, h)),
  AllNew-append k v rest ls (ground (arith, h)) n.1,
)

set_labels-fields_of :
    (rest ls : List (Text × Text))
    → DistinctLabels rest
    → AllNew rest ls
    → set_labels rest (Json.obj (fields_of ls)) ≡ Json.obj (fields_of (ls ++ rest))
unfolding set_labels set
set_labels-fields_of [] ls d n = ap (λ l. Json.obj (fields_of l)) (sym (append-nil ls))
set_labels-fields_of ((k, v) ∷ rest) ls d n =
    ap (λ m. set_labels rest (Json.obj m)) (set_field-new k v ls n.0)
    ∙ set_labels-fields_of rest (ls ++ (k, v) ∷ []) d.1 (AllNew-append k v rest ls d.0 n.1)
    ∙ ap (λ l. Json.obj (fields_of l)) (append_assoc ls ((k, v) ∷ []) rest)

text_pairs-fields_of : (ls : List (Text × Text)) → text_pairs (fields_of ls) ≡ ls
unfolding text_pairs as_str
text_pairs-fields_of [] = refl
text_pairs-fields_of ((k, v) ∷ ls) = ap (◌∷◌ (k, v)) (text_pairs-fields_of ls)

pub pairs_of-set_labels :
    (ls : List (Text × Text)) → DistinctLabels ls → pairs_of (some (set_labels ls empty_obj)) ≡ ls
unfolding pairs_of
pairs_of-set_labels ls d = rw (set_labels-fields_of ls [] d (all_new ls)) (text_pairs-fields_of ls)
  where
    all_new : (ls : List (Text × Text)) → AllNew ls []
    all_new [] = tt
    all_new ((k, v) ∷ ls) = (refl, all_new ls)

-- A configuration that its file can hold: the environment is one that `set_env` makes, the labels'
-- keys differ, and the numbers fit. `detach` is not written.
pub record IsStorable (c : ContainerConfig) : Type 0 where
  pub environment : IsEnvironment c.env
  pub resources_fit : IsStorableResources c.resources
  pub network_fit : IsStorableNetwork c.network
  pub user_fit : IsStorableUser c.security.user
  pub labels_differ : DistinctLabels c.labels
  pub attached : c.detach ≡ false

-- A configuration written as JSON is read back as it was.
pub config_of-config_json :
    (F : Floats) (c : ContainerConfig) → IsStorable c → config_of F (config_json c) ≡ ok c
unfolding config_of assemble config_json set_all set get as_str as_array as_bool strings codes
    text_eq set_field get_field
config_of-config_json F c v =
    rw
      (
        mounts_of-mounts_json c.mounts,
        resources_of-resources_json F c.resources v.resources_fit,
        network_of-network_json F c.network v.network_fit,
        security_of-security_json c.security v.user_fit,
        namespaces_of-namespaces_json c.namespaces,
        as_str-text_or_null c.name,
      )
      (same (texts_of (strings_items c.command))
        (set_envs (texts_of (strings_items c.env)) default_config.env)
        (pairs_of (some (set_labels c.labels empty_obj))) false (texts_of-strings_items c.command)
        (ap (λ env. set_envs env default_config.env) (texts_of-strings_items c.env)
          ∙ set_envs-IsEnvironment c.env v.environment)
        (pairs_of-set_labels c.labels v.labels_differ) (sym v.attached))
  where
    same :
        (command env : List Text) (labels : List (Text × Text)) (detach : Bool)
        → command ≡ c.command
        → env ≡ c.env
        → labels ≡ c.labels
        → detach ≡ c.detach
        → Path
            (Result ContainerConfig)
            (ok (record c { command = command; env = env; detach = detach; labels = labels }))
            (ok c)
    same command env labels detach p q r s = rw (p, q, r, s) refl

-- What is read from any JSON value has such an environment, and runs attached.
pub config_of-IsEnvironment :
    (F : Floats) (j : Json) (c : ContainerConfig) → config_of F j ≡ ok c → IsEnvironment c.env
unfolding config_of assemble
config_of-IsEnvironment F j c h =
    Ensures_ok (λ c. IsEnvironment c.env) (config_of F j) c
      (Ensures-chain (λ c. IsEnvironment c.env) _ _ _ _ (assemble j)
        (λ m r n s. env_of-IsEnvironment j))
      h
