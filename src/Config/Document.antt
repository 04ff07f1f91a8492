-- ===== src/Config/Document.antt =====
-- src/config.rs: `ContainerConfig::from_json` and `ContainerConfig::to_json`.
use myrun.Prelude.{false, List, [], ◌∷◌, ◌++◌, Option, none, some, ◌>>=?◌, or_else, or_option}
use myrun.Text.{Text, codes}
use myrun.Error.{Error, Result, ok, ◌>>=◌, or_fail, plain}
use myrun.Json.{Json, Items, Fields, empty_obj, get, set, as_str, strings}
use myrun.Json.Objects.{text_or_null, set_all, text_at, bool_at, array_at, texts_of}
use myrun.Floats.{Floats}
use myrun.Config.{
  Resources, NetworkConfig, SecurityConfig, ContainerConfig, default_config, set_env,
}
use myrun.Config.Mounts
use myrun.Config.Mounts.{MountSpec, mounts_json}
use myrun.Config.Codec.{
  resources_json, resources_of, network_json, network_of, security_json, security_of,
  namespaces_json, namespaces_of,
}

-- The fields of a labels object, set in turn.
unfoldable pub set_labels : List (Text × Text) → Json → Json
set_labels [] o = o
set_labels ((k, v) ∷ rest) o = set_labels rest (set k (Json.str v) o)

unfoldable pub config_json : ContainerConfig → Json
unfolding set_labels
config_json c =
    set_all
      ((codes "id", Json.str c.id)
        ∷ (codes "name", text_or_null c.name)
        ∷ (codes "rootfs", Json.str c.rootfs)
        ∷ (codes "command", strings c.command)
        ∷ (codes "env", strings c.env)
        ∷ (codes "cwd", Json.str c.cwd)
        ∷ (codes "hostname", Json.str c.hostname)
        ∷ (codes "read_only", Json.bool c.read_only)
        ∷ (codes "auto_remove", Json.bool c.auto_remove)
        ∷ (codes "mounts", Json.arr (mounts_json c.mounts))
        ∷ (codes "resources", resources_json c.resources)
        ∷ (codes "network", network_json c.network)
        ∷ (codes "security", security_json c.security)
        ∷ (codes "namespaces", namespaces_json c.namespaces)
        ∷ (codes "labels", set_labels c.labels empty_obj)
        ∷ [])
      empty_obj

-- A bare string is one argument.
unfoldable pub command_of : Json → List Text
command_of j = elim (array_at j (codes "command")) [
  | some a ↦ texts_of a
  | none ↦ elim (text_at j (codes "command")) [ none ↦ default_config.command | some s ↦ s ∷ [] ]
]

-- `set_env` of each text, in turn
unfoldable pub set_envs : List Text → List Text → List Text
set_envs [] env = env
set_envs (kv ∷ rest) env = set_envs rest (set_env kv env)

abbrev cons_pair : Text → Option Text → List (Text × Text) → List (Text × Text)
cons_pair k none rest = rest
cons_pair k (some v) rest = (k, v) ∷ rest

-- The fields of an object that are texts, in order.
unfoldable pub text_pairs : Fields → List (Text × Text)
text_pairs Fields.end = []
text_pairs (Fields.field k v m) = cons_pair k (as_str v) (text_pairs m)

unfoldable pub pairs_of : Option Json → List (Text × Text)
unfolding text_pairs
pairs_of (some (Json.obj m)) = text_pairs m
pairs_of (some Json.null) = []
pairs_of _ = []

unfoldable pub set_environment : List (Text × Text) → List Text → List Text
set_environment [] env = env
set_environment ((k, v) ∷ rest) env = set_environment rest (set_env (k ++ b'=' ∷ v) env)

unfoldable pub env_of : Json → List Text
unfolding set_envs set_environment pairs_of
env_of j =
    set_environment (pairs_of (get j (codes "environment"))) (elim (array_at j (codes "env")) [
      | none ↦ default_config.env
      | some a ↦ set_envs (texts_of a) default_config.env
    ])

abbrev cwd_of : Json → Text
cwd_of j =
    or_else (or_option (get j (codes "cwd")) (get j (codes "workdir")) >>=? as_str)
      default_config.cwd

-- A mount entry that is no text.
unfoldable pub mount_fields : Json → Result MountSpec
mount_fields m = do
  source ← or_fail (text_at m (codes "source")) (Error.config (plain "mount entry needs a source"))
  destination ←
      or_fail (text_at m (codes "destination"))
        (Error.config (plain "mount entry needs a destination"))
  ok record {
    source = source;
    destination = destination;
    fstype = or_else (text_at m (codes "type")) (codes "bind");
    readonly = or_else (bool_at m (codes "readonly")) false;
  }

unfoldable pub mount_of : Json → Result MountSpec
unfolding mount_fields
mount_of m = elim (as_str m) [ some s ↦ Mounts.parse s | none ↦ mount_fields m ]

unfoldable pub mounts_of : Items → Result (List MountSpec)
unfolding mount_of
mounts_of Items.nil = ok []
mounts_of (Items.cons m ms) = do x ← mount_of m; xs ← mounts_of ms; ok (x ∷ xs)

-- A part that is absent is the default's.
abbrev part_at {ℓ} : {A : Type ℓ} → (Json → Result A) → A → Json → Text → Result A
part_at of_json current j key = elim (get j key) [ none ↦ ok current | some v ↦ of_json v ]

-- The configuration whose parts have been read.
unfoldable pub assemble :
    Json → List MountSpec → Resources → NetworkConfig → SecurityConfig → ContainerConfig
unfolding command_of env_of pairs_of
assemble j mounts resources network security = record {
  id = or_else (text_at j (codes "id")) default_config.id;
  name = text_at j (codes "name");
  rootfs = or_else (text_at j (codes "rootfs")) default_config.rootfs;
  command = command_of j;
  env = env_of j;
  cwd = cwd_of j;
  hostname = or_else (text_at j (codes "hostname")) default_config.hostname;
  read_only = or_else (bool_at j (codes "read_only")) default_config.read_only;
  mounts = mounts;
  resources = resources;
  network = network;
  security = security;
  namespaces = elim (get j (codes "namespaces")) [
    | none ↦ default_config.namespaces
    | some v ↦ namespaces_of v
  ];
  detach = default_config.detach;
  auto_remove = or_else (bool_at j (codes "auto_remove")) default_config.auto_remove;
  labels = pairs_of (get j (codes "labels"));
}

-- `ContainerConfig::from_json`
unfoldable pub config_of : Floats → Json → Result ContainerConfig
unfolding mounts_of assemble
config_of F j = do
  mounts ← elim (array_at j (codes "mounts")) [ none ↦ ok [] | some a ↦ mounts_of a ]
  resources ← part_at (resources_of F) default_config.resources j (codes "resources")
  network ← part_at (network_of F) default_config.network j (codes "network")
  security ← part_at security_of default_config.security j (codes "security")
  ok (assemble j mounts resources network security)
