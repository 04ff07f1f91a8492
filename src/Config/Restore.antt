-- ===== src/Config/Restore.antt =====
-- src/config.rs: the parts of a configuration file, written and read back.
use myrun.Prelude.{
  ℕ, ◌-◌, ◌<◌, ◌^◌, ◌%◌, ◌≡◌, refl, ap, ◌∙◌, false, List, [], ◌∷◌, ◌++◌, Option, none, some, arith,
}
use myrun.Text.{Text, codes, text_eq, trim, trim_start, is_whitespace, to_ascii_lowercase}
use myrun.Text.Number.{show_nat, is_digit}
use myrun.Text.Laws.{trim-black, parse-show_nat, split_once-append, show_nat-black, show_nat-lacks}
use myrun.Error.{Result, ok, ◌>>=◌}
use myrun.Json.{set, get, as_str, as_f64, as_array, as_bool, set_field, get_field, strings}
use myrun.Json.Objects.{
  set_all, Small, as_u64-small, as_u64-number_or_null, as_str-text_or_null, number_or_null,
  cast_u16, texts_of-strings_items,
}
use myrun.Floats.{Floats, u64_of}
use myrun.Seccomp
use myrun.Seccomp.{SeccompMode, one_of}
use myrun.Config.{
  NetworkMode, isolated, bridged, shared, parse_mode, mode_name, Resources, NetworkConfig,
  SecurityConfig, parse_user, user_number, Namespaces,
}
use myrun.Config.Ports.{PortMapping, port_json, ports_json}
use myrun.Config.Mounts.{MountSpec, mount_json, mounts_json}
use myrun.Config.Codec.{
  resources_json, float_or_null, user_json, some_user, resources_of, size_of, num_or_size,
  network_json, network_of, mapping_of, mapping_fields, mappings_of, security_json, security_of,
  namespaces_json, namespaces_of,
}
use myrun.Config.Document.{mount_fields, mount_of, mounts_of}
use myrun.State.Network.{Ports}

ruleset fields = (as_str-text_or_null, as_u64-number_or_null, texts_of-strings_items)

-- Sizes that an `i64` holds.
abbrev pub IsStorableResources : Resources → Type 0
IsStorableResources r = Small r.memory × Small r.memory_swap × Small r.cpu_weight × Small r.pids

size_of-number_or_null : (F : Floats) (o : Option ℕ) → Small o → size_of F (number_or_null o) ≡ ok o
unfolding size_of
size_of-number_or_null F none h = refl
size_of-number_or_null F (some n) h = rw (as_u64-small (u64_of F) n h) refl

as_f64-float_or_null : (of_int : ℕ → ℕ) (o : Option ℕ) → as_f64 of_int (float_or_null o) ≡ o
unfolding as_f64
as_f64-float_or_null of_int none = refl
as_f64-float_or_null of_int (some x) = refl

pub resources_of-resources_json :
    (F : Floats) (r : Resources) → IsStorableResources r → resources_of F (resources_json r) ≡ ok r
unfolding resources_of resources_json num_or_size set_all set get codes text_eq set_field get_field
resources_of-resources_json F r (a, b, c, d) =
    rw
      (
        size_of-number_or_null F r.memory a,
        size_of-number_or_null F r.memory_swap b,
        as_f64-float_or_null (Floats.of_i64 F) r.cpus,
        as_u64-number_or_null (u64_of F) r.cpu_weight c,
        as_u64-number_or_null (u64_of F) r.pids d,
      )
      refl

parse_mode-mode_name : (m : NetworkMode) → parse_mode (mode_name m) ≡ ok m
unfolding parse_mode mode_name codes text_eq trim trim_start is_whitespace to_ascii_lowercase
parse_mode-mode_name isolated = refl
parse_mode-mode_name bridged = refl
parse_mode-mode_name shared = refl

parse-as_str : (m : SeccompMode) → Seccomp.parse (Seccomp.as_str m) ≡ ok m
unfolding Seccomp.parse Seccomp.as_str one_of codes text_eq trim trim_start is_whitespace
    to_ascii_lowercase
parse-as_str Seccomp.unconfined = refl
parse-as_str Seccomp.default = refl
parse-as_str Seccomp.strict = refl

mapping_of-port_json :
    (F : Floats) (p : PortMapping)
    → p.host_port < 2 ^ 16
    → p.container_port < 2 ^ 16
    → mapping_of F (port_json p) ≡ ok p
unfolding mapping_of mapping_fields port_json set get as_str codes text_eq set_field get_field
mapping_of-port_json F p h c =
    rw
      (
        as_u64-small (u64_of F) p.host_port (omega arith),
        as_u64-small (u64_of F) p.container_port (omega arith),
      )
      (let a = cast_u16 p.host_port h in let b = cast_u16 p.container_port c in rw (a, b) refl)

mappings_of-ports_json :
    (F : Floats) (ps : List PortMapping) → Ports ps → mappings_of F (ports_json ps) ≡ ok ps
unfolding mappings_of ports_json
mappings_of-ports_json F [] v = refl
mappings_of-ports_json F (p ∷ ps) v =
    rw (mapping_of-port_json F p v.0 v.1, mappings_of-ports_json F ps v.2) refl

cast_u32 : (n : ℕ) → n < 2 ^ 32 → n % 2 ^ 32 ≡ n
cast_u32 n h = omega arith

-- The numbers fit their machine types.
abbrev pub IsStorableNetwork : NetworkConfig → Type 0
IsStorableNetwork n = (n.mtu < 2 ^ 32) × Ports n.publish

pub network_of-network_json :
    (F : Floats) (n : NetworkConfig) → IsStorableNetwork n → network_of F (network_json n) ≡ ok n
unfolding network_of network_json strings set_all set get as_str as_array as_bool codes text_eq
    set_field get_field
network_of-network_json F n (m, v) =
    rw
      (
        parse_mode-mode_name n.mode,
        mappings_of-ports_json F n.publish v,
        as_str-text_or_null n.ip,
        as_str-text_or_null n.gateway,
        as_u64-small (u64_of F) n.mtu (omega arith),
        texts_of-strings_items n.dns,
      )
      (let e = cast_u32 n.mtu m in rw e refl)

abbrev pub IsStorableUser : Option (ℕ × ℕ) → Type 0
IsStorableUser none = Unit {0}
IsStorableUser (some u) = (u.0 < 2 ^ 32) × (u.1 < 2 ^ 32)

trim-show_nat : (n : ℕ) → trim (show_nat n) ≡ show_nat n
trim-show_nat n = trim-black (show_nat n) (show_nat-black n)

colon_no_digit : is_digit b':' ≡ false
unfolding is_digit
colon_no_digit = refl

parse_user-shown :
    (u g : ℕ) → u < 2 ^ 32 → g < 2 ^ 32 → parse_user (show_nat u ++ b':' ∷ show_nat g) ≡ ok (u, g)
unfolding parse_user
parse_user-shown u g hu hg =
    ap read_user
      (split_once-append b':' (show_nat u) (show_nat g) (show_nat-lacks b':' u colon_no_digit))
    ∙ rw
        (
          trim-show_nat u,
          trim-show_nat g,
          parse-show_nat (2 ^ 32 - 1) u (omega arith),
          parse-show_nat (2 ^ 32 - 1) g (omega arith),
        )
        refl
  where
    shown : Text
    shown = show_nat u ++ b':' ∷ show_nat g

    read_user : Option (Text × Text) → Result (ℕ × ℕ)
    read_user o = elim o [
      | none ↦ (do uid ← user_number shown shown; ok (uid, uid))
      | some (u, g) ↦ (do uid ← user_number u shown; gid ← user_number g shown; ok (uid, gid))
    ]

security_user :
    (o : Option (ℕ × ℕ))
    → IsStorableUser o
    → elim (as_str (user_json o)) [ none ↦ ok none | some u ↦ some_user u ] ≡ ok o
unfolding as_str
security_user none h = refl
security_user (some (u, g)) h = rw (parse_user-shown u g h.0 h.1) refl

pub security_of-security_json :
    (s : SecurityConfig) → IsStorableUser s.user → security_of (security_json s) ≡ ok s
unfolding security_of security_json strings set_all set get as_str as_array as_bool codes text_eq
    set_field get_field
security_of-security_json s h =
    rw
      (
        parse-as_str s.seccomp,
        texts_of-strings_items s.cap_add,
        texts_of-strings_items s.cap_drop,
        texts_of-strings_items s.masked_paths,
        texts_of-strings_items s.readonly_paths,
      )
      (ap (λ r. r >>= λ user. ok record s { user = user }) (security_user s.user h))

pub namespaces_of-namespaces_json : (n : Namespaces) → namespaces_of (namespaces_json n) ≡ n
unfolding namespaces_of namespaces_json set_all set get as_bool codes text_eq set_field get_field
namespaces_of-namespaces_json n = refl

mount_of-mount_json : (m : MountSpec) → mount_of (mount_json m) ≡ ok m
unfolding mount_of mount_fields mount_json set_all set get as_str as_bool codes text_eq set_field
    get_field
mount_of-mount_json m = refl

pub mounts_of-mounts_json : (ms : List MountSpec) → mounts_of (mounts_json ms) ≡ ok ms
unfolding mounts_of mounts_json
mounts_of-mounts_json [] = refl
mounts_of-mounts_json (m ∷ ms) = rw (mount_of-mount_json m, mounts_of-mounts_json ms) refl
