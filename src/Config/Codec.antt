-- ===== src/Config/Codec.antt =====
-- src/config.rs: the parts of a configuration as JSON values and back, `to_json` and `from_json`
-- of each.
use myrun.Prelude.{ℕ, ◌^◌, ◌%◌, List, [], ◌∷◌, ◌++◌, Option, none, some, ◌>>=?◌, or_else, or_option}
use myrun.Text.{Text, codes}
use myrun.Text.Number.{show_nat}
use myrun.Error.{Error, Result, ok, ◌>>=◌, or_fail, plain}
use myrun.Json.{Json, Items, empty_obj, get, as_str, as_u64, as_f64, strings}
use myrun.Json.Objects.{
  text_or_null, number_or_null, set_all, text_at, bool_at, array_at, u64_at, texts_of,
}
use myrun.Floats.{Floats, u64_of}
use myrun.Util.Size.{parse_size}
use myrun.Seccomp
use myrun.Config.{
  NetworkMode, isolated, parse_mode, mode_name, Resources, NetworkConfig, default_network,
  SecurityConfig, default_security, parse_user, Namespaces, all_namespaces,
}
use myrun.Config.Ports
use myrun.Config.Ports.{PortMapping, ports_json}

abbrev pub float_or_null : Option ℕ → Json
float_or_null none = Json.null
float_or_null (some x) = Json.float x

unfoldable pub resources_json : Resources → Json
resources_json r =
    set_all
      ((codes "memory", number_or_null r.memory)
        ∷ (codes "memory_swap", number_or_null r.memory_swap)
        ∷ (codes "cpus", float_or_null r.cpus)
        ∷ (codes "cpu_weight", number_or_null r.cpu_weight)
        ∷ (codes "pids", number_or_null r.pids)
        ∷ [])
      empty_obj

unfoldable pub size_of : Floats → Json → Result (Option ℕ)
size_of F Json.null = ok none
size_of F (Json.str s) = parse_size F s
size_of F v = ok (as_u64 (u64_of F) v)

-- the closure `num_or_size`
unfoldable pub num_or_size : Floats → Json → Text → Result (Option ℕ)
unfolding size_of
num_or_size F j key = elim (get j key) [ none ↦ ok none | some v ↦ size_of F v ]

unfoldable pub resources_of : Floats → Json → Result Resources
unfolding num_or_size
resources_of F j = do
  memory ← num_or_size F j (codes "memory")
  memory_swap ← num_or_size F j (codes "memory_swap")
  ok record {
    memory = memory;
    memory_swap = memory_swap;
    cpus = get j (codes "cpus") >>=? as_f64 (Floats.of_i64 F);
    cpu_weight = u64_at (u64_of F) j (codes "cpu_weight");
    pids = u64_at (u64_of F) j (codes "pids");
  }

unfoldable pub network_json : NetworkConfig → Json
network_json n =
    set_all
      ((codes "mode", Json.str (mode_name n.mode))
        ∷ (codes "bridge", Json.str n.bridge)
        ∷ (codes "subnet", Json.str n.subnet)
        ∷ (codes "ip", text_or_null n.ip)
        ∷ (codes "gateway", text_or_null n.gateway)
        ∷ (codes "mtu", Json.int n.mtu)
        ∷ (codes "publish", Json.arr (ports_json n.publish))
        ∷ (codes "nat", Json.bool n.nat)
        ∷ (codes "dns", strings n.dns)
        ∷ [])
      empty_obj

-- `p.get(first).or_else(|| p.get(second)).and_then(as_u64)`
abbrev port_at : Floats → Json → Text → Text → Option ℕ
port_at F p first second = or_option (get p first) (get p second) >>=? as_u64 (u64_of F)

-- An entry of `publish` that is no text.
unfoldable pub mapping_fields : Floats → Json → Result PortMapping
mapping_fields F p = do
  host ←
      or_fail (port_at F p (codes "host") (codes "host_port"))
        (Error.config (plain "publish entry needs a host port"))
  container ←
      or_fail (port_at F p (codes "container") (codes "container_port"))
        (Error.config (plain "publish entry needs a container port"))
  ok record {
    host_port = host % 2 ^ 16;
    container_port = container % 2 ^ 16;
    protocol = or_else (text_at p (codes "protocol")) (codes "tcp");
  }

unfoldable pub mapping_of : Floats → Json → Result PortMapping
unfolding mapping_fields
mapping_of F p = elim (as_str p) [ some s ↦ Ports.parse s | none ↦ mapping_fields F p ]

unfoldable pub mappings_of : Floats → Items → Result (List PortMapping)
unfolding mapping_of
mappings_of F Items.nil = ok []
mappings_of F (Items.cons p ps) = do m ← mapping_of F p; ms ← mappings_of F ps; ok (m ∷ ms)

-- A field that is absent keeps the default.
abbrev texts_at : Json → Text → List Text → List Text
texts_at j key current = elim (array_at j key) [ none ↦ current | some a ↦ texts_of a ]

abbrev mode_at : Json → Result NetworkMode
mode_at j = elim (text_at j (codes "mode")) [ none ↦ ok isolated | some m ↦ parse_mode m ]

unfoldable pub network_of : Floats → Json → Result NetworkConfig
unfolding mappings_of
network_of F j = do
  mode ← mode_at j
  publish ← elim (array_at j (codes "publish")) [ none ↦ ok [] | some a ↦ mappings_of F a ]
  ok record {
    mode = mode;
    bridge = or_else (text_at j (codes "bridge")) default_network.bridge;
    subnet = or_else (text_at j (codes "subnet")) default_network.subnet;
    ip = text_at j (codes "ip");
    gateway = text_at j (codes "gateway");
    mtu = elim (u64_at (u64_of F) j (codes "mtu")) [
      | none ↦ default_network.mtu
      | some v ↦ v % 2 ^ 32
    ];
    publish = publish;
    nat = or_else (bool_at j (codes "nat")) default_network.nat;
    dns = texts_at j (codes "dns") default_network.dns;
  }

-- `{}:{}`
abbrev pub user_json : Option (ℕ × ℕ) → Json
user_json none = Json.null
user_json (some u) = Json.str (show_nat u.0 ++ b':' ∷ show_nat u.1)

unfoldable pub security_json : SecurityConfig → Json
security_json s =
    set_all
      ((codes "no_new_privs", Json.bool s.no_new_privs)
        ∷ (codes "cap_add", strings s.cap_add)
        ∷ (codes "cap_drop", strings s.cap_drop)
        ∷ (codes "seccomp", Json.str (Seccomp.as_str s.seccomp))
        ∷ (codes "masked_paths", strings s.masked_paths)
        ∷ (codes "readonly_paths", strings s.readonly_paths)
        ∷ (codes "user", user_json s.user)
        ∷ (codes "privileged", Json.bool s.privileged)
        ∷ [])
      empty_obj

abbrev pub some_user : Text → Result (Option (ℕ × ℕ))
some_user s = do u ← parse_user s; ok (some u)

unfoldable pub security_of : Json → Result SecurityConfig
security_of j = do
  seccomp ← elim (text_at j (codes "seccomp")) [
    | none ↦ ok default_security.seccomp
    | some m ↦ Seccomp.parse m
  ]
  user ← elim (text_at j (codes "user")) [ none ↦ ok none | some u ↦ some_user u ]
  ok record {
    no_new_privs = or_else (bool_at j (codes "no_new_privs")) default_security.no_new_privs;
    cap_add = texts_at j (codes "cap_add") default_security.cap_add;
    cap_drop = texts_at j (codes "cap_drop") default_security.cap_drop;
    seccomp = seccomp;
    masked_paths = texts_at j (codes "masked_paths") default_security.masked_paths;
    readonly_paths = texts_at j (codes "readonly_paths") default_security.readonly_paths;
    user = user;
    privileged = or_else (bool_at j (codes "privileged")) default_security.privileged;
  }

unfoldable pub namespaces_json : Namespaces → Json
namespaces_json n =
    set_all
      ((codes "pid", Json.bool n.pid)
        ∷ (codes "mount", Json.bool n.mount)
        ∷ (codes "uts", Json.bool n.uts)
        ∷ (codes "ipc", Json.bool n.ipc)
        ∷ (codes "net", Json.bool n.net)
        ∷ (codes "cgroup", Json.bool n.cgroup)
        ∷ [])
      empty_obj

unfoldable pub namespaces_of : Json → Namespaces
namespaces_of j = record {
  pid = or_else (bool_at j (codes "pid")) all_namespaces.pid;
  mount = or_else (bool_at j (codes "mount")) all_namespaces.mount;
  uts = or_else (bool_at j (codes "uts")) all_namespaces.uts;
  ipc = or_else (bool_at j (codes "ipc")) all_namespaces.ipc;
  net = or_else (bool_at j (codes "net")) all_namespaces.net;
  cgroup = or_else (bool_at j (codes "cgroup")) all_namespaces.cgroup;
}
