-- ===== src/State/Network.antt =====
-- src/runtime/state.rs: the network part of a state file.
-- The conversion of a JSON float to an integer is the language's, and an argument.
use myrun.Prelude.{or_else, ◌>>=?◌, ℕ, ◌%◌, ◌^◌, ◌<◌, ◌≡◌, refl, List, [], ◌∷◌, Option, some, arith}
use myrun.Text.{codes, text_eq}
use myrun.Json.{Json, Items, empty_obj, set, get, as_str, as_array, as_u64, set_field, get_field}
use myrun.Json.Objects.{text_or_null, as_str-text_or_null, as_u64-small, cast_u16}
use myrun.Config.Ports.{PortMapping, port_json, ports_json}
use myrun.State.{NetworkState}

unfoldable pub network_json : NetworkState → Json
network_json n = set (codes "published") (Json.arr (ports_json n.published)) (
    set (codes "gateway") (text_or_null n.gateway) (
      set (codes "prefix") (Json.int n.prefix) (
        set (codes "ip") (text_or_null n.ip) (
          set (codes "container_veth") (text_or_null n.container_veth) (
            set (codes "host_veth") (text_or_null n.host_veth) (
              set (codes "bridge") (text_or_null n.bridge)
                (set (codes "mode") (Json.str n.mode) empty_obj)))))))

module _ (of_float : ℕ → Option ℕ) where
  unfoldable pub port_of : Json → PortMapping
  port_of j = record {
    host_port = or_else (get j (codes "host_port") >>=? as_u64 of_float) 0 % 2 ^ 16;
    container_port = or_else (get j (codes "container_port") >>=? as_u64 of_float) 0 % 2 ^ 16;
    protocol = or_else (get j (codes "protocol") >>=? as_str) (codes "tcp");
  }

  unfoldable pub ports_of : Items → List PortMapping
  ports_of Items.nil = []
  ports_of (Items.cons j js) = port_of j ∷ ports_of js

  unfoldable pub network_of : Json → NetworkState
  network_of j = record {
    mode = or_else (get j (codes "mode") >>=? as_str) (codes "none");
    bridge = get j (codes "bridge") >>=? as_str;
    host_veth = get j (codes "host_veth") >>=? as_str;
    container_veth = get j (codes "container_veth") >>=? as_str;
    ip = get j (codes "ip") >>=? as_str;
    prefix = or_else (get j (codes "prefix") >>=? as_u64 of_float) 24 % 2 ^ 8;
    gateway = get j (codes "gateway") >>=? as_str;
    published = or_else (get j (codes "published") >>=? as_array >>=? λ a. some (ports_of a)) [];
  }

-- The numbers fit their machine types.
abbrev pub Ports : List PortMapping → Type 0
Ports [] = Unit {0}
Ports (p ∷ ps) = (p.host_port < 2 ^ 16) × (p.container_port < 2 ^ 16) × Ports ps

cast_u8 : (n : ℕ) → n < 2 ^ 8 → n % 2 ^ 8 ≡ n
cast_u8 n h = omega arith

module _ (of_float : ℕ → Option ℕ) where
  port_of-port_json :
      (p : PortMapping)
      → p.host_port < 2 ^ 16
      → p.container_port < 2 ^ 16
      → port_of of_float (port_json p) ≡ p
  unfolding port_of port_json set get as_str codes text_eq set_field get_field
  port_of-port_json p h c =
      rw
        (
          as_u64-small of_float p.host_port (omega arith),
          as_u64-small of_float p.container_port (omega arith),
        )
        (let a = cast_u16 p.host_port h in let b = cast_u16 p.container_port c in rw (a, b) refl)

  ports_of-ports_json : (ps : List PortMapping) → Ports ps → ports_of of_float (ports_json ps) ≡ ps
  unfolding ports_of ports_json
  ports_of-ports_json [] v = refl
  ports_of-ports_json (p ∷ ps) v = rw (port_of-port_json p v.0 v.1, ports_of-ports_json ps v.2) refl

  -- The network part of a state file reads back as what was written, its numbers being in range.
  pub network_of-network_json :
      (n : NetworkState)
      → n.prefix < 2 ^ 8
      → Ports n.published
      → network_of of_float (network_json n) ≡ n
  unfolding network_of network_json set get as_str as_array codes text_eq set_field get_field
  network_of-network_json n h v =
      rw
        (
          as_str-text_or_null n.bridge,
          as_str-text_or_null n.host_veth,
          as_str-text_or_null n.container_veth,
          as_str-text_or_null n.ip,
          as_str-text_or_null n.gateway,
          as_u64-small of_float n.prefix (omega arith),
          ports_of-ports_json n.published v,
        )
        (let e = cast_u8 n.prefix h in rw e refl)
