-- ===== src/Config/Ports.antt =====
-- src/config.rs: `PortMapping`.
use myrun.Prelude.{ℕ, ◌||◌, not, ◌&&◌, List, [], ◌∷◌, none, some, ◌==◌, if◌then◌else◌, or_else}
use myrun.Text.{Text, codes, text_eq, trim, split_once, to_ascii_lowercase}
use myrun.Text.Number.{parse_uint}
use myrun.Error.{Error, Result, ok, err, ◌>>=◌, or_fail, plain, lit, quoted}
use myrun.Json.{Json, Items, empty_obj, set}

pub record PortMapping : Type 0 where
  pub host_port : ℕ
  pub container_port : ℕ
  pub protocol : Text

-- The two sides of the first separator; without one, `fallback`.
abbrev sides : ℕ → Text → Text × Text → Text × Text
sides sep s fallback = or_else (split_once sep s) fallback

abbrev port : Text → Text → Error → Result ℕ
port p s e = or_fail (parse_uint 65535 (trim p)) e

-- The mapping of `spec`, once the protocol is known.
unfoldable pub parse_spec : Text → Text → Text → Result PortMapping
parse_spec s spec protocol =
    let parts = sides b':' spec (spec, spec) in
    if not (text_eq protocol (codes "tcp")) && not (text_eq protocol (codes "udp"))
    then err (
        Error.config
          (lit "unsupported protocol " ∷ quoted protocol ∷ lit " in port mapping " ∷ quoted s ∷ []))
    else do
      h ← port parts.0 s (Error.config (lit "invalid host port in " ∷ quoted s ∷ []))
      c ← port parts.1 s (Error.config (lit "invalid container port in " ∷ quoted s ∷ []))
      if h == 0 || c == 0
          then err (Error.config (plain "port 0 is not valid in a mapping"))
          else ok record { host_port = h; container_port = c; protocol = protocol }

unfoldable pub parse : Text → Result PortMapping
unfolding parse_spec
parse s = elim (split_once b'/' s) [
  | none ↦ parse_spec s s (codes "tcp")
  | some (a, p) ↦ parse_spec s a (to_ascii_lowercase p)
]

unfoldable pub port_json : PortMapping → Json
port_json p = set (codes "protocol") (Json.str p.protocol) (
    set (codes "container_port") (Json.int p.container_port)
      (set (codes "host_port") (Json.int p.host_port) empty_obj))

unfoldable pub ports_json : List PortMapping → Items
ports_json [] = Items.nil
ports_json (p ∷ ps) = Items.cons (port_json p) (ports_json ps)
