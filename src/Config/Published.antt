-- ===== src/Config/Published.antt =====
-- src/config.rs: the published ports of a configuration that `finalize_and_validate` accepts.
use myrun.Prelude.{◌≡◌, Bool, false, ◌&&◌, ◌||◌, List, [], ◌∷◌, ◌++◌, arith, ◌==◌, ==_iff}
use myrun.Text.{text_eq}
use myrun.Text.Laws.{text_eq_iff}
use myrun.Error.{ok}
use myrun.Config.Ports.{PortMapping}
use myrun.Config.Validate.{seen_port, check_ports}

-- No mapping of the list has this one's host port and protocol.
abbrev pub Differs : PortMapping → List PortMapping → Type 0
Differs p [] = Unit {0}
Differs p (q ∷ ps) = (¬ ((p.host_port ≡ q.host_port) × (p.protocol ≡ q.protocol))) × Differs p ps

abbrev pub DistinctPorts : List PortMapping → Type 0
DistinctPorts [] = Unit {0}
DistinctPorts (p ∷ ps) = Differs p ps × DistinctPorts ps

abbrev Unseen : List PortMapping → List PortMapping → Type 0
Unseen seen [] = Unit {0}
Unseen seen (p ∷ ps) = (seen_port p seen ≡ false) × Unseen seen ps

abbrev same_port : PortMapping → PortMapping → Bool
same_port q p = q.host_port == p.host_port && text_eq q.protocol p.protocol

seen-append :
    (p q : PortMapping) (seen : List PortMapping)
    → seen_port p (seen ++ q ∷ []) ≡ (seen_port p seen || same_port q p)
unfolding seen_port
seen-append p q [] = ground arith
seen-append p q (r ∷ seen) = ground (arith, seen-append p q seen)

not_same :
    (p q : PortMapping)
    → same_port q p ≡ false
    → ¬ ((q.host_port ≡ p.host_port) × (q.protocol ≡ p.protocol))
not_same p q h (a, b) =
    ground (arith, h, (==_iff q.host_port p.host_port).1 a, (text_eq_iff q.protocol p.protocol).1 b)

split-Unseen :
    (q : PortMapping) (seen ps : List PortMapping)
    → Unseen (seen ++ q ∷ []) ps
    → Unseen seen ps × Differs q ps
split-Unseen q seen [] h = (tt, tt)
split-Unseen q seen (p ∷ ps) h =
    let (u, d) = split-Unseen q seen ps h.1 in
    let e = seen-append p q seen in
    ((ground (arith, e, h.0), u), (not_same p q (ground (arith, e, h.0)), d))

ports_ok :
    (seen ps : List PortMapping) → check_ports seen ps ≡ ok tt → Unseen seen ps × DistinctPorts ps
unfolding check_ports
ports_ok seen [] h = (tt, tt)
ports_ok seen (p ∷ ps) h =
    let rest : check_ports (seen ++ p ∷ []) ps ≡ ok tt = ground (arith, h) in
    let (u, d) = ports_ok (seen ++ p ∷ []) ps rest in
    let (v, e) = split-Unseen p seen ps u in ((ground (arith, h), v), (e, d))

-- The check passes only if no two mappings have the same host port and protocol.
pub check_ports_distinct : (ps : List PortMapping) → check_ports [] ps ≡ ok tt → DistinctPorts ps
check_ports_distinct ps h = (ports_ok [] ps h).1
