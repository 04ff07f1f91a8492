-- ===== src/Rules/Wanted.antt =====
-- src/runtime/nat.rs: the rules that a published port and a bridge need, written out word by word.
use myrun.Prelude.{List, [], ◌∷◌, ◌++◌}
use myrun.Text.{Text, codes}
use myrun.Text.Number.{show_nat}
use myrun.Config.Ports.{PortMapping}
use myrun.Netlink.Address.{Ipv4, format_ipv4}

-- The comment at the end of a rule of `id`.
abbrev remark : Text → List Text
remark id = codes "-m" ∷ codes "comment" ∷ codes "--comment" ∷ (codes "myrun:" ++ id) ∷ []

-- The rules of a published port.
abbrev pub sends_on : Text → Ipv4 → PortMapping → Text × List Text
sends_on id ip m = (
  codes "nat",
  codes "MYRUN-PRE"
      ∷ codes "-p"
      ∷ m.protocol
      ∷ codes "--dport"
      ∷ show_nat m.host_port
      ∷ codes "-j"
      ∷ codes "DNAT"
      ∷ codes "--to-destination"
      ∷ (format_ipv4 ip ++ b':' ∷ show_nat m.container_port)
      ∷ remark id,
)

abbrev pub loops_back : Text → Ipv4 → PortMapping → Text × List Text
loops_back id ip m = (
  codes "nat",
  codes "MYRUN-POST"
      ∷ codes "-s"
      ∷ format_ipv4 ip
      ∷ codes "-d"
      ∷ format_ipv4 ip
      ∷ codes "-p"
      ∷ m.protocol
      ∷ codes "--dport"
      ∷ show_nat m.container_port
      ∷ codes "-j"
      ∷ codes "MASQUERADE"
      ∷ remark id,
)

abbrev pub lets_in : Text → Text → Ipv4 → PortMapping → Text × List Text
lets_in id bridge ip m = (
  codes "filter",
  codes "MYRUN-FWD"
      ∷ codes "-o"
      ∷ bridge
      ∷ codes "-d"
      ∷ format_ipv4 ip
      ∷ codes "-p"
      ∷ m.protocol
      ∷ codes "--dport"
      ∷ show_nat m.container_port
      ∷ codes "-j"
      ∷ codes "ACCEPT"
      ∷ remark id,
)

-- The rules of a bridge.
abbrev pub goes_out : Text → Text → Text × List Text
goes_out bridge subnet = (
  codes "nat",
  codes "MYRUN-POST"
      ∷ codes "-s"
      ∷ subnet
      ∷ codes "!"
      ∷ codes "-o"
      ∷ bridge
      ∷ codes "-j"
      ∷ codes "MASQUERADE"
      ∷ remark (codes "base"),
)

abbrev pub from_loopback : Text → Text × List Text
from_loopback bridge = (
  codes "nat",
  codes "MYRUN-POST"
      ∷ codes "-s"
      ∷ codes "127.0.0.0/8"
      ∷ codes "-o"
      ∷ bridge
      ∷ codes "-j"
      ∷ codes "MASQUERADE"
      ∷ remark (codes "base"),
)

-- Forwarding that is accepted between interfaces that `ways` selects.
abbrev accepted : List Text → Text × List Text
accepted ways = (
  codes "filter",
  codes "MYRUN-FWD" ∷ (ways ++ codes "-j" ∷ codes "ACCEPT" ∷ remark (codes "base")),
)

abbrev pub opens : Text → Text × List Text
opens bridge = accepted (codes "-i" ∷ bridge ∷ codes "!" ∷ codes "-o" ∷ bridge ∷ [])

abbrev pub answers : Text → Text × List Text
answers bridge = accepted (
    codes "-o"
    ∷ bridge
    ∷ codes "-m"
    ∷ codes "conntrack"
    ∷ codes "--ctstate"
    ∷ codes "RELATED,ESTABLISHED"
    ∷ [])

abbrev pub stays_in : Text → Text × List Text
stays_in bridge = accepted (codes "-i" ∷ bridge ∷ codes "-o" ∷ bridge ∷ [])
