-- ===== src/Ipam/Codec.antt =====
-- src/runtime/ipam.rs: the lease file, written and read.
use myrun.Prelude.{◌≡◌, refl, List, [], ◌∷◌}
use myrun.Text.{codes, text_eq}
use myrun.Json.{set, get, as_str, as_array, set_field, get_field}
use myrun.Netlink.Address.RoundTrip.{IsAddress, parse-format_ipv4}
use myrun.Ipam.{Lease, Leases, lease_json, entries_json, to_json, entry_of, entries_of, from_json}

-- Every leased address is made of bytes.
abbrev pub Addresses : List Lease → Type 0
Addresses [] = Unit {0}
Addresses (l ∷ ls) = IsAddress l.ip × Addresses ls

entry_of-lease_json : (l : Lease) → IsAddress l.ip → entry_of (lease_json l) ≡ l ∷ []
unfolding entry_of lease_json set get as_str codes text_eq set_field get_field
entry_of-lease_json l v = rw (parse-format_ipv4 l.ip v, entry_of)

entries_of-entries_json : (ls : List Lease) → Addresses ls → entries_of (entries_json ls) ≡ ls
unfolding entries_of entries_json
entries_of-entries_json [] v = refl
entries_of-entries_json (l ∷ ls) v = rw (entry_of-lease_json l v.0, entries_of-entries_json ls v.1)

-- Leases whose addresses are made of bytes are read back unchanged from their JSON.
pub from_json-to_json : (l : Leases) → Addresses l.entries → from_json (to_json l) ≡ l
unfolding from_json to_json set get as_str as_array codes text_eq set_field get_field
from_json-to_json l v = rw (entries_of-entries_json l.entries v)
