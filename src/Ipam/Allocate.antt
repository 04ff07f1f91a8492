-- ===== src/Ipam/Allocate.antt =====
-- src/runtime/ipam.rs: what `allocate` does to the leases.
use myrun.Prelude.{ℕ, ◌≡◌, ◌≢◌, Option, none, some, arith, Option-cases}
use myrun.Text.{Text}
use myrun.Error.{Result, ok, ◌>>=◌}
use myrun.Netlink.Address.{Ipv4}
use myrun.Netlink.Address.RoundTrip.{IsAddress}
use myrun.Ipam.{
  Leases, no_leases, to_json, from_json, LeaseFile, absent, blank, not_json, holds, Trouble, load,
  find_id, without,
}
use myrun.Ipam.Codec.{Addresses, from_json-to_json}
use myrun.Ipam.Entries.{Distinct, drop_id-Distinct, drop_id-Addresses}

-- The leases that a file stands for.
abbrev pub contents : LeaseFile → Leases
contents absent = no_leases
contents blank = no_leases
contents not_json = no_leases
contents (holds j) = from_json j

abbrev pub IsSound : Leases → Type 0
IsSound l = Distinct l.entries × Addresses l.entries

-- What a request for an address may hold.
abbrev pub IsRequest : Option Ipv4 → Type 0
IsRequest none = Unit {0}
IsRequest (some ip) = IsAddress ip

-- What a successful `allocate` leaves behind: the leases `new`, from the leases `old`.
pub record Granted (id : Text) (ip : Ipv4) (old new : Leases) : Type 0 where
  pub holds_it : find_id id new.entries ≡ some ip
  pub others : (j : Text) → j ≢ id → find_id j new.entries ≡ find_id j old.entries
  pub sound : IsSound new
  pub same_subnet : new.subnet ≡ old.subnet

pub contents_written : (l : Leases) → IsSound l → contents (holds (to_json l)) ≡ l
contents_written l s = from_json-to_json l s.1

pub IsSound-without : (id : Text) (l : Leases) → IsSound l → IsSound (without id l)
IsSound-without id l s = (drop_id-Distinct id l.entries s.0, drop_id-Addresses id l.entries s.1)

pub load-contents :
    (t : Trouble) (file : LeaseFile) (l : Leases) → load t file ≡ ok l → l ≡ contents file
unfolding load
load-contents t absent l e = ground arith
load-contents t blank l e = ground (arith, Option-cases t.reading)
load-contents t not_json l e = ground (arith, Option-cases t.reading)
load-contents t (holds j) l e = ground (arith, Option-cases t.reading)

unfoldable pub with_prefix : ℕ → LeaseFile × Result Ipv4 → LeaseFile × Result (Ipv4 × ℕ)
with_prefix p (file, r) = (file, r >>= λ ip. ok (ip, p))
