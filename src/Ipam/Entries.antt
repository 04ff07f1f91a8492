-- ===== src/Ipam/Entries.antt =====
-- src/runtime/ipam.rs: the list of leases.
use myrun.Prelude.{
  ◌≡◌, refl, true, false, ◌||◌, List, [], ◌∷◌, ◌++◌, none, some, arith, if◌then◌else◌,
}
use myrun.Text.{Text, text_eq}
use myrun.Text.Laws.{text_eq_iff}
use myrun.Netlink.Address.{Ipv4, ipv4_eq}
use myrun.Netlink.Address.RoundTrip.{IsAddress, ipv4_eq_iff}
use myrun.Ipam.{Lease, is_taken, find_id, drop_id}
use myrun.Ipam.Codec.{Addresses}

-- No address is leased twice, no container holds two leases, and every address is one.
abbrev pub Distinct : List Lease → Type 0
Distinct [] = Unit {0}
Distinct (l ∷ ls) = (is_taken l.ip ls ≡ false) × (find_id l.id ls ≡ none) × Distinct ls

-- Dropping leases leaves the rest as it was.
pub is_taken-drop_id :
    (ip : Ipv4) (id : Text) (ls : List Lease)
    → is_taken ip ls ≡ false
    → is_taken ip (drop_id id ls) ≡ false
unfolding is_taken drop_id
is_taken-drop_id ip id [] h = refl
is_taken-drop_id ip id (l ∷ ls) h = ground (arith, is_taken-drop_id ip id ls)

pub find_id-drop_id :
    (j id : Text) (ls : List Lease)
    → find_id j (drop_id id ls) ≡ (if text_eq id j then none else find_id j ls)
unfolding find_id drop_id
find_id-drop_id j id [] = ground arith
find_id-drop_id j id (l ∷ ls) =
    ground
      (arith, text_eq_iff id j, text_eq_iff l.id j, text_eq_iff l.id id, find_id-drop_id j id ls)

pub drop_id-Distinct : (id : Text) (ls : List Lease) → Distinct ls → Distinct (drop_id id ls)
unfolding drop_id
drop_id-Distinct id [] d = tt
drop_id-Distinct id (l ∷ ls) d =
    ground (
      arith,
      is_taken-drop_id l.ip id ls d.0,
      find_id-drop_id l.id id ls,
      drop_id-Distinct id ls d.2,
    )

pub drop_id-Addresses : (id : Text) (ls : List Lease) → Addresses ls → Addresses (drop_id id ls)
unfolding drop_id
drop_id-Addresses id [] d = tt
drop_id-Addresses id (l ∷ ls) d = ground (arith, drop_id-Addresses id ls d.1, d.0)

pub is_taken-append :
    (ip : Ipv4) (ls : List Lease) (l : Lease)
    → is_taken ip (ls ++ l ∷ []) ≡ (is_taken ip ls || ipv4_eq l.ip ip)
unfolding is_taken
is_taken-append ip [] l = ground arith
is_taken-append ip (x ∷ ls) l = ground (arith, is_taken-append ip ls l)

pub find_id-append :
    (id : Text) (ls : List Lease) (l : Lease)
    → find_id id (ls ++ l ∷ []) ≡ elim (find_id id ls) [
      | some ip ↦ some ip
      | none ↦ if text_eq l.id id then some l.ip else none
    ]
unfolding find_id
find_id-append id [] l = refl
find_id-append id (x ∷ ls) l = ground (arith, find_id-append id ls l)

pub append-Distinct :
    (ls : List Lease) (l : Lease)
    → Distinct ls
    → is_taken l.ip ls ≡ false
    → find_id l.id ls ≡ none
    → Distinct (ls ++ l ∷ [])
unfolding is_taken find_id
append-Distinct [] l d t f = (refl, refl, tt)
append-Distinct (x ∷ ls) l d t f = ground (
  arith,
  append-Distinct ls l d.2,
  is_taken-append x.ip ls l,
  find_id-append x.id ls l,
  ipv4_eq_iff x.ip l.ip,
  ipv4_eq_iff l.ip x.ip,
  text_eq_iff x.id l.id,
  text_eq_iff l.id x.id,
)

pub append-Addresses :
    (ls : List Lease) (l : Lease) → Addresses ls → IsAddress l.ip → Addresses (ls ++ l ∷ [])
append-Addresses [] l d v = (v, tt)
append-Addresses (x ∷ ls) l d v = (d.0, append-Addresses ls l d.1 v)

-- An address that some container holds is taken.
pub is_taken-find_id :
    (id : Text) (ls : List Lease) (ip : Ipv4) → find_id id ls ≡ some ip → is_taken ip ls ≡ true
unfolding is_taken find_id
is_taken-find_id id [] ip h = cc
is_taken-find_id id (l ∷ ls) ip h = ground (arith, is_taken-find_id id ls ip, ipv4_eq_iff l.ip ip)
