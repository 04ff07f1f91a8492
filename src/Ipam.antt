-- ===== src/Ipam.antt =====
-- src/runtime/ipam.rs: the address allocator of the bridge network.
-- The lease file is the state; every operation holds the file lock from its beginning to its end,
-- so operations follow one another. The file's text is taken as the JSON value that it parses to.
-- What can fail outside the code (the lock, reading, writing) is an argument. Logging is left out.
pub mod Codec
pub mod Range
pub mod Search
pub mod Entries
pub mod Allocate
pub mod Refuse
pub mod Release
use Prim.Native.Nat.{bit_and, bit_or}
use myrun.Prelude.{
  ◌>>=?◌, ℕ, zero, suc, ◌+◌, ◌-◌, ◌*◌, ◌%◌, ◌^◌, Bool, true, false, not, ◌||◌, List, [], ◌∷◌, ◌++◌,
  Option, none, some, ltb, ◌==◌, if◌then◌else◌, length,
}
use myrun.Text.{Text, codes, text_eq}
use myrun.Error.{Error, Message, Result, ok, err, ◌>>=◌, lit, shown, number, or_fail}
use myrun.Json.{Json, Items, empty_obj, set, get, as_str, as_array}
use myrun.Netlink.Address.{Ipv4, ipv4_eq, to_u32, of_u32, parse_ipv4, format_ipv4, parse_cidr}

pub record Lease : Type 0 where
  pub ip : Ipv4
  pub id : Text

pub record Leases : Type 0 where
  pub subnet : Text
  pub entries : List Lease

-- `Leases::default()`
abbrev pub no_leases : Leases
no_leases = record { subnet = []; entries = [] }

unfoldable pub lease_json : Lease → Json
lease_json l =
    set (codes "id") (Json.str l.id) (set (codes "ip") (Json.str (format_ipv4 l.ip)) empty_obj)

unfoldable pub entries_json : List Lease → Items
unfolding lease_json
entries_json [] = Items.nil
entries_json (l ∷ ls) = Items.cons (lease_json l) (entries_json ls)

unfoldable pub to_json : Leases → Json
unfolding entries_json
to_json l =
    set (codes "leases") (Json.arr (entries_json l.entries))
      (set (codes "subnet") (Json.str l.subnet) empty_obj)

abbrev ok_of {ℓ} : {A : Type ℓ} → Result A → Option A
ok_of (ok a) = some a
ok_of (err e) = none

-- An entry without a valid address or an id is passed over.
unfoldable pub entry_of : Json → List Lease
entry_of e =
    let ip = get e (codes "ip") >>=? as_str >>=? (λ s. ok_of (parse_ipv4 s)) in
    let id = get e (codes "id") >>=? as_str in
    elim ip [ none ↦ [] | some x ↦ elim id [ none ↦ [] | some i ↦ record { ip = x; id = i } ∷ [] ] ]

unfoldable pub entries_of : Items → List Lease
unfolding entry_of
entries_of Items.nil = []
entries_of (Items.cons e es) = entry_of e ++ entries_of es

unfoldable pub from_json : Json → Leases
unfolding entries_of
from_json j = record {
  subnet = elim (get j (codes "subnet") >>=? as_str) [ none ↦ [] | some s ↦ s ];
  entries = elim (get j (codes "leases") >>=? as_array) [ none ↦ [] | some a ↦ entries_of a ];
}

-- `<root>/ipam.json`
pub data LeaseFile : Type 0 where
  absent blank not_json : LeaseFile
  holds : Json → LeaseFile

-- What may fail outside: taking the lock, reading an existing file, replacing the file.
pub record Trouble : Type 0 where
  pub locking : Option Error
  pub reading : Option Error
  pub writing : Option Error

abbrev pub passes : Option Error → Result (Unit {0})
passes none = ok tt
passes (some e) = err e

unfoldable pub load : Trouble → LeaseFile → Result Leases
unfolding from_json
load t absent = ok no_leases
load t blank = do u ← passes t.reading; ok no_leases
load t not_json = do u ← passes t.reading; ok no_leases
load t (holds j) = do u ← passes t.reading; ok (from_json j)

-- The file is replaced whole, or not at all.
unfoldable pub store : Trouble → Leases → LeaseFile → LeaseFile × Result (Unit {0})
unfolding to_json
store t l file = elim t.writing [ none ↦ (holds (to_json l), ok tt) | some e ↦ (file, err e) ]

unfoldable pub usable_range : Text → Result (ℕ × ℕ)
usable_range subnet = do
  r ← parse_cidr subnet
  mask ←
      (if ltb 30 r.1
        then err (
            Error.config
              (lit "subnet " ∷ shown subnet ∷ lit " is too small to allocate addresses from" ∷ []))
        else ok (if r.1 == 0 then 0 else (2 ^ 32 - 1) * 2 ^ (32 - r.1) % 2 ^ 32))
  let base = bit_and (to_u32 r.0) mask
  let last = bit_or base (2 ^ 32 - 1 - mask)
  ok ((base + 1) % 2 ^ 32, (last + 2 ^ 32 - 1) % 2 ^ 32)

-- `taken.contains(&ip)`
unfoldable pub is_taken : Ipv4 → List Lease → Bool
is_taken ip [] = false
is_taken ip (l ∷ ls) = ipv4_eq l.ip ip || is_taken ip ls

-- The first `n` candidates from `c` on, in turn.
unfoldable pub find_free : ℕ → ℕ → ℕ → List Lease → Option Ipv4
find_free zero c gw taken = none
find_free (suc n) c gw taken =
    let later = find_free n (c + 1) gw taken in
    if c == gw then later else if not (is_taken (of_u32 c) taken) then some (of_u32 c) else later

-- `entries.iter().find(|l| l.id == id).map(|l| l.ip)`
unfoldable pub find_id : Text → List Lease → Option Ipv4
find_id id [] = none
find_id id (l ∷ ls) = if text_eq l.id id then some l.ip else find_id id ls

-- `retain(|l| l.id != id)`
unfoldable pub drop_id : Text → List Lease → List Lease
drop_id id [] = []
drop_id id (l ∷ ls) = let rest = drop_id id ls in if text_eq l.id id then rest else l ∷ rest

-- A different subnet makes the old leases meaningless.
unfoldable pub for_subnet : Text → Leases → Leases
for_subnet subnet l =
    if text_eq l.subnet subnet then l else record { subnet = subnet; entries = [] }

abbrev already_leased : Ipv4 → Message
already_leased ip =
    lit "address " ∷ shown (format_ipv4 ip) ∷ lit " is already leased to another container" ∷ []

abbrev is_gateway : Ipv4 → Message
is_gateway ip = lit "address " ∷ shown (format_ipv4 ip) ∷ lit " is the bridge gateway" ∷ []

abbrev exhausted : Text → ℕ → Message
exhausted subnet n =
    lit "no free addresses left in " ∷ shown subnet ∷ lit " (" ∷ number n ∷ lit " in use)" ∷ []

unfoldable pub choose : Text → Option Ipv4 → Ipv4 → List Lease → Result Ipv4
choose subnet (some ip) gateway taken =
    if is_taken ip taken
    then err (Error.config (already_leased ip))
    else if to_u32 ip == to_u32 gateway
    then err (Error.config (is_gateway ip))
    else ok ip
choose subnet none gateway taken = do
  r ← usable_range subnet
  or_fail (find_free (r.1 + 1 - r.0) r.0 (to_u32 gateway) taken)
      (Error.container (exhausted subnet (length taken)))

-- `requested.map(|r| r == ip).unwrap_or(true)`
unfoldable pub agrees : Option Ipv4 → Ipv4 → Bool
agrees none ip = true
agrees (some r) ip = ipv4_eq r ip

unfoldable pub add_lease : Ipv4 → Text → Leases → Leases
add_lease ip id l = record l { entries = l.entries ++ record { ip = ip; id = id } ∷ [] }

abbrev without : Text → Leases → Leases
without id l = record l { entries = drop_id id l.entries }

-- An address is chosen among `l`, and the list with the new lease is written.
unfoldable pub lease_new :
    Trouble → LeaseFile → Text → Text → Option Ipv4 → Ipv4 → Leases → LeaseFile × Result Ipv4
unfolding choose store add_lease
lease_new t file subnet id requested gateway l = elim (choose subnet requested gateway l.entries) [
  | err e ↦ (file, err e)
  | ok ip ↦ (let (file', r) = store t (add_lease ip id l) file in (file', r >>= λ _. ok ip))
]

-- The body of `allocate`, behind the lock, the subnet and the load.
unfoldable pub allocate_in :
    Trouble → LeaseFile → Text → Text → Option Ipv4 → Ipv4 → Leases → LeaseFile × Result Ipv4
unfolding lease_new
allocate_in t file subnet id requested gateway l = elim (find_id id l.entries) [
  | none ↦ lease_new t file subnet id requested gateway l
  | some ip ↦
      if agrees requested ip
      then (file, ok ip)
      else lease_new t file subnet id requested gateway (without id l)
]

-- The subnet's prefix length and the leases read, once the lock is held.
unfoldable pub opened : Trouble → LeaseFile → Text → Result (ℕ × Leases)
opened t file subnet = do u ← passes t.locking; r ← parse_cidr subnet; l ← load t file; ok (r.1, l)

unfoldable pub allocate :
    Trouble → LeaseFile → Text → Text → Option Ipv4 → Ipv4 → LeaseFile × Result (Ipv4 × ℕ)
unfolding opened for_subnet allocate_in
allocate t file subnet id requested gateway = elim (opened t file subnet) [
  | err e ↦ (file, err e)
  | ok (prefix, l) ↦
      let (file', r) = allocate_in t file subnet id requested gateway (for_subnet subnet l) in
      (file', r >>= λ ip. ok (ip, prefix))
]

abbrev locked : Trouble → LeaseFile → Result Leases
locked t file = do u ← passes t.locking; load t file

unfoldable pub release : Trouble → LeaseFile → Text → LeaseFile × Result (Unit {0})
unfolding store
release t file id = elim (locked t file) [
  | err e ↦ (file, err e)
  | ok l ↦
      let l' = without id l in
      if not (length l'.entries == length l.entries) then store t l' file else (file, ok tt)
]

unfoldable pub lease_of : Trouble → LeaseFile → Text → Result (Option Ipv4)
lease_of t file id = do l ← locked t file; ok (find_id id l.entries)

unfoldable pub all_leases : Trouble → LeaseFile → Result (List Lease)
all_leases t file = do l ← locked t file; ok l.entries

-- `live_ids.contains(id)`
unfoldable pub is_live : Text → List Text → Bool
is_live id [] = false
is_live id (x ∷ xs) = text_eq x id || is_live id xs

unfoldable pub keep_live : List Text → List Lease → List Lease
keep_live live [] = []
keep_live live (l ∷ ls) =
    let rest = keep_live live ls in if is_live l.id live then l ∷ rest else rest

unfoldable pub gc : Trouble → LeaseFile → List Text → LeaseFile × Result ℕ
unfolding store keep_live
gc t file live = elim (locked t file) [
  | err e ↦ (file, err e)
  | ok l ↦
      let l' = record l { entries = keep_live live l.entries } in
      let removed = length l.entries - length l'.entries in
      if ltb 0 removed
      then (let (file', r) = store t l' file in (file', r >>= λ _. ok removed))
      else (file, ok removed)
]
