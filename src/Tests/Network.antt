-- ===== src/Tests/Network.antt =====
-- src/runtime/ipam.rs, src/sys/netlink.rs and src/util/json.rs on concrete inputs.
use myrun.Prelude.{
  ◌≢◌, List, false, ℕ, ◌+◌, ◌-◌, ◌*◌, ◌/◌, ◌^◌, ◌≤◌, ◌<◌, ◌≡◌, ◌⊎◌, refl, [], ◌∷◌, ◌++◌, none, some,
  arith, if◌then◌else◌, length,
}
use myrun.Text.{has_char, starts_with, Text, codes, text_eq, split, trim, trim_start, is_whitespace}
use myrun.Text.Number.{show_nat, parse_uint}
use myrun.Error.{Error, ok, err}
use myrun.Json.{set, get, set_field, get_field, as_str, as_array}
use myrun.Netlink.Address.{Ipv4, to_u32, of_u32, parse_ipv4, format_ipv4, parse_cidr}
use myrun.Netlink.Address.RoundTrip.{IsAddress, parse_cidr_format}
use myrun.Ipam.{
  lease_json, entries_json, entries_of, entry_of, Leases, to_json, from_json, holds, absent,
  Trouble, find_free, find_id, is_taken, allocate, opened, load, store, usable_range, release, gc,
  is_live, drop_id, keep_live,
}
use myrun.Ipam.Codec.{Addresses, from_json-to_json}
use myrun.Ipam.Range.{usable_range_lem}
use myrun.Ipam.Search.{IsFirstFree, Busy, find_free_cases}
use myrun.Ipam.Allocate.{contents, IsSound}
use myrun.Ipam.Refuse.{allocate_refused}
use myrun.Netlink.Attributes.{Attr, parse_attrs}
use myrun.Netlink.Attributes.Parsed.{write_attrs, parse-write_attrs}
use myrun.Util.{validate_id, utf8_len, all_id_chars}
use myrun.Util.Ids.{validate_id_path}
use myrun.Ipam.Release.{release_exact, gc_exact}

abbrev gateway : Ipv4
gateway = record { a = 10; b = 0; c = 0; d = 1 }

abbrev second : Ipv4
second = record { a = 10; b = 0; c = 0; d = 2 }

second-IsAddress : IsAddress second
second-IsAddress = omega arith

abbrev subnet : Text
subnet = format_ipv4 gateway ++ (b'/' ∷ show_nat 24)

parse_subnet : parse_cidr subnet ≡ ok (gateway, 24)
parse_subnet = parse_cidr_format gateway 24 (omega arith) (omega arith)

abbrev calm : Trouble
calm = record { locking = none; reading = none; writing = none }

abbrev held : Leases
held = record { subnet = subnet; entries = record { ip = second; id = 97 ∷ [] } ∷ [] }

held-Addresses : Addresses held.entries
held-Addresses = (second-IsAddress, tt)

held_read : contents (holds (to_json held)) ≡ held
held_read = from_json-to_json held held-Addresses

held-IsSound : IsSound (contents (holds (to_json held)))
unfolding is_taken find_id
held-IsSound = rw held_read ((refl, refl, tt), held-Addresses)

parse_cidr_format_example :
    parse_cidr (format_ipv4 gateway ++ (b'/' ∷ show_nat 24)) ≡ ok (gateway, 24)
parse_cidr_format_example = parse_cidr_format gateway 24 (omega arith) (omega arith)

abbrev attributes : List Attr
attributes = record { ty = 3; bytes = 101 ∷ 48 ∷ 0 ∷ [] } ∷ record { ty = 4; bytes = [] } ∷ []

parse-write_attrs_example : parse_attrs (write_attrs [] attributes) ≡ attributes
parse-write_attrs_example = parse-write_attrs attributes (omega arith)

validate_id_path_example :
    (codes "web.1" ≢ [])
    × (has_char b'/' (codes "web.1") ≡ false)
    × (starts_with (b'.' ∷ []) (codes "web.1") ≡ false)
unfolding codes validate_id utf8_len all_id_chars starts_with
validate_id_path_example = validate_id_path (codes "web.1") refl

usable_range_lem_example :
    let size = 2 ^ (32 - 24) in
    let base = to_u32 gateway / size * size in
    (24 ≤ 30 → usable_range subnet ≡ ok (base + 1, base + size - 2))
    × (30 < 24 → (e : Error) × (usable_range subnet ≡ err e))
usable_range_lem_example = usable_range_lem subnet gateway 24 parse_subnet (omega arith)

find_free_cases_example :
    ((c : ℕ) × (find_free 3 1 2 [] ≡ some (of_u32 c)) × IsFirstFree 2 [] 1 3 c)
    ⊎ ((find_free 3 1 2 [] ≡ none) × ((k : ℕ) → 1 ≤ k → k < 4 → Busy 2 [] k))
find_free_cases_example = find_free_cases 3 1 2 []

abbrev empty : Leases
empty = record { subnet = subnet; entries = [] }

release_exact_example :
    ((j : Text)
      → find_id j (contents (holds (to_json empty))).entries ≡ (
          if text_eq (97 ∷ []) j
          then none
          else find_id j (contents (holds (to_json held))).entries))
    × IsSound (contents (holds (to_json empty)))
unfolding release load store drop_id from_json to_json lease_json entries_json entries_of entry_of
    set_field get_field set get as_str as_array text_eq format_ipv4 codes show_nat parse_uint
    parse_ipv4 split trim trim_start is_whitespace
release_exact_example =
    release_exact calm (holds (to_json held)) (holds (to_json empty)) (97 ∷ []) held-IsSound refl

gc_exact_example :
    ((j : Text)
      → find_id j (contents (holds (to_json empty))).entries ≡ (
          if is_live j ((98 ∷ []) ∷ [])
          then find_id j (contents (holds (to_json held))).entries
          else none))
    × (length (contents (holds (to_json empty))).entries + 1
        ≡ length (contents (holds (to_json held))).entries)
    × IsSound (contents (holds (to_json empty)))
unfolding gc load store keep_live is_live from_json to_json lease_json entries_json entries_of
    entry_of set_field get_field set get as_str as_array text_eq format_ipv4 codes show_nat
    parse_uint parse_ipv4 split trim trim_start is_whitespace
gc_exact_example =
    gc_exact calm (holds (to_json held)) (holds (to_json empty)) ((98 ∷ []) ∷ []) 1 held-IsSound
      refl

abbrev locked_out : Trouble
locked_out = record { locking = some (Error.io []); reading = none; writing = none }

allocate_refused_example : absent ≡ absent
unfolding allocate opened
allocate_refused_example =
    allocate_refused locked_out absent subnet (97 ∷ []) none gateway absent (Error.io []) refl
