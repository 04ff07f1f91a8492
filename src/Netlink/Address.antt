-- ===== src/Netlink/Address.antt =====
-- src/sys/netlink.rs: IPv4 addresses and CIDR ranges as text.
pub mod RoundTrip
use myrun.Prelude.{
  ℕ, ◌+◌, ◌*◌, ◌/◌, ◌%◌, ◌≤◌, Bool, true, false, List, [], ◌∷◌, ◌++◌, Option, none, some, ltb, ◌==◌,
  ◌&&◌, if◌then◌else◌,
}
use myrun.Text.{Text, trim, split, split_once}
use myrun.Text.Number.{show_nat, parse_uint}
use myrun.Error.{Error, Result, ok, err, ◌>>=◌, lit, quoted, number, or_fail}

-- `[u8; 4]`
pub record Ipv4 : Type 0 where
  pub a : ℕ
  pub b : ℕ
  pub c : ℕ
  pub d : ℕ

-- `a == b` on arrays
unfoldable pub ipv4_eq : Ipv4 → Ipv4 → Bool
ipv4_eq x y = x.a == y.a && x.b == y.b && x.c == y.c && x.d == y.d

-- `u32::from_be_bytes`, `u32::to_be_bytes`
unfoldable pub to_u32 : Ipv4 → ℕ
to_u32 x = x.a * 16777216 + x.b * 65536 + x.c * 256 + x.d

unfoldable pub of_u32 : ℕ → Ipv4
of_u32 n = record { a = n / 16777216 % 256; b = n / 65536 % 256; c = n / 256 % 256; d = n % 256 }

abbrev pub parse_u8 : Text → Option ℕ
parse_u8 = parse_uint 255

octet : Text → Text → Result ℕ
octet s p =
    or_fail (parse_u8 p)
      (Error.config (lit "invalid IPv4 octet " ∷ quoted p ∷ lit " in " ∷ quoted s ∷ []))

parse_octets : Text → List Text → Result Ipv4
parse_octets s (p ∷ q ∷ r ∷ t ∷ []) = do
  a ← octet s p
  b ← octet s q
  c ← octet s r
  d ← octet s t
  ok (record { a = a; b = b; c = c; d = d })
parse_octets s _ = err (Error.config (lit "invalid IPv4 address " ∷ quoted s ∷ []))

unfoldable pub parse_ipv4 : Text → Result Ipv4
unfolding parse_octets octet
parse_ipv4 s = parse_octets s (split b'.' (trim s))

unfoldable pub format_ipv4 : Ipv4 → Text
format_ipv4 x =
    show_nat x.a ++ (b'.' ∷ (show_nat x.b ++ (b'.' ∷ (show_nat x.c ++ (b'.' ∷ show_nat x.d)))))

abbrev bad_prefix : Text → Error
bad_prefix s = Error.config (lit "invalid prefix length in " ∷ quoted s ∷ [])

abbrev too_long : ℕ → Error
too_long prefix = Error.config (lit "prefix length " ∷ number prefix ∷ lit " > 32" ∷ [])

unfoldable pub parse_cidr : Text → Result (Ipv4 × ℕ)
parse_cidr s = elim (split_once b'/' s) [
  | none ↦ err (Error.config (lit "expected CIDR a.b.c.d/len, got " ∷ quoted s ∷ []))
  | some (ip, pfx) ↦ (do
    prefix ← or_fail (parse_u8 pfx) (bad_prefix s)
    address ← (if ltb 32 prefix then err (too_long prefix) else parse_ipv4 ip)
    ok (address, prefix))
]
