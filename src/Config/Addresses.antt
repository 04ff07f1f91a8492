-- ===== src/Config/Addresses.antt =====
-- src/config.rs: the addresses of an accepted bridge network, and what src/runtime/ipam.rs makes of
-- the same subnet.
use Prim.Native.Nat.{bit_and}
use myrun.Prelude.{
  ℕ, ◌+◌, ◌-◌, ◌*◌, ◌/◌, ◌%◌, ◌^◌, ◌≤◌, ◌<◌, ◌≡◌, ◌↔◌, refl, sym, ap, ◌∙◌, true, Option, none, some,
  arith, ==_iff,
}
use myrun.Prelude.Bits.{pow_pos}
use myrun.Text.{Text}
use myrun.Error.{Result, ok, ◌>>=◌}
use myrun.Netlink.Address.{Ipv4, to_u32, of_u32, parse_ipv4, parse_cidr}
use myrun.Netlink.Address.RoundTrip.{IsAddress}
use myrun.Ipam.{usable_range}
use myrun.Ipam.Range.{
  to_u32-lt, base_of_mask, mask_zero, mul_mono, size_least, base_end, usable_range_lem,
}
use myrun.Config.{NetworkConfig, gateway_addr, mask_of, in_subnet}
use myrun.Config.Valid.{IsBridged}

-- An address is in the subnet exactly when it agrees with it on the bits before the last
-- `32 - prefix`.
pub in_subnet_iff :
    (addr net : Ipv4) (prefix : ℕ)
    → IsAddress addr
    → IsAddress net
    → prefix ≤ 32
    → (in_subnet addr net prefix ≡ true)
      ↔ (to_u32 addr / 2 ^ (32 - prefix) ≡ to_u32 net / 2 ^ (32 - prefix))
unfolding in_subnet
in_subnet_iff addr net prefix va vn h =
    rw
      (
        mask_zero prefix,
        base_of_mask (to_u32 addr) prefix (to_u32-lt addr va) h,
        base_of_mask (to_u32 net) prefix (to_u32-lt net vn) h,
      )
      (
        (λ e. cancel _ _ (2 ^ (32 - prefix)) (pow_pos (32 - prefix)) ((==_iff _ _).0 e)),
        λ e. (==_iff _ _).1 (ap (λ q. q * 2 ^ (32 - prefix)) e),
      )
  where
    not_less : (a b p : ℕ) → 0 < p → a * p ≡ b * p → ¬ (a < b)
    not_less a b p h e l =
        let one : (a + 1) * p ≡ a * p + p = grind arith in
        omega (arith, mul_mono (a + 1) b p (omega arith), one, e)

    cancel : (a b p : ℕ) → 0 < p → a * p ≡ b * p → a ≡ b
    cancel a b p h e =
        let below = not_less a b p h e in let above = not_less b a p h (sym e) in omega arith

-- Without a gateway of its own, a network's gateway is the address after the network address.
gateway_default :
    (n : NetworkConfig) (net : Ipv4) (prefix : ℕ)
    → n.gateway ≡ none
    → parse_cidr n.subnet ≡ ok (net, prefix)
    → IsAddress net
    → prefix ≤ 30
    → gateway_addr n ≡ ok (of_u32 (to_u32 net / 2 ^ (32 - prefix) * 2 ^ (32 - prefix) + 1))
unfolding gateway_addr
gateway_default n net prefix none_given parsed v large =
    let base = to_u32 net / 2 ^ (32 - prefix) * 2 ^ (32 - prefix) in
    let end = base_end (to_u32 net) prefix (to_u32-lt net v) (omega (arith, large)) in
    let small : (base + 1) % 2 ^ 32 ≡ base + 1 = omega (arith, end, size_least prefix large) in
    ap by_gateway none_given
    ∙ rw
        (
          parsed,
          mask_zero prefix,
          base_of_mask (to_u32 net) prefix (to_u32-lt net v) (omega (arith, large)),
          small,
        )
        refl
  where
    by_gateway : Option Text → Result Ipv4
    by_gateway o = elim o [
      | some g ↦ parse_ipv4 g
      | none ↦ (do
        r ← parse_cidr n.subnet
        ok (of_u32 ((bit_and (to_u32 r.0) (mask_of r.1) + 1) % 2 ^ 32)))
    ]

-- An accepted bridge network has at least two addresses to give out, and without a gateway of its
-- own its gateway is the first of them, which the range does not leave out.
pub usable_range-IsBridged :
    (n : NetworkConfig) (bridge : IsBridged n)
    → IsAddress bridge.net
    → (first : ℕ) × (last : ℕ) × (usable_range n.subnet ≡ ok (first, last))
      × (first < last)
      × (n.gateway ≡ none → gateway_addr n ≡ ok (of_u32 first))
usable_range-IsBridged n bridge v =
    let size = 2 ^ (32 - bridge.prefix) in
    let base = to_u32 bridge.net / size * size in
    let range =
      (usable_range_lem n.subnet bridge.net bridge.prefix bridge.subnet_parsed v).0 bridge.large in
    let least = size_least bridge.prefix bridge.large in
    (
      base + 1,
      base + size - 2,
      range,
      omega (arith, least),
      λ none_given.
          gateway_default n bridge.net bridge.prefix none_given bridge.subnet_parsed v bridge.large,
    )
