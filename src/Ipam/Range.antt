-- ===== src/Ipam/Range.antt =====
-- src/runtime/ipam.rs: the host range of a subnet.
use Prim.Native.Nat.{bit_and, bit_or}
use myrun.Prelude.{
  ℕ, zero, suc, ◌+◌, ◌-◌, ◌*◌, ◌/◌, ◌%◌, ◌^◌, ◌≤◌, ◌<◌, ◌≡◌, refl, sym, ap, ◌∙◌, inl, inr, true,
  false, arith, ltb, ◌==◌, if◌then◌else◌, Bool-cases,
}
use myrun.Prelude.Bits.{pow_pos, pow-add, bit_and-ones, bit_and-shifted, bit_or-low}
use myrun.Text.{Text}
use myrun.Error.{Error, ok, err}
use myrun.Netlink.Address.{Ipv4, to_u32, parse_cidr}
use myrun.Netlink.Address.RoundTrip.{IsAddress}
use myrun.Ipam.{usable_range}

pub to_u32-lt : (x : Ipv4) → IsAddress x → to_u32 x < 2 ^ 32
unfolding to_u32
to_u32-lt x v = omega arith

-- The subnet mask of `w` leading ones, as it is computed.
abbrev mask_of : ℕ → ℕ
mask_of w = (2 ^ 32 - 1) * 2 ^ (32 - w) % 2 ^ 32

split_width : (w : ℕ) → w ≤ 32 → 2 ^ w * 2 ^ (32 - w) ≡ 2 ^ 32
split_width w h = let e : w + (32 - w) ≡ 32 = omega arith in sym (pow-add w (32 - w)) ∙ rw e

one_less : (a p : ℕ) → 0 < a → (a - 1) * p + p ≡ a * p
one_less zero p h = absurd (omega arith)
one_less (suc a) p h =
    let back : suc a - 1 ≡ a = omega arith in
    let one : suc a * p ≡ a * p + p = grind arith in rw (back, one) refl

pub mul_mono : (a b p : ℕ) → a ≤ b → a * p ≤ b * p
mul_mono a b p h =
    let split : (a + (b - a)) * p ≡ a * p + (b - a) * p = grind arith in
    let back : a + (b - a) ≡ b = omega arith in omega (arith, split, ap (λ t. t * p) back)

-- The mask is the whole address space less the size of the subnet.
mask_size : (w : ℕ) → w ≤ 32 → mask_of w + 2 ^ (32 - w) ≡ 2 ^ 32
mask_size w h =
    let whole = split_width w h in
    let p_le : 2 ^ (32 - w) ≤ 2 ^ 32 =
      omega (arith, one_less (2 ^ w) (2 ^ (32 - w)) (pow_pos w), whole) in
    let p_pos = pow_pos (32 - w) in omega arith

mask_ones : (w : ℕ) → w ≤ 32 → mask_of w ≡ (2 ^ w - 1) * 2 ^ (32 - w)
mask_ones w h =
    let size = mask_size w h in
    let whole = split_width w h in
    let less = one_less (2 ^ w) (2 ^ (32 - w)) (pow_pos w) in omega arith

quotient_lt : (x w : ℕ) → x < 2 ^ 32 → w ≤ 32 → x / 2 ^ (32 - w) < 2 ^ w
quotient_lt x w hx h =
    let p = 2 ^ (32 - w) in
    let whole : x ≡ x / p * p + x % p = omega (arith, pow_pos (32 - w)) in
    elim (Bool-cases (ltb (x / p) (2 ^ w))) [
      | inl e ↦ ground arith
      | inr e ↦
          absurd (omega (arith, mul_mono (2 ^ w) (x / p) p (ground arith), split_width w h, whole))
    ]

-- The subnet lies within the address space.
pub base_end :
    (x w : ℕ) → x < 2 ^ 32 → w ≤ 32 → x / 2 ^ (32 - w) * 2 ^ (32 - w) + 2 ^ (32 - w) ≤ 2 ^ 32
base_end x w hx h =
    let p = 2 ^ (32 - w) in
    let one : suc (x / p) * p ≡ x / p * p + p = grind arith in
    omega (arith, mul_mono (suc (x / p)) (2 ^ w) p (quotient_lt x w hx h), split_width w h, one)

pub size_least : (w : ℕ) → w ≤ 30 → 4 ≤ 2 ^ (32 - w)
size_least w h =
    let e : 32 - w ≡ 2 + (30 - w) = omega arith in
    let four : 2 ^ (2 + (30 - w)) ≡ 4 * 2 ^ (30 - w) = pow-add 2 (30 - w) in
    rw e (omega (arith, four, pow_pos (30 - w)))

-- The network address: `&` with the mask rounds down to a multiple of the subnet's size.
pub base_of_mask :
    (x w : ℕ) → x < 2 ^ 32 → w ≤ 32 → bit_and x (mask_of w) ≡ x / 2 ^ (32 - w) * 2 ^ (32 - w)
base_of_mask x w hx h =
    let p = 2 ^ (32 - w) in
    let whole : x ≡ x / p * p + x % p = omega (arith, pow_pos (32 - w)) in
    let rest : x % p < p = omega (arith, pow_pos (32 - w)) in
    rw
      (
        mask_ones w h,
        ap (λ t. bit_and t ((2 ^ w - 1) * p)) whole,
        bit_and-shifted (32 - w) (x / p) (x % p) (2 ^ w - 1) rest,
        bit_and-ones w (x / p) (quotient_lt x w hx h),
      )
      refl

last_of_mask :
    (q w : ℕ)
    → w ≤ 32
    → bit_or (q * 2 ^ (32 - w)) (2 ^ 32 - 1 - mask_of w) ≡ q * 2 ^ (32 - w) + (2 ^ (32 - w) - 1)
last_of_mask q w h =
    let e : 2 ^ 32 - 1 - mask_of w ≡ 2 ^ (32 - w) - 1 =
      omega (arith, mask_size w h, pow_pos (32 - w)) in
    rw e (bit_or-low (32 - w) q)

pub mask_zero : (w : ℕ) → (if w == 0 then 0 else mask_of w) ≡ mask_of w
mask_zero zero = refl
mask_zero (suc w) = ground arith

-- The lemma's numbers: `b` the network address, `p` the subnet's size.
ends :
    (b p : ℕ)
    → 4 ≤ p
    → b + p ≤ 2 ^ 32
    → ((b + 1) % 2 ^ 32 ≡ b + 1) × ((b + (p - 1) + 2 ^ 32 - 1) % 2 ^ 32 ≡ b + p - 2)
ends b p h k = (omega arith, omega arith)

-- For a prefix length up to 30 the range runs from the address after the network address to the
-- one before the broadcast address, inclusive: of the `2 ^ (32 - prefix)` addresses that share the
-- prefix, all but the first and the last, whatever the gateway is. A longer prefix is refused.
pub usable_range_lem :
    (subnet : Text) (net : Ipv4) (prefix : ℕ)
    → parse_cidr subnet ≡ ok (net, prefix)
    → IsAddress net
    → let size = 2 ^ (32 - prefix) in
      let base = to_u32 net / size * size in
      (prefix ≤ 30 → usable_range subnet ≡ ok (base + 1, base + size - 2))
      × (30 < prefix → (e : Error) × (usable_range subnet ≡ err e))
unfolding usable_range
usable_range_lem subnet net prefix e v =
    (λ h. fits h, λ h. let long : ltb 30 prefix ≡ true = ground arith in rw (e, long) (_, refl))
  where
    fits :
        prefix ≤ 30
        → usable_range subnet
          ≡ ok (
            to_u32 net / 2 ^ (32 - prefix) * 2 ^ (32 - prefix) + 1,
            to_u32 net / 2 ^ (32 - prefix) * 2 ^ (32 - prefix) + 2 ^ (32 - prefix) - 2,
          )
    fits h =
        let short : ltb 30 prefix ≡ false = ground arith in
        rw (e, usable_range)
          (rw (short, mask_zero prefix)
            (rw
              (
                base_of_mask (to_u32 net) prefix (to_u32-lt net v) (omega arith),
                last_of_mask (to_u32 net / 2 ^ (32 - prefix)) prefix (omega arith),
              )
              (let (a, b) =
                  ends (to_u32 net / 2 ^ (32 - prefix) * 2 ^ (32 - prefix)) (2 ^ (32 - prefix))
                    (size_least prefix h)
                    (base_end (to_u32 net) prefix (to_u32-lt net v) (omega arith)) in
                rw (a, b) refl)))
