-- ===== src/Netlink/Address/RoundTrip.antt =====
-- src/sys/netlink.rs: addresses and ranges, printed and read.
use myrun.Prelude.{ℕ, ◌^◌, ◌≤◌, ◌<◌, ◌≡◌, ◌↔◌, refl, true, false, [], ◌∷◌, ◌++◌, arith, ltb}
use myrun.Text.{Text, split, has_char, is_whitespace}
use myrun.Text.Laws.{
  All, All-append, is_black, split-append, split_whole, split_once-append, trim-black,
  show_nat-black, show_nat-lacks, parse-show_nat,
}
use myrun.Text.Number.{show_nat, is_digit}
use myrun.Error.{ok}
use myrun.Netlink.Address.{Ipv4, ipv4_eq, to_u32, of_u32, parse_ipv4, format_ipv4, parse_cidr}

-- Each part is a byte.
pub record IsAddress (x : Ipv4) : Type 0 where
  pub a_byte : x.a ≤ 255
  pub b_byte : x.b ≤ 255
  pub c_byte : x.c ≤ 255
  pub d_byte : x.d ≤ 255

pub ipv4_eq_iff : (x y : Ipv4) → (ipv4_eq x y ≡ true) ↔ (x ≡ y)
unfolding ipv4_eq
ipv4_eq_iff x y = ground arith

-- An address is its number, most significant byte first.
pub to_u32-of_u32 : (n : ℕ) → n < 2 ^ 32 → to_u32 (of_u32 n) ≡ n
unfolding to_u32 of_u32
to_u32-of_u32 n h = omega arith

pub of_u32-to_u32 : (x : Ipv4) → IsAddress x → of_u32 (to_u32 x) ≡ x
unfolding to_u32 of_u32
of_u32-to_u32 x v = ground arith

pub of_u32-IsAddress : (n : ℕ) → IsAddress (of_u32 n)
unfolding of_u32
of_u32-IsAddress n = omega arith

dot_no_digit : is_digit b'.' ≡ false
unfolding is_digit
dot_no_digit = refl

dot-black : (s : Text) → All is_black s → All is_black (b'.' ∷ s)
unfolding is_whitespace
dot-black s h = (refl, h)

format_ipv4-black : (x : Ipv4) → All is_black (format_ipv4 x)
unfolding format_ipv4
format_ipv4-black x = part x.a _ (part x.b _ (part x.c _ (show_nat-black x.d)))
  where
    part : (n : ℕ) (s : Text) → All is_black s → All is_black (show_nat n ++ (b'.' ∷ s))
    part n s h = All-append is_black (show_nat n) (b'.' ∷ s) (show_nat-black n) (dot-black s h)

has_char-append :
    (k : ℕ) (s t : Text) → has_char k s ≡ false → has_char k t ≡ false → has_char k (s ++ t) ≡ false
unfolding has_char
has_char-append k [] t hs ht = ht
has_char-append k (c ∷ s) t hs ht = ground (arith, has_char-append k s t)

format_ipv4-no_slash : (x : Ipv4) → has_char b'/' (format_ipv4 x) ≡ false
unfolding format_ipv4 has_char
format_ipv4-no_slash x =
    part x.a _ (part x.b _ (part x.c _ (show_nat-lacks b'/' x.d slash_no_digit)))
  where
    slash_no_digit : is_digit b'/' ≡ false
    slash_no_digit = unfold is_digit in refl

    part :
        (n : ℕ) (s : Text)
        → has_char b'/' s ≡ false
        → has_char b'/' (show_nat n ++ (b'.' ∷ s)) ≡ false
    part n s h =
        has_char-append b'/' (show_nat n) (b'.' ∷ s) (show_nat-lacks b'/' n slash_no_digit)
          (unfold has_char in h)

format_ipv4-split :
    (x : Ipv4)
    → split b'.' (format_ipv4 x) ≡ show_nat x.a ∷ show_nat x.b ∷ show_nat x.c ∷ show_nat x.d ∷ []
unfolding format_ipv4
format_ipv4-split x = rw (
  split-append b'.' (show_nat x.a) _ (show_nat-lacks b'.' x.a dot_no_digit),
  split-append b'.' (show_nat x.b) _ (show_nat-lacks b'.' x.b dot_no_digit),
  split-append b'.' (show_nat x.c) _ (show_nat-lacks b'.' x.c dot_no_digit),
  split_whole b'.' (show_nat x.d) (show_nat-lacks b'.' x.d dot_no_digit),
)

-- An address made of four bytes is read back from its print.
pub parse-format_ipv4 : (x : Ipv4) → IsAddress x → parse_ipv4 (format_ipv4 x) ≡ ok x
unfolding parse_ipv4
parse-format_ipv4 x v = rw (
  trim-black (format_ipv4 x) (format_ipv4-black x),
  format_ipv4-split x,
  parse-show_nat 255 x.a v.a_byte,
  parse-show_nat 255 x.b v.b_byte,
  parse-show_nat 255 x.c v.c_byte,
  parse-show_nat 255 x.d v.d_byte,
)

-- A range, its address made of four bytes and its prefix length at most 32, is read back from its
-- print.
pub parse_cidr_format :
    (x : Ipv4) (prefix : ℕ)
    → IsAddress x
    → prefix ≤ 32
    → parse_cidr (format_ipv4 x ++ (b'/' ∷ show_nat prefix)) ≡ ok (x, prefix)
unfolding parse_cidr
parse_cidr_format x prefix v h =
    let at_slash =
      split_once-append b'/' (format_ipv4 x) (show_nat prefix) (format_ipv4-no_slash x) in
    let short : ltb 32 prefix ≡ false = ground arith in
    rw (at_slash, parse_cidr)
      (rw (parse-show_nat 255 prefix (omega arith), short, parse-format_ipv4 x v))
