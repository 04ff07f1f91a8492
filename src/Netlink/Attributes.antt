-- ===== src/Netlink/Attributes.antt =====
-- src/sys/netlink.rs: the attributes of a netlink message.
-- A byte order is the machine's: little endian, as on both architectures that the program builds for.
pub mod Parsed
use Prim.Native.Nat.{bit_and}
use myrun.Prelude.{
  ℕ, zero, suc, ◌+◌, ◌-◌, ◌*◌, ◌/◌, ◌%◌, ◌^◌, ◌||◌, List, [], ◌∷◌, ◌++◌, ltb, leb, if◌then◌else◌,
  length, take, drop,
}

-- `to_ne_bytes`, `from_ne_bytes` of a `u16`
abbrev pub u16_bytes : ℕ → List ℕ
u16_bytes n = n % 256 ∷ n / 256 % 256 ∷ []

abbrev pub u16_of : ℕ → ℕ → ℕ
u16_of a b = a + b * 256

-- on a 64-bit `usize`
unfoldable pub nl_align : ℕ → ℕ
nl_align n = bit_and (n + 3) (2 ^ 64 - 4)

abbrev pub zeros : ℕ → List ℕ
zeros zero = []
zeros (suc n) = 0 ∷ zeros n

-- `while buf.len() % 4 != 0 { buf.push(0) }`
unfoldable pub pad : List ℕ → List ℕ
pad buf = buf ++ zeros ((4 - length buf % 4) % 4)

-- `MsgBuilder::attr`: the buffer with one more attribute.
unfoldable pub attr : List ℕ → ℕ → List ℕ → List ℕ
unfolding pad
attr buf ty bytes =
    pad (buf ++ (u16_bytes ((4 + length bytes) % 2 ^ 16) ++ (u16_bytes ty ++ bytes)))

unfoldable pub attr_str : List ℕ → ℕ → List ℕ → List ℕ
attr_str buf ty s = attr buf ty (s ++ 0 ∷ [])

unfoldable pub attr_u32 : List ℕ → ℕ → ℕ → List ℕ
attr_u32 buf ty v =
    attr buf ty (v % 256 ∷ v / 256 % 256 ∷ v / 65536 % 256 ∷ v / 16777216 % 256 ∷ [])

pub record Attr : Type 0 where
  pub ty : ℕ
  pub bytes : List ℕ

-- One round for each byte is enough: every round takes four at least.
unfoldable pub parse_loop : ℕ → List ℕ → List Attr
parse_loop (suc fuel) (a ∷ b ∷ c ∷ d ∷ rest) =
    let len = u16_of a b in
    let size = 4 + length rest in
    let step = nl_align len in
    let later = parse_loop fuel (drop step (a ∷ b ∷ c ∷ d ∷ rest)) in
    if ltb len 4 || ltb size len
    then []
    else record { ty = u16_of c d; bytes = take (len - 4) rest }
      ∷ (if leb size step then [] else later)
parse_loop _ _ = []

unfoldable pub parse_attrs : List ℕ → List Attr
unfolding parse_loop
parse_attrs buf = parse_loop (length buf) buf
