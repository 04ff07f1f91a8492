-- ===== src/Netlink/Attributes/Parsed.antt =====
-- src/sys/netlink.rs: attributes, written and read.
use Prim.Native.Nat.{bit_and}
use mathlib.Core.List.{append-nil, append_assoc}
use myrun.Prelude.{
  ℕ, zero, suc, ◌+◌, ◌-◌, ◌*◌, ◌/◌, ◌%◌, ◌^◌, ◌≤◌, ◌<◌, ◌≡◌, refl, sym, ap, ◌∙◌, inl, inr, false,
  List, [], ◌∷◌, ◌++◌, arith, ltb, leb, length, take, drop, length-append, Bool-cases,
}
use myrun.Prelude.Bits.{bit_and-ones, bit_and-shifted}
use myrun.Netlink.Attributes.{u16_bytes, nl_align, zeros, pad, attr, Attr, parse_loop, parse_attrs}

-- The attributes of a list, written one after the other.
unfoldable pub write_attrs : List ℕ → List Attr → List ℕ
write_attrs buf [] = buf
write_attrs buf (a ∷ more) = write_attrs (attr buf a.ty a.bytes) more

-- Types and lengths fit their sixteen bits.
abbrev pub Fits : List Attr → Type 0
Fits [] = Unit {0}
Fits (a ∷ more) = ((a.ty < 2 ^ 16) × (4 + length a.bytes < 2 ^ 16)) × Fits more

nl_align_lem : (n : ℕ) → n < 2 ^ 32 → nl_align n ≡ (n + 3) / 4 * 4
unfolding nl_align
nl_align_lem n h =
    let q = (n + 3) / 4 in
    let whole : n + 3 ≡ q * 2 ^ 2 + (n + 3) % 4 = omega arith in
    ap (λ x. bit_and x (2 ^ 64 - 4)) whole
    ∙ bit_and-shifted 2 q ((n + 3) % 4) (2 ^ 62 - 1) (omega arith)
    ∙ ap (λ x. x * 4) (bit_and-ones 62 q (omega arith))

length-zeros : (n : ℕ) → length (zeros n) ≡ n
length-zeros zero = refl
length-zeros (suc n) = omega (arith, length-zeros n)

-- One attribute with its padding.
abbrev block : Attr → List ℕ
block a =
    u16_bytes (4 + length a.bytes)
    ++ (u16_bytes a.ty ++ (a.bytes ++ zeros ((4 - (4 + length a.bytes) % 4) % 4)))

length-block : (a : Attr) → length (block a) ≡ (4 + length a.bytes + 3) / 4 * 4
length-block a = omega (
  arith,
  length-append a.bytes (zeros ((4 - (4 + length a.bytes) % 4) % 4)),
  length-zeros ((4 - (4 + length a.bytes) % 4) % 4),
)

attr-block :
    (buf : List ℕ) (a : Attr)
    → length buf % 4 ≡ 0
    → 4 + length a.bytes < 2 ^ 16
    → attr buf a.ty a.bytes ≡ buf ++ block a
unfolding attr pad
attr-block buf a h f =
    let head = u16_bytes (4 + length a.bytes) ++ (u16_bytes a.ty ++ a.bytes) in
    let cast : (4 + length a.bytes) % 2 ^ 16 ≡ 4 + length a.bytes = omega arith in
    let same : (4 - length (buf ++ head) % 4) % 4 ≡ (4 - (4 + length a.bytes) % 4) % 4 =
      omega (arith, length-append buf head, h) in
    rw cast (ap (λ n. (buf ++ head) ++ zeros n) same ∙ append_assoc buf head _)

drop-front : (xs ys : List ℕ) → drop (length xs) (xs ++ ys) ≡ ys
drop-front [] ys = refl
drop-front (x ∷ xs) ys = drop-front xs ys

take-front : (xs ys : List ℕ) → take (length xs) (xs ++ ys) ≡ xs
take-front [] ys = refl
take-front (x ∷ xs) ys = ap (◌∷◌ x) (take-front xs ys)

nothing_left : (fuel : ℕ) (rest : List ℕ) → length rest ≡ 0 → parse_loop fuel rest ≡ []
unfolding parse_loop
nothing_left zero [] h = refl
nothing_left (suc fuel) [] h = refl
nothing_left fuel (x ∷ rest) h = absurd (omega arith)

parse_loop-block :
    (fuel : ℕ) (a : Attr) (rest : List ℕ)
    → a.ty < 2 ^ 16
    → 4 + length a.bytes < 2 ^ 16
    → parse_loop (suc fuel) (block a ++ rest) ≡ a ∷ parse_loop fuel rest
unfolding parse_loop
parse_loop-block fuel a rest t f =
    let n = 4 + length a.bytes in
    let padding = zeros ((4 - n % 4) % 4) in
    let len : n % 256 + n / 256 % 256 * 256 ≡ n = omega arith in
    let type : a.ty % 256 + a.ty / 256 % 256 * 256 ≡ a.ty = omega arith in
    let step : nl_align n ≡ length (block a) =
      nl_align_lem n (omega arith) ∙ sym (length-block a) in
    let left : drop (length (block a)) (block a ++ rest) ≡ rest = drop-front (block a) rest in
    let front : take (n - 4) ((a.bytes ++ padding) ++ rest) ≡ a.bytes =
      let size : n - 4 ≡ length a.bytes = omega arith in
      ap (λ k. take k ((a.bytes ++ padding) ++ rest)) size
      ∙ ap (take (length a.bytes)) (append_assoc a.bytes padding rest)
      ∙ take-front a.bytes (padding ++ rest) in
    let size : 4 + length ((a.bytes ++ padding) ++ rest) ≡ length (block a) + length rest =
      omega (arith, length-append (block a) rest) in
    let long : n ≤ length (block a) = omega (arith, length-block a) in
    let not_short : ltb n 4 ≡ false = ground arith in
    let not_long : ltb (4 + length ((a.bytes ++ padding) ++ rest)) n ≡ false =
      rw size (ground (arith, long)) in
    elim (Bool-cases (leb (length (block a) + length rest) (length (block a)))) [
      | inl e ↦
          rw (len, type)
            (rw (not_short, not_long, front, step)
              (rw (size, e) (ap (◌∷◌ a) (sym (nothing_left fuel rest (ground arith))))))
      | inr e ↦
          rw (len, type)
            (rw (not_short, not_long, front, step)
              (rw (size, e) (ap (λ r. a ∷ parse_loop fuel r) left)))
    ]

abbrev blocks : List Attr → List ℕ
blocks [] = []
blocks (a ∷ more) = block a ++ blocks more

write_attrs-blocks :
    (buf : List ℕ) (attrs : List Attr)
    → length buf % 4 ≡ 0
    → Fits attrs
    → write_attrs buf attrs ≡ buf ++ blocks attrs
unfolding write_attrs
write_attrs-blocks buf [] h f = sym (append-nil buf)
write_attrs-blocks buf (a ∷ more) h f =
    let one = attr-block buf a h f.0.1 in
    let next : length (buf ++ block a) % 4 ≡ 0 =
      omega (arith, length-append buf (block a), length-block a, h) in
    ap (λ b. write_attrs b more) one
    ∙ write_attrs-blocks (buf ++ block a) more next f.1
    ∙ append_assoc buf (block a) (blocks more)

parse_loop-blocks :
    (fuel : ℕ) (attrs : List Attr)
    → Fits attrs
    → length (blocks attrs) ≤ fuel
    → parse_loop fuel (blocks attrs) ≡ attrs
parse_loop-blocks fuel [] f h = nothing_left fuel [] refl
parse_loop-blocks zero (a ∷ more) f h = absurd (omega arith)
parse_loop-blocks (suc fuel) (a ∷ more) f h =
    parse_loop-block fuel a (blocks more) f.0.0 f.0.1
    ∙ ap (◌∷◌ a) (
        parse_loop-blocks fuel more f.1
          (omega (arith, length-append (block a) (blocks more), length-block a)))

-- Attributes that are written one after the other, their types and lengths within sixteen bits, are
-- read back as they were, whatever their lengths make of the padding.
pub parse-write_attrs :
    (attrs : List Attr) → Fits attrs → parse_attrs (write_attrs [] attrs) ≡ attrs
unfolding parse_attrs
parse-write_attrs attrs f =
    let e = write_attrs-blocks [] attrs refl f in
    rw e (parse_loop-blocks (length (blocks attrs)) attrs f (omega arith))
