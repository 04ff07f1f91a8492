-- ===== src/Util.antt =====
-- src/util/mod.rs: container ids, hexadecimal text and the hash of interface names.
pub mod Ids
pub mod Size
pub mod Time
use Prim.Native.Nat.{bit_xor}
use myrun.Prelude.{
  ◌*◌, ◌^◌, ℕ, ◌+◌, ◌-◌, ◌/◌, ◌%◌, Bool, true, not, ◌&&◌, ◌||◌, List, [], ◌∷◌, ltb, leb, ◌==◌,
  if◌then◌else◌,
}
use myrun.Text.{Text, starts_with}
use myrun.Error.{Error, Result, ok, err, plain, lit, quoted}

-- `len()` of a string: the bytes of its UTF-8 encoding.
unfoldable pub utf8_len : Text → ℕ
utf8_len [] = 0
utf8_len (c ∷ s) =
    (if ltb c 128 then 1 else if ltb c 2048 then 2 else if ltb c 65536 then 3 else 4) + utf8_len s

abbrev pub between : ℕ → ℕ → ℕ → Bool
between lo hi c = leb lo c && leb c hi

abbrev pub is_id_char : ℕ → Bool
is_id_char c =
    between b'a' b'z' c
    || between b'A' b'Z' c
    || between b'0' b'9' c
    || c == b'-'
    || c == b'_'
    || c == b'.'

unfoldable pub all_id_chars : Text → Bool
all_id_chars [] = true
all_id_chars (c ∷ s) = is_id_char c && all_id_chars s

unfoldable pub validate_id : Text → Result (Unit {0})
unfolding utf8_len all_id_chars
validate_id id =
    if utf8_len id == 0 || ltb 64 (utf8_len id)
    then err (Error.config (plain "container id must be between 1 and 64 characters"))
    else if not (all_id_chars id)
    then err (
        Error.config
          (lit "container id " ∷ quoted id ∷ lit " may only contain [A-Za-z0-9._-]" ∷ []))
    else if starts_with (b'.' ∷ []) id
    then err (Error.config (plain "container id may not start with '.'"))
    else ok tt

-- `char::from_digit(d, 16)`
abbrev pub hex_digit : ℕ → ℕ
hex_digit d = if ltb d 10 then b'0' + d else b'a' + (d - 10)

unfoldable pub hex : List ℕ → Text
hex [] = []
hex (b ∷ bs) = hex_digit (b / 16) ∷ hex_digit (b % 16) ∷ hex bs

-- The hash so far, and one more byte.
unfoldable pub fnv_bytes : ℕ → List ℕ → ℕ
fnv_bytes h [] = h
fnv_bytes h (b ∷ bs) = fnv_bytes (bit_xor h b * 0x1000_0000_01b3 % 2 ^ 64) bs

unfoldable pub fnv1a : List ℕ → ℕ
unfolding fnv_bytes
fnv1a bytes = fnv_bytes 0xcbf2_9ce4_8422_2325 bytes
