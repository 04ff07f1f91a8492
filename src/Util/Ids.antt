-- ===== src/Util/Ids.antt =====
-- src/util/mod.rs: which ids are accepted.
use myrun.Prelude.{
  ◌≤◌, ◌≡◌, ◌≢◌, ◌↔◌, refl, ap, inl, inr, true, false, [], ◌∷◌, arith, length, Bool-cases,
}
use myrun.Text.{Text, starts_with, has_char}
use myrun.Error.{ok}
use myrun.Util.{utf8_len, all_id_chars, validate_id}

utf8_len-ids : (id : Text) → all_id_chars id ≡ true → utf8_len id ≡ length id
unfolding utf8_len all_id_chars
utf8_len-ids [] h = refl
utf8_len-ids (c ∷ s) h = ground (arith, utf8_len-ids s)

length-least : (id : Text) → length id ≤ utf8_len id
unfolding utf8_len
length-least [] = omega arith
length-least (c ∷ s) = ground (arith, length-least s)

-- An id is accepted exactly when it has from 1 to 64 characters, all of them letters, digits,
-- dots, underscores and dashes, and does not begin with a dot.
pub validate_id_iff :
    (id : Text)
    → (validate_id id ≡ ok tt) ↔ (
        (1 ≤ length id)
        × (length id ≤ 64)
        × (all_id_chars id ≡ true)
        × (starts_with (b'.' ∷ []) id ≡ false))
unfolding validate_id
validate_id_iff id = elim (Bool-cases (all_id_chars id)) [
  | inl a ↦ let same = utf8_len-ids id a in rw (a, same) (ground arith)
  | inr a ↦ rw a (ground arith)
]

no_slash : (id : Text) → all_id_chars id ≡ true → has_char b'/' id ≡ false
unfolding all_id_chars has_char
no_slash [] h = refl
no_slash (c ∷ s) h = ground (arith, no_slash s)

-- An accepted id is one component of a path, and neither `.` nor `..`: it is not empty, holds no
-- slash and does not begin with a dot.
pub validate_id_path :
    (id : Text)
    → validate_id id ≡ ok tt
    → (id ≢ []) × (has_char b'/' id ≡ false) × (starts_with (b'.' ∷ []) id ≡ false)
validate_id_path id h =
    let (least, most, chars, dot) = (validate_id_iff id).0 h in
    ((λ e. omega (arith, ap length e)), no_slash id chars, dot)
