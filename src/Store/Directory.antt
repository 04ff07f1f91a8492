-- ===== src/Store/Directory.antt =====
-- src/runtime/state.rs: looking up and sorting the store's directory.
use myrun.Prelude.{
  ◌≡◌, refl, Bool, true, false, ◌||◌, List, [], ◌∷◌, Option, none, some, arith, if◌then◌else◌,
  Option-cases,
}
use myrun.Text.{Text, text_eq}
use myrun.Text.Laws.{text_eq_iff}
use myrun.Error.{Error, Result, ok}
use myrun.State.{ContainerState}
use myrun.Store.{Store, insert, sort, look, exists, keys, ids, load, put, holds_name}

abbrev pub is_member : Text → List Text → Bool
is_member t [] = false
is_member t (x ∷ xs) = text_eq x t || is_member t xs

is_member-insert :
    (t x : Text) (xs : List Text) → is_member t (insert x xs) ≡ (text_eq x t || is_member t xs)
unfolding insert
is_member-insert t x [] = refl
is_member-insert t x (y ∷ ys) = ground (arith, is_member-insert t x ys)

is_member-sort : (t : Text) (xs : List Text) → is_member t (sort xs) ≡ is_member t xs
unfolding sort
is_member-sort t [] = refl
is_member-sort t (x ∷ xs) = rw (is_member-insert t x (sort xs), is_member-sort t xs) refl

module _ {C : Type 0} where
  exists-keys : (d : Store C) (id : Text) → exists d id ≡ is_member id (keys d)
  unfolding exists look
  exists-keys [] id = refl
  exists-keys ((k, r) ∷ d) id = ground (arith, exists-keys d id)

  -- The ids that are listed are those of the directory.
  pub is_member-ids :
      (d : Store C) (reading : Option Error) (all : List Text) (id : Text)
      → ids d reading ≡ ok all
      → is_member id all ≡ exists d id
  unfolding ids
  is_member-ids d none all id e =
      let same : all ≡ sort (keys d) = ground arith in
      rw (same, exists-keys d id) (is_member-sort id (keys d))
  is_member-ids d (some x) all id e = ground arith

  pub look-put :
      (d : Store C) (id j : Text) (r : Result (ContainerState C))
      → look j (put id r d) ≡ (if text_eq id j then some r else look j d)
  unfolding look put
  look-put [] id j r = refl
  look-put ((k, v) ∷ d) id j r =
      ground (arith, look-put d id j r, text_eq_iff k id, text_eq_iff k j, text_eq_iff id j)

  -- A container that has a name is in the directory.
  pub holds_name-exists :
      (d : Store C) (id n : Text) → holds_name d id n ≡ true → exists d id ≡ true
  unfolding holds_name load exists
  holds_name-exists d id n h = ground (arith, Option-cases (look id d))
