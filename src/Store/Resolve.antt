-- ===== src/Store/Resolve.antt =====
-- src/runtime/state.rs: what `resolve` may answer.
use myrun.Prelude.{
  ◌≡◌, ◌↔◌, sym, ◌∙◌, inl, inr, true, false, List, [], ◌∷◌, Option, arith, Bool-cases,
}
use myrun.Text.{Text, starts_with}
use myrun.Text.Laws.{text_eq_iff}
use myrun.Error.{Error, ok, Result-cases}
use myrun.Store.{
  Store, Found, by_name, by_prefix, also, exists, ids, holds_name, search_ids, settle, resolve,
}
use myrun.Store.Directory.{is_member, is_member-ids}

module _ {C : Type 0} where
  -- What the loop finds is among the ids, and it misses no id that begins with the needle.
  pub IsFound : Store C → Text → List Text → Found → Type 0
  IsFound d needle all (by_name id) = (is_member id all ≡ true) × (holds_name d id needle ≡ true)
  IsFound d needle all (by_prefix found) =
      (j : Text)
      → (is_member j found ≡ true) ↔ ((is_member j all ≡ true) × (starts_with needle j ≡ true))

  search_ids-IsFound :
      (d : Store C) (needle : Text) (all : List Text)
      → IsFound d needle all (search_ids d needle all)
  unfolding IsFound search_ids
  search_ids-IsFound d needle [] = λ j. ground arith
  search_ids-IsFound d needle (id ∷ rest) = elim (Bool-cases (starts_with needle id)) [
    | inl s ↦ rw s (pushed (search_ids d needle rest) (search_ids-IsFound d needle rest) s)
    | inr s ↦ elim (Bool-cases (holds_name d id needle)) [
      | inl n ↦ rw (s, n) (ground (arith, text_eq_iff id id), n)
      | inr n ↦ rw (s, n) (passed (search_ids d needle rest) (search_ids-IsFound d needle rest) s)
    ]
  ]
    where
      pushed :
          (f : Found)
          → IsFound d needle rest f
          → starts_with needle id ≡ true
          → IsFound d needle (id ∷ rest) (also id f)
      pushed (by_name n) (m, h) s = (ground arith, h)
      pushed (by_prefix found) all s = λ j. ground (arith, all j, text_eq_iff id j)

      passed :
          (f : Found)
          → IsFound d needle rest f
          → starts_with needle id ≡ false
          → IsFound d needle (id ∷ rest) f
      passed (by_name n) (m, h) s = (ground arith, h)
      passed (by_prefix found) all s = λ j. ground (arith, all j, text_eq_iff id j)

  -- What a needle may stand for: the id itself, a container's name, or the one id that begins so.
  pub data Means (d : Store C) (needle id : Text) : Type 0 where
    itself : id ≡ needle → Means d needle id
    named : holds_name d id needle ≡ true → Means d needle id
    only_one :
        starts_with needle id ≡ true
        → ((j : Text) → exists d j ≡ true → starts_with needle j ≡ true → j ≡ id)
        → Means d needle id

  settled :
      (d : Store C) (needle id : Text) (reading : Option Error) (all : List Text) (f : Found)
      → ids d reading ≡ ok all
      → IsFound d needle all f
      → settle needle f ≡ ok id
      → (exists d id ≡ true) × Means d needle id
  unfolding IsFound
  settled d needle id reading all (by_name n) e (m, h) s =
      let same : n ≡ id = ground arith in
      (sym (is_member-ids d reading all id e) ∙ rw (sym same) m, named (rw (sym same) h))
  settled d needle id reading all (by_prefix []) e found s = absurd (ground arith)
  settled d needle id reading all (by_prefix (x ∷ [])) e found s =
      let same : x ≡ id = ground arith in
      let (m, p) = (found id).0 (ground (arith, text_eq_iff x id)) in
      (
        sym (is_member-ids d reading all id e) ∙ m,
        only_one p (λ j there q.
            ground
              (arith, (found j).1 (is_member-ids d reading all j e ∙ there, q), text_eq_iff x j)),
      )
  settled d needle id reading all (by_prefix (x ∷ y ∷ more)) e found s = absurd (ground arith)

  -- What `resolve` answers is a container of the store, and it is the needle itself, or has the
  -- needle as its name, or is the only container whose id begins with the needle: an ambiguous
  -- prefix is never resolved.
  pub resolve_sound :
      (d : Store C) (reading : Option Error) (needle id : Text)
      → resolve d reading needle ≡ ok id
      → (exists d id ≡ true) × Means d needle id
  unfolding resolve
  resolve_sound d reading [] id e = absurd (ground arith)
  resolve_sound d reading (c ∷ cs) id e = elim (Bool-cases (exists d (c ∷ cs))) [
    | inl x ↦ let same : id ≡ c ∷ cs = ground (arith, x) in (rw same x, itself same)
    | inr x ↦ elim (Result-cases (ids d reading)) [
      | inr (y, h) ↦ absurd (ground (arith, x, h))
      | inl (all, h) ↦
          settled d (c ∷ cs) id reading all (search_ids d (c ∷ cs) all) h
            (search_ids-IsFound d (c ∷ cs) all) (ground (arith, x, h))
    ]
  ]
