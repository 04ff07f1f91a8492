-- ===== src/Store/Create.antt =====
-- src/runtime/state.rs: what `create` does to the store.
use myrun.Prelude.{
  ◌≡◌, ◌≢◌, inl, inr, true, false, Option, none, some, arith, Bool-cases, Option-cases,
}
use myrun.Text.{Text}
use myrun.Text.Laws.{text_eq_iff}
use myrun.Error.{Error, Result, ok, err, Result-cases}
use myrun.Floats.{Floats}
use myrun.State.{ContainerState}
use myrun.Store.{Store, is_named, look, exists, load, save, holds_name, check_name, create}

same_name : (o : Option Text) (n m : Text) → is_named o n ≡ true → is_named o m ≡ true → n ≡ m
same_name none n m h k = absurd (ground arith)
same_name (some x) n m h k = ground (arith, text_eq_iff x n, text_eq_iff x m)

module _ {C : Type 0} where
  -- No two containers of the store have a name in common.
  pub UniqueNames : Store C → Type 0
  UniqueNames d = (i j n : Text) → holds_name d i n ≡ true → holds_name d j n ≡ true → i ≡ j

  -- What a successful `create` has checked and done.
  pub record Added (d d' : Store C) (st stored : ContainerState C) : Type 0 where
    pub id_was_free : exists d st.id ≡ false
    pub name_was_free : (n i : Text) → is_named st.name n ≡ true → holds_name d i n ≡ false
    pub there : load d' st.id ≡ ok stored
    pub others : (j : Text) → j ≢ st.id → look j d' ≡ look j d
    pub unique : UniqueNames d → UniqueNames d'

  -- A `create` that fails, at whichever step, leaves every container as it was.
  pub create_refused :
      (reads : ContainerState C → Result (ContainerState C)) (d d' : Store C)
      (reading configured writing : Option Error) (st : ContainerState C) (x : Error)
      → create reads d reading configured writing st ≡ (d', err x)
      → d' ≡ d
  unfolding create save
  create_refused reads d d' reading configured writing st x e = elim (Bool-cases (exists d st.id)) [
    | inl h ↦ ground (arith, h)
    | inr h ↦ elim (Result-cases (check_name d reading st.name)) [
      | inr (y, c) ↦ ground (arith, h, c)
      | inl (u, c) ↦ elim (Option-cases configured) [
        | inr (z, k) ↦ ground (arith, h, c, k)
        | inl k ↦ elim (Option-cases writing) [
          | inr (z, w) ↦ ground (arith, h, c, k, w)
          | inl w ↦ absurd (ground (arith, h, c, k, w))
        ]
      ]
    ]
  ]
