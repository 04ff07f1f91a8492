-- ===== src/Store.antt =====
-- src/runtime/state.rs: the state store.
-- The store's directory is a list of the containers that have a state file, in the order in which
-- the directory is read, each with what its file reads as: a state, or the error of reading it.
-- An entry that cannot be read is not in the list. `reads st` is what the file that `save` writes
-- for `st` then reads as; its text, and what `load` makes of it, are in State.Stored. What a failing system call answers is an argument. Paths are left out, and so is the lock, which
-- every caller holds from its beginning to its end.
pub mod Directory
pub mod Create
pub mod Resolve
use myrun.Prelude.{
  Bool, true, false, ◌&&◌, ◌||◌, List, [], ◌∷◌, ◌++◌, Option, none, some, ltb, ◌==◌, if◌then◌else◌,
}
use myrun.Text.{Text, codes, text_eq, starts_with}
use myrun.Error.{Error, Result, ◌>>=◌, ok, err, lit, shown, quoted}
use myrun.State.{ContainerState, short_id}

-- `Ord` on `String`: by code point, a prefix first
unfoldable pub text_ltb : Text → Text → Bool
text_ltb [] [] = false
text_ltb [] (y ∷ ys) = true
text_ltb (x ∷ xs) [] = false
text_ltb (x ∷ xs) (y ∷ ys) = ltb x y || (x == y && text_ltb xs ys)

-- `sort()`
unfoldable pub insert : Text → List Text → List Text
insert x [] = x ∷ []
insert x (y ∷ ys) = let rest = insert x ys in if text_ltb y x then y ∷ rest else x ∷ y ∷ ys

unfoldable pub sort : List Text → List Text
sort [] = []
sort (x ∷ xs) = insert x (sort xs)

-- `name.as_deref() == Some(needle)`
abbrev pub is_named : Option Text → Text → Bool
is_named none needle = false
is_named (some n) needle = text_eq n needle

-- `short_id` of each, with commas between
abbrev pub short_ids : List Text → Text
short_ids [] = []
short_ids (id ∷ []) = short_id id
short_ids (id ∷ ids) = short_id id ++ codes ", " ++ short_ids ids

-- The outcome of the loop over the ids: an id found by name, or those that begin with the needle.
pub data Found : Type 0 where
  by_name : Text → Found
  by_prefix : List Text → Found

abbrev pub also : Text → Found → Found
also id (by_name n) = by_name n
also id (by_prefix ids) = by_prefix (id ∷ ids)

abbrev pub settle : Text → Found → Result Text
settle needle (by_name id) = ok id
settle needle (by_prefix []) = err (Error.not_found (lit "container " ∷ quoted needle ∷ []))
settle needle (by_prefix (id ∷ [])) = ok id
settle needle (by_prefix (id ∷ more)) = err (
    Error.usage (
      lit "container id prefix "
      ∷ quoted needle
      ∷ lit " is ambiguous: "
      ∷ shown (short_ids (id ∷ more))
      ∷ []))

abbrev pub Store : Type 0 → Type 0
Store C = List (Text × Result (ContainerState C))

module _ {C : Type 0} where
  unfoldable pub look : Text → Store C → Option (Result (ContainerState C))
  look id [] = none
  look id ((k, r) ∷ d) = if text_eq k id then some r else look id d

  abbrev pub is_there : Option (Result (ContainerState C)) → Bool
  is_there none = false
  is_there (some r) = true

  unfoldable pub exists : Store C → Text → Bool
  exists d id = is_there (look id d)

  abbrev pub keys : Store C → List Text
  keys [] = []
  keys ((k, r) ∷ d) = k ∷ keys d

  -- `reading` is what `read_dir` answers
  unfoldable pub ids : Store C → Option Error → Result (List Text)
  ids d none = ok (sort (keys d))
  ids d (some e) = err e

  unfoldable pub load : Store C → Text → Result (ContainerState C)
  load d id = elim (look id d) [
    | none ↦ err (Error.not_found (lit "container " ∷ shown (short_id id) ∷ []))
    | some r ↦ r
  ]

  unfoldable pub put : Text → Result (ContainerState C) → Store C → Store C
  put id r [] = (id, r) ∷ []
  put id r ((k, v) ∷ d) =
      let rest = put id r d in if text_eq k id then (k, r) ∷ d else (k, v) ∷ rest

  -- `writing` is what the directory's creation and the file's replacement answer.
  unfoldable pub save :
      (ContainerState C → Result (ContainerState C))
      → Store C
      → Option Error
      → ContainerState C
      → Store C × Result (Unit {0})
  save reads d none st = (put st.id (reads st) d, ok tt)
  save reads d (some e) st = (d, err e)

  -- `if let Ok(st) = self.load(&id)`, and its name is the one looked for
  unfoldable pub holds_name : Store C → Text → Text → Bool
  holds_name d id needle = elim (load d id) [ ok st ↦ is_named st.name needle | err e ↦ false ]

  -- The loop of `create`: the first container that has the name.
  unfoldable pub name_user : Store C → Text → List Text → Option Text
  name_user d name [] = none
  name_user d name (id ∷ rest) = if holds_name d id name then some id else name_user d name rest

  abbrev pub check_name : Store C → Option Error → Option Text → Result (Unit {0})
  check_name d reading none = ok tt
  check_name d reading (some name) = do
    all ← ids d reading
    elim (name_user d name all) [
      | none ↦ ok tt
      | some id ↦ err (
          Error.already_exists (
            lit "container name "
            ∷ quoted name
            ∷ lit " (used by "
            ∷ shown (short_id id)
            ∷ lit ")"
            ∷ []))
    ]

  -- `configured` is what writing config.json answers, its directory included.
  unfoldable pub create :
      (ContainerState C → Result (ContainerState C))
      → Store C
      → Option Error
      → Option Error
      → Option Error
      → ContainerState C
      → Store C × Result (Unit {0})
  unfolding exists
  create reads d reading configured writing st =
      if exists d st.id
      then (d, err (Error.already_exists (lit "container " ∷ shown (short_id st.id) ∷ [])))
      else elim (check_name d reading st.name) [
        | err e ↦ (d, err e)
        | ok u ↦ elim configured [ some e ↦ (d, err e) | none ↦ save reads d writing st ]
      ]

  -- The loop of `resolve`; an id that begins with the needle is not looked into.
  unfoldable pub search_ids : Store C → Text → List Text → Found
  search_ids d needle [] = by_prefix []
  search_ids d needle (id ∷ rest) =
      let later = search_ids d needle rest in
      if starts_with needle id
      then also id later
      else if holds_name d id needle
      then by_name id
      else later

  unfoldable pub resolve : Store C → Option Error → Text → Result Text
  unfolding search_ids
  resolve d reading [] = err (Error.usage (lit "no container specified" ∷ []))
  resolve d reading (c ∷ cs) =
      if exists d (c ∷ cs)
      then ok (c ∷ cs)
      else do all ← ids d reading; settle (c ∷ cs) (search_ids d (c ∷ cs) all)

  unfoldable pub delete : Text → Store C → Store C
  delete id [] = []
  delete id ((k, r) ∷ d) = let rest = delete id d in if text_eq k id then rest else (k, r) ∷ rest

  -- `failure` is the error of a removal that stops half way, and whether the state file is left.
  unfoldable pub remove : Store C → Option (Error × Bool) → Text → Store C × Result (Unit {0})
  remove d none id = (delete id d, ok tt)
  remove d (some (e, left)) id = ((if left then d else delete id d), err e)

  -- `sort_by_key(|s| s.created_at)`, which is stable
  unfoldable pub insert_state : ContainerState C → List (ContainerState C) → List (ContainerState C)
  insert_state x [] = x ∷ []
  insert_state x (y ∷ ys) =
      let rest = insert_state x ys in if ltb y.created_at x.created_at then y ∷ rest else x ∷ y ∷ ys

  unfoldable pub sort_states : List (ContainerState C) → List (ContainerState C)
  sort_states [] = []
  sort_states (x ∷ xs) = insert_state x (sort_states xs)

  -- the states that can be read
  unfoldable pub readable : Store C → List Text → List (ContainerState C)
  readable d [] = []
  readable d (id ∷ rest) = elim (load d id) [
    | ok st ↦ st ∷ readable d rest
    | err e ↦ readable d rest
  ]

  unfoldable pub list : Store C → Option Error → Result (List (ContainerState C))
  unfolding sort_states readable
  list d reading = do all ← ids d reading; ok (sort_states (readable d all))
