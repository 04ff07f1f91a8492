-- ===== src/Rollback.antt =====
-- src/rollback.rs: the LIFO undo stack of a transactional setup.
-- An undo action is an `FnMut() -> Result<()>`: it changes the world `W` and may fail. The head of
-- `actions` is the back of the vector. Logging is left out.
pub mod Order
pub mod Restore
use Prim.Native.String.{String}
use myrun.Prelude.{
  ℕ, Bool, true, false, not, ◌&&◌, List, [], ◌∷◌, ◌++◌, ◌==◌, length, if◌then◌else◌,
}
use myrun.Error.{Message, lit, Result, ok, err, display}

abbrev pub Action {ℓ} : Type ℓ → Type ℓ
Action W = W → W × Result (Unit {0})

pub record Rollback {ℓ} (W : Type ℓ) : Type ℓ where
  pub actions : List (String × Action W)
  pub committed : Bool

-- `format!("{}: {}", name, e)` for an action that failed
abbrev pub report : String → Result (Unit {0}) → List Message
report name (ok _) = []
report name (err e) = (lit name ∷ lit ": " ∷ display e) ∷ []

module _ {ℓ} {W : Type ℓ} where
  unfoldable pub new : Rollback W
  new = record { actions = []; committed = false }

  unfoldable pub push : Rollback W → String → Action W → Rollback W
  push rb name f = record rb { actions = (name, f) ∷ rb.actions }

  unfoldable pub commit : Rollback W → Rollback W
  commit rb = record { actions = []; committed = true }

  unfoldable pub len : Rollback W → ℕ
  len rb = length rb.actions

  unfoldable pub is_empty : Rollback W → Bool
  is_empty rb = length rb.actions == 0

  -- The loop of `unwind`, with the failures collected so far.
  unfoldable pub unwind_loop : List (String × Action W) → W → List Message → W × List Message
  unwind_loop [] w failed = (w, failed)
  unwind_loop ((name, f) ∷ rest) w failed =
      let (w', r) = f w in unwind_loop rest w' (failed ++ report name r)

  -- The emptied stack, the new world, and the failures.
  unfoldable pub unwind : Rollback W → W → Rollback W × W × List Message
  unfolding unwind_loop
  unwind rb w =
      let (w', failed) = unwind_loop rb.actions w [] in (record rb { actions = [] }, w', failed)

  -- `Drop`: the world that is left when the value goes out of scope.
  unfoldable pub drop : Rollback W → W → W
  unfolding is_empty unwind
  drop rb w = if not rb.committed && not (is_empty rb) then (unwind rb w).1 else w
