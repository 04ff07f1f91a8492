-- ===== src/Rollback/Order.antt =====
-- src/rollback.rs: in which order undo actions run, and what their failures leave.
use Prim.Native.String.{String}
use mathlib.Core.List.{append-nil, append_assoc, reverse-cons}
use myrun.Prelude.{◌≡◌, refl, ◌∙◌, false, List, [], ◌∷◌, ◌++◌, reverse}
use myrun.Error.{Message}
use myrun.Rollback.{Action, Rollback, new, push, report, unwind_loop, unwind}

module _ {ℓ} {W : Type ℓ} where
  -- Actions registered one after the other, the first of the list first.
  unfoldable pub push_all : Rollback W → List (String × Action W) → Rollback W
  push_all rb [] = rb
  push_all rb ((name, f) ∷ fs) = push_all (push rb name f) fs

  -- What undoing should do to actions listed in the order of their registration: those after the
  -- first are undone, then the first, whether or not the others failed.
  unfoldable pub undo_all : List (String × Action W) → W → W × List Message
  undo_all [] w = (w, [])
  undo_all ((name, f) ∷ fs) w =
      let (w', failed) = undo_all fs w in let (w'', r) = f w' in (w'', failed ++ report name r)

  push_all-actions :
      (fs : List (String × Action W)) (rb : Rollback W)
      → push_all rb fs ≡ record rb { actions = reverse fs ++ rb.actions }
  unfolding push_all push
  push_all-actions [] rb = refl
  push_all-actions ((name, f) ∷ fs) rb =
      push_all-actions fs (push rb name f)
      ∙ rw (reverse-cons (name, f) fs, append_assoc (reverse fs) ((name, f) ∷ []) rb.actions) refl

  unwind_loop-append :
      (xs ys : List (String × Action W)) (w : W) (failed : List Message)
      → unwind_loop (xs ++ ys) w failed
        ≡ (let (w', failed') = unwind_loop xs w failed in unwind_loop ys w' failed')
  unfolding unwind_loop
  unwind_loop-append [] ys w failed = refl
  unwind_loop-append ((name, f) ∷ xs) ys w failed =
      unwind_loop-append xs ys (f w).0 (failed ++ report name (f w).1)

  unwind_loop-undo_all :
      (fs : List (String × Action W)) (w : W) (failed : List Message)
      → unwind_loop (reverse fs) w failed ≡ ((undo_all fs w).0, failed ++ (undo_all fs w).1)
  unfolding undo_all unwind_loop
  unwind_loop-undo_all [] w failed = rw append-nil
  unwind_loop-undo_all ((name, f) ∷ fs) w failed =
      rw
        (
          reverse-cons (name, f) fs,
          unwind_loop-append (reverse fs) ((name, f) ∷ []) w failed,
          unwind_loop-undo_all fs w failed,
        )
        (rw append_assoc)

  -- `unwind` on a fresh stack undoes the registered actions from the last to the first. Every action
  -- runs, also after another has failed; the failures are reported in the order in which they happened;
  -- and the stack is left empty.
  pub unwind-push_all :
      (fs : List (String × Action W)) (w : W)
      → unwind (push_all new fs) w ≡ (new, (undo_all fs w).0, (undo_all fs w).1)
  unfolding unwind new
  unwind-push_all fs w =
      rw
        (
          push_all-actions fs (record { actions = []; committed = false }),
          append-nil (reverse fs),
          unwind_loop-undo_all fs w [],
        )
        refl
