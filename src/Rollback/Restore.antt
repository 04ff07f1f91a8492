-- ===== src/Rollback/Restore.antt =====
-- src/rollback.rs: the world that a setup leaves when its stack goes out of scope.
use Prim.Native.String.{String}
use mathlib.Core.Path.{subst}
use myrun.Prelude.{◌≡◌, refl, false, not, length, List, [], ◌∷◌, ◌++◌, arith, ◌==◌, if◌then◌else◌}
use myrun.Error.{Message}
use myrun.Rollback.{Action, Rollback, new, push, commit, report, unwind_loop, drop}

-- `Near w v`: `v` differs from `w` at most in what the setup is not asked to take back.
module _ {ℓ} {W : Type ℓ} (Near : W → W → Type ℓ) where
  -- The history of a setup that began in `start` with an empty stack: what is registered, and the
  -- world so far. An operation that is `registered` leads to `w'`, from where its undo leads back
  -- near the world before it; one that is `strayed` registers no undo, or failed half way.
  pub data Setup (start : W) : Rollback W → W → Type ℓ where
    begun : Setup start new start
    registered :
        {rb : Rollback W} {w : W} (w' : W) (name : String) (undo : Action W)
        → Setup start rb w
        → ((a b : W) → Near a b → Near (undo a).0 (undo b).0)
        → Near w (undo w').0
        → Setup start (push rb name undo) w'
    strayed : {rb : Rollback W} {w : W} (w' : W) → Setup start rb w → Near w w' → Setup start rb w'

  unwind_loop-world :
      (fs : List (String × Action W)) (w : W) (failed failed' : List Message)
      → (unwind_loop fs w failed).0 ≡ (unwind_loop fs w failed').0
  unfolding unwind_loop
  unwind_loop-world [] w failed failed' = refl
  unwind_loop-world ((name, f) ∷ fs) w failed failed' =
      unwind_loop-world fs (f w).0 (failed ++ report name (f w).1) (failed' ++ report name (f w).1)

  -- an empty stack is skipped by `drop`, and unwinding it would change nothing either
  skip_empty :
      (fs : List (String × Action W)) (w : W)
      → (if not (length fs == 0) then (unwind_loop fs w []).0 else w) ≡ (unwind_loop fs w []).0
  unfolding unwind_loop
  skip_empty [] w = refl
  skip_empty (f ∷ fs) w = ground arith

  armed : {start : W} {rb : Rollback W} {w : W} → Setup start rb w → rb.committed ≡ false
  unfolding push new
  armed begun = refl
  armed (registered w' name undo s m u) = armed s
  armed (strayed w' s n) = armed s

  module _ (transitive : (a b c : W) → Near a b → Near b c → Near a c) where
    -- From any world near the one reached, unwinding leads near the start.
    leads_back :
        {start w : W} {rb : Rollback W}
        → Setup start rb w
        → (v : W) → Near w v
        → Near start (unwind_loop rb.actions v []).0
    unfolding push new unwind_loop
    leads_back begun v n = n
    leads_back {start} (registered {rb} {w} w' name undo s m u) v n =
        subst (λ x. Near start x)
          (unwind_loop-world rb.actions (undo v).0 [] ([] ++ report name (undo v).1))
          (leads_back s (undo v).0 (transitive w (undo w').0 (undo v).0 u (m w' v n)))
    leads_back (strayed {rb} {w} w' s near) v n = leads_back s v (transitive w w' v near n)

    -- Provided `Near` is reflexive and transitive: a setup that goes out of scope without a commit,
    -- at any point of its history, leaves a world that is near the one in which it began, and one
    -- that commits first leaves the world as it is. The history asks that each registered undo
    -- leads back near the world before its operation and keeps near worlds near, and that an
    -- operation without an undo, or one that failed half way, leads to a near world.
    pub drop_restores :
        (start w : W) (rb : Rollback W)
        → ((a : W) → Near a a)
        → Setup start rb w
        → Near start (drop rb w) × (drop (commit rb) w ≡ w)
    unfolding drop commit
    drop_restores start w rb reflexive s =
        (rw (armed s, drop) (rw (skip_empty rb.actions w) (leads_back s w (reflexive w))), refl)
