-- ===== src/Rules/Unique.antt =====
-- src/runtime/nat.rs: a rule that is there is not added again.
use myrun.Prelude.{◌≡◌, refl, sym, ap, ◌∙◌, inl, inr, true, false, List, ◌∷◌, arith, Bool-cases}
use myrun.Text.{Text, codes}
use myrun.Error.{Result, ok, err}
use myrun.Rules.{unique, checked, succeeds, no_output}

module _ {W : Type 0} (run : List Text → W → W × Result Text) where
  pub no_output-world : (r : W × Result Text) → (no_output run r).0 ≡ r.0
  no_output-world (w, ok s) = refl
  no_output-world (w, err e) = refl

  pub no_output-succeeds :
      (r : W × Result Text) → (no_output run r).1 ≡ ok tt → succeeds run r.1 ≡ true
  no_output-succeeds (w, ok s) e = refl
  no_output-succeeds (w, err e) h = ground arith

  pub unique-present :
      (command table : Text) (args : List Text) (w : W)
      → (checked run table args w).0 ≡ w
      → succeeds run (checked run table args w).1 ≡ true
      → unique run command table args w ≡ (w, ok tt)
  unfolding unique
  unique-present command table args w k e = rw e (ap (λ x. (x, ok tt)) k)

  pub unique-absent :
      (command table : Text) (args : List Text) (w : W)
      → (checked run table args w).0 ≡ w
      → succeeds run (checked run table args w).1 ≡ false
      → unique run command table args w
        ≡ no_output run (run (codes "-t" ∷ table ∷ command ∷ args) w)
  unfolding unique
  unique-absent command table args w k e =
      rw e (ap (λ x. no_output run (run (codes "-t" ∷ table ∷ command ∷ args) x)) k)

  -- Provided a check changes nothing and finds each rule that the command added, adding a rule a
  -- second time after a success succeeds and changes nothing.
  pub unique-unique :
      (command table : Text) (args : List Text) (w : W)
      → ((v : W) → (checked run table args v).0 ≡ v)
      → ((v : W)
          → succeeds run (run (codes "-t" ∷ table ∷ command ∷ args) v).1 ≡ true
          → succeeds run (checked run table args (run (codes "-t" ∷ table ∷ command ∷ args) v).0).1
            ≡ true)
      → (unique run command table args w).1 ≡ ok tt
      → unique run command table args (unique run command table args w).0
        ≡ ((unique run command table args w).0, ok tt)
  unique-unique command table args w kept found e =
      unique-present command table args (unique run command table args w).0 (kept _)
        (elim (Bool-cases (succeeds run (checked run table args w).1)) [
          | inl y ↦ rw (ap (λ r. r.0) (unique-present command table args w (kept w) y)) y
          | inr n ↦
              let u = unique-absent command table args w (kept w) n in
              rw (ap (λ r. r.0) u ∙ no_output-world (run (codes "-t" ∷ table ∷ command ∷ args) w))
                (found w (no_output-succeeds _ (sym (ap (λ r. r.1) u) ∙ e)))
        ])
