-- ===== src/Fault/Armed.antt =====
-- src/fault.rs: which points a setting of MYRUN_FAULT arms.
use myrun.Prelude.{
  ◌≡◌, refl, ◌↔◌, ◌⊎◌, inl, inr, ◌≢◌, true, List, [], ◌∷◌, Option, some, arith, if◌then◌else◌,
  Bool-cases,
}
use myrun.Text.{Text, trim, split}
use myrun.Text.Laws.{text_eq_iff}
use myrun.Error.{Error, ok, err, shown}
use myrun.Fault.{points, contains, trim_names, armed, check, validate_names, validate_env}

-- A piece of the setting names the point, blanks round it aside.
unfoldable pub Names : Text → List Text → Type 0
Names point [] = ⊥
Names point (s ∷ ss) = (trim s ≡ point) ⊎ Names point ss

trim_names-Names :
    (point : Text) (ss : List Text)
    → (contains (trim_names ss) point ≡ true) ↔ ((point ≢ []) × Names point ss)
unfolding contains trim_names Names
trim_names-Names point [] = (λ h. cc, λ h. absurd h.1)
trim_names-Names point (s ∷ ss) = let ih = trim_names-Names point ss in split_trim (trim s) refl ih
  where
    split_trim :
        (t : Text)
        → trim s ≡ t
        → ((contains (trim_names ss) point ≡ true) ↔ ((point ≢ []) × Names point ss))
        → (contains (trim_names (s ∷ ss)) point ≡ true)
          ↔ ((point ≢ []) × ((trim s ≡ point) ⊎ Names point ss))
    split_trim [] e ih =
        rw (e, trim_names)
          ((λ h. ((ih.0 h).0, inr (ih.0 h).1)), λ h. ih.1 (h.0, ground (arith, h.0)))
    split_trim (c ∷ cs) e ih =
        rw (e, trim_names)
          (
            (λ h. ground (arith, text_eq_iff (c ∷ cs) point)),
            λ h. ground (arith, text_eq_iff (c ∷ cs) point),
          )

check-contains :
    (env : Option Text) (point : Text)
    → check env point
      ≡ (if contains (armed env) point then err (Error.fault (shown point ∷ [])) else ok tt)
unfolding check contains
check-contains env point = by_names (armed env) refl
  where
    by_names :
        (ps : List Text)
        → armed env ≡ ps
        → check env point
          ≡ (if contains (armed env) point then err (Error.fault (shown point ∷ [])) else ok tt)
    by_names [] e = rw (e, check)
    by_names (p ∷ ps) e = rw (e, check)

-- With MYRUN_FAULT set to `v`, a point fails, with an error that names it, exactly when a piece of
-- `v` between commas names the point (the empty name is never a point); otherwise the check passes.
pub check-Names :
    (v point : Text)
    → ((check (some v) point ≡ err (Error.fault (shown point ∷ [])))
        ↔ ((point ≢ []) × Names point (split b',' v)))
      × (¬ ((point ≢ []) × Names point (split b',' v)) → check (some v) point ≡ ok tt)
unfolding armed
check-Names v point =
    let names = trim_names-Names point (split b',' v) in
    elim (Bool-cases (contains (trim_names (split b',' v)) point)) [
      | inl e ↦
          rw (check-contains (some v) point)
            (rw e ((λ _. names.0 e, λ _. refl), λ n. absurd (n (names.0 e))))
      | inr e ↦
          rw (check-contains (some v) point)
            (rw e ((λ h. cc h, λ h. ground (arith, names.1 h)), λ _. refl))
    ]

known-of-validated :
    (ps : List Text) (point : Text)
    → validate_names ps ≡ ok tt
    → contains ps point ≡ true
    → contains points point ≡ true
unfolding validate_names contains
known-of-validated [] point v h = cc
known-of-validated (p ∷ ps) point v h =
    ground (arith, known-of-validated ps point, text_eq_iff p point)

-- After `validate_env` has passed, a name that makes a check fail is one of the known points.
pub check-validate_env :
    (env : Option Text) (point : Text)
    → validate_env env ≡ ok tt
    → check env point ≢ ok tt
    → contains points point ≡ true
unfolding validate_env
check-validate_env env point v h =
    known-of-validated (armed env) point v (ground (arith, h, check-contains env point))
