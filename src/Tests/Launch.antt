-- ===== src/Tests/Launch.antt =====
-- src/rollback.rs, src/fault.rs and src/error.rs on concrete inputs.
use myrun.Prelude.{ℕ, ◌+◌, ◌-◌, ◌*◌, ◌≡◌, ◌≢◌, ◌↔◌, refl, ap, ◌∙◌, true, List, [], ◌∷◌, some}
use Prim.Native.String.{String}
use myrun.Text.{codes, split, trim, is_whitespace, text_eq, trim_start}
use myrun.Error.{Error, ok, err, plain, shown}
use myrun.Fault.{points, validate_names, armed, trim_names, contains, check, validate_env}
use myrun.Fault.Armed.{check-validate_env, check-Names, Names}
use myrun.Rollback.{Action, Rollback, new, push, commit, drop, unwind}
use myrun.Rollback.Order.{push_all, undo_all, unwind-push_all}
use myrun.Rollback.Restore.{Setup, begun, registered, strayed, drop_restores}

-- The world is what is mounted, and a log that nothing takes back.
abbrev World : Type 0
World = ℕ × ℕ

abbrev Near : World → World → Type 0
Near w v = w.0 ≡ v.0

abbrev less : ℕ → Action World
less n (m, log) = ((m - n, log), ok tt)

-- A mount, an operation that fails after it has written to the log, and an address.
abbrev half_done : Rollback World
half_done = push (push new "mount" (less 3)) "address" (less 4)

history : Setup Near (10, 0) half_done (17, 1)
history =
    registered (17, 1) "address" (less 4)
      (strayed (13, 1) (registered (13, 0) "mount" (less 3) begun (λ a b e. ap (λ n. n - 3) e) refl)
        refl)
      (λ a b e. ap (λ n. n - 4) e) refl

drop_restores_example :
    Near (10, 0) (drop half_done (17, 1)) × (drop (commit half_done) (17, 1) ≡ (17, 1))
drop_restores_example =
    drop_restores Near (λ a b c e d. e ∙ d) (10, 0) (17, 1) half_done (λ a. refl) history

abbrev cgroup_error : Error
cgroup_error = Error.container (plain "no cgroup")

abbrev undos : List (String × Action ℕ)
undos = ("mount", λ w. (w * 2, ok tt)) ∷ ("address", λ w. (w + 1, err cgroup_error)) ∷ []

unwind-push_all_example : unwind (push_all new undos) 5 ≡ (new, 12, (undo_all undos 5).1)
unfolding undo_all
unwind-push_all_example = unwind-push_all undos 5

check-validate_env_example : contains points (codes "after_clone") ≡ true
unfolding validate_env validate_names check armed split codes trim trim_names is_whitespace contains
    points text_eq trim_start
check-validate_env_example =
    check-validate_env (some (codes "after_clone")) (codes "after_clone") refl (λ e. cc)

check-Names_example :
    ((check (some (codes "a, b")) (codes "b") ≡ err (Error.fault (shown (codes "b") ∷ [])))
      ↔ ((codes "b" ≢ []) × Names (codes "b") (codes "a" ∷ codes " b" ∷ [])))
    × (¬ ((codes "b" ≢ []) × Names (codes "b") (codes "a" ∷ codes " b" ∷ []))
        → check (some (codes "a, b")) (codes "b") ≡ ok tt)
unfolding codes split
check-Names_example = check-Names (codes "a, b") (codes "b")
