-- ===== src/Config/Environment.antt =====
-- src/config.rs: the environment, a list of `KEY=VALUE` texts that `set_env` keeps.
use mathlib.Core.Path.{subst}
use mathlib.Core.List.{append_assoc}
use myrun.Prelude.{
  ℕ, inl, inr, ◌≡◌, refl, ap, sym, ◌∙◌, Bool, true, false, ◌||◌, ◌&&◌, List, [], ◌∷◌, ◌++◌, Option,
  none, some, arith, if◌then◌else◌, ◌==◌, Bool-cases,
}
use myrun.Text.{Text, codes, starts_with, split_once, has_char}
use myrun.Text.Laws.{split_once-append}
use myrun.Config.{key_of, drop_key, set_env, default_config}
use myrun.Json.{Json, Items, get}
use myrun.Json.Objects.{array_at, texts_of}
use myrun.Config.Document.{set_envs, set_environment, pairs_of, env_of}

-- what `set_env` of `kv` replaces
abbrev pub prefix_of : Text → Text
prefix_of kv = key_of kv ++ b'=' ∷ []

-- Some entry sets the variable that `e` sets.
abbrev pub covered : Text → List Text → Bool
covered e [] = false
covered e (kv ∷ env) = starts_with (prefix_of kv) e || covered e env

-- No entry is replaced by a later one.
abbrev pub Distinct : List Text → Type 0
Distinct [] = Unit {0}
Distinct (e ∷ env) = (covered e env ≡ false) × Distinct env

-- The environments that setting variables from the default one gives: no entry is replaced by a
-- later one, and each default is there or replaced.
abbrev pub Covers : List Text → List Text → Type 0
Covers env [] = Unit {0}
Covers env (d ∷ ds) = (covered d env ≡ true) × Covers env ds

abbrev pub IsEnvironment : List Text → Type 0
IsEnvironment env = Distinct env × Covers env default_config.env

-- What is left of the older entries.
abbrev uncovered : List Text → List Text → List Text
uncovered env [] = []
uncovered env (d ∷ ds) = let rest = uncovered env ds in if covered d env then rest else d ∷ rest

uncovered-cons :
    (kv : Text) (env ds : List Text)
    → uncovered (kv ∷ env) ds ≡ uncovered env (drop_key (prefix_of kv) ds)
unfolding drop_key
uncovered-cons kv env [] = refl
uncovered-cons kv env (d ∷ ds) = ground (arith, uncovered-cons kv env ds)

uncovered-append :
    (e : Text) (env ds : List Text)
    → covered e env ≡ false
    → uncovered env (ds ++ e ∷ []) ≡ uncovered env ds ++ e ∷ []
uncovered-append e env [] h = ground arith
uncovered-append e env (d ∷ ds) h = ground (arith, uncovered-append e env ds h)

pub set_envs-append : (es env : List Text) → Distinct es → set_envs es env ≡ uncovered es env ++ es
unfolding set_envs set_env
set_envs-append [] env h = none_uncovered env
  where
    none_uncovered : (env : List Text) → env ≡ uncovered [] env ++ []
    none_uncovered [] = refl
    none_uncovered (d ∷ ds) = ap (◌∷◌ d) (none_uncovered ds)
set_envs-append (e ∷ es) env h =
    set_envs-append es (drop_key (prefix_of e) env ++ e ∷ []) h.1
    ∙ ap (λ x. x ++ es) (uncovered-append e es (drop_key (prefix_of e) env) h.0)
    ∙ append_assoc (uncovered es (drop_key (prefix_of e) env)) (e ∷ []) es
    ∙ ap (λ x. x ++ (e ∷ es)) (sym (uncovered-cons e es env))

uncovered_none : (env ds : List Text) → Covers env ds → uncovered env ds ≡ []
uncovered_none env [] h = refl
uncovered_none env (d ∷ ds) h = ground (arith, h.0, uncovered_none env ds h.1)

-- Setting its entries in turn, over the defaults, gives the environment back.
pub set_envs-IsEnvironment :
    (env : List Text) → IsEnvironment env → set_envs env default_config.env ≡ env
set_envs-IsEnvironment env (d, c) =
    set_envs-append env default_config.env d
    ∙ ap (λ x. x ++ env) (uncovered_none env default_config.env c)

covered-append :
    (e kv : Text) (env : List Text)
    → covered e (env ++ kv ∷ []) ≡ (covered e env || starts_with (prefix_of kv) e)
covered-append e kv [] = ground arith
covered-append e kv (d ∷ env) = ground (arith, covered-append e kv env)

pub starts_with-rest : (p e : Text) → starts_with p e ≡ true → (r : Text) × (e ≡ p ++ r)
unfolding starts_with
starts_with-rest [] e h = (e, refl)
starts_with-rest (x ∷ p) [] h = ground (arith, h)
starts_with-rest (x ∷ p) (c ∷ e) h =
    let (r, q) = starts_with-rest p e (and_right (x == c) (starts_with p e) h) in
    (r, ground (arith, h, q))
  where
    and_right : (a b : Bool) → (a && b) ≡ true → b ≡ true
    and_right a b h = ground arith

key_of_lem :
    (sep : ℕ) (e : Text)
    → has_char sep (elim (split_once sep e) [ none ↦ e | some (k, v) ↦ k ]) ≡ false
unfolding split_once has_char
key_of_lem sep [] = refl
key_of_lem sep (c ∷ e) = ground (arith, key_of_lem sep e)

-- A text that starts with a variable's prefix sets that variable.
starts_with-key : (kv e : Text) → starts_with (prefix_of kv) e ≡ true → key_of e ≡ key_of kv
starts_with-key kv e h =
    let (r, q) = starts_with-rest (prefix_of kv) e h in
    ap (λ o. elim o as (λ _. Text) [ none ↦ e | some (k, v) ↦ k ])
      (ap (split_once b'=') (q ∙ append_assoc (key_of kv) (b'=' ∷ []) r)
        ∙ split_once-append b'=' (key_of kv) r (key_of_lem b'=' kv))

covered-drop :
    (d kv : Text) (env : List Text)
    → covered d env ≡ true
    → (covered d (drop_key (prefix_of kv) env) || starts_with (prefix_of kv) d) ≡ true
unfolding drop_key
covered-drop d kv [] h = ground (arith, h)
covered-drop d kv (e ∷ env) h = elim (Bool-cases (starts_with (prefix_of kv) e)) [
  | inl t ↦
      let k = ap (λ x. starts_with (x ++ b'=' ∷ []) d) (starts_with-key kv e t) in
      ground (arith, h, t, k, covered-drop d kv env)
  | inr f ↦ ground (arith, h, f, covered-drop d kv env)
]

covered-set_env :
    (d kv : Text) (env : List Text) → covered d env ≡ true → covered d (set_env kv env) ≡ true
unfolding set_env
covered-set_env d kv env h =
    covered-append d kv (drop_key (prefix_of kv) env) ∙ covered-drop d kv env h

Covers-set_env : (kv : Text) (env ds : List Text) → Covers env ds → Covers (set_env kv env) ds
Covers-set_env kv env [] h = tt
Covers-set_env kv env (d ∷ ds) h = (covered-set_env d kv env h.0, Covers-set_env kv env ds h.1)

drop_key-new :
    (e p : Text) (env : List Text) → covered e env ≡ false → covered e (drop_key p env) ≡ false
unfolding drop_key
drop_key-new e p [] h = refl
drop_key-new e p (d ∷ env) h = ground (arith, h, drop_key-new e p env)

-- Dropping what `kv` replaces and adding it keeps the entries distinct.
Distinct-drop :
    (kv : Text) (env : List Text) → Distinct env → Distinct (drop_key (prefix_of kv) env ++ kv ∷ [])
unfolding drop_key
Distinct-drop kv [] h = (refl, tt)
Distinct-drop kv (e ∷ env) h = elim (Bool-cases (starts_with (prefix_of kv) e)) [
  | inl t ↦
      subst
        (λ b.
          Distinct (
            (if b then drop_key (prefix_of kv) env else e ∷ drop_key (prefix_of kv) env)
            ++ kv ∷ []))
        (sym t) (Distinct-drop kv env h.1)
  | inr f ↦
      subst
        (λ b.
          Distinct (
            (if b then drop_key (prefix_of kv) env else e ∷ drop_key (prefix_of kv) env)
            ++ kv ∷ []))
        (sym f)
        (
          ground (
            arith,
            covered-append e kv (drop_key (prefix_of kv) env),
            drop_key-new e (prefix_of kv) env h.0,
            f,
          ),
          Distinct-drop kv env h.1,
        )
]

-- Setting a variable gives an environment again.
pub set_env-IsEnvironment :
    (kv : Text) (env : List Text) → IsEnvironment env → IsEnvironment (set_env kv env)
unfolding set_env
set_env-IsEnvironment kv env (d, c) =
    (Distinct-drop kv env d, Covers-set_env kv env default_config.env c)

pub set_envs_keeps : (es env : List Text) → IsEnvironment env → IsEnvironment (set_envs es env)
unfolding set_envs
set_envs_keeps [] env h = h
set_envs_keeps (e ∷ es) env h = set_envs_keeps es (set_env e env) (set_env-IsEnvironment e env h)

pub set_environment_keeps :
    (vs : List (Text × Text)) (env : List Text)
    → IsEnvironment env
    → IsEnvironment (set_environment vs env)
unfolding set_environment
set_environment_keeps [] env h = h
set_environment_keeps ((k, v) ∷ vs) env h =
    set_environment_keeps vs (set_env (k ++ b'=' ∷ v) env)
      (set_env-IsEnvironment (k ++ b'=' ∷ v) env h)

pub default_IsEnvironment : IsEnvironment default_config.env
unfolding codes split_once starts_with
default_IsEnvironment = ((refl, (refl, tt)), (refl, (refl, tt)))

-- Whatever a configuration file says, the environment read from it has no entry that a later one
-- replaces, and sets the default variables.
pub env_of-IsEnvironment : (j : Json) → IsEnvironment (env_of j)
unfolding env_of
env_of-IsEnvironment j =
    set_environment_keeps (pairs_of (get j (codes "environment")))
      (base j (array_at j (codes "env"))) (base_lem j (array_at j (codes "env")))
  where
    base : Json → Option Items → List Text
    base j none = default_config.env
    base j (some a) = set_envs (texts_of a) default_config.env

    base_lem : (j : Json) (o : Option Items) → IsEnvironment (base j o)
    base_lem j none = default_IsEnvironment
    base_lem j (some a) = set_envs_keeps (texts_of a) default_config.env default_IsEnvironment
