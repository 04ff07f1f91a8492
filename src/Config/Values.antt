-- ===== src/Config/Values.antt =====
-- src/config.rs: what `env_value` finds after `set_env`.
use myrun.Prelude.{
  inl, inr, ◌≡◌, refl, ap, sym, ◌∙◌, Bool, true, false, List, [], ◌∷◌, ◌++◌, Option, none, some,
  arith, Bool-cases, if◌then◌else◌,
}
use myrun.Text.{Text, starts_with, strip_prefix, has_char}
use myrun.Text.Laws.{split_once-append, strip_prefix-append}
use myrun.Config.{key_of, drop_key, set_env, env_value, find_key}
use myrun.Config.Environment.{starts_with-rest}

key_of-pair : (k v : Text) → has_char b'=' k ≡ false → key_of (k ++ b'=' ∷ v) ≡ k
key_of-pair k v h =
    ap (λ o. elim o as (λ _. Text) [ none ↦ k ++ b'=' ∷ v | some (a, b) ↦ a ])
      (split_once-append b'=' k v h)

strip_none : (p s : Text) → starts_with p s ≡ false → strip_prefix p s ≡ none
unfolding strip_prefix starts_with
strip_none [] s h = ground (arith, h)
strip_none (c ∷ p) [] h = refl
strip_none (c ∷ p) (d ∷ s) h = ground (arith, h, strip_none p s)

abbrev first : Option Text → Option Text → Option Text
first rest o = elim o [ some v ↦ some v | none ↦ rest ]

find-drop : (p s : Text) (env : List Text) → find_key p (drop_key p env ++ (p ++ s) ∷ []) ≡ some s
unfolding find_key drop_key
find-drop p s [] = ap (first none) (strip_prefix-append p s)
find-drop p s (e ∷ env) = elim (Bool-cases (starts_with p e)) [
  | inl t ↦ ap after t ∙ find-drop p s env
  | inr f ↦
      ap after f
      ∙ ap (first (find_key p (drop_key p env ++ (p ++ s) ∷ []))) (strip_none p e f)
      ∙ find-drop p s env
]
  where
    after : Bool → Option Text
    after b = find_key p ((if b then drop_key p env else e ∷ drop_key p env) ++ (p ++ s) ∷ [])

append_pair : (k v : Text) → (k ++ b'=' ∷ []) ++ v ≡ k ++ b'=' ∷ v
append_pair [] v = refl
append_pair (c ∷ k) v = ap (◌∷◌ c) (append_pair k v)

-- What was set is found.
pub env_value-set_env :
    (k v : Text) (env : List Text)
    → has_char b'=' k ≡ false
    → env_value k (set_env (k ++ b'=' ∷ v) env) ≡ some v
unfolding env_value set_env
env_value-set_env k v env h =
    ap (λ key. find_key (k ++ b'=' ∷ []) (drop_key (key ++ b'=' ∷ []) env ++ (k ++ b'=' ∷ v) ∷ []))
      (key_of-pair k v h)
    ∙ ap (λ kv. find_key (k ++ b'=' ∷ []) (drop_key (k ++ b'=' ∷ []) env ++ kv ∷ []))
        (sym (append_pair k v))
    ∙ find-drop (k ++ b'=' ∷ []) v env

-- No text starts with the prefixes of two variables.
apart :
    (j k e : Text)
    → has_char b'=' j ≡ false
    → has_char b'=' k ≡ false
    → ¬ (j ≡ k)
    → starts_with (k ++ b'=' ∷ []) e ≡ true
    → starts_with (j ++ b'=' ∷ []) e ≡ false
apart j k e hj hk ne t = elim (Bool-cases (starts_with (j ++ b'=' ∷ []) e)) [
  | inr f ↦ f
  | inl u ↦ absurd (ne (sym (key j u hj) ∙ key k t hk))
]
  where
    key :
        (x : Text) → starts_with (x ++ b'=' ∷ []) e ≡ true → has_char b'=' x ≡ false → key_of e ≡ x
    key x w h =
        let (r, q) = starts_with-rest (x ++ b'=' ∷ []) e w in
        ap key_of (q ∙ append_pair x r) ∙ key_of-pair x r h

find_other :
    (j k : Text) (env : List Text)
    → has_char b'=' j ≡ false
    → has_char b'=' k ≡ false
    → ¬ (j ≡ k)
    → (kv : Text) → starts_with (j ++ b'=' ∷ []) kv ≡ false
    → find_key (j ++ b'=' ∷ []) (drop_key (k ++ b'=' ∷ []) env ++ kv ∷ [])
      ≡ find_key (j ++ b'=' ∷ []) env
unfolding find_key drop_key
find_other j k [] hj hk ne kv f = ap (first none) (strip_none (j ++ b'=' ∷ []) kv f)
find_other j k (e ∷ env) hj hk ne kv f = elim (Bool-cases (starts_with (k ++ b'=' ∷ []) e)) [
  | inl t ↦
      ap after t
      ∙ find_other j k env hj hk ne kv f
      ∙ sym (
          ap (first (find_key (j ++ b'=' ∷ []) env))
            (strip_none (j ++ b'=' ∷ []) e (apart j k e hj hk ne t)))
  | inr n ↦
      ap after n
      ∙ ap (λ rest. first rest (strip_prefix (j ++ b'=' ∷ []) e)) (find_other j k env hj hk ne kv f)
]
  where
    after : Bool → Option Text
    after b = find_key (j ++ b'=' ∷ []) (
        (if b then drop_key (k ++ b'=' ∷ []) env else e ∷ drop_key (k ++ b'=' ∷ []) env) ++ kv ∷ [])

starts_with-append : (p s : Text) → starts_with (p ++ b'=' ∷ []) (p ++ b'=' ∷ s) ≡ true
unfolding starts_with
starts_with-append [] s = refl
starts_with-append (c ∷ p) s = ground (arith, starts_with-append p s)

-- The other variables keep their values.
pub env_value_other :
    (j k v : Text) (env : List Text)
    → has_char b'=' j ≡ false
    → has_char b'=' k ≡ false
    → ¬ (j ≡ k)
    → env_value j (set_env (k ++ b'=' ∷ v) env) ≡ env_value j env
unfolding env_value set_env
env_value_other j k v env hj hk ne =
    ap (λ key. find_key (j ++ b'=' ∷ []) (drop_key (key ++ b'=' ∷ []) env ++ (k ++ b'=' ∷ v) ∷ []))
      (key_of-pair k v hk)
    ∙ find_other j k env hj hk ne (k ++ b'=' ∷ v)
        (apart j k (k ++ b'=' ∷ v) hj hk ne (starts_with-append k v))
