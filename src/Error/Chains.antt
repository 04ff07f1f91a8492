-- ===== src/Error/Chains.antt =====
-- Chains of fallible steps: what a chain that succeeds says of its steps.
use mathlib.Core.Path.{subst}
use myrun.Prelude.{◌≡◌, refl, sym, ap}
use myrun.Error.{Error, Result, ok, err, ◌>>=◌}

abbrev IsOk {ℓ} : {A : Type ℓ} → Result A → Type 0
IsOk (ok a) = Unit {0}
IsOk (err e) = ⊥

-- An error is no result.
pub refused {ℓ} : {A : Type ℓ} {e : Error} {a : A} → err e ≡ ok a → ⊥
refused p = subst IsOk (sym p) tt

-- Both steps of a chain that succeeds succeed.
pub bind_ok {ℓ κ} :
    {A : Type ℓ} {B : Type κ} (r : Result A) (next : A → Result B) (b : B)
    → (r >>= next) ≡ ok b
    → (a : A) × (r ≡ ok a) × (next a ≡ ok b)
bind_ok (ok a) next b h = (a, refl, h)
bind_ok (err e) next b h = absurd (refused h)

abbrev value {ℓ} : {A : Type ℓ} → A → Result A → A
value d (ok a) = a
value d (err e) = d

pub ok_inj {ℓ} : {A : Type ℓ} (a b : A) → ok a ≡ ok b → a ≡ b
ok_inj a b h = ap (value a) h

-- The result, if there is one, has the property.
abbrev pub Ensures {ℓ} : {A : Type ℓ} → (A → Type 0) → Result A → Type 0
Ensures P (ok a) = P a
Ensures P (err e) = Unit {0}

pub Ensures_ok {ℓ} :
    {A : Type ℓ} (P : A → Type 0) (r : Result A) (a : A) → Ensures P r → r ≡ ok a → P a
Ensures_ok P r a h p = subst (Ensures P) p h

-- A chain of four steps that are read first and put together last.
pub Ensures-chain :
    {A B C D E : Type 0} (P : E → Type 0) (a : Result A) (b : Result B) (c : Result C)
    (d : Result D) (put : A → B → C → D → E)
    → ((x : A) (y : B) (z : C) (w : D) → P (put x y z w))
    → Ensures P (a >>= λ x. b >>= λ y. c >>= λ z. d >>= λ w. ok (put x y z w))
Ensures-chain P (ok a) (ok b) (ok c) (ok d) put h = h a b c d
Ensures-chain P (err e) b c d put h = tt
Ensures-chain P (ok a) (err e) c d put h = tt
Ensures-chain P (ok a) (ok b) (err e) d put h = tt
Ensures-chain P (ok a) (ok b) (ok c) (err e) put h = tt
