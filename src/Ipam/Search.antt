-- ===== src/Ipam/Search.antt =====
-- src/runtime/ipam.rs: the search for a free address.
use myrun.Prelude.{
  ℕ, zero, suc, ◌+◌, ◌≤◌, ◌<◌, ◌≡◌, ◌≢◌, ◌⊎◌, refl, ◌∙◌, inl, inr, true, false, List, none, some,
  arith, ◌==◌, Bool-cases, ==_iff,
}
use myrun.Netlink.Address.{of_u32}
use myrun.Ipam.{Lease, is_taken, find_free}

-- An address that the search passes over: the gateway's, or one that is leased.
abbrev pub Busy : ℕ → List Lease → ℕ → Type 0
Busy gw taken c = (c ≡ gw) ⊎ (is_taken (of_u32 c) taken ≡ true)

-- `c` is what the search over the `n` candidates from `lo` finds: a free one, and the first.
pub record IsFirstFree (gw : ℕ) (taken : List Lease) (lo n c : ℕ) : Type 0 where
  pub from : lo ≤ c
  pub below : c < lo + n
  pub not_gateway : c ≢ gw
  pub not_taken : is_taken (of_u32 c) taken ≡ false
  pub first : (k : ℕ) → lo ≤ k → k < c → Busy gw taken k

Busy-from :
    (gw lo k : ℕ) (taken : List Lease)
    → Busy gw taken lo
    → lo ≤ k
    → (lo + 1 ≤ k → Busy gw taken k)
    → Busy gw taken k
Busy-from gw lo k taken busy a later = elim (Bool-cases (k == lo)) [
  | inl e ↦ rw ((==_iff k lo).0 e) busy
  | inr n ↦ later (ground arith)
]

-- Of `n` candidates from `lo` on the search finds the first that is neither the gateway nor leased,
-- or finds none, and then every one of them is the gateway or leased.
pub find_free_cases :
    (n lo gw : ℕ) (taken : List Lease)
    → ((c : ℕ) × (find_free n lo gw taken ≡ some (of_u32 c)) × IsFirstFree gw taken lo n c)
      ⊎ ((find_free n lo gw taken ≡ none) × ((k : ℕ) → lo ≤ k → k < lo + n → Busy gw taken k))
unfolding find_free
find_free_cases zero lo gw taken = inr (refl, λ k a b. absurd (omega arith))
find_free_cases (suc n) lo gw taken = elim (Bool-cases (lo == gw)) [
  | inl g ↦
      passed (inl ((==_iff lo gw).0 g)) (rw (g, find_free) refl)
        (find_free_cases n (lo + 1) gw taken)
  | inr g ↦ elim (Bool-cases (is_taken (of_u32 lo) taken)) [
    | inl t ↦ passed (inr t) (rw (g, t, find_free) refl) (find_free_cases n (lo + 1) gw taken)
    | inr t ↦ inl (
      lo,
      rw (g, t, find_free) refl,
      record {
        from = omega arith;
        below = omega arith;
        not_gateway = λ e. cc (g, (==_iff lo gw).1 e);
        not_taken = t;
        first = λ k a b. absurd (omega arith);
      },
    )
  ]
]
  where
    passed :
        Busy gw taken lo
        → find_free (suc n) lo gw taken ≡ find_free n (lo + 1) gw taken
        → ((c : ℕ) × (find_free n (lo + 1) gw taken ≡ some (of_u32 c))
            × IsFirstFree gw taken (lo + 1) n c)
          ⊎ ((find_free n (lo + 1) gw taken ≡ none)
              × ((k : ℕ) → lo + 1 ≤ k → k < lo + 1 + n → Busy gw taken k))
        → ((c : ℕ) × (find_free (suc n) lo gw taken ≡ some (of_u32 c))
            × IsFirstFree gw taken lo (suc n) c)
          ⊎ ((find_free (suc n) lo gw taken ≡ none)
              × ((k : ℕ) → lo ≤ k → k < lo + suc n → Busy gw taken k))
    passed busy e (inl (c, h, f)) = inl (
      c,
      e ∙ h,
      record {
        from = omega (arith, f.from);
        below = omega (arith, f.below);
        not_gateway = f.not_gateway;
        not_taken = f.not_taken;
        first = λ k a b. Busy-from gw lo k taken busy a (λ m. f.first k m b);
      },
    )
    passed busy e (inr (h, all)) =
        inr (e ∙ h, λ k a b. Busy-from gw lo k taken busy a (λ m. all k m (omega arith)))
