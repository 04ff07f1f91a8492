-- ===== src/Caps/Names.antt =====
-- src/sys/caps.rs: names against numbers, and what the lists of names make of a mask.
use myrun.Prelude.{
  ℕ, ◌≤◌, ◌≡◌, refl, sym, inl, inr, true, List, [], ◌∷◌, ◌++◌, none, some, arith, ◌==◌, Bool-cases,
  ==_iff, Option-cases,
}
use myrun.Text.{
  Text, codes, text_eq, trim, trim_start, is_whitespace, to_ascii_uppercase, strip_prefix,
}
use myrun.Error.{ok}
use myrun.Caps.{
  cap_table, find_cap, parse_cap, find_value, cap_name, any_all, resolve_keep_set, keep_caps,
  drop_caps,
}

abbrev Parses : List (Text × ℕ) → Type 0
Parses [] = Unit {0}
Parses ((k, n) ∷ rest) = (parse_cap (codes "CAP_" ++ k) ≡ ok n) × Parses rest

cap_table-Parses : Parses cap_table
unfolding cap_table parse_cap find_cap codes trim trim_start is_whitespace to_ascii_uppercase
    strip_prefix text_eq
cap_table-Parses = (
  refl,
  (
    refl,
    (
      refl,
      (
        refl,
        (
          refl,
          (
            refl,
            (
              refl,
              (
                refl,
                (
                  refl,
                  (
                    refl,
                    (
                      refl,
                      (
                        refl,
                        (
                          refl,
                          (
                            refl,
                            (
                              refl,
                              (
                                refl,
                                (
                                  refl,
                                  (
                                    refl,
                                    (
                                      refl,
                                      (
                                        refl,
                                        (
                                          refl,
                                          (
                                            refl,
                                            (
                                              refl,
                                              (
                                                refl,
                                                (
                                                  refl,
                                                  (
                                                    refl,
                                                    (
                                                      refl,
                                                      (
                                                        refl,
                                                        (
                                                          refl,
                                                          (
                                                            refl,
                                                            (
                                                            refl,
                                                            (
                                                            refl,
                                                            (
                                                            refl,
                                                            (
                                                            refl,
                                                            (
                                                            refl,
                                                            (
                                                            refl,
                                                            (
                                                            refl,
                                                            (refl, (refl, (refl, (refl, tt)))),
                                                            ),
                                                            ),
                                                            ),
                                                            ),
                                                            ),
                                                            ),
                                                            ),
                                                          ),
                                                        ),
                                                      ),
                                                    ),
                                                  ),
                                                ),
                                              ),
                                            ),
                                          ),
                                        ),
                                      ),
                                    ),
                                  ),
                                ),
                              ),
                            ),
                          ),
                        ),
                      ),
                    ),
                  ),
                ),
              ),
            ),
          ),
        ),
      ),
    ),
  ),
)

find_value-Parses :
    (v : ℕ) (table : List (Text × ℕ)) (k : Text)
    → Parses table
    → find_value v table ≡ some k
    → parse_cap (codes "CAP_" ++ k) ≡ ok v
unfolding find_value
find_value-Parses v [] k p e = cc
find_value-Parses v ((j, n) ∷ rest) k p e = elim (Bool-cases (n == v)) [
  | inl same ↦
      let (a, b) : (j ≡ k) × (n ≡ v) = (ground (arith, same), (==_iff n v).0 same) in
      rw (sym a, sym b) p.0
  | inr other ↦ find_value-Parses v rest k p.1 (ground (arith, other))
]

-- The name of a capability that has one is read back as the capability.
pub parse_cap-cap_name : (v : ℕ) → v ≤ 40 → parse_cap (cap_name v) ≡ ok v
unfolding cap_name
parse_cap-cap_name v h = elim (Option-cases (find_value v cap_table)) [
  | inl e ↦ absurd (named v h e)
  | inr (k, e) ↦ rw (e, cap_name) (find_value-Parses v cap_table k cap_table-Parses e)
]
  where
    named : (n : ℕ) → n ≤ 40 → find_value n cap_table ≡ none → ⊥
    named n b e = ground (arith, find_value, cap_table)

-- With `ALL` dropped the base and the other names to drop play no part: the mask is what the
-- additions make of nothing.
pub resolve_keep_set_all :
    (base add dropped : List Text)
    → any_all dropped ≡ true
    → resolve_keep_set base add dropped ≡ resolve_keep_set [] add []
unfolding resolve_keep_set any_all keep_caps drop_caps
resolve_keep_set_all base add dropped h = rw (h, resolve_keep_set) refl
