-- ===== src/Prelude/Bits.antt =====
-- `&` and `|` at variables: the law for the lowest digit, and from it what a mask of high ones keeps
-- and what a run of low ones adds.
use Prim.Native.Nat.{min, max, digits, bitwise, bit_and, bit_or, bit_and-bitwise, bit_or-bitwise}
use Prim.Native.Nat.{ℕ, zero, suc, ◌+◌, ◌-◌, ◌*◌, ◌/◌, ◌%◌, ◌^◌, ◌≤◌, ◌<◌}
use Prim.Native.Nat.add
use mathlib.Core.Path.{◌≡◌, refl, ◌∙◌}
use native.Mathlib.Nat.{pow-suc}
use native.Mathlib.Omega.{arith}

-- What holds of every operation on digits: `z` is the rest when the first number has run out.
module _ (z : ℕ → ℕ) (f : ℕ → ℕ → ℕ) where
  -- any number of rounds from `a` on will do
  enough_rounds : (n m a b : ℕ) → a ≤ n → n ≤ m → digits z f m a b ≡ digits z f n a b
  enough_rounds zero zero a b h k = refl
  enough_rounds zero (suc m) zero b h k = refl
  enough_rounds zero (suc m) (suc a) b h k = elim h [ ]
  enough_rounds (suc n) zero a b h k = elim k [ ]
  enough_rounds (suc n) (suc m) zero b h k = refl
  enough_rounds (suc n) (suc m) (suc a) b h k =
      rw (enough_rounds n m (suc a / 2) (b / 2) (omega arith) (omega arith))

  lowest_digit :
      (a b : ℕ)
      → z b ≡ z (b / 2) * 2 + f 0 (b % 2)
      → bitwise z f a b ≡ bitwise z f (a / 2) (b / 2) * 2 + f (a % 2) (b % 2)
  lowest_digit zero b e = e
  lowest_digit (suc a) b e =
      rw (enough_rounds (suc a / 2) a (suc a / 2) (b / 2) (omega arith) (omega arith))

pub bit_and-lowest : (a b : ℕ) → bit_and a b ≡ bit_and (a / 2) (b / 2) * 2 + min (a % 2) (b % 2)
bit_and-lowest a b =
    rw (bit_and-bitwise a b, bit_and-bitwise (a / 2) (b / 2))
      (lowest_digit (λ b. zero) min a b (omega arith))

pub bit_or-lowest : (a b : ℕ) → bit_or a b ≡ bit_or (a / 2) (b / 2) * 2 + max (a % 2) (b % 2)
bit_or-lowest a b =
    rw (bit_or-bitwise a b, bit_or-bitwise (a / 2) (b / 2))
      (lowest_digit (λ b. b) max a b (omega arith))

pub pow_pos : (k : ℕ) → 0 < 2 ^ k
pow_pos zero = omega arith
pow_pos (suc k) = rw pow-suc (omega (arith, pow_pos k))

pub pow-add : (a b : ℕ) → 2 ^ (a + b) ≡ 2 ^ a * 2 ^ b
pow-add zero b = rw add.zero (omega arith)
pow-add (suc a) b = rw (add.suc, pow-suc, pow-suc) (grind (arith, pow-add a b))

-- A mask of ones keeps a number that is no wider.
pub bit_and-ones : (w q : ℕ) → q < 2 ^ w → bit_and q (2 ^ w - 1) ≡ q
bit_and-ones zero q h = let e : q ≡ 0 = omega arith in rw e refl
bit_and-ones (suc w) q h =
    let double : 2 ^ suc w ≡ 2 ^ w * 2 = pow-suc 2 w in
    let high : (2 ^ suc w - 1) / 2 ≡ 2 ^ w - 1 = omega (arith, double) in
    let low : (2 ^ suc w - 1) % 2 ≡ 1 = omega (arith, double, pow_pos w) in
    rw (bit_and-lowest q (2 ^ suc w - 1), high, low, bit_and-ones w (q / 2) (omega (arith, double)))
      (omega arith)

-- Zeros at the low end of a mask clear what stands there.
pub bit_and-shifted :
    (k q r m : ℕ) → r < 2 ^ k → bit_and (q * 2 ^ k + r) (m * 2 ^ k) ≡ bit_and q m * 2 ^ k
bit_and-shifted zero q r m h =
    let a : q * 1 + r ≡ q = omega arith in
    let b : m * 1 ≡ m = omega arith in rw (a, b) (omega arith)
bit_and-shifted (suc k) q r m h =
    let double : 2 ^ suc k ≡ 2 ^ k * 2 = pow-suc 2 k in
    let half : (q * 2 ^ suc k + r) / 2 ≡ q * 2 ^ k + r / 2 = rw double (omega arith) in
    let half' : m * 2 ^ suc k / 2 ≡ m * 2 ^ k = rw double (omega arith) in
    let even : m * 2 ^ suc k % 2 ≡ 0 = rw double (omega arith) in
    rw
      (
        bit_and-lowest (q * 2 ^ suc k + r) (m * 2 ^ suc k),
        half,
        half',
        even,
        bit_and-shifted k q (r / 2) m (omega (arith, double)),
        double,
      )
      (omega arith)

or_zero : (n a : ℕ) → a ≤ n → bit_or a 0 ≡ a
or_zero n zero h = refl
or_zero zero (suc a) h = elim h [ ]
or_zero (suc n) (suc a) h =
    rw (bit_or-lowest (suc a) 0, or_zero n (suc a / 2) (omega arith)) (omega arith)

-- Ones at the low end fill what was clear there.
pub bit_or-low : (k q : ℕ) → bit_or (q * 2 ^ k) (2 ^ k - 1) ≡ q * 2 ^ k + (2 ^ k - 1)
bit_or-low zero q = or_zero (q * 1) (q * 1) (omega arith) ∙ omega arith
bit_or-low (suc k) q =
    let double : 2 ^ suc k ≡ 2 ^ k * 2 = pow-suc 2 k in
    let high : (2 ^ suc k - 1) / 2 ≡ 2 ^ k - 1 = omega (arith, double) in
    let low : (2 ^ suc k - 1) % 2 ≡ 1 = omega (arith, double, pow_pos k) in
    let half : q * 2 ^ suc k / 2 ≡ q * 2 ^ k = rw double (omega arith) in
    let even : q * 2 ^ suc k % 2 ≡ 0 = rw double (omega arith) in
    rw (bit_or-lowest (q * 2 ^ suc k) (2 ^ suc k - 1), half, high, even, low, bit_or-low k q)
      (rw double (omega (arith, pow_pos k)))
