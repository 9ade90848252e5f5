-- ===== src/Prelude/Bits.antt =====
-- `&` with a low mask and `|` of disjoint fields as arithmetic, at every width.
use Prim.Native.Nat.{
  ℕ, zero, suc, ◌+◌, ◌-◌, ◌*◌, ◌/◌, ◌%◌, ◌^◌, ◌≤◌, ◌<◌, min, max, bit_and, bit_or, digits,
  bit_and-bitwise, bit_or-bitwise,
}
use mathlib.Core.Path.{◌≡◌, refl, ap, ◌∙◌}
use native.Mathlib.Nat.{pow-suc, one-le-pow, div-div-eq-div-mul}
use native.Mathlib.Omega.{arith}

-- The digit recursion does not depend on its fuel.
enough_fuel :
    (rest : ℕ → ℕ) (op : ℕ → ℕ → ℕ) (n m a b : ℕ)
    → a ≤ n
    → a ≤ m
    → digits rest op n a b ≡ digits rest op m a b
enough_fuel rest op n m zero b p q = at_zero n m
  where
    at_zero : (n m : ℕ) → digits rest op n zero b ≡ digits rest op m zero b
    at_zero zero zero = refl
    at_zero zero (suc m) = refl
    at_zero (suc n) zero = refl
    at_zero (suc n) (suc m) = refl
enough_fuel rest op zero m (suc a) b p q = absurd (omega arith)
enough_fuel rest op (suc n) zero (suc a) b p q = absurd (omega arith)
enough_fuel rest op (suc n) (suc m) (suc a) b p q =
    rw (enough_fuel rest op n m (suc a / 2) (b / 2) (omega arith) (omega arith))

or_halves : (x y : ℕ) → bit_or x y ≡ max (x % 2) (y % 2) + 2 * bit_or (x / 2) (y / 2)
or_halves zero y = simp bit_or-bitwise (omega arith)
or_halves (suc x) y = simp bit_or-bitwise (
    omega (
      arith,
      enough_fuel (λ t. t) max x (suc x / 2) (suc x / 2) (y / 2) (omega arith) (omega arith),
    ))

and_halves : (x y : ℕ) → bit_and x y ≡ min (x % 2) (y % 2) + 2 * bit_and (x / 2) (y / 2)
and_halves zero y = simp bit_and-bitwise (omega arith)
and_halves (suc x) y = simp bit_and-bitwise (
    omega (
      arith,
      enough_fuel (λ t. 0) min x (suc x / 2) (suc x / 2) (y / 2) (omega arith) (omega arith),
    ))

-- By a bound on the first operand, which each step halves.
bit_or-zero_below : (n a : ℕ) → a ≤ n → bit_or a 0 ≡ a
bit_or-zero_below n zero h = refl
bit_or-zero_below zero (suc a) h = absurd (omega arith)
bit_or-zero_below (suc n) (suc a) h =
    omega (arith, or_halves (suc a) 0, bit_or-zero_below n (suc a / 2) (omega arith))

bit_and-zero_below : (n a : ℕ) → a ≤ n → bit_and a 0 ≡ 0
bit_and-zero_below n zero h = refl
bit_and-zero_below zero (suc a) h = absurd (omega arith)
bit_and-zero_below (suc n) (suc a) h =
    omega (arith, and_halves (suc a) 0, bit_and-zero_below n (suc a / 2) (omega arith))

pub bit_or-zero : (a : ℕ) → bit_or a 0 ≡ a
bit_or-zero a = bit_or-zero_below a a (omega arith)

twice_shifted : (q k : ℕ) → q * 2 ^ suc k ≡ 2 * (q * 2 ^ k)
twice_shifted q k = omega (arith, ap (λ (t : ℕ). q * t) (pow-suc 2 k))

-- `(q << k) | r` where `r` fits `k` bits.
pub bit_or_high_low : (k q r : ℕ) → r < 2 ^ k → bit_or (q * 2 ^ k) r ≡ q * 2 ^ k + r
bit_or_high_low zero q r fits = ground (arith, bit_or-zero q)
bit_or_high_low (suc k) q r fits = ground (
  arith,
  or_halves (q * 2 ^ suc k) r,
  twice_shifted q k,
  bit_or_high_low k q (r / 2) (omega arith),
)

-- `r | (q << k)`: the low field first.
pub bit_or_low_high : (k q r : ℕ) → r < 2 ^ k → bit_or r (q * 2 ^ k) ≡ q * 2 ^ k + r
bit_or_low_high zero q r fits = ground (arith, bit_or-bitwise 0 (q * 2 ^ 0))
bit_or_low_high (suc k) q r fits = ground (
  arith,
  or_halves r (q * 2 ^ suc k),
  twice_shifted q k,
  bit_or_low_high k q (r / 2) (omega arith),
)

mask_high_low : (k q r : ℕ) → r < 2 ^ k → bit_and (q * 2 ^ k + r) (2 ^ k - 1) ≡ r
mask_high_low zero q r fits = omega (arith, bit_and-zero_below (q * 2 ^ 0 + r) (q * 2 ^ 0 + r))
mask_high_low (suc k) q r fits = ground (
  arith,
  and_halves (q * 2 ^ suc k + r) (2 ^ suc k - 1),
  twice_shifted q k,
  pow-suc 2 k,
  mask_high_low k q (r / 2) (omega arith),
)

-- A mask of `k` low bits is the remainder by `2 ^ k`.
pub bit_and_mask : (k a : ℕ) → bit_and a (2 ^ k - 1) ≡ a % 2 ^ k
bit_and_mask k a = ground (arith, one-le-pow k 2, mask_high_low k (a / 2 ^ k) (a % 2 ^ k))

halved_shift : (a k : ℕ) → a / 2 / 2 ^ k ≡ a / 2 ^ suc k
halved_shift a k =
    div-div-eq-div-mul a 2 (2 ^ k) ∙ ap (λ (t : ℕ). a / t) (omega (arith, pow-suc 2 k))

-- A mask `m << k` sees only the bits from `k` on.
pub bit_and_shifted : (k m a : ℕ) → bit_and a (m * 2 ^ k) ≡ bit_and (a / 2 ^ k) m * 2 ^ k
bit_and_shifted zero m a = ground arith
bit_and_shifted (suc k) m a = ground (
  arith,
  and_halves a (m * 2 ^ suc k),
  twice_shifted m k,
  bit_and_shifted k m (a / 2),
  pow-suc 2 k,
  twice_shifted (bit_and (a / 2 ^ suc k) m) k,
  ap (λ (t : ℕ). bit_and t m * 2 ^ k) (halved_shift a k),
)
