-- ===== src/Base/Bits.antt =====
-- Bit operations as arithmetic: `|` of disjoint fields is a sum and `&` with ones a remainder.
use Prim.Native.Nat.{ℕ, zero, suc, ◌+◌, ◌-◌, ◌*◌, ◌/◌, ◌%◌, ◌^◌, ◌≤◌, ◌<◌, min, max}
use Prim.Native.Nat.{bit_and, bit_or, digits, bit_and-bitwise, bit_or-bitwise}
use mathlib.Core.Path.{◌≡◌, refl, ap}
use native.Mathlib.Nat.{pow-suc, one-le-pow}
use native.Mathlib.Omega.{arith}

-- The recursion on digits does not depend on its fuel, once that covers the first number.
module _ (rest : ℕ → ℕ) (join : ℕ → ℕ → ℕ) where
  digits_enough : (m n a b : ℕ) → a ≤ m → a ≤ n → digits rest join m a b ≡ digits rest join n a b
  digits_enough zero zero zero b hm hn = refl
  digits_enough zero (suc n) zero b hm hn = refl
  digits_enough (suc m) zero zero b hm hn = refl
  digits_enough (suc m) (suc n) zero b hm hn = refl
  digits_enough zero n (suc a) b hm hn = absurd (omega arith)
  digits_enough (suc m) zero (suc a) b hm hn = absurd (omega arith)
  digits_enough (suc m) (suc n) (suc a) b hm hn =
      rw (digits_enough m n (suc a / 2) (b / 2) (omega arith) (omega arith))

-- The lowest digit of `a | b` and of `a & b`, and the digits above it.
pub bit_or_digit : (a b : ℕ) → bit_or a b ≡ bit_or (a / 2) (b / 2) * 2 + max (a % 2) (b % 2)
bit_or_digit zero b = simp bit_or-bitwise (omega arith)
bit_or_digit (suc a) b = simp bit_or-bitwise (
    omega (
      arith,
      digits_enough (λ y. y) max a (suc a / 2) (suc a / 2) (b / 2) (omega arith) (omega arith),
    ))

pub bit_and_digit : (a b : ℕ) → bit_and a b ≡ bit_and (a / 2) (b / 2) * 2 + min (a % 2) (b % 2)
bit_and_digit zero b = simp bit_and-bitwise (omega arith)
bit_and_digit (suc a) b = simp bit_and-bitwise (
    omega (
      arith,
      digits_enough (λ y. zero) min a (suc a / 2) (suc a / 2) (b / 2) (omega arith) (omega arith),
    ))

bit_or-zero_below : (n a : ℕ) → a ≤ n → bit_or a 0 ≡ a
bit_or-zero_below n zero h = refl
bit_or-zero_below zero (suc a) h = absurd (omega arith)
bit_or-zero_below (suc n) (suc a) h =
    omega (arith, bit_or_digit (suc a) 0, bit_or-zero_below n (suc a / 2) (omega arith))

bit_and-zero_below : (n a : ℕ) → a ≤ n → bit_and a 0 ≡ 0
bit_and-zero_below n zero h = refl
bit_and-zero_below zero (suc a) h = absurd (omega arith)
bit_and-zero_below (suc n) (suc a) h =
    omega (arith, bit_and_digit (suc a) 0, bit_and-zero_below n (suc a / 2) (omega arith))

double_shift : (q k : ℕ) → q * 2 ^ suc k ≡ 2 * (q * 2 ^ k)
double_shift q k = omega (arith, ap (λ (t : ℕ). q * t) (pow-suc 2 k))

-- `(q << k) | r` is a sum when `r` has `k` bits at most.
pub bit_or-shifted : (k q r : ℕ) → r < 2 ^ k → bit_or (q * 2 ^ k) r ≡ q * 2 ^ k + r
bit_or-shifted zero q r h = ground (arith, bit_or-zero_below q q)
bit_or-shifted (suc k) q r h = ground (
  arith,
  double_shift q k,
  bit_or_digit (q * 2 ^ suc k) r,
  bit_or-shifted k q (r / 2) (omega arith),
)

-- The same with the shifted field on the right, as `get_u16` and `get_u32` write it.
pub bit_or-shifted_right : (k q r : ℕ) → r < 2 ^ k → bit_or r (q * 2 ^ k) ≡ r + q * 2 ^ k
bit_or-shifted_right zero q zero h = ground (arith, bit_or-bitwise 0 (q * 1))
bit_or-shifted_right zero q (suc r) h = absurd (omega arith)
bit_or-shifted_right (suc k) q r h = ground (
  arith,
  double_shift q k,
  bit_or_digit r (q * 2 ^ suc k),
  bit_or-shifted_right k q (r / 2) (omega arith),
)

-- `r | 2^k` changes nothing when that is the first digit of `r`.
pub bit_or-top_digit : (k r : ℕ) → 2 ^ k ≤ r → r < 2 ^ suc k → bit_or r (2 ^ k) ≡ r
bit_or-top_digit zero r lo hi = let e : r ≡ 1 = omega arith in rw e
bit_or-top_digit (suc k) r lo hi = ground (
  arith,
  bit_or_digit r (2 ^ suc k),
  pow-suc 2 k,
  pow-suc 2 (suc k),
  bit_or-top_digit k (r / 2) (omega (arith, pow-suc 2 k)) (omega (arith, pow-suc 2 (suc k))),
)

bit_and-low : (k q r : ℕ) → r < 2 ^ k → bit_and (q * 2 ^ k + r) (2 ^ k - 1) ≡ r
bit_and-low zero q r h = ground (arith, bit_and-zero_below (q * 1 + r) (q * 1 + r))
bit_and-low (suc k) q r h = ground (
  arith,
  double_shift q k,
  bit_and_digit (q * 2 ^ suc k + r) (2 ^ suc k - 1),
  pow-suc 2 k,
  bit_and-low k q (r / 2) (omega arith),
)

-- `a & (2^k - 1)` keeps the low `k` bits.
pub bit_and-ones : (k a : ℕ) → bit_and a (2 ^ k - 1) ≡ a % 2 ^ k
bit_and-ones k a = ground (arith, one-le-pow k 2, bit_and-low k (a / 2 ^ k) (a % 2 ^ k))
