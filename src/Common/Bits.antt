-- ===== src/Common/Bits.antt =====
-- Laws of `bit_and` and `bit_or` at the fields of a word. A word is read as
-- `high * 2 ^ k + low`, and both operations work on the two parts apart (`split`).
use Prim.Native.Nat.{
  ℕ, zero, suc, ◌+◌, ◌-◌, ◌*◌, ◌/◌, ◌%◌, ◌^◌, ◌≤◌, ◌<◌, min, max, bit_and, bit_or, digits,
  bit_and-bitwise, bit_or-bitwise,
}
use mathlib.Core.Path.{◌≡◌, refl, ap}
use native.Mathlib.Nat.{pow-suc, one-le-pow}
use native.Mathlib.Omega.{arith}

-- The fuel of `digits` does not matter once it covers the first number.
pub fuel_irrelevant :
    (z : ℕ → ℕ) (f : ℕ → ℕ → ℕ) (n m a b : ℕ) → a ≤ n → a ≤ m → digits z f n a b ≡ digits z f m a b
fuel_irrelevant z f zero zero a b p q = refl
fuel_irrelevant z f zero (suc m) zero b p q = refl
fuel_irrelevant z f (suc n) zero zero b p q = refl
fuel_irrelevant z f zero (suc m) (suc a) b p q = absurd (omega arith)
fuel_irrelevant z f (suc n) zero (suc a) b p q = absurd (omega arith)
fuel_irrelevant z f (suc n) (suc m) zero b p q = refl
fuel_irrelevant z f (suc n) (suc m) (suc a) b p q =
    ap (λ t. t * 2 + f (suc a % 2) (b % 2))
      (fuel_irrelevant z f n m (suc a / 2) (b / 2) (omega arith) (omega arith))

-- The lowest digit and the rest.
pub and_lowest : (a b : ℕ) → bit_and a b ≡ bit_and (a / 2) (b / 2) * 2 + min (a % 2) (b % 2)
and_lowest zero b = omega (arith, bit_and-bitwise 0 b, bit_and-bitwise 0 (b / 2))
and_lowest (suc a) b =
    let h = suc a / 2 in
    omega (
      arith,
      bit_and-bitwise (suc a) b,
      bit_and-bitwise h (b / 2),
      fuel_irrelevant (λ y. 0) min a h h (b / 2) (omega arith) (omega arith),
    )

pub or_lowest : (a b : ℕ) → bit_or a b ≡ bit_or (a / 2) (b / 2) * 2 + max (a % 2) (b % 2)
or_lowest zero b = omega (arith, bit_or-bitwise 0 b, bit_or-bitwise 0 (b / 2))
or_lowest (suc a) b =
    let h = suc a / 2 in
    omega (
      arith,
      bit_or-bitwise (suc a) b,
      bit_or-bitwise h (b / 2),
      fuel_irrelevant (λ y. y) max a h h (b / 2) (omega arith) (omega arith),
    )

pub double_pow : (q k : ℕ) → q * 2 ^ suc k ≡ 2 * (q * 2 ^ k)
double_pow q k = omega (arith, ap (λ (t : ℕ). q * t) (pow-suc 2 k))

-- An operation on digits works on the high and the low part of its arguments apart.
module _ (op digit : ℕ → ℕ → ℕ) (nothing : op 0 0 ≡ 0)
    (lowest : (a b : ℕ) → op a b ≡ op (a / 2) (b / 2) * 2 + digit (a % 2) (b % 2)) where
  split :
      (k a b x y : ℕ)
      → x < 2 ^ k
      → y < 2 ^ k
      → op (a * 2 ^ k + x) (b * 2 ^ k + y) ≡ op a b * 2 ^ k + op x y
  split zero a b x y p q = ground arith
  split (suc k) a b x y p q = ground (
    arith,
    lowest (a * 2 ^ suc k + x) (b * 2 ^ suc k + y),
    lowest x y,
    double_pow a k,
    double_pow b k,
    double_pow (op a b) k,
    pow-suc 2 k,
    split k a b (x / 2) (y / 2),
  )

pub and_split :
    (k a b x y : ℕ)
    → x < 2 ^ k
    → y < 2 ^ k
    → bit_and (a * 2 ^ k + x) (b * 2 ^ k + y) ≡ bit_and a b * 2 ^ k + bit_and x y
and_split = split bit_and min refl and_lowest

pub or_split :
    (k a b x y : ℕ)
    → x < 2 ^ k
    → y < 2 ^ k
    → bit_or (a * 2 ^ k + x) (b * 2 ^ k + y) ≡ bit_or a b * 2 ^ k + bit_or x y
or_split = split bit_or max refl or_lowest

below_half : (n a : ℕ) → suc a ≤ suc n → suc a / 2 ≤ n
below_half n a h = omega arith

and_zero_below : (n a : ℕ) → a ≤ n → bit_and a 0 ≡ 0
and_zero_below n zero h = refl
and_zero_below zero (suc a) h = absurd (omega arith)
and_zero_below (suc n) (suc a) h =
    omega (arith, and_lowest (suc a) 0, and_zero_below n (suc a / 2) (below_half n a h))

or_zero_below : (n a : ℕ) → a ≤ n → bit_or a 0 ≡ a
or_zero_below n zero h = refl
or_zero_below zero (suc a) h = absurd (omega arith)
or_zero_below (suc n) (suc a) h =
    omega (arith, or_lowest (suc a) 0, or_zero_below n (suc a / 2) (below_half n a h))

pub and_zero : (a : ℕ) → bit_and a 0 ≡ 0
and_zero a = and_zero_below a a (omega arith)

pub or_zero : (a : ℕ) → bit_or a 0 ≡ a
or_zero a = or_zero_below a a (omega arith)

pub zero_or : (b : ℕ) → bit_or 0 b ≡ b
zero_or b = bit_or-bitwise 0 b

-- `(q << k) | r` is a sum where `r` fits below bit `k`.
pub or_field : (k q r : ℕ) → r < 2 ^ k → bit_or (q * 2 ^ k) r ≡ q * 2 ^ k + r
or_field k q r h = ground (arith, or_split k q 0 0 r, or_zero q, zero_or r, one-le-pow k 2)

and_ones : (k x : ℕ) → x < 2 ^ k → bit_and x (2 ^ k - 1) ≡ x
and_ones zero x h = omega (arith, and_zero x)
and_ones (suc k) x h =
    ground (arith, and_lowest x (2 ^ suc k - 1), pow-suc 2 k, one-le-pow k 2, and_ones k (x / 2))

-- A mask of `k` low bits is the remainder by `2 ^ k`.
pub and_low : (k a : ℕ) → bit_and a (2 ^ k - 1) ≡ a % 2 ^ k
and_low k a = ground (
  arith,
  and_split k (a / 2 ^ k) 0 (a % 2 ^ k) (2 ^ k - 1),
  and_zero (a / 2 ^ k),
  and_ones k (a % 2 ^ k),
  one-le-pow k 2,
)

-- A mask that starts at bit `k` selects from the part above it.
pub and_field : (k a m : ℕ) → bit_and a (m * 2 ^ k) ≡ bit_and (a / 2 ^ k) m * 2 ^ k
and_field k a m =
    ground (arith, and_split k (a / 2 ^ k) m (a % 2 ^ k) 0, and_zero (a % 2 ^ k), one-le-pow k 2)
