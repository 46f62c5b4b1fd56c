-- ===== src/Common/Xor.antt =====
-- Laws of `bit_xor`: it undoes itself, and stays inside a width.
use Prim.Native.Nat.{ℕ, zero, suc, ◌+◌, ◌*◌, ◌/◌, ◌%◌, ◌^◌, ◌<◌, differ, bit_xor, bit_xor-bitwise}
use mathlib.Core.Path.{◌≡◌, refl}
use native.Mathlib.Nat.{pow-suc}
use native.Mathlib.Omega.{arith}
use snd_firewire_improve.Common.Bits.{fuel_irrelevant}

differ_lem : (x y : ℕ) → x < 2 → y < 2 → differ x y ≡ (x + y) % 2
differ_lem zero y h k = omega arith
differ_lem (suc zero) zero h k = refl
differ_lem (suc zero) (suc zero) h k = refl
differ_lem (suc zero) (suc (suc y)) h k = absurd (omega arith)
differ_lem (suc (suc x)) y h k = absurd (omega arith)

-- The lowest digit and the rest.
pub xor_lowest : (a b : ℕ) → bit_xor a b ≡ bit_xor (a / 2) (b / 2) * 2 + (a % 2 + b % 2) % 2
xor_lowest zero b = omega (arith, bit_xor-bitwise 0 b, bit_xor-bitwise 0 (b / 2))
xor_lowest (suc a) b =
    let h = suc a / 2 in
    omega (
      arith,
      bit_xor-bitwise (suc a) b,
      bit_xor-bitwise h (b / 2),
      differ_lem (suc a % 2) (b % 2) (omega arith) (omega arith),
      fuel_irrelevant (λ y. y) differ a h h (b / 2) (omega arith) (omega arith),
    )

pub xor_bound : (k a b : ℕ) → a < 2 ^ k → b < 2 ^ k → bit_xor a b < 2 ^ k
xor_bound zero a b p q = ground arith
xor_bound (suc k) a b p q =
    let two = pow-suc 2 k in
    let rest = xor_bound k (a / 2) (b / 2) (omega arith) (omega arith) in
    omega (arith, xor_lowest a b)

-- Twice the same mask gives the word back.
pub xor_cancel : (k a b : ℕ) → a < 2 ^ k → b < 2 ^ k → bit_xor (bit_xor a b) b ≡ a
xor_cancel zero a b p q =
    let a0 : a ≡ 0 = omega arith in let b0 : b ≡ 0 = omega arith in rw (a0, b0) refl
xor_cancel (suc k) a b p q =
    let two = pow-suc 2 k in
    let rest = xor_cancel k (a / 2) (b / 2) (omega arith) (omega arith) in
    let half : bit_xor a b / 2 ≡ bit_xor (a / 2) (b / 2) = omega (arith, xor_lowest a b) in
    let low : bit_xor a b % 2 ≡ (a % 2 + b % 2) % 2 = omega (arith, xor_lowest a b) in
    let outer = xor_lowest (bit_xor a b) b in let outer' = rw half at outer in omega arith
