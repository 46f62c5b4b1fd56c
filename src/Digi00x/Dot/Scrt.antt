-- ===== src/Digi00x/Dot/Scrt.antt =====
-- The salt: it is always found in the tables, and it ends.
use snd_firewire_improve.Common.{
  ℕ, zero, suc, ◌+◌, ◌-◌, ◌*◌, ◌/◌, ◌%◌, ◌^◌, ◌≤◌, ◌<◌, ◌≡◌, ◌⊎◌, refl, Bool, Bool-cases, inl, inr,
  true, ◌==◌, ltb, ◌&&◌, bit_or, List, [], ◌∷◌, length, get_elem?, some, arith,
}
use snd_firewire_improve.Common.Bits.{or_split, or_zero, zero_or}
use snd_firewire_improve.Amdtp.Types.{u32}
use snd_firewire_improve.Digi00x.Dot.{len_table, nib, hir, hio, high_salt, dot_scrt}

-- An entry of a table whose entries are below a bound.
abbrev all_less : ℕ → List ℕ → Bool
all_less n [] = true
all_less n (x ∷ xs) = ltb x n && all_less n xs

entry_lem :
    (n : ℕ) (xs : List ℕ) (i : ℕ)
    → all_less n xs ≡ true
    → i < length xs
    → (x : ℕ) × (get_elem? xs i ≡ some x) × (x < n)
entry_lem n [] i h l = absurd (omega arith)
entry_lem n (x ∷ xs) zero h l = (x, refl, ground arith)
entry_lem n (x ∷ xs) (suc i) h l = entry_lem n xs i (ground arith) (omega arith)

high_salt_lem : (hn off : ℕ) → hn < 16 → (h : ℕ) × (high_salt hn off ≡ some h) × (h < 16)
unfolding high_salt
high_salt_lem hn off l = elim (Bool-cases (hn == 0x9)) [
  | inl y ↦ (0x9, rw y refl, omega arith)
  | inr n ↦
      let (o, e, b) = entry_lem 15 hio hn refl l in
      let (h, f, c) = entry_lem 16 hir (u32 (o + off) % 15) refl (omega arith) in
      (h, rw (n, e) f, c)
]

-- The two halves of a salt.
salt_lem : (low high : ℕ) → low < 16 → bit_or low (high * 2 ^ 4) ≡ high * 16 + low
salt_lem low high l = ground (arith, or_split 4 0 high low 0, or_zero low, zero_or high)

-- For every index and offset the salt is found, without an access outside a table, and is a byte;
-- and from an offset of 15 on it is 0.
pub dot_scrt_lem :
    (idx off : ℕ)
    → off < 2 ^ 32
    → (salt : ℕ) × (dot_scrt idx off ≡ some salt) × (salt < 256) × ((off < 15) ⊎ (salt ≡ 0))
unfolding dot_scrt
dot_scrt_lem idx off q =
    let (h, e, b) = high_salt_lem (idx / 16 % 16) off (omega arith) in
    let (n, f, c) = entry_lem 15 len_table (idx % 16) refl (omega arith) in
    elim (Bool-cases (ltb n off)) [
      | inl y ↦ (0, rw (e, f, y) refl, omega arith, inr refl)
      | inr m ↦
          let near : off ≤ n = ground arith in
          let (low, g, d) = entry_lem 16 nib (u32 (14 + off + (2 ^ 32 - n))) refl (omega arith) in
          (
            bit_or low (h * 2 ^ 4),
            rw (e, f, m, g) refl,
            omega (arith, salt_lem low h d),
            inl (omega arith),
          )
    ]
