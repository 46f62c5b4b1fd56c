-- ===== src/Bus/Cmp/Fields.antt =====
-- The fields of a plug control register after a connection is made.
use snd_firewire_improve.Common.{
  ℕ, Bool-cases, zero, suc, ◌+◌, ◌-◌, ◌*◌, ◌/◌, ◌%◌, ◌^◌, ◌≤◌, ◌<◌, ◌≡◌, ◌⊎◌, inl, inr, refl,
  bit_and, bit_or, ltb, arith,
}
use snd_firewire_improve.Common.Bits.{and_split, or_split, or_zero, and_low, or_field}
use snd_firewire_improve.Bus.Cmp.{Connection, ipcr_set_modify, overhead_id_from, get_overhead_id}

-- A field whose bits are clear is set by a sum.
or_at :
    (k j q v x : ℕ)
    → x < 2 ^ k
    → v < 2 ^ j
    → bit_or (q * 2 ^ j * 2 ^ k + x) (v * 2 ^ k) ≡ (q * 2 ^ j + v) * 2 ^ k + x
or_at k j q v x h l = ground (arith, or_split k (q * 2 ^ j) v x 0, or_field j q v, or_zero x)

overhead_id_from_lem :
    (overhead n id : ℕ)
    → 0 < id
    → (id - 1) * 32 ≤ overhead
    → let r = overhead_id_from overhead n id in
      ((id ≤ r) × (r < id + n) × (overhead < r * 32) × ((r - 1) * 32 ≤ overhead))
      ⊎ ((r ≡ 0) × ((id + n - 1) * 32 ≤ overhead))
unfolding overhead_id_from
overhead_id_from_lem overhead zero id p h = inr (refl, omega arith)
overhead_id_from_lem overhead (suc n) id p h = elim (Bool-cases (ltb overhead (id * 2 ^ 5))) [
  | inl below ↦ rw below (inl (omega arith, omega arith, ground (arith, below), h))
  | inr above ↦
      let rest = overhead_id_from_lem overhead n (id + 1) (omega arith) (ground (arith, above)) in
      rw above (elim rest [
        | inl r ↦ inl (omega (arith, r), omega (arith, r), r.2, r.3)
        | inr r ↦ inr (r.0, omega (arith, r))
      ])
]

-- The overhead ID of an oPCR is the least number of units of 32 that the overhead is below, and 0
-- exactly where it is 480 or more.
pub get_overhead_id_lem :
    (c : Connection)
    → let id = get_overhead_id c in
      ((1 ≤ id)
        × (id < 16)
        × (c.resources.bandwidth_overhead < id * 32)
        × ((id - 1) * 32 ≤ c.resources.bandwidth_overhead))
      ⊎ ((id ≡ 0) × (480 ≤ c.resources.bandwidth_overhead))
unfolding get_overhead_id
get_overhead_id_lem c =
    overhead_id_from_lem c.resources.bandwidth_overhead 15 1 (omega arith) (omega arith)

cleared_ipcr :
    (v : ℕ)
    → v < 2 ^ 32
    → bit_and v (2 ^ 32 - 1 - 0x7f3f0000)
      ≡ v / 2 ^ 31 * 2 ^ 31 + v / 2 ^ 22 % 4 * 2 ^ 22 + v % 2 ^ 16
cleared_ipcr v h =
    let w = v % 2 ^ 31 in
    ground (
      arith,
      and_split 31 (v / 2 ^ 31) 1 w 0xc0ffff,
      and_low 1 (v / 2 ^ 31),
      and_split 22 (w / 2 ^ 22) 3 (w % 2 ^ 22) 0xffff,
      and_low 2 (w / 2 ^ 22),
      and_low 16 (w % 2 ^ 22),
    )

-- An iPCR is given one point-to-point connection, no broadcast connection and the channel of the
-- resources; its online bit and its other fields are kept.
pub ipcr_set_modify_lem :
    (c : Connection) (v : ℕ)
    → v < 2 ^ 32
    → c.resources.channel < 64
    → ipcr_set_modify c v
      ≡ v / 2 ^ 31 * 2 ^ 31
        + 1 * 2 ^ 24
        + v / 2 ^ 22 % 4 * 2 ^ 22
        + c.resources.channel * 2 ^ 16
        + v % 2 ^ 16
unfolding ipcr_set_modify
ipcr_set_modify_lem c v h l =
    let o = v / 2 ^ 31 in
    let k = v / 2 ^ 22 % 4 in
    ground (
      arith,
      cleared_ipcr v h,
      or_at 24 7 o 1 (k * 2 ^ 22 + v % 2 ^ 16),
      or_at 16 6 (o * 2 ^ 9 + 4 + k) c.resources.channel (v % 2 ^ 16),
    )

-- The encoding of a bandwidth overhead in an oPCR: the least number of units of 32 that it is below,
-- or 0 where 15 units are not enough.
abbrev pub IsOverheadId : ℕ → ℕ → Type 0
IsOverheadId overhead id =
    ((1 ≤ id) × (id < 16) × (overhead < id * 32) × ((id - 1) * 32 ≤ overhead))
    ⊎ ((id ≡ 0) × (480 ≤ overhead))
