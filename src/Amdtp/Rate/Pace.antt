-- ===== src/Amdtp/Rate/Pace.antt =====
-- The data blocks follow the sampling rate exactly.
use snd_firewire_improve.Common.{
  ℕ, zero, suc, ◌+◌, ◌*◌, ◌/◌, ◌<◌, ◌≡◌, refl, true, false, ◌==◌, ==_iff, arith,
}
use snd_firewire_improve.Common.Table.{all_below, all_below_lem}
use snd_firewire_improve.Amdtp.Types.{
  Sfc, sfc_32000, sfc_44100, sfc_48000, sfc_88200, sfc_96000, sfc_176400, sfc_192000, rate_table,
  is_base_44100, initial_data_block, Stream,
}
use snd_firewire_improve.Amdtp.Rate.{blocks_44100, calculate_data_blocks}

-- The number of data blocks of the next n packets.
unfoldable pub blocks_of : ℕ → Stream → ℕ
blocks_of zero s = 0
blocks_of (suc n) s = let (k, s') = calculate_data_blocks s in k + blocks_of n s'

blocks_44100_table :
    all_below 80 (λ p. blocks_44100 p + (441 * p + 79) / 80 == (441 * (p + 1) + 79) / 80) ≡ true
unfolding all_below blocks_44100
blocks_44100_table = refl

blocks_44100_lem :
    (p : ℕ) → p < 80 → blocks_44100 p + (441 * p + 79) / 80 ≡ (441 * (p + 1) + 79) / 80
blocks_44100_lem p h = (==_iff _ _).0 (all_below_lem 80 _ p blocks_44100_table h)

-- From any phase of its cycle, each rate keeps the running total rounded up.
pace_44100 :
    (n : ℕ) (s : Stream)
    → s.flags.blocking ≡ false
    → s.sfc ≡ sfc_44100
    → s.data_block_state < 80
    → blocks_of n s + (441 * s.data_block_state + 79) / 80
      ≡ (441 * (s.data_block_state + n) + 79) / 80
unfolding blocks_of calculate_data_blocks
pace_44100 zero s b e h = omega arith
pace_44100 (suc n) s b e h =
    ground (arith, blocks_44100_lem s.data_block_state, pace_44100 n (calculate_data_blocks s).1)

pace_88200 :
    (n : ℕ) (s : Stream)
    → s.flags.blocking ≡ false
    → s.sfc ≡ sfc_88200
    → s.data_block_state < 40
    → blocks_of n s + (441 * s.data_block_state + 39) / 40
      ≡ (441 * (s.data_block_state + n) + 39) / 40
unfolding blocks_of calculate_data_blocks
pace_88200 zero s b e h = omega arith
pace_88200 (suc n) s b e h = ground (arith, pace_88200 n (calculate_data_blocks s).1)

pace_176400 :
    (n : ℕ) (s : Stream)
    → s.flags.blocking ≡ false
    → s.sfc ≡ sfc_176400
    → s.data_block_state < 20
    → blocks_of n s + (441 * s.data_block_state + 19) / 20
      ≡ (441 * (s.data_block_state + n) + 19) / 20
unfolding blocks_of calculate_data_blocks
pace_176400 zero s b e h = omega arith
pace_176400 (suc n) s b e h = ground (arith, pace_176400 n (calculate_data_blocks s).1)

pace_even :
    (n : ℕ) (s : Stream)
    → s.flags.blocking ≡ false
    → is_base_44100 s.sfc ≡ false
    → blocks_of n s ≡ n * s.data_block_state
unfolding blocks_of calculate_data_blocks
pace_even zero s b e = omega arith
pace_even (suc n) s b e = ground (arith, pace_even n s)

pace_by_sfc :
    (sfc : Sfc) (n : ℕ) (s : Stream)
    → s.flags.blocking ≡ false
    → s.sfc ≡ sfc
    → s.data_block_state ≡ initial_data_block sfc
    → blocks_of n s ≡ (n * rate_table sfc + 7999) / 8000
pace_by_sfc sfc_32000 n s b e d = ground (arith, pace_even n s)
pace_by_sfc sfc_44100 n s b e d = ground (arith, pace_44100 n s)
pace_by_sfc sfc_48000 n s b e d = ground (arith, pace_even n s)
pace_by_sfc sfc_88200 n s b e d = ground (arith, pace_88200 n s)
pace_by_sfc sfc_96000 n s b e d = ground (arith, pace_even n s)
pace_by_sfc sfc_176400 n s b e d = ground (arith, pace_176400 n s)
pace_by_sfc sfc_192000 n s b e d = ground (arith, pace_even n s)

-- In non-blocking mode, at every supported rate, the first n packets after the start carry
-- together exactly n / 8000 seconds of data blocks, rounded up to a whole block.
pub blocks_of-eq-rate :
    (n : ℕ) (s : Stream)
    → s.flags.blocking ≡ false
    → s.data_block_state ≡ initial_data_block s.sfc
    → blocks_of n s ≡ (n * rate_table s.sfc + 7999) / 8000
blocks_of-eq-rate n s b d = pace_by_sfc s.sfc n s b refl d
