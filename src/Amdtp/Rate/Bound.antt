-- ===== src/Amdtp/Rate/Bound.antt =====
-- No packet carries more data blocks than SYT_INTERVAL.
use snd_firewire_improve.Common.{
  ℕ, zero, suc, ◌≤◌, ◌<◌, ◌≡◌, refl, false, bit, ◌||◌, ◌==◌, leb, Bool, bit_and, bit_xor, arith,
}
use snd_firewire_improve.Common.Bits.{and_low}
use snd_firewire_improve.Amdtp.Types.{
  Sfc, sfc_44100, syt_intervals, is_base_44100, initial_data_block, Stream,
}
use snd_firewire_improve.Amdtp.Rate.{blocks_44100, calculate_data_blocks}

xor_bits : (a b : ℕ) → a < 2 → b < 2 → bit_xor a b < 2
xor_bits zero zero h l = omega arith
xor_bits zero (suc zero) h l = omega arith
xor_bits (suc zero) zero h l = omega arith
xor_bits (suc zero) (suc zero) h l = omega arith
xor_bits (suc (suc a)) b h l = absurd (omega arith)
xor_bits zero (suc (suc b)) h l = absurd (omega arith)
xor_bits (suc zero) (suc (suc b)) h l = absurd (omega arith)

bit-lt : (b : Bool) → bit b < 2
bit-lt b = ground arith

blocks_44100-le : (p : ℕ) → blocks_44100 p ≤ 6
unfolding blocks_44100
blocks_44100-le p = omega (
  arith,
  xor_bits (bit_and p 1) (bit (p == 0 || leb 40 p)) (omega (arith, and_low 1 p))
      (bit-lt (p == 0 || leb 40 p)),
)

bound_by_sfc :
    (sfc : Sfc) (s : Stream)
    → s.sfc ≡ sfc
    → s.syt_interval ≡ syt_intervals sfc
    → (is_base_44100 sfc ≡ false → s.data_block_state ≡ initial_data_block sfc)
    → (calculate_data_blocks s).0 ≤ s.syt_interval
unfolding calculate_data_blocks
bound_by_sfc sfc_44100 s e i h = ground (arith, blocks_44100-le s.data_block_state)
bound_by_sfc _ s e i h = ground arith

-- The packet buffer, of SYT_INTERVAL data blocks a packet, holds what `calculate_data_blocks`
-- gives, and the state of the rates that use it as a constant is left alone.
pub calculate_data_blocks-le :
    (s : Stream)
    → s.syt_interval ≡ syt_intervals s.sfc
    → (is_base_44100 s.sfc ≡ false → s.data_block_state ≡ initial_data_block s.sfc)
    → (calculate_data_blocks s).0 ≤ s.syt_interval
calculate_data_blocks-le s i h = bound_by_sfc s.sfc s refl i h
