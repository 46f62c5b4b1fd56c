-- ===== src/Amdtp/Rate.antt =====
-- How many data blocks a packet carries: `calculate_data_blocks`.
pub mod Pace
pub mod Bound
use snd_firewire_improve.Common.{
  ℕ, ◌+◌, ◌*◌, ◌/◌, ◌^◌, Bool, not, ◌||◌, ◌==◌, leb, bit, if◌then◌else◌, bit_and, bit_xor,
}
use snd_firewire_improve.Amdtp.Types.{Sfc, sfc_code, is_base_44100, Stream}

-- `s->sfc == CIP_SFC_44100`
abbrev pub is_44100 : Sfc → Bool
is_44100 sfc = sfc_code sfc == 1

-- 6 6 5 6 5 6 5 ..., as a function of the phase.
unfoldable pub blocks_44100 : ℕ → ℕ
blocks_44100 phase = 5 + bit_xor (bit_and phase 1) (bit (phase == 0 || leb 40 phase))

-- The data blocks of the next packet, and the stream with the phase moved on.
unfoldable pub calculate_data_blocks : Stream → ℕ × Stream
calculate_data_blocks s =
    if s.flags.blocking
    then (s.syt_interval, s)
    else if not (is_base_44100 s.sfc)
    then (s.data_block_state, s)
    else (data_blocks, record s { data_block_state = next })
  where
    phase : ℕ
    phase = s.data_block_state

    data_blocks : ℕ
    data_blocks =
        if is_44100 s.sfc then blocks_44100 phase else 11 * (sfc_code s.sfc / 2) + bit (phase == 0)

    next : ℕ
    next = if leb (80 / 2 ^ (sfc_code s.sfc / 2)) (phase + 1) then 0 else phase + 1
