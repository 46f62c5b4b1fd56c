-- ===== src/Amdtp/Syt/Field.antt =====
-- The bits of the SYT field.
use snd_firewire_improve.Common.{ℕ, ◌+◌, ◌*◌, ◌/◌, ◌%◌, ◌^◌, ◌<◌, ◌≡◌, ◌≢◌, arith}
use snd_firewire_improve.Common.Bits.{and_low}
use snd_firewire_improve.Amdtp.Types.{u32, ticks_per_cycle, cip_syt_no_info, Stream}
use snd_firewire_improve.Amdtp.Syt.{syt_field}

-- A stamp holds the offset within a cycle in its low 12 bits and the low four bits of the cycle
-- above them, the transfer delay counted in, and is never CIP_SYT_NO_INFO.
pub syt_field_lem :
    (s : Stream) (cycle : ℕ)
    → s.transfer_delay < 2 ^ 31
    → s.last_syt_offset < ticks_per_cycle
    → let ticks = s.last_syt_offset + s.transfer_delay in
      (syt_field s cycle % 2 ^ 12 ≡ ticks % ticks_per_cycle)
      × (syt_field s cycle / 2 ^ 12 ≡ (cycle + ticks / ticks_per_cycle) % 16)
      × (syt_field s cycle ≢ cip_syt_no_info)
unfolding syt_field
syt_field_lem s cycle d h = ground (
  arith,
  and_low 16 (
      u32 (
        (cycle + u32 (s.last_syt_offset + s.transfer_delay) / 3072) * 2 ^ 12
        + u32 (s.last_syt_offset + s.transfer_delay) % 3072)),
)
