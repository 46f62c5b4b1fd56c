-- ===== src/Amdtp/Syt.antt =====
-- The time stamp of a packet: `calculate_syt`.
pub mod Clock
pub mod Field
use snd_firewire_improve.Common.{
  ℕ, ◌+◌, ◌-◌, ◌*◌, ◌/◌, ◌%◌, ◌^◌, Bool, not, ◌&&◌, ◌||◌, ◌==◌, leb, ltb, bit, if◌then◌else◌,
  bit_and,
}
use snd_firewire_improve.Amdtp.Types.{u32, ticks_per_cycle, cip_syt_no_info, is_base_44100, Stream}

-- 1386 1386 1387 1386 ...: what is added at a phase of the base 44100.
unfoldable pub increment_44100 : ℕ → ℕ
increment_44100 phase =
    let index = phase % 13 in 1386 + bit (not (index == 0) && bit_and index 3 == 0 || phase == 146)

-- The first half: `last_syt_offset` and `syt_offset_state` move on by one cycle.
unfoldable pub next_syt_offset : Stream → Stream
next_syt_offset s =
    if ltb s.last_syt_offset ticks_per_cycle
    then (if not (is_base_44100 s.sfc)
        then record s { last_syt_offset = u32 (s.last_syt_offset + s.syt_offset_state) }
        else record s {
          last_syt_offset = u32 (s.last_syt_offset + increment_44100 s.syt_offset_state);
          syt_offset_state = if leb 147 (s.syt_offset_state + 1) then 0 else s.syt_offset_state + 1;
        })
    else record s { last_syt_offset = s.last_syt_offset - ticks_per_cycle }

-- The second half: the SYT field for an offset and a cycle, or CIP_SYT_NO_INFO.
unfoldable pub syt_field : Stream → ℕ → ℕ
syt_field s cycle =
    let syt_offset = u32 (s.last_syt_offset + s.transfer_delay) in
    if ltb s.last_syt_offset ticks_per_cycle
    then bit_and
        (u32 ((cycle + syt_offset / ticks_per_cycle) * 2 ^ 12 + syt_offset % ticks_per_cycle))
        0xffff
    else cip_syt_no_info

unfoldable pub calculate_syt : Stream → ℕ → ℕ × Stream
unfolding next_syt_offset syt_field
calculate_syt s cycle = let s' = next_syt_offset s in (syt_field s' cycle, s')
