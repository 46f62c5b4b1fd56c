-- ===== src/Amdtp/Pointer.antt =====
-- The PCM pointers of a stream, and what a PCM device calls.
pub mod Ring
use snd_firewire_improve.Common.{
  ℕ, ◌+◌, ◌-◌, ◌*◌, ◌^◌, Bool, true, false, ◌&&◌, Option, none, some, leb, if◌then◌else◌,
}
use snd_firewire_improve.Amdtp.Types.{u32, Pcm, Event, Stream, note}

-- `amdtp_stream_running`
abbrev pub running : Stream → Bool
running s = elim s.context [ none ↦ false | some c ↦ true ]

-- `amdtp_stream_pcm_running`
abbrev pub pcm_running : Stream → Bool
pcm_running s = elim s.pcm [ none ↦ false | some p ↦ true ]

-- The ring buffer's pointer after some frames.
unfoldable pub next_pointer : Stream → Pcm → ℕ → ℕ
next_pointer s pcm frames =
    let ptr = u32 (s.pcm_buffer_pointer + frames) in
    if leb pcm.buffer_size ptr then ptr - pcm.buffer_size else ptr

-- The body of `update_pcm_pointers` behind the doubling of the frames.
unfoldable pub advance : Stream → Pcm → ℕ → Stream
unfolding next_pointer
advance s pcm frames =
    let period = u32 (s.pcm_period_pointer + frames) in
    let ptr = next_pointer s pcm frames in
    if leb pcm.period_size period
    then note Event.schedule_period (record s {
      pcm_buffer_pointer = ptr;
      pcm_period_pointer = period - pcm.period_size;
      pointer_flush = false;
    })
    else record s { pcm_buffer_pointer = ptr; pcm_period_pointer = period }

-- `update_pcm_pointers`
unfoldable pub update_pcm_pointers : Stream → Pcm → ℕ → Stream
unfolding advance
update_pcm_pointers s pcm data_blocks =
    advance s pcm (if s.double_pcm_frames then u32 (data_blocks * 2) else data_blocks)

-- `pcm_period_tasklet`
unfoldable pub pcm_period_tasklet : Stream → Stream
pcm_period_tasklet s = if pcm_running s then note Event.period_elapsed s else s

-- `amdtp_stream_pcm_prepare`
unfoldable pub pcm_prepare : Stream → Stream
pcm_prepare s =
    note Event.kill_period
      (record s { pcm_buffer_pointer = 0; pcm_period_pointer = 0; pointer_flush = true })

-- `amdtp_stream_pcm_pointer`
unfoldable pub pcm_pointer : Stream → ℕ × Stream
pcm_pointer s =
    if s.pointer_flush && running s
    then (s.pcm_buffer_pointer, note Event.flush_completions s)
    else (s.pcm_buffer_pointer, record s { pointer_flush = true })

-- `amdtp_stream_pcm_trigger`
unfoldable pub pcm_trigger : Stream → Option Pcm → Stream
pcm_trigger s pcm = record s { pcm = pcm }

-- `amdtp_stream_pcm_abort`
unfoldable pub pcm_abort : Stream → Stream
pcm_abort s = if pcm_running s then note Event.stop_xrun s else s
