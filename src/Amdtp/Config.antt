-- ===== src/Amdtp/Config.antt =====
-- The configuration of a stream before it is started.
pub mod Parameters
use snd_firewire_improve.Common.{
  ℕ, zero, suc, ◌+◌, ◌-◌, ◌*◌, ◌/◌, ◌%◌, Bool, true, false, ◌||◌, ◌==◌, ltb, if◌then◌else◌, List,
  [], ◌∷◌, Option, none, some, set, replicate, pos,
}
use snd_firewire_improve.Amdtp.Types.{
  u32, Flags, Sfc, sfc_32000, sfc_44100, sfc_48000, sfc_88200, sfc_96000, sfc_176400, sfc_192000,
  rate_table, syt_intervals, ticks_per_second, ticks_per_cycle, transfer_delay_ticks,
  midi_bytes_per_second, max_channels_for_pcm, max_channels_for_midi, Direction, in_stream,
  out_stream, SampleTransfer, write_s16, write_s32, read_s32, Stream,
}
use snd_firewire_improve.Amdtp.Pointer.{running, pcm_running}

-- `amdtp_stream_init`
unfoldable pub init : Stream → Direction → Flags → Stream
init s dir flags = record s {
  direction = dir;
  flags = flags;
  context = none;
  packet_index = pos 0;
  callbacked = false;
  sync_slave = false;
}

-- The loop over `amdtp_rate_table`.
unfoldable pub find_sfc : List Sfc → ℕ → Option Sfc
find_sfc [] rate = none
find_sfc (sfc ∷ rest) rate = if rate_table sfc == rate then some sfc else find_sfc rest rate

abbrev pub all_sfcs : List Sfc
all_sfcs = sfc_32000 ∷ sfc_44100 ∷ sfc_48000 ∷ sfc_88200 ∷ sfc_96000 ∷ sfc_176400 ∷ sfc_192000 ∷ []

-- The loop that sets `pcm_positions[i] = i`; `n` rounds are left.
unfoldable pub init_positions : ℕ → ℕ → List ℕ → List ℕ
init_positions zero i ps = ps
init_positions (suc n) i ps = init_positions n (i + 1) (set ps i (i % 256))

-- The delay that is added to time stamps.
abbrev pub delay_of : Stream → Sfc → ℕ → ℕ
delay_of s sfc rate =
    if s.flags.blocking
    then transfer_delay_ticks - ticks_per_cycle + ticks_per_second * syt_intervals sfc / rate
    else transfer_delay_ticks - ticks_per_cycle

-- DIV_ROUND_UP(midi_ports, 8) in `unsigned int`.
abbrev pub midi_channels_of : ℕ → ℕ
midi_channels_of midi_ports = u32 (midi_ports + 7) / 8

-- The assignments behind `sfc_found`.
unfoldable pub set_rate : Stream → Sfc → ℕ → ℕ → ℕ → Stream
set_rate s sfc rate pcm_channels midi_ports = record s {
  pcm_channels = pcm_channels;
  sfc = sfc;
  data_block_quadlets = u32 (pcm_channels + midi_channels_of midi_ports);
  midi_ports = midi_ports;
  syt_interval = syt_intervals sfc;
  transfer_delay = delay_of s sfc rate;
  pcm_positions = init_positions pcm_channels 0 s.pcm_positions;
  midi_position = pcm_channels % 256;
  midi_fifo_limit = rate - midi_bytes_per_second * syt_intervals sfc + 1;
}

-- `amdtp_stream_set_parameters`: where a WARN_ON holds or the rate is unknown, nothing is set.
unfoldable pub set_parameters : Stream → ℕ → ℕ → ℕ → Stream
set_parameters s rate pcm_channels midi_ports =
    if running s
      || ltb max_channels_for_pcm pcm_channels
      || ltb max_channels_for_midi (midi_channels_of midi_ports)
    then s
    else elim (find_sfc all_sfcs rate) [
      | none ↦ s
      | some sfc ↦ set_rate s sfc rate pcm_channels midi_ports
    ]

-- The sample formats that `amdtp_stream_set_pcm_format` tells apart.
pub data PcmFormat : Type 0 where
  s16 s32 other_format : PcmFormat

-- The case of S32, which the others may fall through to.
unfoldable pub set_s32 : Stream → Stream
set_s32 s = elim s.direction [
  | out_stream ↦ elim s.transfer_samples [
    | none ↦ record s { transfer_samples = some write_s32 }
    | some t ↦ s
  ]
  | in_stream ↦ record s { transfer_samples = some read_s32 }
]

unfoldable pub set_s16 : Stream → Stream
set_s16 s = elim s.direction [
  | out_stream ↦ record s { transfer_samples = some write_s16 }
  | in_stream ↦ set_s32 s
]

-- `amdtp_stream_set_pcm_format`
unfoldable pub set_pcm_format : Stream → PcmFormat → Stream
set_pcm_format s format =
    if pcm_running s
    then s
    else elim format [ s16 ↦ set_s16 s | s32 ↦ set_s32 s | other_format ↦ set_s16 s ]

-- `amdtp_stream_set_sync`: the flags and the link of the master and the slave.
unfoldable pub set_sync : Bool → Stream → Stream → Stream × Stream
set_sync to_device master slave = (
  record master {
    flags = record (master.flags) { sync_to_device = to_device };
    sync_slave = to_device;
  },
  record slave { flags = record (slave.flags) { sync_to_device = to_device }; sync_slave = false },
)
