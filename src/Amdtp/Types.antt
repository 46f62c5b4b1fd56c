-- ===== src/Amdtp/Types.antt =====
-- The constants, enumerations and structures of amdtp.h and amdtp.c.
use snd_firewire_improve.Common.{
  ℕ, ◌-◌, ◌*◌, ◌^◌, ◌%◌, Bool, not, ◌==◌, if◌then◌else◌, bit_and, Option, List, ◌∷◌, ℤ, Result, ◌≡◌,
  ◌⊎◌, inl, inr, refl,
}
use snd_firewire_improve.PacketsBuffer.{Memory, Packet}

-- `unsigned int`
abbrev pub u32 : ℕ → ℕ
u32 n = n % 2 ^ 32

abbrev pub uint_max : ℕ
uint_max = 2 ^ 32 - 1

abbrev pub ticks_per_cycle : ℕ
ticks_per_cycle = 3072

abbrev pub cycles_per_second : ℕ
cycles_per_second = 8000

abbrev pub ticks_per_second : ℕ
ticks_per_second = ticks_per_cycle * cycles_per_second

abbrev pub midi_bytes_per_second : ℕ
midi_bytes_per_second = 3093

abbrev pub max_midi_rx_blocks : ℕ
max_midi_rx_blocks = 8

abbrev pub transfer_delay_ticks : ℕ
transfer_delay_ticks = 0x2e00

abbrev pub tag_cip : ℕ
tag_cip = 1

abbrev pub cip_syt_no_info : ℕ
cip_syt_no_info = 0xffff

abbrev pub interrupt_interval : ℕ
interrupt_interval = 16

abbrev pub queue_length : ℕ
queue_length = 48

abbrev pub in_packet_header_size : ℕ
in_packet_header_size = 4

abbrev pub out_packet_header_size : ℕ
out_packet_header_size = 0

abbrev pub max_channels_for_pcm : ℕ
max_channels_for_pcm = 64

abbrev pub max_channels_for_midi : ℕ
max_channels_for_midi = 1

-- `enum cip_flags`, a Boolean for each bit.
pub record Flags : Type 0 where
  pub blocking : Bool
  pub sync_to_device : Bool
  pub empty_with_tag0 : Bool
  pub dbc_is_end_event : Bool
  pub wrong_dbs : Bool
  pub skip_dbc_zero_check : Bool
  pub skip_init_dbc_check : Bool
  pub empty_has_wrong_dbc : Bool

-- `enum cip_sfc`
pub data Sfc : Type 0 where
  sfc_32000 sfc_44100 sfc_48000 sfc_88200 sfc_96000 sfc_176400 sfc_192000 : Sfc

abbrev pub sfc_code : Sfc → ℕ
sfc_code sfc_32000 = 0
sfc_code sfc_44100 = 1
sfc_code sfc_48000 = 2
sfc_code sfc_88200 = 3
sfc_code sfc_96000 = 4
sfc_code sfc_176400 = 5
sfc_code sfc_192000 = 6

-- `amdtp_syt_intervals`
abbrev pub syt_intervals : Sfc → ℕ
syt_intervals sfc_32000 = 8
syt_intervals sfc_44100 = 8
syt_intervals sfc_48000 = 8
syt_intervals sfc_88200 = 16
syt_intervals sfc_96000 = 16
syt_intervals sfc_176400 = 32
syt_intervals sfc_192000 = 32

-- `amdtp_rate_table`
abbrev pub rate_table : Sfc → ℕ
rate_table sfc_32000 = 32000
rate_table sfc_44100 = 44100
rate_table sfc_48000 = 48000
rate_table sfc_88200 = 88200
rate_table sfc_96000 = 96000
rate_table sfc_176400 = 176400
rate_table sfc_192000 = 192000

-- `cip_sfc_is_base_44100`
abbrev pub is_base_44100 : Sfc → Bool
is_base_44100 sfc = not (bit_and (sfc_code sfc) 1 == 0)

-- `enum amdtp_stream_direction`
pub data Direction : Type 0 where
  out_stream in_stream : Direction

pub Direction-cases : (d : Direction) → (d ≡ out_stream) ⊎ (d ≡ in_stream)
Direction-cases out_stream = inl refl
Direction-cases in_stream = inr refl

-- The functions that `transfer_samples`, `transfer_midi` and the context's callback may point to.
pub data SampleTransfer : Type 0 where
  write_s16 write_s32 read_s32 : SampleTransfer

pub data MidiTransfer : Type 0 where
  fill_midi pull_midi : MidiTransfer

pub data Callback : Type 0 where
  first_callback in_callback slave_callback out_callback : Callback

-- The runtime of a PCM substream. `area` is `dma_area` in samples of the substream's format, and
-- a frame takes `frame_samples` of them.
pub record Pcm : Type 0 where
  pub area : List ℕ
  pub frame_samples : ℕ
  pub buffer_size : ℕ
  pub period_size : ℕ

-- `struct fw_iso_packet` with the offset at which it is queued.
pub record IsoPacket : Type 0 where
  pub interrupt : Bool
  pub tag : ℕ
  pub header_length : ℕ
  pub payload_length : ℕ
  pub skip : Bool
  pub at_offset : ℕ

-- The calls that leave the driver, with what they returned where that matters.
pub data Event : Type 0 where
  queued : IsoPacket → Event
  queue_flush flush_completions : Event
  midi_transmit : ℕ → Option ℕ → Event
  midi_receive : ℕ → List ℕ → Event
  schedule_period kill_period period_elapsed stop_xrun wake_up : Event
  context_stop context_destroy buffer_destroy : Event

-- What the bus, the rawmidi layer and the allocator answer, as functions of the calls so far (the
-- latest first): `iso_queue` is fw_iso_context_queue, `transmit` is snd_rawmidi_transmit of one
-- byte on a substream, and `node_id` is that of the card.
pub record Env : Type 0 where
  pub memory : Memory
  pub iso_queue : List Event → IsoPacket → Result (Unit {0})
  pub transmit : List Event → ℕ → Option ℕ
  pub context_create : Direction → ℕ → ℕ → ℕ → Result (Unit {0})
  pub context_start : List Event → Bool → Result (Unit {0})
  pub node_id : ℕ

-- `struct amdtp_stream`. `context` is `none` for ERR_PTR(-1); a substream of `midi` goes by a
-- number; `sync_slave` tells whether that pointer is set; `log` holds the calls made, latest first.
pub record Stream : Type 0 where
  pub flags : Flags
  pub direction : Direction
  pub context : Option Callback
  pub sfc : Sfc
  pub data_block_quadlets : ℕ
  pub pcm_channels : ℕ
  pub midi_ports : ℕ
  pub transfer_samples : Option SampleTransfer
  pub pcm_positions : List ℕ
  pub transfer_midi : Option MidiTransfer
  pub midi_position : ℕ
  pub syt_interval : ℕ
  pub transfer_delay : ℕ
  pub source_node_id_field : ℕ
  pub buffer : List Packet
  pub pcm : Option Pcm
  pub packet_index : ℤ
  pub data_block_counter : ℕ
  pub data_block_state : ℕ
  pub last_syt_offset : ℕ
  pub syt_offset_state : ℕ
  pub pcm_buffer_pointer : ℕ
  pub pcm_period_pointer : ℕ
  pub pointer_flush : Bool
  pub double_pcm_frames : Bool
  pub midi : ℕ → Option ℕ
  pub midi_fifo_limit : ℕ
  pub midi_fifo_used : ℕ → ℕ
  pub tx_dbc_interval : ℕ
  pub callbacked : Bool
  pub sync_slave : Bool
  pub log : List Event

abbrev pub note : Event → Stream → Stream
note e s = record s { log = e ∷ s.log }

-- A write to an array of fixed size at an index in range.
abbrev pub update {ℓ} : {A : Type ℓ} → (ℕ → A) → ℕ → A → ℕ → A
update f p v q = if p == q then v else f q

-- `initial_state[].data_block` and `initial_state[].syt_offset` of amdtp_stream_start.
abbrev pub initial_data_block : Sfc → ℕ
initial_data_block sfc_32000 = 4
initial_data_block sfc_44100 = 0
initial_data_block sfc_48000 = 6
initial_data_block sfc_88200 = 0
initial_data_block sfc_96000 = 12
initial_data_block sfc_176400 = 0
initial_data_block sfc_192000 = 24

abbrev pub initial_syt_offset : Sfc → ℕ
initial_syt_offset sfc_32000 = 3072
initial_syt_offset sfc_44100 = 67
initial_syt_offset sfc_48000 = 1024
initial_syt_offset sfc_88200 = 67
initial_syt_offset sfc_96000 = 1024
initial_syt_offset sfc_176400 = 67
initial_syt_offset sfc_192000 = 1024
