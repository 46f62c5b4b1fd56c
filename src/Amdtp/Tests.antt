-- ===== src/Amdtp/Tests.antt =====
-- A concrete stream for the tests of the theorems about streams.
mod Packets
mod Streams
use snd_firewire_improve.Common.{
  ℕ, ◌+◌, ◌-◌, ◌*◌, Bool, true, false, List, [], ◌∷◌, replicate, Option, some, none, pos, ok,
}
use snd_firewire_improve.PacketsBuffer.{Memory, Packet}
use snd_firewire_improve.Amdtp.Types.{
  Flags, Sfc, sfc_48000, out_stream, write_s32, fill_midi, out_callback, Pcm, Env, Stream,
}

abbrev pub plain_flags : Flags
plain_flags = record {
  blocking = false;
  sync_to_device = false;
  empty_with_tag0 = false;
  dbc_is_end_event = false;
  wrong_dbs = false;
  skip_dbc_zero_check = false;
  skip_init_dbc_check = false;
  empty_has_wrong_dbc = false;
}

abbrev pub some_memory : Memory
some_memory = record {
  page_size = 4096;
  cache_line = 64;
  kmalloc = λ _. true;
  iso_buffer_init = λ _. ok (λ _. 0);
}

-- A bus that takes every packet and a MIDI port that always has a byte.
abbrev pub some_env : Env
some_env = record {
  memory = some_memory;
  iso_queue = λ _ _. ok tt;
  transmit = λ _ _. some 0x90;
  context_create = λ _ _ _ _. ok tt;
  context_start = λ _ _. ok tt;
  node_id = 0;
}

abbrev pub some_pcm : Pcm
some_pcm = record {
  area = replicate 64 0x12345678;
  frame_samples = 2;
  buffer_size = 32;
  period_size = 16;
}

-- Two channels and a MIDI port at 48000 Hz, three quadlets to a data block.
abbrev pub some_stream : Stream
some_stream = record {
  flags = plain_flags;
  direction = out_stream;
  context = some out_callback;
  sfc = sfc_48000;
  data_block_quadlets = 3;
  pcm_channels = 2;
  midi_ports = 1;
  transfer_samples = some write_s32;
  pcm_positions = 0 ∷ 1 ∷ [];
  transfer_midi = some fill_midi;
  midi_position = 2;
  syt_interval = 8;
  transfer_delay = 0x2e00 - 3072;
  source_node_id_field = 0;
  buffer = replicate 48 (record { quadlets = replicate 32 0; offset = 0 });
  pcm = some some_pcm;
  packet_index = pos 0;
  data_block_counter = 0;
  data_block_state = 6;
  last_syt_offset = 3072;
  syt_offset_state = 1024;
  pcm_buffer_pointer = 30;
  pcm_period_pointer = 14;
  pointer_flush = true;
  double_pcm_frames = false;
  midi = λ _. some 0;
  midi_fifo_limit = 48000 - 3093 * 8 + 1;
  midi_fifo_used = λ _. 0;
  tx_dbc_interval = 0;
  callbacked = false;
  sync_slave = false;
  log = [];
}
