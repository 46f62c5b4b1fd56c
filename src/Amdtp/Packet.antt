-- ===== src/Amdtp/Packet.antt =====
-- One packet: `handle_out_packet` and `handle_in_packet`. `none` is a fault: an access outside
-- a buffer, or a call through a null pointer.
pub mod Ready
pub mod Filled
pub mod Safety
pub mod Dbc
use snd_firewire_improve.Common.{
  ℕ, zero, suc, ◌+◌, ◌-◌, ◌*◌, ◌^◌, Bool, true, false, not, ◌&&◌, ◌||◌, ◌==◌, ltb, if◌then◌else◌,
  bit_and, List, [], ◌∷◌, Option, none, some, ◌>>=◌, get_elem?, set, store, ℤ, pos, negsuc,
  is_negative, Result, ok, err,
}
use snd_firewire_improve.PacketsBuffer.{Packet}
use snd_firewire_improve.Amdtp.Types.{
  u32, cip_syt_no_info, Direction, SampleTransfer, write_s16, write_s32, read_s32, MidiTransfer,
  fill_midi, pull_midi, Pcm, Env, Stream,
}
use snd_firewire_improve.Amdtp.Rate.{calculate_data_blocks}
use snd_firewire_improve.Amdtp.Samples
use snd_firewire_improve.Amdtp.Midi
use snd_firewire_improve.Amdtp.Pointer.{update_pcm_pointers, pcm_abort}
use snd_firewire_improve.Amdtp.Queue.{current_packet, queue_out_packet, queue_in_packet}
use snd_firewire_improve.Amdtp.Cip.{
  header0, header1, invalid_header, count_data_blocks, packet_dbc, is_lost, next_dbc,
}

-- The call through `transfer_samples`: the substream and the packet after it.
unfoldable pub transfer_samples : Stream → Pcm → List ℕ → ℕ → ℕ → Option (Pcm × List ℕ)
transfer_samples s pcm buffer base frames = elim s.transfer_samples [
  | none ↦ none
  | some t ↦ elim t [
    | write_s16 ↦
        Samples.write Samples.encode_s16 s pcm buffer base frames >>= λ out. some (pcm, out)
    | write_s32 ↦
        Samples.write Samples.encode_s32 s pcm buffer base frames >>= λ out. some (pcm, out)
    | read_s32 ↦
        Samples.read s pcm buffer base frames >>= λ area. some (record pcm { area = area }, buffer)
  ]
]

-- The call through `transfer_midi`.
unfoldable pub transfer_midi : Env → Stream → List ℕ → ℕ → ℕ → Option (Stream × List ℕ)
transfer_midi env s buffer base frames = elim s.transfer_midi [
  | none ↦ none
  | some t ↦ elim t [
    | fill_midi ↦ Midi.fill_midi env s buffer base frames
    | pull_midi ↦ Midi.pull_midi s buffer base frames >>= λ s'. some (s', buffer)
  ]
]

-- The samples of an out-packet, or silence, with the ring buffer that the call leaves.
unfoldable pub fill_samples : Stream → List ℕ → ℕ → Option (Stream × List ℕ)
fill_samples s buffer data_blocks = elim s.pcm [
  | none ↦ Samples.fill_silence s buffer 2 data_blocks >>= λ out. some (s, out)
  | some pcm ↦
      transfer_samples s pcm buffer 2 data_blocks >>= λ r. some (record s { pcm = some r.0 }, r.1)
]

-- The MIDI channel, if the stream has ports.
unfoldable pub move_midi : Env → Stream → List ℕ → ℕ → Option (Stream × List ℕ)
move_midi env s buffer data_blocks =
    if s.midi_ports == 0 then some (s, buffer) else transfer_midi env s buffer 2 data_blocks

-- `s->packet_index = -1` and the abort of the PCM device.
unfoldable pub fail : Stream → Stream
fail s = pcm_abort (record s { packet_index = negsuc 0 })

-- What follows the queueing of a packet, with the substream that took part.
unfoldable pub finish : Result (Unit {0}) → Stream → Option Pcm → ℕ → Stream
finish (err e) s pcm data_blocks = fail s
finish (ok u) s none data_blocks = s
finish (ok u) s (some pcm) data_blocks = update_pcm_pointers s pcm data_blocks

-- The stream with a packet of its buffer written.
abbrev pub put_packet : Stream → ℕ → Packet → List ℕ → Stream
put_packet s i packet quadlets = record s {
  buffer = set s.buffer i (record packet { quadlets = quadlets });
}

-- The content of an out-packet with these data blocks.
unfoldable pub fill_packet : Env → Stream → ℕ → ℕ → List ℕ → Option (Stream × List ℕ)
fill_packet env s syt data_blocks quadlets = store quadlets 0 (header0 s) >>= λ q0.
    store q0 1 (header1 s syt) >>= λ q1.
    fill_samples s q1 data_blocks >>= λ r. move_midi env r.0 r.1 data_blocks

-- The counter behind an out-packet.
abbrev pub count_blocks : Stream → ℕ → Stream
count_blocks s data_blocks = record s {
  data_block_counter = bit_and (u32 (s.data_block_counter + data_blocks)) 0xff;
}

-- `8 + data_blocks * 4 * s->data_block_quadlets`
abbrev pub payload_of : Stream → ℕ → ℕ
payload_of s data_blocks = u32 (8 + data_blocks * 4 * s.data_block_quadlets)

-- The data blocks of the next out-packet.
unfoldable pub out_data_blocks : Stream → ℕ → ℕ × Stream
out_data_blocks s syt =
    if not s.flags.blocking || not (syt == cip_syt_no_info) then calculate_data_blocks s else (0, s)

-- `handle_out_packet` at packet i.
unfoldable pub send_packet : Env → Stream → ℕ → ℕ → Option Stream
send_packet env s syt i =
    let (data_blocks, s1) = out_data_blocks s syt in
    get_elem? s1.buffer i >>= λ packet. fill_packet env s1 syt data_blocks packet.quadlets >>= λ r.
    let s2 = count_blocks (put_packet r.0 i packet r.1) data_blocks in
    queue_out_packet env s2 (payload_of s2 data_blocks) false >>= λ q.
    some (finish q.0 q.1 q.1.pcm data_blocks)

-- `handle_out_packet`
unfoldable pub handle_out_packet : Env → Stream → ℕ → Option Stream
handle_out_packet env s syt = elim s.packet_index [
  | negsuc i ↦ some s
  | pos i ↦ send_packet env s syt i
]

-- The samples and MIDI bytes of an in-packet that has data blocks.
unfoldable pub receive_samples : Env → Stream → List ℕ → ℕ → Option Stream
receive_samples env s buffer data_blocks = elim s.pcm [
  | none ↦ move_midi env s buffer data_blocks >>= λ r. some r.0
  | some pcm ↦ transfer_samples s pcm buffer 2 data_blocks >>= λ t.
      move_midi env (record s { pcm = some t.0 }) buffer data_blocks >>= λ r. some r.0
]

-- The end of `handle_in_packet`: queue the packet again, and move the pointers of the substream
-- that received samples.
unfoldable pub requeue : Env → Stream → Option Pcm → ℕ → Option Stream
requeue env s pcm data_blocks = queue_in_packet env s >>= λ q. some (finish q.0 q.1 pcm data_blocks)

-- A packet whose header was accepted, with its data blocks and its counter.
unfoldable pub accept : Env → Stream → List ℕ → ℕ → ℕ → Option Stream
accept env s buffer data_blocks dbc =
    if is_lost s dbc data_blocks
    then some (fail s)
    else if data_blocks == 0
    then requeue env (record s { data_block_counter = next_dbc s dbc 0 }) none 0
    else receive_samples env s buffer data_blocks >>= λ s1.
        requeue env (record s1 { data_block_counter = next_dbc s dbc data_blocks }) s1.pcm
          data_blocks

-- `handle_in_packet`
unfoldable pub handle_in_packet : Env → Stream → ℕ → List ℕ → Option Stream
handle_in_packet env s payload_quadlets buffer = get_elem? buffer 0 >>= λ cip0.
    get_elem? buffer 1 >>= λ cip1.
    if invalid_header cip0 cip1
    then requeue env s none 0
    else elim (count_data_blocks s payload_quadlets cip0 cip1) [
      | err e ↦ some (fail s)
      | ok data_blocks ↦ accept env s buffer data_blocks (packet_dbc s cip0 data_blocks)
    ]
