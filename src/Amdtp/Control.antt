-- ===== src/Amdtp/Control.antt =====
-- Starting, stopping and updating a stream.
pub mod Start
use snd_firewire_improve.Common.{
  ℕ, zero, suc, ◌+◌, ◌*◌, ◌^◌, Bool, true, false, ◌&&◌, ◌||◌, ltb, if◌then◌else◌, bit_and, List, [],
  Option, none, some, ◌>>=◌, pos, negsuc, Result, ok, err, Errno, ebadfd,
}
use snd_firewire_improve.PacketsBuffer
use snd_firewire_improve.Amdtp.Types.{
  uint_max, queue_length, ticks_per_cycle, in_packet_header_size, out_packet_header_size,
  initial_data_block, initial_syt_offset, Direction, in_stream, out_stream, fill_midi, pull_midi,
  MidiTransfer, first_callback, Event, Env, Stream, note,
}
use snd_firewire_improve.Amdtp.Pointer.{running}
use snd_firewire_improve.Amdtp.Queue.{get_max_payload, queue_in_packet, queue_out_packet}

-- `amdtp_stream_update`
unfoldable pub update_node : Env → Stream → Stream
update_node env s = record s { source_node_id_field = bit_and env.node_id 0x3f * 2 ^ 24 }

-- The state that `amdtp_stream_start` sets before it allocates anything.
unfoldable pub reset : Stream → Stream
reset s = record s {
  data_block_counter = elim s.direction [
    | in_stream ↦ if s.flags.skip_init_dbc_check then uint_max else 0
    | out_stream ↦ 0
  ];
  data_block_state = initial_data_block s.sfc;
  syt_offset_state = initial_syt_offset s.sfc;
  last_syt_offset = ticks_per_cycle;
  transfer_midi = elim s.transfer_midi [
    | some t ↦ some t
    | none ↦ some (elim s.direction [ out_stream ↦ fill_midi | in_stream ↦ pull_midi ])
  ];
}

-- The body of the loop that queues the first packets: an empty skipped packet for an out-stream.
unfoldable pub queue_first : Env → Stream → Option (Result (Unit {0}) × Stream)
queue_first env s = elim s.direction [
  | in_stream ↦ queue_in_packet env s
  | out_stream ↦ queue_out_packet env s 0 true
]

-- `do ... while (s->packet_index > 0)`, on fuel. The inner result is an error of the queue; `none`
-- is a fault or the end of the fuel.
unfoldable pub queue_all : Env → ℕ → Stream → Option (Result (Unit {0}) × Stream)
queue_all env zero s = none
queue_all env (suc n) s = queue_first env s >>= λ q. elim q.0 [
  | err e ↦ some (err e, q.1)
  | ok u ↦ elim q.1.packet_index [
    | negsuc i ↦ some (ok tt, q.1)
    | pos i ↦ elim i [ zero ↦ some (ok tt, q.1) | suc j ↦ queue_all env n q.1 ]
  ]
]

-- The exits `err_context` and `err_buffer`.
unfoldable pub free_buffer : Stream → Stream
free_buffer s = note Event.buffer_destroy (record s { buffer = [] })

unfoldable pub drop_context : Stream → Stream
drop_context s = free_buffer (note Event.context_destroy (record s { context = none }))

-- The packets are queued and the context is started.
unfoldable pub launch : Env → Stream → Option (Result (Unit {0}) × Stream)
launch env s = queue_all env queue_length (record s { packet_index = pos 0 }) >>= λ q. elim q.0 [
  | err e ↦ some (err e, drop_context q.1)
  | ok u ↦
      let s' = record (q.1) { callbacked = false } in
      elim (env.context_start s'.log s'.flags.empty_with_tag0) [
        | ok v ↦ some (ok tt, s')
        | err e ↦ some (err e, drop_context s')
      ]
]

-- The header size for the context's direction.
abbrev pub header_size : Direction → ℕ
header_size in_stream = in_packet_header_size
header_size out_stream = out_packet_header_size

-- `amdtp_stream_start` behind its first test. The heap that the packet buffer takes from is not
-- part of the stream.
unfoldable pub open_context : Env → Stream → ℕ → ℕ → Option (Result (Unit {0}) × Stream)
open_context env s channel speed =
    elim (PacketsBuffer.init env.memory queue_length (get_max_payload s) 0).0 [
      | err e ↦ some (err e, s)
      | ok packets ↦
          let s1 = record s { buffer = packets } in
          elim (env.context_create s.direction channel speed (header_size s.direction)) [
            | err e ↦ some (err e, free_buffer s1)
            | ok u ↦ launch env (update_node env (record s1 { context = some first_callback }))
          ]
    ]

-- `amdtp_stream_start`
unfoldable pub start : Env → Stream → ℕ → ℕ → Option (Result (Unit {0}) × Stream)
start env s channel speed =
    if running s || ltb s.data_block_quadlets 1
    then some (err ebadfd, s)
    else open_context env (reset s) channel speed

-- `amdtp_stream_stop`
unfoldable pub stop : Stream → Stream
stop s =
    if running s
    then record (free_buffer (
        note Event.context_destroy
          (note Event.context_stop (note Event.kill_period (record s { context = none }))))) {
            callbacked = false;
          }
    else s
