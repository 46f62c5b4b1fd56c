-- ===== src/Amdtp/Callback.antt =====
-- The callbacks of the isochronous context. A callback that serves a slave takes the slave's
-- stream, which is used only where `sync_slave` is set, and returns both streams.
pub mod Error
pub mod Ready
use snd_firewire_improve.Common.{
  ℕ, zero, suc, ◌+◌, ◌-◌, ◌/◌, ◌^◌, Bool, true, false, ◌&&◌, if◌then◌else◌, bit_and, List, [], ◌∷◌,
  Option, none, some, ◌>>=◌, get_elem?, negsuc, is_negative, length,
}
use snd_firewire_improve.PacketsBuffer.{Packet}
use snd_firewire_improve.Amdtp.Types.{
  u32, queue_length, in_stream, out_stream, Callback, in_callback, slave_callback, out_callback,
  first_callback, Event, Env, Stream, note,
}
use snd_firewire_improve.Amdtp.Syt.{calculate_syt}
use snd_firewire_improve.Amdtp.Pointer.{pcm_abort}
use snd_firewire_improve.Amdtp.Queue.{current_packet}
use snd_firewire_improve.Amdtp.Packet.{handle_out_packet, handle_in_packet}

-- The loop of `out_stream_callback`; `n` rounds are left.
unfoldable pub out_packets : Env → ℕ → Stream → ℕ → Option Stream
out_packets env zero s cycle = some s
out_packets env (suc n) s cycle =
    let (syt, s') = calculate_syt s (u32 (cycle + 1)) in
    handle_out_packet env s' syt >>= λ s''. out_packets env n s'' (u32 (cycle + 1))

-- `out_stream_callback` for a number of packets.
unfoldable pub out_stream_callback : Env → Stream → ℕ → ℕ → Option Stream
out_stream_callback env s cycle packets =
    out_packets env packets s (u32 (cycle + (queue_length + 2 ^ 32 - packets))) >>= λ s'.
    some (note Event.queue_flush s')

-- `s->sync_slave && s->sync_slave->callbacked`
abbrev pub serves : Stream → Stream → Bool
serves s slave = s.sync_slave && slave.callbacked

-- The out-packet of the slave, with the time stamp of the master's packet.
unfoldable pub serve : Env → Stream → Stream → List ℕ → Option Stream
serve env s slave quadlets =
    if serves s slave
    then (get_elem? quadlets 1 >>= λ cip1. handle_out_packet env slave (bit_and cip1 0x0000ffff))
    else some slave

-- One round of `in_stream_callback` behind its test of the packet index, for the header of an
-- isochronous packet.
unfoldable pub in_packet : Env → Stream → Stream → ℕ → Option (Stream × Stream)
in_packet env s slave header = current_packet s >>= λ packet.
    serve env s slave packet.quadlets >>= λ slave'.
    handle_in_packet env s (header / 2 ^ 16 / 4) packet.quadlets >>= λ s'. some (s', slave')

-- Its loop over the headers, which stops at a negative packet index.
unfoldable pub in_packets : Env → Stream → Stream → List ℕ → Option (Stream × Stream)
in_packets env s slave [] = some (s, slave)
in_packets env s slave (h ∷ hs) = elim (is_negative s.packet_index) [
  | true ↦ some (s, slave)
  | false ↦ in_packet env s slave h >>= λ r. in_packets env r.0 r.1 hs
]

-- What `in_stream_callback` does behind its loop.
unfoldable pub in_finish : Stream → Stream → Stream × Stream
in_finish s slave =
    if is_negative s.packet_index
    then (s, if s.sync_slave then pcm_abort (record slave { packet_index = negsuc 0 }) else slave)
    else (note Event.queue_flush s, if serves s slave then note Event.queue_flush slave else slave)

-- `in_stream_callback`
unfoldable pub in_stream_callback : Env → Stream → Stream → List ℕ → Option (Stream × Stream)
in_stream_callback env s slave headers =
    in_packets env s slave headers >>= λ r. some (in_finish r.0 r.1)

-- The callback that `amdtp_stream_first_callback` installs.
abbrev pub chosen_callback : Stream → Callback
chosen_callback s = elim s.direction [
  | in_stream ↦ in_callback
  | out_stream ↦ if s.flags.blocking && s.flags.sync_to_device then slave_callback else out_callback
]

-- The callback that the context calls, for the cycle and the headers of an interrupt.
-- `slave_stream_callback` does nothing. `first_callback` is `amdtp_stream_first_callback`.
unfoldable pub run_callback :
    Callback → Env → Stream → Stream → ℕ → List ℕ → Option (Stream × Stream)
run_callback in_callback env s slave cycle headers = in_stream_callback env s slave headers
run_callback slave_callback env s slave cycle headers = some (s, slave)
run_callback out_callback env s slave cycle headers =
    out_stream_callback env s cycle (length headers) >>= λ s'. some (s', slave)
run_callback first_callback env s slave cycle headers = some (s, slave)

unfoldable pub first_stream_callback : Env → Stream → Stream → ℕ → List ℕ → Option (Stream × Stream)
first_stream_callback env s slave cycle headers =
    run_callback (chosen_callback s) env
      (note Event.wake_up (record s { callbacked = true; context = some (chosen_callback s) }))
      slave cycle headers
