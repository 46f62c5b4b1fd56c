-- ===== src/Amdtp/Callback/Ready.antt =====
-- `out_stream_callback` over any number of packets: it is safe, and goes on to be.
use snd_firewire_improve.Common.{ℕ, zero, suc, ◌+◌, ◌-◌, ◌^◌, ◌≡◌, refl, some, arith}
use snd_firewire_improve.Amdtp.Types.{u32, queue_length, Event, Env, Stream, note}
use snd_firewire_improve.Amdtp.Syt.{calculate_syt, next_syt_offset}
use snd_firewire_improve.Amdtp.Packet.Ready.{IsReady}
use snd_firewire_improve.Amdtp.Packet.Safety.{handle_out_packet-IsReady}
use snd_firewire_improve.Amdtp.Callback.{out_packets, out_stream_callback}

calculate_syt-IsReady : (s : Stream) (cycle : ℕ) → IsReady s → IsReady (calculate_syt s cycle).1
unfolding calculate_syt next_syt_offset
calculate_syt-IsReady s cycle r = ground (arith, r.ring, r.rated, r.laid, r.pcm_fits)

out_packets-IsReady :
    (env : Env) (n : ℕ) (s : Stream) (cycle : ℕ)
    → IsReady s
    → (t : Stream) × (out_packets env n s cycle ≡ some t) × IsReady t
unfolding out_packets
out_packets-IsReady env zero s cycle r = (s, refl, r)
out_packets-IsReady env (suc n) s cycle r =
    let c = u32 (cycle + 1) in
    let (u, e, ru) =
      handle_out_packet-IsReady env (calculate_syt s c).1 (calculate_syt s c).0
        (calculate_syt-IsReady s c r) in
    let (t, f, rt) = out_packets-IsReady env n u c ru in (t, rw e f, rt)

-- The callback of an out-stream that is ready handles any number of packets without an access
-- outside a buffer, whatever the bus and the MIDI ports answer, and leaves the stream ready.
pub out_stream_callback-IsReady :
    (env : Env) (s : Stream) (cycle packets : ℕ)
    → IsReady s
    → (t : Stream) × (out_stream_callback env s cycle packets ≡ some t) × IsReady t
unfolding out_stream_callback
out_stream_callback-IsReady env s cycle packets r =
    let (t, e, rt) =
      out_packets-IsReady env packets s (u32 (cycle + (queue_length + 2 ^ 32 - packets))) r in
    (
      note Event.queue_flush t,
      rw e refl,
      record { ring = rt.ring; rated = rt.rated; laid = rt.laid; pcm_fits = rt.pcm_fits },
    )
