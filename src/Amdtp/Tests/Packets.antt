-- ===== src/Amdtp/Tests/Packets.antt =====
-- The theorems on packets, at the stream of 48000 Hz.
use snd_firewire_improve.Common.{
  ℕ, zero, suc, ◌+◌, ◌*◌, ◌%◌, ◌^◌, ◌<◌, ◌≡◌, inl, inr, refl, subst, true, List, [], ◌∷◌, length,
  replicate, get_elem?, some, pos, negsuc, arith,
}
use snd_firewire_improve.PacketsBuffer.{Packet}
use snd_firewire_improve.Amdtp.Types.{Stream, Pcm}
use snd_firewire_improve.Amdtp.Samples
use snd_firewire_improve.Amdtp.Samples.{encode_s32, decode_s32}
use snd_firewire_improve.Amdtp.Samples.Ring.{Misses, IsMapped, IsAttached, map_of}
use snd_firewire_improve.Amdtp.Samples.Write.{write_lem}
use snd_firewire_improve.Amdtp.Samples.Read.{Apart, read_lem}
use snd_firewire_improve.Amdtp.Cip.{header0, header1}
use snd_firewire_improve.Amdtp.Cip.Fields.{IsFramed}
use snd_firewire_improve.Amdtp.Pointer.{pcm_abort}
use snd_firewire_improve.Amdtp.Packet.{handle_out_packet, handle_in_packet, count_blocks, fail}
use snd_firewire_improve.Amdtp.Packet.Dbc.{
  deliver, IsFrom, handle_in_packet-header, handle_in_packet_gap,
}
use snd_firewire_improve.Amdtp.Packet.Ready.{Room, FitsPcm, IsReady}
use snd_firewire_improve.Amdtp.Packet.Safety.{handle_out_packet-IsReady}
use snd_firewire_improve.Amdtp.Callback.{
  out_stream_callback, serve, in_packet, in_packets, in_stream_callback,
}
use snd_firewire_improve.Amdtp.Callback.Ready.{out_stream_callback-IsReady}
use snd_firewire_improve.Amdtp.Callback.Error.{in_stream_callback_failed}
use snd_firewire_improve.Amdtp.Tests.{some_env, some_pcm, some_stream}

mapped : IsMapped some_stream
mapped = record {
  inside = (omega arith, (omega arith, tt));
  distinct = ((omega arith, tt), (tt, tt));
}

attached : IsAttached some_stream some_pcm
attached = record { frame = refl; pointer = omega arith; size = omega arith; area = omega arith }

write_lem_example :
    (out : List ℕ) × (Samples.write encode_s32 some_stream some_pcm (replicate 32 0) 2 6 ≡ some out)
    × (length out ≡ 32)
    × ((i c q x : ℕ)
        → i < 6
        → get_elem? (map_of some_stream) c ≡ some q
        → get_elem? some_pcm.area ((30 + i) % 32 * 2 + c) ≡ some x
        → get_elem? out (2 + i * 3 + q) ≡ some (encode_s32 x))
    × ((j : ℕ)
        → ((i : ℕ) → i < 6 → Misses (2 + i * 3) (map_of some_stream) j)
        → get_elem? out j ≡ get_elem? (replicate 32 0) j)
write_lem_example =
    write_lem encode_s32 some_stream some_pcm (replicate 32 0) 2 6 mapped attached (omega arith)
      (omega arith)

read_lem_example :
    (out : List ℕ) × (Samples.read some_stream some_pcm (replicate 32 7) 2 6 ≡ some out)
    × (length out ≡ 64)
    × ((i c q x : ℕ)
        → i < 6
        → get_elem? (map_of some_stream) c ≡ some q
        → get_elem? (replicate 32 7) (2 + i * 3 + q) ≡ some x
        → get_elem? out ((30 + i) % 32 * 2 + c) ≡ some (decode_s32 x))
    × ((j : ℕ)
        → ((i : ℕ) → i < 6 → Apart ((30 + i) % 32 * 2) 2 j)
        → get_elem? out j ≡ get_elem? some_pcm.area j)
read_lem_example =
    read_lem some_stream some_pcm (replicate 32 7) 2 6 mapped attached (omega arith) (omega arith)

framed : IsFramed some_stream
framed = record {
  node = refl;
  node_bound = omega arith;
  quadlets = omega arith;
  positive = omega arith;
  counter = omega arith;
}

abbrev received : List ℕ
received = header0 some_stream ∷ header1 some_stream 0x1234 ∷ replicate 18 0x40000000

IsFrom-some_stream : IsFrom some_stream 0x1234 received
IsFrom-some_stream = record { cip0 = refl; cip1 = refl }

handle_in_packet-header_example :
    handle_in_packet some_env some_stream (2 + 6 * 3) received
    ≡ deliver some_env some_stream received 6 (count_blocks some_stream 6).data_block_counter
handle_in_packet-header_example =
    handle_in_packet-header some_env some_stream some_stream 0x1234 6 received framed
      IsFrom-some_stream (omega arith) (record { dbs = refl; start_event = refl }) (inl refl)

abbrev behind : Stream
behind = record some_stream { data_block_counter = 8 }

handle_in_packet_gap_example :
    handle_in_packet some_env behind (2 + 6 * 3) received ≡ some (fail behind)
handle_in_packet_gap_example =
    handle_in_packet_gap some_env behind some_stream 0x1234 6 received framed IsFrom-some_stream
      (omega arith) (record { dbs = refl; start_event = refl }) (omega arith) (λ e. omega arith)
      (inl refl) (inl refl)

abbrev some_packet : Packet
some_packet = record { quadlets = replicate 32 0; offset = 0 }

roomy : (n : ℕ) → Room 26 (replicate n some_packet)
roomy zero = tt
roomy (suc n) = (omega arith, roomy n)

fitting : FitsPcm some_pcm 2 30 14 8
fitting = record {
  frame = refl;
  pointer_inside = omega arith;
  period_inside = omega arith;
  fits = omega arith;
  word = omega arith;
  area = omega arith;
  packet = omega arith;
}

in_ring : (i : ℕ) → pos 0 ≡ pos i → i < 48
in_ring i e = ground (arith, e)

pcm_fitting : (p : Pcm) → some some_pcm ≡ some p → FitsPcm p 2 30 14 8
pcm_fitting p e =
    let same : some_pcm ≡ p = cc in subst (λ (q : Pcm). FitsPcm q 2 30 14 8) same fitting

ready : IsReady some_stream
ready = record {
  ring = record { size = refl; index = in_ring; room = roomy 48 };
  rated = record { interval_of = refl; state_of = λ _. refl };
  laid = record {
    inside = (omega arith, (omega arith, tt));
    distinct = ((omega arith, tt), (tt, tt));
    midi_channel = inr (refl, omega arith);
    encoding = inr refl;
  };
  pcm_fits = pcm_fitting;
}

handle_out_packet-IsReady_example :
    (t : Stream) × (handle_out_packet some_env some_stream 0x1234 ≡ some t) × IsReady t
handle_out_packet-IsReady_example = handle_out_packet-IsReady some_env some_stream 0x1234 ready

out_stream_callback-IsReady_example :
    (t : Stream) × (out_stream_callback some_env some_stream 100 16 ≡ some t) × IsReady t
out_stream_callback-IsReady_example = out_stream_callback-IsReady some_env some_stream 100 16 ready

abbrev failed : Stream
failed = record some_stream { packet_index = negsuc 0 }

-- A master that finds a gap, with a slave that is not served yet.
abbrev master : Stream
master = record some_stream {
  data_block_counter = 8;
  sync_slave = true;
  buffer = replicate 48 (record { quadlets = received; offset = 0 });
}

late : in_packet some_env master some_stream (80 * 2 ^ 16) ≡ some (fail master, some_stream)
unfolding in_packet serve
late =
    rw
      (handle_in_packet_gap some_env master some_stream 0x1234 6 received framed IsFrom-some_stream
        (omega arith) (record { dbs = refl; start_event = refl }) (omega arith) (λ e. omega arith)
        (inl refl) (inl refl))
      refl

failed_index : (fail master).packet_index ≡ negsuc 0
unfolding fail pcm_abort
failed_index = refl

failed_slave : (fail master).sync_slave ≡ true
unfolding fail pcm_abort
failed_slave = refl

late_packets :
    in_packets some_env master some_stream (80 * 2 ^ 16 ∷ []) ≡ some (fail master, some_stream)
unfolding in_packets
late_packets = rw late refl

in_stream_callback_failed_example :
    (u : Stream) × (in_stream_callback some_env master some_stream (80 * 2 ^ 16 ∷ 80 * 2 ^ 16 ∷ [])
      ≡ some (fail master, u))
    × (u.packet_index ≡ negsuc 0)
    × ((syt : ℕ) → handle_out_packet some_env u syt ≡ some u)
    × ((later : List ℕ)
        → (v : Stream) × (in_stream_callback some_env (fail master) u later ≡ some (fail master, v))
          × (v.packet_index ≡ negsuc 0))
in_stream_callback_failed_example =
    in_stream_callback_failed some_env master some_stream (fail master) some_stream
      (80 * 2 ^ 16 ∷ []) (80 * 2 ^ 16 ∷ []) 0 late_packets failed_index failed_slave
