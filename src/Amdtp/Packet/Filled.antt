-- ===== src/Amdtp/Packet/Filled.antt =====
-- The content of an out-packet is written without a fault.
use snd_firewire_improve.Common.{
  ℕ, zero, suc, ◌+◌, ◌*◌, ◌≤◌, ◌<◌, ◌≡◌, ◌∙◌, inl, inr, refl, ap, List, [], ◌∷◌, length, length-set,
  set, store-eq-set, some, Option-cases, Bool-cases, ◌==◌, arith,
}
use snd_firewire_improve.Amdtp.Types.{Event, Env, Pcm, Stream}
use snd_firewire_improve.PacketsBuffer.{Packet}
use snd_firewire_improve.Amdtp.Samples
use snd_firewire_improve.Amdtp.Samples.{silence_channels, silence_frames, fill_silence}
use snd_firewire_improve.Amdtp.Samples.Ring.{Inside, map_of, IsMapped, IsAttached}
use snd_firewire_improve.Amdtp.Samples.Write.{write_lem}
use snd_firewire_improve.Amdtp.Midi.{fill_block, fill_blocks}
use snd_firewire_improve.Amdtp.Midi
use snd_firewire_improve.Amdtp.Cip.{header0, header1}
use snd_firewire_improve.Amdtp.Packet.{
  fill_samples, transfer_samples, transfer_midi, move_midi, fill_packet,
}
use snd_firewire_improve.Amdtp.Packet.Ready.{IsReady}

silence_channels-some :
    (ps : List ℕ) (quadlets base : ℕ) (buffer : List ℕ)
    → Inside quadlets ps
    → base + quadlets ≤ length buffer
    → (out : List ℕ) × (silence_channels ps base buffer ≡ some out) × (length out ≡ length buffer)
unfolding silence_channels
silence_channels-some [] quadlets base buffer i h = (buffer, refl, refl)
silence_channels-some (p ∷ ps) quadlets base buffer i h =
    let b = set buffer (base + p) 0x40000000 in
    let n : length b ≡ length buffer = length-set buffer (base + p) 0x40000000 in
    let (out, e, l) = silence_channels-some ps quadlets base b i.1 (omega arith) in
    (out, rw (store-eq-set buffer (base + p) 0x40000000 (omega arith)) e, l ∙ n)

silence_frames-some :
    (ps : List ℕ) (quadlets n base : ℕ) (buffer : List ℕ)
    → Inside quadlets ps
    → base + n * quadlets ≤ length buffer
    → (out : List ℕ) × (silence_frames ps quadlets n base buffer ≡ some out)
      × (length out ≡ length buffer)
unfolding silence_frames
silence_frames-some ps quadlets zero base buffer i h = (buffer, refl, refl)
silence_frames-some ps quadlets (suc n) base buffer i h =
    let (b, e, l) = silence_channels-some ps quadlets base buffer i (omega arith) in
    let (out, f, m) = silence_frames-some ps quadlets n (base + quadlets) b i (omega arith) in
    (out, rw e f, m ∙ l)

transfer_samples-some :
    (s : Stream) (pcm : Pcm) (buffer : List ℕ) (n : ℕ)
    → IsReady s
    → s.pcm ≡ some pcm
    → n ≤ s.syt_interval
    → 2 + n * s.data_block_quadlets ≤ length buffer
    → (out : List ℕ) × (transfer_samples s pcm buffer 2 n ≡ some (pcm, out))
      × (length out ≡ length buffer)
unfolding transfer_samples
transfer_samples-some s pcm buffer n r e h l =
    let f = r.pcm_fits pcm e in
    let m : IsMapped s = record { inside = r.laid.inside; distinct = r.laid.distinct } in
    let a : IsAttached s pcm = record {
      frame = f.frame;
      pointer = f.pointer_inside;
      size = omega arith;
      area = f.area;
    } in
    elim r.laid.encoding [
      | inl c ↦
          let w = write_lem Samples.encode_s16 s pcm buffer 2 n m a (omega arith) l in
          (w.0, ground (arith, w.1), w.2)
      | inr c ↦
          let w = write_lem Samples.encode_s32 s pcm buffer 2 n m a (omega arith) l in
          (w.0, ground (arith, w.1), w.2)
    ]

-- The samples or the silence of n data blocks.
fill_samples-some :
    (s : Stream) (buffer : List ℕ) (n : ℕ)
    → IsReady s
    → n ≤ s.syt_interval
    → 2 + n * s.data_block_quadlets ≤ length buffer
    → (out : List ℕ) × (fill_samples s buffer n ≡ some (s, out)) × (length out ≡ length buffer)
unfolding fill_samples fill_silence
fill_samples-some s buffer n r h l = elim (Option-cases s.pcm) [
  | inl e ↦
      let (out, g, m) =
        silence_frames-some (map_of s) s.data_block_quadlets n 2 buffer r.laid.inside l in
      (out, ground (arith, g), m)
  | inr x ↦
      let (out, g, m) = transfer_samples-some s x.0 buffer n r x.1 h l in
      (out, ground (arith, g, x.1), m)
]

-- A stream that differs in the MIDI levels and the log only.
abbrev pub with_midi : Stream → (ℕ → ℕ) → List Event → Stream
with_midi s used log = record s { midi_fifo_used = used; log = log }

fill_block_shape :
    (env : Env) (s : Stream) (f : ℕ)
    → let t = (fill_block env s f).1 in t ≡ with_midi s t.midi_fifo_used t.log
unfolding fill_block
fill_block_shape env s f = ground arith

store_block :
    (env : Env) (n f base : ℕ) (s t : Stream) (q : ℕ) (buffer : List ℕ)
    → fill_block env s f ≡ (q, t)
    → base + s.midi_position < length buffer
    → fill_blocks env (suc n) f base s buffer
      ≡ fill_blocks env n
          (f + 1)
          (base + s.data_block_quadlets)
          t
          (set buffer (base + s.midi_position) q)
unfolding fill_blocks
store_block env n f base s t q buffer e h =
    rw (e, store-eq-set buffer (base + s.midi_position) q h) refl

fill_blocks-some :
    (env : Env) (n f base : ℕ) (s : Stream) (buffer : List ℕ)
    → s.midi_position < s.data_block_quadlets
    → base + n * s.data_block_quadlets ≤ length buffer
    → (used : ℕ → ℕ) × (log : List Event) × (out : List ℕ) × (fill_blocks env n f base s buffer
        ≡ some (with_midi s used log, out))
      × (length out ≡ length buffer)
unfolding fill_blocks
fill_blocks-some env zero f base s buffer p h = (s.midi_fifo_used, s.log, buffer, refl, refl)
fill_blocks-some env (suc n) f base s buffer p h =
    let q = (fill_block env s f).0 in
    let t = (fill_block env s f).1 in
    let u = with_midi s t.midi_fifo_used t.log in
    let b = set buffer (base + s.midi_position) q in
    let m : length b ≡ length buffer = length-set buffer (base + s.midi_position) q in
    let (used, log, out, e, l) =
      fill_blocks-some env n (f + 1) (base + s.data_block_quadlets) u b p (omega arith) in
    let first =
      store_block env n f base s u q buffer (ap (λ (v : Stream). (q, v)) (fill_block_shape env s f))
        (omega arith) in
    (used, log, out, first ∙ e, l ∙ m)

-- A stream that differs in the buffer of packets, the MIDI levels and the log only.
abbrev pub with_content : Stream → List Packet → (ℕ → ℕ) → List Event → Stream
with_content s packets used log = record s { buffer = packets; midi_fifo_used = used; log = log }

move_midi-some :
    (env : Env) (s : Stream) (buffer : List ℕ) (n : ℕ)
    → IsReady s
    → 2 + n * s.data_block_quadlets ≤ length buffer
    → (used : ℕ → ℕ) × (log : List Event) × (out : List ℕ) × (move_midi env s buffer n
        ≡ some (with_midi s used log, out))
      × (length out ≡ length buffer)
unfolding move_midi transfer_midi Midi.fill_midi
move_midi-some env s buffer n r h = elim r.laid.midi_channel [
  | inl z ↦ (s.midi_fifo_used, s.log, buffer, ground arith, refl)
  | inr m ↦
      let (used, log, out, e, l) = fill_blocks-some env n 0 2 s buffer m.1 h in
      elim (Bool-cases (s.midi_ports == 0)) [
        | inl y ↦ (s.midi_fifo_used, s.log, buffer, ground arith, refl)
        | inr y ↦ (used, log, out, ground (arith, m.0, e), l)
      ]
]

-- A packet of a ready stream is filled, and only the MIDI state changes.
pub fill_packet-some :
    (env : Env) (s : Stream) (syt n : ℕ) (buffer : List ℕ)
    → IsReady s
    → n ≤ s.syt_interval
    → 2 + n * s.data_block_quadlets ≤ length buffer
    → (used : ℕ → ℕ) × (log : List Event) × (out : List ℕ) × (fill_packet env s syt n buffer
        ≡ some (with_midi s used log, out))
      × (length out ≡ length buffer)
unfolding fill_packet
fill_packet-some env s syt n buffer r h l =
    let q0 = set buffer 0 (header0 s) in
    let l0 : length q0 ≡ length buffer = length-set buffer 0 (header0 s) in
    let q1 = set q0 1 (header1 s syt) in
    let l1 : length q1 ≡ length q0 = length-set q0 1 (header1 s syt) in
    let (b, e, m) = fill_samples-some s q1 n r h (omega arith) in
    let (used, log, out, f, k) = move_midi-some env s b n r (omega arith) in
    (
      used,
      log,
      out,
      rw
          (
            store-eq-set buffer 0 (header0 s) (omega arith),
            store-eq-set q0 1 (header1 s syt) (omega arith),
            e,
          )
          f,
      omega arith,
    )
