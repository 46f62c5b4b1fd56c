-- ===== src/Amdtp/Samples/Write.antt =====
-- Played samples reach the data blocks, and no access is out of bounds.
use snd_firewire_improve.Common.{
  ℕ, zero, suc, ◌+◌, ◌-◌, ◌*◌, ◌%◌, ◌^◌, ◌≤◌, ◌<◌, ◌≡◌, ◌≢◌, ◌∙◌, refl, List, [], ◌∷◌, some, ap,
  ◌==◌, if◌then◌else◌, get_elem?, get_elem?-some, get_elem?-set_self, get_elem?-set_ne, set,
  store-eq-set, length, length-set, All, arith,
}
use snd_firewire_improve.Amdtp.Types.{u32, Pcm, Stream}
use snd_firewire_improve.Amdtp.Samples.{write_channels, write_frames, write, dec32}
use snd_firewire_improve.Amdtp.Samples.Ring.{
  Inside, Distinct, Misses, Misses-other, Misses-outside, Inside-get, src_at, src_at_next,
  src_at-ring, ring_room, map_of, length-map_of, IsMapped, IsAttached,
}

-- The outcome of the loop over the channels.
record Channels (encode : ℕ → ℕ) (area : List ℕ) (src : ℕ) (ps : List ℕ) (base : ℕ)
    (buffer out : List ℕ) : Type 0 where
  result : write_channels encode area src ps base buffer ≡ some out
  size : length out ≡ length buffer
  kept : (j : ℕ) → Misses base ps j → get_elem? out j ≡ get_elem? buffer j
  sample :
      (c q x : ℕ)
      → get_elem? ps c ≡ some q
      → get_elem? area (src + c) ≡ some x
      → get_elem? out (base + q) ≡ some (encode x)

module _ (encode : ℕ → ℕ) (area : List ℕ) (src p : ℕ) (ps : List ℕ) (base : ℕ) (buffer out : List ℕ)
    (x : ℕ) (here : get_elem? area src ≡ some x) (room : base + p < length buffer)
    (other : All (λ q. p ≢ q) ps)
    (rest : Channels encode area (src + 1) ps base (set buffer (base + p) (encode x)) out) where
  cons_sample :
      (c q y : ℕ)
      → get_elem? (p ∷ ps) c ≡ some q
      → get_elem? area (src + c) ≡ some y
      → get_elem? out (base + q) ≡ some (encode y)
  cons_sample zero q y e ea =
      let same : get_elem? area src ≡ some y = let z : src + 0 ≡ src = omega arith in rw z at ea in
      let written = rest.kept (base + p) (Misses-other base p ps other) in
      let value = get_elem?-set_self buffer (base + p) (encode x) room in ground arith
  cons_sample (suc c) q y e ea =
      rest.sample c q y e (let z : src + suc c ≡ src + 1 + c = omega arith in rw z at ea)

  channels_cons : Channels encode area src (p ∷ ps) base buffer out
  unfolding write_channels
  channels_cons = record {
    result = rw (here, store-eq-set buffer (base + p) (encode x) room) rest.result;
    size = rest.size ∙ length-set buffer (base + p) (encode x);
    kept = λ j m. rest.kept j m.1 ∙ get_elem?-set_ne buffer (encode x) m.0;
    sample = cons_sample;
  }

channels :
    (encode : ℕ → ℕ) (area : List ℕ) (src : ℕ) (ps : List ℕ) (quadlets base : ℕ) (buffer : List ℕ)
    → Inside quadlets ps
    → Distinct ps
    → src + length ps ≤ length area
    → base + quadlets ≤ length buffer
    → (out : List ℕ) × Channels encode area src ps base buffer out
unfolding write_channels
channels encode area src [] quadlets base buffer i d a b =
    (buffer, record { result = refl; size = refl; kept = λ j m. refl; sample = λ c q x e. cc })
channels encode area src (p ∷ ps) quadlets base buffer i d a b =
    let (x, ex) = get_elem?-some area src (omega arith) in
    let buffer' = set buffer (base + p) (encode x) in
    let n : length buffer' ≡ length buffer = length-set buffer (base + p) (encode x) in
    let (out, r) =
      channels encode area (src + 1) ps quadlets base buffer' i.1 d.1 (omega arith) (omega arith) in
    (out, channels_cons encode area src p ps base buffer out x ex (omega arith) d.0 r)

-- The outcome of the loop over the frames.
pub record Frames (encode : ℕ → ℕ) (area : List ℕ) (channels : ℕ) (ps : List ℕ)
    (quadlets n src remaining base : ℕ) (buffer out : List ℕ) : Type 0 where
  pub result : write_frames encode area channels ps quadlets n src remaining base buffer ≡ some out
  pub size : length out ≡ length buffer
  pub kept :
      (j : ℕ)
      → ((i : ℕ) → i < n → Misses (base + i * quadlets) ps j)
      → get_elem? out j ≡ get_elem? buffer j
  pub sample :
      (i c q x : ℕ)
      → i < n
      → get_elem? ps c ≡ some q
      → get_elem? area (src_at src remaining channels i + c) ≡ some x
      → get_elem? out (base + i * quadlets + q) ≡ some (encode x)

module _ (encode : ℕ → ℕ) (area : List ℕ) (channels : ℕ) (ps : List ℕ)
    (quadlets n src remaining base : ℕ) (buffer middle out : List ℕ) (inside : Inside quadlets ps)
    (few : n < 2 ^ 32 - 1) (word : remaining < 2 ^ 32)
    (first : Channels encode area src ps base buffer middle)
    (rest : Frames encode area channels ps quadlets n
      (if dec32 remaining == 0 then 0 else src + channels)
      (dec32 remaining)
      (base + quadlets)
      middle
      out) where
  frames_kept :
      (j : ℕ)
      → ((i : ℕ) → i < suc n → Misses (base + i * quadlets) ps j)
      → get_elem? out j ≡ get_elem? buffer j
  frames_kept j m =
      rest.kept j (λ i h.
        let e : base + suc i * quadlets ≡ base + quadlets + i * quadlets = omega arith in
        rw e at (m (suc i) (omega arith)))
      ∙ first.kept j
          (let e : base + 0 * quadlets ≡ base = omega arith in rw e at (m 0 (omega arith)))

  frames_sample :
      (i c q x : ℕ)
      → i < suc n
      → get_elem? ps c ≡ some q
      → get_elem? area (src_at src remaining channels i + c) ≡ some x
      → get_elem? out (base + i * quadlets + q) ≡ some (encode x)
  frames_sample zero c q x h e a =
      let lt : q < quadlets = Inside-get quadlets ps c q inside e in
      let later : get_elem? out (base + q) ≡ get_elem? middle (base + q) =
        rest.kept (base + q) (λ i hi.
          Misses-outside quadlets (base + quadlets + i * quadlets) ps (base + q) inside
            (omega arith)) in
      let start : src_at src remaining channels 0 ≡ src = ground arith in
      let now : get_elem? middle (base + q) ≡ some (encode x) =
        first.sample c q x e (rw start at a) in
      let z : base + 0 * quadlets + q ≡ base + q = omega arith in rw z (later ∙ now)
  frames_sample (suc i) c q x h e a =
      let next = src_at_next src remaining channels i (omega arith) word in
      let one : suc i ≡ i + 1 = omega arith in
      let z : base + suc i * quadlets + q ≡ base + quadlets + i * quadlets + q = omega arith in
      rw z (rest.sample i c q x (omega arith) e (rw (next, ← one) a))

  Frames-suc : Frames encode area channels ps quadlets (suc n) src remaining base buffer out
  unfolding write_frames
  Frames-suc = record {
    result = rw first.result rest.result;
    size = rest.size ∙ first.size;
    kept = frames_kept;
    sample = frames_sample;
  }

-- The loop runs to its end where every frame that it reads lies in the area, and every data block
-- in the packet.
pub frames :
    (encode : ℕ → ℕ) (area : List ℕ) (channel_count : ℕ) (ps : List ℕ)
    (quadlets n src remaining base : ℕ) (buffer : List ℕ)
    → Inside quadlets ps
    → Distinct ps
    → length ps ≤ channel_count
    → n < 2 ^ 32
    → remaining < 2 ^ 32
    → ((i : ℕ) → i < n → src_at src remaining channel_count i + channel_count ≤ length area)
    → base + n * quadlets ≤ length buffer
    → (out : List ℕ) × Frames encode area channel_count ps quadlets n src remaining base buffer out
unfolding write_frames
frames encode area k ps quadlets zero src remaining base buffer i d l w r a b = (
  buffer,
  record {
    result = refl;
    size = refl;
    kept = λ j m. refl;
    sample = λ i c q x h. absurd (omega arith);
  },
)
frames encode area k ps quadlets (suc n) src remaining base buffer i d l w r a b =
    let first_frame : src + k ≤ length area = ground (arith, a 0 (omega arith)) in
    let (middle, f) =
      channels encode area src ps quadlets base buffer i d (omega arith) (omega arith) in
    let (out, g) =
      frames encode area k ps quadlets n (if dec32 remaining == 0 then 0 else src + k)
        (dec32 remaining) (base + quadlets) middle i d l (omega arith) (omega arith)
        (λ m h.
          omega (arith, src_at_next src remaining k m (omega arith) r, a (m + 1) (omega arith)))
        (omega (arith, f.size)) in
    (
      out,
      Frames-suc encode area k ps quadlets n src remaining base buffer middle out i (omega arith) r
          f g,
    )

-- `amdtp_write_s32` and `amdtp_write_s16` access nothing out of bounds. Each sample of each frame,
-- taken from the ring buffer from the pointer on and round its end, stands encoded in its data
-- block at its channel's position, and every quadlet that is no channel of these data blocks is
-- left as it was.
pub write_lem :
    (encode : ℕ → ℕ) (s : Stream) (pcm : Pcm) (buffer : List ℕ) (base n : ℕ)
    → IsMapped s
    → IsAttached s pcm
    → n ≤ pcm.buffer_size
    → base + n * s.data_block_quadlets ≤ length buffer
    → (out : List ℕ) × (write encode s pcm buffer base n ≡ some out)
      × (length out ≡ length buffer)
      × ((i c q x : ℕ)
          → i < n
          → get_elem? (map_of s) c ≡ some q
          → get_elem? pcm.area ((s.pcm_buffer_pointer + i) % pcm.buffer_size * s.pcm_channels + c)
            ≡ some x
          → get_elem? out (base + i * s.data_block_quadlets + q) ≡ some (encode x))
      × ((j : ℕ)
          → ((i : ℕ) → i < n → Misses (base + i * s.data_block_quadlets) (map_of s) j)
          → get_elem? out j ≡ get_elem? buffer j)
unfolding write
write_lem encode s pcm buffer base n m a l b =
    let at = λ (i : ℕ) (h : i < n).
      src_at-ring s.pcm_buffer_pointer pcm.buffer_size s.pcm_channels i a.pointer a.size
        (omega arith) in
    let (out, f) =
      frames encode pcm.area s.pcm_channels (map_of s) s.data_block_quadlets n
        (s.pcm_buffer_pointer * s.pcm_channels)
        (u32 (pcm.buffer_size + 2 ^ 32 - s.pcm_buffer_pointer)) base buffer m.inside m.distinct
        (length-map_of s) (omega arith) (omega arith)
        (λ i h. omega (
          arith,
          at i h,
          ring_room ((s.pcm_buffer_pointer + i) % pcm.buffer_size) pcm.buffer_size s.pcm_channels
              (omega arith),
        ))
        b in
    let start =
      ap
        (λ (k : ℕ).
          write_frames encode pcm.area s.pcm_channels (map_of s) s.data_block_quadlets n
            (s.pcm_buffer_pointer * k) (u32 (pcm.buffer_size + 2 ^ 32 - s.pcm_buffer_pointer)) base
            buffer)
        a.frame in
    (out, start ∙ f.result, f.size, (λ i c q x h e v. f.sample i c q x h e (rw (at i h) v)), f.kept)
