-- ===== src/Amdtp/Samples/Read.antt =====
-- Captured samples reach the ring buffer, and a captured sample is the played one.
use snd_firewire_improve.Common.{
  ℕ, zero, suc, ◌+◌, ◌-◌, ◌*◌, ◌/◌, ◌%◌, ◌^◌, ◌≤◌, ◌<◌, ◌≡◌, ◌⊎◌, ◌∙◌, refl, ap, List, [], ◌∷◌,
  some, ◌==◌, if◌then◌else◌, get_elem?, get_elem?-some, get_elem?-set_self, get_elem?-set_ne, set,
  store-eq-set, length, length-set, arith,
}
use snd_firewire_improve.Common.Bits.{or_split, or_zero, zero_or}
use snd_firewire_improve.Amdtp.Types.{u32, Pcm, Stream}
use snd_firewire_improve.Amdtp.Samples.{
  read_channels, read_frames, read, dec32, decode_s32, encode_s32,
}
use snd_firewire_improve.Amdtp.Samples.Ring.{
  Inside, map_of, IsMapped, IsAttached, src_at, src_at_next, src_at-ring, ring_room, length-map_of,
  ring_apart,
}

encode_s32_lem : (x : ℕ) → x < 2 ^ 32 → encode_s32 x ≡ 2 ^ 30 + x / 256
unfolding encode_s32
encode_s32_lem x h =
    let low : 0 * 2 ^ 24 + x / 256 ≡ x / 256 = omega arith in
    let parts = or_split 24 0 0x40 (x / 256) 0 (omega arith) (omega arith) in
    omega (arith, rw low at parts, or_zero (x / 256), zero_or 0x40)

-- A sample that was written and read again keeps its upper 24 bits.
pub decode_s32-encode_s32 : (x : ℕ) → x < 2 ^ 32 → decode_s32 (encode_s32 x) ≡ x / 256 * 256
unfolding decode_s32
decode_s32-encode_s32 x h = omega (arith, encode_s32_lem x h)

-- The outcome of the loop over the channels.
record Channels (buffer : List ℕ) (dst : ℕ) (ps : List ℕ) (base : ℕ) (area out : List ℕ)
    : Type 0 where
  result : read_channels area dst ps base buffer ≡ some out
  size : length out ≡ length area
  kept : (j : ℕ) → (j < dst) ⊎ (dst + length ps ≤ j) → get_elem? out j ≡ get_elem? area j
  sample :
      (c q x : ℕ)
      → get_elem? ps c ≡ some q
      → get_elem? buffer (base + q) ≡ some x
      → get_elem? out (dst + c) ≡ some (decode_s32 x)

module _ (buffer : List ℕ) (dst p : ℕ) (ps : List ℕ) (base : ℕ) (area out : List ℕ) (x : ℕ)
    (here : get_elem? buffer (base + p) ≡ some x) (room : dst < length area)
    (rest : Channels buffer (dst + 1) ps base (set area dst (decode_s32 x)) out) where
  cons_sample :
      (c q y : ℕ)
      → get_elem? (p ∷ ps) c ≡ some q
      → get_elem? buffer (base + q) ≡ some y
      → get_elem? out (dst + c) ≡ some (decode_s32 y)
  cons_sample zero q y e eb =
      let z : dst + 0 ≡ dst = omega arith in
      let written = rest.kept dst (omega arith) in
      let value = get_elem?-set_self area dst (decode_s32 x) room in ground arith
  cons_sample (suc c) q y e eb =
      let z : dst + suc c ≡ dst + 1 + c = omega arith in rw z (rest.sample c q y e eb)

  channels_cons : Channels buffer dst (p ∷ ps) base area out
  unfolding read_channels
  channels_cons = record {
    result = rw (here, store-eq-set area dst (decode_s32 x) room) rest.result;
    size = rest.size ∙ length-set area dst (decode_s32 x);
    kept = λ j o.
        rest.kept j (omega arith)
        ∙ get_elem?-set_ne area {i = dst} {j = j} (decode_s32 x) (omega arith);
    sample = cons_sample;
  }

channels :
    (buffer : List ℕ) (dst : ℕ) (ps : List ℕ) (quadlets base : ℕ) (area : List ℕ)
    → Inside quadlets ps
    → dst + length ps ≤ length area
    → base + quadlets ≤ length buffer
    → (out : List ℕ) × Channels buffer dst ps base area out
unfolding read_channels
channels buffer dst [] quadlets base area i a b =
    (area, record { result = refl; size = refl; kept = λ j m. refl; sample = λ c q x e. cc })
channels buffer dst (p ∷ ps) quadlets base area i a b =
    let (x, ex) = get_elem?-some buffer (base + p) (omega arith) in
    let area' = set area dst (decode_s32 x) in
    let n : length area' ≡ length area = length-set area dst (decode_s32 x) in
    let (out, r) = channels buffer (dst + 1) ps quadlets base area' i.1 (omega arith) b in
    (out, channels_cons buffer dst p ps base area out x ex (omega arith) r)

-- Channel c of a frame is among the positions.
get_elem?-lt : (ps : List ℕ) (c q : ℕ) → get_elem? ps c ≡ some q → c < length ps
get_elem?-lt [] c q e = cc
get_elem?-lt (p ∷ ps) zero q e = omega arith
get_elem?-lt (p ∷ ps) (suc c) q e = omega (arith, get_elem?-lt ps c q e)

-- Place j of the area is not in frame i.
abbrev pub Apart : ℕ → ℕ → ℕ → Type 0
Apart at size j = (j < at) ⊎ (at + size ≤ j)

-- The outcome of the loop over the frames.
record Frames (buffer : List ℕ) (k : ℕ) (ps : List ℕ) (quadlets n dst remaining base : ℕ)
    (area out : List ℕ) : Type 0 where
  result : read_frames area k ps quadlets n dst remaining base buffer ≡ some out
  size : length out ≡ length area
  kept :
      (j : ℕ)
      → ((i : ℕ) → i < n → Apart (src_at dst remaining k i) k j)
      → get_elem? out j ≡ get_elem? area j
  sample :
      (i c q x : ℕ)
      → i < n
      → get_elem? ps c ≡ some q
      → get_elem? buffer (base + i * quadlets + q) ≡ some x
      → get_elem? out (src_at dst remaining k i + c) ≡ some (decode_s32 x)

-- The frames do not overlap in the area.
abbrev NoLap : ℕ → ℕ → ℕ → ℕ → Type 0
NoLap n dst remaining k =
    (i j : ℕ)
    → i < j
    → j < n
    → (src_at dst remaining k i + k ≤ src_at dst remaining k j)
      ⊎ (src_at dst remaining k j + k ≤ src_at dst remaining k i)

module _ (buffer : List ℕ) (k : ℕ) (ps : List ℕ) (quadlets n dst remaining base : ℕ)
    (area middle out : List ℕ) (few : n < 2 ^ 32 - 1) (word : remaining < 2 ^ 32)
    (fits : length ps ≤ k) (no_lap : NoLap (suc n) dst remaining k)
    (first : Channels buffer dst ps base area middle)
    (rest : Frames buffer k ps quadlets n
      (if dec32 remaining == 0 then 0 else dst + k)
      (dec32 remaining)
      (base + quadlets)
      middle
      out) where
  start : src_at dst remaining k 0 ≡ dst
  start = ground arith

  later :
      (i : ℕ)
      → i < n
      → src_at (if dec32 remaining == 0 then 0 else dst + k) (dec32 remaining) k i
        ≡ src_at dst remaining k (suc i)
  later i h =
      let one : suc i ≡ i + 1 = omega arith in
      rw one (src_at_next dst remaining k i (omega arith) word)

  frames_kept :
      (j : ℕ)
      → ((i : ℕ) → i < suc n → Apart (src_at dst remaining k i) k j)
      → get_elem? out j ≡ get_elem? area j
  frames_kept j m =
      rest.kept j (λ i h. rw (later i h) (m (suc i) (omega arith)))
      ∙ first.kept j (omega (arith, m 0 (omega arith), start))

  frames_sample :
      (i c q x : ℕ)
      → i < suc n
      → get_elem? ps c ≡ some q
      → get_elem? buffer (base + i * quadlets + q) ≡ some x
      → get_elem? out (src_at dst remaining k i + c) ≡ some (decode_s32 x)
  frames_sample zero c q x h e b =
      let z : base + 0 * quadlets + q ≡ base + q = omega arith in
      let unharmed : get_elem? out (dst + c) ≡ get_elem? middle (dst + c) =
        rest.kept (dst + c) (λ i hi. omega (
          arith,
          later i hi,
          start,
          no_lap 0 (suc i) (omega arith) (omega arith),
          get_elem?-lt ps c q e,
        )) in
      rw start (unharmed ∙ first.sample c q x e (rw z at b))
  frames_sample (suc i) c q x h e b =
      let z : base + suc i * quadlets + q ≡ base + quadlets + i * quadlets + q = omega arith in
      rw (← later i (omega arith)) (rest.sample i c q x (omega arith) e (rw z at b))

  Frames-suc : Frames buffer k ps quadlets (suc n) dst remaining base area out
  unfolding read_frames
  Frames-suc = record {
    result = rw first.result rest.result;
    size = rest.size ∙ first.size;
    kept = frames_kept;
    sample = frames_sample;
  }

frames :
    (buffer : List ℕ) (k : ℕ) (ps : List ℕ) (quadlets n dst remaining base : ℕ) (area : List ℕ)
    → Inside quadlets ps
    → length ps ≤ k
    → n < 2 ^ 32
    → remaining < 2 ^ 32
    → NoLap n dst remaining k
    → ((i : ℕ) → i < n → src_at dst remaining k i + k ≤ length area)
    → base + n * quadlets ≤ length buffer
    → (out : List ℕ) × Frames buffer k ps quadlets n dst remaining base area out
unfolding read_frames
frames buffer k ps quadlets zero dst remaining base area i l w r d a b = (
  area,
  record {
    result = refl;
    size = refl;
    kept = λ j m. refl;
    sample = λ i c q x h. absurd (omega arith);
  },
)
frames buffer k ps quadlets (suc n) dst remaining base area i l w r d a b =
    let first_frame : dst + k ≤ length area = ground (arith, a 0 (omega arith)) in
    let (middle, f) = channels buffer dst ps quadlets base area i (omega arith) (omega arith) in
    let next = λ (m : ℕ) (h : m < n). src_at_next dst remaining k m (omega arith) r in
    let (out, g) =
      frames buffer k ps quadlets n (if dec32 remaining == 0 then 0 else dst + k) (dec32 remaining)
        (base + quadlets) middle i l (omega arith) (omega arith)
        (λ m m' h h'.
          omega (
            arith,
            next m (omega arith),
            next m' h',
            d (m + 1) (m' + 1) (omega arith) (omega arith),
          ))
        (λ m h. omega (arith, next m h, a (m + 1) (omega arith), f.size)) (omega arith) in
    (
      out,
      Frames-suc buffer k ps quadlets n dst remaining base area middle out (omega arith) r l d f g,
    )

-- Where the data blocks to read lie in the packet's buffer, are no more frames than the ring buffer
-- has, the channels have places of their own inside a data block, and the ring buffer and its
-- pointer belong together, amdtp_read_s32 accesses nothing out of bounds: the sample at each
-- channel's position of each data block stands, shifted into place, in the ring buffer from the
-- pointer on and round its end, and every place of the ring buffer that is in none of these frames
-- is left as it was.
pub read_lem :
    (s : Stream) (pcm : Pcm) (buffer : List ℕ) (base n : ℕ)
    → IsMapped s
    → IsAttached s pcm
    → n ≤ pcm.buffer_size
    → base + n * s.data_block_quadlets ≤ length buffer
    → (out : List ℕ) × (read s pcm buffer base n ≡ some out)
      × (length out ≡ length pcm.area)
      × ((i c q x : ℕ)
          → i < n
          → get_elem? (map_of s) c ≡ some q
          → get_elem? buffer (base + i * s.data_block_quadlets + q) ≡ some x
          → get_elem? out ((s.pcm_buffer_pointer + i) % pcm.buffer_size * s.pcm_channels + c)
            ≡ some (decode_s32 x))
      × ((j : ℕ)
          → ((i : ℕ)
              → i < n
              → Apart
                  ((s.pcm_buffer_pointer + i) % pcm.buffer_size * s.pcm_channels)
                  s.pcm_channels
                  j)
          → get_elem? out j ≡ get_elem? pcm.area j)
unfolding read
read_lem s pcm buffer base n m a l b =
    let p = s.pcm_buffer_pointer in
    let k = s.pcm_channels in
    let size = pcm.buffer_size in
    let at = λ (i : ℕ) (h : i < n). src_at-ring p size k i a.pointer a.size (omega arith) in
    let (out, f) =
      frames buffer k (map_of s) s.data_block_quadlets n (p * k) (u32 (size + 2 ^ 32 - p)) base
        pcm.area m.inside (length-map_of s) (omega arith) (omega arith)
        (λ i j h h'.
          omega
            (arith, at i (omega arith), at j h', ring_apart p size k i j a.pointer h (omega arith)))
        (λ i h. omega (arith, at i h, a.area, ring_room ((p + i) % size) size k (omega arith))) b in
    let start =
      ap
        (λ (f : ℕ).
          read_frames pcm.area k (map_of s) s.data_block_quadlets n (p * f)
            (u32 (size + 2 ^ 32 - p)) base buffer)
        a.frame in
    (
      out,
      start ∙ f.result,
      f.size,
      (λ i c q x h e v. rw (at i h) at (f.sample i c q x h e v)),
      (λ j o. f.kept j (λ i h. rw (at i h) (o i h))),
    )
