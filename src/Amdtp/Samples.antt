-- ===== src/Amdtp/Samples.antt =====
-- PCM samples between the ring buffer of a substream and the data blocks of a packet. A packet is
-- the list of its quadlets in the byte order of the CPU; `base` is where `buffer` points to.
-- An access outside a buffer is a fault, `none`.
pub mod Ring
pub mod Write
pub mod Read
use snd_firewire_improve.Common.{
  ℕ, zero, suc, ◌+◌, ◌-◌, ◌*◌, ◌/◌, ◌^◌, List, [], ◌∷◌, Option, some, ◌>>=◌, ◌==◌, if◌then◌else◌,
  bit_or, get_elem?, store, take,
}
use snd_firewire_improve.Amdtp.Types.{u32, Pcm, Stream}

-- A PCM sample as an AM824 quadlet: `(*src >> 8) | 0x40000000` and `(*src << 8) | 0x42000000`.
unfoldable pub encode_s32 : ℕ → ℕ
encode_s32 x = bit_or (x / 2 ^ 8) 0x40000000

unfoldable pub encode_s16 : ℕ → ℕ
encode_s16 x = bit_or (x * 2 ^ 8) 0x42000000

-- `be32_to_cpu(...) << 8`
unfoldable pub decode_s32 : ℕ → ℕ
decode_s32 x = u32 (x * 2 ^ 8)

-- `--remaining_frames`
abbrev pub dec32 : ℕ → ℕ
dec32 n = u32 (n + (2 ^ 32 - 1))

-- The loop over the channels of a frame, for the sample encoding of the format.
unfoldable pub write_channels : (ℕ → ℕ) → List ℕ → ℕ → List ℕ → ℕ → List ℕ → Option (List ℕ)
write_channels encode area src [] base buffer = some buffer
write_channels encode area src (p ∷ ps) base buffer = get_elem? area src >>= λ x.
    store buffer (base + p) (encode x) >>= λ buffer'.
    write_channels encode area (src + 1) ps base buffer'

-- The loop over the frames; `n` rounds are left.
unfoldable pub write_frames :
    (ℕ → ℕ) → List ℕ → ℕ → List ℕ → ℕ → ℕ → ℕ → ℕ → ℕ → List ℕ → Option (List ℕ)
unfolding write_channels
write_frames encode area channels ps quadlets zero src remaining base buffer = some buffer
write_frames encode area channels ps quadlets (suc n) src remaining base buffer =
    write_channels encode area src ps base buffer >>= λ buffer'.
    write_frames encode area channels ps quadlets n
      (if dec32 remaining == 0 then 0 else src + channels) (dec32 remaining) (base + quadlets)
      buffer'

-- `amdtp_write_s32` and `amdtp_write_s16`, which differ in the encoding.
unfoldable pub write : (ℕ → ℕ) → Stream → Pcm → List ℕ → ℕ → ℕ → Option (List ℕ)
unfolding write_frames
write encode s pcm buffer base frames =
    write_frames encode pcm.area s.pcm_channels (take s.pcm_channels s.pcm_positions)
      s.data_block_quadlets frames (s.pcm_buffer_pointer * pcm.frame_samples)
      (u32 (pcm.buffer_size + 2 ^ 32 - s.pcm_buffer_pointer)) base buffer

-- The loops of `amdtp_read_s32`; the samples go to the ring buffer.
unfoldable pub read_channels : List ℕ → ℕ → List ℕ → ℕ → List ℕ → Option (List ℕ)
unfolding decode_s32
read_channels area dst [] base buffer = some area
read_channels area dst (p ∷ ps) base buffer = get_elem? buffer (base + p) >>= λ x.
    store area dst (decode_s32 x) >>= λ area'. read_channels area' (dst + 1) ps base buffer

unfoldable pub read_frames : List ℕ → ℕ → List ℕ → ℕ → ℕ → ℕ → ℕ → ℕ → List ℕ → Option (List ℕ)
unfolding read_channels
read_frames area channels ps quadlets zero dst remaining base buffer = some area
read_frames area channels ps quadlets (suc n) dst remaining base buffer =
    read_channels area dst ps base buffer >>= λ area'.
    read_frames area' channels ps quadlets n (if dec32 remaining == 0 then 0 else dst + channels)
      (dec32 remaining) (base + quadlets) buffer

-- `amdtp_read_s32`: the new content of the ring buffer.
unfoldable pub read : Stream → Pcm → List ℕ → ℕ → ℕ → Option (List ℕ)
unfolding read_frames
read s pcm buffer base frames =
    read_frames pcm.area s.pcm_channels (take s.pcm_channels s.pcm_positions) s.data_block_quadlets
      frames (s.pcm_buffer_pointer * pcm.frame_samples)
      (u32 (pcm.buffer_size + 2 ^ 32 - s.pcm_buffer_pointer)) base buffer

-- The loops of `amdtp_fill_pcm_silence`.
unfoldable pub silence_channels : List ℕ → ℕ → List ℕ → Option (List ℕ)
silence_channels [] base buffer = some buffer
silence_channels (p ∷ ps) base buffer =
    store buffer (base + p) 0x40000000 >>= λ buffer'. silence_channels ps base buffer'

unfoldable pub silence_frames : List ℕ → ℕ → ℕ → ℕ → List ℕ → Option (List ℕ)
unfolding silence_channels
silence_frames ps quadlets zero base buffer = some buffer
silence_frames ps quadlets (suc n) base buffer = silence_channels ps base buffer >>= λ buffer'.
    silence_frames ps quadlets n (base + quadlets) buffer'

-- `amdtp_fill_pcm_silence`
unfoldable pub fill_silence : Stream → List ℕ → ℕ → ℕ → Option (List ℕ)
unfolding silence_frames
fill_silence s buffer base frames =
    silence_frames (take s.pcm_channels s.pcm_positions) s.data_block_quadlets frames base buffer
