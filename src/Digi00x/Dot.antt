-- ===== src/Digi00x/Dot.antt =====
-- The double-oh-three algorithm, which encodes the samples that are sent to a Digi 003: `dot_scrt`,
-- `dot_encode_step` and the functions that write samples. A quadlet is a number in the CPU's byte
-- order, in which `data[MAGIC_DOT_BYTE]` is the byte of bits 8 to 15. `none` is an access outside a
-- table or a buffer.
pub mod Scrt
pub mod Decode
pub mod Write
use snd_firewire_improve.Common.{
  ℕ, zero, suc, ◌+◌, ◌-◌, ◌*◌, ◌/◌, ◌%◌, ◌^◌, Bool, ◌==◌, ltb, if◌then◌else◌, bit_or, bit_xor, List,
  [], ◌∷◌, get_elem?, store, take, Option, some, ◌>>=◌,
}
use snd_firewire_improve.Amdtp.Types.{u32, Pcm, Stream}
use snd_firewire_improve.Amdtp.Samples.{dec32}

-- `struct dot_state`
pub record DotState : Type 0 where
  pub carry : ℕ
  pub idx : ℕ
  pub off : ℕ

-- `snd_dg00x_protocol_init_state`
abbrev pub init_state : DotState
init_state = record { carry = 0; idx = 0; off = 0 }

-- The tables of `dot_scrt`.
abbrev pub len_table : List ℕ
len_table = 0 ∷ 1 ∷ 3 ∷ 5 ∷ 7 ∷ 9 ∷ 11 ∷ 13 ∷ 14 ∷ 12 ∷ 10 ∷ 8 ∷ 6 ∷ 4 ∷ 2 ∷ 0 ∷ []

abbrev pub nib : List ℕ
nib = 0x8 ∷ 0x7 ∷ 0x9 ∷ 0x6 ∷ 0xa ∷ 0x5 ∷ 0xb ∷ 0x4 ∷ 0xc ∷ 0x3 ∷ 0xd ∷ 0x2 ∷ 0xe ∷ 0x1 ∷ 0xf ∷ []

abbrev pub hir : List ℕ
hir = 0x0 ∷ 0x6 ∷ 0xf ∷ 0x8 ∷ 0x7 ∷ 0x5 ∷ 0x3 ∷ 0x4 ∷ 0xc ∷ 0xd ∷ 0xe ∷ 0x1 ∷ 0x2 ∷ 0xb ∷ 0xa ∷ []

abbrev pub hio : List ℕ
hio = 0 ∷ 11 ∷ 12 ∷ 6 ∷ 7 ∷ 5 ∷ 1 ∷ 4 ∷ 3 ∷ 0x00 ∷ 14 ∷ 13 ∷ 8 ∷ 9 ∷ 10 ∷ 2 ∷ []

-- `hr`
unfoldable pub high_salt : ℕ → ℕ → Option ℕ
high_salt hn off =
    let looked_up = get_elem? hio hn >>= λ o. get_elem? hir (u32 (o + off) % 15) in
    if hn == 0x9 then some 0x9 else looked_up

-- `dot_scrt`
unfoldable pub dot_scrt : ℕ → ℕ → Option ℕ
dot_scrt idx off =
    let ln = idx % 16 in
    let hn = idx / 16 % 16 in
    high_salt hn off >>= λ hr. get_elem? len_table ln >>= λ n.
    let salt =
      get_elem? nib (u32 (14 + off + (2 ^ 32 - n))) >>= λ low. some (bit_or low (hr * 2 ^ 4)) in
    if ltb n off then some 0 else salt

-- `data[MAGIC_DOT_BYTE]` of a quadlet, and the quadlet with another byte there.
abbrev pub magic_byte : ℕ → ℕ
magic_byte q = q / 2 ^ 8 % 2 ^ 8

abbrev pub with_magic_byte : ℕ → ℕ → ℕ
with_magic_byte q b = q / 2 ^ 16 * 2 ^ 16 + b * 2 ^ 8 + q % 2 ^ 8

-- What the first test of `dot_encode_step` does to the state.
abbrev pub noted : DotState → ℕ → DotState
noted state b = if b == 0 then state else record state { off = 0; idx = bit_xor b state.carry }

-- `dot_encode_step`
unfoldable pub dot_encode_step : DotState → ℕ → Option (DotState × ℕ)
dot_encode_step state q =
    let s = noted state (magic_byte q) in
    dot_scrt s.idx (u32 (s.off + 1)) >>= λ carry. some (
      record { carry = carry; idx = s.idx; off = u32 (s.off + 1) },
      with_magic_byte q (bit_xor (magic_byte q) state.carry),
    )

-- The samples as quadlets.
unfoldable pub encode_s16 : ℕ → ℕ
encode_s16 x = bit_or (x * 2 ^ 8) 0x40000000

unfoldable pub encode_s32 : ℕ → ℕ
encode_s32 x = bit_or (x / 2 ^ 8) 0x40000000

-- The loop over the channels of a frame, for the encoding of the format.
unfoldable pub write_channels :
    (ℕ → ℕ) → DotState → List ℕ → ℕ → List ℕ → ℕ → List ℕ → Option (DotState × List ℕ)
write_channels encode state area src [] base buffer = some (state, buffer)
write_channels encode state area src (p ∷ ps) base buffer = get_elem? area src >>= λ x.
    dot_encode_step state (encode x) >>= λ r. store buffer (base + p) r.1 >>= λ buffer'.
    write_channels encode r.0 area (src + 1) ps base buffer'

-- The loop over the frames; `n` rounds are left.
unfoldable pub write_frames :
    (ℕ → ℕ)
    → DotState
    → List ℕ
    → ℕ
    → List ℕ
    → ℕ
    → ℕ
    → ℕ
    → ℕ
    → ℕ
    → List ℕ
    → Option (DotState × List ℕ)
write_frames encode state area channels ps quadlets zero src remaining base buffer =
    some (state, buffer)
write_frames encode state area channels ps quadlets (suc n) src remaining base buffer =
    write_channels encode state area src ps base buffer >>= λ r.
    write_frames encode r.0 area channels ps quadlets n
      (if dec32 remaining == 0 then 0 else src + channels) (dec32 remaining) (base + quadlets) r.1

-- `write_pcm_s16` and `write_pcm_s32`, which differ in the encoding.
unfoldable pub write_pcm :
    (ℕ → ℕ) → DotState → Stream → Pcm → List ℕ → ℕ → ℕ → Option (DotState × List ℕ)
write_pcm encode state s pcm buffer base frames =
    write_frames encode state pcm.area s.pcm_channels (take s.pcm_channels s.pcm_positions)
      s.data_block_quadlets frames (s.pcm_buffer_pointer * pcm.frame_samples)
      (u32 (pcm.buffer_size + 2 ^ 32 - s.pcm_buffer_pointer)) base buffer
