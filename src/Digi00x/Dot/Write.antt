-- ===== src/Digi00x/Dot/Write.antt =====
-- The encoded packets are the plain ones but for the magic bytes.
use snd_firewire_improve.Common.{
  ℕ, zero, suc, ◌+◌, ◌-◌, ◌*◌, ◌^◌, ◌<◌, ◌≡◌, refl, subst, Option-cases, inl, inr, ◌==◌,
  if◌then◌else◌, bit_xor, List, [], ◌∷◌, get_elem?, store, take, some, >>=-some, >>=-eq-some, arith,
}
use snd_firewire_improve.Amdtp.Types.{u32, Pcm, Stream}
use snd_firewire_improve.Amdtp.Samples
use snd_firewire_improve.Amdtp.Samples.{dec32}
use snd_firewire_improve.Common.Xor.{xor_bound}
use snd_firewire_improve.Digi00x.Dot.{
  DotState, magic_byte, with_magic_byte, dot_encode_step, noted, write_channels, write_frames,
  write_pcm,
}
use snd_firewire_improve.Digi00x.Dot.Scrt.{dot_scrt_lem}

-- A quadlet without its magic byte.
abbrev pub plain : ℕ → ℕ
plain q = with_magic_byte q 0

-- The quadlets of two packets, without their magic bytes.
abbrev pub IsSamePlain : List ℕ → List ℕ → Type 0
IsSamePlain [] [] = Unit
IsSamePlain [] (y ∷ ys) = ⊥
IsSamePlain (x ∷ xs) [] = ⊥
IsSamePlain (x ∷ xs) (y ∷ ys) = (plain x ≡ plain y) × IsSamePlain xs ys

pub IsSamePlain-refl : (xs : List ℕ) → IsSamePlain xs xs
IsSamePlain-refl [] = tt
IsSamePlain-refl (x ∷ xs) = (refl, IsSamePlain-refl xs)

store-IsSamePlain :
    (xs ys : List ℕ) (i v w : ℕ) {xs' : List ℕ}
    → IsSamePlain xs ys
    → plain v ≡ plain w
    → store xs i v ≡ some xs'
    → (ys' : List ℕ) × (store ys i w ≡ some ys') × IsSamePlain xs' ys'
store-IsSamePlain [] ys i v w s p e = absurd cc
store-IsSamePlain (x ∷ xs) [] i v w s p e = absurd s
store-IsSamePlain (x ∷ xs) (y ∷ ys) zero v w {xs' = xs'} s p e =
    let same : v ∷ xs ≡ xs' = cc in
    (w ∷ ys, refl, subst (λ (zs : List ℕ). IsSamePlain zs (w ∷ ys)) same (p, s.1))
store-IsSamePlain (x ∷ xs) (y ∷ ys) (suc i) v w {xs' = xs'} s p e =
    elim (Option-cases (store xs i v)) [
      | inl n ↦ let e' = rw n at e in absurd cc
      | inr (zs, m) ↦
          let e' = rw m at e in
          let same : x ∷ zs ≡ xs' = cc in
          let (ws, f, t) = store-IsSamePlain xs ys i v w s.1 p m in
          (y ∷ ws, rw f refl, subst (λ (us : List ℕ). IsSamePlain us (y ∷ ws)) same (s.0, t))
    ]

step-plain :
    (state : DotState) (q : ℕ)
    → state.carry < 256
    → (t : DotState) × (e : ℕ) × (dot_encode_step state q ≡ some (t, e))
      × (t.carry < 256)
      × (plain q ≡ plain e)
unfolding dot_encode_step
step-plain state q h =
    let d = magic_byte q in
    let n = noted state d in
    let (salt, f, b, rest) = dot_scrt_lem n.idx (u32 (n.off + 1)) (omega arith) in
    let bound : bit_xor d state.carry < 256 = xor_bound 8 d state.carry (omega arith) h in
    (
      record { carry = salt; idx = n.idx; off = u32 (n.off + 1) },
      with_magic_byte q (bit_xor d state.carry),
      rw f refl,
      b,
      omega arith,
    )

channels_lem :
    (encode : ℕ → ℕ) (ps : List ℕ) (state : DotState) (area : List ℕ) (src base : ℕ)
    (xs ys : List ℕ) {xs' : List ℕ}
    → state.carry < 256
    → IsSamePlain xs ys
    → Samples.write_channels encode area src ps base xs ≡ some xs'
    → (t : DotState) × (ys' : List ℕ) × (write_channels encode state area src ps base ys
        ≡ some (t, ys'))
      × (t.carry < 256)
      × IsSamePlain xs' ys'
unfolding Samples.write_channels write_channels
channels_lem encode [] state area src base xs ys {xs' = xs'} c s e =
    let same : xs ≡ xs' = cc in
    (state, ys, refl, c, subst (λ (zs : List ℕ). IsSamePlain zs ys) same s)
channels_lem encode (p ∷ ps) state area src base xs ys c s e =
    let (x, f, g) = >>=-eq-some (get_elem? area src) _ e in
    let (b, i, j) = >>=-eq-some (store xs (base + p) (encode x)) _ g in
    let (t, q, k, l, m) = step-plain state (encode x) c in
    let (b', n, o) = store-IsSamePlain xs ys (base + p) (encode x) q s m i in
    let (u, ys', r, v, w) = channels_lem encode ps t area (src + 1) base b b' l o j in
    (
      u,
      ys',
      >>=-some (get_elem? area src) _ f (
          >>=-some (dot_encode_step state (encode x)) _ k (>>=-some (store ys (base + p) q) _ n r)),
      v,
      w,
    )

frames_lem :
    (encode : ℕ → ℕ) (n : ℕ) (state : DotState) (area : List ℕ) (channels : ℕ) (ps : List ℕ)
    (quadlets src remaining base : ℕ) (xs ys : List ℕ) {xs' : List ℕ}
    → state.carry < 256
    → IsSamePlain xs ys
    → Samples.write_frames encode area channels ps quadlets n src remaining base xs ≡ some xs'
    → (t : DotState) × (ys' : List ℕ) × (write_frames encode state area channels ps quadlets n src
          remaining base ys
        ≡ some (t, ys'))
      × (t.carry < 256)
      × IsSamePlain xs' ys'
unfolding Samples.write_frames write_frames
frames_lem encode zero state area channels ps quadlets src remaining base xs ys {xs' = xs'} c s e =
    let same : xs ≡ xs' = cc in
    (state, ys, refl, c, subst (λ (zs : List ℕ). IsSamePlain zs ys) same s)
frames_lem encode (suc n) state area channels ps quadlets src remaining base xs ys c s e =
    let (b, f, g) = >>=-eq-some (Samples.write_channels encode area src ps base xs) _ e in
    let (t, b', h, l, o) = channels_lem encode ps state area src base xs ys c s f in
    let (u, ys', r, v, w) =
      frames_lem encode n t area channels ps quadlets
        (if dec32 remaining == 0 then 0 else src + channels) (dec32 remaining) (base + quadlets) b
        b' l o g in
    (u, ys', >>=-some (write_channels encode state area src ps base ys) _ h r, v, w)

-- Where the plain samples can be written to a packet, they can be written encoded, whatever the
-- encoder's state; the packet is the plain one but for the magic bytes, and the state stays one of
-- bytes.
pub write_pcm-write :
    (encode : ℕ → ℕ) (state : DotState) (s : Stream) (pcm : Pcm) (buffer : List ℕ) (base frames : ℕ)
    {out : List ℕ}
    → state.carry < 256
    → Samples.write encode s pcm buffer base frames ≡ some out
    → (t : DotState) × (out' : List ℕ) × (write_pcm encode state s pcm buffer base frames
        ≡ some (t, out'))
      × (t.carry < 256)
      × IsSamePlain out out'
unfolding Samples.write write_pcm
write_pcm-write encode state s pcm buffer base frames c e =
    frames_lem encode frames state pcm.area s.pcm_channels (take s.pcm_channels s.pcm_positions)
      s.data_block_quadlets (s.pcm_buffer_pointer * pcm.frame_samples)
      (u32 (pcm.buffer_size + 2 ^ 32 - s.pcm_buffer_pointer)) base buffer buffer c
      (IsSamePlain-refl buffer) e
