-- ===== src/Digi00x/Dot/Decode.antt =====
-- The device can undo the encoding: a decoder that sees the encoded quadlets only.
use snd_firewire_improve.Common.{
  ℕ, ◌+◌, ◌<◌, ◌≡◌, refl, ◌==◌, if◌then◌else◌, bit_xor, List, [], ◌∷◌, Option, some, ◌>>=◌, arith,
}
use snd_firewire_improve.Common.Xor.{xor_bound, xor_cancel}
use snd_firewire_improve.Amdtp.Types.{u32}
use snd_firewire_improve.Digi00x.Dot.{
  DotState, dot_scrt, magic_byte, with_magic_byte, noted, dot_encode_step,
}
use snd_firewire_improve.Digi00x.Dot.Scrt.{dot_scrt_lem}

-- The encoding of quadlets one after another.
unfoldable pub encode_all : DotState → List ℕ → Option (DotState × List ℕ)
encode_all state [] = some (state, [])
encode_all state (q ∷ qs) =
    dot_encode_step state q >>= λ r. encode_all r.0 qs >>= λ s. some (s.0, r.1 ∷ s.1)

-- The state that a decoder keeps: an encoded byte is the index where its sample is not 0.
abbrev pub seen : DotState → ℕ → ℕ → DotState
seen state e d = if d == 0 then state else record state { off = 0; idx = e }

unfoldable pub dot_decode_step : DotState → ℕ → Option (DotState × ℕ)
dot_decode_step state q =
    let d = bit_xor (magic_byte q) state.carry in
    let s = seen state (magic_byte q) d in
    dot_scrt s.idx (u32 (s.off + 1)) >>= λ carry.
    some (record { carry = carry; idx = s.idx; off = u32 (s.off + 1) }, with_magic_byte q d)

unfoldable pub decode_all : DotState → List ℕ → Option (DotState × List ℕ)
decode_all state [] = some (state, [])
decode_all state (q ∷ qs) =
    dot_decode_step state q >>= λ r. decode_all r.0 qs >>= λ s. some (s.0, r.1 ∷ s.1)

magic_byte_lem : (q b : ℕ) → b < 256 → magic_byte (with_magic_byte q b) ≡ b
magic_byte_lem q b h = omega arith

with_magic_byte_lem : (q b : ℕ) → b < 256 → with_magic_byte (with_magic_byte q b) (magic_byte q) ≡ q
with_magic_byte_lem q b h = omega arith

-- A step is undone, with the same state behind it.
step_lem :
    (state : DotState) (q : ℕ)
    → state.carry < 256
    → (s : DotState) × (e : ℕ) × (dot_encode_step state q ≡ some (s, e))
      × (dot_decode_step state e ≡ some (s, q))
      × (s.carry < 256)
unfolding dot_encode_step dot_decode_step
step_lem state q h =
    let d = magic_byte q in
    let n = noted state d in
    let (salt, f, b, rest) = dot_scrt_lem n.idx (u32 (n.off + 1)) (omega arith) in
    let bound : bit_xor d state.carry < 256 = xor_bound 8 d state.carry (omega arith) h in
    let back : bit_xor (bit_xor d state.carry) state.carry ≡ d =
      xor_cancel 8 d state.carry (omega arith) h in
    let e = with_magic_byte q (bit_xor d state.carry) in
    let byte : magic_byte e ≡ bit_xor d state.carry =
      magic_byte_lem q (bit_xor d state.carry) bound in
    let whole : with_magic_byte e d ≡ q = with_magic_byte_lem q (bit_xor d state.carry) bound in
    (
      record { carry = salt; idx = n.idx; off = u32 (n.off + 1) },
      e,
      rw f refl,
      rw (byte, back) (rw f (rw whole refl)),
      b,
    )

-- Whatever the samples are, their encoding succeeds, and a decoder that starts with the same state
-- gives the samples back and ends with the state of the encoder.
pub decode_all-encode_all :
    (qs : List ℕ) (state : DotState)
    → state.carry < 256
    → (s : DotState) × (out : List ℕ) × (encode_all state qs ≡ some (s, out))
      × (decode_all state out ≡ some (s, qs))
unfolding encode_all decode_all
decode_all-encode_all [] state h = (state, [], refl, refl)
decode_all-encode_all (q ∷ qs) state h =
    let (t, e, f, g, b) = step_lem state q h in
    let (s, out, i, j) = decode_all-encode_all qs t b in
    (s, e ∷ out, rw f (rw i refl), rw g (rw j refl))
