-- ===== src/Amdtp/Samples/Ring.antt =====
-- Where the samples lie: the channel map of a data block, and the ring buffer with its wrap.
use snd_firewire_improve.Common.{
  ℕ, zero, suc, ◌+◌, ◌-◌, ◌*◌, ◌%◌, ◌^◌, ◌≤◌, ◌<◌, ◌≡◌, ◌≢◌, ◌⊎◌, inl, inr, List, [], ◌∷◌, some,
  ◌||◌, ltb, ◌==◌, if◌then◌else◌, get_elem?, length, length-take, take, All, arith,
}
use native.Mathlib.Decide.{dec_lt}
use native.Mathlib.Nat.{mod-eq_of_lt, mod-eq-sub-mod}
use snd_firewire_improve.Amdtp.Types.{u32, Pcm, Stream}
use snd_firewire_improve.Amdtp.Samples.{dec32}

-- The positions of one frame: inside a data block, and all different.
abbrev pub Inside : ℕ → List ℕ → Type 0
Inside quadlets ps = All (λ p. p < quadlets) ps

abbrev pub Distinct : List ℕ → Type 0
Distinct [] = Unit
Distinct (p ∷ ps) = All (λ q. p ≢ q) ps × Distinct ps

-- Quadlet j is none of those at the positions from `base` on.
abbrev pub Misses : ℕ → List ℕ → ℕ → Type 0
Misses base ps j = All (λ q. base + q ≢ j) ps

pub Misses-other : (base p : ℕ) (ps : List ℕ) → All (λ q. p ≢ q) ps → Misses base ps (base + p)
Misses-other base p [] h = tt
Misses-other base p (q ∷ ps) h = (omega arith, Misses-other base p ps h.1)

pub Misses-outside :
    (quadlets base : ℕ) (ps : List ℕ) (j : ℕ)
    → Inside quadlets ps
    → (j < base) ⊎ (base + quadlets ≤ j)
    → Misses base ps j
Misses-outside quadlets base [] j i o = tt
Misses-outside quadlets base (p ∷ ps) j i o = (omega arith, Misses-outside quadlets base ps j i.1 o)

pub Inside-get :
    (quadlets : ℕ) (ps : List ℕ) (c q : ℕ)
    → Inside quadlets ps
    → get_elem? ps c ≡ some q
    → q < quadlets
Inside-get quadlets [] c q i e = cc
Inside-get quadlets (p ∷ ps) zero q i e = ground arith
Inside-get quadlets (p ∷ ps) (suc c) q i e = Inside-get quadlets ps c q i.1 e

-- Where the source pointer stands at frame i: it goes back to the start of the area when the
-- frames that remain up to the end of the ring buffer have run out.
abbrev pub src_at : ℕ → ℕ → ℕ → ℕ → ℕ
src_at src remaining channels i =
    if ltb i remaining || remaining == 0 then src + i * channels else (i - remaining) * channels

pub src_at_next :
    (src remaining channels i : ℕ)
    → i < 2 ^ 32 - 1
    → remaining < 2 ^ 32
    → src_at (if dec32 remaining == 0 then 0 else src + channels) (dec32 remaining) channels i
      ≡ src_at src remaining channels (i + 1)
src_at_next src remaining channels i h r = ground arith

-- The channel map of a stream: `pcm_positions` of its channels.
abbrev pub map_of : Stream → List ℕ
map_of s = take s.pcm_channels s.pcm_positions

pub record IsMapped (s : Stream) : Type 0 where
  pub inside : Inside s.data_block_quadlets (map_of s)
  pub distinct : Distinct (map_of s)

-- A substream whose ring buffer fits the stream, with the stream's pointer inside it.
pub record IsAttached (s : Stream) (pcm : Pcm) : Type 0 where
  pub frame : pcm.frame_samples ≡ s.pcm_channels
  pub pointer : s.pcm_buffer_pointer < pcm.buffer_size
  pub size : pcm.buffer_size < 2 ^ 32
  pub area : pcm.buffer_size * s.pcm_channels ≤ length pcm.area

-- A place reached within one turn.
one_turn : (a n : ℕ) → a < 2 * n → ((a < n) × (a % n ≡ a)) ⊎ ((n ≤ a) × (a % n ≡ a - n))
one_turn a n h = elim (dec_lt a n) [
  | yes q ↦ inl (q, mod-eq_of_lt {n = a} {m = n} q)
  | no q ↦ inr (
    omega arith,
    rw (mod-eq-sub-mod {n = a} {m = n} (omega arith))
        (mod-eq_of_lt {n = a - n} {m = n} (omega arith)),
  )
]

-- The place of a frame in the ring buffer, as the loops reach it.
pub src_at-ring :
    (p n k i : ℕ)
    → p < n
    → n < 2 ^ 32
    → i < n
    → src_at (p * k) (u32 (n + 2 ^ 32 - p)) k i ≡ (p + i) % n * k
src_at-ring p n k i h w l =
    let left : u32 (n + 2 ^ 32 - p) ≡ n - p = omega arith in
    rw left (elim (one_turn (p + i) n (omega arith)) [
      | inl q ↦ rw q.1 (ground arith)
      | inr q ↦ rw q.1 (ground arith)
    ])

pub ring_room : (x n k : ℕ) → x < n → x * k + k ≤ n * k
ring_room x n k h = grind arith

pub length-map_of : (s : Stream) → length (map_of s) ≤ s.pcm_channels
length-map_of s = omega (arith, length-take s.pcm_channels s.pcm_positions)

-- Two frames of one turn lie apart.
different :
    (p n i j : ℕ)
    → p < n
    → i < j
    → j < n
    → ((p + i) % n < (p + j) % n) ⊎ ((p + j) % n < (p + i) % n)
different p n i j h l m =
    ground (arith, one_turn (p + i) n (omega arith), one_turn (p + j) n (omega arith))

pub ring_apart :
    (p n k i j : ℕ)
    → p < n
    → i < j
    → j < n
    → ((p + i) % n * k + k ≤ (p + j) % n * k) ⊎ ((p + j) % n * k + k ≤ (p + i) % n * k)
ring_apart p n k i j h l m = elim (different p n i j h l m) [
  | inl q ↦ inl (ring_room _ _ k q)
  | inr q ↦ inr (ring_room _ _ k q)
]
