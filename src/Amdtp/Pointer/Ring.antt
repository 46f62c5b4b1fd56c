-- ===== src/Amdtp/Pointer/Ring.antt =====
-- The pointers go round the ring buffer and count the periods.
use snd_firewire_improve.Common.{
  ℕ, suc, ◌+◌, ◌-◌, ◌*◌, ◌%◌, ◌^◌, ◌≤◌, ◌<◌, ◌≡◌, List, [], ◌∷◌, if◌then◌else◌, leb, Bool-cases,
  inl, inr, arith,
}
use native.Mathlib.Decide.{dec_lt}
use native.Mathlib.Nat.{mod-eq_of_lt, mod-eq-sub-mod}
use snd_firewire_improve.Amdtp.Types.{u32, Pcm, Event, Stream}
use snd_firewire_improve.Amdtp.Pointer.{next_pointer, advance, update_pcm_pointers}

-- The PCM frames of a packet.
abbrev pub frames_of : Stream → ℕ → ℕ
frames_of s data_blocks = if s.double_pcm_frames then data_blocks * 2 else data_blocks

-- Both pointers are where ALSA may see them, and the ring buffer is of a size that `unsigned int`
-- holds twice.
pub record IsPlaced (s : Stream) (pcm : Pcm) : Type 0 where
  pub buffer : s.pcm_buffer_pointer < pcm.buffer_size
  pub period : s.pcm_period_pointer < pcm.period_size
  pub fits : pcm.period_size ≤ pcm.buffer_size
  pub word : pcm.buffer_size < 2 ^ 31

-- How many periods the log reports.
unfoldable pub periods : List Event → ℕ
periods [] = 0
periods (Event.schedule_period ∷ es) = suc (periods es)
periods (_ ∷ es) = periods es

ring_next : (p n k : ℕ) → p < n → k ≤ n → (if leb n (p + k) then p + k - n else p + k) ≡ (p + k) % n
ring_next p n k h l = elim (dec_lt (p + k) n) [
  | yes q ↦ ground (arith, mod-eq_of_lt {n = p + k} {m = n} q)
  | no q ↦ ground (
    arith,
    mod-eq-sub-mod {n = p + k} {m = n} (omega arith),
    mod-eq_of_lt {n = p + k - n} {m = n} (omega arith),
  )
]

next_pointer_lem :
    (s : Stream) (pcm : Pcm) (k : ℕ)
    → IsPlaced s pcm
    → k ≤ pcm.period_size
    → next_pointer s pcm k ≡ (s.pcm_buffer_pointer + k) % pcm.buffer_size
unfolding next_pointer
next_pointer_lem s pcm k i h =
    let e : u32 (s.pcm_buffer_pointer + k) ≡ s.pcm_buffer_pointer + k = omega arith in
    rw e (ring_next s.pcm_buffer_pointer pcm.buffer_size k i.buffer (omega arith))

-- What a packet of k frames does to the pointers.
record Advances (s : Stream) (pcm : Pcm) (k : ℕ) (t : Stream) : Type 0 where
  buffer : t.pcm_buffer_pointer ≡ (s.pcm_buffer_pointer + k) % pcm.buffer_size
  period : t.pcm_period_pointer < pcm.period_size
  count :
      periods t.log * pcm.period_size + t.pcm_period_pointer
      ≡ periods s.log * pcm.period_size + s.pcm_period_pointer + k

advance-Advances :
    (s : Stream) (pcm : Pcm) (k : ℕ)
    → IsPlaced s pcm
    → k ≤ pcm.period_size
    → Advances s pcm k (advance s pcm k)
unfolding advance periods
advance-Advances s pcm k i h =
    let e : u32 (s.pcm_period_pointer + k) ≡ s.pcm_period_pointer + k = omega arith in
    let at = next_pointer_lem s pcm k i h in
    elim (Bool-cases (leb pcm.period_size (s.pcm_period_pointer + k))) [
      | inl full ↦
          rw e (rw full (record { buffer = at; period = ground arith; count = ground arith }))
      | inr part ↦
          rw e (rw part (record { buffer = at; period = ground arith; count = omega arith }))
    ]

-- A packet of at most a period moves the buffer pointer round the ring by its frames, keeps both
-- pointers in range, and reports a period exactly when the period pointer passes its end, so that
-- reported periods and period pointer together count every frame.
pub update_pcm_pointers_lem :
    (s : Stream) (pcm : Pcm) (n : ℕ)
    → IsPlaced s pcm
    → frames_of s n ≤ pcm.period_size
    → let t = update_pcm_pointers s pcm n in
      IsPlaced t pcm
      × (t.pcm_buffer_pointer ≡ (s.pcm_buffer_pointer + frames_of s n) % pcm.buffer_size)
      × (periods t.log * pcm.period_size + t.pcm_period_pointer
          ≡ periods s.log * pcm.period_size + s.pcm_period_pointer + frames_of s n)
unfolding update_pcm_pointers
update_pcm_pointers_lem s pcm n i h =
    let k : (if s.double_pcm_frames then u32 (n * 2) else n) ≡ frames_of s n = ground arith in
    let a = advance-Advances s pcm (frames_of s n) i h in
    rw k (omega (arith, a.buffer, a.period), a.buffer, a.count)
