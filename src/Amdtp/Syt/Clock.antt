-- ===== src/Amdtp/Syt/Clock.antt =====
-- The time stamps follow the sampling clock exactly.
use snd_firewire_improve.Common.{
  ℕ, zero, suc, ◌+◌, ◌*◌, ◌/◌, ◌%◌, ◌<◌, ◌≡◌, refl, true, false, ltb, bit, ◌==◌, ==_iff, arith,
}
use snd_firewire_improve.Common.Table.{all_below, all_below_lem}
use snd_firewire_improve.Amdtp.Types.{
  ticks_per_cycle, ticks_per_second, syt_intervals, rate_table, Sfc, sfc_44100, sfc_88200,
  sfc_176400, is_base_44100, initial_syt_offset, Stream,
}
use snd_firewire_improve.Amdtp.Syt.{increment_44100, next_syt_offset}

-- The stream after the first halves of n calls of `calculate_syt`.
unfoldable pub after : ℕ → Stream → Stream
after zero s = s
after (suc n) s = next_syt_offset (after n s)

-- How many of these n calls gave a time stamp.
unfoldable pub stamped : ℕ → Stream → ℕ
stamped zero s = 0
stamped (suc n) s = stamped n s + bit (ltb (after (suc n) s).last_syt_offset ticks_per_cycle)

-- The time of sample j * SYT_INTERVAL in ticks, rounded to the nearest tick.
abbrev pub sample_time : Sfc → ℕ → ℕ
sample_time sfc j =
    (2 * (j * (ticks_per_second * syt_intervals sfc)) + rate_table sfc) / (2 * rate_table sfc)

increment_table :
    all_below 147 (λ p. increment_44100 p + 34 * p / 147 == 1386 + 34 * (p + 1) / 147) ≡ true
unfolding all_below increment_44100
increment_table = refl

increment_lem : (p : ℕ) → p < 147 → increment_44100 p + 34 * p / 147 ≡ 1386 + 34 * (p + 1) / 147
increment_lem p h = (==_iff _ _).0 (all_below_lem 147 _ p increment_table h)

-- What holds of the stream `t` that a call leaves, with the time `now` at the start of its cycle,
-- where j stamps were given before.
record IsOnTime (sfc : Sfc) (now j : ℕ) (t : Stream) : Type 0 where
  same_rate : t.sfc ≡ sfc
  time : now + t.last_syt_offset ≡ sample_time sfc j
  bounded : t.last_syt_offset < 2 * ticks_per_cycle
  phase : is_base_44100 sfc ≡ true → t.syt_offset_state ≡ (67 + j) % 147
  constant : is_base_44100 sfc ≡ false → t.syt_offset_state ≡ initial_syt_offset sfc

next-IsOnTime :
    (sfc : Sfc) (now j : ℕ) (t : Stream)
    → IsOnTime sfc now j t
    → IsOnTime sfc
        (now + ticks_per_cycle)
        (j + bit (ltb t.last_syt_offset ticks_per_cycle))
        (next_syt_offset t)
unfolding next_syt_offset
next-IsOnTime sfc_44100 now j t i = ground (arith, increment_lem t.syt_offset_state)
next-IsOnTime sfc_88200 now j t i = ground (arith, increment_lem t.syt_offset_state)
next-IsOnTime sfc_176400 now j t i = ground (arith, increment_lem t.syt_offset_state)
next-IsOnTime _ now j t i = ground arith

first-IsOnTime :
    (sfc : Sfc) (s : Stream)
    → s.sfc ≡ sfc
    → s.last_syt_offset ≡ ticks_per_cycle
    → s.syt_offset_state ≡ initial_syt_offset sfc
    → IsOnTime sfc 0 0 (next_syt_offset s)
unfolding next_syt_offset
first-IsOnTime sfc_44100 s e l p = ground arith
first-IsOnTime _ s e l p = ground arith

after-IsOnTime :
    (n : ℕ) (s : Stream)
    → s.last_syt_offset ≡ ticks_per_cycle
    → s.syt_offset_state ≡ initial_syt_offset s.sfc
    → IsOnTime s.sfc (ticks_per_cycle * n) (stamped n s) (after (suc n) s)
unfolding after stamped
after-IsOnTime zero s l p = first-IsOnTime s.sfc s refl l p
after-IsOnTime (suc n) s l p =
    let i =
      next-IsOnTime s.sfc (ticks_per_cycle * n) (stamped n s) (after (suc n) s)
        (after-IsOnTime n s l p) in
    let e : ticks_per_cycle * n + ticks_per_cycle ≡ ticks_per_cycle * suc n = omega arith in
    rw (← e) i

-- Call n (from 0) after the start computes, on top of its n cycles, exactly the time of the next
-- sample to be stamped, rounded to the nearest tick, at every supported rate; the calls before it
-- stamped the samples before.
pub after-eq-sample_time :
    (n : ℕ) (s : Stream)
    → s.last_syt_offset ≡ ticks_per_cycle
    → s.syt_offset_state ≡ initial_syt_offset s.sfc
    → ticks_per_cycle * n + (after (suc n) s).last_syt_offset ≡ sample_time s.sfc (stamped n s)
after-eq-sample_time n s l p = (after-IsOnTime n s l p).time
