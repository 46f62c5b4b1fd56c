-- ===== src/Amdtp/Midi/Limit.antt =====
-- The limit of MIDI bytes for a port, over any number of packets.
use snd_firewire_improve.Common.{
  ℕ, zero, suc, ◌+◌, ◌*◌, ◌%◌, ◌≤◌, ◌<◌, ◌≡◌, ◌≢◌, ◌⊎◌, ◌∙◌, ap, subst, inl, inr, refl, List, [],
  ◌∷◌, none, some, >>=-eq-some, store, ◌==◌, if◌then◌else◌, length, arith,
}
use snd_firewire_improve.Amdtp.Types.{u32, midi_bytes_per_second, rate_table, Env, Stream}
use native.Mathlib.Decide.{dec_lt, ℕ_discrete}
use snd_firewire_improve.Amdtp.Midi.{fill_block, next_byte, fill_blocks}

-- The stream after n data blocks from block f on, without the packet.
unfoldable pub fill_state : Env → ℕ → ℕ → Stream → Stream
fill_state env zero f s = s
fill_state env (suc n) f s = fill_state env n (f + 1) (fill_block env s f).1

-- The number of bytes that these blocks carry to port p.
abbrev pub sent_in : Env → Stream → ℕ → ℕ → ℕ
sent_in env s f p =
    if u32 (s.data_block_counter + f) % 8 == p
    then elim (next_byte env s f p).0 [ some b ↦ 1 | none ↦ 0 ]
    else 0

unfoldable pub sent : Env → ℕ → ℕ → Stream → ℕ → ℕ
sent env zero f s p = 0
sent env (suc n) f s p = sent_in env s f p + sent env n (f + 1) (fill_block env s f).1 p

-- `fill_midi` leaves the stream as `fill_state` says.
pub fill_blocks-fill_state :
    (env : Env) (n f base : ℕ) (s t : Stream) (buffer out : List ℕ)
    → fill_blocks env n f base s buffer ≡ some (t, out)
    → t ≡ fill_state env n f s
unfolding fill_blocks fill_state
fill_blocks-fill_state env zero f base s t buffer out e = ground arith
fill_blocks-fill_state env (suc n) f base s t buffer out e =
    let (q, s') = fill_block env s f in
    let (b, eb, rest) = >>=-eq-some (store buffer (base + s.midi_position) q) _ e in
    fill_blocks-fill_state env n (f + 1) (base + s.data_block_quadlets) s' t b out rest

-- What the limit rests on: the value that `amdtp_stream_set_parameters` gives it.
pub record IsTuned (s : Stream) : Type 0 where
  pub limit : s.midi_fifo_limit + midi_bytes_per_second * s.syt_interval ≡ rate_table s.sfc + 1
  pub positive : 0 < s.midi_fifo_limit

-- No port is assumed to hold more than two bytes, less what drains during a packet.
pub record IsLimited (s : Stream) : Type 0 where
  pub bounded :
      (p : ℕ) → s.midi_fifo_used p + midi_bytes_per_second * s.syt_interval ≤ 2 * rate_table s.sfc

-- A block changes the fill levels and the log only.
record Keeps (s t : Stream) : Type 0 where
  interval : t.syt_interval ≡ s.syt_interval
  rate : t.sfc ≡ s.sfc
  counter : t.data_block_counter ≡ s.data_block_counter
  limit : t.midi_fifo_limit ≡ s.midi_fifo_limit

fill_block-Keeps : (env : Env) (s : Stream) (f : ℕ) → Keeps s (fill_block env s f).1
unfolding fill_block
fill_block-Keeps env s f = ground arith

fill_state-Keeps : (env : Env) (n f : ℕ) (s : Stream) → Keeps s (fill_state env n f s)
unfolding fill_state
fill_state-Keeps env zero f s = record {
  interval = refl;
  rate = refl;
  counter = refl;
  limit = refl;
}
fill_state-Keeps env (suc n) f s =
    ground (arith, fill_block-Keeps env s f, fill_state-Keeps env n (f + 1) (fill_block env s f).1)

-- One block: what is sent to port p is counted, at most what drains per packet is taken off, and
-- another port's block changes nothing for p.
block_account :
    (env : Env) (s : Stream) (f p : ℕ)
    → let t = (fill_block env s f).1 in
      rate_table s.sfc * sent_in env s f p + s.midi_fifo_used p
      ≤ t.midi_fifo_used p + midi_bytes_per_second * s.syt_interval
unfolding fill_block
block_account env s f p = ground arith

block_quiet :
    (env : Env) (s : Stream) (f p : ℕ)
    → (8 ≤ f) ⊎ (u32 (s.data_block_counter + f) % 8 ≢ p)
    → ((fill_block env s f).1.midi_fifo_used p ≡ s.midi_fifo_used p) × (sent_in env s f p ≡ 0)
unfolding fill_block
block_quiet env s f p h = ground arith

fill_block-IsLimited :
    (env : Env) (s : Stream) (f p : ℕ)
    → IsTuned s
    → s.midi_fifo_used p + midi_bytes_per_second * s.syt_interval ≤ 2 * rate_table s.sfc
    → (fill_block env s f).1.midi_fifo_used p + midi_bytes_per_second * s.syt_interval
      ≤ 2 * rate_table s.sfc
unfolding fill_block
fill_block-IsLimited env s f p t h = ground arith

-- No block from f on is for port p.
quiet :
    (env : Env) (n f : ℕ) (s : Stream) (p : ℕ)
    → ((i : ℕ) → f ≤ i → i < 8 → u32 (s.data_block_counter + i) % 8 ≢ p)
    → ((fill_state env n f s).midi_fifo_used p ≡ s.midi_fifo_used p) × (sent env n f s p ≡ 0)
unfolding fill_state sent
quiet env zero f s p h = (refl, refl)
quiet env (suc n) f s p h =
    let t = (fill_block env s f).1 in
    let k = fill_block-Keeps env s f in
    let now =
      block_quiet env s f p
        (elim (dec_lt f 8) [ yes l ↦ inr (h f (omega arith) l) | no g ↦ inl (omega arith) ]) in
    let later = quiet env n (f + 1) t p (λ i l g. rw k.counter (h i (omega arith) g)) in
    (later.0 ∙ now.0, omega (arith, later.1, now.1))

-- The blocks of one packet serve a port at most once.
packet_account :
    (env : Env) (n f : ℕ) (s : Stream) (p : ℕ)
    → s.data_block_counter < 256
    → rate_table s.sfc * sent env n f s p + s.midi_fifo_used p
      ≤ (fill_state env n f s).midi_fifo_used p + midi_bytes_per_second * s.syt_interval
unfolding fill_state sent
packet_account env zero f s p c = omega arith
packet_account env (suc n) f s p c = elim (dec_lt f 8) [
  | no g ↦ let all = quiet env (suc n) f s p (λ i l h. absurd (omega arith)) in ground (arith, all)
  | yes l ↦ elim (ℕ_discrete (u32 (s.data_block_counter + f) % 8) p) [
    | yes e ↦
        let after =
          quiet env n (f + 1) (fill_block env s f).1 p (λ i m h. rw k.counter (omega arith)) in
        grind (arith, after, block_account env s f p)
    | no d ↦
        let now = block_quiet env s f p (inr d) in
        let later =
          packet_account env n (f + 1) (fill_block env s f).1 p (omega (arith, k.counter)) in
        ground (arith, now, later, k)
  ]
]
  where
    k : Keeps s (fill_block env s f).1
    k = fill_block-Keeps env s f

fill_state-IsLimited :
    (env : Env) (n f : ℕ) (s : Stream) (p : ℕ)
    → IsTuned s
    → s.midi_fifo_used p + midi_bytes_per_second * s.syt_interval ≤ 2 * rate_table s.sfc
    → (fill_state env n f s).midi_fifo_used p + midi_bytes_per_second * s.syt_interval
      ≤ 2 * rate_table s.sfc
unfolding fill_state
fill_state-IsLimited env zero f s p t h = h
fill_state-IsLimited env (suc n) f s p t h =
    let k = fill_block-Keeps env s f in
    let r : rate_table (fill_block env s f).1.sfc ≡ rate_table s.sfc = ap rate_table k.rate in
    let one = fill_block-IsLimited env s f p t h in
    let tuned : IsTuned (fill_block env s f).1 =
      omega (arith, k.limit, k.interval, r, t.limit, t.positive) in
    omega (
      arith,
      r,
      k.interval,
      one,
      fill_state-IsLimited env n (f + 1) (fill_block env s f).1 p tuned
          (omega (arith, r, k.interval, one)),
    )

-- The MIDI state through a sequence of packets with these numbers of data blocks: the blocks are
-- filled, and the counter goes on as in `handle_out_packet`.
unfoldable pub through : Env → List ℕ → Stream → Stream
through env [] s = s
through env (n ∷ ns) s =
    let t = fill_state env n 0 s in
    through env ns (record t { data_block_counter = (t.data_block_counter + n) % 256 })

unfoldable pub total : Env → List ℕ → Stream → ℕ → ℕ
total env [] s p = 0
total env (n ∷ ns) s p =
    let t = fill_state env n 0 s in
    sent env n 0 s p
    + total env ns (record t { data_block_counter = (t.data_block_counter + n) % 256 }) p

total_account :
    (env : Env) (ns : List ℕ) (s : Stream) (p : ℕ)
    → s.data_block_counter < 256
    → IsTuned s
    → s.midi_fifo_used p + midi_bytes_per_second * s.syt_interval ≤ 2 * rate_table s.sfc
    → (rate_table s.sfc * total env ns s p + s.midi_fifo_used p
        ≤ 2 * rate_table s.sfc + length ns * (midi_bytes_per_second * s.syt_interval))
unfolding total
total_account env [] s p c t h = omega arith
total_account env (n ∷ ns) s p c t h =
    let v = fill_state env n 0 s in
    let k = fill_state-Keeps env n 0 s in
    let r : rate_table v.sfc ≡ rate_table s.sfc = ap rate_table k.rate in
    let w = record v { data_block_counter = (v.data_block_counter + n) % 256 } in
    let bound = fill_state-IsLimited env n 0 s p t h in
    let rest =
      total_account env ns w p (omega arith)
        (omega (arith, k.limit, k.interval, r, t.limit, t.positive))
        (omega (arith, r, k.interval, bound)) in
    let at_rate =
      subst
        (λ (a : ℕ).
          a * total env ns w p + v.midi_fifo_used p
          ≤ 2 * a + length ns * (midi_bytes_per_second * v.syt_interval))
        r rest in
    let at_interval =
      subst
        (λ (b : ℕ).
          rate_table s.sfc * total env ns w p + v.midi_fifo_used p
          ≤ 2 * rate_table s.sfc + length ns * (midi_bytes_per_second * b))
        k.interval at_rate in
    omega (arith, packet_account env n 0 s p c, at_interval)

-- Over any sequence of packets, with any numbers of data blocks, the bytes sent to a port times the
-- sample rate are at most twice the rate, for the two bytes that the device is taken to hold, and
-- MIDI_BYTES_PER_SECOND * syt_interval for each packet, which is what the code counts as drained
-- during a packet, whatever number of data blocks the packet has. The stream has a data block
-- counter of 8 bits, the limit that the parameters set, and fill levels that are at most two bytes
-- with one such drain added.
pub total_bounded :
    (env : Env) (ns : List ℕ) (s : Stream) (p : ℕ)
    → s.data_block_counter < 256
    → IsTuned s
    → IsLimited s
    → rate_table s.sfc * total env ns s p
      ≤ 2 * rate_table s.sfc + length ns * (midi_bytes_per_second * s.syt_interval)
total_bounded env ns s p c t h = omega (arith, total_account env ns s p c t (h.bounded p))
