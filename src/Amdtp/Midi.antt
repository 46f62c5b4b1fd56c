-- ===== src/Amdtp/Midi.antt =====
-- MIDI bytes in the data blocks, and the rate at which they are sent.
pub mod Limit
use snd_firewire_improve.Common.{
  ℕ, zero, suc, ◌+◌, ◌-◌, ◌*◌, ◌/◌, ◌%◌, ◌^◌, Bool, true, false, List, [], ◌∷◌, Option, none, some,
  ◌>>=◌, ◌==◌, ltb, leb, ◌&&◌, if◌then◌else◌, get_elem?, store,
}
use snd_firewire_improve.Amdtp.Types.{
  u32, midi_bytes_per_second, max_midi_rx_blocks, rate_table, Env, Event, Stream, note, update,
}

-- A quadlet by its four bytes in the order of the bus.
abbrev pub quadlet : ℕ → ℕ → ℕ → ℕ → ℕ
quadlet b0 b1 b2 b3 = b0 * 2 ^ 24 + b1 * 2 ^ 16 + b2 * 2 ^ 8 + b3

-- `b[i]` of such a quadlet.
abbrev pub byte_of : ℕ → ℕ → ℕ
byte_of q i = q / 2 ^ (24 - 8 * i) % 256

-- `amdtp_midi_ratelimit_per_packet`: `max(used, 0)` is what the truncated difference gives.
unfoldable pub ratelimit_per_packet : Stream → ℕ → Bool × Stream
ratelimit_per_packet s port =
    let used = s.midi_fifo_used port in
    let left = used - midi_bytes_per_second * s.syt_interval in
    if used == 0 then (true, s) else (
      ltb left s.midi_fifo_limit,
      record s { midi_fifo_used = update s.midi_fifo_used port left },
    )

-- `amdtp_midi_rate_use_one_byte`
unfoldable pub rate_use_one_byte : Stream → ℕ → Stream
rate_use_one_byte s port = record s {
  midi_fifo_used = update s.midi_fifo_used port (s.midi_fifo_used port + rate_table s.sfc);
}

-- `s->midi[port] != NULL && snd_rawmidi_transmit(s->midi[port], &b[1], 1) == 1`: the byte sent.
unfoldable pub transmit : Env → Stream → ℕ → Option ℕ × Stream
transmit env s port = elim (s.midi port) [
  | none ↦ (none, s)
  | some m ↦ let answer = env.transmit s.log m in (answer, note (Event.midi_transmit m answer) s)
]

-- The condition of the loop of `amdtp_fill_midi` at data block f: the byte to send, if any.
unfoldable pub next_byte : Env → Stream → ℕ → ℕ → Option ℕ × Stream
unfolding ratelimit_per_packet transmit
next_byte env s f port =
    if ltb f max_midi_rx_blocks
    then (let (allowed, s') = ratelimit_per_packet s port in
        if allowed then transmit env s' port else (none, s'))
    else (none, s)

-- The quadlet and the stream after data block f.
unfoldable pub fill_block : Env → Stream → ℕ → ℕ × Stream
unfolding next_byte rate_use_one_byte
fill_block env s f =
    let port = u32 (s.data_block_counter + f) % 8 in
    let (sent, s') = next_byte env s f port in
    elim sent [
      | some byte ↦ (quadlet 0x81 (byte % 256) 0 0, rate_use_one_byte s' port)
      | none ↦ (quadlet 0x80 0 0 0, s')
    ]

-- `amdtp_fill_midi`; `n` rounds are left from data block f on, which starts at `base`.
unfoldable pub fill_blocks : Env → ℕ → ℕ → ℕ → Stream → List ℕ → Option (Stream × List ℕ)
fill_blocks env zero f base s buffer = some (s, buffer)
fill_blocks env (suc n) f base s buffer =
    let (q, s') = fill_block env s f in
    store buffer (base + s.midi_position) q >>= λ buffer'.
    fill_blocks env n (f + 1) (base + s.data_block_quadlets) s' buffer'

unfoldable pub fill_midi : Env → Stream → List ℕ → ℕ → ℕ → Option (Stream × List ℕ)
fill_midi env s buffer base frames = fill_blocks env frames 0 base s buffer

-- The bytes of a quadlet whose label says that it holds one to three of them.
unfoldable pub label_bytes : ℕ → List ℕ
label_bytes q =
    if byte_of q 0 == 0x81
    then byte_of q 1 ∷ []
    else if byte_of q 0 == 0x82
    then byte_of q 1 ∷ byte_of q 2 ∷ []
    else if byte_of q 0 == 0x83
    then byte_of q 1 ∷ byte_of q 2 ∷ byte_of q 3 ∷ []
    else []

-- What `amdtp_pull_midi` hands to a port for one data block.
unfoldable pub pull_block : Stream → ℕ → ℕ → Stream
unfolding label_bytes
pull_block s port q = elim (s.midi port) [
  | none ↦ s
  | some m ↦ elim (label_bytes q) [ [] ↦ s | b ∷ bs ↦ note (Event.midi_receive m (b ∷ bs)) s ]
]

-- `amdtp_pull_midi`
unfoldable pub pull_blocks : ℕ → ℕ → ℕ → Stream → List ℕ → Option Stream
unfolding pull_block
pull_blocks zero f base s buffer = some s
pull_blocks (suc n) f base s buffer = get_elem? buffer (base + s.midi_position) >>= λ q.
    pull_blocks n (f + 1) (base + s.data_block_quadlets)
      (pull_block s (u32 (s.data_block_counter + f) % 8) q) buffer

unfoldable pub pull_midi : Stream → List ℕ → ℕ → ℕ → Option Stream
unfolding pull_blocks
pull_midi s buffer base frames = pull_blocks frames 0 base s buffer

-- `amdtp_stream_midi_trigger`
unfoldable pub midi_trigger : Stream → ℕ → Option ℕ → Stream
midi_trigger s port m =
    if ltb port s.midi_ports then record s { midi = update s.midi port m } else s
