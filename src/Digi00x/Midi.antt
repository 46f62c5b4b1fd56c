-- ===== src/Digi00x/Midi.antt =====
-- MIDI bytes in the data blocks of Digi 002/003 devices: `fill_midi` and `pull_midi` of
-- digi00x-protocol.c, with the limit of the rate that amdtp.h has.
use snd_firewire_improve.Common.{
  ℕ, zero, suc, ◌+◌, ◌*◌, ◌/◌, ◌%◌, ◌^◌, List, [], ◌∷◌, Option, none, some, ◌>>=◌, ltb, bit_or,
  if◌then◌else◌, get_elem?, store,
}
use snd_firewire_improve.Amdtp.Types.{u32, Env, Event, Stream, note}
use snd_firewire_improve.Amdtp.Midi.{
  quadlet, byte_of, ratelimit_per_packet, rate_use_one_byte, transmit,
}

-- The condition of the loop of `fill_midi`: the byte to send, if any.
unfoldable pub next_byte : Env → Stream → ℕ → Option ℕ × Stream
next_byte env s port =
    let limit = ratelimit_per_packet s port in
    if limit.0 then transmit env limit.1 port else (none, limit.1)

-- The quadlet for what is sent, and the stream after it.
unfoldable pub fill_block : Env → Stream → ℕ → ℕ × Stream
fill_block env s f =
    let port = u32 (s.data_block_counter + f) % 4 in
    let next = next_byte env s port in
    elim next.0 [
      | none ↦ (quadlet 0x80 0 0 0, next.1)
      | some byte ↦ (
        quadlet 0x80 (byte % 256) 0 (bit_or 0x01 (0x10 * 2 ^ port)),
        rate_use_one_byte next.1 port,
      )
    ]

-- `fill_midi`; `n` rounds are left from data block f on, which starts at `base`.
unfoldable pub fill_blocks : Env → ℕ → ℕ → ℕ → Stream → List ℕ → Option (Stream × List ℕ)
fill_blocks env zero f base s buffer = some (s, buffer)
fill_blocks env (suc n) f base s buffer =
    let filled = fill_block env s f in
    store buffer (base + s.midi_position) filled.0 >>= λ buffer'.
    fill_blocks env n (f + 1) (base + s.data_block_quadlets) filled.1 buffer'

unfoldable pub fill_midi : Env → Stream → List ℕ → ℕ → ℕ → Option (Stream × List ℕ)
fill_midi env s buffer base frames = fill_blocks env frames 0 base s buffer

-- n bytes of a packet from an offset in bytes.
unfoldable pub packet_bytes : List ℕ → ℕ → ℕ → Option (List ℕ)
packet_bytes buffer p zero = some []
packet_bytes buffer p (suc n) = get_elem? buffer (p / 4) >>= λ q.
    packet_bytes buffer (p + 1) n >>= λ bs. some (byte_of q (p % 4) ∷ bs)

-- What `pull_midi` hands to the first port for a data block whose quadlet is at an index: as many
-- bytes as the last byte of the quadlet says.
unfoldable pub pull_block : Stream → List ℕ → ℕ → Option Stream
pull_block s buffer i = get_elem? buffer i >>= λ q.
    let bytes = packet_bytes buffer (i * 4 + 1) (byte_of q 3) in
    elim (s.midi 0) [
      | none ↦ some s
      | some m ↦
          if ltb 0 (byte_of q 3)
          then (bytes >>= λ bs. some (note (Event.midi_receive m bs) s))
          else some s
    ]

-- `pull_midi`
unfoldable pub pull_blocks : ℕ → ℕ → Stream → List ℕ → Option Stream
pull_blocks zero base s buffer = some s
pull_blocks (suc n) base s buffer = pull_block s buffer (base + s.midi_position) >>= λ s'.
    pull_blocks n (base + s.data_block_quadlets) s' buffer

unfoldable pub pull_midi : Stream → List ℕ → ℕ → ℕ → Option Stream
pull_midi s buffer base frames = pull_blocks frames base s buffer
