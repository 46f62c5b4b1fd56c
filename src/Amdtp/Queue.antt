-- ===== src/Amdtp/Queue.antt =====
-- The ring of packets that are queued on the isochronous context.
pub mod Index
use snd_firewire_improve.Common.{
  ℕ, ◌+◌, ◌*◌, ◌%◌, Bool, true, false, Option, none, some, ◌>>=◌, ◌==◌, leb, if◌then◌else◌,
  get_elem?, ℤ, pos, negsuc, Result, ok, err,
}
use snd_firewire_improve.PacketsBuffer.{Packet}
use snd_firewire_improve.Amdtp.Types.{
  u32, interrupt_interval, tag_cip, queue_length, in_packet_header_size, out_packet_header_size,
  IsoPacket, Event, Env, Stream, note,
}

-- `amdtp_stream_get_max_payload`
unfoldable pub get_max_payload : Stream → ℕ
get_max_payload s = u32 (8 + s.syt_interval * s.data_block_quadlets * 4)

-- The entry of `buffer.packets` at `packet_index`; there is none at a negative index.
abbrev pub current_packet : Stream → Option Packet
current_packet s = elim s.packet_index [ pos i ↦ get_elem? s.buffer i | negsuc i ↦ none ]

-- `++s->packet_index >= QUEUE_LENGTH`, and the reset to 0.
abbrev pub next_index : ℕ → ℤ
next_index i = if leb queue_length (i + 1) then pos 0 else pos (i + 1)

-- The packet that `queue_packet` describes.
abbrev pub iso_packet : ℕ → ℕ → ℕ → Bool → ℕ → IsoPacket
iso_packet i header_length payload_length skip offset = record {
  interrupt = (i + 1) % interrupt_interval == 0;
  tag = tag_cip;
  header_length = header_length;
  payload_length = if skip then 0 else payload_length;
  skip = skip;
  at_offset = offset;
}

-- The call of fw_iso_context_queue, and what follows it.
unfoldable pub submit : Env → Stream → ℕ → IsoPacket → Result (Unit {0}) × Stream
submit env s i p =
    let answer = env.iso_queue s.log p in
    let s' = note (Event.queued p) s in
    elim answer [ ok u ↦ (ok tt, record s' { packet_index = next_index i }) | err e ↦ (err e, s') ]

-- `queue_packet`. Without a context nothing is done and 0 returned.
unfoldable pub queue_packet : Env → Stream → ℕ → ℕ → Bool → Option (Result (Unit {0}) × Stream)
queue_packet env s header_length payload_length skip = elim s.context [
  | none ↦ some (ok tt, s)
  | some c ↦ elim s.packet_index [
    | negsuc i ↦ none
    | pos i ↦ get_elem? s.buffer i >>= λ packet.
        some (submit env s i (iso_packet i header_length payload_length skip packet.offset))
  ]
]

-- `queue_out_packet`
unfoldable pub queue_out_packet : Env → Stream → ℕ → Bool → Option (Result (Unit {0}) × Stream)
queue_out_packet env s payload_length skip =
    queue_packet env s out_packet_header_size payload_length skip

-- `queue_in_packet`
unfoldable pub queue_in_packet : Env → Stream → Option (Result (Unit {0}) × Stream)
queue_in_packet env s = queue_packet env s in_packet_header_size (get_max_payload s) false
