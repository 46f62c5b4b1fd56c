-- ===== src/Amdtp/Queue/Index.antt =====
-- The packet index stays in the ring of QUEUE_LENGTH packets.
use snd_firewire_improve.Common.{
  ℕ, ◌<◌, ◌≡◌, some, get_elem?-some, length, pos, Bool, ok, err, Errno, Result-cases, ◌⊎◌, inl, inr,
  ◌∷◌, arith,
}
use snd_firewire_improve.PacketsBuffer.{Packet}
use snd_firewire_improve.Amdtp.Types.{queue_length, IsoPacket, Callback, Event, Env, Stream}
use snd_firewire_improve.Amdtp.Queue.{iso_packet, submit, queue_packet, next_index}

-- All packets of the ring are there, and the index is that of one, or negative after an error.
pub record IsRing (s : Stream) : Type 0 where
  pub size : length s.buffer ≡ queue_length
  pub index : (i : ℕ) → s.packet_index ≡ pos i → i < queue_length

pub next_index_bound : (i j : ℕ) → next_index i ≡ pos j → j < queue_length
next_index_bound i j e = ground arith

pub queue_packet_lem :
    (env : Env) (s : Stream) (header payload : ℕ) (skip : Bool) (i : ℕ) {c : Callback}
    → IsRing s
    → s.context ≡ some c
    → s.packet_index ≡ pos i
    → (p : Packet) × (queue_packet env s header payload skip
        ≡ some (submit env s i (iso_packet i header payload skip p.offset)))
unfolding queue_packet
queue_packet_lem env s header payload skip i r c e =
    let (p, h) = get_elem?-some s.buffer i (omega (arith, r.size, r.index i e)) in (p, ground arith)

pub submit-IsRing :
    (env : Env) (s : Stream) (i : ℕ) (p : IsoPacket) → IsRing s → IsRing (submit env s i p).1
unfolding submit
submit-IsRing env s i p r = record { size = sizes; index = indices }
  where
    sizes : length (submit env s i p).1.buffer ≡ queue_length
    sizes = ground (arith, r.size)

    indices : (j : ℕ) → (submit env s i p).1.packet_index ≡ pos j → j < queue_length
    indices j e = ground (arith, r.index j)

-- The stream behind an accepted and behind a refused packet.
abbrev pub accepted : Stream → ℕ → IsoPacket → Stream
accepted s i p = record s { packet_index = next_index i; log = Event.queued p ∷ s.log }

abbrev pub refused : Stream → IsoPacket → Stream
refused s p = record s { log = Event.queued p ∷ s.log }

pub submit-cases :
    (env : Env) (s : Stream) (i : ℕ) (p : IsoPacket)
    → (submit env s i p ≡ (ok tt, accepted s i p))
      ⊎ ((e : Errno) × (submit env s i p ≡ (err e, refused s p)))
unfolding submit
submit-cases env s i p = elim (Result-cases (env.iso_queue s.log p)) [
  | inl a ↦ inl (rw (a.1, submit))
  | inr e ↦ inr (e.0, rw (e.1, submit))
]
