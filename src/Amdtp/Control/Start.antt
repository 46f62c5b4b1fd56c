-- ===== src/Amdtp/Control/Start.antt =====
-- What starting a stream leaves behind.
use snd_firewire_improve.Common.{
  ℕ, zero, suc, ◌+◌, ◌/◌, ◌%◌, ◌<◌, ◌≡◌, inl, inr, refl, ap, ◌∙◌, true, false, some, List, [], ◌∷◌,
  length, pos, ltb, ◌==◌, bit, Result, ok, err, Errno, Result-cases, Bool-cases, ebadfd, arith,
}
use snd_firewire_improve.Amdtp.Types.{
  first_callback, in_packet_header_size, out_packet_header_size, Direction-cases, queue_length,
  IsoPacket, Callback, Event, Env, Stream,
}
use snd_firewire_improve.Amdtp.Pointer.{running}
use snd_firewire_improve.Amdtp.Queue.{
  iso_packet, submit, queue_out_packet, queue_in_packet, next_index, get_max_payload,
}
use snd_firewire_improve.Amdtp.Queue.Index.{
  IsRing, queue_packet_lem, submit-cases, accepted, refused,
}
use snd_firewire_improve.PacketsBuffer
use snd_firewire_improve.PacketsBuffer.{Packet}
use snd_firewire_improve.PacketsBuffer.Layout.{init_lem}
use snd_firewire_improve.Amdtp.Control.{
  queue_first, queue_all, launch, drop_context, free_buffer, open_context, start, reset,
  header_size, update_node,
}

-- How many packets were queued, and how many of them raise an interrupt.
unfoldable pub queued_in : List Event → ℕ
queued_in [] = 0
queued_in (Event.queued p ∷ es) = suc (queued_in es)
queued_in (_ ∷ es) = queued_in es

unfoldable pub interrupts_in : List Event → ℕ
interrupts_in [] = 0
interrupts_in (Event.queued p ∷ es) = bit p.interrupt + interrupts_in es
interrupts_in (_ ∷ es) = interrupts_in es

-- One packet of the first round is the packet of the index.
queue_first_lem :
    (env : Env) (s : Stream) (i : ℕ) {c : Callback}
    → IsRing s
    → s.context ≡ some c
    → s.packet_index ≡ pos i
    → (p : IsoPacket) × (p.interrupt ≡ ((i + 1) % 16 == 0))
      × (queue_first env s ≡ some (submit env s i p))
unfolding queue_first queue_out_packet queue_in_packet
queue_first_lem env s i r c e =
    let (p, h) = queue_packet_lem env s out_packet_header_size 0 true i r c e in
    let (q, g) = queue_packet_lem env s in_packet_header_size (get_max_payload s) false i r c e in
    elim (Direction-cases s.direction) [
      | inl d ↦ (iso_packet i out_packet_header_size 0 true p.offset, refl, ground (arith, h))
      | inr d ↦ (
        iso_packet i in_packet_header_size (get_max_payload s) false q.offset,
        refl,
        ground (arith, g),
      )
    ]

-- The first round from index i on, with the fuel that is left.
record Round (env : Env) (n i : ℕ) (s : Stream) (q : Result (Unit {0}) × Stream) : Type 0 where
  result : queue_all env n s ≡ some q
  context : q.1.context ≡ s.context
  buffer : q.1.buffer ≡ s.buffer
  index : q.0 ≡ ok tt → q.1.packet_index ≡ pos 0
  count : q.0 ≡ ok tt → queued_in q.1.log + i ≡ queued_in s.log + queue_length
  interrupts : q.0 ≡ ok tt → interrupts_in q.1.log + i / 16 ≡ interrupts_in s.log + 3

Round-refused :
    (env : Env) (n i : ℕ) (s : Stream) (p : IsoPacket) (e : Errno)
    → queue_first env s ≡ some (err e, refused s p)
    → Round env (suc n) i s (err e, refused s p)
unfolding queue_all
Round-refused env n i s p e h = record {
  result = rw h;
  context = refl;
  buffer = refl;
  index = λ o. cc;
  count = λ o. cc;
  interrupts = λ o. cc;
}

Round-last :
    (env : Env) (i : ℕ) (s : Stream) (p : IsoPacket)
    → i + 1 ≡ queue_length
    → p.interrupt ≡ ((i + 1) % 16 == 0)
    → queue_first env s ≡ some (ok tt, accepted s i p)
    → Round env 1 i s (ok tt, accepted s i p)
unfolding queue_all queued_in interrupts_in
Round-last env i s p l b h =
    let w : next_index i ≡ pos 0 = ground arith in
    record {
      result = ground (arith, h, w);
      context = refl;
      buffer = refl;
      index = λ o. w;
      count = λ o. omega arith;
      interrupts = λ o. ground arith;
    }

Round-next :
    (env : Env) (n i : ℕ) (s : Stream) (p : IsoPacket) (q : Result (Unit {0}) × Stream)
    → i + 1 < queue_length
    → p.interrupt ≡ ((i + 1) % 16 == 0)
    → queue_first env s ≡ some (ok tt, accepted s i p)
    → Round env n (i + 1) (accepted s i p) q
    → Round env (suc n) i s q
unfolding queue_all queued_in interrupts_in
Round-next env n i s p q l b h r =
    let w : next_index i ≡ pos (suc i) = ground arith in
    record {
      result = ground (arith, h, w, r.result);
      context = r.context;
      buffer = r.buffer;
      index = r.index;
      count = λ o. omega (arith, r.count o);
      interrupts = λ o. ground (arith, r.interrupts o);
    }

queue_all_from :
    (env : Env) (n i : ℕ) (s : Stream) {c : Callback}
    → i + suc n ≡ queue_length
    → IsRing s
    → s.context ≡ some c
    → s.packet_index ≡ pos i
    → (q : Result (Unit {0}) × Stream) × Round env (suc n) i s q
queue_all_from env zero i s l r c e =
    let (p, b, h) = queue_first_lem env s i r c e in
    elim (submit-cases env s i p) [
      | inl a ↦ ((ok tt, accepted s i p), Round-last env i s p (omega arith) b (h ∙ ap some a))
      | inr x ↦ ((err x.0, refused s p), Round-refused env 0 i s p x.0 (h ∙ ap some x.1))
    ]
queue_all_from env (suc n) i s l r c e =
    let (p, b, h) = queue_first_lem env s i r c e in
    elim (submit-cases env s i p) [
      | inl a ↦
          let w : next_index i ≡ pos (i + 1) = ground arith in
          let v : IsRing (accepted s i p) = record { size = r.size; index = λ j g. ground arith } in
          let (q, m) = queue_all_from env n (i + 1) (accepted s i p) (omega arith) v c w in
          (q, Round-next env (suc n) i s p q (omega arith) b (h ∙ ap some a) m)
      | inr x ↦ ((err x.0, refused s p), Round-refused env (suc n) i s p x.0 (h ∙ ap some x.1))
    ]

-- What a call of `launch`, and so of `amdtp_stream_start`, leaves: a running stream with its ring of
-- packets queued, or an error and no context.
pub record Outcome (s : Stream) (q : Result (Unit {0}) × Stream) : Type 0 where
  pub live : q.0 ≡ ok tt → running q.1 ≡ true
  pub ring : q.0 ≡ ok tt → (length q.1.buffer ≡ queue_length) × (q.1.packet_index ≡ pos 0)
  pub count : q.0 ≡ ok tt → queued_in q.1.log ≡ queued_in s.log + queue_length
  pub interrupts : q.0 ≡ ok tt → interrupts_in q.1.log ≡ interrupts_in s.log + 3
  pub dead : (e : Errno) → q.0 ≡ err e → running q.1 ≡ false

launch_queued :
    (env : Env) (s t : Stream)
    → queue_all env queue_length (record s { packet_index = pos 0 }) ≡ some (ok tt, t)
    → length s.buffer ≡ queue_length
    → Round env queue_length 0 (record s { packet_index = pos 0 }) (ok tt, t)
    → running s ≡ true
    → (q : Result (Unit {0}) × Stream) × (launch env s ≡ some q) × Outcome s q
unfolding launch drop_context free_buffer
launch_queued env s t g l r a =
    elim (Result-cases (env.context_start t.log t.flags.empty_with_tag0)) [
      | inl v ↦ (
        (ok tt, record t { callbacked = false }),
        ground (arith, g, v.1),
        record {
          live = λ o. ground (arith, r.context);
          ring = λ o. (ap (λ (b : List Packet). length b) r.buffer ∙ l, r.index refl);
          count = λ o. omega (arith, r.count refl);
          interrupts = λ o. omega (arith, r.interrupts refl);
          dead = λ e x. cc;
        },
      )
      | inr e ↦ (
        (err e.0, drop_context (record t { callbacked = false })),
        ground (arith, g, e.1),
        record {
          live = λ o. cc;
          ring = λ o. cc;
          count = λ o. cc;
          interrupts = λ o. cc;
          dead = λ x y. refl;
        },
      )
    ]

launch_refused :
    (env : Env) (s t : Stream) (e : Errno)
    → queue_all env queue_length (record s { packet_index = pos 0 }) ≡ some (err e, t)
    → (q : Result (Unit {0}) × Stream) × (launch env s ≡ some q) × Outcome s q
unfolding launch drop_context free_buffer
launch_refused env s t e g = (
  (err e, drop_context t),
  ground (arith, g),
  record {
    live = λ o. cc;
    ring = λ o. cc;
    count = λ o. cc;
    interrupts = λ o. cc;
    dead = λ x y. refl;
  },
)

launch_lem :
    (env : Env) (s : Stream)
    → length s.buffer ≡ queue_length
    → s.context ≡ some first_callback
    → (q : Result (Unit {0}) × Stream) × (launch env s ≡ some q) × Outcome s q
launch_lem env s l c =
    let ring : IsRing (record s { packet_index = pos 0 }) = record {
      size = l;
      index = λ i e. ground arith;
    } in
    let (q, r) =
      queue_all_from env 47 0 (record s { packet_index = pos 0 }) (omega arith) ring c refl in
    by_result q r
  where
    by_result :
        (q : Result (Unit {0}) × Stream)
        → Round env queue_length 0 (record s { packet_index = pos 0 }) q
        → (q : Result (Unit {0}) × Stream) × (launch env s ≡ some q) × Outcome s q
    by_result (ok u, t) r = launch_queued env s t r.result l r (ground arith)
    by_result (err e, t) r = launch_refused env s t e r.result

-- A call that fails before anything is queued.
Outcome_early : (s t : Stream) (e : Errno) → running t ≡ false → Outcome s (err e, t)
Outcome_early s t e h = record {
  live = λ o. cc;
  ring = λ o. cc;
  count = λ o. cc;
  interrupts = λ o. cc;
  dead = λ x y. h;
}

open_lem :
    (env : Env) (s : Stream) (channel speed : ℕ)
    → running s ≡ false
    → (q : Result (Unit {0}) × Stream) × (open_context env s channel speed ≡ some q) × Outcome s q
unfolding open_context free_buffer update_node
open_lem env s channel speed h =
    elim (Result-cases (PacketsBuffer.init env.memory queue_length (get_max_payload s) 0).0) [
      | inr e ↦ ((err e.0, s), ground (arith, e.1), Outcome_early s s e.0 h)
      | inl a ↦
          elim (Result-cases
            (env.context_create s.direction channel speed (header_size s.direction))) [
              | inr e ↦ (
                (err e.0, free_buffer (record s { buffer = a.0 })),
                ground (arith, a.1, e.1),
                Outcome_early s (free_buffer (record s { buffer = a.0 })) e.0 h,
              )
              | inl u ↦
                  let t =
                    update_node env (record s { buffer = a.0; context = some first_callback }) in
                  let l = (init_lem env.memory queue_length (get_max_payload s) 0 a.0 a.1).0 in
                  let (q, g, o) = launch_lem env t l refl in
                  (
                    q,
                    ground (arith, a.1, u.1, g),
                    record {
                      live = o.live;
                      ring = o.ring;
                      count = o.count;
                      interrupts = o.interrupts;
                      dead = o.dead;
                    },
                  )
            ]
    ]

-- `amdtp_stream_start` on a stream that is not running always comes to an end, with no access out
-- of bounds: the loop that queues the first packets ends after QUEUE_LENGTH rounds at most. On
-- success the stream runs, its whole ring is queued with three interrupts, and the index is back at
-- 0; on any error the stream has no context.
pub start_lem :
    (env : Env) (s : Stream) (channel speed : ℕ)
    → running s ≡ false
    → (q : Result (Unit {0}) × Stream) × (start env s channel speed ≡ some q) × Outcome s q
unfolding start reset
start_lem env s channel speed h = elim (Bool-cases (ltb s.data_block_quadlets 1)) [
  | inl z ↦ ((err ebadfd, s), ground arith, Outcome_early s s ebadfd h)
  | inr p ↦
      let (q, g, o) = open_lem env (reset s) channel speed h in
      (
        q,
        ground (arith, g),
        record {
          live = o.live;
          ring = o.ring;
          count = o.count;
          interrupts = o.interrupts;
          dead = o.dead;
        },
      )
]
