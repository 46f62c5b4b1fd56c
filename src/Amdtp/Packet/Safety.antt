-- ===== src/Amdtp/Packet/Safety.antt =====
-- `handle_out_packet` never accesses memory outside a buffer, over any number of packets.
use snd_firewire_improve.Common.{
  ℕ, ◌+◌, ◌*◌, ◌≤◌, ◌≡◌, ◌∙◌, inl, inr, refl, sym, subst, ap, true, false, not, ◌||◌, ◌==◌, List,
  length, length-set, get_elem?, get_elem?-some, Option, some, none, Option-cases, Bool-cases,
  if◌then◌else◌, ℤ, ℤ-cases, pos, negsuc, Result, ok, err, Bool, arith,
}
use snd_firewire_improve.PacketsBuffer.{Packet}
use snd_firewire_improve.Amdtp.Types.{IsoPacket, cip_syt_no_info, Event, Env, Pcm, Stream, note}
use snd_firewire_improve.Amdtp.Rate.{calculate_data_blocks}
use snd_firewire_improve.Amdtp.Rate.Bound.{calculate_data_blocks-le}
use snd_firewire_improve.Amdtp.Pointer.{advance, update_pcm_pointers, pcm_running, pcm_abort}
use snd_firewire_improve.Amdtp.Pointer.Ring.{frames_of, IsPlaced, update_pcm_pointers_lem}
use snd_firewire_improve.Amdtp.Queue.{queue_packet, queue_out_packet, submit, iso_packet}
use snd_firewire_improve.Amdtp.Queue.Index.{
  IsRing, queue_packet_lem, submit-cases, next_index_bound,
}
use snd_firewire_improve.Amdtp.Packet.{
  fail, finish, put_packet, fill_packet, count_blocks, payload_of, out_data_blocks, send_packet,
  handle_out_packet,
}
use snd_firewire_improve.Amdtp.Packet.Ready.{HasRing, FitsPcm, IsReady, get-Room, set-Room}
use snd_firewire_improve.Amdtp.Packet.Filled.{with_midi, fill_packet-some}

calculate_data_blocks-IsReady : (s : Stream) → IsReady s → IsReady (calculate_data_blocks s).1
unfolding calculate_data_blocks
calculate_data_blocks-IsReady s r = ground (arith, r.rated, r.laid, r.ring, r.pcm_fits)

calculate_data_blocks_interval :
    (s : Stream) → (calculate_data_blocks s).1.syt_interval ≡ s.syt_interval
unfolding calculate_data_blocks
calculate_data_blocks_interval s = ground arith

out_data_blocks-IsReady :
    (s : Stream) (syt : ℕ)
    → IsReady s
    → let o = out_data_blocks s syt in IsReady o.1 × (o.0 ≤ o.1.syt_interval)
unfolding out_data_blocks
out_data_blocks-IsReady s syt r =
    elim (Bool-cases (not s.flags.blocking || not (syt == cip_syt_no_info))) [
      | inl y ↦ rw y (
        calculate_data_blocks-IsReady s r,
        omega (
          arith,
          calculate_data_blocks-le s r.rated.interval_of r.rated.state_of,
          calculate_data_blocks_interval s,
        ),
      )
      | inr y ↦ rw y (r, omega arith)
    ]

put-IsReady :
    (s : Stream) (i : ℕ) (p : Packet) (quadlets : List ℕ) (n : ℕ) (used : ℕ → ℕ) (log : List Event)
    → IsReady s
    → get_elem? s.buffer i ≡ some p
    → length quadlets ≡ length p.quadlets
    → IsReady (count_blocks (put_packet (with_midi s used log) i p quadlets) n)
put-IsReady s i p quadlets n used log r e l =
    let q = record p { quadlets = quadlets } in
    let room = get-Room _ s.buffer i p r.ring.room e in
    record {
      ring = record {
        size = length-set s.buffer i q ∙ r.ring.size;
        index = r.ring.index;
        room = set-Room _ s.buffer i q r.ring.room (omega arith);
      };
      rated = r.rated;
      laid = r.laid;
      pcm_fits = r.pcm_fits;
    }

submit-IsReady :
    (env : Env) (s : Stream) (i : ℕ) (p : IsoPacket) → IsReady s → IsReady (submit env s i p).1
submit-IsReady env s i p r = elim (submit-cases env s i p) [
  | inl a ↦
      subst (λ x. IsReady x.1) (sym a)
        (record {
          ring = record { size = r.ring.size; index = next_index_bound i; room = r.ring.room };
          rated = r.rated;
          laid = r.laid;
          pcm_fits = r.pcm_fits;
        })
  | inr e ↦
      subst (λ x. IsReady x.1) (sym e.1)
        (record { ring = r.ring; rated = r.rated; laid = r.laid; pcm_fits = r.pcm_fits })
]

submit_interval :
    (env : Env) (s : Stream) (i : ℕ) (p : IsoPacket)
    → (submit env s i p).1.syt_interval ≡ s.syt_interval
unfolding submit
submit_interval env s i p = ground arith

unopened :
    (env : Env) (s : Stream) (payload : ℕ)
    → s.context ≡ none
    → queue_packet env s 0 payload false ≡ some (ok tt, s)
unfolding queue_packet
unopened env s payload n = ground (arith, n)

queued-IsReady :
    (env : Env) (s : Stream) (payload i : ℕ)
    → IsReady s
    → s.packet_index ≡ pos i
    → (a : Result (Unit {0})) × (t : Stream) × (queue_out_packet env s payload false ≡ some (a, t))
      × IsReady t
      × (t.syt_interval ≡ s.syt_interval)
unfolding queue_out_packet
queued-IsReady env s payload i r e = elim (Option-cases s.context) [
  | inl n ↦ (ok tt, s, unopened env s payload n, r, refl)
  | inr c ↦
      let ring : IsRing s = record { size = r.ring.size; index = r.ring.index } in
      let (p, q) = queue_packet_lem env s 0 payload false i ring c.1 e in
      let iso = iso_packet i 0 payload false p.offset in
      (
        (submit env s i iso).0,
        (submit env s i iso).1,
        q,
        submit-IsReady env s i iso r,
        submit_interval env s i iso,
      )
]

-- A note in the log, written or not.
noted-IsReady :
    (b : Bool) (s : Stream) (e : Event) → IsReady s → IsReady (if b then note e s else s)
noted-IsReady true s e r = record {
  ring = r.ring;
  rated = r.rated;
  laid = r.laid;
  pcm_fits = r.pcm_fits;
}
noted-IsReady false s e r = r

fail-IsReady : (s : Stream) → IsReady s → IsReady (fail s)
unfolding fail pcm_abort
fail-IsReady s r =
    let t = record s { packet_index = negsuc 0 } in
    let ring : HasRing t.buffer t.packet_index t.syt_interval t.data_block_quadlets = record {
      size = r.ring.size;
      index = λ i e. cc;
      room = r.ring.room;
    } in
    noted-IsReady (pcm_running t) t Event.stop_xrun
      (record { ring = ring; rated = r.rated; laid = r.laid; pcm_fits = r.pcm_fits })

abbrev with_pointers : Stream → ℕ → ℕ → Bool → List Event → Stream
with_pointers s buffer period flush log = record s {
  pcm_buffer_pointer = buffer;
  pcm_period_pointer = period;
  pointer_flush = flush;
  log = log;
}

update_shape :
    (s : Stream) (pcm : Pcm) (n : ℕ)
    → let t = update_pcm_pointers s pcm n in
      t ≡ with_pointers s t.pcm_buffer_pointer t.pcm_period_pointer t.pointer_flush t.log
unfolding update_pcm_pointers advance
update_shape s pcm n = ground arith

-- The pointers after a packet, and nothing else that readiness rests on.
update-IsReady :
    (s : Stream) (pcm : Pcm) (n : ℕ)
    → IsReady s
    → s.pcm ≡ some pcm
    → n ≤ s.syt_interval
    → IsReady (update_pcm_pointers s pcm n)
update-IsReady s pcm n r e h =
    let f = r.pcm_fits pcm e in
    let place : IsPlaced s pcm = record {
      buffer = f.pointer_inside;
      period = f.period_inside;
      fits = f.fits;
      word = f.word;
    } in
    let moved = update_pcm_pointers_lem s pcm n place (two f.packet h) in
    let t = update_pcm_pointers s pcm n in
    let fits : FitsPcm pcm s.pcm_channels t.pcm_buffer_pointer t.pcm_period_pointer s.syt_interval =
      record {
        frame = f.frame;
        pointer_inside = moved.0.buffer;
        period_inside = moved.0.period;
        fits = f.fits;
        word = f.word;
        area = f.area;
        packet = f.packet;
      } in
    subst IsReady (sym (update_shape s pcm n)) (record {
      ring = r.ring;
      rated = r.rated;
      laid = r.laid;
      pcm_fits = λ pcm' e'.
          let same : pcm ≡ pcm' = cc in
          subst
            (λ (x : Pcm).
              FitsPcm x s.pcm_channels t.pcm_buffer_pointer t.pcm_period_pointer s.syt_interval)
            same fits;
    })
  where
    two :
        2 * s.syt_interval ≤ pcm.period_size → n ≤ s.syt_interval → frames_of s n ≤ pcm.period_size
    two p l = ground (arith, p, l)

finish-IsReady :
    (a : Result (Unit {0})) (s : Stream) (o : Option Pcm) (n : ℕ)
    → IsReady s
    → s.pcm ≡ o
    → n ≤ s.syt_interval
    → IsReady (finish a s o n)
unfolding finish
finish-IsReady (err e) s o n r p h = fail-IsReady s r
finish-IsReady (ok u) s none n r p h = r
finish-IsReady (ok u) s (some pcm) n r p h = update-IsReady s pcm n r p h

out_data_blocks_index :
    (s : Stream) (syt : ℕ) → (out_data_blocks s syt).1.packet_index ≡ s.packet_index
unfolding out_data_blocks calculate_data_blocks
out_data_blocks_index s syt = ground arith

handle_at :
    (env : Env) (s s1 u t : Stream) (syt i n : ℕ) (p : Packet) (out : List ℕ)
    (a : Result (Unit {0}))
    → s.packet_index ≡ pos i
    → out_data_blocks s syt ≡ (n, s1)
    → get_elem? s1.buffer i ≡ some p
    → fill_packet env s1 syt n p.quadlets ≡ some (u, out)
    → (let v = count_blocks (put_packet u i p out) n in
        queue_out_packet env v (payload_of v n) false ≡ some (a, t))
    → handle_out_packet env s syt ≡ some (finish a t t.pcm n)
unfolding handle_out_packet send_packet
handle_at env s s1 u t syt i n p out a e o g f q =
    let there : handle_out_packet env s syt ≡ send_packet env s syt i =
      ap (λ (z : ℤ). elim z [ negsuc i ↦ some s | pos i ↦ send_packet env s syt i ]) e in
    there ∙ rw o (rw g (rw f (rw q refl)))

handle_at-IsReady :
    (env : Env) (s : Stream) (syt i : ℕ)
    → IsReady s
    → s.packet_index ≡ pos i
    → (t : Stream) × (handle_out_packet env s syt ≡ some t) × IsReady t
handle_at-IsReady env s syt i r e =
    let n = (out_data_blocks s syt).0 in
    let s1 = (out_data_blocks s syt).1 in
    let (r1, h) = out_data_blocks-IsReady s syt r in
    let at : s1.packet_index ≡ pos i = out_data_blocks_index s syt ∙ e in
    let inside = r1.ring.index i at in
    let (p, g) = get_elem?-some s1.buffer i (omega (arith, r1.ring.size)) in
    let room = get-Room _ s1.buffer i p r1.ring.room g in
    let (used, log, out, f, l) =
      fill_packet-some env s1 syt n p.quadlets r1 h
        (fits n s1.syt_interval s1.data_block_quadlets (length p.quadlets) h room) in
    let s2 = count_blocks (put_packet (with_midi s1 used log) i p out) n in
    let r2 = put-IsReady s1 i p out n used log r1 g l in
    let (a, t, q, rt, k) = queued-IsReady env s2 (payload_of s2 n) i r2 at in
    (
      finish a t t.pcm n,
      handle_at env s s1 (with_midi s1 used log) t syt i n p out a e refl g f q,
      finish-IsReady a t t.pcm n rt refl (omega (arith, h, k)),
    )
  where
    fits : (n m k l : ℕ) → n ≤ m → 2 + m * k ≤ l → 2 + n * k ≤ l
    fits n m k l a b = grind arith

-- A stream that is ready to send handles a packet without an access outside a buffer and without
-- a call through a null pointer, on every branch, whatever the answers of the bus are, and is
-- ready for the next packet.
pub handle_out_packet-IsReady :
    (env : Env) (s : Stream) (syt : ℕ)
    → IsReady s
    → (t : Stream) × (handle_out_packet env s syt ≡ some t) × IsReady t
unfolding handle_out_packet
handle_out_packet-IsReady env s syt r = elim (ℤ-cases s.packet_index) [
  | inl p ↦ handle_at-IsReady env s syt p.0 r p.1
  | inr n ↦
      (s, ap (λ (z : ℤ). elim z [ negsuc i ↦ some s | pos i ↦ send_packet env s syt i ]) n.1, r)
]
