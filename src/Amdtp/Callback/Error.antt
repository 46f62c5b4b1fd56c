-- ===== src/Amdtp/Callback/Error.antt =====
-- What the callbacks do with a stream that has failed.
use snd_firewire_improve.Common.{
  ℕ, zero, suc, ◌+◌, ◌-◌, ◌^◌, ◌≡◌, ◌∙◌, inl, inr, refl, sym, ap, List, [], ◌∷◌, ◌++◌, Option, some,
  ◌>>=◌, >>=-eq-some, Bool-cases, ℤ, pos, negsuc, is_negative, true, false, Bool, arith,
}
use snd_firewire_improve.Amdtp.Types.{u32, queue_length, Event, Env, Stream, note}
use snd_firewire_improve.Amdtp.Syt.{calculate_syt, next_syt_offset}
use snd_firewire_improve.Amdtp.Packet.{send_packet, handle_out_packet, fail}
use snd_firewire_improve.Amdtp.Pointer.{pcm_abort}
use snd_firewire_improve.Amdtp.Callback.{
  out_packets, out_stream_callback, in_packet, in_packets, in_finish, in_stream_callback,
}

-- What a failed stream keeps: nothing is queued, sampled or reported.
pub record StaysFailed (s t : Stream) : Type 0 where
  pub index : t.packet_index ≡ s.packet_index
  pub log : t.log ≡ s.log
  pub counter : t.data_block_counter ≡ s.data_block_counter
  pub pointer : t.pcm_buffer_pointer ≡ s.pcm_buffer_pointer

calculate_syt-StaysFailed : (s : Stream) (cycle : ℕ) → StaysFailed s (calculate_syt s cycle).1
unfolding calculate_syt next_syt_offset
calculate_syt-StaysFailed s cycle = ground arith

failed_out :
    (env : Env) (s : Stream) (syt i : ℕ)
    → s.packet_index ≡ negsuc i
    → handle_out_packet env s syt ≡ some s
unfolding handle_out_packet
failed_out env s syt i e =
    ap (λ (z : ℤ). elim z [ negsuc j ↦ some s | pos j ↦ send_packet env s syt j ]) e

out_packets-StaysFailed :
    (env : Env) (n : ℕ) (s : Stream) (cycle i : ℕ)
    → s.packet_index ≡ negsuc i
    → (t : Stream) × (out_packets env n s cycle ≡ some t) × StaysFailed s t
unfolding out_packets
out_packets-StaysFailed env zero s cycle i e = (s, refl, ground arith)
out_packets-StaysFailed env (suc n) s cycle i e =
    let c = u32 (cycle + 1) in
    let u = (calculate_syt s c).1 in
    let k = calculate_syt-StaysFailed s c in
    let f : u.packet_index ≡ negsuc i = k.index ∙ e in
    let (t, g, m) = out_packets-StaysFailed env n u c i f in
    (t, rw (failed_out env u (calculate_syt s c).0 i f) g, ground (arith, k, m))

-- After an error the callback of an out-stream still runs to its end for every interrupt, but it
-- queues no packet, takes no sample and reports nothing: only the time stamps go on.
pub out_stream_callback_failed :
    (env : Env) (s : Stream) (cycle packets i : ℕ)
    → s.packet_index ≡ negsuc i
    → (t : Stream) × (out_stream_callback env s cycle packets ≡ some (note Event.queue_flush t))
      × StaysFailed s t
unfolding out_stream_callback
out_stream_callback_failed env s cycle packets i e =
    let (t, g, m) =
      out_packets-StaysFailed env packets s (u32 (cycle + (queue_length + 2 ^ 32 - packets))) i e in
    (t, rw g refl, m)

in_packets_failed :
    (env : Env) (s slave : Stream) (headers : List ℕ) (i : ℕ)
    → s.packet_index ≡ negsuc i
    → in_packets env s slave headers ≡ some (s, slave)
unfolding in_packets
in_packets_failed env s slave [] i e = refl
in_packets_failed env s slave (h ∷ hs) i e =
    ap
      (λ (b : Bool). elim b [
        | true ↦ some (s, slave)
        | false ↦ in_packet env s slave h >>= λ r. in_packets env r.0 r.1 hs
      ])
      (ap is_negative e)

in_finish_failed :
    (s slave : Stream) (i : ℕ)
    → s.packet_index ≡ negsuc i
    → s.sync_slave ≡ true
    → in_finish s slave ≡ (s, fail slave)
unfolding in_finish fail
in_finish_failed s slave i e y = ground (arith, e, y)

in_packets-stopped :
    (env : Env) (headers more : List ℕ) (s slave t slave' : Stream) (i : ℕ)
    → in_packets env s slave headers ≡ some (t, slave')
    → t.packet_index ≡ negsuc i
    → in_packets env s slave (headers ++ more) ≡ some (t, slave')
unfolding in_packets
in_packets-stopped env [] more s slave t slave' i e f =
    let same : (s, slave) ≡ (t, slave') = cc in
    let index : s.packet_index ≡ negsuc i =
      ap (λ (z : Stream × Stream). z.0.packet_index) same ∙ f in
    in_packets_failed env s slave more i index ∙ e
in_packets-stopped env (h ∷ hs) more s slave t slave' i e f =
    let next : List ℕ → Bool → Option (Stream × Stream) = λ l b. elim b [
      | true ↦ some (s, slave)
      | false ↦ in_packet env s slave h >>= λ r. in_packets env r.0 r.1 l
    ] in
    elim (Bool-cases (is_negative s.packet_index)) [
      | inl y ↦ ap (next (hs ++ more)) y ∙ sym (ap (next hs) y) ∙ e
      | inr n ↦
          let (r, g, j) = >>=-eq-some (in_packet env s slave h) _ (sym (ap (next hs) n) ∙ e) in
          ap (next (hs ++ more)) n ∙ rw g (in_packets-stopped env hs more r.0 r.1 t slave' i j f)
    ]

failed_callback :
    (env : Env) (t slave : Stream) (later : List ℕ) (i : ℕ)
    → t.packet_index ≡ negsuc i
    → t.sync_slave ≡ true
    → in_stream_callback env t slave later ≡ some (t, fail slave)
unfolding in_stream_callback
failed_callback env t slave later i f y =
    rw (in_packets_failed env t slave later i f) (rw (in_finish_failed t slave i f y) refl)

failed_index : (s : Stream) → (fail s).packet_index ≡ negsuc 0
unfolding fail pcm_abort
failed_index s = ground arith

-- A packet that makes a master fail, anywhere among the packets of an interrupt, stops the master and
-- its slave: the packets behind it change nothing, the master is left as that packet left it and the
-- slave with a negative index. In later interrupts no packet of the master is handled, both stay
-- stopped, and the slave queues no packet. The packets up to that one are handled without a fault.
pub in_stream_callback_failed :
    (env : Env) (s slave t slave' : Stream) (headers more : List ℕ) (i : ℕ)
    → in_packets env s slave headers ≡ some (t, slave')
    → t.packet_index ≡ negsuc i
    → t.sync_slave ≡ true
    → (u : Stream) × (in_stream_callback env s slave (headers ++ more) ≡ some (t, u))
      × (u.packet_index ≡ negsuc 0)
      × ((syt : ℕ) → handle_out_packet env u syt ≡ some u)
      × ((later : List ℕ)
          → (v : Stream) × (in_stream_callback env t u later ≡ some (t, v))
            × (v.packet_index ≡ negsuc 0))
unfolding in_stream_callback
in_stream_callback_failed env s slave t slave' headers more i e f y =
    let stopped = in_packets-stopped env headers more s slave t slave' i e f in
    (
      fail slave',
      rw stopped (rw (in_finish_failed t slave' i f y) refl),
      failed_index slave',
      λ syt. failed_out env (fail slave') syt 0 (failed_index slave'),
      λ later. (
        fail (fail slave'),
        failed_callback env t (fail slave') later i f y,
        failed_index (fail slave'),
      ),
    )
