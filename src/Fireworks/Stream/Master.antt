-- ===== src/Fireworks/Stream/Master.antt =====
-- The starts of the master and the slave.
use snd_firewire_improve.Common.{
  ℕ, ◌≡◌, ◌⊎◌, ◌∙◌, inl, inr, refl, sym, ap, subst, Bool-cases, true, false, not, ◌&&◌, ltb, List,
  Option, some, ◌>>=◌, >>=-eq-some, Result, ok, err, arith,
}
use snd_firewire_improve.Bus.{Event}
use snd_firewire_improve.Amdtp.Types.{Stream}
use snd_firewire_improve.Amdtp.Pointer.{running}
use snd_firewire_improve.Amdtp.Config.{set_sync}
use snd_firewire_improve.Fireworks.Command.{snd_efw_command_set_sampling_rate}
use snd_firewire_improve.Fireworks.Stream.{
  Side, Host, Efw, Duplex, and_then, start_stream, start_rated, synchronised, slave_if_needed,
  freq_table, modes, mode_from, start_slave, slave_started, start_master, start_needed, stop_tx,
}
use snd_firewire_improve.Fireworks.Stream.Live.{IsLive, some_path, start_in_mode-IsLive}

-- The next step was taken where the whole ended well.
pub and_then-ok :
    (d : Duplex) (next : Efw → Option Duplex) {r : Duplex}
    → and_then d next ≡ some r
    → r.0 ≡ ok tt
    → (d.0 ≡ ok tt) × (next d.1 ≡ some r)
and_then-ok (ok u, efw) next e k = (refl, e)
and_then-ok (err x, efw) next {r = r} e k =
    let t : Duplex = (err x, efw) in
    let no : t.0 ≡ r.0 = ap (λ (z : Duplex). z.0) (some_path e) in absurd cc

-- The channels of each mode and the MIDI ports of the master.
abbrev pub settings : Efw → List ℕ × ℕ
settings efw = (efw.pcm_capture_channels, efw.midi_out_ports)

-- The master after a start: it runs and its callback has been called, since it did not run, the
-- device took the rate, and the master was started at it.
pub record IsRestarted (host : Host) (set : List ℕ × ℕ) (rate : ℕ) (d : Duplex) : Type 0 where
  pub live : IsLive d.1.tx.stream
  pub told :
      (n : ℕ) × (m : ℕ) × (snd_efw_command_set_sampling_rate host.fuel host.port n rate
        ≡ some (ok tt, m))
  pub master : Side
  pub stopped : running master.stream ≡ false
  pub started :
      (log : List Event) × (log' : List Event) × (start_stream host master log rate set.0 set.1
        ≡ some (ok tt, d.1.tx, log'))

start_rated-started :
    (host : Host) (rate : ℕ) (efw : Efw) {d : Duplex}
    → ((s : Stream) → running (host.wait s) ≡ running s)
    → running efw.tx.stream ≡ false
    → start_rated host rate efw ≡ some d
    → d.0 ≡ ok tt
    → IsLive d.1.tx.stream
      × (log' : List Event) × (start_stream host efw.tx efw.log rate efw.pcm_capture_channels
            efw.midi_out_ports
          ≡ some (ok tt, d.1.tx, log'))
unfolding start_rated start_stream
start_rated-started host rate efw {d = d} w i e k =
    let (o, l, m) =
      >>=-eq-some
        (start_stream host efw.tx efw.log rate efw.pcm_capture_channels efw.midi_out_ports) _ e in
    let same : (o.0, record efw { tx = o.1; log = o.2 }) ≡ d = some_path m in
    let good : o.0 ≡ ok tt = ap (λ (z : Duplex). z.0) same ∙ k in
    let live =
      start_in_mode-IsLive host efw.tx efw.log rate efw.pcm_capture_channels efw.midi_out_ports
        (mode_from freq_table modes rate) w i l good in
    let tx : o.1 ≡ d.1.tx = ap (λ (z : Duplex). z.1.tx) same in
    (
      subst (λ (z : Side). IsLive z.stream) tx live,
      o.2,
      l
          ∙ ap (λ (r : Result (Unit {0})). some (r, o.1, o.2)) good
          ∙ ap (λ (z : Side). some (ok tt, z, o.2)) tx,
    )

start_master-IsRestarted :
    (host : Host) (rate : ℕ) (efw : Efw) {d : Duplex}
    → ((s : Stream) → running (host.wait s) ≡ running s)
    → running efw.tx.stream ≡ false
    → start_master host rate efw ≡ some d
    → d.0 ≡ ok tt
    → IsRestarted host (settings efw) rate d
unfolding start_master synchronised set_sync
start_master-IsRestarted host rate efw w i e k =
    let (r, f, g) =
      >>=-eq-some (snd_efw_command_set_sampling_rate host.fuel host.port efw.seqnum rate) _ e in
    let next : Efw = record (synchronised efw) { seqnum = r.1 } in
    let (a, b) = and_then-ok (r.0, next) (start_rated host rate) g k in
    let (live, log', s) = start_rated-started host rate next w i b k in
    record {
      live = live;
      told = (efw.seqnum, r.1, f ∙ ap (λ (x : Result (Unit {0})). some (x, r.1)) a);
      master = next.tx;
      stopped = i;
      started = (next.log, log', s);
    }

slave_started-tx :
    (host : Host) (d : Duplex) {r : Duplex} → slave_started host d ≡ some r → r.0 ≡ ok tt → d ≡ r
unfolding slave_started
slave_started-tx host (ok u, efw) e k = some_path e
slave_started-tx host (err x, efw) {r = r} e k =
    let (t, f, g) = >>=-eq-some (stop_tx host efw) _ e in
    let u : Duplex = (err x, t) in
    let no : u.0 ≡ r.0 = ap (λ (z : Duplex). z.0) (some_path g) in absurd cc

start_slave-tx :
    (host : Host) (rate : ℕ) (efw : Efw) {d : Duplex}
    → start_slave host rate efw ≡ some d
    → d.0 ≡ ok tt
    → efw.tx ≡ d.1.tx
unfolding start_slave
start_slave-tx host rate efw e k =
    let (o, f, g) =
      >>=-eq-some
        (start_stream host efw.rx efw.log rate efw.pcm_playback_channels efw.midi_in_ports) _ e in
    ap (λ (z : Duplex). z.1.tx) (slave_started-tx host _ g k)

slave_if_needed-tx :
    (host : Host) (rate : ℕ) (efw : Efw) {d : Duplex}
    → slave_if_needed host rate efw ≡ some d
    → d.0 ≡ ok tt
    → efw.tx ≡ d.1.tx
unfolding slave_if_needed
slave_if_needed-tx host rate efw {d = d} e k =
    elim (Bool-cases (ltb 0 efw.playback_substreams && not (running efw.rx.stream))) [
      | inl y ↦ start_slave-tx host rate efw (simp y at e) k
      | inr n ↦
          let t : Duplex = (ok tt, efw) in
          let e' : some t ≡ some d = simp n at e in ap (λ (z : Duplex). z.1.tx) (some_path e')
    ]

move-IsRestarted :
    (host : Host) (set : List ℕ × ℕ) (rate : ℕ) (m d : Duplex)
    → m.1.tx ≡ d.1.tx
    → IsRestarted host set rate m
    → IsRestarted host set rate d
move-IsRestarted host set rate m d e r = record {
  live = subst (λ (z : Side). IsLive z.stream) e r.live;
  told = r.told;
  master = r.master;
  stopped = r.stopped;
  started =
      let (log, log', s) = r.started in (log, log', s ∙ ap (λ (z : Side). some (ok tt, z, log')) e);
}

pub start_needed-master :
    (host : Host) (rate : ℕ) (efw : Efw) {d : Duplex}
    → ((s : Stream) → running (host.wait s) ≡ running s)
    → start_needed host rate efw ≡ some d
    → d.0 ≡ ok tt
    → ((running efw.tx.stream ≡ true) × (d.1.tx ≡ efw.tx)) ⊎ IsRestarted host (settings efw) rate d
unfolding start_needed
start_needed-master host rate efw {d = d} w e k = elim (Bool-cases (running efw.tx.stream)) [
  | inl y ↦
      let e' : slave_if_needed host rate efw ≡ some d = ground (arith, y, e) in
      inl (y, sym (slave_if_needed-tx host rate efw e' k))
  | inr n ↦
      let e' : (start_master host rate efw >>= λ m. and_then m (slave_if_needed host rate))
          ≡ some d =
        ground (arith, n, e) in
      let (m, f, g) = >>=-eq-some (start_master host rate efw) _ e' in
      let (a, b) = and_then-ok m (slave_if_needed host rate) g k in
      inr (
        move-IsRestarted host (settings efw) rate m d (slave_if_needed-tx host rate m.1 b k)
          (start_master-IsRestarted host rate efw w n f a))
]
