-- ===== src/Fireworks/Stream/Start.antt =====
-- A stream and its connection start and stop together.
use snd_firewire_improve.Common.{
  ℕ, ◌≡◌, ◌⊎◌, ◌∙◌, inl, inr, refl, sym, subst, Bool-cases, true, false, List, some, ◌>>=◌,
  >>=-eq-some, Result, ok, err, Errno, etimedout, arith,
}
use snd_firewire_improve.Bus.{Event}
use snd_firewire_improve.Bus.Cmp.{Connection, establish, break_connection, Outcome}
use snd_firewire_improve.Bus.Cmp.Connect.{
  IsConnected, IsEstablished, establish-IsEstablished, break_connection-IsConnected,
}
use snd_firewire_improve.Amdtp.Types.{Stream}
use snd_firewire_improve.Amdtp.Pointer.{running, pcm_abort}
use snd_firewire_improve.Amdtp.Queue.{get_max_payload}
use snd_firewire_improve.Amdtp.Config.{set_parameters, set_rate}
use snd_firewire_improve.Amdtp.Control.{start, stop, free_buffer}
use snd_firewire_improve.Amdtp.Control.Start.{start_lem}
use snd_firewire_improve.Fireworks.Stream.{
  Side, SideOutcome, Host, stop_stream, after_start, after_establish, start_side,
}

-- A stream that does not run, with a connection that is not established.
pub record IsStopped (side : Side) (log : List Event) : Type 0 where
  pub consistent : IsConnected side.conn log
  pub idle : running side.stream ≡ false
  pub unconnected : side.conn.connected ≡ false

-- What a start ends with: a stream that runs and has had its first callback, on an established
-- connection; or an error with neither.
pub record IsStarted (o : SideOutcome) : Type 0 where
  pub consistent : IsConnected o.1.conn o.2
  pub outcome :
      ((o.0 ≡ ok tt)
        × (running o.1.stream ≡ true)
        × (o.1.stream.callbacked ≡ true)
        × (o.1.conn.connected ≡ true))
      ⊎ ((e : Errno) × (o.0 ≡ err e) × (running o.1.stream ≡ false) × (o.1.conn.connected ≡ false))

pub running-stop : (s : Stream) → running (stop (pcm_abort s)) ≡ false
unfolding stop pcm_abort free_buffer
running-stop s = ground arith

pub running-set_parameters :
    (s : Stream) (rate pcm_channels midi_ports : ℕ)
    → running (set_parameters s rate pcm_channels midi_ports) ≡ running s
unfolding set_parameters set_rate
running-set_parameters s rate pcm_channels midi_ports = ground arith

-- A stop leaves neither.
pub stop_stream-IsStopped :
    (host : Host) (side : Side) (log : List Event) {o : Side × List Event}
    → IsConnected side.conn log
    → stop_stream host side log ≡ some o
    → IsStopped o.0 o.1
unfolding stop_stream
stop_stream-IsStopped host side log {o = o} i e =
    let (c, f, g) = >>=-eq-some (break_connection host.fuel host.core side.conn log) _ e in
    let (b, n, a) = break_connection-IsConnected host.fuel host.core side.conn log c i f in
    let t : Side × List Event =
      (record { stream = stop (pcm_abort side.stream); conn = c.0 }, c.1) in
    let same : t ≡ o = cc in
    subst (λ (x : Side × List Event). IsStopped x.0 x.1) same
      (record { consistent = b; idle = running-stop side.stream; unconnected = n })

-- A failed start that was stopped.
stopped_lem :
    (host : Host) (side : Side) (log : List Event) (x : Errno) {o : SideOutcome}
    → IsConnected side.conn log
    → (stop_stream host side log >>= λ t. some (err x, t.0, t.1)) ≡ some o
    → IsStarted o
stopped_lem host side log x {o = o} i e =
    let (t, f, g) = >>=-eq-some (stop_stream host side log) _ e in
    let s = stop_stream-IsStopped host side log i f in
    let u : SideOutcome = (err x, t.0, t.1) in
    let same : u ≡ o = cc in
    subst IsStarted same
      (record { consistent = s.consistent; outcome = inr (x, refl, s.idle, s.unconnected) })

after_start-IsStarted :
    (host : Host) (c : Connection) (log : List Event) (q : Result (Unit {0}) × Stream)
    {o : SideOutcome}
    → ((s : Stream) → running (host.wait s) ≡ running s)
    → IsConnected c log
    → c.connected ≡ true
    → (q.0 ≡ ok tt → running q.1 ≡ true)
    → after_start host c log q ≡ some o
    → IsStarted o
unfolding after_start
after_start-IsStarted host c log (err x, s) w i n live e =
    stopped_lem host (record { stream = s; conn = c }) log x i e
after_start-IsStarted host c log (ok u, s) {o = o} w i n live e =
    let side : Side = record { stream = host.wait s; conn = c } in
    elim (Bool-cases (host.wait s).callbacked) [
      | inl y ↦
          let t : SideOutcome = (ok tt, side, log) in
          let e' : some t ≡ some o = simp y at e in
          let same : t ≡ o = cc in
          subst IsStarted same
            (record { consistent = i; outcome = inl (refl, w s ∙ live refl, y, n) })
      | inr m ↦ stopped_lem host side log etimedout i (simp m at e)
    ]

after_establish-IsStarted :
    (host : Host) (s : Stream) (c : Outcome) {o : SideOutcome}
    → ((s : Stream) → running (host.wait s) ≡ running s)
    → running s ≡ false
    → IsEstablished c
    → after_establish host s c ≡ some o
    → IsStarted o
unfolding after_establish
after_establish-IsStarted host s (err x, c, log) {o = o} w r i e =
    let t : SideOutcome = (err x, record { stream = s; conn = c }, log) in
    let same : t ≡ o = cc in
    elim i.outcome [
      | inl y ↦ (let no = y.0 in absurd cc)
      | inr y ↦
          subst IsStarted same
            (record { consistent = i.consistent; outcome = inr (x, refl, r, y.2) })
    ]
after_establish-IsStarted host s (ok u, c, log) w r i e =
    let (q, f, started) = start_lem host.env s c.resources.channel c.speed r in
    elim i.outcome [
      | inl y ↦
          let (q', f', g) = >>=-eq-some (start host.env s c.resources.channel c.speed) _ e in
          let same : q ≡ q' = some_path (sym f ∙ f') in
          after_start-IsStarted host c log q' w i.consistent y.1
            (subst (λ (p : Result (Unit {0}) × Stream). p.0 ≡ ok tt → running p.1 ≡ true) same
              started.live)
            g
      | inr y ↦ (let no = y.1 in absurd cc)
    ]
  where
    some_path : {A : Type 0} {a b : A} → some a ≡ some b → a ≡ b
    some_path e = cc

-- Starting a stream that does not run, on a connection that is not established, has no resources
-- allocated and agrees with the manager's last call, where the wait for the first callback changes
-- nothing about whether a stream runs: if the start ends without an error, the stream runs, its
-- callback has been called, and the connection is established with its resources; and if it ends
-- with an error, whichever of its steps failed, the stream does not run, the connection is not
-- established and none of its resources is allocated.
pub start_side-IsStarted :
    (host : Host) (side : Side) (log : List Event) (rate pcm_channels midi_ports : ℕ)
    {o : SideOutcome}
    → ((s : Stream) → running (host.wait s) ≡ running s)
    → IsStopped side log
    → start_side host side log rate pcm_channels midi_ports ≡ some o
    → IsStarted o
unfolding start_side
start_side-IsStarted host side log rate pcm_channels midi_ports w i e =
    let s = set_parameters side.stream rate pcm_channels midi_ports in
    let idle = running-set_parameters side.stream rate pcm_channels midi_ports ∙ i.idle in
    let (c, f, g) =
      >>=-eq-some (establish host.fuel host.core side.conn log (get_max_payload s)) _ e in
    after_establish-IsStarted host s c w idle
      (establish-IsEstablished host.fuel host.core side.conn log (get_max_payload s) c i.consistent
        i.unconnected f)
      g
