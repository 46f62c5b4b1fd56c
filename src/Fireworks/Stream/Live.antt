-- ===== src/Fireworks/Stream/Live.antt =====
-- One stream, started without an error: it runs and has had its first callback.
use snd_firewire_improve.Common.{
  ℕ, ◌≡◌, ◌∙◌, inl, inr, refl, sym, ap, subst, Bool-cases, true, false, List, Option, some, none,
  >>=-eq-some, get_elem?, Result, ok, err, einval, etimedout,
}
use snd_firewire_improve.Bus.{Event}
use snd_firewire_improve.Bus.Cmp.{Connection, establish, Outcome}
use snd_firewire_improve.Amdtp.Types.{Stream}
use snd_firewire_improve.Amdtp.Pointer.{running}
use snd_firewire_improve.Amdtp.Queue.{get_max_payload}
use snd_firewire_improve.Amdtp.Config.{set_parameters}
use snd_firewire_improve.Amdtp.Control.{start}
use snd_firewire_improve.Amdtp.Control.Start.{start_lem}
use snd_firewire_improve.Fireworks.Stream.{
  Side, SideOutcome, Host, stop_stream, after_start, after_establish, start_side, start_in_mode,
}
use snd_firewire_improve.Fireworks.Stream.Start.{running-set_parameters}

-- It runs, and its callback has been called.
abbrev pub IsLive : Stream → Type 0
IsLive s = (running s ≡ true) × (s.callbacked ≡ true)

-- A start that ends well ends with a stream that runs.
after_start-IsLive :
    (host : Host) (c : Connection) (log : List Event) (q : Result (Unit {0}) × Stream)
    {o : SideOutcome}
    → ((s : Stream) → running (host.wait s) ≡ running s)
    → (q.0 ≡ ok tt → running q.1 ≡ true)
    → after_start host c log q ≡ some o
    → o.0 ≡ ok tt
    → IsLive o.1.stream
unfolding after_start
after_start-IsLive host c log (err x, s) {o = o} w live e k =
    let (t, f, g) = >>=-eq-some (stop_stream host (record { stream = s; conn = c }) log) _ e in
    let u : SideOutcome = (err x, t.0, t.1) in
    let same : u ≡ o = cc in let no : u.0 ≡ o.0 = ap (λ (z : SideOutcome). z.0) same in absurd cc
after_start-IsLive host c log (ok u, s) {o = o} w live e k =
    let side : Side = record { stream = host.wait s; conn = c } in
    elim (Bool-cases (host.wait s).callbacked) [
      | inl y ↦
          let t : SideOutcome = (ok tt, side, log) in
          let e' : some t ≡ some o = simp y at e in
          let same : t ≡ o = cc in
          subst (λ (z : SideOutcome). IsLive z.1.stream) same (w s ∙ live refl, y)
      | inr m ↦
          let e' = simp m at e in
          let (t, f, g) = >>=-eq-some (stop_stream host side log) _ e' in
          let v : SideOutcome = (err etimedout, t.0, t.1) in
          let same : v ≡ o = cc in
          let no : v.0 ≡ o.0 = ap (λ (z : SideOutcome). z.0) same in absurd cc
    ]

pub some_path {ℓ} : {A : Type ℓ} {a b : A} → some a ≡ some b → a ≡ b
some_path e = cc

established-IsLive :
    (host : Host) (s : Stream) (c : Outcome) {o : SideOutcome}
    → ((s : Stream) → running (host.wait s) ≡ running s)
    → running s ≡ false
    → after_establish host s c ≡ some o
    → o.0 ≡ ok tt
    → IsLive o.1.stream
unfolding after_establish
established-IsLive host s (err x, c, log) {o = o} w r e k =
    let t : SideOutcome = (err x, record { stream = s; conn = c }, log) in
    let no : t.0 ≡ o.0 = ap (λ (z : SideOutcome). z.0) (some_path e) in absurd cc
established-IsLive host s (ok u, c, log) w r e k =
    let (q, f, started) = start_lem host.env s c.resources.channel c.speed r in
    let (q', f', g) = >>=-eq-some (start host.env s c.resources.channel c.speed) _ e in
    after_start-IsLive host c log q' w
      (subst (λ (p : Result (Unit {0}) × Stream). p.0 ≡ ok tt → running p.1 ≡ true)
        (some_path (sym f ∙ f')) started.live)
      g k

start_side-IsLive :
    (host : Host) (side : Side) (log : List Event) (rate pcm_channels midi_ports : ℕ)
    {o : SideOutcome}
    → ((s : Stream) → running (host.wait s) ≡ running s)
    → running side.stream ≡ false
    → start_side host side log rate pcm_channels midi_ports ≡ some o
    → o.0 ≡ ok tt
    → IsLive o.1.stream
unfolding start_side
start_side-IsLive host side log rate pcm_channels midi_ports w i e k =
    let s = set_parameters side.stream rate pcm_channels midi_ports in
    let idle = running-set_parameters side.stream rate pcm_channels midi_ports ∙ i in
    let (c, f, g) =
      >>=-eq-some (establish host.fuel host.core side.conn log (get_max_payload s)) _ e in
    established-IsLive host s c w idle g k

pub start_in_mode-IsLive :
    (host : Host) (side : Side) (log : List Event) (rate : ℕ) (channels : List ℕ) (midi_ports : ℕ)
    (mode : Option ℕ) {o : SideOutcome}
    → ((s : Stream) → running (host.wait s) ≡ running s)
    → running side.stream ≡ false
    → start_in_mode host side log rate channels midi_ports mode ≡ some o
    → o.0 ≡ ok tt
    → IsLive o.1.stream
unfolding start_in_mode
start_in_mode-IsLive host side log rate channels midi_ports none {o = o} w i e k =
    let t : SideOutcome = (err einval, side, log) in
    let no : t.0 ≡ o.0 = ap (λ (z : SideOutcome). z.0) (some_path e) in absurd cc
start_in_mode-IsLive host side log rate channels midi_ports (some mode) w i e k =
    let (c, f, g) = >>=-eq-some (get_elem? channels mode) _ e in
    start_side-IsLive host side log rate c midi_ports w i g k
