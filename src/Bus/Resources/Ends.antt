-- ===== src/Bus/Resources/Ends.antt =====
-- Enough fuel: a wait and an allocation end where bus resets do.
use snd_firewire_improve.Common.{
  ℕ, zero, suc, ◌≤◌, ◌<◌, ◌≡◌, ◌⊎◌, inl, inr, refl, true, false, Bool-cases, ◌==◌, ltb, List, ◌∷◌,
  Option, some, Result, Errno, ebadfd, ok, err, is_eagain, arith,
}
use snd_firewire_improve.Bus.{Managed, Event, Core}
use snd_firewire_improve.Bus.Resources.{
  Resources, packet_bandwidth, refresh, remaining, settle_allocate, wait_after_bus_reset, manage,
  allocate_from, allocate,
}

-- A bound on the bus resets and on the timeouts that elapse before the core is at rest: one that
-- elapses and one answer that a bus reset spoils bring it nearer.
pub record Settles (core : Core) (rank : List Event → ℕ) : Type 0 where
  pub elapsed :
      (log : List Event) (d : ℕ)
      → d ≡ remaining (core.delay log)
      → 0 < d
      → core.sleep log d ≡ 0
      → rank (Event.slept d ∷ log) < rank log
  pub spoilt :
      (log : List Event) (m : Managed)
      → m.answer ≡ core.manage log m.generation m.channels_mask m.bandwidth m.allocate
      → ((e : Errno) × (m.answer ≡ err e) × (is_eagain e ≡ true))
      → rank (Event.managed m ∷ log) < rank log

abbrev Outcome : Type 0
Outcome = Result ℕ × Resources × List Event

-- The last event is a sleep that a signal ended.
abbrev pub IsInterrupted : Core → List Event → Type 0
IsInterrupted core log =
    (d : ℕ) × (before : List Event) × (log ≡ Event.slept d ∷ before) × (0 < core.sleep before d)

-- The last event is an allocation that the manager answered like this.
pub record IsAnswered (core : Core) (log : List Event) (answer : Result ℕ) : Type 0 where
  pub call : Managed
  pub before : List Event
  pub last : log ≡ Event.managed call ∷ before
  pub allocates : call.allocate ≡ true
  pub answered : core.manage before call.generation call.channels_mask call.bandwidth true ≡ answer

-- How an allocation ends: with the channel that the manager gave, or with nothing allocated and an
-- error of the manager other than EAGAIN, or that of a signal.
abbrev pub IsEnded : Core → Outcome → Type 0
IsEnded core o =
    ((c : ℕ) × (o.0 ≡ ok c)
      × IsAnswered core o.2 (ok c)
      × (o.1.allocated ≡ true)
      × (o.1.channel ≡ c))
    ⊎ ((o.1.allocated ≡ false)
        × (((e : Errno) × (o.0 ≡ err e) × (is_eagain e ≡ false) × IsAnswered core o.2 (err e))
            ⊎ ((o.0 ≡ err Errno.erestartsys) × IsInterrupted core o.2)))

wait-some :
    (core : Core) (rank : List Event → ℕ) (n : ℕ) (log : List Event)
    → Settles core rank
    → rank log < n
    → (a : Result (Unit {0})) × (log' : List Event) × (wait_after_bus_reset n core log
        ≡ some (a, log'))
      × (((rank log' ≤ rank log) × (a ≡ ok tt))
          ⊎ ((a ≡ err Errno.erestartsys) × IsInterrupted core log'))
unfolding wait_after_bus_reset
wait-some core rank zero log s h = absurd (omega arith)
wait-some core rank (suc n) log s h =
    let d = remaining (core.delay log) in
    let v = Event.slept d ∷ log in
    elim (Bool-cases (d == 0)) [
      | inl z ↦ (ok tt, log, rw z refl, inl (omega arith, refl))
      | inr p ↦ elim (Bool-cases (ltb 0 (core.sleep log d))) [
        | inl signal ↦
            let woken : 0 < core.sleep log d = ground arith in
            (err Errno.erestartsys, v, rw p (rw signal refl), inr (refl, (d, log, refl, woken)))
        | inr elapsed ↦
            let less = s.elapsed log d refl (ground (arith, p)) (ground (arith, elapsed)) in
            let (a, log', e, k) = wait-some core rank n v s (omega arith) in
            (
              a,
              log',
              rw p (rw elapsed e),
              elim k [ inl l ↦ inl (omega (arith, l.0, less), l.1) | inr x ↦ inr x ],
            )
      ]
    ]

settle-some :
    (core : Core) (a : Result ℕ) (r : Resources) (log : List Event) (again : Option Outcome)
    → r.allocated ≡ false
    → IsAnswered core log a
    → ((e : Errno)
        → a ≡ err e
        → is_eagain e ≡ true
        → (o : Outcome) × (again ≡ some o) × IsEnded core o)
    → (o : Outcome) × (settle_allocate a r log again ≡ some o) × IsEnded core o
settle-some core (ok c) r log again u i g = (_, refl, inl (c, refl, i, refl, refl))
settle-some core (err x) r log again u i g = elim (Bool-cases (is_eagain x)) [
  | inl retry ↦ (let o = g x refl retry in (o.0, rw retry o.1, o.2))
  | inr last ↦ ((err x, r, log), rw last refl, inr (u, inl (x, refl, last, i)))
]

allocate_from-some :
    (core : Core) (rank : List Event → ℕ) (n : ℕ) (r : Resources) (log : List Event)
    → Settles core rank
    → r.allocated ≡ false
    → rank log < n
    → (o : Outcome) × (allocate_from n core r log ≡ some o) × IsEnded core o
unfolding allocate_from manage
allocate_from-some core rank zero r log s u h = absurd (omega arith)
allocate_from-some core rank (suc n) r log s u h =
    let t = refresh core r log in
    let (a, log', e, k) = wait-some core rank (suc n) log s h in
    let m = (manage core t log' t.channels_mask true) in
    elim k [
      | inr x ↦ ((err Errno.erestartsys, t, log'), rw e (rw x.0 refl), inr (u, inr (refl, x.1)))
      | inl l ↦
          let i : IsAnswered core m.1 m.0 = record {
            call = _;
            before = log';
            last = refl;
            allocates = refl;
            answered = refl;
          } in
          let o = settle-some core m.0 t m.1 (allocate_from n core t m.1) u i (λ x f g.
            allocate_from-some core rank n t m.1 s u
              (omega (arith, h, l.0, s.spoilt log' _ refl (x, f, g)))) in
          (o.0, rw e (rw l.1 o.1), o.2)
    ]

-- With more fuel than the bus resets and elapsed timeouts that the core has left, an allocation
-- ends: with EBADFD and no change where the resources are allocated already; and else with the channel
-- that the manager gave in the last call, which is then allocated, or with nothing allocated and
-- either the error of that call, which is not EAGAIN, or ERESTARTSYS after a signal ended the wait.
pub allocate-some :
    (core : Core) (rank : List Event → ℕ) (fuel : ℕ) (r : Resources) (log : List Event)
    (payload speed : ℕ)
    → Settles core rank
    → rank log < fuel
    → (o : Result ℕ × Resources × List Event) × (allocate fuel core r log payload speed ≡ some o)
      × (((r.allocated ≡ true) × (o ≡ (err ebadfd, r, log)))
          ⊎ ((r.allocated ≡ false) × IsEnded core o))
unfolding allocate
allocate-some core rank fuel r log payload speed s h = elim (Bool-cases r.allocated) [
  | inl y ↦ ((err ebadfd, r, log), ground (arith, y), inl (y, refl))
  | inr n ↦
      let t = record r { bandwidth = packet_bandwidth payload speed } in
      let (o, e, i) = allocate_from-some core rank fuel t log s n h in
      (o, ground (arith, n, e), inr (n, i))
]
