-- ===== src/Bus/Resources/Balance.antt =====
-- What is allocated is what is given back: the state of a `Resources` follows the last call of the
-- manager.
use snd_firewire_improve.Common.{
  ℕ, zero, suc, ◌+◌, ◌^◌, ◌≡◌, ◌⊎◌, inl, inr, refl, Bool, true, false, Bool-cases, if◌then◌else◌,
  List, [], ◌∷◌, Option, some, none, >>=-eq-some, Result, ok, err, Errno, is_eagain, eagain, ap,
  sym, ◌∙◌, subst, arith,
}
use snd_firewire_improve.Bus.{Managed, Event, Core}
use snd_firewire_improve.Bus.Resources.{
  Resources, packet_bandwidth, current_bandwidth_overhead, refresh, settle_update, reallocate,
  remaining, settle_allocate, after_wait, wait_after_bus_reset, manage, allocate_from, allocate,
  update, free,
}

-- The last call of the manager.
unfoldable pub last_managed : List Event → Option Managed
last_managed [] = none
last_managed (Event.managed m ∷ es) = some m
last_managed (Event.requested r ∷ es) = last_managed es
last_managed (Event.slept n ∷ es) = last_managed es

-- An allocation of this bandwidth in this generation, which gave the channel or asked for it.
pub record IsHeld (r : Resources) (m : Managed) : Type 0 where
  pub allocates : m.allocate ≡ true
  pub same_bandwidth : m.bandwidth ≡ r.bandwidth + r.bandwidth_overhead
  pub same_generation : m.generation ≡ r.generation
  pub same_channel : (m.answer ≡ ok r.channel) ⊎ (m.channels_mask ≡ 2 ^ r.channel)

-- A call that leaves nothing allocated: one that frees, or an allocation that failed.
abbrev pub IsIdle : Managed → Type 0
IsIdle m = (m.allocate ≡ false) ⊎ ((e : Errno) × (m.answer ≡ err e))

-- The state and the events agree.
pub record IsBalanced (r : Resources) (log : List Event) : Type 0 where
  pub held : r.allocated ≡ true → (m : Managed) × (last_managed log ≡ some m) × IsHeld r m
  pub idle : r.allocated ≡ false → (m : Managed) → last_managed log ≡ some m → IsIdle m

held-IsBalanced :
    (r : Resources) (log : List Event) (m : Managed)
    → r.allocated ≡ true
    → last_managed log ≡ some m
    → IsHeld r m
    → IsBalanced r log
held-IsBalanced r log m a l h = record { held = λ e. (m, l, h); idle = λ e. cc }

idle-IsBalanced :
    (r : Resources) (log : List Event) (m : Managed)
    → r.allocated ≡ false
    → last_managed log ≡ some m
    → IsIdle m
    → IsBalanced r log
idle-IsBalanced r log m a l h = record {
  held = λ e. cc;
  idle = λ _ m' e. (let same : m ≡ m' = cc in subst IsIdle same h);
}

unallocated-IsBalanced :
    (r s : Resources) (log log' : List Event)
    → IsBalanced r log
    → r.allocated ≡ false
    → s.allocated ≡ false
    → last_managed log' ≡ last_managed log
    → IsBalanced s log'
unallocated-IsBalanced r s log log' b p q l = record {
  held = λ e. cc;
  idle = λ _ m e. b.idle p m (sym l ∙ e);
}

-- What the manager is asked for.
abbrev call : Core → Resources → List Event → ℕ → Bool → Managed
call core r log mask allocate = record {
  generation = r.generation;
  channels_mask = mask;
  bandwidth = r.bandwidth + r.bandwidth_overhead;
  allocate = allocate;
  answer = core.manage log r.generation mask (r.bandwidth + r.bandwidth_overhead) allocate;
}

manage_call :
    (core : Core) (r : Resources) (log : List Event) (mask : ℕ) (b : Bool)
    → let c = call core r log mask b in manage core r log mask b ≡ (c.answer, Event.managed c ∷ log)
unfolding manage
manage_call core r log mask b = refl

-- Freeing gives back what the state says is allocated, and leaves nothing allocated.
pub free-IsBalanced :
    (core : Core) (r : Resources) (log : List Event)
    → IsBalanced r log
    → let t = free core r log in IsBalanced t.0 t.1 × (t.0.allocated ≡ false)
unfolding free manage last_managed
free-IsBalanced core r log b = elim (Bool-cases r.allocated) [
  | inl y ↦
      let t = record r { allocated = false } in
      let c = call core r log (2 ^ r.channel) false in
      let e : free core r log ≡ (t, Event.managed c ∷ log) = ground arith in
      subst (λ x. IsBalanced x.0 x.1 × (x.0.allocated ≡ false)) (sym e)
        (idle-IsBalanced t (Event.managed c ∷ log) c refl refl (inl refl), refl)
  | inr n ↦
      let e : free core r log ≡ (r, log) = ground arith in
      subst (λ x. IsBalanced x.0 x.1 × (x.0.allocated ≡ false)) (sym e) (b, n)
]

settle-IsBalanced :
    (a : Result ℕ) (r : Resources) (log : List Event) (m : Managed)
    → r.allocated ≡ true
    → last_managed log ≡ some m
    → IsHeld r m
    → m.answer ≡ a
    → IsBalanced (settle_update a r) log
settle-IsBalanced (ok c) r log m y l h e = held-IsBalanced r log m y l h
settle-IsBalanced (err x) r log m y l h e = elim (Bool-cases (is_eagain x)) [
  | inl again ↦ rw again (held-IsBalanced r log m y l h)
  | inr other ↦ rw other (idle-IsBalanced _ log m refl l (inr (x, e)))
]

-- How the state follows the manager's answer to an allocation after a bus reset.
abbrev pub IsAccounted : Result ℕ → Resources → Type 0
IsAccounted answer r =
    ((r.allocated ≡ true) × (((c : ℕ) × (answer ≡ ok c)) ⊎ (answer ≡ err eagain)))
    ⊎ ((r.allocated ≡ false) × (e : Errno) × (answer ≡ err e) × (is_eagain e ≡ false))

-- The allocation is asked for again, in the generation and with the overhead of now.
pub record IsRenewed (core : Core) (r : Resources) (log : List Event)
    (t : Result ℕ × Resources × List Event) : Type 0 where
  pub again : Managed
  pub asked : t.2 ≡ Event.managed again ∷ log
  pub allocates : again.allocate ≡ true
  pub now : again.generation ≡ core.card_generation log
  pub same_channel : again.channels_mask ≡ 2 ^ r.channel
  pub bandwidth : again.bandwidth ≡ r.bandwidth + current_bandwidth_overhead (core.gap_count log)
  pub answered : t.0 ≡ again.answer
  pub accounted : IsAccounted again.answer t.1
  pub kept : (t.1.channel ≡ r.channel) × (t.1.bandwidth ≡ r.bandwidth)

settle-IsAccounted :
    (a : Result ℕ) (r : Resources) → r.allocated ≡ true → IsAccounted a (settle_update a r)
settle-IsAccounted (ok c) r y = inl (y, inl (c, refl))
settle-IsAccounted (err x) r y = elim (Bool-cases (is_eagain x)) [
  | inl retry ↦ rw retry (inl (y, inr (ap err (is_eagain_lem x retry))))
  | inr other ↦ rw other (inr (refl, x, refl, other))
]
  where
    is_eagain_lem : (x : Errno) → is_eagain x ≡ true → x ≡ eagain
    is_eagain_lem x h = ground arith

settle-kept :
    (a : Result ℕ) (r : Resources)
    → let t = settle_update a r in (t.channel ≡ r.channel) × (t.bandwidth ≡ r.bandwidth)
settle-kept (ok c) r = (refl, refl)
settle-kept (err x) r = ground arith

-- After a bus reset, in a state that agrees with the manager's last call, resources that are
-- allocated are asked for again: their bandwidth with the overhead of now, on the same channel and in
-- the generation of now. They stay allocated where the manager grants them or sees another bus reset,
-- and are lost with any other error. Where nothing is allocated nothing is asked for. In both cases
-- the state afterwards agrees with the manager's last call.
pub update-IsBalanced :
    (core : Core) (r : Resources) (log : List Event)
    → IsBalanced r log
    → let t = update core r log in
      IsBalanced t.1 t.2
      × (((r.allocated ≡ false) × (t ≡ (ok 0, r, log)))
          ⊎ ((r.allocated ≡ true) × IsRenewed core r log t))
unfolding update reallocate manage last_managed
update-IsBalanced core r log b = elim (Bool-cases r.allocated) [
  | inl y ↦
      let t = refresh core r log in
      let c = call core t log (2 ^ t.channel) true in
      let e : update core r log ≡ (c.answer, settle_update c.answer t, Event.managed c ∷ log) =
        ground (arith, y) in
      let h : IsHeld t c = record {
        allocates = refl;
        same_bandwidth = refl;
        same_generation = refl;
        same_channel = inr refl;
      } in
      let renewed : IsRenewed core r log
          (c.answer, settle_update c.answer t, Event.managed c ∷ log) =
        record {
          again = c;
          asked = refl;
          allocates = refl;
          now = refl;
          same_channel = refl;
          bandwidth = refl;
          answered = refl;
          accounted = settle-IsAccounted c.answer t y;
          kept = settle-kept c.answer t;
        } in
      subst
        (λ (x : Result ℕ × Resources × List Event).
          IsBalanced x.1 x.2
          × (((r.allocated ≡ false) × (x ≡ (ok 0, r, log)))
              ⊎ ((r.allocated ≡ true) × IsRenewed core r log x)))
        (sym e)
        (settle-IsBalanced c.answer t (Event.managed c ∷ log) c y refl h refl, inr (y, renewed))
  | inr n ↦
      let e : update core r log ≡ (ok 0, r, log) = ground (arith, n) in
      (subst (λ (x : Result ℕ × Resources × List Event). IsBalanced x.1 x.2) (sym e) b, inl (n, e))
]

wait_managed :
    (n : ℕ) (core : Core) (log : List Event) (w : Result (Unit {0}) × List Event)
    → wait_after_bus_reset n core log ≡ some w
    → last_managed w.1 ≡ last_managed log
unfolding wait_after_bus_reset last_managed
wait_managed zero core log w e = cc
wait_managed (suc n) core log w e =
    let d = remaining (core.delay log) in
    ground (arith, wait_managed n core (Event.slept d ∷ log) w)

-- How an allocation ends: with a channel that the state holds, or with an error and nothing.
pub record IsSettled (a : Result ℕ) (r : Resources) (log : List Event) : Type 0 where
  pub balanced : IsBalanced r log
  pub outcome :
      ((c : ℕ) × (a ≡ ok c) × (r.allocated ≡ true) × (r.channel ≡ c))
      ⊎ ((e : Errno) × (a ≡ err e) × (r.allocated ≡ false))

-- The call of an allocation, for whatever channel it gives.
record IsRequest (r : Resources) (m : Managed) : Type 0 where
  allocates : m.allocate ≡ true
  same_bandwidth : m.bandwidth ≡ r.bandwidth + r.bandwidth_overhead
  same_generation : m.generation ≡ r.generation

abbrev Outcome : Type 0
Outcome = Result ℕ × Resources × List Event

settle-IsSettled :
    (a : Result ℕ) (r : Resources) (log : List Event) (m : Managed) (again : Option Outcome)
    (o : Outcome)
    → r.allocated ≡ false
    → last_managed log ≡ some m
    → m.answer ≡ a
    → IsRequest r m
    → (IsBalanced r log → again ≡ some o → IsSettled o.0 o.1 o.2)
    → settle_allocate a r log again ≡ some o
    → IsSettled o.0 o.1 o.2
settle-IsSettled (ok c) r log m again o u l x h g e =
    let t = record r { channel = c; allocated = true } in
    let inj : (ok c, t, log) ≡ o = cc in
    let held : IsHeld t m = record {
      allocates = h.allocates;
      same_bandwidth = h.same_bandwidth;
      same_generation = h.same_generation;
      same_channel = inl x;
    } in
    subst (λ (o : Outcome). IsSettled o.0 o.1 o.2) inj
      (record {
        balanced = held-IsBalanced t log m refl l held;
        outcome = inl (c, refl, refl, refl);
      })
settle-IsSettled (err x) r log m again o u l y h g e = elim (Bool-cases (is_eagain x)) [
  | inl retry ↦
      (let same : again ≡ some o = ground (arith, retry, e) in
        g (idle-IsBalanced r log m u l (inr (x, y))) same)
  | inr last ↦
      let same : (if is_eagain x then again else some (err x, r, log)) ≡ some (err x, r, log) =
        rw last refl in
      let inj : (err x, r, log) ≡ o = cc in
      subst (λ (o : Outcome). IsSettled o.0 o.1 o.2) inj
        (record { balanced = idle-IsBalanced r log m u l (inr (x, y)); outcome = inr (x, refl, u) })
]

after_wait-IsSettled :
    (w : Result (Unit {0})) (r : Resources) (log : List Event) (rest : Option Outcome) (o : Outcome)
    → r.allocated ≡ false
    → IsBalanced r log
    → (rest ≡ some o → IsSettled o.0 o.1 o.2)
    → after_wait w r log rest ≡ some o
    → IsSettled o.0 o.1 o.2
after_wait-IsSettled (ok u) r log rest o p b g e = g e
after_wait-IsSettled (err x) r log rest o p b g e =
    let inj : (err x, r, log) ≡ o = cc in
    subst (λ (o : Outcome). IsSettled o.0 o.1 o.2) inj
      (record { balanced = b; outcome = inr (x, refl, p) })

allocate_from-IsSettled :
    (n : ℕ) (core : Core) (r : Resources) (log : List Event) (o : Outcome)
    → r.allocated ≡ false
    → IsBalanced r log
    → allocate_from n core r log ≡ some o
    → IsSettled o.0 o.1 o.2
unfolding allocate_from manage last_managed
allocate_from-IsSettled zero core r log o u b e = cc
allocate_from-IsSettled (suc n) core r log o u b e =
    let (w, ew, rest) = >>=-eq-some (wait_after_bus_reset (suc n) core log) _ e in
    let t = refresh core r log in
    let c = call core t w.1 t.channels_mask true in
    let v = Event.managed c ∷ w.1 in
    let request : IsRequest t c = record {
      allocates = refl;
      same_bandwidth = refl;
      same_generation = refl;
    } in
    let waited : IsBalanced t w.1 =
      unallocated-IsBalanced r t log w.1 b u u (wait_managed (suc n) core log w ew) in
    after_wait-IsSettled w.0 t w.1 _ o u waited
      (settle-IsSettled c.answer t v c (allocate_from n core t v) o u refl refl request
        (λ b' f. allocate_from-IsSettled n core t v o u b' f))
      rest

-- An allocation of resources that are not allocated, in a state that agrees with the manager's last
-- call: however often bus resets make it start again, if it ends, the state agrees with the manager:
-- with the channel it returns, allocated with the bandwidth and in the generation that the state
-- records, or with an error and nothing allocated.
pub allocate-IsSettled :
    (fuel : ℕ) (core : Core) (r : Resources) (log : List Event) (payload speed : ℕ)
    (o : Result ℕ × Resources × List Event)
    → r.allocated ≡ false
    → IsBalanced r log
    → allocate fuel core r log payload speed ≡ some o
    → IsSettled o.0 o.1 o.2
unfolding allocate
allocate-IsSettled fuel core r log payload speed o u b e =
    let t = record r { bandwidth = packet_bandwidth payload speed } in
    let f : allocate_from fuel core t log ≡ some o = ground (arith, u, e) in
    allocate_from-IsSettled fuel core t log o u (unallocated-IsBalanced r t log log b u u refl) f
