-- ===== src/Bus/Cmp/Connect.antt =====
-- A connection and its resources come and go together.
use snd_firewire_improve.Common.{
  ℕ, zero, suc, ◌^◌, ◌≡◌, ◌⊎◌, ◌∙◌, inl, inr, refl, sym, ap, subst, true, false, Bool, Bool-cases,
  if◌then◌else◌, List, Option, some, none, ◌>>=◌, >>=-eq-some, Result, ok, err, Errno, is_eagain,
  eagain, ebadfd, min, arith,
}
use snd_firewire_improve.Bus.{Event, Core}
use snd_firewire_improve.Bus.Resources
use snd_firewire_improve.Bus.Resources.Balance.{
  IsBalanced, IsSettled, free-IsBalanced, allocate-IsSettled,
}
use snd_firewire_improve.Bus.Cmp.{
  Connection, abort_on_bus_reset, succeed_on_bus_reset, pcr_modify, modify_from, pcr_set_check,
  set_modify, set_resources, release, disconnect, settle_establish, after_allocate, establish_from,
  establish, settle_update, after_update, update, break_connection, pcr_break_modify, Outcome,
}
use snd_firewire_improve.Bus.Cmp.Swap.{Keeps, modify_from-Keeps}

-- Connected or not, with the resources that go with it.
pub record IsConnected (c : Connection) (log : List Event) : Type 0 where
  pub balanced : IsBalanced c.resources log
  pub together : c.resources.allocated ≡ c.connected

keep-IsBalanced :
    (c : Connection) (log : List Event) (o : Outcome)
    → IsBalanced c.resources log
    → Keeps c log o
    → IsBalanced o.1.resources o.2
keep-IsBalanced c log o b k =
    subst (λ r. IsBalanced r o.2) (sym k.resources)
      (record {
        held = λ a. rw k.managed (b.held a);
        idle = λ a m e. b.idle a m (sym k.managed ∙ e);
      })

-- Breaking a connection whose resources are allocated exactly if it is connected, and agree with
-- the manager's last call: if the update of the register ends, whatever its result, the connection
-- is not connected, its resources are freed, and the state agrees with the manager's last call
-- again.
pub break_connection-IsConnected :
    (fuel : ℕ) (core : Core) (c : Connection) (log : List Event) (o : Connection × List Event)
    → IsConnected c log
    → break_connection fuel core c log ≡ some o
    → IsConnected o.0 o.1 × (o.0.connected ≡ false) × (o.0.resources.allocated ≡ false)
unfolding break_connection pcr_modify
break_connection-IsConnected fuel core c log o i e = elim (Bool-cases c.connected) [
  | inl y ↦
      let modified =
        modify_from fuel core c log pcr_break_modify none succeed_on_bus_reset c.last_pcr_value in
      let g : (modified >>= λ m. some (disconnect core m)) ≡ some o = ground (arith, y, e) in
      let (m, f, h) = >>=-eq-some modified _ g in
      let k =
        modify_from-Keeps fuel core c log pcr_break_modify none succeed_on_bus_reset
          c.last_pcr_value m f in
      let (b, a) = free-IsBalanced core m.1.resources m.2 (keep-IsBalanced c log m i.balanced k) in
      let inj : disconnect core m ≡ o = cc in
      subst
        (λ (o : Connection × List Event).
          IsConnected o.0 o.1 × (o.0.connected ≡ false) × (o.0.resources.allocated ≡ false))
        inj (record { balanced = b; together = a }, refl, a)
  | inr n ↦
      let f : some (c, log) ≡ some o = ground (arith, n, e) in
      let inj : (c, log) ≡ o = cc in
      subst
        (λ (o : Connection × List Event).
          IsConnected o.0 o.1 × (o.0.connected ≡ false) × (o.0.resources.allocated ≡ false))
        inj (i, n, i.together ∙ n)
]

-- The end of an attempt to connect: connected with resources, or an error with neither.
pub record IsEstablished (o : Outcome) : Type 0 where
  pub consistent : IsConnected o.1 o.2
  pub outcome :
      ((o.0 ≡ ok tt) × (o.1.connected ≡ true))
      ⊎ ((e : Errno) × (o.0 ≡ err e) × (o.1.connected ≡ false))

settle-IsEstablished :
    (core : Core) (m : Outcome) (again : Option Outcome) (o : Outcome)
    → m.1.connected ≡ false
    → m.1.resources.allocated ≡ true
    → IsBalanced m.1.resources m.2
    → (let f = release core m.1 m.2 in
        f.0.resources.allocated ≡ false
        → IsBalanced f.0.resources f.1
        → again ≡ some o
        → IsEstablished o)
    → settle_establish core m again ≡ some o
    → IsEstablished o
settle-IsEstablished core (ok u, c, log) again o n a b g e =
    let t : Outcome = (ok tt, record c { connected = true }, log) in
    let inj : t ≡ o = cc in
    subst IsEstablished inj
      (record { consistent = record { balanced = b; together = a }; outcome = inl (refl, refl) })
settle-IsEstablished core (err x, c, log) again o n a b g e =
    let f = release core c log in
    let (b', a') = free-IsBalanced core c.resources log b in
    elim (Bool-cases (is_eagain x)) [
      | inl retry ↦ (let same : again ≡ some o = ground (arith, retry, e) in g a' b' same)
      | inr last ↦
          let t : Outcome = (err x, f.0, f.1) in
          let same : some t ≡ some o = ground (arith, last, e) in
          let inj : t ≡ o = cc in
          subst IsEstablished inj (record {
            consistent = record { balanced = b'; together = a' ∙ sym n };
            outcome = inr (x, refl, n);
          })
    ]

after_allocate-IsEstablished :
    (a : Result ℕ) (c : Connection) (log : List Event) (rest : Option Outcome) (o : Outcome)
    → c.connected ≡ false
    → IsSettled a c.resources log
    → (c.resources.allocated ≡ true → rest ≡ some o → IsEstablished o)
    → after_allocate a c log rest ≡ some o
    → IsEstablished o
after_allocate-IsEstablished (ok ch) c log rest o n s g e = elim s.outcome [
  | inl y ↦ g y.2 e
  | inr x ↦ (let no = x.1 in cc)
]
after_allocate-IsEstablished (err x) c log rest o n s g e = elim s.outcome [
  | inl y ↦ (let no = y.1 in cc)
  | inr y ↦
      let inj : (err x, c, log) ≡ o = cc in
      subst IsEstablished inj (record {
        consistent = record { balanced = s.balanced; together = y.2 ∙ sym n };
        outcome = inr (x, refl, n);
      })
]

establish_from-IsEstablished :
    (n : ℕ) (core : Core) (c : Connection) (log : List Event) (payload : ℕ) (o : Outcome)
    → c.connected ≡ false
    → c.resources.allocated ≡ false
    → IsBalanced c.resources log
    → establish_from n core c log payload ≡ some o
    → IsEstablished o
unfolding establish_from pcr_modify
establish_from-IsEstablished zero core c log payload o n u b e = cc
establish_from-IsEstablished (suc k) core c log payload o n u b e =
    let (a, ea, rest) =
      >>=-eq-some (Resources.allocate (suc k) core c.resources log payload c.speed) _ e in
    let s = allocate-IsSettled (suc k) core c.resources log payload c.speed a u b ea in
    let c' = set_resources c a.1 in
    let modified =
      modify_from (suc k) core c' a.2 (set_modify c'.direction) (some pcr_set_check)
        abort_on_bus_reset c'.last_pcr_value in
    after_allocate-IsEstablished a.0 c' a.2 _ o n s
      (λ y f.
        let (m, g, h) = >>=-eq-some modified _ f in
        let keep =
          modify_from-Keeps (suc k) core c' a.2 (set_modify c'.direction) (some pcr_set_check)
            abort_on_bus_reset c'.last_pcr_value m g in
        let back = release core m.1 m.2 in
        settle-IsEstablished core m _ o (keep.connected ∙ n)
          (ap (λ (r : Resources.Resources). r.allocated) keep.resources ∙ y)
          (keep-IsBalanced c' a.2 m s.balanced keep)
          (λ a' b' again.
            establish_from-IsEstablished k core back.0 back.1 payload o (keep.connected ∙ n) a' b'
              again)
          h)
      rest

-- Establishing a connection that is not connected, has no resources allocated, and agrees with the
-- manager's last call: if this ends, over all its retries after bus resets, then either without an
-- error, and the connection is connected and has the resources that the manager gave last; or with
-- an error, and it is not connected and nothing stays allocated.
pub establish-IsEstablished :
    (fuel : ℕ) (core : Core) (c : Connection) (log : List Event) (payload : ℕ) (o : Outcome)
    → IsConnected c log
    → c.connected ≡ false
    → establish fuel core c log payload ≡ some o
    → IsEstablished o
unfolding establish
establish-IsEstablished fuel core c log payload o i n e =
    let d = record c { speed = min c.max_speed core.max_speed } in
    let f : establish_from fuel core d log payload ≡ some o = ground (arith, n, e) in
    establish_from-IsEstablished fuel core d log payload o n (i.together ∙ n) i.balanced f

-- The resources' update where the manager answers that another bus reset came.
update_spoilt :
    (core : Core) (r : Resources.Resources) (log : List Event)
    → r.allocated ≡ true
    → (let s = Resources.refresh core r log in
        (Resources.manage core s log (2 ^ s.channel) true).0 ≡ err eagain)
    → let u = Resources.update core r log in (u.0 ≡ err eagain) × (u.1.allocated ≡ true)
unfolding Resources.update Resources.reallocate
update_spoilt core r log y e = ground (arith, y, e)

allocate_held :
    (fuel : ℕ) (core : Core) (r : Resources.Resources) (log : List Event) (payload speed : ℕ)
    → r.allocated ≡ true
    → Resources.allocate fuel core r log payload speed ≡ some (err ebadfd, r, log)
unfolding Resources.allocate
allocate_held fuel core r log payload speed y = ground (arith, y)

-- If another bus reset spoils the new allocation of a connection that is updated, the connection
-- is given up with its resources still held: it cannot be established again, since every later
-- attempt is refused with EBADFD.
pub update_reset :
    (fuel more : ℕ) (core : Core) (c : Connection) (log : List Event) (payload : ℕ)
    → c.connected ≡ true
    → c.resources.allocated ≡ true
    → (let r = Resources.refresh core c.resources log in
        (Resources.manage core r log (2 ^ r.channel) true).0 ≡ err eagain)
    → (t : Connection) × (log' : List Event) × (update fuel core c log ≡ some (err eagain, t, log'))
      × (t.connected ≡ false)
      × (t.resources.allocated ≡ true)
      × ((later : List Event)
          → (u : Connection) × (establish (suc more) core t later payload
              ≡ some (err ebadfd, u, later)))
unfolding update establish establish_from
update_reset fuel more core c log payload y a e =
    let u = Resources.update core c.resources log in
    let (x, z) = update_spoilt core c.resources log a e in
    let c' = set_resources c u.1 in
    let rest =
      pcr_modify fuel core c' u.2 (set_modify c'.direction) (some pcr_set_check)
        succeed_on_bus_reset
      >>= λ m. some (settle_update core m) in
    let t = record c' { connected = false } in
    let f : update fuel core c log ≡ after_update u.0 c' u.2 rest =
      ap (λ (b : Bool). if b then after_update u.0 c' u.2 rest else some (ok tt, c, log)) y in
    (
      t,
      u.2,
      f ∙ ap (λ (v : Result ℕ). after_update v c' u.2 rest) x,
      refl,
      z,
      λ later. (
        record t { speed = min t.max_speed core.max_speed },
        rw (allocate_held (suc more) core u.1 later payload (min t.max_speed core.max_speed) z)
            refl,
      ),
    )
