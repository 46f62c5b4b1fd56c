-- ===== src/Bus/Cmp/Swap.antt =====
-- The compare-and-swap loop: what it keeps, and what it leaves in the register.
use snd_firewire_improve.Common.{
  ℕ, zero, suc, ◌+◌, ◌*◌, ◌/◌, ◌%◌, ◌^◌, ◌≡◌, ◌⊎◌, ◌∙◌, inl, inr, refl, sym, ap, subst, ◌&&◌, ◌==◌,
  ==_iff, Bool-cases, if◌then◌else◌, bit_and, bit_or, List, [], ◌∷◌, Option, some, Result, ok, err,
  is_eagain, arith,
}
use snd_firewire_improve.Bus.{Request, lock_compare_swap, complete, Event, Core}
use snd_firewire_improve.Common.Bits.{or_split, or_lowest, zero_or, and_field, and_low}
use snd_firewire_improve.Bus.Transaction.{
  fw_fixed_generation, fw_generation_mask, generation_of, after_try, answer_of, sent,
}
use snd_firewire_improve.Bus.Transaction.Tries.{
  Ends, completed, reset, refused, exhausted, retried, snd_fw_transaction_lem,
}
use snd_firewire_improve.Bus.Resources.Balance.{last_managed}
use snd_firewire_improve.Bus.Cmp.{
  Connection, BusResetHandling, abort_on_bus_reset, swap, pcr_address, run_check, settle_check,
  settle_swap, seen_of, modify_from, pcr_modify, Outcome, answer_reset,
}

Ends_managed :
    (core : Core) (request : Request) (flags n : ℕ) (log log' : List Event) (a : Result ℕ)
    → Ends core request flags log n a log'
    → last_managed log' ≡ last_managed log
unfolding last_managed
Ends_managed core request flags n log log' a (completed _ _ _ _) = refl
Ends_managed core request flags n log log' a (reset _ _ _ _) = refl
Ends_managed core request flags n log log' a (refused _ _ _) = refl
Ends_managed core request flags n log log' a (exhausted _ _) = refl
Ends_managed core request flags (suc n) log log' a (retried _ _ _ _ _ e) =
    Ends_managed core request flags n _ log' a e

pub swap_managed :
    (core : Core) (c : Connection) (log : List Event) (old new : ℕ)
    → last_managed (swap core c log old new).1 ≡ last_managed log
swap_managed core c log old new =
    Ends_managed core _ _ 2 log _ _ (snd_fw_transaction_lem core log _ _).0

-- What the loop leaves as it is.
pub record Keeps (c : Connection) (log : List Event) (o : Outcome) : Type 0 where
  pub resources : o.1.resources ≡ c.resources
  pub connected : o.1.connected ≡ c.connected
  pub managed : last_managed o.2 ≡ last_managed log

settle_check-Keeps :
    (r : Result (Unit {0})) (c : Connection) (log log' : List Event) (again : Option Outcome)
    (o : Outcome)
    → last_managed log' ≡ last_managed log
    → (again ≡ some o → Keeps c log o)
    → settle_check r c log' again ≡ some o
    → Keeps c log o
settle_check-Keeps (ok u) c log log' again o m g e = g e
settle_check-Keeps (err x) c log log' again o m g e =
    let inj : (err x, c, log') ≡ o = cc in
    subst (λ (o : Outcome). Keeps c log o) inj
      (record { resources = refl; connected = refl; managed = m })

settle_swap-Keeps :
    (r : Result ℕ) (c : Connection) (log log' : List Event) (old new : ℕ) (h : BusResetHandling)
    (next : Option Outcome) (o : Outcome)
    → last_managed log' ≡ last_managed log
    → (next ≡ some o → Keeps c log o)
    → settle_swap r c log' old new h next ≡ some o
    → Keeps c log o
settle_swap-Keeps (err x) c log log' old new h next o m g e =
    let inj : (if is_eagain x && answer_reset h then ok tt else err x, c, log') ≡ o = cc in
    subst (λ (o : Outcome). Keeps c log o) inj
      (record { resources = refl; connected = refl; managed = m })
settle_swap-Keeps (ok seen) c log log' old new h next o m g e = elim (Bool-cases (seen == old)) [
  | inl same ↦
      let t : Outcome = (ok tt, record c { last_pcr_value = new }, log') in
      let f : some t ≡ some o = ground (arith, same, e) in
      let inj : t ≡ o = cc in
      subst (λ (o : Outcome). Keeps c log o) inj
        (record { resources = refl; connected = refl; managed = m })
  | inr other ↦ (let f : next ≡ some o = ground (arith, other, e) in g f)
]

pub modify_from-Keeps :
    (n : ℕ) (core : Core) (c : Connection) (log : List Event) (modify : Connection → ℕ → ℕ)
    (check : Option (ℕ → Result (Unit {0}))) (h : BusResetHandling) (old : ℕ) (o : Outcome)
    → modify_from n core c log modify check h old ≡ some o
    → Keeps c log o
unfolding modify_from
modify_from-Keeps zero core c log modify check h old o e = cc
modify_from-Keeps (suc n) core c log modify check h old o e =
    let s = swap core c log old (modify c old) in
    let m = swap_managed core c log old (modify c old) in
    let seen = seen_of s.0 in
    let again = modify_from n core c s.1 modify check h seen in
    let keep : again ≡ some o → Keeps c log o = λ f.
      let k = modify_from-Keeps n core c s.1 modify check h seen o f in
      record { resources = k.resources; connected = k.connected; managed = k.managed ∙ m } in
    settle_swap-Keeps s.0 c log s.1 old (modify c old) h _ o m
      (settle_check-Keeps (run_check check seen) c log s.1 again o m keep) e

-- How the loop ends well where bus resets abort it: the last request is a compare-and-swap of the
-- connection's register in the generation of its resources, from a value to the one that `modify`
-- makes of it; the core completed it and found that value. It is the value the register was taken to
-- have, or one that the check let pass.
pub record IsSwapped (core : Core) (c : Connection) (modify : Connection → ℕ → ℕ)
    (check : Option (ℕ → Result (Unit {0}))) (first : ℕ) (o : Outcome) : Type 0 where
  pub old : ℕ
  pub before : List Event
  pub request : Request
  pub tcode : request.tcode ≡ lock_compare_swap
  pub register : request.offset ≡ pcr_address core c
  pub generation : request.generation ≡ c.resources.generation % 256
  pub asked : request.data_quadlets ≡ old ∷ modify c old ∷ []
  pub found : core.run before request ≡ (complete, old)
  pub last : o.2 ≡ Event.requested request ∷ before
  pub value : o.1.last_pcr_value ≡ modify c old
  pub checked : (old ≡ first) ⊎ (run_check check old ≡ ok tt)

Ends_ok :
    (core : Core) (request : Request) (flags n : ℕ) (log log' : List Event) (a : Result ℕ) (q : ℕ)
    → Ends core request flags log n a log'
    → a ≡ ok q
    → (before : List Event) × (answer_of core before request flags ≡ (complete, q))
      × (log' ≡ after_try core before request flags)
Ends_ok core request flags n log log' a q (completed l _ p c) e =
    let same : p ≡ q = cc in (l, rw (sym same) c, refl)
Ends_ok core request flags n log log' a q (reset _ _ _ _) e = cc
Ends_ok core request flags n log log' a q (refused _ _ _) e = cc
Ends_ok core request flags n log log' a q (exhausted _ _) e = cc
Ends_ok core request flags (suc n) log log' a q (retried _ _ _ _ _ r) e =
    Ends_ok core request flags n _ log' a q r e

-- A fixed generation in the flags of a transaction is the one that its requests carry.
fixed_flags :
    (g : ℕ)
    → let flags = bit_or fw_fixed_generation g in
      (bit_and flags fw_fixed_generation ≡ 256) × (bit_and flags fw_generation_mask ≡ g % 256)
fixed_flags g =
    let a = bit_or 1 (g / 2 ^ 8) in
    let flags = bit_or fw_fixed_generation g in
    let e : flags ≡ a * 2 ^ 8 + g % 2 ^ 8 =
      ground (arith, or_split 8 1 (g / 2 ^ 8) 0 (g % 2 ^ 8), zero_or (g % 2 ^ 8)) in
    let odd : a % 2 ≡ 1 = ground (arith, or_lowest 1 (g / 2 ^ 8)) in
    let high : flags / 2 ^ 8 ≡ a = omega arith in
    (ground (arith, and_field 8 flags 1, and_low 1 a), ground (arith, and_low 8 flags))

generation_of_fixed :
    (core : Core) (log : List Event) (g : ℕ)
    → generation_of core log (bit_or fw_fixed_generation g) ≡ g % 256
generation_of_fixed core log g = let f = fixed_flags g in ground (arith, f)

module _ (core : Core) (modify : Connection → ℕ → ℕ) (check : Option (ℕ → Result (Unit {0})))
    (first : ℕ) where
  swapped :
      (c : Connection) (log : List Event) (old : ℕ) (o : Outcome)
      → (old ≡ first) ⊎ (run_check check old ≡ ok tt)
      → (swap core c log old (modify c old)).0 ≡ ok old
      → o ≡ (
        ok tt,
        record c { last_pcr_value = modify c old },
        (swap core c log old (modify c old)).1,
      )
      → IsSwapped core c modify check first o
  swapped c log old o k e f =
      let request : Request = record {
        tcode = lock_compare_swap;
        offset = pcr_address core c;
        data_quadlets = old ∷ modify c old ∷ [];
        generation = 0;
      } in
      let flags = bit_or fw_fixed_generation c.resources.generation in
      let (b, a, l) =
        Ends_ok core request flags 2 log _ _ old (snd_fw_transaction_lem core log request flags).0
          e in
      subst (λ (o : Outcome). IsSwapped core c modify check first o) (sym f)
        (record {
          old = old;
          before = b;
          request = sent core b request flags;
          tcode = refl;
          register = refl;
          generation = generation_of_fixed core b c.resources.generation;
          asked = refl;
          found = a;
          last = l;
          value = refl;
          checked = k;
        })

  settle_check-ok :
      (r : Result (Unit {0})) (c : Connection) (log : List Event) (again : Option Outcome)
      (o : Outcome)
      → o.0 ≡ ok tt
      → settle_check r c log again ≡ some o
      → (r ≡ ok tt) × (again ≡ some o)
  settle_check-ok (ok u) c log again o y e = (refl, e)
  settle_check-ok (err x) c log again o y e = let inj : err x ≡ o.0 = cc in cc

  settle_swap-ok :
      (r : Result ℕ) (c : Connection) (log : List Event) (old new : ℕ) (next : Option Outcome)
      (o : Outcome)
      → o.0 ≡ ok tt
      → settle_swap r c log old new abort_on_bus_reset next ≡ some o
      → ((r ≡ ok old) × (o ≡ (ok tt, record c { last_pcr_value = new }, log))) ⊎ (next ≡ some o)
  settle_swap-ok (err x) c log old new next o y e = elim (Bool-cases (is_eagain x)) [
    | inl g ↦ ground (arith, g, y, e)
    | inr g ↦ ground (arith, g, y, e)
  ]
  settle_swap-ok (ok seen) c log old new next o y e = elim (Bool-cases (seen == old)) [
    | inl same ↦
        let t : Outcome = (ok tt, record c { last_pcr_value = new }, log) in
        let f : some t ≡ some o = ground (arith, same, e) in
        inl (ap ok ((==_iff seen old).0 same), sym cc)
    | inr other ↦ (let f : next ≡ some o = ground (arith, other, e) in inr f)
  ]

  modify_from-IsSwapped :
      (n : ℕ) (c : Connection) (log : List Event) (old : ℕ) (o : Outcome)
      → (old ≡ first) ⊎ (run_check check old ≡ ok tt)
      → modify_from n core c log modify check abort_on_bus_reset old ≡ some o
      → o.0 ≡ ok tt
      → IsSwapped core c modify check first o
  unfolding modify_from
  modify_from-IsSwapped zero c log old o k e y = cc
  modify_from-IsSwapped (suc n) c log old o k e y =
      let s = swap core c log old (modify c old) in
      elim (settle_swap-ok s.0 c s.1 old (modify c old) _ o y e) [
        | inl d ↦ swapped c log old o k d.0 d.1
        | inr f ↦
            let g = settle_check-ok (run_check check (seen_of s.0)) c s.1 _ o y f in
            modify_from-IsSwapped n c s.1 (seen_of s.0) o (inr g.0) g.1 y
      ]

-- A register update that ends without an error where bus resets abort it ends with a
-- compare-and-swap of the connection's own register in the generation of its resources (of which a
-- request carries 8 bits), and the core completed that swap: the register held a value that the
-- connection knew or that passed the check, it was asked to hold the modified value in its place,
-- and that value is remembered.
pub pcr_modify-IsSwapped :
    (fuel : ℕ) (core : Core) (c : Connection) (log : List Event) (modify : Connection → ℕ → ℕ)
    (check : Option (ℕ → Result (Unit {0}))) (o : Outcome)
    → pcr_modify fuel core c log modify check abort_on_bus_reset ≡ some o
    → o.0 ≡ ok tt
    → IsSwapped core c modify check c.last_pcr_value o
unfolding pcr_modify
pcr_modify-IsSwapped fuel core c log modify check o e y =
    modify_from-IsSwapped core modify check c.last_pcr_value fuel c log c.last_pcr_value o
      (inl refl) e y
