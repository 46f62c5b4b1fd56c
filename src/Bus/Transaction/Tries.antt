-- ===== src/Bus/Transaction/Tries.antt =====
-- How a transaction ends, after three tries at most.
use snd_firewire_improve.Common.{
  ℕ, zero, suc, ◌+◌, ◌≤◌, ◌<◌, ◌≡◌, ◌⊎◌, inl, inr, refl, ap, true, false, Bool, List, length,
  Result, ok, err, eagain, eio, arith,
}
use snd_firewire_improve.Bus.{
  Rcode, complete, type_error, address_error, generation_error, other_error, Request, Event, Core,
}
use snd_firewire_improve.Bus.Transaction.{
  is_fixed, answer_of, after_try, settle, attempt, snd_fw_transaction,
}

-- The core refused the request for good.
abbrev pub IsPermanent : Rcode → Type 0
IsPermanent rcode = (rcode ≡ type_error) ⊎ (rcode ≡ address_error)

-- The try failed in a way that another try may mend.
abbrev pub IsTransient : Bool → Rcode → Type 0
IsTransient fixed rcode =
    ((fixed ≡ false) × (rcode ≡ generation_error)) ⊎ ((n : ℕ) × (rcode ≡ other_error n))

-- How the tries end with `n` of them left behind the first, on the events before it.
pub data Ends (core : Core) (request : Request) (flags : ℕ)
    : List Event → ℕ → Result ℕ → List Event → Type 0 where
  completed :
      (log : List Event) (n q : ℕ)
      → answer_of core log request flags ≡ (complete, q)
      → Ends core request flags log n (ok q) (after_try core log request flags)
  reset :
      (log : List Event) (n : ℕ)
      → is_fixed flags ≡ true
      → (answer_of core log request flags).0 ≡ generation_error
      → Ends core request flags log n (err eagain) (after_try core log request flags)
  refused :
      (log : List Event) (n : ℕ)
      → IsPermanent (answer_of core log request flags).0
      → Ends core request flags log n (err eio) (after_try core log request flags)
  exhausted :
      (log : List Event)
      → IsTransient (is_fixed flags) (answer_of core log request flags).0
      → Ends core request flags log 0 (err eio) (after_try core log request flags)
  retried :
      (log log' : List Event) (n : ℕ) (a : Result ℕ)
      → IsTransient (is_fixed flags) (answer_of core log request flags).0
      → Ends core request flags (after_try core log request flags) n a log'
      → Ends core request flags log (suc n) a log'

settle-elim :
    (P : Result ℕ × List Event → Type 0) (rcode : Rcode) (q : ℕ) (fixed : Bool) (log : List Event)
    (again : Result ℕ × List Event)
    → (rcode ≡ complete → P (ok q, log))
    → (fixed ≡ true → rcode ≡ generation_error → P (err eagain, log))
    → (IsPermanent rcode → P (err eio, log))
    → (IsTransient fixed rcode → P again)
    → P (settle rcode q fixed log again)
settle-elim P complete q fixed log again c g f a = c refl
settle-elim P type_error q fixed log again c g f a = f (inl refl)
settle-elim P address_error q fixed log again c g f a = f (inr refl)
settle-elim P generation_error q true log again c g f a = g refl refl
settle-elim P generation_error q false log again c g f a = a (inl (refl, refl))
settle-elim P (other_error n) q fixed log again c g f a = a (inr (n, refl))

attempt-Ends :
    (core : Core) (left : ℕ) (log : List Event) (request : Request) (flags : ℕ)
    → let r = attempt core left log request flags in Ends core request flags log left r.0 r.1
unfolding attempt
attempt-Ends core zero log request flags =
    let a = answer_of core log request flags in
    settle-elim (λ r. Ends core request flags log 0 r.0 r.1) a.0 a.1 (is_fixed flags)
      (after_try core log request flags) _
      (λ c. completed log 0 a.1 (ap (λ (x : Rcode). (x, a.1)) c)) (reset log 0) (refused log 0)
      (exhausted log)
attempt-Ends core (suc left) log request flags =
    let a = answer_of core log request flags in
    let log' = after_try core log request flags in
    settle-elim (λ r. Ends core request flags log (suc left) r.0 r.1) a.0 a.1 (is_fixed flags) log'
      _ (λ c. completed log (suc left) a.1 (ap (λ (x : Rcode). (x, a.1)) c)) (reset log (suc left))
      (refused log (suc left))
      (λ t. retried log _ left _ t (attempt-Ends core left log' request flags))

Ends-length :
    (core : Core) (request : Request) (flags n : ℕ) (log log' : List Event) (a : Result ℕ)
    → Ends core request flags log n a log'
    → (length log < length log') × (length log' ≤ length log + suc n)
Ends-length core request flags n log log' a (completed _ _ _ _) = omega arith
Ends-length core request flags n log log' a (reset _ _ _ _) = omega arith
Ends-length core request flags n log log' a (refused _ _ _) = omega arith
Ends-length core request flags n log log' a (exhausted _ _) = omega arith
Ends-length core request flags (suc n) log log' a (retried _ _ _ _ _ e) =
    omega (arith, Ends-length core request flags n _ log' a e)

-- A transaction sends its request once, twice or three times, and its end is that of the last try:
-- the core completed it, and the transaction succeeds with the quadlet of that answer; the core
-- reported another generation where the caller has fixed it, and the transaction fails with EAGAIN;
-- the core reported a type or address error, or a third try failed in another way, and the
-- transaction fails with EIO. Every try but the last failed with another error, or with a changed
-- generation that the caller has not fixed.
pub snd_fw_transaction_lem :
    (core : Core) (log : List Event) (request : Request) (flags : ℕ)
    → let r = snd_fw_transaction core log request flags in
      Ends core request flags log 2 r.0 r.1
      × (length log < length r.1)
      × (length r.1 ≤ length log + 3)
unfolding snd_fw_transaction
snd_fw_transaction_lem core log request flags =
    let e = attempt-Ends core 2 log request flags in
    let l = Ends-length core request flags 2 log _ _ e in (e, l.0, l.1)
