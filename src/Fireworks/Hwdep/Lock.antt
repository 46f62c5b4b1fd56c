-- ===== src/Fireworks/Hwdep/Lock.antt =====
-- The lock of an instance: user space and the streams never hold it together.
use snd_firewire_improve.Common.{
  ℕ, suc, ◌≡◌, ◌⊎◌, inl, inr, refl, Bool, true, false, ◌&&◌, ◌||◌, not, if◌then◌else◌, pos, negsuc,
  Result, ok, err, arith,
}
use snd_firewire_improve.Fireworks.Ring.{Responses}
use snd_firewire_improve.Fireworks.Hwdep.{
  Hwdep, hwdep_read_locked, hwdep_lock, hwdep_unlock, hwdep_release, snd_efw_stream_lock_changed,
  snd_efw_stream_lock_try, snd_efw_stream_lock_release,
}

-- The instance with those that hold the lock: user space, and a number of streams.
pub record System : Type 0 where
  pub hwdep : Hwdep
  pub user : Bool
  pub streams : ℕ

abbrev granted : Result (Unit {0}) → Bool
granted (ok u) = true
granted (err e) = false

-- Calls of user space: LOCK, UNLOCK, the release of the device, and a read of the lock's status.
abbrev pub user_lock : System → System
user_lock s = let r = hwdep_lock s.hwdep in record s { hwdep = r.1; user = s.user || granted r.0 }

abbrev pub user_unlock : System → System
user_unlock s =
    let r = hwdep_unlock s.hwdep in record s { hwdep = r.1; user = s.user && not (granted r.0) }

abbrev pub user_release : System → System
user_release s = record s { hwdep = hwdep_release s.hwdep; user = false }

abbrev pub user_read : ℕ → System → System
user_read count s = record s { hwdep = (hwdep_read_locked s.hwdep count).1 }

-- A stream that opens, and one that closes; only a stream that holds the lock gives it back.
abbrev pub stream_open : System → System
stream_open s =
    let r = snd_efw_stream_lock_try s.hwdep in
    record s { hwdep = r.1; streams = if granted r.0 then suc s.streams else s.streams }

abbrev pub stream_close : ℕ → System → System
stream_close n s = record s { hwdep = snd_efw_stream_lock_release s.hwdep; streams = n }

-- The systems that calls in any order lead to.
pub data Reachable : System → Type 0 where
  start :
      (r : Responses)
      → Reachable (record {
        hwdep = record { dev_lock_count = pos 0; dev_lock_changed = false; responses = r };
        user = false;
        streams = 0;
      })
  locked : {s : System} → Reachable s → Reachable (user_lock s)
  unlocked : {s : System} → Reachable s → Reachable (user_unlock s)
  released : {s : System} → Reachable s → Reachable (user_release s)
  read : {s : System} → (count : ℕ) → Reachable s → Reachable (user_read count s)
  opened : {s : System} → Reachable s → Reachable (stream_open s)
  closed : {s : System} → (n : ℕ) → s.streams ≡ suc n → Reachable s → Reachable (stream_close n s)

-- The count says who holds the lock.
abbrev pub IsExclusive : System → Type 0
IsExclusive s =
    ((s.user ≡ false) × (s.hwdep.dev_lock_count ≡ pos s.streams))
    ⊎ ((s.user ≡ true) × (s.streams ≡ 0) × (s.hwdep.dev_lock_count ≡ negsuc 0))

-- However user space and the streams take and give back the lock, user space holds it only while no
-- stream does, and the count is -1 then, and else the number of the streams that hold it.
pub Reachable-IsExclusive : (s : System) → Reachable s → IsExclusive s
unfolding hwdep_read_locked hwdep_lock hwdep_unlock hwdep_release snd_efw_stream_lock_changed
    snd_efw_stream_lock_try snd_efw_stream_lock_release
Reachable-IsExclusive _ (start r) = inl (refl, refl)
Reachable-IsExclusive _ (locked {s} r) =
    let ih = Reachable-IsExclusive s r in
    elim ih [ inl h ↦ ground (arith, h.0, h.1) | inr h ↦ ground (arith, h.0, h.1, h.2) ]
Reachable-IsExclusive _ (unlocked {s} r) =
    let ih = Reachable-IsExclusive s r in
    elim ih [ inl h ↦ ground (arith, h.0, h.1) | inr h ↦ ground (arith, h.0, h.1, h.2) ]
Reachable-IsExclusive _ (released {s} r) =
    let ih = Reachable-IsExclusive s r in
    elim ih [ inl h ↦ ground (arith, h.0, h.1) | inr h ↦ ground (arith, h.0, h.1, h.2) ]
Reachable-IsExclusive _ (read {s} count r) = Reachable-IsExclusive s r
Reachable-IsExclusive _ (opened {s} r) =
    let ih = Reachable-IsExclusive s r in
    elim ih [ inl h ↦ ground (arith, h.0, h.1) | inr h ↦ ground (arith, h.0, h.1, h.2) ]
Reachable-IsExclusive _ (closed {s} n e r) =
    let ih = Reachable-IsExclusive s r in
    elim ih [ inl h ↦ ground (arith, h.0, h.1) | inr h ↦ ground (arith, h.0, h.1, h.2) ]
