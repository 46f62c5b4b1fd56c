-- ===== src/Fireworks/Hwdep.antt =====
-- The character device of an instance: sound/firewire/fireworks/fireworks_hwdep.c, and the lock that
-- it shares with the streams, in fireworks_stream.c.
pub mod Lock
use snd_firewire_improve.Common.{
  ℕ, zero, suc, ◌+◌, ◌-◌, ◌*◌, ◌≡◌, Bool, true, false, ◌&&◌, ◌||◌, ◌==◌, leb, ltb, not,
  if◌then◌else◌, min, ℤ, pos, negsuc, is_negative, List, [], ◌∷◌, length, Option, some, none, ◌>>=◌,
  Result, ok, err, Errno, eio, einval, ebusy, ebadfd, erestartsys,
}
use snd_firewire_improve.Fireworks.Ring.{Responses, word_at, hwdep_read_resp_buf}
use snd_firewire_improve.Fireworks.Transaction.{snd_efw_transaction_user_seqnum_max}

-- The fields of `struct snd_efw` for the character device.
pub record Hwdep : Type 0 where
  pub dev_lock_count : ℤ
  pub dev_lock_changed : Bool
  pub responses : Responses

-- `++` and `--` on `dev_lock_count`
abbrev pub increment : ℤ → ℤ
increment (pos n) = pos (suc n)
increment (negsuc zero) = pos 0
increment (negsuc (suc n)) = negsuc n

abbrev pub decrement : ℤ → ℤ
decrement (pos zero) = negsuc 0
decrement (pos (suc n)) = pos n
decrement (negsuc n) = negsuc (suc n)

abbrev pub is_zero : ℤ → Bool
is_zero (pos zero) = true
is_zero _ = false

-- `dev_lock_count == -1`
abbrev pub is_user_lock : ℤ → Bool
is_user_lock (negsuc zero) = true
is_user_lock _ = false

-- `dev_lock_count > 0`
abbrev pub is_stream_lock : ℤ → Bool
is_stream_lock (pos (suc n)) = true
is_stream_lock _ = false

-- What a read hands over: the status of the lock, cut to a number of bytes, or responses behind
-- their type.
pub data Event : Type 0 where
  lock_status : Bool → ℕ → Event
  efw_response : List ℕ → Event

-- `hwdep_read_locked`; the event is 8 bytes. The user's memory is taken to be writable.
unfoldable pub hwdep_read_locked : Hwdep → ℕ → Event × Hwdep
hwdep_read_locked h count = (
  Event.lock_status (is_stream_lock h.dev_lock_count) (min count 8),
  record h { dev_lock_changed = false },
)

abbrev pub read_event : Result (List ℕ) → Result Event
read_event (ok bytes) = ok (Event.efw_response bytes)
read_event (err e) = err e

-- The end of `hwdep_read`, when there is something to read.
unfoldable pub read_ready : Hwdep → ℕ → Option (Result Event × Hwdep)
read_ready h count =
    let locked = hwdep_read_locked h count in
    let responses = hwdep_read_resp_buf h.responses count >>= λ r.
    some (read_event r.0, record h { responses = r.1 }) in
    if h.dev_lock_changed then some (ok locked.0, locked.1) else responses

-- `(!efw->dev_lock_changed) && (efw->resp_queues == 0)`
unfoldable pub has_nothing : Hwdep → Bool
has_nothing h = not h.dev_lock_changed && h.responses.resp_queues == 0

-- `hwdep_read`, with what each wake-up finds: whether a signal is pending, and the state. `none`
-- also says that it still sleeps after the last one.
unfoldable pub hwdep_read : Hwdep → ℕ → List (Bool × Hwdep) → Option (Result Event × Hwdep)
hwdep_read h count [] = if has_nothing h then none else read_ready h count
hwdep_read h count (w ∷ ws) =
    let again = hwdep_read w.1 count ws in
    if has_nothing h
    then (if w.0 then some (err erestartsys, w.1) else again)
    else read_ready h count

abbrev pub sent_count : Result (Unit {0}) → ℕ → Result ℕ
sent_count (ok u) count = ok count
sent_count (err e) count = err eio

-- The part of `hwdep_write` behind the test of the size.
unfoldable pub write_copied :
    (List ℕ → Result (Unit {0})) → Result (Unit {0}) → List ℕ → Option (Result ℕ × Option (List ℕ))
write_copied send (err e) bytes = some (err e, none)
write_copied send (ok u) bytes = word_at bytes 8 >>= λ seqnum.
    if ltb snd_efw_transaction_user_seqnum_max seqnum
    then some (err einval, none)
    else some (sent_count (send bytes) (length bytes), some bytes)

-- `hwdep_write` for the bytes that user space gives: `send` is what `snd_efw_transaction_cmd` answers
-- for them, and `copied` what `memdup_user` does. The second part says what was sent.
unfoldable pub hwdep_write :
    (List ℕ → Result (Unit {0})) → Result (Unit {0}) → List ℕ → Option (Result ℕ × Option (List ℕ))
hwdep_write send copied bytes =
    if ltb (length bytes) 24 || ltb 512 (length bytes)
    then some (err einval, none)
    else write_copied send copied bytes

-- `hwdep_poll`: whether a read would not sleep. A write never does.
unfoldable pub hwdep_poll : Hwdep → Bool
hwdep_poll h = h.dev_lock_changed || ltb 0 h.responses.resp_queues

-- `hwdep_lock`
unfoldable pub hwdep_lock : Hwdep → Result (Unit {0}) × Hwdep
hwdep_lock h =
    if is_zero h.dev_lock_count
    then (ok tt, record h { dev_lock_count = negsuc 0 })
    else (err ebusy, h)

-- `hwdep_unlock`
unfoldable pub hwdep_unlock : Hwdep → Result (Unit {0}) × Hwdep
hwdep_unlock h =
    if is_user_lock h.dev_lock_count
    then (ok tt, record h { dev_lock_count = pos 0 })
    else (err ebadfd, h)

-- `hwdep_release`
unfoldable pub hwdep_release : Hwdep → Hwdep
hwdep_release h = if is_user_lock h.dev_lock_count then record h { dev_lock_count = pos 0 } else h

-- `snd_efw_stream_lock_changed`
unfoldable pub snd_efw_stream_lock_changed : Hwdep → Hwdep
snd_efw_stream_lock_changed h = record h { dev_lock_changed = true }

-- `snd_efw_stream_lock_try`
unfoldable pub snd_efw_stream_lock_try : Hwdep → Result (Unit {0}) × Hwdep
snd_efw_stream_lock_try h =
    let next = record h { dev_lock_count = increment h.dev_lock_count } in
    if is_negative h.dev_lock_count
    then (err ebusy, h)
    else (ok tt, if is_zero h.dev_lock_count then snd_efw_stream_lock_changed next else next)

-- `snd_efw_stream_lock_release`
unfoldable pub snd_efw_stream_lock_release : Hwdep → Hwdep
snd_efw_stream_lock_release h =
    let next = record h { dev_lock_count = decrement h.dev_lock_count } in
    if is_stream_lock h.dev_lock_count
    then (if is_zero next.dev_lock_count then snd_efw_stream_lock_changed next else next)
    else h
