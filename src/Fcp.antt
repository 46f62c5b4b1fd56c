-- ===== src/Fcp.antt =====
-- AV/C commands and their responses: sound/firewire/fcp.c.
pub mod Match
pub mod Response
pub mod Wait
pub mod General
mod Tests
use snd_firewire_improve.Common.{
  ℕ, zero, suc, ◌+◌, ◌-◌, ◌/◌, ◌%◌, Bool, true, false, not, ◌&&◌, ◌||◌, ◌==◌, leb, ltb,
  if◌then◌else◌, bit_and, min, List, [], ◌∷◌, ◌++◌, length, take, drop, Option, some, none, ◌>>=◌,
  Result, ok, err, eio,
}

-- `enum fcp_state`
pub data State : Type 0 where
  pending bus_reset complete deferred : State

-- A device on the bus; `struct fw_device` as far as the handler reads it.
pub record Device : Type 0 where
  pub card : ℕ
  pub generation : ℕ
  pub node_id : ℕ

-- `struct fcp_transaction`, with the device of its unit. A transaction's wait queue needs no field.
pub record Transaction : Type 0 where
  pub unit : ℕ
  pub device : Device
  pub response_buffer : List ℕ
  pub response_size : ℕ
  pub response_match_bytes : ℕ
  pub state : State
  pub deferrable : Bool

abbrev pub is_pending : State → Bool
is_pending pending = true
is_pending _ = false

abbrev pub is_open : State → Bool
is_open pending = true
is_open deferred = true
is_open _ = false

-- `p2 + 1`
abbrev pub tail : List ℕ → List ℕ
tail [] = []
tail (x ∷ xs) = xs

-- `(mask & 1) && p1[i] != p2[i]`, where p2 is read for a bit that is set only.
unfoldable pub differs : ℕ → List ℕ → ℕ → Option Bool
differs byte [] mask = if mask % 2 == 1 then none else some false
differs byte (q ∷ qs) mask = some (mask % 2 == 1 && not (byte == q))

-- The loop of `is_matching_response` over the bytes of the response that are left.
unfoldable pub is_matching : List ℕ → List ℕ → ℕ → Option Bool
is_matching [] expected mask = none
is_matching (b ∷ []) expected mask =
    differs b expected mask >>= λ d. if d then some false else some (mask / 2 == 0)
is_matching (b ∷ c ∷ bs) expected mask =
    let rest = is_matching (c ∷ bs) (tail expected) (mask / 2) in
    differs b expected mask >>= λ d.
    if d then some false else if mask / 2 == 0 then some true else rest

-- `is_matching_response`
unfoldable pub is_matching_response : Transaction → List ℕ → Option Bool
is_matching_response t response = is_matching response t.response_buffer t.response_match_bytes

-- `memcpy` of n bytes to the start of a buffer.
unfoldable pub copy : ℕ → List ℕ → List ℕ → Option (List ℕ)
copy n bytes buffer =
    if leb n (length buffer) && leb n (length bytes)
    then some (take n bytes ++ drop n buffer)
    else none

-- What an answer that matches does.
unfoldable pub complete_with : Transaction → List ℕ → ℕ → Option Transaction
complete_with t response first =
    let size = min (length response) t.response_size in
    if t.deferrable && first == 0x0f
    then some (record t { state = deferred })
    else copy size response t.response_buffer >>= λ buffer.
        some (record t { state = complete; response_size = size; response_buffer = buffer })

-- The device tests of `fcp_response`.
abbrev pub is_from : Device → Device → Bool
is_from d source =
    d.card == source.card && d.generation == source.generation && d.node_id == source.node_id

-- Its body for a transaction of the list.
unfoldable pub respond : Transaction → Device → List ℕ → ℕ → Option Transaction
respond t source response first =
    if is_from t.device source && is_pending t.state
    then (is_matching_response t response >>= λ matches.
        if matches then complete_with t response first else some t)
    else some t

unfoldable pub respond_all : List Transaction → Device → List ℕ → ℕ → Option (List Transaction)
respond_all [] source response first = some []
respond_all (t ∷ ts) source response first = respond t source response first >>= λ t'.
    respond_all ts source response first >>= λ ts'. some (t' ∷ ts')

-- `fcp_response`; CTS_AVC is 0.
unfoldable pub fcp_response : List Transaction → Device → List ℕ → Option (List Transaction)
fcp_response ts source [] = some ts
fcp_response ts source (b ∷ bs) =
    if bit_and b 0xf0 == 0 then respond_all ts source (b ∷ bs) b else some ts

-- `fcp_bus_reset` for a transaction of the list.
unfoldable pub reset : ℕ → Transaction → Transaction
reset unit t = if t.unit == unit && is_open t.state then record t { state = bus_reset } else t

unfoldable pub fcp_bus_reset : ℕ → List Transaction → List Transaction
fcp_bus_reset unit [] = []
fcp_bus_reset unit (t ∷ ts) = reset unit t ∷ fcp_bus_reset unit ts

-- The transaction that `fcp_avc_transaction` starts with. `deferrable` is only set for CONTROL and
-- NOTIFY; otherwise it is what was on the stack, `garbage`.
unfoldable pub started : ℕ → Device → List ℕ → ℕ → ℕ → ℕ → Bool → Transaction
started unit device response response_size match_bytes ctype garbage = record {
  unit = unit;
  device = device;
  response_buffer = response;
  response_size = response_size;
  response_match_bytes = match_bytes;
  state = pending;
  deferrable = if ctype == 0x00 || ctype == 0x03 then true else garbage;
}

-- What the n-th write of the command answers, and what the handlers do to the transaction during
-- the n-th wait.
pub record World : Type 0 where
  pub write : ℕ → Result (Unit {0})
  pub wait : ℕ → Transaction → Transaction

-- What follows a write.
abbrev pub after_write :
    Result (Unit {0})
    → Transaction
    → Option (Result ℕ × Transaction)
    → Option (Result ℕ × Transaction)
after_write (err e) t next = some (err e, t)
after_write (ok u) t next = next

-- The loop of `fcp_avc_transaction` on fuel: with `left`, the tries left behind this one, which
-- ERROR_RETRIES makes 2 at first. `n` counts the rounds, and `deferral` says that this one starts
-- at the label `deferred`.
unfoldable pub transact : ℕ → World → ℕ → ℕ → Bool → Transaction → Option (Result ℕ × Transaction)
transact zero world n left deferral t = none
transact (suc fuel) world n left deferral t =
    let waited = world.wait n t in
    let after_deferral =
      transact fuel world (n + 1) left true (record waited { state = pending }) in
    let after_reset = transact fuel world (n + 1) left false waited in
    let again = transact fuel world (n + 1) (left - 1) false waited in
    let next : Option (Result ℕ × Transaction) = elim waited.state [
      | deferred ↦ after_deferral
      | complete ↦ some (ok waited.response_size, waited)
      | bus_reset ↦ after_reset
      | pending ↦ if left == 0 then some (err eio, waited) else again
    ] in
    if deferral then next else after_write (world.write n) t next

-- `fcp_avc_transaction` behind the list's update.
unfoldable pub fcp_avc_transaction : ℕ → World → Transaction → Option (Result ℕ × Transaction)
fcp_avc_transaction fuel world t = transact fuel world 0 2 false t
