-- ===== src/Bus/Resources.antt =====
-- Channel and bandwidth of a stream: sound/firewire/iso-resources.c.
pub mod Balance
pub mod Bandwidth
pub mod Ends
use snd_firewire_improve.Common.{
  ℕ, zero, suc, ◌+◌, ◌-◌, ◌*◌, ◌/◌, ◌%◌, ◌^◌, Bool, true, false, ◌==◌, leb, ltb, if◌then◌else◌,
  List, ◌∷◌, Option, some, none, ◌>>=◌, ℤ, pos, negsuc, Result, ok, err, Errno, is_eagain, ebadfd,
  erestartsys,
}
use snd_firewire_improve.Bus.{Managed, Event, Core}

-- `struct fw_iso_resources`
pub record Resources : Type 0 where
  pub channels_mask : ℕ
  pub channel : ℕ
  pub bandwidth : ℕ
  pub bandwidth_overhead : ℕ
  pub generation : ℕ
  pub allocated : Bool

-- `fw_iso_resources_init`; the other fields are as they were.
unfoldable pub init : Resources → Resources
init r = record r { channels_mask = 2 ^ 64 - 1; allocated = false }

abbrev scode_400 : ℕ
scode_400 = 2

abbrev u32 : ℕ → ℕ
u32 n = n % 2 ^ 32

-- `packet_bandwidth`: three header quadlets and the payload in whole quadlets, in units of a byte
-- at S400.
unfoldable pub packet_bandwidth : ℕ → ℕ → ℕ
packet_bandwidth max_payload_bytes speed =
    let bytes = u32 (3 * 4 + u32 (max_payload_bytes + 3) / 4 * 4) in
    if leb speed scode_400
    then u32 (bytes * 2 ^ (scode_400 - speed))
    else u32 (bytes + (2 ^ (speed - scode_400) - 1)) / 2 ^ (speed - scode_400)

-- `current_bandwidth_overhead`, for a gap count.
unfoldable pub current_bandwidth_overhead : ℕ → ℕ
current_bandwidth_overhead gap_count = if ltb gap_count 63 then gap_count * 97 / 10 + 89 else 512

-- A delay of 0 or less is over.
abbrev pub remaining : ℤ → ℕ
remaining (pos d) = d
remaining (negsuc d) = 0

-- `wait_isoch_resource_delay_after_bus_reset`, on fuel: `none` where it is spent.
unfoldable pub wait_after_bus_reset :
    ℕ → Core → List Event → Option (Result (Unit {0}) × List Event)
wait_after_bus_reset zero core log = none
wait_after_bus_reset (suc n) core log =
    let delay = remaining (core.delay log) in
    let log' = Event.slept delay ∷ log in
    let rest = wait_after_bus_reset n core log' in
    if delay == 0
    then some (ok tt, log)
    else if ltb 0 (core.sleep log delay)
    then some (err erestartsys, log')
    else rest

-- The call of fw_iso_resource_manage, for these channels.
unfoldable pub manage : Core → Resources → List Event → ℕ → Bool → Result ℕ × List Event
manage core r log mask allocate =
    let bandwidth = r.bandwidth + r.bandwidth_overhead in
    let answer = core.manage log r.generation mask bandwidth allocate in
    (
      answer,
      Event.managed (record {
        generation = r.generation;
        channels_mask = mask;
        bandwidth = bandwidth;
        allocate = allocate;
        answer = answer;
      })
          ∷ log,
    )

-- The generation and the overhead of now.
abbrev pub refresh : Core → Resources → List Event → Resources
refresh core r log = record r {
  generation = core.card_generation log;
  bandwidth_overhead = current_bandwidth_overhead (core.gap_count log);
}

-- What the manager's answer means for an allocation, where `again` is what another try gives.
abbrev pub settle_allocate :
    Result ℕ
    → Resources
    → List Event
    → Option (Result ℕ × Resources × List Event)
    → Option (Result ℕ × Resources × List Event)
settle_allocate (ok channel) r log again =
    some (ok channel, record r { channel = channel; allocated = true }, log)
settle_allocate (err e) r log again = if is_eagain e then again else some (err e, r, log)

-- An allocation behind the wait, which a signal may have ended.
abbrev pub after_wait :
    Result (Unit {0})
    → Resources
    → List Event
    → Option (Result ℕ × Resources × List Event)
    → Option (Result ℕ × Resources × List Event)
after_wait (err e) r log rest = some (err e, r, log)
after_wait (ok u) r log rest = rest

-- `fw_iso_resources_allocate` from `retry_after_bus_reset` on, with fuel for the retries and for
-- each wait.
unfoldable pub allocate_from :
    ℕ → Core → Resources → List Event → Option (Result ℕ × Resources × List Event)
allocate_from zero core r log = none
allocate_from (suc n) core r log =
    let r' = refresh core r log in
    wait_after_bus_reset (suc n) core log >>= λ w.
    let m = manage core r' w.1 r'.channels_mask true in
    let again = allocate_from n core r' m.1 in
    after_wait w.0 r' w.1 (settle_allocate m.0 r' m.1 again)

-- `fw_iso_resources_allocate`
unfoldable pub allocate :
    ℕ → Core → Resources → List Event → ℕ → ℕ → Option (Result ℕ × Resources × List Event)
allocate fuel core r log max_payload_bytes speed =
    if r.allocated
    then some (err ebadfd, r, log)
    else allocate_from fuel core (record r { bandwidth = packet_bandwidth max_payload_bytes speed })
        log

-- What the manager's answer means for resources that were allocated before a bus reset.
abbrev pub settle_update : Result ℕ → Resources → Resources
settle_update (ok channel) r = r
settle_update (err e) r = if is_eagain e then r else record r { allocated = false }

-- `fw_iso_resources_update` where something is allocated.
unfoldable pub reallocate : Core → Resources → List Event → Result ℕ × Resources × List Event
reallocate core r log =
    let r' = refresh core r log in
    let m = manage core r' log (2 ^ r'.channel) true in (m.0, settle_update m.0 r', m.1)

-- `fw_iso_resources_update`: the answer of the manager, or 0 where nothing is allocated.
unfoldable pub update : Core → Resources → List Event → Result ℕ × Resources × List Event
update core r log = if r.allocated then reallocate core r log else (ok 0, r, log)

-- `fw_iso_resources_free`
unfoldable pub free : Core → Resources → List Event → Resources × List Event
free core r log =
    if r.allocated
    then (record r { allocated = false }, (manage core r log (2 ^ r.channel) false).1)
    else (r, log)
