-- ===== src/Bus/Cmp.antt =====
-- Connection management: sound/firewire/cmp.c. Registers are values in the CPU's byte order.
pub mod Fields
pub mod Swap
pub mod Connect
use snd_firewire_improve.Common.{
  ℕ, zero, suc, ◌+◌, ◌-◌, ◌*◌, ◌/◌, ◌^◌, Bool, true, false, not, ◌&&◌, ◌==◌, leb, ltb,
  if◌then◌else◌, bit_and, bit_or, bit_xor, min, List, [], ◌∷◌, Option, some, none, ◌>>=◌, Result,
  ok, err, is_eagain, ebusy, econnrefused, einval, eisconn,
}
use snd_firewire_improve.Bus.{
  Register, impr, ompr, ipcr, opcr, Request, read_quadlet, lock_compare_swap, Event, Core,
}
use snd_firewire_improve.Bus.Transaction.{fw_fixed_generation, snd_fw_transaction}
use snd_firewire_improve.Bus.Resources
use snd_firewire_improve.Bus.Resources.{Resources}

pub data Direction : Type 0 where
  cmp_input cmp_output : Direction

pub data BusResetHandling : Type 0 where
  abort_on_bus_reset succeed_on_bus_reset : BusResetHandling

-- `struct cmp_connection`
pub record Connection : Type 0 where
  pub speed : ℕ
  pub connected : Bool
  pub resources : Resources
  pub last_pcr_value : ℕ
  pub pcr_index : ℕ
  pub max_speed : ℕ
  pub direction : Direction

-- The complement of a mask in 32 bits.
abbrev pub without : ℕ → ℕ
without mask = 2 ^ 32 - 1 - mask

-- PCR_BCAST_CONN | PCR_P2P_CONN_MASK
abbrev pub pcr_connections : ℕ
pcr_connections = 0x7f000000

abbrev pub pcr_online : ℕ
pcr_online = 0x80000000

-- PCR_CHANNEL_MASK besides.
abbrev pub ipcr_fields : ℕ
ipcr_fields = 0x7f3f0000

-- The masks that `opcr_set_modify` clears.
abbrev pub opcr_fields : ℕ
opcr_fields = 0x7ffffc00

-- `mpr_address`
unfoldable pub mpr_address : Core → Connection → ℕ
mpr_address core c = elim c.direction [
  | cmp_input ↦ core.csr_address impr
  | cmp_output ↦ core.csr_address ompr
]

-- `pcr_address`
unfoldable pub pcr_address : Core → Connection → ℕ
pcr_address core c = elim c.direction [
  | cmp_input ↦ core.csr_address (ipcr c.pcr_index)
  | cmp_output ↦ core.csr_address (opcr c.pcr_index)
]

-- `ipcr_set_modify`
unfoldable pub ipcr_set_modify : Connection → ℕ → ℕ
ipcr_set_modify c value =
    bit_or (bit_or (bit_and value (without ipcr_fields)) (1 * 2 ^ 24))
      (c.resources.channel * 2 ^ 16)

-- The loop of `get_overhead_id`: the first of `n` ids from `id` on that is large enough, or 0.
unfoldable pub overhead_id_from : ℕ → ℕ → ℕ → ℕ
overhead_id_from overhead zero id = 0
overhead_id_from overhead (suc n) id =
    let rest = overhead_id_from overhead n (id + 1) in
    if ltb overhead (id * 2 ^ 5) then id else rest

-- `get_overhead_id`
unfoldable pub get_overhead_id : Connection → ℕ
get_overhead_id c = overhead_id_from c.resources.bandwidth_overhead 15 1

-- The speed and the extended speed of an oPCR.
abbrev pub speed_fields : ℕ → ℕ × ℕ
speed_fields speed = if ltb 2 speed then (3, speed - 3) else (speed, 0)

-- `opcr_set_modify`
unfoldable pub opcr_set_modify : Connection → ℕ → ℕ
opcr_set_modify c value =
    let (spd, xspd) = speed_fields c.speed in
    let cleared = bit_and value (without opcr_fields) in
    bit_or
      (bit_or
        (bit_or (bit_or (bit_or cleared (1 * 2 ^ 24)) (xspd * 2 ^ 22))
          (c.resources.channel * 2 ^ 16))
        (spd * 2 ^ 14))
      (get_overhead_id c * 2 ^ 10)

-- `pcr_break_modify`
unfoldable pub pcr_break_modify : Connection → ℕ → ℕ
pcr_break_modify c value = bit_and value (without pcr_connections)

-- `pcr_set_check`
unfoldable pub pcr_set_check : ℕ → Result (Unit {0})
pcr_set_check value =
    if not (bit_and value pcr_connections == 0)
    then err ebusy
    else if bit_and value pcr_online == 0
    then err econnrefused
    else ok tt

-- The call of `check`, if there is one.
abbrev pub run_check : Option (ℕ → Result (Unit {0})) → ℕ → Result (Unit {0})
run_check none value = ok tt
run_check (some check) value = check value

-- The compare-and-swap of a register in the generation of the resources.
abbrev pub swap : Core → Connection → List Event → ℕ → ℕ → Result ℕ × List Event
swap core c log old new =
    snd_fw_transaction core log
      (record {
        tcode = lock_compare_swap;
        offset = pcr_address core c;
        data_quadlets = old ∷ new ∷ [];
        generation = 0;
      })
      (bit_or fw_fixed_generation c.resources.generation)

-- How a bus reset during the swap is answered.
abbrev pub answer_reset : BusResetHandling → Bool
answer_reset abort_on_bus_reset = false
answer_reset succeed_on_bus_reset = true

abbrev pub Outcome : Type 0
Outcome = Result (Unit {0}) × Connection × List Event

-- What follows a check, where `again` is what the next round gives.
abbrev pub settle_check :
    Result (Unit {0}) → Connection → List Event → Option Outcome → Option Outcome
settle_check (err e) c log again = some (err e, c, log)
settle_check (ok u) c log again = again

-- What follows a swap.
abbrev pub settle_swap :
    Result ℕ → Connection → List Event → ℕ → ℕ → BusResetHandling → Option Outcome → Option Outcome
settle_swap (err e) c log old new handling next =
    some (if is_eagain e && answer_reset handling then ok tt else err e, c, log)
settle_swap (ok seen) c log old new handling next =
    if seen == old then some (ok tt, record c { last_pcr_value = new }, log) else next

-- The quadlet that a transaction read, where it was completed.
abbrev pub seen_of : Result ℕ → ℕ
seen_of (ok q) = q
seen_of (err e) = 0

-- The loop of `pcr_modify` on fuel, for the value that the register is taken to have.
unfoldable pub modify_from :
    ℕ
    → Core
    → Connection
    → List Event
    → (Connection → ℕ → ℕ)
    → Option (ℕ → Result (Unit {0}))
    → BusResetHandling
    → ℕ
    → Option Outcome
modify_from zero core c log modify check handling old = none
modify_from (suc n) core c log modify check handling old =
    let new = modify c old in
    let s = swap core c log old new in
    let seen = seen_of s.0 in
    let again = modify_from n core c s.1 modify check handling seen in
    settle_swap s.0 c s.1 old new handling (settle_check (run_check check seen) c s.1 again)

-- `pcr_modify`
unfoldable pub pcr_modify :
    ℕ
    → Core
    → Connection
    → List Event
    → (Connection → ℕ → ℕ)
    → Option (ℕ → Result (Unit {0}))
    → BusResetHandling
    → Option Outcome
pcr_modify fuel core c log modify check handling =
    modify_from fuel core c log modify check handling c.last_pcr_value

-- A quadlet read of a register.
abbrev pub read : Core → List Event → ℕ → Result ℕ × List Event
read core log offset =
    snd_fw_transaction core log
      (record { tcode = read_quadlet; offset = offset; data_quadlets = []; generation = 0 }) 0

-- The speed in a master plug register; SCODE_BETA is 3.
abbrev pub mpr_speed : ℕ → ℕ
mpr_speed mpr =
    let speed = bit_and mpr 0xc0000000 / 2 ^ 30 in
    if speed == 3 then speed + bit_and mpr 0x00000060 / 2 ^ 5 else speed

-- `cmp_connection_init` behind the read of the master plug register.
abbrev pub init_from : Result ℕ → Connection → ℕ → Result (Unit {0}) × Connection
init_from (err e) c pcr_index = (err e, c)
init_from (ok mpr) c pcr_index =
    if leb (bit_and mpr 0x0000001f) pcr_index then (err einval, c) else (
      ok tt,
      record c {
        resources = Resources.init c.resources;
        connected = false;
        last_pcr_value = 0x80000000;
        pcr_index = pcr_index;
        max_speed = mpr_speed mpr;
      },
    )

-- `cmp_connection_init`
unfoldable pub init :
    Core → Connection → List Event → Direction → ℕ → Result (Unit {0}) × Connection × List Event
init core c log direction pcr_index =
    let c' = record c { direction = direction } in
    let r = read core log (mpr_address core c') in
    let i = init_from r.0 c' pcr_index in (i.0, i.1, r.1)

-- `cmp_connection_check_used`: whether the plug has a connection.
unfoldable pub check_used : Core → Connection → List Event → Result Bool × List Event
check_used core c log =
    let r = read core log (pcr_address core c) in
    (elim r.0 [ err e ↦ err e | ok pcr ↦ ok (not (bit_and pcr pcr_connections == 0)) ], r.1)

-- The `modify` function of a direction.
abbrev pub set_modify : Direction → Connection → ℕ → ℕ
set_modify cmp_output = opcr_set_modify
set_modify cmp_input = ipcr_set_modify

abbrev pub set_resources : Connection → Resources → Connection
set_resources c r = record c { resources = r }

-- The resources of a connection freed, and whether it is connected after that.
abbrev pub release : Core → Connection → List Event → Connection × List Event
release core c log = let f = Resources.free core c.resources log in (set_resources c f.0, f.1)

-- What follows the register's update in `cmp_connection_establish`.
abbrev pub settle_establish : Core → Outcome → Option Outcome → Option Outcome
settle_establish core (ok u, c, log) again = some (ok tt, record c { connected = true }, log)
settle_establish core (err e, c, log) again =
    let f = release core c log in if is_eagain e then again else some (err e, f.0, f.1)

-- What follows the allocation there.
abbrev pub after_allocate : Result ℕ → Connection → List Event → Option Outcome → Option Outcome
after_allocate (err e) c log rest = some (err e, c, log)
after_allocate (ok channel) c log rest = rest

-- `cmp_connection_establish` from `retry_after_bus_reset` on, with fuel for the retries and for
-- what it calls.
unfoldable pub establish_from : ℕ → Core → Connection → List Event → ℕ → Option Outcome
establish_from zero core c log max_payload_bytes = none
establish_from (suc n) core c log max_payload_bytes =
    Resources.allocate (suc n) core c.resources log max_payload_bytes c.speed >>= λ a.
    let c' = set_resources c a.1 in
    let modified =
      pcr_modify (suc n) core c' a.2 (set_modify c'.direction) (some pcr_set_check)
        abort_on_bus_reset in
    after_allocate a.0 c' a.2 (
      modified >>= λ m.
      let f = release core m.1 m.2 in
      settle_establish core m (establish_from n core f.0 f.1 max_payload_bytes))

-- `cmp_connection_establish`
unfoldable pub establish : ℕ → Core → Connection → List Event → ℕ → Option Outcome
establish fuel core c log max_payload_bytes =
    if c.connected
    then some (err eisconn, c, log)
    else establish_from fuel core (record c { speed = min c.max_speed core.max_speed }) log
        max_payload_bytes

-- The `err_resources` exit of `cmp_connection_update`.
abbrev pub settle_update : Core → Outcome → Outcome
settle_update core (ok u, c, log) = (ok tt, c, log)
settle_update core (err e, c, log) =
    let f = release core c log in (err e, record f.0 { connected = false }, f.1)

-- What follows the resources' update there.
abbrev pub after_update : Result ℕ → Connection → List Event → Option Outcome → Option Outcome
after_update (err e) c log rest = some (err e, record c { connected = false }, log)
after_update (ok channel) c log rest = rest

-- `cmp_connection_update`
unfoldable pub update : ℕ → Core → Connection → List Event → Option Outcome
update fuel core c log =
    let u = Resources.update core c.resources log in
    let c' = set_resources c u.1 in
    let modified =
      pcr_modify fuel core c' u.2 (set_modify c'.direction) (some pcr_set_check)
        succeed_on_bus_reset in
    if c.connected
    then after_update u.0 c' u.2 (modified >>= λ m. some (settle_update core m))
    else some (ok tt, c, log)

-- The end of `cmp_connection_break`.
abbrev pub disconnect : Core → Outcome → Connection × List Event
disconnect core m = let f = release core m.1 m.2 in (record f.0 { connected = false }, f.1)

-- `cmp_connection_break`
unfoldable pub break_connection :
    ℕ → Core → Connection → List Event → Option (Connection × List Event)
break_connection fuel core c log =
    let modified = pcr_modify fuel core c log pcr_break_modify none succeed_on_bus_reset in
    if c.connected then (modified >>= λ m. some (disconnect core m)) else some (c, log)
