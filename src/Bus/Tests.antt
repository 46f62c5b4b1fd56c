-- ===== src/Bus/Tests.antt =====
-- The theorems on transactions, resources and connections, at concrete cores.
use snd_firewire_improve.Common.{
  ℕ, ◌-◌, ◌^◌, ◌≤◌, ◌<◌, ◌≡◌, ◌⊎◌, inl, refl, true, false, List, [], ◌∷◌, length, ltb,
  if◌then◌else◌, some, pos, Result, ok, err, eagain, ebadfd, arith,
}
use snd_firewire_improve.Bus.{
  complete, read_quadlet, lock_compare_swap, Request, Managed, Event, Core,
}
use snd_firewire_improve.Bus.Transaction.{attempt, snd_fw_transaction}
use snd_firewire_improve.Bus.Transaction.Tries.{Ends, snd_fw_transaction_lem}
use snd_firewire_improve.Bus.Resources.{
  Resources, packet_bandwidth, current_bandwidth_overhead, wait_after_bus_reset, allocate_from,
  allocate, update, free, manage,
}
use snd_firewire_improve.Bus.Resources.Balance.{
  last_managed, IsBalanced, IsSettled, IsRenewed, update-IsBalanced, allocate-IsSettled,
}
use snd_firewire_improve.Bus.Resources.Ends.{Settles, IsEnded, allocate-some}
use snd_firewire_improve.Bus.Cmp
use snd_firewire_improve.Bus.Cmp.{
  Connection, cmp_output, abort_on_bus_reset, ipcr_set_modify, opcr_set_modify, get_overhead_id,
  overhead_id_from, pcr_address, pcr_break_modify, pcr_set_check, modify_from, pcr_modify,
  establish_from, establish, break_connection, Outcome,
}
use snd_firewire_improve.Bus.Cmp.Swap.{IsSwapped, pcr_modify-IsSwapped}
use snd_firewire_improve.Bus.Cmp.Connect.{
  IsConnected, IsEstablished, break_connection-IsConnected, establish-IsEstablished, update_reset,
}

-- A core at rest whose plug is on-line and free, and which always gives channel 5.
abbrev pub some_core : Core
some_core = record {
  run = λ _ _. (complete, 0x80000000);
  csr_address = λ _. 0x904;
  max_speed = 2;
  device_generation = λ _. 1;
  card_generation = λ _. 1;
  gap_count = λ _. 5;
  delay = λ _. pos 0;
  sleep = λ _ _. 0;
  manage = λ _ _ _ _ _. ok 5;
}

-- The same where the manager sees a bus reset each time.
abbrev resetting_core : Core
resetting_core = record some_core { manage = λ _ _ _ _ _. err eagain }

abbrev some_request : Request
some_request = record { tcode = read_quadlet; offset = 0x904; data_quadlets = []; generation = 0 }

snd_fw_transaction_lem_example :
    let r = snd_fw_transaction some_core [] some_request 0 in
    Ends some_core some_request 0 [] 2 r.0 r.1 × (0 < length r.1) × (length r.1 ≤ 3)
snd_fw_transaction_lem_example = snd_fw_transaction_lem some_core [] some_request 0

abbrev some_resources : Resources
some_resources = record {
  channels_mask = 2 ^ 64 - 1;
  channel = 0;
  bandwidth = 0;
  bandwidth_overhead = 0;
  generation = 0;
  allocated = false;
}

fresh : IsBalanced some_resources []
unfolding last_managed
fresh = record { held = λ e. cc; idle = λ e m f. cc }

abbrev allocation : Managed
allocation = record {
  generation = 1;
  channels_mask = 2 ^ 64 - 1;
  bandwidth = 252;
  allocate = true;
  answer = ok 5;
}

abbrev held_resources : Resources
held_resources = record some_resources {
  channel = 5;
  bandwidth = 115;
  bandwidth_overhead = 137;
  generation = 1;
  allocated = true;
}

allocated :
    allocate 3 some_core some_resources [] 101 2
    ≡ some (
      ok 5,
      record held_resources { bandwidth = 116 },
      Event.managed (record allocation { bandwidth = 253 }) ∷ [],
    )
unfolding allocate allocate_from wait_after_bus_reset manage packet_bandwidth
    current_bandwidth_overhead
allocated = refl

allocate-IsSettled_example :
    IsSettled
      (ok 5)
      (record held_resources { bandwidth = 116 })
      (Event.managed (record allocation { bandwidth = 253 }) ∷ [])
allocate-IsSettled_example =
    allocate-IsSettled 3 some_core some_resources [] 101 2
      (
        ok 5,
        record held_resources { bandwidth = 116 },
        Event.managed (record allocation { bandwidth = 253 }) ∷ [],
      )
      refl fresh allocated

-- A core whose manager sees two bus resets.
abbrev twice_reset_core : Core
twice_reset_core = record some_core {
  manage = λ log _ _ _ _. if ltb (length log) 2 then err eagain else ok 5;
}

settled : Settles twice_reset_core (λ log. 2 - length log)
settled = record {
  elapsed = λ log d e p f. absurd (omega arith);
  spoilt = λ log m a x. (let e = x.1 in ground (arith, a, e));
}

allocate-some_example :
    (o : Result ℕ × Resources × List Event) × (allocate 3 twice_reset_core some_resources [] 101 2
      ≡ some o)
    × (((false ≡ true) × (o ≡ (err ebadfd, some_resources, [])))
        ⊎ ((false ≡ false) × IsEnded twice_reset_core o))
allocate-some_example =
    allocate-some twice_reset_core (λ log. 2 - length log) 3 some_resources [] 101 2 settled
      (omega arith)

balanced : IsBalanced held_resources (Event.managed allocation ∷ [])
unfolding last_managed
balanced = record {
  held = λ e. (
    allocation,
    refl,
    record {
      allocates = refl;
      same_bandwidth = refl;
      same_generation = refl;
      same_channel = inl refl;
    },
  );
  idle = λ e m f. cc;
}

update-IsBalanced_example :
    let log = Event.managed allocation ∷ [] in
    let t = update some_core held_resources log in
    IsBalanced t.1 t.2
    × (((true ≡ false) × (t ≡ (ok 0, held_resources, log)))
        ⊎ ((true ≡ true) × IsRenewed some_core held_resources log t))
update-IsBalanced_example =
    update-IsBalanced some_core held_resources (Event.managed allocation ∷ []) balanced

abbrev pub some_connection : Connection
some_connection = record {
  speed = 2;
  connected = false;
  resources = some_resources;
  last_pcr_value = 0x80000000;
  pcr_index = 0;
  max_speed = 2;
  direction = cmp_output;
}

abbrev held_connection : Connection
held_connection = record some_connection { connected = true; resources = held_resources }

-- The swap that makes a connection with channel 5.
abbrev swap_event : Event
swap_event = Event.requested (record {
  tcode = lock_compare_swap;
  offset = 0x904;
  data_quadlets = 0x80000000 ∷ 2164626432 ∷ [];
  generation = 1;
})

abbrev swapped : Outcome
swapped = (ok tt, record held_connection { last_pcr_value = 2164626432 }, swap_event ∷ [])

pcr_set :
    pcr_modify 2 some_core held_connection [] opcr_set_modify
      (some pcr_set_check)
      abort_on_bus_reset
    ≡ some swapped
unfolding pcr_modify modify_from snd_fw_transaction attempt opcr_set_modify get_overhead_id
    overhead_id_from pcr_address
pcr_set = refl

pcr_modify-IsSwapped_example :
    IsSwapped some_core held_connection opcr_set_modify (some pcr_set_check) 0x80000000 swapped
pcr_modify-IsSwapped_example =
    pcr_modify-IsSwapped 2 some_core held_connection [] opcr_set_modify (some pcr_set_check) swapped
      pcr_set refl

pub unconnected : IsConnected some_connection []
unconnected = record { balanced = fresh; together = refl }

-- How the connection is established on that core.
abbrev established : Outcome
established = (
  ok tt,
  record held_connection {
    resources = record held_resources { bandwidth = 116 };
    last_pcr_value = 2164626432;
  },
  swap_event ∷ Event.managed (record allocation { bandwidth = 253 }) ∷ [],
)

connects : establish 2 some_core some_connection [] 101 ≡ some established
unfolding establish establish_from allocate allocate_from wait_after_bus_reset manage
    packet_bandwidth current_bandwidth_overhead pcr_modify modify_from snd_fw_transaction attempt
    opcr_set_modify get_overhead_id overhead_id_from pcr_address
connects = refl

establish-IsEstablished_example : IsEstablished established
establish-IsEstablished_example =
    establish-IsEstablished 2 some_core some_connection [] 101 established unconnected refl connects

connected : IsConnected held_connection (Event.managed allocation ∷ [])
connected = record { balanced = balanced; together = refl }

-- The connection after it is broken, on a register that a bus reset has cleared.
abbrev broken : Connection × List Event
broken = (
  record held_connection {
    connected = false;
    resources = record held_resources { allocated = false };
    last_pcr_value = 0x80000000;
  },
  Event.managed (record {
    generation = 1;
    channels_mask = 2 ^ 5;
    bandwidth = 252;
    allocate = false;
    answer = ok 5;
  })
      ∷ Event.requested (record {
        tcode = lock_compare_swap;
        offset = 0x904;
        data_quadlets = 0x80000000 ∷ 0x80000000 ∷ [];
        generation = 1;
      })
      ∷ Event.managed allocation
      ∷ [],
)

breaks : break_connection 2 some_core held_connection (Event.managed allocation ∷ []) ≡ some broken
unfolding break_connection pcr_modify modify_from snd_fw_transaction attempt pcr_break_modify
    pcr_address free manage
breaks = refl

break_connection-IsConnected_example :
    IsConnected broken.0 broken.1
    × (broken.0.connected ≡ false)
    × (broken.0.resources.allocated ≡ false)
break_connection-IsConnected_example =
    break_connection-IsConnected 2 some_core held_connection (Event.managed allocation ∷ []) broken
      connected breaks

update_reset_example :
    (t : Connection) × (log' : List Event) × (Cmp.update 2 resetting_core held_connection []
      ≡ some (err eagain, t, log'))
    × (t.connected ≡ false)
    × (t.resources.allocated ≡ true)
    × ((later : List Event)
        → (u : Connection) × (establish 2 resetting_core t later 101 ≡ some (err ebadfd, u, later)))
unfolding manage
update_reset_example = update_reset 2 1 resetting_core held_connection [] 101 refl refl refl
