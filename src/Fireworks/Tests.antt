-- ===== src/Fireworks/Tests.antt =====
-- The theorems on the ring buffer, transactions, commands, the lock and the streams, at concrete states.
use snd_firewire_improve.Common.{
  ℕ, ◌<◌, ◌≡◌, refl, true, false, List, [], ◌∷◌, ◌++◌, take, replicate, ◌==◌, if◌then◌else◌, none,
  some, pos, ok, arith, err, ebusy,
}
use snd_firewire_improve.Bus.{Rcode, Core, Event}
use snd_firewire_improve.Bus.Resources.{
  allocate, allocate_from, wait_after_bus_reset, manage, packet_bandwidth,
  current_bandwidth_overhead,
}
use snd_firewire_improve.Bus.Cmp.{establish, establish_from}
use snd_firewire_improve.Amdtp.Config.{set_parameters, find_sfc, set_rate, init_positions}
use snd_firewire_improve.Amdtp.Queue.{get_max_payload}
use snd_firewire_improve.Bus.Tests.{some_core, some_connection, unconnected}
use snd_firewire_improve.Amdtp.Tests.{some_env, some_stream}
use snd_firewire_improve.Fireworks.Stream.{Side, SideOutcome, Host, start_side, after_establish}
use snd_firewire_improve.Bus.{read_quadlet}
use snd_firewire_improve.Fireworks.Stream.{Efw}
use snd_firewire_improve.Fireworks.Stream.Start.{IsStarted, start_side-IsStarted}
use snd_firewire_improve.Fcp.{Device, copy}
use snd_firewire_improve.Fireworks.Ring.{
  Responses, word_at, write_at, copy_in, capacity, copy_resp_to_buf, hwdep_read_resp_buf,
}
use snd_firewire_improve.Fireworks.Ring.Bytes.{pop_bytes}
use snd_firewire_improve.Fireworks.Ring.Queue.{Represents, copy_resp_to_buf-offer}
use snd_firewire_improve.Fireworks.Ring.Serve.{hwdep_read_resp_buf-serve}
use snd_firewire_improve.Fireworks.Ring.Full.{copy_resp_to_buf_full}
use snd_firewire_improve.Fireworks.Transaction.{
  Instance, TransactionQueue, Driver, efw_response, handle_resp_for_kernel, handle_resp_for_user,
  respond_to, memory_space_efw_response,
}
use snd_firewire_improve.Fireworks.Transaction.Response.{started, answered}
use snd_firewire_improve.Fireworks.Transaction.Serial.{efw_response-hwdep_write}
use snd_firewire_improve.Fireworks.Hwdep.{hwdep_write, write_copied}
use snd_firewire_improve.Fireworks.Hwdep.Lock.{
  System, start, opened, locked, user_lock, stream_open, IsExclusive, Reachable-IsExclusive,
}
use snd_firewire_improve.Fireworks.Command.{Port, be32, header, next_seqnum, efw_transaction}
use snd_firewire_improve.Fireworks.Command.Exchange.{command_buffer, efw_transaction-response}

-- A ring of 12 bytes that is empty, with its pointers at the last quadlet.
abbrev empty_ring : Responses
empty_ring = record { resp_buf = replicate 12 0; pull_ptr = 8; push_ptr = 8; resp_queues = 0 }

abbrev empty_ring-Represents : Represents empty_ring []
unfolding pop_bytes
empty_ring-Represents = ((omega arith, refl, refl, omega arith), tt, refl, omega arith, refl)

-- A response of two quadlets, with a byte behind it.
abbrev two_quadlets : List ℕ
two_quadlets = 0 ∷ 0 ∷ 0 ∷ 2 ∷ 5 ∷ 6 ∷ 7 ∷ 8 ∷ 9 ∷ []

copy_resp_to_buf-offer_example :
    (r' : Responses) × (copy_resp_to_buf empty_ring two_quadlets ≡ some (true, r'))
    × Represents r' (take 8 two_quadlets ∷ [])
unfolding word_at
copy_resp_to_buf-offer_example =
    copy_resp_to_buf-offer empty_ring [] two_quadlets 2 empty_ring-Represents (omega arith) refl
      (omega arith) (omega arith)

-- A full ring: a response of two quadlets, which goes round the end, and one of one quadlet.
abbrev long_response : List ℕ
long_response = 0 ∷ 0 ∷ 0 ∷ 2 ∷ 5 ∷ 6 ∷ 7 ∷ 8 ∷ []

abbrev short_response : List ℕ
short_response = 0 ∷ 0 ∷ 0 ∷ 1 ∷ []

abbrev full_ring : Responses
full_ring = record {
  resp_buf = 5 ∷ 6 ∷ 7 ∷ 8 ∷ 0 ∷ 0 ∷ 0 ∷ 1 ∷ 0 ∷ 0 ∷ 0 ∷ 2 ∷ [];
  pull_ptr = 8;
  push_ptr = 8;
  resp_queues = 2;
}

abbrev full_ring-Represents : Represents full_ring (long_response ∷ short_response ∷ [])
unfolding word_at pop_bytes
full_ring-Represents = (
  (omega arith, refl, refl, omega arith),
  ((2, refl, refl, omega arith), ((1, refl, refl, omega arith), tt)),
  refl,
  omega arith,
  refl,
)

hwdep_read_resp_buf-serve_example :
    (r' : Responses) × (hwdep_read_resp_buf full_ring 28
      ≡ some (ok (long_response ++ short_response), r'))
    × Represents r' []
hwdep_read_resp_buf-serve_example =
    hwdep_read_resp_buf-serve full_ring (long_response ∷ short_response ∷ []) 28
      full_ring-Represents (omega arith)

copy_resp_to_buf_full_example :
    (r' : Responses) × (q : ℕ) × (copy_resp_to_buf full_ring two_quadlets ≡ some (true, r'))
    × (r'.pull_ptr ≡ 8)
    × (r'.resp_queues ≡ 3)
    × (pop_bytes 8 r'.resp_buf r'.pull_ptr ≡ some (take 8 two_quadlets, q))
unfolding word_at
copy_resp_to_buf_full_example =
    copy_resp_to_buf_full full_ring (long_response ∷ short_response ∷ []) two_quadlets 2
      full_ring-Represents refl refl (omega arith) (omega arith)

-- The lock is tried by user space while a stream holds it.
abbrev some_device : Device
some_device = record { card = 1; generation = 3; node_id = 7 }

abbrev unlocked_system : System
unlocked_system = record {
  hwdep = record { dev_lock_count = pos 0; dev_lock_changed = false; responses = empty_ring };
  user = false;
  streams = 0;
}

Reachable-IsExclusive_example : IsExclusive (user_lock (stream_open unlocked_system))
Reachable-IsExclusive_example =
    Reachable-IsExclusive (user_lock (stream_open unlocked_system))
      (locked (opened (start empty_ring)))

-- An instance with an empty ring, added to an empty list.
abbrev some_instance : Instance
some_instance = record { id = 4; device = some_device; responses = empty_ring }

-- A command of user space, with number 2, and the response to it.
abbrev user_command : List ℕ
user_command = header 24 2 3 1

abbrev user_response : List ℕ
user_response = header 24 3 3 1

abbrev idle_driver : Driver
idle_driver = record {
  transactions = started 0 some_device 65536 (replicate 24 0) ∷ [];
  instances =
      some (record some_instance { responses = record empty_ring { resp_buf = replicate 64 0 } })
      ∷ [];
  resp_buf_debug = false;
}

-- The driver behind the response.
abbrev user_driver : Driver
user_driver = record idle_driver {
  instances =
      some (record some_instance {
        responses = record {
          resp_buf = replicate 8 0 ++ (user_response ++ replicate 32 0);
          pull_ptr = 8;
          push_ptr = 32;
          resp_queues = 1;
        };
      })
      ∷ [];
}

efw_response-hwdep_write_example : user_driver.transactions ≡ idle_driver.transactions
unfolding hwdep_write write_copied word_at efw_response handle_resp_for_user copy_resp_to_buf
    copy_in write_at capacity
efw_response-hwdep_write_example =
    efw_response-hwdep_write (λ _. ok tt) (ok tt) user_command {r = ok 24} {sent = user_command}
      idle_driver some_device memory_space_efw_response user_response {rcode = Rcode.complete}
      {driver' = user_driver} refl refl refl

-- A device that answers a command for its clock in the second wait: the internal clock at 48 kHz.
abbrev clock_bytes : List ℕ
clock_bytes = be32 0 ++ (be32 48000 ++ be32 0)

abbrev clock_response : List ℕ
clock_response = header 36 65537 3 1 ++ clock_bytes

abbrev clock_device : Port
clock_device = record {
  alloc = λ _. true;
  unit = 0;
  device = some_device;
  traffic = λ _. record {
    write = λ _. ok tt;
    wait = λ n t. if n == 1 then answered t clock_response else t;
  };
}

abbrev clock_command : TransactionQueue
clock_command = started 0 some_device 65536 (command_buffer 65536 3 1 [] (replicate 12 0))

abbrev waiting_driver : Driver
waiting_driver = record idle_driver { transactions = clock_command ∷ [] }

abbrev answered_driver : Driver
answered_driver = record idle_driver { transactions = answered clock_command clock_response ∷ [] }

efw_transaction-response_example :
    efw_transaction 2 clock_device 0 3 1 [] (some (replicate 12 0))
    ≡ some (ok 36, clock_bytes, 65536)
unfolding next_seqnum word_at efw_response handle_resp_for_kernel respond_to copy
efw_transaction-response_example =
    efw_transaction-response 0 1 clock_device 0 3 1 [] (replicate 12 0) clock_bytes waiting_driver
      [] {rcode = Rcode.complete} {driver' = answered_driver} (omega arith) (omega arith) refl
      (omega arith) (omega arith) (omega arith) refl (λ i. refl) idle refl refl refl
  where
    idle :
        (i : ℕ)
        → i < 1
        → (if i == 1 then answered clock_command clock_response else clock_command) ≡ clock_command
    idle i h = ground arith

-- A start whose resources are refused.
abbrev refusing_core : Core
refusing_core = record some_core { manage = λ _ _ _ _ _. err ebusy }

abbrev some_host : Host
some_host = record {
  env = some_env;
  core = refusing_core;
  port = clock_device;
  fuel = 2;
  wait = λ s. s;
}

abbrev closed_side : Side
closed_side = record {
  stream = record some_stream { context = none; buffer = []; pcm_positions = replicate 64 0 };
  conn = some_connection;
}

abbrev failed_start : SideOutcome
unfolding set_parameters find_sfc set_rate init_positions
failed_start = (
  err ebusy,
  record {
    stream = set_parameters closed_side.stream 48000 2 1;
    conn = record some_connection {
      resources = record (some_connection.resources) {
        bandwidth = 116;
        bandwidth_overhead = 137;
        generation = 1;
      };
    };
  },
  Event.managed (record {
    generation = 1;
    channels_mask = 18446744073709551615;
    bandwidth = 253;
    allocate = true;
    answer = err ebusy;
  })
      ∷ [],
)

start_side-IsStarted_example : IsStarted failed_start
unfolding start_side establish establish_from allocate allocate_from wait_after_bus_reset manage
    packet_bandwidth current_bandwidth_overhead set_parameters get_max_payload find_sfc set_rate
    init_positions after_establish
start_side-IsStarted_example =
    start_side-IsStarted some_host closed_side [] 48000 2 1 {o = failed_start} (λ s. refl)
      (record { consistent = unconnected; idle = refl; unconnected = refl }) refl

-- A device whose transmitted stream runs at the rate that is asked for.
abbrev running_efw : Efw
running_efw = record {
  tx = record { stream = some_stream; conn = some_connection };
  rx = closed_side;
  pcm_capture_channels = 2 ∷ 2 ∷ 2 ∷ [];
  pcm_playback_channels = 2 ∷ 2 ∷ 2 ∷ [];
  midi_in_ports = 1;
  midi_out_ports = 1;
  capture_substreams = 1;
  playback_substreams = 0;
  seqnum = 0;
  log = [];
}

abbrev started_efw : Efw
started_efw = record running_efw {
  seqnum = 65538;
  log =
      Event.requested
        (record { tcode = read_quadlet; offset = 0x904; data_quadlets = []; generation = 1 })
      ∷ [];
}
