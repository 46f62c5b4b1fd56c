-- ===== src/Bus.antt =====
-- What the drivers use of the FireWire core, which is not part of the repository: asynchronous
-- requests and the management of channels and bandwidth. Every answer is a function of the events
-- before it, the newest first.
pub mod Transaction
pub mod Resources
pub mod Cmp
pub mod Tests
use snd_firewire_improve.Common.{ℕ, List, Bool, ℤ, Result}

-- The response codes that the drivers tell apart.
pub data Rcode : Type 0 where
  complete type_error address_error generation_error : Rcode
  other_error : ℕ → Rcode

pub data Tcode : Type 0 where
  read_quadlet lock_compare_swap write_block : Tcode

-- The plug control registers, and the master ones.
pub data Register : Type 0 where
  impr ompr : Register
  ipcr opcr : ℕ → Register

pub record Request : Type 0 where
  pub tcode : Tcode
  pub offset : ℕ
  pub data_quadlets : List ℕ
  pub generation : ℕ

-- A call of fw_iso_resource_manage with its answer: a channel or an error.
pub record Managed : Type 0 where
  pub generation : ℕ
  pub channels_mask : ℕ
  pub bandwidth : ℕ
  pub allocate : Bool
  pub answer : Result ℕ

pub data Event : Type 0 where
  requested : Request → Event
  managed : Managed → Event
  slept : ℕ → Event

-- The core. `run` answers a request, and where it completes, with the quadlet at the start of the
-- buffer. `delay` is `reset_jiffies + HZ - get_jiffies_64()`, and `sleep` what
-- schedule_timeout_interruptible returns for a delay. `max_speed` is the device's.
pub record Core : Type 0 where
  pub run : List Event → Request → Rcode × ℕ
  pub csr_address : Register → ℕ
  pub max_speed : ℕ
  pub device_generation : List Event → ℕ
  pub card_generation : List Event → ℕ
  pub gap_count : List Event → ℕ
  pub delay : List Event → ℤ
  pub sleep : List Event → ℕ → ℕ
  pub manage : List Event → ℕ → ℕ → ℕ → Bool → Result ℕ
