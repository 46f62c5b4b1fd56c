-- ===== src/Fireworks/Transaction.antt =====
-- Commands and their responses: sound/firewire/fireworks/fireworks_transaction.c. A command that the
-- driver sends itself waits for its response in the list of transactions; a response to a command
-- of user space goes to the ring buffer of the instance for the device.
pub mod Serial
pub mod Response
pub mod Instances
use snd_firewire_improve.Common.{
  ℕ, zero, suc, ◌+◌, ◌-◌, ◌*◌, ◌%◌, ◌^◌, Bool, true, false, ◌&&◌, ◌==◌, leb, ltb, not,
  if◌then◌else◌, min, List, [], ◌∷◌, ◌++◌, length, take, drop, Option, some, none, ◌>>=◌, Result,
  ok, err, Errno, eio,
}
use snd_firewire_improve.Bus.{Rcode, complete, type_error, address_error, other_error}
use snd_firewire_improve.Fcp.{Device, is_from, copy}
use snd_firewire_improve.Fireworks.Ring.{Responses, word_at, copy_resp_to_buf}

-- `enum transaction_queue_state`
pub data TransactionState : Type 0 where
  state_pending state_bus_reset state_complete : TransactionState

-- `struct transaction_queue`, with the device of its unit. The wait queue needs no field.
pub record TransactionQueue : Type 0 where
  pub unit : ℕ
  pub device : Device
  pub buf : List ℕ
  pub size : ℕ
  pub seqnum : ℕ
  pub state : TransactionState

-- An instance of the driver, as far as the handler of responses uses it. `id` stands for its address.
pub record Instance : Type 0 where
  pub id : ℕ
  pub device : Device
  pub responses : Responses

abbrev pub is_pending : TransactionState → Bool
is_pending state_pending = true
is_pending _ = false

-- Response codes of the kernel that `Bus.Rcode` does not name.
abbrev pub conflict_error : Rcode
conflict_error = other_error 4

abbrev pub data_error : Rcode
data_error = other_error 5

abbrev pub memory_space_efw_response : ℕ
memory_space_efw_response = 0xecc080000000

abbrev pub snd_efw_transaction_user_seqnum_max : ℕ
snd_efw_transaction_user_seqnum_max = 65534

-- What the n-th write of the command answers, and what the handlers do to the transaction during
-- the n-th wait.
pub record Traffic : Type 0 where
  pub write : ℕ → Result (Unit {0})
  pub wait : ℕ → TransactionQueue → TransactionQueue

abbrev pub after_cmd :
    Result (Unit {0})
    → TransactionQueue
    → Option (Result ℕ × TransactionQueue)
    → Option (Result ℕ × TransactionQueue)
after_cmd (err e) t next = some (err e, t)
after_cmd (ok u) t next = next

-- What the state after a wait leads to.
abbrev pub after_wait :
    TransactionState
    → TransactionQueue
    → (again timeout : Option (Result ℕ × TransactionQueue)) → Option (Result ℕ × TransactionQueue)
after_wait state_complete t again timeout = some (ok t.size, t)
after_wait state_bus_reset t again timeout = again
after_wait state_pending t again timeout = timeout

-- The loop of `snd_efw_transaction_run` on fuel, with the number of the round and `tries`.
unfoldable pub rounds :
    ℕ → Traffic → ℕ → ℕ → TransactionQueue → Option (Result ℕ × TransactionQueue)
rounds zero traffic n tries t = none
rounds (suc fuel) traffic n tries t =
    let waited = traffic.wait n t in
    let again = rounds fuel traffic (n + 1) tries waited in
    let next = rounds fuel traffic (n + 1) (tries + 1) waited in
    let timeout = if leb 3 (tries + 1) then some (err eio, waited) else next in
    after_cmd (traffic.write n) t (after_wait waited.state waited again timeout)

-- `snd_efw_transaction_run` behind the list's update, for a command of a unit: the transaction
-- starts with `be32_to_cpu(cmd->seqnum) + 1` and the buffer for the response.
unfoldable pub snd_efw_transaction_run :
    ℕ → Traffic → ℕ → Device → List ℕ → List ℕ → Option (Result ℕ × TransactionQueue)
snd_efw_transaction_run fuel traffic unit device cmd resp = word_at cmd 8 >>= λ seqnum.
    rounds fuel traffic 0 0 (record {
      unit = unit;
      device = device;
      buf = resp;
      size = length resp;
      seqnum = (seqnum + 1) % 2 ^ 32;
      state = state_pending;
    })

-- `efw == NULL`, and the test of the device.
abbrev pub is_instance_for : Device → Option Instance → Bool
is_instance_for source none = false
is_instance_for source (some efw) = is_from efw.device source

-- `copy_resp_to_buf` for an instance, with the response code.
abbrev pub taken_code : Bool → Rcode
taken_code true = complete
taken_code false = conflict_error

-- `handle_resp_for_user`
unfoldable pub handle_resp_for_user :
    List (Option Instance) → Device → List ℕ → Rcode → Option (Rcode × List (Option Instance))
handle_resp_for_user [] source response rcode = some (rcode, [])
handle_resp_for_user (none ∷ is) source response rcode =
    handle_resp_for_user is source response rcode >>= λ r. some (r.0, none ∷ r.1)
handle_resp_for_user (some efw ∷ is) source response rcode =
    let rest = handle_resp_for_user is source response rcode >>= λ r. some (r.0, some efw ∷ r.1) in
    let here = copy_resp_to_buf efw.responses response >>= λ r.
    some (taken_code r.0, some (record efw { responses = r.1 }) ∷ is) in
    if is_from efw.device source then here else rest

-- What `handle_resp_for_kernel` does to a transaction of the list.
unfoldable pub respond_to :
    TransactionQueue → Device → List ℕ → ℕ → Option (Bool × TransactionQueue)
respond_to t source response seqnum =
    let size = min (length response) t.size in
    let completed = copy size response t.buf >>= λ buffer.
    some (true, record t { state = state_complete; size = size; buf = buffer }) in
    if is_from t.device source && is_pending t.state && t.seqnum == seqnum
    then completed
    else some (false, t)

-- `handle_resp_for_kernel`: every transaction that waits for the response gets it.
unfoldable pub handle_resp_for_kernel :
    List TransactionQueue → Device → List ℕ → ℕ → Rcode → Option (Rcode × List TransactionQueue)
handle_resp_for_kernel [] source response seqnum rcode = some (rcode, [])
handle_resp_for_kernel (t ∷ ts) source response seqnum rcode =
    respond_to t source response seqnum >>= λ r.
    handle_resp_for_kernel ts source response seqnum (if r.0 then complete else rcode) >>= λ rs.
    some (rs.0, r.1 ∷ rs.1)

-- The handler's state: the list of transactions, the instances, and `snd_efw_resp_buf_debug`.
pub record Driver : Type 0 where
  pub transactions : List TransactionQueue
  pub instances : List (Option Instance)
  pub resp_buf_debug : Bool

-- `efw_response`: the response code that is sent, and the state.
unfoldable pub efw_response : Driver → Device → ℕ → List ℕ → Option (Rcode × Driver)
efw_response driver source offset response =
    let for_user = λ (rcode : Rcode). handle_resp_for_user driver.instances source response rcode in
    let for_kernel = λ (seqnum : ℕ).
      handle_resp_for_kernel driver.transactions source response seqnum type_error >>= λ k.
      if driver.resp_buf_debug
      then (for_user type_error >>= λ u.
          some (k.0, record driver { transactions = k.1; instances = u.1 }))
      else some (k.0, record driver { transactions = k.1 }) in
    if ltb (length response) 24
    then some (data_error, driver)
    else if not (offset == memory_space_efw_response)
    then some (address_error, driver)
    else (word_at response 8 >>= λ seqnum.
        if ltb (snd_efw_transaction_user_seqnum_max + 1) seqnum
        then for_kernel seqnum
        else (for_user type_error >>= λ u. some (u.0, record driver { instances = u.1 })))

-- `snd_efw_transaction_add_instance`
unfoldable pub snd_efw_transaction_add_instance :
    Instance → List (Option Instance) → List (Option Instance)
snd_efw_transaction_add_instance efw [] = []
snd_efw_transaction_add_instance efw (none ∷ is) = some efw ∷ is
snd_efw_transaction_add_instance efw (some i ∷ is) =
    some i ∷ snd_efw_transaction_add_instance efw is

-- `snd_efw_transaction_remove_instance`
unfoldable pub snd_efw_transaction_remove_instance :
    Instance → List (Option Instance) → List (Option Instance)
snd_efw_transaction_remove_instance efw [] = []
snd_efw_transaction_remove_instance efw (none ∷ is) =
    none ∷ snd_efw_transaction_remove_instance efw is
snd_efw_transaction_remove_instance efw (some i ∷ is) =
    (if i.id == efw.id then none else some i) ∷ snd_efw_transaction_remove_instance efw is

-- `snd_efw_transaction_bus_reset`
unfoldable pub snd_efw_transaction_bus_reset : ℕ → List TransactionQueue → List TransactionQueue
snd_efw_transaction_bus_reset unit [] = []
snd_efw_transaction_bus_reset unit (t ∷ ts) =
    (if t.unit == unit && is_pending t.state then record t { state = state_bus_reset } else t)
    ∷ snd_efw_transaction_bus_reset unit ts
