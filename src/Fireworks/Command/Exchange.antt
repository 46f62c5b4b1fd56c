-- ===== src/Fireworks/Command/Exchange.antt =====
-- A command of the driver's and its response, from the parameters that are sent to those that come
-- back.
use snd_firewire_improve.Common.{
  ℕ, suc, ◌+◌, ◌-◌, ◌*◌, ◌/◌, ◌%◌, ◌^◌, ◌≤◌, ◌<◌, ◌≡◌, refl, true, min, max, List, ◌∷◌, ◌++◌,
  length, length-append, length-replicate, take-length, take, drop, replicate, some, ok, arith,
}
use snd_firewire_improve.Bus.{Rcode}
use snd_firewire_improve.Fireworks.Transaction.{
  TransactionQueue, Driver, efw_response, memory_space_efw_response,
}
use snd_firewire_improve.Fireworks.Transaction.Response.{
  started, answered, head_or, snd_efw_transaction_run-answered,
}
use snd_firewire_improve.Fireworks.Transaction.Serial.{next_seqnum_lem}
use snd_firewire_improve.Fireworks.Command.{
  Port, header, frame, next_seqnum, response_params, fill_response, after_run, efw_transaction,
}
use snd_firewire_improve.Fireworks.Command.Frames.{
  header-length, header-seqnum, check_header-header, read_at-header,
}

-- What the driver reads from a response behind its header.
response_params-header :
    (seqnum category command : ℕ) (ps rest resp : List ℕ)
    → length ps % 4 ≡ 0
    → length ps ≤ length resp
    → length resp < 2 ^ 31
    → response_params (header (24 + length ps) seqnum category command ++ (ps ++ rest)) resp
      ≡ some (ps ++ replicate (length resp - length ps) 0)
unfolding response_params
response_params-header seqnum category command ps rest resp a l b =
    let n = header-length (24 + length ps) seqnum category command (ps ++ rest) (omega arith) in
    let size : min (length resp) (((24 + length ps) / 4 * 4 + (2 ^ 64 - 24)) % 2 ^ 64 % 2 ^ 32)
        ≡ length ps =
      omega arith in
    rw (n, size, read_at-header (24 + length ps) seqnum category command ps rest) refl

-- What it makes of a response to its command.
fill_response-header :
    (size seqnum category command : ℕ) (ps rest resp : List ℕ)
    → length ps % 4 ≡ 0
    → length ps ≤ length resp
    → length resp < 2 ^ 31
    → category < 2 ^ 32
    → command < 2 ^ 32
    → fill_response size
        (header (24 + length ps) seqnum category command ++ (ps ++ rest))
        category
        command
        (some resp)
      ≡ some (ok size, ps ++ replicate (length resp - length ps) 0)
unfolding fill_response
fill_response-header size seqnum category command ps rest resp a l b c d =
    let good = check_header-header (24 + length ps) seqnum category command (ps ++ rest) c d in
    let params = response_params-header seqnum category command ps rest resp a l b in
    rw (good, params) refl

-- The buffer of a command.
abbrev pub command_buffer : ℕ → ℕ → ℕ → List ℕ → List ℕ → List ℕ
command_buffer seqnum category command params resp =
    frame seqnum category command params
    ++ replicate (24 + max (length params) (length resp) - (24 + length params)) 0

-- A command with parameters whose response comes from the device during the first, second or third
-- wait, with version 1 and status OK, with the command's category and number (and 1) and with
-- parameters of its own, which are whole quadlets and which the caller's buffer can hold, while the
-- command is the first in the list of transactions, its memory is there, its writes succeed, and
-- nothing comes before: the caller's buffer has the parameters of the response, with zeros behind
-- them, and the number that is kept is the command's.
pub efw_transaction-response :
    (fuel k : ℕ) (port : Port) (seqnum category command : ℕ) (params resp ps : List ℕ)
    (driver : Driver) (ts : List TransactionQueue) {rcode : Rcode} {driver' : Driver}
    → category < 2 ^ 32
    → command < 2 ^ 32
    → length ps % 4 ≡ 0
    → length ps ≤ length resp
    → length resp < 2 ^ 31
    → k ≤ 2
    → port.alloc (24 + max (length params) (length resp)) ≡ true
    → ((i : ℕ)
        → (port.traffic (frame (next_seqnum seqnum) category command params)).write i ≡ ok tt)
    → ((i : ℕ)
        → i < k
        → (port.traffic (frame (next_seqnum seqnum) category command params)).wait i (
            started port.unit port.device
              (next_seqnum seqnum)
              (command_buffer (next_seqnum seqnum) category command params resp))
          ≡ started port.unit port.device
              (next_seqnum seqnum)
              (command_buffer (next_seqnum seqnum) category command params resp))
    → driver.transactions
      ≡ started port.unit port.device
          (next_seqnum seqnum)
          (command_buffer (next_seqnum seqnum) category command params resp)
        ∷ ts
    → efw_response driver port.device memory_space_efw_response
        (header (24 + length ps) (next_seqnum seqnum + 1) category command ++ ps)
      ≡ some (rcode, driver')
    → (port.traffic (frame (next_seqnum seqnum) category command params)).wait k (
        started port.unit port.device
          (next_seqnum seqnum)
          (command_buffer (next_seqnum seqnum) category command params resp))
      ≡ head_or
          (started port.unit port.device
            (next_seqnum seqnum)
            (command_buffer (next_seqnum seqnum) category command params resp))
          driver'.transactions
    → efw_transaction (k + suc fuel) port seqnum category command params (some resp)
      ≡ some (ok (24 + length ps), ps ++ replicate (length resp - length ps) 0, next_seqnum seqnum)
unfolding efw_transaction
efw_transaction-response fuel k port seqnum category command params resp ps driver ts c d a l b m al
      w q e h last =
    let s = next_seqnum seqnum in
    let bounds = next_seqnum_lem seqnum in
    let low = bounds.0 in
    let high = bounds.1 in
    let buf = command_buffer s category command params resp in
    let response = header (24 + length ps) (s + 1) category command ++ ps in
    let front =
      header-seqnum (24 + length params) s category command
        (params ++ replicate (24 + max (length params) (length resp) - (24 + length params)) 0)
        (omega arith) in
    let number = header-seqnum (24 + length ps) (s + 1) category command ps high in
    let run =
      snd_efw_transaction_run-answered fuel k (port.traffic (frame s category command params))
        port.unit port.device buf buf s driver ts response front (omega arith) high m w q e
        (omega arith) number h last in
    let zeros = 24 + max (length params) (length resp) - (24 + length params) in
    let room : length buf ≡ 24 + length params + zeros =
      omega (arith, length-append params (replicate zeros 0), length-replicate {A = ℕ} zeros 0) in
    let all : min (length response) (length buf) ≡ 24 + length ps = omega arith in
    let whole : take (24 + length ps) response ≡ response =
      take-length (24 + length ps) response (omega arith) in
    let filled =
      fill_response-header (24 + length ps) (s + 1) category command ps (drop (24 + length ps) buf)
        resp a l b c d in
    let end : after_run
          (
            ok (min (length response) (length buf)),
            answered (started port.unit port.device s buf) response,
          )
          category command (some resp)
        ≡ some (ok (24 + length ps), ps ++ replicate (length resp - length ps) 0) =
      rw all (rw whole filled) in
    rw (al, run) (rw end refl)
