-- ===== src/Fireworks/Command.antt =====
-- The commands that the driver sends: sound/firewire/fireworks/fireworks_command.c. A command is the
-- bytes of its big-endian words. `none` is a fault, or the end of the fuel of a transaction.
pub mod Frames
pub mod Exchange
use snd_firewire_improve.Common.{
  ℕ, zero, suc, ◌+◌, ◌-◌, ◌*◌, ◌/◌, ◌%◌, ◌^◌, Bool, true, false, ◌&&◌, ◌||◌, ◌==◌, leb, ltb, not,
  if◌then◌else◌, min, max, List, [], ◌∷◌, ◌++◌, length, take, drop, replicate, get_elem?, Option,
  some, none, ◌>>=◌, Result, ok, err, Errno, eio, einval, enomem, enosys,
}
use snd_firewire_improve.Fcp.{Device}
use snd_firewire_improve.Fireworks.Ring.{word_at, read_at}
use snd_firewire_improve.Fireworks.Transaction.{
  Traffic, TransactionQueue, snd_efw_transaction_run, snd_efw_transaction_user_seqnum_max,
}

abbrev pub kernel_seqnum_min : ℕ
kernel_seqnum_min = snd_efw_transaction_user_seqnum_max + 2

abbrev pub kernel_seqnum_max : ℕ
kernel_seqnum_max = 0xffffffff

-- `struct efc_clock`
pub record EfcClock : Type 0 where
  pub source : ℕ
  pub sampling_rate : ℕ
  pub index : ℕ

-- A part of the frame's categories and commands, by their numbers.
abbrev pub efc_cat_hwinfo : ℕ
efc_cat_hwinfo = 0

abbrev pub efc_cat_transport : ℕ
efc_cat_transport = 2

abbrev pub efc_cat_hwctl : ℕ
efc_cat_hwctl = 3

abbrev pub efc_cmd_hwinfo_get_polled : ℕ
efc_cmd_hwinfo_get_polled = 1

abbrev pub efc_cmd_hwinfo_set_resp_addr : ℕ
efc_cmd_hwinfo_set_resp_addr = 2

abbrev pub efc_cmd_transport_set_tx_mode : ℕ
efc_cmd_transport_set_tx_mode = 0

abbrev pub efc_cmd_hwctl_set_clock : ℕ
efc_cmd_hwctl_set_clock = 0

abbrev pub efc_cmd_hwctl_get_clock : ℕ
efc_cmd_hwctl_get_clock = 1

-- What a transaction meets: whether `kzalloc` gives that many bytes, the unit and its device, and
-- the traffic that a command leads to.
pub record Port : Type 0 where
  pub alloc : ℕ → Bool
  pub unit : ℕ
  pub device : Device
  pub traffic : List ℕ → Traffic

-- `cpu_to_be32`, as bytes of memory.
abbrev pub be32 : ℕ → List ℕ
be32 w = w / 2 ^ 24 % 256 ∷ w / 2 ^ 16 % 256 ∷ w / 2 ^ 8 % 256 ∷ w % 256 ∷ []

-- The next sequence number of the driver.
unfoldable pub next_seqnum : ℕ → ℕ
next_seqnum seqnum =
    if ltb seqnum kernel_seqnum_min || leb (kernel_seqnum_max - 2) seqnum
    then kernel_seqnum_min
    else seqnum + 2

-- The header of a command of some bytes of parameters.
abbrev pub header : ℕ → ℕ → ℕ → ℕ → List ℕ
header cmd_bytes seqnum category command =
    be32 (cmd_bytes / 4) ++ (be32 1 ++ (be32 seqnum ++ (be32 category ++ (be32 command ++ be32 0))))

-- The command with its header, in the buffer that is filled with zeros.
abbrev pub frame : ℕ → ℕ → ℕ → List ℕ → List ℕ
frame seqnum category command params = header (24 + length params) seqnum category command ++ params

-- The test of the header of a response, with the access to `efr_status_names` that its failure makes:
-- the table has 17 names.
unfoldable pub check_header : List ℕ → ℕ → ℕ → Option Bool
check_header buf category command = word_at buf 4 >>= λ version. word_at buf 12 >>= λ category'.
    word_at buf 16 >>= λ command'. word_at buf 20 >>= λ status.
    if ltb version 1
      || not (category' == category)
      || not (command' == command)
      || not (status == 0)
    then (if ltb status 17 then some false else none)
    else some true

-- The parameters of a response, to a buffer of the caller.
unfoldable pub response_params : List ℕ → List ℕ → Option (List ℕ)
response_params buf resp = word_at buf 0 >>= λ quadlets.
    let n = min (length resp) ((quadlets * 4 + (2 ^ 64 - 24)) % 2 ^ 64 % 2 ^ 32) in
    read_at buf 24 n >>= λ params. some (params ++ replicate (length resp - n) 0)

-- What a response leads to, for a buffer of the caller or NULL.
unfoldable pub fill_response : ℕ → List ℕ → ℕ → ℕ → Option (List ℕ) → Option (Result ℕ × List ℕ)
fill_response size buf category command none =
    check_header buf category command >>= λ good. some (if good then ok size else err eio, [])
fill_response size buf category command (some resp) = check_header buf category command >>= λ good.
    if good
    then (response_params buf resp >>= λ params. some (ok size, params))
    else some (err eio, resp)

abbrev pub resp_bytes : Option (List ℕ) → List ℕ
resp_bytes none = []
resp_bytes (some resp) = resp

-- What the result of `snd_efw_transaction_run` leads to.
abbrev pub after_run :
    Result ℕ × TransactionQueue → ℕ → ℕ → Option (List ℕ) → Option (Result ℕ × List ℕ)
after_run (err e, t) category command resp = some (err e, resp_bytes resp)
after_run (ok size, t) category command resp = fill_response size t.buf category command resp

-- `efw_transaction`: the result, the caller's buffer, and the sequence number that is kept.
unfoldable pub efw_transaction :
    ℕ → Port → ℕ → ℕ → ℕ → List ℕ → Option (List ℕ) → Option (Result ℕ × List ℕ × ℕ)
efw_transaction fuel port seqnum category command params resp =
    let seqnum' = next_seqnum seqnum in
    let cmd_bytes = 24 + length params in
    let buf_bytes = 24 + max (length params) (length (resp_bytes resp)) in
    let cmd = frame seqnum' category command params in
    let buf = cmd ++ replicate (buf_bytes - cmd_bytes) 0 in
    let done =
      snd_efw_transaction_run fuel (port.traffic cmd) port.unit port.device buf buf >>= λ r.
      after_run r category command resp >>= λ c. some (c.0, c.1, seqnum') in
    if port.alloc buf_bytes then done else some (err enomem, resp_bytes resp, seqnum)

-- `snd_efw_command_set_resp_addr`
unfoldable pub snd_efw_command_set_resp_addr :
    ℕ → Port → ℕ → Bool → ℕ → ℕ → Option (Result ℕ × List ℕ × ℕ)
snd_efw_command_set_resp_addr fuel port seqnum resp_addr_changable addr_high addr_low =
    if resp_addr_changable
    then (efw_transaction fuel port seqnum efc_cat_hwctl efc_cmd_hwinfo_set_resp_addr
        (be32 addr_high ++ be32 addr_low) none)
    else some (err enosys, [], seqnum)

-- `snd_efw_command_set_tx_mode`
unfoldable pub snd_efw_command_set_tx_mode : ℕ → Port → ℕ → ℕ → Option (Result ℕ × List ℕ × ℕ)
snd_efw_command_set_tx_mode fuel port seqnum mode =
    efw_transaction fuel port seqnum efc_cat_transport efc_cmd_transport_set_tx_mode (be32 mode)
      none

-- The words of a buffer, `be32_to_cpus` on each; less than a word at the end is left out.
abbrev pub words : List ℕ → List ℕ
words (a ∷ b ∷ c ∷ d ∷ bytes) = (((a * 256 + b) * 256 + c) * 256 + d) ∷ words bytes
words _ = []

abbrev pub meters_of : Result ℕ × List ℕ × ℕ → Result ℕ × List ℕ × ℕ
meters_of (ok n, bytes, seqnum) = (ok n, words bytes, seqnum)
meters_of (err e, bytes, seqnum) = (err e, [], seqnum)

-- `snd_efw_command_get_phys_meters`, with the words of the meters. `len` is a multiple of 4.
unfoldable pub snd_efw_command_get_phys_meters : ℕ → Port → ℕ → ℕ → Option (Result ℕ × List ℕ × ℕ)
snd_efw_command_get_phys_meters fuel port seqnum len =
    efw_transaction fuel port seqnum efc_cat_hwinfo efc_cmd_hwinfo_get_polled []
      (some (replicate len 0))
    >>= λ r. some (meters_of r)

-- What the bytes of a response say about the clock.
abbrev pub clock_of : Result ℕ × List ℕ × ℕ → Option (Result EfcClock × ℕ)
clock_of (err e, bytes, seqnum) = some (err e, seqnum)
clock_of (ok n, bytes, seqnum) = word_at bytes 0 >>= λ source. word_at bytes 4 >>= λ sampling_rate.
    word_at bytes 8 >>= λ index.
    some (ok (record { source = source; sampling_rate = sampling_rate; index = index }), seqnum)

-- `command_get_clock`
unfoldable pub command_get_clock : ℕ → Port → ℕ → Option (Result EfcClock × ℕ)
command_get_clock fuel port seqnum =
    efw_transaction fuel port seqnum efc_cat_hwctl efc_cmd_hwctl_get_clock []
      (some (replicate 12 0))
    >>= λ r. clock_of r

abbrev pub uint_max : ℕ
uint_max = 0xffffffff

-- A parameter that is given and differs takes the place of the present one.
abbrev pub chosen : ℕ → ℕ → ℕ
chosen given now = if not (given == uint_max) && not (now == given) then given else now

abbrev pub settled : Result ℕ → Result (Unit {0})
settled (ok n) = ok tt
settled (err e) = err e

-- What `command_set_clock` does with the present clock. The result of success is not used.
unfoldable pub change_clock :
    ℕ → Port → ℕ → ℕ → Result EfcClock × ℕ → Option (Result (Unit {0}) × ℕ)
change_clock fuel port source rate (err e, seqnum) = some (err e, seqnum)
change_clock fuel port source rate (ok clock, seqnum) =
    let params =
      be32 (chosen source clock.source) ++ (be32 (chosen rate clock.sampling_rate) ++ be32 0) in
    let change =
      efw_transaction fuel port seqnum efc_cat_hwctl efc_cmd_hwctl_set_clock params none >>= λ r.
      some (settled r.0, r.2) in
    if clock.source == source && clock.sampling_rate == rate then some (ok tt, seqnum) else change

-- `command_set_clock`
unfoldable pub command_set_clock : ℕ → Port → ℕ → ℕ → ℕ → Option (Result (Unit {0}) × ℕ)
command_set_clock fuel port seqnum source rate =
    if source == uint_max && rate == uint_max
    then some (err einval, seqnum)
    else (command_get_clock fuel port seqnum >>= λ r. change_clock fuel port source rate r)

abbrev pub field_of : (EfcClock → ℕ) → Result EfcClock × ℕ → Result ℕ × ℕ
field_of field (ok clock, seqnum) = (ok (field clock), seqnum)
field_of field (err e, seqnum) = (err e, seqnum)

-- `snd_efw_command_get_clock_source`, with the source for a success.
unfoldable pub snd_efw_command_get_clock_source : ℕ → Port → ℕ → Option (Result ℕ × ℕ)
snd_efw_command_get_clock_source fuel port seqnum =
    command_get_clock fuel port seqnum >>= λ r. some (field_of (λ c. c.source) r)

-- `snd_efw_command_get_sampling_rate`, with the rate for a success.
unfoldable pub snd_efw_command_get_sampling_rate : ℕ → Port → ℕ → Option (Result ℕ × ℕ)
snd_efw_command_get_sampling_rate fuel port seqnum =
    command_get_clock fuel port seqnum >>= λ r. some (field_of (λ c. c.sampling_rate) r)

-- `snd_efw_command_set_sampling_rate`
unfoldable pub snd_efw_command_set_sampling_rate : ℕ → Port → ℕ → ℕ → Option (Result (Unit {0}) × ℕ)
snd_efw_command_set_sampling_rate fuel port seqnum rate =
    command_set_clock fuel port seqnum uint_max rate
