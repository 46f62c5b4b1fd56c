-- ===== src/Bus/Transaction.antt =====
-- `snd_fw_transaction` of sound/firewire/lib.c.
pub mod Tries
use snd_firewire_improve.Common.{
  ℕ, zero, suc, Bool, true, false, not, ◌&&◌, ◌==◌, if◌then◌else◌, bit_and, List, ◌∷◌, Result, ok,
  err, Errno, eagain, eio,
}
use snd_firewire_improve.Bus.{
  Rcode, complete, type_error, address_error, generation_error, other_error, Tcode, Request, Event,
  Core,
}

abbrev pub fw_generation_mask : ℕ
fw_generation_mask = 0x00ff

abbrev pub fw_fixed_generation : ℕ
fw_fixed_generation = 0x0100

abbrev pub is_fixed : ℕ → Bool
is_fixed flags = not (bit_and flags fw_fixed_generation == 0)

-- The generation that a try uses.
abbrev pub generation_of : Core → List Event → ℕ → ℕ
generation_of core log flags =
    if is_fixed flags then bit_and flags fw_generation_mask else core.device_generation log

-- What a response code leads to, with `rcode_is_permanent_error` for two of them, where `again` is what another try, or giving up, gives.
abbrev pub settle : Rcode → ℕ → Bool → List Event → Result ℕ × List Event → Result ℕ × List Event
settle complete quadlet fixed log again = (ok quadlet, log)
settle generation_error quadlet true log again = (err eagain, log)
settle generation_error quadlet false log again = again
settle type_error quadlet fixed log again = (err eio, log)
settle address_error quadlet fixed log again = (err eio, log)
settle (other_error n) quadlet fixed log again = again

-- The request as a try sends it, and the events after the try.
abbrev pub sent : Core → List Event → Request → ℕ → Request
sent core log request flags = record request { generation = generation_of core log flags }

abbrev pub after_try : Core → List Event → Request → ℕ → List Event
after_try core log request flags = Event.requested (sent core log request flags) ∷ log

abbrev pub answer_of : Core → List Event → Request → ℕ → Rcode × ℕ
answer_of core log request flags = core.run log (sent core log request flags)

-- The loop of `snd_fw_transaction`; `left` is 2 less `tries`.
unfoldable pub attempt : Core → ℕ → List Event → Request → ℕ → Result ℕ × List Event
attempt core zero log request flags =
    let a = answer_of core log request flags in
    let log' = after_try core log request flags in
    settle a.0 a.1 (is_fixed flags) log' (err eio, log')
attempt core (suc left) log request flags =
    let a = answer_of core log request flags in
    let log' = after_try core log request flags in
    settle a.0 a.1 (is_fixed flags) log' (attempt core left log' request flags)

-- `snd_fw_transaction`
unfoldable pub snd_fw_transaction : Core → List Event → Request → ℕ → Result ℕ × List Event
snd_fw_transaction core log request flags = attempt core 2 log request flags
