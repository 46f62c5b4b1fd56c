-- ===== src/Fireworks/Transaction/Serial.antt =====
-- The sequence numbers of commands and responses: those of user space and those of the driver do
-- not meet.
use snd_firewire_improve.Common.{
  ℕ, ◌+◌, ◌^◌, ◌≤◌, ◌<◌, ◌≡◌, ◌∙◌, refl, sym, ap, false, Bool-cases, not, ltb, ◌==◌, ◌||◌, List,
  length, some, ◌>>=◌, >>=-eq-some, inl, inr, Result, ok, err, arith,
}
use snd_firewire_improve.Bus.{Rcode}
use snd_firewire_improve.Fcp.{Device}
use snd_firewire_improve.Fireworks.Ring.{word_at}
use snd_firewire_improve.Fireworks.Hwdep.{hwdep_write, write_copied}
use snd_firewire_improve.Fireworks.Command.{next_seqnum}
use snd_firewire_improve.Fireworks.Transaction.{
  Driver, efw_response, handle_resp_for_user, memory_space_efw_response,
}

-- What the driver numbers its commands with.
pub next_seqnum_lem :
    (seqnum : ℕ) → (65536 ≤ next_seqnum seqnum) × (next_seqnum seqnum + 1 < 2 ^ 32)
unfolding next_seqnum
next_seqnum_lem seqnum = (ground arith, ground arith)

-- The part of the write behind the copy.
write_copied-seqnum :
    (send : List ℕ → Result (Unit {0})) (copied : Result (Unit {0})) (bytes : List ℕ) {r : Result ℕ}
    {sent : List ℕ}
    → write_copied send copied bytes ≡ some (r, some sent)
    → (seqnum : ℕ) × (word_at sent 8 ≡ some seqnum) × (seqnum ≤ 65534)
unfolding write_copied
write_copied-seqnum send (err e) bytes h = absurd cc
write_copied-seqnum send (ok u) bytes {sent = sent} h =
    let (seqnum, e, f) = >>=-eq-some (word_at bytes 8) _ h in
    elim (Bool-cases (ltb 65534 seqnum)) [
      | inl y ↦ let f' = rw y at f in absurd cc
      | inr n ↦
          let f' = rw n at f in
          let same : bytes ≡ sent = cc in (seqnum, rw (sym same) e, ground arith)
    ]

-- A command that user space may send has a number that is below the driver's.
pub hwdep_write-seqnum :
    (send : List ℕ → Result (Unit {0})) (copied : Result (Unit {0})) (bytes : List ℕ) {r : Result ℕ}
    {sent : List ℕ}
    → hwdep_write send copied bytes ≡ some (r, some sent)
    → (seqnum : ℕ) × (word_at sent 8 ≡ some seqnum) × (seqnum ≤ 65534)
unfolding hwdep_write
hwdep_write-seqnum send copied bytes h =
    elim (Bool-cases (ltb (length bytes) 24 || ltb 512 (length bytes))) [
      | inl y ↦ let h' = rw y at h in absurd cc
      | inr n ↦ write_copied-seqnum send copied bytes (rw n at h)
    ]

-- The response to a command that user space sent through the device, whose number is one more than
-- the command's, leaves the driver's own transactions alone, whoever sends it.
pub efw_response-hwdep_write :
    (send : List ℕ → Result (Unit {0})) (copied : Result (Unit {0})) (bytes : List ℕ) {r : Result ℕ}
    {sent : List ℕ} (driver : Driver) (source : Device) (offset : ℕ) (response : List ℕ)
    {rcode : Rcode} {driver' : Driver}
    → hwdep_write send copied bytes ≡ some (r, some sent)
    → word_at response 8 ≡ (word_at sent 8 >>= λ seqnum. some (seqnum + 1))
    → efw_response driver source offset response ≡ some (rcode, driver')
    → driver'.transactions ≡ driver.transactions
unfolding efw_response
efw_response-hwdep_write send copied bytes driver source offset response {rcode = rcode}
      {driver' = driver'} w number h =
    let (seqnum, e, l) = hwdep_write-seqnum send copied bytes w in
    let number' : word_at response 8 ≡ some (seqnum + 1) = number ∙ rw e refl in
    let user : ltb 65535 (seqnum + 1) ≡ false = ground arith in
    elim (Bool-cases (ltb (length response) 24)) [
      | inl y ↦ let h' = rw y at h in cc
      | inr n ↦ elim (Bool-cases (not (offset == memory_space_efw_response))) [
        | inl y ↦ let h' = rw (n, y) at h in cc
        | inr m ↦
            let h' = rw (n, m, number', user) at h in
            let (u, f, g) =
              >>=-eq-some (handle_resp_for_user driver.instances source response Rcode.type_error) _
                h' in
            let same : record driver { instances = u.1 } ≡ driver' = cc in
            sym (ap (λ (d : Driver). d.transactions) same)
      ]
    ]
