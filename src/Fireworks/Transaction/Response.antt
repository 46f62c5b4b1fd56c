-- ===== src/Fireworks/Transaction/Response.antt =====
-- The wait for a response, and the response that ends it.
use snd_firewire_improve.Common.{
  ℕ, zero, suc, ◌+◌, ◌%◌, ◌^◌, ◌≤◌, ◌<◌, ◌≡◌, ◌∙◌, refl, sym, ap, Bool, true, false, min, ltb, leb,
  ◌==◌, ◌&&◌, if◌then◌else◌, List, [], ◌∷◌, ◌++◌, length, take, drop, Option, some, none, ◌>>=◌,
  >>=-eq-some, ok, err, eio, arith,
}
use snd_firewire_improve.Bus.{Rcode, type_error, complete}
use snd_firewire_improve.Fcp.{Device, copy, is_from}
use snd_firewire_improve.Fireworks.Ring.{word_at}
use snd_firewire_improve.Fireworks.Transaction.{
  TransactionQueue, state_pending, state_complete, is_pending, Traffic, Driver, rounds, respond_to,
  Instance, snd_efw_transaction_run, efw_response, handle_resp_for_kernel, handle_resp_for_user,
  memory_space_efw_response,
}

-- The transaction that a command starts.
abbrev pub started : ℕ → Device → ℕ → List ℕ → TransactionQueue
started unit device seqnum resp = record {
  unit = unit;
  device = device;
  buf = resp;
  size = length resp;
  seqnum = (seqnum + 1) % 2 ^ 32;
  state = state_pending;
}

-- The transaction behind a response, of which as much as its buffer holds is copied.
abbrev pub answered : TransactionQueue → List ℕ → TransactionQueue
answered t response = record t {
  buf = take (min (length response) t.size) response ++ drop (min (length response) t.size) t.buf;
  size = min (length response) t.size;
  state = state_complete;
}

-- The first transaction of the list.
abbrev pub head_or : TransactionQueue → List TransactionQueue → TransactionQueue
head_or t [] = t
head_or t (u ∷ us) = u

-- Rounds in which nothing arrives.
rounds_idle :
    (k fuel : ℕ) (traffic : Traffic) (n tries : ℕ) (t : TransactionQueue)
    → ((i : ℕ) → traffic.write i ≡ ok tt)
    → ((i : ℕ) → i < n + k → traffic.wait i t ≡ t)
    → t.state ≡ state_pending
    → tries + k ≤ 2
    → rounds (k + fuel) traffic n tries t ≡ rounds fuel traffic (n + k) (tries + k) t
unfolding rounds
rounds_idle zero fuel traffic n tries t w q p l =
    let f : 0 + fuel ≡ fuel = omega arith in
    let a : n + 0 ≡ n = omega arith in let b : tries + 0 ≡ tries = omega arith in rw (f, a, b) refl
rounds_idle (suc k) fuel traffic n tries t w q p l =
    let f : suc k + fuel ≡ suc (k + fuel) = omega arith in
    let a : n + suc k ≡ n + 1 + k = omega arith in
    let b : tries + suc k ≡ tries + 1 + k = omega arith in
    let left : leb 3 (tries + 1) ≡ false = ground arith in
    let idle = q n (omega arith) in
    let waits : (i : ℕ) → i < n + 1 + k → traffic.wait i t ≡ t = λ i h. q i (omega arith) in
    let rest = rounds_idle k fuel traffic (n + 1) (tries + 1) t w waits p (omega arith) in
    rw (f, a, b, w n, idle) (simp p (rw left rest))

respond_to-answered :
    (t : TransactionQueue) (response : List ℕ)
    → t.state ≡ state_pending
    → t.size ≡ length t.buf
    → respond_to t t.device response t.seqnum ≡ some (true, answered t response)
unfolding respond_to copy
respond_to-answered t response p l =
    let mine : (is_from t.device t.device && is_pending t.state && t.seqnum == t.seqnum) ≡ true =
      ground (arith, p) in
    let fits : (leb (min (length response) t.size) (length t.buf)
          && leb (min (length response) t.size) (length response))
        ≡ true =
      ground (arith, l) in
    rw (mine, fits) refl

some_inj {ℓ} : {A : Type ℓ} {a b : A} → some a ≡ some b → a ≡ b
some_inj e = cc

-- The transactions behind the end of `efw_response`, with a copy for user space or not.
kernel_end :
    (debug : Bool) (driver : Driver) (c : Rcode × List TransactionQueue)
    (users : Option (Rcode × List (Option Instance))) {rcode : Rcode} {driver' : Driver}
    → (if debug
        then (◌>>=◌ {B = Rcode × Driver} users
            (λ u. some (c.0, record driver { transactions = c.1; instances = u.1 })))
        else some (c.0, record driver { transactions = c.1 }))
      ≡ some (rcode, driver')
    → c.1 ≡ driver'.transactions
kernel_end true driver c none h = absurd cc
kernel_end true driver c (some u) h = ap (λ (o : Rcode × Driver). o.1.transactions) (some_inj h)
kernel_end false driver c users h = ap (λ (o : Rcode × Driver). o.1.transactions) (some_inj h)

-- The response to a command of the driver's, when it comes, is in the buffer of its transaction.
efw_response-answered :
    (driver : Driver) (t : TransactionQueue) (ts : List TransactionQueue) (response : List ℕ)
    {rcode : Rcode} {driver' : Driver}
    → driver.transactions ≡ t ∷ ts
    → t.state ≡ state_pending
    → t.size ≡ length t.buf
    → 24 ≤ length response
    → word_at response 8 ≡ some t.seqnum
    → 65535 < t.seqnum
    → efw_response driver t.device memory_space_efw_response response ≡ some (rcode, driver')
    → head_or t driver'.transactions ≡ answered t response
unfolding efw_response handle_resp_for_kernel
efw_response-answered driver t ts response {rcode = rcode} {driver' = driver'} e p l n w k h =
    let long : ltb (length response) 24 ≡ false = ground arith in
    let kernel : ltb 65535 t.seqnum ≡ true = ground arith in
    let hit = respond_to-answered t response p l in
    let h' = rw (long, w, kernel, e, hit) at h in
    let (c, f, g) = >>=-eq-some _ _ h' in
    let (rs, i, j) =
      >>=-eq-some (handle_resp_for_kernel ts t.device response t.seqnum complete) _ f in
    let first : answered t response ∷ rs.1 ≡ c.1 = cc in
    let all =
      kernel_end driver.resp_buf_debug driver c
        (handle_resp_for_user driver.instances t.device response type_error) g in
    sym (ap (head_or t) (first ∙ all))

-- A command of the driver's whose write succeeds, and whose response comes from its device, whole and
-- with the command's number and 1, during the first, second or third wait, ends with the response:
-- its length, up to the size of the buffer, is returned, and the buffer starts with it.
pub snd_efw_transaction_run-answered :
    (fuel k : ℕ) (traffic : Traffic) (unit : ℕ) (device : Device) (cmd resp : List ℕ) (seqnum : ℕ)
    (driver : Driver) (ts : List TransactionQueue) (response : List ℕ) {rcode : Rcode}
    {driver' : Driver}
    → word_at cmd 8 ≡ some seqnum
    → 65534 < seqnum
    → seqnum + 1 < 2 ^ 32
    → k ≤ 2
    → ((i : ℕ) → traffic.write i ≡ ok tt)
    → ((i : ℕ)
        → i < k
        → traffic.wait i (started unit device seqnum resp) ≡ started unit device seqnum resp)
    → driver.transactions ≡ started unit device seqnum resp ∷ ts
    → 24 ≤ length response
    → word_at response 8 ≡ some (seqnum + 1)
    → efw_response driver device memory_space_efw_response response ≡ some (rcode, driver')
    → traffic.wait k (started unit device seqnum resp)
      ≡ head_or (started unit device seqnum resp) driver'.transactions
    → snd_efw_transaction_run (k + suc fuel) traffic unit device cmd resp
      ≡ some (
        ok (min (length response) (length resp)),
        answered (started unit device seqnum resp) response,
      )
unfolding snd_efw_transaction_run rounds
snd_efw_transaction_run-answered fuel k traffic unit device cmd resp seqnum driver ts response c b l
      m w q e n x h d =
    let t = started unit device seqnum resp in
    let number : (seqnum + 1) % 2 ^ 32 ≡ seqnum + 1 = omega arith in
    let final =
      efw_response-answered driver t ts response e refl refl n (rw number x)
        (rw number (omega arith)) h in
    let idle =
      rounds_idle k (suc fuel) traffic 0 0 t w (λ i o. q i (omega arith)) refl (omega arith) in
    let after : 0 + k ≡ k = omega arith in rw c (rw (idle, after) (rw (w k, d ∙ final) refl))

-- Without a response, the command is given up after its third round.
pub snd_efw_transaction_run_timeout :
    (fuel : ℕ) (traffic : Traffic) (unit : ℕ) (device : Device) (cmd resp : List ℕ) (seqnum : ℕ)
    → word_at cmd 8 ≡ some seqnum
    → ((i : ℕ) → traffic.write i ≡ ok tt)
    → ((i : ℕ) → traffic.wait i (started unit device seqnum resp) ≡ started unit device seqnum resp)
    → snd_efw_transaction_run (3 + fuel) traffic unit device cmd resp
      ≡ some (err eio, started unit device seqnum resp)
unfolding snd_efw_transaction_run rounds
snd_efw_transaction_run_timeout fuel traffic unit device cmd resp seqnum c w q =
    let t = started unit device seqnum resp in
    let idle = rounds_idle 2 (suc fuel) traffic 0 0 t w (λ i h. q i) refl (omega arith) in
    let three : 3 + fuel ≡ 2 + suc fuel = omega arith in
    rw c (rw (three, idle) (rw (w 2, q 2) refl))
