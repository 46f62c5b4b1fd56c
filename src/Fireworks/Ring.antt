-- ===== src/Fireworks/Ring.antt =====
-- The ring buffer of responses for user space: `copy_resp_to_buf` of fireworks_transaction.c fills it
-- and `hwdep_read_resp_buf` of fireworks_hwdep.c empties it. A pointer into `resp_buf` is its offset.
-- `none` is a fault, or the end of the fuel of a copying loop.
pub mod Bytes
pub mod Read
pub mod Write
pub mod Queue
pub mod Serve
pub mod Full
use snd_firewire_improve.Common.{
  ℕ, zero, suc, ◌+◌, ◌-◌, ◌*◌, ◌%◌, ◌^◌, Bool, true, false, ◌==◌, leb, ltb, if◌then◌else◌, min,
  List, [], ◌∷◌, ◌++◌, length, take, drop, get_elem?, store, Option, some, none, ◌>>=◌, Result, ok,
  err, Errno, enospc,
}

-- The fields of `struct snd_efw` for responses.
pub record Responses : Type 0 where
  pub resp_buf : List ℕ
  pub pull_ptr : ℕ
  pub push_ptr : ℕ
  pub resp_queues : ℕ

-- A big-endian word at an offset: `be32_to_cpu(t->length)`, as `length` is the first field.
unfoldable pub word_at : List ℕ → ℕ → Option ℕ
word_at bytes p = get_elem? bytes p >>= λ a. get_elem? bytes (p + 1) >>= λ b.
    get_elem? bytes (p + 2) >>= λ c.
    get_elem? bytes (p + 3) >>= λ d. some (((a * 256 + b) * 256 + c) * 256 + d)

-- `memcpy` to an offset of a buffer.
unfoldable pub write_at : List ℕ → ℕ → List ℕ → Option (List ℕ)
write_at buffer p [] = some buffer
write_at buffer p (x ∷ xs) = store buffer p x >>= λ b. write_at b (p + 1) xs

-- `memcpy` of n bytes from an offset.
unfoldable pub read_at : List ℕ → ℕ → ℕ → Option (List ℕ)
read_at buffer p zero = some []
read_at buffer p (suc n) =
    get_elem? buffer p >>= λ x. read_at buffer (p + 1) n >>= λ xs. some (x ∷ xs)

-- A pointer that has reached the end goes back by the size of the buffer.
abbrev pub wrap : ℕ → ℕ → ℕ
wrap size p = if leb size p then p - size else p

-- The loop that copies to the ring buffer, for the bytes that are left.
unfoldable pub copy_in : ℕ → List ℕ → ℕ → List ℕ → Option (List ℕ × ℕ)
copy_in zero buffer push bytes = none
copy_in (suc n) buffer push bytes =
    let till_end = min (length bytes) (length buffer - push) in
    let rest = write_at buffer push (take till_end bytes) >>= λ b.
    copy_in n b (wrap (length buffer) (push + till_end)) (drop till_end bytes) in
    if length bytes == 0 then some (buffer, push) else rest

-- `capacity`
unfoldable pub capacity : Responses → ℕ
capacity r =
    if ltb r.push_ptr r.pull_ptr
    then r.pull_ptr - r.push_ptr
    else length r.resp_buf - (r.push_ptr - r.pull_ptr)

-- `copy_resp_to_buf` for a response: whether it was taken, which `rcode` tells. The loop is given
-- fuel for the two rounds that it can make and for the test after them.
unfoldable pub copy_resp_to_buf : Responses → List ℕ → Option (Bool × Responses)
copy_resp_to_buf r response = word_at response 0 >>= λ quadlets.
    let size = min (quadlets * 4) (length response) in
    let copied = copy_in 3 r.resp_buf r.push_ptr (take size response) >>= λ c.
    some (true, record r { resp_buf = c.0; push_ptr = c.1; resp_queues = r.resp_queues + 1 }) in
    if ltb (capacity r) size then some (false, r) else copied

-- The loop that copies a response of a length to the user's buffer.
unfoldable pub copy_out : ℕ → List ℕ → ℕ → ℕ → Option (List ℕ × ℕ)
copy_out zero buffer pull size = none
copy_out (suc n) buffer pull size =
    let till_end = min size (length buffer - pull) in
    let rest = read_at buffer pull till_end >>= λ xs.
    copy_out n buffer (wrap (length buffer) (pull + till_end)) (size - till_end) >>= λ r.
    some (xs ++ r.0, r.1) in
    if size == 0 then some ([], pull) else rest

-- The loop over the responses in `hwdep_read_resp_buf`: the bytes that it hands over, and the
-- pointer and the number of responses behind it.
unfoldable pub read_responses : ℕ → List ℕ → ℕ → ℕ → Option (List ℕ × ℕ × ℕ)
read_responses zero buffer pull remained = some ([], pull, 0)
read_responses (suc queues) buffer pull remained = word_at buffer pull >>= λ quadlets.
    let size = quadlets * 4 % 2 ^ 32 in
    let copied = copy_out 3 buffer pull size >>= λ c.
    read_responses queues buffer c.1 (remained - size) >>= λ r. some (c.0 ++ r.0, r.1, r.2) in
    if ltb remained size then some ([], pull, suc queues) else copied

-- `hwdep_read_resp_buf` for a user buffer of `remained` bytes: the responses behind the type, which
-- takes 4 bytes. The user's memory is taken to be writable.
unfoldable pub hwdep_read_resp_buf : Responses → ℕ → Option (Result (List ℕ) × Responses)
hwdep_read_resp_buf r remained =
    if ltb remained 28
    then some (err enospc, r)
    else (read_responses r.resp_queues r.resp_buf r.pull_ptr (remained - 4) >>= λ c.
        some (ok c.0, record r { pull_ptr = c.1; resp_queues = c.2 }))
