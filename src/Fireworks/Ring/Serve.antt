-- ===== src/Fireworks/Ring/Serve.antt =====
-- Reading the responses in the ring buffer is serving them from the queue.
use snd_firewire_improve.Common.{
  ℕ, ◌+◌, ◌-◌, ◌*◌, ◌%◌, ◌^◌, ◌≤◌, ◌<◌, ◌≡◌, ◌∙◌, inl, inr, refl, ltb, Bool-cases, false, List, [],
  ◌∷◌, ◌++◌, length, All, append-inj, some, ok, arith,
}
use snd_firewire_improve.Fireworks.Ring.{
  Responses, word_at, wrap, read_responses, hwdep_read_resp_buf,
}
use snd_firewire_improve.Fireworks.Ring.Bytes.{pop_bytes}
use snd_firewire_improve.Fireworks.Ring.Read.{pop_bytes_lem, pop-append, copy_out-eq-pop_bytes}
use snd_firewire_improve.Fireworks.Ring.Queue.{
  IsFrame, joined, total, serve, IsRing, Represents, pop-word_at,
}

-- A read in two parts, taken apart.
pop-split :
    (xs ys : List ℕ) (n : ℕ) (buffer : List ℕ) (p : ℕ) {r : ℕ}
    → p < length buffer
    → length xs + n ≤ length buffer
    → pop_bytes (length xs + n) buffer p ≡ some (xs ++ ys, r)
    → (pop_bytes (length xs) buffer p ≡ some (xs, wrap (length buffer) (p + length xs)))
      × (pop_bytes n buffer (wrap (length buffer) (p + length xs)) ≡ some (ys, r))
pop-split xs ys n buffer p {r = r} q l e =
    let (us, f, i) = pop_bytes_lem (length xs) buffer p q (omega arith) in
    let (bs, g, j) =
      pop_bytes_lem n buffer (wrap (length buffer) (p + length xs)) (ground arith) (omega arith) in
    let whole = pop-append (length xs) n buffer p f g in
    let same : us ++ bs ≡ xs ++ ys = cc in
    let (left, right) = append-inj us xs bs ys i same in
    let at_end : wrap (length buffer) (wrap (length buffer) (p + length xs) + n) ≡ r = cc in
    (rw left at f, rw (right, at_end) at g)

-- What is left of a ring of responses.
abbrev pub Holds : List ℕ → ℕ → ℕ → List (List ℕ) → Type 0
Holds buffer pull push frames =
    IsRing buffer pull
    × All IsFrame frames
    × (total frames ≤ length buffer)
    × (pop_bytes (total frames) buffer pull ≡ some (joined frames, push))

wrap_aligned : (size p n : ℕ) → p % 4 ≡ 0 → size % 4 ≡ 0 → wrap size (p + n * 4) % 4 ≡ 0
wrap_aligned size p n h k = ground arith

-- The first response of a ring.
Holds-cons :
    (f : List ℕ) (fs : List (List ℕ)) (buffer : List ℕ) (pull push : ℕ)
    → Holds buffer pull push (f ∷ fs)
    → (word_at buffer pull ≡ word_at f 0)
      × (pop_bytes (length f) buffer pull ≡ some (f, wrap (length buffer) (pull + length f)))
      × Holds buffer (wrap (length buffer) (pull + length f)) push fs
Holds-cons f fs buffer pull push (ring, whole, bound, content) =
    let (quadlets, word, len, some_words) = whole.0 in
    let (first, rest) = pop-split f (joined fs) (total fs) buffer pull ring.0 bound content in
    let inside = ring.0 in
    let aligned = ring.1 in
    let aligned_end = ring.2 in
    let front : pull + 4 ≤ length buffer = omega arith in
    (
      pop-word_at (length f) buffer pull (omega arith) front first,
      first,
      (
        (
          ground arith,
          rw len (wrap_aligned (length buffer) pull quadlets aligned aligned_end),
          ring.2,
          ring.3,
        ),
        whole.1,
        omega arith,
        rest,
      ),
    )

read_responses-serve :
    (frames : List (List ℕ)) (buffer : List ℕ) (pull push remained : ℕ)
    → Holds buffer pull push frames
    → (q : ℕ) × (read_responses (length frames) buffer pull remained
        ≡ some (joined (serve remained frames).0, q, length (serve remained frames).1))
      × Holds buffer q push (serve remained frames).1
unfolding read_responses
read_responses-serve [] buffer pull push remained holds = (pull, refl, holds)
read_responses-serve (f ∷ fs) buffer pull push remained holds =
    let (same_word, first, rest) = Holds-cons f fs buffer pull push holds in
    let (ring, whole, bound, content) = holds in
    let (quadlets, word, len, some_words) = whole.0 in
    let inside = ring.0 in
    let small = ring.3 in
    let size : quadlets * 4 % 2 ^ 32 ≡ length f = omega arith in
    let here = same_word ∙ word in
    elim (Bool-cases (ltb remained (length f))) [
      | inl h ↦ (pull, rw (here, size, h) refl, rw h holds)
      | inr h ↦
          let (q, served, left) =
            read_responses-serve fs buffer (wrap (length buffer) (pull + length f)) push
              (remained - length f) rest in
          let copied = copy_out-eq-pop_bytes buffer pull (length f) inside (omega arith) in
          (q, rw (here, size, h, copied, first, served) refl, rw h left)
    ]

-- A read by user space, when the buffer that it gives has room for the type and the header of a
-- response, hands over the first responses of the queue, as many as fit, whole and in their order,
-- and leaves the others in the ring.
pub hwdep_read_resp_buf-serve :
    (r : Responses) (frames : List (List ℕ)) (remained : ℕ)
    → Represents r frames
    → 28 ≤ remained
    → (r' : Responses) × (hwdep_read_resp_buf r remained
        ≡ some (ok (joined (serve (remained - 4) frames).0), r'))
      × Represents r' (serve (remained - 4) frames).1
unfolding hwdep_read_resp_buf
hwdep_read_resp_buf-serve r frames remained (ring, whole, queues, bound, content) h =
    let (q, e, left) =
      read_responses-serve frames r.resp_buf r.pull_ptr r.push_ptr (remained - 4)
        (ring, whole, bound, content) in
    let room : ltb remained 28 ≡ false = ground arith in
    let (ring', whole', bound', content') = left in
    (
      record r { pull_ptr = q; resp_queues = length (serve (remained - 4) frames).1 },
      rw (room, queues, e) refl,
      (ring', whole', refl, bound', content'),
    )
