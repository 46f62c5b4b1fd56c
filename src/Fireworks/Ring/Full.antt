-- ===== src/Fireworks/Ring/Full.antt =====
-- A full ring.
use snd_firewire_improve.Common.{
  ℕ, ◌+◌, ◌*◌, ◌≤◌, ◌≡◌, refl, ltb, min, true, false, List, length, length-take_le, take, some,
  arith,
}
use snd_firewire_improve.Fireworks.Ring.{Responses, word_at, wrap, capacity, copy_resp_to_buf}
use snd_firewire_improve.Fireworks.Ring.Bytes.{pop_bytes, copy_in-eq-push_bytes}
use snd_firewire_improve.Fireworks.Ring.Read.{pop_bytes_lem}
use snd_firewire_improve.Fireworks.Ring.Write.{push_bytes_lem}
use snd_firewire_improve.Fireworks.Ring.Queue.{total, Represents}

-- The two pointers of a full ring are the same, as they are in an empty one.
capacity_full :
    (r : Responses) (frames : List (List ℕ))
    → Represents r frames
    → total frames ≡ length r.resp_buf
    → (r.push_ptr ≡ r.pull_ptr) × (capacity r ≡ length r.resp_buf)
unfolding capacity
capacity_full r frames (ring, whole, queues, bound, content) h =
    let (xs, e, m) = pop_bytes_lem (total frames) r.resp_buf r.pull_ptr ring.0 bound in
    let at_end : r.push_ptr ≡ wrap (length r.resp_buf) (r.pull_ptr + total frames) = cc in
    let inside = ring.0 in (ground arith, ground arith)

-- A ring that holds responses up to its last byte takes any other response that is not longer than
-- the ring, and writes it over those that nobody has read yet: the bytes at the read pointer are the
-- new response's, and the number of responses grows.
pub copy_resp_to_buf_full :
    (r : Responses) (frames : List (List ℕ)) (response : List ℕ) (quadlets : ℕ)
    → Represents r frames
    → total frames ≡ length r.resp_buf
    → word_at response 0 ≡ some quadlets
    → quadlets * 4 ≤ length response
    → quadlets * 4 ≤ length r.resp_buf
    → (r' : Responses) × (q : ℕ) × (copy_resp_to_buf r response ≡ some (true, r'))
      × (r'.pull_ptr ≡ r.pull_ptr)
      × (r'.resp_queues ≡ length frames + 1)
      × (pop_bytes (quadlets * 4) r'.resp_buf r'.pull_ptr ≡ some (take (quadlets * 4) response, q))
unfolding copy_resp_to_buf pop_bytes
copy_resp_to_buf_full r frames response quadlets rep h e l fits =
    let f = take (quadlets * 4) response in
    let len : length f ≡ quadlets * 4 = length-take_le (quadlets * 4) response l in
    let inside = rep.0.0 in
    let room : 0 + length f ≤ length r.resp_buf = omega arith in
    let (b, q, put, m, all) = push_bytes_lem f 0 r.resp_buf r.pull_ptr inside room refl in
    let copied = copy_in-eq-push_bytes r.resp_buf r.pull_ptr f inside (omega arith) in
    let (same, cap) = capacity_full r frames rep h in
    let enough : ltb (capacity r) (quadlets * 4) ≡ false = ground arith in
    let size : min (quadlets * 4) (length response) ≡ quadlets * 4 = omega arith in
    let sum : 0 + length f ≡ quadlets * 4 = omega arith in
    (
      record r { resp_buf = b; push_ptr = q; resp_queues = r.resp_queues + 1 },
      q,
      rw (e, size, enough, same, copied, put) refl,
      refl,
      rw (rep.2) refl,
      rw sum at all,
    )
