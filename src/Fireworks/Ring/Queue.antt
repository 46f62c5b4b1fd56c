-- ===== src/Fireworks/Ring/Queue.antt =====
-- The ring buffer is a bounded queue of responses: what user space reads are the responses that were
-- taken, whole and in their order.
use snd_firewire_improve.Common.{
  ℕ, zero, suc, ◌+◌, ◌-◌, ◌*◌, ◌%◌, ◌≤◌, ◌<◌, ◌≡◌, inl, inr, refl, sym, leb, ltb, if◌then◌else◌,
  min, Bool, Bool-cases, true, false, List, [], ◌∷◌, ◌++◌, length, length-append, length-take, All,
  take, get_elem?, get_elem?-take, append-nil, append_assoc, some, >>=-eq-some, arith,
}
use snd_firewire_improve.Fireworks.Ring.{Responses, word_at, wrap, capacity, copy_resp_to_buf}
use snd_firewire_improve.Fireworks.Ring.Bytes.{pop_bytes, copy_in-eq-push_bytes}
use snd_firewire_improve.Fireworks.Ring.Read.{pop_bytes_lem}
use snd_firewire_improve.Fireworks.Ring.Write.{push_bytes_lem}

-- A response whose `length` field counts the quadlets that it has.
abbrev pub IsFrame : List ℕ → Type 0
IsFrame f =
    (quadlets : ℕ) × (word_at f 0 ≡ some quadlets) × (length f ≡ quadlets * 4) × (0 < quadlets)

abbrev pub joined : List (List ℕ) → List ℕ
joined [] = []
joined (f ∷ fs) = f ++ joined fs

abbrev pub total : List (List ℕ) → ℕ
total [] = 0
total (f ∷ fs) = length f + total fs

-- The queue takes a response that fits.
abbrev pub offer : ℕ → List (List ℕ) → List ℕ → Bool × List (List ℕ)
offer size frames f =
    if leb (total frames + length f) size then (true, frames ++ (f ∷ [])) else (false, frames)

-- The queue hands over the first responses, as many as fit.
abbrev pub serve : ℕ → List (List ℕ) → List (List ℕ) × List (List ℕ)
serve remained [] = ([], [])
serve remained (f ∷ fs) =
    let rest = serve (remained - length f) fs in
    if ltb remained (length f) then ([], f ∷ fs) else (f ∷ rest.0, rest.1)

-- A ring of whole quadlets, which `snd_efw_resp_buf_size` is by default and at both of its bounds.
abbrev pub IsRing : List ℕ → ℕ → Type 0
IsRing buffer pull =
    (pull < length buffer) × (pull % 4 ≡ 0) × (length buffer % 4 ≡ 0) × (length buffer ≤ 4096)

abbrev pub Represents : Responses → List (List ℕ) → Type 0
Represents r frames =
    IsRing r.resp_buf r.pull_ptr
    × All IsFrame frames
    × (r.resp_queues ≡ length frames)
    × (total frames ≤ length r.resp_buf)
    × (pop_bytes (total frames) r.resp_buf r.pull_ptr ≡ some (joined frames, r.push_ptr))

length-joined : (fs : List (List ℕ)) → length (joined fs) ≡ total fs
length-joined [] = refl
length-joined (f ∷ fs) = omega (arith, length-append f (joined fs), length-joined fs)

joined-snoc : (fs : List (List ℕ)) (f : List ℕ) → joined (fs ++ (f ∷ [])) ≡ joined fs ++ f
joined-snoc [] f = append-nil f
joined-snoc (g ∷ fs) f = rw (joined-snoc fs f) (sym (append_assoc g (joined fs) f))

total-snoc : (fs : List (List ℕ)) (f : List ℕ) → total (fs ++ (f ∷ [])) ≡ total fs + length f
total-snoc [] f = omega arith
total-snoc (g ∷ fs) f = omega (arith, total-snoc fs f)

All-snoc {ℓ κ} :
    {A : Type ℓ} (P : A → Type κ) (xs : List A) (x : A) → All P xs → P x → All P (xs ++ (x ∷ []))
All-snoc P [] x h p = (p, tt)
All-snoc P (y ∷ ys) x h p = (h.0, All-snoc P ys x h.1 p)

-- Bytes of the ring in front of its end stand where they are read.
pop-get_elem? :
    (i n : ℕ) (buffer : List ℕ) (p : ℕ) {xs : List ℕ} {r : ℕ}
    → i < n
    → p + i < length buffer
    → pop_bytes n buffer p ≡ some (xs, r)
    → get_elem? buffer (p + i) ≡ get_elem? xs i
unfolding pop_bytes
pop-get_elem? i zero buffer p h l e = absurd (omega arith)
pop-get_elem? zero (suc n) buffer p {xs = xs} h l e =
    let (x, f, g) = >>=-eq-some (get_elem? buffer p) _ e in
    let (c, k, m) = >>=-eq-some (pop_bytes n buffer (wrap (length buffer) (p + 1))) _ g in
    let here : p + 0 ≡ p = omega arith in
    let front : x ∷ c.0 ≡ xs = cc in rw (here, f, sym front) refl
pop-get_elem? (suc i) (suc n) buffer p {xs = xs} h l e =
    let (x, f, g) = >>=-eq-some (get_elem? buffer p) _ e in
    let (c, k, m) = >>=-eq-some (pop_bytes n buffer (wrap (length buffer) (p + 1))) _ g in
    let inside : wrap (length buffer) (p + 1) ≡ p + 1 = ground arith in
    let front : x ∷ c.0 ≡ xs = cc in
    let there : p + suc i ≡ p + 1 + i = omega arith in
    rw (there, sym front)
      (pop-get_elem? i n buffer (p + 1) {r = c.1} (omega arith) (omega arith) (rw inside at k))

pub pop-word_at :
    (n : ℕ) (buffer : List ℕ) (p : ℕ) {xs : List ℕ} {r : ℕ}
    → 4 ≤ n
    → p + 4 ≤ length buffer
    → pop_bytes n buffer p ≡ some (xs, r)
    → word_at buffer p ≡ word_at xs 0
unfolding word_at
pop-word_at n buffer p h l e =
    let zeroth = pop-get_elem? 0 n buffer p (omega arith) (omega arith) e in
    let same : p + 0 ≡ p = omega arith in
    rw
      (
        rw same at zeroth,
        pop-get_elem? 1 n buffer p (omega arith) (omega arith) e,
        pop-get_elem? 2 n buffer p (omega arith) (omega arith) e,
        pop-get_elem? 3 n buffer p (omega arith) (omega arith) e,
      )
      refl

-- The space of a ring that is not full.
capacity_lem :
    (r : Responses) (frames : List (List ℕ))
    → Represents r frames
    → total frames < length r.resp_buf
    → (r.push_ptr < length r.resp_buf) × (capacity r ≡ length r.resp_buf - total frames)
unfolding capacity
capacity_lem r frames (ring, whole, queues, bound, content) h =
    let (xs, e, m) = pop_bytes_lem (total frames) r.resp_buf r.pull_ptr ring.0 bound in
    let at_end : r.push_ptr ≡ wrap (length r.resp_buf) (r.pull_ptr + total frames) = cc in
    let inside = ring.0 in (ground arith, ground arith)

-- The bytes of a response that are taken: those that its `length` field counts.
IsFrame-take :
    (response : List ℕ) (quadlets : ℕ)
    → word_at response 0 ≡ some quadlets
    → 0 < quadlets
    → quadlets * 4 ≤ length response
    → IsFrame (take (quadlets * 4) response)
unfolding word_at
IsFrame-take response quadlets e h l =
    let k = quadlets * 4 in
    let at0 = get_elem?-take k response 0 (omega arith) in
    let at1 = get_elem?-take k response (0 + 1) (omega arith) in
    let at2 = get_elem?-take k response (0 + 2) (omega arith) in
    let at3 = get_elem?-take k response (0 + 3) (omega arith) in
    (quadlets, rw (at0, at1, at2, at3) e, omega (arith, length-take k response), h)

-- A ring that stands for a queue and is not full takes a response as the queue does, where the
-- length field of the response is not 0 and counts no more than what was received: the bytes that
-- it counts become the last response if they fit with those of the others, and else the response is
-- refused and the ring is unchanged.
pub copy_resp_to_buf-offer :
    (r : Responses) (frames : List (List ℕ)) (response : List ℕ) (quadlets : ℕ)
    → Represents r frames
    → total frames < length r.resp_buf
    → word_at response 0 ≡ some quadlets
    → 0 < quadlets
    → quadlets * 4 ≤ length response
    → (r' : Responses) × (copy_resp_to_buf r response
        ≡ some ((offer (length r.resp_buf) frames (take (quadlets * 4) response)).0, r'))
      × Represents r' (offer (length r.resp_buf) frames (take (quadlets * 4) response)).1
unfolding copy_resp_to_buf
copy_resp_to_buf-offer r frames response quadlets rep h e p l =
    let f = take (quadlets * 4) response in
    let frame = IsFrame-take response quadlets e p l in
    let size : min (quadlets * 4) (length response) ≡ quadlets * 4 = omega arith in
    let len : length f ≡ quadlets * 4 = omega (arith, length-take (quadlets * 4) response) in
    let (inside, cap) = capacity_lem r frames rep h in
    let (ring, whole, queues, bound, content) = rep in
    elim (Bool-cases (leb (total frames + length f) (length r.resp_buf))) [
      | inr o ↦
          let small : ltb (capacity r) (quadlets * 4) ≡ true = ground arith in
          (r, rw (e, o, size, small) refl, rw o rep)
      | inl o ↦
          let enough : ltb (capacity r) (quadlets * 4) ≡ false = ground arith in
          let fits : total frames + length f ≤ length r.resp_buf = ground arith in
          let (b, q, put, m, all) =
            push_bytes_lem f (total frames) r.resp_buf r.pull_ptr ring.0 fits content in
          let copied = copy_in-eq-push_bytes r.resp_buf r.push_ptr f inside (omega arith) in
          let r' = record r { resp_buf = b; push_ptr = q; resp_queues = r.resp_queues + 1 } in
          let sum = total-snoc frames f in
          (
            r',
            rw (e, o, size, enough, copied, put) refl,
            rw o (
              (rw m ring.0, ring.1, rw m ring.2, rw m ring.3),
              All-snoc IsFrame frames f whole frame,
              rw queues (sym (length-append frames (f ∷ []))),
              rw (sum, m) fits,
              rw (sum, joined-snoc frames f) all,
            ),
          )
    ]
