-- ===== src/Fireworks/Ring/Write.antt =====
-- Writing to the ring byte by byte: what a later read gives.
use snd_firewire_improve.Common.{
  ℕ, zero, suc, ◌+◌, ◌≤◌, ◌<◌, ◌≡◌, ◌≢◌, ◌∙◌, refl, List, [], ◌∷◌, ◌++◌, length, get_elem?-set_ne,
  get_elem?-set_self, set, length-set, store-eq-set, append-nil, append_assoc, some, arith,
}
use snd_firewire_improve.Fireworks.Ring.{wrap}
use snd_firewire_improve.Fireworks.Ring.Bytes.{push_bytes, pop_bytes}
use snd_firewire_improve.Fireworks.Ring.Read.{pop_bytes_lem, pop-append}

-- A store just behind the bytes does not change them.
pop-set :
    (n : ℕ) (buffer : List ℕ) (q p x : ℕ)
    → q < length buffer
    → n < length buffer
    → p ≡ wrap (length buffer) (q + n)
    → pop_bytes n (set buffer p x) q ≡ pop_bytes n buffer q
unfolding pop_bytes
pop-set zero buffer q p x h l e = refl
pop-set (suc n) buffer q p x h l e =
    let other : p ≢ q = λ (same : p ≡ q). ground arith in
    let next : p ≡ wrap (length buffer) (wrap (length buffer) (q + 1) + n) = ground arith in
    let rest =
      pop-set n buffer (wrap (length buffer) (q + 1)) p x (ground arith) (omega arith) next in
    rw (get_elem?-set_ne buffer x other, length-set buffer p x, rest) refl

-- A byte that is put behind others is read after them.
pop-set_last :
    (n : ℕ) (buffer : List ℕ) (q x : ℕ) {xs : List ℕ} {p : ℕ}
    → q < length buffer
    → n < length buffer
    → pop_bytes n buffer q ≡ some (xs, p)
    → (p ≡ wrap (length buffer) (q + n))
      × (pop_bytes (n + 1) (set buffer p x) q ≡ some (xs ++ (x ∷ []), wrap (length buffer) (p + 1)))
unfolding pop_bytes
pop-set_last n buffer q x {xs = xs} {p = p} h l e =
    let (ys, f, m) = pop_bytes_lem n buffer q h (omega arith) in
    let at_end : p ≡ wrap (length buffer) (q + n) = cc in
    let same = pop-set n buffer q p x h l at_end in
    let inside : p < length buffer = ground arith in
    let one : pop_bytes 1 (set buffer p x) p ≡ some (x ∷ [], wrap (length buffer) (p + 1)) =
      rw (get_elem?-set_self buffer p x inside, length-set buffer p x) refl in
    (at_end, pop-append n 1 (set buffer p x) q (same ∙ e) one)

-- What is put behind the bytes of the ring is read after them.
pub push_bytes_lem :
    (ys : List ℕ) (n : ℕ) (buffer : List ℕ) (q : ℕ) {xs : List ℕ} {p : ℕ}
    → q < length buffer
    → n + length ys ≤ length buffer
    → pop_bytes n buffer q ≡ some (xs, p)
    → (b : List ℕ) × (r : ℕ) × (push_bytes buffer p ys ≡ some (b, r))
      × (length b ≡ length buffer)
      × (pop_bytes (n + length ys) b q ≡ some (xs ++ ys, r))
unfolding push_bytes
push_bytes_lem [] n buffer q {xs = xs} {p = p} h l e =
    let sum : n + 0 ≡ n = omega arith in (buffer, p, refl, refl, rw (sum, append-nil xs) e)
push_bytes_lem (y ∷ ys) n buffer q {xs = xs} {p = p} h l e =
    let (at_end, one) = pop-set_last n buffer q y h (omega arith) e in
    let inside : p < length buffer = ground arith in
    let m = length-set buffer p y in
    let (b, r, f, k, g) =
      push_bytes_lem ys (n + 1) (set buffer p y) q (omega arith) (omega arith) one in
    let sum : n + 1 + length ys ≡ n + suc (length ys) = omega arith in
    (b, r, rw (store-eq-set buffer p y inside) f, k ∙ m, rw (sum, append_assoc xs (y ∷ []) ys) at g)
