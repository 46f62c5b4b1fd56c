-- ===== src/Fireworks/Ring/Read.antt =====
-- Reading from the ring byte by byte: what a read gives, in parts, and the loop that copies it.
use snd_firewire_improve.Common.{
  ℕ, zero, suc, ◌+◌, ◌-◌, ◌≤◌, ◌<◌, ◌≡◌, inl, inr, refl, sym, ap, leb, ◌==◌, min, Bool-cases, false,
  List, [], ◌∷◌, ◌++◌, length, get_elem?, get_elem?-some, append-nil, >>=-eq-some, some, arith,
}
use snd_firewire_improve.Fireworks.Ring.{wrap, read_at, copy_out}
use snd_firewire_improve.Fireworks.Ring.Bytes.{pop_bytes}

-- A read inside the ring always gives its bytes.
pub pop_bytes_lem :
    (n : ℕ) (buffer : List ℕ) (p : ℕ)
    → p < length buffer
    → n ≤ length buffer
    → (xs : List ℕ) × (pop_bytes n buffer p ≡ some (xs, wrap (length buffer) (p + n)))
      × (length xs ≡ n)
unfolding pop_bytes
pop_bytes_lem zero buffer p q l =
    let same : wrap (length buffer) (p + 0) ≡ p = ground arith in ([], rw same refl, refl)
pop_bytes_lem (suc n) buffer p q l =
    let (x, e) = get_elem?-some buffer p q in
    let (xs, f, m) =
      pop_bytes_lem n buffer (wrap (length buffer) (p + 1)) (ground arith) (omega arith) in
    let next : wrap (length buffer) (wrap (length buffer) (p + 1) + n)
        ≡ wrap (length buffer) (p + suc n) =
      ground arith in
    (x ∷ xs, rw (e, f, next) refl, ap suc m)

-- A read in two parts.
pub pop-append :
    (m n : ℕ) (buffer : List ℕ) (p : ℕ) {xs ys : List ℕ} {q r : ℕ}
    → pop_bytes m buffer p ≡ some (xs, q)
    → pop_bytes n buffer q ≡ some (ys, r)
    → pop_bytes (m + n) buffer p ≡ some (xs ++ ys, r)
unfolding pop_bytes
pop-append zero n buffer p {xs = xs} {ys = ys} {q = q} {r = r} h k =
    let left : [] ≡ xs = cc in
    let same : p ≡ q = cc in let sum : 0 + n ≡ n = omega arith in rw (sum, same, sym left) k
pop-append (suc m) n buffer p {xs = xs} {ys = ys} {q = q} {r = r} h k =
    let (x, e, f) = >>=-eq-some (get_elem? buffer p) _ h in
    let (c, g, i) = >>=-eq-some (pop_bytes m buffer (wrap (length buffer) (p + 1))) _ f in
    let left : x ∷ c.0 ≡ xs = cc in
    let same : c.1 ≡ q = cc in
    let rest =
      pop-append m n buffer (wrap (length buffer) (p + 1)) {ys = ys} {r = r} g (rw same k) in
    let sum : suc m + n ≡ suc (m + n) = omega arith in rw (sum, e, rest, sym left) refl

-- A part up to the end of the buffer.
read_at_lem :
    (k : ℕ) (buffer : List ℕ) (p : ℕ)
    → p < length buffer
    → p + k ≤ length buffer
    → (xs : List ℕ) × (read_at buffer p k ≡ some xs)
      × (pop_bytes k buffer p ≡ some (xs, wrap (length buffer) (p + k)))
unfolding pop_bytes read_at
read_at_lem zero buffer p q l =
    let same : wrap (length buffer) (p + 0) ≡ p = ground arith in ([], refl, rw same refl)
read_at_lem (suc zero) buffer p q l =
    let (x, e) = get_elem?-some buffer p q in (x ∷ [], rw e refl, rw e refl)
read_at_lem (suc (suc k)) buffer p q l =
    let (x, e) = get_elem?-some buffer p q in
    let (xs, f, g) = read_at_lem (suc k) buffer (p + 1) (omega arith) (omega arith) in
    let inside : wrap (length buffer) (p + 1) ≡ p + 1 = ground arith in
    let next : p + 1 + suc k ≡ p + suc (suc k) = omega arith in
    (x ∷ xs, rw e (rw f refl), rw e (rw inside (rw g (rw next refl))))

-- The last round: the response ends in front of the end of the buffer.
copy_out_fits :
    (m : ℕ) (buffer : List ℕ) (p n : ℕ)
    → p < length buffer
    → n ≤ length buffer - p
    → copy_out (suc (suc m)) buffer p n ≡ pop_bytes n buffer p
unfolding copy_out pop_bytes
copy_out_fits m buffer p zero q l = refl
copy_out_fits m buffer p (suc n) q l =
    let (xs, e, f) = read_at_lem (suc n) buffer p q (omega arith) in
    let all : min (suc n) (length buffer - p) ≡ suc n = omega arith in
    let none_left : suc n - suc n ≡ 0 = omega arith in
    let some_left : (suc n == 0) ≡ false = ground arith in
    rw (some_left, f, all, e, none_left) (rw (append-nil xs) refl)

-- The copying loop reads one byte after another.
pub copy_out-eq-pop_bytes :
    (buffer : List ℕ) (p n : ℕ)
    → p < length buffer
    → n ≤ length buffer
    → copy_out 3 buffer p n ≡ pop_bytes n buffer p
unfolding copy_out
copy_out-eq-pop_bytes buffer p n q l = elim (Bool-cases (leb n (length buffer - p))) [
  | inl h ↦ copy_out_fits 1 buffer p n q (ground arith)
  | inr h ↦
      let k = length buffer - p in
      let over : k < n = ground arith in
      let (xs, e, f) = read_at_lem k buffer p q (omega arith) in
      let last = copy_out_fits 0 buffer 0 (n - k) (omega arith) (omega arith) in
      let (ys, g, m) = pop_bytes_lem (n - k) buffer 0 (omega arith) (omega arith) in
      let at_start : wrap (length buffer) (p + k) ≡ 0 = ground arith in
      let both = pop-append k (n - k) buffer p (rw at_start at f) g in
      let parts : k + (n - k) ≡ n = omega arith in
      let whole : min n (length buffer - p) ≡ k = omega arith in
      let some_left : (n == 0) ≡ false = ground arith in
      rw (some_left, whole, e, at_start, last, g) (sym (rw parts at both))
]
