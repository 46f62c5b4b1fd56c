-- ===== src/Fireworks/Ring/Bytes.antt =====
-- The copying loops move byte by byte round the ring.
use snd_firewire_improve.Common.{
  ℕ, zero, suc, ◌+◌, ◌-◌, ◌≤◌, ◌<◌, ◌≡◌, ◌∙◌, inl, inr, refl, ap, leb, ◌==◌, min, Bool-cases, false,
  List, [], ◌∷◌, length, drop-length, length-drop, take, drop, get_elem?, set, store, store-eq-set,
  length-set, Option, some, ◌>>=◌, arith,
}
use snd_firewire_improve.Fireworks.Ring.{wrap, write_at, copy_in}

-- One byte after another, with the pointer wrapped after each.
unfoldable pub push_bytes : List ℕ → ℕ → List ℕ → Option (List ℕ × ℕ)
push_bytes buffer p [] = some (buffer, p)
push_bytes buffer p (x ∷ xs) =
    store buffer p x >>= λ b. push_bytes b (wrap (length buffer) (p + 1)) xs

unfoldable pub pop_bytes : ℕ → List ℕ → ℕ → Option (List ℕ × ℕ)
pop_bytes zero buffer p = some ([], p)
pop_bytes (suc n) buffer p = get_elem? buffer p >>= λ x.
    pop_bytes n buffer (wrap (length buffer) (p + 1)) >>= λ r. some (x ∷ r.0, r.1)

-- A part up to the end of the buffer, and what follows it.
push_part :
    (k : ℕ) (buffer : List ℕ) (p : ℕ) (xs : List ℕ)
    → k ≤ length xs
    → p < length buffer
    → p + k ≤ length buffer
    → (b : List ℕ) × (write_at buffer p (take k xs) ≡ some b)
      × (length b ≡ length buffer)
      × (push_bytes buffer p xs ≡ push_bytes b (wrap (length buffer) (p + k)) (drop k xs))
unfolding push_bytes write_at
push_part zero buffer p xs h q l =
    let same : wrap (length buffer) (p + 0) ≡ p = ground arith in (buffer, refl, refl, rw same refl)
push_part (suc k) buffer p [] h q l = absurd (omega arith)
push_part (suc zero) buffer p (x ∷ xs) h q l =
    let b = set buffer p x in
    (
      b,
      rw (store-eq-set buffer p x q) refl,
      length-set buffer p x,
      rw (store-eq-set buffer p x q) refl,
    )
push_part (suc (suc k)) buffer p (x ∷ xs) h q l =
    let c = set buffer p x in
    let m : length c ≡ length buffer = length-set buffer p x in
    let (b, e, n, f) = push_part (suc k) c (p + 1) xs (omega arith) (omega arith) (omega arith) in
    let inside : wrap (length buffer) (p + 1) ≡ p + 1 = ground arith in
    let next : wrap (length c) (p + 1 + suc k) ≡ wrap (length buffer) (p + suc (suc k)) =
      ground arith in
    (
      b,
      rw (store-eq-set buffer p x q) e,
      n ∙ m,
      rw (store-eq-set buffer p x q)
          (rw inside (f ∙ ap (λ (r : ℕ). push_bytes b r (drop (suc k) xs)) next)),
    )

-- One round of the copying loop, with bytes left.
copy_in_round :
    (n : ℕ) (buffer : List ℕ) (p : ℕ) (xs : List ℕ)
    → 0 < length xs
    → p < length buffer
    → (b : List ℕ) × (length b ≡ length buffer)
      × (copy_in (suc n) buffer p xs
          ≡ copy_in n b
              (wrap (length buffer) (p + min (length xs) (length buffer - p)))
              (drop (min (length xs) (length buffer - p)) xs))
      × (push_bytes buffer p xs
          ≡ push_bytes b
              (wrap (length buffer) (p + min (length xs) (length buffer - p)))
              (drop (min (length xs) (length buffer - p)) xs))
unfolding copy_in
copy_in_round n buffer p xs h q =
    let k = min (length xs) (length buffer - p) in
    let (b, w, l, e) = push_part k buffer p xs (omega arith) q (omega arith) in
    let some_left : (length xs == 0) ≡ false = ground arith in (b, l, rw some_left (rw w refl), e)

-- The last round: the bytes fit in front of the end.
copy_in_fits :
    (n : ℕ) (buffer : List ℕ) (p : ℕ) (xs : List ℕ)
    → p < length buffer
    → length xs ≤ length buffer - p
    → copy_in (suc (suc n)) buffer p xs ≡ push_bytes buffer p xs
unfolding copy_in push_bytes
copy_in_fits n buffer p [] q l = refl
copy_in_fits n buffer p (x ∷ xs) q l =
    let (b, m, c, e) = copy_in_round (suc n) buffer p (x ∷ xs) (omega arith) q in
    let whole : drop (min (length (x ∷ xs)) (length buffer - p)) (x ∷ xs) ≡ [] =
      drop-length (min (length (x ∷ xs)) (length buffer - p)) (x ∷ xs) (omega arith) in
    rw (c, e, whole) refl

-- The copying loop puts the bytes in one after another, if the ring can hold them.
pub copy_in-eq-push_bytes :
    (buffer : List ℕ) (p : ℕ) (xs : List ℕ)
    → p < length buffer
    → length xs ≤ length buffer
    → copy_in 3 buffer p xs ≡ push_bytes buffer p xs
copy_in-eq-push_bytes buffer p xs q l = elim (Bool-cases (leb (length xs) (length buffer - p))) [
  | inl h ↦ copy_in_fits 1 buffer p xs q (ground arith)
  | inr h ↦
      let k = length buffer - p in
      let over : k < length xs = ground arith in
      let (b, n, c, e) =
        copy_in_round 2 buffer p xs (let left : 1 ≤ length xs = omega arith in left) q in
      let m : min (length xs) (length buffer - p) ≡ k = omega arith in
      let at_start : wrap (length buffer) (p + min (length xs) (length buffer - p)) ≡ 0 =
        ground arith in
      let rest = length-drop k xs in
      rw (c, e, at_start, m) (copy_in_fits 0 b 0 (drop k xs) (omega arith) (omega arith))
]
